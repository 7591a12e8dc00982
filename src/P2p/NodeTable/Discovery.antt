-- ===== src/P2p/NodeTable/Discovery.antt =====
-- `doDiscover` of libp2p/NodeTable.cpp: the rounds of requests to the nodes that are near a target.
-- The timer between two rounds is the result `waits`; the call of doDiscovery, which starts anew later, is `ended`.
-- A set of entries that were tried is the list of their numbers.
use x_chain.Prelude.{
  Option-cases, ℕ, ◌+◌, ◌-◌, ◌*◌, ◌≤◌, ◌<◌, ◌≡◌, refl, ap, ◌∙◌, subst, ◌⊎◌, inl, inr, Bool, false,
  not, ◌||◌, Option, none, some, List, [], ◌∷◌, ◌++◌, ◌==◌, if◌then◌else◌, Bool-cases, length,
  length-append, get_elem?, arith, All,
}
use x_chain.P2p.NodeTable.{Network, NodeTable, NodeEntry, find_node, send, alpha, max_steps}
use x_chain.P2p.NodeTable.Nearest.{nearest_node_entries}

pub data Discovery : Type 0 where
  closed : Discovery
  ended : Discovery
  waits : ℕ → List ℕ → Discovery

unfoldable pub is_tried : ℕ → List ℕ → Bool
is_tried h [] = false
is_tried h (x ∷ l) = (h == x) || is_tried h l

-- The loop over the nearest nodes, with the requests that may still be sent.
unfoldable pub choose : ℕ → List ℕ → List ℕ → List ℕ
choose room tried [] = []
choose room tried (h ∷ l) =
    let next = choose (room - 1) tried l in
    let skip = choose room tried l in
    if room == 0 then [] else if is_tried h tried then skip else h ∷ next

unfoldable pub ask_entry : NodeTable → ℕ → ℕ → Option NodeEntry → NodeTable
ask_entry t now target none = t
ask_entry t now target (some e) =
    send (record t { find_node_timeout = t.find_node_timeout ++ ((e.id, now) ∷ []) })
      (find_node e.endpoint target)

unfoldable pub ask_all : NodeTable → ℕ → ℕ → List ℕ → NodeTable
ask_all t now target [] = t
ask_all t now target (h ∷ l) = ask_all (ask_entry t now target (get_elem? t.entries h)) now target l

unfoldable pub ask_round : NodeTable → ℕ → ℕ → ℕ → List ℕ → List ℕ → NodeTable × Discovery
ask_round t now target round tried [] = (t, ended)
ask_round t now target round tried (h ∷ l) =
    (ask_all t now target (h ∷ l), waits (round + 1) (tried ++ (h ∷ l)))

unfoldable pub do_discover :
    Network → (ℕ → Bool) → NodeTable → ℕ → ℕ → ℕ → List ℕ → NodeTable × Discovery
do_discover net alive t now target round tried =
    let chosen = choose alpha tried (nearest_node_entries net alive t target) in
    if not t.is_open
    then (t, closed)
    else if round == max_steps
    then (t, ended)
    else ask_round t now target round tried chosen

-- The rounds that a discovery comes to, whatever happens to the table between them.
pub data Comes (net : Network) (target : ℕ) : ℕ → List ℕ → Type 0 where
  begin : Comes net target 0 []
  later :
      {round round' : ℕ} {tried tried' : List ℕ}
      → Comes net target round tried
      → (alive : ℕ → Bool) (t : NodeTable) (now : ℕ)
      → (do_discover net alive t now target round tried).1 ≡ waits round' tried'
      → Comes net target round' tried'

-- The next round of a result, with the nodes that are asked for it.
abbrev pub Goes : ℕ → List ℕ → Discovery → Type 0
Goes round tried closed = Unit
Goes round tried ended = Unit
Goes round tried (waits round' tried') =
    (round' ≡ round + 1)
    × (round < max_steps ⊎ max_steps < round)
    × (asked : List ℕ) × (tried' ≡ tried ++ asked)
    × (1 ≤ length asked)
    × (length asked ≤ alpha)
    × All (λ h. is_tried h tried ≡ false) asked

ask_all-buckets :
    (t : NodeTable) (now target : ℕ) (l : List ℕ) → (ask_all t now target l).buckets ≡ t.buckets
unfolding ask_all ask_entry send
ask_all-buckets t now target [] = refl
ask_all-buckets t now target (h ∷ l) =
    ask_all-buckets (ask_entry t now target (get_elem? t.entries h)) now target l
    ∙ elim (Option-cases (get_elem? t.entries h)) [ inl p ↦ rw p refl | inr (e, p) ↦ rw p refl ]

ask_round-buckets :
    (t : NodeTable) (now target round : ℕ) (tried chosen : List ℕ)
    → (ask_round t now target round tried chosen).0.buckets ≡ t.buckets
unfolding ask_round
ask_round-buckets t now target round tried [] = refl
ask_round-buckets t now target round tried (h ∷ l) = ask_all-buckets t now target (h ∷ l)

pub do_discover-buckets :
    (net : Network) (alive : ℕ → Bool) (t : NodeTable) (now target round : ℕ) (tried : List ℕ)
    → (do_discover net alive t now target round tried).0.buckets ≡ t.buckets
unfolding do_discover
do_discover-buckets net alive t now target round tried = elim (Bool-cases (not t.is_open)) [
  | inl shut ↦ rw shut refl
  | inr up ↦ rw up (elim (Bool-cases (round == max_steps)) [
    | inl last ↦ rw last refl
    | inr more ↦ rw more (ask_round-buckets t now target round tried _)
  ])
]

choose_lem :
    (room : ℕ) (tried l : List ℕ)
    → (length (choose room tried l) ≤ room)
      × All (λ h. is_tried h tried ≡ false) (choose room tried l)
unfolding choose
choose_lem room tried [] = (omega arith, tt)
choose_lem room tried (h ∷ l) = elim (Bool-cases (room == 0)) [
  | inl e ↦ rw e (omega arith, tt)
  | inr e ↦ rw e (elim (Bool-cases (is_tried h tried)) [
    | inl old ↦ rw old (choose_lem room tried l)
    | inr fresh ↦
        let (le, all) = choose_lem (room - 1) tried l in
        let more : 0 < room = ground arith in rw fresh (omega (arith, le, more), (fresh, all))
  ])
]

ask_round-Goes :
    (t : NodeTable) (now target round : ℕ) (tried chosen : List ℕ)
    → (round < max_steps ⊎ max_steps < round)
    → length chosen ≤ alpha
    → All (λ h. is_tried h tried ≡ false) chosen
    → Goes round tried (ask_round t now target round tried chosen).1
unfolding ask_round
ask_round-Goes t now target round tried [] other le all = tt
ask_round-Goes t now target round tried (h ∷ l) other le all =
    (refl, other, h ∷ l, refl, omega arith, le, all)

do_discover-Goes :
    (net : Network) (alive : ℕ → Bool) (t : NodeTable) (now target round : ℕ) (tried : List ℕ)
    → Goes round tried (do_discover net alive t now target round tried).1
unfolding do_discover
do_discover-Goes net alive t now target round tried =
    let (le, all) = choose_lem alpha tried (nearest_node_entries net alive t target) in
    elim (Bool-cases (not t.is_open)) [
      | inl shut ↦ rw shut tt
      | inr up ↦ rw up (elim (Bool-cases (round == max_steps)) [
        | inl last ↦ rw last tt
        | inr more ↦
            let other : (round < max_steps) ⊎ (max_steps < round) = ground arith in
            rw more (ask_round-Goes t now target round tried _ other le all)
      ])
    ]

-- Whatever happens to the table between its rounds, a discovery waits for no round behind the eighth, and when it comes to a round,
-- the nodes that it has tried are at least as many as the rounds before, and at most three times as many.
pub Comes-length :
    (net : Network) (target round : ℕ) (tried : List ℕ)
    → Comes net target round tried
    → (round ≤ 8) × (round ≤ length tried) × (length tried ≤ 3 * round)
Comes-length net target round tried begin = (omega arith, omega arith, omega arith)
Comes-length net target round' tried' (later {round = round} {tried = tried} c alive t now e) =
    let (few, least, most) = Comes-length net target round tried c in
    let goes = subst (Goes round tried) e (do_discover-Goes net alive t now target round tried) in
    let (next, other, asked, grown, one, three, fresh) = goes in
    let sum = ap length grown ∙ length-append tried asked in
    let last : round' ≤ 8 = elim other [
      | inl lt ↦ omega (arith, next, lt)
      | inr gt ↦ absurd (omega (arith, few, gt))
    ] in
    (last, omega (arith, next, least, one, sum), omega (arith, next, most, three, sum))
