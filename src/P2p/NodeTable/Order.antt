-- ===== src/P2p/NodeTable/Order.antt =====
-- The order of what `nearestNodeEntries` of libp2p/NodeTable.cpp gives.
use x_chain.Prelude.{
  ℕ, zero, suc, ◌+◌, ◌-◌, ◌%◌, ◌≤◌, ◌<◌, ◌≡◌, refl, inl, inr, Bool, true, not, ◌&&◌, Option, none,
  some, List, [], ◌∷◌, map, ltb, ◌==◌, if◌then◌else◌, Bool-cases, Option-cases, length, get_elem?,
  arith, All,
}
use x_chain.P2p.NodeTable.{Network, NodeTable, NodeEntry, bins, bucket_size, distance}
use x_chain.P2p.NodeTable.Nearest.{
  push_found, push_entry, push_bucket, spread, upwards, downwards, found_nodes, reachable, pick,
  nearest_node_entries,
}

-- A list in which no number is below one before it.
abbrev pub IsSorted : List ℕ → Type 0
IsSorted [] = Unit
IsSorted (x ∷ l) = All (λ y. x ≤ y) l × IsSorted l

-- How far an entry is from the target.
unfoldable pub distance_from : Network → ℕ → Option NodeEntry → ℕ
distance_from net target none = 0
distance_from net target (some e) = distance net target e.id

unfoldable pub distance_of : Network → NodeTable → ℕ → ℕ → ℕ
unfolding distance_from
distance_of net t target h = distance_from net target (get_elem? t.entries h)

-- The distances that were noted with the found nodes are theirs, and go up.
abbrev distances : List (ℕ × ℕ) → List ℕ
distances l = map (λ e. e.0) l

module _ (net : Network) (alive : ℕ → Bool) (t : NodeTable) (target : ℕ) where
  abbrev IsFound : List (ℕ × ℕ) → Type 0
  IsFound l = IsSorted (distances l) × All (λ e. distance_of net t target e.1 ≡ e.0) l

  All-push :
      (x d h : ℕ) (l : List (ℕ × ℕ))
      → x ≤ d
      → All (λ y. x ≤ y) (distances l)
      → All (λ y. x ≤ y) (distances (push_found d h l))
  unfolding push_found
  All-push x d h [] le all = (le, tt)
  All-push x d h (e ∷ l) le all = elim (Bool-cases (ltb d e.0)) [
    | inl p ↦ rw p (le, all)
    | inr p ↦ rw p (all.0, All-push x d h l le all.1)
  ]

  All-trans : (x y : ℕ) (l : List ℕ) → x ≤ y → All (λ z. y ≤ z) l → All (λ z. x ≤ z) l
  All-trans x y [] le all = tt
  All-trans x y (z ∷ l) le all = (omega (arith, le, all.0), All-trans x y l le all.1)

  push_found-IsFound :
      (d h : ℕ) (l : List (ℕ × ℕ))
      → distance_of net t target h ≡ d
      → IsFound l
      → IsFound (push_found d h l)
  unfolding push_found
  push_found-IsFound d h [] e f = ((tt, tt), (e, tt))
  push_found-IsFound d h (x ∷ l) e f = elim (Bool-cases (ltb d x.0)) [
    | inl p ↦
        let le : d ≤ x.0 = ground arith in
        rw p (((le, All-trans d x.0 (distances l) le f.0.0), f.0), (e, f.1))
    | inr p ↦
        let le : x.0 ≤ d = ground arith in
        let rest = push_found-IsFound d h l e (f.0.1, f.1.1) in
        rw p ((All-push x.0 d h l le f.0.0, rest.0), (f.1.0, rest.1))
  ]

  push_bucket-IsFound :
      (l : List ℕ) (found : List (ℕ × ℕ))
      → IsFound found
      → IsFound (push_bucket net alive t target l found)
  unfolding push_bucket push_entry distance_of
  push_bucket-IsFound [] found f = f
  push_bucket-IsFound (h ∷ l) found f =
      push_bucket-IsFound l _ (elim (Option-cases (get_elem? t.entries h)) [
        | inl p ↦ rw p f
        | inr (e, p) ↦ rw p (elim (Bool-cases (alive h)) [
          | inl a ↦
              let d : distance_of net t target h ≡ distance net target e.id = rw p refl in
              rw a (push_found-IsFound (distance net target e.id) h found d f)
          | inr a ↦ rw a f
        ])
      ])

  spread-IsFound :
      (n head tail : ℕ) (found : List (ℕ × ℕ))
      → IsFound found
      → IsFound (spread net alive t target n head tail found)
  unfolding spread
  spread-IsFound zero head tail found f = f
  spread-IsFound (suc n) head tail found f =
      let up = push_bucket net alive t target (t.buckets head) found in
      let f' : IsFound up = push_bucket-IsFound (t.buckets head) found f in
      let both = if ltb 0 tail then push_bucket net alive t target (t.buckets tail) up else up in
      let f'' : IsFound both = elim (Bool-cases (ltb 0 tail)) [
        | inl p ↦ rw p (push_bucket-IsFound (t.buckets tail) up f')
        | inr p ↦ rw p f'
      ] in
      elim (Bool-cases (not (head == tail) && ltb head bins)) [
        | inl p ↦ rw p (spread-IsFound n (head + 1) (tail - 1) both f'')
        | inr p ↦ rw p f
      ]

  upwards-IsFound :
      (n head : ℕ) (found : List (ℕ × ℕ))
      → IsFound found
      → IsFound (upwards net alive t target n head found)
  unfolding upwards
  upwards-IsFound zero head found f = f
  upwards-IsFound (suc n) head found f = elim (Bool-cases (ltb head bins)) [
    | inl p ↦ rw p (upwards-IsFound n (head + 1) _ (push_bucket-IsFound (t.buckets head) found f))
    | inr p ↦ rw p f
  ]

  downwards-IsFound :
      (n : ℕ) (found : List (ℕ × ℕ))
      → IsFound found
      → IsFound (downwards net alive t target n found)
  unfolding downwards
  downwards-IsFound zero found f = f
  downwards-IsFound (suc n) found f =
      downwards-IsFound n _ (push_bucket-IsFound (t.buckets (suc n)) found f)

  found_nodes-IsFound : IsFound (found_nodes net alive t target)
  unfolding found_nodes
  found_nodes-IsFound =
      let head = distance net t.self target in
      let tail = if head == 0 then bins - 1 else (head - 1) % bins in
      elim (Bool-cases (ltb 1 head && not (tail == bins - 1))) [
        | inl p ↦ rw p (spread-IsFound bins head tail [] (tt, tt))
        | inr p ↦ rw p (elim (Bool-cases (ltb head 2)) [
          | inl q ↦ rw q (upwards-IsFound bins head [] (tt, tt))
          | inr q ↦ rw q (downwards-IsFound tail [] (tt, tt))
        ])
      ]

  pick-All :
      (x room : ℕ) (l : List (ℕ × ℕ))
      → All (λ y. x ≤ y) (distances l)
      → All (λ e. distance_of net t target e.1 ≡ e.0) l
      → All (λ y. x ≤ y) (map (distance_of net t target) (pick net alive t target room l))
  unfolding pick
  pick-All x room [] all own = tt
  pick-All x room (e ∷ l) all own =
      elim (Bool-cases (ltb 0 room && reachable net alive t target (get_elem? t.entries e.1))) [
        | inl p ↦ rw p (rw own.0 all.0, pick-All x (room - 1) l all.1 own.1)
        | inr p ↦ rw p (pick-All x room l all.1 own.1)
      ]

  pick_lem :
      (room : ℕ) (l : List (ℕ × ℕ))
      → IsFound l
      → IsSorted (map (distance_of net t target) (pick net alive t target room l))
        × (length (pick net alive t target room l) ≤ room)
        × All
            (λ h. reachable net alive t target (get_elem? t.entries h) ≡ true)
            (pick net alive t target room l)
  unfolding pick
  pick_lem room [] f = (tt, omega arith, tt)
  pick_lem room (e ∷ l) f =
      elim (Bool-cases (ltb 0 room && reachable net alive t target (get_elem? t.entries e.1))) [
        | inl p ↦
            let (sorted, few, good) = pick_lem (room - 1) l (f.0.1, f.1.1) in
            let some_room : 0 < room = ground arith in
            let there : reachable net alive t target (get_elem? t.entries e.1) ≡ true =
              ground arith in
            rw p (
              (rw f.1.0 (pick-All e.0 (room - 1) l f.0.0 f.1.1), sorted),
              omega (arith, few, some_room),
              (there, good),
            )
        | inr p ↦ rw p (pick_lem room l (f.0.1, f.1.1))
      ]

  -- The nodes that are given for a target are at most 16, all with an endpoint that is given and allowed, and none is
  -- nearer to the target than one before it.
  pub nearest_node_entries_lem :
      IsSorted (map (distance_of net t target) (nearest_node_entries net alive t target))
      × (length (nearest_node_entries net alive t target) ≤ 16)
      × All
          (λ h. reachable net alive t target (get_elem? t.entries h) ≡ true)
          (nearest_node_entries net alive t target)
  unfolding nearest_node_entries
  nearest_node_entries_lem =
      pick_lem bucket_size (found_nodes net alive t target) found_nodes-IsFound
