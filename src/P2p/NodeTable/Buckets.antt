-- ===== src/P2p/NodeTable/Buckets.antt =====
-- The buckets of libp2p/NodeTable.cpp: their size, and what stays in them.
use x_chain.Prelude.{
  ℕ, ◌≤◌, ◌<◌, ◌≡◌, inl, inr, Bool, true, false, not, ◌||◌, Option, none, some, List, [], ◌∷◌, ◌++◌,
  leb, ◌==◌, Bool-cases, Option-cases, length, length-append, get_elem?, set, arith,
}
use x_chain.P2p.NodeTable.{
  Network, NodeTable, NodeEntry, NodeIpEndpoint, bucket_size, bucket_index, remove_active,
  set_bucket, join, evict, evict_maybe, into_bucket, note_if, note_entry, note_found,
  note_active_node, node_entry, is_allowed, append_event, without, drop_entry, drop_node, store,
  add_known, add_unknown, add_node, send,
}

-- No bucket holds more than 16 nodes.
abbrev pub IsBounded : NodeTable → Type 0
IsBounded t = (i : ℕ) → length (t.buckets i) ≤ bucket_size

remove_active-le : (h : ℕ) (l : List ℕ) (r : Bool) → length (remove_active h l r).0 ≤ length l
unfolding remove_active
remove_active-le h [] r = omega arith
remove_active-le h (x ∷ l) r = let rest = remove_active-le h l (r || (x == h)) in ground arith

set_bucket-IsBounded :
    (t : NodeTable) (i : ℕ) (b : List ℕ)
    → IsBounded t
    → length b ≤ bucket_size
    → IsBounded (set_bucket t i b)
unfolding set_bucket
set_bucket-IsBounded t i b h le j = elim (Bool-cases (j == i)) [
  | inl here ↦ rw here le
  | inr there ↦ rw there (h j)
]

join-IsBounded :
    (t : NodeTable) (i h : ℕ) (e : NodeEntry) (rest : List ℕ) (removed : Bool)
    → IsBounded t
    → length rest < bucket_size
    → IsBounded (join t i h e rest removed)
unfolding join append_event
join-IsBounded t i h e rest true b lt =
    set_bucket-IsBounded t i (rest ++ (h ∷ [])) b (omega (arith, lt, length-append rest (h ∷ [])))
join-IsBounded t i h e rest false b lt =
    set_bucket-IsBounded t i (rest ++ (h ∷ [])) b (omega (arith, lt, length-append rest (h ∷ [])))

evict_maybe-IsBounded :
    (t : NodeTable) (now : ℕ) (c : Option NodeEntry) (e : NodeEntry)
    → IsBounded t
    → IsBounded (evict_maybe t now c e)
unfolding evict_maybe evict send
evict_maybe-IsBounded t now none e b = b
evict_maybe-IsBounded t now (some c) e b = elim (Bool-cases t.is_open) [
  | inl o ↦ rw o b
  | inr o ↦ rw o b
]

into_bucket-IsBounded :
    (alive : ℕ → Bool) (t : NodeTable) (now i h : ℕ) (e : NodeEntry) (rest : List ℕ)
    (removed : Bool)
    → IsBounded t
    → length rest ≤ bucket_size
    → IsBounded (into_bucket alive t now i h e rest removed)
unfolding into_bucket
into_bucket-IsBounded alive t now i h e [] removed b le =
    join-IsBounded t i h e [] removed b (omega arith)
into_bucket-IsBounded alive t now i h e (c ∷ rest) removed b le =
    elim (Bool-cases (leb bucket_size (length (c ∷ rest)))) [
      | inr room ↦ rw room (join-IsBounded t i h e (c ∷ rest) removed b (ground arith))
      | inl full ↦ rw full (elim (Bool-cases (alive c)) [
        | inl there ↦ rw there (
            evict_maybe-IsBounded (set_bucket t i (c ∷ rest)) now (get_elem? t.entries c) e
              (set_bucket-IsBounded t i (c ∷ rest) b le))
        | inr gone ↦ rw gone (join-IsBounded t i h e rest removed b (omega (arith, le)))
      ])
    ]

note_if-IsBounded :
    (pending : Bool) (alive : ℕ → Bool) (t : NodeTable) (now h : ℕ) (e : NodeEntry)
    (address port : ℕ)
    → IsBounded t
    → IsBounded (note_if pending alive t now h e address port)
unfolding note_if
note_if-IsBounded true alive t now h e address port b = b
note_if-IsBounded false alive t now h e address port b =
    let i = bucket_index e in
    let le = remove_active-le h (t.buckets i) false in
    let e' = record e { endpoint = record e.endpoint { address = address; udp_port = port } } in
    into_bucket-IsBounded alive (record t { entries = set t.entries h e' }) now i h e'
      (remove_active h (t.buckets i) false).0 (remove_active h (t.buckets i) false).1 b
      (omega (arith, le, b i))

note_entry-IsBounded :
    (alive : ℕ → Bool) (t : NodeTable) (now h : ℕ) (o : Option NodeEntry) (address port : ℕ)
    → IsBounded t
    → IsBounded (note_entry alive t now h o address port)
unfolding note_entry
note_entry-IsBounded alive t now h none address port b = b
note_entry-IsBounded alive t now h (some e) address port b =
    note_if-IsBounded e.pending alive t now h e address port b

pub note_active_node-IsBounded :
    (net : Network) (alive : ℕ → Bool) (t : NodeTable) (now id address port : ℕ)
    → IsBounded t
    → IsBounded (note_active_node net alive t now id address port)
unfolding note_active_node note_found
note_active_node-IsBounded net alive t now id address port b =
    let e : NodeIpEndpoint = record { address = address; udp_port = port; tcp_port = port } in
    elim (Bool-cases (id == t.self || not (is_allowed net e))) [
      | inl p ↦ rw p b
      | inr p ↦ rw p (elim (Option-cases (node_entry t id)) [
        | inl q ↦ rw q b
        | inr (h, q) ↦
            rw q (note_entry-IsBounded alive t now h (get_elem? t.entries h) address port b)
      ])
    ]

without-le : (h : ℕ) (l : List ℕ) → length (without h l) ≤ length l
unfolding without
without-le h [] = omega arith
without-le h (x ∷ l) = let rest = without-le h l in ground arith

pub drop_node-IsBounded : (t : NodeTable) (h : ℕ) → IsBounded t → IsBounded (drop_node t h)
unfolding drop_node drop_entry append_event
drop_node-IsBounded t h b = elim (Option-cases (get_elem? t.entries h)) [
  | inl p ↦ rw p b
  | inr (e, p) ↦
      let le = without-le h (t.buckets (bucket_index e)) in
      rw p (
        set_bucket-IsBounded t (bucket_index e) (without h (t.buckets (bucket_index e))) b
          (omega (arith, le, b (bucket_index e))))
]

pub add_known-IsBounded :
    (net : Network) (alive : ℕ → Bool) (t : NodeTable) (now id : ℕ) (e : NodeIpEndpoint)
    → IsBounded t
    → IsBounded (add_known net alive t now id e)
unfolding add_known store
add_known-IsBounded net alive t now id e b =
    note_active_node-IsBounded net alive _ now id e.address e.udp_port b

-- `addNode` does not touch the buckets where the node is not known to be active.
pub add_node-buckets :
    (net : Network) (t : NodeTable) (now id : ℕ) (e : NodeIpEndpoint) (i : ℕ)
    → (add_node net t now id e).buckets i ≡ t.buckets i
unfolding add_node add_unknown store send
add_node-buckets net t now id e i = elim (Option-cases (node_entry t id)) [
  | inl p ↦ rw p (ground arith)
  | inr (h, p) ↦ rw p (ground arith)
]
