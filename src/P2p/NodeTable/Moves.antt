-- ===== src/P2p/NodeTable/Moves.antt =====
-- What `noteActiveNode` of libp2p/NodeTable.cpp does to a bucket.
use x_chain.Prelude.{
  ℕ, ◌<◌, ◌≡◌, refl, ap, ◌∙◌, Bool, true, false, some, List, [], ◌∷◌, ◌++◌, leb, ◌==◌, length,
  get_elem?, set, arith, All,
}
use x_chain.P2p.NodeTable.{
  Network, NodeTable, NodeEntry, added, bucket_size, bucket_index, remove_active, set_bucket,
  append_event, join, into_bucket, note_if, note_entry, note_found, note_active_node, node_entry,
  is_allowed,
}

self_eq : (h : ℕ) → (h == h) ≡ true
self_eq h = ground arith

-- A node stands in none of the places.
abbrev pub Apart : ℕ → List ℕ → Type 0
Apart h l = All (λ x. (x == h) ≡ false) l

remove_active-Apart : (h : ℕ) (l : List ℕ) → Apart h l → remove_active h l false ≡ (l, false)
unfolding remove_active
remove_active-Apart h [] a = refl
remove_active-Apart h (x ∷ l) a = rw (a.0, remove_active-Apart h l a.1) refl

remove_active-rest : (h : ℕ) (l : List ℕ) → remove_active h l true ≡ ([], true)
unfolding remove_active
remove_active-rest h [] = refl
remove_active-rest h (x ∷ l) = remove_active-rest h l

remove_active-middle :
    (h : ℕ) (before after : List ℕ)
    → Apart h before
    → remove_active h (before ++ (h ∷ after)) false ≡ (before, true)
unfolding remove_active
remove_active-middle h [] after a = rw (self_eq h, remove_active-rest h after) refl
remove_active-middle h (x ∷ before) after a = rw (a.0, remove_active-middle h before after a.1) refl

module _ (net : Network) (alive : ℕ → Bool) (t : NodeTable) (now h address port : ℕ) (e : NodeEntry)
    (found : node_entry t e.id ≡ some h) (stored : get_elem? t.entries h ≡ some e)
    (settled : e.pending ≡ false) (other : (e.id == t.self) ≡ false)
    (allowed : is_allowed net (record { address = address; udp_port = port; tcp_port = port })
      ≡ true) where
  -- The entry with the endpoint that was seen, and the table with it.
  abbrev pub seen : NodeEntry
  seen = record e { endpoint = record e.endpoint { address = address; udp_port = port } }

  abbrev pub with_seen : NodeTable
  with_seen = record t { entries = set t.entries h seen }

  moved_in :
      (l : List ℕ)
      → length l < bucket_size
      → let t' = into_bucket alive with_seen now (bucket_index e) h seen l true in
        (t'.buckets (bucket_index e) ≡ l ++ (h ∷ []))
        × (t'.events ≡ t.events)
        × (t'.evictions ≡ t.evictions)
  unfolding into_bucket join set_bucket
  moved_in [] room = (rw (self_eq (bucket_index e)) refl, refl, refl)
  moved_in (c ∷ l) room =
      let fits : leb bucket_size (length (c ∷ l)) ≡ false = ground arith in
      rw (fits, self_eq (bucket_index e)) (refl, refl, refl)

  joined_in :
      (l : List ℕ)
      → length l < bucket_size
      → let t' = into_bucket alive with_seen now (bucket_index e) h seen l false in
        (t'.buckets (bucket_index e) ≡ l ++ (h ∷ []))
        × (t'.events ≡ t.events ++ ((e.id, added) ∷ []))
        × (t'.evictions ≡ t.evictions)
  unfolding into_bucket join set_bucket append_event
  joined_in [] room = (rw (self_eq (bucket_index e)) refl, refl, refl)
  joined_in (c ∷ l) room =
      let fits : leb bucket_size (length (c ∷ l)) ≡ false = ground arith in
      rw (fits, self_eq (bucket_index e)) (refl, refl, refl)

  noted :
      note_active_node net alive t now e.id address port
      ≡ into_bucket alive with_seen now
          (bucket_index e)
          h
          seen
          (remove_active h (t.buckets (bucket_index e)) false).0
          (remove_active h (t.buckets (bucket_index e)) false).1
  unfolding note_active_node note_found note_entry note_if
  noted =
      rw (other, allowed, found, stored) (ap (λ p. note_if p alive t now h e address port) settled)

  -- A known and active node that stands in its bucket is moved to the end, and the nodes that stood behind it are
  -- lost. No event tells of them, and nothing is evicted.
  pub note_active_node-moves :
      (before after : List ℕ)
      → t.buckets (bucket_index e) ≡ before ++ (h ∷ after)
      → Apart h before
      → length before < bucket_size
      → let t' = note_active_node net alive t now e.id address port in
        (t'.buckets (bucket_index e) ≡ before ++ (h ∷ []))
        × (t'.events ≡ t.events)
        × (t'.evictions ≡ t.evictions)
  note_active_node-moves before after b apart room =
      let out = ap (λ l. remove_active h l false) b ∙ remove_active-middle h before after apart in
      let e0 =
        noted ∙ ap (λ o. into_bucket alive with_seen now (bucket_index e) h seen o.0 o.1) out in
      let (b', v', x') = moved_in before room in
      (
        ap (λ u. u.buckets (bucket_index e)) e0 ∙ b',
        ap (λ u. u.events) e0 ∙ v',
        ap (λ u. u.evictions) e0 ∙ x',
      )

  -- A new node in a bucket with room goes to its end, and an event tells of it.
  pub note_active_node-joins :
      (l : List ℕ)
      → t.buckets (bucket_index e) ≡ l
      → Apart h l
      → length l < bucket_size
      → let t' = note_active_node net alive t now e.id address port in
        (t'.buckets (bucket_index e) ≡ l ++ (h ∷ []))
        × (t'.events ≡ t.events ++ ((e.id, added) ∷ []))
        × (t'.evictions ≡ t.evictions)
  note_active_node-joins l b apart room =
      let out = ap (λ k. remove_active h k false) b ∙ remove_active-Apart h l apart in
      let e0 =
        noted ∙ ap (λ o. into_bucket alive with_seen now (bucket_index e) h seen o.0 o.1) out in
      let (b', v', x') = joined_in l room in
      (
        ap (λ u. u.buckets (bucket_index e)) e0 ∙ b',
        ap (λ u. u.events) e0 ∙ v',
        ap (λ u. u.evictions) e0 ∙ x',
      )
