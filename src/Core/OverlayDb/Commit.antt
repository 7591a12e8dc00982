-- ===== src/Core/OverlayDb/Commit.antt =====
-- What `commit` of libdevcore/OverlayDB.cpp keeps.
use x_chain.Prelude.{
  ℕ, zero, suc, ◌<◌, ◌≡◌, refl, ap, ◌∙◌, ◌≢◌, ◌⊎◌, inl, inr, Bool, true, false, ◌||◌, Option, none,
  some, [], ◌∷◌, ◌++◌, arith, Bool-cases, length,
}
use x_chain.Core.Maps.{Bytes, find}
use x_chain.Core.MemoryDb.{
  Node, Auxiliary, MemoryDb, referenced, lookup_node, counts, lookup_aux_entry,
}
use x_chain.Core.MemoryDb as Memory
use x_chain.Core.MemoryDb.Counts.{IsMap}
use x_chain.Core.OverlayDb.{
  Batch, Disk, OverlayDb, aux_key, batch_main, batch_aux, write_tries, commit_to, commit, get_disk,
  or_disk, lookup_aux, lookup,
}
use x_chain.Core.OverlayDb.Batches.{
  applied, IsAtomic, HasHashes, value_or, written, written_aux, applied-append, applied_ext,
  applied-batch_main, applied-batch_aux, applied-batch_aux_node, find-HasHashes, length-aux_key,
}

-- What a commit can keep of a hash: its node has a value and, unless counts are enforced, a reference; its
-- auxiliary data likewise.
pub record IsSettled (memory : MemoryDb) (h : Bytes) : Type 0 where
  pub hash : length h ≡ 32
  pub node :
      (n : Node)
      → find h memory.main ≡ some n
      → (n.value ≢ []) × ((memory.enforce_refs ≡ true) ⊎ (0 < n.refs))
  pub auxiliary :
      (a : Auxiliary)
      → find h memory.aux ≡ some a
      → (a.value ≢ []) × ((memory.enforce_refs ≡ true) ⊎ (a.live ≡ true))

module _ (D : Type 0) (disk : Disk D) where
  -- Whether one of `n` tries to write a batch is successful.
  abbrev pub some_try : ℕ → D → Batch → Bool
  some_try zero d b = false
  some_try (suc n) d b = (disk.write d b).0 || some_try n (disk.write d b).1 b

  write_tries_fail :
      (n : ℕ) (d : D) (b : Batch) → some_try n d b ≡ false → write_tries disk n d b ≡ none
  unfolding write_tries
  write_tries_fail zero d b h = refl
  write_tries_fail (suc n) d b h =
      let rest = write_tries_fail n (disk.write d b).1 b in ground arith

  module _ (atomic : IsAtomic D disk) where
    write_tries_lem :
        (n : ℕ) (d : D) (b : Batch)
        → some_try n d b ≡ true
        → (d' : D) × (write_tries disk n d b ≡ some d')
          × ((k : Bytes) → disk.get d' k ≡ applied (disk.get d) b k)
    unfolding write_tries
    write_tries_lem zero d b h = cc
    write_tries_lem (suc n) d b h = elim (Bool-cases (disk.write d b).0) [
      | inl ok ↦ ((disk.write d b).1, rw ok refl, λ k. atomic.success d b k ok)
      | inr bad ↦
          let (d', e, same_get) = write_tries_lem n (disk.write d b).1 b (ground arith) in
          (
            d',
            rw (bad, e) refl,
            λ k. same_get k ∙ applied_ext _ _ b k (λ q. atomic.failure d b q bad),
          )
    ]

    or_disk_full : (v : Bytes) (o : Option D) (k : Bytes) → v ≢ [] → or_disk disk v o k ≡ v
    unfolding or_disk
    or_disk_full [] o k h = absurd (h refl)
    or_disk_full (x ∷ v) o k h = refl

    node_kept :
        (d : D) (h : Bytes) (b : Bool) (o : Option Node)
        → ((n : Node) → o ≡ some n → (n.value ≢ []) × ((b ≡ true) ⊎ (0 < n.refs)))
        → value_or (disk.get d h) (written o) ≡ or_disk disk (lookup_node b o) (some d) h
    unfolding or_disk get_disk lookup_node counts referenced
    node_kept d h b none s = refl
    node_kept d h b (some n) s =
        let (full, live) = s n refl in
        let stored = or_disk_full n.value (some d) h full in ground arith

    auxiliary_kept :
        (d : D) (h : Bytes) (b : Bool) (o : Option Auxiliary)
        → ((a : Auxiliary) → o ≡ some a → (a.value ≢ []) × ((b ≡ true) ⊎ (a.live ≡ true)))
        → value_or (disk.get d h) (written_aux o) ≡ or_disk disk (lookup_aux_entry b o) (some d) h
    unfolding or_disk get_disk lookup_aux_entry
    auxiliary_kept d h b none s = refl
    auxiliary_kept d h b (some a) s =
        let (full, live) = s a refl in
        let stored = or_disk_full a.value (some d) h full in ground arith

    cleared_lookup :
        (memory : MemoryDb) (d : D) (h : Bytes)
        → or_disk disk (Memory.lookup (Memory.clear memory) h) (some d) h ≡ disk.get d h
    unfolding Memory.lookup Memory.clear or_disk get_disk find lookup_node
    cleared_lookup memory d h = refl

    cleared_lookup_aux :
        (memory : MemoryDb) (d : D) (h : Bytes)
        → or_disk disk (Memory.lookup_aux (Memory.clear memory) h) (some d) (aux_key h)
          ≡ disk.get d (aux_key h)
    unfolding Memory.lookup_aux Memory.clear or_disk get_disk find lookup_aux_entry
    cleared_lookup_aux memory d h = refl

    module _ (memory : MemoryDb) (d : D) (h : Bytes) (m : IsMap memory)
        (k : HasHashes memory.main) where
      batch_node :
          HasHashes memory.aux
          → IsSettled memory h
          → applied (disk.get d) (batch_main memory.main ++ batch_aux memory.aux) h
            ≡ or_disk disk (Memory.lookup memory h) (some d) h
      unfolding Memory.lookup
      batch_node l settled =
          applied-append (disk.get d) (batch_main memory.main) (batch_aux memory.aux) h
          ∙ applied-batch_aux_node _ memory.aux h settled.hash l
          ∙ applied-batch_main (disk.get d) memory.main h m.nodes
          ∙ node_kept d h memory.enforce_refs (find h memory.main) settled.node

      batch_auxiliary :
          IsSettled memory h
          → applied (disk.get d) (batch_main memory.main ++ batch_aux memory.aux) (aux_key h)
            ≡ or_disk disk (Memory.lookup_aux memory h) (some d) (aux_key h)
      unfolding Memory.lookup_aux
      batch_auxiliary settled =
          let long : length (aux_key h) ≢ 32 =
            λ e. omega (arith, length-aux_key h, settled.hash, e) in
          applied-append (disk.get d) (batch_main memory.main) (batch_aux memory.aux) (aux_key h)
          ∙ applied-batch_aux _ memory.aux h m.auxiliaries
          ∙ ap (λ v. value_or v (written_aux (find h memory.aux)))
              (applied-batch_main (disk.get d) memory.main (aux_key h) m.nodes
                ∙ ap (λ o. value_or (disk.get d (aux_key h)) (written o))
                    (find-HasHashes memory.main (aux_key h) long k))
          ∙ auxiliary_kept d (aux_key h) memory.enforce_refs (find h memory.aux) settled.auxiliary

    -- With a disk, of whose ten tries to write one is successful, a commit finishes and leaves the memory
    -- empty; a lookup of a settled hash, as a node and as auxiliary data, then gives what it gave before.
    pub commit-lookup :
        (o : OverlayDb D) (d : D) (h : Bytes)
        → o.db ≡ some d
        → IsMap o.memory
        → HasHashes o.memory.main
        → HasHashes o.memory.aux
        → some_try 10 d (batch_main o.memory.main ++ batch_aux o.memory.aux) ≡ true
        → IsSettled o.memory h
        → (o' : OverlayDb D) × (commit disk o ≡ some o')
          × (o'.memory ≡ Memory.clear o.memory)
          × (lookup disk o' h ≡ lookup disk o h)
          × (lookup_aux disk o' h ≡ lookup_aux disk o h)
    unfolding commit commit_to lookup lookup_aux
    commit-lookup o d h e m k l ok settled =
        let batch = batch_main o.memory.main ++ batch_aux o.memory.aux in
        let (d', wrote, got) = write_tries_lem 10 d batch ok in
        (
          record { memory = Memory.clear o.memory; db = some d' },
          rw (e, wrote) refl,
          refl,
          rw e (cleared_lookup o.memory d' h ∙ got h ∙ batch_node o.memory d h m k l settled),
          rw e (
              cleared_lookup_aux o.memory d' h
              ∙ got (aux_key h)
              ∙ batch_auxiliary o.memory d h m k settled),
        )

  -- A commit to a disk on which all ten tries to write fail ends the program.
  pub commit_fails :
      (o : OverlayDb D) (d : D)
      → o.db ≡ some d
      → some_try 10 d (batch_main o.memory.main ++ batch_aux o.memory.aux) ≡ false
      → commit disk o ≡ none
  unfolding commit commit_to
  commit_fails o d e bad =
      rw (e, write_tries_fail 10 d (batch_main o.memory.main ++ batch_aux o.memory.aux) bad) refl
