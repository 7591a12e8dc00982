-- ===== src/Core/Tests/Databases.antt =====
-- The databases of libdevcore/MemoryDB.cpp and libdevcore/OverlayDB.cpp at concrete inputs.
use x_chain.Prelude.{
  ℕ, zero, suc, ◌≡◌, refl, ◌⊎◌, Bool, true, false, some, [], ◌∷◌, arith, if◌then◌else◌, replicate,
}
use x_chain.Core.Maps.{Bytes, find, same}
use x_chain.Core.MemoryDb.{MemoryDb, kill, lookup, exists, purge, lookup_aux, clear}
use x_chain.Core.MemoryDb.Counts.{references, IsMap, kill_lem, purge_lem}
use x_chain.Core.OverlayDb.{Batch, Disk, OverlayDb, commit}
use x_chain.Core.OverlayDb as Overlay
use x_chain.Core.OverlayDb.Batches.{applied, IsAtomic}
use x_chain.Core.OverlayDb.Commit.{IsSettled, commit-lookup}

abbrev pub hash_of : ℕ → Bytes
hash_of n = n ∷ replicate 31 0

abbrev two_nodes : MemoryDb
two_nodes = record {
  main =
      (hash_of 1, record { value = 11 ∷ []; refs = 2 })
      ∷ (hash_of 2, record { value = 12 ∷ []; refs = 0 })
      ∷ [];
  aux = (hash_of 1, record { value = 7 ∷ []; live = true }) ∷ [];
  enforce_refs = true;
}

two_nodes-IsMap : IsMap two_nodes
unfolding find same
two_nodes-IsMap = record { nodes = ground arith; auxiliaries = ground arith }

kill_lem_example :
    IsMap (kill two_nodes (hash_of 1)).1
    × ((kill two_nodes (hash_of 1)).0 ≡ true)
    × (references (kill two_nodes (hash_of 1)).1 (hash_of 2) ≡ 0)
    × ((same (hash_of 2) (hash_of 1) ≡ true)
        ⊎ ((lookup (kill two_nodes (hash_of 1)).1 (hash_of 2) ≡ lookup two_nodes (hash_of 2))
            × (exists (kill two_nodes (hash_of 1)).1 (hash_of 2) ≡ exists two_nodes (hash_of 2))))
unfolding find same
kill_lem_example = kill_lem two_nodes (hash_of 1) (hash_of 2) two_nodes-IsMap

purge_lem_example :
    IsMap (purge two_nodes)
    × (references (purge two_nodes) (hash_of 1) ≡ 2)
    × (exists (purge two_nodes) (hash_of 1) ≡ true)
    × (lookup (purge two_nodes) (hash_of 1) ≡ lookup two_nodes (hash_of 1))
    × (lookup_aux (purge two_nodes) (hash_of 1) ≡ lookup_aux two_nodes (hash_of 1))
unfolding find same
purge_lem_example = purge_lem two_nodes (hash_of 1) two_nodes-IsMap

-- A disk as a function, whose first `n` writes fail.
abbrev Toy : Type 0
Toy = ℕ × (Bytes → Bytes)

toy_write : Toy → Batch → Bool × Toy
toy_write (zero, g) b = (true, (zero, applied g b))
toy_write (suc n, g) b = (false, (n, g))

abbrev toy : Disk Toy
toy = record {
  get = λ d k. d.1 k;
  write = toy_write;
  delete = λ d k. (true, (d.0, λ q. if same q k then [] else d.1 q));
}

toy_success :
    (n : ℕ) (g : Bytes → Bytes) (b : Batch) (k : Bytes)
    → (toy_write (n, g) b).0 ≡ true
    → (toy_write (n, g) b).1.1 k ≡ applied g b k
unfolding toy_write
toy_success zero g b k h = refl
toy_success (suc n) g b k h = cc

toy_failure :
    (n : ℕ) (g : Bytes → Bytes) (b : Batch) (k : Bytes)
    → (toy_write (n, g) b).0 ≡ false
    → (toy_write (n, g) b).1.1 k ≡ g k
unfolding toy_write
toy_failure zero g b k h = cc
toy_failure (suc n) g b k h = refl

toy-IsAtomic : IsAtomic Toy toy
toy-IsAtomic = record {
  success = λ d b k. toy_success d.0 d.1 b k;
  failure = λ d b k. toy_failure d.0 d.1 b k;
}

abbrev over : OverlayDb Toy
over = record { memory = two_nodes; db = some (3, λ k. []) }

hash_1-IsSettled : IsSettled two_nodes (hash_of 1)
unfolding find same
hash_1-IsSettled = record {
  hash = refl;
  node = λ n e. ground arith;
  auxiliary = λ a e. ground arith;
}

commit-lookup_example :
    (o' : OverlayDb Toy) × (commit toy over ≡ some o')
    × (o'.memory ≡ clear two_nodes)
    × (Overlay.lookup toy o' (hash_of 1) ≡ Overlay.lookup toy over (hash_of 1))
    × (Overlay.lookup_aux toy o' (hash_of 1) ≡ Overlay.lookup_aux toy over (hash_of 1))
unfolding toy_write
commit-lookup_example =
    commit-lookup Toy toy toy-IsAtomic over (3, λ k. []) (hash_of 1) refl two_nodes-IsMap
      (ground arith) (ground arith) refl hash_1-IsSettled
