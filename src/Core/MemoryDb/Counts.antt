-- ===== src/Core/MemoryDb/Counts.antt =====
-- The database of libdevcore/MemoryDB.cpp as a count of references and a value per hash.
use x_chain.Prelude.{
  ℕ, ◌+◌, ◌-◌, ◌%◌, ◌≡◌, refl, sym, ◌⊎◌, inl, inr, Bool, true, false, not, ◌||◌, Option, none, some,
  [], arith, ltb, if◌then◌else◌, Bool-cases,
}
use x_chain.Core.Maps.{
  Bytes, find, kept, same, same→eq, Distinct, find-put, put-Distinct, find-retain, retain-Distinct,
}
use x_chain.Core.MemoryDb.{
  Node, Auxiliary, MemoryDb, counts, lookup_node, lookup, exists_node, exists, inserted, insert,
  kill_node, kill, lookup_aux_entry, lookup_aux, referenced, purge, word32,
}

abbrev pub refs_of : Option Node → ℕ
refs_of none = 0
refs_of (some n) = n.refs

-- How often a hash is referenced.
abbrev pub references : MemoryDb → Bytes → ℕ
references db h = refs_of (find h db.main)

-- Each hash has one entry.
pub record IsMap (db : MemoryDb) : Type 0 where
  pub nodes : Distinct db.main
  pub auxiliaries : Distinct db.aux

refs_of-inserted :
    (o : Option Node) (v : Bytes) → refs_of (some (inserted o v)) ≡ (refs_of o + 1) % word32
unfolding inserted
refs_of-inserted none v = refl
refs_of-inserted (some n) v = refl

lookup_node-inserted :
    (b : Bool) (o : Option Node) (v : Bytes)
    → lookup_node b (some (inserted o v))
      ≡ (if not b || ltb 0 ((refs_of o + 1) % word32) then v else [])
unfolding inserted lookup_node counts
lookup_node-inserted b none v = refl
lookup_node-inserted b (some n) v = refl

exists_node-inserted :
    (b : Bool) (o : Option Node) (v : Bytes)
    → exists_node b (some (inserted o v)) ≡ not b || ltb 0 ((refs_of o + 1) % word32)
unfolding inserted exists_node counts
exists_node-inserted b none v = refl
exists_node-inserted b (some n) v = refl

-- `insert` keeps one entry for each hash. It adds one reference to its hash, which wraps at 2^32, and none to another;
-- after it the hash exists and a lookup gives the new value, unless counts are enforced and the count wrapped to
-- zero, and another hash keeps what it had.
pub insert_lem :
    (db : MemoryDb) (h v q : Bytes)
    → IsMap db
    → let count = (references db h + 1) % word32 in
      let there = not db.enforce_refs || ltb 0 count in
      IsMap (insert db h v)
      × (references (insert db h v) q ≡ (if same q h then count else references db q))
      × (exists (insert db h v) q ≡ (if same q h then there else exists db q))
      × (lookup (insert db h v) q ≡ (if same q h then if there then v else [] else lookup db q))
unfolding insert lookup exists
insert_lem db h v q m =
    let new = inserted (find h db.main) v in
    (
      record { nodes = put-Distinct h new db.main m.nodes; auxiliaries = m.auxiliaries },
      rw (find-put q h new db.main) (ground (arith, refs_of-inserted (find h db.main) v)),
      rw (find-put q h new db.main)
          (ground (arith, exists_node-inserted db.enforce_refs (find h db.main) v)),
      rw (find-put q h new db.main)
          (ground (arith, lookup_node-inserted db.enforce_refs (find h db.main) v)),
    )

abbrev Killed : (db : MemoryDb) (h q : Bytes) → Bool × MemoryDb → Type 0
Killed db h q (found, db') =
    IsMap db'
    × (found ≡ ltb 0 (references db h))
    × (references db' q ≡ (if same q h then references db h - 1 else references db q))
    × ((same q h ≡ true) ⊎ ((lookup db' q ≡ lookup db q) × (exists db' q ≡ exists db q)))

references_gone :
    (db : MemoryDb) (h q : Bytes)
    → references db h ≡ 0
    → references db q ≡ (if same q h then references db h - 1 else references db q)
references_gone db h q none_left = elim (Bool-cases (same q h)) [
  | inl e ↦ rw (e, same→eq q h e) (omega (arith, none_left))
  | inr e ↦ rw e refl
]

-- `kill` reports whether the hash had a reference, and then takes one away; no other count changes, and other
-- hashes keep what a lookup gives.
pub kill_lem :
    (db : MemoryDb) (h q : Bytes)
    → IsMap db
    → IsMap (kill db h).1
      × ((kill db h).0 ≡ ltb 0 (references db h))
      × (references (kill db h).1 q ≡ (if same q h then references db h - 1 else references db q))
      × ((same q h ≡ true)
          ⊎ ((lookup (kill db h).1 q ≡ lookup db q) × (exists (kill db h).1 q ≡ exists db q)))
unfolding kill kill_node lookup exists
kill_lem db h q m =
    (elim (find h db.main) as (λ o. find h db.main ≡ o → Killed db h q (kill_node db h o)) [
      | none ↦ λ e. (m, rw e refl, references_gone db h q (rw e refl), inr (refl, refl))
      | some n ↦ λ e. elim (Bool-cases (ltb 0 n.refs)) [
        | inl p ↦
            let less : Node = record n { refs = n.refs - 1 } in
            rw p (
              record { nodes = put-Distinct h less db.main m.nodes; auxiliaries = m.auxiliaries },
              rw e (sym p),
              rw (find-put q h less db.main, e) (ground arith),
              elim (Bool-cases (same q h)) [
                | inl here ↦ inl here
                | inr other ↦ inr (rw (find-put q h less db.main, other) (refl, refl))
              ],
            )
        | inr p ↦
            rw p (m, rw e (sym p), references_gone db h q (rw e (ground arith)), inr (refl, refl))
      ]
    ])
      refl

kept_node :
    (b : Bool) (o : Option Node)
    → (refs_of (kept referenced o) ≡ refs_of o)
      × (exists_node b (kept referenced o) ≡ ltb 0 (refs_of o))
      × (lookup_node b (kept referenced o) ≡ (if ltb 0 (refs_of o) then lookup_node b o else []))
unfolding kept referenced lookup_node exists_node counts
kept_node b none = (refl, refl, refl)
kept_node b (some n) = ground arith

abbrev pub live_of : Option Auxiliary → Bool
live_of none = false
live_of (some a) = a.live

kept_aux :
    (b : Bool) (o : Option Auxiliary)
    → lookup_aux_entry b (kept (λ a. a.live) o) ≡ (if live_of o then lookup_aux_entry b o else [])
unfolding kept lookup_aux_entry
kept_aux b none = refl
kept_aux b (some a) = ground arith

-- A purge keeps one entry for each hash and every count. After it, whether counts are enforced or not, a hash exists
-- exactly when it has a reference, and then has its value; auxiliary data are kept exactly when their flag is set.
pub purge_lem :
    (db : MemoryDb) (q : Bytes)
    → IsMap db
    → IsMap (purge db)
      × (references (purge db) q ≡ references db q)
      × (exists (purge db) q ≡ ltb 0 (references db q))
      × (lookup (purge db) q ≡ (if ltb 0 (references db q) then lookup db q else []))
      × (lookup_aux (purge db) q ≡ (if live_of (find q db.aux) then lookup_aux db q else []))
unfolding purge lookup exists lookup_aux
purge_lem db q m =
    let (count, there, value) = kept_node db.enforce_refs (find q db.main) in
    (
      record {
        nodes = retain-Distinct referenced db.main m.nodes;
        auxiliaries = retain-Distinct (λ a. a.live) db.aux m.auxiliaries;
      },
      rw (find-retain referenced q db.main m.nodes) count,
      rw (find-retain referenced q db.main m.nodes) there,
      rw (find-retain referenced q db.main m.nodes) value,
      rw (find-retain (λ a. a.live) q db.aux m.auxiliaries)
          (kept_aux db.enforce_refs (find q db.aux)),
    )
