-- ===== src/Core/MemoryDb/Listing.antt =====
-- What `keys` and `get` of libdevcore/MemoryDB.cpp list, and `kill` after `insert`.
use x_chain.Prelude.{
  ◌+◌, ◌<◌, ◌≡◌, refl, ◌∙◌, inl, inr, Bool, true, false, ◌||◌, Option, none, some, List, [], ◌∷◌,
  arith, ltb, if◌then◌else◌, Bool-cases,
}
use x_chain.Core.Maps.{Bytes, Map, find, same, same_refl, same→eq, Distinct}
use x_chain.Core.MemoryDb.{
  Node, MemoryDb, counts, lookup, lookup_node, exists, exists_node, insert, kill, get_from, get,
  referenced, keys_of, keys, word32,
}
use x_chain.Core.MemoryDb.Counts.{refs_of, references, IsMap, insert_lem, kill_lem}

abbrev pub listed : Bytes → List Bytes → Bool
listed q [] = false
listed q (k ∷ l) = same q k || listed q l

listed-keys_of :
    (q : Bytes) (m : Map Node) → Distinct m → listed q (keys_of m) ≡ ltb 0 (refs_of (find q m))
unfolding keys_of find referenced
listed-keys_of q [] d = refl
listed-keys_of q (e ∷ m) d = let rest = listed-keys_of q m d.1 in ground (arith, same→eq q e.0, d.0)

-- `keys` lists a hash exactly when the hash has a reference.
pub keys_lem : (db : MemoryDb) (q : Bytes) → IsMap db → listed q (keys db) ≡ ltb 0 (references db q)
unfolding keys
keys_lem db q m = listed-keys_of q db.main m.nodes

offered : Bool → Option Node → Option Bytes
offered b o = if exists_node b o then some (lookup_node b o) else none

find-get_from :
    (b : Bool) (q : Bytes) (m : Map Node)
    → Distinct m
    → find q (get_from b m) ≡ offered b (find q m)
unfolding get_from find exists_node lookup_node counts offered
find-get_from b q [] d = refl
find-get_from b q (e ∷ m) d =
    let rest = find-get_from b q m d.1 in ground (arith, same→eq q e.0, d.0)

-- `get` maps each hash that exists to what a lookup gives, and no other.
pub get_lem :
    (db : MemoryDb) (q : Bytes)
    → IsMap db
    → find q (get db) ≡ (if exists db q then some (lookup db q) else none)
unfolding get exists lookup offered
get_lem db q m = find-get_from db.enforce_refs q db.main m.nodes

-- Where the count does not wrap, `kill` after `insert` of a hash succeeds and leaves each count as it was before
-- both.
pub kill-insert :
    (db : MemoryDb) (h v q : Bytes)
    → IsMap db
    → references db h + 1 < word32
    → ((kill (insert db h v) h).0 ≡ true)
      × (references (kill (insert db h v) h).1 q ≡ references db q)
kill-insert db h v q m small =
    let (m1, count_q, there, value) = insert_lem db h v q m in
    let (m1', count_h, there', value') = insert_lem db h v h m in
    let (m2, found, left, others2) = kill_lem (insert db h v) h q m1 in
    let now : references (insert db h v) h ≡ references db h + 1 =
      count_h ∙ rw (same_refl h) (omega (arith, small)) in
    (
      found ∙ rw now (ground arith),
      left ∙ (elim (Bool-cases (same q h)) [
        | inl e ↦ rw (e, now, same→eq q h e) (omega arith)
        | inr e ↦ rw (e, count_q, e) refl
      ]),
    )
