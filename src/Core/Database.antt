-- ===== src/Core/Database.antt =====
-- What the template GenericTrieDB (libdevcore/TrieDB.h) asks of its parameter DB, and class MemoryDB
-- (libdevcore/MemoryDB.h) as one: `kill` is called for its effect.
use x_chain.Prelude.{
  ◌≡◌, refl, inl, inr, false, arith, if◌then◌else◌, Option-cases, Bool-cases, ltb, ◌-◌,
}
use x_chain.Core.Maps.{Bytes, same, find, find-put, same→eq}
use x_chain.Core.MemoryDb as Memory
use x_chain.Core.MemoryDb.{MemoryDb, empty_db}

pub record Database : Type 1 where
  pub State : Type 0
  pub lookup : State → Bytes → Bytes
  pub insert : State → Bytes → Bytes → State
  pub kill : State → Bytes → State

-- In the states of `Keeps` a lookup gives what was inserted last, and a killed entry is still found: it is there until
-- a purge.
pub record IsLasting (d : Database) : Type 1 where
  pub Keeps : d.State → Type 0
  pub keeps_insert : (db : d.State) (h v : Bytes) → Keeps db → Keeps (d.insert db h v)
  pub keeps_kill : (db : d.State) (h : Bytes) → Keeps db → Keeps (d.kill db h)
  pub lookup-insert :
      (db : d.State) (h v q : Bytes)
      → Keeps db
      → d.lookup (d.insert db h v) q ≡ (if same q h then v else d.lookup db q)
  pub lookup-kill :
      (db : d.State) (h q : Bytes) → Keeps db → d.lookup (d.kill db h) q ≡ d.lookup db q

abbrev pub memory_database : Database
memory_database = record {
  State = MemoryDb;
  lookup = Memory.lookup;
  insert = Memory.insert;
  kill = λ db h. (Memory.kill db h).1;
}

abbrev pub Unenforced : MemoryDb → Type 0
Unenforced db = db.enforce_refs ≡ false

insert-Unenforced :
    (db : MemoryDb) (h v : Bytes) → Unenforced db → Unenforced (Memory.insert db h v)
unfolding Memory.insert
insert-Unenforced db h v k = k

kill-Unenforced : (db : MemoryDb) (h : Bytes) → Unenforced db → Unenforced (Memory.kill db h).1
unfolding Memory.kill Memory.kill_node
kill-Unenforced db h k = ground arith

lookup-insert :
    (db : MemoryDb) (h v q : Bytes)
    → Unenforced db
    → Memory.lookup (Memory.insert db h v) q ≡ (if same q h then v else Memory.lookup db q)
unfolding Memory.lookup Memory.insert Memory.lookup_node Memory.inserted Memory.counts
lookup-insert db h v q k =
    rw (find-put q h (Memory.inserted (find h db.main) v) db.main) (ground arith)

lookup-kill :
    (db : MemoryDb) (h q : Bytes)
    → Unenforced db
    → Memory.lookup (Memory.kill db h).1 q ≡ Memory.lookup db q
unfolding Memory.lookup Memory.kill Memory.lookup_node Memory.kill_node Memory.counts
lookup-kill db h q k = elim (Option-cases (find h db.main)) [
  | inl e ↦ rw e refl
  | inr (n, e) ↦ elim (Bool-cases (ltb 0 n.refs)) [
    | inr p ↦ rw (e, p) refl
    | inl p ↦
        let fewer : Memory.Node = record n { refs = n.refs - 1 } in
        let found = find-put q h fewer db.main in
        rw (e, p, found)
          (elim (Bool-cases (same q h)) [
            | inr apart ↦ rw apart refl
            | inl here ↦ rw here (rw (same→eq q h here, e) (rw k refl))
          ])
  ]
]

-- Class MemoryDB is such a database while it does not enforce its counts, as it is built.
pub memory_database-IsLasting : IsLasting memory_database
memory_database-IsLasting = record {
  Keeps = Unenforced;
  keeps_insert = insert-Unenforced;
  keeps_kill = kill-Unenforced;
  lookup-insert = lookup-insert;
  lookup-kill = lookup-kill;
}

pub empty_db-Keeps : memory_database-IsLasting.Keeps empty_db
unfolding memory_database-IsLasting
empty_db-Keeps = refl
