-- ===== src/Core/OverlayDb.antt =====
-- libdevcore/OverlayDB.{h,cpp}: a database in memory over one on disk. The disk is LevelDB, of another project, and a
-- parameter here: a state, `get` (an empty value for a missing key), `write` of a batch and `delete`, both with
-- the status they return. The retries' sleeps and the logging are left out; `exit(-1)` is `none`.
use x_chain.Prelude.{
  ℕ, zero, suc, ◌+◌, ◌-◌, ◌*◌, ◌/◌, ◌%◌, ◌^◌, ◌≤◌, ◌<◌, min, max, bit_and, bit_or, bit_xor, ◌≡◌,
  refl, sym, ap, ◌∙◌, subst, ◌≢◌, ◌↔◌, ◌⊎◌, inl, inr, Bool, true, false, not, ◌&&◌, ◌||◌, Option,
  none, some, List, [], ◌∷◌, ◌++◌, map, arith, ltb, leb, ◌==◌, if◌then◌else◌, ltb→lt, lt→ltb,
  leb→le, ==_iff, Bool-cases, Option-cases, length, get_elem?, get_or, set, take, drop, replicate,
  length-append, length-set, length-replicate, All,
}
use x_chain.Core.Maps.{Bytes, Map, find}
use x_chain.Core.MemoryDb.{Node, Auxiliary, MemoryDb, referenced}
use x_chain.Core.MemoryDb as Memory
pub mod Batches
pub mod Commit

abbrev pub Batch : Type 0
Batch = List (Bytes × Bytes)

pub record Disk (D : Type 0) : Type 0 where
  pub get : D → Bytes → Bytes
  pub write : D → Batch → Bool × D
  pub delete : D → Bytes → Bool × D

pub record OverlayDb (D : Type 0) : Type 0 where
  pub memory : MemoryDb
  pub db : Option D

-- The key of an auxiliary entry on disk.
abbrev pub aux_key : Bytes → Bytes
aux_key h = h ++ (255 ∷ [])

unfoldable pub batch_main : Map Node → Batch
batch_main [] = []
batch_main (e ∷ m) =
    let rest = batch_main m in if referenced e.1 then (e.0, e.1.value) ∷ rest else rest

unfoldable pub batch_aux : Map Auxiliary → Batch
batch_aux [] = []
batch_aux (e ∷ m) =
    let rest = batch_aux m in if e.1.live then (aux_key e.0, e.1.value) ∷ rest else rest

module _ {D : Type 0} (disk : Disk D) where
  -- The loop with its ten tries, `none` after the last failure.
  unfoldable pub write_tries : ℕ → D → Batch → Option D
  write_tries zero d b = none
  write_tries (suc n) d b =
      let (ok, d') = disk.write d b in let rest = write_tries n d' b in if ok then some d' else rest

  unfoldable pub commit_to : OverlayDb D → Option D → Option (OverlayDb D)
  commit_to o none = none
  commit_to o (some d) = some (record { memory = Memory.clear o.memory; db = some d })

  unfoldable pub commit : OverlayDb D → Option (OverlayDb D)
  commit o = elim o.db [
    | none ↦ some o
    | some d ↦ commit_to o (write_tries 10 d (batch_main o.memory.main ++ batch_aux o.memory.aux))
  ]

  -- What the disk has for a key, nothing without a disk.
  unfoldable pub get_disk : Option D → Bytes → Bytes
  get_disk none k = []
  get_disk (some d) k = disk.get d k

  unfoldable pub or_disk : Bytes → Option D → Bytes → Bytes
  or_disk [] d k = get_disk d k
  or_disk (x ∷ v) d k = x ∷ v

  unfoldable pub lookup_aux : OverlayDb D → Bytes → Bytes
  lookup_aux o h = or_disk (Memory.lookup_aux o.memory h) o.db (aux_key h)

  unfoldable pub lookup : OverlayDb D → Bytes → Bytes
  lookup o h = or_disk (Memory.lookup o.memory h) o.db h

  unfoldable pub exists : OverlayDb D → Bytes → Bool
  exists o h = Memory.exists o.memory h || not (length (get_disk o.db h) == 0)

  unfoldable pub rollback : OverlayDb D → OverlayDb D
  rollback o = record o { memory = record o.memory { main = [] } }

  unfoldable pub kill : OverlayDb D → Bytes → OverlayDb D
  kill o h = record o { memory = (Memory.kill o.memory h).1 }

  unfoldable pub deepkill_on : OverlayDb D → Bytes → Option D → Option (Bool × OverlayDb D)
  deepkill_on o h none = none
  deepkill_on o h (some d) = let (ok, d') = disk.delete d h in some (ok, record o { db = some d' })

  -- `none` where the source goes through a null pointer.
  unfoldable pub deepkill : OverlayDb D → Bytes → Option (Bool × OverlayDb D)
  deepkill o h = let o' = kill o h in deepkill_on o' h o'.db
