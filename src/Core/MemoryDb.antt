-- ===== src/Core/MemoryDb.antt =====
-- libdevcore/MemoryDB.{h,cpp}: trie nodes in memory, each with a reference count, and auxiliary data with a flag.
-- A hash is the string of its bytes. The guards of DEV_GUARDED_DB, the logging and the code under ETH_PARANOIA are left out.
use x_chain.Prelude.{
  ℕ, zero, suc, ◌+◌, ◌-◌, ◌*◌, ◌/◌, ◌%◌, ◌^◌, ◌≤◌, ◌<◌, min, max, bit_and, bit_or, bit_xor, ◌≡◌,
  refl, sym, ap, ◌∙◌, subst, ◌≢◌, ◌↔◌, ◌⊎◌, inl, inr, Bool, true, false, not, ◌&&◌, ◌||◌, Option,
  none, some, List, [], ◌∷◌, ◌++◌, map, arith, ltb, leb, ◌==◌, if◌then◌else◌, ltb→lt, lt→ltb,
  leb→le, ==_iff, Bool-cases, Option-cases, length, get_elem?, get_or, set, take, drop, replicate,
  length-append, length-set, length-replicate, All,
}
use x_chain.Core.Maps.{Bytes, Map, find, put, retain}
pub mod Counts
pub mod Listing

abbrev pub word32 : ℕ
word32 = 4294967296

-- `std::pair<std::string, unsigned>` and `std::pair<bytes, bool>`
pub record Node : Type 0 where
  pub value : Bytes
  pub refs : ℕ

pub record Auxiliary : Type 0 where
  pub value : Bytes
  pub live : Bool

pub record MemoryDb : Type 0 where
  pub main : Map Node
  pub aux : Map Auxiliary
  pub enforce_refs : Bool

abbrev pub empty_db : MemoryDb
empty_db = record { main = []; aux = []; enforce_refs = false }

unfoldable pub clear : MemoryDb → MemoryDb
clear db = record db { main = []; aux = [] }

-- `!m_enforceRefs || refs > 0`
unfoldable pub counts : Bool → Node → Bool
counts enforced n = not enforced || ltb 0 n.refs

unfoldable pub get_from : Bool → Map Node → Map Bytes
get_from enforced [] = []
get_from enforced (e ∷ m) =
    let rest = get_from enforced m in if counts enforced e.1 then (e.0, e.1.value) ∷ rest else rest

unfoldable pub get : MemoryDb → Map Bytes
get db = get_from db.enforce_refs db.main

-- The assignment from another object; the flag stays.
unfoldable pub assign : MemoryDb → MemoryDb → MemoryDb
assign db c = record db { main = c.main; aux = c.aux }

unfoldable pub lookup_node : Bool → Option Node → Bytes
lookup_node enforced none = []
lookup_node enforced (some n) = if counts enforced n then n.value else []

unfoldable pub lookup : MemoryDb → Bytes → Bytes
lookup db h = lookup_node db.enforce_refs (find h db.main)

unfoldable pub exists_node : Bool → Option Node → Bool
exists_node enforced none = false
exists_node enforced (some n) = counts enforced n

unfoldable pub exists : MemoryDb → Bytes → Bool
exists db h = exists_node db.enforce_refs (find h db.main)

unfoldable pub inserted : Option Node → Bytes → Node
inserted none v = record { value = v; refs = 1 }
inserted (some n) v = record { value = v; refs = (n.refs + 1) % word32 }

unfoldable pub insert : MemoryDb → Bytes → Bytes → MemoryDb
insert db h v = record db { main = put h (inserted (find h db.main) v) db.main }

unfoldable pub kill_node : MemoryDb → Bytes → Option Node → Bool × MemoryDb
kill_node db h none = (false, db)
kill_node db h (some n) =
    if ltb 0 n.refs
    then (true, record db { main = put h (record n { refs = n.refs - 1 }) db.main })
    else (false, db)

unfoldable pub kill : MemoryDb → Bytes → Bool × MemoryDb
kill db h = kill_node db h (find h db.main)

unfoldable pub lookup_aux_entry : Bool → Option Auxiliary → Bytes
lookup_aux_entry enforced none = []
lookup_aux_entry enforced (some a) = if not enforced || a.live then a.value else []

unfoldable pub lookup_aux : MemoryDb → Bytes → Bytes
lookup_aux db h = lookup_aux_entry db.enforce_refs (find h db.aux)

-- `m_aux[_h].second = false`, on a new entry too.
unfoldable pub unflagged : Option Auxiliary → Auxiliary
unflagged none = record { value = []; live = false }
unflagged (some a) = record a { live = false }

unfoldable pub remove_aux : MemoryDb → Bytes → MemoryDb
remove_aux db h = record db { aux = put h (unflagged (find h db.aux)) db.aux }

unfoldable pub insert_aux : MemoryDb → Bytes → Bytes → MemoryDb
insert_aux db h v = record db { aux = put h (record { value = v; live = true }) db.aux }

unfoldable pub referenced : Node → Bool
referenced n = not (n.refs == 0)

unfoldable pub purge : MemoryDb → MemoryDb
purge db = record db { main = retain referenced db.main; aux = retain (λ a. a.live) db.aux }

unfoldable pub keys_of : Map Node → List Bytes
keys_of [] = []
keys_of (e ∷ m) = let rest = keys_of m in if referenced e.1 then e.0 ∷ rest else rest

unfoldable pub keys : MemoryDb → List Bytes
keys db = keys_of db.main

-- The class EnforceRefs: it keeps the old flag, sets another, and puts the old one back at its end.
unfoldable pub enforce : MemoryDb → Bool → Bool × MemoryDb
enforce db r = (db.enforce_refs, record db { enforce_refs = r })

unfoldable pub enforce_ends : MemoryDb → Bool → MemoryDb
enforce_ends db old = record db { enforce_refs = old }
