-- ===== src/Core/Tests/Tries.antt =====
-- The trie of libdevcore/TrieDB.h over libdevcore/MemoryDB.h, on a few keys.
use x_chain.Core.TrieCommon.{
  encode_slice, end_nibble, equals, hex_prefix_encode, key_of, nibble, or_back, prefix,
  push_nibbles, size,
}
use x_chain.Prelude.{◌≡◌, refl, Option, some, [], ◌∷◌, arith, All}
use x_chain.Core.Maps.{same, find, put}
use x_chain.Core.MemoryDb as Memory
use x_chain.Core.MemoryDb.{empty_db}
use x_chain.Core.Database.{memory_database, memory_database-IsLasting, empty_db-Keeps}
use x_chain.Core.Rlp
use x_chain.Core.Rlp.{Bytes}
use x_chain.Core.TrieCommon
use x_chain.Core.TrieDb
use x_chain.Core.TrieDb.Holds.{Table}
use x_chain.Core.TrieDb.{whole, ◌>>=◌, Trie, init, at, insert_key}
use x_chain.Core.TrieDb.Insert.{IsPath, path, IsTrie, at_lem}
use x_chain.Core.TrieDb.Runs.{Entries, value_of, insert_all, insert_all-IsTrie}
use x_chain.Core.Tests.Codings.{
  marking, marking-IsCoding, marking-IsCollisionFree, written, read, read_text, read_bytes,
}

abbrev new_trie : Trie marking memory_database
new_trie = init marking memory_database empty_db

-- Keys that share nibbles, one that begins another, and one that is given twice.
abbrev entries : Entries
entries =
    (0x12 ∷ 0x34 ∷ [], 7 ∷ [])
    ∷ (0x12 ∷ 0x35 ∷ [], 5 ∷ 6 ∷ [])
    ∷ (0x12 ∷ [], 4 ∷ [])
    ∷ (0x92 ∷ 0x30 ∷ [], 3 ∷ [])
    ∷ (0x12 ∷ 0x34 ∷ [], 1 ∷ 2 ∷ [])
    ∷ []

octets_path : IsPath (0x12 ∷ 0x34 ∷ [])
octets_path = record { octets = ground arith; short = omega arith }

entries-IsPath : All (λ e. IsPath e.0) entries
entries-IsPath = (
  record { octets = ground arith; short = omega arith },
  (
    record { octets = ground arith; short = omega arith },
    (
      record { octets = ground arith; short = omega arith },
      (
        record { octets = ground arith; short = omega arith },
        (record { octets = ground arith; short = omega arith }, tt),
      ),
    ),
  ),
)

-- The trie of the entries, with its table.
abbrev grown_trie :
    (t : Trie marking memory_database) × (f : Table) × (insert_all marking memory_database entries
        new_trie
      ≡ some t)
    × IsTrie marking memory_database memory_database-IsLasting t f
    × ((q : Bytes) → IsPath q → f (path q) ≡ value_of entries q)
grown_trie =
    insert_all-IsTrie marking memory_database memory_database-IsLasting marking-IsCollisionFree
      entries empty_db empty_db-Keeps entries-IsPath

at_lem_example :
    at marking memory_database grown_trie.0 (0x12 ∷ 0x34 ∷ [])
    ≡ some (grown_trie.1 (path (0x12 ∷ 0x34 ∷ [])))
at_lem_example =
    at_lem marking memory_database memory_database-IsLasting marking-IsCoding grown_trie.0
      grown_trie.1 (0x12 ∷ 0x34 ∷ []) grown_trie.3 octets_path

-- The run, and a lookup after it.
read_back : Bytes → Option Bytes
read_back q =
    insert_all marking memory_database entries new_trie >>= λ t. at marking memory_database t q

-- The latest value of the first key, the key that begins others, and a key that was not given.
found :
    (read_back (0x12 ∷ 0x34 ∷ []) ≡ some (7 ∷ []))
    × (read_back (0x12 ∷ []) ≡ some (4 ∷ []))
    × (read_back (0x92 ∷ []) ≡ some [])
unfolding read_back read_text Memory.kill Memory.kill_node Rlp.count Rlp.is_empty Rlp.is_list
    Rlp.is_null Rlp.item Rlp.payload Rlp.repeated Rlp.set_item Rlp.view_items TrieCommon.at_index
    TrieCommon.contains TrieCommon.encode_slice TrieCommon.end_nibble TrieCommon.equals
    TrieCommon.hex_prefix_encode TrieCommon.is_leaf TrieCommon.key_of TrieCommon.mid
    TrieCommon.nibble TrieCommon.or_back TrieCommon.prefix TrieCommon.push_nibbles TrieCommon.shared
    TrieCommon.shared_nibbles TrieCommon.shared_rounds TrieCommon.size at TrieDb.at_aux
    TrieDb.at_view TrieDb.branch_out TrieDb.cleve TrieDb.deref TrieDb.insert_root TrieDb.kill_node
    TrieDb.merge_at TrieDb.merge_aux TrieDb.node TrieDb.place TrieDb.stream_node insert_all
    insert_key Memory.lookup Memory.lookup_node find init Memory.insert put same written
    Memory.counts Memory.inserted TrieDb.merge_view Rlp.view read_bytes read
found = (refl, refl, refl)

-- A key is taken out again, and the others stay.
read_after_remove : Bytes → Bytes → Option Bytes
read_after_remove gone q = insert_all marking memory_database entries new_trie >>= λ t.
    TrieDb.Remove.remove_key marking memory_database t gone >>= λ t. at marking memory_database t q

removed :
    (read_after_remove (0x12 ∷ []) (0x12 ∷ []) ≡ some [])
    × (read_after_remove (0x12 ∷ []) (0x12 ∷ 0x35 ∷ []) ≡ some (5 ∷ 6 ∷ []))
    × (read_after_remove (0x92 ∷ 0x30 ∷ []) (0x12 ∷ 0x34 ∷ []) ≡ some (7 ∷ []))
unfolding read_after_remove read_text Memory.kill Memory.kill_node Rlp.count Rlp.is_empty
    Rlp.is_list Rlp.is_null Rlp.item Rlp.payload Rlp.repeated Rlp.set_item Rlp.view_items
    TrieCommon.at_index TrieCommon.contains TrieCommon.encode_slice TrieCommon.end_nibble
    TrieCommon.equals TrieCommon.hex_prefix_encode TrieCommon.is_leaf TrieCommon.key_of
    TrieCommon.mid TrieCommon.nibble TrieCommon.or_back TrieCommon.prefix TrieCommon.push_nibbles
    TrieCommon.shared TrieCommon.shared_nibbles TrieCommon.shared_rounds TrieCommon.size at
    TrieDb.at_aux TrieDb.at_view TrieDb.branch_out TrieDb.cleve TrieDb.deref TrieDb.insert_root
    TrieDb.kill_node TrieDb.merge_at TrieDb.merge_aux TrieDb.node TrieDb.place TrieDb.stream_node
    insert_all insert_key Memory.lookup Memory.lookup_node find init Memory.insert put same written
    Memory.counts Memory.inserted TrieDb.merge_view Rlp.view read_bytes read
    TrieDb.Remove.remove_key TrieDb.Remove.remove_out TrieDb.Remove.delete_at
    TrieDb.Remove.delete_view TrieDb.Remove.rejig TrieDb.Remove.rejoin TrieDb.Remove.delete_aux
    TrieDb.Remove.merge_used TrieDb.Remove.merged_key TrieDb.Remove.graft TrieDb.Remove.grafted
    TrieDb.Remove.is_two_item_node TrieDb.Remove.used_item TrieDb.Remove.item_count
    TrieCommon.unique_in_use TrieCommon.unique_rounds TrieCommon.hex_prefix_encode_vector
    TrieCommon.hex_prefix_encode_two TrieCommon.pairs
removed = (refl, refl, refl)
