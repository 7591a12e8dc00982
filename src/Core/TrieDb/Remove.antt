-- ===== src/Core/TrieDb/Remove.antt =====
-- `remove` of libdevcore/TrieDB.h, with deleteAt, graft and merge.
-- What deleteAt returns is `none` inside the outcome where the code returns no bytes: the key was not there.
use x_chain.Prelude.{
  ℕ, zero, suc, ◌*◌, Bool, true, false, not, ◌&&◌, ◌||◌, Option, none, some, [], ◌∷◌, ◌==◌,
  if◌then◌else◌, length,
}
use x_chain.Core.TrieCommon.{
  NibbleSlice, End, size, mid, at_index, contains, equals, is_leaf, key_of, hex_prefix_encode,
  hex_prefix_encode_two, hex_prefix_encode_vector, unique_in_use,
}
use x_chain.Core.Rlp.{
  Bytes, Rlp, Items, Coding, View, text, items, nothing, pair, branch, other, is_list, is_empty,
  payload, item, set_item, count, two, view,
}
use x_chain.Core.Database.{Database}
use x_chain.Core.TrieDb.{
  ◌>>=◌, assert, whole, Made, node, deref, kill_node, stream_node, Trie, insert_root,
}

unfoldable pub item_count : Rlp → ℕ
item_count (items l) = count l
item_count _ = 0

-- `uniqueInUse` on the items of a node.
unfoldable pub used_item : Items → ℕ → ℕ
used_item l except = unique_in_use (λ i. not (is_empty (item l i))) except

module _ (coding : Coding) (database : Database) where
  open coding use {encode, decode, sha3, to_hash}
  open database use {State, lookup, insert, kill}

  abbrev pub Deleted : Type 0
  Deleted = Option (Option Rlp × State)

  abbrev pub Delete : Type 0
  Delete = Rlp → NibbleSlice → State → Deleted

  -- `isTwoItemNode`
  unfoldable pub is_two_item_node : State → Rlp → Bool
  is_two_item_node db n =
      if is_list n
      then item_count n == 2
      else item_count (node coding database db (to_hash (payload n))) == 2

  unfoldable pub grafted : Rlp → View → State → Made coding database
  grafted first (pair a b) db =
      let k = key_of (payload first) in
      let n = key_of (payload a) in
      some (
        two (text (hex_prefix_encode_two k.bytes k.offset n.bytes n.offset (is_leaf (payload a))))
            b,
        db,
      )
  grafted first nothing db = none
  grafted first (branch l) db = none
  grafted first other db = none

  -- `graft` on a pair; a second item that is a reference is killed.
  unfoldable pub graft : Rlp → Rlp → State → Made coding database
  graft first second db =
      grafted first (view (deref coding database db second))
        (if is_list second then db else kill db (to_hash (payload second)))

  -- The first item that `merge` makes for item `i`.
  unfoldable pub merged_key : ℕ → Rlp
  merged_key i =
      if i == 16
      then text (hex_prefix_encode_vector [] true 0 0)
      else text (hex_prefix_encode (i ∷ []) false 1 (End.to 2) 0)

  -- `merge`, and `graft` where the item is a node of two items.
  unfoldable pub merge_used : Items → ℕ → State → Made coding database
  merge_used l i db = assert (i == 16 || not (is_empty (item l i))) (
      if is_two_item_node db (item l i)
      then graft (merged_key i) (item l i) db
      else some (two (merged_key i) (item l i), db))

  abbrev pub kept_out : Made coding database → Deleted
  kept_out m = m >>= λ made. some (some made.0, made.1)

  -- `deleteAtAux`, with what follows it.
  unfoldable pub delete_aux :
      Delete → Rlp → NibbleSlice → (Rlp → State → Made coding database) → State → Deleted
  delete_aux rec orig k after db =
      if is_empty orig
      then some (none, db)
      else (rec (deref coding database db orig) k db >>= λ out. elim out.0 [
        | none ↦ some (none, out.1)
        | some b ↦ let (x, db') = stream_node coding database b out.1 in kept_out (after x db')
      ])

  -- The end of `deleteAt` on a pair whose second item has become `x`.
  unfoldable pub rejoin : Rlp → Rlp → Rlp → State → Made coding database
  rejoin orig first x db =
      let db' = kill_node coding database orig (sha3 (encode orig)) db in
      if is_two_item_node db' x then graft first x db' else some (two first x, db')

  -- The end of `deleteAt` on a branch whose items have become `l`.
  unfoldable pub rejig : Rlp → Items → ℕ → State → Made coding database
  rejig orig l except db =
      let db' = kill_node coding database orig (sha3 (encode orig)) db in
      let used = used_item l except in
      if used == 255 then some (items l, db') else merge_used l used db'

  unfoldable pub delete_view : Delete → Rlp → View → NibbleSlice → State → Deleted
  delete_view rec orig nothing k db = some (none, db)
  delete_view rec orig other k db = none
  delete_view rec orig (pair first second) k db =
      let key = key_of (payload first) in
      if equals key k && is_leaf (payload first)
      then some (some (text []), kill_node coding database orig (sha3 (encode orig)) db)
      else if contains k key
      then delete_aux rec second (mid k (size key)) (rejoin orig first) db
      else some (none, db)
  delete_view rec orig (branch l) k db =
      if size k == 0 && not (is_empty (item l 16))
      then kept_out (rejig orig (set_item l 16 (text [])) 16 db)
      else delete_aux rec (item l (at_index k 0)) (mid k 1)
          (λ x. rejig orig (set_item l (at_index k 0) x) 255) db

  unfoldable pub delete_at : ℕ → Delete
  delete_at zero orig k db = none
  delete_at (suc n) orig k db = delete_view (delete_at n) orig (view orig) k db

  unfoldable pub remove_out :
      Trie coding database → Bytes → Option Rlp × State → Trie coding database
  remove_out t old (none, db) = record t { db = db }
  remove_out t old (some r, db) = insert_root coding database t old (r, db)

  unfoldable pub remove_key : Trie coding database → Bytes → Option (Trie coding database)
  remove_key t key =
      let old = lookup t.db t.root in
      delete_at (suc (length key * 2)) (decode old) (whole key) t.db >>= λ out.
      some (remove_out t old out)
