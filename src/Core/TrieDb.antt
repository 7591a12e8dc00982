-- ===== src/Core/TrieDb.antt =====
-- Class GenericTrieDB of libdevcore/TrieDB.h: the trie of Merkle and Patricia, whose nodes stand in a database under
-- their hashes, or inside their parents where they are shorter than 32 bytes.
-- A string of bytes that the code builds by RLPStream is the item that it stands for. An operation takes the state of
-- the database and gives its result and the new state; `none` is an assertion that fails, or fuel that has run out.
use x_chain.Prelude.{
  ℕ, zero, suc, ◌+◌, ◌*◌, ◌≡◌, Bool, true, false, not, ◌&&◌, ◌||◌, Option, none, some, List, [],
  ◌∷◌, ltb, ◌==◌, if◌then◌else◌, length,
}
use x_chain.Core.TrieCommon.{
  NibbleSlice, End, size, mid, at_index, contains, equals, shared, is_leaf, key_of, encode_slice,
  hex_prefix_encode,
}
use x_chain.Core.Rlp.{
  Bytes, Rlp, Items, Coding, View, null_item, text, items, nil, cons, nothing, pair, branch, other,
  is_list, is_null, is_empty, payload, item, set_item, two, repeated, view,
}
use x_chain.Core.Database.{Database}
pub mod Keys
pub mod Holds
pub mod Lookup
pub mod Splits
pub mod Nodes
pub mod Merge
pub mod Cuts
pub mod Rounds
pub mod Insert
pub mod Runs
pub mod Remove

infixl 5 ◌>>=◌
abbrev pub ◌>>=◌ : {A B : Type 0} → Option A → (A → Option B) → Option B
none >>= f = none
some a >>= f = f a

abbrev pub assert : {A : Type 0} → Bool → Option A → Option A
assert true m = m
assert false m = none

-- Seventeen empty items.
abbrev pub blank : Items
blank = repeated 17

abbrev pub whole : Bytes → NibbleSlice
whole key = record { bytes = key; offset = 0 }

module _ (coding : Coding) (database : Database) where
  open coding use {encode, decode, sha3, to_hash}
  open database use {State, lookup, insert, kill}

  -- An item, with the database after the nodes that it refers to were inserted.
  abbrev pub Made : Type 0
  Made = Option (Rlp × State)

  unfoldable pub node : State → Bytes → Rlp
  node db h = decode (lookup db h)

  unfoldable pub kill_node : Rlp → Bytes → State → State
  kill_node r h db = if ltb (length (encode r)) 32 then db else kill db h

  unfoldable pub stream_node : Rlp → State → Rlp × State
  stream_node r db =
      if ltb (length (encode r)) 32
      then (r, db)
      else (text (sha3 (encode r)), insert db (sha3 (encode r)) (encode r))

  -- `_here.isList() ? _here : RLP(node(_here.toHash<h256>()))`
  unfoldable pub deref : State → Rlp → Rlp
  unfolding node
  deref db r = if is_list r then r else node db (to_hash (payload r))

  -- One round of `atAux`, whose recursive calls go to `rec`.
  unfoldable pub at_view :
      (Rlp → NibbleSlice → Option Bytes) → State → View → NibbleSlice → Option Bytes
  at_view rec db nothing key = some []
  at_view rec db other key = none
  at_view rec db (pair hpe second) key =
      let k = key_of (payload hpe) in
      let leaf = is_leaf (payload hpe) in
      if equals key k && leaf
      then some (payload second)
      else if contains key k && not leaf
      then rec (deref db second) (mid key (size k))
      else some []
  at_view rec db (branch l) key =
      if size key == 0
      then some (payload (item l 16))
      else if is_empty (item l (at_index key 0))
      then some []
      else rec (deref db (item l (at_index key 0))) (mid key 1)

  unfoldable pub at_aux : ℕ → State → Rlp → NibbleSlice → Option Bytes
  at_aux zero db here key = none
  at_aux (suc n) db here key =
      if is_null here then some [] else at_view (at_aux n db) db (view here) key

  unfoldable pub place : Rlp → View → NibbleSlice → Bytes → State → Made
  place orig nothing k s db =
      some (two (text (encode_slice k true)) (text s), kill_node orig (sha3 (encode orig)) db)
  place orig (pair first second) k s db =
      some (two first (text s), kill_node orig (sha3 (encode orig)) db)
  place orig (branch l) k s db =
      some (items (set_item l 16 (text s)), kill_node orig (sha3 (encode orig)) db)
  place orig other k s db = none

  -- `cleve` on a pair.
  unfoldable pub cleve : Rlp → Rlp → Rlp → ℕ → State → Made
  cleve orig first second s db =
      let k = key_of (payload first) in
      let bottom =
        two (text (hex_prefix_encode k.bytes (is_leaf (payload first)) s (End.back 0) k.offset))
          second in
      let db' = kill_node orig (sha3 (encode orig)) db in
      let (x, db'') = stream_node bottom db' in
      assert (not (s == 0) && not (ltb (size k) s))
        (some (two (text (hex_prefix_encode k.bytes false 0 (End.to s) k.offset)) x, db''))

  -- `branch` on a pair.
  unfoldable pub branch_out : Rlp → Rlp → Rlp → State → Made
  branch_out orig first second db =
      let k = key_of (payload first) in
      let leaf = is_leaf (payload first) in
      let db' = kill_node orig (sha3 (encode orig)) db in
      let (x, db'') = stream_node (two (text (encode_slice (mid k 1) leaf)) second) db' in
      if size k == 0
      then assert leaf (some (items (set_item blank 16 second), db'))
      else if leaf || ltb 1 (size k)
      then some (items (set_item blank (at_index k 0) x), db'')
      else some (items (set_item blank (at_index k 0) second), db')

  -- The type of `mergeAt` with its key and its value: whether the node is in line, the node, and its key.
  abbrev pub Merge : Type 0
  Merge = Bool → Rlp → NibbleSlice → State → Made

  abbrev pub again : Merge → NibbleSlice → Rlp × State → Made
  again rec k made = rec true made.0 k made.1

  unfoldable pub merge_aux : Merge → (Rlp → Rlp) → Rlp → NibbleSlice → State → Made
  merge_aux rec wrap orig k db =
      let removable = not (is_list orig) && not (is_empty orig) in
      let r = if removable then node db (to_hash (payload orig)) else orig in
      assert (not (removable && is_null r)) (
        rec (not removable) r k db >>= λ made.
        let (x, db') = stream_node made.0 made.1 in some (wrap x, db'))

  -- One round of `mergeAt`, whose recursive calls go to `rec`.
  unfoldable pub merge_view : Merge → Bool → Rlp → Bytes → View → NibbleSlice → Bytes → State → Made
  merge_view rec in_line orig hash nothing k v db = place orig nothing k v db
  merge_view rec in_line orig hash other k v db = none
  merge_view rec in_line orig hash (pair first second) k v db =
      let key = key_of (payload first) in
      let leaf = is_leaf (payload first) in
      if equals key k && leaf
      then place orig (pair first second) k v db
      else if contains k key && not leaf
      then merge_aux rec (two first) second (mid k (size key))
          (if in_line then db else kill_node orig hash db)
      else if shared k key == 0
      then branch_out orig first second db >>= again rec k
      else cleve orig first second (shared k key) db >>= again rec k
  merge_view rec in_line orig hash (branch l) k v db =
      if size k == 0
      then place orig (branch l) k v db
      else merge_aux rec (λ x. items (set_item l (at_index k 0) x)) (item l (at_index k 0))
          (mid k 1) (if in_line then db else kill_node orig hash db)

  unfoldable pub merge_at : ℕ → Bytes → Merge
  merge_at zero v in_line orig k db = none
  merge_at (suc n) v in_line orig k db =
      merge_view (merge_at n v) in_line orig (sha3 (encode orig)) (view orig) k v db

  pub record Trie : Type 0 where
    pub root : Bytes
    pub db : State

  unfoldable pub init : State → Trie
  init db = record {
    root = sha3 (encode (text []));
    db = insert db (sha3 (encode (text []))) (encode (text []));
  }

  -- A key of `n` nibbles takes at most `2 n + 2` rounds.
  unfoldable pub at : Trie → Bytes → Option Bytes
  at t key = at_aux (suc (length key * 2)) t.db (node t.db t.root) (whole key)

  -- Whether the old root is killed here, where it is too short for `killNode`, depends on its bytes.
  unfoldable pub insert_root : Trie → Bytes → Rlp × State → Trie
  insert_root t old made =
      let db' = if ltb (length old) 32 then kill made.1 t.root else made.1 in
      record { root = sha3 (encode made.0); db = insert db' (sha3 (encode made.0)) (encode made.0) }

  unfoldable pub insert_key : Trie → Bytes → Bytes → Option Trie
  insert_key t key v =
      let old = lookup t.db t.root in
      assert (not (length old == 0)) (
        merge_view (merge_at (suc (length key * 4)) v) false (decode old) t.root (view (decode old))
          (whole key) v t.db
        >>= λ made. some (insert_root t old made))
