-- ===== src/Core/Rlp.antt =====
-- Items of the recursive length prefix format, as libdevcore/TrieDB.h reads and writes them by the classes RLP and
-- RLPStream, which are not in the repository: an item is a string of bytes or a list of items. The bytes of an item,
-- their decoding, `toHash`, which makes a hash of the bytes of an item, and the hash function of libdevcore/SHA3.cpp, a
-- copy of libkeccak-tiny, are parameters; a string that holds no item is read as `null_item`.
use x_chain.Prelude.{
  ℕ, zero, suc, ◌≡◌, ◌≢◌, Bool, true, false, ◌&&◌, List, [], ◌∷◌, ◌==◌, if◌then◌else◌,
}

abbrev pub Bytes : Type 0
Bytes = List ℕ

mutual
  pub data Rlp : Type 0 where
    null_item : Rlp
    text : Bytes → Rlp
    items : Items → Rlp

  pub data Items : Type 0 where
    nil : Items
    cons : Rlp → Items → Items

pub record Coding : Type 0 where
  pub encode : Rlp → Bytes
  pub decode : Bytes → Rlp
  pub sha3 : Bytes → Bytes
  pub to_hash : Bytes → Bytes

-- No null stands in the item.
unfoldable mutual
  pub is_whole : Rlp → Bool
  is_whole null_item = false
  is_whole (text s) = true
  is_whole (items l) = are_whole l

  pub are_whole : Items → Bool
  are_whole nil = true
  are_whole (cons r l) = is_whole r && are_whole l

-- An item that is written has bytes and is read back; a hash is not the empty string, and `toHash` of its bytes gives it
-- back.
pub record IsCoding (c : Coding) : Type 0 where
  pub decode-encode : (r : Rlp) → is_whole r ≡ true → c.decode (c.encode r) ≡ r
  pub encode_filled : (r : Rlp) → is_whole r ≡ true → c.encode r ≢ []
  pub sha3_filled : (a : Bytes) → c.sha3 a ≢ []
  pub to_hash-sha3 : (a : Bytes) → c.to_hash (c.sha3 a) ≡ c.sha3 a

-- The hash of a model in which two strings never have one hash, as those of libdevcore/SHA3.cpp may: what is shown with
-- it is shown of the code up to collisions.
pub record IsCollisionFree (c : Coding) : Type 0 where
  pub coded : IsCoding c
  pub sha3_injective : (a b : Bytes) → c.sha3 a ≡ c.sha3 b → a ≡ b

-- `isList`, `isNull` and `isEmpty`
unfoldable pub is_list : Rlp → Bool
is_list (items l) = true
is_list _ = false

unfoldable pub is_null : Rlp → Bool
is_null null_item = true
is_null _ = false

unfoldable pub is_empty : Rlp → Bool
is_empty null_item = false
is_empty (text []) = true
is_empty (text (b ∷ s)) = false
is_empty (items nil) = true
is_empty (items (cons r l)) = false

-- The bytes of a string, which are also what `toString` gives.
unfoldable pub payload : Rlp → Bytes
payload (text s) = s
payload _ = []

-- `_orig[i]`; behind the end it is null.
unfoldable pub item : Items → ℕ → Rlp
item nil i = null_item
item (cons r l) zero = r
item (cons r l) (suc i) = item l i

unfoldable pub set_item : Items → ℕ → Rlp → Items
set_item nil i x = nil
set_item (cons r l) zero x = cons x l
set_item (cons r l) (suc i) x = cons r (set_item l i x)

unfoldable pub count : Items → ℕ
count nil = 0
count (cons r l) = suc (count l)

-- `rlpList` of two items.
abbrev pub two : Rlp → Rlp → Rlp
two a b = items (cons a (cons b nil))

unfoldable pub repeated : ℕ → Items
repeated zero = nil
repeated (suc n) = cons (text []) (repeated n)

-- The distinction that the code of the trie makes: an empty item, a list of two or of seventeen items, or neither,
-- on which its assertions fail.
pub data View : Type 0 where
  nothing : View
  pair : Rlp → Rlp → View
  branch : Items → View
  other : View

unfoldable pub view_items : Items → View
view_items nil = nothing
view_items (cons a nil) = other
view_items (cons a (cons b nil)) = pair a b
view_items (cons a (cons b (cons c l))) =
    if count l == 14 then branch (cons a (cons b (cons c l))) else other

unfoldable pub view : Rlp → View
unfolding view_items
view null_item = other
view (text []) = nothing
view (text (b ∷ s)) = other
view (items l) = view_items l
