-- ===== src/Core/TrieCommon/Slices.antt =====
-- Round trips of the two encoders of slices in libdevcore/TrieCommon.cpp, through `keyOf`.
use x_chain.Prelude.{
  ℕ, zero, suc, ◌+◌, ◌-◌, ◌*◌, ◌/◌, ◌≤◌, ◌<◌, ◌≡◌, refl, sym, ap, ◌∙◌, Bool, List, [], ◌∷◌, ◌++◌,
  arith, length, get_or, length-append, All,
}
use x_chain.Core.TrieCommon.{
  Bytes, NibbleSlice, nibble, size, word32, End, end_nibble, hex_prefix_encode, encode_slice,
  hex_prefix_encode_two, is_leaf, key_of,
}
use x_chain.Core.TrieCommon.Onto.{nibbles_from, onto, push_nibbles-onto, onto-append}
use x_chain.Core.TrieCommon.Decode.{nibbles, encoded, encoded-Decodes}

-- A view that starts inside its bytes, whose nibbles can be counted in 32 bits.
pub record IsSlice (s : NibbleSlice) : Type 0 where
  pub inside : s.offset ≤ length s.bytes * 2
  pub small : length s.bytes * 2 + 2 < word32
  pub octets : All (λ b. b < 256) s.bytes

pub length-nibbles_from : (bytes : Bytes) (i n : ℕ) → length (nibbles_from bytes i n) ≡ n
length-nibbles_from bytes i zero = refl
length-nibbles_from bytes i (suc n) = ap suc (length-nibbles_from bytes (suc i) n)

get_or-lt : (bytes : Bytes) (i : ℕ) → All (λ b. b < 256) bytes → get_or bytes i 0 < 256
get_or-lt [] i all = omega arith
get_or-lt (b ∷ bytes) zero all = all.0
get_or-lt (b ∷ bytes) (suc i) all = get_or-lt bytes i all.1

nibble-lt : (bytes : Bytes) (i : ℕ) → All (λ b. b < 256) bytes → nibble bytes i < 16
unfolding nibble
nibble-lt bytes i all = let h = get_or-lt bytes (i / 2) all in ground arith

pub nibbles_from-All :
    (bytes : Bytes) (i n : ℕ)
    → All (λ b. b < 256) bytes
    → All (λ a. a < 16) (nibbles_from bytes i n)
nibbles_from-All [] i zero all = all
nibbles_from-All (b ∷ bytes) i zero all = nibbles_from-All bytes i zero all.1
nibbles_from-All bytes i (suc n) all = (nibble-lt bytes i all, nibbles_from-All bytes (suc i) n all)

All-append : (l k : List ℕ) → All (λ a. a < 16) l → All (λ a. a < 16) k → All (λ a. a < 16) (l ++ k)
All-append [] k a b = b
All-append (x ∷ l) k a b = (a.0, All-append l k a.1 b)

pub size-IsSlice : (s : NibbleSlice) → IsSlice s → size s ≡ length s.bytes * 2 - s.offset
unfolding size
size-IsSlice s v = omega (arith, v.inside, v.small)

pub hex_prefix_encode-encoded :
    (bytes : Bytes) (leaf : Bool) (b : ℕ) (e : End) (o : ℕ)
    → hex_prefix_encode bytes leaf b e o
      ≡ encoded (nibbles_from bytes (b + o) (end_nibble bytes e o - (b + o))) leaf
unfolding hex_prefix_encode
hex_prefix_encode-encoded bytes leaf b e o =
    rw (length-nibbles_from bytes (b + o) (end_nibble bytes e o - (b + o)))
      (push_nibbles-onto (end_nibble bytes e o - (b + o)) bytes (b + o) _ _)

pub encode_slice-encoded :
    (s : NibbleSlice) (leaf : Bool) → IsSlice s → encode_slice s leaf ≡ encoded (nibbles s) leaf
unfolding encode_slice end_nibble
encode_slice-encoded s leaf v =
    hex_prefix_encode-encoded s.bytes leaf 0 (End.back 0) s.offset
    ∙ ap
        (λ b.
          encoded (nibbles_from s.bytes b (length s.bytes * 2 - s.offset - 0 + s.offset - b)) leaf)
        (omega arith)
    ∙ ap (λ n. encoded (nibbles_from s.bytes s.offset n) leaf)
        (omega (arith, size-IsSlice s v, v.inside))

-- `keyOf` and `isLeaf` of an encoded slice give its nibbles and its flag back.
pub key_of-encode_slice :
    (s : NibbleSlice) (leaf : Bool)
    → IsSlice s
    → (nibbles (key_of (encode_slice s leaf)) ≡ nibbles s) × (is_leaf (encode_slice s leaf) ≡ leaf)
key_of-encode_slice s leaf v = rw (encode_slice-encoded s leaf v) (
    encoded-Decodes (nibbles s) leaf (nibbles_from-All s.bytes s.offset (size s) v.octets) (
      rw (length-nibbles_from s.bytes s.offset (size s))
        (omega (arith, size-IsSlice s v, v.small))))

onto_split :
    (l m : List ℕ) (d : ℕ) (ret : Bytes) (n : ℕ)
    → length l ≡ n
    → onto m (d + n) (onto l d ret) ≡ onto (l ++ m) d ret
onto_split l m d ret n e = rw (sym e) (sym (onto-append l m d ret))

encode_two-encoded :
    (s k : NibbleSlice) (leaf : Bool)
    → IsSlice s
    → IsSlice k
    → hex_prefix_encode_two s.bytes s.offset k.bytes k.offset leaf
      ≡ encoded (nibbles s ++ nibbles k) leaf
unfolding hex_prefix_encode_two
encode_two-encoded s k leaf v w =
    let l = nibbles s in
    let m = nibbles k in
    rw
      (
        sym (size-IsSlice s v),
        sym (size-IsSlice k w),
        length-append l m,
        length-nibbles_from s.bytes s.offset (size s),
        length-nibbles_from k.bytes k.offset (size k),
        push_nibbles-onto (size s) s.bytes s.offset _ _,
      )
      (push_nibbles-onto (size k) k.bytes k.offset _ _
        ∙ onto_split l m _ _ (size s) (length-nibbles_from s.bytes s.offset (size s)))

-- Two slices that are encoded together come back as one, the nibbles of the first and then of the second.
pub key_of-encode_two :
    (s k : NibbleSlice) (leaf : Bool)
    → IsSlice s
    → IsSlice k
    → size s + size k + 2 < word32
    → let e = hex_prefix_encode_two s.bytes s.offset k.bytes k.offset leaf in
      (nibbles (key_of e) ≡ nibbles s ++ nibbles k) × (is_leaf e ≡ leaf)
key_of-encode_two s k leaf v w small =
    let l = nibbles_from s.bytes s.offset (size s) in
    let m = nibbles_from k.bytes k.offset (size k) in
    let all =
      All-append l m (nibbles_from-All s.bytes s.offset (size s) v.octets)
        (nibbles_from-All k.bytes k.offset (size k) w.octets) in
    let count : length (l ++ m) ≡ size s + size k =
      length-append l m
      ∙ rw
          (
            length-nibbles_from s.bytes s.offset (size s),
            length-nibbles_from k.bytes k.offset (size k),
          )
          refl in
    rw (encode_two-encoded s k leaf v w) (encoded-Decodes (l ++ m) leaf all (rw count small))
