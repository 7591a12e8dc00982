-- ===== src/Core/TrieDb/Keys.antt =====
-- The keys of libdevcore/TrieDB.h as lists of nibbles: parts of a slice, and the keys that nodes hold.
use x_chain.Prelude.{
  ℕ, zero, suc, ◌+◌, ◌-◌, ◌*◌, ◌%◌, ◌≤◌, ◌<◌, bit_or, bit_and, ◌≡◌, refl, sym, ap, ◌∙◌, inl, inr,
  Bool, true, false, not, ◌&&◌, List, [], ◌∷◌, arith, ◌==◌, ltb, ==_iff, Bool-cases, length, drop,
  take, All,
}
use x_chain.Core.TrieCommon.{
  Bytes, NibbleSlice, End, equals, contains, shared, at_index, size, mid, is_leaf, key_of,
  hex_prefix_encode, prefix, word32, end_nibble, nibble,
}
use x_chain.Core.TrieCommon.Compare.{
  IsInside, slice_place, common, begins, shared-common, contains-begins, equals_iff,
}
use x_chain.Core.Maps.{same, same_refl, same→eq}
use x_chain.Core.TrieCommon.Onto.{nibbles_from, packed, all_below, all_below_sound}
use x_chain.Core.TrieCommon.Decode.{
  nibbles, encoded, encoded_even, encoded_odd, length-packed, encoded-Decodes,
}
use x_chain.Core.TrieCommon.Slices.{
  IsSlice, length-nibbles_from, nibbles_from-All, size-IsSlice, hex_prefix_encode-encoded,
}

-- Nibbles that a slice and its encoding have room for.
pub record IsKey (l : List ℕ) : Type 0 where
  pub digits : All (λ a. a < 16) l
  pub short : length l + 4 < word32

pub length-nibbles : (s : NibbleSlice) → length (nibbles s) ≡ size s
length-nibbles s = length-nibbles_from s.bytes s.offset (size s)

nibbles_from-drop :
    (bytes : Bytes) (o n i : ℕ)
    → i ≤ n
    → nibbles_from bytes (o + i) (n - i) ≡ drop i (nibbles_from bytes o n)
nibbles_from-drop bytes o n zero h =
    ap (λ x. nibbles_from bytes x (n - 0)) (let e : o + 0 ≡ o = omega arith in e)
    ∙ ap (λ m. nibbles_from bytes o m) (let e : n - 0 ≡ n = omega arith in e)
nibbles_from-drop bytes o zero (suc i) h = absurd (omega (arith, h))
nibbles_from-drop bytes o (suc n) (suc i) h =
    ap (nibbles_from bytes (o + suc i)) (let e : suc n - suc i ≡ n - i = omega arith in e)
    ∙ ap (λ x. nibbles_from bytes x (n - i)) (let e : o + suc i ≡ suc o + i = omega arith in e)
    ∙ nibbles_from-drop bytes (suc o) n i (omega (arith, h))

nibbles_from-take :
    (bytes : Bytes) (o n i : ℕ) → i ≤ n → nibbles_from bytes o i ≡ take i (nibbles_from bytes o n)
nibbles_from-take bytes o n zero h = refl
nibbles_from-take bytes o zero (suc i) h = absurd (omega (arith, h))
nibbles_from-take bytes o (suc n) (suc i) h =
    ap (◌∷◌ (nibble bytes o)) (nibbles_from-take bytes (suc o) n i (omega (arith, h)))

pub All-drop : (i : ℕ) (l : List ℕ) → All (λ a. a < 16) l → All (λ a. a < 16) (drop i l)
All-drop zero l all = all
All-drop (suc i) [] all = all
All-drop (suc i) (x ∷ l) all = All-drop i l all.1

pub All-take : (i : ℕ) (l : List ℕ) → All (λ a. a < 16) l → All (λ a. a < 16) (take i l)
All-take zero [] all = all
All-take zero (x ∷ l) all = All-take zero l all.1
All-take (suc i) [] all = all
All-take (suc i) (x ∷ l) all = (all.0, All-take i l all.1)

pub length-drop : (i : ℕ) (l : List ℕ) → length (drop i l) ≡ length l - i
length-drop zero l = omega arith
length-drop (suc i) [] = omega arith
length-drop (suc i) (x ∷ l) = omega (arith, length-drop i l)

pub length-take : (i : ℕ) (l : List ℕ) → length (take i l) ≤ length l
length-take zero l = omega arith
length-take (suc i) [] = omega arith
length-take (suc i) (x ∷ l) = omega (arith, length-take i l)

pub drop-IsKey : (i : ℕ) (l : List ℕ) → IsKey l → IsKey (drop i l)
drop-IsKey i l k = record {
  digits = All-drop i l k.digits;
  short = omega (arith, k.short, length-drop i l);
}

pub take-IsKey : (i : ℕ) (l : List ℕ) → IsKey l → IsKey (take i l)
take-IsKey i l k = record {
  digits = All-take i l k.digits;
  short = omega (arith, k.short, length-take i l);
}

module _ (s : NibbleSlice) (v : IsSlice s) (i : ℕ) (h : i ≤ length (nibbles s)) where
  mid_offset : (mid s i).offset ≡ s.offset + i
  unfolding mid
  mid_offset = omega (arith, h, length-nibbles s, size-IsSlice s v, v.inside, v.small)

  pub mid-IsSlice : IsSlice (mid s i)
  unfolding mid
  mid-IsSlice = record {
    inside = omega (arith, h, length-nibbles s, size-IsSlice s v, v.inside, v.small);
    small = v.small;
    octets = v.octets;
  }

  mid_bytes : (mid s i).bytes ≡ s.bytes
  unfolding mid
  mid_bytes = refl

  mid_size : size (mid s i) ≡ size s - i
  mid_size =
      size-IsSlice (mid s i) mid-IsSlice
      ∙ ap (λ b. length b * 2 - (mid s i).offset) mid_bytes
      ∙ omega (arith, mid_offset, h, length-nibbles s, size-IsSlice s v, v.inside)

  pub nibbles-mid : nibbles (mid s i) ≡ drop i (nibbles s)
  unfolding mid
  nibbles-mid =
      ap (λ n. nibbles_from s.bytes ((s.offset + i) % word32) n) mid_size
      ∙ ap (λ o. nibbles_from s.bytes o (size s - i)) mid_offset
      ∙ nibbles_from-drop s.bytes s.offset (size s) i (omega (arith, h, length-nibbles s))

  -- The two parts of a key that `cleve` encodes.
  pub encoded_rest :
      (leaf : Bool)
      → hex_prefix_encode s.bytes leaf i (End.back 0) s.offset ≡ encoded (drop i (nibbles s)) leaf
  unfolding end_nibble
  encoded_rest leaf =
      hex_prefix_encode-encoded s.bytes leaf i (End.back 0) s.offset
      ∙ ap (λ n. encoded (nibbles_from s.bytes (i + s.offset) n) leaf)
          (let e : end_nibble s.bytes (End.back 0) s.offset - (i + s.offset) ≡ size s - i =
              omega (arith, size-IsSlice s v, v.inside) in
            e)
      ∙ ap (λ o. encoded (nibbles_from s.bytes o (size s - i)) leaf)
          (let e : i + s.offset ≡ s.offset + i = omega arith in e)
      ∙ ap (λ l. encoded l leaf)
          (nibbles_from-drop s.bytes s.offset (size s) i (omega (arith, h, length-nibbles s)))

  pub encoded_start :
      (leaf : Bool)
      → hex_prefix_encode s.bytes leaf 0 (End.to i) s.offset ≡ encoded (take i (nibbles s)) leaf
  unfolding end_nibble
  encoded_start leaf =
      hex_prefix_encode-encoded s.bytes leaf 0 (End.to i) s.offset
      ∙ ap (λ n. encoded (nibbles_from s.bytes (0 + s.offset) n) leaf)
          (let e : end_nibble s.bytes (End.to i) s.offset - (0 + s.offset) ≡ i = omega arith in e)
      ∙ ap (λ o. encoded (nibbles_from s.bytes o i) leaf)
          (let e : 0 + s.offset ≡ s.offset = omega arith in e)
      ∙ ap (λ l. encoded l leaf)
          (nibbles_from-take s.bytes s.offset (size s) i (omega (arith, h, length-nibbles s)))

pub nibbles-IsKey :
    (s : NibbleSlice) → IsSlice s → length (nibbles s) + 4 < word32 → IsKey (nibbles s)
nibbles-IsKey s v h = record {
  digits = nibbles_from-All s.bytes s.offset (size s) v.octets;
  short = h;
}

nibble_first :
    (bytes : Bytes) (o n x : ℕ) (l : List ℕ)
    → nibbles_from bytes o n ≡ x ∷ l
    → nibble bytes (o + 0) ≡ x
nibble_first bytes o zero x l e = cc
nibble_first bytes o (suc n) x l e = ap (nibble bytes) (let z : o + 0 ≡ o = omega arith in z) ∙ (cc)

-- A part of a slice is inside its bytes.
pub IsSlice-IsInside : (s : NibbleSlice) → IsSlice s → IsInside s
IsSlice-IsInside s v = record { inside = v.inside; small = omega (arith, v.small) }

pub at_index-first :
    (s : NibbleSlice) (x : ℕ) (l : List ℕ) → IsSlice s → nibbles s ≡ x ∷ l → at_index s 0 ≡ x
unfolding at_index
at_index-first s x l v e =
    let full = ap length e in
    ap (nibble s.bytes)
      (slice_place s 0 (IsSlice-IsInside s v) (omega (arith, sym (length-nibbles s) ∙ full)))
    ∙ nibble_first s.bytes s.offset (size s) x l e

packed_octets : (l : List ℕ) → All (λ a. a < 16) l → All (λ b. b < 256) (packed l)
packed_octets [] all = all
packed_octets (a ∷ []) all = (omega (arith, all.0), all.1)
packed_octets (a ∷ b ∷ l) all = (omega (arith, all.0, all.1.0), packed_octets l all.1.1)

module _ (l : List ℕ) (k : All (λ a. a < 16) l) (small : length l + 4 < word32)
    (even : length l % 2 ≡ 0) where
  packed_IsSlice :
      (x o : ℕ) → x < 256 → o < 3 → IsSlice (record { bytes = x ∷ packed l; offset = o })
  packed_IsSlice x o h g = record {
    inside = omega (arith, g);
    small = omega (arith, small, length-packed l even);
    octets = (h, packed_octets l k);
  }

  even_IsSlice : (leaf : Bool) → IsSlice (key_of (prefix leaf false ∷ packed l))
  unfolding key_of prefix
  even_IsSlice true = packed_IsSlice 32 2 (omega arith) (omega arith)
  even_IsSlice false = packed_IsSlice 0 2 (omega arith) (omega arith)

odd_byte : Bool → ℕ → Bool
odd_byte leaf x = let b = bit_or (prefix leaf true) x in ltb b 256 && not (bit_and b 16 == 0)

odd_table : (leaf : Bool) → all_below 16 (odd_byte leaf) ≡ true
unfolding odd_byte prefix
odd_table true = refl
odd_table false = refl

odd_IsSlice :
    (a : ℕ) (l : List ℕ) (leaf : Bool)
    → a < 16
    → All (λ b. b < 16) l
    → length l + 4 < word32
    → length l % 2 ≡ 0
    → IsSlice (key_of (bit_or (prefix leaf true) a ∷ packed l))
unfolding key_of odd_byte
odd_IsSlice a l leaf h all small even =
    let bits = all_below_sound 16 (odd_byte leaf) a (odd_table leaf) h in
    let byte : bit_or (prefix leaf true) a < 256 = ground arith in
    let odd : (bit_and (bit_or (prefix leaf true) a) 16 == 0) ≡ false = ground arith in
    rw odd (packed_IsSlice l all small even (bit_or (prefix leaf true) a) 1 byte (omega arith))

encoded-IsSlice : (l : List ℕ) (leaf : Bool) → IsKey l → IsSlice (key_of (encoded l leaf))
encoded-IsSlice [] leaf k =
    rw (encoded_even [] leaf k.digits refl) (even_IsSlice [] k.digits k.short refl leaf)
encoded-IsSlice (a ∷ l) leaf k = elim (Bool-cases (length l % 2 == 0)) [
  | inl even ↦
      let even' = (==_iff (length l % 2) 0).0 even in
      rw (encoded_odd a l leaf k.digits.1 even')
        (odd_IsSlice a l leaf k.digits.0 k.digits.1 (omega (arith, k.short)) even')
  | inr odd ↦
      let even' : suc (length l) % 2 ≡ 0 = ground arith in
      rw (encoded_even (a ∷ l) leaf k.digits even')
        (even_IsSlice (a ∷ l) k.digits k.short even' leaf)
]

-- A key that is written into a node is read back as a slice.
pub key_of-encoded :
    (l : List ℕ) (leaf : Bool)
    → IsKey l
    → (nibbles (key_of (encoded l leaf)) ≡ l)
      × (is_leaf (encoded l leaf) ≡ leaf)
      × IsSlice (key_of (encoded l leaf))
key_of-encoded l leaf k =
    let got = encoded-Decodes l leaf k.digits (omega (arith, k.short)) in
    (got.0, got.1, encoded-IsSlice l leaf k)

-- What the code computes from a slice and the key of a node, on their nibbles.
module _ (s : NibbleSlice) (l : List ℕ) (leaf : Bool) (k : IsKey l) (v : IsSlice s) where
  -- Both slices are inside their bytes.
  slice_in : IsInside s
  slice_in = IsSlice-IsInside s v

  key_in : IsInside (key_of (encoded l leaf))
  key_in = IsSlice-IsInside (key_of (encoded l leaf)) (encoded-IsSlice l leaf k)

  pub equals-encoded : equals s (key_of (encoded l leaf)) ≡ same (nibbles s) l
  equals-encoded =
      let key = key_of (encoded l leaf) in
      let got = (key_of-encoded l leaf k).0 in
      let iff = equals_iff s key slice_in key_in in
      elim (Bool-cases (same (nibbles s) l)) [
        | inl e ↦ iff.1 (same→eq (nibbles s) l e ∙ sym got) ∙ sym e
        | inr e ↦ elim (Bool-cases (equals s key)) [
          | inr f ↦ f ∙ sym e
          | inl f ↦
              let both : nibbles s ≡ l = iff.0 f ∙ got in
              let self = same_refl l in
              let yes_same : same (nibbles s) l ≡ true = ap (λ x. same x l) both ∙ self in cc
        ]
      ]

  pub encoded-equals : equals (key_of (encoded l leaf)) s ≡ same (nibbles s) l
  encoded-equals =
      let key = key_of (encoded l leaf) in
      let got = (key_of-encoded l leaf k).0 in
      let iff = equals_iff key s key_in slice_in in
      elim (Bool-cases (same (nibbles s) l)) [
        | inl e ↦ iff.1 (got ∙ sym (same→eq (nibbles s) l e)) ∙ sym e
        | inr e ↦ elim (Bool-cases (equals key s)) [
          | inr f ↦ f ∙ sym e
          | inl f ↦
              let both : nibbles s ≡ l = sym (iff.0 f) ∙ got in
              let self = same_refl l in
              let yes_same : same (nibbles s) l ≡ true = ap (λ x. same x l) both ∙ self in cc
        ]
      ]

  pub contains-encoded : contains s (key_of (encoded l leaf)) ≡ begins (nibbles s) l
  contains-encoded =
      contains-begins s (key_of (encoded l leaf)) slice_in key_in
      ∙ ap (begins (nibbles s)) (key_of-encoded l leaf k).0

  pub shared-encoded : shared s (key_of (encoded l leaf)) ≡ common (nibbles s) l
  shared-encoded =
      shared-common s (key_of (encoded l leaf)) slice_in key_in
      ∙ ap (common (nibbles s)) (key_of-encoded l leaf k).0

pub size-encoded : (l : List ℕ) (leaf : Bool) → IsKey l → size (key_of (encoded l leaf)) ≡ length l
size-encoded l leaf k =
    sym (length-nibbles (key_of (encoded l leaf))) ∙ ap length (key_of-encoded l leaf k).0
