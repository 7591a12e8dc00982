-- ===== src/Core/TrieCommon/Decode.antt =====
-- `keyOf` and `isLeaf` of libdevcore/TrieCommon.h on what the encoders make.
use x_chain.Prelude.{
  ℕ, zero, suc, ◌+◌, ◌*◌, ◌/◌, ◌%◌, ◌<◌, bit_and, bit_or, ◌≡◌, refl, inl, inr, Bool, true, false,
  not, ◌&&◌, List, [], ◌∷◌, arith, ◌==◌, if◌then◌else◌, ==_iff, Bool-cases, length, All,
}
use x_chain.Core.TrieCommon.{
  Bytes, NibbleSlice, nibble, or_back, prefix, is_leaf, key_of, size, sub32, word32,
}
use x_chain.Core.TrieCommon.Onto.{
  nibbles_from, onto, packed, all_below, all_below_sound, onto-packed,
}

-- The nibbles of a slice.
abbrev pub nibbles : NibbleSlice → List ℕ
nibbles s = nibbles_from s.bytes s.offset (size s)

-- The loop of the encoders with its start, on a list of nibbles.
abbrev pub encoded : List ℕ → Bool → Bytes
encoded l leaf = let odd = length l % 2 == 1 in onto l (if odd then 1 else 2) (prefix leaf odd ∷ [])

pub nibble_skip :
    (b : ℕ) (bytes : Bytes) (i : ℕ) → nibble (b ∷ bytes) (suc (suc i)) ≡ nibble bytes i
unfolding nibble
nibble_skip b bytes i =
    let half : suc (suc i) / 2 ≡ suc (i / 2) = omega arith in
    let parity : suc (suc i) % 2 ≡ i % 2 = omega arith in rw (half, parity) refl

pub nibbles_from_skip :
    (b : ℕ) (bytes : Bytes) (i n : ℕ)
    → nibbles_from (b ∷ bytes) (suc (suc i)) n ≡ nibbles_from bytes i n
nibbles_from_skip b bytes i zero = refl
nibbles_from_skip b bytes i (suc n) =
    rw (nibble_skip b bytes i, nibbles_from_skip b bytes (suc i) n) refl

nibble_high : (a b : ℕ) (bytes : Bytes) → b < 16 → nibble ((a * 16 + b) ∷ bytes) 0 ≡ a
unfolding nibble
nibble_high a b bytes h = omega arith

nibble_low : (a b : ℕ) (bytes : Bytes) → b < 16 → nibble ((a * 16 + b) ∷ bytes) 1 ≡ b
unfolding nibble
nibble_low a b bytes h = omega arith

nibbles_from-packed :
    (l : List ℕ) → All (λ a. a < 16) l → length l % 2 ≡ 0 → nibbles_from (packed l) 0 (length l) ≡ l
nibbles_from-packed [] all even = refl
nibbles_from-packed (a ∷ []) all even = absurd (omega (arith, even))
nibbles_from-packed (a ∷ b ∷ l) all even =
    rw
      (
        nibbles_from_skip (a * 16 + b) (packed l) 0 (length l),
        nibbles_from-packed l all.1.1 (omega (arith, even)),
        nibble_high a b (packed l) all.1.0,
        nibble_low a b (packed l) all.1.0,
      )
      refl

pub length-packed : (l : List ℕ) → length l % 2 ≡ 0 → length (packed l) * 2 ≡ length l
length-packed [] even = refl
length-packed (a ∷ []) even = absurd (omega (arith, even))
length-packed (a ∷ b ∷ l) even = omega (arith, length-packed l (omega (arith, even)))

-- The first byte of an odd sequence, over the low nibble.
unfoldable pub odd_first : ℕ → Bool
odd_first x =
    let plain = bit_or (prefix false true) x in
    let leaf = bit_or (prefix true true) x in
    (plain % 16 == x)
    && (leaf % 16 == x)
    && not (bit_and plain 16 == 0)
    && not (bit_and leaf 16 == 0)
    && (bit_and plain 32 == 0)
    && not (bit_and leaf 32 == 0)

pub odd_first_table : all_below 16 odd_first ≡ true
unfolding odd_first prefix
odd_first_table = refl

-- What a decoder gets back.
abbrev pub Decodes : List ℕ → Bool → Bytes → Type 0
Decodes l leaf e = (nibbles (key_of e) ≡ l) × (is_leaf e ≡ leaf)

module _ (x : ℕ) (l : List ℕ) (all : All (λ b. b < 16) l) (even : length l % 2 ≡ 0) where
  from_two : length l + 2 < word32 → nibbles (record { bytes = x ∷ packed l; offset = 2 }) ≡ l
  unfolding size
  from_two small =
      let count : sub32 (suc (length (packed l)) * 2) 2 ≡ length l =
        omega (arith, length-packed l even, small) in
      rw (count, nibbles_from_skip x (packed l) 0 (length l)) (nibbles_from-packed l all even)

  from_one :
      length l + 2 < word32 → nibbles (record { bytes = x ∷ packed l; offset = 1 }) ≡ (x % 16) ∷ l
  unfolding size nibble
  from_one small =
      let count : sub32 (suc (length (packed l)) * 2) 1 ≡ suc (length l) =
        omega (arith, length-packed l even, small) in
      rw (count, nibbles_from_skip x (packed l) 0 (length l), nibbles_from-packed l all even) refl

key_of_even :
    (l : List ℕ) (leaf : Bool)
    → All (λ a. a < 16) l
    → length l + 2 < word32
    → length l % 2 ≡ 0
    → Decodes l leaf (prefix leaf false ∷ packed l)
unfolding key_of is_leaf prefix size
key_of_even l true all small even = (from_two 32 l all even small, refl)
key_of_even l false all small even = (from_two 0 l all even small, refl)

key_of_odd :
    (a : ℕ) (l : List ℕ) (leaf : Bool)
    → a < 16
    → All (λ b. b < 16) l
    → length l + 2 < word32
    → length l % 2 ≡ 0
    → Decodes (a ∷ l) leaf (bit_or (prefix leaf true) a ∷ packed l)
unfolding key_of is_leaf size odd_first
key_of_odd a l true h all small even =
    let bits = all_below_sound 16 odd_first a odd_first_table h in
    let got = from_one (bit_or (prefix true true) a) l all even small in ground arith
key_of_odd a l false h all small even =
    let bits = all_below_sound 16 odd_first a odd_first_table h in
    let got = from_one (bit_or (prefix false true) a) l all even small in ground arith

pub encoded_even :
    (l : List ℕ) (leaf : Bool)
    → All (λ a. a < 16) l
    → length l % 2 ≡ 0
    → encoded l leaf ≡ prefix leaf false ∷ packed l
encoded_even l leaf all even = rw even (onto-packed l 2 (prefix leaf false ∷ []) all refl even)

pub encoded_odd :
    (a : ℕ) (l : List ℕ) (leaf : Bool)
    → All (λ b. b < 16) l
    → length l % 2 ≡ 0
    → encoded (a ∷ l) leaf ≡ bit_or (prefix leaf true) a ∷ packed l
unfolding onto or_back
encoded_odd a l leaf all even =
    let odd : suc (length l) % 2 ≡ 1 = omega (arith, even) in
    rw odd (onto-packed l 2 (bit_or (prefix leaf true) a ∷ []) all refl even)

-- A decoder gets back the nibbles and the flag that an encoder was given.
pub encoded-Decodes :
    (l : List ℕ) (leaf : Bool)
    → All (λ a. a < 16) l
    → length l + 2 < word32
    → Decodes l leaf (encoded l leaf)
encoded-Decodes [] leaf all small =
    rw (encoded_even [] leaf all refl) (key_of_even [] leaf all small refl)
encoded-Decodes (a ∷ l) leaf all small = elim (Bool-cases (length l % 2 == 0)) [
  | inl even ↦
      let even' = (==_iff (length l % 2) 0).0 even in
      rw (encoded_odd a l leaf all.1 even')
        (key_of_odd a l leaf all.0 all.1 (omega (arith, small)) even')
  | inr odd ↦
      let even' : suc (length l) % 2 ≡ 0 = ground arith in
      rw (encoded_even (a ∷ l) leaf all even') (key_of_even (a ∷ l) leaf all small even')
]
