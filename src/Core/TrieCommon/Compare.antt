-- ===== src/Core/TrieCommon/Compare.antt =====
-- The comparisons of slices in libdevcore/TrieCommon.h, on the lists of their nibbles.
use x_chain.Prelude.{
  ℕ, zero, suc, ◌+◌, ◌*◌, ◌%◌, ◌≤◌, ◌<◌, ◌≡◌, refl, sym, ap, ◌∙◌, ◌↔◌, Bool, true, false, not, ◌&&◌,
  ◌||◌, List, [], ◌∷◌, arith, ltb, ◌==◌, if◌then◌else◌, length,
}
use x_chain.Core.TrieCommon.{
  Bytes, word32, NibbleSlice, at_index, size, shared_rounds, shared_nibbles, shared, contains,
  equals, earlier_rounds, is_earlier_than,
}
use x_chain.Core.TrieCommon.Onto.{nibbles_from}
use x_chain.Core.TrieCommon.Decode.{nibbles}
use x_chain.Core.TrieCommon.Slices.{length-nibbles_from}

-- The length of the longest common prefix.
abbrev pub common : List ℕ → List ℕ → ℕ
common [] l = 0
common (a ∷ k) [] = 0
common (a ∷ k) (b ∷ l) = let rest = common k l in if a == b then suc rest else 0

-- The order of the words in a dictionary, where a word comes before those that it begins.
abbrev pub earlier : List ℕ → List ℕ → Bool
earlier [] [] = false
earlier [] (b ∷ l) = true
earlier (a ∷ k) [] = false
earlier (a ∷ k) (b ∷ l) =
    let rest = earlier k l in if ltb a b then true else if ltb b a then false else rest

-- Whether the second begins the first.
abbrev pub begins : List ℕ → List ℕ → Bool
begins k [] = true
begins [] (b ∷ l) = false
begins (a ∷ k) (b ∷ l) = (a == b) && begins k l

shared_rounds-common :
    (n m : ℕ) (first : Bytes) (b1 e1 : ℕ) (second : Bytes) (b2 e2 : ℕ)
    → e1 ≡ b1 + n
    → e2 ≡ b2 + m
    → shared_rounds n first b1 e1 second b2 e2
      ≡ common (nibbles_from first b1 n) (nibbles_from second b2 m)
unfolding shared_rounds
shared_rounds-common zero m first b1 e1 second b2 e2 h g = refl
shared_rounds-common (suc n) zero first b1 e1 second b2 e2 h g = ground arith
shared_rounds-common (suc n) (suc m) first b1 e1 second b2 e2 h g =
    rw
      (shared_rounds-common n m first (suc b1) e1 second (suc b2) e2 (omega (arith, h))
        (omega (arith, g)))
      (ground arith)

-- A slice that starts inside its bytes, whose nibbles can be counted in 32 bits.
pub record IsInside (s : NibbleSlice) : Type 0 where
  pub inside : s.offset ≤ length s.bytes * 2
  pub small : length s.bytes * 2 < word32

-- Its end is not cut to 32 bits, nor is the place of a nibble in it.
slice_end : (s : NibbleSlice) → IsInside s → (s.offset + size s) % word32 ≡ s.offset + size s
unfolding size
slice_end s v = omega (arith, v.inside, v.small)

pub slice_place :
    (s : NibbleSlice) (i : ℕ) → IsInside s → i < size s → (s.offset + i) % word32 ≡ s.offset + i
unfolding size
slice_place s i v lt = omega (arith, v.inside, v.small, lt)

-- `shared` is the length of the longest common prefix.
pub shared-common :
    (s k : NibbleSlice) → IsInside s → IsInside k → shared s k ≡ common (nibbles s) (nibbles k)
unfolding shared shared_nibbles
shared-common s k v w =
    rw (slice_end s v, slice_end k w)
      (ap
          (λ n.
            shared_rounds n s.bytes s.offset (s.offset + size s) k.bytes k.offset
              (k.offset + size k))
          (omega arith)
        ∙ shared_rounds-common (size s) (size k) s.bytes s.offset _ k.bytes k.offset _ refl refl)

pub common-begins : (l k : List ℕ) → (common l k == length k) ≡ begins l k
common-begins [] [] = refl
common-begins [] (b ∷ k) = ground arith
common-begins (a ∷ l) [] = refl
common-begins (a ∷ l) (b ∷ k) = let rest = common-begins l k in ground arith

earlier_rounds-earlier :
    (n m : ℕ) (s k : NibbleSlice) (i : ℕ)
    → IsInside s
    → IsInside k
    → size s ≡ i + n
    → size k ≡ i + m
    → earlier_rounds n s k i
      ≡ earlier (nibbles_from s.bytes (s.offset + i) n) (nibbles_from k.bytes (k.offset + i) m)
unfolding earlier_rounds at_index
earlier_rounds-earlier zero zero s k i v w e f = ground arith
earlier_rounds-earlier zero (suc m) s k i v w e f = ground arith
earlier_rounds-earlier (suc n) zero s k i v w e f = ground arith
earlier_rounds-earlier (suc n) (suc m) s k i v w e f =
    let rest = earlier_rounds-earlier n m s k (suc i) v w (omega (arith, e)) (omega (arith, f)) in
    let next_s : s.offset + suc i ≡ suc (s.offset + i) = omega arith in
    let next_k : k.offset + suc i ≡ suc (k.offset + i) = omega arith in
    let at_s = slice_place s i v (omega (arith, e)) in
    let at_k = slice_place k i w (omega (arith, f)) in
    rw (rest, next_s, next_k, at_s, at_k) (ground arith)

order_cases : (l k : List ℕ) → earlier l k ≡ not (begins l k || earlier k l)
order_cases [] [] = refl
order_cases [] (b ∷ k) = refl
order_cases (a ∷ l) [] = refl
order_cases (a ∷ l) (b ∷ k) = let rest = order_cases l k in ground arith

equal_begins : (l k : List ℕ) → length k ≡ length l → begins l k ≡ true → l ≡ k
equal_begins [] [] h g = refl
equal_begins [] (b ∷ k) h g = cc
equal_begins (a ∷ l) [] h g = absurd (omega (arith, h))
equal_begins (a ∷ l) (b ∷ k) h g = let rest = equal_begins l k (omega (arith, h)) in ground arith

begins_self : (l : List ℕ) → begins l l ≡ true
begins_self [] = refl
begins_self (a ∷ l) = let rest = begins_self l in ground arith

pub contains-begins :
    (s k : NibbleSlice) → IsInside s → IsInside k → contains s k ≡ begins (nibbles s) (nibbles k)
unfolding contains
contains-begins s k v w =
    let same_shared = shared-common s k v w in
    let same_length = length-nibbles_from k.bytes k.offset (size k) in
    ap (λ n. n == size k) same_shared
    ∙ ap (λ n. common (nibbles s) (nibbles k) == n) (sym same_length)
    ∙ common-begins (nibbles s) (nibbles k)

pub equals_iff :
    (s k : NibbleSlice) → IsInside s → IsInside k → (equals s k ≡ true) ↔ (nibbles s ≡ nibbles k)
unfolding equals contains
equals_iff s k v w =
    let here = contains-begins s k v w in
    let l_s = length-nibbles_from s.bytes s.offset (size s) in
    let l_k = length-nibbles_from k.bytes k.offset (size k) in
    (
      λ h.
          let same_size : size k ≡ size s = ground arith in
          let all : contains s k ≡ true = ground arith in
          equal_begins (nibbles s) (nibbles k) (l_k ∙ same_size ∙ sym l_s) (sym here ∙ all),
      λ h.
          let same_size : size k ≡ size s = sym l_k ∙ ap length (sym h) ∙ l_s in
          let all : contains s k ≡ true = here ∙ rw (sym h) (begins_self (nibbles s)) in
          ground arith,
    )

is_earlier_than-earlier :
    (s k : NibbleSlice)
    → IsInside s
    → IsInside k
    → is_earlier_than s k ≡ earlier (nibbles s) (nibbles k)
unfolding is_earlier_than
is_earlier_than-earlier s k v w =
    earlier_rounds-earlier (size s) (size k) s k 0 v w (omega arith) (omega arith)
    ∙ ap
        (λ i.
          earlier (nibbles_from s.bytes i (size s)) (nibbles_from k.bytes (k.offset + 0) (size k)))
        (omega arith)
    ∙ ap (λ i. earlier (nibbles s) (nibbles_from k.bytes i (size k))) (omega arith)

-- For slices that start inside their bytes and whose nibbles can be counted in 32 bits, `contains` says whether the
-- nibbles of one begin with those of the other, `==` whether they are the same, and `isEarlierThan` is the order of a
-- dictionary, in which exactly one holds: the first slice is earlier, it contains the second, or neither and the second
-- is earlier.
pub compare_lem :
    (s k : NibbleSlice)
    → IsInside s
    → IsInside k
    → (contains s k ≡ begins (nibbles s) (nibbles k))
      × ((equals s k ≡ true) ↔ (nibbles s ≡ nibbles k))
      × (is_earlier_than s k ≡ earlier (nibbles s) (nibbles k))
      × (is_earlier_than s k ≡ not (contains s k || is_earlier_than k s))
compare_lem s k v w = (
  contains-begins s k v w,
  equals_iff s k v w,
  is_earlier_than-earlier s k v w,
  rw (is_earlier_than-earlier s k v w, is_earlier_than-earlier k s w v, contains-begins s k v w)
      (order_cases (nibbles s) (nibbles k)),
)
