-- ===== src/Evm/Memory.antt =====
-- Reading the memory back: the bytes of a word, and of a copy.
use native.Mathlib.Nat.{pow-suc, div-div-eq-div-mul, div-add-mod', add-mul, mul_assoc}
use x_chain.Prelude.{
  ℕ, zero, suc, ◌+◌, ◌-◌, ◌*◌, ◌/◌, ◌%◌, ◌^◌, ◌≤◌, ◌<◌, ◌≡◌, refl, sym, ap, ◌∙◌, min, arith, inl,
  inr, List, [], ◌∷◌, ◌==◌, leb, ltb, get_or, set, take, drop, length, length-set, if◌then◌else◌,
  Bool-cases,
}
use x_chain.Evm.Bytes.{to_bytes, from_bytes, slice, write_at}
use x_chain.Evm.Shape.{length-write_at}

pub get_or-set :
    (xs : List ℕ) (i j v d : ℕ)
    → i < length xs
    → get_or (set xs i v) j d ≡ (if j == i then v else get_or xs j d)
get_or-set [] i j v d h = ground arith
get_or-set (x ∷ xs) zero zero v d h = refl
get_or-set (x ∷ xs) zero (suc j) v d h = ground arith
get_or-set (x ∷ xs) (suc i) zero v d h = ground arith
get_or-set (x ∷ xs) (suc i) (suc j) v d h = ground (arith, get_or-set xs i j v d)

get_or-behind_one :
    (b : ℕ) (bs : List ℕ) (o j : ℕ)
    → get_or (b ∷ bs) (j - o) 0 ≡ (if leb j o then b else get_or bs (j - (o + 1)) 0)
get_or-behind_one b bs o j = elim (Bool-cases (leb j o)) [
  | inl le ↦ let e : j - o ≡ 0 = ground arith in rw e (rw le refl)
  | inr gt ↦ let e : j - o ≡ suc (j - (o + 1)) = ground arith in rw e (rw gt refl)
]

-- A write that fits replaces the bytes at its place, and no others.
pub get_or-write_at :
    (mem : List ℕ) (o : ℕ) (bs : List ℕ) (j : ℕ)
    → o + length bs ≤ length mem
    → get_or (write_at mem o bs) j 0 ≡ (
        if leb o j
        then (if ltb j (o + length bs) then get_or bs (j - o) 0 else get_or mem j 0)
        else get_or mem j 0)
unfolding write_at
get_or-write_at mem o [] j h = ground arith
get_or-write_at mem o (b ∷ bs) j h = ground (
  arith,
  get_or-write_at (set mem o b) (o + 1) bs j (omega (arith, h, length-set mem o b)),
  get_or-set mem o j b 0 (omega (arith, h)),
  get_or-behind_one b bs o j,
)

get_or-drop : (xs : List ℕ) (i j : ℕ) → get_or (drop i xs) j 0 ≡ get_or xs (i + j) 0
get_or-drop xs zero j = ground arith
get_or-drop [] (suc i) j = refl
get_or-drop (x ∷ xs) (suc i) j =
    get_or-drop xs i j
    ∙ ap (λ k. get_or (x ∷ xs) k 0) (let e : suc (i + j) ≡ suc i + j = omega arith in e)

get_or-take :
    (n : ℕ) (xs : List ℕ) (j : ℕ) → get_or (take n xs) j 0 ≡ (if ltb j n then get_or xs j 0 else 0)
get_or-take zero xs j = ground arith
get_or-take (suc n) [] j = ground arith
get_or-take (suc n) (x ∷ xs) zero = ground arith
get_or-take (suc n) (x ∷ xs) (suc j) = ground (arith, get_or-take n xs j)

pub length-to_bytes : (n v : ℕ) → length (to_bytes n v) ≡ n
unfolding to_bytes
length-to_bytes zero v = refl
length-to_bytes (suc n) v = ap suc (length-to_bytes n v)

shift-mul : (a b p : ℕ) → (a * 256 + b) * p ≡ a * (p * 256) + b * p
shift-mul a b p = grind (arith, add-mul (a * 256) b p, mul_assoc a 256 p)

-- a number of n + 1 bytes, by its first byte
mod-256 : (n v : ℕ) → v % 256 ^ suc n ≡ v / 256 ^ n % 256 * 256 ^ n + v % 256 ^ n
mod-256 n v = rw (pow-suc 256 n) (
    let p = 256 ^ n in
    let q = v / p in
    let e = div-div-eq-div-mul v p 256 in
    let whole : q * p ≡ q / 256 * (p * 256) + q % 256 * p =
      ap (λ x. x * p) (sym (div-add-mod' q 256)) ∙ shift-mul (q / 256) (q % 256) p in
    omega (arith, ap (λ x. x * (p * 256)) e, whole, div-add-mod' v (p * 256), div-add-mod' v p))

-- The bytes of a number of `n` bytes give the number back, behind whatever was read before them.
pub from_bytes-to_bytes :
    (n v acc : ℕ) → from_bytes acc (to_bytes n v) ≡ acc * 256 ^ n + v % 256 ^ n
unfolding to_bytes from_bytes
from_bytes-to_bytes zero v acc = omega arith
from_bytes-to_bytes (suc n) v acc =
    from_bytes-to_bytes n v (acc * 256 + v / 256 ^ n % 256)
    ∙ omega (
      arith,
      mod-256 n v,
      ap (λ x. acc * x) (pow-suc 256 n),
      shift-mul acc (v / 256 ^ n % 256) (256 ^ n),
    )

pub get_or-slice :
    (xs : List ℕ) (o n j : ℕ) → j < n → get_or (slice xs o n) j 0 ≡ get_or xs (o + j) 0
get_or-slice xs o n j h = ground (arith, get_or-take n (drop o xs) j, get_or-drop xs o j)

length-drop : (xs : List ℕ) (o : ℕ) → length (drop o xs) ≡ length xs - o
length-drop xs zero = omega arith
length-drop [] (suc o) = omega arith
length-drop (x ∷ xs) (suc o) = omega (arith, length-drop xs o)

length-take : (xs : List ℕ) (n : ℕ) → length (take n xs) ≡ min n (length xs)
length-take xs zero = omega arith
length-take [] (suc n) = omega arith
length-take (x ∷ xs) (suc n) = omega (arith, length-take xs n)

pub length-slice : (xs : List ℕ) (o n : ℕ) → o + n ≤ length xs → length (slice xs o n) ≡ n
length-slice xs o n h = omega (arith, length-take (drop o xs) n, length-drop xs o)

-- lists of one length with the same items are equal
pub list-ext :
    (xs ys : List ℕ)
    → length xs ≡ length ys
    → ((j : ℕ) → j < length ys → get_or xs j 0 ≡ get_or ys j 0)
    → xs ≡ ys
list-ext [] [] e h = refl
list-ext [] (y ∷ ys) e h = ground arith
list-ext (x ∷ xs) [] e h = ground arith
list-ext (x ∷ xs) (y ∷ ys) e h =
    let e0 : x ≡ y = h 0 (omega arith) in
    let e1 = list-ext xs ys (omega arith) (λ j k. h (suc j) (omega arith)) in
    rw e0 (ap (λ zs. y ∷ zs) e1)

-- Bytes that are written inside the memory are read back.
pub slice-write_at :
    (mem : List ℕ) (o : ℕ) (bs : List ℕ)
    → o + length bs ≤ length mem
    → slice (write_at mem o bs) o (length bs) ≡ bs
slice-write_at mem o bs h =
    list-ext (slice (write_at mem o bs) o (length bs)) bs
      (omega (
        arith,
        length-take (drop o (write_at mem o bs)) (length bs),
        length-drop (write_at mem o bs) o,
        length-write_at mem o bs,
      ))
      λ j k. ground (
        arith,
        get_or-slice (write_at mem o bs) o (length bs) j k,
        get_or-write_at mem o bs (o + j) h,
        cancel o j,
      )
  where
    cancel : (o j : ℕ) → o + j - o ≡ j
    cancel o j = omega arith
