-- ===== src/Evm/Signed.antt =====
-- Two's complement: u2s, s2u, and the signed division on them.
use x_chain.Prelude.{
  ℕ, zero, suc, ◌-◌, ◌/◌, ◌%◌, ◌^◌, ◌≤◌, ◌<◌, ◌≡◌, ◌≢◌, ◌⊎◌, refl, ap, arith, inl, inr, true, false,
  ◌==◌, Bool-cases,
}
use native.Mathlib.Nat.{div-le_self, div-lt_self}
use x_chain.Evm.Word.{ℤ, pos, negsuc, neg, quot, sdiv256, word, u2s, s2u}

-- A word below 2^256 that is read as a signed number and written back is the same word.
pub s2u-u2s : (a : ℕ) → a < 2 ^ 256 → s2u (u2s a) ≡ a
unfolding s2u u2s
s2u-u2s a h = ground arith

-- the signed numbers that a word holds
abbrev IsSigned : ℤ → Type 0
IsSigned (pos n) = n < 2 ^ 255
IsSigned (negsuc n) = n < 2 ^ 255

u2s-s2u : (z : ℤ) → IsSigned z → u2s (s2u z) ≡ z
unfolding u2s s2u
u2s-s2u (pos n) h = ground arith
u2s-s2u (negsuc n) h =
    let e : (word - suc n) % word ≡ word - suc n = omega arith in
    let high : (word - suc n) / 2 ^ 255 % 2 == 1 ≡ true = ground arith in
    let back : word - (word - suc n) ≡ suc n = omega arith in rw e (rw high (ap neg back))

u2s-IsSigned : (a : ℕ) → a < 2 ^ 256 → IsSigned (u2s a)
unfolding u2s
u2s-IsSigned a h = elim (Bool-cases (a / 2 ^ 255 % 2 == 1)) [
  | inl high ↦
      let e : word - a ≡ suc (word - suc a) = omega (arith, h) in rw high (rw e (ground arith))
  | inr low ↦ rw low (ground arith)
]

neg-IsSigned : (m : ℕ) → m ≤ 2 ^ 255 → IsSigned (neg m)
neg-IsSigned zero h = omega arith
neg-IsSigned (suc m) h = omega (arith, h)

-- Only the least number divided by -1 does not fit.
quot-IsSigned :
    (x y : ℤ)
    → IsSigned x
    → IsSigned y
    → (x ≢ negsuc (2 ^ 255 - 1)) ⊎ (y ≢ negsuc 0)
    → IsSigned (quot x y)
quot-IsSigned (pos a) (pos b) h k n = omega (arith, h, div-le_self a b)
quot-IsSigned (pos a) (negsuc b) h k n =
    neg-IsSigned (a / suc b) (omega (arith, h, div-le_self a (suc b)))
quot-IsSigned (negsuc a) (pos b) h k n =
    neg-IsSigned (suc a / b) (omega (arith, h, div-le_self (suc a) b))
quot-IsSigned (negsuc a) (negsuc zero) h k (inl n) = elim (Bool-cases (a == 2 ^ 255 - 1)) [
  | inl least ↦ let e : a ≡ 2 ^ 255 - 1 = ground arith in absurd (n (ap negsuc e))
  | inr other ↦ let ne : a ≢ 2 ^ 255 - 1 = ground arith in omega (arith, h, ne)
]
quot-IsSigned (negsuc a) (negsuc zero) h k (inr n) = absurd (n refl)
quot-IsSigned (negsuc a) (negsuc (suc b)) h k n =
    let lt : suc a / suc (suc b) < suc a =
      div-lt_self {n = suc a} {k = suc (suc b)} (omega arith) (omega arith) in
    omega (arith, h, lt)

-- On words below 2^256, SDIV divides the signed numbers that they stand for, towards zero, where
-- the divisor is not 0 and it is not the least number divided by -1.
pub sdiv256_lem :
    (a b : ℕ)
    → a < 2 ^ 256
    → b < 2 ^ 256
    → b ≢ 0
    → (u2s a ≢ negsuc (2 ^ 255 - 1)) ⊎ (u2s b ≢ negsuc 0)
    → u2s (sdiv256 a b) ≡ quot (u2s a) (u2s b)
unfolding sdiv256
sdiv256_lem a b ha hb nonzero fits =
    let z : b == 0 ≡ false = ground arith in
    rw z (
      u2s-s2u (quot (u2s a) (u2s b))
        (quot-IsSigned (u2s a) (u2s b) (u2s-IsSigned a ha) (u2s-IsSigned b hb) fits))
