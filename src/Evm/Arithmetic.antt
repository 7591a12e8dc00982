-- ===== src/Evm/Arithmetic.antt =====
-- The arithmetic of words against the numbers: modular powers, and two's complement.
use x_chain.Prelude.{
  ℕ, zero, suc, ◌+◌, ◌*◌, ◌/◌, ◌%◌, ◌^◌, ◌<◌, ◌≡◌, sym, ap, ◌∙◌, arith, inl, inr, ◌==◌,
  if◌then◌else◌, Bool-cases,
}
use native.Mathlib.Nat.{
  mul-add-mod_self_left, div-add-mod, add-mul, mul_assoc, pow-suc, pow-zero, mod-eq_of_lt, mul-one,
  one-mul, mul_comm,
}
use x_chain.Evm.Word.{word, exp_loop, exp256}

mul-mod_left : (a c m : ℕ) → a % m * c % m ≡ a * c % m
mul-mod_left a c m =
    let e : a * c ≡ m * (a / m * c) + a % m * c =
      ap (λ x. x * c) (sym (div-add-mod a m))
      ∙ add-mul (m * (a / m)) (a % m) c
      ∙ ap (λ x. x + a % m * c) (mul_assoc m (a / m) c) in
    sym (mul-add-mod_self_left m (a / m * c) (a % m * c)) ∙ ap (λ x. x % m) (sym e)

mul-mod_right : (a c m : ℕ) → c * (a % m) % m ≡ c * a % m
mul-mod_right a c m = grind (arith, mul-mod_left a c m)

pow-mod : (a k m : ℕ) → (a % m) ^ k % m ≡ a ^ k % m
pow-mod a zero m = ap (λ x. x % m) (pow-zero (a % m) ∙ sym (pow-zero a))
pow-mod a (suc k) m =
    let e0 : (a % m) ^ suc k % m ≡ (a % m) ^ k * (a % m) % m =
      ap (λ x. x % m) (pow-suc (a % m) k) in
    let e1 : (a % m) ^ k * (a % m) % m ≡ (a % m) ^ k * a % m = mul-mod_right a ((a % m) ^ k) m in
    let e2 : (a % m) ^ k * a % m ≡ (a % m) ^ k % m * a % m = sym (mul-mod_left ((a % m) ^ k) a m) in
    let e3 : (a % m) ^ k % m * a % m ≡ a ^ k % m * a % m = ap (λ x. x * a % m) (pow-mod a k m) in
    e0 ∙ e1 ∙ e2 ∙ e3 ∙ mul-mod_left (a ^ k) a m ∙ ap (λ x. x % m) (sym (pow-suc a k))

square-pow : (b k : ℕ) → (b * b) ^ k ≡ b ^ (2 * k)
square-pow b zero = omega (arith, pow-zero (b * b), pow-zero b)
square-pow b (suc k) =
    let e : 2 * suc k ≡ suc (suc (2 * k)) = omega arith in
    pow-suc (b * b) k
    ∙ ap (λ x. x * (b * b)) (square-pow b k)
    ∙ sym (
        ap (λ x. b ^ x) e
        ∙ pow-suc b (suc (2 * k))
        ∙ ap (λ x. x * b) (pow-suc b (2 * k))
        ∙ mul_assoc (b ^ (2 * k)) b b)

mul-mod_cong : (c p q m : ℕ) → p % m ≡ q % m → c * p % m ≡ c * q % m
mul-mod_cong c p q m h = sym (mul-mod_right p c m) ∙ ap (λ x. c * x % m) h ∙ mul-mod_right q c m

odd_power : (b r k : ℕ) → r * b * b ^ (2 * k) ≡ r * b ^ suc (2 * k)
odd_power b r k =
    mul_assoc r b (b ^ (2 * k))
    ∙ ap (λ x. r * x) (sym (pow-suc b (2 * k) ∙ mul_comm (b ^ (2 * k)) b))

-- one round: the lowest bit of the exponent moves to the result
round_lem :
    (b e r m : ℕ)
    → (if e % 2 == 1 then r * b % m else r) * (b * b % m) ^ (e / 2) % m ≡ r * b ^ e % m
round_lem b e r m =
    let k = e / 2 in
    let square : (b * b % m) ^ k % m ≡ b ^ (2 * k) % m =
      pow-mod (b * b) k m ∙ ap (λ x. x % m) (square-pow b k) in
    elim (Bool-cases (e % 2 == 1)) [
      | inl odd ↦
          let e1 : suc (2 * k) ≡ e = ground arith in
          rw odd (
            mul-mod_cong (r * b % m) ((b * b % m) ^ k) (b ^ (2 * k)) m square
            ∙ mul-mod_left (r * b) (b ^ (2 * k)) m
            ∙ ap (λ x. x % m) (odd_power b r k ∙ ap (λ x. r * b ^ x) e1))
      | inr even ↦
          let e1 : 2 * k ≡ e = ground arith in
          rw even
            (mul-mod_cong r ((b * b % m) ^ k) (b ^ (2 * k)) m square ∙ ap (λ x. r * b ^ x % m) e1)
    ]

exp_loop_lem : (fuel b e r : ℕ) → e < 2 ^ fuel → exp_loop fuel b e r % word ≡ r * b ^ e % word
unfolding exp_loop
exp_loop_lem zero b e r h =
    let e0 : e ≡ 0 = omega (arith, h) in
    ap (λ x. x % word) (sym (ap (λ x. r * b ^ x) e0 ∙ ap (λ x. r * x) (pow-zero b) ∙ mul-one r))
exp_loop_lem (suc fuel) b e r h = elim (Bool-cases (e == 0)) [
  | inl none_left ↦
      let e0 : e ≡ 0 = ground arith in
      rw none_left (
        ap (λ x. x % word)
          (sym (ap (λ x. r * b ^ x) e0 ∙ ap (λ x. r * x) (pow-zero b) ∙ mul-one r)))
  | inr some_left ↦ rw some_left (
      exp_loop_lem fuel (b * b % word) (e / 2) (if e % 2 == 1 then r * b % word else r)
        (omega (arith, pow-suc 2 fuel))
      ∙ round_lem b e r word)
]

exp_loop-lt : (fuel b e r : ℕ) → r < word → exp_loop fuel b e r < word
unfolding exp_loop
exp_loop-lt zero b e r h = h
exp_loop-lt (suc fuel) b e r h =
    ground (arith, exp_loop-lt fuel (b * b % word) (e / 2) (if e % 2 == 1 then r * b % word else r))

-- The loop of `exp256` computes the power modulo 2^256, for every exponent of 256 bits.
pub exp256_lem :
    (base exponent : ℕ) → exponent < 2 ^ 256 → exp256 base exponent ≡ base ^ exponent % 2 ^ 256
unfolding exp256
exp256_lem base exponent h =
    sym (mod-eq_of_lt (exp_loop-lt 256 base exponent 1 (omega arith)))
    ∙ exp_loop_lem 256 base exponent 1 h
    ∙ ap (λ x. x % word) (one-mul (base ^ exponent))
