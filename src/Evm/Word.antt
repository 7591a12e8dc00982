-- ===== src/Evm/Word.antt =====
-- The 256-bit words of the virtual machine: libdevcore/Common.h (u2s, s2u), libevm/VM.cpp (the
-- arithmetic of the ordinary instructions) and libevm/VMOpt.cpp (exp256). A u256 is a number below
-- 2 ^ 256; a wrap-around is written out.
use x_chain.Prelude.{
  ℕ, zero, suc, ◌+◌, ◌-◌, ◌*◌, ◌/◌, ◌%◌, ◌^◌, bit_and, bit_or, Bool, true, false, ltb, ◌==◌,
  if◌then◌else◌,
}

abbrev pub word : ℕ
word = 2 ^ 256

-- s256 and s512 keep a sign and a magnitude; `negsuc n` is -(n + 1).
pub data ℤ : Type 0 where
  pos : ℕ → ℤ
  negsuc : ℕ → ℤ

-- minus n
abbrev pub neg : ℕ → ℤ
neg zero = pos 0
neg (suc n) = negsuc n

abbrev pub negate : ℤ → ℤ
negate (pos n) = neg n
negate (negsuc n) = pos (suc n)

-- boost's `/` and `%` of signed numbers: towards zero, and with the sign of the dividend.
abbrev pub quot : ℤ → ℤ → ℤ
quot (pos a) (pos b) = pos (a / b)
quot (pos a) (negsuc b) = neg (a / suc b)
quot (negsuc a) (pos b) = neg (suc a / b)
quot (negsuc a) (negsuc b) = pos (suc a / suc b)

abbrev pub rem : ℤ → ℤ → ℤ
rem (pos a) (pos b) = pos (a % b)
rem (pos a) (negsuc b) = pos (a % suc b)
rem (negsuc a) (pos b) = neg (suc a % b)
rem (negsuc a) (negsuc b) = neg (suc a % suc b)

abbrev pub ltℤ : ℤ → ℤ → Bool
ltℤ (pos a) (pos b) = ltb a b
ltℤ (pos a) (negsuc b) = false
ltℤ (negsuc a) (pos b) = true
ltℤ (negsuc a) (negsuc b) = ltb b a

abbrev pub bit_test : ℕ → ℕ → Bool
bit_test n i = n / 2 ^ i % 2 == 1

unfoldable pub u2s : ℕ → ℤ
u2s u = if bit_test u 255 then neg (word - u) else pos u

unfoldable pub s2u : ℤ → ℕ
s2u (pos n) = n % word
s2u (negsuc n) = (word - suc n) % word

unfoldable pub add256 : ℕ → ℕ → ℕ
add256 a b = (a + b) % word

unfoldable pub mul256 : ℕ → ℕ → ℕ
mul256 a b = a * b % word

unfoldable pub sub256 : ℕ → ℕ → ℕ
sub256 a b = (a + word - b) % word

-- `divWorkaround` goes through s512, which holds every u256.
unfoldable pub div256 : ℕ → ℕ → ℕ
div256 a b = if b == 0 then 0 else a / b

unfoldable pub mod256 : ℕ → ℕ → ℕ
mod256 a b = if b == 0 then 0 else a % b

unfoldable pub sdiv256 : ℕ → ℕ → ℕ
unfolding u2s s2u
sdiv256 a b = if b == 0 then 0 else s2u (quot (u2s a) (u2s b))

unfoldable pub smod256 : ℕ → ℕ → ℕ
unfolding u2s s2u
smod256 a b = if b == 0 then 0 else s2u (rem (u2s a) (u2s b))

-- `~` of a word
unfoldable pub not256 : ℕ → ℕ
not256 a = word - 1 - a

unfoldable pub lt256 : ℕ → ℕ → ℕ
lt256 a b = if ltb a b then 1 else 0

unfoldable pub gt256 : ℕ → ℕ → ℕ
gt256 a b = if ltb b a then 1 else 0

unfoldable pub slt256 : ℕ → ℕ → ℕ
unfolding u2s
slt256 a b = if ltℤ (u2s a) (u2s b) then 1 else 0

unfoldable pub sgt256 : ℕ → ℕ → ℕ
unfolding u2s
sgt256 a b = if ltℤ (u2s b) (u2s a) then 1 else 0

unfoldable pub eq256 : ℕ → ℕ → ℕ
eq256 a b = if a == b then 1 else 0

unfoldable pub is_zero256 : ℕ → ℕ
is_zero256 a = if a == 0 then 1 else 0

unfoldable pub byte256 : ℕ → ℕ → ℕ
byte256 i a = if ltb i 32 then bit_and (a / 2 ^ (8 * (31 - i))) 0xff else 0

unfoldable pub addmod256 : ℕ → ℕ → ℕ → ℕ
addmod256 a b m = if m == 0 then 0 else (a + b) % m

unfoldable pub mulmod256 : ℕ → ℕ → ℕ → ℕ
mulmod256 a b m = if m == 0 then 0 else a * b % m

-- The new value of `number`, the second item.
unfoldable pub signextend256 : ℕ → ℕ → ℕ
unfolding not256
signextend256 k number =
    if ltb k 31
    then (let test_bit = k * 8 + 7 in
        let mask = 2 ^ test_bit - 1 in
        if bit_test number test_bit then bit_or number (not256 mask) else bit_and number mask)
    else number

-- The loop of `exp256`; a round halves the exponent, so 256 rounds are enough for a word.
unfoldable pub exp_loop : ℕ → ℕ → ℕ → ℕ → ℕ
exp_loop zero base exponent result = result
exp_loop (suc fuel) base exponent result =
    let rest =
      exp_loop fuel (base * base % word) (exponent / 2)
        (if exponent % 2 == 1 then result * base % word else result) in
    if exponent == 0 then result else rest

unfoldable pub exp256 : ℕ → ℕ → ℕ
unfolding exp_loop
exp256 base exponent = exp_loop 256 base exponent 1
