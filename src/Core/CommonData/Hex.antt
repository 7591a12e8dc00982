-- ===== src/Core/CommonData/Hex.antt =====
-- Hexadecimal text in libdevcore/CommonData.cpp: what is read, and reading what was written.
use x_chain.Prelude.{
  ℕ, suc, ◌/◌, ◌%◌, ◌<◌, ◌≡◌, refl, ap, ◌∙◌, ◌⊎◌, inl, inr, Bool, true, false, ◌&&◌, Option, none,
  some, [], ◌∷◌, arith, ◌==◌, if◌then◌else◌, ==_iff, Bool-cases, length, All,
}
use x_chain.Core.CommonData.{
  Bytes, is_some, from_hex_char, has_prefix, all_hex, without_prefix, is_hex, joined, digit_pairs,
  single, odd_digit, or_empty, from_hex, hex_digit, hex_digits, to_hex,
}

from_hex_char-hex_digit : (d : ℕ) → d < 16 → from_hex_char (hex_digit d) ≡ some d
unfolding from_hex_char hex_digit
from_hex_char-hex_digit d h = ground arith

hex_digit_ne : (d : ℕ) → d < 16 → (hex_digit d == 120) ≡ false
unfolding hex_digit
hex_digit_ne d h = ground arith

digit_pairs-hex_digits : (s : Bytes) → All (λ b. b < 256) s → digit_pairs (hex_digits s) ≡ some s
unfolding digit_pairs hex_digits joined
digit_pairs-hex_digits [] all = refl
digit_pairs-hex_digits (b ∷ s) all =
    rw
      (
        from_hex_char-hex_digit (b / 16) (omega (arith, all.0)),
        from_hex_char-hex_digit (b % 16) (omega arith),
        digit_pairs-hex_digits s all.1,
      )
      (ap (λ x. some (x ∷ s)) (omega (arith, all.0)))

has_prefix-hex_digits : (s : Bytes) → has_prefix (hex_digits s) ≡ false
unfolding has_prefix hex_digits
has_prefix-hex_digits [] = refl
has_prefix-hex_digits (b ∷ s) = let other = hex_digit_ne (b % 16) (omega arith) in ground arith

length-hex_digits : (s : Bytes) → length (hex_digits s) % 2 ≡ 0
unfolding hex_digits
length-hex_digits [] = refl
length-hex_digits (b ∷ s) = omega (arith, length-hex_digits s)

-- Reading the text that was written for some bytes, with or without the prefix 0x, gives the bytes back, whatever
-- is to happen on bad characters.
pub from_hex-to_hex :
    (s : Bytes) (add_prefix throws : Bool)
    → All (λ b. b < 256) s
    → from_hex (to_hex s add_prefix) throws ≡ some s
unfolding from_hex to_hex without_prefix has_prefix or_empty
from_hex-to_hex s true throws all =
    let even : suc (suc (length (hex_digits s))) % 2 ≡ 0 = omega (arith, length-hex_digits s) in
    rw (even, digit_pairs-hex_digits s all) refl
from_hex-to_hex s false throws all =
    rw (length-hex_digits s, has_prefix-hex_digits s, digit_pairs-hex_digits s all) refl

is_some-joined :
    (h l : Option ℕ) (r : Option Bytes)
    → is_some (joined h l r) ≡ is_some h && (is_some l && is_some r)
unfolding joined
is_some-joined none l r = refl
is_some-joined (some h) none r = refl
is_some-joined (some h) (some l) none = refl
is_some-joined (some h) (some l) (some r) = refl

is_some-single : (h : Option ℕ) (r : Option Bytes) → is_some (single h r) ≡ is_some h && is_some r
unfolding single
is_some-single none r = refl
is_some-single (some h) none = refl
is_some-single (some h) (some r) = refl

digit_pairs-all_hex : (s : Bytes) → length s % 2 ≡ 0 → is_some (digit_pairs s) ≡ all_hex s
unfolding digit_pairs all_hex
digit_pairs-all_hex [] e = refl
digit_pairs-all_hex (c ∷ []) e = absurd (omega (arith, e))
digit_pairs-all_hex (c ∷ d ∷ s) e =
    rw
      (
        is_some-joined (from_hex_char c) (from_hex_char d) (digit_pairs s),
        digit_pairs-all_hex s (omega (arith, e)),
      )
      refl

odd_digit-all_hex : (s : Bytes) → length s % 2 ≡ 1 → is_some (odd_digit s) ≡ all_hex s
unfolding odd_digit all_hex
odd_digit-all_hex [] e = absurd (omega (arith, e))
odd_digit-all_hex (c ∷ s) e =
    rw (is_some-single (from_hex_char c) (digit_pairs s), digit_pairs-all_hex s (omega (arith, e)))
      refl

length-without_prefix : (s : Bytes) → length (without_prefix s) % 2 ≡ length s % 2
unfolding without_prefix has_prefix
length-without_prefix [] = refl
length-without_prefix (a ∷ []) = refl
length-without_prefix (a ∷ b ∷ s) = ground arith

is_some-read :
    (s : Bytes)
    → is_some
        (if length s % 2 == 1 then odd_digit (without_prefix s) else digit_pairs (without_prefix s))
      ≡ all_hex (without_prefix s)
is_some-read s =
    let parity = length-without_prefix s in
    elim (Bool-cases (length s % 2 == 1)) [
      | inl e ↦ rw e (odd_digit-all_hex (without_prefix s) (parity ∙ (==_iff (length s % 2) 1).0 e))
      | inr e ↦
          let even : length s % 2 ≡ 0 = ground arith in
          rw e (digit_pairs-all_hex (without_prefix s) (parity ∙ even))
    ]

is_some-or_empty : (o : Option Bytes) → is_some (or_empty true o) ≡ is_some o
unfolding or_empty
is_some-or_empty none = refl
is_some-or_empty (some b) = refl

or_empty_none : (o : Option Bytes) → is_some o ≡ false → or_empty false o ≡ some []
unfolding or_empty
or_empty_none none e = refl
or_empty_none (some b) e = cc

-- `fromHex` throws exactly on the strings that `isHex` refuses, when it is to throw; otherwise it gives no bytes at
-- all for them.
pub from_hex-is_hex :
    (s : Bytes)
    → (is_some (from_hex s true) ≡ is_hex s) × ((is_hex s ≡ true) ⊎ (from_hex s false ≡ some []))
unfolding from_hex is_hex
from_hex-is_hex s =
    let body = without_prefix s in
    let read = if length s % 2 == 1 then odd_digit body else digit_pairs body in
    let good : is_some read ≡ all_hex body = is_some-read s in
    (
      is_some-or_empty read ∙ good,
      elim (Bool-cases (all_hex body)) [
        | inl e ↦ inl e
        | inr e ↦ inr (or_empty_none read (good ∙ e))
      ],
    )
