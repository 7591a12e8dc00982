-- ===== src/Core/CommonData.antt =====
-- libdevcore/CommonData.{h,cpp}: hexadecimal text, nibbles and big-endian numbers. A string is the list of the codes of
-- its characters; `none` is the exception BadHexCharacter, or the int -1 of fromHexChar. A string read at its size
-- gives the null character, which is no digit.
use x_chain.Prelude.{
  ℕ, zero, suc, ◌+◌, ◌-◌, ◌*◌, ◌/◌, ◌%◌, ◌^◌, ◌≤◌, ◌<◌, min, max, bit_and, bit_or, bit_xor, ◌≡◌,
  refl, sym, ap, ◌∙◌, subst, ◌≢◌, ◌↔◌, ◌⊎◌, inl, inr, Bool, true, false, not, ◌&&◌, ◌||◌, Option,
  none, some, List, [], ◌∷◌, ◌++◌, map, arith, ltb, leb, ◌==◌, if◌then◌else◌, ltb→lt, lt→ltb,
  leb→le, ==_iff, Bool-cases, Option-cases, length, get_elem?, get_or, set, take, drop, replicate,
  length-append, length-set, length-replicate, All,
}
pub mod Hex

abbrev pub Bytes : Type 0
Bytes = List ℕ

unfoldable pub from_hex_char : ℕ → Option ℕ
from_hex_char c =
    if leb 48 c && leb c 57
    then some (c - 48)
    else if leb 97 c && leb c 102
    then some (c - 97 + 10)
    else if leb 65 c && leb c 70
    then some (c - 65 + 10)
    else none

unfoldable pub has_prefix : Bytes → Bool
has_prefix (a ∷ b ∷ s) = (a == 48) && (b == 120)
has_prefix _ = false

abbrev pub is_some {ℓ} : {A : Type ℓ} → Option A → Bool
is_some none = false
is_some (some a) = true

unfoldable pub all_hex : Bytes → Bool
all_hex [] = true
all_hex (c ∷ s) = is_some (from_hex_char c) && all_hex s

unfoldable pub without_prefix : Bytes → Bytes
without_prefix s = if has_prefix s then drop 2 s else s

unfoldable pub is_hex : Bytes → Bool
is_hex s = all_hex (without_prefix s)

-- The byte of two digits, before those of the rest.
unfoldable pub joined : Option ℕ → Option ℕ → Option Bytes → Option Bytes
joined (some h) (some l) (some rest) = some ((h * 16 + l) % 256 ∷ rest)
joined _ _ _ = none

-- The loop of `fromHex`.
unfoldable pub digit_pairs : Bytes → Option Bytes
digit_pairs [] = some []
digit_pairs (c ∷ []) = none
digit_pairs (c ∷ d ∷ s) = joined (from_hex_char c) (from_hex_char d) (digit_pairs s)

unfoldable pub single : Option ℕ → Option Bytes → Option Bytes
single (some h) (some rest) = some (h ∷ rest)
single _ _ = none

-- A first digit that stands alone.
unfoldable pub odd_digit : Bytes → Option Bytes
odd_digit [] = none
odd_digit (c ∷ s) = single (from_hex_char c) (digit_pairs s)

-- What a bad character gives: the exception, or the empty string of bytes.
unfoldable pub or_empty : Bool → Option Bytes → Option Bytes
or_empty throws (some b) = some b
or_empty true none = none
or_empty false none = some []

unfoldable pub from_hex : Bytes → Bool → Option Bytes
from_hex s throws =
    let body = without_prefix s in
    or_empty throws (if length s % 2 == 1 then odd_digit body else digit_pairs body)

unfoldable pub hex_digit : ℕ → ℕ
hex_digit d = if ltb d 10 then 48 + d else 87 + d

unfoldable pub hex_digits : Bytes → Bytes
hex_digits [] = []
hex_digits (b ∷ s) = hex_digit (b / 16) ∷ hex_digit (b % 16) ∷ hex_digits s

-- `toHex` with two digits for the first byte too.
unfoldable pub to_hex : Bytes → Bool → Bytes
to_hex s add_prefix = if add_prefix then 48 ∷ 120 ∷ hex_digits s else hex_digits s

unfoldable pub as_nibbles : Bytes → Bytes
as_nibbles [] = []
as_nibbles (b ∷ s) = b / 16 ∷ b % 16 ∷ as_nibbles s

-- `toBigEndian` into a collection of `n` bytes, from its end.
unfoldable pub to_big_endian : ℕ → ℕ → Bytes → Bytes
to_big_endian zero v after = after
to_big_endian (suc n) v after = to_big_endian n (v / 256) (v % 256 ∷ after)

-- `fromBigEndian` to an unsigned type of `w` values.
unfoldable pub from_big_endian : ℕ → ℕ → Bytes → ℕ
from_big_endian w ret [] = ret
from_big_endian w ret (b ∷ s) = from_big_endian w (bit_or (ret * 256 % w) b) s
