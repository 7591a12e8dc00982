-- ===== src/Core/Tests/Hex.antt =====
-- Hexadecimal text of libdevcore/CommonData.cpp at concrete inputs.
use x_chain.Prelude.{ℕ, ◌^◌, ◌≡◌, refl, ◌⊎◌, true, false, some, List, [], ◌∷◌, arith}
use x_chain.Core.CommonData.{
  as_nibbles, digit_pairs, from_big_endian, from_hex, from_hex_char, has_prefix, is_hex, is_some,
  joined, odd_digit, or_empty, single, to_big_endian, to_hex, without_prefix,
}
use x_chain.Core.CommonData.Hex.{from_hex-to_hex, from_hex-is_hex}

-- The text 4x.
abbrev bad_text : List ℕ
bad_text = 52 ∷ 120 ∷ []

odd_text : from_hex (48 ∷ 120 ∷ 97 ∷ 66 ∷ 67 ∷ []) true ≡ some (0x0a ∷ 0xbc ∷ [])
unfolding from_hex or_empty odd_digit without_prefix has_prefix single from_hex_char digit_pairs
    joined
odd_text = refl

big_endian_text : to_big_endian 3 0x010203 [] ≡ 1 ∷ 2 ∷ 3 ∷ []
unfolding to_big_endian
big_endian_text = refl

big_endian_back : from_big_endian (2 ^ 32) 0 (1 ∷ 2 ∷ 3 ∷ []) ≡ 0x010203
unfolding from_big_endian
big_endian_back = refl

nibbles_text : as_nibbles (0x4a ∷ []) ≡ 4 ∷ 10 ∷ []
unfolding as_nibbles
nibbles_text = refl

from_hex-to_hex_example : from_hex (to_hex (0x41 ∷ 0x69 ∷ []) true) false ≡ some (0x41 ∷ 0x69 ∷ [])
from_hex-to_hex_example = from_hex-to_hex (0x41 ∷ 0x69 ∷ []) true false (ground arith)

from_hex-is_hex_example :
    (is_some (from_hex bad_text true) ≡ is_hex bad_text)
    × ((is_hex bad_text ≡ true) ⊎ (from_hex bad_text false ≡ some []))
from_hex-is_hex_example = from_hex-is_hex bad_text
