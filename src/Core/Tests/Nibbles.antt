-- ===== src/Core/Tests/Nibbles.antt =====
-- The hex-prefix encoding of libdevcore/TrieCommon.cpp at concrete inputs.
use x_chain.Prelude.{◌↔◌, not, ◌||◌, ◌+◌, ◌<◌, ◌≡◌, refl, true, false, [], ◌∷◌, arith, ◌==◌}
use x_chain.Core.TrieCommon.{
  NibbleSlice, encode_slice, end_nibble, hex_prefix_encode, hex_prefix_encode_vector, is_leaf,
  key_of, nibble, or_back, pairs, prefix, push_nibbles, size, unique_in_use, unique_rounds, word32,
}
use x_chain.Core.TrieCommon.{contains, equals, is_earlier_than}
use x_chain.Core.TrieCommon.Compare.{begins, earlier, compare_lem}
use x_chain.Core.TrieCommon.Decode.{nibbles}
use x_chain.Core.TrieCommon.Slices.{IsSlice, key_of-encode_slice}

-- The nibbles 1 2 3 4 5, from the second.
abbrev odd_slice : NibbleSlice
odd_slice = record { bytes = 0x01 ∷ 0x23 ∷ 0x45 ∷ []; offset = 1 }

abbrev even_slice : NibbleSlice
even_slice = record { bytes = 0x12 ∷ 0x34 ∷ []; offset = 0 }

odd_slice-IsSlice : IsSlice odd_slice
odd_slice-IsSlice = record { inside = omega arith; small = omega arith; octets = ground arith }

even_slice-IsSlice : IsSlice even_slice
even_slice-IsSlice = record { inside = omega arith; small = omega arith; octets = ground arith }

-- As in the table of libdevcore/TrieCommon.cpp.
odd_encoded : encode_slice odd_slice false ≡ 0x11 ∷ 0x23 ∷ 0x45 ∷ []
unfolding encode_slice hex_prefix_encode push_nibbles end_nibble or_back prefix nibble
odd_encoded = refl

even_leaf : encode_slice even_slice true ≡ 0x20 ∷ 0x12 ∷ 0x34 ∷ []
unfolding encode_slice hex_prefix_encode push_nibbles end_nibble or_back prefix nibble
even_leaf = refl

vector_leaf : hex_prefix_encode_vector (1 ∷ 2 ∷ 3 ∷ 4 ∷ 5 ∷ []) true 0 5 ≡ 0x31 ∷ 0x23 ∷ 0x45 ∷ []
unfolding hex_prefix_encode_vector prefix pairs
vector_leaf = refl

only_five : unique_in_use (λ i. i == 5) 16 ≡ 5
unfolding unique_in_use unique_rounds
only_five = refl

key_of-encode_slice_example :
    (nibbles (key_of (encode_slice odd_slice true)) ≡ nibbles odd_slice)
    × (is_leaf (encode_slice odd_slice true) ≡ true)
key_of-encode_slice_example = key_of-encode_slice odd_slice true odd_slice-IsSlice

small_sum : size odd_slice + size even_slice + 2 < word32
unfolding size
small_sum = omega arith

compare_lem_example :
    (contains odd_slice even_slice ≡ begins (nibbles odd_slice) (nibbles even_slice))
    × ((equals odd_slice even_slice ≡ true) ↔ (nibbles odd_slice ≡ nibbles even_slice))
    × (is_earlier_than odd_slice even_slice ≡ earlier (nibbles odd_slice) (nibbles even_slice))
    × (is_earlier_than odd_slice even_slice
        ≡ not (contains odd_slice even_slice || is_earlier_than even_slice odd_slice))
compare_lem_example =
    compare_lem odd_slice even_slice (record { inside = omega arith; small = omega arith })
      (record { inside = omega arith; small = omega arith })
