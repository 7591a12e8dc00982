-- ===== src/Core/TrieCommon.antt =====
-- libdevcore/TrieCommon.{h,cpp}: keys of a trie as sequences of nibbles, and their hex-prefix encoding.
-- `unsigned` has 32 bits and `byte` 8; `& 15` is a remainder and `<< 4`, `>> 4` are a product and a quotient. An
-- index out of range reads 0. RLP is the parameter `in_use`, which says whether an item is not empty.
use x_chain.Prelude.{
  ℕ, zero, suc, ◌+◌, ◌-◌, ◌*◌, ◌/◌, ◌%◌, ◌^◌, ◌≤◌, ◌<◌, min, max, bit_and, bit_or, bit_xor, ◌≡◌,
  refl, sym, ap, ◌∙◌, subst, ◌≢◌, ◌↔◌, ◌⊎◌, inl, inr, Bool, true, false, not, ◌&&◌, ◌||◌, Option,
  none, some, List, [], ◌∷◌, ◌++◌, map, arith, ltb, leb, ◌==◌, if◌then◌else◌, ltb→lt, lt→ltb,
  leb→le, ==_iff, Bool-cases, Option-cases, length, get_elem?, get_or, set, take, drop, replicate,
  length-append, length-set, length-replicate, All,
}
pub mod Onto
pub mod Decode
pub mod Slices
pub mod Compare

abbrev pub Bytes : Type 0
Bytes = List ℕ

abbrev pub word32 : ℕ
word32 = 4294967296

abbrev pub sub32 : ℕ → ℕ → ℕ
sub32 a b = (a + word32 - b) % word32

unfoldable pub nibble : Bytes → ℕ → ℕ
nibble bytes i = if i % 2 == 1 then get_or bytes (i / 2) 0 % 16 else get_or bytes (i / 2) 0 / 16

-- The loop of `sharedNibbles`; as many rounds as the first range has nibbles are enough.
unfoldable pub shared_rounds : ℕ → Bytes → ℕ → ℕ → Bytes → ℕ → ℕ → ℕ
shared_rounds zero first b1 e1 second b2 e2 = 0
shared_rounds (suc n) first b1 e1 second b2 e2 =
    let rest = shared_rounds n first (suc b1) e1 second (suc b2) e2 in
    if ltb b1 e1 && ltb b2 e2 && (nibble first b1 == nibble second b2) then suc rest else 0

unfoldable pub shared_nibbles : Bytes → ℕ → ℕ → Bytes → ℕ → ℕ → ℕ
shared_nibbles first b1 e1 second b2 e2 = shared_rounds (e1 - b1) first b1 e1 second b2 e2

pub record NibbleSlice : Type 0 where
  pub bytes : Bytes
  pub offset : ℕ

unfoldable pub at_index : NibbleSlice → ℕ → ℕ
at_index s i = nibble s.bytes ((s.offset + i) % word32)

unfoldable pub size : NibbleSlice → ℕ
size s = sub32 (length s.bytes * 2) s.offset

unfoldable pub empty : NibbleSlice → Bool
empty s = size s == 0

unfoldable pub mid : NibbleSlice → ℕ → NibbleSlice
mid s i = record s { offset = (s.offset + i) % word32 }

unfoldable pub clear : NibbleSlice → NibbleSlice
clear s = record { bytes = []; offset = 0 }

unfoldable pub shared : NibbleSlice → NibbleSlice → ℕ
shared s k =
    shared_nibbles s.bytes s.offset ((s.offset + size s) % word32) k.bytes k.offset
      ((k.offset + size k) % word32)

unfoldable pub contains : NibbleSlice → NibbleSlice → Bool
contains s k = shared s k == size k

unfoldable pub equals : NibbleSlice → NibbleSlice → Bool
equals s k = (size k == size s) && (shared s k == size k)

-- The loop of `isEarlierThan` from index `i`, and what follows it.
unfoldable pub earlier_rounds : ℕ → NibbleSlice → NibbleSlice → ℕ → Bool
earlier_rounds zero s k i = not (leb (size k) i)
earlier_rounds (suc n) s k i =
    let rest = earlier_rounds n s k (suc i) in
    if ltb i (size k) && ltb i (size s)
    then if ltb (at_index s i) (at_index k i)
      then true
      else if ltb (at_index k i) (at_index s i)
      then false
      else rest
    else not (leb (size k) i)

unfoldable pub is_earlier_than : NibbleSlice → NibbleSlice → Bool
is_earlier_than s k = earlier_rounds (size s) s k 0

-- `ret.back() |= n`
unfoldable pub or_back : Bytes → ℕ → Bytes
or_back [] n = []
or_back (x ∷ []) n = bit_or x n ∷ []
or_back (x ∷ y ∷ l) n = x ∷ or_back (y ∷ l) n

-- The loop of both encoders over `n` nibbles from `i`.
unfoldable pub push_nibbles : ℕ → Bytes → ℕ → ℕ → Bytes → Bytes
push_nibbles zero bytes i d ret = ret
push_nibbles (suc n) bytes i d ret =
    push_nibbles n bytes (suc i) (suc d)
      (if d % 2 == 1 then or_back ret (nibble bytes i) else ret ++ (nibble bytes i * 16 % 256 ∷ []))

unfoldable pub prefix : Bool → Bool → ℕ
prefix leaf odd = bit_or (if leaf then 2 else 0) (if odd then 1 else 0) * 16

-- The end of the range: a number, or one counted from the back, where `back k` is the negative `-1 - k`.
pub data End : Type 0 where
  to : ℕ → End
  back : ℕ → End

unfoldable pub end_nibble : Bytes → End → ℕ → ℕ
end_nibble bytes (End.to e) offset = e + offset
end_nibble bytes (End.back k) offset = length bytes * 2 - offset - k + offset

unfoldable pub hex_prefix_encode : Bytes → Bool → ℕ → End → ℕ → Bytes
hex_prefix_encode bytes leaf begin_nibble end offset =
    let begin = begin_nibble + offset in
    let n = end_nibble bytes end offset - begin in
    let odd = n % 2 == 1 in push_nibbles n bytes begin (if odd then 1 else 2) (prefix leaf odd ∷ [])

-- The encoder of a slice with the default range.
unfoldable pub encode_slice : NibbleSlice → Bool → Bytes
encode_slice s leaf = hex_prefix_encode s.bytes leaf 0 (End.back 0) s.offset

unfoldable pub hex_prefix_encode_two : Bytes → ℕ → Bytes → ℕ → Bool → Bytes
hex_prefix_encode_two d1 o1 d2 o2 leaf =
    let n1 = length d1 * 2 - o1 in
    let n2 = length d2 * 2 - o2 in
    let odd = (n1 + n2) % 2 == 1 in
    let d = if odd then 1 else 2 in
    push_nibbles n2 d2 o2 (d + n1) (push_nibbles n1 d1 o1 d (prefix leaf odd ∷ []))

-- The encoder of a vector with a nibble in each byte.
unfoldable pub pairs : ℕ → Bytes → ℕ → Bytes
pairs zero v i = []
pairs (suc n) v i = (get_or v i 0 * 16 + get_or v (suc i) 0) % 256 ∷ pairs n v (suc (suc i))

unfoldable pub hex_prefix_encode_vector : Bytes → Bool → ℕ → ℕ → Bytes
hex_prefix_encode_vector v leaf begin end =
    if (end - begin) % 2 == 1
    then bit_or (prefix leaf true) (get_or v begin 0) ∷ pairs ((end - begin) / 2) v (suc begin)
    else prefix leaf false ∷ pairs ((end - begin) / 2) v begin

-- `isLeaf` on the payload of the first item.
unfoldable pub is_leaf : Bytes → Bool
is_leaf payload = not (bit_and (get_or payload 0 0) 32 == 0)

unfoldable pub key_of : Bytes → NibbleSlice
key_of [] = record { bytes = []; offset = 0 }
key_of (b ∷ hpe) =
    if bit_and b 16 == 0
    then record { bytes = b ∷ hpe; offset = 2 }
    else record { bytes = b ∷ hpe; offset = 1 }

-- The loop of `uniqueInUse` over `n` items from `i`.
unfoldable pub unique_rounds : ℕ → (ℕ → Bool) → ℕ → ℕ → ℕ → ℕ
unique_rounds zero in_use except i used = used
unique_rounds (suc n) in_use except i used =
    let rest = unique_rounds n in_use except (suc i) used in
    let found = unique_rounds n in_use except (suc i) i in
    if not (i == except) && in_use i then if used == 255 then found else 255 else rest

unfoldable pub unique_in_use : (ℕ → Bool) → ℕ → ℕ
unique_in_use in_use except = unique_rounds 17 in_use except 0 255
