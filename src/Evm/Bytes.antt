-- ===== src/Evm/Bytes.antt =====
-- Byte strings: the memory reads and writes of libevm/VM.cpp, `copyDataToMemory` of
-- libevm/VMCalls.cpp, the conversions between u256 and h256, and `firstBitSet` of
-- libdevcore/FixedHash.h.
use x_chain.Prelude.{
  ℕ, zero, suc, ◌+◌, ◌-◌, ◌*◌, ◌/◌, ◌%◌, ◌^◌, List, [], ◌∷◌, ltb, leb, ◌==◌, if◌then◌else◌, length,
  set, take, drop, replicate,
}

-- A h256 has the high byte first.
unfoldable pub to_bytes : ℕ → ℕ → List ℕ
to_bytes zero v = []
to_bytes (suc n) v = (v / 256 ^ n % 256) ∷ to_bytes n v

unfoldable pub from_bytes : ℕ → List ℕ → ℕ
from_bytes acc [] = acc
from_bytes acc (b ∷ bs) = from_bytes (acc * 256 + b) bs

abbrev pub slice : List ℕ → ℕ → ℕ → List ℕ
slice bytes offset size = take size (drop offset bytes)

-- A write behind the end is dropped here; in the source it would be undefined.
unfoldable pub write_at : List ℕ → ℕ → List ℕ → List ℕ
write_at mem offset [] = mem
write_at mem offset (b ∷ bs) = write_at (set mem offset b) (offset + 1) bs

-- `big_index` is a s512, so that the sum does not wrap; the others are size_t.
unfoldable pub copy_size : ℕ → ℕ → ℕ → ℕ
copy_size data_size big_index size =
    if ltb data_size (big_index + size)
    then (if ltb data_size big_index then 0 else data_size - big_index % 2 ^ 64)
    else size

unfoldable pub copy_data_to_memory : List ℕ → ℕ → ℕ → ℕ → List ℕ → List ℕ
unfolding copy_size write_at
copy_data_to_memory source sp0 sp1 sp2 mem =
    let offset = sp0 % 2 ^ 64 in
    let index = sp1 % 2 ^ 64 in
    let size = sp2 % 2 ^ 64 in
    let copied = copy_size (length source) sp1 size in
    let mem1 = if ltb 0 copied then write_at mem offset (slice source index copied) else mem in
    if ltb copied size then write_at mem1 (offset + copied) (replicate (size - copied) 0) else mem1

-- `asAddress`: the low 160 bits.
unfoldable pub as_address : ℕ → ℕ
as_address item = item % 2 ^ 160

-- The inner loop of `firstBitSet` on a byte that is not 0: at most seven shifts.
lead_loop : ℕ → ℕ → ℕ → ℕ
lead_loop zero ret d = ret
lead_loop (suc fuel) ret d =
    let rest = lead_loop fuel (ret + 1) (d * 2 % 256) in if leb 0x80 d then ret else rest

unfoldable pub first_bit_set : ℕ → List ℕ → ℕ
unfolding lead_loop
first_bit_set ret [] = ret
first_bit_set ret (d ∷ ds) =
    let rest = first_bit_set (ret + 8) ds in if d == 0 then rest else lead_loop 8 ret d
