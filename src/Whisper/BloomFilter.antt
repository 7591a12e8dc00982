-- ===== src/Whisper/BloomFilter.antt =====
-- libwhisper/BloomFilter.h: a Bloom filter that counts how often each of its bits was added.
-- A FixedHash is the function of its bits: bit i is that of c_powerOfTwoBitMmask[i % 8] in byte i / 8. The number of the
-- bits, CounterSize, is `size`. An overflow is thrown with the counters as they are then.
use x_chain.Prelude.{
  ℕ, zero, suc, ◌+◌, ◌-◌, ◌%◌, ◌^◌, bit_and, Bool, true, false, not, ◌&&◌, ◌||◌, ◌==◌,
  if◌then◌else◌,
}
pub mod Counting

abbrev pub max_counter : ℕ
max_counter = 65535

pub record BloomFilter : Type 0 where
  pub bits : ℕ → Bool
  pub ref_counter : ℕ → ℕ

abbrev pub empty_filter : BloomFilter
empty_filter = record { bits = λ i. false; ref_counter = λ i. 0 }

unfoldable pub set_counter : ℕ → ℕ → BloomFilter → BloomFilter
set_counter i c b = record b { ref_counter = λ j. if j == i then c else b.ref_counter j }

unfoldable pub clear_bit : ℕ → BloomFilter → BloomFilter
clear_bit i b = record b { bits = λ j. if j == i then false else b.bits j }

-- The loop of `addRaw` with the rounds that are left, and whether it ends without an overflow.
unfoldable pub add_loop : ℕ → ℕ → (ℕ → Bool) → BloomFilter → Bool × BloomFilter
add_loop zero i h b = (true, b)
add_loop (suc n) i h b =
    let rest = add_loop n (i + 1) h (if h i then set_counter i (b.ref_counter i + 1) b else b) in
    if h i && (b.ref_counter i == max_counter) then (false, b) else rest

unfoldable pub add_raw : ℕ → (ℕ → Bool) → BloomFilter → Bool × BloomFilter
add_raw size h b = add_loop size 0 h (record b { bits = λ j. b.bits j || h j })

-- One round of `removeRaw` at a bit that is set; a counter at zero stays there.
unfoldable pub remove_at : ℕ → BloomFilter → BloomFilter
remove_at i b =
    let b' = set_counter i (b.ref_counter i - 1) b in
    if b.ref_counter i - 1 == 0 then clear_bit i b' else b'

unfoldable pub remove_loop : ℕ → ℕ → (ℕ → Bool) → BloomFilter → BloomFilter
remove_loop zero i h b = b
remove_loop (suc n) i h b = remove_loop n (i + 1) h (if h i then remove_at i b else b)

unfoldable pub remove_raw : ℕ → (ℕ → Bool) → BloomFilter → BloomFilter
remove_raw size h b = remove_loop size 0 h b

unfoldable pub set_bit : ℕ → (ℕ → Bool) → ℕ → Bool
set_bit i h j = (j == i) || h j

-- `bloom` of the four bytes of a topic, in its two cases on the number of the bits.
unfoldable pub place : ℕ → (ℕ → ℕ) → ℕ → ℕ
place size topic i =
    if size == 512
    then topic i + (if bit_and (topic 3) (2 ^ i) == 0 then 0 else 256)
    else (topic i + topic (i + 1)) % size

unfoldable pub bloom : ℕ → (ℕ → ℕ) → ℕ → Bool
bloom size topic =
    set_bit (place size topic 2)
      (set_bit (place size topic 1) (set_bit (place size topic 0) (λ j. false)))

unfoldable pub add_bloom : ℕ → (ℕ → ℕ) → BloomFilter → Bool × BloomFilter
add_bloom size topic b = add_raw size (bloom size topic) b

unfoldable pub remove_bloom : ℕ → (ℕ → ℕ) → BloomFilter → BloomFilter
remove_bloom size topic b = remove_raw size (bloom size topic) b
