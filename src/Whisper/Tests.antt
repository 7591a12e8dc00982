-- ===== src/Whisper/Tests.antt =====
-- Filters of a few bits for the theorems on libwhisper/BloomFilter.h.
use x_chain.Prelude.{ℕ, ◌≡◌, refl, Bool, true, false, ◌==◌, ◌||◌, arith, ltb, if◌then◌else◌}
use x_chain.Whisper.BloomFilter.{
  BloomFilter, empty_filter, add_raw, remove_raw, add_loop, remove_loop, set_counter, remove_at,
  clear_bit,
}
use x_chain.Whisper.BloomFilter.Counting.{Fits, IsCounted, IsCounted-kept, remove_raw-add_raw}

-- A hash with the bits 1 and 3, and a filter that has it twice.
abbrev two_bits : ℕ → Bool
two_bits j = (j == 1) || (j == 3)

abbrev some_filter : BloomFilter
some_filter = record {
  bits = λ j. ltb 0 (if two_bits j then 2 else 0);
  ref_counter = λ j. if two_bits j then 2 else 0;
}

some_filter-IsCounted : IsCounted 8 some_filter
some_filter-IsCounted j lt = refl

some_filter-Fits : Fits 0 two_bits some_filter
some_filter-Fits j le p = ground arith

IsCounted-kept_example :
    ((add_raw 8 two_bits some_filter).0 ≡ true)
    × IsCounted 8 (add_raw 8 two_bits some_filter).1
    × IsCounted 8 (remove_raw 8 two_bits some_filter)
IsCounted-kept_example =
    IsCounted-kept 8 two_bits some_filter some_filter-IsCounted some_filter-Fits

remove_raw-add_raw_example :
    ((remove_raw 8 two_bits (add_raw 8 two_bits some_filter).1).ref_counter 3 ≡ 2)
    × ((remove_raw 8 two_bits (add_raw 8 two_bits some_filter).1).bits 3 ≡ true)
remove_raw-add_raw_example =
    remove_raw-add_raw 8 two_bits some_filter some_filter-IsCounted some_filter-Fits 3 (omega arith)

-- A bit that two hashes share stays when one of them is removed.
shared_bit :
    let b = (add_raw 8 (λ j. j == 3) (add_raw 8 two_bits empty_filter).1).1 in
    ((remove_raw 8 two_bits b).bits 3 ≡ true) × ((remove_raw 8 two_bits b).bits 1 ≡ false)
unfolding add_raw add_loop remove_raw remove_loop set_counter remove_at clear_bit
shared_bit = (refl, refl)
