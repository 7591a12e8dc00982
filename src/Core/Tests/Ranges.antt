-- ===== src/Core/Tests/Ranges.antt =====
-- The range masks of libdevcore/RangeMask.h at concrete inputs.
use x_chain.Prelude.{
  ℕ, ◌≤◌, ◌<◌, ◌≡◌, refl, ◌⊎◌, true, false, not, ◌&&◌, ◌||◌, none, some, [], ◌∷◌, arith, ltb, leb,
}
use x_chain.Core.RangeMask.{
  IsWellFormed, RangeMask, apart, assign, before, contains, erase, inverted, lowest, lowest_of,
  next, next_from, past, round, round_at, touching, union_rounds, union_with, upper_bound,
}
use x_chain.Core.RangeMask.Contains.{next_lem}
use x_chain.Core.RangeMask.Union.{union_with_lem}
use x_chain.Core.RangeMask.Inverse.{inverted_lem}

abbrev some_ranges : RangeMask
some_ranges = record { all = (0, 20); ranges = (2, 5) ∷ (8, 10) ∷ [] }

abbrev other_ranges : RangeMask
other_ranges = record { all = (3, 30); ranges = (4, 9) ∷ (22, 30) ∷ [] }

some_ranges-IsWellFormed : IsWellFormed some_ranges
some_ranges-IsWellFormed = record {
  ordered = omega arith;
  small = omega arith;
  separated = ground arith;
}

other_ranges-IsWellFormed : IsWellFormed other_ranges
other_ranges-IsWellFormed = record {
  ordered = omega arith;
  small = omega arith;
  separated = ground arith;
}

union_joins : union_with some_ranges (4, 8) ≡ some (record { all = (0, 20); ranges = (2, 10) ∷ [] })
unfolding union_with union_rounds round round_at before touching upper_bound erase assign
union_joins = refl

union_outside : union_with some_ranges (20, 22) ≡ none
unfolding union_with union_rounds round round_at before apart upper_bound
union_outside = refl

lowest_four : lowest some_ranges 4 ≡ record { all = (0, 20); ranges = (2, 5) ∷ (8, 9) ∷ [] }
unfolding lowest lowest_of
lowest_four = refl

next_of_four : next some_ranges 4 ≡ 8
unfolding next next_from before past upper_bound
next_of_four = refl

union_with_lem_example :
    (mask' : RangeMask) × (union_with some_ranges (4, 8) ≡ some mask')
    × IsWellFormed mask'
    × (mask'.all ≡ some_ranges.all)
    × ((x : ℕ) → contains mask' x ≡ contains some_ranges x || (leb 4 x && ltb x 8))
union_with_lem_example =
    union_with_lem some_ranges (4, 8) some_ranges-IsWellFormed (omega arith) (omega arith)

inverted_lem_example :
    IsWellFormed (inverted some_ranges)
    × ((x : ℕ)
        → contains (inverted some_ranges) x ≡ not (contains some_ranges x) && (leb 0 x && ltb x 20))
    × (inverted (inverted some_ranges) ≡ some_ranges)
inverted_lem_example = inverted_lem some_ranges some_ranges-IsWellFormed

next_lem_example :
    (4 < next some_ranges 4)
    × (next some_ranges 4 ≤ 20)
    × (contains some_ranges 7 && ltb 4 7 && ltb 7 (next some_ranges 4) ≡ false)
    × ((next some_ranges 4 ≡ 20) ⊎ (contains some_ranges (next some_ranges 4) ≡ true))
next_lem_example = next_lem some_ranges 4 7 some_ranges-IsWellFormed (omega arith)
