-- ===== src/Core/RangeMask.antt =====
-- libdevcore/RangeMask.h: a set of numbers kept as an ordered map from the begin of a range to its end.
-- The element type is `unsigned`, 32 bits. A `std::map` is the list of its pairs in order of their keys;
-- an iterator is the pair it points to, `none` at the end.
use x_chain.Prelude.{
  ℕ, zero, suc, ◌+◌, ◌-◌, ◌*◌, ◌/◌, ◌%◌, ◌^◌, ◌≤◌, ◌<◌, min, max, bit_and, bit_or, bit_xor, ◌≡◌,
  refl, sym, ap, ◌∙◌, subst, ◌≢◌, ◌↔◌, ◌⊎◌, inl, inr, Bool, true, false, not, ◌&&◌, ◌||◌, Option,
  none, some, List, [], ◌∷◌, ◌++◌, map, arith, ltb, leb, ◌==◌, if◌then◌else◌, ltb→lt, lt→ltb,
  leb→le, ==_iff, Bool-cases, Option-cases, length, get_elem?, get_or, set, take, drop, replicate,
  length-append, length-set, length-replicate, All,
}
use mathlib.Core.Option
pub mod Contains
pub mod Rounds
pub mod Union
pub mod Inverse
pub mod Merge
pub mod Size

abbrev pub Range : Type 0
Range = ℕ × ℕ

abbrev pub Ranges : Type 0
Ranges = List Range

abbrev pub word32 : ℕ
word32 = 4294967296

abbrev pub sub32 : ℕ → ℕ → ℕ
sub32 a b = (a + word32 - b) % word32

pub record RangeMask : Type 0 where
  pub all : Range
  pub ranges : Ranges

-- The first pair whose key is above `i`.
unfoldable pub upper_bound : ℕ → Ranges → Option Range
upper_bound i [] = none
upper_bound i (r ∷ l) = if ltb i r.0 then some r else upper_bound i l

-- The pair before `upper_bound`, if that is not the first.
unfoldable pub before : ℕ → Ranges → Option Range
before i [] = none
before i (r ∷ l) = if ltb i r.0 then none else elim (before i l) [ none ↦ some r | some q ↦ some q ]

-- `m_ranges[k] = v`
unfoldable pub assign : ℕ → ℕ → Ranges → Ranges
assign k v [] = (k, v) ∷ []
assign k v (r ∷ l) =
    if ltb k r.0 then (k, v) ∷ r ∷ l else if k == r.0 then (k, v) ∷ l else r ∷ assign k v l

unfoldable pub erase : ℕ → Ranges → Ranges
erase k [] = []
erase k (r ∷ l) = if k == r.0 then l else r ∷ erase k l

-- One round of the loop of `unionWith`: it breaks, or it goes on from a new `i`.
pub data Round : Type 0 where
  breaks : Ranges → Round
  goes_on : ℕ → Ranges → Round

unfoldable pub apart : ℕ → ℕ → Ranges → Option Range → Round
apart end i l none = Round.breaks (assign i end l)
apart end i l (some a) =
    if ltb end a.0
    then Round.breaks (assign i end l)
    else if a.0 == i
    then Round.goes_on a.1 l
    else Round.goes_on a.1 (erase a.0 (assign i a.1 l))

unfoldable pub touching : ℕ → Range → Ranges → Option Range → Round
touching end it l none = Round.breaks (assign it.0 end l)
touching end it l (some a) =
    if ltb end a.0
    then Round.breaks (assign it.0 end l)
    else Round.goes_on a.1 (erase a.0 (assign it.0 a.1 l))

unfoldable pub round_at : ℕ → ℕ → Ranges → Option Range → Option Range → Round
round_at end i l none after = apart end i l after
round_at end i l (some it) after =
    if ltb it.1 i
    then apart end i l after
    else if it.1 == i
    then touching end it l after
    else Round.goes_on it.1 l

unfoldable pub round : ℕ → ℕ → Ranges → Round
round end i l = round_at end i l (before i l) (upper_bound i l)

-- The loop: `none` when an assertion fails. Each round raises `i`, so `end` rounds are enough.
unfoldable pub union_rounds : ℕ → Range → ℕ → ℕ → Ranges → Option Ranges
union_rounds zero all end i l = if ltb i end then none else some l
union_rounds (suc fuel) all end i l =
    if ltb i end
    then if leb all.0 i && ltb i all.1
      then elim (round end i l) [
        | Round.breaks l' ↦ some l'
        | Round.goes_on i' l' ↦ union_rounds fuel all end i' l'
      ]
      else none
    else some l

unfoldable pub union_with : RangeMask → Range → Option RangeMask
union_with mask m =
    Option.map (λ l. record mask { ranges = l })
      (union_rounds (m.1 - m.0) mask.all m.1 m.0 mask.ranges)

unfoldable pub union_with_element : RangeMask → ℕ → Option RangeMask
union_with_element mask i = union_with mask (i, (i + 1) % word32)

unfoldable pub union_with_each : RangeMask → Ranges → Option RangeMask
union_with_each mask [] = some mask
union_with_each mask (r ∷ l) = elim (union_with mask r) [
  | none ↦ none
  | some mask' ↦ union_with_each mask' l
]

unfoldable pub union_with_mask : RangeMask → RangeMask → Option RangeMask
union_with_mask mask m =
    union_with_each (record mask { all = (min m.all.0 mask.all.0, max m.all.1 mask.all.1) })
      m.ranges

unfoldable pub contains : RangeMask → ℕ → Bool
contains mask i = elim (before i mask.ranges) [ none ↦ false | some it ↦ ltb i it.1 ]

-- The loop of `inverted`; its additions are in the order of their keys.
unfoldable pub gaps : ℕ → ℕ → Ranges → Ranges
gaps end last [] = if last == end then [] else (last, end) ∷ []
gaps end last (r ∷ l) = if r.0 == last then gaps end r.1 l else (last, r.0) ∷ gaps end r.1 l

unfoldable pub inverted : RangeMask → RangeMask
inverted mask = record mask { ranges = gaps mask.all.1 mask.all.0 mask.ranges }

unfoldable pub difference : RangeMask → Range → Option RangeMask
difference mask m = Option.map inverted (union_with (inverted mask) m)

unfoldable pub lowest_of : ℕ → Ranges → Ranges
lowest_of zero l = []
lowest_of items [] = []
lowest_of items (r ∷ l) =
    let end = min ((r.0 + items) % word32) r.1 in
    (r.0, end) ∷ lowest_of (sub32 items (sub32 end r.0)) l

unfoldable pub lowest : RangeMask → ℕ → RangeMask
lowest mask items = record mask { ranges = lowest_of items mask.ranges }

unfoldable pub size_of : Ranges → ℕ
size_of [] = 0
size_of (r ∷ l) = sub32 r.1 r.0 + size_of l

unfoldable pub size : RangeMask → ℕ
size mask = size_of mask.ranges % 2 ^ 64

unfoldable pub empty : RangeMask → Bool
empty mask = length mask.ranges == 0

unfoldable pub full : RangeMask → Bool
full mask =
    (mask.all.0 == mask.all.1)
    || elim mask.ranges [ r ∷ [] ↦ (r.0 == mask.all.0) && (r.1 == mask.all.1) | _ ↦ false ]

-- The number where the search ends when no range holds `t`.
unfoldable pub past : ℕ → Option Range → ℕ
past end none = end
past end (some u) = u.0

unfoldable pub next_from : ℕ → Option Range → ℕ → ℕ
next_from t none end = end
next_from t (some it) end = if leb it.0 t && ltb t it.1 then t else end

unfoldable pub next : RangeMask → ℕ → ℕ
next mask t =
    let t = (t + 1) % word32 in
    next_from t (before t mask.ranges) (past mask.all.1 (upper_bound t mask.ranges))

-- `m_ranges.count(k)` and `m_ranges.at(k)`
unfoldable pub end_at : ℕ → Ranges → Option ℕ
end_at k [] = none
end_at k (r ∷ l) = if k == r.0 then some r.1 else end_at k l

unfoldable pub first_out : RangeMask → ℕ
first_out mask = elim (end_at mask.all.0 mask.ranges) [ none ↦ mask.all.0 | some e ↦ e ]

unfoldable pub last_of : ℕ → Ranges → ℕ
last_of none_in [] = none_in
last_of none_in (r ∷ l) = last_of (sub32 r.1 1) l

unfoldable pub last_in : RangeMask → ℕ
last_in mask = last_of mask.all.0 mask.ranges

unfoldable pub extend_all : RangeMask → ℕ → RangeMask
extend_all mask i = record mask { all = (min mask.all.0 i, max mask.all.1 ((i + 1) % word32)) }

unfoldable pub clear : RangeMask → RangeMask
clear mask = record mask { ranges = [] }

unfoldable pub reset : RangeMask → RangeMask
reset mask = record mask { all = (0, 0); ranges = [] }

-- Whether `x` is in the range from `lo` to `hi`.
abbrev pub within : ℕ → ℕ → ℕ → Bool
within lo hi x = leb lo x && ltb x hi

abbrev pub held : ℕ → Ranges → Bool
held x [] = false
held x (r ∷ l) = within r.0 r.1 x || held x l

-- Ranges in order, none empty, with a gap between any two, from `p` to `q`.
abbrev pub Separated : ℕ → ℕ → Ranges → Type 0
Separated p q [] = Unit
Separated p q (r ∷ l) = (p ≤ r.0) × (r.0 < r.1) × (r.1 ≤ q) × Separated (suc r.1) q l

pub record IsWellFormed (mask : RangeMask) : Type 0 where
  pub ordered : mask.all.0 ≤ mask.all.1
  pub small : mask.all.1 < word32
  pub separated : Separated mask.all.0 mask.all.1 mask.ranges
