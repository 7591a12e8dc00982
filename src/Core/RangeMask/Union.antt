-- ===== src/Core/RangeMask/Union.antt =====
-- What `unionWith` of libdevcore/RangeMask.h does to the set of numbers.
use x_chain.Prelude.{
  ℕ, zero, suc, ◌+◌, ◌-◌, ◌≤◌, ◌≡◌, refl, ◌∙◌, subst, inl, inr, ◌||◌, Option, some, arith, ltb,
  ltb→lt, Bool-cases,
}
use x_chain.Core.RangeMask.{
  Range, Ranges, RangeMask, Round, round, union_rounds, union_with, contains, within, held,
  Separated, IsWellFormed,
}
use x_chain.Core.RangeMask.Contains.{contains-held}
use x_chain.Core.RangeMask.Rounds.{Promised, round-Promised}

abbrev Added : (all : Range) (end i : ℕ) → Ranges → Option Ranges → Type 0
Added all end i l o =
    (l' : Ranges) × (o ≡ some l')
    × Separated all.0 all.1 l'
    × ((x : ℕ) → held x l' ≡ held x l || within i end x)

-- Enough rounds, and no assertion fails inside the ground range.
union_rounds_lem :
    (fuel : ℕ) (all : Range) (end i : ℕ) (l : Ranges)
    → all.0 ≤ i
    → end ≤ all.1
    → end ≤ i + fuel
    → Separated all.0 all.1 l
    → (l' : Ranges) × (union_rounds fuel all end i l ≡ some l')
      × Separated all.0 all.1 l'
      × ((x : ℕ) → held x l' ≡ held x l || within i end x)
unfolding union_rounds
union_rounds_lem zero all end i l a b c s = (l, ground arith, s, λ x. ground arith)
union_rounds_lem (suc fuel) all end i l a b c s = elim (Bool-cases (ltb i end)) [
  | inl below ↦
      (elim (round end i l)
          as (λ o. round end i l ≡ o → Added all end i l (union_rounds (suc fuel) all end i l)) [
            | Round.breaks l' ↦ λ e.
                let (s', same) =
                  subst (Promised all.0 all.1 end i l) e
                    (round-Promised all.0 all.1 end i l a (ltb→lt _ _ below) b s) in
                (l', rw e (ground arith), s', same)
            | Round.goes_on i' l' ↦ λ e.
                let (up, s', same) =
                  subst (Promised all.0 all.1 end i l) e
                    (round-Promised all.0 all.1 end i l a (ltb→lt _ _ below) b s) in
                let (l2, found, s2, same2) =
                  union_rounds_lem fuel all end i' l' (omega arith) b (omega arith) s' in
                (l2, rw (e, found) (ground arith), s2, λ x. same2 x ∙ same x)
          ])
        refl
  | inr above ↦ (l, rw above refl, s, λ x. ground arith)
]

-- Adding a range inside the ground range of a well-formed mask finishes, no assertion fails, the mask
-- stays well formed with the same ground range, and it contains what it did and the range.
pub union_with_lem :
    (mask : RangeMask) (m : Range)
    → IsWellFormed mask
    → mask.all.0 ≤ m.0
    → m.1 ≤ mask.all.1
    → (mask' : RangeMask) × (union_with mask m ≡ some mask')
      × IsWellFormed mask'
      × (mask'.all ≡ mask.all)
      × ((x : ℕ) → contains mask' x ≡ contains mask x || within m.0 m.1 x)
unfolding union_with
union_with_lem mask m w a b =
    let (l, e, s, same) =
      union_rounds_lem (m.1 - m.0) mask.all m.1 m.0 mask.ranges a b (omega arith) w.separated in
    let mask' : RangeMask = record mask { ranges = l } in
    let w' : IsWellFormed mask' = record { ordered = w.ordered; small = w.small; separated = s } in
    (
      mask',
      rw e refl,
      w',
      refl,
      λ x. rw (contains-held mask' x w', contains-held mask x w) (same x),
    )
