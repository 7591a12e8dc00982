-- ===== src/Core/RangeMask/Merge.antt =====
-- The union of two masks of libdevcore/RangeMask.h.
use x_chain.Prelude.{ℕ, suc, ◌≤◌, min, max, ◌≡◌, refl, ◌∙◌, ◌||◌, some, [], ◌∷◌, arith}
use x_chain.Core.RangeMask.{
  Range, Ranges, RangeMask, contains, union_with, union_with_each, union_with_mask, held, Separated,
  IsWellFormed,
}
use x_chain.Core.RangeMask.Contains.{contains-held}
use x_chain.Core.RangeMask.Union.{union_with_lem}

Separated-wider :
    (p p' q q' : ℕ) (l : Ranges) → p' ≤ p → q ≤ q' → Separated p q l → Separated p' q' l
Separated-wider p p' q q' [] h g s = s
Separated-wider p p' q q' (r ∷ l) h g s =
    let rest = Separated-wider (suc r.1) (suc r.1) q q' l (omega arith) g s.3 in ground arith

each_step :
    (mask mask' : RangeMask) (r : Range) (l : Ranges)
    → union_with mask r ≡ some mask'
    → union_with_each mask (r ∷ l) ≡ union_with_each mask' l
unfolding union_with_each
each_step mask mask' r l e = rw (union_with_each, e) refl

union_with_each_lem :
    (l : Ranges) (mask : RangeMask) (p : ℕ)
    → IsWellFormed mask
    → mask.all.0 ≤ p
    → Separated p mask.all.1 l
    → (mask' : RangeMask) × (union_with_each mask l ≡ some mask')
      × IsWellFormed mask'
      × (mask'.all ≡ mask.all)
      × ((x : ℕ) → contains mask' x ≡ contains mask x || held x l)
unfolding union_with_each
union_with_each_lem [] mask p w h s = (mask, refl, w, refl, λ x. ground arith)
union_with_each_lem (r ∷ l) mask p w h s =
    let (mask1, e, w1, all1, same1) = union_with_lem mask r w (omega arith) s.2 in
    let (mask2, e2, w2, all2, same2) =
      union_with_each_lem l mask1 (suc r.1) w1 (rw all1 (omega arith)) (rw all1 s.3) in
    (
      mask2,
      each_step mask mask1 r l e ∙ e2,
      w2,
      all2 ∙ all1,
      λ x. rw (same2 x, same1 x) (ground arith),
    )

-- The union of two well-formed masks finishes, no assertion fails, the result is well formed over the
-- union of the ground ranges, and contains what either mask contains.
pub union_with_mask_lem :
    (mask m : RangeMask)
    → IsWellFormed mask
    → IsWellFormed m
    → (mask' : RangeMask) × (union_with_mask mask m ≡ some mask')
      × IsWellFormed mask'
      × (mask'.all ≡ (min m.all.0 mask.all.0, max m.all.1 mask.all.1))
      × ((x : ℕ) → contains mask' x ≡ contains mask x || contains m x)
unfolding union_with_mask
union_with_mask_lem mask m w v =
    let wide : RangeMask = record mask { all = (min m.all.0 mask.all.0, max m.all.1 mask.all.1) } in
    let wide_IsWellFormed : IsWellFormed wide = record {
      ordered = omega (arith, w.ordered);
      small = omega (arith, w.small, v.small);
      separated = Separated-wider _ _ _ _ mask.ranges (omega arith) (omega arith) w.separated;
    } in
    let (mask', e, w', all', same) =
      union_with_each_lem m.ranges wide (min m.all.0 mask.all.0) wide_IsWellFormed (omega arith)
        (Separated-wider _ _ _ _ m.ranges (omega arith) (omega arith) v.separated) in
    (
      mask',
      e,
      w',
      all',
      λ x.
          rw
            (
              same x,
              contains-held wide x wide_IsWellFormed,
              contains-held mask x w,
              contains-held m x v,
            )
            refl,
    )
