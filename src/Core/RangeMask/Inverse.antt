-- ===== src/Core/RangeMask/Inverse.antt =====
-- `inverted`, `operator-=` and the union of two masks of libdevcore/RangeMask.h.
use x_chain.Prelude.{
  ℕ, suc, ◌≤◌, ◌<◌, ◌≡◌, refl, sym, ap, ◌∙◌, inl, inr, Bool, not, ◌&&◌, ◌||◌, some, [], ◌∷◌, arith,
  ltb, Bool-cases,
}
use x_chain.Core.RangeMask.{
  Range, Ranges, RangeMask, contains, gaps, inverted, difference, within, held, Separated,
  IsWellFormed,
}
use x_chain.Core.RangeMask.Contains.{contains-held, held_below}
use x_chain.Core.RangeMask.Union.{union_with_lem}

Separated-le : (p p' q : ℕ) (l : Ranges) → p ≤ p' → Separated p' q l → Separated p q l
Separated-le p p' q [] h s = s
Separated-le p p' q (r ∷ l) h s = ground arith

gaps-Separated : (p q : ℕ) (l : Ranges) → p ≤ q → Separated p q l → Separated p q (gaps q p l)
unfolding gaps
gaps-Separated p q [] h s = ground arith
gaps-Separated p q (r ∷ l) h s =
    let rest = gaps-Separated r.1 q l s.2 (Separated-le r.1 (suc r.1) q l (omega arith) s.3) in
    let low = Separated-le p r.1 q (gaps q r.1 l) (omega arith) rest in
    let high = Separated-le (suc r.0) r.1 q (gaps q r.1 l) s.1 rest in ground arith

held-gaps :
    (p q x : ℕ) (l : Ranges)
    → p ≤ q
    → Separated p q l
    → held x (gaps q p l) ≡ not (held x l) && within p q x
unfolding gaps
held-gaps p q x [] h s = ground arith
held-gaps p q x (r ∷ l) h s =
    let rest = held-gaps r.1 q x l s.2 (Separated-le r.1 (suc r.1) q l (omega arith) s.3) in
    elim (Bool-cases (ltb x r.1)) [
      | inl e ↦ rw (held_below x (suc r.1) q l (ground arith) s.3) (ground arith)
      | inr e ↦ ground arith
    ]

gaps_from :
    (p b q : ℕ) (l : Ranges)
    → p < b
    → b ≤ q
    → Separated (suc b) q l
    → gaps q p (gaps q b l) ≡ (p, b) ∷ l
unfolding gaps
gaps_from p b q [] h g s = ground arith
gaps_from p b q (r ∷ l) h g s = let rest = gaps_from r.0 r.1 q l s.1 s.2 s.3 in ground arith

gaps-gaps : (p q : ℕ) (l : Ranges) → p ≤ q → Separated p q l → gaps q p (gaps q p l) ≡ l
unfolding gaps
gaps-gaps p q [] h s = ground arith
gaps-gaps p q (r ∷ l) h s = ground (arith, gaps_from p r.1 q l, gaps_from r.0 r.1 q l s.1 s.2 s.3)

pub inverted-IsWellFormed : (mask : RangeMask) → IsWellFormed mask → IsWellFormed (inverted mask)
unfolding inverted
inverted-IsWellFormed mask w = record {
  ordered = w.ordered;
  small = w.small;
  separated = gaps-Separated _ _ mask.ranges w.ordered w.separated;
}

pub contains-inverted_all :
    (mask : RangeMask) (x : ℕ)
    → IsWellFormed mask
    → contains (inverted mask) x ≡ not (contains mask x) && within mask.all.0 mask.all.1 x
unfolding inverted
contains-inverted_all mask x w =
    contains-held (inverted mask) x (inverted-IsWellFormed mask w)
    ∙ held-gaps _ _ x mask.ranges w.ordered w.separated
    ∙ ap (λ b. not b && within mask.all.0 mask.all.1 x) (sym (contains-held mask x w))

-- The complement of a well-formed mask is well formed, contains exactly the numbers of the ground range that
-- the mask does not contain, and its complement is the mask again, as a structure.
pub inverted_lem :
    (mask : RangeMask)
    → IsWellFormed mask
    → IsWellFormed (inverted mask)
      × ((x : ℕ)
          → contains (inverted mask) x ≡ not (contains mask x) && within mask.all.0 mask.all.1 x)
      × (inverted (inverted mask) ≡ mask)
unfolding inverted
inverted_lem mask w = (
  inverted-IsWellFormed mask w,
  λ x. contains-inverted_all mask x w,
  ap (λ l. record { all = mask.all; ranges = l }) (gaps-gaps _ _ mask.ranges w.ordered w.separated),
)

all-inverted : (mask : RangeMask) → (inverted mask).all ≡ mask.all
unfolding inverted
all-inverted mask = refl

held_inside : (p q x : ℕ) (l : Ranges) → Separated p q l → held x l ≡ held x l && within p q x
held_inside p q x [] s = refl
held_inside p q x (r ∷ l) s =
    let rest = held_inside p q x l (Separated-le p (suc r.1) q l (omega arith) s.3) in ground arith

-- A well-formed mask contains numbers of its ground range only.
contains_inside :
    (mask : RangeMask) (x : ℕ)
    → IsWellFormed mask
    → contains mask x ≡ contains mask x && within mask.all.0 mask.all.1 x
contains_inside mask x w = rw (contains-held mask x w) (held_inside _ _ x mask.ranges w.separated)

without : (c g m : Bool) → not ((not (c && g) && g) || m) && g ≡ (c && g) && not m
without c g m = ground arith

-- Taking a range inside the ground range from a well-formed mask finishes, no assertion fails, and what is
-- left is well formed and contains what the mask did without the range.
pub difference_lem :
    (mask : RangeMask) (m : Range)
    → IsWellFormed mask
    → mask.all.0 ≤ m.0
    → m.1 ≤ mask.all.1
    → (mask' : RangeMask) × (difference mask m ≡ some mask')
      × IsWellFormed mask'
      × (mask'.all ≡ mask.all)
      × ((x : ℕ) → contains mask' x ≡ contains mask x && not (within m.0 m.1 x))
unfolding difference
difference_lem mask m w a b =
    let w' = inverted-IsWellFormed mask w in
    let (mask', e, w2, same_all, same) =
      union_with_lem (inverted mask) m w' (rw (all-inverted mask) a) (rw (all-inverted mask) b) in
    let ground_range = same_all ∙ all-inverted mask in
    (
      inverted mask',
      rw e refl,
      inverted-IsWellFormed mask' w2,
      all-inverted mask' ∙ ground_range,
      λ x.
          contains-inverted_all mask' x w2
          ∙ (rw (same x, ground_range, contains-inverted_all mask x w)
              (rw (contains_inside mask x w)
                (without (contains mask x) (within mask.all.0 mask.all.1 x) (within m.0 m.1 x)))),
    )
