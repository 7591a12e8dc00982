-- ===== src/Core/RangeMask/Contains.antt =====
-- The lookup of libdevcore/RangeMask.h against the plain reading of the ranges.
use x_chain.Prelude.{
  ℕ, suc, ◌+◌, ◌%◌, ◌≤◌, ◌<◌, ◌≡◌, refl, sym, ◌∙◌, subst, ◌⊎◌, inl, inr, Bool, true, false, ◌&&◌,
  Option, none, some, [], ◌∷◌, arith, ltb, leb, leb→le, Bool-cases, Option-cases,
}
use x_chain.Core.RangeMask.{
  Range, Ranges, RangeMask, upper_bound, before, contains, past, next_from, next, word32, held,
  Separated, IsWellFormed,
}

pub held_below : (x p q : ℕ) (l : Ranges) → x < p → Separated p q l → held x l ≡ false
held_below x p q [] h s = refl
held_below x p q (r ∷ l) h s = rw (held_below x (suc r.1) q l (omega arith) s.3) (ground arith)

pub held_above : (x p q : ℕ) (l : Ranges) → q ≤ x → Separated p q l → held x l ≡ false
held_above x p q [] h s = refl
held_above x p q (r ∷ l) h s = rw (held_above x (suc r.1) q l h s.3) (ground arith)

pub before_none : (i p q : ℕ) (l : Ranges) → i < p → Separated p q l → before i l ≡ none
unfolding before
before_none i p q [] h s = refl
before_none i p q (r ∷ l) h s = ground arith

abbrev in_it : ℕ → Option Range → Bool
in_it x none = false
in_it x (some it) = ltb x it.1

in_it-before : (x p q : ℕ) (l : Ranges) → Separated p q l → in_it x (before x l) ≡ held x l
unfolding before
in_it-before x p q [] s = refl
in_it-before x p q (r ∷ l) s = elim (Bool-cases (ltb r.1 x)) [
  | inl e ↦
      let same = in_it-before x (suc r.1) q l s.3 in
      elim (Option-cases (before x l)) [
        | inl f ↦ let low : false ≡ held x l = rw f at same in rw f (ground arith)
        | inr (it, f) ↦ let low : ltb x it.1 ≡ held x l = rw f at same in rw f (ground arith)
      ]
  | inr e ↦
      rw
        (
          held_below x (suc r.1) q l (ground arith) s.3,
          before_none x (suc r.1) q l (ground arith) s.3,
        )
        (ground arith)
]

pub contains-held :
    (mask : RangeMask) (x : ℕ) → IsWellFormed mask → contains mask x ≡ held x mask.ranges
unfolding contains
contains-held mask x w =
    rw (← in_it-before x _ _ mask.ranges w.separated)
      (elim (before x mask.ranges) [ none ↦ refl | some it ↦ refl ])

-- The first number from `t` on that the ranges hold, or `q`.
abbrev Next : (q t : ℕ) → Ranges → ℕ → Type 0
Next q t l n =
    (t ≤ n) × (n ≤ q) × ((x : ℕ) → t ≤ x → x < n → held x l ≡ false) × ((n ≡ q) ⊎ (held n l ≡ true))

next_from_cons :
    (t q : ℕ) (r : Range) (l : Ranges)
    → r.0 < r.1
    → r.1 ≤ t
    → next_from t (before t (r ∷ l)) (past q (upper_bound t (r ∷ l)))
      ≡ next_from t (before t l) (past q (upper_bound t l))
unfolding before upper_bound next_from
next_from_cons t q r l n h = elim (Option-cases (before t l)) [
  | inl e ↦ rw e (ground arith)
  | inr (it, e) ↦ rw e (ground arith)
]

Next-cons : (q t n : ℕ) (r : Range) (l : Ranges) → r.1 ≤ t → Next q t l n → Next q t (r ∷ l) n
Next-cons q t n r l h (a, b, c, d) = (
  a,
  b,
  λ x f g. rw (c x f g) (ground arith),
  elim d [ inl e ↦ inl e | inr e ↦ inr (rw e (ground arith)) ],
)

next_from-Next :
    (t p q : ℕ) (l : Ranges)
    → t ≤ q
    → Separated p q l
    → Next q t l (next_from t (before t l) (past q (upper_bound t l)))
unfolding before upper_bound past next_from
next_from-Next t p q [] h s = (h, omega arith, λ x a b. refl, inl refl)
next_from-Next t p q (r ∷ l) h s = elim (Bool-cases (leb r.1 t)) [
  | inl e ↦
      subst (Next q t (r ∷ l)) (sym (next_from_cons t q r l s.1 (leb→le _ _ e)))
        (Next-cons q t _ r l (leb→le _ _ e) (next_from-Next t (suc r.1) q l h s.3))
  | inr e ↦ rw (before_none t (suc r.1) q l (ground arith) s.3) (elim (Bool-cases (ltb t r.0)) [
    | inl f ↦ rw f (
        ground (
          arith,
          λ (x : ℕ) (a : t ≤ x) (b : x < r.0). held_below x (suc r.1) q l (omega arith) s.3,
        ))
    | inr f ↦ rw f (ground arith)
  ])
]

-- On a well-formed mask, `next` of a number below the end of the ground range goes up, stays inside
-- the ground range, skips no number that the mask contains, and ends at a contained number or at the end.
pub next_lem :
    (mask : RangeMask) (t x : ℕ)
    → IsWellFormed mask
    → t < mask.all.1
    → (t < next mask t)
      × (next mask t ≤ mask.all.1)
      × (contains mask x && ltb t x && ltb x (next mask t) ≡ false)
      × ((next mask t ≡ mask.all.1) ⊎ (contains mask (next mask t) ≡ true))
unfolding next
next_lem mask t x w h =
    let small : (t + 1) % word32 ≡ suc t = omega (arith, w.small) in
    let (a, b, c, d) = next_from-Next (suc t) _ _ mask.ranges h w.separated in
    let skipped = c x in
    rw small (
      a,
      b,
      rw (contains-held mask x w) (ground arith),
      elim d [ inl e ↦ inl e | inr e ↦ inr (contains-held mask _ w ∙ e) ],
    )
