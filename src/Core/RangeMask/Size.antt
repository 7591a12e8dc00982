-- ===== src/Core/RangeMask/Size.antt =====
-- `size` and `lowest` of libdevcore/RangeMask.h: how many numbers a mask contains.
use x_chain.Prelude.{
  ℕ, zero, suc, ◌+◌, ◌-◌, ◌^◌, ◌≤◌, ◌<◌, ◌≡◌, refl, sym, inl, inr, Bool, true, false, [], ◌∷◌,
  arith, ltb, ◌==◌, ==_iff, Bool-cases,
}
use x_chain.Core.RangeMask.{
  Range, Ranges, RangeMask, contains, size_of, size, word32, held, Separated, IsWellFormed,
}
use x_chain.Core.RangeMask.Contains.{contains-held, held_below}

abbrev pub one_if : Bool → ℕ
one_if true = 1
one_if false = 0

-- How many of the `n` numbers from `p` on a test accepts.
abbrev pub count : (ℕ → Bool) → ℕ → ℕ → ℕ
count f p zero = 0
count f p (suc n) = one_if (f p) + count f (suc p) n

count_ext : (f g : ℕ → Bool) (p n : ℕ) → ((x : ℕ) → p ≤ x → f x ≡ g x) → count f p n ≡ count g p n
count_ext f g p zero h = refl
count_ext f g p (suc n) h =
    rw (h p (omega arith), count_ext f g (suc p) n (λ x a. h x (omega arith))) refl

count-false : (f : ℕ → Bool) (p n : ℕ) → ((x : ℕ) → f x ≡ false) → count f p n ≡ 0
count-false f p zero h = refl
count-false f p (suc n) h = rw (h p, count-false f (suc p) n h) refl

count-le : (f : ℕ → Bool) (p n : ℕ) → count f p n ≤ n
count-le f p zero = omega arith
count-le f p (suc n) = let rest = count-le f (suc p) n in ground arith

size_of_pair :
    (r : Range) (l : Ranges) → r.0 < r.1 → r.1 < word32 → size_of (r ∷ l) ≡ (r.1 - r.0) + size_of l
unfolding size_of
size_of_pair r l h s = omega arith

held_tail : (x p : ℕ) (r : Range) (l : Ranges) → r.1 ≤ p → p ≤ x → held x (r ∷ l) ≡ held x l
held_tail x p r l a b = ground arith

held_shrunk :
    (x : ℕ) (r : Range) (l : Ranges) → suc r.0 ≤ x → held x (r ∷ l) ≡ held x ((suc r.0, r.1) ∷ l)
held_shrunk x r l a = ground arith

Separated-lower : (p q : ℕ) (l : Ranges) → Separated (suc p) q l → Separated p q l
Separated-lower p q [] s = s
Separated-lower p q (r ∷ l) s = ground arith

count-held :
    (n p q : ℕ) (l : Ranges)
    → p + n ≡ q
    → q < word32
    → Separated p q l
    → count (λ x. held x l) p n ≡ size_of l
unfolding size_of
count-held n p q [] e h s = count-false (λ x. false) p n (λ x. refl)
count-held zero p q (r ∷ l) e h s = absurd (omega (arith, s))
count-held (suc n) p q (r ∷ l) e h s = elim (Bool-cases (ltb p r.0)) [
  | inl f ↦
      let rest = count-held n (suc p) q (r ∷ l) (omega arith) h (ground arith) in
      rw (held_below p (suc r.1) q l (ground arith) s.3) (ground arith)
  | inr f ↦ elim (Bool-cases (r.1 == suc p)) [
    | inl g ↦
        let rest =
          count-held n (suc p) q l (omega arith) h (Separated-lower (suc p) q l (ground arith)) in
        let same =
          count_ext (λ x. held x (r ∷ l)) (λ x. held x l) (suc p) n
            (λ x a. held_tail x (suc p) r l (ground arith) a) in
        let here : one_if (held p (r ∷ l)) ≡ 1 = ground arith in
        rw (here, same, rest) (omega (arith, (==_iff r.1 (suc p)).0 g))
    | inr g ↦
        let rest = count-held n (suc p) q ((suc r.0, r.1) ∷ l) (omega arith) h (ground arith) in
        let same =
          count_ext (λ x. held x (r ∷ l)) (λ x. held x ((suc r.0, r.1) ∷ l)) (suc p) n
            (λ x a. held_shrunk x r l (ground arith)) in
        let here : one_if (held p (r ∷ l)) ≡ 1 = ground arith in
        rw (here, same, rest) (ground arith)
  ]
]

-- The size of a well-formed mask is the number of elements of the ground range that it contains.
pub size_lem :
    (mask : RangeMask)
    → IsWellFormed mask
    → size mask ≡ count (contains mask) mask.all.0 (mask.all.1 - mask.all.0)
unfolding size
size_lem mask w =
    let all =
      count-held (mask.all.1 - mask.all.0) mask.all.0 mask.all.1 mask.ranges
        (omega (arith, w.ordered)) w.small w.separated in
    let same =
      count_ext (contains mask) (λ x. held x mask.ranges) mask.all.0 (mask.all.1 - mask.all.0)
        (λ x a. contains-held mask x w) in
    let small : size_of mask.ranges < 2 ^ 64 = omega (
      arith,
      w.small,
      sym all,
      count-le (λ x. held x mask.ranges) mask.all.0 (mask.all.1 - mask.all.0),
    ) in
    rw same (omega (arith, small, all))
