-- ===== src/Core/RangeMask/Rounds.antt =====
-- One round of the loop in `unionWith` of libdevcore/RangeMask.h.
use x_chain.Prelude.{
  ℕ, suc, ◌≤◌, ◌<◌, ◌≡◌, refl, inl, inr, ◌||◌, Option, none, some, [], ◌∷◌, arith, ltb, ltb→lt,
  Bool-cases, Option-cases,
}
use x_chain.Core.RangeMask.{
  Range, Ranges, upper_bound, before, assign, erase, Round, apart, touching, round_at, round,
  within, held, Separated,
}
use x_chain.Core.RangeMask.Contains.{before_none}

-- What a round promises: below `end` it adds the numbers from `i` on, now or in the rounds to come.
abbrev pub Promised : (p q end i : ℕ) → Ranges → Round → Type 0
Promised p q end i l (Round.breaks l') =
    Separated p q l' × ((x : ℕ) → held x l' ≡ held x l || within i end x)
Promised p q end i l (Round.goes_on i' l') =
    (i < i')
    × Separated p q l'
    × ((x : ℕ) → (held x l' || within i' end x) ≡ (held x l || within i end x))

abbrev behind : Range → Round → Round
behind r (Round.breaks l) = Round.breaks (r ∷ l)
behind r (Round.goes_on i l) = Round.goes_on i (r ∷ l)

before_le :
    (i p q : ℕ) (l : Ranges) (it : Range)
    → Separated p q l
    → before i l ≡ some it
    → (p ≤ it.0) × (it.0 ≤ i)
unfolding before
before_le i p q [] it s h = cc
before_le i p q (r ∷ l) it s h = elim (Option-cases (before i l)) [
  | inl e ↦ ground arith
  | inr (b, e) ↦ let (low, high) = before_le i (suc r.1) q l b s.3 e in ground arith
]

upper_bound-lt : (i : ℕ) (l : Ranges) (a : Range) → upper_bound i l ≡ some a → i < a.0
unfolding upper_bound
upper_bound-lt i [] a h = cc
upper_bound-lt i (r ∷ l) a h = ground (arith, upper_bound-lt i l a)

assign_cons : (k v : ℕ) (r : Range) (l : Ranges) → r.0 < k → assign k v (r ∷ l) ≡ r ∷ assign k v l
unfolding assign
assign_cons k v r l h = ground arith

erase_cons : (k : ℕ) (r : Range) (l : Ranges) → r.0 < k → erase k (r ∷ l) ≡ r ∷ erase k l
unfolding erase
erase_cons k r l h = ground arith

module _ (end i : ℕ) (r : Range) (l : Ranges) (n : r.0 < r.1) (h : r.1 < i) where
  apart_cons :
      (after : Option Range)
      → ((a : Range) → after ≡ some a → i < a.0)
      → apart end i (r ∷ l) after ≡ behind r (apart end i l after)
  unfolding apart
  apart_cons none g = rw (assign_cons i end r l (omega arith)) refl
  apart_cons (some a) g =
      let above = g a refl in
      rw
        (
          assign_cons i end r l (omega arith),
          assign_cons i a.1 r l (omega arith),
          erase_cons a.0 r (assign i a.1 l) (omega arith),
        )
        (ground arith)

  touching_cons :
      (it : Range) (after : Option Range)
      → r.1 < it.0
      → it.0 ≤ i
      → ((a : Range) → after ≡ some a → i < a.0)
      → touching end it (r ∷ l) after ≡ behind r (touching end it l after)
  unfolding touching
  touching_cons it none h' b g = rw (assign_cons it.0 end r l (omega arith)) refl
  touching_cons it (some a) h' b g =
      let above = g a refl in
      rw
        (
          assign_cons it.0 end r l (omega arith),
          assign_cons it.0 a.1 r l (omega arith),
          erase_cons a.0 r (assign it.0 a.1 l) (omega arith),
        )
        (ground arith)

  upper_bound_cons : upper_bound i (r ∷ l) ≡ upper_bound i l
  unfolding upper_bound
  upper_bound_cons = ground arith

  before_cons_none : before i l ≡ none → before i (r ∷ l) ≡ some r
  unfolding before
  before_cons_none e = rw e (ground arith)

  before_cons_some : (it : Range) → before i l ≡ some it → before i (r ∷ l) ≡ some it
  unfolding before
  before_cons_some it e = rw e (ground arith)

  -- A range that ends before `i` is not touched.
  round_cons :
      (q : ℕ) → Separated (suc r.1) q l → i < end → round end i (r ∷ l) ≡ behind r (round end i l)
  unfolding round round_at
  round_cons q s e =
      let above = upper_bound-lt i l in
      elim (Option-cases (before i l)) [
        | inl none_before ↦
            rw (before_cons_none none_before, none_before, upper_bound_cons)
              (ground (arith, apart_cons (upper_bound i l) above))
        | inr (it, found) ↦
            let (low, high) = before_le i (suc r.1) q l it s found in
            rw (before_cons_some it found, found, upper_bound_cons)
              (ground (
                arith,
                apart_cons (upper_bound i l) above,
                touching_cons it (upper_bound i l) (omega arith) high above,
              ))
      ]

behind-Promised :
    (p q end i : ℕ) (r : Range) (l : Ranges) (o : Round)
    → p ≤ r.0
    → r.0 < r.1
    → r.1 ≤ q
    → Promised (suc r.1) q end i l o
    → Promised p q end i (r ∷ l) (behind r o)
behind-Promised p q end i r l (Round.breaks l') a b c (s, same) =
    ((a, b, c, s), λ x. rw (same x) (ground arith))
behind-Promised p q end i r l (Round.goes_on i' l') a b c (up, s, same) =
    (up, (a, b, c, s), λ x. let e = same x in ground arith)

round_in_gap :
    (p q end i : ℕ) (r : Range) (l : Ranges)
    → p ≤ i
    → i < end
    → end ≤ q
    → i < r.0
    → Separated p q (r ∷ l)
    → Promised p q end i (r ∷ l) (round end i (r ∷ l))
unfolding round round_at apart before upper_bound assign erase
round_in_gap p q end i r l a b c d s = ground arith

round_on :
    (p q end i : ℕ) (r : Range) (l : Ranges)
    → p ≤ i
    → i < end
    → end ≤ q
    → r.0 ≤ i
    → i ≤ r.1
    → Separated p q (r ∷ l)
    → Promised p q end i (r ∷ l) (round end i (r ∷ l))
unfolding round round_at touching before upper_bound assign erase
round_on p q end i r [] a b c d f s = ground arith
round_on p q end i r (t ∷ l) a b c d f s =
    rw (before_none i (suc r.1) q (t ∷ l) (omega arith) s.3) (ground arith)

pub round-Promised :
    (p q end i : ℕ) (l : Ranges)
    → p ≤ i
    → i < end
    → end ≤ q
    → Separated p q l
    → Promised p q end i l (round end i l)
unfolding round round_at apart before upper_bound assign
round-Promised p q end i [] a b c s = ground arith
round-Promised p q end i (r ∷ l) a b c s = elim (Bool-cases (ltb r.1 i)) [
  | inl e ↦ rw (round_cons end i r l s.1 (ltb→lt _ _ e) q s.3 b) (
      behind-Promised p q end i r l (round end i l) s.0 s.1 s.2
        (round-Promised (suc r.1) q end i l (ltb→lt _ _ e) b c s.3))
  | inr e ↦ elim (Bool-cases (ltb i r.0)) [
    | inl f ↦ round_in_gap p q end i r l a b c (ground arith) s
    | inr f ↦ round_on p q end i r l a b c (ground arith) (ground arith) s
  ]
]
