-- ===== src/Evm/Jumps.antt =====
-- The jump destinations that `optimize` collects, against an account of where instructions begin.
use x_chain.Prelude.{
  ℕ, zero, suc, ◌+◌, ◌-◌, ◌≤◌, ◌<◌, ◌≡◌, ◌↔◌, ap, subst, arith, inl, inr, true, List, [], ◌∷◌, ◌==◌,
  ◌&&◌, get_elem?, length, some, Bool-cases,
}
use x_chain.Evm.Cases.Control.{contains, verify_jump_dest, case_jump}
use x_chain.Evm.State.{Vm, ok}
use x_chain.Evm.Gas.{arg}
use x_chain.Evm.Optimize.{scan_jump_dests, push_data}

-- An instruction begins at the start of the code, and behind an instruction and its push data.
pub data Begins (code : List ℕ) : ℕ → Type 0 where
  first : Begins code 0
  behind :
      {pc : ℕ} (b : ℕ)
      → Begins code pc
      → get_elem? code pc ≡ some b
      → Begins code (pc + 1 + push_data b)

-- the same, in a part of the code before whose first instruction `skip` bytes are passed over
data BeginsAfter : ℕ → List ℕ → ℕ → Type 0 where
  here : {bs : List ℕ} → BeginsAfter 0 bs 0
  pass :
      {skip d : ℕ} (b : ℕ) {bs : List ℕ}
      → BeginsAfter skip bs d
      → BeginsAfter (suc skip) (b ∷ bs) (suc d)
  step :
      {d : ℕ} (b : ℕ) {bs : List ℕ}
      → BeginsAfter (push_data b) bs d
      → BeginsAfter 0 (b ∷ bs) (suc d)

scan_sound :
    (bs : List ℕ) (pc skip d : ℕ)
    → contains (scan_jump_dests bs pc skip) d ≡ true
    → (pc ≤ d) × BeginsAfter skip bs (d - pc) × (get_elem? bs (d - pc) ≡ some 0x5b)
unfolding scan_jump_dests contains
scan_sound [] pc skip d h = ground arith
scan_sound (b ∷ bs) pc (suc skip) d h =
    let (le, begins, at) = scan_sound bs (pc + 1) skip d h in
    let e : d - pc ≡ suc (d - (pc + 1)) = omega arith in
    (omega arith, rw e (pass b begins), rw e at)
scan_sound (b ∷ bs) pc zero d h = elim (Bool-cases (b == 0x5b && d == pc)) [
  | inl same ↦
      let e : d - pc ≡ 0 = ground arith in
      let e1 : b ≡ 0x5b = ground arith in (ground arith, rw e here, rw e (ap some e1))
  | inr other ↦
      let (le, begins, at) = scan_sound bs (pc + 1) (push_data b) d (ground arith) in
      let e : d - pc ≡ suc (d - (pc + 1)) = omega arith in
      (omega arith, rw e (step b begins), rw e at)
]

scan_complete :
    (bs : List ℕ) (pc skip d : ℕ)
    → BeginsAfter skip bs d
    → get_elem? bs d ≡ some 0x5b
    → contains (scan_jump_dests bs pc skip) (pc + d) ≡ true
unfolding scan_jump_dests contains
scan_complete [] pc zero zero here at = cc
scan_complete (b ∷ bs) pc zero zero here at =
    let e : b ≡ 0x5b = cc in let z : pc + 0 ≡ pc = omega arith in ground arith
scan_complete (b ∷ bs) pc (suc skip) (suc d) (pass c begins) at =
    let e : pc + suc d ≡ pc + 1 + d = omega arith in
    rw e (scan_complete bs (pc + 1) skip d begins at)
scan_complete (b ∷ bs) pc zero (suc d) (step c begins) at =
    let e : pc + suc d ≡ pc + 1 + d = omega arith in
    let r = scan_complete bs (pc + 1) (push_data b) d begins at in ground arith
scan_complete [] pc zero (suc d) q at = elim q [ ]
scan_complete [] pc (suc skip) d q at = elim q [ ]
scan_complete (b ∷ bs) pc (suc skip) zero q at = elim q [ ]

tail_at :
    (code : List ℕ) (b : ℕ) (bs : List ℕ) (pc : ℕ)
    → ((j : ℕ) → get_elem? code (pc + j) ≡ get_elem? (b ∷ bs) j)
    → (j : ℕ) → get_elem? code (pc + 1 + j) ≡ get_elem? bs j
tail_at code b bs pc h j = let e : pc + 1 + j ≡ pc + suc j = omega arith in rw e (h (suc j))

elem-lt : (bs : List ℕ) (d b : ℕ) → get_elem? bs d ≡ some b → d < length bs
elem-lt [] d b h = cc
elem-lt (x ∷ bs) zero b h = omega arith
elem-lt (x ∷ bs) (suc d) b h = omega (arith, elem-lt bs d b h)

-- From the suffix that starts at `pc`, of which `skip` bytes are push data, to the whole code.
lift :
    (code bs : List ℕ) (pc skip d : ℕ)
    → ((j : ℕ) → get_elem? code (pc + j) ≡ get_elem? bs j)
    → Begins code (pc + skip)
    → BeginsAfter skip bs d
    → Begins code (pc + d)
lift code bs pc zero zero h p here = p
lift code (b ∷ bs) pc (suc skip) (suc d) h p (pass c q) =
    let e : pc + suc skip ≡ pc + 1 + skip = omega arith in
    let e1 : pc + 1 + d ≡ pc + suc d = omega arith in
    subst (Begins code) e1
      (lift code bs (pc + 1) skip d (tail_at code b bs pc h) (subst (Begins code) e p) q)
lift code (b ∷ bs) pc zero (suc d) h p (step c q) =
    let e : pc + 0 ≡ pc = omega arith in
    let e1 : pc + 1 + d ≡ pc + suc d = omega arith in
    let at : get_elem? code pc ≡ some b = subst (λ k. get_elem? code k ≡ some b) e (h 0) in
    subst (Begins code) e1 (
      lift code bs (pc + 1) (push_data b) d (tail_at code b bs pc h)
        (behind b (subst (Begins code) e p) at) q)
lift code [] pc zero (suc d) h p q = elim q [ ]
lift code [] pc (suc skip) d h p q = elim q [ ]
lift code (b ∷ bs) pc (suc skip) zero h p q = elim q [ ]

pass_all : (k : ℕ) (bs : List ℕ) → k ≤ length bs → BeginsAfter k bs k
pass_all zero bs h = here
pass_all (suc k) [] h = ground arith
pass_all (suc k) (b ∷ bs) h = pass b (pass_all k bs (omega arith))

next_begins :
    (bs : List ℕ) (skip d b : ℕ)
    → BeginsAfter skip bs d
    → get_elem? bs d ≡ some b
    → d + 1 + push_data b ≤ length bs
    → BeginsAfter skip bs (d + 1 + push_data b)
next_begins [] zero zero b here at h = cc
next_begins (c ∷ bs) zero zero b here at h =
    let e : c ≡ b = cc in
    let e1 : 0 + 1 + push_data b ≡ suc (push_data b) = omega arith in
    rw e (rw e1 (step b (pass_all (push_data b) bs (omega arith))))
next_begins (c ∷ bs) (suc skip) (suc d) b (pass c' q) at h =
    let e : suc d + 1 + push_data b ≡ suc (d + 1 + push_data b) = omega arith in
    rw e (pass c (next_begins bs skip d b q at (omega arith)))
next_begins (c ∷ bs) zero (suc d) b (step c' q) at h =
    let e : suc d + 1 + push_data b ≡ suc (d + 1 + push_data b) = omega arith in
    rw e (step c (next_begins bs (push_data c) d b q at (omega arith)))
next_begins [] zero (suc d) b q at h = elim q [ ]
next_begins [] (suc skip) d b q at h = elim q [ ]
next_begins (c ∷ bs) (suc skip) zero b q at h = elim q [ ]

lower : (code : List ℕ) (d : ℕ) → Begins code d → d ≤ length code → BeginsAfter 0 code d
lower code zero first h = here
lower code d (behind {pc} b p at) h = next_begins code 0 pc b (lower code pc p (omega arith)) at h

-- `optimize` collects exactly the positions of the JUMPDEST bytes at which an instruction begins, so
-- none inside the data of a PUSH.
pub scan_jump_dests_iff :
    (code : List ℕ) (d : ℕ)
    → (contains (scan_jump_dests code 0 0) d ≡ true)
      ↔ (Begins code d × (get_elem? code d ≡ some 0x5b))
scan_jump_dests_iff code d = (sound, λ (begins, at). complete begins at)
  where
    at_zero : (j : ℕ) → get_elem? code (0 + j) ≡ get_elem? code j
    at_zero j = let e : 0 + j ≡ j = omega arith in ap (get_elem? code) e

    same : (k : ℕ) → 0 + k ≡ k
    same k = omega arith

    sound :
        contains (scan_jump_dests code 0 0) d ≡ true
        → Begins code d × (get_elem? code d ≡ some 0x5b)
    sound h =
        let (le, q, at) = scan_sound code 0 0 d h in
        let e : d - 0 ≡ d = omega arith in
        let q' = subst (BeginsAfter 0 code) e q in
        (
          subst (Begins code) (same d) (lift code code 0 0 d at_zero first q'),
          subst (λ k. get_elem? code k ≡ some 0x5b) e at,
        )

    complete :
        Begins code d → get_elem? code d ≡ some 0x5b → contains (scan_jump_dests code 0 0) d ≡ true
    complete begins at =
        let lt = elem-lt code d 0x5b at in
        subst (λ k. contains (scan_jump_dests code 0 0) k ≡ true) (same d)
          (scan_complete code 0 0 d (lower code d begins (omega arith)) at)

module _ {W : Type 0} where
  jump_lem :
      (s t : Vm W)
      → case_jump s ≡ ok tt t
      → (contains s.jump_dests (arg s 0) ≡ true) × (t.pc ≡ arg s 0)
  unfolding case_jump verify_jump_dest
  jump_lem s t h = ground arith

  -- A JUMP that is made lands on a JUMPDEST at which an instruction of the source begins, namely the
  -- one on top of the stack, wherever the table of the state is the one made of the source.
  pub jump_lands :
      (source : List ℕ) (s t : Vm W)
      → s.jump_dests ≡ scan_jump_dests source 0 0
      → case_jump s ≡ ok tt t
      → (t.pc ≡ arg s 0) × Begins source t.pc × (get_elem? source t.pc ≡ some 0x5b)
  jump_lands source s t e h =
      let (has, at) = jump_lem s t h in
      let p = (scan_jump_dests_iff source (arg s 0)).0 (rw e at has) in (at, rw at p.0, rw at p.1)
