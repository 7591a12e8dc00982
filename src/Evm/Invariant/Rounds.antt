-- ===== src/Evm/Invariant/Rounds.antt =====
-- Every round of the interpreter keeps the well-formedness of the state.
use x_chain.Prelude.{
  ℕ, ◌+◌, ◌%◌, ◌<◌, ◌≤◌, ◌≡◌, ◌⊎◌, ◌≢◌, refl, sym, ap, subst, ◌∙◌, arith, length, length-append,
  length-replicate, get_or, inl, inr, true, List, ◌++◌, replicate, ltb, Bool-cases,
}
use x_chain.Evm.Instruction.{Instruction, decode, stop, instruction_info}
use x_chain.Evm.State.{
  ExtVmFace, Vm, ok, Bounce, init_entry, interpret_cases, case_create, case_call, halted, stack_end,
}
use x_chain.Evm.Gas.{fetch_instruction, adjust_stack, to_int63}
use x_chain.Evm.Stack.{adjust_stack_ok}
use x_chain.Evm.Growth.{after}
use x_chain.Evm.Cases.Control.{contains}
use x_chain.Evm.Optimize.{optimize, scan_jump_dests, bar_synthetic}
use x_chain.Evm.Interpreter.{interpret_case, interpret_step, bounce_step, enter}
use x_chain.Evm.Invariant.Layout.{
  length-bar_synthetic, contains-scan_jump_dests, get_or-behind, push_width, push_width-decode,
}
use x_chain.Evm.Invariant.Cases.{case-Kept, create-Kept, slack}
use x_chain.Evm.Invariant.Calls.{call_case-Called}

module _ {W : Type 0} where
  -- The code of `source` has been laid out, and a run that goes on stands inside it.
  pub record IsEntered (source : List ℕ) (s : Vm W) : Type 0 where
    pub begun : s.bounce ≢ init_entry
    pub code : s.code ≡ bar_synthetic source 0 ++ replicate 33 0
    pub jump_dests : s.jump_dests ≡ scan_jump_dests source 0 0
    pub inside : (s.bounce ≡ halted) ⊎ (s.pc + slack s.bounce < length s.code)

  fetch_lem :
      (s t : Vm W)
      → s.spp ≤ stack_end
      → fetch_instruction s ≡ ok tt t
      → (t.op ≡ decode (get_or s.code s.pc 0))
        × (t.spp ≤ stack_end)
        × (t.pc ≡ s.pc)
        × (t.code ≡ s.code)
        × (t.jump_dests ≡ s.jump_dests)
        × (t.mem ≡ s.mem)
        × (t.bounce ≡ s.bounce)
  unfolding fetch_instruction to_int63
  fetch_lem s t k h =
      let m = instruction_info (decode (get_or s.code s.pc 0)) in
      let s0 : Vm W = record s { op = decode (get_or s.code s.pc 0) } in
      after (adjust_stack m.args m.ret s0) _ h
        λ u s1 e h1. let (same, lo, hi) = adjust_stack_ok m.args m.ret s0 s1 k e in ground arith

module _ {W : Type 0} (face : ExtVmFace W) where
  -- The stack pointer lies in the stack, the memory is a whole number of words, and the code of the
  -- world is still to be laid out or has been.
  pub record IsWellFormed (source : List ℕ) (s : Vm W) : Type 0 where
    pub stack : s.spp ≤ stack_end
    pub words : length s.mem % 32 ≡ 0
    pub entered : ((s.bounce ≡ init_entry) × (face.code s.ext ≡ source)) ⊎ IsEntered source s

  stop_halts : (s t : Vm W) → interpret_case face stop s ≡ ok tt t → t.bounce ≡ halted
  unfolding interpret_case
  stop_halts s t h = ground arith

  pub length-code :
      (source : List ℕ) (s : Vm W) → IsEntered source s → length s.code ≡ length source + 33
  length-code source s e = rw e.code (
      length-append (bar_synthetic source 0) (replicate 33 0)
      ∙ ap (λ n. n + 33) (length-bar_synthetic source 0))

  -- behind the source there are only STOP instructions
  stands_in :
      (source : List ℕ) (s t : Vm W) (i : Instruction)
      → i ≡ decode (get_or s.code s.pc 0)
      → IsEntered source s
      → interpret_case face i s ≡ ok tt t
      → (t.bounce ≡ halted) ⊎ (s.pc < length source)
  unfolding decode
  stands_in source s t i d e h = elim (Bool-cases (ltb s.pc (length source))) [
    | inl low ↦ inr (ground arith)
    | inr high ↦ inl (
        let z : get_or s.code s.pc 0 ≡ 0 = rw e.code (
          get_or-behind (bar_synthetic source 0) 33 s.pc
            (ground (arith, length-bar_synthetic source 0))) in
        let q : i ≡ stop = d ∙ ap decode z in
        stop_halts s t (subst (λ j. interpret_case face j s ≡ ok tt t) q h))
  ]

  -- where a round of the switch goes on
  goes_on :
      (source : List ℕ) (i : Instruction) (s t : Vm W)
      → s.bounce ≡ interpret_cases
      → i ≡ decode (get_or s.code s.pc 0)
      → IsEntered source s
      → interpret_case face i s ≡ ok tt t
      → (t.bounce ≡ halted) ⊎ (t.pc + slack t.bounce < length source + 33)
  goes_on source i s t b d e h = elim (stands_in source s t i d e h) [
    | inl end ↦ inl end
    | inr low ↦
        moved source i s t b
          (subst (λ j. push_width j ≤ 32) (sym d) (push_width-decode (get_or s.code s.pc 0))) low e
          (case-Kept face i s t h).moves
  ]
    where
      moved :
          (source : List ℕ) (i : Instruction) (s t : Vm W)
          → s.bounce ≡ interpret_cases
          → push_width i ≤ 32
          → s.pc < length source
          → IsEntered source s
          → (t.bounce ≡ halted)
            ⊎ (t.pc + slack t.bounce ≤ s.pc + slack s.bounce + 1 + push_width i)
            ⊎ ((contains s.jump_dests t.pc ≡ true) × (t.bounce ≡ s.bounce))
          → (t.bounce ≡ halted) ⊎ (t.pc + slack t.bounce < length source + 33)
      moved source i s t b w low e (inl end) = inl end
      moved source i s t b w low e (inr (inl near)) = inr (ground arith)
      moved source i s t b w low e (inr (inr (dest, same))) =
          inr (ground (arith, contains-scan_jump_dests source 0 0 t.pc (rw e.jump_dests at dest)))

  interpret_well :
      (source : List ℕ) (s t : Vm W)
      → s.bounce ≡ interpret_cases
      → IsWellFormed source s
      → IsEntered source s
      → interpret_step face s ≡ ok tt t
      → IsWellFormed source t
  unfolding interpret_step
  interpret_well source s t b w e h =
      after (fetch_instruction s) (λ _ u. interpret_case face u.op u) h
        λ a u f h1.
          let (op, spp, pc, code, dests, mem, same) = fetch_lem s u w.stack f in
          let c = case-Kept face u.op u t h1 in
          let e' : IsEntered source u = record {
            begun = λ z. e.begun (sym same ∙ z);
            code = code ∙ e.code;
            jump_dests = dests ∙ e.jump_dests;
            inside = ground (arith, e.inside);
          } in
          let at : u.op ≡ decode (get_or u.code u.pc 0) = cc in
          let on = goes_on source u.op u t (same ∙ b) at e' h1 in
          record {
            stack = ground (arith, c.spp);
            words = c.words (ap (λ m. length m % 32) mem ∙ w.words);
            entered = inr (record {
              begun = c.begun e'.begun;
              code = c.code ∙ e'.code;
              jump_dests = c.jump_dests ∙ e'.jump_dests;
              inside = elim on [
                | inl end ↦ inl end
                | inr low ↦ inr (omega (arith, low, ap length c.code, length-code source u e'))
              ];
            });
          }

  enter_well :
      (source : List ℕ) (s t : Vm W)
      → s.bounce ≡ init_entry
      → IsWellFormed source s
      → enter face s ≡ ok tt t
      → IsWellFormed source t
  unfolding enter optimize
  enter_well source s t b w h = elim w.entered [
    | inl (first, e) ↦ record {
      stack = ground (arith, w.stack);
      words = ground (arith, w.words);
      entered = inr (record {
        begun = ground arith;
        code = ground arith;
        jump_dests = ground arith;
        inside = inr (
            ground (
              arith,
              length-append (bar_synthetic (face.code s.ext) 0) (replicate 33 0),
              length-replicate {A = ℕ} 33 0,
            ));
      });
    }
    | inr e ↦ absurd (e.begun b)
  ]

  call_out_well :
      (source : List ℕ) (s t : Vm W)
      → IsWellFormed source s
      → IsEntered source s
      → s.bounce ≢ halted
      → slack s.bounce ≡ 1
      → t.bounce ≡ interpret_cases
      → t.pc ≡ s.pc + 1
      → t.code ≡ s.code
      → t.jump_dests ≡ s.jump_dests
      → t.spp ≡ s.spp
      → length t.mem % 32 ≡ 0
      → IsWellFormed source t
  call_out_well source s t w e n o b p c j k m = record {
    stack = ground (arith, w.stack);
    words = m;
    entered = inr (record {
      begun = ground arith;
      code = c ∙ e.code;
      jump_dests = j ∙ e.jump_dests;
      inside = ground (arith, e.inside, ap length c);
    });
  }

  pub round_well :
      (source : List ℕ) (b : Bounce) (s t : Vm W)
      → s.bounce ≡ b
      → IsWellFormed source s
      → bounce_step face b s ≡ ok tt t
      → IsWellFormed source t
  unfolding bounce_step
  round_well source init_entry s t b w h = enter_well source s t b w h
  round_well source interpret_cases s t b w h = elim w.entered [
    | inl first ↦ absurd (cc (b, first.0))
    | inr e ↦ interpret_well source s t b w e h
  ]
  round_well source case_create s t b w h = elim w.entered [
    | inl first ↦ absurd (cc (b, first.0))
    | inr e ↦
        let (tb, tp, k) = create-Kept face s t b h in
        call_out_well source s t w e (ground arith) (rw b refl) tb tp k.code k.jump_dests k.spp
          (k.words w.words)
  ]
  round_well source case_call s t b w h = elim w.entered [
    | inl first ↦ absurd (cc (b, first.0))
    | inr e ↦
        let k = call_case-Called face s t h in
        call_out_well source s t w e (ground arith) (rw b refl) k.bounce k.pc k.code k.jump_dests
          k.spp (k.words w.words)
  ]
  round_well source halted s t b w h = subst (IsWellFormed source) (ground arith) w
