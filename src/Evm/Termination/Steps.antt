-- ===== src/Evm/Termination/Steps.antt =====
-- Every round of the trampoline that does not end the run leaves a smaller budget.
use x_chain.Prelude.{
  ℕ, zero, suc, ◌+◌, ◌*◌, ◌%◌, ◌^◌, ◌<◌, ◌≡◌, ◌≢◌, ◌∙◌, refl, sym, subst, inl, inr, Option, some,
  Bool, true, none, arith, get_or,
}
use x_chain.Evm.Instruction.{
  Instruction, instruction_info, tier_index, stop, mload, mstore, mstore8, return, revert, sha3,
  log, exp, calldatacopy, codecopy, extcodecopy,
}
use x_chain.Evm.State.{
  ExtVmFace, Vm, ok, throw, Outcome, Bounce, init_entry, interpret_cases, case_create, case_call,
  halted,
}
use x_chain.Evm.Termination.Topics.{HasTopics, decode-HasTopics, exp_price, log_price}
use x_chain.Evm.Gas.{arg, fetch_instruction}
use x_chain.Evm.Growth.{after}
use x_chain.Evm.Interpreter.{
  interpret_case, interpret_step, bounce_step, enter, trampoline, start, exec,
}
use x_chain.Evm.Schedule.{EvmSchedule}
use x_chain.Evm.Termination.Budget.{IsPriced, Progress, budget, ready}
use x_chain.Evm.Termination.Growing.{
  mload-Progress, mstore-Progress, mstore8-Progress, return-Progress, revert-Progress,
  sha3-Progress, log-Progress, calldatacopy-Progress, codecopy-Progress, extcodecopy-Progress,
}
use x_chain.Evm.Termination.Calling.{IsFrugal, create-Progress, call-Progress}

module _ {W : Type 0} (face : ExtVmFace W) where
  case-Progress :
      (i : Instruction) (s t : Vm W)
      → IsPriced s.schedule
      → s.run_gas
        ≡ get_or s.schedule.tier_step_gas (tier_index (instruction_info i).tier) s.schedule.exp_gas
      → s.run_gas < 2 ^ 63
      → s.copy_mem_size ≡ 0
      → s.bounce ≡ interpret_cases
      → HasTopics i
      → interpret_case face i s ≡ ok tt t
      → Progress s t
  unfolding interpret_case instruction_info tier_index
  case-Progress stop s t p r m c b k h = ground arith
  case-Progress mload s t p r m c b k h =
      mload-Progress s t (omega (arith, p.very_low_tier)) (omega (arith, p.very_low_unsigned)) c h
  case-Progress mstore s t p r m c b k h =
      mstore-Progress s t (omega (arith, p.very_low_tier)) (omega (arith, p.very_low_unsigned)) c h
  case-Progress mstore8 s t p r m c b k h =
      mstore8-Progress s t (omega (arith, p.very_low_tier)) (omega (arith, p.very_low_unsigned)) c h
  case-Progress return s t p r m c b k h = return-Progress s t m h
  case-Progress revert s t p r m c b k h = revert-Progress s t m h
  case-Progress sha3 s t p r m c b k h = sha3-Progress face s t p.sha3 c h
  case-Progress (log n) s t p r m c b k h =
      log-Progress face n s t (log_price s.schedule n p (ground arith)) c h
  case-Progress calldatacopy s t p r m c b k h =
      calldatacopy-Progress face s t (omega (arith, p.very_low_tier))
        (omega (arith, p.very_low_unsigned)) p.copy b h
  case-Progress codecopy s t p r m c b k h =
      codecopy-Progress face s t (omega (arith, p.very_low_tier))
        (omega (arith, p.very_low_unsigned)) p.copy b h
  case-Progress extcodecopy s t p r m c b k h =
      extcodecopy-Progress face s t p.extcodecopy p.extcodecopy_unsigned p.copy b h
  case-Progress exp s t p r m c b k h = let price = exp_price s.schedule (arg s 1) p in ground arith
  case-Progress _ s t p r m c b k h = ground arith

  fetch_lem :
      (s t : Vm W)
      → fetch_instruction s ≡ ok tt t
      → (t.run_gas
          ≡ get_or t.schedule.tier_step_gas
              (tier_index (instruction_info t.op).tier)
              t.schedule.exp_gas)
        × (t.run_gas < 2 ^ 63)
        × (t.copy_mem_size ≡ 0)
        × (t.bounce ≡ s.bounce)
        × (t.io_gas ≡ s.io_gas)
        × (t.schedule ≡ s.schedule)
        × HasTopics t.op
  unfolding fetch_instruction
  fetch_lem s t h = let few = decode-HasTopics (get_or s.code s.pc 0) in ground arith

  Progress-trans :
      (s u t : Vm W)
      → u.bounce ≡ s.bounce
      → u.io_gas ≡ s.io_gas
      → u.schedule ≡ s.schedule
      → Progress u t
      → Progress s t
  Progress-trans s u t b g q p = ground arith

  interpret-Progress :
      (s t : Vm W)
      → IsPriced s.schedule
      → s.bounce ≡ interpret_cases
      → interpret_step face s ≡ ok tt t
      → Progress s t
  unfolding interpret_step
  interpret-Progress s t p b h =
      after (fetch_instruction s) (λ _ u. interpret_case face u.op u) h
        λ a u e h1.
          let (r, m, c, b', g, q, few) = fetch_lem s u e in
          let p' : IsPriced u.schedule = rw q p in
          Progress-trans s u t b' g q (case-Progress u.op u t p' r m c (b' ∙ b) few h1)

  enter-Progress : (s t : Vm W) → s.bounce ≡ init_entry → enter face s ≡ ok tt t → Progress s t
  unfolding enter
  enter-Progress s t b h = ground arith

-- A round that halts ends the run, and so do the rounds behind one that does not.
halt_ends :
    {A : Type 0} (b c : Bounce) (a : A) (rest : Option A)
    → c ≡ b
    → (c ≢ halted → rest ≢ none)
    → elim b [ halted ↦ some a | _ ↦ rest ] ≢ none
halt_ends halted c a rest e k = λ h. cc
halt_ends init_entry c a rest e k = k (λ h. cc)
halt_ends interpret_cases c a rest e k = k (λ h. cc)
halt_ends case_create c a rest e k = k (λ h. cc)
halt_ends case_call c a rest e k = k (λ h. cc)

round_ends :
    {S : Type 0} (o : Outcome (Vm S) (Unit {0})) (f : Vm S → Option (Outcome (Vm S) (Unit {0})))
    → ((u : Unit {0}) (t : Vm S) → o ≡ ok u t → t.bounce ≢ halted → f t ≢ none)
    → elim o [
      | throw e t ↦ some (throw e t)
      | ok u t ↦ elim t.bounce [ halted ↦ some (ok tt t) | _ ↦ f t ]
    ]
      ≢ none
round_ends (throw e t) f k = λ h. cc
round_ends (ok u t) f k = halt_ends t.bounce t.bounce (ok tt t) (f t) refl (k u t refl)

module _ {W : Type 0} (face : ExtVmFace W) (frugal : IsFrugal face) where
  pub bounce-Progress :
      (b : Bounce) (s t : Vm W)
      → s.bounce ≡ b
      → IsPriced s.schedule
      → s.io_gas < 2 ^ 64
      → ready s ≡ true
      → bounce_step face b s ≡ ok tt t
      → Progress s t
  unfolding bounce_step
  bounce-Progress init_entry s t b p g r h = enter-Progress face s t b h
  bounce-Progress interpret_cases s t b p g r h = interpret-Progress face s t p b h
  bounce-Progress case_create s t b p g r h = create-Progress face frugal s t p g b (ground arith) h
  bounce-Progress case_call s t b p g r h = call-Progress face frugal s t p g b (ground arith) h
  bounce-Progress halted s t b p g r h = ground arith

  trampoline_ends :
      (fuel : ℕ) (s : Vm W)
      → IsPriced s.schedule
      → s.io_gas < 2 ^ 64
      → ready s ≡ true
      → budget s < fuel
      → trampoline face fuel s ≢ none
  unfolding trampoline
  trampoline_ends zero s p g r b = elim b [ ]
  trampoline_ends (suc fuel) s p g r b =
      round_ends (bounce_step face s.bounce s) (trampoline face fuel) (λ u t e live.
        let q = bounce-Progress s.bounce s t refl p g r e in
        trampoline_ends fuel t (subst IsPriced (sym q.schedule) p) (omega (arith, q.gas, g))
          q.stays_ready (elim q.less [ inl end ↦ absurd (live end) | inr less ↦ omega arith ]))

  -- A run whose fuel is more than two rounds for each unit of gas, and two, ends: it returns or
  -- throws. The schedule has to charge for every instruction, and the world must not give back more
  -- gas than it was offered.
  pub exec_ends :
      (fuel io_gas : ℕ) (ext : W) (has_on_op : Bool) (schedule : EvmSchedule) (garbage : ℕ → ℕ)
      → IsPriced schedule
      → 2 * (io_gas % 2 ^ 64) + 2 < fuel
      → exec face fuel io_gas ext has_on_op schedule garbage ≢ none
  unfolding exec start
  exec_ends fuel io_gas ext has_on_op schedule garbage p h =
      trampoline_ends fuel (start io_gas ext has_on_op schedule garbage) p (omega arith) refl h
