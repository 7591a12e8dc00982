-- ===== src/Evm/Termination/Calling.antt =====
-- The call-outs pay for themselves, if the world gives back no more gas than it was offered.
use x_chain.Prelude.{
  ℕ, ◌+◌, ◌-◌, ◌%◌, ◌^◌, ◌<◌, ◌≤◌, ◌≡◌, max, arith, refl, Bool, if◌then◌else◌, List,
}
use x_chain.Evm.State.{
  ExtVmFace, CallParameters, Vm, ok, ◌>>◌, interpret_cases, case_create, case_call,
}
use x_chain.Evm.Bytes.{slice}
use x_chain.Evm.Ops.{charge, next}
use x_chain.Evm.Gas.{arg, grown, span, grow_for, set_run_gas, to_int63}
use x_chain.Evm.Growth.{
  IsModest, GrownBy, after_growth, grow_for_lem, update_mem_lem, after_price, after_int63,
  after_update, after, after_charge, charged,
}
use x_chain.Evm.Cases.World.{create_case, creation_gas, create_or_not}
use x_chain.Evm.Cases.Call.{
  makes_account, offered_gas, call_parameters, add_run_gas, call_case, call_price, call_growth,
  call_offer, call_return, case_call_setup, moves_value, in_out_offset,
}
use x_chain.Evm.Termination.Budget.{IsPriced, Progress}
use x_chain.Evm.Termination.Growing.{plain}

max_bound : (v w : ℕ) → v < 2 ^ 63 → w < 2 ^ 63 → max v w < 2 ^ 63 + 32
max_bound v w hv hw = omega arith

-- `create` and `call` of the world return at most the gas that they are given.
pub record IsFrugal {W : Type 0} (face : ExtVmFace W) : Type 0 where
  pub create_gas : (w : W) (v g : ℕ) (code : List ℕ) → (face.create w v g code).gas_left ≤ g
  pub call_gas : (w : W) (p : CallParameters) → (face.call w p).gas_left ≤ p.gas

module _ {W : Type 0} (face : ExtVmFace W) (frugal : IsFrugal face) where
  create_or_not_gas :
      (s t : Vm W)
      → s.io_gas < 2 ^ 64
      → create_or_not face s ≡ ok tt t
      → (t.io_gas ≤ s.io_gas) × (t.schedule ≡ s.schedule) × (t.bounce ≡ s.bounce)
  unfolding create_or_not
  create_or_not_gas s t b h = ground (
    arith,
    frugal.create_gas s.ext (arg s 0) (creation_gas s)
        (slice s.mem (arg s 1 % 2 ^ 64) (arg s 2 % 2 ^ 64)),
  )

  -- `create_case` behind its growth, in the state `u`
  create_tail-Progress :
      (s u t : Vm W)
      → s.bounce ≡ case_create
      → u.bounce ≡ interpret_cases
      → u.io_gas ≡ s.io_gas
      → u.schedule ≡ s.schedule
      → s.io_gas < 2 ^ 64
      → 1 ≤ u.run_gas
      → (do charge; create_or_not face; next) u ≡ ok tt t
      → Progress s t
  create_tail-Progress s u t e e' g q b p h = after_charge u _ h λ paid h1.
      after (create_or_not face (charged u)) _ h1
        λ a s1 made h2. ground (arith, create_or_not_gas (charged u) s1 (omega arith) made)

  pub create-Progress :
      (s t : Vm W)
      → IsPriced s.schedule
      → s.io_gas < 2 ^ 64
      → s.bounce ≡ case_create
      → s.copy_mem_size ≡ 0
      → create_case face s ≡ ok tt t
      → Progress s t
  unfolding create_case
  create-Progress s t p b e c h = after_price _ s0 t _ h λ fits h0.
      let s1 : Vm W = record s0 { run_gas = s.schedule.create_gas } in
      after_growth (span (arg s 1) (arg s 2)) s1 t (grow_for (arg s 1) (arg s 2) s1) _
        (λ s2. grow_for_lem (arg s 1) (arg s 2) s1 s2 (plain s1 fits c)) h0
        λ r size h1 lo hi n.
          create_tail-Progress s
            (record s1 { run_gas = r; new_mem_size = size; mem = grown s1.mem size }) t e refl refl
            refl b (omega (arith, p.create)) h1
    where
      s0 : Vm W
      s0 = record s { bounce = interpret_cases }

  set_run_gas_lem :
      (g : ℕ) (s : Vm W) → g < 2 ^ 63 → set_run_gas g s ≡ ok tt (record s { run_gas = g })
  unfolding set_run_gas to_int63
  set_run_gas_lem g s h = ground arith

  add_run_gas_lem :
      (test : Bool) (g : ℕ) (s : Vm W)
      → s.run_gas < 2 ^ 34
      → g < 2 ^ 32
      → add_run_gas test g s ≡ ok tt (record s { run_gas = s.run_gas + (if test then g else 0) })
  unfolding add_run_gas to_int63
  add_run_gas_lem test g s h k = ground arith

  -- the price that `call_price` settles
  abbrev price_of : Vm W → ℕ
  price_of s =
      s.schedule.call_gas
      + (if makes_account face s then s.schedule.call_new_account_gas else 0)
      + (if moves_value s then s.schedule.call_value_transfer_gas else 0)

  call_price_lem :
      (s : Vm W)
      → IsPriced s.schedule
      → call_price face s ≡ ok tt (record s { run_gas = price_of s })
  unfolding call_price
  call_price_lem s p =
      let a = if makes_account face s then s.schedule.call_new_account_gas else 0 in
      let s1 : Vm W = record s { run_gas = s.schedule.call_gas } in
      let s2 : Vm W = record s { run_gas = s.schedule.call_gas + a } in
      rw (set_run_gas_lem s.schedule.call_gas s (omega (arith, p.call_unsigned))) (
        rw
          (add_run_gas_lem (makes_account face s) s.schedule.call_new_account_gas s1
            (omega (arith, p.call_unsigned)) p.call_new_account_unsigned)
          (add_run_gas_lem (moves_value s) s.schedule.call_value_transfer_gas s2
            (ground (arith, p.call_unsigned, p.call_new_account_unsigned))
            p.call_value_transfer_unsigned))

  call_growth_lem :
      (s : Vm W)
      → IsModest s
      → (t : Vm W) → call_growth s ≡ ok tt t
      → GrownBy
          (max
            (span (arg s (in_out_offset s + 2)) (arg s (in_out_offset s + 3)))
            (span (arg s (in_out_offset s + 4)) (arg s (in_out_offset s + 5))))
          s
          t
  unfolding call_growth
  call_growth_lem s m t h =
      let v = span (arg s (in_out_offset s + 2)) (arg s (in_out_offset s + 3)) in
      let w = span (arg s (in_out_offset s + 4)) (arg s (in_out_offset s + 5)) in
      after_int63 v s t _ h λ in_fits h1.
        after_int63 w s t _ h1
          λ out_fits h2. update_mem_lem (max v w) s t m (max_bound v w in_fits out_fits) h2

  -- the gas of the parameters, and what is left
  call_offer_lem :
      (s t : Vm W) (params : CallParameters) (made : Bool)
      → call_offer face s ≡ ok (params, made) t
      → (gas : ℕ) × (t.io_gas + gas ≡ s.io_gas)
        × (params.gas ≡ (if moves_value s then gas + s.schedule.call_stipend else gas))
        × (t.schedule ≡ s.schedule)
        × (t.bounce ≡ s.bounce)
  unfolding call_offer call_parameters
  call_offer_lem s t params made h =
      (offered_gas s, ground arith, ground arith, ground arith, ground arith)

  price_of-lt : (s : Vm W) → IsPriced s.schedule → price_of s < 2 ^ 63
  price_of-lt s p =
      ground (arith, p.call_unsigned, p.call_new_account_unsigned, p.call_value_transfer_unsigned)

  -- the end of the setup, in the state `u` that has paid `r`
  setup_end :
      (s u t : Vm W) (r : ℕ) (params : CallParameters) (made : Bool)
      → IsPriced s.schedule
      → price_of s ≤ r
      → r ≤ s.io_gas
      → call_offer face u ≡ ok (params, made) t
      → u.io_gas ≡ s.io_gas - r
      → u.schedule ≡ s.schedule
      → u.bounce ≡ s.bounce
      → moves_value u ≡ moves_value s
      → (t.io_gas + params.gas < s.io_gas) × (t.schedule ≡ s.schedule) × (t.bounce ≡ s.bounce)
  setup_end s u t r params made p lo hi h g q b v =
      let (gas, left, given, sch, bou) = call_offer_lem u t params made h in
      ground (arith, p.call, p.stipend)

  -- A call's setup takes at least one unit of gas more than the callee is given.
  setup_lem :
      (s t : Vm W) (params : CallParameters) (made : Bool)
      → IsPriced s.schedule
      → s.copy_mem_size ≡ 0
      → case_call_setup face s ≡ ok (params, made) t
      → (t.io_gas + params.gas < s.io_gas) × (t.schedule ≡ s.schedule) × (t.bounce ≡ s.bounce)
  unfolding case_call_setup moves_value in_out_offset
  setup_lem s t params made p c h =
      let s1 : Vm W = record s { run_gas = price_of s } in
      let k = in_out_offset s in
      let need =
        max (span (arg s (k + 2)) (arg s (k + 3))) (span (arg s (k + 4)) (arg s (k + 5))) in
      after_growth need s1 t (call_growth s1) _ (call_growth_lem s1 (plain s1 (price_of-lt s p) c))
        (rw (call_price_lem s p) at h)
        λ r size h1 lo hi n.
          let s2 : Vm W = record s1 { run_gas = r; new_mem_size = size; mem = grown s.mem size } in
          after_update s2 _ h1 λ paid h2.
            setup_end s (record s2 { io_gas = s.io_gas - r }) t r params made p lo hi h2 refl refl
              refl refl

  call_return_lem :
      (s t : Vm W) (params : CallParameters) (made : Bool)
      → s.io_gas + params.gas < 2 ^ 64
      → call_return face (params, made) s ≡ ok tt t
      → (t.io_gas ≤ s.io_gas + params.gas) × (t.schedule ≡ s.schedule) × (t.bounce ≡ s.bounce)
  unfolding call_return
  call_return_lem s t params made b h = ground (arith, frugal.call_gas s.ext params)

  pub call-Progress :
      (s t : Vm W)
      → IsPriced s.schedule
      → s.io_gas < 2 ^ 64
      → s.bounce ≡ case_call
      → s.copy_mem_size ≡ 0
      → call_case face s ≡ ok tt t
      → Progress s t
  unfolding call_case
  call-Progress s t p b e c h =
      let s0 : Vm W = record s { bounce = interpret_cases } in
      after (case_call_setup face s0) _ h λ (params, made) s1 e1 h1.
        let (less, sch, bou) = setup_lem s0 s1 params made p c e1 in
        let (less', sch', bou') = call_return_lem s1 t params made (omega arith) h1 in ground arith
