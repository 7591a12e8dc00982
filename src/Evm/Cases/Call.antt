-- ===== src/Evm/Cases/Call.antt =====
-- Message calls: `caseCallSetup` and `caseCall` of libevm/VMCalls.cpp.
use x_chain.Prelude.{
  ℕ, ◌+◌, ◌-◌, ◌/◌, ◌%◌, ◌^◌, min, max, List, Bool, true, false, not, ◌&&◌, ◌||◌, ltb, leb,
  if◌then◌else◌, take,
}
use x_chain.Evm.Instruction.{Instruction, call, delegatecall}
use x_chain.Evm.Schedule.{static_call_depth_limit, zero_value_transfer_charges_new_account_gas}
use x_chain.Evm.Bytes.{slice, write_at, as_address}
use x_chain.Evm.State.{ExtVmFace, CallParameters, Vm, Run, ok, ◌>>=◌, ◌>>◌, modify, interpret_cases}
use x_chain.Evm.Gas.{arg, to_int63, mem_need, update_mem, update_io_gas, set_run_gas}
use x_chain.Evm.Ops.{update, next, charge}

-- `m_OP == Instruction::CALL` and the like
unfoldable pub is_call : Instruction → Bool
is_call call = true
is_call _ = false

unfoldable pub is_delegatecall : Instruction → Bool
is_delegatecall delegatecall = true
is_delegatecall _ = false

module _ {W : Type 0} where
  -- `m_runGas += toInt63(gas)` under a test
  unfoldable pub add_run_gas : Bool → ℕ → Run W (Unit {0})
  unfolding to_int63
  add_run_gas test gas =
      if test
      then (do
        more ← to_int63 gas
        modify (λ t. record t { run_gas = (t.run_gas + more) % 2 ^ 64 }))
      else modify (λ t. t)

  -- the gas that a message call is offered, before the stipend
  unfoldable pub offered_gas : Vm W → ℕ
  unfolding static_call_depth_limit
  offered_gas s =
      if static_call_depth_limit s.schedule
      then arg s 0
      else min (arg s 0) (s.io_gas - s.io_gas / 64)

  -- `m_OP != DELEGATECALL && m_SP[2] > 0`
  unfoldable pub moves_value : Vm W → Bool
  moves_value s = not (is_delegatecall s.op) && ltb 0 (arg s 2)

  -- `inOutOffset` is 0 for DELEGATECALL and 1 else.
  unfoldable pub in_out_offset : Vm W → ℕ
  in_out_offset s = if is_delegatecall s.op then 0 else 1

  -- `callResult.second.copyTo(output)`: as many bytes as fit.
  unfoldable pub copy_output : List ℕ → Vm W → List ℕ
  unfolding in_out_offset
  copy_output returned s =
      let k = in_out_offset s in
      write_at s.mem (arg s (k + 4) % 2 ^ 64) (take (arg s (k + 5) % 2 ^ 64) returned)

  -- The memory of a call, for its input and its output.
  unfoldable pub call_growth : Run W (Unit {0})
  unfolding mem_need
  call_growth s =
      let k = in_out_offset s in
      (do
        input_need ← mem_need (arg s (k + 2)) (arg s (k + 3))
        output_need ← mem_need (arg s (k + 4)) (arg s (k + 5))
        update_mem (max input_need output_need))
        s

module _ {W : Type 0} (face : ExtVmFace W) where
  -- CALL to an account that does not exist, if that is to be paid for.
  unfoldable pub makes_account : Vm W → Bool
  makes_account s =
      is_call s.op
      && not (face.exists s.ext (as_address (arg s 1)))
      && (ltb 0 (arg s 2) || zero_value_transfer_charges_new_account_gas s.schedule)

  -- The price of a call before its memory: the first three statements of `caseCallSetup`.
  unfoldable pub call_price : Run W (Unit {0})
  call_price s =
      (do
        set_run_gas s.schedule.call_gas
        add_run_gas (makes_account s) s.schedule.call_new_account_gas
        add_run_gas (moves_value s) s.schedule.call_value_transfer_gas)
        s

  -- What `caseCallSetup` fills in.
  unfoldable pub call_parameters : ℕ → Vm W → CallParameters
  unfolding is_call is_delegatecall moves_value in_out_offset
  call_parameters gas s =
      let k = in_out_offset s in
      record {
        sender_address = if is_delegatecall s.op then face.caller s.ext else face.my_address s.ext;
        code_address = as_address (arg s 1);
        receive_address = if is_call s.op then as_address (arg s 1) else face.my_address s.ext;
        gas = gas;
        value_transfer = if is_delegatecall s.op then 0 else arg s 2;
        apparent_value = if is_delegatecall s.op then face.value s.ext else arg s 2;
        input = slice s.mem (arg s (k + 2) % 2 ^ 64) (arg s (k + 3) % 2 ^ 64);
      }

  -- The end of `caseCallSetup`: the gas for the callee is taken, and the call is made if the
  -- balance and the depth allow it.
  unfoldable pub call_offer : Run W (CallParameters × Bool)
  unfolding offered_gas set_run_gas charge moves_value
  call_offer s =
      let gas = offered_gas s in
      (do
        set_run_gas gas
        charge
        λ t.
            let params =
              call_parameters (if moves_value t then gas + t.schedule.call_stipend else gas) t in
            ok
              (
                params,
                leb params.value_transfer (face.balance t.ext (face.my_address t.ext))
                    && ltb (face.depth t.ext) 1024,
              )
              t)
        s

  unfoldable pub case_call_setup : Run W (CallParameters × Bool)
  unfolding update_io_gas
  case_call_setup = do call_price; call_growth; update_io_gas; call_offer

  unfoldable pub call_out : CallParameters → Run W ℕ
  call_out params s =
      let r = face.call s.ext params in
      ok r.gas_left (record s {
        ext = r.world;
        mem = copy_output r.returned s;
        stack = update s.stack s.spp (if r.success then 1 else 0);
      })

  unfoldable pub call_or_not : CallParameters → Bool → Run W ℕ
  unfolding call_out
  call_or_not params made s =
      if made
      then call_out params s
      else ok params.gas (record s { stack = update s.stack s.spp 0 })

  -- `m_io_gas += uint64_t(callParams->gas); ++m_PC;`
  unfoldable pub call_return : CallParameters × Bool → Run W (Unit {0})
  unfolding call_or_not
  call_return setup = do
    gas_left ← call_or_not setup.0 setup.1
    modify (λ s. record s { io_gas = (s.io_gas + gas_left % 2 ^ 64) % 2 ^ 64 })
    next

  unfoldable pub call_case : Run W (Unit {0})
  call_case = do
    modify (λ s. record s { bounce = interpret_cases })
    setup ← case_call_setup
    call_return setup
