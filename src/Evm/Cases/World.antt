-- ===== src/Evm/Cases/World.antt =====
-- The cases that act on the world: SLOAD, SSTORE, SUICIDE, the switches of the call-outs, and
-- `caseCreate` of libevm/VMCalls.cpp.
use x_chain.Prelude.{ℕ, ◌+◌, ◌-◌, ◌/◌, ◌%◌, ◌^◌, not, ◌&&◌, ◌||◌, ltb, leb, ◌==◌, if◌then◌else◌}
use x_chain.Evm.Word.{word}
use x_chain.Evm.Schedule.{
  static_call_depth_limit, suicide_charges_new_account_gas,
  zero_value_transfer_charges_new_account_gas,
}
use x_chain.Evm.Bytes.{slice, as_address}
use x_chain.Evm.State.{
  ExtVmFace, Vm, Run, ok, ◌>>◌, modify, fail, bad_instruction, halted, interpret_cases, case_create,
  case_call,
}
use x_chain.Evm.Gas.{arg, set_run_gas, grow_for}
use x_chain.Evm.Ops.{update, put_spp, next, charge, value_case}

module _ {W : Type 0} where
  -- `case_create` and `case_call` of the switch only set `m_bounce`.
  unfoldable pub switch_create : Run W (Unit {0})
  switch_create = modify λ s. record s { bounce = case_create }

  unfoldable pub switch_call : Run W (Unit {0})
  switch_call = modify λ s. record s { bounce = case_call }

  unfoldable pub switch_delegatecall : Run W (Unit {0})
  unfolding switch_call
  switch_delegatecall s =
      if s.schedule.have_delegate_call then switch_call s else fail bad_instruction s

  -- the gas that a contract creation is offered
  unfoldable pub creation_gas : Vm W → ℕ
  unfolding static_call_depth_limit
  creation_gas s = if static_call_depth_limit s.schedule then s.io_gas else s.io_gas - s.io_gas / 64

module _ {W : Type 0} (face : ExtVmFace W) where
  unfoldable pub case_sload : Run W (Unit {0})
  unfolding set_run_gas value_case
  case_sload s =
      (do set_run_gas s.schedule.sload_gas; value_case (λ t. face.store t.ext (arg t 0))) s

  -- the price of SSTORE, and the refund for clearing an item
  unfoldable pub sstore_price : Run W (Unit {0})
  unfolding set_run_gas
  sstore_price s =
      let old_zero = face.store s.ext (arg s 0) == 0 in
      let new_zero = arg s 1 == 0 in
      if old_zero && not new_zero
      then set_run_gas s.schedule.sstore_set_gas s
      else if not old_zero && new_zero
      then (do
        set_run_gas s.schedule.sstore_reset_gas
        modify (λ t. record t { ext = face.add_refunds t.ext t.schedule.sstore_refund_gas }))
          s
      else set_run_gas s.schedule.sstore_reset_gas s

  unfoldable pub case_sstore : Run W (Unit {0})
  unfolding sstore_price charge
  case_sstore = do
    sstore_price
    charge
    modify (λ t. record t { ext = face.set_store t.ext (arg t 0) (arg t 1) })
    next

  unfoldable pub case_suicide : Run W (Unit {0})
  unfolding set_run_gas charge zero_value_transfer_charges_new_account_gas
      suicide_charges_new_account_gas
  case_suicide s =
      let dest = as_address (arg s 0) in
      (do
        set_run_gas s.schedule.suicide_gas
        modify (λ t.
            if (ltb 0 (face.balance t.ext (face.my_address t.ext))
                || zero_value_transfer_charges_new_account_gas t.schedule)
              && (suicide_charges_new_account_gas t.schedule && not (face.exists t.ext dest))
            then record t { run_gas = (t.run_gas + t.schedule.call_new_account_gas) % 2 ^ 64 }
            else t)
        charge
        modify (λ t. record t { ext = face.suicide t.ext dest; bounce = halted }))
        s

  -- the branch of `caseCreate` that calls out
  unfoldable pub create_out : Run W (Unit {0})
  unfolding creation_gas
  create_out s =
      let offered = creation_gas s in
      let r =
        face.create s.ext (arg s 0) offered (slice s.mem (arg s 1 % 2 ^ 64) (arg s 2 % 2 ^ 64)) in
      ok tt (record s {
        ext = r.world;
        stack = update s.stack s.spp r.new_address;
        io_gas = (s.io_gas + word - (offered + word - r.gas_left) % word) % word % 2 ^ 64;
      })

  unfoldable pub create_or_not : Run W (Unit {0})
  unfolding create_out
  create_or_not s =
      if leb (arg s 0) (face.balance s.ext (face.my_address s.ext)) && ltb (face.depth s.ext) 1024
      then create_out s
      else put_spp (λ t. 0) s

  unfoldable pub create_case : Run W (Unit {0})
  unfolding charge create_or_not
  create_case s =
      (do
        modify (λ t. record t { bounce = interpret_cases })
        set_run_gas s.schedule.create_gas
        grow_for (arg s 1) (arg s 2)
        charge
        create_or_not
        next)
        s
