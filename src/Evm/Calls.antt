-- ===== src/Evm/Calls.antt =====
-- Message calls and creations: what the callee is offered, and when none is made.
use x_chain.Prelude.{ℕ, ◌+◌, ◌-◌, ◌/◌, ◌≤◌, ◌<◌, ◌≡◌, ◌⊎◌, arith, Bool, true, false}
use x_chain.Evm.Instruction.{delegatecall, call, callcode}
use x_chain.Evm.State.{ExtVmFace, Vm, ok, CallParameters}
use x_chain.Evm.Schedule.{static_call_depth_limit}
use x_chain.Evm.Gas.{arg}
use x_chain.Evm.Cases.World.{create_or_not}
use x_chain.Evm.Cases.Call.{
  call_offer, call_parameters, offered_gas, moves_value, is_call, is_delegatecall,
}

module _ {W : Type 0} (face : ExtVmFace W) where
  -- Where the end of the setup of a call returns, the callee is offered at most 63/64 of the gas
  -- that is left, if the schedule has no static limit of the depth; the stipend is added to the
  -- offer only if value is moved, and what is offered without it is taken from the caller. The call
  -- is made only if the balance covers the value and the depth is below 1024.
  pub call_offer_lem :
      (s t : Vm W) (params : CallParameters) (made : Bool)
      → call_offer face s ≡ ok (params, made) t
      → (t.io_gas + offered_gas s ≡ s.io_gas)
        × (params.gas ≡ offered_gas s
            ⊎ (moves_value s ≡ true) × (params.gas ≡ offered_gas s + s.schedule.call_stipend))
        × ((made ≡ true)
            → (params.value_transfer ≤ face.balance s.ext (face.my_address s.ext))
              × (face.depth s.ext < 1024))
        × ((static_call_depth_limit s.schedule ≡ false) → offered_gas s ≤ s.io_gas - s.io_gas / 64)
  unfolding call_offer call_parameters offered_gas moves_value
  call_offer_lem s t params made h = ground arith

  -- DELEGATECALL keeps the sender and the apparent value of the caller and moves no value; CALL and
  -- CALLCODE come from the running contract with the value of the third item, and only CALL is
  -- received by the account whose code runs.
  pub call_parameters_lem :
      (gas : ℕ) (s : Vm W)
      → ((s.op ≡ delegatecall)
          → ((call_parameters face gas s).sender_address ≡ face.caller s.ext)
            × ((call_parameters face gas s).value_transfer ≡ 0)
            × ((call_parameters face gas s).apparent_value ≡ face.value s.ext)
            × ((call_parameters face gas s).receive_address ≡ face.my_address s.ext))
        × ((s.op ≡ call)
            → ((call_parameters face gas s).sender_address ≡ face.my_address s.ext)
              × ((call_parameters face gas s).value_transfer ≡ arg s 2)
              × ((call_parameters face gas s).receive_address
                  ≡ (call_parameters face gas s).code_address))
        × ((s.op ≡ callcode)
            → ((call_parameters face gas s).sender_address ≡ face.my_address s.ext)
              × ((call_parameters face gas s).value_transfer ≡ arg s 2)
              × ((call_parameters face gas s).receive_address ≡ face.my_address s.ext))
  unfolding call_parameters is_call is_delegatecall
  call_parameters_lem gas s = ground arith

  -- A creation that is not made, for want of balance or at a depth of 1024 or more, pushes 0 and
  -- leaves the world and the gas as they are.
  pub create_not_made :
      (s t : Vm W)
      → (face.balance s.ext (face.my_address s.ext) < arg s 0) ⊎ (1024 ≤ face.depth s.ext)
      → create_or_not face s ≡ ok tt t
      → (t.ext ≡ s.ext) × (t.io_gas ≡ s.io_gas) × (t.stack t.spp ≡ 0)
  unfolding create_or_not
  create_not_made s t w h = ground arith
