-- ===== src/Evm/Tests/Values.antt =====
-- The theorems on the memory, the calls, the stack and the words at concrete inputs.
use x_chain.Prelude.{
  ◌≢◌, ℕ, ◌+◌, ◌-◌, ◌*◌, ◌/◌, ◌%◌, ◌^◌, ◌<◌, ◌≤◌, ◌≡◌, ◌⊎◌, refl, arith, Bool, true, false, List,
  [], ◌∷◌, length, get_or, max, ltb, leb, ◌&&◌, if◌then◌else◌,
}
use x_chain.Evm.Word.{negsuc, exp256, u2s}
use x_chain.Evm.Instruction.{call}
use x_chain.Evm.Schedule.{default_schedule, static_call_depth_limit}
use x_chain.Evm.State.{Vm, ok, fail, stack_end, stack_underflow, out_of_stack, CallParameters}
use x_chain.Evm.Gas.{
  add_copy_price, adjust_stack, arg, charge_growth, grow_mem, grown, mem_cost, update_gas,
  update_mem,
}
use x_chain.Evm.Bytes.{copy_data_to_memory, to_bytes, write_at}
use x_chain.Evm.Gas.{grow_to}
use x_chain.Evm.Growth.{IsModest}
use x_chain.Evm.Cases.Memory.{case_mstore, case_mload}
use x_chain.Evm.Cases.World.{create_or_not}
use x_chain.Evm.Cases.Call.{call_offer, call_parameters, offered_gas, moves_value}
use x_chain.Evm.Prices.{update_mem_exact}
use x_chain.Evm.Copy.{copy_data_to_memory_lem, mstore-mload}
use x_chain.Evm.Calls.{call_offer_lem}
use x_chain.Evm.Stack.{adjust_stack_lem}
use x_chain.Evm.Arithmetic.{exp256_lem}
use x_chain.Evm.Tests.{bare, machine, state_of, value_of}

abbrev small : Vm (List ℕ)
small = machine []

small-IsModest : IsModest small
small-IsModest = record { own = omega arith; copied = omega arith; sum = omega arith }

abbrev enlarged : Vm (List ℕ)
enlarged = state_of (update_mem 40 small) small

enlarged_lem : update_mem 40 small ≡ ok tt enlarged
unfolding update_mem update_gas charge_growth add_copy_price grow_mem
enlarged_lem = refl

update_mem_exact_example :
    (enlarged.run_gas
      ≡ 3
        + (mem_cost default_schedule (max 0 ((40 + 31) / 32 * 32)) - mem_cost default_schedule 0)
        + 3 * ((0 + 31) / 32))
    × (enlarged.run_gas ≤ 1000)
    × (enlarged.io_gas ≡ 1000)
    × (length enlarged.mem ≡ max 0 ((40 + 31) / 32 * 32))
    × (enlarged.mem ≡ grown [] ((40 + 31) / 32 * 32))
update_mem_exact_example =
    update_mem_exact 40 small enlarged small-IsModest (omega arith) enlarged_lem

copy_data_to_memory_lem_example :
    get_or (copy_data_to_memory (7 ∷ 8 ∷ []) 1 1 2 (5 ∷ 5 ∷ 5 ∷ 5 ∷ [])) 2 0 ≡ (
      if leb 1 2 && ltb 2 (1 + 2)
      then get_or (7 ∷ 8 ∷ []) (1 + (2 - 1)) 0
      else get_or (5 ∷ 5 ∷ 5 ∷ 5 ∷ []) 2 0)
copy_data_to_memory_lem_example =
    copy_data_to_memory_lem (7 ∷ 8 ∷ []) 1 1 2 (5 ∷ 5 ∷ 5 ∷ 5 ∷ []) 2 (omega arith) (omega arith)
      (omega arith) (omega arith)

abbrev stored : Vm (List ℕ)
stored = state_of (case_mstore small) small

stored_lem : case_mstore small ≡ ok tt stored
unfolding case_mstore grow_to update_gas charge_growth add_copy_price grow_mem
stored_lem = refl

abbrev loaded : Vm (List ℕ)
loaded = state_of (case_mload stored) stored

loaded_lem : case_mload stored ≡ ok tt loaded
unfolding case_mload case_mstore grow_to update_gas charge_growth add_copy_price grow_mem write_at
    to_bytes grown
loaded_lem = refl

stored-arg : arg stored 0 ≡ 0
unfolding case_mstore grow_to update_gas charge_growth add_copy_price grow_mem
stored-arg = refl

mstore-mload_example : loaded.stack loaded.spp ≡ 1
mstore-mload_example =
    mstore-mload small stored stored loaded (omega arith) (omega arith) stored_lem refl stored-arg
      loaded_lem

abbrev caller : Vm (List ℕ)
caller = record small { op = call }

abbrev offer : CallParameters × Bool
offer = value_of (call_offer bare caller) (call_parameters bare 0 caller, false)

abbrev offered : Vm (List ℕ)
offered = state_of (call_offer bare caller) caller

offered_lem : call_offer bare caller ≡ ok (offer.0, offer.1) offered
unfolding call_offer
offered_lem = refl

call_offer_lem_example :
    (offered.io_gas + offered_gas caller ≡ 1000)
    × (offer.0.gas ≡ offered_gas caller
        ⊎ (moves_value caller ≡ true) × (offer.0.gas ≡ offered_gas caller + 2300))
    × ((offer.1 ≡ true) → (offer.0.value_transfer ≤ 0) × (0 < 1024))
    × ((static_call_depth_limit default_schedule ≡ false) → offered_gas caller ≤ 1000 - 1000 / 64)
call_offer_lem_example = call_offer_lem bare caller offered offer.0 offer.1 offered_lem

-- a creation with an endowment of 1 by a contract without balance
abbrev poor : Vm (List ℕ)
poor = record small { sp = 1001; spp = 1003 }

abbrev refused : Vm (List ℕ)
refused = state_of (create_or_not bare poor) poor

refused_lem : create_or_not bare poor ≡ ok tt refused
unfolding create_or_not
refused_lem = refl

adjust_stack_lem_example : adjust_stack 2 1 small ≡ (
    let s1 = record small { sp = 1000; spp = 1000 + 2 } in
    if ltb (stack_end - 1000) 2
    then fail stack_underflow s1
    else if ltb stack_end (stack_end - 1000 - 2 + 1)
    then fail out_of_stack s1
    else ok tt (record s1 { spp = 1000 + 2 - 1 }))
adjust_stack_lem_example = adjust_stack_lem 2 1 small (omega arith)

exp256_lem_example : exp256 3 5 ≡ 3 ^ 5 % 2 ^ 256
exp256_lem_example = exp256_lem 3 5 (omega arith)

two-ne-minus_one : u2s 2 ≢ negsuc 0
unfolding u2s
two-ne-minus_one = λ h. cc
