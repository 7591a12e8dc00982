-- ===== src/Evm/Interpreter.antt =====
-- The switch of `interpretCases`, `exec` (libevm/VM.cpp) and `initEntry`
-- (libevm/VMOpt.cpp). In the built configuration (libevm/VMConfig.h) EVM_OPTIMIZE and
-- EVM_JUMPS_AND_SUBS are false, so the instructions that they guard are bad ones.
use x_chain.Prelude.{ℕ, zero, suc, ◌%◌, ◌^◌, Bool, Option, none, some, [], if◌then◌else◌, ◌==◌}
use x_chain.Evm.Instruction.{
  Instruction, stop, add, mul, sub, div, sdiv, modulo, smod, addmod, mulmod, exp, signextend, lt,
  gt, slt, sgt, eq, iszero, and, or, xor, not, byte, sha3, address, balance, origin, caller,
  callvalue, calldataload, calldatasize, calldatacopy, codesize, codecopy, gasprice, extcodesize,
  extcodecopy, blockhash, coinbase, timestamp, number, difficulty, gaslimit, jumpto, jumpif, jumpv,
  jumpsub, jumpsubv, returnsub, pop, mload, mstore, mstore8, sload, sstore, jump, jumpi, pc, msize,
  gas, jumpdest, beginsub, begindata, push, dup, swap, log, pushc, jumpc, jumpci, bad, create, call,
  callcode, return, delegatecall, revert, suicide, undefined,
}
use x_chain.Evm.State.{
  ExtVmFace, Vm, Outcome, Run, ok, throw, ◌>>◌, modify, fail, bad_instruction, Bounce, init_entry,
  interpret_cases, case_create, case_call, halted, stack_end,
}
use x_chain.Evm.Schedule.{EvmSchedule}
use x_chain.Evm.Gas.{fetch_instruction}
use x_chain.Evm.Optimize.{optimize}
use x_chain.Evm.Cases.Words.{
  case_exp, case_add, case_mul, case_sub, case_div, case_sdiv, case_mod, case_smod, case_not,
  case_lt, case_gt, case_slt, case_sgt, case_eq, case_iszero, case_and, case_or, case_xor,
  case_byte, case_addmod, case_mulmod, case_signextend,
}
use x_chain.Evm.Cases.Env.{
  case_address, case_origin, case_balance, case_caller, case_callvalue, case_calldataload,
  case_calldatasize, case_codesize, case_extcodesize, case_gasprice, case_blockhash, case_coinbase,
  case_timestamp, case_number, case_difficulty, case_gaslimit, case_pc, case_msize, case_gas,
}
use x_chain.Evm.Cases.Memory.{
  case_mload, case_mstore, case_mstore8, case_return, case_revert, case_sha3, case_log,
  case_calldatacopy, case_codecopy, case_extcodecopy,
}
use x_chain.Evm.Cases.Control.{
  case_stop, case_pop, case_push1, case_push, case_jump, case_jumpi, case_dup, case_swap,
  case_jumpdest,
}
use x_chain.Evm.Cases.World.{
  case_sload, case_sstore, case_suicide, switch_create, switch_call, switch_delegatecall,
  create_case,
}
use x_chain.Evm.Cases.Call.{call_case}

module _ {W : Type 0} where
  -- `m_SP = m_SPP = m_stackEnd`, no memory, and the gas as a uint64_t.
  unfoldable pub start : ℕ → W → (has_on_op : Bool) → EvmSchedule → (ℕ → ℕ) → Vm W
  start io_gas ext has_on_op schedule garbage = record {
    io_gas = io_gas % 2 ^ 64;
    ext = ext;
    has_on_op = has_on_op;
    bounce = init_entry;
    n_steps = 0;
    schedule = schedule;
    output = [];
    mem = [];
    code = [];
    stack = garbage;
    op = stop;
    pc = 0;
    sp = stack_end;
    spp = stack_end;
    run_gas = 0;
    new_mem_size = 0;
    copy_mem_size = 0;
    jump_dests = [];
  }

module _ {W : Type 0} (face : ExtVmFace W) where
  -- The first call of `interpretCases` only sets `m_PC` to 0.
  unfoldable pub enter : Run W (Unit {0})
  unfolding optimize
  enter = do modify (λ s. record s { bounce = interpret_cases; pc = 0 }); optimize face

  unfoldable pub interpret_case : Instruction → Run W (Unit {0})
  unfolding case_exp case_add case_mul case_sub case_div case_sdiv case_mod case_smod case_not
      case_lt case_gt case_slt case_sgt case_eq case_iszero case_and case_or case_xor case_byte
      case_addmod case_mulmod case_signextend case_address case_origin case_balance case_caller
      case_callvalue case_calldataload case_calldatasize case_codesize case_extcodesize
      case_gasprice case_blockhash case_coinbase case_timestamp case_number case_difficulty
      case_gaslimit case_pc case_msize case_gas case_mload case_mstore case_mstore8 case_return
      case_revert case_sha3 case_log case_calldatacopy case_codecopy case_extcodecopy case_stop
      case_pop case_push1 case_push case_jump case_jumpi case_dup case_swap case_jumpdest case_sload
      case_sstore case_suicide switch_create switch_call switch_delegatecall
  interpret_case create = switch_create
  interpret_case delegatecall = switch_delegatecall
  interpret_case call = switch_call
  interpret_case callcode = switch_call
  interpret_case return = case_return
  interpret_case revert = case_revert
  interpret_case suicide = case_suicide face
  interpret_case stop = case_stop
  interpret_case mload = case_mload
  interpret_case mstore = case_mstore
  interpret_case mstore8 = case_mstore8
  interpret_case sha3 = case_sha3 face
  interpret_case (log n) = case_log face n
  interpret_case exp = case_exp
  interpret_case add = case_add
  interpret_case mul = case_mul
  interpret_case sub = case_sub
  interpret_case div = case_div
  interpret_case sdiv = case_sdiv
  interpret_case modulo = case_mod
  interpret_case smod = case_smod
  interpret_case not = case_not
  interpret_case lt = case_lt
  interpret_case gt = case_gt
  interpret_case slt = case_slt
  interpret_case sgt = case_sgt
  interpret_case eq = case_eq
  interpret_case iszero = case_iszero
  interpret_case and = case_and
  interpret_case or = case_or
  interpret_case xor = case_xor
  interpret_case byte = case_byte
  interpret_case addmod = case_addmod
  interpret_case mulmod = case_mulmod
  interpret_case signextend = case_signextend
  interpret_case address = case_address face
  interpret_case origin = case_origin face
  interpret_case balance = case_balance face
  interpret_case caller = case_caller face
  interpret_case callvalue = case_callvalue face
  interpret_case calldataload = case_calldataload face
  interpret_case calldatasize = case_calldatasize face
  interpret_case codesize = case_codesize face
  interpret_case extcodesize = case_extcodesize face
  interpret_case calldatacopy = case_calldatacopy face
  interpret_case codecopy = case_codecopy face
  interpret_case extcodecopy = case_extcodecopy face
  interpret_case gasprice = case_gasprice face
  interpret_case blockhash = case_blockhash face
  interpret_case coinbase = case_coinbase face
  interpret_case timestamp = case_timestamp face
  interpret_case number = case_number face
  interpret_case difficulty = case_difficulty face
  interpret_case gaslimit = case_gaslimit face
  interpret_case pop = case_pop
  interpret_case (push n) = if n == 1 then case_push1 else case_push n
  interpret_case jump = case_jump
  interpret_case jumpi = case_jumpi
  interpret_case (dup n) = case_dup n
  interpret_case (swap n) = case_swap n
  interpret_case sload = case_sload face
  interpret_case sstore = case_sstore face
  interpret_case pc = case_pc
  interpret_case msize = case_msize
  interpret_case gas = case_gas
  interpret_case jumpdest = case_jumpdest
  interpret_case jumpto = fail bad_instruction
  interpret_case jumpif = fail bad_instruction
  interpret_case jumpv = fail bad_instruction
  interpret_case jumpsub = fail bad_instruction
  interpret_case jumpsubv = fail bad_instruction
  interpret_case returnsub = fail bad_instruction
  interpret_case pushc = fail bad_instruction
  interpret_case jumpc = fail bad_instruction
  interpret_case jumpci = fail bad_instruction
  interpret_case beginsub = fail bad_instruction
  interpret_case begindata = fail bad_instruction
  interpret_case bad = fail bad_instruction
  interpret_case (undefined n) = fail bad_instruction

  -- One round of the loop of `interpretCases`.
  unfoldable pub interpret_step : Run W (Unit {0})
  unfolding fetch_instruction interpret_case
  interpret_step = do fetch_instruction; λ s. interpret_case s.op s

  -- One round of the trampoline, or of the loop inside it.
  unfoldable pub bounce_step : Bounce → Run W (Unit {0})
  bounce_step init_entry = enter
  bounce_step interpret_cases = interpret_step
  bounce_step case_create = create_case face
  bounce_step case_call = call_case face
  bounce_step halted = modify λ s. s

  -- `do (this->*m_bounce)(); while (m_bounce);` on fuel; `none` means that the fuel ran out.
  unfoldable pub trampoline : ℕ → Vm W → Option (Outcome (Vm W) (Unit {0}))
  trampoline zero s = none
  trampoline (suc fuel) s = elim (bounce_step s.bounce s) [
    | throw e t ↦ some (throw e t)
    | ok u t ↦ elim t.bounce [ halted ↦ some (ok tt t) | _ ↦ trampoline fuel t ]
  ]

  -- `exec`: the outcome carries the final gas; `garbage` is what the stack array held before.
  unfoldable pub exec :
      ℕ → ℕ → W → (has_on_op : Bool) → EvmSchedule → (ℕ → ℕ) → Option (Outcome (Vm W) (Unit {0}))
  unfolding trampoline start
  exec fuel io_gas ext has_on_op schedule garbage =
      trampoline fuel (start io_gas ext has_on_op schedule garbage)
