-- ===== src/Evm/Cases/Env.antt =====
-- The cases that push a value of the environment, of the block or of the machine itself.
use x_chain.Prelude.{
  ℕ, zero, suc, ◌+◌, ◌%◌, ◌^◌, List, [], ◌∷◌, ltb, leb, if◌then◌else◌, length, get_or,
}
use x_chain.Evm.Bytes.{from_bytes, slice, as_address}
use x_chain.Evm.State.{ExtVmFace, Run, ◌>>◌, modify}
use x_chain.Evm.Gas.{arg, set_run_gas}
use x_chain.Evm.Ops.{update, next, charge, value_case}

-- The loop of CALLDATALOAD: `n` bytes from index `i` on, and 0 for those behind the end.
unfoldable pub padded_bytes : List ℕ → ℕ → ℕ → List ℕ
padded_bytes source i zero = []
padded_bytes source i (suc n) = get_or source i 0 ∷ padded_bytes source (i + 1) n

unfoldable pub load_call_data : List ℕ → ℕ → ℕ
unfolding from_bytes padded_bytes
load_call_data source offset =
    if ltb (offset + 31) (length source)
    then from_bytes 0 (slice source offset 32)
    else if leb (length source) offset
    then 0
    else from_bytes 0 (padded_bytes source (offset % 2 ^ 64) 32)

module _ {W : Type 0} (face : ExtVmFace W) where
  unfoldable pub case_address : Run W (Unit {0})
  unfolding value_case
  case_address = value_case λ s. face.my_address s.ext

  unfoldable pub case_origin : Run W (Unit {0})
  unfolding value_case
  case_origin = value_case λ s. face.origin s.ext

  unfoldable pub case_balance : Run W (Unit {0})
  unfolding set_run_gas value_case
  case_balance s =
      (do
        set_run_gas s.schedule.balance_gas
        value_case (λ t. face.balance t.ext (as_address (arg t 0))))
        s

  unfoldable pub case_caller : Run W (Unit {0})
  unfolding value_case
  case_caller = value_case λ s. face.caller s.ext

  unfoldable pub case_callvalue : Run W (Unit {0})
  unfolding value_case
  case_callvalue = value_case λ s. face.value s.ext

  -- The value is written to `m_SP[0]`.
  unfoldable pub case_calldataload : Run W (Unit {0})
  unfolding charge
  case_calldataload = do
    charge
    modify (λ s. record s {
      stack = update s.stack s.sp (load_call_data (face.input s.ext) (arg s 0));
    })
    next

  unfoldable pub case_calldatasize : Run W (Unit {0})
  unfolding value_case
  case_calldatasize = value_case λ s. length (face.input s.ext)

  unfoldable pub case_codesize : Run W (Unit {0})
  unfolding value_case
  case_codesize = value_case λ s. length (face.code s.ext)

  unfoldable pub case_extcodesize : Run W (Unit {0})
  unfolding set_run_gas value_case
  case_extcodesize s =
      (do
        set_run_gas s.schedule.extcodesize_gas
        value_case (λ t. face.code_size_at t.ext (as_address (arg t 0))))
        s

  unfoldable pub case_gasprice : Run W (Unit {0})
  unfolding value_case
  case_gasprice = value_case λ s. face.gas_price s.ext

  unfoldable pub case_blockhash : Run W (Unit {0})
  unfolding value_case
  case_blockhash = value_case λ s. face.block_hash s.ext (arg s 0)

  unfoldable pub case_coinbase : Run W (Unit {0})
  unfolding value_case
  case_coinbase = value_case λ s. face.author s.ext

  unfoldable pub case_timestamp : Run W (Unit {0})
  unfolding value_case
  case_timestamp = value_case λ s. face.timestamp s.ext

  unfoldable pub case_number : Run W (Unit {0})
  unfolding value_case
  case_number = value_case λ s. face.number s.ext

  unfoldable pub case_difficulty : Run W (Unit {0})
  unfolding value_case
  case_difficulty = value_case λ s. face.difficulty s.ext

  unfoldable pub case_gaslimit : Run W (Unit {0})
  unfolding value_case
  case_gaslimit = value_case λ s. face.gas_limit s.ext

module _ {W : Type 0} where
  unfoldable pub case_pc : Run W (Unit {0})
  unfolding value_case
  case_pc = value_case λ s. s.pc

  unfoldable pub case_msize : Run W (Unit {0})
  unfolding value_case
  case_msize = value_case λ s. length s.mem

  unfoldable pub case_gas : Run W (Unit {0})
  unfolding value_case
  case_gas = value_case λ s. s.io_gas
