-- ===== src/Evm/Cases/Memory.antt =====
-- The cases that may grow the memory.
use x_chain.Prelude.{ℕ, zero, suc, ◌+◌, ◌*◌, ◌/◌, ◌%◌, ◌^◌, List, [], ◌∷◌, if◌then◌else◌}
use x_chain.Evm.Bytes.{to_bytes, from_bytes, slice, write_at, copy_data_to_memory, as_address}
use x_chain.Evm.State.{
  ExtVmFace, Vm, Run, throw, ◌>>=◌, ◌>>◌, modify, fail, bad_instruction, revert_instruction, halted,
}
use x_chain.Evm.Gas.{arg, to_int63, set_run_gas, grow_to, grow_for, log_gas_mem}
use x_chain.Evm.Ops.{put_spp, next, charge}

module _ {W : Type 0} where
  -- `m_SP[0]` is cast to `unsigned` where it is used as an index.
  unfoldable pub case_mload : Run W (Unit {0})
  unfolding charge
  case_mload s =
      (do
        grow_to (arg s 0) 32
        charge
        put_spp (λ t. from_bytes 0 (slice t.mem (arg t 0 % 2 ^ 32) 32))
        next)
        s

  unfoldable pub case_mstore : Run W (Unit {0})
  unfolding charge
  case_mstore s =
      (do
        grow_to (arg s 0) 32
        charge
        modify (λ t. record t { mem = write_at t.mem (arg t 0 % 2 ^ 32) (to_bytes 32 (arg t 1)) })
        next)
        s

  unfoldable pub case_mstore8 : Run W (Unit {0})
  unfolding charge
  case_mstore8 s =
      (do
        grow_to (arg s 0) 1
        charge
        modify (λ t. record t { mem = write_at t.mem (arg t 0 % 2 ^ 32) ((arg t 1 % 256) ∷ []) })
        next)
        s

  -- `owning_bytes_ref{std::move(m_mem), b, s}`
  abbrev output_of : Vm W → List ℕ
  output_of s = slice s.mem (arg s 0 % 2 ^ 64) (arg s 1 % 2 ^ 64)

  unfoldable pub case_return : Run W (Unit {0})
  unfolding charge
  case_return s =
      (do
        modify (λ t. record t { copy_mem_size = 0 })
        grow_for (arg s 0) (arg s 1)
        charge
        modify (λ t. record t { output = output_of t; mem = []; bounce = halted }))
        s

  -- The part of REVERT behind its guard. The exception carries the output.
  unfoldable pub revert_now : Run W (Unit {0})
  unfolding charge
  revert_now s =
      (do
        modify (λ t. record t { copy_mem_size = 0 })
        grow_for (arg s 0) (arg s 1)
        charge
        λ t. throw (revert_instruction (output_of t)) (record t { mem = [] }))
        s

  unfoldable pub case_revert : Run W (Unit {0})
  case_revert s = if s.schedule.have_revert then revert_now s else fail bad_instruction s

-- `m_SP[2]`, `m_SP[3]`, … : the `n` topics of LOGn.
unfoldable pub topics : {W : Type 0} → Vm W → ℕ → ℕ → List ℕ
topics s i zero = []
topics s i (suc n) = arg s i ∷ topics s (i + 1) n

module _ {W : Type 0} (face : ExtVmFace W) where
  unfoldable pub case_sha3 : Run W (Unit {0})
  unfolding charge
  case_sha3 s =
      (do
        set_run_gas (s.schedule.sha3_gas + (arg s 1 + 31) / 32 * s.schedule.sha3_word_gas)
        grow_for (arg s 0) (arg s 1)
        charge
        put_spp (λ t. face.sha3 (slice t.mem (arg t 0 % 2 ^ 64) (arg t 1 % 2 ^ 64)))
        next)
        s

  -- LOG0 to LOG4, by the number of topics.
  unfoldable pub case_log : ℕ → Run W (Unit {0})
  unfolding charge
  case_log n = do
    log_gas_mem n
    charge
    modify (λ t. record t {
      ext = face.log t.ext (topics t 2 n) (slice t.mem (arg t 0 % 2 ^ 64) (arg t 1 % 2 ^ 64));
    })
    next

  unfoldable pub case_calldatacopy : Run W (Unit {0})
  unfolding charge
  case_calldatacopy s =
      (do
        size ← to_int63 (arg s 2)
        modify (λ t. record t { copy_mem_size = size })
        grow_for (arg s 0) (arg s 2)
        charge
        modify (λ t. record t {
          mem = copy_data_to_memory (face.input t.ext) (arg t 0) (arg t 1) (arg t 2) t.mem;
        })
        next)
        s

  unfoldable pub case_codecopy : Run W (Unit {0})
  unfolding charge
  case_codecopy s =
      (do
        size ← to_int63 (arg s 2)
        modify (λ t. record t { copy_mem_size = size })
        grow_for (arg s 0) (arg s 2)
        charge
        modify (λ t. record t {
          mem = copy_data_to_memory (face.code t.ext) (arg t 0) (arg t 1) (arg t 2) t.mem;
        })
        next)
        s

  unfoldable pub case_extcodecopy : Run W (Unit {0})
  unfolding charge
  case_extcodecopy s =
      (do
        set_run_gas s.schedule.extcodecopy_gas
        size ← to_int63 (arg s 3)
        modify (λ t. record t { copy_mem_size = size })
        grow_for (arg s 1) (arg s 3)
        charge
        modify (λ t. record t {
          mem =
              copy_data_to_memory (face.code_at t.ext (as_address (arg t 0))) (arg t 1) (arg t 2)
                (arg t 3) t.mem;
        })
        next)
        s
