-- ===== src/Evm/Termination/Growing.antt =====
-- The cases that may grow the memory pay for it.
use native.Mathlib.Nat.{mul-le-mul}
use x_chain.Prelude.{◌%◌, ℕ, ◌+◌, ◌*◌, ◌/◌, ◌^◌, ◌<◌, ◌≤◌, ◌≡◌, ◌≢◌, arith}
use x_chain.Evm.State.{ExtVmFace, Vm, ok, interpret_cases}
use x_chain.Evm.Gas.{arg, span, grow_to, grow_for, log_gas_mem}
use x_chain.Evm.Growth.{
  IsModest, GrownBy, after_growth, grow_to_lem, grow_for_lem, after_price, after_int63,
}
use x_chain.Evm.Cases.Memory.{
  case_mload, case_mstore, case_mstore8, case_return, revert_now, case_revert, case_sha3, case_log,
  case_calldatacopy, case_codecopy, case_extcodecopy,
}
use x_chain.Evm.Termination.Budget.{Progress}

mul_bound : (k q : ℕ) → k ≤ 16 → q ≤ 2 ^ 58 → k * q ≤ 2 ^ 62
mul_bound k q hk hq = omega (arith, mul-le-mul hk hq)

-- the price of copying at most 2 ^ 63 bytes
copy_bound : (k c : ℕ) → k ≤ 16 → c < 2 ^ 63 → k * ((c + 31) / 32) ≤ 2 ^ 62
copy_bound k c hk hc =
    let q : (c + 31) / 32 ≤ 2 ^ 58 = omega arith in mul_bound k ((c + 31) / 32) hk q

module _ {W : Type 0} where
  -- A state in which nothing is to be copied.
  pub plain : (s : Vm W) → s.run_gas < 2 ^ 63 → s.copy_mem_size ≡ 0 → IsModest s
  plain s g c = record { own = g; copied = omega arith; sum = rw c (omega arith) }

  copying :
      (s : Vm W)
      → s.run_gas < 2 ^ 32
      → s.copy_mem_size < 2 ^ 63
      → s.schedule.copy_gas ≤ 16
      → IsModest s
  copying s g c k = record {
    own = omega arith;
    copied = c;
    sum = omega (arith, copy_bound s.schedule.copy_gas s.copy_mem_size k c);
  }

  pub mload-Progress :
      (s t : Vm W)
      → 1 ≤ s.run_gas
      → s.run_gas < 2 ^ 32
      → s.copy_mem_size ≡ 0
      → case_mload s ≡ ok tt t
      → Progress s t
  unfolding case_mload
  mload-Progress s t p k c h =
      after_growth (arg s 0 + 32) s t (grow_to (arg s 0) 32 s) _
        (λ s1. grow_to_lem (arg s 0) 32 s s1 (plain s (omega arith) c) (omega arith)) h
        λ r size h1 lo hi n. ground arith

  pub mstore-Progress :
      (s t : Vm W)
      → 1 ≤ s.run_gas
      → s.run_gas < 2 ^ 32
      → s.copy_mem_size ≡ 0
      → case_mstore s ≡ ok tt t
      → Progress s t
  unfolding case_mstore
  mstore-Progress s t p k c h =
      after_growth (arg s 0 + 32) s t (grow_to (arg s 0) 32 s) _
        (λ s1. grow_to_lem (arg s 0) 32 s s1 (plain s (omega arith) c) (omega arith)) h
        λ r size h1 lo hi n. ground arith

  pub mstore8-Progress :
      (s t : Vm W)
      → 1 ≤ s.run_gas
      → s.run_gas < 2 ^ 32
      → s.copy_mem_size ≡ 0
      → case_mstore8 s ≡ ok tt t
      → Progress s t
  unfolding case_mstore8
  mstore8-Progress s t p k c h =
      after_growth (arg s 0 + 1) s t (grow_to (arg s 0) 1 s) _
        (λ s1. grow_to_lem (arg s 0) 1 s s1 (plain s (omega arith) c) (omega arith)) h
        λ r size h1 lo hi n. ground arith

  -- RETURN and REVERT may cost nothing, but they end the run.
  pub return-Progress : (s t : Vm W) → s.run_gas < 2 ^ 63 → case_return s ≡ ok tt t → Progress s t
  unfolding case_return
  return-Progress s t k h =
      let s0 : Vm W = record s { copy_mem_size = 0 } in
      after_growth (span (arg s 0) (arg s 1)) s0 t (grow_for (arg s 0) (arg s 1) s0) _
        (λ s1. grow_for_lem (arg s 0) (arg s 1) s0 s1 (plain s0 k (omega arith))) h
        λ r size h1 lo hi n. ground arith

  revert_now-ne-ok : (s t : Vm W) → s.run_gas < 2 ^ 63 → revert_now s ≢ ok tt t
  unfolding revert_now
  revert_now-ne-ok s t k h =
      let s0 : Vm W = record s { copy_mem_size = 0 } in
      after_growth (span (arg s 0) (arg s 1)) s0 t (grow_for (arg s 0) (arg s 1) s0) _
        (λ s1. grow_for_lem (arg s 0) (arg s 1) s0 s1 (plain s0 k (omega arith))) h
        λ r size h1 lo hi n. ground arith

  pub revert-Progress : (s t : Vm W) → s.run_gas < 2 ^ 63 → case_revert s ≡ ok tt t → Progress s t
  unfolding case_revert
  revert-Progress s t k h = ground (arith, revert_now-ne-ok s t)

  log_gas_mem_lem :
      (n : ℕ) (s : Vm W)
      → s.copy_mem_size ≡ 0
      → (t : Vm W) → log_gas_mem n s ≡ ok tt t
      → GrownBy
          (span (arg s 0) (arg s 1))
          (record s {
            run_gas =
                (s.schedule.log_gas + s.schedule.log_topic_gas * n) % 2 ^ 32
                + s.schedule.log_data_gas * arg s 1;
          })
          t
  unfolding log_gas_mem
  log_gas_mem_lem n s c t h =
      after_price _ s t _ h
        λ fits h0. grow_for_lem (arg s 0) (arg s 1) (record s { run_gas = _ }) t (plain _ fits c) h0

module _ {W : Type 0} (face : ExtVmFace W) where
  pub sha3-Progress :
      (s t : Vm W)
      → 1 ≤ s.schedule.sha3_gas
      → s.copy_mem_size ≡ 0
      → case_sha3 face s ≡ ok tt t
      → Progress s t
  unfolding case_sha3
  sha3-Progress s t p c h = after_price _ s t _ h λ fits h0.
      let v = s.schedule.sha3_gas + (arg s 1 + 31) / 32 * s.schedule.sha3_word_gas in
      let s0 : Vm W = record s { run_gas = v } in
      after_growth (span (arg s 0) (arg s 1)) s0 t (grow_for (arg s 0) (arg s 1) s0) _
        (λ s1. grow_for_lem (arg s 0) (arg s 1) s0 s1 (plain s0 fits c)) h0
        λ r size h1 lo hi n. ground arith

  pub log-Progress :
      (n : ℕ) (s t : Vm W)
      → 1 ≤ (s.schedule.log_gas + s.schedule.log_topic_gas * n) % 2 ^ 32
      → s.copy_mem_size ≡ 0
      → case_log face n s ≡ ok tt t
      → Progress s t
  unfolding case_log
  log-Progress n s t p c h =
      let v =
        (s.schedule.log_gas + s.schedule.log_topic_gas * n) % 2 ^ 32
        + s.schedule.log_data_gas * arg s 1 in
      let s0 : Vm W = record s { run_gas = v } in
      after_growth (span (arg s 0) (arg s 1)) s0 t (log_gas_mem n s) _ (log_gas_mem_lem n s c) h
        λ r size h1 lo hi k. ground arith

  pub calldatacopy-Progress :
      (s t : Vm W)
      → 1 ≤ s.run_gas
      → s.run_gas < 2 ^ 32
      → s.schedule.copy_gas ≤ 16
      → s.bounce ≡ interpret_cases
      → case_calldatacopy face s ≡ ok tt t
      → Progress s t
  unfolding case_calldatacopy
  calldatacopy-Progress s t p k c b h = after_int63 (arg s 2) s t _ h λ fits h0.
      let s0 : Vm W = record s { copy_mem_size = arg s 2 } in
      after_growth (span (arg s 0) (arg s 2)) s0 t (grow_for (arg s 0) (arg s 2) s0) _
        (λ s1. grow_for_lem (arg s 0) (arg s 2) s0 s1 (copying s0 k fits c)) h0
        λ r size h1 lo hi n. ground arith

  pub codecopy-Progress :
      (s t : Vm W)
      → 1 ≤ s.run_gas
      → s.run_gas < 2 ^ 32
      → s.schedule.copy_gas ≤ 16
      → s.bounce ≡ interpret_cases
      → case_codecopy face s ≡ ok tt t
      → Progress s t
  unfolding case_codecopy
  codecopy-Progress s t p k c b h = after_int63 (arg s 2) s t _ h λ fits h0.
      let s0 : Vm W = record s { copy_mem_size = arg s 2 } in
      after_growth (span (arg s 0) (arg s 2)) s0 t (grow_for (arg s 0) (arg s 2) s0) _
        (λ s1. grow_for_lem (arg s 0) (arg s 2) s0 s1 (copying s0 k fits c)) h0
        λ r size h1 lo hi n. ground arith

  pub extcodecopy-Progress :
      (s t : Vm W)
      → 1 ≤ s.schedule.extcodecopy_gas
      → s.schedule.extcodecopy_gas < 2 ^ 32
      → s.schedule.copy_gas ≤ 16
      → s.bounce ≡ interpret_cases
      → case_extcodecopy face s ≡ ok tt t
      → Progress s t
  unfolding case_extcodecopy
  extcodecopy-Progress s t p k c b h = after_price _ s t _ h λ small h'.
      after_int63 (arg s 3) (record s { run_gas = s.schedule.extcodecopy_gas }) t _ h'
        λ fits h0.
          let s0 : Vm W = record s {
            run_gas = s.schedule.extcodecopy_gas;
            copy_mem_size = arg s 3;
          } in
          after_growth (span (arg s 1) (arg s 3)) s0 t (grow_for (arg s 1) (arg s 3) s0) _
            (λ s1. grow_for_lem (arg s 1) (arg s 3) s0 s1 (copying s0 k fits c)) h0
            λ r size h1 lo hi n. ground arith
