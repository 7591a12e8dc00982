-- ===== src/Evm/Invariant/Cases.antt =====
-- What every round of the interpreter keeps: the stack pointer stays inside the stack, the memory
-- stays a whole number of words, and the code and its table of jump destinations stay as `optimize`
-- made them.
use x_chain.Prelude.{ℕ, ◌+◌, ◌*◌, ◌%◌, ◌^◌, ◌≤◌, ◌≡◌, ◌⊎◌, ◌≢◌, arith, length, true, [], ◌∷◌}
use x_chain.Evm.Instruction.{
  Instruction, stop, mload, mstore, mstore8, return, revert, sha3, log, calldatacopy, codecopy,
  extcodecopy,
}
use x_chain.Evm.State.{
  ExtVmFace, Vm, ok, Bounce, init_entry, interpret_cases, case_create, case_call, halted,
}
use x_chain.Evm.Gas.{arg, grow_to, grow_for, log_gas_mem, grown, span}
use x_chain.Evm.Growth.{after, after_price, after_int63, after_charge, charged}
use x_chain.Evm.Invariant.Layout.{push_width}
use x_chain.Evm.Shape.{
  length-write_at, length-copy_data_to_memory, length-grown, grow_for_shape, grow_to_shape,
  ShapedBy, after_shape,
}
use x_chain.Evm.Interpreter.{interpret_case}
use x_chain.Evm.Bytes.{as_address, to_bytes}
use x_chain.Evm.Cases.Control.{contains}
use x_chain.Evm.Cases.World.{create_or_not, create_case}
use x_chain.Evm.Cases.Memory.{
  case_mload, case_mstore, case_mstore8, case_return, case_revert, revert_now, case_sha3, case_log,
  case_calldatacopy, case_codecopy, case_extcodecopy,
}

-- A call-out that is due leaves the counter on its instruction.
abbrev pub slack : Bounce → ℕ
slack case_create = 1
slack case_call = 1
slack _ = 0

module _ {W : Type 0} where
  -- What a case of the switch, or a call-out, leaves alone, and where it goes on: behind the
  -- instruction and its `w` bytes of data, or at a jump destination.
  pub record Kept (w : ℕ) (s t : Vm W) : Type 0 where
    pub code : t.code ≡ s.code
    pub jump_dests : t.jump_dests ≡ s.jump_dests
    pub spp : t.spp ≡ s.spp
    pub words : length s.mem % 32 ≡ 0 → length t.mem % 32 ≡ 0
    pub moves :
        (t.bounce ≡ halted)
        ⊎ (t.pc + slack t.bounce ≤ s.pc + slack s.bounce + 1 + w)
        ⊎ ((contains s.jump_dests t.pc ≡ true) × (t.bounce ≡ s.bounce))
    pub begun : s.bounce ≢ init_entry → t.bounce ≢ init_entry
    pub grows : (t.bounce ≡ halted) ⊎ (length s.mem ≤ length t.mem)

  mload-Kept : (s t : Vm W) → case_mload s ≡ ok tt t → Kept 0 s t
  unfolding case_mload
  mload-Kept s t h =
      after_shape (arg s 0 + 32) s t (grow_to (arg s 0) 32 s) _
        (λ u. grow_to_shape (arg s 0) 32 s u (omega arith)) h
        λ r n h1 k w. ground (arith, length-grown s.mem n)

  mstore-Kept : (s t : Vm W) → case_mstore s ≡ ok tt t → Kept 0 s t
  unfolding case_mstore
  mstore-Kept s t h =
      after_shape (arg s 0 + 32) s t (grow_to (arg s 0) 32 s) _
        (λ u. grow_to_shape (arg s 0) 32 s u (omega arith)) h
        λ r n h1 k w. ground (
          arith,
          length-grown s.mem n,
          length-write_at (grown s.mem n) (arg s 0 % 2 ^ 32) (to_bytes 32 (arg s 1)),
        )

  mstore8-Kept : (s t : Vm W) → case_mstore8 s ≡ ok tt t → Kept 0 s t
  unfolding case_mstore8
  mstore8-Kept s t h =
      after_shape (arg s 0 + 1) s t (grow_to (arg s 0) 1 s) _
        (λ u. grow_to_shape (arg s 0) 1 s u (omega arith)) h
        λ r n h1 k w. ground (
          arith,
          length-grown s.mem n,
          length-write_at (grown s.mem n) (arg s 0 % 2 ^ 32) ((arg s 1 % 256) ∷ []),
        )

  return-Kept : (s t : Vm W) → case_return s ≡ ok tt t → Kept 0 s t
  unfolding case_return
  return-Kept s t h =
      let s0 : Vm W = record s { copy_mem_size = 0 } in
      after_shape (span (arg s 0) (arg s 1)) s0 t (grow_for (arg s 0) (arg s 1) s0) _
        (grow_for_shape (arg s 0) (arg s 1) s0) h λ r n h1 k w. ground arith

  revert_now-Kept : (s t : Vm W) → revert_now s ≡ ok tt t → Kept 0 s t
  unfolding revert_now
  revert_now-Kept s t h =
      let s0 : Vm W = record s { copy_mem_size = 0 } in
      after_shape (span (arg s 0) (arg s 1)) s0 t (grow_for (arg s 0) (arg s 1) s0) _
        (grow_for_shape (arg s 0) (arg s 1) s0) h λ r n h1 k w. ground arith

  revert-Kept : (s t : Vm W) → case_revert s ≡ ok tt t → Kept 0 s t
  unfolding case_revert
  revert-Kept s t h = ground (arith, revert_now-Kept s t)

module _ {W : Type 0} (face : ExtVmFace W) where
  sha3-Kept : (s t : Vm W) → case_sha3 face s ≡ ok tt t → Kept 0 s t
  unfolding case_sha3
  sha3-Kept s t h = after_price _ s t _ h λ fits h0.
      let s0 : Vm W = record s { run_gas = _ } in
      after_shape (span (arg s 0) (arg s 1)) s0 t (grow_for (arg s 0) (arg s 1) s0) _
        (grow_for_shape (arg s 0) (arg s 1) s0) h0
        λ r n h1 k w. ground (arith, length-grown s.mem n)

  log_gas_mem_shape :
      (n : ℕ) (s t : Vm W)
      → log_gas_mem n s ≡ ok tt t
      → ShapedBy
          (span (arg s 0) (arg s 1))
          (record s {
            run_gas =
                (s.schedule.log_gas + s.schedule.log_topic_gas * n) % 2 ^ 32
                + s.schedule.log_data_gas * arg s 1;
          })
          t
  unfolding log_gas_mem
  log_gas_mem_shape n s t h =
      after_price _ s t _ h λ fits. grow_for_shape (arg s 0) (arg s 1) (record s { run_gas = _ }) t

  log-Kept : (n : ℕ) (s t : Vm W) → case_log face n s ≡ ok tt t → Kept 0 s t
  unfolding case_log
  log-Kept n s t h =
      let s0 : Vm W = record s {
        run_gas =
            (s.schedule.log_gas + s.schedule.log_topic_gas * n) % 2 ^ 32
            + s.schedule.log_data_gas * arg s 1;
      } in
      after_shape (span (arg s 0) (arg s 1)) s0 t (log_gas_mem n s) _ (log_gas_mem_shape n s) h
        λ r size h1 k w. ground (arith, length-grown s.mem size)

  calldatacopy-Kept : (s t : Vm W) → case_calldatacopy face s ≡ ok tt t → Kept 0 s t
  unfolding case_calldatacopy
  calldatacopy-Kept s t h = after_int63 (arg s 2) s t _ h λ fits h0.
      let s0 : Vm W = record s { copy_mem_size = arg s 2 } in
      after_shape (span (arg s 0) (arg s 2)) s0 t (grow_for (arg s 0) (arg s 2) s0) _
        (grow_for_shape (arg s 0) (arg s 2) s0) h0
        λ r n h1 k w. ground (
          arith,
          length-grown s.mem n,
          length-copy_data_to_memory (face.input s.ext) (arg s 0) (arg s 1) (arg s 2)
              (grown s.mem n),
        )

  codecopy-Kept : (s t : Vm W) → case_codecopy face s ≡ ok tt t → Kept 0 s t
  unfolding case_codecopy
  codecopy-Kept s t h = after_int63 (arg s 2) s t _ h λ fits h0.
      let s0 : Vm W = record s { copy_mem_size = arg s 2 } in
      after_shape (span (arg s 0) (arg s 2)) s0 t (grow_for (arg s 0) (arg s 2) s0) _
        (grow_for_shape (arg s 0) (arg s 2) s0) h0
        λ r n h1 k w. ground (
          arith,
          length-grown s.mem n,
          length-copy_data_to_memory (face.code s.ext) (arg s 0) (arg s 1) (arg s 2)
              (grown s.mem n),
        )

  extcodecopy-Kept : (s t : Vm W) → case_extcodecopy face s ≡ ok tt t → Kept 0 s t
  unfolding case_extcodecopy
  extcodecopy-Kept s t h = after_price _ s t _ h λ small h'.
      after_int63 (arg s 3) (record s { run_gas = s.schedule.extcodecopy_gas }) t _ h'
        λ fits h0.
          let s0 : Vm W = record s {
            run_gas = s.schedule.extcodecopy_gas;
            copy_mem_size = arg s 3;
          } in
          after_shape (span (arg s 1) (arg s 3)) s0 t (grow_for (arg s 1) (arg s 3) s0) _
            (grow_for_shape (arg s 1) (arg s 3) s0) h0
            λ r n h1 k w. ground (
              arith,
              length-grown s.mem n,
              length-copy_data_to_memory (face.code_at s.ext (as_address (arg s 0))) (arg s 1)
                  (arg s 2) (arg s 3) (grown s.mem n),
            )

  pub case-Kept :
      (i : Instruction) (s t : Vm W) → interpret_case face i s ≡ ok tt t → Kept (push_width i) s t
  unfolding interpret_case
  case-Kept stop s t h = ground arith
  case-Kept mload s t h = mload-Kept s t h
  case-Kept mstore s t h = mstore-Kept s t h
  case-Kept mstore8 s t h = mstore8-Kept s t h
  case-Kept return s t h = return-Kept s t h
  case-Kept revert s t h = revert-Kept s t h
  case-Kept sha3 s t h = sha3-Kept s t h
  case-Kept (log n) s t h = log-Kept n s t h
  case-Kept calldatacopy s t h = calldatacopy-Kept s t h
  case-Kept codecopy s t h = codecopy-Kept s t h
  case-Kept extcodecopy s t h = extcodecopy-Kept s t h
  case-Kept _ s t h = ground arith

  create_or_not-Kept :
      (s t : Vm W)
      → create_or_not face s ≡ ok tt t
      → (t.code ≡ s.code)
        × (t.jump_dests ≡ s.jump_dests)
        × (t.spp ≡ s.spp)
        × (t.mem ≡ s.mem)
        × (t.pc ≡ s.pc)
        × (t.bounce ≡ s.bounce)
  unfolding create_or_not
  create_or_not-Kept s t h = ground arith

  pub create-Kept :
      (s t : Vm W)
      → s.bounce ≡ case_create
      → create_case face s ≡ ok tt t
      → (t.bounce ≡ interpret_cases) × (t.pc ≡ s.pc + 1) × Kept 0 s t
  unfolding create_case
  create-Kept s t b h =
      after_price _ (record s { bounce = interpret_cases }) t _ h
        λ fits h0.
          let s0 : Vm W = record s { bounce = interpret_cases; run_gas = _ } in
          after_shape (span (arg s 1) (arg s 2)) s0 t (grow_for (arg s 1) (arg s 2) s0) _
            (grow_for_shape (arg s 1) (arg s 2) s0) h0
            λ r n h1 k w.
              let s1 : Vm W = record s0 { run_gas = r; new_mem_size = n; mem = grown s.mem n } in
              after_charge s1 _ h1 λ paid h2.
                after (create_or_not face (charged s1)) _ h2 λ a u e h3.
                  ground (arith, create_or_not-Kept (charged s1) u e, length-grown s.mem n)
