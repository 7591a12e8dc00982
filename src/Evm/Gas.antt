-- ===== src/Evm/Gas.antt =====
-- Metering, memory growth and the stack pointers: libevm/VM.cpp (memNeed, adjustStack, gasForMem,
-- updateIOGas, updateGas, updateMem, logGasMem, fetchInstruction), libevm/VM.h (toInt63) and
-- libevm/VMCalls.cpp (throwBadStack).
use x_chain.Prelude.{
  ℕ, ◌+◌, ◌-◌, ◌*◌, ◌/◌, ◌%◌, ◌^◌, List, ◌++◌, ltb, ◌==◌, if◌then◌else◌, length, get_or, replicate,
}
use x_chain.Evm.Word.{ℤ, pos, neg, ltℤ}
use x_chain.Evm.Instruction.{instruction_info, tier_index, decode}
use x_chain.Evm.Schedule.{EvmSchedule}
use x_chain.Evm.State.{
  Vm, Run, ok, ◌>>=◌, ◌>>◌, modify, fail, out_of_gas, out_of_stack, stack_underflow, stack_end,
}

-- the number that `gasForMem` computes
unfoldable pub mem_cost : EvmSchedule → ℕ → ℕ
mem_cost schedule size =
    let words = size / 32 in schedule.memory_gas * words + words * words / schedule.quad_coeff_div

-- `m_mem.resize(n)` for a larger n
unfoldable pub resize : List ℕ → ℕ → List ℕ
resize mem n = mem ++ replicate (n - length mem) 0

-- `_size ? u512(_offset) + _size : u512(0)`
abbrev pub span : ℕ → ℕ → ℕ
span offset size = if size == 0 then 0 else offset + size

-- `if (m_newMemSize > m_mem.size()) m_mem.resize(m_newMemSize);`
unfoldable pub grown : List ℕ → ℕ → List ℕ
unfolding resize
grown mem n = if ltb (length mem) n then resize mem n else mem

module _ {W : Type 0} where
  -- the item `m_SP[i]`
  abbrev pub arg : Vm W → ℕ → ℕ
  arg s i = s.stack (s.sp + i)

  unfoldable pub to_int63 : ℕ → Run W ℕ
  to_int63 v s = if ltb 0x7FFFFFFFFFFFFFFF v then fail out_of_gas s else ok v s

  unfoldable pub mem_need : ℕ → ℕ → Run W ℕ
  unfolding to_int63
  mem_need offset size = to_int63 (span offset size)

  -- `size` is the bigint m_stackEnd - m_SPP, of either sign.
  unfoldable pub throw_bad_stack : ℤ → ℕ → Run W (Unit {0})
  throw_bad_stack size removed =
      if ltℤ size (pos removed) then fail stack_underflow else fail out_of_stack

  unfoldable pub adjust_stack : ℕ → ℕ → Run W (Unit {0})
  unfolding throw_bad_stack
  adjust_stack removed added s =
      let below = s.spp + removed in
      let s1 = record s { sp = s.spp; spp = below } in
      if ltb stack_end below
      then throw_bad_stack (neg (below - stack_end)) removed s1
      else if ltb below added
      then throw_bad_stack (pos (stack_end + (added - below))) removed s1
      else ok tt (record s1 { spp = below - added })

  unfoldable pub gas_for_mem : ℕ → Run W ℕ
  unfolding mem_cost to_int63
  gas_for_mem size s = to_int63 (mem_cost s.schedule size) s

  unfoldable pub update_io_gas : Run W (Unit {0})
  update_io_gas s =
      if ltb s.io_gas s.run_gas
      then fail out_of_gas s
      else ok tt (record s { io_gas = s.io_gas - s.run_gas })

  -- the first statement of `updateGas`
  unfoldable pub charge_growth : Run W (Unit {0})
  unfolding gas_for_mem
  charge_growth s =
      if ltb (length s.mem) s.new_mem_size
      then (do
        new_cost ← gas_for_mem s.new_mem_size
        old_cost ← gas_for_mem (length s.mem)
        charge ← to_int63 ((new_cost + 2 ^ 64 - old_cost) % 2 ^ 64)
        modify (λ t. record t { run_gas = (t.run_gas + charge) % 2 ^ 64 }))
          s
      else ok tt s

  -- the rest of it
  unfoldable pub add_copy_price : Run W (Unit {0})
  add_copy_price s =
      let price =
        (s.run_gas + s.schedule.copy_gas * ((s.copy_mem_size + 31) % 2 ^ 64 / 32)) % 2 ^ 64 in
      let charged = record s { run_gas = price } in
      if ltb s.io_gas price then fail out_of_gas charged else ok tt charged

  unfoldable pub update_gas : Run W (Unit {0})
  update_gas = do charge_growth; add_copy_price

  -- `if (m_newMemSize > m_mem.size()) m_mem.resize(m_newMemSize);`
  unfoldable pub grow_mem : Run W (Unit {0})
  grow_mem s = ok tt (record s { mem = grown s.mem s.new_mem_size })

  unfoldable pub update_mem : ℕ → Run W (Unit {0})
  update_mem new_mem = do
    modify (λ s. record s { new_mem_size = (new_mem + 31) % 2 ^ 64 / 32 * 32 })
    update_gas
    grow_mem

  -- `m_runGas = toInt63(gas)`
  unfoldable pub set_run_gas : ℕ → Run W (Unit {0})
  unfolding to_int63
  set_run_gas gas = do cost ← to_int63 gas; modify (λ t. record t { run_gas = cost })

  -- `updateMem(toInt63(m_SP[0]) + n)`
  unfoldable pub grow_to : ℕ → ℕ → Run W (Unit {0})
  unfolding to_int63 update_mem
  grow_to offset n = do from ← to_int63 offset; update_mem (from + n)

  -- `updateMem(memNeed(offset, size))`
  unfoldable pub grow_for : ℕ → ℕ → Run W (Unit {0})
  unfolding mem_need update_mem
  grow_for offset size = do need ← mem_need offset size; update_mem need

  -- `n` is m_OP - LOG0
  unfoldable pub log_gas_mem : ℕ → Run W (Unit {0})
  log_gas_mem n s =
      (do
        set_run_gas (
            (s.schedule.log_gas + s.schedule.log_topic_gas * n) % 2 ^ 32
            + s.schedule.log_data_gas * arg s 1)
        grow_for (arg s 0) (arg s 1))
        s

  -- An undefined instruction has the tier with index 8, and the array has eight items: the read
  -- goes behind it, to the next member of the schedule on the usual layout, and what it gives is
  -- not used again.
  unfoldable pub fetch_instruction : Run W (Unit {0})
  unfolding adjust_stack to_int63
  fetch_instruction s =
      let op = decode (get_or s.code s.pc 0) in
      let metric = instruction_info op in
      (do
        modify (λ t. record t { op = op })
        adjust_stack metric.args metric.ret
        cost ←
            to_int63 (get_or s.schedule.tier_step_gas (tier_index metric.tier) s.schedule.exp_gas)
        modify (λ t. record t { run_gas = cost; new_mem_size = length t.mem; copy_mem_size = 0 }))
        s
