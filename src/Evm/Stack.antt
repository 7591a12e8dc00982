-- ===== src/Evm/Stack.antt =====
-- The stack of the machine: what `adjustStack` accepts, and what the instructions leave on it.
use x_chain.Prelude.{ℕ, ◌+◌, ◌-◌, ◌≤◌, ◌≡◌, arith, ltb, if◌then◌else◌}
use x_chain.Evm.State.{Vm, ok, fail, stack_end, stack_underflow, out_of_stack}
use x_chain.Evm.Gas.{adjust_stack, throw_bad_stack}

module _ {W : Type 0} where
  -- On a stack of d items, with the pointer inside the array, `adjustStack` reports an underflow
  -- exactly if fewer than `removed` are there, else an overflow exactly if more than 1024 would be
  -- there; else it moves the two pointers, and nothing else.
  pub adjust_stack_lem :
      (removed added : ℕ) (s : Vm W)
      → s.spp ≤ stack_end
      → adjust_stack removed added s ≡ (
          let s1 = record s { sp = s.spp; spp = s.spp + removed } in
          if ltb (stack_end - s.spp) removed
          then fail stack_underflow s1
          else if ltb stack_end (stack_end - s.spp - removed + added)
          then fail out_of_stack s1
          else ok tt (record s1 { spp = s.spp + removed - added }))
  unfolding adjust_stack throw_bad_stack
  adjust_stack_lem removed added s h = ground arith

  pub adjust_stack_ok :
      (removed added : ℕ) (s t : Vm W)
      → s.spp ≤ stack_end
      → adjust_stack removed added s ≡ ok tt t
      → (t ≡ record s { sp = s.spp; spp = s.spp + removed - added })
        × (s.spp + removed ≤ stack_end)
        × (added ≤ s.spp + removed)
  adjust_stack_ok removed added s t h e = ground (arith, adjust_stack_lem removed added s h)
