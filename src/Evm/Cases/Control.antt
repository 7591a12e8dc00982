-- ===== src/Evm/Cases/Control.antt =====
-- The cases that move the program counter or items of the stack, and `verifyJumpDest` of
-- libevm/VMCalls.cpp.
use x_chain.Prelude.{
  ℕ, zero, suc, ◌+◌, ◌-◌, ◌*◌, ◌%◌, List, [], ◌∷◌, Bool, false, ◌&&◌, ◌||◌, leb, ◌==◌,
  if◌then◌else◌, get_or,
}
use x_chain.Evm.Word.{word}
use x_chain.Evm.State.{Run, ok, ◌>>=◌, ◌>>◌, modify, fail, bad_jump_destination, halted}
use x_chain.Evm.Gas.{arg}
use x_chain.Evm.Ops.{update, put_spp, next, charge, value_case}

-- `std::binary_search`, which decides membership in a sorted range.
unfoldable pub contains : List ℕ → ℕ → Bool
contains [] x = false
contains (y ∷ ys) x = x == y || contains ys x

-- `for (++m_PC; numBytes--; ++m_PC) m_SPP[0] = (m_SPP[0] << 8) | m_code[m_PC];`
-- The low byte of the shifted word is 0, so the `|` is a sum.
unfoldable pub push_bytes : List ℕ → ℕ → ℕ → ℕ → ℕ
push_bytes code pc zero v = v
push_bytes code pc (suc n) v = push_bytes code (pc + 1) n (v * 256 % word + get_or code pc 0)

module _ {W : Type 0} where
  -- `verifyJumpDest(_dest, true)`
  unfoldable pub verify_jump_dest : ℕ → Run W ℕ
  verify_jump_dest dest s =
      if leb dest 0x7FFFFFFFFFFFFFFF && contains s.jump_dests dest
      then ok dest s
      else fail bad_jump_destination s

  unfoldable pub case_stop : Run W (Unit {0})
  unfolding charge
  case_stop = do charge; modify (λ s. record s { bounce = halted })

  -- The case also moves `m_SP`, which the next fetch overwrites.
  unfoldable pub case_pop : Run W (Unit {0})
  unfolding charge
  case_pop = do charge; modify (λ s. record s { sp = s.sp - 1 }); next

  unfoldable pub case_push1 : Run W (Unit {0})
  unfolding charge
  case_push1 = do charge; next; put_spp (λ s. get_or s.code s.pc 0); next

  unfoldable pub case_push : ℕ → Run W (Unit {0})
  unfolding charge
  case_push n = do
    charge
    put_spp (λ s. push_bytes s.code (s.pc + 1) n 0)
    modify (λ s. record s { pc = s.pc + 1 + n })

  unfoldable pub case_jump : Run W (Unit {0})
  unfolding charge verify_jump_dest
  case_jump = do
    charge
    λ s. (do dest ← verify_jump_dest (arg s 0); modify (λ t. record t { pc = dest })) s

  unfoldable pub case_jumpi : Run W (Unit {0})
  unfolding charge verify_jump_dest
  case_jumpi = do
    charge
    λ s.
        if arg s 1 == 0
        then next s
        else (do dest ← verify_jump_dest (arg s 0); modify (λ t. record t { pc = dest })) s

  -- `n` is the number in the name; the source counts from DUP1 as 0.
  unfoldable pub case_dup : ℕ → Run W (Unit {0})
  unfolding value_case
  case_dup n = value_case λ s. arg s (n - 1)

  unfoldable pub case_swap : ℕ → Run W (Unit {0})
  unfolding charge
  case_swap n = do
    charge
    modify (λ s. record s { stack = update (update s.stack s.sp (arg s n)) (s.sp + n) (arg s 0) })
    next

  unfoldable pub case_jumpdest : Run W (Unit {0})
  unfolding charge
  case_jumpdest = do modify (λ s. record s { run_gas = 1 }); charge; next
