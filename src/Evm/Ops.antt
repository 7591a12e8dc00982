-- ===== src/Evm/Ops.antt =====
-- What the cases of the interpreter share.
use x_chain.Prelude.{ℕ, ◌+◌, ◌==◌, if◌then◌else◌}
use x_chain.Evm.State.{Vm, Run, ◌>>◌, modify, on_op}
use x_chain.Evm.Gas.{arg, update_io_gas}

abbrev pub update : (ℕ → ℕ) → ℕ → ℕ → ℕ → ℕ
update stack i v j = if j == i then v else stack j

module _ {W : Type 0} where
  -- `m_SPP[0] = v`
  abbrev pub put_spp : (Vm W → ℕ) → Run W (Unit {0})
  put_spp v = modify λ s. record s { stack = update s.stack s.spp (v s) }

  -- `++m_PC`
  abbrev pub next : Run W (Unit {0})
  next = modify λ s. record s { pc = s.pc + 1 }

  -- ON_OP(); updateIOGas();
  unfoldable pub charge : Run W (Unit {0})
  unfolding update_io_gas
  charge = do on_op; update_io_gas

  -- The common form of an ordinary instruction: charge, write `m_SPP[0]`, NEXT.
  unfoldable pub value_case : (Vm W → ℕ) → Run W (Unit {0})
  unfolding charge
  value_case v = do charge; put_spp v; next

  unfoldable pub unary : (ℕ → ℕ) → Run W (Unit {0})
  unfolding value_case
  unary f = value_case λ s. f (arg s 0)

  unfoldable pub binary : (ℕ → ℕ → ℕ) → Run W (Unit {0})
  unfolding value_case
  binary f = value_case λ s. f (arg s 0) (arg s 1)

  unfoldable pub ternary : (ℕ → ℕ → ℕ → ℕ) → Run W (Unit {0})
  unfolding value_case
  ternary f = value_case λ s. f (arg s 0) (arg s 1) (arg s 2)
