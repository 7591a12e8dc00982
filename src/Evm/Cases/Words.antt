-- ===== src/Evm/Cases/Words.antt =====
-- The cases that compute a word from words.
use x_chain.Prelude.{◌%◌, ◌^◌, ℕ, ◌+◌, ◌-◌, ◌*◌, ◌/◌, bit_and, bit_or, bit_xor}
use x_chain.Evm.Word.{
  add256, mul256, sub256, div256, sdiv256, mod256, smod256, not256, lt256, gt256, slt256, sgt256,
  eq256, is_zero256, byte256, addmod256, mulmod256, signextend256, exp256,
}
use x_chain.Evm.Bytes.{to_bytes, first_bit_set}
use x_chain.Evm.State.{Run, ◌>>=◌, ◌>>◌, modify}
use x_chain.Evm.Gas.{arg, to_int63}
use x_chain.Evm.Ops.{update, next, charge, value_case, unary, binary, ternary}

-- `32 - (h256(expon).firstBitSet() / 8)`
unfoldable pub exp_bytes : ℕ → ℕ
unfolding to_bytes first_bit_set
exp_bytes exponent = 32 - first_bit_set 0 (to_bytes 32 exponent) / 8

module _ {W : Type 0} where
  unfoldable pub case_exp : Run W (Unit {0})
  unfolding to_int63 value_case
  case_exp s =
      let exponent = arg s 1 in
      (do
        cost ←
            to_int63 ((s.schedule.exp_gas + s.schedule.exp_byte_gas * exp_bytes exponent) % 2 ^ 32)
        modify (λ t. record t { run_gas = cost })
        value_case (λ t. exp256 (arg t 0) exponent))
        s

  unfoldable pub case_add : Run W (Unit {0})
  unfolding binary
  case_add = binary add256

  unfoldable pub case_mul : Run W (Unit {0})
  unfolding binary
  case_mul = binary mul256

  unfoldable pub case_sub : Run W (Unit {0})
  unfolding binary
  case_sub = binary sub256

  unfoldable pub case_div : Run W (Unit {0})
  unfolding binary
  case_div = binary div256

  -- The case also moves `m_SP`, which the next fetch overwrites.
  unfoldable pub case_sdiv : Run W (Unit {0})
  unfolding charge
  case_sdiv = do
    charge
    modify (λ s. record s {
      stack = update s.stack s.spp (sdiv256 (arg s 0) (arg s 1));
      sp = s.sp - 1;
    })
    next

  unfoldable pub case_mod : Run W (Unit {0})
  unfolding binary
  case_mod = binary mod256

  unfoldable pub case_smod : Run W (Unit {0})
  unfolding binary
  case_smod = binary smod256

  unfoldable pub case_not : Run W (Unit {0})
  unfolding unary
  case_not = unary not256

  unfoldable pub case_lt : Run W (Unit {0})
  unfolding binary
  case_lt = binary lt256

  unfoldable pub case_gt : Run W (Unit {0})
  unfolding binary
  case_gt = binary gt256

  unfoldable pub case_slt : Run W (Unit {0})
  unfolding binary
  case_slt = binary slt256

  unfoldable pub case_sgt : Run W (Unit {0})
  unfolding binary
  case_sgt = binary sgt256

  unfoldable pub case_eq : Run W (Unit {0})
  unfolding binary
  case_eq = binary eq256

  unfoldable pub case_iszero : Run W (Unit {0})
  unfolding unary
  case_iszero = unary is_zero256

  unfoldable pub case_and : Run W (Unit {0})
  unfolding binary
  case_and = binary bit_and

  unfoldable pub case_or : Run W (Unit {0})
  unfolding binary
  case_or = binary bit_or

  unfoldable pub case_xor : Run W (Unit {0})
  unfolding binary
  case_xor = binary bit_xor

  unfoldable pub case_byte : Run W (Unit {0})
  unfolding binary
  case_byte = binary byte256

  unfoldable pub case_addmod : Run W (Unit {0})
  unfolding ternary
  case_addmod = ternary addmod256

  unfoldable pub case_mulmod : Run W (Unit {0})
  unfolding ternary
  case_mulmod = ternary mulmod256

  -- `number` is a reference to `m_SP[1]`.
  unfoldable pub case_signextend : Run W (Unit {0})
  unfolding charge
  case_signextend = do
    charge
    modify (λ s. record s { stack = update s.stack (s.sp + 1) (signextend256 (arg s 0) (arg s 1)) })
    next
