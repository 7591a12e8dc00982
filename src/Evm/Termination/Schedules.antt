-- ===== src/Evm/Termination/Schedules.antt =====
-- The schedules of libevmcore/EVMSchedule.h, and the gas over a run.
use x_chain.Prelude.{
  ◌+◌, ◌*◌, ℕ, ◌^◌, ◌<◌, ◌≤◌, ◌≡◌, refl, sym, subst, ◌∙◌, Bool, true, false, arith, [], ◌∷◌, All,
}
use x_chain.Evm.Schedule.{
  EvmSchedule, default_schedule, frontier_schedule, homestead_schedule, eip150_schedule,
  eip158_schedule, metropolis_schedule,
}
use x_chain.Evm.State.{ExtVmFace, Vm}
use x_chain.Evm.Invariant.Reach.{Reaches, at_once, round}
use x_chain.Evm.Termination.Budget.{IsPriced, ready}
use x_chain.Evm.Termination.Calling.{IsFrugal}
use x_chain.Evm.Termination.Steps.{bounce-Progress}

pub default-IsPriced : IsPriced default_schedule
default-IsPriced = record {
  base_tier = omega arith;
  very_low_tier = omega arith;
  low_tier = omega arith;
  mid_tier = omega arith;
  high_tier = omega arith;
  ext_tier = omega arith;
  very_low_unsigned = omega arith;
  exp = omega arith;
  exp_unsigned = omega arith;
  sha3 = omega arith;
  sload = omega arith;
  sstore_set = omega arith;
  sstore_reset = omega arith;
  log = omega arith;
  log_unsigned = omega arith;
  create = omega arith;
  call = omega arith;
  extcodesize = omega arith;
  extcodecopy = omega arith;
  extcodecopy_unsigned = omega arith;
  balance = omega arith;
  copy = omega arith;
  call_unsigned = omega arith;
  call_new_account_unsigned = omega arith;
  call_value_transfer_unsigned = omega arith;
  stipend = omega arith;
}

-- a schedule that changes prices of which only those of account access have to be looked at
dearer-IsPriced : IsPriced eip150_schedule
dearer-IsPriced = record {
  base_tier = omega arith;
  very_low_tier = omega arith;
  low_tier = omega arith;
  mid_tier = omega arith;
  high_tier = omega arith;
  ext_tier = omega arith;
  very_low_unsigned = omega arith;
  exp = omega arith;
  exp_unsigned = omega arith;
  sha3 = omega arith;
  sload = omega arith;
  sstore_set = omega arith;
  sstore_reset = omega arith;
  log = omega arith;
  log_unsigned = omega arith;
  create = omega arith;
  call = omega arith;
  extcodesize = omega arith;
  extcodecopy = omega arith;
  extcodecopy_unsigned = omega arith;
  balance = omega arith;
  copy = omega arith;
  call_unsigned = omega arith;
  call_new_account_unsigned = omega arith;
  call_value_transfer_unsigned = omega arith;
  stipend = omega arith;
}

-- what the other schedules change does not matter
changed-IsPriced :
    (p : EvmSchedule) (failing delegate is_eip158 reverts : Bool) (tx_create exp_byte : ℕ)
    → p.exp_gas + exp_byte * 32 < 2 ^ 32
    → IsPriced p
    → IsPriced (record p {
      exceptional_failed_code_deposit = failing;
      have_delegate_call = delegate;
      eip158_mode = is_eip158;
      have_revert = reverts;
      tx_create_gas = tx_create;
      exp_byte_gas = exp_byte;
    })
changed-IsPriced p failing delegate is_eip158 reverts tx_create exp_byte fits q = record {
  base_tier = q.base_tier;
  very_low_tier = q.very_low_tier;
  low_tier = q.low_tier;
  mid_tier = q.mid_tier;
  high_tier = q.high_tier;
  ext_tier = q.ext_tier;
  very_low_unsigned = q.very_low_unsigned;
  exp = q.exp;
  exp_unsigned = fits;
  sha3 = q.sha3;
  sload = q.sload;
  sstore_set = q.sstore_set;
  sstore_reset = q.sstore_reset;
  log = q.log;
  log_unsigned = q.log_unsigned;
  create = q.create;
  call = q.call;
  extcodesize = q.extcodesize;
  extcodecopy = q.extcodecopy;
  extcodecopy_unsigned = q.extcodecopy_unsigned;
  balance = q.balance;
  copy = q.copy;
  call_unsigned = q.call_unsigned;
  call_new_account_unsigned = q.call_new_account_unsigned;
  call_value_transfer_unsigned = q.call_value_transfer_unsigned;
  stipend = q.stipend;
}

-- Every schedule of the program charges for each instruction that does not end a run; the prices of
-- the very low tier, of EXP, LOG, EXTCODECOPY and of calls fit into 32 bits, a copied word costs at most 16,
-- and the stipend of a call is at most the price of the transfer that earns it.
pub schedules-IsPriced : All IsPriced (
    default_schedule ∷ frontier_schedule ∷ homestead_schedule ∷ eip150_schedule ∷ eip158_schedule
    ∷ metropolis_schedule ∷ [])
schedules-IsPriced = (
  default-IsPriced,
  (
    changed-IsPriced default_schedule false false false false 21000 10 (omega arith)
        default-IsPriced,
    (
      changed-IsPriced default_schedule true true false false 53000 10 (omega arith)
          default-IsPriced,
      (
        dearer-IsPriced,
        (
          changed-IsPriced eip150_schedule true true true false 53000 50 (omega arith)
              dearer-IsPriced,
          (
            changed-IsPriced eip150_schedule true true true true 53000 50 (omega arith)
                dearer-IsPriced,
            tt,
          ),
        ),
      ),
    ),
  ),
)

module _ {W : Type 0} (face : ExtVmFace W) (frugal : IsFrugal face) where
  -- From a state with a 64-bit gas, a schedule that charges, and nothing to copy if a call-out is due,
  -- in a world that returns no more gas than it was offered, no state is reached with more gas; the
  -- schedule stays the same, and nothing is to be copied where a call-out is due.
  pub Reaches-gas :
      (s t : Vm W)
      → IsPriced s.schedule
      → s.io_gas < 2 ^ 64
      → ready s ≡ true
      → Reaches face s t
      → (t.io_gas ≤ s.io_gas) × (t.schedule ≡ s.schedule) × (ready t ≡ true)
  Reaches-gas s t p g r at_once = (omega arith, refl, r)
  Reaches-gas s t p g r (round {u} before live h) =
      let (le, same, still) = Reaches-gas s u p g r before in
      let q =
        bounce-Progress face frugal u.bounce u t refl (subst IsPriced (sym same) p) (omega arith)
          still h in
      (omega (arith, q.gas, le), q.schedule ∙ same, q.stays_ready)
