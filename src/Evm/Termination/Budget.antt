-- ===== src/Evm/Termination/Budget.antt =====
-- The quantities by which the interpreter is shown to end.
use x_chain.Prelude.{
  ℕ, ◌+◌, ◌*◌, ◌^◌, ◌<◌, ◌≤◌, ◌≡◌, ◌⊎◌, get_or, Bool, true, false, not, ◌||◌, ◌==◌,
}
use x_chain.Evm.Schedule.{EvmSchedule}
use x_chain.Evm.State.{Vm, Bounce, init_entry, interpret_cases, case_create, case_call, halted}

-- What a schedule has to say for every instruction to cost something: the prices are unsigned, the
-- tiers from `base` to `ext` and the special prices are positive, and a stipend is covered by the
-- price of the transfer that earns it.
pub record IsPriced (p : EvmSchedule) : Type 0 where
  pub base_tier : 1 ≤ get_or p.tier_step_gas 1 p.exp_gas
  pub very_low_tier : 1 ≤ get_or p.tier_step_gas 2 p.exp_gas
  pub low_tier : 1 ≤ get_or p.tier_step_gas 3 p.exp_gas
  pub mid_tier : 1 ≤ get_or p.tier_step_gas 4 p.exp_gas
  pub high_tier : 1 ≤ get_or p.tier_step_gas 5 p.exp_gas
  pub ext_tier : 1 ≤ get_or p.tier_step_gas 6 p.exp_gas
  pub very_low_unsigned : get_or p.tier_step_gas 2 p.exp_gas < 2 ^ 32
  pub exp : 1 ≤ p.exp_gas
  pub exp_unsigned : p.exp_gas + p.exp_byte_gas * 32 < 2 ^ 32
  pub sha3 : 1 ≤ p.sha3_gas
  pub sload : 1 ≤ p.sload_gas
  pub sstore_set : 1 ≤ p.sstore_set_gas
  pub sstore_reset : 1 ≤ p.sstore_reset_gas
  pub log : 1 ≤ p.log_gas
  pub log_unsigned : p.log_gas + p.log_topic_gas * 4 < 2 ^ 32
  pub create : 1 ≤ p.create_gas
  pub call : 1 ≤ p.call_gas
  pub extcodesize : 1 ≤ p.extcodesize_gas
  pub extcodecopy : 1 ≤ p.extcodecopy_gas
  pub extcodecopy_unsigned : p.extcodecopy_gas < 2 ^ 32
  pub balance : 1 ≤ p.balance_gas
  pub copy : p.copy_gas ≤ 16
  pub call_unsigned : p.call_gas < 2 ^ 32
  pub call_new_account_unsigned : p.call_new_account_gas < 2 ^ 32
  pub call_value_transfer_unsigned : p.call_value_transfer_gas < 2 ^ 32
  pub stipend : p.call_stipend ≤ p.call_value_transfer_gas

abbrev pub rank : Bounce → ℕ
rank init_entry = 2
rank interpret_cases = 1
rank case_create = 0
rank case_call = 0
rank halted = 0

abbrev pub calls_out : Bounce → Bool
calls_out case_create = true
calls_out case_call = true
calls_out _ = false

module _ {W : Type 0} where
  abbrev pub budget : Vm W → ℕ
  budget s = 2 * s.io_gas + rank s.bounce

  -- While a call-out is due, nothing is to be copied.
  abbrev pub ready : Vm W → Bool
  ready s = not (calls_out s.bounce) || s.copy_mem_size == 0

  -- A round that does not halt leaves a smaller budget.
  pub record Progress (s t : Vm W) : Type 0 where
    pub less : (t.bounce ≡ halted) ⊎ (budget t < budget s)
    pub schedule : t.schedule ≡ s.schedule
    pub gas : t.io_gas ≤ s.io_gas
    pub stays_ready : ready t ≡ true
