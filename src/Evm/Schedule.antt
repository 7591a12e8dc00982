-- ===== src/Evm/Schedule.antt =====
-- The gas schedules of libevmcore/EVMSchedule.h.
use x_chain.Prelude.{ℕ, ◌-◌, ◌^◌, Bool, true, false, not, List, [], ◌∷◌}

pub record EvmSchedule : Type 0 where
  pub exceptional_failed_code_deposit : Bool
  pub have_delegate_call : Bool
  pub eip150_mode : Bool
  pub eip158_mode : Bool
  pub have_revert : Bool
  pub tier_step_gas : List ℕ
  pub exp_gas : ℕ
  pub exp_byte_gas : ℕ
  pub sha3_gas : ℕ
  pub sha3_word_gas : ℕ
  pub sload_gas : ℕ
  pub sstore_set_gas : ℕ
  pub sstore_reset_gas : ℕ
  pub sstore_refund_gas : ℕ
  pub jumpdest_gas : ℕ
  pub log_gas : ℕ
  pub log_data_gas : ℕ
  pub log_topic_gas : ℕ
  pub create_gas : ℕ
  pub call_gas : ℕ
  pub call_stipend : ℕ
  pub call_value_transfer_gas : ℕ
  pub call_new_account_gas : ℕ
  pub suicide_refund_gas : ℕ
  pub memory_gas : ℕ
  pub quad_coeff_div : ℕ
  pub create_data_gas : ℕ
  pub tx_gas : ℕ
  pub tx_create_gas : ℕ
  pub tx_data_zero_gas : ℕ
  pub tx_data_non_zero_gas : ℕ
  pub copy_gas : ℕ
  pub extcodesize_gas : ℕ
  pub extcodecopy_gas : ℕ
  pub balance_gas : ℕ
  pub suicide_gas : ℕ
  pub max_code_size : ℕ

unfoldable pub static_call_depth_limit : EvmSchedule → Bool
static_call_depth_limit s = not s.eip150_mode

unfoldable pub suicide_charges_new_account_gas : EvmSchedule → Bool
suicide_charges_new_account_gas s = s.eip150_mode

unfoldable pub emptiness_is_nonexistence : EvmSchedule → Bool
emptiness_is_nonexistence s = s.eip158_mode

unfoldable pub zero_value_transfer_charges_new_account_gas : EvmSchedule → Bool
zero_value_transfer_charges_new_account_gas s = not s.eip158_mode

abbrev pub default_schedule : EvmSchedule
default_schedule = record {
  exceptional_failed_code_deposit = true;
  have_delegate_call = true;
  eip150_mode = false;
  eip158_mode = false;
  have_revert = false;
  tier_step_gas = 0 ∷ 2 ∷ 3 ∷ 5 ∷ 8 ∷ 10 ∷ 20 ∷ 0 ∷ [];
  exp_gas = 10;
  exp_byte_gas = 10;
  sha3_gas = 30;
  sha3_word_gas = 6;
  sload_gas = 50;
  sstore_set_gas = 20000;
  sstore_reset_gas = 5000;
  sstore_refund_gas = 15000;
  jumpdest_gas = 1;
  log_gas = 375;
  log_data_gas = 8;
  log_topic_gas = 375;
  create_gas = 32000;
  call_gas = 40;
  call_stipend = 2300;
  call_value_transfer_gas = 9000;
  call_new_account_gas = 25000;
  suicide_refund_gas = 24000;
  memory_gas = 3;
  quad_coeff_div = 512;
  create_data_gas = 200;
  tx_gas = 21000;
  tx_create_gas = 53000;
  tx_data_zero_gas = 4;
  tx_data_non_zero_gas = 68;
  copy_gas = 3;
  extcodesize_gas = 20;
  extcodecopy_gas = 20;
  balance_gas = 20;
  suicide_gas = 0;
  max_code_size = 2 ^ 32 - 1;
}

-- EVMSchedule(bool _efcd, bool _hdc, unsigned const& _txCreateGas)
abbrev pub schedule_with : Bool → Bool → ℕ → EvmSchedule
schedule_with efcd hdc tx_create = record default_schedule {
  exceptional_failed_code_deposit = efcd;
  have_delegate_call = hdc;
  tx_create_gas = tx_create;
}

abbrev pub frontier_schedule : EvmSchedule
frontier_schedule = schedule_with false false 21000

abbrev pub homestead_schedule : EvmSchedule
homestead_schedule = schedule_with true true 53000

abbrev pub eip150_schedule : EvmSchedule
eip150_schedule = record homestead_schedule {
  eip150_mode = true;
  extcodesize_gas = 700;
  extcodecopy_gas = 700;
  balance_gas = 400;
  sload_gas = 200;
  call_gas = 700;
  suicide_gas = 5000;
  max_code_size = 0x6000;
}

abbrev pub eip158_schedule : EvmSchedule
eip158_schedule = record eip150_schedule { exp_byte_gas = 50; eip158_mode = true }

abbrev pub metropolis_schedule : EvmSchedule
metropolis_schedule = record eip158_schedule { have_revert = true }
