-- ===== src/Chain/Tests.antt =====
-- The execution of a transaction of libethereum/Executive.cpp at concrete inputs.
use x_chain.Prelude.{ℕ, ◌+◌, ◌-◌, ◌≡◌, refl, true, false, none, some, List, [], ◌∷◌, arith}
use x_chain.Chain.Executive.{
  Bytes, Ended, Executive, Ext, Initialized, SubState, Transaction, TransactionException, World,
  check_gas, check_sender, end_accounts, fees_earned, finalize, initialize, kill_all, refund,
  reject, returned_fee, settle, total_refunds,
}
use x_chain.Chain.Executive.Money.{IsLedger}

-- All accounts share one purse, which a rollback fills again; with the payments to accounts so far.
record Payments : Type 0 where
  purse : ℕ
  paid : List (ℕ × ℕ)

abbrev ran : SubState ℕ
ran = record { refunds = 100; suicides = []; logs = 5 ∷ [] }

abbrev fresh : SubState ℕ
fresh = record { refunds = 0; suicides = []; logs = [] }

abbrev ext_of : ℕ → Bytes → Bytes → Ext ℕ
ext_of a code data_in = record {
  my_address = a;
  code = code;
  call_data = data_in;
  max_code_size = 24576;
  create_data_gas = 200;
  exceptional_failed_code_deposit = true;
  suicide_refund_gas = 24000;
  sub = fresh;
}

-- Every account has code, and a run takes a thousand.
abbrev toy_world : World Payments ℕ
toy_world = record {
  balance = λ s a. s.purse;
  get_nonce = λ s a. some 3;
  add_balance = λ s a n. record { purse = s.purse + n; paid = (a, n) ∷ s.paid };
  sub_balance = λ s a n. record s { purse = s.purse - n };
  transfer_balance = λ s a b n. record s { paid = (b, n) ∷ s.paid };
  inc_nonce = λ s a. s;
  savepoint = λ s. s.purse;
  rollback = λ s n. record { purse = n; paid = [] };
  kill = λ s a. s;
  code = λ s a. some (1 ∷ []);
  set_new_code = λ s a c. s;
  new_address = λ a n. a + n;
  verify_transaction = λ t. none;
  is_precompiled = λ a. false;
  cost_of_precompiled = λ a d. 0;
  execute_precompiled = λ a d. (true, []);
  eip158 = true;
  max_address = 999;
  author = 77;
  block_gas_used = 0;
  block_gas_limit = 100000;
  new_ext = ext_of;
  run_code = λ g x s. Ended.returned (g - 1000) (9 ∷ []) s ran;
}

abbrev no_transaction : Transaction
no_transaction = record {
  null = true;
  sender = 0;
  receive_address = 0;
  nonce = 0;
  gas = 0;
  gas_price = 0;
  value = 0;
  is_creation = false;
  zero_signature = true;
  payload = [];
  base_gas = 0;
}

abbrev a_message : Transaction
a_message = record {
  null = false;
  sender = 11;
  receive_address = 12;
  nonce = 3;
  gas = 50000;
  gas_price = 2;
  value = 40;
  is_creation = false;
  zero_signature = false;
  payload = [];
  base_gas = 21000;
}

abbrev initial : Executive Payments ℕ
initial = record {
  t = no_transaction;
  gas = 0;
  gas_cost = 0;
  base_gas_required = 0;
  refunded = 0;
  is_creation = false;
  new_address = 0;
  saved = 0;
  excepted = none;
  ext = none;
  output = [];
  logs = [];
  s = record { purse = 1000000; paid = [] };
}

abbrev checked : Executive Payments ℕ
checked = record initial { t = a_message; base_gas_required = 21000; gas_cost = 100000 }

abbrev begun : Executive Payments ℕ
begun = record checked {
  gas = 29000;
  saved = 900000;
  ext = some (ext_of 12 (1 ∷ []) []);
  s = record { purse = 900000; paid = (12, 40) ∷ [] };
}

abbrev gone : Executive Payments ℕ
gone = record begun {
  gas = 28000;
  ext = some (record (ext_of 12 (1 ∷ []) []) { sub = ran });
  output = 9 ∷ [];
}

-- The sender gets 56200 back, and the author earns 43800.
payments_of_message :
    (finalize toy_world gone).s
    ≡ record { purse = 1000000; paid = (77, 43800) ∷ (11, 56200) ∷ (12, 40) ∷ [] }
unfolding finalize end_accounts kill_all settle fees_earned returned_fee refund total_refunds
payments_of_message = refl

wrong_nonce :
    initialize toy_world initial (record a_message { nonce = 4 })
    ≡ Initialized.throws TransactionException.invalid_nonce (record initial {
      t = record a_message { nonce = 4 };
      base_gas_required = 21000;
      excepted = some TransactionException.invalid_nonce;
    })
unfolding initialize check_gas check_sender reject
wrong_nonce = refl

toy_ledger : IsLedger toy_world
toy_ledger = record {
  total = λ s. s.purse;
  After = λ s t. Unit;
  after_refl = λ s. tt;
  after_trans = λ s t u f g. tt;
  after_add = λ s a n. tt;
  after_transfer = λ s a b n. tt;
  after_nonce = λ s a. tt;
  after_code = λ s a c. tt;
  total_add = λ s a n. refl;
  total_sub = λ s a n h. omega (arith, h);
  balance_sub = λ s a n h. omega (arith, h);
  total_transfer = λ s a b n h. refl;
  total_nonce = λ s a. refl;
  balance_nonce = λ s a b. refl;
  total_code = λ s a c. refl;
  total_rollback = λ s t h. refl;
}
