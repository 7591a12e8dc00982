-- ===== src/Evm/Tests.antt =====
-- Runs of the interpreter on small programs, over a world without accounts.
mod Examples
mod Values
use x_chain.Evm.Word.{add256}
use x_chain.Evm.Bytes.{write_at}
use x_chain.Evm.Gas.{add_copy_price, charge_growth, grow_for, grow_mem, grow_to, grown, update_gas}
use x_chain.Prelude.{
  ℕ, ◌-◌, ◌≡◌, refl, Option, none, some, List, [], ◌∷◌, ◌++◌, true, false, replicate,
}
use x_chain.Evm.Instruction.{decode, instruction_info, stop, tier_index}
use x_chain.Evm.Optimize.{scan_jump_dests}
use x_chain.Evm.Schedule.{default_schedule}
use x_chain.Evm.State.{ExtVmFace, Outcome, ok, throw, Vm, interpret_cases}
use x_chain.Evm.Interpreter.{bounce_step, enter, exec, interpret_step}

-- A world is the code that runs; the other methods answer with nothing.
abbrev pub bare : ExtVmFace (List ℕ)
bare = record {
  my_address = λ w. 1;
  caller = λ w. 2;
  origin = λ w. 2;
  value = λ w. 0;
  gas_price = λ w. 1;
  input = λ w. [];
  code = λ w. w;
  depth = λ w. 0;
  author = λ w. 0;
  timestamp = λ w. 0;
  number = λ w. 0;
  difficulty = λ w. 0;
  gas_limit = λ w. 0;
  balance = λ w a. 0;
  exists = λ w a. true;
  store = λ w k. 0;
  set_store = λ w k v. w;
  code_at = λ w a. [];
  code_size_at = λ w a. 0;
  block_hash = λ w n. 0;
  add_refunds = λ w n. w;
  suicide = λ w a. w;
  log = λ w ts bs. w;
  create = λ w v g c. record { new_address = 0; gas_left = 0; world = w };
  call = λ w p. record { success = false; returned = []; gas_left = 0; world = w };
  sha3 = λ bs. 0;
}

-- the output and the gas left of a run that returned
abbrev result : Option (Outcome (Vm (List ℕ)) (Unit {0})) → Option (List ℕ × ℕ)
result (some (ok u s)) = some (s.output, s.io_gas)
result _ = none

-- PUSH1 2; PUSH1 3; ADD; PUSH1 31; MSTORE8; PUSH1 32; PUSH1 0; RETURN
abbrev pub two_plus_three : List ℕ
two_plus_three = 0x60 ∷ 2 ∷ 0x60 ∷ 3 ∷ 0x01 ∷ 0x60 ∷ 31 ∷ 0x53 ∷ 0x60 ∷ 32 ∷ 0x60 ∷ 0 ∷ 0xf3 ∷ []

-- the sum as a word of 32 bytes, and 76 of the 100 units of gas
two_plus_three_returns :
    result (exec bare 20 100 two_plus_three true default_schedule (λ i. 0))
    ≡ some (replicate 31 0 ++ 5 ∷ [], 76)
unfolding exec interpret_step bounce_step enter instruction_info decode tier_index grow_to
    update_gas charge_growth add_copy_price grow_mem grow_for write_at grown add256
two_plus_three_returns = refl

-- A machine on `code` whose stack holds 0, 1, 2, … from the top, with 24 items.
abbrev pub machine : List ℕ → Vm (List ℕ)
machine code = record {
  io_gas = 1000;
  ext = code;
  has_on_op = true;
  bounce = interpret_cases;
  n_steps = 0;
  schedule = default_schedule;
  output = [];
  mem = [];
  code = code ++ replicate 33 0;
  stack = λ i. i - 1000;
  op = stop;
  pc = 0;
  sp = 1000;
  spp = 1000;
  run_gas = 3;
  new_mem_size = 0;
  copy_mem_size = 0;
  jump_dests = scan_jump_dests code 0 0;
}

-- the state and the value of an outcome that returned
abbrev pub state_of : {S A : Type 0} → Outcome S A → S → S
state_of (ok a s) d = s
state_of (throw e s) d = d

abbrev pub value_of : {S A : Type 0} → Outcome S A → A → A
value_of (ok a s) d = a
value_of (throw e s) d = d
