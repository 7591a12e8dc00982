-- ===== src/Evm/Tests/Examples.antt =====
-- The theorems on runs, steps and jumps at concrete inputs.
use x_chain.Prelude.{
  ◌-◌, ◌≤◌, ℕ, ◌+◌, ◌<◌, ◌≡◌, ◌≢◌, ◌↔◌, refl, arith, true, none, some, List, [], ◌∷◌, length,
  get_elem?,
}
use x_chain.Evm.Word.{add256}
use x_chain.Evm.Instruction.{decode, instruction_info, tier_index}
use x_chain.Evm.Schedule.{default_schedule}
use x_chain.Evm.State.{Vm, ok, interpret_cases}
use x_chain.Evm.Gas.{arg}
use x_chain.Evm.Optimize.{scan_jump_dests}
use x_chain.Evm.Interpreter.{bounce_step, enter, exec, interpret_step, start}
use x_chain.Evm.Cases.Control.{contains, case_jump}
use x_chain.Evm.Termination.Budget.{ready}
use x_chain.Evm.Termination.Schedules.{default-IsPriced, Reaches-gas}
use x_chain.Evm.Termination.Calling.{IsFrugal}
use x_chain.Evm.Termination.Steps.{exec_ends}
use x_chain.Evm.Invariant.Rounds.{IsWellFormed}
use x_chain.Evm.Invariant.Reach.{
  Reaches, at_once, round, start_well, Reaches-IsWellFormed, fetch_inside,
}
use x_chain.Evm.Duplicates.{step-dup}
use x_chain.Evm.Refinement.{items, Applied, step-operation}
use x_chain.Evm.Jumps.{Begins, scan_jump_dests_iff, jump_lands}
use x_chain.Evm.Tests.{bare, two_plus_three, machine, state_of}

bare-IsFrugal : IsFrugal bare
bare-IsFrugal = record { create_gas = λ w v g c. omega arith; call_gas = λ w p. omega arith }

exec_ends_example : exec bare 300 100 two_plus_three true default_schedule (λ i. 0) ≢ none
exec_ends_example =
    exec_ends bare bare-IsFrugal 300 100 two_plus_three true default_schedule (λ i. 0)
      default-IsPriced (omega arith)

abbrev begun : Vm (List ℕ)
begun = start 100 two_plus_three true default_schedule (λ i. 0)

abbrev entered : Vm (List ℕ)
entered = state_of (bounce_step bare begun.bounce begun) begun

entered_reached : Reaches bare begun entered
unfolding start bounce_step enter
entered_reached = round at_once (λ h. cc) refl

Reaches-IsWellFormed_example : IsWellFormed bare two_plus_three entered
Reaches-IsWellFormed_example =
    Reaches-IsWellFormed bare two_plus_three begun entered
      (start_well bare 100 two_plus_three true default_schedule (λ i. 0)) entered_reached

Reaches-gas_example :
    (entered.io_gas ≤ 100) × (entered.schedule ≡ default_schedule) × (ready entered ≡ true)
unfolding start
Reaches-gas_example =
    Reaches-gas bare bare-IsFrugal begun entered default-IsPriced (omega arith) refl entered_reached

entered_interprets : entered.bounce ≡ interpret_cases
unfolding start bounce_step enter
entered_interprets = refl

fetch_inside_example :
    (entered.pc < length entered.code) × (length entered.code ≡ length two_plus_three + 33)
fetch_inside_example =
    fetch_inside bare 100 two_plus_three true default_schedule (λ i. 0) entered entered_reached
      entered_interprets

-- a machine that is about to ADD
abbrev adder : Vm (List ℕ)
adder = machine (0x01 ∷ [])

abbrev added : Vm (List ℕ)
added = state_of (interpret_step bare adder) adder

added_lem : interpret_step bare adder ≡ ok tt added
unfolding interpret_step instruction_info decode tier_index
added_lem = refl

step-operation_example : Applied add256 adder added
unfolding decode
step-operation_example = step-operation bare adder added add256 (omega arith) refl added_lem

-- PUSH1 0x5b; JUMPDEST: the first 0x5b is data.
abbrev guarded : List ℕ
guarded = 0x60 ∷ 0x5b ∷ 0x5b ∷ []

scan_jump_dests_iff_example :
    (contains (scan_jump_dests guarded 0 0) 2 ≡ true)
    ↔ (Begins guarded 2 × (get_elem? guarded 2 ≡ some 0x5b))
scan_jump_dests_iff_example = scan_jump_dests_iff guarded 2

abbrev jumper : Vm (List ℕ)
jumper = machine (0x5b ∷ 0x56 ∷ [])

abbrev jumped : Vm (List ℕ)
jumped = state_of (case_jump jumper) jumper

jumped_lem : case_jump jumper ≡ ok tt jumped
unfolding case_jump scan_jump_dests contains
jumped_lem = refl

jump_lands_example :
    (jumped.pc ≡ arg jumper 0)
    × Begins (0x5b ∷ 0x56 ∷ []) jumped.pc
    × (get_elem? {A = ℕ} (0x5b ∷ 0x56 ∷ []) jumped.pc ≡ some 0x5b)
jump_lands_example = jump_lands (0x5b ∷ 0x56 ∷ []) jumper jumped refl jumped_lem

-- DUP2 copies the item 1.
abbrev copier : Vm (List ℕ)
copier = machine (0x81 ∷ [])

abbrev copied : Vm (List ℕ)
copied = state_of (interpret_step bare copier) copier

copied_lem : interpret_step bare copier ≡ ok tt copied
unfolding interpret_step decode instruction_info tier_index
copied_lem = refl

step-dup_example :
    (get_elem? (items copier) (2 - 1) ≡ some (copier.stack (1000 + (2 - 1))))
    × (items copied ≡ copier.stack (1000 + (2 - 1)) ∷ items copier)
    × (copied.pc ≡ 0 + 1)
unfolding decode
step-dup_example = step-dup bare 2 copier copied (omega arith) (omega arith) refl copied_lem
