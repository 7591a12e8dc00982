-- ===== src/Evm/Invariant/Reach.antt =====
-- The states that a run of the interpreter reaches, and what holds in all of them.
use x_chain.Prelude.{ℕ, ◌+◌, ◌<◌, ◌≡◌, ◌≢◌, refl, arith, length, inl, inr, Bool, List}
use x_chain.Evm.State.{ExtVmFace, Vm, ok, interpret_cases, halted}
use x_chain.Evm.Schedule.{EvmSchedule}
use x_chain.Evm.Interpreter.{bounce_step, start}
use x_chain.Evm.Invariant.Rounds.{IsWellFormed, round_well, length-code}

module _ {W : Type 0} (face : ExtVmFace W) where
  -- `t` is reached from `s` by rounds of the trampoline, none of which starts in a halted state.
  pub data Reaches (s : Vm W) : Vm W → Type 0 where
    at_once : Reaches s s
    round :
        {u t : Vm W}
        → Reaches s u
        → u.bounce ≢ halted
        → bounce_step face u.bounce u ≡ ok tt t
        → Reaches s t

  -- Every state that is reached from a well-formed one is well-formed: its stack pointer lies in the
  -- stack of 1024 items, its memory is a whole number of words, and, once the code has been laid out,
  -- the code and the jump destinations are those that `optimize` makes of the source, and a run that
  -- has not halted stands inside the laid-out code.
  pub Reaches-IsWellFormed :
      (source : List ℕ) (s t : Vm W)
      → IsWellFormed face source s
      → Reaches s t
      → IsWellFormed face source t
  Reaches-IsWellFormed source s t w at_once = w
  Reaches-IsWellFormed source s t w (round {u} r live h) =
      round_well face source u.bounce u t refl (Reaches-IsWellFormed source s u w r) h

  pub start_well :
      (io_gas : ℕ) (ext : W) (has_on_op : Bool) (schedule : EvmSchedule) (garbage : ℕ → ℕ)
      → IsWellFormed face (face.code ext) (start io_gas ext has_on_op schedule garbage)
  unfolding start
  start_well io_gas ext has_on_op schedule garbage = record {
    stack = omega arith;
    words = refl;
    entered = inl (refl, refl);
  }

  -- Wherever a run of `exec` is about to fetch an instruction, the byte that it reads lies in the
  -- laid-out code, which is 33 bytes longer than the source.
  pub fetch_inside :
      (io_gas : ℕ) (ext : W) (has_on_op : Bool) (schedule : EvmSchedule) (garbage : ℕ → ℕ)
      (t : Vm W)
      → Reaches (start io_gas ext has_on_op schedule garbage) t
      → t.bounce ≡ interpret_cases
      → (t.pc < length t.code) × (length t.code ≡ length (face.code ext) + 33)
  fetch_inside io_gas ext has_on_op schedule garbage t r b =
      let w =
        Reaches-IsWellFormed (face.code ext) _ t (start_well io_gas ext has_on_op schedule garbage)
          r in
      elim w.entered [
        | inl first ↦ absurd (cc (b, first.0))
        | inr e ↦ (ground (arith, e.inside), length-code face (face.code ext) t e)
      ]
