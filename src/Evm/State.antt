-- ===== src/Evm/State.antt =====
-- The state of class VM (libevm/VM.h), the exceptions of libevm/VMFace.h, and the interface through
-- which the interpreter reaches the world. `ExtVMFace` itself is not in the repository (ExtVM of
-- libethereum/ExtVM.h implements it), so it is a record of functions over an abstract world `W`.
use x_chain.Prelude.{ℕ, ◌+◌, ◌%◌, ◌^◌, Bool, List, if◌then◌else◌}
use x_chain.Evm.Instruction.{Instruction}
use x_chain.Evm.Schedule.{EvmSchedule}

-- What `caseCall` hands to `ExtVMFace::call`; `gas` comes back changed.
pub record CallParameters : Type 0 where
  pub sender_address : ℕ
  pub code_address : ℕ
  pub receive_address : ℕ
  pub gas : ℕ
  pub value_transfer : ℕ
  pub apparent_value : ℕ
  pub input : List ℕ

pub record CallResult (W : Type 0) : Type 0 where
  pub success : Bool
  pub returned : List ℕ
  pub gas_left : ℕ
  pub world : W

pub record CreateResult (W : Type 0) : Type 0 where
  pub new_address : ℕ
  pub gas_left : ℕ
  pub world : W

-- The fields and methods of ExtVMFace that the interpreter uses. Its block header is read through
-- five accessors, and `sha3` is the hash of libdevcore/SHA3.h.
pub record ExtVmFace (W : Type 0) : Type 0 where
  pub my_address : W → ℕ
  pub caller : W → ℕ
  pub origin : W → ℕ
  pub value : W → ℕ
  pub gas_price : W → ℕ
  pub input : W → List ℕ
  pub code : W → List ℕ
  pub depth : W → ℕ
  pub author : W → ℕ
  pub timestamp : W → ℕ
  pub number : W → ℕ
  pub difficulty : W → ℕ
  pub gas_limit : W → ℕ
  pub balance : W → ℕ → ℕ
  pub exists : W → ℕ → Bool
  pub store : W → ℕ → ℕ
  pub set_store : W → ℕ → ℕ → W
  pub code_at : W → ℕ → List ℕ
  pub code_size_at : W → ℕ → ℕ
  pub block_hash : W → ℕ → ℕ
  pub add_refunds : W → ℕ → W
  pub suicide : W → ℕ → W
  pub log : W → List ℕ → List ℕ → W
  pub create : W → ℕ → ℕ → List ℕ → CreateResult W
  pub call : W → CallParameters → CallResult W
  pub sha3 : List ℕ → ℕ

-- `m_bounce`: the member function that the trampoline of `exec` calls next; `halted` is null.
pub data Bounce : Type 0 where
  init_entry interpret_cases case_create case_call halted : Bounce

-- A stack pointer is the index into `m_stack`, which has 1024 items and grows downwards from its
-- end; the array is a function of the index.
pub record Vm (W : Type 0) : Type 0 where
  pub io_gas : ℕ
  pub ext : W
  pub has_on_op : Bool
  pub bounce : Bounce
  pub n_steps : ℕ
  pub schedule : EvmSchedule
  pub output : List ℕ
  pub mem : List ℕ
  pub code : List ℕ
  pub stack : ℕ → ℕ
  pub op : Instruction
  pub pc : ℕ
  pub sp : ℕ
  pub spp : ℕ
  pub run_gas : ℕ
  pub new_mem_size : ℕ
  pub copy_mem_size : ℕ
  pub jump_dests : List ℕ

abbrev pub stack_end : ℕ
stack_end = 1024

pub data VmException : Type 0 where
  bad_instruction bad_jump_destination out_of_gas out_of_stack stack_underflow : VmException
  revert_instruction : List ℕ → VmException

-- A member function returns or throws; what it wrote before it throws stays written.
pub data Outcome (S A : Type 0) : Type 0 where
  ok : A → S → Outcome S A
  throw : VmException → S → Outcome S A

abbrev pub Run : Type 0 → Type 0 → Type 0
Run W A = Vm W → Outcome (Vm W) A

abbrev pub continue : {S A B : Type 0} → Outcome S A → (A → S → Outcome S B) → Outcome S B
continue (ok a s) f = f a s
continue (throw e s) f = throw e s

infixl 5 ◌>>=◌ ◌>>◌
abbrev pub ◌>>=◌ : {W A B : Type 0} → Run W A → (A → Run W B) → Run W B
◌>>=◌ m f s = continue (m s) f

abbrev pub ◌>>◌ : {W B : Type 0} → Run W (Unit {0}) → Run W B → Run W B
m >> k = m >>= λ _. k

abbrev pub pure : {W A : Type 0} → A → Run W A
pure a s = ok a s

-- A plain assignment to members.
abbrev pub modify : {W : Type 0} → (Vm W → Vm W) → Run W (Unit {0})
modify f s = ok tt (f s)

-- `onOperation`. The tracing callback itself is outside the model; it is told the step's number.
abbrev pub on_operation : {W : Type 0} → Vm W → Vm W
on_operation s = record s { n_steps = if s.has_on_op then (s.n_steps + 1) % 2 ^ 64 else s.n_steps }

-- `throwOutOfGas` and its like: `m_onFail` is `onOperation`.
abbrev pub fail : {W A : Type 0} → VmException → Run W A
fail e s = throw e (on_operation s)

-- ON_OP()
abbrev pub on_op : {W : Type 0} → Run W (Unit {0})
on_op s = ok tt (on_operation s)
