-- ===== src/Evm/Refinement.antt =====
-- The instructions on the list of the stack's items, the top first.
use x_chain.Prelude.{
  ℕ, zero, suc, ◌+◌, ◌-◌, ◌≤◌, ◌<◌, ◌≡◌, refl, ap, ◌∙◌, arith, List, [], ◌∷◌, Option, some, none,
  get_or, get_elem?,
}
use x_chain.Evm.Word.{
  add256, mul256, sub256, div256, mod256, smod256, lt256, gt256, slt256, sgt256, eq256, byte256,
}
use x_chain.Evm.Instruction.{
  Instruction, decode, instruction_info, add, mul, sub, div, modulo, smod, lt, gt, slt, sgt, eq,
  byte,
}
use x_chain.Evm.State.{ExtVmFace, Vm, ok, stack_end}
use x_chain.Evm.Gas.{fetch_instruction, adjust_stack, to_int63, arg}
use x_chain.Evm.Growth.{after}
use x_chain.Evm.Stack.{adjust_stack_ok}
use x_chain.Evm.Ops.{binary, update}
use x_chain.Evm.Interpreter.{interpret_case, interpret_step}

abbrev pub items_from : (ℕ → ℕ) → ℕ → ℕ → List ℕ
items_from stack p zero = []
items_from stack p (suc n) = stack p ∷ items_from stack (p + 1) n

-- A write below the items does not touch them.
pub items_from-update :
    (stack : ℕ → ℕ) (i v p n : ℕ) → i < p → items_from (update stack i v) p n ≡ items_from stack p n
items_from-update stack i v p zero h = refl
items_from-update stack i v p (suc n) h =
    ground (arith, items_from-update stack i v (p + 1) n (omega arith))

pub get_elem?-items_from :
    (stack : ℕ → ℕ) (p n i : ℕ) → i < n → get_elem? (items_from stack p n) i ≡ some (stack (p + i))
get_elem?-items_from stack p zero i h = ground arith
get_elem?-items_from stack p (suc n) zero h =
    ap some (ap stack (let e : p ≡ p + 0 = omega arith in e))
get_elem?-items_from stack p (suc n) (suc i) h =
    get_elem?-items_from stack (p + 1) n i (omega arith)
    ∙ ap (λ k. some (stack k)) (let e : p + 1 + i ≡ p + suc i = omega arith in e)

module _ {W : Type 0} where
  abbrev pub items : Vm W → List ℕ
  items s = items_from s.stack s.spp (stack_end - s.spp)

  -- `f` has been applied to the two upper items of the stack.
  pub record Applied (f : ℕ → ℕ → ℕ) (s t : Vm W) : Type 0 where
    pub a : ℕ
    pub b : ℕ
    pub rest : List ℕ
    pub before : items s ≡ a ∷ b ∷ rest
    pub behind : items t ≡ f a b ∷ rest
    pub counter : t.pc ≡ s.pc + 1
    pub world : t.ext ≡ s.ext

  pub fetch_at :
      (s u : Vm W)
      → s.spp ≤ stack_end
      → fetch_instruction s ≡ ok tt u
      → (u.op ≡ decode (get_or s.code s.pc 0))
        × (u.sp ≡ s.spp)
        × (u.spp ≡ s.spp + (instruction_info u.op).args - (instruction_info u.op).ret)
        × (s.spp + (instruction_info u.op).args ≤ stack_end)
        × ((instruction_info u.op).ret ≤ s.spp + (instruction_info u.op).args)
        × (u.stack ≡ s.stack)
        × (u.pc ≡ s.pc)
        × (u.io_gas ≡ s.io_gas)
        × (u.ext ≡ s.ext)
  unfolding fetch_instruction to_int63
  fetch_at s u k h =
      let m = instruction_info (decode (get_or s.code s.pc 0)) in
      let s0 : Vm W = record s { op = decode (get_or s.code s.pc 0) } in
      after (adjust_stack m.args m.ret s0) _ h
        λ a s1 e h1. let (same, lo, hi) = adjust_stack_ok m.args m.ret s0 s1 k e in ground arith

-- the instructions that replace the two upper items by a word, and what they compute
abbrev pub operation : Instruction → Option (ℕ → ℕ → ℕ)
operation add = some add256
operation mul = some mul256
operation sub = some sub256
operation div = some div256
operation modulo = some mod256
operation smod = some smod256
operation lt = some lt256
operation gt = some gt256
operation slt = some slt256
operation sgt = some sgt256
operation eq = some eq256
operation byte = some byte256
operation _ = none

module _ {W : Type 0} (face : ExtVmFace W) where
  operation_case :
      (i : Instruction) (f : ℕ → ℕ → ℕ) (s t : Vm W)
      → operation i ≡ some f
      → interpret_case face i s ≡ ok tt t
      → (t.stack ≡ update s.stack s.spp (f (arg s 0) (arg s 1)))
        × (t.spp ≡ s.spp)
        × (t.pc ≡ s.pc + 1)
        × (t.ext ≡ s.ext)
        × ((instruction_info i).args ≡ 2)
        × ((instruction_info i).ret ≡ 1)
  unfolding interpret_case instruction_info binary
  operation_case _ f s t e h = ground arith

  -- the lists, from what fetch and case do
  replaced :
      (s t : Vm W) (f : ℕ → ℕ → ℕ)
      → s.spp + 2 ≤ stack_end
      → t.spp ≡ s.spp + 1
      → t.stack ≡ update s.stack (s.spp + 1) (f (s.stack s.spp) (s.stack (s.spp + 1)))
      → (rest : List ℕ) × (items s ≡ s.stack s.spp ∷ s.stack (s.spp + 1) ∷ rest)
        × (items t ≡ f (s.stack s.spp) (s.stack (s.spp + 1)) ∷ rest)
  replaced s t f room p q =
      let k = stack_end - (s.spp + 2) in
      let e : stack_end - s.spp ≡ suc (suc k) = omega arith in
      let e1 : stack_end - t.spp ≡ suc k = omega arith in
      let v = f (s.stack s.spp) (s.stack (s.spp + 1)) in
      let hit : update s.stack (s.spp + 1) v (s.spp + 1) ≡ v = ground arith in
      (
        items_from s.stack (s.spp + 1 + 1) k,
        ap (items_from s.stack s.spp) e,
        ap (items_from t.stack t.spp) e1
            ∙ ap (λ st. items_from st t.spp (suc k)) q
            ∙ ap (λ i. items_from (update s.stack (s.spp + 1) v) i (suc k)) p
            ∙ ap (λ x. x ∷ items_from (update s.stack (s.spp + 1) v) (s.spp + 1 + 1) k) hit
            ∙ ap (λ xs. v ∷ xs)
                (items_from-update s.stack (s.spp + 1) v (s.spp + 1 + 1) k (omega arith)),
      )

  -- From a state whose stack pointer lies in the stack, a step on one of the instructions of the
  -- table `operation`, where it returns, takes the two upper items from the stack, pushes what the
  -- operation makes of them, the top first, leaves the items below and the world, and goes on
  -- behind the instruction.
  pub step-operation :
      (s t : Vm W) (f : ℕ → ℕ → ℕ)
      → s.spp ≤ stack_end
      → operation (decode (get_or s.code s.pc 0)) ≡ some f
      → interpret_step face s ≡ ok tt t
      → Applied f s t
  unfolding interpret_step
  step-operation s t f k o h =
      after (fetch_instruction s) (λ _ u. interpret_case face u.op u) h
        λ a u e h1.
          let (op, sp, spp, room, under, st, pc, gas, ext) = fetch_at s u k e in
          let (st1, spp1, pc1, ext1, two, one) =
            operation_case u.op f u t (ap operation op ∙ o) h1 in
          let spp2 : t.spp ≡ s.spp + 1 = omega arith in
          let sp0 : u.sp + 0 ≡ s.spp = omega arith in
          let sp1 : u.sp + 1 ≡ s.spp + 1 = omega arith in
          let spp3 : u.spp ≡ s.spp + 1 = omega arith in
          let written =
            st1
            ∙ ap (λ x. update x u.spp (f (x (u.sp + 0)) (x (u.sp + 1)))) st
            ∙ ap (λ x. update s.stack x (f (s.stack (u.sp + 0)) (s.stack (u.sp + 1)))) spp3
            ∙ ap (λ x. update s.stack (s.spp + 1) (f (s.stack x) (s.stack (u.sp + 1)))) sp0
            ∙ ap (λ x. update s.stack (s.spp + 1) (f (s.stack s.spp) (s.stack x))) sp1 in
          let (rest, before, behind) = replaced s t f (omega arith) spp2 written in
          record {
            a = s.stack s.spp;
            b = s.stack (s.spp + 1);
            rest = rest;
            before = before;
            behind = behind;
            counter = pc1 ∙ ap (λ n. n + 1) pc;
            world = ext1 ∙ ext;
          }
