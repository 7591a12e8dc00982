-- ===== src/Evm/Duplicates.antt =====
-- DUP1 to DUP16 on the list of the stack's items.
use x_chain.Prelude.{
  ℕ, suc, ◌+◌, ◌-◌, ◌≤◌, ◌≡◌, sym, ap, ◌∙◌, subst, arith, ◌∷◌, get_or, get_elem?, some,
}
use x_chain.Evm.Instruction.{decode, instruction_info, dup}
use x_chain.Evm.State.{ExtVmFace, Vm, ok, stack_end}
use x_chain.Evm.Gas.{fetch_instruction, arg}
use x_chain.Evm.Growth.{after}
use x_chain.Evm.Ops.{update}
use x_chain.Evm.Refinement.{items, items_from, items_from-update, get_elem?-items_from, fetch_at}
use x_chain.Evm.Interpreter.{interpret_case, interpret_step}

module _ {W : Type 0} (face : ExtVmFace W) where
  dup_case :
      (n : ℕ) (s t : Vm W)
      → interpret_case face (dup n) s ≡ ok tt t
      → (t.stack ≡ update s.stack s.spp (arg s (n - 1)))
        × (t.spp ≡ s.spp)
        × (t.pc ≡ s.pc + 1)
        × ((instruction_info (dup n)).args ≡ n)
        × ((instruction_info (dup n)).ret ≡ n + 1)
  unfolding interpret_case instruction_info
  dup_case n s t h = ground arith

  pushed :
      (s t : Vm W) (v : ℕ)
      → s.spp ≤ stack_end
      → t.spp + 1 ≡ s.spp
      → t.stack ≡ update s.stack t.spp v
      → items t ≡ v ∷ items s
  pushed s t v k p q =
      let e : stack_end - t.spp ≡ suc (stack_end - s.spp) = omega arith in
      let hit : update s.stack t.spp v t.spp ≡ v = ground arith in
      ap (items_from t.stack t.spp) e
      ∙ ap (λ st. items_from st t.spp (suc (stack_end - s.spp))) q
      ∙ ap (λ x. x ∷ items_from (update s.stack t.spp v) (t.spp + 1) (stack_end - s.spp)) hit
      ∙ ap (λ xs. v ∷ xs)
          (items_from-update s.stack t.spp v (t.spp + 1) (stack_end - s.spp) (omega arith))
      ∙ ap (λ i. v ∷ items_from s.stack i (stack_end - s.spp)) p

  -- From a state whose stack pointer lies in the stack, a step on DUPn, for n from 1 on, where it
  -- returns, pushes a copy of the n-th item from the top, leaves the other items, and goes on behind
  -- the instruction.
  pub step-dup :
      (n : ℕ) (s t : Vm W)
      → s.spp ≤ stack_end
      → 1 ≤ n
      → decode (get_or s.code s.pc 0) ≡ dup n
      → interpret_step face s ≡ ok tt t
      → (get_elem? (items s) (n - 1) ≡ some (s.stack (s.spp + (n - 1))))
        × (items t ≡ s.stack (s.spp + (n - 1)) ∷ items s)
        × (t.pc ≡ s.pc + 1)
  unfolding interpret_step
  step-dup n s t k n1 o h =
      after (fetch_instruction s) (λ _ u. interpret_case face u.op u) h
        λ a u e h1.
          let (op, sp, spp, room, under, st, pc, gas, ext) = fetch_at s u k e in
          let isdup : u.op ≡ dup n = op ∙ o in
          let h2 = subst (λ i. interpret_case face i u ≡ ok tt t) isdup h1 in
          let (st1, spp1, pc1, args, ret) = dup_case n u t h2 in
          let args' = ap (λ i. (instruction_info i).args) isdup ∙ args in
          let ret' = ap (λ i. (instruction_info i).ret) isdup ∙ ret in
          let t_spp : t.spp + 1 ≡ s.spp = omega arith in
          let v = s.stack (s.spp + (n - 1)) in
          let written : t.stack ≡ update s.stack t.spp v =
            st1
            ∙ ap (λ x. update x u.spp (x (u.sp + (n - 1)))) st
            ∙ ap (λ x. update s.stack u.spp (s.stack (x + (n - 1)))) sp
            ∙ ap (λ x. update s.stack x v) (sym spp1) in
          (
            get_elem?-items_from s.stack s.spp (stack_end - s.spp) (n - 1) (omega arith),
            pushed s t v k t_spp written,
            pc1 ∙ ap (λ i. i + 1) pc,
          )
