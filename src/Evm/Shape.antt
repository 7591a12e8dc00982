-- ===== src/Evm/Shape.antt =====
-- What a growth of the memory changes of the state, whatever the gas and the schedule are.
use mathlib.Core.Path.{subst₂}
use x_chain.Prelude.{
  ℕ, ◌+◌, ◌-◌, ◌*◌, ◌/◌, ◌%◌, ◌^◌, ◌<◌, ◌≤◌, ◌≡◌, refl, ap, ◌∙◌, subst, arith, ltb, List, [], ◌∷◌,
  length, replicate, length-append, length-replicate, length-set, set, max, Bool, true, false,
  if◌then◌else◌,
}
use x_chain.Evm.Bytes.{write_at, copy_data_to_memory, copy_size, slice}
use x_chain.Evm.State.{Vm, Outcome, ok, throw, continue}
use x_chain.Evm.Gas.{
  charge_growth, add_copy_price, update_gas, grow_mem, to_int63, update_mem, grown, resize, span,
  mem_need, grow_to, grow_for,
}
use x_chain.Evm.Growth.{bind_ok, grow_mem_lem, to_int63_lem}

pub length-write_at : (mem : List ℕ) (o : ℕ) (bs : List ℕ) → length (write_at mem o bs) ≡ length mem
unfolding write_at
length-write_at mem o [] = refl
length-write_at mem o (b ∷ bs) =
    omega (arith, length-write_at (set mem o b) (o + 1) bs, length-set mem o b)

length-if :
    (b : Bool) (xs ys : List ℕ) (n : ℕ)
    → length xs ≡ n
    → length ys ≡ n
    → length (if b then xs else ys) ≡ n
length-if true xs ys n h k = h
length-if false xs ys n h k = k

pub length-copy_data_to_memory :
    (source : List ℕ) (a b c : ℕ) (mem : List ℕ)
    → length (copy_data_to_memory source a b c mem) ≡ length mem
unfolding copy_data_to_memory
length-copy_data_to_memory source a b c mem =
    let copied = copy_size (length source) b (c % 2 ^ 64) in
    let mem1 =
      if ltb 0 copied then write_at mem (a % 2 ^ 64) (slice source (b % 2 ^ 64) copied) else mem in
    let e : length mem1 ≡ length mem =
      length-if (ltb 0 copied) _ mem _
        (length-write_at mem (a % 2 ^ 64) (slice source (b % 2 ^ 64) copied)) refl in
    length-if (ltb copied (c % 2 ^ 64)) _ mem1 _
      (length-write_at mem1 (a % 2 ^ 64 + copied) (replicate (c % 2 ^ 64 - copied) 0) ∙ e) e

pub length-grown : (mem : List ℕ) (n : ℕ) → length (grown mem n) ≡ max (length mem) n
unfolding grown resize
length-grown mem n = ground (
  arith,
  length-append mem (replicate (n - length mem) 0),
  length-replicate {A = ℕ} (n - length mem) 0,
)

module _ {W : Type 0} where
  charge_growth_shape :
      (s t : Vm W) → charge_growth s ≡ ok tt t → t ≡ record s { run_gas = t.run_gas }
  unfolding charge_growth to_int63
  charge_growth_shape s t h = ground arith

  add_copy_price_shape :
      (s t : Vm W) → add_copy_price s ≡ ok tt t → t ≡ record s { run_gas = t.run_gas }
  unfolding add_copy_price
  add_copy_price_shape s t h = ground arith

  update_gas_shape : (s t : Vm W) → update_gas s ≡ ok tt t → t ≡ record s { run_gas = t.run_gas }
  unfolding update_gas
  update_gas_shape s t h =
      let (u, s1, e, h1) = bind_ok (charge_growth s) (λ _. add_copy_price) h in
      let e1 = charge_growth_shape s s1 e in
      let e2 = add_copy_price_shape s1 t h1 in
      e2 ∙ ap {A = Vm W} {B = Vm W} (λ x. record x { run_gas = t.run_gas }) e1

  -- `t` is `s` with a memory of at least `need` bytes, of a whole number of words where it was one.
  pub record ShapedBy (need : ℕ) (s t : Vm W) : Type 0 where
    pub r : ℕ
    pub size : ℕ
    pub same : t ≡ record s { run_gas = r; new_mem_size = size; mem = grown s.mem size }
    pub reaches : need ≤ size
    pub whole : size % 32 ≡ 0

  pub update_mem_shape :
      (n : ℕ) (s t : Vm W) → n < 2 ^ 63 + 32 → update_mem n s ≡ ok tt t → ShapedBy n s t
  unfolding update_mem grow_mem
  update_mem_shape n s t k h =
      let size = (n + 31) % 2 ^ 64 / 32 * 32 in
      let s0 : Vm W = record s { new_mem_size = size } in
      let (u, s1, e, h1) = bind_ok (update_gas s0) (λ _. grow_mem) h in
      let eq = update_gas_shape s0 s1 e in
      record {
        r = s1.run_gas;
        size = size;
        same =
            grow_mem_lem (record s0 { run_gas = s1.run_gas }) t
              (subst (λ x. grow_mem x ≡ ok tt t) eq h1);
        reaches = omega arith;
        whole = omega arith;
      }

  pub grow_for_shape : (o n : ℕ) (s t : Vm W) → grow_for o n s ≡ ok tt t → ShapedBy (span o n) s t
  unfolding grow_for mem_need
  grow_for_shape o n s t h =
      let (need, s1, e, h1) = bind_ok (to_int63 (span o n) s) (λ k. update_mem k) h in
      let (ea, es, lt) = to_int63_lem (span o n) s e in
      update_mem_shape (span o n) s t (omega arith)
        (subst₂ (λ k x. update_mem k x ≡ ok tt t) ea es h1)

  pub grow_to_shape :
      (o n : ℕ) (s t : Vm W) → n ≤ 32 → grow_to o n s ≡ ok tt t → ShapedBy (o + n) s t
  unfolding grow_to
  grow_to_shape o n s t k h =
      let (from, s1, e, h1) = bind_ok (to_int63 o s) (λ f. update_mem (f + n)) h in
      let (ea, es, lt) = to_int63_lem o s e in
      update_mem_shape (o + n) s t (omega arith)
        (subst₂ (λ f x. update_mem (f + n) x ≡ ok tt t) ea es h1)

  pub after_shape :
      {Q B : Type 0} {b : B} (need : ℕ) (s t : Vm W) (o : Outcome (Vm W) (Unit {0}))
      (f : Unit {0} → Vm W → Outcome (Vm W) B)
      → ((s1 : Vm W) → o ≡ ok tt s1 → ShapedBy need s s1)
      → continue o f ≡ ok b t
      → ((r size : ℕ)
          → f tt (record s { run_gas = r; new_mem_size = size; mem = grown s.mem size }) ≡ ok b t
          → need ≤ size
          → size % 32 ≡ 0
          → Q)
      → Q
  after_shape {b} need s t (ok u s1) f by h k =
      let g = by s1 refl in k g.r g.size (subst (λ x. f tt x ≡ ok b t) g.same h) g.reaches g.whole
  after_shape need s t (throw e s1) f by h k = cc
