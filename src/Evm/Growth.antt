-- ===== src/Evm/Growth.antt =====
-- What `updateMem` and its callers do to the gas and the memory, on every input.
use mathlib.Core.Path.{subst₂}
use x_chain.Prelude.{
  ◌-◌, ℕ, ◌+◌, ◌*◌, ◌/◌, ◌%◌, ◌^◌, ◌<◌, ◌≤◌, ◌≡◌, arith, subst, refl, inl, inr, ltb, Bool-cases,
}
use x_chain.Evm.Ops.{charge}
use x_chain.Evm.State.{on_operation, Vm, Outcome, ok, throw, continue}
use x_chain.Evm.Gas.{
  update_io_gas, charge_growth, add_copy_price, update_gas, grow_mem, to_int63, update_mem, grown,
  span, mem_need, grow_to, grow_for, set_run_gas,
}

-- Inversion of a bind that returns.
pub bind_ok :
    {S A B : Type 0} (o : Outcome S A) (f : A → S → Outcome S B) {b : B} {t : S}
    → continue o f ≡ ok b t
    → (a : A) × (s : S) × (o ≡ ok a s) × (f a s ≡ ok b t)
bind_ok (ok a s) f h = (a, s, refl, h)
bind_ok (throw e s) f h = cc

-- the sum of `updateGas`, with no wrap-around
pub copy_sum :
    (g r c k : ℕ)
    → c < 2 ^ 63
    → g + k * ((c + 31) / 32) < 2 ^ 63
    → g ≤ r
    → r < g + 2 ^ 63
    → (r + k * ((c + 31) % 2 ^ 64 / 32)) % 2 ^ 64 ≡ r + k * ((c + 31) / 32)
copy_sum g r c k hc hk lo hi =
    let e : (c + 31) % 2 ^ 64 ≡ c + 31 = omega arith in rw e (omega arith)

-- The same, handed to what is to be shown.
pub after :
    {S A B Q : Type 0} (o : Outcome S A) (f : A → S → Outcome S B) {b : B} {t : S}
    → continue o f ≡ ok b t
    → ((a : A) (s : S) → o ≡ ok a s → f a s ≡ ok b t → Q)
    → Q
after (ok a s) f h k = k a s refl h
after (throw e s) f h k = cc

module _ {W : Type 0} where
  -- the state behind ON_OP(); updateIOGas();
  abbrev pub charged : Vm W → Vm W
  charged s = record (on_operation s) { io_gas = s.io_gas - s.run_gas }

  pub after_charge :
      {B Q : Type 0} (s : Vm W) (f : Unit {0} → Vm W → Outcome (Vm W) B) {b : B} {t : Vm W}
      → continue (charge s) f ≡ ok b t
      → (s.run_gas ≤ s.io_gas → f tt (charged s) ≡ ok b t → Q)
      → Q
  unfolding charge
  after_charge s f h k = elim (Bool-cases (ltb s.io_gas s.run_gas)) [
    | inl over ↦ absurd (cc (over, h))
    | inr fits ↦ k (ground arith) (rw fits at h)
  ]

  pub after_update :
      {B Q : Type 0} (s : Vm W) (f : Unit {0} → Vm W → Outcome (Vm W) B) {b : B} {t : Vm W}
      → continue (update_io_gas s) f ≡ ok b t
      → (s.run_gas ≤ s.io_gas → f tt (record s { io_gas = s.io_gas - s.run_gas }) ≡ ok b t → Q)
      → Q
  unfolding update_io_gas
  after_update s f h k = elim (Bool-cases (ltb s.io_gas s.run_gas)) [
    | inl over ↦ absurd (cc (over, h))
    | inr fits ↦ k (ground arith) (rw fits at h)
  ]

  -- The prices that are added up do not wrap: a step's own price is below 2 ^ 63 where nothing is
  -- copied, and unsigned where something is.
  pub record IsModest (s : Vm W) : Type 0 where
    pub own : s.run_gas < 2 ^ 63
    pub copied : s.copy_mem_size < 2 ^ 63
    pub sum : s.run_gas + s.schedule.copy_gas * ((s.copy_mem_size + 31) / 32) < 2 ^ 63

  charge_growth_lem :
      (s t : Vm W)
      → s.run_gas < 2 ^ 63
      → charge_growth s ≡ ok tt t
      → (r : ℕ) × (t ≡ record s { run_gas = r }) × (s.run_gas ≤ r) × (r < s.run_gas + 2 ^ 63)
  unfolding charge_growth to_int63
  charge_growth_lem s t m h = (t.run_gas, ground arith, ground arith, ground arith)

  -- the rest of `update_gas`, after `charge_growth` has left the price `g`
  update_gas_rest :
      (s t : Vm W) (g : ℕ)
      → IsModest s
      → s.run_gas ≤ g
      → g < s.run_gas + 2 ^ 63
      → add_copy_price (record s { run_gas = g }) ≡ ok tt t
      → (r : ℕ) × (t ≡ record s { run_gas = r }) × (s.run_gas ≤ r) × (r ≤ s.io_gas)
  unfolding add_copy_price
  update_gas_rest s t g m lo hi h =
      let e = copy_sum s.run_gas g s.copy_mem_size s.schedule.copy_gas m.copied m.sum lo hi in
      (t.run_gas, ground arith, ground arith, ground arith)

  update_gas_lem :
      (s t : Vm W)
      → IsModest s
      → update_gas s ≡ ok tt t
      → (r : ℕ) × (t ≡ record s { run_gas = r }) × (s.run_gas ≤ r) × (r ≤ s.io_gas)
  unfolding update_gas
  update_gas_lem s t m h =
      let (u, s1, e, h1) = bind_ok (charge_growth s) (λ _. add_copy_price) h in
      let (g, eq, lo, hi) = charge_growth_lem s s1 m.own e in
      update_gas_rest s t g m lo hi (subst (λ x. add_copy_price x ≡ ok tt t) eq h1)

  pub grow_mem_lem :
      (s t : Vm W) → grow_mem s ≡ ok tt t → t ≡ record s { mem = grown s.mem s.new_mem_size }
  unfolding grow_mem
  grow_mem_lem s t h = cc

  -- `t` is `s` after the memory has been grown to reach `need`: a price `r` that the gas covers has
  -- been settled, and the memory is a whole number of words that reaches `need`.
  pub record GrownBy (need : ℕ) (s t : Vm W) : Type 0 where
    pub r : ℕ
    pub size : ℕ
    pub same : t ≡ record s { run_gas = r; new_mem_size = size; mem = grown s.mem size }
    pub dearer : s.run_gas ≤ r
    pub paid : r ≤ s.io_gas
    pub reaches : need ≤ size
    pub whole : size % 32 ≡ 0

  pub update_mem_lem :
      (n : ℕ) (s t : Vm W) → IsModest s → n < 2 ^ 63 + 32 → update_mem n s ≡ ok tt t → GrownBy n s t
  unfolding update_mem
  update_mem_lem n s t m k h =
      let size = (n + 31) % 2 ^ 64 / 32 * 32 in
      let s0 : Vm W = record s { new_mem_size = size } in
      let (u, s1, e, h1) = bind_ok (update_gas s0) (λ _. grow_mem) h in
      let m0 : IsModest s0 = record { own = m.own; copied = m.copied; sum = m.sum } in
      let (g, eq, lo, hi) = update_gas_lem s0 s1 m0 e in
      let last : grow_mem (record s0 { run_gas = g }) ≡ ok tt t =
        subst (λ x. grow_mem x ≡ ok tt t) eq h1 in
      record {
        r = g;
        size = size;
        same = grow_mem_lem (record s0 { run_gas = g }) t last;
        dearer = lo;
        paid = hi;
        reaches = omega arith;
        whole = omega arith;
      }

  pub to_int63_lem :
      (v : ℕ) (s : Vm W) {a : ℕ} {t : Vm W}
      → to_int63 v s ≡ ok a t
      → (a ≡ v) × (t ≡ s) × (v < 2 ^ 63)
  unfolding to_int63
  to_int63_lem v s h = ground arith

  pub grow_for_lem :
      (o n : ℕ) (s t : Vm W) → IsModest s → grow_for o n s ≡ ok tt t → GrownBy (span o n) s t
  unfolding grow_for mem_need
  grow_for_lem o n s t m h =
      let (need, s1, e, h1) = bind_ok (to_int63 (span o n) s) (λ k. update_mem k) h in
      let (ea, es, lt) = to_int63_lem (span o n) s e in
      update_mem_lem (span o n) s t m (omega arith)
        (subst₂ (λ k x. update_mem k x ≡ ok tt t) ea es h1)

  pub grow_to_lem :
      (o n : ℕ) (s t : Vm W) → IsModest s → n ≤ 32 → grow_to o n s ≡ ok tt t → GrownBy (o + n) s t
  unfolding grow_to
  grow_to_lem o n s t m k h =
      let (from, s1, e, h1) = bind_ok (to_int63 o s) (λ f. update_mem (f + n)) h in
      let (ea, es, lt) = to_int63_lem o s e in
      update_mem_lem (o + n) s t m (omega arith)
        (subst₂ (λ f x. update_mem (f + n) x ≡ ok tt t) ea es h1)

  -- To reason on what comes behind a growth, for whatever price and size it has settled.
  pub after_growth :
      {Q B : Type 0} {b : B} (need : ℕ) (s t : Vm W) (o : Outcome (Vm W) (Unit {0}))
      (f : Unit {0} → Vm W → Outcome (Vm W) B)
      → ((s1 : Vm W) → o ≡ ok tt s1 → GrownBy need s s1)
      → continue o f ≡ ok b t
      → ((r size : ℕ)
          → f tt (record s { run_gas = r; new_mem_size = size; mem = grown s.mem size }) ≡ ok b t
          → s.run_gas ≤ r
          → r ≤ s.io_gas
          → need ≤ size
          → Q)
      → Q
  after_growth {b} need s t (ok u s1) f by h k =
      let g = by s1 refl in
      k g.r g.size (subst (λ x. f tt x ≡ ok b t) g.same h) g.dearer g.paid g.reaches
  after_growth need s t (throw e s1) f by h k = cc

  -- The same for `m_runGas = toInt63(v)`, and for a `toInt63` whose result is used.
  pub after_price :
      {Q : Type 0} (v : ℕ) (s t : Vm W) (f : Unit {0} → Vm W → Outcome (Vm W) (Unit {0}))
      → continue (set_run_gas v s) f ≡ ok tt t
      → (v < 2 ^ 63 → f tt (record s { run_gas = v }) ≡ ok tt t → Q)
      → Q
  unfolding set_run_gas to_int63
  after_price v s t f h k = elim (Bool-cases (ltb 0x7FFFFFFFFFFFFFFF v)) [
    | inl over ↦ absurd (cc (over, h))
    | inr fits ↦ k (ground arith) (rw fits at h)
  ]

  pub after_int63 :
      {Q : Type 0} (v : ℕ) (s t : Vm W) (f : ℕ → Vm W → Outcome (Vm W) (Unit {0}))
      → continue (to_int63 v s) f ≡ ok tt t
      → (v < 2 ^ 63 → f v s ≡ ok tt t → Q)
      → Q
  unfolding to_int63
  after_int63 v s t f h k = elim (Bool-cases (ltb 0x7FFFFFFFFFFFFFFF v)) [
    | inl over ↦ absurd (cc (over, h))
    | inr fits ↦ k (ground arith) (rw fits at h)
  ]
