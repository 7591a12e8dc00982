-- ===== src/Evm/Prices.antt =====
-- What the instructions pay: the cost of memory, and the tiers.
use x_chain.Prelude.{
  ℕ, zero, suc, ◌+◌, ◌-◌, ◌*◌, ◌/◌, ◌%◌, ◌^◌, ◌≤◌, ◌<◌, ◌≡◌, ap, ◌∙◌, subst, arith, length, max,
}
use native.Mathlib.Nat.{div-zero, le-div_iff_mul-le, div-mul-le_self, mul-le-mul_left, mul-le-mul}
use x_chain.Evm.State.{Vm, ok}
use x_chain.Evm.Schedule.{EvmSchedule}
use x_chain.Evm.Gas.{
  mem_cost, to_int63, gas_for_mem, charge_growth, add_copy_price, update_gas, update_mem, grow_mem,
  grown,
}
use x_chain.Evm.Shape.{length-grown}
use x_chain.Evm.Growth.{bind_ok, IsModest, copy_sum, grow_mem_lem}

div-le-div : (a b k : ℕ) → a ≤ b → a / k ≤ b / k
div-le-div a b zero h = omega (arith, div-zero a, div-zero b)
div-le-div a b (suc k) h =
    (le-div_iff_mul-le {k = suc k} (omega arith)).1 (omega (arith, div-mul-le_self a (suc k)))

-- The cost of a memory never falls with its size, whatever the prices of the schedule.
pub mem_cost_mono : (p : EvmSchedule) (m n : ℕ) → m ≤ n → mem_cost p m ≤ mem_cost p n
unfolding mem_cost
mem_cost_mono p m n h =
    let w = div-le-div m n 32 h in
    omega (
      arith,
      mul-le-mul_left p.memory_gas w,
      div-le-div (m / 32 * (m / 32)) (n / 32 * (n / 32)) p.quad_coeff_div (mul-le-mul w w),
    )

module _ {W : Type 0} where
  -- `charge_growth` on a memory of whole words adds the difference of the two costs
  charge_growth_exact :
      (s t : Vm W)
      → s.run_gas < 2 ^ 63
      → charge_growth s ≡ ok tt t
      → t ≡ record s {
        run_gas =
            s.run_gas
            + (mem_cost s.schedule (max (length s.mem) s.new_mem_size)
                - mem_cost s.schedule (length s.mem));
      }
  unfolding charge_growth to_int63 gas_for_mem
  charge_growth_exact s t k h =
      let m = mem_cost_mono s.schedule (length s.mem) s.new_mem_size in ground (arith, m)

  charge_growth_below :
      (s t : Vm W) → s.run_gas < 2 ^ 63 → charge_growth s ≡ ok tt t → t.run_gas < s.run_gas + 2 ^ 63
  unfolding charge_growth to_int63
  charge_growth_below s t k h = ground arith

  add_copy_price_exact :
      (s t : Vm W) (own : ℕ)
      → s.copy_mem_size < 2 ^ 63
      → own + s.schedule.copy_gas * ((s.copy_mem_size + 31) / 32) < 2 ^ 63
      → own ≤ s.run_gas
      → s.run_gas < own + 2 ^ 63
      → add_copy_price s ≡ ok tt t
      → (t ≡ record s { run_gas = s.run_gas + s.schedule.copy_gas * ((s.copy_mem_size + 31) / 32) })
        × (t.run_gas ≤ s.io_gas)
  unfolding add_copy_price
  add_copy_price_exact s t own c m lo hi h =
      let e = copy_sum own s.run_gas s.copy_mem_size s.schedule.copy_gas c m lo hi in
      (ground arith, ground arith)

  -- Where the prices are modest (the instruction's own and the copy's below 2^63 together) and `n`
  -- is below 2^63 + 32, a growth of the memory to reach `n` bytes that returns settles the price to
  -- be the instruction's own, and the difference of the memory costs of the new size and the old,
  -- and the copy price of each word that is copied, with no wrap-around; the gas that is left
  -- covers it and is not yet taken, and the memory is the old one followed by zeros, up to `n`
  -- bytes rounded up to words.
  pub update_mem_exact :
      (n : ℕ) (s t : Vm W)
      → IsModest s
      → n < 2 ^ 63 + 32
      → update_mem n s ≡ ok tt t
      → (t.run_gas
          ≡ s.run_gas
            + (mem_cost s.schedule (max (length s.mem) ((n + 31) / 32 * 32))
                - mem_cost s.schedule (length s.mem))
            + s.schedule.copy_gas * ((s.copy_mem_size + 31) / 32))
        × (t.run_gas ≤ s.io_gas)
        × (t.io_gas ≡ s.io_gas)
        × (length t.mem ≡ max (length s.mem) ((n + 31) / 32 * 32))
        × (t.mem ≡ grown s.mem ((n + 31) / 32 * 32))
  unfolding update_mem update_gas
  update_mem_exact n s t m k h =
      let size = (n + 31) % 2 ^ 64 / 32 * 32 in
      let same : size ≡ (n + 31) / 32 * 32 =
        ap (λ x. x / 32 * 32) (let e : (n + 31) % 2 ^ 64 ≡ n + 31 = omega arith in e) in
      let s0 : Vm W = record s { new_mem_size = size } in
      let (u, s2, e, h1) = bind_ok (update_gas s0) (λ _. grow_mem) h in
      let (v, s1, e1, e2) = bind_ok (charge_growth s0) (λ _. add_copy_price) e in
      let cost =
        s.run_gas
        + (mem_cost s.schedule (max (length s.mem) size) - mem_cost s.schedule (length s.mem)) in
      let charged : Vm W = record s0 { run_gas = cost } in
      let g : s1 ≡ charged = charge_growth_exact s0 s1 m.own e1 in
      let lt : cost < s.run_gas + 2 ^ 63 =
        subst (λ x. x.run_gas < s.run_gas + 2 ^ 63) g (charge_growth_below s0 s1 m.own e1) in
      let (c, le) =
        add_copy_price_exact charged s2 s.run_gas m.copied m.sum (omega arith) lt
          (subst (λ x. add_copy_price x ≡ ok tt s2) g e2) in
      let final : Vm W = record charged {
        run_gas = cost + s.schedule.copy_gas * ((s.copy_mem_size + 31) / 32);
      } in
      let last : t ≡ record final { mem = grown s.mem size } =
        subst (λ x. t ≡ record x { mem = grown x.mem x.new_mem_size }) c (grow_mem_lem s2 t h1) in
      let paid : cost + s.schedule.copy_gas * ((s.copy_mem_size + 31) / 32) ≤ s.io_gas =
        subst (λ x. x.run_gas ≤ s.io_gas) c le in
      subst
        (λ z.
          (t.run_gas
            ≡ s.run_gas
              + (mem_cost s.schedule (max (length s.mem) z) - mem_cost s.schedule (length s.mem))
              + s.schedule.copy_gas * ((s.copy_mem_size + 31) / 32))
          × (t.run_gas ≤ s.io_gas)
          × (t.io_gas ≡ s.io_gas)
          × (length t.mem ≡ max (length s.mem) z)
          × (t.mem ≡ grown s.mem z))
        same
        (
          ap (λ x. x.run_gas) last,
          rw last paid,
          ap (λ x. x.io_gas) last,
          ap (λ x. length x.mem) last ∙ length-grown s.mem size,
          ap (λ x. x.mem) last,
        )
