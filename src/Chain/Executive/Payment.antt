-- ===== src/Chain/Executive/Payment.antt =====
-- Who pays for a transaction of libethereum/Executive.cpp, and how much.
use x_chain.Prelude.{
  ℕ, ◌+◌, ◌-◌, ◌*◌, ◌/◌, ◌%◌, ◌≤◌, ◌<◌, ◌≡◌, refl, sym, ap, ◌∙◌, Option, none, some, List, [],
  false, if◌then◌else◌, arith,
}
use mathlib.Core.Option
use native.Mathlib.Nat.{add-mul}
use x_chain.Chain.Executive.{
  word, minus256, Transaction, kill_all, Ext, World, Executive, gas_used, refund, returned_fee,
  fees_earned, settle, end_accounts, with_refunds, finalize,
}

pub split_gas :
    (left used gas price : ℕ) → used + left ≡ gas → left * price + used * price ≡ gas * price
split_gas left used gas price h =
    sym (add-mul left used price) ∙ ap (λ n. n * price) (omega (arith, h))

-- The accounts that ended in a run.
unfoldable pub ended_accounts : {L : Type 0} → Option (Ext L) → List ℕ
ended_accounts none = []
ended_accounts (some x) = x.sub.suicides

module _ (W L : Type 0) (w : World W L) where
  abbrev pub Settled : Executive W L → Executive W L → Type 0
  Settled e e' = (e'.gas ≡ e.gas) × (e'.t ≡ e.t)

  settle_keeps : (e : Executive W L) → Settled e (settle w e)
  unfolding settle
  settle_keeps e = ground arith

  end_accounts_keeps : (e : Executive W L) (o : Option (Ext L)) → Settled e (end_accounts w e o)
  unfolding end_accounts
  end_accounts_keeps e none = (refl, refl)
  end_accounts_keeps e (some x) = (refl, refl)

  refund-le : (e : Executive W L) (o : Option (Ext L)) → refund w e o ≤ minus256 e.t.gas e.gas / 2
  unfolding refund
  refund-le e none = omega arith
  refund-le e (some x) = omega arith

  -- The state of `finalize` after the refund.
  refunding : Executive W L → Executive W L
  refunding e = record e {
    refunded = refund w e e.ext;
    gas = (e.gas + refund w e e.ext) % word;
    ext = Option.map (with_refunds w) e.ext;
  }

  finalize_keeps : (e : Executive W L) → Settled (refunding e) (finalize w e)
  unfolding finalize refunding
  finalize_keeps e =
      let (a, b) = settle_keeps (refunding e) in
      let (c, d) = end_accounts_keeps (settle w (refunding e)) e.ext in (c ∙ a, d ∙ b)

  end_accounts-s :
      (e : Executive W L) (o : Option (Ext L))
      → (end_accounts w e o).s ≡ kill_all w e.s (ended_accounts o)
  unfolding end_accounts ended_accounts kill_all
  end_accounts-s e none = refl
  end_accounts-s e (some x) = refl

  finalize-s :
      (e : Executive W L)
      → (finalize w e).s ≡ kill_all w (settle w (refunding e)).s (ended_accounts e.ext)
  unfolding finalize refunding
  finalize-s e = end_accounts-s (settle w (refunding e)) e.ext

  settle-s :
      (e : Executive W L)
      → e.t.null ≡ false
      → (settle w e).s
        ≡ w.add_balance (w.add_balance e.s e.t.sender (returned_fee w e)) w.author (fees_earned w e)
  unfolding settle
  settle-s e there =
      let paid : Executive W L = record e {
        s =
            w.add_balance (w.add_balance e.s e.t.sender (returned_fee w e)) w.author
              (fees_earned w e);
      } in
      ap (λ b. (if b then e else paid).s) there

  -- Both payments, which are not cut to 256 bits.
  credit :
      (e : Executive W L) (t : Transaction)
      → e.t ≡ t
      → t.null ≡ false
      → gas_used w (finalize w e) + (finalize w e).gas ≡ t.gas
      → t.gas * t.gas_price < word
      → (finalize w e).gas ≡ (refunding e).gas
      → (finalize w e).t.gas ≡ t.gas
      → (finalize w e).s
        ≡ kill_all w
            (w.add_balance
              (w.add_balance e.s t.sender ((finalize w e).gas * t.gas_price))
              w.author
              (gas_used w (finalize w e) * t.gas_price))
            (ended_accounts e.ext)
  unfolding returned_fee fees_earned gas_used refunding
  credit e t same there made_up price same_gas gas_f =
      let e' = finalize w e in
      let whole = split_gas e'.gas (gas_used w e') t.gas t.gas_price made_up in
      let back : returned_fee w (refunding e) ≡ e'.gas * t.gas_price =
        ap (λ n. n * e.t.gas_price % word) (sym same_gas)
        ∙ ap (λ x. e'.gas * x.gas_price % word) same
        ∙ omega (arith, whole, price) in
      let fee : fees_earned w (refunding e) ≡ gas_used w e' * t.gas_price =
        ap (λ n. minus256 e.t.gas n * e.t.gas_price % word) (sym same_gas)
        ∙ ap (λ x. minus256 x.gas e'.gas * x.gas_price % word) same
        ∙ ap (λ n. minus256 n e'.gas * t.gas_price % word) (sym gas_f)
        ∙ omega (arith, whole, price) in
      let pay = λ (a n k : ℕ). w.add_balance (w.add_balance e.s a n) w.author k in
      finalize-s e
      ∙ ap (λ s. kill_all w s (ended_accounts e.ext))
          (settle-s (refunding e) (ap (λ x. x.null) same ∙ there)
            ∙ ap (λ a. pay a (returned_fee w (refunding e)) (fees_earned w (refunding e)))
                (ap (λ x. x.sender) same)
            ∙ ap (λ n. pay t.sender n (fees_earned w (refunding e))) back
            ∙ ap (pay t.sender (e'.gas * t.gas_price)) fee)

  -- When `finalize` starts with no more gas left than the transaction has, and the gas times its price fits in 256
  -- bits, then: what is left and what is used make up the gas of the transaction; a refund adds to what is left, by at
  -- most half of what was used; the sender is paid for what is left and the author for what is used.
  pub finalize_lem :
      (e : Executive W L) (t : Transaction)
      → e.t ≡ t
      → t.null ≡ false
      → e.gas ≤ t.gas
      → t.gas < word
      → t.gas * t.gas_price < word
      → let e' = finalize w e in
        (gas_used w e' + e'.gas ≡ t.gas)
        × (e.gas ≤ e'.gas)
        × (t.gas ≤ e.gas + 2 * gas_used w e')
        × (e'.s
            ≡ kill_all w
                (w.add_balance
                  (w.add_balance e.s t.sender (e'.gas * t.gas_price))
                  w.author
                  (gas_used w e' * t.gas_price))
                (ended_accounts e.ext))
  unfolding gas_used refunding
  finalize_lem e t same there h small price =
      let (same_gas, same_t) = finalize_keeps e in
      let half = refund-le e e.ext in
      let gas_t : e.t.gas ≡ t.gas = ap (λ x. x.gas) same in
      let unused : minus256 e.t.gas e.gas ≡ t.gas - e.gas = omega (arith, gas_t, h, small) in
      let left : (finalize w e).gas ≡ e.gas + refund w e e.ext =
        same_gas ∙ omega (arith, unused, half, h, small) in
      let gas_f : (finalize w e).t.gas ≡ t.gas = ap (λ x. x.gas) (same_t ∙ same) in
      let used : gas_used w (finalize w e) ≡ t.gas - (e.gas + refund w e e.ext) =
        omega (arith, gas_f, left, unused, half, h, small) in
      let made_up : gas_used w (finalize w e) + (finalize w e).gas ≡ t.gas =
        omega (arith, used, left, unused, half, h) in
      (
        made_up,
        omega (arith, left),
        omega (arith, used, unused, half, h),
        credit e t same there made_up price same_gas gas_f,
      )
