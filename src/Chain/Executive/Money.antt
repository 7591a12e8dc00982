-- ===== src/Chain/Executive/Money.antt =====
-- What a transaction of libethereum/Executive.cpp does to the money of all accounts until `finalize`.
-- State is not in the repository; what its documentation says of balances and savepoints is the record IsLedger.
use x_chain.Prelude.{
  ℕ, ◌+◌, ◌≤◌, ◌≡◌, refl, inl, inr, Bool, true, false, Option, none, some, List, [], ◌∷◌, arith,
  ltb, ◌==◌, ◌||◌, if◌then◌else◌, Bool-cases, Option-cases,
}
use Prim.{tt}
use x_chain.Chain.Executive.{
  TransactionException, Ext, Ended, World, Executive, CallParameters, call_precompiled, call_code,
  pay_call, called, call, create_with, create, execute, revert, fail_with, deposit, after_exec,
  go_on,
}

-- `total` is the money of all accounts; `After s s'` says that s' comes from s by later changes, which a rollback to the
-- savepoint of s takes back.
pub record IsLedger {W L : Type 0} (w : World W L) : Type 1 where
  pub total : W → ℕ
  pub After : W → W → Type 0
  pub after_refl : (s : W) → After s s
  pub after_trans : (s t u : W) → After s t → After t u → After s u
  pub after_add : (s : W) (a n : ℕ) → After s (w.add_balance s a n)
  pub after_transfer : (s : W) (a b n : ℕ) → After s (w.transfer_balance s a b n)
  pub after_nonce : (s : W) (a : ℕ) → After s (w.inc_nonce s a)
  pub after_code : (s : W) (a : ℕ) (c : List ℕ) → After s (w.set_new_code s a c)
  pub total_add : (s : W) (a n : ℕ) → total (w.add_balance s a n) ≡ total s + n
  pub total_sub : (s : W) (a n : ℕ) → n ≤ w.balance s a → total (w.sub_balance s a n) + n ≡ total s
  pub balance_sub :
      (s : W) (a n : ℕ) → n ≤ w.balance s a → w.balance (w.sub_balance s a n) a + n ≡ w.balance s a
  pub total_transfer :
      (s : W) (a b n : ℕ) → n ≤ w.balance s a → total (w.transfer_balance s a b n) ≡ total s
  pub total_nonce : (s : W) (a : ℕ) → total (w.inc_nonce s a) ≡ total s
  pub balance_nonce : (s : W) (a b : ℕ) → w.balance (w.inc_nonce s a) b ≡ w.balance s b
  pub total_code : (s : W) (a : ℕ) (c : List ℕ) → total (w.set_new_code s a c) ≡ total s
  pub total_rollback : (s t : W) → After s t → total (w.rollback t (w.savepoint s)) ≡ total s

-- What holds in both branches.
either : {A : Type 0} (P : A → Type 0) (c : Bool) {x y : A} → P x → P y → P (if c then x else y)
either P true p q = p
either P false p q = q

module _ (W L : Type 0) (w : World W L) (ledger : IsLedger w) where
  open ledger use {
    total, After, after_refl, after_trans, after_add, after_transfer, after_nonce, after_code,
    total_add, total_sub, balance_sub, total_transfer, total_nonce, balance_nonce, total_code,
    total_rollback,
  }

  -- A run of code makes no money, and a rollback takes its changes back.
  abbrev pub Runs : W → Ended W L → Type 0
  Runs s (Ended.returned g out s' sub) = After s s' × (total s' ≤ total s)
  Runs s (Ended.reverted g out s' sub) = After s s' × (total s' ≤ total s)
  Runs s (Ended.failed why s' sub) = After s s' × (total s' ≤ total s)
  Runs s Ended.fatal = Unit

  -- No more money than `b`, now and after a rollback.
  abbrev pub Within : ℕ → Executive W L → Type 0
  Within b e = (p : W) × (e.saved ≡ w.savepoint p) × After p e.s × (total p ≤ b) × (total e.s ≤ b)

  abbrev pub Kept {ℓ} : {A : Type ℓ} → (A → Type 0) → Option A → Type 0
  Kept P none = Unit
  Kept P (some a) = P a

  moved :
      (b : ℕ) (e : Executive W L) (s : W)
      → Within b e
      → After e.s s
      → total s ≤ b
      → Within b (record e { s = s })
  moved b e s (p, at, after, was, now) later le = (p, at, after_trans p e.s s after later, was, le)

  pay_call-Within :
      (b : ℕ) (e : Executive W L) (p : CallParameters)
      → Within b e
      → p.value_transfer ≤ w.balance e.s p.sender_address
      → Within b (pay_call w p e).1
  unfolding pay_call
  pay_call-Within b e p h rich =
      let same = total_transfer e.s p.sender_address p.receive_address p.value_transfer rich in
      moved b e _ h (after_transfer e.s p.sender_address p.receive_address p.value_transfer)
        (omega (arith, same, h.4))

  call_code-Within :
      (b : ℕ) (e : Executive W L) (p : CallParameters)
      → Within b e
      → p.value_transfer ≤ w.balance e.s p.sender_address
      → Within b (pay_call w p (call_code w e p)).1
  unfolding call_code pay_call
  call_code-Within b e p h rich = elim (Option-cases (w.code e.s p.code_address)) [
    | inl none_there ↦ rw (call_code, none_there) (pay_call-Within b e p h rich)
    | inr (c, there) ↦ rw (call_code, there) (pay_call-Within b e p h rich)
  ]

  called-Within :
      (b : ℕ) (e : Executive W L) (p : CallParameters)
      → Within b e
      → p.value_transfer ≤ w.balance e.s p.sender_address
      → Within b (called w e p).1
  unfolding called call_precompiled pay_call
  called-Within b e p h rich = elim (Bool-cases (w.is_precompiled p.code_address)) [
    | inr code ↦ rw code (call_code-Within b e p h rich)
    | inl known ↦
        rw known (elim (Bool-cases (ltb p.gas (w.cost_of_precompiled p.code_address p.payload))) [
          | inl dear ↦ rw dear (elim (Bool-cases w.eip158) [
            | inl touch ↦
                let same = total_add e.s p.code_address 0 in
                rw touch (moved b e _ h (after_add e.s p.code_address 0) (omega (arith, same, h.4)))
            | inr left ↦ rw left h
          ])
          | inr cheap ↦
              rw cheap (elim (Bool-cases (w.execute_precompiled p.code_address p.payload).0) [
                | inl good ↦ rw good (pay_call-Within b e p h rich)
                | inr bad ↦ rw bad (pay_call-Within b e p h rich)
              ])
        ])
  ]

  -- A place to which a rollback can go.
  at_point : Executive W L → W → Executive W L
  at_point e s = record e { s = s; saved = w.savepoint s }

  pointed : (b : ℕ) (e : Executive W L) (s : W) → total s ≤ b → Within b (at_point e s)
  unfolding at_point
  pointed b e s le = (s, refl, after_refl s, le, le)

  call-Within :
      (e : Executive W L) (p : CallParameters)
      → p.value_transfer ≤ w.balance e.s p.sender_address
      → Within (total e.s) (call w e p).1
  unfolding call at_point
  call-Within e p rich =
      let same = total_nonce e.s p.sender_address in
      let kept = balance_nonce e.s p.sender_address p.sender_address in
      elim (Bool-cases (e.t.null || (p.sender_address == w.max_address))) [
        | inl bare ↦ rw bare (
            called-Within (total e.s) (at_point e e.s) p (pointed (total e.s) e e.s (omega arith))
              rich)
        | inr counted ↦
            let s' = w.inc_nonce e.s p.sender_address in
            rw counted (
              called-Within (total e.s) (at_point e s') p
                (pointed (total e.s) e s' (omega (arith, same))) (omega (arith, kept, rich)))
      ]

  -- The two states of `create`: with the savepoint, and after the endowment was paid.
  abbrev started : Executive W L → ℕ → W
  started e sender = if sender == w.max_address then e.s else w.inc_nonce e.s sender

  abbrev endowed : Executive W L → ℕ → ℕ → ℕ → W
  endowed e sender value at =
      let s = w.transfer_balance (started e sender) sender at value in
      if w.eip158 then w.inc_nonce s at else s

  endowed_lem :
      (e : Executive W L) (sender value at : ℕ)
      → value ≤ w.balance e.s sender
      → After (started e sender) (endowed e sender value at)
        × (total (started e sender) ≤ total e.s)
        × (total (endowed e sender value at) ≤ total e.s)
  endowed_lem e sender value at rich =
      let s1 = started e sender in
      let s2 = w.transfer_balance s1 sender at value in
      let s3 = endowed e sender value at in
      let first : (total s1 ≡ total e.s) × (w.balance s1 sender ≡ w.balance e.s sender) =
        elim (Bool-cases (sender == w.max_address)) [
          | inl top ↦ rw top (refl, refl)
          | inr counted ↦ rw counted (total_nonce e.s sender, balance_nonce e.s sender sender)
        ] in
      let second : total s2 ≡ total s1 =
        total_transfer s1 sender at value (omega (arith, first.1, rich)) in
      let third : After s2 s3 × (total s3 ≡ total s2) = elim (Bool-cases w.eip158) [
        | inl counted ↦ rw counted (after_nonce s2 at, total_nonce s2 at)
        | inr left ↦ rw left (after_refl s2, refl)
      ] in
      (
        after_trans s1 s2 s3 (after_transfer s1 sender at value) third.0,
        omega (arith, first.0),
        omega (arith, first.0, second, third.1),
      )

  create_with-Within :
      (e : Executive W L) (sender value gas : ℕ) (init : List ℕ) (o : Option ℕ)
      → value ≤ w.balance e.s sender
      → Kept (λ r. Within (total e.s) r.1) (create_with w e sender value gas init o)
  unfolding create_with
  create_with-Within e sender value gas init none rich = tt
  create_with-Within e sender value gas (x ∷ code) (some nonce) rich =
      let (since, one, all) = endowed_lem e sender value (w.new_address sender nonce) rich in
      (started e sender, refl, since, one, all)
  create_with-Within e sender value gas [] (some nonce) rich =
      let at = w.new_address sender nonce in
      let s3 = endowed e sender value at in
      let (since, one, all) = endowed_lem e sender value at rich in
      elim (Option-cases (w.code s3 at)) [
        | inl bare ↦ rw bare (started e sender, refl, since, one, all)
        | inr (c, old) ↦
            let same = total_code s3 at [] in
            rw old (
              started e sender,
              refl,
              after_trans (started e sender) s3 (w.set_new_code s3 at []) since
                  (after_code s3 at []),
              one,
              omega (arith, same, all),
            )
      ]

  -- What `execute` leaves is bounded by what there was without the price of the gas.
  abbrev pub Charged : Executive W L → Executive W L → Type 0
  Charged e e' = (b : ℕ) × (b + e.gas_cost ≡ total e.s) × Within b e'

  charge :
      (b : ℕ) (e : Executive W L) (o : Option (Bool × Executive W L))
      → b + e.gas_cost ≡ total e.s
      → Kept (λ r. Within b r.1) o
      → Kept (λ r. Charged e r.1) o
  charge b e none paid h = tt
  charge b e (some r) paid h = (b, paid, h)

  -- `execute` takes the price of the gas from the sender first.
  pub execute-Charged :
      (e : Executive W L)
      → e.t.value + e.gas_cost ≤ w.balance e.s e.t.sender
      → Kept (λ r. Charged e r.1) (execute w e)
  unfolding execute create
  execute-Charged e rich =
      let s' = w.sub_balance e.s e.t.sender e.gas_cost in
      let paid = total_sub e.s e.t.sender e.gas_cost (omega (arith, rich)) in
      let left = balance_sub e.s e.t.sender e.gas_cost (omega (arith, rich)) in
      let enough : e.t.value ≤ w.balance s' e.t.sender = omega (arith, left, rich) in
      let e' : Executive W L = record e { s = s' } in
      either (Kept (λ r. Charged e r.1)) e.t.is_creation
        (charge (total s') e _ paid
          (create_with-Within e' e.t.sender e.t.value _ e.t.payload _ enough))
        (total s', paid, call-Within e' _ enough)

  fail_with-total :
      (b : ℕ) (e : Executive W L) (x : TransactionException)
      → Within b e
      → total (fail_with w x e).s ≤ b
  unfolding fail_with revert
  fail_with-total b e x (p, at, after, was, now) =
      let back = total_rollback p e.s after in rw at (omega (arith, back, was))

  deposit-total :
      (b : ℕ) (e : Executive W L) (x : Ext L) (out : List ℕ)
      → Within b e
      → total (deposit w e x out).s ≤ b
  unfolding deposit
  deposit-total b e x out h =
      let failing = fail_with-total b e TransactionException.out_of_gas h in
      let full = total_code e.s x.my_address out in
      let bare = total_code e.s x.my_address [] in let now = h.4 in ground arith

  after_exec-total :
      (b : ℕ) (e : Executive W L) (x : Ext L) (o : Ended W L)
      → Within b e
      → Runs e.s o
      → Kept (λ e'. total e'.s ≤ b) (after_exec w e x o)
  unfolding after_exec revert
  after_exec-total b e x (Ended.returned g out s sub) h (later, le) =
      let x' : Ext L = record x { sub = sub } in
      let e' : Executive W L = record e { gas = g; s = s; ext = some x' } in
      let fits : total s ≤ b = omega (arith, le, h.4) in
      either (λ (u : Executive W L). total u.s ≤ b) e.is_creation
        (deposit-total b e' x' out (moved b e s h later fits)) fits
  after_exec-total b e x (Ended.reverted g out s sub) (p, at, after, was, now) (later, le) =
      let back = total_rollback p s (after_trans p e.s s after later) in
      rw at (omega (arith, back, was))
  after_exec-total b e x (Ended.failed why s sub) h (later, le) =
      let e' : Executive W L = record e { s = s; ext = some (record x { sub = sub }) } in
      fail_with-total b e' why (moved b e s h later (omega (arith, le, h.4)))
  after_exec-total b e x Ended.fatal h r = tt

  pub go_on-total :
      (b : ℕ) (e : Executive W L) (o : Option (Ext L))
      → ((g : ℕ) (x : Ext L) (s : W) → Runs s (w.run_code g x s))
      → Within b e
      → Kept (λ e'. total e'.s ≤ b) (go_on w e o)
  unfolding go_on
  go_on-total b e none law h = h.4
  go_on-total b e (some x) law h =
      after_exec-total b e x (w.run_code e.gas x e.s) h (law e.gas x e.s)
