-- ===== src/Chain/Executive/Transactions.antt =====
-- A whole transaction of libethereum/Executive.cpp: initialize, execute, go and finalize in turn.
use x_chain.Prelude.{ℕ, ◌≤◌, ◌≡◌, Option, none, some}
use x_chain.Chain.Executive.{Transaction, Ended, World, Executive}

-- What holds of a result, if there is one.
abbrev Held {ℓ κ} : {A : Type ℓ} → (A → Type κ) → Option A → Type κ
Held P none = Unit
Held P (some a) = P a

-- A run of code ends with no more gas than it was given.
module _ {W L : Type 0} where
  abbrev pub Bounded : ℕ → Ended W L → Type 0
  Bounded g (Ended.returned g' out s sub) = g' ≤ g
  Bounded g (Ended.reverted g' out s sub) = g' ≤ g
  Bounded g (Ended.failed why s sub) = Unit
  Bounded g Ended.fatal = Unit

module _ (W L : Type 0) (w : World W L) where
  -- With no more gas than `n`, for the same transaction.
  abbrev Within : ℕ → Transaction → Executive W L → Type 0
  Within n t e = (e.gas ≤ n) × (e.t ≡ t)
