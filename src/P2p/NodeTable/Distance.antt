-- ===== src/P2p/NodeTable/Distance.antt =====
-- `distance` of libp2p/NodeTable.h.
use x_chain.Prelude.{
  ℕ, zero, suc, ◌+◌, ◌*◌, ◌/◌, ◌^◌, ◌≤◌, ◌<◌, bit_xor, ◌≡◌, sym, ◌∙◌, subst, inl, inr, arith, ◌==◌,
  Bool-cases,
}
use x_chain.P2p.NodeTable.{Network, distance, shifts}
use native.Mathlib.Nat.{pow-suc}

double : (k : ℕ) → 2 ^ suc k ≡ 2 ^ k * 2
double k = pow-suc 2 k

-- A count of the places below the highest bit.
abbrev pub IsLog : ℕ → ℕ → Type 0
IsLog d k = (2 ^ k ≤ d) × (d < 2 ^ suc k)

-- The loop counts up by the places of the highest bit.
shifts_lem :
    (n d ret : ℕ) → 0 < d → d < 2 ^ n → (k : ℕ) × (shifts n d ret ≡ ret + k) × IsLog d k × (k < n)
unfolding shifts
shifts_lem zero d ret p h = absurd (omega (arith, p, h))
shifts_lem (suc n) d ret p h = elim (Bool-cases (d / 2 == 0)) [
  | inl e ↦
      let small : d < 2 = ground arith in
      (0, rw e (omega arith), (omega (arith, p), small), omega arith)
  | inr e ↦
      let more : 0 < d / 2 = ground arith in
      let (k, eq, log, lt) = shifts_lem n (d / 2) (ret + 1) more (omega (arith, h, double n)) in
      (
        suc k,
        rw e (eq ∙ omega arith),
        (omega (arith, log.0, double k), omega (arith, log.1, double (suc k))),
        omega (arith, lt),
      )
]

-- The distance of two nodes whose hashes differ is the place of the highest bit in which they do, below 256.
pub distance_lem :
    (net : Network) (a b : ℕ)
    → 0 < bit_xor (net.sha3 a) (net.sha3 b)
    → bit_xor (net.sha3 a) (net.sha3 b) < 2 ^ 256
    → IsLog (bit_xor (net.sha3 a) (net.sha3 b)) (distance net a b) × (distance net a b < 256)
unfolding distance
distance_lem net a b p h =
    let (k, eq, log, lt) = shifts_lem 256 (bit_xor (net.sha3 a) (net.sha3 b)) 0 p h in
    let no_more : 0 + k ≡ k = omega arith in
    subst (λ x. IsLog (bit_xor (net.sha3 a) (net.sha3 b)) x × (x < 256)) (sym (eq ∙ no_more))
      (log, lt)
