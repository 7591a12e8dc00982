-- ===== src/Pbft/Quorum.antt =====
-- The arithmetic of votes behind `quorum` of libpdftseal/PBFT.h.
use x_chain.Prelude.{
  ℕ, zero, suc, ◌+◌, ◌-◌, ◌/◌, ◌≤◌, ◌<◌, ◌≡◌, refl, inl, inr, Bool, true, false, ◌&&◌, arith,
  if◌then◌else◌, Bool-cases,
}
use x_chain.Pbft.{Pbft, quorum, reset_config, start_generation, word256}

-- How many of the nodes below `n` a test accepts.
abbrev pub votes : (ℕ → Bool) → ℕ → ℕ
votes v zero = 0
votes v (suc n) = (let rest = votes v n in if v n then suc rest else rest)

votes_both : (v w : ℕ → Bool) (n : ℕ) → votes v n + votes w n ≤ n + votes (λ i. v i && w i) n
votes_both v w zero = omega arith
votes_both v w (suc n) = let rest = votes_both v w n in ground arith

votes_found :
    (v b : ℕ → Bool) (n : ℕ)
    → votes b n < votes v n
    → (i : ℕ) × (i < n) × (v i ≡ true) × (b i ≡ false)
votes_found v b zero h = absurd (omega (arith, h))
votes_found v b (suc n) h =
    let earlier : votes b n < votes v n → (i : ℕ) × (i < suc n) × (v i ≡ true) × (b i ≡ false) =
      λ less.
        let (i, small, for_it, not_bad) = votes_found v b n less in
        (i, omega (arith, small), for_it, not_bad) in
    elim (Bool-cases (v n)) [
      | inl voted ↦ elim (Bool-cases (b n)) [
        | inl bad ↦ earlier (ground arith)
        | inr good ↦ (n, omega arith, voted, good)
      ]
      | inr silent ↦ earlier (ground arith)
    ]

-- The number of faults is the one that resetConfig computes, and the nodes can be counted in 256 bits.
pub record IsConfigured {X : Type 0} (p : Pbft X) : Type 0 where
  pub some_node : 0 < p.node_num
  pub faults : p.f ≡ (p.node_num - 1) / 3
  pub small : p.node_num < word256

pub quorum-IsConfigured :
    {X : Type 0} (p : Pbft X) → IsConfigured p → quorum p ≡ p.node_num - (p.node_num - 1) / 3
unfolding quorum
quorum-IsConfigured p c = rw c.faults (omega (arith, c.small, c.some_node))

-- Two sets of votes that both reach the quorum share a node that is not faulty, when no more nodes are faulty than
-- the engine allows for.
pub quorums_meet :
    {X : Type 0} (p : Pbft X) (v w faulty : ℕ → Bool)
    → IsConfigured p
    → quorum p ≤ votes v p.node_num
    → quorum p ≤ votes w p.node_num
    → votes faulty p.node_num ≤ p.f
    → (i : ℕ) × (i < p.node_num) × (v i && w i ≡ true) × (faulty i ≡ false)
quorums_meet p v w faulty c a b few =
    votes_found (λ i. v i && w i) faulty p.node_num
      (omega (
        arith,
        quorum-IsConfigured p c,
        c.faults,
        c.some_node,
        a,
        b,
        few,
        votes_both v w p.node_num,
      ))

-- After the engine starts, or is set up, it is configured for itself alone: its own vote is the quorum.
pub start_generation_lem :
    {X : Type 0} (p : Pbft X) (time : ℕ)
    → IsConfigured (start_generation time p)
      × (quorum (start_generation time p) ≡ 1)
      × ((start_generation time p).f ≡ 0)
      × ((start_generation time p).view ≡ p.view)
unfolding start_generation reset_config quorum
start_generation_lem p time =
    (record { some_node = omega arith; faults = refl; small = omega arith }, refl, refl, refl)
