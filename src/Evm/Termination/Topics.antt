-- ===== src/Evm/Termination/Topics.antt =====
-- The prices of LOG and EXP (libevm/VM.cpp), whose sums have 32 bits.
use x_chain.Prelude.{
  ℕ, zero, suc, ◌+◌, ◌*◌, ◌-◌, ◌/◌, ◌%◌, ◌^◌, ◌<◌, ◌≤◌, ◌≡◌, refl, Bool, true, ◌&&◌, leb, List, [],
  ◌∷◌, arith, get_or,
}
use native.Mathlib.Nat.{mul-le-mul_left}
use x_chain.Evm.Instruction.{
  Instruction, log, undefined, row, row_a, row_f, items_a, items_f, decode,
}
use x_chain.Evm.Schedule.{EvmSchedule}
use x_chain.Evm.Cases.Words.{exp_bytes}
use x_chain.Evm.Termination.Budget.{IsPriced}

-- A LOG has at most four topics.
abbrev pub has_topics : Instruction → Bool
has_topics (log n) = leb n 4
has_topics _ = true

abbrev pub HasTopics : Instruction → Type 0
HasTopics i = has_topics i ≡ true

abbrev all_have : List Instruction → Bool
all_have [] = true
all_have (x ∷ l) = has_topics x && all_have l

get_or-HasTopics :
    (l : List Instruction) (i : ℕ) (d : Instruction)
    → all_have l ≡ true
    → HasTopics d
    → HasTopics (get_or l i d)
get_or-HasTopics [] i d all h = h
get_or-HasTopics (x ∷ l) zero d all h = ground arith
get_or-HasTopics (x ∷ l) (suc i) d all h =
    let rest : all_have l ≡ true = ground arith in get_or-HasTopics l i d rest h

row_all : (i : ℕ) → all_have (row i) ≡ true
unfolding row
row_all zero = refl
row_all (suc zero) = refl
row_all (suc (suc zero)) = refl
row_all (suc (suc (suc zero))) = refl
row_all (suc (suc (suc (suc zero)))) = refl
row_all (suc (suc (suc (suc (suc zero))))) = refl
row_all (suc (suc (suc (suc (suc (suc i)))))) = refl

-- Every byte that is decoded is such an instruction.
pub decode-HasTopics : (b : ℕ) → HasTopics (decode b)
unfolding decode row_a row_f
decode-HasTopics b =
    let low = get_or-HasTopics (row (b / 16)) (b % 16) (undefined b) (row_all (b / 16)) refl in
    let logs = get_or-HasTopics items_a (b - 0xa0) (undefined (0xa0 + (b - 0xa0))) refl refl in
    let high = get_or-HasTopics items_f (b - 0xf0) (undefined (0xf0 + (b - 0xf0))) refl refl in
    ground arith

bounded_price : (a b n m : ℕ) → 1 ≤ a → n ≤ m → a + b * m < 2 ^ 32 → 1 ≤ (a + b * n) % 2 ^ 32
bounded_price a b n m p le small =
    let fewer : b * n ≤ b * m = mul-le-mul_left b le in omega (arith, fewer, p, small)

pub exp_price :
    (p : EvmSchedule) (e : ℕ) → IsPriced p → 1 ≤ (p.exp_gas + p.exp_byte_gas * exp_bytes e) % 2 ^ 32
unfolding exp_bytes
exp_price p e q =
    bounded_price p.exp_gas p.exp_byte_gas (exp_bytes e) 32 q.exp (omega arith) q.exp_unsigned

pub log_price :
    (p : EvmSchedule) (n : ℕ) → IsPriced p → n ≤ 4 → 1 ≤ (p.log_gas + p.log_topic_gas * n) % 2 ^ 32
log_price p n q le = bounded_price p.log_gas p.log_topic_gas n 4 q.log le q.log_unsigned
