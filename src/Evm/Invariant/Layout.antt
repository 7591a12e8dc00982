-- ===== src/Evm/Invariant/Layout.antt =====
-- The code that `optimize` lays out, and its jump destinations.
use x_chain.Prelude.{
  ℕ, zero, suc, ◌+◌, ◌-◌, ◌/◌, ◌%◌, ◌<◌, ◌≤◌, ◌≡◌, refl, ap, arith, length, get_or, true, false,
  Bool, List, [], ◌∷◌, ◌++◌, replicate, ltb, ◌==◌, ◌&&◌, if◌then◌else◌,
}
use x_chain.Evm.Instruction.{
  Instruction, decode, row, row_a, row_f, items_a, items_f, undefined, push, dup, swap,
}
use x_chain.Evm.Cases.Control.{contains}
use x_chain.Evm.Optimize.{scan_jump_dests, bar_synthetic, push_data}

pub length-bar_synthetic : (bs : List ℕ) (skip : ℕ) → length (bar_synthetic bs skip) ≡ length bs
unfolding bar_synthetic
length-bar_synthetic [] skip = refl
length-bar_synthetic (b ∷ bs) (suc skip) = ap suc (length-bar_synthetic bs skip)
length-bar_synthetic (b ∷ bs) zero = ap suc (length-bar_synthetic bs (push_data b))

-- A jump destination lies in the code.
pub contains-scan_jump_dests :
    (bs : List ℕ) (pc skip d : ℕ)
    → contains (scan_jump_dests bs pc skip) d ≡ true
    → (pc ≤ d) × (d < pc + length bs)
unfolding scan_jump_dests contains
contains-scan_jump_dests [] pc skip d h = ground arith
contains-scan_jump_dests (b ∷ bs) pc (suc skip) d h =
    omega (arith, contains-scan_jump_dests bs (pc + 1) skip d h)
contains-scan_jump_dests (b ∷ bs) pc zero d h =
    ground (arith, contains-scan_jump_dests bs (pc + 1) (push_data b) d)

get_or-replicate : (n i : ℕ) → get_or {A = ℕ} (replicate n 0) i 0 ≡ 0
get_or-replicate zero i = refl
get_or-replicate (suc n) zero = refl
get_or-replicate (suc n) (suc i) = get_or-replicate n i

-- The code is followed by STOP instructions.
pub get_or-behind : (xs : List ℕ) (n i : ℕ) → length xs ≤ i → get_or (xs ++ replicate n 0) i 0 ≡ 0
get_or-behind [] n i h = get_or-replicate n i
get_or-behind (x ∷ xs) n zero h = ground arith
get_or-behind (x ∷ xs) n (suc i) h = get_or-behind xs n i (omega arith)

-- the bytes of data behind an instruction
abbrev pub push_width : Instruction → ℕ
push_width (push n) = n
push_width _ = 0

abbrev all_narrow : List Instruction → Bool
all_narrow [] = true
all_narrow (i ∷ is) = push_width i == 0 && all_narrow is

get_or_narrow :
    (is : List Instruction) (i : ℕ) (d : Instruction)
    → all_narrow is ≡ true
    → push_width d ≡ 0
    → push_width (get_or is i d) ≡ 0
get_or_narrow [] i d h k = k
get_or_narrow (x ∷ is) zero d h k = ground arith
get_or_narrow (x ∷ is) (suc i) d h k = get_or_narrow is i d (ground arith) k

row_narrow : (k : ℕ) → all_narrow (row k) ≡ true
unfolding row
row_narrow zero = refl
row_narrow (suc zero) = refl
row_narrow (suc (suc zero)) = refl
row_narrow (suc (suc (suc zero))) = refl
row_narrow (suc (suc (suc (suc zero)))) = refl
row_narrow (suc (suc (suc (suc (suc zero))))) = refl
row_narrow (suc (suc (suc (suc (suc (suc k)))))) = refl

row_a_narrow : (i : ℕ) → push_width (row_a i) ≡ 0
unfolding row_a
row_a_narrow i = get_or_narrow items_a i (undefined (0xa0 + i)) refl refl

row_f_narrow : (i : ℕ) → push_width (row_f i) ≡ 0
unfolding row_f
row_f_narrow i = get_or_narrow items_f i (undefined (0xf0 + i)) refl refl

push_width-if :
    (b : Bool) (x y : Instruction)
    → (b ≡ true → push_width x ≤ 32)
    → push_width y ≤ 32
    → push_width (if b then x else y) ≤ 32
push_width-if true x y h k = h refl
push_width-if false x y h k = k

pub push_width-decode : (b : ℕ) → push_width (decode b) ≤ 32
unfolding decode
push_width-decode b =
    push_width-if (ltb b 0x60) _ _
      (λ _.
        omega
          (arith, get_or_narrow (row (b / 16)) (b % 16) (undefined b) (row_narrow (b / 16)) refl))
      (push_width-if (ltb b 0x80) (push (b - 0x60 + 1)) _ (λ h. ground arith)
        (push_width-if (ltb b 0x90) (dup (b - 0x80 + 1)) _ (λ _. ground arith)
          (push_width-if (ltb b 0xa0) (swap (b - 0x90 + 1)) _ (λ _. ground arith)
            (push_width-if (ltb b 0xb0) (row_a (b - 0xa0)) _
              (λ _. omega (arith, row_a_narrow (b - 0xa0)))
              (push_width-if (ltb b 0xf0) (undefined b) (row_f (b - 0xf0)) (λ _. ground arith)
                (omega (arith, row_f_narrow (b - 0xf0))))))))
