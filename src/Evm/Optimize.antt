-- ===== src/Evm/Optimize.antt =====
-- `copyCode` and `optimize` (libevm/VMOpt.cpp): the private copy of the code, and the table of jump
-- destinations. In the built configuration (libevm/VMConfig.h) the passes behind EVM_OPTIMIZE and
-- EVM_JUMPS_AND_SUBS are off.
use x_chain.Prelude.{
  ℕ, zero, suc, ◌+◌, ◌-◌, List, [], ◌∷◌, ◌++◌, leb, ◌&&◌, if◌then◌else◌, ◌==◌, replicate,
}
use x_chain.Evm.State.{ExtVmFace, Run, modify}

-- the bytes of push data behind the instruction `b`
abbrev pub push_data : ℕ → ℕ
push_data b = if leb 0x60 b && leb b 0x7f then b - 0x60 + 1 else 0

-- The first loop of `optimize`: the synthetic instructions become BAD, and the JUMPDESTs outside
-- push data are collected. `skip` counts the bytes of push data still to be passed over.
unfoldable pub scan_jump_dests : List ℕ → ℕ → ℕ → List ℕ
scan_jump_dests [] pc skip = []
scan_jump_dests (b ∷ bs) pc (suc skip) = scan_jump_dests bs (pc + 1) skip
scan_jump_dests (b ∷ bs) pc zero =
    let rest = scan_jump_dests bs (pc + 1) (push_data b) in if b == 0x5b then pc ∷ rest else rest

unfoldable pub bar_synthetic : List ℕ → ℕ → List ℕ
bar_synthetic [] skip = []
bar_synthetic (b ∷ bs) (suc skip) = b ∷ bar_synthetic bs skip
bar_synthetic (b ∷ bs) zero =
    (if leb 0xac b && leb b 0xae then 0xaf else b) ∷ bar_synthetic bs (push_data b)

module _ {W : Type 0} (face : ExtVmFace W) where
  -- `copyCode(33)` and the loop; the loop runs over the bytes before the extension.
  unfoldable pub optimize : Run W (Unit {0})
  unfolding scan_jump_dests bar_synthetic
  optimize = modify λ s.
      let source = face.code s.ext in
      record s {
        code = bar_synthetic source 0 ++ replicate 33 0;
        jump_dests = scan_jump_dests source 0 0;
      }
