-- ===== src/Chain/BlockQueue/Tests.antt =====
-- The containers of libethereum/BlockQueue.h at concrete inputs.
use x_chain.Prelude.{ℕ, ◌-◌, ◌^◌, ◌≡◌, refl, ◌≢◌, true, false, [], ◌∷◌, arith, replicate}
use x_chain.Chain.BlockQueue.{
  Entry, SizedBlockQueue, clear, dequeue, dequeue_multiple, enqueue, insert, insert_block, keep,
  left_behind, remove, remove_by_key_equal, remove_if, remove_range, removed_size, replace,
  subtract_sizes, with_keys,
}
use x_chain.Chain.BlockQueue.Sizes.{IsCounted, First, Taken, sizes_lem}
use x_chain.Chain.BlockQueue.Remove.{has, remove_lem}

abbrev block_of : ℕ → ℕ → Entry
block_of hash n = record { uncles = hash; block_data = replicate n 0 }

abbrev two_blocks : SizedBlockQueue
two_blocks = record { queue = block_of 7 3 ∷ block_of 8 5 ∷ []; size = 8 }

-- What a moved entry holds with the usual standard library.
abbrev emptied : Entry → Entry
emptied t = record t { block_data = [] }

-- After the first of two blocks is removed, the size still counts it and the queue has five bytes.
removed_but_counted :
    remove emptied 7 two_blocks ≡ (true, record { queue = block_of 8 5 ∷ []; size = 8 })
unfolding remove remove_if keep subtract_sizes left_behind
removed_but_counted = refl

-- A block of three bytes that is put into a map adds nothing to its size, so removing it goes below zero.
inserted_uncounted :
    insert emptied 1 (block_of 7 3) (record { blocks = []; size = 0 })
    ≡ record { blocks = (1, block_of 7 3) ∷ []; size = 0 }
unfolding insert insert_block
inserted_uncounted = refl

below_zero :
    (remove_by_key_equal 1
      (insert emptied 1 (block_of 7 3) (record { blocks = []; size = 0 }))).1.size
    ≡ 2 ^ 64 - 3
unfolding remove_by_key_equal remove_range insert removed_size with_keys insert_block
below_zero = refl

sizes_lem_example :
    IsCounted (enqueue (block_of 9 2) two_blocks)
    × IsCounted (replace 8 (block_of 9 2) two_blocks).1
    × IsCounted (clear two_blocks)
    × First two_blocks (dequeue two_blocks)
    × Taken 1 two_blocks (dequeue_multiple 1 two_blocks)
sizes_lem_example = sizes_lem two_blocks (block_of 9 2) 8 1 refl

eight_is_not_seven : ◌≢◌ {A = ℕ} 8 7
eight_is_not_seven = λ e. omega (arith, e)

remove_lem_example :
    ((remove emptied 7 two_blocks).0 ≡ true)
    × (has 7 (remove emptied 7 two_blocks).1.queue ≡ false)
    × (has 8 (remove emptied 7 two_blocks).1.queue ≡ has 8 two_blocks.queue)
remove_lem_example = remove_lem emptied 7 8 two_blocks eight_is_not_seven
