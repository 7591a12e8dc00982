-- ===== src/Chain/BlockQueue.antt =====
-- libethereum/BlockQueue.h: SizedBlockQueue and SizedBlockMap, containers of blocks that keep the sum of their sizes.
-- A size_t has 64 bits. `none` is what the source leaves undefined: taking more than there is. What an entry holds
-- after it was moved from is the parameter `moved`; the standard library leaves the bytes of a moved vector empty.
use x_chain.Prelude.{
  ℕ, zero, suc, ◌+◌, ◌-◌, ◌*◌, ◌/◌, ◌%◌, ◌^◌, ◌≤◌, ◌<◌, min, max, bit_and, bit_or, bit_xor, ◌≡◌,
  refl, sym, ap, ◌∙◌, subst, ◌≢◌, ◌↔◌, ◌⊎◌, inl, inr, Bool, true, false, not, ◌&&◌, ◌||◌, Option,
  none, some, List, [], ◌∷◌, ◌++◌, map, arith, ltb, leb, ◌==◌, if◌then◌else◌, ltb→lt, lt→ltb,
  leb→le, ==_iff, Bool-cases, Option-cases, length, get_elem?, get_or, set, take, drop, replicate,
  length-append, length-set, length-replicate, All,
}
pub mod Sizes
pub mod Remove
mod Tests

abbrev pub Bytes : Type 0
Bytes = List ℕ

abbrev pub word64 : ℕ
word64 = 2 ^ 64

abbrev pub sub64 : ℕ → ℕ → ℕ
sub64 a b = (a + word64 - b % word64) % word64

-- `uncles` is the hash that the queue looks entries up by.
pub record Entry : Type 0 where
  pub uncles : ℕ
  pub block_data : Bytes

pub record SizedBlockQueue : Type 0 where
  pub queue : List Entry
  pub size : ℕ

abbrev pub block_size : Entry → ℕ
block_size t = length t.block_data

unfoldable pub clear : SizedBlockQueue → SizedBlockQueue
clear q = record { queue = []; size = 0 }

unfoldable pub enqueue : Entry → SizedBlockQueue → SizedBlockQueue
enqueue t q = record { queue = q.queue ++ (t ∷ []); size = (q.size + block_size t) % word64 }

unfoldable pub dequeue : SizedBlockQueue → Option (Entry × SizedBlockQueue)
dequeue q = elim q.queue [
  | [] ↦ none
  | t ∷ l ↦ some (t, record { queue = l; size = sub64 q.size (block_size t) })
]

-- The loop of `removeRange` over the entries that it returns.
unfoldable pub subtract_sizes : List Entry → ℕ → ℕ
subtract_sizes [] s = s
subtract_sizes (t ∷ l) s = subtract_sizes l (sub64 s (block_size t))

unfoldable pub dequeue_multiple : ℕ → SizedBlockQueue → Option (List Entry × SizedBlockQueue)
dequeue_multiple n q =
    if leb n (length q.queue)
    then some (
      take n q.queue,
      record { queue = drop n q.queue; size = subtract_sizes (take n q.queue) q.size },
    )
    else none

unfoldable pub keep : (Entry → Bool) → List Entry → List Entry
keep pred [] = []
keep pred (t ∷ l) = let rest = keep pred l in if pred t then rest else t ∷ rest

-- What `std::remove_if` leaves in the places of the entries, before any is overwritten.
unfoldable pub left_behind : (Entry → Entry) → (Entry → Bool) → List Entry → List Entry
left_behind moved pred [] = []
left_behind moved pred (t ∷ l) = (if pred t then t else moved t) ∷ left_behind moved pred l

unfoldable pub remove_if :
    (Entry → Entry) → (Entry → Bool) → SizedBlockQueue → List Entry × SizedBlockQueue
remove_if moved pred q =
    let kept = keep pred q.queue in
    let tail = drop (length kept) (left_behind moved pred q.queue) in
    (tail, record { queue = kept; size = subtract_sizes tail q.size })

unfoldable pub remove : (Entry → Entry) → ℕ → SizedBlockQueue → Bool × SizedBlockQueue
remove moved hash q =
    let (removed, q') = remove_if moved (λ t. t.uncles == hash) q in (not (length removed == 0), q')

-- The queue with the first entry of a hash replaced, and that entry.
unfoldable pub swap_first : ℕ → Entry → List Entry → Option (Entry × List Entry)
swap_first hash new [] = none
swap_first hash new (t ∷ l) =
    if t.uncles == hash
    then some (t, new ∷ l)
    else elim (swap_first hash new l) [ none ↦ none | some r ↦ some (r.0, t ∷ r.1) ]

unfoldable pub replaced :
    SizedBlockQueue → Entry → Option (Entry × List Entry) → Bool × SizedBlockQueue
replaced q new none = (false, q)
replaced q new (some r) =
    (true, record { queue = r.1; size = (sub64 q.size (block_size r.0) + block_size new) % word64 })

unfoldable pub replace : ℕ → Entry → SizedBlockQueue → Bool × SizedBlockQueue
replace hash new q = replaced q new (swap_first hash new q.queue)

-- SizedBlockMap, in order of its keys, with the hash and the bytes of each block.
pub record SizedBlockMap : Type 0 where
  pub blocks : List (ℕ × Entry)
  pub size : ℕ

unfoldable pub insert_block : ℕ → Entry → List (ℕ × Entry) → List (ℕ × Entry)
insert_block key t [] = (key, t) ∷ []
insert_block key t (b ∷ m) =
    let rest = insert_block key t m in if ltb key b.0 then (key, t) ∷ b ∷ m else b ∷ rest

-- The bytes are moved into the map before their size is read.
unfoldable pub insert : (Entry → Entry) → ℕ → Entry → SizedBlockMap → SizedBlockMap
insert moved key t m = record {
  blocks = insert_block key t m.blocks;
  size = (m.size + block_size (moved t)) % word64;
}

-- The sum that `removeRange` of the map takes off, 64 bits wide too.
unfoldable pub removed_size : List (ℕ × Entry) → ℕ
removed_size [] = 0
removed_size (b ∷ m) = (block_size b.1 + removed_size m) % word64

-- The blocks whose keys pass a test, or fail it: in the source a range of the map, whose keys are in order.
unfoldable pub with_keys : (ℕ → Bool) → List (ℕ × Entry) → List (ℕ × Entry)
with_keys test [] = []
with_keys test (b ∷ m) = let rest = with_keys test m in if test b.0 then b ∷ rest else rest

unfoldable pub remove_range : (ℕ → Bool) → SizedBlockMap → List (ℕ × Entry) × SizedBlockMap
remove_range test m =
    let removed = with_keys test m.blocks in
    (
      removed,
      record {
        blocks = with_keys (λ k. not (test k)) m.blocks;
        size = sub64 m.size (removed_size removed);
      },
    )

unfoldable pub remove_by_key_equal : ℕ → SizedBlockMap → List (ℕ × Entry) × SizedBlockMap
remove_by_key_equal key m = remove_range (λ k. k == key) m

unfoldable pub remove_by_key_not_greater : ℕ → SizedBlockMap → List (ℕ × Entry) × SizedBlockMap
remove_by_key_not_greater key m = remove_range (λ k. leb k key) m
