-- ===== src/Chain/BlockQueue/Sizes.antt =====
-- The sum of sizes in SizedBlockQueue of libethereum/BlockQueue.h.
use x_chain.Prelude.{
  ℕ, zero, suc, ◌+◌, ◌-◌, ◌%◌, ◌≤◌, ◌<◌, ◌≡◌, refl, sym, ap, ◌∙◌, inl, inr, Option, none, some,
  List, [], ◌∷◌, ◌++◌, arith, leb, ◌==◌, Bool-cases, length, take, drop,
}
use Prim.{tt}
use x_chain.Chain.BlockQueue.{
  clear, dequeue, Entry, SizedBlockQueue, block_size, word64, sub64, enqueue, subtract_sizes,
  dequeue_multiple, swap_first, replaced, replace,
}

abbrev pub total : List Entry → ℕ
total [] = 0
total (t ∷ l) = block_size t + total l

-- The size of the queue is the sum of the sizes of its entries, cut to 64 bits.
abbrev pub IsCounted : SizedBlockQueue → Type 0
IsCounted q = q.size ≡ total q.queue % word64

total-append : (k l : List Entry) → total (k ++ l) ≡ total k + total l
total-append [] l = omega arith
total-append (t ∷ k) l = omega (arith, total-append k l)

enqueue-IsCounted : (t : Entry) (q : SizedBlockQueue) → IsCounted q → IsCounted (enqueue t q)
unfolding enqueue
enqueue-IsCounted t q c = omega (arith, c, total-append q.queue (t ∷ []))

subtract_sizes_lem :
    (l : List Entry) (s rest : ℕ)
    → s ≡ (total l + rest) % word64
    → subtract_sizes l s ≡ rest % word64
unfolding subtract_sizes
subtract_sizes_lem [] s rest e = e ∙ omega arith
subtract_sizes_lem (t ∷ l) s rest e =
    subtract_sizes_lem l (sub64 s (block_size t)) rest (omega (arith, e))

total-take-drop : (n : ℕ) (l : List Entry) → total (take n l) + total (drop n l) ≡ total l
total-take-drop zero l = omega arith
total-take-drop (suc n) [] = refl
total-take-drop (suc n) (t ∷ l) = omega (arith, total-take-drop n l)

length-drop : (n : ℕ) (l : List Entry) → length (drop n l) ≡ length l - n
length-drop zero l = omega arith
length-drop (suc n) [] = omega arith
length-drop (suc n) (t ∷ l) = omega (arith, length-drop n l)

append-take-drop : (n : ℕ) (l : List Entry) → take n l ++ drop n l ≡ l
append-take-drop zero l = refl
append-take-drop (suc n) [] = refl
append-take-drop (suc n) (t ∷ l) = ap (◌∷◌ t) (append-take-drop n l)

-- What taking `n` entries gives.
abbrev pub Taken : ℕ → SizedBlockQueue → Option (List Entry × SizedBlockQueue) → Type 0
Taken n q none = length q.queue < n
Taken n q (some r) =
    (n ≤ length q.queue) × (r.0 ≡ take n q.queue) × (r.0 ++ r.1.queue ≡ q.queue) × IsCounted r.1

dequeue_multiple-Taken :
    (n : ℕ) (q : SizedBlockQueue) → IsCounted q → Taken n q (dequeue_multiple n q)
unfolding dequeue_multiple
dequeue_multiple-Taken n q c = elim (Bool-cases (leb n (length q.queue))) [
  | inl e ↦ rw e (
    (let fits : n ≤ length q.queue = ground arith in fits),
    refl,
    append-take-drop n q.queue,
    subtract_sizes_lem (take n q.queue) q.size (total (drop n q.queue))
        (c ∙ ap (λ x. x % word64) (sym (total-take-drop n q.queue))),
  )
  | inr e ↦ rw e (ground arith)
]

abbrev Swapped : Entry → List Entry → Option (Entry × List Entry) → Type 0
Swapped new l none = Unit
Swapped new l (some r) = total r.1 + block_size r.0 ≡ total l + block_size new

swap_first-Swapped :
    (hash : ℕ) (new : Entry) (l : List Entry) → Swapped new l (swap_first hash new l)
unfolding swap_first
swap_first-Swapped hash new [] = tt
swap_first-Swapped hash new (t ∷ l) = elim (Bool-cases (t.uncles == hash)) [
  | inl e ↦ rw e (omega arith)
  | inr e ↦ rw e (later t (swap_first hash new l) (swap_first-Swapped hash new l))
]
  where
    later :
        (t : Entry) (o : Option (Entry × List Entry))
        → Swapped new l o
        → Swapped new (t ∷ l) (elim o [ none ↦ none | some r ↦ some (r.0, t ∷ r.1) ])
    later t none h = tt
    later t (some r) h = omega (arith, h)

replaced-IsCounted :
    (q : SizedBlockQueue) (new : Entry) (o : Option (Entry × List Entry))
    → IsCounted q
    → Swapped new q.queue o
    → IsCounted (replaced q new o).1
unfolding replaced
replaced-IsCounted q new none c h = c
replaced-IsCounted q new (some r) c h = omega (arith, c, h)

replace-IsCounted :
    (hash : ℕ) (new : Entry) (q : SizedBlockQueue) → IsCounted q → IsCounted (replace hash new q).1
unfolding replace
replace-IsCounted hash new q c =
    replaced-IsCounted q new (swap_first hash new q.queue) c (swap_first-Swapped hash new q.queue)

-- What taking the first entry gives.
abbrev pub First : SizedBlockQueue → Option (Entry × SizedBlockQueue) → Type 0
First q none = q.queue ≡ []
First q (some r) = (q.queue ≡ r.0 ∷ r.1.queue) × IsCounted r.1

dequeue-First :
    (l : List Entry) (size : ℕ)
    → size ≡ total l % word64
    → First (record { queue = l; size = size }) (dequeue (record { queue = l; size = size }))
unfolding dequeue
dequeue-First [] size c = refl
dequeue-First (t ∷ l) size c = (refl, omega (arith, c))

-- Where the size of a queue is the sum of the sizes of its entries, cut to 64 bits, it is so after an enqueue, a
-- replace, a clear, a dequeue and a dequeueMultiple. A dequeue fails exactly on an empty queue, and otherwise gives
-- the first entry and leaves the others. Taking `n` entries fails exactly when there are fewer, and otherwise gives the
-- first `n` in order and leaves the others.
pub sizes_lem :
    (q : SizedBlockQueue) (t : Entry) (hash n : ℕ)
    → IsCounted q
    → IsCounted (enqueue t q)
      × IsCounted (replace hash t q).1
      × IsCounted (clear q)
      × First q (dequeue q)
      × Taken n q (dequeue_multiple n q)
unfolding clear
sizes_lem q t hash n c = (
  enqueue-IsCounted t q c,
  replace-IsCounted hash t q c,
  refl,
  dequeue-First q.queue q.size c,
  dequeue_multiple-Taken n q c,
)
