-- ===== src/Chain/BlockQueue/Remove.antt =====
-- `remove` of SizedBlockQueue in libethereum/BlockQueue.h.
use x_chain.Prelude.{
  ℕ, zero, suc, ◌-◌, ◌≤◌, ◌≡◌, refl, ap, ◌≢◌, Bool, false, not, ◌||◌, List, [], ◌∷◌, arith, ◌==◌,
  length, drop,
}
use x_chain.Chain.BlockQueue.{Entry, SizedBlockQueue, keep, left_behind, remove_if, remove}

-- Whether an entry has the hash.
abbrev pub has : ℕ → List Entry → Bool
has hash [] = false
has hash (t ∷ l) = (t.uncles == hash) || has hash l

has_kept : (hash : ℕ) (l : List Entry) → has hash (keep (λ t. t.uncles == hash) l) ≡ false
unfolding keep
has_kept hash [] = refl
has_kept hash (t ∷ l) = let rest = has_kept hash l in ground arith

has_other :
    (hash other : ℕ) (l : List Entry)
    → other ≢ hash
    → has other (keep (λ t. t.uncles == hash) l) ≡ has other l
unfolding keep
has_other hash other [] ne = refl
has_other hash other (t ∷ l) ne = let rest = has_other hash other l ne in ground arith

length-keep-le : (pred : Entry → Bool) (l : List Entry) → length (keep pred l) ≤ length l
unfolding keep
length-keep-le pred [] = omega arith
length-keep-le pred (t ∷ l) = let rest = length-keep-le pred l in ground arith

length-keep :
    (hash : ℕ) (l : List Entry)
    → (length l - length (keep (λ t. t.uncles == hash) l) == 0) ≡ not (has hash l)
unfolding keep
length-keep hash [] = refl
length-keep hash (t ∷ l) =
    let rest = length-keep hash l in
    let shorter = length-keep-le (λ t. t.uncles == hash) l in ground arith

length-left_behind :
    (moved : Entry → Entry) (pred : Entry → Bool) (l : List Entry)
    → length (left_behind moved pred l) ≡ length l
unfolding left_behind
length-left_behind moved pred [] = refl
length-left_behind moved pred (t ∷ l) = ap suc (length-left_behind moved pred l)

length-drop : (n : ℕ) (l : List Entry) → length (drop n l) ≡ length l - n
length-drop zero l = omega arith
length-drop (suc n) [] = omega arith
length-drop (suc n) (t ∷ l) = omega (arith, length-drop n l)

-- Whatever a moved entry holds, `remove` reports whether the queue has an entry with the hash, leaves none with
-- it, and leaves each other hash as it was.
pub remove_lem :
    (moved : Entry → Entry) (hash other : ℕ) (q : SizedBlockQueue)
    → other ≢ hash
    → ((remove moved hash q).0 ≡ has hash q.queue)
      × (has hash (remove moved hash q).1.queue ≡ false)
      × (has other (remove moved hash q).1.queue ≡ has other q.queue)
unfolding remove remove_if
remove_lem moved hash other q ne =
    let kept = keep (λ t. t.uncles == hash) q.queue in
    (
      rw
          (
            length-drop (length kept) (left_behind moved (λ t. t.uncles == hash) q.queue),
            length-left_behind moved (λ t. t.uncles == hash) q.queue,
            length-keep hash q.queue,
          )
          (ground arith),
      has_kept hash q.queue,
      has_other hash other q.queue ne,
    )
