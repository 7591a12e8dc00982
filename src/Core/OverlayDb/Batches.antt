-- ===== src/Core/OverlayDb/Batches.antt =====
-- The batch that `commit` of libdevcore/OverlayDB.cpp writes, key by key.
use x_chain.Prelude.{
  suc, ◌≡◌, refl, ap, ◌∙◌, ◌≢◌, inl, inr, true, false, Option, none, some, [], ◌∷◌, ◌++◌, arith,
  if◌then◌else◌, Bool-cases, length, length-append,
}
use x_chain.Core.Maps.{Bytes, Map, find, same, same→eq, Distinct}
use x_chain.Core.MemoryDb.{Node, Auxiliary, referenced}
use x_chain.Core.OverlayDb.{Batch, Disk, aux_key, batch_main, batch_aux}

-- A batch puts its values in order.
abbrev pub applied : (Bytes → Bytes) → Batch → Bytes → Bytes
applied g [] k = g k
applied g ((k', v) ∷ b) k = applied (λ q. if same q k' then v else g q) b k

-- What the documentation of LevelDB says of a write: all of the batch is applied, or nothing is.
pub record IsAtomic (D : Type 0) (disk : Disk D) : Type 0 where
  pub success :
      (d : D) (b : Batch) (k : Bytes)
      → (disk.write d b).0 ≡ true
      → disk.get (disk.write d b).1 k ≡ applied (disk.get d) b k
  pub failure :
      (d : D) (b : Batch) (k : Bytes)
      → (disk.write d b).0 ≡ false
      → disk.get (disk.write d b).1 k ≡ disk.get d k

-- The keys of nodes are 32 bytes long, those of auxiliary entries on disk 33.
abbrev pub HasHashes {ℓ} : {V : Type ℓ} → Map V → Type 0
HasHashes [] = Unit
HasHashes (e ∷ m) = (length e.0 ≡ 32) × HasHashes m

abbrev pub value_or : Bytes → Option Bytes → Bytes
value_or d none = d
value_or d (some v) = v

-- What a commit writes of a node, and of an auxiliary entry.
abbrev pub written : Option Node → Option Bytes
written none = none
written (some n) = if referenced n then some n.value else none

abbrev pub written_aux : Option Auxiliary → Option Bytes
written_aux none = none
written_aux (some a) = if a.live then some a.value else none

pub applied-append :
    (g : Bytes → Bytes) (a b : Batch) (k : Bytes) → applied g (a ++ b) k ≡ applied (applied g a) b k
applied-append g [] b k = refl
applied-append g (e ∷ a) b k = applied-append (λ q. if same q e.0 then e.1 else g q) a b k

pub applied_ext :
    (g g' : Bytes → Bytes) (b : Batch) (k : Bytes)
    → ((q : Bytes) → g q ≡ g' q)
    → applied g b k ≡ applied g' b k
applied_ext g g' [] k h = h k
applied_ext g g' (e ∷ b) k h =
    applied_ext (λ q. if same q e.0 then e.1 else g q) (λ q. if same q e.0 then e.1 else g' q) b k
      (λ q. rw (h q) refl)

pub applied-batch_main :
    (g : Bytes → Bytes) (m : Map Node) (k : Bytes)
    → Distinct m
    → applied g (batch_main m) k ≡ value_or (g k) (written (find k m))
unfolding batch_main find
applied-batch_main g [] k d = refl
applied-batch_main g (e ∷ m) k d = elim (Bool-cases (referenced e.1)) [
  | inl p ↦
      let rest = applied-batch_main (λ q. if same q e.0 then e.1.value else g q) m k d.1 in
      ground (arith, same→eq k e.0, d.0)
  | inr p ↦ let rest = applied-batch_main g m k d.1 in ground (arith, same→eq k e.0, d.0)
]

same-length : (a b : Bytes) → length a ≢ length b → same a b ≡ false
same-length a b h = elim (Bool-cases (same a b)) [
  | inl e ↦ absurd (h (ap length (same→eq a b e)))
  | inr e ↦ e
]

same-aux_key : (a b : Bytes) → same (aux_key a) (aux_key b) ≡ same a b
unfolding same
same-aux_key [] [] = refl
same-aux_key [] (b ∷ []) = ground arith
same-aux_key [] (b ∷ c ∷ y) = ground arith
same-aux_key (a ∷ []) [] = ground arith
same-aux_key (a ∷ c ∷ x) [] = ground arith
same-aux_key (a ∷ x) (b ∷ y) = rw (same-aux_key x y) refl

pub applied-batch_aux :
    (g : Bytes → Bytes) (m : Map Auxiliary) (h : Bytes)
    → Distinct m
    → applied g (batch_aux m) (aux_key h) ≡ value_or (g (aux_key h)) (written_aux (find h m))
unfolding batch_aux find
applied-batch_aux g [] h d = refl
applied-batch_aux g (e ∷ m) h d = elim (Bool-cases e.1.live) [
  | inl p ↦
      let rest = applied-batch_aux (λ q. if same q (aux_key e.0) then e.1.value else g q) m h d.1 in
      let key = same-aux_key h e.0 in ground (arith, same→eq h e.0, d.0)
  | inr p ↦ let rest = applied-batch_aux g m h d.1 in ground (arith, same→eq h e.0, d.0)
]

pub length-aux_key : (h : Bytes) → length (aux_key h) ≡ suc (length h)
length-aux_key h = length-append h (255 ∷ []) ∙ omega arith

-- A node's key is not touched by the auxiliary entries,
pub applied-batch_aux_node :
    (g : Bytes → Bytes) (m : Map Auxiliary) (k : Bytes)
    → length k ≡ 32
    → HasHashes m
    → applied g (batch_aux m) k ≡ g k
unfolding batch_aux
applied-batch_aux_node g [] k l h = refl
applied-batch_aux_node g (e ∷ m) k l h = elim (Bool-cases e.1.live) [
  | inl p ↦
      let rest =
        applied-batch_aux_node (λ q. if same q (aux_key e.0) then e.1.value else g q) m k l h.1 in
      let other = same-length k (aux_key e.0) (omega (arith, length-aux_key e.0, l, h.0)) in
      ground arith
  | inr p ↦ rw p (applied-batch_aux_node g m k l h.1)
]

-- and an auxiliary entry's key is no node's.
pub find-HasHashes : (m : Map Node) (k : Bytes) → length k ≢ 32 → HasHashes m → find k m ≡ none
unfolding find
find-HasHashes [] k l h = refl
find-HasHashes (e ∷ m) k l h =
    rw (same-length k e.0 (λ p. l (p ∙ h.0)), find-HasHashes m k l h.1) refl
