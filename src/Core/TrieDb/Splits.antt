-- ===== src/Core/TrieDb/Splits.antt =====
-- Lists of nibbles that are split where a node of the trie (libdevcore/TrieDB.h) splits its key, and the items of a
-- node with one replaced.
use x_chain.Prelude.{
  ℕ, zero, suc, ◌≤◌, ◌<◌, ◌≡◌, refl, ap, ◌∙◌, true, false, ◌&&◌, List, [], ◌∷◌, arith, ◌==◌,
  if◌then◌else◌, Bool-cases, inl, inr, length, drop, take,
}
use x_chain.Core.Maps.{same}
use x_chain.Core.TrieCommon.Compare.{common, begins, common-begins}
use x_chain.Core.Rlp.{Rlp, Items, nil, cons, text, item, set_item, count, repeated}

pub same-take :
    (n : ℕ) (q l : List ℕ)
    → n ≤ length l
    → same q l ≡ (begins q (take n l) && same (drop n q) (drop n l))
unfolding same
same-take zero q l h = refl
same-take (suc n) q [] h = absurd (omega (arith, h))
same-take (suc n) [] (x ∷ l) h = refl
same-take (suc n) (y ∷ q) (x ∷ l) h = let rest = same-take n q l (omega (arith, h)) in ground arith

pub begins-take :
    (n : ℕ) (q l : List ℕ)
    → n ≤ length l
    → begins q l ≡ (begins q (take n l) && begins (drop n q) (drop n l))
begins-take zero q l h = refl
begins-take (suc n) q [] h = absurd (omega (arith, h))
begins-take (suc n) [] (x ∷ l) h = refl
begins-take (suc n) (y ∷ q) (x ∷ l) h =
    let rest = begins-take n q l (omega (arith, h)) in ground arith

drop_nil : (n : ℕ) → drop {A = ℕ} n [] ≡ []
drop_nil zero = refl
drop_nil (suc n) = refl

pub drop-drop :
    (n : ℕ) (q l : List ℕ) → n ≤ length l → drop (length (drop n l)) (drop n q) ≡ drop (length l) q
drop-drop zero q l h = refl
drop-drop (suc n) q [] h = absurd (omega (arith, h))
drop-drop (suc n) [] (x ∷ l) h = drop_nil (length (drop n l))
drop-drop (suc n) (y ∷ q) (x ∷ l) h = drop-drop n q l (omega (arith, h))

-- Of two words that begin with the same one, the rests decide.
pub same-begins :
    (l q k : List ℕ)
    → begins k l ≡ true
    → same q k ≡ (begins q l && same (drop (length l) q) (drop (length l) k))
unfolding same
same-begins [] q k h = refl
same-begins (x ∷ l) q [] h = cc
same-begins (x ∷ l) [] (y ∷ k) h = refl
same-begins (x ∷ l) (z ∷ q) (y ∷ k) h = let rest = same-begins l q k in ground arith

pub common-le : (k l : List ℕ) → common k l ≤ length l
common-le [] l = omega arith
common-le (a ∷ k) [] = omega arith
common-le (a ∷ k) (b ∷ l) = let rest = common-le k l in ground arith

pub begins-common : (k l : List ℕ) → begins k (take (common k l) l) ≡ true
begins-common [] l = refl
begins-common (a ∷ k) [] = refl
begins-common (a ∷ k) (b ∷ l) = elim (Bool-cases (a == b)) [
  | inl h ↦ rw h (rw h (begins-common k l))
  | inr h ↦ rw h refl
]

pub common-lt : (k l : List ℕ) → begins k l ≡ false → common k l < length l
common-lt k l h = let e = common-begins k l in let le = common-le k l in ground arith

pub length-take : (n : ℕ) (l : List ℕ) → n ≤ length l → length (take n l) ≡ n
length-take zero l h = refl
length-take (suc n) [] h = absurd (omega (arith, h))
length-take (suc n) (x ∷ l) h = ap suc (length-take n l (omega (arith, h)))

pub item-set_item :
    (l : Items) (i : ℕ) (x : Rlp) (j : ℕ)
    → i < count l
    → item (set_item l i x) j ≡ (if j == i then x else item l j)
unfolding item set_item count
item-set_item nil i x j h = absurd (omega (arith, h))
item-set_item (cons r l) zero x zero h = refl
item-set_item (cons r l) zero x (suc j) h = ground arith
item-set_item (cons r l) (suc i) x zero h = ground arith
item-set_item (cons r l) (suc i) x (suc j) h =
    item-set_item l i x j (omega (arith, h)) ∙ ground arith

pub count-set_item : (l : Items) (i : ℕ) (x : Rlp) → count (set_item l i x) ≡ count l
unfolding set_item count
count-set_item nil i x = refl
count-set_item (cons r l) zero x = refl
count-set_item (cons r l) (suc i) x = ap suc (count-set_item l i x)

pub item-repeated : (n i : ℕ) → i < n → item (repeated n) i ≡ text []
unfolding item repeated
item-repeated zero i h = absurd (omega (arith, h))
item-repeated (suc n) zero h = refl
item-repeated (suc n) (suc i) h = item-repeated n i (omega (arith, h))
