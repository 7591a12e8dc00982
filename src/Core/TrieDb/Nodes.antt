-- ===== src/Core/TrieDb/Nodes.antt =====
-- The nodes that libdevcore/TrieDB.h makes, and the tables that they stand for.
use x_chain.Prelude.{
  ℕ, ◌≤◌, ◌<◌, ◌≡◌, refl, sym, ap, ◌∙◌, true, false, List, [], ◌∷◌, arith, ◌==◌, if◌then◌else◌,
  Bool-cases, inl, inr, length, drop, take,
}
use x_chain.Core.Maps.{same}
use x_chain.Core.TrieCommon.Decode.{encoded}
use x_chain.Core.TrieCommon.Compare.{begins}
use x_chain.Core.Rlp.{
  Bytes, Rlp, Items, Coding, text, items, two, view, is_list, is_empty, payload, item, set_item,
  count, repeated,
}
use x_chain.Core.Database.{Database, IsLasting}
use x_chain.Core.TrieDb.{blank}
use x_chain.Core.TrieDb.Keys.{IsKey, drop-IsKey, length-drop}
use x_chain.Core.TrieDb.Splits.{
  same-take, begins-take, drop-drop, same-begins, length-take, item-set_item, count-set_item,
  item-repeated,
}
use x_chain.Core.TrieDb.Holds.{
  Table, Linked, Holds, blank_node, leaf_node, extension_node, branch_node,
}

-- A table with the value of one key replaced.
abbrev pub put_at : List ℕ → Bytes → Table → Table
put_at k v f q = if same q k then v else f q

-- The table of a node is that of its lower part below the upper part of its key.
pub leaf_cut :
    (n : ℕ) (l : List ℕ) (v : Bytes) (f : Table)
    → n ≤ length l
    → ((q : List ℕ) → f q ≡ (if same q l then v else []))
    → (q : List ℕ)
    → f q ≡ (
        if begins q (take n l)
        then if same (drop (length (take n l)) q) (drop n l) then v else []
        else [])
leaf_cut n l v f le h q = rw (length-take n l le, h q, same-take n q l le) (ground arith)

pub extension_cut :
    (n : ℕ) (l : List ℕ) (f g : Table)
    → n ≤ length l
    → ((q : List ℕ) → f q ≡ (if begins q l then g (drop (length l) q) else []))
    → (q : List ℕ)
    → f q ≡ (
        if begins q (take n l)
        then if begins (drop (length (take n l)) q) (drop n l)
          then g (drop (length (drop n l)) (drop (length (take n l)) q))
          else []
        else [])
extension_cut n l f g le h q =
    rw (length-take n l le, h q, begins-take n q l le, drop-drop n q l le) (ground arith)

count-blank : count blank ≡ 17
unfolding count repeated
count-blank = refl

pub count-single : (i : ℕ) (c : Rlp) → count (set_item blank i c) ≡ 17
count-single i c = count-set_item blank i c ∙ count-blank

module _ (coding : Coding) (database : Database) (lasting : IsLasting database)
    (db : database.State) where
  -- A leaf with another value.
  pub leaf_put :
      (l k : List ℕ) (old v : Bytes) (f : Table)
      → IsKey l
      → k ≡ l
      → ((q : List ℕ) → f q ≡ (if same q l then old else []))
      → Holds coding database lasting db (two (text (encoded l true)) (text v)) (put_at k v f)
  leaf_put l k old v f ok e h = leaf_node l v refl ok (λ q. rw (e, h q) (ground arith))

  -- A new leaf where there was nothing.
  pub leaf_new :
      (k : List ℕ) (v : Bytes) (f : Table)
      → IsKey k
      → ((q : List ℕ) → f q ≡ [])
      → Holds coding database lasting db (two (text (encoded k true)) (text v)) (put_at k v f)
  leaf_new k v f ok h = leaf_node k v refl ok (λ q. rw (h q) refl)

  -- The child of an extension with the rest of the key put into it.
  pub extension_put :
      (l k : List ℕ) (v : Bytes) (x child : Rlp) (f g : Table)
      → IsKey l
      → 0 < length l
      → begins k l ≡ true
      → Linked coding database lasting db x child
      → is_list child ≡ true
      → Holds coding database lasting db child (put_at (drop (length l) k) v g)
      → ((q : List ℕ) → f q ≡ (if begins q l then g (drop (length l) q) else []))
      → Holds coding database lasting db (two (text (encoded l false)) x) (put_at k v f)
  extension_put l k v x child f g ok p b link list hold h =
      extension_node l x child (put_at (drop (length l) k) v g) refl ok p link list hold
        (λ q. rw (h q, same-begins l q k b) (ground arith))

  -- An extension over the lower part of its key.
  pub extension_bottom :
      (n : ℕ) (l : List ℕ) (c child : Rlp) (g : Table)
      → IsKey l
      → n < length l
      → Linked coding database lasting db c child
      → is_list child ≡ true
      → Holds coding database lasting db child g
      → Holds coding database lasting db
          (two (text (encoded (drop n l) false)) c)
          (λ q. if begins q (drop n l) then g (drop (length (drop n l)) q) else [])
  extension_bottom n l c child g ok lt link list hold =
      extension_node (drop n l) c child g refl (drop-IsKey n l ok)
        (rw (length-drop n l) (omega (arith, lt))) link list hold (λ q. refl)

  module _ (ls : Items) (n : count ls ≡ 17) (child : ℕ → Rlp) (g : ℕ → Table) (f : Table)
      (links : (i : ℕ) → i < 16 → Linked coding database lasting db (item ls i) (child i))
      (holds : (i : ℕ) → i < 16 → Holds coding database lasting db (child i) (g i))
      (value : item ls 16 ≡ text (f []))
      (below : (x : ℕ) (q : List ℕ) → x < 16 → f (x ∷ q) ≡ g x q) where
    -- The value of a branch replaced.
    pub branch_value :
        (v : Bytes) (f' : Table)
        → f' [] ≡ v
        → ((x : ℕ) (q : List ℕ) → f' (x ∷ q) ≡ f (x ∷ q))
        → Holds coding database lasting db (items (set_item ls 16 (text v))) f'
    unfolding payload
    branch_value v f' e h =
        let at_place = λ (j : ℕ). item-set_item ls 16 (text v) j (rw n (omega arith)) in
        branch_node (set_item ls 16 (text v)) child g refl (count-set_item ls 16 (text v) ∙ n)
          (λ j lt.
            let apart : (j == 16) ≡ false = ground arith in rw (at_place j, apart) (links j lt))
          holds (at_place 16 ∙ ap text (sym e)) (λ x q lt. h x q ∙ below x q lt)

    -- A child of a branch replaced.
    pub branch_child :
        (i : ℕ) (x r : Rlp) (f' g' : Table)
        → i < 16
        → Linked coding database lasting db x r
        → Holds coding database lasting db r g'
        → f' [] ≡ f []
        → ((y : ℕ) (q : List ℕ) → f' (y ∷ q) ≡ (if y == i then g' q else f (y ∷ q)))
        → Holds coding database lasting db (items (set_item ls i x)) f'
    branch_child i x r f' g' p link hold e h =
        let at_place = λ (j : ℕ). item-set_item ls i x j (rw n (omega (arith, p))) in
        let apart : (16 == i) ≡ false = ground arith in
        branch_node (set_item ls i x) (λ j. if j == i then r else child j)
          (λ j. if j == i then g' else g j) refl (count-set_item ls i x ∙ n)
          (λ j lt. rw (at_place j) (elim (Bool-cases (j == i)) [
            | inl here ↦ rw here link
            | inr there ↦ rw there (links j lt)
          ]))
          (λ j lt. elim (Bool-cases (j == i)) [
            | inl here ↦ rw here hold
            | inr there ↦ rw there (holds j lt)
          ])
          (at_place 16 ∙ rw apart (value ∙ ap text (sym e)))
          (λ y q lt. h y q ∙ (elim (Bool-cases (y == i)) [
            | inl here ↦ rw here refl
            | inr there ↦ rw there (below y q lt)
          ]))

  blank_links : (i : ℕ) → i < 16 → Linked coding database lasting db (item blank i) (text [])
  unfolding is_list is_empty
  blank_links i lt = rw (item-repeated 17 i (omega (arith, lt))) (inl (refl, refl))

  blank_holds : (i : ℕ) → i < 16 → Holds coding database lasting db (text []) (λ _. [])
  unfolding view
  blank_holds i lt = blank_node refl (λ q. refl)

  blank_value : item blank 16 ≡ text []
  blank_value = item-repeated 17 16 (omega arith)

  -- A branch with one child.
  pub single :
      (i : ℕ) (c child : Rlp) (f g : Table)
      → i < 16
      → Linked coding database lasting db c child
      → Holds coding database lasting db child g
      → f [] ≡ []
      → ((x : ℕ) (q : List ℕ) → f (x ∷ q) ≡ (if x == i then g q else []))
      → Holds coding database lasting db (items (set_item blank i c)) f
  single i c child f g =
      branch_child blank count-blank (λ _. text []) (λ _ _. []) (λ _. []) blank_links blank_holds
        blank_value (λ x q lt. refl) i c child f g

  -- A branch with a value and no child.
  pub value_only :
      (v : Bytes) (f : Table)
      → f [] ≡ v
      → ((x : ℕ) (q : List ℕ) → f (x ∷ q) ≡ [])
      → Holds coding database lasting db (items (set_item blank 16 (text v))) f
  value_only v f =
      branch_value blank count-blank (λ _. text []) (λ _ _. []) (λ _. []) blank_links blank_holds
        blank_value (λ x q lt. refl) v f
