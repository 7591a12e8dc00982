-- ===== src/Core/TrieDb/Lookup.antt =====
-- `atAux` of libdevcore/TrieDB.h on an item that stands for a table.
use x_chain.Prelude.{
  ℕ, zero, suc, ◌-◌, ◌≤◌, ◌<◌, ◌≡◌, subst, inl, inr, refl, sym, ap, ◌∙◌, true, false, some, List,
  [], ◌∷◌, arith, ◌==◌, if◌then◌else◌, Bool-cases, length, drop, All,
}
use x_chain.Core.Maps.{same}
use x_chain.Core.TrieCommon.{NibbleSlice, size, mid}
use x_chain.Core.TrieCommon.Decode.{nibbles, encoded}
use x_chain.Core.TrieCommon.Compare.{begins}
use x_chain.Core.TrieCommon.Slices.{IsSlice, nibbles_from-All}
use x_chain.Core.Rlp.{
  Bytes, Rlp, Items, Coding, IsCoding, count, nil, cons, text, items, two, pair, branch, is_list,
  is_empty, is_null, is_whole, payload, item, view,
}
use x_chain.Core.Database.{Database, IsLasting}
use x_chain.Core.TrieDb.{deref, at_aux, at_view}
use x_chain.Core.TrieDb.Keys.{
  IsKey, length-nibbles, length-drop, mid-IsSlice, nibbles-mid, at_index-first, key_of-encoded,
  equals-encoded, contains-encoded, size-encoded,
}
use x_chain.Core.TrieDb.Holds.{
  Table, Linked, Holds, Holds-whole, blank_node, leaf_node, extension_node, branch_node,
  is_reference, node-Linked, hash_reference, List-cases, view-items,
}

two_filled : (a b : Rlp) → ¬ (is_empty (two a b) ≡ true)
unfolding is_empty
two_filled a b h = cc

items_filled : (l : Items) → count l ≡ 17 → ¬ (is_empty (items l) ≡ true)
unfolding is_empty count
items_filled nil n h = omega (arith, n)
items_filled (cons a l) n h = cc

reference_filled : (c : Rlp) → is_reference c ≡ true → ¬ (is_empty c ≡ true)
reference_filled c r h = ground arith

pub begins-length : (k l : List ℕ) → begins k l ≡ true → length l ≤ length k
begins-length k [] h = omega arith
begins-length [] (b ∷ l) h = cc
begins-length (a ∷ k) (b ∷ l) h = let rest = begins-length k l in ground arith

-- What is left of a key is a slice with the nibbles that are left.
pub record Rest (s : NibbleSlice) (i : ℕ) : Type 0 where
  pub slice : IsSlice (mid s i)
  pub left : nibbles (mid s i) ≡ drop i (nibbles s)
  pub count : length (nibbles (mid s i)) ≡ length (nibbles s) - i

pub mid-Rest : (s : NibbleSlice) (i : ℕ) → IsSlice s → i ≤ length (nibbles s) → Rest s i
mid-Rest s i v h = record {
  slice = mid-IsSlice s v i h;
  left = nibbles-mid s v i h;
  count = ap length (nibbles-mid s v i h) ∙ length-drop i (nibbles s);
}

module _ (coding : Coding) (database : Database) (lasting : IsLasting database)
    (ok : IsCoding coding) where
  open coding use {encode, decode, sha3}
  open database use {State, lookup, insert, kill}

  pub deref-Linked :
      (db : State) (c r : Rlp)
      → Linked coding database lasting db c r
      → is_whole r ≡ true
      → is_empty c ≡ false
      → deref coding database db c ≡ r
  unfolding deref is_list payload
  deref-Linked db c r (inl (h, e)) w filled =
      let list : is_list c ≡ true = ground arith in rw list e
  deref-Linked db c r (inr (e, h)) w filled = rw e (node-Linked coding database lasting ok db r w h)

  pub deref-list :
      (db : State) (c r : Rlp)
      → Linked coding database lasting db c r
      → is_whole r ≡ true
      → is_list r ≡ true
      → deref coding database db c ≡ r
  unfolding deref is_list payload
  deref-list db c r (inl (h, e)) w list = rw (ap is_list e ∙ list) e
  deref-list db c r (inr (e, h)) w list = rw e (node-Linked coding database lasting ok db r w h)

  -- An empty item stands for no values, and is not the hash of another.
  empty_Holds :
      (db : State) (r : Rlp) (f : Table)
      → Holds coding database lasting db r f
      → is_empty r ≡ true
      → (q : List ℕ) → f q ≡ []
  empty_Holds db r f (blank_node e h) empty q = h q
  empty_Holds db r f (leaf_node l v e k h) empty q =
      absurd (two_filled _ _ (ap is_empty (sym e) ∙ empty))
  empty_Holds db r f (extension_node l c child g e k p link list hold h) empty q =
      absurd (two_filled _ _ (ap is_empty (sym e) ∙ empty))
  empty_Holds db r f (branch_node ls child g e n link hold v h) empty q =
      absurd (items_filled ls n (ap is_empty (sym e) ∙ empty))

  pub empty_Linked :
      (db : State) (c r : Rlp) → Linked coding database lasting db c r → is_empty c ≡ true → c ≡ r
  empty_Linked db c r (inl (h, e)) empty = e
  empty_Linked db c r (inr (e, h)) empty =
      let hash = hash_reference coding database lasting ok r in
      absurd (reference_filled c (ap is_reference e ∙ hash) empty)

  module _ (n : ℕ) (db : State)
      (next : (r : Rlp) (s : NibbleSlice) (f : Table)
        → length (nibbles s) < n
        → IsSlice s
        → Holds coding database lasting db r f
        → at_aux coding database n db r s ≡ some (f (nibbles s)))
      (s : NibbleSlice) (v : IsSlice s) (room : length (nibbles s) < suc n) where
    at_leaf :
        (l : List ℕ) (value : Bytes)
        → IsKey l
        → at_view coding database
            (at_aux coding database n db)
            db
            (pair (text (encoded l true)) (text value))
            s
          ≡ some (if same (nibbles s) l then value else [])
    unfolding at_view payload
    at_leaf l value k =
        rw ((key_of-encoded l true k).1, equals-encoded s l true k v, contains-encoded s l true k v)
          (ground arith)

    at_extension :
        (l : List ℕ) (c child : Rlp) (g : Table)
        → IsKey l
        → 0 < length l
        → Linked coding database lasting db c child
        → is_list child ≡ true
        → Holds coding database lasting db child g
        → at_view coding database
            (at_aux coding database n db)
            db
            (pair (text (encoded l false)) c)
            s
          ≡ some (if begins (nibbles s) l then g (drop (length l) (nibbles s)) else [])
    unfolding at_view payload
    at_extension l c child g k p link list hold =
        rw
          (
            (key_of-encoded l false k).1,
            equals-encoded s l false k v,
            contains-encoded s l false k v,
            size-encoded l false k,
          )
          (elim (Bool-cases (begins (nibbles s) l)) [
            | inr h ↦ rw h (ground arith)
            | inl h ↦
                let fits = begins-length (nibbles s) l h in
                let rest = mid-Rest s (length l) v fits in
                let got =
                  next child (mid s (length l)) g (omega (arith, rest.count, p, room, fits))
                    rest.slice hold in
                rw
                  (
                    h,
                    deref-list db c child link (Holds-whole coding database lasting hold) list,
                    got,
                    rest.left,
                  )
                  (ground arith)
          ])

    at_branch :
        (ls : Items) (child : ℕ → Rlp) (g : ℕ → Table) (f : Table)
        → ((i : ℕ) → i < 16 → Linked coding database lasting db (item ls i) (child i))
        → ((i : ℕ) → i < 16 → Holds coding database lasting db (child i) (g i))
        → item ls 16 ≡ text (f [])
        → ((x : ℕ) (q : List ℕ) → x < 16 → f (x ∷ q) ≡ g x q)
        → at_view coding database (at_aux coding database n db) db (branch ls) s
          ≡ some (f (nibbles s))
    unfolding at_view payload
    at_branch ls child g f link hold value below = elim (List-cases (nibbles s)) [
      | inl e ↦
          let none_left : size s ≡ 0 = sym (length-nibbles s) ∙ ap length e in
          rw (none_left, value) refl
      | inr (x, q, e) ↦
          let some_left : (size s == 0) ≡ false =
            let n_s = sym (length-nibbles s) ∙ ap length e in ground arith in
          let digit : x < 16 =
            (subst (All (λ a. a < 16)) e (nibbles_from-All s.bytes s.offset (size s) v.octets)).0 in
          let rest = mid-Rest s 1 v (let n_s = ap length e in omega (arith, n_s)) in
          let left : nibbles (mid s 1) ≡ q = rest.left ∙ ap (drop 1) e in
          rw (some_left, at_index-first s x q v e, e, below x q digit)
            (elim (Bool-cases (is_empty (item ls x))) [
              | inl h ↦
                  let same_item = empty_Linked db (item ls x) (child x) (link x digit) h in
                  let gone =
                    empty_Holds db (child x) (g x) (hold x digit) (ap is_empty (sym same_item) ∙ h)
                      q in
                  rw h (ap some (sym gone))
              | inr h ↦
                  let n_s = ap length e in
                  let got =
                    next (child x) (mid s 1) (g x) (omega (arith, rest.count, n_s, room)) rest.slice
                      (hold x digit) in
                  rw
                    (
                      h,
                      deref-Linked db (item ls x) (child x) (link x digit)
                          (Holds-whole coding database lasting (hold x digit)) h,
                      got,
                      left,
                    )
                    refl
            ])
    ]

    at_round :
        (r : Rlp) (f : Table)
        → Holds coding database lasting db r f
        → at_aux coding database (suc n) db r s ≡ some (f (nibbles s))
    unfolding at_aux at_view is_null view
    at_round r f (blank_node e h) = elim (Bool-cases (is_null r)) [
      | inl b ↦ rw b (ap some (sym (h (nibbles s))))
      | inr b ↦ rw (b, e) (ap some (sym (h (nibbles s))))
    ]
    at_round r f (leaf_node l value e k h) = rw (e, h (nibbles s)) (at_leaf l value k)
    at_round r f (extension_node l c child g e k p link list hold h) =
        rw (e, h (nibbles s)) (at_extension l c child g k p link list hold)
    at_round r f (branch_node ls child g e m link hold value below) =
        rw (e, view-items ls m) (at_branch ls child g f link hold value below)

  -- Where an item stands for a table, `atAux` gives the value of the key, in as many rounds as the key has nibbles,
  -- and one.
  pub at_aux_lem :
      (n : ℕ) (db : State) (r : Rlp) (s : NibbleSlice) (f : Table)
      → length (nibbles s) < n
      → IsSlice s
      → Holds coding database lasting db r f
      → at_aux coding database n db r s ≡ some (f (nibbles s))
  at_aux_lem zero db r s f h v hold = absurd (omega (arith, h))
  at_aux_lem (suc n) db r s f h v hold =
      at_round n db (λ r' s' f'. at_aux_lem n db r' s' f') s v h r f hold
