-- ===== src/Core/TrieDb/Holds.antt =====
-- When an item of a trie (libdevcore/TrieDB.h) stands for a table of values, and what keeps it so.
use x_chain.Prelude.{
  ℕ, suc, ◌<◌, ◌≡◌, ◌⊎◌, inl, inr, refl, sym, ap, ◌∙◌, Bool, true, false, not, ◌&&◌, List, [], ◌∷◌,
  arith, ltb, ltb→lt, if◌then◌else◌, Bool-cases, length, drop,
}
use x_chain.Core.Maps.{same, same_refl, same→eq}
use x_chain.Core.TrieCommon.Decode.{encoded}
use x_chain.Core.TrieCommon.Compare.{begins}
use x_chain.Core.Rlp.{
  Bytes, Rlp, Items, Coding, IsCoding, IsCollisionFree, null_item, nil, cons, text, items, nothing,
  branch, is_list, is_empty, is_whole, are_whole, item, count, two, view,
}
use x_chain.Core.Database.{Database, IsLasting}
use x_chain.Core.TrieDb.{node, kill_node, stream_node}
use x_chain.Core.TrieDb.Keys.{IsKey}

-- A value for each key, a list of nibbles; the empty value is none.
abbrev pub Table : Type 0
Table = List ℕ → Bytes

-- The code follows the item as a hash.
abbrev pub is_reference : Rlp → Bool
is_reference c = not (is_list c) && not (is_empty c)

pub view-items : (l : Items) → count l ≡ 17 → view (items l) ≡ branch l
unfolding view count
view-items nil h = absurd (omega (arith, h))
view-items (cons a nil) h = absurd (omega (arith, h))
view-items (cons a (cons b nil)) h = absurd (omega (arith, h))
view-items (cons a (cons b (cons c l))) h = ground arith

pub List-cases : (l : List ℕ) → (l ≡ []) ⊎ ((x : ℕ) × (r : List ℕ) × (l ≡ x ∷ r))
List-cases [] = inl refl
List-cases (x ∷ l) = inr (x, l, refl)

nothing_whole : (r : Rlp) → view r ≡ nothing → is_whole r ≡ true
unfolding view is_whole
nothing_whole null_item e = cc
nothing_whole (text s) e = refl
nothing_whole (items nil) e = refl
nothing_whole (items (cons a nil)) e = cc
nothing_whole (items (cons a (cons b nil))) e = cc
nothing_whole (items (cons a (cons b (cons c l)))) e = ground arith

all_whole :
    (ls : Items) → ((i : ℕ) → i < count ls → is_whole (item ls i) ≡ true) → are_whole ls ≡ true
unfolding count item is_whole
all_whole nil h = refl
all_whole (cons r ls) h =
    rw (h 0 (omega arith)) (all_whole ls (λ i lt. h (suc i) (omega (arith, lt))))

module _ (coding : Coding) (database : Database) (lasting : IsLasting database) where
  open coding use {encode, decode, sha3, to_hash}
  open database use {State, lookup, insert, kill}
  open lasting use {Keeps, keeps_insert, keeps_kill, lookup-insert, lookup-kill}

  -- The item `c` of a node is `r`, or it is the hash of `r`.
  abbrev pub Linked : State → Rlp → Rlp → Type 0
  Linked db c r =
      ((is_reference c ≡ false) × (c ≡ r))
      ⊎ ((c ≡ text (sha3 (encode r))) × (lookup db (sha3 (encode r)) ≡ encode r))

  pub data Holds (db : State) : Rlp → Table → Type 0 where
    blank_node : {r : Rlp} {f : Table} → view r ≡ nothing → ((q : List ℕ) → f q ≡ []) → Holds db r f
    leaf_node :
        {r : Rlp} {f : Table} (l : List ℕ) (v : Bytes)
        → r ≡ two (text (encoded l true)) (text v)
        → IsKey l
        → ((q : List ℕ) → f q ≡ (if same q l then v else []))
        → Holds db r f
    extension_node :
        {r : Rlp} {f : Table} (l : List ℕ) (c child : Rlp) (g : Table)
        → r ≡ two (text (encoded l false)) c
        → IsKey l
        → 0 < length l
        → Linked db c child
        → is_list child ≡ true
        → Holds db child g
        → ((q : List ℕ) → f q ≡ (if begins q l then g (drop (length l) q) else []))
        → Holds db r f
    branch_node :
        {r : Rlp} {f : Table} (ls : Items) (child : ℕ → Rlp) (g : ℕ → Table)
        → r ≡ items ls
        → count ls ≡ 17
        → ((i : ℕ) → i < 16 → Linked db (item ls i) (child i))
        → ((i : ℕ) → i < 16 → Holds db (child i) (g i))
        → item ls 16 ≡ text (f [])
        → ((x : ℕ) (q : List ℕ) → x < 16 → f (x ∷ q) ≡ g x q)
        → Holds db r f

  -- An item that stands for a table has no null in it.
  Linked-whole : (db : State) (c r : Rlp) → Linked db c r → is_whole r ≡ true → is_whole c ≡ true
  unfolding is_whole
  Linked-whole db c r (inl (h, e)) w = ap is_whole e ∙ w
  Linked-whole db c r (inr (e, h)) w = ap is_whole e

  pub Holds-whole : {db : State} {r : Rlp} {f : Table} → Holds db r f → is_whole r ≡ true
  unfolding is_whole
  Holds-whole {r} (blank_node e h) = nothing_whole r e
  Holds-whole (leaf_node l v e k h) = ap is_whole e
  Holds-whole {db} (extension_node l c child g e k p link list hold h) =
      ap is_whole e ∙ rw (Linked-whole db c child link (Holds-whole hold)) refl
  Holds-whole {db} (branch_node ls child g e n link hold v h) =
      ap is_whole e
      ∙ all_whole ls (λ i lt. elim (Bool-cases (ltb i 16)) [
        | inl low ↦
            let p = ltb→lt i 16 low in
            Linked-whole db (item ls i) (child i) (link i p) (Holds-whole (hold i p))
        | inr high ↦ let last : i ≡ 16 = ground arith in rw (last, v) refl
      ])

  -- The database keeps what it has under its hash.
  pub record Grows (db db' : State) : Type 0 where
    pub kept : Keeps db'
    pub lasts : (b : Bytes) → lookup db (sha3 b) ≡ b → lookup db' (sha3 b) ≡ b

  pub Grows-trans : {a b c : State} → Grows a b → Grows b c → Grows a c
  Grows-trans g h = record { kept = h.kept; lasts = λ b e. h.lasts b (g.lasts b e) }

  pub Grows-refl : {db : State} → Keeps db → Grows db db
  Grows-refl k = record { kept = k; lasts = λ b e. e }

  pub kill-Grows : (db : State) (h : Bytes) → Keeps db → Grows db (kill db h)
  kill-Grows db h k = record {
    kept = keeps_kill db h k;
    lasts = λ b e. lookup-kill db h (sha3 b) k ∙ e;
  }

  pub kill_node-Grows :
      (db : State) (r : Rlp) (h : Bytes) → Keeps db → Grows db (kill_node coding database r h db)
  unfolding kill_node
  kill_node-Grows db r h k = elim (Bool-cases (ltb (length (encode r)) 32)) [
    | inl e ↦ rw e (Grows-refl k)
    | inr e ↦ rw e (kill-Grows db h k)
  ]

  pub Linked-Grows : {db db' : State} (c r : Rlp) → Grows db db' → Linked db c r → Linked db' c r
  Linked-Grows c r g (inl h) = inl h
  Linked-Grows c r g (inr (e, h)) = inr (e, g.lasts (encode r) h)

  pub Holds-Grows :
      {db db' : State} {r : Rlp} {f : Table} → Grows db db' → Holds db r f → Holds db' r f
  Holds-Grows g (blank_node e h) = blank_node e h
  Holds-Grows g (leaf_node l v e k h) = leaf_node l v e k h
  Holds-Grows g (extension_node l c child t e k p link list hold h) =
      extension_node l c child t e k p (Linked-Grows c child g link) list (Holds-Grows g hold) h
  Holds-Grows g (branch_node ls child t e n link hold v h) =
      branch_node ls child t e n (λ i p. Linked-Grows (item ls i) (child i) g (link i p))
        (λ i p. Holds-Grows g (hold i p)) v h

  module _ (ok : IsCollisionFree coding) where
    open ok use {sha3_injective}

    pub insert-Grows :
        (db : State) (b : Bytes)
        → Keeps db
        → Grows db (insert db (sha3 b) b) × (lookup (insert db (sha3 b) b) (sha3 b) ≡ b)
    insert-Grows db b k =
        let there = lookup-insert db (sha3 b) b in
        (
          record {
            kept = keeps_insert db (sha3 b) b k;
            lasts = λ a e. there (sha3 a) k ∙ (elim (Bool-cases (same (sha3 a) (sha3 b))) [
              | inl p ↦ rw p (sym (sha3_injective a b (same→eq (sha3 a) (sha3 b) p)))
              | inr p ↦ rw p e
            ]);
          },
          there (sha3 b) k ∙ rw (same_refl (sha3 b)) refl,
        )

    -- A list that is streamed into a node is linked from it.
    pub stream_node-Linked :
        (r : Rlp) (db : State)
        → Keeps db
        → is_list r ≡ true
        → Grows db (stream_node coding database r db).1
          × Linked (stream_node coding database r db).1 (stream_node coding database r db).0 r
    unfolding stream_node
    stream_node-Linked r db k list = elim (Bool-cases (ltb (length (encode r)) 32)) [
      | inl e ↦ rw e (Grows-refl k, inl (rw list refl, refl))
      | inr e ↦ let grown = insert-Grows db (encode r) k in rw e (grown.0, inr (refl, grown.1))
    ]

  module _ (ok : IsCoding coding) where
    open ok use {decode-encode, sha3_filled, to_hash-sha3}

    -- A reference is not empty and not a list, and it leads to its node.
    pub hash_reference : (r : Rlp) → is_reference (text (sha3 (encode r))) ≡ true
    unfolding is_list is_empty
    hash_reference r = elim (List-cases (sha3 (encode r))) [
      | inl e ↦ absurd (sha3_filled (encode r) e)
      | inr (x, l, e) ↦ rw e refl
    ]

    pub node-Linked :
        (db : State) (r : Rlp)
        → is_whole r ≡ true
        → lookup db (sha3 (encode r)) ≡ encode r
        → node coding database db (to_hash (sha3 (encode r))) ≡ r
    unfolding node
    node-Linked db r w e =
        ap (λ h. decode (lookup db h)) (to_hash-sha3 (encode r)) ∙ ap decode e ∙ decode-encode r w
