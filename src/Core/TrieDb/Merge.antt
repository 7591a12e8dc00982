-- ===== src/Core/TrieDb/Merge.antt =====
-- `mergeAt` of libdevcore/TrieDB.h on an item that stands for a table.
use x_chain.Prelude.{
  ℕ, suc, ◌≤◌, ◌<◌, ◌≡◌, subst, refl, sym, ap, ◌∙◌, Bool, true, false, some, List, [], ◌∷◌, arith,
  ◌==◌, if◌then◌else◌, ==_iff, Bool-cases, inl, inr, length, drop, All,
}
use x_chain.Core.Maps.{same}
use x_chain.Core.TrieCommon.{NibbleSlice, size, mid}
use x_chain.Core.TrieCommon.Decode.{nibbles, encoded}
use x_chain.Core.TrieCommon.Compare.{begins}
use x_chain.Core.TrieCommon.Slices.{IsSlice}
use x_chain.Core.Rlp.{
  Bytes, Rlp, Items, Coding, IsCollisionFree, null_item, text, items, two, pair, branch, nothing,
  view, is_list, is_null, payload, item, set_item, count,
}
use x_chain.Core.Database.{Database, IsLasting}
use x_chain.Core.TrieDb.{kill_node, stream_node, Made, Merge, place, merge_aux, merge_view}
use x_chain.Core.TrieDb.Keys.{
  IsKey, length-nibbles, drop-IsKey, at_index-first, key_of-encoded, encoded-equals,
  contains-encoded, size-encoded,
}
use x_chain.Core.TrieDb.Holds.{
  Table, Linked, Linked-Grows, Holds, Holds-Grows, Holds-whole, blank_node, leaf_node,
  extension_node, branch_node, Grows, Grows-trans, Grows-refl, kill_node-Grows, stream_node-Linked,
  node-Linked, hash_reference, List-cases,
}
use x_chain.Core.TrieDb.Nodes.{put_at, extension_put, branch_value, branch_child}
use x_chain.Core.TrieDb.Lookup.{mid-Rest, begins-length}

nothing_filled : (r : Rlp) → view r ≡ nothing → is_null r ≡ false
unfolding view is_null
nothing_filled null_item e = cc
nothing_filled (text s) e = refl
nothing_filled (items l) e = refl

module _ (coding : Coding) (database : Database) (lasting : IsLasting database)
    (ok : IsCollisionFree coding) (v : Bytes) where
  open coding use {encode, decode, sha3}
  open database use {State, lookup, insert, kill}
  open lasting use {Keeps}

  not_null :
      {db : State} {r : Rlp} {f : Table} → Holds coding database lasting db r f → is_null r ≡ false
  unfolding is_null view
  not_null {r} (blank_node e h) = nothing_filled r e
  not_null (leaf_node l w e k h) = ap is_null e
  not_null (extension_node l c child g e k p link list hold h) = ap is_null e
  not_null (branch_node ls child g e n link hold w h) = ap is_null e

  -- The item that was made stands for the table with the value under the key, over a database that has kept what it had.
  abbrev pub Puts : State → List ℕ → Table → Made coding database → Type 0
  Puts db k f made =
      (o : Rlp × State) × (made ≡ some o)
      × Grows coding database lasting db o.1
      × (is_list o.0 ≡ true)
      × Holds coding database lasting o.1 o.0 (put_at k v f)

  -- A function that puts the value, for keys shorter than `n`.
  abbrev pub PutsBelow : ℕ → Merge coding database → Type 0
  PutsBelow n rec =
      (in_line : Bool) (r : Rlp) (s : NibbleSlice) (db : State) (f : Table)
      → Keeps db
      → length (nibbles s) < n
      → IsSlice s
      → IsKey (nibbles s)
      → Holds coding database lasting db r f
      → Puts db (nibbles s) f (rec in_line r s db)

  -- The item that `mergeAtAux` writes for a child, and the child that it links to.
  abbrev Merged : State → List ℕ → Table → (Rlp → Rlp) → Made coding database → Type 0
  Merged db k g wrap made =
      (x : Rlp) × (r : Rlp) × (db' : State) × (made ≡ some (wrap x, db'))
      × Grows coding database lasting db db'
      × Linked coding database lasting db' x r
      × (is_list r ≡ true)
      × Holds coding database lasting db' r (put_at k v g)

  module _ (rec : Merge coding database) (wrap : Rlp → Rlp) (c child : Rlp) (s : NibbleSlice)
      (db : State) (g : Table) (keep : Keeps db) (hold : Holds coding database lasting db child g)
      (step : (in_line : Bool) → Puts db (nibbles s) g (rec in_line child s db)) where
    merge_aux_lem :
        Linked coding database lasting db c child
        → Merged db (nibbles s) g wrap (merge_aux coding database rec wrap c s db)
    unfolding merge_aux payload
    merge_aux_lem (inl (h, e)) =
        let (o, made, grow, list, puts) = step true in
        let (grow', link) = stream_node-Linked coding database lasting ok o.0 o.1 grow.kept list in
        (
          (stream_node coding database o.0 o.1).0,
          o.0,
          (stream_node coding database o.0 o.1).1,
          rw (h, e, made) refl,
          Grows-trans coding database lasting grow grow',
          link,
          list,
          Holds-Grows coding database lasting grow' puts,
        )
    merge_aux_lem (inr (e, h)) =
        let (o, made, grow, list, puts) = step false in
        let (grow', link) = stream_node-Linked coding database lasting ok o.0 o.1 grow.kept list in
        (
          (stream_node coding database o.0 o.1).0,
          o.0,
          (stream_node coding database o.0 o.1).1,
          rw
              (
                e,
                hash_reference coding database lasting ok.coded child,
                node-Linked coding database lasting ok.coded db child
                    (Holds-whole coding database lasting hold) h,
                not_null hold,
                made,
              )
              refl,
          Grows-trans coding database lasting grow grow',
          link,
          list,
          Holds-Grows coding database lasting grow' puts,
        )

  -- The database after the old node was killed, where it does not stand in line.
  after_kill : Bool → Rlp → Bytes → State → State
  after_kill in_line orig hash db = if in_line then db else kill_node coding database orig hash db

  after_kill-Grows :
      (in_line : Bool) (orig : Rlp) (hash : Bytes) (db : State)
      → Keeps db
      → Grows coding database lasting db (after_kill in_line orig hash db)
  unfolding after_kill
  after_kill-Grows true orig hash db k = Grows-refl coding database lasting k
  after_kill-Grows false orig hash db k = kill_node-Grows coding database lasting db orig hash k

  module _ (n : ℕ) (rec : Merge coding database) (puts : PutsBelow n rec) (in_line : Bool)
      (orig : Rlp) (hash : Bytes) (s : NibbleSlice) (db : State) (keep : Keeps db)
      (room : length (nibbles s) < suc n) (slice : IsSlice s) (key : IsKey (nibbles s)) where
    rec-Puts :
        (i : ℕ) (child : Rlp) (db' : State) (g : Table)
        → 0 < i
        → i ≤ length (nibbles s)
        → Keeps db'
        → Holds coding database lasting db' child g
        → (il : Bool) → Puts db' (nibbles (mid s i)) g (rec il child (mid s i) db')
    rec-Puts i child db' g p fits keep' hold il =
        let rest = mid-Rest s i slice fits in
        puts il child (mid s i) db' g keep' (omega (arith, rest.count, p, fits, room)) rest.slice
          (subst IsKey (sym rest.left) (drop-IsKey i (nibbles s) key)) hold

    extension_step :
        (l : List ℕ) (c : Rlp)
        → IsKey l
        → begins (nibbles s) l ≡ true
        → merge_view coding database rec in_line orig hash (pair (text (encoded l false)) c) s v db
          ≡ merge_aux coding database rec
              (two (text (encoded l false)))
              c
              (mid s (length l))
              (after_kill in_line orig hash db)
    unfolding merge_view payload after_kill
    extension_step l c k b =
        rw
          (
            (key_of-encoded l false k).1,
            encoded-equals s l false k slice,
            contains-encoded s l false k slice,
            size-encoded l false k,
            b,
          )
          (ground arith)

    pub extension_round :
        (l : List ℕ) (c child : Rlp) (f g : Table)
        → IsKey l
        → 0 < length l
        → Linked coding database lasting db c child
        → is_list child ≡ true
        → Holds coding database lasting db child g
        → ((q : List ℕ) → f q ≡ (if begins q l then g (drop (length l) q) else []))
        → begins (nibbles s) l ≡ true
        → Puts db (nibbles s) f (
            merge_view coding database rec in_line orig hash
              (pair (text (encoded l false)) c)
              s
              v
              db)
    unfolding is_list
    extension_round l c child f g k p link list hold h b =
        let grow = after_kill-Grows in_line orig hash db keep in
        let hold' = Holds-Grows coding database lasting grow hold in
        let fits = begins-length (nibbles s) l b in
        let rest = mid-Rest s (length l) slice fits in
        let (x, r, db', made, grow', link', list', hold'') =
          merge_aux_lem rec (two (text (encoded l false))) c child (mid s (length l))
            (after_kill in_line orig hash db) g grow.kept hold'
            (rec-Puts (length l) child (after_kill in_line orig hash db) g p fits grow.kept hold')
            (Linked-Grows coding database lasting c child grow link) in
        (
          (two (text (encoded l false)) x, db'),
          extension_step l c k b ∙ made,
          Grows-trans coding database lasting grow grow',
          refl,
          extension_put coding database lasting db' l (nibbles s) v x r f g k p b link' list'
              (subst (λ q. Holds coding database lasting db' r (put_at q v g)) rest.left hold'') h,
        )

    branch_step :
        (ls : Items) (x : ℕ) (q : List ℕ)
        → nibbles s ≡ x ∷ q
        → merge_view coding database rec in_line orig hash (branch ls) s v db
          ≡ merge_aux coding database rec
              (λ y. items (set_item ls x y))
              (item ls x)
              (mid s 1)
              (after_kill in_line orig hash db)
    unfolding merge_view after_kill
    branch_step ls x q e =
        let some_left : (size s == 0) ≡ false =
          let n_s = sym (length-nibbles s) ∙ ap length e in ground arith in
        rw (some_left, at_index-first s x q slice e) refl

    module _ (ls : Items) (child : ℕ → Rlp) (g : ℕ → Table) (f : Table) (n17 : count ls ≡ 17)
        (link : (i : ℕ) → i < 16 → Linked coding database lasting db (item ls i) (child i))
        (hold : (i : ℕ) → i < 16 → Holds coding database lasting db (child i) (g i))
        (value : item ls 16 ≡ text (f []))
        (below : (x : ℕ) (q : List ℕ) → x < 16 → f (x ∷ q) ≡ g x q) where
      put_below :
          (x : ℕ) (k : List ℕ)
          → x < 16
          → (y : ℕ) (q : List ℕ)
          → put_at (x ∷ k) v f (y ∷ q) ≡ (if y == x then put_at k v (g x) q else f (y ∷ q))
      unfolding same
      put_below x k lt y q = elim (Bool-cases (y == x)) [
        | inr there ↦ rw there refl
        | inl here ↦
            let at_x : y ≡ x = (==_iff y x).0 here in rw here (rw (at_x, below x q lt) refl)
      ]

      branch_round_end :
          nibbles s ≡ []
          → Puts db
              (nibbles s)
              f
              (merge_view coding database rec in_line orig hash (branch ls) s v db)
      unfolding merge_view place is_list same
      branch_round_end e =
          let none_left : size s ≡ 0 = sym (length-nibbles s) ∙ ap length e in
          let db' = kill_node coding database orig (sha3 (encode orig)) db in
          let grow = kill_node-Grows coding database lasting db orig (sha3 (encode orig)) keep in
          (
            (items (set_item ls 16 (text v)), db'),
            rw none_left refl,
            grow,
            refl,
            branch_value coding database lasting db' ls n17 child g f
                (λ i lt.
                  Linked-Grows coding database lasting (item ls i) (child i) grow (link i lt))
                (λ i lt. Holds-Grows coding database lasting grow (hold i lt)) value below v
                (put_at (nibbles s) v f) (rw e refl) (λ x q. rw e refl),
          )

      branch_round_down :
          (x : ℕ) (k : List ℕ)
          → nibbles s ≡ x ∷ k
          → Puts db
              (nibbles s)
              f
              (merge_view coding database rec in_line orig hash (branch ls) s v db)
      unfolding is_list same
      branch_round_down x k e =
          let digit : x < 16 = (subst (All (λ a. a < 16)) e key.digits).0 in
          let fits : 1 ≤ length (nibbles s) = (let n_s = ap length e in omega (arith, n_s)) in
          let grow = after_kill-Grows in_line orig hash db keep in
          let hold' = Holds-Grows coding database lasting grow (hold x digit) in
          let rest = mid-Rest s 1 slice fits in
          let (y, r, db', made, grow', link', list', hold'') =
            merge_aux_lem rec (λ y. items (set_item ls x y)) (item ls x) (child x) (mid s 1)
              (after_kill in_line orig hash db) (g x) grow.kept hold'
              (rec-Puts 1 (child x) (after_kill in_line orig hash db) (g x) (omega arith) fits
                grow.kept hold')
              (Linked-Grows coding database lasting (item ls x) (child x) grow (link x digit)) in
          let all = Grows-trans coding database lasting grow grow' in
          let left : nibbles (mid s 1) ≡ k = rest.left ∙ ap (drop 1) e in
          (
            (items (set_item ls x y), db'),
            branch_step ls x k e ∙ made,
            all,
            refl,
            branch_child coding database lasting db' ls n17 child g f
                (λ i lt. Linked-Grows coding database lasting (item ls i) (child i) all (link i lt))
                (λ i lt. Holds-Grows coding database lasting all (hold i lt)) value below x y r
                (put_at (nibbles s) v f) (put_at k v (g x)) digit link'
                (subst (λ q. Holds coding database lasting db' r (put_at q v (g x))) left hold'')
                (rw e refl) (λ z q. rw e (put_below x k digit z q)),
          )

      pub branch_round :
          Puts db
            (nibbles s)
            f
            (merge_view coding database rec in_line orig hash (branch ls) s v db)
      branch_round = elim (List-cases (nibbles s)) [
        | inl e ↦ branch_round_end e
        | inr (x, k, e) ↦ branch_round_down x k e
      ]
