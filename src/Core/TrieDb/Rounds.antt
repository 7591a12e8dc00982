-- ===== src/Core/TrieDb/Rounds.antt =====
-- `mergeAt` of libdevcore/TrieDB.h over all its rounds: one that splits a node is followed by one that goes down.
use x_chain.Prelude.{
  ℕ, zero, suc, ◌*◌, ◌≤◌, ◌<◌, ◌≡◌, subst, refl, sym, ap, ◌∙◌, Bool, true, false, not, ◌&&◌, some,
  List, [], ◌∷◌, arith, ◌==◌, if◌then◌else◌, Bool-cases, inl, inr, length, drop, take,
}
use x_chain.Core.Maps.{same, same→eq}
use x_chain.Core.TrieCommon.{NibbleSlice, encode_slice}
use x_chain.Core.TrieCommon.Decode.{nibbles, encoded}
use x_chain.Core.TrieCommon.Compare.{begins, common}
use x_chain.Core.TrieCommon.Slices.{IsSlice, encode_slice-encoded}
use x_chain.Core.Rlp.{
  Bytes, Rlp, Items, Coding, IsCollisionFree, text, items, two, pair, branch, nothing, view,
  is_list, payload, set_item,
}
use x_chain.Core.Database.{Database, IsLasting}
use x_chain.Core.TrieDb.{
  kill_node, Made, ◌>>=◌, place, merge_view, merge_at, again, cleve, branch_out, blank,
}
use x_chain.Core.TrieDb.Keys.{
  IsKey, take-IsKey, drop-IsKey, key_of-encoded, encoded-equals, contains-encoded, shared-encoded,
}
use x_chain.Core.TrieDb.Splits.{common-le, common-lt, begins-common, length-take}
use x_chain.Core.TrieDb.Holds.{
  Table, Linked, Linked-Grows, Holds, Holds-Grows, blank_node, leaf_node, extension_node,
  branch_node, Grows, Grows-trans, kill_node-Grows, view-items,
}
use x_chain.Core.TrieDb.Nodes.{
  leaf_put, leaf_new, extension_bottom, leaf_cut, extension_cut, single, value_only, count-single,
}
use x_chain.Core.TrieDb.Cuts.{cleve_lem, branch_out_end, branch_out_down, branch_out_child}
use x_chain.Core.TrieDb.Merge.{Puts, PutsBelow, extension_round, branch_round}

nothing_apart : (ls : Items) → ¬ (nothing ≡ branch ls)
nothing_apart ls e = cc

pair_apart : (a b : Rlp) (ls : Items) → ¬ (pair a b ≡ branch ls)
pair_apart a b ls e = cc

module _ (coding : Coding) (database : Database) (lasting : IsLasting database)
    (ok : IsCollisionFree coding) (v : Bytes) where
  open coding use {encode, decode, sha3}
  open database use {State}
  open lasting use {Keeps}

  -- What was put after some steps was put after all.
  Puts-after :
      {a b : State} (k : List ℕ) (f : Table) (made made' : Made coding database)
      → Grows coding database lasting a b
      → made ≡ made'
      → Puts coding database lasting ok v b k f made'
      → Puts coding database lasting ok v a k f made
  Puts-after k f made made' grow e (o, h, grow', list, hold) =
      (o, e ∙ h, Grows-trans coding database lasting grow grow', list, hold)

  module _ (n fuel : ℕ)
      (deep : PutsBelow coding database lasting ok v n (merge_at coding database fuel v))
      (shallow : PutsBelow coding database lasting ok v n (merge_at coding database (suc fuel) v))
      (in_line : Bool) (orig : Rlp) (hash : Bytes) (s : NibbleSlice) (slice : IsSlice s)
      (key : IsKey (nibbles s)) (room : length (nibbles s) < suc n) where
    Goal : State → Table → Made coding database → Type 0
    Goal db f made = Puts coding database lasting ok v db (nibbles s) f made

    -- The round after a node was made a branch.
    again_branch :
        (db : State) (r : Rlp) (ls : Items) (f : Table)
        → Keeps db
        → Holds coding database lasting db r f
        → view r ≡ branch ls
        → Goal db f (again coding database (merge_at coding database (suc fuel) v) s (r, db))
    unfolding Goal merge_at view
    again_branch db r ls f keep (blank_node e h) b = absurd (nothing_apart ls (sym e ∙ b))
    again_branch db r ls f keep (leaf_node l w e k h) b =
        absurd (pair_apart _ _ ls (sym (ap view e) ∙ b))
    again_branch db r ls f keep (extension_node l c child g e k p link list hold h) b =
        absurd (pair_apart _ _ ls (sym (ap view e) ∙ b))
    again_branch db r ls f keep (branch_node ls' child g e n17 link hold value below) b =
        subst
          (λ w. Puts coding database lasting ok v db (nibbles s) f (
            merge_view coding database (merge_at coding database fuel v) true r (sha3 (encode r)) w
              s v db))
          (sym (ap view e ∙ view-items ls' n17))
          (branch_round coding database lasting ok v n (merge_at coding database fuel v) deep true r
            (sha3 (encode r)) s db keep room slice key ls' child g f n17 link hold value below)

    -- The round after a key was cut.
    again_extension :
        (db : State) (l : List ℕ) (x child : Rlp) (f g : Table)
        → Keeps db
        → IsKey l
        → 0 < length l
        → Linked coding database lasting db x child
        → is_list child ≡ true
        → Holds coding database lasting db child g
        → ((q : List ℕ) → f q ≡ (if begins q l then g (drop (length l) q) else []))
        → begins (nibbles s) l ≡ true
        → Goal db f (
            again coding database
              (merge_at coding database (suc fuel) v)
              s
              (two (text (encoded l false)) x, db))
    unfolding Goal merge_at view
    again_extension db l x child f g keep k p link list hold h b =
        extension_round coding database lasting ok v n (merge_at coding database fuel v) deep true
          (two (text (encoded l false)) x) (sha3 (encode (two (text (encoded l false)) x))) s db
          keep room slice key l x child f g k p link list hold h b

    -- What is left of a round where the key of the node is not the whole beginning.
    split :
        (l : List ℕ) (leaf : Bool) (second : Rlp) (db : State)
        → IsKey l
        → (same (nibbles s) l && leaf) ≡ false
        → (begins (nibbles s) l && not leaf) ≡ false
        → merge_view coding database
            (merge_at coding database (suc fuel) v)
            in_line
            orig
            hash
            (pair (text (encoded l leaf)) second)
            s
            v
            db
          ≡ (if common (nibbles s) l == 0
              then branch_out coding database orig (text (encoded l leaf)) second db
                >>= again coding database (merge_at coding database (suc fuel) v) s
              else cleve coding database orig
                  (text (encoded l leaf))
                  second
                  (common (nibbles s) l)
                  db
                >>= again coding database (merge_at coding database (suc fuel) v) s)
    unfolding merge_view payload
    split l leaf second db k a b =
        rw
          (
            (key_of-encoded l leaf k).1,
            encoded-equals s l leaf k slice,
            contains-encoded s l leaf k slice,
            shared-encoded s l leaf k slice,
            a,
            b,
          )
          refl

    -- The key of the node is cut, and the value put below its upper part.
    cut :
        (l : List ℕ) (leaf : Bool) (second : Rlp) (db : State) (f g : Table)
        → Keeps db
        → IsKey l
        → 0 < common (nibbles s) l
        → Holds coding database lasting db
            (two (text (encoded (drop (common (nibbles s) l) l) leaf)) second)
            g
        → ((q : List ℕ)
            → f q ≡ (
                if begins q (take (common (nibbles s) l) l)
                then g (drop (length (take (common (nibbles s) l) l)) q)
                else []))
        → Goal db f (
            cleve coding database orig (text (encoded l leaf)) second (common (nibbles s) l) db
            >>= again coding database (merge_at coding database (suc fuel) v) s)
    unfolding Goal is_list
    cut l leaf second db f g keep k p hold h =
        let m = common (nibbles s) l in
        let le = common-le (nibbles s) l in
        let (x, db', made, grow, link) =
          cleve_lem coding database lasting ok orig db keep l leaf second m k p le in
        Puts-after (nibbles s) f _ _ grow (rw made refl) (
          again_extension db' (take m l) x (two (text (encoded (drop m l) leaf)) second) f g
            grow.kept (take-IsKey m l k) (rw (length-take m l le) p) link refl
            (Holds-Grows coding database lasting grow hold) h (begins-common (nibbles s) l))

    branched :
        (db' : State) (i : ℕ) (c : Rlp) (f : Table) (db : State) (made : Made coding database)
        → Grows coding database lasting db db'
        → made ≡ some (items (set_item blank i c), db')
        → Holds coding database lasting db' (items (set_item blank i c)) f
        → Goal db f (made >>= again coding database (merge_at coding database (suc fuel) v) s)
    unfolding Goal
    branched db' i c f db made grow e hold = Puts-after (nibbles s) f _ _ grow (rw e refl) (
        again_branch db' (items (set_item blank i c)) (set_item blank i c) f grow.kept hold
          (view-items (set_item blank i c) (count-single i c)))

    leaf_branched :
        (l : List ℕ) (w : Bytes) (db : State) (f : Table)
        → Keeps db
        → IsKey l
        → ((q : List ℕ) → f q ≡ (if same q l then w else []))
        → Goal db f (
            branch_out coding database orig (text (encoded l true)) (text w) db
            >>= again coding database (merge_at coding database (suc fuel) v) s)
    unfolding same
    leaf_branched [] w db f keep k h =
        let (db', made, grow) = branch_out_end coding database lasting ok orig db keep (text w) k in
        branched db' 16 (text w) f db _ grow made
          (value_only coding database lasting db' w f (h []) (λ x q. h (x ∷ q)))
    leaf_branched (a ∷ l) w db f keep k h =
        let (x, db', made, grow, link) =
          branch_out_down coding database lasting ok orig db keep a l true (text w) k refl in
        branched db' a x f db _ grow made (
          single coding database lasting db' a x (two (text (encoded l true)) (text w)) f
            (λ q. if same q l then w else []) k.digits.0 link
            (leaf_node l w refl (drop-IsKey 1 (a ∷ l) k) (λ q. refl)) (h [])
            (λ y q. h (y ∷ q) ∙ ground arith))

    extension_branched :
        (l : List ℕ) (c child : Rlp) (db : State) (f g : Table)
        → Keeps db
        → IsKey l
        → 0 < length l
        → Linked coding database lasting db c child
        → is_list child ≡ true
        → Holds coding database lasting db child g
        → ((q : List ℕ) → f q ≡ (if begins q l then g (drop (length l) q) else []))
        → Goal db f (
            branch_out coding database orig (text (encoded l false)) c db
            >>= again coding database (merge_at coding database (suc fuel) v) s)
    extension_branched [] c child db f g keep k p link list hold h = absurd (omega (arith, p))
    extension_branched (a ∷ []) c child db f g keep k p link list hold h =
        let (db', made, grow) = branch_out_child coding database lasting ok orig db keep a c k in
        branched db' a c f db _ grow made (
          single coding database lasting db' a c child f g k.digits.0
            (Linked-Grows coding database lasting c child grow link)
            (Holds-Grows coding database lasting grow hold) (h [])
            (λ y q. h (y ∷ q) ∙ ground arith))
    extension_branched (a ∷ b ∷ l) c child db f g keep k p link list hold h =
        let (x, db', made, grow, top) =
          branch_out_down coding database lasting ok orig db keep a (b ∷ l) false c k
            (ground arith) in
        branched db' a x f db _ grow made (
          single coding database lasting db' a x (two (text (encoded (b ∷ l) false)) c) f
            (λ q. if begins q (b ∷ l) then g (drop (length (b ∷ l)) q) else []) k.digits.0 top
            (extension_node (b ∷ l) c child g refl (drop-IsKey 1 (a ∷ b ∷ l) k) (omega arith)
              (Linked-Grows coding database lasting c child grow link) list
              (Holds-Grows coding database lasting grow hold) (λ q. refl))
            (h []) (λ y q. h (y ∷ q) ∙ ground arith))

    -- A round that splits the node, by either branch.
    split_round :
        (l : List ℕ) (leaf : Bool) (second : Rlp) (db : State) (f : Table)
        → IsKey l
        → (same (nibbles s) l && leaf) ≡ false
        → (begins (nibbles s) l && not leaf) ≡ false
        → Goal db f (
            branch_out coding database orig (text (encoded l leaf)) second db
            >>= again coding database (merge_at coding database (suc fuel) v) s)
        → (0 < common (nibbles s) l
            → Goal db f (
                cleve coding database orig (text (encoded l leaf)) second (common (nibbles s) l) db
                >>= again coding database (merge_at coding database (suc fuel) v) s))
        → Goal db f (
            merge_view coding database
              (merge_at coding database (suc fuel) v)
              in_line
              orig
              hash
              (pair (text (encoded l leaf)) second)
              s
              v
              db)
    split_round l leaf second db f k a b out cleft =
        subst (Goal db f) (sym (split l leaf second db k a b))
          (elim (Bool-cases (common (nibbles s) l == 0)) [
            | inl none_shared ↦ rw none_shared out
            | inr some_shared ↦ rw some_shared (cleft (ground arith))
          ])

    leaf_placed :
        (l : List ℕ) (w : Bytes) (db : State) (f : Table)
        → Keeps db
        → IsKey l
        → ((q : List ℕ) → f q ≡ (if same q l then w else []))
        → same (nibbles s) l ≡ true
        → Goal db f (
            merge_view coding database
              (merge_at coding database (suc fuel) v)
              in_line
              orig
              hash
              (pair (text (encoded l true)) (text w))
              s
              v
              db)
    unfolding Goal merge_view place payload is_list
    leaf_placed l w db f keep k h here =
        let db' = kill_node coding database orig (sha3 (encode orig)) db in
        (
          (two (text (encoded l true)) (text v), db'),
          rw ((key_of-encoded l true k).1, encoded-equals s l true k slice, here) refl,
          kill_node-Grows coding database lasting db orig (sha3 (encode orig)) keep,
          refl,
          leaf_put coding database lasting db' l (nibbles s) w v f k (same→eq (nibbles s) l here) h,
        )

    leaf_round :
        (l : List ℕ) (w : Bytes) (db : State) (f : Table)
        → Keeps db
        → IsKey l
        → ((q : List ℕ) → f q ≡ (if same q l then w else []))
        → Goal db f (
            merge_view coding database
              (merge_at coding database (suc fuel) v)
              in_line
              orig
              hash
              (pair (text (encoded l true)) (text w))
              s
              v
              db)
    leaf_round l w db f keep k h = elim (Bool-cases (same (nibbles s) l)) [
      | inl here ↦ leaf_placed l w db f keep k h here
      | inr there ↦
          let m = common (nibbles s) l in
          split_round l true (text w) db f k (rw there refl) (ground arith)
            (leaf_branched l w db f keep k h)
            (λ p.
              cut l true (text w) db f (λ q. if same q (drop m l) then w else []) keep k p
                (leaf_node (drop m l) w refl (drop-IsKey m l k) (λ q. refl))
                (leaf_cut m l w f (common-le (nibbles s) l) h))
    ]

    extension_or_split :
        (l : List ℕ) (c child : Rlp) (db : State) (f g : Table)
        → Keeps db
        → IsKey l
        → 0 < length l
        → Linked coding database lasting db c child
        → is_list child ≡ true
        → Holds coding database lasting db child g
        → ((q : List ℕ) → f q ≡ (if begins q l then g (drop (length l) q) else []))
        → Goal db f (
            merge_view coding database
              (merge_at coding database (suc fuel) v)
              in_line
              orig
              hash
              (pair (text (encoded l false)) c)
              s
              v
              db)
    unfolding Goal
    extension_or_split l c child db f g keep k p link list hold h =
        elim (Bool-cases (begins (nibbles s) l)) [
          | inl b ↦
              extension_round coding database lasting ok v n (merge_at coding database (suc fuel) v)
                shallow in_line orig hash s db keep room slice key l c child f g k p link list hold
                h b
          | inr b ↦
              let m = common (nibbles s) l in
              split_round l false c db f k (ground arith) (rw b refl)
                (extension_branched l c child db f g keep k p link list hold h)
                (λ q.
                  cut l false c db f
                    (λ t. if begins t (drop m l) then g (drop (length (drop m l)) t) else []) keep k
                    q
                    (extension_bottom coding database lasting db m l c child g k
                      (common-lt (nibbles s) l b) link list hold)
                    (extension_cut m l f g (common-le (nibbles s) l) h))
        ]

    -- One round of `mergeAt`, and a second where the first splits the node.
    pub merge_view_lem :
        (r : Rlp) (db : State) (f : Table)
        → Keeps db
        → Holds coding database lasting db r f
        → Puts coding database lasting ok v db (nibbles s) f (
            merge_view coding database
              (merge_at coding database (suc fuel) v)
              in_line
              orig
              hash
              (view r)
              s
              v
              db)
    unfolding Goal view place is_list merge_view
    merge_view_lem r db f keep (blank_node e h) =
        let db' = kill_node coding database orig (sha3 (encode orig)) db in
        (
          (two (text (encode_slice s true)) (text v), db'),
          rw e refl,
          kill_node-Grows coding database lasting db orig (sha3 (encode orig)) keep,
          refl,
          rw (encode_slice-encoded s true slice)
              (leaf_new coding database lasting db' (nibbles s) v f key h),
        )
    merge_view_lem r db f keep (leaf_node l w e k h) =
        subst
          (λ x. Goal db f (
            merge_view coding database (merge_at coding database (suc fuel) v) in_line orig hash
              (view x) s v db))
          (sym e) (leaf_round l w db f keep k h)
    merge_view_lem r db f keep (extension_node l c child g e k p link list hold h) =
        subst
          (λ x. Goal db f (
            merge_view coding database (merge_at coding database (suc fuel) v) in_line orig hash
              (view x) s v db))
          (sym e) (extension_or_split l c child db f g keep k p link list hold h)
    merge_view_lem r db f keep (branch_node ls child g e n17 link hold value below) =
        subst
          (λ x. Goal db f (
            merge_view coding database (merge_at coding database (suc fuel) v) in_line orig hash x s
              v db))
          (sym (ap view e ∙ view-items ls n17))
          (branch_round coding database lasting ok v n (merge_at coding database (suc fuel) v)
            shallow in_line orig hash s db keep room slice key ls child g f n17 link hold value
            below)

  -- With two rounds for each nibble of the key, and two, `mergeAt` puts the value.
  pub merge_at_lem :
      (n fuel : ℕ)
      → 2 * n ≤ fuel
      → PutsBelow coding database lasting ok v n (merge_at coding database fuel v)
  unfolding merge_at
  merge_at_lem zero fuel p in_line r s db f keep room slice key hold = absurd (omega (arith, room))
  merge_at_lem (suc n) zero p in_line r s db f keep room slice key hold = absurd (omega (arith, p))
  merge_at_lem (suc n) (suc zero) p in_line r s db f keep room slice key hold =
      absurd (omega (arith, p))
  merge_at_lem (suc n) (suc (suc fuel)) p in_line r s db f keep room slice key hold =
      merge_view_lem n fuel (merge_at_lem n fuel (omega (arith, p)))
        (merge_at_lem n (suc fuel) (omega (arith, p))) in_line r (sha3 (encode r)) s slice key room
        r db f keep hold
