-- ===== src/Core/TrieDb/Cuts.antt =====
-- `cleve` and `branch` of libdevcore/TrieDB.h on a node with a key.
use x_chain.Prelude.{
  ℕ, ◌≤◌, ◌<◌, ◌≡◌, refl, ap, ◌∙◌, Bool, true, false, ◌||◌, some, List, [], ◌∷◌, arith, ltb, length,
  drop, take,
}
use x_chain.Core.TrieCommon.{mid, key_of}
use x_chain.Core.TrieCommon.Decode.{nibbles, encoded}
use x_chain.Core.TrieCommon.Slices.{encode_slice-encoded}
use x_chain.Core.Rlp.{Rlp, Coding, IsCollisionFree, text, items, two, is_list, payload, set_item}
use x_chain.Core.Database.{Database, IsLasting}
use x_chain.Core.TrieDb.{kill_node, stream_node, Made, cleve, branch_out, blank}
use x_chain.Core.TrieDb.Keys.{
  IsKey, at_index-first, key_of-encoded, size-encoded, encoded_rest, encoded_start, mid-IsSlice,
  nibbles-mid,
}
use x_chain.Core.TrieDb.Holds.{Linked, Grows, Grows-trans, kill_node-Grows, stream_node-Linked}

module _ (coding : Coding) (database : Database) (lasting : IsLasting database)
    (ok : IsCollisionFree coding) (orig : Rlp) (db : database.State) (keep : lasting.Keeps db) where
  open coding use {encode, decode, sha3}
  open database use {State}

  -- An item that links to `r`, in the database that was made.
  abbrev pub MadeWith : (Rlp → Rlp) → Rlp → Made coding database → Type 0
  MadeWith wrap r made =
      (x : Rlp) × (db' : State) × (made ≡ some (wrap x, db'))
      × Grows coding database lasting db db'
      × Linked coding database lasting db' x r

  killed : State
  killed = kill_node coding database orig (sha3 (encode orig)) db

  killed-Grows : Grows coding database lasting db killed
  unfolding killed
  killed-Grows = kill_node-Grows coding database lasting db orig (sha3 (encode orig)) keep

  -- The lower part of the key goes down with the second item.
  pub cleve_lem :
      (l : List ℕ) (leaf : Bool) (second : Rlp) (n : ℕ)
      → IsKey l
      → 0 < n
      → n ≤ length l
      → MadeWith
          (two (text (encoded (take n l) false)))
          (two (text (encoded (drop n l) leaf)) second)
          (cleve coding database orig (text (encoded l leaf)) second n db)
  unfolding cleve payload is_list killed
  cleve_lem l leaf second n k p le =
      let (got, flag, slice) = key_of-encoded l leaf k in
      let key = key_of (encoded l leaf) in
      let fits : n ≤ length (nibbles key) = rw got le in
      let rest = encoded_rest key slice n fits leaf ∙ ap (λ m. encoded (drop n m) leaf) got in
      let start = encoded_start key slice n fits false ∙ ap (λ m. encoded (take n m) false) got in
      let bottom = two (text (encoded (drop n l) leaf)) second in
      let (grow, link) =
        stream_node-Linked coding database lasting ok bottom killed killed-Grows.kept refl in
      (
        (stream_node coding database bottom killed).0,
        (stream_node coding database bottom killed).1,
        rw (flag, rest, start, size-encoded l leaf k) (ground arith),
        Grows-trans coding database lasting killed-Grows grow,
        link,
      )

  -- A leaf with no key left gives its value to the branch.
  pub branch_out_end :
      (second : Rlp)
      → IsKey []
      → (db' : State) × (branch_out coding database orig (text (encoded [] true)) second db
          ≡ some (items (set_item blank 16 second), db'))
        × Grows coding database lasting db db'
  unfolding branch_out payload killed
  branch_out_end second k =
      (killed, rw ((key_of-encoded [] true k).1, size-encoded [] true k) refl, killed-Grows)

  pub branch_out_down :
      (a : ℕ) (l : List ℕ) (leaf : Bool) (second : Rlp)
      → IsKey (a ∷ l)
      → (leaf || ltb 1 (length (a ∷ l))) ≡ true
      → MadeWith
          (λ x. items (set_item blank a x))
          (two (text (encoded l leaf)) second)
          (branch_out coding database orig (text (encoded (a ∷ l) leaf)) second db)
  unfolding branch_out payload is_list killed
  branch_out_down a l leaf second k h =
      let (got, flag, slice) = key_of-encoded (a ∷ l) leaf k in
      let key = key_of (encoded (a ∷ l) leaf) in
      let fits : 1 ≤ length (nibbles key) = rw got (omega arith) in
      let rest =
        encode_slice-encoded (mid key 1) leaf (mid-IsSlice key slice 1 fits)
        ∙ ap (λ m. encoded m leaf) (nibbles-mid key slice 1 fits ∙ ap (drop 1) got) in
      let bottom = two (text (encoded l leaf)) second in
      let (grow, link) =
        stream_node-Linked coding database lasting ok bottom killed killed-Grows.kept refl in
      (
        (stream_node coding database bottom killed).0,
        (stream_node coding database bottom killed).1,
        rw (flag, rest, at_index-first key a l slice got, size-encoded (a ∷ l) leaf k, h)
            (ground arith),
        Grows-trans coding database lasting killed-Grows grow,
        link,
      )

  -- An extension by one nibble hands its child to the branch.
  pub branch_out_child :
      (a : ℕ) (second : Rlp)
      → IsKey (a ∷ [])
      → (db' : State) × (branch_out coding database orig (text (encoded (a ∷ []) false)) second db
          ≡ some (items (set_item blank a second), db'))
        × Grows coding database lasting db db'
  unfolding branch_out payload killed
  branch_out_child a second k =
      let (got, flag, slice) = key_of-encoded (a ∷ []) false k in
      (
        killed,
        rw
            (
              flag,
              at_index-first (key_of (encoded (a ∷ []) false)) a [] slice got,
              size-encoded (a ∷ []) false k,
            )
            (ground arith),
        killed-Grows,
      )
