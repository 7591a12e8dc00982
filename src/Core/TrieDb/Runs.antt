-- ===== src/Core/TrieDb/Runs.antt =====
-- Runs of insertions into a trie of libdevcore/TrieDB.h, as a client sees them.
use x_chain.Prelude.{
  ℕ, suc, ◌*◌, ◌/◌, ◌%◌, ◌<◌, ◌≡◌, refl, ap, ◌∙◌, Option, some, List, [], ◌∷◌, arith, if◌then◌else◌,
  Bool-cases, inl, inr, length, All,
}
use x_chain.Core.Maps.{same}
use x_chain.Core.TrieCommon.{nibble}
use x_chain.Core.TrieCommon.Onto.{nibbles_from}
use x_chain.Core.TrieCommon.Decode.{nibbles_from_skip}
use x_chain.Core.TrieCommon.Slices.{size-IsSlice}
use x_chain.Core.Rlp.{Bytes, Coding, IsCollisionFree}
use x_chain.Core.Database.{Database, IsLasting}
use x_chain.Core.TrieDb.{◌>>=◌, whole, Trie, init, at, insert_key}
use x_chain.Core.TrieDb.Holds.{Table}
use x_chain.Core.TrieDb.Nodes.{put_at}
use x_chain.Core.TrieDb.Insert.{
  IsPath, path, whole-IsSlice, IsTrie, init-IsTrie, at_lem, insert_key_lem,
}

-- Two nibbles to a byte.
digits : Bytes → List ℕ
digits [] = []
digits (b ∷ key) = b / 16 ∷ b % 16 ∷ digits key

nibbles_from-digits :
    (key : Bytes) → All (λ b. b < 256) key → nibbles_from key 0 (length key * 2) ≡ digits key
unfolding digits nibble
nibbles_from-digits [] all = refl
nibbles_from-digits (b ∷ key) all =
    ap (nibbles_from (b ∷ key) 0)
      (let e : suc (length key) * 2 ≡ suc (suc (length key * 2)) = omega arith in e)
    ∙ rw (nibbles_from_skip b key 0 (length key * 2), nibbles_from-digits key all.1) refl

path-digits : (key : Bytes) → IsPath key → path key ≡ digits key
path-digits key p =
    ap (nibbles_from key 0) (size-IsSlice (whole key) (whole-IsSlice key p) ∙ omega arith)
    ∙ nibbles_from-digits key p.octets

same-digits : (q key : Bytes) → same (digits q) (digits key) ≡ same q key
unfolding same digits
same-digits [] [] = refl
same-digits [] (b ∷ key) = refl
same-digits (a ∷ q) [] = refl
same-digits (a ∷ q) (b ∷ key) = let rest = same-digits q key in ground arith

-- Keys are the same where their nibbles are.
same-path : (q key : Bytes) → IsPath q → IsPath key → same (path q) (path key) ≡ same q key
same-path q key p r = rw (path-digits q p, path-digits key r) (same-digits q key)

-- The entries of a run, the latest first, and the value that a key was given last.
abbrev pub Entries : Type 0
Entries = List (Bytes × Bytes)

unfoldable pub value_of : Entries → Bytes → Bytes
value_of [] q = []
value_of (e ∷ es) q = if same q e.0 then e.1 else value_of es q

module _ (coding : Coding) (database : Database) where
  open database use {State}

  unfoldable pub insert_all : Entries → Trie coding database → Option (Trie coding database)
  insert_all [] t = some t
  insert_all (e ∷ es) t = insert_all es t >>= λ t'. insert_key coding database t' e.0 e.1

  module _ (lasting : IsLasting database) (ok : IsCollisionFree coding) where
    -- After an insertion, which does not fail, the key has the new value, and other keys have what they had.
    pub at-insert :
        (t : Trie coding database) (f : Table) (key v q : Bytes)
        → IsTrie coding database lasting t f
        → IsPath key
        → IsPath q
        → (t' : Trie coding database) × (insert_key coding database t key v ≡ some t')
          × IsTrie coding database lasting t' (put_at (path key) v f)
          × (at coding database t' q ≡ (if same q key then some v else at coding database t q))
    at-insert t f key v q h p r =
        let (t', made, h') = insert_key_lem coding database lasting ok t f key v h p in
        (
          t',
          made,
          h',
          at_lem coding database lasting ok.coded t' (put_at (path key) v f) q h' r
              ∙ rw (at_lem coding database lasting ok.coded t f q h r, same-path q key r p)
                  (elim (Bool-cases (same q key)) [ inl e ↦ rw e refl | inr e ↦ rw e refl ]),
        )

    -- A run ends in a trie of the values that were given last.
    pub insert_all-IsTrie :
        (es : Entries) (db : State)
        → lasting.Keeps db
        → All (λ e. IsPath e.0) es
        → (t : Trie coding database) × (f : Table) × (insert_all es (init coding database db)
            ≡ some t)
          × IsTrie coding database lasting t f
          × ((q : Bytes) → IsPath q → f (path q) ≡ value_of es q)
    unfolding insert_all value_of
    insert_all-IsTrie [] db k all = (
      init coding database db,
      λ _. [],
      refl,
      init-IsTrie coding database lasting ok db k,
      λ q p. refl,
    )
    insert_all-IsTrie (e ∷ es) db k all =
        let (t, f, run, h, last) = insert_all-IsTrie es db k all.1 in
        let (t', made, h') = insert_key_lem coding database lasting ok t f e.0 e.1 h all.0 in
        (
          t',
          put_at (path e.0) e.1 f,
          rw run made,
          h',
          λ q p. rw (same-path q e.0 p all.0, last q p) refl,
        )

    -- A run of insertions into a new trie does not fail, and every key then has the value that it was given last, or
    -- none.
    pub at-insert_all :
        (es : Entries) (db : State)
        → lasting.Keeps db
        → All (λ e. IsPath e.0) es
        → (t : Trie coding database) × (insert_all es (init coding database db) ≡ some t)
          × ((q : Bytes) → IsPath q → at coding database t q ≡ some (value_of es q))
    at-insert_all es db k all =
        let (t, f, run, h, last) = insert_all-IsTrie es db k all in
        (t, run, λ q p. at_lem coding database lasting ok.coded t f q h p ∙ ap some (last q p))
