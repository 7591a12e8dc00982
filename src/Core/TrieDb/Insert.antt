-- ===== src/Core/TrieDb/Insert.antt =====
-- `init`, `insert` and `at` of libdevcore/TrieDB.h: a trie as a table of values.
use x_chain.Prelude.{
  ℕ, suc, ◌+◌, ◌*◌, ◌<◌, ◌≡◌, ◌≢◌, refl, sym, ap, ◌∙◌, false, some, List, [], ◌∷◌, arith, ltb, ◌==◌,
  if◌then◌else◌, Bool-cases, inl, inr, length, All,
}
use x_chain.Core.TrieCommon.{word32}
use x_chain.Core.TrieCommon.Decode.{nibbles}
use x_chain.Core.TrieCommon.Slices.{IsSlice, size-IsSlice}
use x_chain.Core.Rlp.{Bytes, Rlp, Coding, IsCoding, IsCollisionFree, text, view}
use x_chain.Core.Database.{Database, IsLasting}
use x_chain.Core.TrieDb.{node, whole, Trie, init, at, insert_key, insert_root}
use x_chain.Core.TrieDb.Keys.{IsKey, length-nibbles, nibbles-IsKey}
use x_chain.Core.TrieDb.Holds.{
  Table, Holds, Holds-Grows, Holds-whole, blank_node, Grows, Grows-trans, Grows-refl, kill-Grows,
  insert-Grows,
}
use x_chain.Core.TrieDb.Lookup.{at_aux_lem}
use x_chain.Core.TrieDb.Nodes.{put_at}
use x_chain.Core.TrieDb.Rounds.{merge_at_lem, merge_view_lem}

-- A key of bytes that is short enough for the 32-bit indices of its nibbles.
pub record IsPath (key : Bytes) : Type 0 where
  pub octets : All (λ b. b < 256) key
  pub short : length key * 2 + 4 < word32

-- The nibbles of a key.
abbrev pub path : Bytes → List ℕ
path key = nibbles (whole key)

pub whole-IsSlice : (key : Bytes) → IsPath key → IsSlice (whole key)
whole-IsSlice key p = record {
  inside = omega arith;
  small = omega (arith, p.short);
  octets = p.octets;
}

length-path : (key : Bytes) → IsPath key → length (path key) ≡ length key * 2
length-path key p =
    length-nibbles (whole key) ∙ size-IsSlice (whole key) (whole-IsSlice key p) ∙ omega arith

path-IsKey : (key : Bytes) → IsPath key → IsKey (path key)
path-IsKey key p =
    nibbles-IsKey (whole key) (whole-IsSlice key p) (omega (arith, length-path key p, p.short))

filled_length : (l : Bytes) → l ≢ [] → (length l == 0) ≡ false
filled_length [] h = absurd (h refl)
filled_length (x ∷ l) h = ground arith

module _ (coding : Coding) (database : Database) (lasting : IsLasting database) where
  open coding use {encode, decode, sha3}
  open database use {State, lookup, insert, kill}
  open lasting use {Keeps}

  -- The root of the trie is the hash of a node that stands for the table.
  pub record IsTrie (t : Trie coding database) (f : Table) : Type 0 where
    pub kept : Keeps t.db
    pub top : Rlp
    pub rooted : t.root ≡ sha3 (encode top)
    pub found : lookup t.db (sha3 (encode top)) ≡ encode top
    pub holds : Holds coding database lasting t.db top f

  module _ (ok : IsCoding coding) where
    open ok use {decode-encode}

    -- Where a trie stands for a table of values, and items and hashes are read back as they were written, `at` gives the
    -- value of the table, for a key of bytes whose nibbles can be counted in 32 bits: it fails no assertion, and its
    -- rounds are enough.
    pub at_lem :
        (t : Trie coding database) (f : Table) (key : Bytes)
        → IsTrie t f
        → IsPath key
        → at coding database t key ≡ some (f (path key))
    unfolding at node
    at_lem t f key h p =
        let there : decode (lookup t.db t.root) ≡ h.top =
          ap (λ x. decode (lookup t.db x)) h.rooted
          ∙ ap decode h.found
          ∙ decode-encode h.top (Holds-whole coding database lasting h.holds) in
        rw there (
          at_aux_lem coding database lasting ok (suc (length key * 2)) t.db h.top (whole key) f
            (omega (arith, length-path key p)) (whole-IsSlice key p) h.holds)

  module _ (ok : IsCollisionFree coding) where
    open ok.coded use {decode-encode, encode_filled}

    -- `init` makes the trie of no values.
    pub init-IsTrie : (db : State) → Keeps db → IsTrie (init coding database db) (λ _. [])
    unfolding init view
    init-IsTrie db k =
        let (grow, there) = insert-Grows coding database lasting ok db (encode (text [])) k in
        record {
          kept = grow.kept;
          top = text [];
          rooted = refl;
          found = there;
          holds = blank_node refl (λ q. refl);
        }

    -- The new root, after the old one may have been killed.
    insert_root-IsTrie :
        (t : Trie coding database) (old : Bytes) (r : Rlp) (db : State) (f : Table)
        → Keeps db
        → Holds coding database lasting db r f
        → IsTrie (insert_root coding database t old (r, db)) f
    unfolding insert_root
    insert_root-IsTrie t old r db f k hold =
        let db' = if ltb (length old) 32 then kill db t.root else db in
        let grow : Grows coding database lasting db db' = elim (Bool-cases (ltb (length old) 32)) [
          | inl e ↦ rw e (kill-Grows coding database lasting db t.root k)
          | inr e ↦ rw e (Grows-refl coding database lasting k)
        ] in
        let (grow', there) = insert-Grows coding database lasting ok db' (encode r) grow.kept in
        record {
          kept = grow'.kept;
          top = r;
          rooted = refl;
          found = there;
          holds =
              Holds-Grows coding database lasting (Grows-trans coding database lasting grow grow')
                hold;
        }

    -- `insert` does not fail, and puts the value into the table.
    pub insert_key_lem :
        (t : Trie coding database) (f : Table) (key v : Bytes)
        → IsTrie t f
        → IsPath key
        → (t' : Trie coding database) × (insert_key coding database t key v ≡ some t')
          × IsTrie t' (put_at (path key) v f)
    unfolding insert_key
    insert_key_lem t f key v h p =
        let old : lookup t.db t.root ≡ encode h.top = ap (lookup t.db) h.rooted ∙ h.found in
        let sound = Holds-whole coding database lasting h.holds in
        let there : decode (lookup t.db t.root) ≡ h.top =
          ap decode old ∙ decode-encode h.top sound in
        let filled : (length (lookup t.db t.root) == 0) ≡ false =
          filled_length (lookup t.db t.root) (λ e. encode_filled h.top sound (sym old ∙ e)) in
        let n = length key * 2 in
        let fuel = length key * 4 in
        let room : length (path key) < suc n = omega (arith, length-path key p) in
        let (o, made, grow, list, hold) =
          merge_view_lem coding database lasting ok v n fuel
            (merge_at_lem coding database lasting ok v n fuel (omega arith))
            (merge_at_lem coding database lasting ok v n (suc fuel) (omega arith)) false
            (decode (lookup t.db t.root)) t.root (whole key) (whole-IsSlice key p)
            (path-IsKey key p) room h.top t.db f h.kept h.holds in
        (
          insert_root coding database t (lookup t.db t.root) o,
          rw filled (rw (ap view there, made) refl),
          insert_root-IsTrie t (lookup t.db t.root) o.0 o.1 (put_at (path key) v f) grow.kept hold,
        )
