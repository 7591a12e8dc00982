-- ===== src/Core/Tests/Codings.antt =====
-- A coding of items and a hash for which the hypotheses of the trie's theorems hold, for runs at concrete inputs.
use x_chain.Prelude.{
  ℕ, zero, suc, ◌≤◌, ◌≡◌, ◌≢◌, refl, sym, ap, ◌∙◌, Bool, true, false, ◌&&◌, [], ◌∷◌, ◌++◌, arith,
  ◌==◌, if◌then◌else◌, length, length-append, take, drop,
}
use mathlib.Core.List.{append_assoc, append-nil}
use x_chain.Core.Rlp.{
  Bytes, Rlp, Items, Coding, IsCoding, IsCollisionFree, null_item, text, items, nil, cons, is_whole,
  are_whole,
}

unfoldable mutual
  pub written : Rlp → Bytes
  written null_item = []
  written (text s) = 1 ∷ length s ∷ s
  written (items l) = 2 ∷ written_all l

  pub written_all : Items → Bytes
  written_all nil = 0 ∷ []
  written_all (cons r l) = 1 ∷ (written r ++ written_all l)

unfoldable pub read_text : Bytes → Rlp × Bytes
read_text [] = (null_item, [])
read_text (n ∷ b) = (text (take n b), drop n b)

unfoldable mutual
  pub read : ℕ → Bytes → Rlp × Bytes
  read zero b = (null_item, b)
  read (suc n) [] = (null_item, [])
  read (suc n) (x ∷ b) =
      let inner = read_all n b in if x == 1 then read_text b else (items inner.0, inner.1)

  pub read_all : ℕ → Bytes → Items × Bytes
  read_all zero b = (nil, b)
  read_all (suc n) [] = (nil, [])
  read_all (suc n) (x ∷ b) =
      let first = read n b in
      let others = read_all n first.1 in
      if x == 0 then (nil, b) else (cons first.0 others.0, others.1)

unfoldable pub read_bytes : Bytes → Rlp
read_bytes b = (read (length b) b).0

take-append : (s rest : Bytes) → take (length s) (s ++ rest) ≡ s
take-append [] rest = refl
take-append (x ∷ s) rest = ap (◌∷◌ x) (take-append s rest)

drop-append : (s rest : Bytes) → drop (length s) (s ++ rest) ≡ rest
drop-append [] rest = refl
drop-append (x ∷ s) rest = drop-append s rest

and_left : (a b : Bool) → (a && b) ≡ true → a ≡ true
and_left true b h = refl
and_left false b h = h

and_right : (a b : Bool) → (a && b) ≡ true → b ≡ true
and_right true b h = h
and_right false b h = cc

mutual
  unfolding written read read_text is_whole

  read-written :
      (r : Rlp) (n : ℕ) (rest : Bytes)
      → is_whole r ≡ true
      → length (written r) ≤ n
      → read n (written r ++ rest) ≡ (r, rest)
  read-written null_item n rest w h = cc
  read-written (text s) zero rest w h = absurd (omega (arith, h))
  read-written (text s) (suc n) rest w h = rw (take-append s rest, drop-append s rest) refl
  read-written (items l) zero rest w h = absurd (omega (arith, h))
  read-written (items l) (suc n) rest w h = rw (read_all-written l n rest w (omega (arith, h))) refl

  read_all-written :
      (l : Items) (n : ℕ) (rest : Bytes)
      → are_whole l ≡ true
      → length (written_all l) ≤ n
      → read_all n (written_all l ++ rest) ≡ (l, rest)
  read_all-written nil zero rest w h = absurd (omega (arith, h))
  read_all-written (cons r l) zero rest w h = absurd (omega (arith, h))
  read_all-written nil (suc n) rest w h = refl
  read_all-written (cons r l) (suc n) rest w h =
      let fits = length-append (written r) (written_all l) in
      rw
        (
          append_assoc (written r) (written_all l) rest,
          read-written r n (written_all l ++ rest) (and_left (is_whole r) (are_whole l) w)
              (omega (arith, h, fits)),
          read_all-written l n rest (and_right (is_whole r) (are_whole l) w)
              (omega (arith, h, fits)),
        )
        refl

read_bytes-written : (r : Rlp) → is_whole r ≡ true → read_bytes (written r) ≡ r
unfolding read_bytes
read_bytes-written r w =
    ap (λ b. (read (length (written r)) b).0) (sym (append-nil (written r)))
    ∙ ap (λ p. p.0) (read-written r (length (written r)) [] w (omega arith))

written_filled : (r : Rlp) → is_whole r ≡ true → written r ≢ []
unfolding written is_whole
written_filled null_item w e = cc
written_filled (text s) w e = cc
written_filled (items l) w e = cc

-- The hash is the string itself with a byte before it.
abbrev pub marking : Coding
marking = record { encode = written; decode = read_bytes; sha3 = λ b. 1 ∷ b; to_hash = λ b. b }

pub marking-IsCoding : IsCoding marking
marking-IsCoding = record {
  decode-encode = read_bytes-written;
  encode_filled = written_filled;
  sha3_filled = λ a e. cc;
  to_hash-sha3 = λ a. refl;
}

pub marking-IsCollisionFree : IsCollisionFree marking
marking-IsCollisionFree = record { coded = marking-IsCoding; sha3_injective = λ a b e. cc }
