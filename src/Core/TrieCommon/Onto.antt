-- ===== src/Core/TrieCommon/Onto.antt =====
-- The loops of libdevcore/TrieCommon.cpp over a list of nibbles.
use x_chain.Prelude.{
  ℕ, zero, suc, ◌+◌, ◌*◌, ◌/◌, ◌%◌, ◌<◌, bit_or, ◌≡◌, refl, sym, ap, ◌∙◌, Bool, true, ◌&&◌, List,
  [], ◌∷◌, ◌++◌, arith, ◌==◌, if◌then◌else◌, ==_iff, length, All,
}
use x_chain.Core.TrieCommon.{Bytes, nibble, or_back, push_nibbles}
use mathlib.Core.List.{append-nil, append_assoc}

-- The `n` nibbles from `i`.
abbrev pub nibbles_from : Bytes → ℕ → ℕ → List ℕ
nibbles_from bytes i zero = []
nibbles_from bytes i (suc n) = nibble bytes i ∷ nibbles_from bytes (suc i) n

-- The loop of the encoders on a list.
unfoldable pub onto : List ℕ → ℕ → Bytes → Bytes
onto [] d ret = ret
onto (a ∷ l) d ret =
    onto l (suc d) (if d % 2 == 1 then or_back ret a else ret ++ (a * 16 % 256 ∷ []))

-- Two nibbles to a byte.
abbrev pub packed : List ℕ → Bytes
packed [] = []
packed (a ∷ []) = a * 16 ∷ []
packed (a ∷ b ∷ l) = (a * 16 + b) ∷ packed l

pub push_nibbles-onto :
    (n : ℕ) (bytes : Bytes) (i d : ℕ) (ret : Bytes)
    → push_nibbles n bytes i d ret ≡ onto (nibbles_from bytes i n) d ret
unfolding push_nibbles onto
push_nibbles-onto zero bytes i d ret = refl
push_nibbles-onto (suc n) bytes i d ret = push_nibbles-onto n bytes (suc i) (suc d) _

pub onto-append :
    (l k : List ℕ) (d : ℕ) (ret : Bytes)
    → onto (l ++ k) d ret ≡ onto k (d + length l) (onto l d ret)
unfolding onto
onto-append [] k d ret = ap (λ x. onto k x ret) (omega arith)
onto-append (a ∷ l) k d ret =
    onto-append l k (suc d) (if d % 2 == 1 then or_back ret a else ret ++ (a * 16 % 256 ∷ []))
    ∙ ap
        (λ x.
          onto k x
            (onto l (suc d) (if d % 2 == 1 then or_back ret a else ret ++ (a * 16 % 256 ∷ []))))
        (omega arith)

pub or_back-append :
    (ret : Bytes) (x n : ℕ) → or_back (ret ++ (x ∷ [])) n ≡ ret ++ (bit_or x n ∷ [])
unfolding or_back
or_back-append [] x n = refl
or_back-append (r ∷ []) x n = refl
or_back-append (r ∷ t ∷ ret) x n = ap (◌∷◌ r) (or_back-append (t ∷ ret) x n)

abbrev pub all_below : ℕ → (ℕ → Bool) → Bool
all_below zero p = true
all_below (suc n) p = p n && all_below n p

pub all_below_sound : (n : ℕ) (p : ℕ → Bool) (x : ℕ) → all_below n p ≡ true → x < n → p x ≡ true
all_below_sound zero p x h lt = absurd (omega arith)
all_below_sound (suc n) p x h lt = ground (arith, all_below_sound n p x)

joined : ℕ → Bool
joined x = bit_or (x / 16 * 16) (x % 16) == x

joined_table : all_below 256 joined ≡ true
unfolding joined
joined_table = refl

-- A low nibble goes under a high one.
pub bit_or-high_low : (a b : ℕ) → a < 16 → b < 16 → bit_or (a * 16) b ≡ a * 16 + b
unfolding joined
bit_or-high_low a b h g =
    let x = a * 16 + b in
    let small : x < 256 = omega arith in
    let t = all_below_sound 256 joined x joined_table small in
    let same_byte : bit_or (x / 16 * 16) (x % 16) ≡ x =
      (==_iff (bit_or (x / 16 * 16) (x % 16)) x).0 t in
    let high : x / 16 ≡ a = omega arith in
    let low : x % 16 ≡ b = omega arith in (rw (high, low) at same_byte)

pub onto-packed :
    (l : List ℕ) (d : ℕ) (ret : Bytes)
    → All (λ a. a < 16) l
    → d % 2 ≡ 0
    → length l % 2 ≡ 0
    → onto l d ret ≡ ret ++ packed l
unfolding onto
onto-packed [] d ret all e even = sym (append-nil ret)
onto-packed (a ∷ []) d ret all e even = absurd (omega (arith, even))
onto-packed (a ∷ b ∷ l) d ret all e even =
    let odd : suc d % 2 ≡ 1 = omega (arith, e) in
    let byte : a * 16 % 256 ≡ a * 16 = omega (arith, all.0) in
    rw (odd, e, byte, or_back-append ret (a * 16) b, bit_or-high_low a b all.0 all.1.0)
      (onto-packed l (suc (suc d)) _ all.1.1 (omega (arith, e)) (omega (arith, even))
        ∙ append_assoc ret ((a * 16 + b) ∷ []) (packed l))
