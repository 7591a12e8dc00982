-- ===== src/Core/Maps.antt =====
-- Finite maps from strings of bytes, for the `std::unordered_map`s of libdevcore: a list of pairs.
use x_chain.Prelude.{
  ℕ, ◌≡◌, refl, inl, inr, Bool, true, false, ◌&&◌, Option, none, some, List, [], ◌∷◌, arith, ◌==◌,
  if◌then◌else◌, Bool-cases,
}

abbrev pub Bytes : Type 0
Bytes = List ℕ

unfoldable pub same : Bytes → Bytes → Bool
same [] [] = true
same (a ∷ x) (b ∷ y) = (a == b) && same x y
same _ _ = false

pub same_refl : (x : Bytes) → same x x ≡ true
unfolding same
same_refl [] = refl
same_refl (a ∷ x) = rw (same_refl x) (ground arith)

pub same→eq : (x y : Bytes) → same x y ≡ true → x ≡ y
unfolding same
same→eq [] [] h = refl
same→eq [] (b ∷ y) h = cc
same→eq (a ∷ x) [] h = cc
same→eq (a ∷ x) (b ∷ y) h = ground (arith, same→eq x y)

same_sym : (x y : Bytes) → same x y ≡ same y x
unfolding same
same_sym [] [] = refl
same_sym [] (b ∷ y) = refl
same_sym (a ∷ x) [] = refl
same_sym (a ∷ x) (b ∷ y) = let rest = same_sym x y in ground arith

abbrev pub Map {ℓ} : Type ℓ → Type ℓ
Map V = List (Bytes × V)

module _ {ℓ} {V : Type ℓ} where
  unfoldable pub find : Bytes → Map V → Option V
  find k [] = none
  find k (e ∷ m) = if same k e.0 then some e.1 else find k m

  -- `m[k] = v`
  unfoldable pub put : Bytes → V → Map V → Map V
  put k v [] = (k, v) ∷ []
  put k v (e ∷ m) = if same k e.0 then (e.0, v) ∷ m else e ∷ put k v m

  -- A loop that erases the entries whose value fails a test.
  unfoldable pub retain : (V → Bool) → Map V → Map V
  retain f [] = []
  retain f (e ∷ m) = let rest = retain f m in if f e.1 then e ∷ rest else rest

  unfoldable pub kept : (V → Bool) → Option V → Option V
  kept f none = none
  kept f (some v) = if f v then some v else none

  -- No key stands twice.
  abbrev pub Distinct : Map V → Type ℓ
  Distinct [] = Unit
  Distinct (e ∷ m) = (find e.0 m ≡ none) × Distinct m

  pub find-put :
      (q k : Bytes) (v : V) (m : Map V)
      → find q (put k v m) ≡ (if same q k then some v else find q m)
  unfolding find put
  find-put q k v [] = refl
  find-put q k v (e ∷ m) = elim (Bool-cases (same k e.0)) [
    | inl h ↦ let p = same→eq k e.0 h in ground arith
    | inr h ↦ let rest = find-put q k v m in ground (arith, same→eq q k)
  ]

  pub put-Distinct : (k : Bytes) (v : V) (m : Map V) → Distinct m → Distinct (put k v m)
  unfolding find put
  put-Distinct k v [] d = (refl, d)
  put-Distinct k v (e ∷ m) d = elim (Bool-cases (same k e.0)) [
    | inl h ↦ rw h d
    | inr h ↦
        let new = find-put e.0 k v m in
        let rest = put-Distinct k v m d.1 in ground (arith, same_sym e.0 k)
  ]

  pub find-retain :
      (f : V → Bool) (q : Bytes) (m : Map V) → Distinct m → find q (retain f m) ≡ kept f (find q m)
  unfolding find retain kept
  find-retain f q [] d = refl
  find-retain f q (e ∷ m) d = let rest = find-retain f q m d.1 in ground (arith, same→eq q e.0, d.0)

  pub retain-Distinct : (f : V → Bool) (m : Map V) → Distinct m → Distinct (retain f m)
  unfolding find retain kept
  retain-Distinct f [] d = d
  retain-Distinct f (e ∷ m) d =
      let rest = retain-Distinct f m d.1 in
      let gone = find-retain f e.0 m d.1 in ground (arith, d.0)
