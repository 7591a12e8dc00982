-- ===== src/Whisper/BloomFilter/Counting.antt =====
-- What the loops of libwhisper/BloomFilter.h do to each bit and its counter.
use x_chain.Prelude.{
  ℕ, zero, suc, ◌+◌, ◌-◌, ◌≤◌, ◌<◌, ◌≡◌, refl, sym, ap, ◌∙◌, inl, inr, Bool, true, false, not, ◌&&◌,
  ◌||◌, ltb, ◌==◌, if◌then◌else◌, Bool-cases, arith,
}
use x_chain.Whisper.BloomFilter.{
  BloomFilter, max_counter, set_counter, clear_bit, add_loop, add_raw, remove_at, remove_loop,
  remove_raw,
}

-- No counter of a bit that is added is at its bound, from the place i on.
abbrev pub Fits : ℕ → (ℕ → Bool) → BloomFilter → Type 0
Fits i h b = (j : ℕ) → i ≤ j → h j ≡ true → b.ref_counter j < max_counter

-- A bit is set where its counter is not zero.
abbrev pub IsCounted : ℕ → BloomFilter → Type 0
IsCounted size b = (j : ℕ) → j < size → b.bits j ≡ ltb 0 (b.ref_counter j)

abbrev pub one_if : Bool → ℕ
one_if p = if p then 1 else 0

and_true : (p : Bool) → p ≡ p && true
and_true true = refl
and_true false = refl

and_false : (p : Bool) → false ≡ p && false
and_false true = refl
and_false false = refl

-- One round.
added_at : ℕ → (ℕ → Bool) → BloomFilter → BloomFilter
added_at i h b = if h i then set_counter i (b.ref_counter i + 1) b else b

added_at-here :
    (i : ℕ) (h : ℕ → Bool) (b : BloomFilter)
    → (added_at i h b).ref_counter i ≡ b.ref_counter i + one_if (h i)
unfolding added_at set_counter
added_at-here i h b = elim (Bool-cases (h i)) [
  | inl p ↦ let same : (i == i) ≡ true = ground arith in rw (p, same) refl
  | inr p ↦ rw p (omega arith)
]

added_at-there :
    (i j : ℕ) (h : ℕ → Bool) (b : BloomFilter)
    → (j == i) ≡ false
    → (added_at i h b).ref_counter j ≡ b.ref_counter j
unfolding added_at set_counter
added_at-there i j h b other = elim (Bool-cases (h i)) [
  | inl p ↦ rw (p, other) refl
  | inr p ↦ rw p refl
]

added_at-bits : (i : ℕ) (h : ℕ → Bool) (b : BloomFilter) → (added_at i h b).bits ≡ b.bits
unfolding added_at set_counter
added_at-bits i h b = elim (Bool-cases (h i)) [ inl p ↦ rw p refl | inr p ↦ rw p refl ]

removed_at : ℕ → (ℕ → Bool) → BloomFilter → BloomFilter
removed_at i h b = if h i then remove_at i b else b

-- What is left of a bit.
abbrev pub left : Bool → Bool → ℕ → Bool
left bit p c = bit && not (p && (c - 1 == 0))

removed_at-here :
    (i : ℕ) (h : ℕ → Bool) (b : BloomFilter)
    → ((removed_at i h b).ref_counter i ≡ b.ref_counter i - one_if (h i))
      × ((removed_at i h b).bits i ≡ left (b.bits i) (h i) (b.ref_counter i))
unfolding removed_at remove_at set_counter clear_bit
removed_at-here i h b =
    let same : (i == i) ≡ true = ground arith in
    elim (Bool-cases (h i)) [
      | inl p ↦ rw p (elim (Bool-cases (b.ref_counter i - 1 == 0)) [
        | inl q ↦ rw (q, same) (refl, and_false (b.bits i))
        | inr q ↦ rw (q, same) (refl, and_true (b.bits i))
      ])
      | inr p ↦ rw p (omega arith, and_true (b.bits i))
    ]

removed_at-there :
    (i j : ℕ) (h : ℕ → Bool) (b : BloomFilter)
    → (j == i) ≡ false
    → ((removed_at i h b).ref_counter j ≡ b.ref_counter j) × ((removed_at i h b).bits j ≡ b.bits j)
unfolding removed_at remove_at set_counter clear_bit
removed_at-there i j h b other = elim (Bool-cases (h i)) [
  | inl p ↦ rw p (elim (Bool-cases (b.ref_counter i - 1 == 0)) [
    | inl q ↦ rw (q, other) (refl, refl)
    | inr q ↦ rw (q, other) (refl, refl)
  ])
  | inr p ↦ rw p (refl, refl)
]

add_loop_lem :
    (n i : ℕ) (h : ℕ → Bool) (b : BloomFilter)
    → Fits i h b
    → ((add_loop n i h b).0 ≡ true)
      × ((add_loop n i h b).1.bits ≡ b.bits)
      × ((j : ℕ) → j < i → (add_loop n i h b).1.ref_counter j ≡ b.ref_counter j)
      × ((j : ℕ)
          → i ≤ j
          → j < i + n
          → (add_loop n i h b).1.ref_counter j ≡ b.ref_counter j + one_if (h j))
unfolding add_loop added_at
add_loop_lem zero i h b fits = (refl, refl, λ j lt. refl, λ j le lt. absurd (omega (arith, le, lt)))
add_loop_lem (suc n) i h b fits =
    let no : (h i && (b.ref_counter i == max_counter)) ≡ false = elim (Bool-cases (h i)) [
      | inl p ↦
          let below = fits i (omega arith) p in
          let differ : (b.ref_counter i == max_counter) ≡ false = ground arith in
          rw (p, differ) refl
      | inr p ↦ rw p refl
    ] in
    let fits' : Fits (i + 1) h (added_at i h b) = λ j le p.
      let other : (j == i) ≡ false = ground arith in
      let below = fits j (omega (arith, le)) p in rw (added_at-there i j h b other) below in
    let (done, same, low, high) = add_loop_lem n (i + 1) h (added_at i h b) fits' in
    rw no (
      done,
      same ∙ added_at-bits i h b,
      λ j lt.
          let other : (j == i) ≡ false = ground arith in
          low j (omega (arith, lt)) ∙ added_at-there i j h b other,
      λ j le lt. elim (Bool-cases (j == i)) [
        | inl e ↦ let at : j ≡ i = ground arith in rw at (low i (omega arith) ∙ added_at-here i h b)
        | inr other ↦
            let more : i + 1 ≤ j = ground arith in
            high j more (omega (arith, lt))
            ∙ ap (λ c. c + one_if (h j)) (added_at-there i j h b other)
      ],
    )

remove_loop_lem :
    (n i : ℕ) (h : ℕ → Bool) (b : BloomFilter)
    → ((j : ℕ)
        → j < i
        → ((remove_loop n i h b).ref_counter j ≡ b.ref_counter j)
          × ((remove_loop n i h b).bits j ≡ b.bits j))
      × ((j : ℕ)
          → i ≤ j
          → j < i + n
          → ((remove_loop n i h b).ref_counter j ≡ b.ref_counter j - one_if (h j))
            × ((remove_loop n i h b).bits j ≡ left (b.bits j) (h j) (b.ref_counter j)))
unfolding remove_loop removed_at
remove_loop_lem zero i h b = (λ j lt. (refl, refl), λ j le lt. absurd (omega (arith, le, lt)))
remove_loop_lem (suc n) i h b =
    let (low, high) = remove_loop_lem n (i + 1) h (removed_at i h b) in
    (
      λ j lt.
          let other : (j == i) ≡ false = ground arith in
          let (c, k) = low j (omega (arith, lt)) in
          let (c', k') = removed_at-there i j h b other in (c ∙ c', k ∙ k'),
      λ j le lt. elim (Bool-cases (j == i)) [
        | inl e ↦
            let at : j ≡ i = ground arith in
            let (c, k) = low i (omega arith) in
            let (c', k') = removed_at-here i h b in rw at (c ∙ c', k ∙ k')
        | inr other ↦
            let more : i + 1 ≤ j = ground arith in
            let (c, k) = high j more (omega (arith, lt)) in
            let (c', k') = removed_at-there i j h b other in
            (
              c ∙ ap (λ x. x - one_if (h j)) c',
              k
                  ∙ ap (λ x. left x (h j) ((removed_at i h b).ref_counter j)) k'
                  ∙ ap (λ x. left (b.bits j) (h j) x) c',
            )
      ],
    )

count_added : (bit p : Bool) (c : ℕ) → bit ≡ ltb 0 c → (bit || p) ≡ ltb 0 (c + one_if p)
count_added bit true c e = ground arith
count_added bit false c e = ground arith

count_left : (bit p : Bool) (c : ℕ) → bit ≡ ltb 0 c → left bit p c ≡ ltb 0 (c - one_if p)
count_left bit true c e = ground arith
count_left bit false c e = ground arith

left_added : (bit p : Bool) (c : ℕ) → bit ≡ ltb 0 c → left (bit || p) p (c + one_if p) ≡ bit
left_added bit true c e = ground arith
left_added bit false c e = ground arith

-- Where no counter of a bit that is added is at 65535, the addition and the removal of a hash both keep it so that a
-- bit is set where its counter is not zero, and the addition does not overflow.
pub IsCounted-kept :
    (size : ℕ) (h : ℕ → Bool) (b : BloomFilter)
    → IsCounted size b
    → Fits 0 h b
    → ((add_raw size h b).0 ≡ true)
      × IsCounted size (add_raw size h b).1
      × IsCounted size (remove_raw size h b)
unfolding add_raw remove_raw
IsCounted-kept size h b counted fits =
    let with_h : BloomFilter = record b { bits = λ j. b.bits j || h j } in
    let (done, same, low, high) = add_loop_lem size 0 h with_h fits in
    let (low', high') = remove_loop_lem size 0 h b in
    (
      done,
      λ j lt.
          ap (λ f. f j) same
          ∙ count_added (b.bits j) (h j) (b.ref_counter j) (counted j lt)
          ∙ ap (ltb 0) (sym (high j (omega arith) (omega (arith, lt)))),
      λ j lt.
          let (c, k) = high' j (omega arith) (omega (arith, lt)) in
          k ∙ count_left (b.bits j) (h j) (b.ref_counter j) (counted j lt) ∙ ap (ltb 0) (sym c),
    )

-- Where no counter of a bit that is added is at 65535 and a bit is set where its counter is not zero, the removal of a
-- hash that has just been added gives every bit and every counter back.
pub remove_raw-add_raw :
    (size : ℕ) (h : ℕ → Bool) (b : BloomFilter)
    → IsCounted size b
    → Fits 0 h b
    → (j : ℕ) → j < size
    → ((remove_raw size h (add_raw size h b).1).ref_counter j ≡ b.ref_counter j)
      × ((remove_raw size h (add_raw size h b).1).bits j ≡ b.bits j)
unfolding add_raw remove_raw
remove_raw-add_raw size h b counted fits j lt =
    let with_h : BloomFilter = record b { bits = λ j. b.bits j || h j } in
    let (done, same, low, high) = add_loop_lem size 0 h with_h fits in
    let mid = (add_loop size 0 h with_h).1 in
    let (low', high') = remove_loop_lem size 0 h mid in
    let (c, k) = high' j (omega arith) (omega (arith, lt)) in
    let grown = high j (omega arith) (omega (arith, lt)) in
    let back : b.ref_counter j + one_if (h j) - one_if (h j) ≡ b.ref_counter j = omega arith in
    (
      c ∙ ap (λ x. x - one_if (h j)) grown ∙ back,
      k
          ∙ ap (λ f. left (f j) (h j) (mid.ref_counter j)) same
          ∙ ap (λ x. left (b.bits j || h j) (h j) x) grown
          ∙ left_added (b.bits j) (h j) (b.ref_counter j) (counted j lt),
    )
