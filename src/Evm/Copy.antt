-- ===== src/Evm/Copy.antt =====
-- What `copyDataToMemory`, MSTORE and MLOAD leave in the memory and read from it.
use x_chain.Prelude.{
  ℕ, zero, suc, ◌+◌, ◌-◌, ◌%◌, ◌^◌, ◌≤◌, ◌<◌, ◌≡◌, refl, ap, ◌∙◌, arith, inl, inr, List, [], ◌∷◌,
  ◌++◌, leb, ltb, ◌&&◌, get_or, replicate, length, length-replicate, if◌then◌else◌, Bool-cases,
}
use x_chain.Evm.State.{Vm, ok}
use x_chain.Evm.Gas.{arg, grow_to, grown, resize}
use x_chain.Evm.Bytes.{to_bytes, from_bytes, slice, write_at, copy_size, copy_data_to_memory}
use x_chain.Evm.Shape.{length-write_at, length-grown, grow_to_shape, after_shape}
use x_chain.Evm.Cases.Memory.{case_mload, case_mstore}
use x_chain.Evm.Memory.{
  get_or-write_at, get_or-slice, length-slice, length-to_bytes, slice-write_at, from_bytes-to_bytes,
  list-ext,
}

get_or-replicate : (n i : ℕ) → get_or {A = ℕ} (replicate n 0) i 0 ≡ 0
get_or-replicate zero i = refl
get_or-replicate (suc n) zero = refl
get_or-replicate (suc n) (suc i) = get_or-replicate n i

get_or-append-zeros : (xs : List ℕ) (n i : ℕ) → get_or (xs ++ replicate n 0) i 0 ≡ get_or xs i 0
get_or-append-zeros [] n i = get_or-replicate n i
get_or-append-zeros (x ∷ xs) n zero = refl
get_or-append-zeros (x ∷ xs) n (suc i) = get_or-append-zeros xs n i

get_or_end : (xs : List ℕ) (i : ℕ) → length xs ≤ i → get_or xs i 0 ≡ 0
get_or_end [] i h = refl
get_or_end (x ∷ xs) zero h = ground arith
get_or_end (x ∷ xs) (suc i) h = get_or_end xs i (omega arith)

get_or-grown : (mem : List ℕ) (n i : ℕ) → get_or (grown mem n) i 0 ≡ get_or mem i 0
unfolding grown resize
get_or-grown mem n i = ground (arith, get_or-append-zeros mem (n - length mem) i)

-- how many bytes there are to copy
copy_size_lem :
    (n b c : ℕ)
    → n < 2 ^ 64
    → (copy_size n b c ≤ c)
      × ((copy_size n b c < c) → (n ≤ b + copy_size n b c))
      × ((0 < copy_size n b c) → (b % 2 ^ 64 ≡ b) × (b + copy_size n b c ≤ n))
unfolding copy_size
copy_size_lem n b c h = ground arith

-- the first write, of `k` bytes of the source
copied_part :
    (source : List ℕ) (a b k : ℕ) (mem : List ℕ) (j : ℕ)
    → a + k ≤ length mem
    → (0 < k → b + k ≤ length source)
    → get_or (if ltb 0 k then write_at mem a (slice source b k) else mem) j 0
      ≡ (if leb a j && ltb j (a + k) then get_or source (b + (j - a)) 0 else get_or mem j 0)
copied_part source a b k mem j fits inside = elim (Bool-cases (ltb 0 k)) [
  | inl some_bytes ↦
      let e : length (slice source b k) ≡ k = length-slice source b k (inside (ground arith)) in
      let w = get_or-write_at mem a (slice source b k) j (omega (arith, e)) in
      ground (arith, w, e, get_or-slice source b k (j - a))
  | inr none_at_all ↦ ground arith
]

-- the second write, of zeros
zero_part :
    (a k c : ℕ) (mem : List ℕ) (j : ℕ)
    → a + c ≤ length mem
    → k ≤ c
    → get_or (if ltb k c then write_at mem (a + k) (replicate (c - k) 0) else mem) j 0
      ≡ (if leb (a + k) j && ltb j (a + c) then 0 else get_or mem j 0)
zero_part a k c mem j fits le =
    let e : length (replicate {A = ℕ} (c - k) 0) ≡ c - k = length-replicate {A = ℕ} (c - k) 0 in
    let w = get_or-write_at mem (a + k) (replicate (c - k) 0) j in
    ground (arith, w (omega (arith, e)), e, get_or-replicate (c - k) (j - (a + k)))

-- Where the area of `c` bytes from `a` on lies in the memory, and `a`, `c` and the length of the
-- source are below 2^64, `copyDataToMemory` fills the area with the bytes of `source` from `b` on,
-- and with zeros where the source has ended; the other bytes of the memory stay.
pub copy_data_to_memory_lem :
    (source : List ℕ) (a b c : ℕ) (mem : List ℕ) (j : ℕ)
    → length source < 2 ^ 64
    → a < 2 ^ 64
    → c < 2 ^ 64
    → a + c ≤ length mem
    → get_or (copy_data_to_memory source a b c mem) j 0
      ≡ (if leb a j && ltb j (a + c) then get_or source (b + (j - a)) 0 else get_or mem j 0)
unfolding copy_data_to_memory
copy_data_to_memory_lem source a b c mem j h ha hc fits =
    let k = copy_size (length source) b c in
    let (le, ended, inside) = copy_size_lem (length source) b c h in
    let ea : a % 2 ^ 64 ≡ a = omega arith in
    let ec : c % 2 ^ 64 ≡ c = omega arith in
    let mem1 = if ltb 0 k then write_at mem a (slice source (b % 2 ^ 64) k) else mem in
    let e1 : length mem1 ≡ length mem =
      ground (arith, length-write_at mem a (slice source (b % 2 ^ 64) k)) in
    let p = copied_part source a (b % 2 ^ 64) k mem j (omega arith) (λ z. ground arith) in
    let q = zero_part a k c mem1 j (omega arith) le in
    rw ea (rw ec (q ∙ ground (arith, p, get_or_end source (b + (j - a)))))

slice-grown :
    (mem : List ℕ) (n o : ℕ) → o + 32 ≤ length mem → slice (grown mem n) o 32 ≡ slice mem o 32
slice-grown mem n o h =
    let l = length-grown mem n in
    let e = length-slice mem o 32 h in
    list-ext (slice (grown mem n) o 32) (slice mem o 32)
      (omega (arith, length-slice (grown mem n) o 32, e, l))
      λ j k. omega (
        arith,
        get_or-slice mem o 32 j (omega (arith, e)),
        get_or-slice (grown mem n) o 32 j (omega (arith, e)),
        get_or-grown mem n (o + j),
      )

module _ {W : Type 0} where
  mstore_lem :
      (s t : Vm W)
      → arg s 0 < 2 ^ 32
      → case_mstore s ≡ ok tt t
      → (slice t.mem (arg s 0) 32 ≡ to_bytes 32 (arg s 1)) × (arg s 0 + 32 ≤ length t.mem)
  unfolding case_mstore
  mstore_lem s t lt h =
      after_shape (arg s 0 + 32) s t (grow_to (arg s 0) 32 s) _
        (λ u. grow_to_shape (arg s 0) 32 s u (omega arith)) h
        λ r n h1 k w.
          let bs = to_bytes 32 (arg s 1) in
          let g = grown s.mem n in
          let e : arg s 0 % 2 ^ 32 ≡ arg s 0 = omega arith in
          let back = slice-write_at g (arg s 0) bs in
          ground (
            arith,
            back,
            e,
            length-to_bytes 32 (arg s 1),
            length-grown s.mem n,
            length-write_at g (arg s 0) bs,
          )

  mload_lem :
      (s t : Vm W)
      → arg s 0 < 2 ^ 32
      → arg s 0 + 32 ≤ length s.mem
      → case_mload s ≡ ok tt t
      → t.stack t.spp ≡ from_bytes 0 (slice s.mem (arg s 0) 32)
  unfolding case_mload
  mload_lem s t lt fits h =
      after_shape (arg s 0 + 32) s t (grow_to (arg s 0) 32 s) _
        (λ u. grow_to_shape (arg s 0) 32 s u (omega arith)) h
        λ r n h1 k w.
          let e : arg s 0 % 2 ^ 32 ≡ arg s 0 = omega arith in
          ground (arith, e, slice-grown s.mem n (arg s 0) fits)

  -- An MLOAD of the place that an MSTORE has written, with no other write to the memory between them,
  -- gives the stored word, where the offset is below 2^32: beyond it the source cuts the offset off.
  pub mstore-mload :
      (s t u v : Vm W)
      → arg s 0 < 2 ^ 32
      → arg s 1 < 2 ^ 256
      → case_mstore s ≡ ok tt t
      → u.mem ≡ t.mem
      → arg u 0 ≡ arg s 0
      → case_mload u ≡ ok tt v
      → v.stack v.spp ≡ arg s 1
  mstore-mload s t u v lt word_lt h m a h2 =
      let (same, fits) = mstore_lem s t lt h in
      let loaded = mload_lem u v (omega (arith, a)) (omega (arith, a, ap length m, fits)) h2 in
      let e : slice u.mem (arg u 0) 32 ≡ to_bytes 32 (arg s 1) = rw m (rw a same) in
      let n = from_bytes-to_bytes 32 (arg s 1) 0 in loaded ∙ ap (from_bytes 0) e ∙ omega (arith, n)
