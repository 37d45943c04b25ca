-- ===== src/HashFunctions/Generic/Content.antt =====
-- HashTable_hashGeneric reads the bytes of the key only.
use tool_boslib.Base.{
  ℕ, zero, suc, ◌+◌, ◌-◌, ◌%◌, ◌^◌, ◌<◌, ◌≡◌, refl, ap, ap₂, ltb, if◌then◌else◌, ◌==◌, arith, inl,
  inr, Bool-cases,
}
use native.Mathlib.Nat.{add_assoc}
use tool_boslib.HashFunctions.{Memory, read8, Lanes, finish, return}
use tool_boslib.HashFunctions.Generic.{
  add_bytes4, add_bytes, add_bytes_down, bytes_tail, hash_bytes, hash_generic, finished,
}
use tool_boslib.HashFunctions.Generic.Agree.{reference, hash_bytes-eq, hash_generic-reference}

-- The `n` bytes at `k` in `m` are those at `k'` in `m'`.
abbrev pub SameBytes : Memory → ℕ → Memory → ℕ → ℕ → Type 0
SameBytes m k m' k' n = (i : ℕ) → i < n → read8 m (k + i) ≡ read8 m' (k' + i)

module _ (m m' : Memory) where
  SameBytes-shift :
      (k k' n j l : ℕ)
      → ((i : ℕ) → i < l → j + i < n)
      → SameBytes m k m' k' n
      → SameBytes m (k + j) m' (k' + j) l
  SameBytes-shift k k' n j l h same i lt =
      rw (add_assoc k j i, add_assoc k' j i) (same (j + i) (h i lt))

  add_bytes_down_congr :
      (p p' j x : ℕ) → SameBytes m p m' p' j → add_bytes_down m p j x ≡ add_bytes_down m' p' j x
  unfolding add_bytes_down
  add_bytes_down_congr p p' zero x same = refl
  add_bytes_down_congr p p' (suc j) x same =
      rw (same j (omega arith)) (add_bytes_down_congr p p' j _ (λ i h. same i (omega arith)))

  add_bytes4_congr : (p p' x : ℕ) → SameBytes m p m' p' 4 → add_bytes4 m p x ≡ add_bytes4 m' p' x
  unfolding add_bytes4
  add_bytes4_congr p p' x same = ground (
    arith,
    same 0 (omega arith),
    same 1 (omega arith),
    same 2 (omega arith),
    same 3 (omega arith),
  )

  bytes_tail_congr :
      (k k' n : ℕ) (s : Lanes) → SameBytes m k m' k' n → bytes_tail m k n s ≡ bytes_tail m' k' n s
  unfolding bytes_tail
  bytes_tail_congr k k' n s same =
      ap₂
        (λ ab c.
          if n == 0
          then return s.c
          else if ltb 12 n
          then finish s
          else finish (record { a = ab.0; b = ab.1; c = c }))
        (ap₂ {C = ℕ × ℕ} (λ a b. (a, b))
          (add_bytes_down_congr k k' _ s.a (λ i h. same i (ground arith)))
          (add_bytes_down_congr (k + 4) (k' + 4) _ s.b
            (SameBytes-shift k k' n 4 _ (λ i h. ground arith) same)))
        (add_bytes_down_congr (k + 8) (k' + 8) _ s.c
          (SameBytes-shift k k' n 8 _ (λ i h. omega arith) same))

  add_bytes_congr :
      (k k' : ℕ) (s : Lanes) → SameBytes m k m' k' 12 → add_bytes m k s ≡ add_bytes m' k' s
  unfolding add_bytes
  add_bytes_congr k k' s same = rw (
    add_bytes4_congr k k' s.a (λ i h. same i (omega arith)),
    add_bytes4_congr (k + 4) (k' + 4) s.b (SameBytes-shift k k' 12 4 4 (λ i h. omega arith) same),
    add_bytes4_congr (k + 8) (k' + 8) s.c (SameBytes-shift k k' 12 8 4 (λ i h. omega arith) same),
  )

  hash_bytes_congr :
      (f k k' n : ℕ) (s : Lanes)
      → SameBytes m k m' k' n
      → hash_bytes m f k n s ≡ hash_bytes m' f k' n s
  unfolding hash_bytes
  hash_bytes_congr zero k k' n s same = bytes_tail_congr k k' n s same
  hash_bytes_congr (suc f) k k' n s same = elim (Bool-cases (ltb 12 n)) [
    | inl more ↦
        rw (more, add_bytes_congr k k' s (λ i h. same i (ground arith)))
          (hash_bytes_congr f (k + 12) (k' + 12) (n - 12) _
            (SameBytes-shift k k' n 12 _ (λ i h. omega arith) same))
    | inr last ↦ rw last (bytes_tail_congr k k' n s same)
  ]

-- Keys that hold the same bytes have the same hash, wherever they lie and however they are aligned, and
-- whatever stands behind them in memory.
pub hash_generic-content :
    (m m' : Memory) (key key' length init_val : ℕ)
    → SameBytes m key m' key' length
    → hash_generic m key length init_val ≡ hash_generic m' key' length init_val
unfolding reference
hash_generic-content m m' key key' length init_val same =
    let x = (0xdeadbeef + length + init_val) % 2 ^ 32 in
    let s : Lanes = record { a = x; b = x; c = x } in
    rw
      (
        hash_generic-reference m length key length init_val (omega arith),
        hash_generic-reference m' length key' length init_val (omega arith),
        ← hash_bytes-eq m length key length s,
        ← hash_bytes-eq m' length key' length s,
      )
      (ap finished (hash_bytes_congr m m' length key key' length s same))
