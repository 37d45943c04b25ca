-- ===== src/HashFunctions/Generic/Agree.antt =====
-- The three branches of HashTable_hashGeneric against one another.
use tool_boslib.Base.{ℕ, zero, suc, ◌+◌, ◌-◌, ◌*◌, ◌%◌, ◌^◌, ◌≤◌, ◌≡◌, refl, arith}
use tool_boslib.HashFunctions.{Memory, read8, read16, read32, add32, Lanes, mix}
use tool_boslib.HashFunctions.Generic.{
  add_words, words_tail, hash_words, half_words, add_half_words, half_words_tail, hash_half_words,
  add_bytes4, add_bytes, add_bytes_down, bytes_tail, hash_bytes, hash_generic, finished,
}

module _ (m : Memory) where
  read32-mod :
      (p q : ℕ)
      → q ≡ p + 2
      → (read32 m p % 2 ^ 24 ≡ read16 m p + read8 m q * 2 ^ 16)
        × (read32 m p % 2 ^ 16 ≡ read16 m p)
        × (read32 m p % 2 ^ 8 ≡ read8 m p)
        × (half_words m p ≡ read32 m p)
  unfolding read32 read16 read8 half_words
  read32-mod p q e = rw e (omega arith)

  add_half_words-eq : (k : ℕ) (s : Lanes) → add_half_words m k s ≡ add_words m k s
  unfolding add_half_words add_words
  add_half_words-eq k s = simp (
    (read32-mod k (k + 2) refl).3,
    (read32-mod (k + 4) (k + 4 + 2) refl).3,
    (read32-mod (k + 8) (k + 8 + 2) refl).3,
  )

  half_words_tail-eq : (k n : ℕ) (s : Lanes) → half_words_tail m k n s ≡ words_tail m k n s
  unfolding half_words_tail words_tail
  half_words_tail-eq k n s = ground (
    arith,
    add_half_words-eq k s,
    read32-mod k (k + 2) refl,
    read32-mod (k + 4) (k + 6) (omega arith),
    read32-mod (k + 8) (k + 10) (omega arith),
  )

  add_bytes4-eq : (p x : ℕ) → add_bytes4 m p x ≡ add32 x (read32 m p)
  unfolding add_bytes4 read32 read16
  add_bytes4-eq p x = ground arith

  add_bytes-eq : (k : ℕ) (s : Lanes) → add_bytes m k s ≡ add_words m k s
  unfolding add_bytes add_words
  add_bytes-eq k s = simp add_bytes4-eq

  add_bytes_down-eq :
      (p x : ℕ)
      → (add_bytes_down m p 0 x ≡ x)
        × (add_bytes_down m p 1 x ≡ add32 x (read32 m p % 2 ^ 8))
        × (add_bytes_down m p 2 x ≡ add32 x (read32 m p % 2 ^ 16))
        × (add_bytes_down m p 3 x ≡ add32 x (read32 m p % 2 ^ 24))
        × (add_bytes_down m p 4 x ≡ add32 x (read32 m p))
  unfolding add_bytes_down read32 read16 read8
  add_bytes_down-eq p x = ground arith

  bytes_tail-eq : (k n : ℕ) (s : Lanes) → bytes_tail m k n s ≡ words_tail m k n s
  unfolding bytes_tail words_tail add_words
  bytes_tail-eq k n s =
      ground (
        arith,
        add_bytes_down-eq k s.a,
        add_bytes_down-eq (k + 4) s.b,
        add_bytes_down-eq (k + 8) s.c,
      )

  hash_half_words-eq : (f k n : ℕ) (s : Lanes) → hash_half_words m f k n s ≡ hash_words m f k n s
  unfolding hash_half_words hash_words
  hash_half_words-eq zero k n s = half_words_tail-eq k n s
  hash_half_words-eq (suc f) k n s = rw (
    half_words_tail-eq,
    add_half_words-eq,
    hash_half_words-eq f (k + 12) (n - 12) (mix (add_words m k s)),
  )

  pub hash_bytes-eq : (f k n : ℕ) (s : Lanes) → hash_bytes m f k n s ≡ hash_words m f k n s
  unfolding hash_bytes hash_words
  hash_bytes-eq zero k n s = bytes_tail-eq k n s
  hash_bytes-eq (suc f) k n s =
      rw (bytes_tail-eq, add_bytes-eq, hash_bytes-eq f (k + 12) (n - 12) (mix (add_words m k s)))

  -- A loop that has a round of fuel for every byte stops by its own test: more fuel changes nothing.
  hash_words-fuel :
      (f g k n : ℕ) (s : Lanes) → n ≤ f → n ≤ g → hash_words m f k n s ≡ hash_words m g k n s
  unfolding hash_words
  hash_words-fuel zero zero k n s p q = refl
  hash_words-fuel zero (suc g) k n s p q = ground arith
  hash_words-fuel (suc f) zero k n s p q = ground arith
  hash_words-fuel (suc f) (suc g) k n s p q =
      ground (arith, hash_words-fuel f g (k + 12) (n - 12) (mix (add_words m k s)))

-- The reference: words whatever the alignment, with any fuel from the length on.
unfoldable pub reference : Memory → ℕ → ℕ → ℕ → ℕ → ℕ
unfolding finished hash_words
reference m fuel key length init_val =
    let x = (0xdeadbeef + length + init_val) % 2 ^ 32 in
    finished (hash_words m fuel key length (record { a = x; b = x; c = x }))

-- Whatever the alignment of the key, and so whichever branch runs, hash_generic returns the hash that
-- the loop over words computes, and any fuel from the length on gives that hash.
pub hash_generic-reference :
    (m : Memory) (fuel key length init_val : ℕ)
    → length ≤ fuel
    → hash_generic m key length init_val ≡ reference m fuel key length init_val
unfolding hash_generic reference
hash_generic-reference m fuel key length init_val h =
    let x = (0xdeadbeef + length + init_val) % 2 ^ 32 in
    let s : Lanes = record { a = x; b = x; c = x } in
    ground (
      arith,
      hash_half_words-eq m length key length s,
      hash_bytes-eq m length key length s,
      hash_words-fuel m length fuel key length s (omega arith) h,
    )
