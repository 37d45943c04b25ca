-- ===== src/IoChannel/Within/Seeks.antt =====
-- IOChannel_seek (src/IOChannel.c) on a memory channel keeps the position in the block.
use tool_boslib.Base.{
  leb, false, wrap, wrap-InWord, InWord, pos-plus, ◌^◌, ◌<◌, ◌∙◌, ℕ, zero, suc, ◌+◌, ◌-◌, ◌≤◌, ◌≡◌,
  refl, ap, List, length, true, not, ◌||◌, ltb, ok, ◌>>=◌, ℤ, pos, negsuc, ◌+ℤ◌, ltb_ℤ, arith,
  Bool-cases, inl, inr,
}
use tool_boslib.IoChannel.{
  error_eoverflow, error_bndsek, error_bwhesek, is_set, Whence, whence_set, whence_cur, whence_end,
  whence_other, set_error, is_call_allowed, is_error_set,
}
use tool_boslib.IoChannel.Calls.{is_minus_one, seek, seek_flushed, sought}
use tool_boslib.IoChannel.Mem.{
  long_sum, MemChannel, mem, seek_set, seek_cur, seek_back, seek_forward, mem_seek,
}
use tool_boslib.IoChannel.Within.{
  InRange, seek_call, inside, IsWithin, After, After-require, stays, After-flush,
}

module _ (n p : ℕ) (cells : List ℕ) (below : p ≤ n) (whole : length cells ≡ n) where
  sought-IsWithin :
      (r : ℤ × MemChannel) → IsWithin n r.1 → After (λ r. IsWithin n r.1) (sought mem r)
  sought-IsWithin (q, self) h =
      After-require {B = ℤ × MemChannel} (λ r. IsWithin n r.1)
        (not (is_minus_one q) || is_error_set self) (ok (q, self)) h

  -- A place of the block.
  moves :
      (self : MemChannel) (q : ℕ) (offset : ℤ)
      → offset ≡ pos q
      → q ≤ n
      → IsWithin n (record (inside p cells self) { current_index_position = offset })
  moves self q offset e h = record {
    p = q;
    cells = cells;
    at = ap (λ o. record (inside p cells self) { current_index_position = o }) e;
    below = h;
    whole = whole;
  }

  seek_set-IsWithin :
      (self : MemChannel) (offset : ℤ) → IsWithin n (seek_set (inside p cells self) offset).1
  unfolding seek_set
  seek_set-IsWithin self (negsuc m) =
      let refused : ltb (length cells + suc m) 0 || ltb 0 (0 + suc m) ≡ true = ground arith in
      rw refused (stays n p cells below whole (set_error error_eoverflow self))
  seek_set-IsWithin self (pos q) =
      elim (Bool-cases (ltb (length cells + 0) (q + 0) || ltb (q + 0) 0)) [
        | inl refused ↦ rw refused (stays n p cells below whole (set_error error_eoverflow self))
        | inr taken ↦ rw taken (moves self q (pos q) refl (ground arith))
      ]

  -- Behind the position, and in front of it, no sum overflows.
  forward_sum : (m : ℕ) → n + suc m < 2 ^ 63 → long_sum (pos p) (pos (suc m)) ≡ pos (p + suc m)
  unfolding long_sum
  forward_sum m fits =
      ap (wrap 64) (pos-plus p (suc m))
      ∙ wrap-InWord 64 (pos (p + suc m)) (omega (arith, fits, below))

  back_sum : (m : ℕ) → (n < 2 ^ 63) × (m < 2 ^ 63) → long_sum (pos p) (negsuc m) ≡ pos p +ℤ negsuc m
  unfolding long_sum
  back_sum m fits = elim (Bool-cases (leb (0 + suc m) (p + 0))) [
    | inl near ↦ rw near (wrap-InWord 64 (pos (p + 0 - (0 + suc m))) (omega (arith, fits.0, below)))
    | inr far ↦ rw far (wrap-InWord 64 (negsuc (0 + suc m - (p + 0) - 1)) (omega (arith, fits.1)))
  ]

  no_unget : (offset : ℤ) → InWord 64 offset → long_sum offset (pos 0) ≡ offset
  unfolding long_sum
  no_unget (pos m) fits =
      ap (wrap 64) (pos-plus m 0 ∙ ap pos (omega arith)) ∙ wrap-InWord 64 (pos m) fits
  no_unget (negsuc m) fits =
      let below_0 : leb (suc m + 0) 0 ≡ false = ground arith in
      let same : suc m + 0 - 0 - 1 ≡ m = omega arith in
      rw below_0 (rw same (wrap-InWord 64 (negsuc m) fits))

  seek_cur-IsWithin :
      (self : MemChannel) (offset : ℤ) (whence : Whence)
      → InRange n (seek_call offset whence)
      → IsWithin n (seek_cur (inside p cells self) offset).1
  unfolding seek_cur seek_back seek_forward
  seek_cur-IsWithin self (pos zero) whence fits = stays n p cells below whole self
  seek_cur-IsWithin self (pos (suc m)) whence fits =
      let sum = forward_sum m fits in
      let offset_sum = no_unget (pos (suc m)) (omega (arith, fits)) in
      elim (Bool-cases (ltb_ℤ (pos (length cells)) (pos (p + suc m)))) [
        | inl refused ↦
            rw (sum, refused) (stays n p cells below whole (set_error error_eoverflow self))
        | inr taken ↦
            rw (offset_sum, sum, taken)
              (moves self (p + suc m) (pos (p + suc m)) refl (ground arith))
      ]
  seek_cur-IsWithin self (negsuc m) whence fits =
      let sum = back_sum m fits in
      let offset_sum = no_unget (negsuc m) (omega (arith, fits.1)) in
      elim (Bool-cases (ltb_ℤ (pos p +ℤ negsuc m) (pos 0))) [
        | inl refused ↦
            rw (sum, refused) (stays n p cells below whole (set_error error_eoverflow self))
        | inr taken ↦
            let there : pos p +ℤ negsuc m ≡ pos (p - suc m) = ground arith in
            rw (offset_sum, sum, taken)
              (moves self (p - suc m) (pos p +ℤ negsuc m) there (omega arith))
      ]

  mem_seek-IsWithin :
      (self : MemChannel) (offset : ℤ) (whence : Whence)
      → InRange n (seek_call offset whence)
      → After (λ r. IsWithin n r.1) (mem_seek (inside p cells self) offset whence >>= sought mem)
  unfolding mem_seek is_set
  mem_seek-IsWithin self offset whence_end fits =
      stays n p cells below whole (set_error error_bndsek self)
  mem_seek-IsWithin self offset whence_other fits =
      stays n p cells below whole (set_error error_bwhesek self)
  mem_seek-IsWithin self offset whence_set fits =
      sought-IsWithin (seek_set (inside p cells self) offset) (seek_set-IsWithin self offset)
  mem_seek-IsWithin self offset whence_cur fits =
      sought-IsWithin (seek_cur (inside p cells self) offset)
        (seek_cur-IsWithin self offset whence_cur fits)

  pub seek-IsWithin :
      (self : MemChannel) (offset : ℤ) (whence : Whence)
      → InRange n (seek_call offset whence)
      → After (λ r. IsWithin n r.1) (seek mem (inside p cells self) offset whence)
  unfolding seek
  seek-IsWithin self offset whence fits =
      After-require (λ r. IsWithin n r.1) self.valid _
        (elim (Bool-cases (is_call_allowed self)) [
          | inl can ↦ rw can (
              After-flush n p cells below whole self (λ r. IsWithin n r.1)
                (seek_flushed mem offset whence) (mem_seek-IsWithin self offset whence fits))
          | inr cannot ↦ rw cannot (stays n p cells below whole self)
        ])
