-- ===== src/IoChannel/Within/Transfers.antt =====
-- IOChannel_read and IOChannel_write (src/IOChannel.c) on a memory channel move the position within the block.
use tool_boslib.Base.{
  ℕ, zero, suc, ◌+◌, ◌-◌, ◌≤◌, ◌≡◌, sym, ap, ap₂, ◌∙◌, List, [], ◌∷◌, take, length, length-take,
  true, false, ltb, ◌==◌, if◌then◌else◌, ok, ◌>>=◌, ℤ, pos-plus, Option, none, some, arith,
  Bool-cases, inl, inr,
}
use tool_boslib.IoChannel.{
  error_accv, is_set, is_w_only, is_r_only, index, whence_cur, set_error, set_eof,
}
use tool_boslib.IoChannel.Calls.{
  negated, no_bytes, read_internal, read_flushed, read_rest, read_on, flush, read, write_internal,
  written, drop_unget, discard, write, seek,
}
use tool_boslib.IoChannel.Mem.{
  MemChannel, mem, n_bytes, mark_end, read_at, mem_read, patch, write_at, mem_write,
}
use tool_boslib.IoChannel.Reading.{after_read}
use tool_boslib.IoChannel.RoundTrip.{length-patch}
use tool_boslib.IoChannel.Within.{
  inside, IsWithin, After, After-require, After-allowed, and-false, stays, After-flush,
}

module _ (n p : ℕ) (cells : List ℕ) (below : p ≤ n) (whole : length cells ≡ n) where
  mem_read-IsWithin :
      (self : MemChannel) (size : ℕ)
      → After (λ r. IsWithin n r.2) (mem_read (inside p cells self) size >>= read_on mem [])
  unfolding mem_read read_at
  mem_read-IsWithin self size = elim (Bool-cases (ltb 0 size)) [
    | inl asked ↦ elim (Bool-cases (ltb (p + 0) (length cells + 0))) [
      | inl inner ↦
          let k = n_bytes (inside p cells self) p size in
          rw (asked, inner)
            (record {
              p = p + k;
              cells = cells;
              at =
                  ap
                    (λ q. record (after_read (inside p cells self) p size k) {
                      current_index_position = q;
                    })
                    (pos-plus p k);
              below = ground arith;
              whole = whole;
            })
      | inr at_end ↦
          rw (asked, at_end)
            (After-require _ (is_set self.error_type) _
              (stays n p cells below whole (set_eof self)))
    ]
    | inr nothing ↦ rw nothing tt
  ]

  read_internal-IsWithin :
      (self : MemChannel) (size : ℕ)
      → After (λ r. IsWithin n r.2) (read_internal mem size (inside p cells self))
  unfolding read_internal flush
  read_internal-IsWithin self zero = stays n p cells below whole self
  read_internal-IsWithin self (suc size) = elim (Bool-cases (is_r_only self.mode.access)) [
    | inl only ↦ rw only transfer
    | inr both ↦ rw both (
        After-flush n p cells below whole self (λ r. IsWithin n r.2) (read_flushed mem (suc size))
          transfer)
  ]
    where
      transfer : After (λ r. IsWithin n r.2) (read_rest mem (suc size) ([], inside p cells self))
      transfer =
          let asked : suc size - 0 ≡ suc size = omega arith in
          let more : suc size - 0 == 0 ≡ false = ground arith in
          rw (more, asked) (mem_read-IsWithin self (suc size))

  drop_unget-inside :
      (self : MemChannel) → drop_unget mem (inside p cells self) ≡ ok (true, inside p cells self)
  unfolding drop_unget
  drop_unget-inside self =
      ap
        (λ b.
          if b
          then seek mem (inside p cells self) (negated 0) whence_cur >>= discard mem
          else ok (true, inside p cells self))
        (and-false (ltb 0 (index self.write_buffer)))

  mem_write-IsWithin :
      (self : MemChannel) (bytes : List ℕ)
      → After (λ r. IsWithin n r.1) (mem_write (inside p cells self) bytes >>= written mem)
  unfolding mem_write write_at
  mem_write-IsWithin self bytes = elim (Bool-cases (ltb 0 (length bytes))) [
    | inl asked ↦ elim (Bool-cases (ltb (p + 0) (length cells + 0))) [
      | inl inner ↦
          let k = n_bytes (inside p cells self) p (length bytes) in
          let part = take k bytes in
          let few : length part ≡ k = length-take k bytes (ground arith) in
          let fits : length (patch p part cells) ≡ length cells =
            length-patch p part cells (ground (arith, few)) in
          rw (asked, inner)
            (record {
              p = p + k;
              cells = patch p part cells;
              at =
                  ap₂ (λ q m. after_write self (length bytes) k part q m) (pos-plus p k) (sym fits);
              below = ground arith;
              whole = fits ∙ whole;
            })
      | inr at_end ↦
          rw (asked, at_end)
            (After-require _ (is_set self.error_type) _
              (stays n p cells below whole (set_eof self)))
    ]
    | inr nothing ↦ rw nothing tt
  ]
    where
      after_write : MemChannel → ℕ → ℕ → List ℕ → ℤ → ℕ → MemChannel
      after_write s size k part q m =
          let r = mark_end (inside p cells s) p size in
          record r {
            rd_bytes_from_last_write = 0;
            wr_deployed_bytes = r.wr_deployed_bytes + k;
            current_index_position = q;
            stream = record s.stream { ptr = some (patch p part cells); size = m };
          }

  write_internal-IsWithin :
      (self : MemChannel) (bytes : Option (List ℕ))
      → After (λ r. IsWithin n r.1) (write_internal mem bytes (inside p cells self))
  unfolding write_internal
  write_internal-IsWithin self none = stays n p cells below whole self
  write_internal-IsWithin self (some []) = stays n p cells below whole self
  write_internal-IsWithin self (some (b ∷ bytes)) =
      rw (drop_unget-inside self) (mem_write-IsWithin self (b ∷ bytes))

  pub read-IsWithin :
      (self : MemChannel) (size : ℕ)
      → After (λ r. IsWithin n r.2) (read mem (inside p cells self) size)
  unfolding read
  read-IsWithin self size =
      After-require (λ r. IsWithin n r.2) self.valid _
        (After-allowed (λ r. IsWithin n r.2) (inside p cells self) (is_w_only self.mode.access)
          (set_error error_accv (inside p cells self)) (read_internal mem size) (no_bytes mem)
          (read_internal-IsWithin self size)
          (stays n p cells below whole (set_error error_accv self))
          (stays n p cells below whole self))

  pub write-IsWithin :
      (self : MemChannel) (bytes : Option (List ℕ))
      → After (λ r. IsWithin n r.1) (write mem (inside p cells self) bytes)
  unfolding write
  write-IsWithin self bytes =
      After-require (λ r. IsWithin n r.1) self.valid _
        (After-allowed (λ r. IsWithin n r.1) (inside p cells self) (is_r_only self.mode.access)
          (set_error error_accv (inside p cells self)) (write_internal mem bytes) (λ s. (none, s))
          (write_internal-IsWithin self bytes)
          (stays n p cells below whole (set_error error_accv self))
          (stays n p cells below whole self))
