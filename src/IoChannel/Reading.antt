-- ===== src/IoChannel/Reading.antt =====
-- IOChannel_read of src/IOChannel.c over the memory stream of src/IOChannelGenericMem.c.
use native.Mathlib.Decide.{dec_lt}
use tool_boslib.Base.{
  ℕ, zero, suc, ◌+◌, ◌-◌, ◌≤◌, ◌<◌, ◌≡◌, refl, sym, ap, ◌∙◌, min, List, [], take, drop, length,
  length-drop, take-min, true, false, ltb, ◌==◌, if◌then◌else◌, ok, exit, ◌>>=◌, Returns, pos, ◌+ℤ◌,
  pos-plus, Option, none, some, arith, Bool-cases, ◌⊎◌, inl, inr,
}
use tool_boslib.IoChannel.{error_none, is_set, is_w_only, is_r_only, set_eof}
use tool_boslib.IoChannel.Calls.{read_internal, read_rest, read_on, flush, read}
use tool_boslib.IoChannel.Mem.{MemChannel, mem, n_bytes, mark_end, read_at, mem_read}

-- An open channel without an error, at position `p` of the block `cells`, with nothing put back and no
-- buffer to write from.
abbrev pub ready : ℕ → List ℕ → MemChannel → MemChannel
ready p cells self = record self {
  valid = true;
  is_open = true;
  uses_write_buffering = false;
  error_type = error_none;
  unget_buffer = record self.unget_buffer { bytes = [] };
  current_index_position = pos p;
  stream = record self.stream { ptr = some cells; size = length cells };
}

abbrev pub IsReady : ℕ → List ℕ → MemChannel → Type 0
IsReady p cells self = self ≡ ready p cells self

-- The channel after the stream gave `n` of the bytes that were asked for.
abbrev pub after_read : MemChannel → ℕ → ℕ → ℕ → MemChannel
after_read self p size n =
    let s = mark_end self p size in
    record s {
      current_index_position = s.current_index_position +ℤ pos n;
      rd_deployed_bytes = s.rd_deployed_bytes + n;
      rd_bytes_from_last_write = s.rd_bytes_from_last_write + (0 + n);
    }

module _ (self : MemChannel) (p : ℕ) (cells : List ℕ) where
  -- Before its transfer, a read on such a channel changes nothing.
  read_internal-runs :
      (n : ℕ)
      → read_internal mem (suc n) (ready p cells self)
        ≡ (mem_read (ready p cells self) (suc n) >>= read_on mem [])
  unfolding read_internal flush
  read_internal-runs n = elim (Bool-cases (is_r_only self.mode.access)) [
    | inl readable ↦ rw readable rest
    | inr writable ↦ rw writable rest
  ]
    where
      rest :
          read_rest mem (suc n) ([], ready p cells self)
          ≡ (mem_read (ready p cells self) (suc n) >>= read_on mem [])
      rest =
          let asked : suc n - 0 ≡ suc n = omega arith in
          let more : suc n - 0 == 0 ≡ false = ground arith in rw (more, asked) refl

  read-runs :
      (n : ℕ)
      → is_w_only self.mode.access ≡ false
      → read mem (ready p cells self) (suc n)
        ≡ (mem_read (ready p cells self) (suc n) >>= read_on mem [])
  unfolding read is_set
  read-runs n readable = rw readable (read_internal-runs n)

  mem_read-within :
      (size : ℕ)
      → 0 < size
      → p < length cells
      → mem_read (ready p cells self) size
        ≡ ok (
          some (min size (length cells - p)),
          take size (drop p cells),
          mark_end (ready p cells self) p size,
        )
  unfolding mem_read read_at
  mem_read-within size some_asked h =
      let asked : ltb 0 size ≡ true = ground arith in
      let within : ltb (p + 0) (length cells + 0) ≡ true = ground arith in
      let n : n_bytes (ready p cells self) p size ≡ min size (length cells - p) = ground arith in
      let bytes : take (min size (length cells - p)) (drop p cells) ≡ take size (drop p cells) =
        ap (λ k. take (min size k) (drop p cells)) (sym (length-drop p cells))
        ∙ take-min size (drop p cells) in
      rw (asked, within, n, bytes) refl

  mem_read-beyond :
      (size : ℕ)
      → 0 < size
      → length cells ≤ p
      → mem_read (ready p cells self) size ≡ ok (none, [], set_eof (ready p cells self))
  unfolding mem_read
  mem_read-beyond size some_asked h =
      let asked : ltb 0 size ≡ true = ground arith in
      let beyond : ltb (p + 0) (length cells + 0) ≡ false = ground arith in rw (asked, beyond) refl

-- What a read gives at a position within the block: the bytes from there on, as many as there are up to
-- the size, and the end where they are fewer.
unfoldable pub Gives : ℕ → List ℕ → ℕ → MemChannel → Option ℕ × List ℕ × MemChannel → Type 0
Gives p cells size self r =
    (r.0 ≡ some (min size (length cells - p)))
    × (r.1 ≡ take size (drop p cells))
    × IsReady (p + min size (length cells - p)) cells r.2
    × (r.2.found_eof ≡ (if ltb (length cells) (p + size) then true else self.found_eof))

-- IOChannel_read of some bytes, on an open memory channel without an error that may be read and has
-- nothing put back and no buffer to write from, gives within the block the bytes from the position on,
-- as many as there are, and marks the end if they are fewer than asked for. At the end of the block it
-- does not return: the stream gives -1 without an error, and the check for an error ends the process.
pub read-Gives :
    (self : MemChannel) (p size : ℕ) (cells : List ℕ)
    → IsReady p cells self
    → is_w_only self.mode.access ≡ false
    → 0 < size
    → ((p < length cells) × Returns (read mem self size) (Gives p cells size self))
      ⊎ ((length cells ≤ p) × (read mem self size ≡ exit))
unfolding Gives is_set
read-Gives self p zero cells h readable some_asked = absurd (omega arith)
read-Gives self p (suc n) cells h readable some_asked = elim (dec_lt p (length cells)) [
  | yes within ↦ inl (
    within,
    (
      _,
      ap (λ s. read mem s (suc n)) h
          ∙ read-runs self p cells n readable
          ∙ ap (λ c. c >>= read_on mem []) (mem_read-within self p cells (suc n) some_asked within),
      read_on-Gives,
    ),
  )
  | no beyond ↦ inr (
    omega arith,
    ap (λ s. read mem s (suc n)) h
        ∙ read-runs self p cells n readable
        ∙ ap (λ c. c >>= read_on mem [])
            (mem_read-beyond self p cells (suc n) some_asked (omega arith)),
  )
]
  where
    k : ℕ
    k = min (suc n) (length cells - p)

    read_on-Gives :
        Gives p cells
          (suc n)
          self
          (some (0 + k), take (suc n) (drop p cells), after_read (ready p cells self) p (suc n) k)
    read_on-Gives =
        let first : 0 + k ≡ k = omega arith in
        (
          ap some first,
          refl,
          ap
              (λ q. record (after_read (ready p cells self) p (suc n) k) {
                current_index_position = q;
              })
              (pos-plus p k),
          refl,
        )
