-- ===== src/IoChannel/Calls.antt =====
-- src/IOChannel.c: reading, writing, seeking and putting back, over the stream of an interface.
use tool_boslib.Base.{
  ℕ, zero, suc, ◌+◌, ◌-◌, min, List, [], ◌∷◌, ◌++◌, take, drop, length, Bool, true, false, not,
  ◌&&◌, ◌||◌, leb, ltb, ◌==◌, if◌then◌else◌, Run, ok, ◌>>=◌, ◌>>◌, require, ℤ, pos, negsuc, ◌+ℤ◌,
  Option, none, some,
}
use tool_boslib.IoChannel.{
  error_toounget, is_r_only, Whence, whence_set, whence_cur, index, Channel, Stream, set_error,
  is_error_set, is_call_allowed, is_not_wr_only, is_not_rd_only,
}

abbrev pub is_minus_one : ℤ → Bool
is_minus_one (negsuc zero) = true
is_minus_one n = false

-- `-n`
abbrev pub negated : ℕ → ℤ
negated zero = pos 0
negated (suc n) = negsuc n

module _ {S : Type 0} where
  -- The loop runs while `i < size` and `i <= index`, one time too often where `size` is larger than
  -- `index`, and the index is negative then.
  unfoldable pub pop_from_unget_buffer : Channel S → ℕ → Run (List ℕ × Channel S)
  pop_from_unget_buffer self size = do
    let i = min size (index self.unget_buffer + 1)
    require (leb i (index self.unget_buffer))
    let rest = record self.unget_buffer { bytes = drop i self.unget_buffer.bytes }
    ok (take i self.unget_buffer.bytes, record self { unget_buffer = rest })

  unfoldable pub push_into_unget_buffer : Channel S → List ℕ → Run (Option ℕ × Channel S)
  push_into_unget_buffer self buffer = do
    require (ltb 0 (length buffer))
    if leb (index self.unget_buffer + length buffer) self.unget_buffer.size
        then (let more = record self.unget_buffer { bytes = buffer ++ self.unget_buffer.bytes } in
            ok (some (length buffer), record self { unget_buffer = more }))
        else ok (none, set_error error_toounget self)

  -- `if( IOChannel_isCallAllowedCheck( self ) )` around one of the checks of the mode; what a call does,
  -- and what it gives where it is refused.
  abbrev pub allowed :
      {A : Type 0} → Channel S → Bool × Channel S → (Channel S → Run A) → (Channel S → A) → Run A
  allowed self check call refuse =
      if is_call_allowed self
      then (if check.0 then call check.1 else ok (refuse check.1))
      else ok (refuse self)

  -- What IOChannel_unget makes of the result of the push.
  abbrev pub ungotten : Option ℕ × Channel S → Run (Option ℕ × Channel S)
  ungotten (none, self) = do require (is_error_set self); ok (none, self)
  ungotten (some n, self) = ok (
    some n,
    record self {
      rd_bytes_from_last_unget = 0;
      rd_bytes_from_last_write = self.rd_bytes_from_last_write - n;
    },
  )

  unfoldable pub unget_checked : List ℕ → Channel S → Run (Option ℕ × Channel S)
  unget_checked [] self = ok (some 0, self)
  unget_checked (b ∷ bytes) self =
      if ltb self.rd_bytes_from_last_write (length (b ∷ bytes))
      then ok (none, self)
      else push_into_unget_buffer self (b ∷ bytes) >>= ungotten

  unfoldable pub unget : Channel S → List ℕ → Run (Option ℕ × Channel S)
  unget self buffer = do
    require self.valid
    allowed self (is_not_wr_only self) (unget_checked buffer) (λ s. (none, s))

module _ {S : Type 0} (io : Stream S) where
  -- After the call of the interface: the buffer is empty, or there is an error.
  abbrev pub flushed : Option ℕ × Channel S → Run (Option ℕ × Channel S)
  flushed (none, self) = do require (is_error_set self); ok (none, self)
  flushed (some n, self) =
      ok (some n, record self { write_buffer = record self.write_buffer { bytes = [] } })

  unfoldable pub flush : Channel S → Run (Option ℕ × Channel S)
  flush self = do
    require self.valid
    if self.is_open && self.uses_write_buffering && ltb 0 (index self.write_buffer)
        then io.indirect_flush self >>= flushed
        else ok (some 0, self)

  -- The position that the interface gives; -1 comes with an error.
  abbrev pub sought : ℤ × Channel S → Run (ℤ × Channel S)
  sought (q, self) = do require (not (is_minus_one q) || is_error_set self); ok (q, self)

  abbrev pub seek_flushed : ℤ → Whence → Option ℕ × Channel S → Run (ℤ × Channel S)
  seek_flushed offset whence (none, self) = do require (is_error_set self); ok (negsuc 0, self)
  seek_flushed offset whence (some n, self) = io.indirect_seek self offset whence >>= sought

  unfoldable pub seek : Channel S → ℤ → Whence → Run (ℤ × Channel S)
  seek self offset whence = do
    require self.valid
    if is_call_allowed self then flush self >>= seek_flushed offset whence else ok (negsuc 0, self)

  abbrev pub tell : Channel S → Run (ℤ × Channel S)
  tell self = do require self.valid; seek self (pos 0) whence_cur

  abbrev pub is_zero : ℤ → Bool
  is_zero (pos zero) = true
  is_zero n = false

  unfoldable pub rewind : Channel S → Run (Channel S)
  rewind self = do
    require self.valid
    (q, s) ← seek self (pos 0) whence_set
    ok (if is_zero q then record s { found_eof = false } else s)

  abbrev pub reset_indexes : Channel S → Run (Channel S)
  reset_indexes self = do
    require self.valid
    if is_call_allowed self
        then (do
          (_, s) ← flush self
          ok (record s {
            current_index_position = pos 0;
            rd_bytes_from_last_write = 0;
            wr_deployed_bytes = 0;
            rd_deployed_bytes = 0;
          }))
        else ok self

  -- What the stream gives behind the bytes `first` of the unget buffer.
  abbrev pub read_on : List ℕ → Option ℕ × List ℕ × Channel S → Run (Option ℕ × List ℕ × Channel S)
  read_on first (none, bytes, self) = do require (is_error_set self); ok (none, first, self)
  read_on first (some n, bytes, self) = ok (
    some (length first + n),
    first ++ bytes,
    record self {
      current_index_position = self.current_index_position +ℤ pos n;
      rd_deployed_bytes = self.rd_deployed_bytes + n;
      rd_bytes_from_last_write = self.rd_bytes_from_last_write + (length first + n);
    },
  )

  -- The rest of a read, behind the bytes of the unget buffer.
  abbrev pub read_rest : ℕ → List ℕ × Channel S → Run (Option ℕ × List ℕ × Channel S)
  read_rest size (first, self) =
      if size - length first == 0
      then ok (
        some (length first),
        first,
        record self {
          rd_bytes_from_last_unget = self.rd_bytes_from_last_unget + length first;
          rd_bytes_from_last_write = self.rd_bytes_from_last_write + length first;
        },
      )
      else io.indirect_read self (size - length first) >>= read_on first

  abbrev pub read_flushed : ℕ → Option ℕ × Channel S → Run (Option ℕ × List ℕ × Channel S)
  read_flushed size (none, self) = do require (is_error_set self); ok (none, [], self)
  read_flushed size (some n, self) =
      (if ltb 0 (index self.unget_buffer) then pop_from_unget_buffer self size else ok ([], self))
      >>= read_rest size

  -- Result, bytes stored at the buffer, and the channel.
  unfoldable pub read_internal : ℕ → Channel S → Run (Option ℕ × List ℕ × Channel S)
  read_internal zero self = ok (some 0, [], self)
  read_internal (suc n) self =
      (if is_r_only self.mode.access then ok (some 0, self) else flush self)
      >>= read_flushed (suc n)

  abbrev pub no_bytes : Channel S → Option ℕ × List ℕ × Channel S
  no_bytes self = (none, [], self)

  unfoldable pub read : Channel S → ℕ → Run (Option ℕ × List ℕ × Channel S)
  read self size = do
    require self.valid
    allowed self (is_not_wr_only self) (read_internal size) no_bytes

  -- Before a write, where both buffers are used: a seek back over the bytes of the unget buffer.
  abbrev pub discard : ℤ × Channel S → Run (Bool × Channel S)
  discard (q, self) =
      if is_minus_one q
      then (do require (is_error_set self); ok (false, self))
      else ok (true, record self { unget_buffer = record self.unget_buffer { bytes = [] } })

  unfoldable pub drop_unget : Channel S → Run (Bool × Channel S)
  drop_unget self =
      if ltb 0 (index self.write_buffer) && ltb 0 (index self.unget_buffer)
      then seek self (negated (index self.unget_buffer)) whence_cur >>= discard
      else ok (true, self)

  abbrev pub written : Option ℕ × Channel S → Run (Option ℕ × Channel S)
  written (none, self) = do require (is_error_set self); ok (none, self)
  written (some n, self) = ok (
    some n,
    record self {
      rd_bytes_from_last_write = 0;
      wr_deployed_bytes = self.wr_deployed_bytes + n;
      current_index_position = self.current_index_position +ℤ pos n;
    },
  )

  abbrev pub write_on : List ℕ → Bool × Channel S → Run (Option ℕ × Channel S)
  write_on bytes (false, self) = ok (none, self)
  write_on bytes (true, self) = io.indirect_write self bytes >>= written

  -- The buffer is `none` where it is NULL.
  unfoldable pub write_internal : Option (List ℕ) → Channel S → Run (Option ℕ × Channel S)
  write_internal none self = ok (some 0, self)
  write_internal (some []) self = ok (some 0, self)
  write_internal (some (b ∷ bytes)) self = drop_unget self >>= write_on (b ∷ bytes)

  unfoldable pub write : Channel S → Option (List ℕ) → Run (Option ℕ × Channel S)
  write self buffer = do
    require self.valid
    allowed self (is_not_rd_only self) (write_internal buffer) (λ s. (none, s))
