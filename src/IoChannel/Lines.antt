-- ===== src/IoChannel/Lines.antt =====
-- src/IOChannel.c: the calls that read and write byte by byte or block by block.
use tool_boslib.Base.{
  ℕ, zero, suc, ◌-◌, List, [], ◌∷◌, ◌++◌, drop, length, ◌||◌, ltb, ◌==◌, if◌then◌else◌, Run, ok,
  exit, ◌>>=◌, ◌>>◌, require, ℤ, pos, negsuc, Option, none, some,
}
use tool_boslib.IoChannel.{Channel, Stream, is_error_set, is_not_wr_only, is_not_rd_only, eof}
use tool_boslib.IoChannel.Calls.{allowed, read_internal, write_internal}

-- `(int)ch` of a signed char
abbrev pub char_value : ℕ → ℤ
char_value b = if ltb b 128 then pos b else negsuc (255 - b)

-- The variable `ch` after a read of one byte.
abbrev pub head : List ℕ → ℕ
head [] = 0
head (b ∷ bytes) = b

module _ {S : Type 0} (io : Stream S) where
  -- What a read of one byte gives: an error, the end, or a byte.
  abbrev pub got : Option ℕ × List ℕ × Channel S → Run (ℤ × Channel S)
  got (none, bytes, self) = do require (is_error_set self); ok (negsuc 0, self)
  got (some zero, bytes, self) = do at_end ← eof self; require at_end; ok (pos 0, self)
  got (some (suc n), bytes, self) = ok (char_value (head bytes), self)

  unfoldable pub getc : Channel S → Run (ℤ × Channel S)
  getc self = do
    require self.valid
    allowed self (is_not_wr_only self) (λ s. read_internal io 1 s >>= got) (λ s. (negsuc 0, s))

  abbrev pub put_result : Option ℕ × Channel S → Run (Option ℕ × Channel S)
  put_result (none, self) = do require (is_error_set self); ok (none, self)
  put_result (some zero, self) = do at_end ← eof self; require at_end; ok (some 0, self)
  put_result (some (suc n), self) = ok (some (suc n), self)

  unfoldable pub putc : Channel S → ℕ → Run (Option ℕ × Channel S)
  putc self ch = do
    require self.valid
    allowed self (is_not_rd_only self) (λ s. write_internal io (some (ch ∷ [])) s >>= put_result)
        (λ s. (none, s))

  -- Behind a byte that is stored: the bytes and the result of the rest of the line.
  abbrev pub store_byte : ℕ → Option ℕ × List ℕ × Channel S → Run (Option ℕ × List ℕ × Channel S)
  store_byte b (r, line, self) = ok (r, b ∷ line, self)

  -- The body of the loop of `gets`, where `rest` is the loop from the next byte on.
  abbrev pub get_line :
      (Channel S → Run (Option ℕ × List ℕ × Channel S))
      → Option ℕ × List ℕ × Channel S
      → Run (Option ℕ × List ℕ × Channel S)
  get_line rest (none, bytes, self) = do require (is_error_set self); ok (none, [], self)
  get_line rest (some zero, bytes, self) = do
    at_end ← eof self
    require at_end
    ok (some 0, [], self)
  get_line rest (some (suc n), bytes, self) =
      if head bytes == 10
      then ok (some (suc n), [], self)
      else rest self >>= store_byte (head bytes)

  unfoldable pub get_bytes : ℕ → Channel S → Run (Option ℕ × List ℕ × Channel S)
  get_bytes zero self = ok (some 1, [], self)
  get_bytes (suc left) self = read_internal io 1 self >>= get_line (get_bytes left)

  -- The number of bytes before the terminator, unless the last read failed, and all bytes that are written
  -- to the caller's buffer, the terminator included.
  abbrev pub terminated : Option ℕ × List ℕ × Channel S → Run (Option ℕ × List ℕ × Channel S)
  terminated (none, line, self) = ok (none, line ++ 0 ∷ [], self)
  terminated (some n, line, self) = ok (some (length line), line ++ 0 ∷ [], self)

  unfoldable pub gets : Channel S → ℕ → Run (Option ℕ × List ℕ × Channel S)
  gets self size = do
    require self.valid
    require (ltb 0 size)
    allowed self (is_not_wr_only self) (λ s. get_bytes size s >>= terminated) (λ s. (none, [], s))

  -- The body of the loop of `puts`: the number of bytes written before counts as `n`.
  abbrev pub put_line :
      ℕ
      → (Channel S → Run (Option ℕ × Channel S))
      → Option ℕ × Channel S
      → Run (Option ℕ × Channel S)
  put_line n rest (none, self) = do require (is_error_set self); ok (none, self)
  put_line n rest (some zero, self) = do at_end ← eof self; require at_end; ok (some n, self)
  put_line n rest (some (suc k), self) = rest self

  -- Up to a byte 0 or the end of the buffer. With no byte before it, the result is the -1 that it starts
  -- with.
  unfoldable pub put_bytes : ℕ → List ℕ → Channel S → Run (Option ℕ × Channel S)
  put_bytes zero [] self = ok (none, self)
  put_bytes (suc n) [] self = ok (some (suc n), self)
  put_bytes zero (zero ∷ bytes) self = ok (none, self)
  put_bytes (suc n) (zero ∷ bytes) self = ok (some (suc n), self)
  put_bytes n (suc b ∷ bytes) self =
      write_internal io (some (suc b ∷ [])) self >>= put_line n (put_bytes (suc n) bytes)

  unfoldable pub puts : Channel S → List ℕ → Run (Option ℕ × Channel S)
  puts self bytes = do
    require self.valid
    require (ltb 0 (length bytes))
    allowed self (is_not_rd_only self) (put_bytes 0 bytes) (λ s. (none, s))

  -- One round of a block call. It ends the loop at an error or the end, with the bytes still to go as they
  -- were before the round.
  abbrev pub next_block :
      ℕ
      → (ℕ → Channel S → Run (ℕ × List ℕ × Channel S))
      → Option ℕ × List ℕ × Channel S
      → Run (ℕ × List ℕ × Channel S)
  next_block left rest (none, bytes, self) = ok (left, bytes, self)
  next_block left rest (some n, bytes, self) = do
    at_end ← eof self
    if at_end || is_error_set self
        then ok (left, bytes, self)
        else (do (left', bytes', s) ← rest (left - n) self; ok (left', bytes ++ bytes', s))

  -- The loop over the bytes to go; a stream that gives 0 bytes and no end keeps it going, until the fuel
  -- is used up.
  unfoldable pub read_blocks : ℕ → ℕ → Channel S → Run (ℕ × List ℕ × Channel S)
  read_blocks fuel zero self = ok (0, [], self)
  read_blocks zero (suc left) self = exit
  read_blocks (suc fuel) (suc left) self =
      read_internal io (suc left) self >>= next_block (suc left) (read_blocks fuel)

  -- The number of bytes read, and all bytes that were stored.
  abbrev pub read_count : ℕ → ℕ × List ℕ × Channel S → Run (ℕ × List ℕ × Channel S)
  read_count size (left, bytes, self) = ok (size - left, bytes, self)

  unfoldable pub read_block : ℕ → Channel S → ℕ → Run (ℕ × List ℕ × Channel S)
  read_block fuel self size = do
    require self.valid
    allowed self (is_not_wr_only self) (λ s. read_blocks fuel size s >>= read_count size)
        (λ s. (0, [], s))

  abbrev pub next_write :
      List ℕ
      → (List ℕ → Channel S → Run (List ℕ × Channel S))
      → Option ℕ × Channel S
      → Run (List ℕ × Channel S)
  next_write left rest (none, self) = ok (left, self)
  next_write left rest (some n, self) = do
    at_end ← eof self
    if at_end || is_error_set self then ok (left, self) else rest (drop n left) self

  unfoldable pub write_blocks : ℕ → List ℕ → Channel S → Run (List ℕ × Channel S)
  write_blocks fuel [] self = ok ([], self)
  write_blocks zero (b ∷ left) self = exit
  write_blocks (suc fuel) (b ∷ left) self =
      write_internal io (some (b ∷ left)) self >>= next_write (b ∷ left) (write_blocks fuel)

  abbrev pub write_count : ℕ → List ℕ × Channel S → Run (ℕ × Channel S)
  write_count size (left, self) = ok (size - length left, self)

  unfoldable pub write_block : ℕ → Channel S → List ℕ → Run (ℕ × Channel S)
  write_block fuel self bytes = do
    require self.valid
    allowed self (is_not_rd_only self)
        (λ s. write_blocks fuel bytes s >>= write_count (length bytes)) (λ s. (0, s))
