-- ===== src/IoChannel/Mem.antt =====
-- src/IOChannelGenericMem.c and src/IOChannelMem.c: the stream over a block of memory.
use tool_boslib.Base.{
  wrap, ℕ, zero, suc, ◌+◌, ◌-◌, List, [], ◌++◌, take, drop, length, Bool, true, ◌||◌, ltb,
  if◌then◌else◌, Run, ok, exit, ◌>>=◌, ◌>>◌, require, ℤ, pos, negsuc, ◌+ℤ◌, ltb_ℤ, Option, none,
  some,
}
use tool_boslib.IoChannel.{
  error_eoverflow, error_bndsek, error_bwhesek, Whence, whence_set, whence_cur, whence_end,
  whence_other, index, Channel, Stream, set_error, set_eof,
}
use tool_boslib.IoChannel.Calls.{negated}

-- The pointer is the bytes of the block, or NULL.
pub record GenericMem : Type 0 where
  pub ptr : Option (List ℕ)
  pub fd : ℤ
  pub size : ℕ
  pub is_mapped : Bool

abbrev pub MemChannel : Type 0
MemChannel = Channel GenericMem

-- The bytes behind a pointer; an access through NULL ends the run.
abbrev pub block : Option (List ℕ) → Run (List ℕ)
block none = exit
block (some cells) = ok cells

-- Whether a transfer of `size` bytes at `p` runs into the end, and how many bytes it moves.
abbrev pub is_short : MemChannel → ℕ → ℕ → Bool
is_short self p size = ltb self.stream.size (p + size)

abbrev pub n_bytes : MemChannel → ℕ → ℕ → ℕ
n_bytes self p size = if is_short self p size then self.stream.size - p else size

abbrev pub mark_end : MemChannel → ℕ → ℕ → MemChannel
mark_end self p size = record self {
  found_eof = if is_short self p size then true else self.found_eof;
}

-- A position below 0 lies before the block, where C leaves undefined what an access does.
unfoldable pub read_at : ℤ → MemChannel → ℕ → Run (Option ℕ × List ℕ × MemChannel)
read_at (negsuc q) self size = exit
read_at (pos p) self size = do
  cells ← block self.stream.ptr
  ok (some (n_bytes self p size), take (n_bytes self p size) (drop p cells), mark_end self p size)

unfoldable pub mem_read : MemChannel → ℕ → Run (Option ℕ × List ℕ × MemChannel)
mem_read self size = do
  require (ltb 0 size)
  if ltb_ℤ self.current_index_position (pos self.stream.size)
      then read_at self.current_index_position self size
      else ok (none, [], set_eof self)

-- Some bytes over those at `p`.
unfoldable pub patch : ℕ → List ℕ → List ℕ → List ℕ
patch p bytes cells = take p cells ++ (bytes ++ drop (p + length bytes) cells)

unfoldable pub write_at : ℤ → MemChannel → List ℕ → Run (Option ℕ × MemChannel)
write_at (negsuc q) self bytes = exit
write_at (pos p) self bytes = do
  cells ← block self.stream.ptr
  let n = n_bytes self p (length bytes)
  let stream = record self.stream { ptr = some (patch p (take n bytes) cells) }
  ok (some n, record (mark_end self p (length bytes)) { stream = stream })

unfoldable pub mem_write : MemChannel → List ℕ → Run (Option ℕ × MemChannel)
mem_write self bytes = do
  require (ltb 0 (length bytes))
  if ltb_ℤ self.current_index_position (pos self.stream.size)
      then write_at self.current_index_position self bytes
      else ok (none, set_eof self)

abbrev pub mem_flush : MemChannel → Run (Option ℕ × MemChannel)
mem_flush self = ok (some 0, self)

-- A sum of `long long` numbers, which wraps where C leaves an overflow undefined.
unfoldable pub long_sum : ℤ → ℤ → ℤ
long_sum a b = wrap 64 (a +ℤ b)

-- The end of a step from the position: the unget buffer is dropped, and its bytes count as not yet read.
abbrev pub move_by : MemChannel → ℤ → ℤ × MemChannel
move_by self offset =
    let q =
      long_sum self.current_index_position (long_sum offset (negated (index self.unget_buffer))) in
    (
      q,
      record self {
        current_index_position = q;
        unget_buffer = record self.unget_buffer { bytes = [] };
      },
    )

abbrev pub out_of_range : MemChannel → ℤ × MemChannel
out_of_range self = (negsuc 0, set_error error_eoverflow self)

unfoldable pub seek_back : MemChannel → ℤ → ℤ × MemChannel
seek_back self offset =
    if ltb_ℤ (long_sum self.current_index_position offset) (pos 0)
    then out_of_range self
    else move_by self offset

unfoldable pub seek_forward : MemChannel → ℤ → ℤ × MemChannel
seek_forward self offset =
    if ltb_ℤ (pos self.stream.size) (long_sum self.current_index_position offset)
    then out_of_range self
    else move_by self offset

unfoldable pub seek_set : MemChannel → ℤ → ℤ × MemChannel
seek_set self offset =
    if ltb_ℤ (pos self.stream.size) offset || ltb_ℤ offset (pos 0)
    then out_of_range self
    else (offset, record self { current_index_position = offset })

unfoldable pub seek_cur : MemChannel → ℤ → ℤ × MemChannel
seek_cur self (pos zero) = (self.current_index_position, self)
seek_cur self (pos (suc n)) = seek_forward self (pos (suc n))
seek_cur self (negsuc n) = seek_back self (negsuc n)

unfoldable pub mem_seek : MemChannel → ℤ → Whence → Run (ℤ × MemChannel)
mem_seek self offset whence_set = ok (seek_set self offset)
mem_seek self offset whence_cur = ok (seek_cur self offset)
mem_seek self offset whence_end = ok (negsuc 0, set_error error_bndsek self)
mem_seek self offset whence_other = ok (negsuc 0, set_error error_bwhesek self)

-- The interface that IOChannelMem.c declares; its functions check their arguments again and call those
-- above.
abbrev pub mem : Stream GenericMem
mem = record {
  indirect_read = mem_read;
  indirect_write = mem_write;
  indirect_flush = mem_flush;
  indirect_seek = mem_seek;
}
