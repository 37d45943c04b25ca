-- ===== src/IoChannel/Tests.antt =====
-- Runs of src/IOChannel.c and src/IOChannelGenericMem.c, and instances of the theorems about them.
use tool_boslib.Base.{
  wrap, ℕ, ◌<◌, ◌≤◌, ◌≡◌, refl, List, [], ◌∷◌, true, false, Run, ok, exit, ◌>>=◌, Returns, ℤ, pos,
  negsuc, Option, none, some, arith, Bool, ◌⊎◌,
}
use tool_boslib.IoChannel.{
  Error, error_none, error_eio, mode_rw, is_set, is_w_only, is_r_only, whence_set, whence_cur,
  type_memptr,
}
use tool_boslib.IoChannel.Calls.{
  read, write, seek, unget, read_internal, write_internal, drop_unget, flush, unget_checked,
  push_into_unget_buffer, pop_from_unget_buffer,
}
use tool_boslib.IoChannel.Lines.{gets, puts, get_bytes, put_bytes, read_block}
use tool_boslib.IoChannel.Mem.{
  MemChannel, mem, mem_read, mem_write, mem_seek, read_at, write_at, patch, seek_set, seek_cur,
  seek_back, seek_forward, long_sum,
}
use tool_boslib.IoChannel.MemOpen.{
  SystemCalls, mapping, map_fd, map_protected, set_protection, prepare, enlarge, set_ptr,
  is_pointer, open_from_string, open_block, erased,
}
use tool_boslib.IoChannel.Reading.{IsReady, Gives, read-Gives}
use tool_boslib.IoChannel.RoundTrip.{write_and_read, write_and_read-roundtrip}
use tool_boslib.IoChannel.PutBack.{unget_and_read, unget_and_read-roundtrip}
use tool_boslib.IoChannel.Within.{Call, write_call, seek_call, run_calls, run_call, IsWithin}
use tool_boslib.IoChannel.Within.Calls.{run_calls-IsWithin}
use tool_boslib.IoChannel.Blocks.{Counts, read_block-Counts}

-- An open channel over "abc" that is read and written, at its start.
abbrev abc : MemChannel
abc = record {
  valid = true;
  is_open = true;
  found_eof = false;
  uses_write_buffering = false;
  mode = record {
    defined = true;
    access = mode_rw;
    creat = false;
    trunc = true;
    append = false;
    close = false;
  };
  channel_type = type_memptr;
  rd_deployed_bytes = 0;
  wr_deployed_bytes = 0;
  error_type = error_none;
  unget_buffer = record { bytes = []; size = 8 };
  write_buffer = record { bytes = []; size = 8 };
  current_index_position = pos 0;
  rd_bytes_from_last_write = 0;
  rd_bytes_from_last_unget = 0;
  stream = record {
    ptr = some (b'a' ∷ b'b' ∷ b'c' ∷ []);
    fd = negsuc 0;
    size = 3;
    is_mapped = false;
  };
}

abbrev ab_written : Run (List ℕ × Bool)
ab_written = do
  w ← write mem abc (some (b'x' ∷ b'y' ∷ []))
  q ← seek mem w.1 (pos 1) whence_set
  r ← read mem q.1 5
  ok (r.1, r.2.found_eof)

writes_and_reads : ab_written ≡ ok (b'y' ∷ b'c' ∷ [], true)
unfolding write write_internal drop_unget mem_write write_at patch seek flush mem_seek seek_set read
    read_internal mem_read read_at is_set is_w_only is_r_only
writes_and_reads = refl

-- A read of two bytes, where one is put back, ends the process.
abbrev overread : Run (List ℕ)
overread = do r ← read mem abc 1; u ← unget r.2 (b'a' ∷ []); s ← read mem u.1 2; ok s.1

overread_exits : overread ≡ exit
unfolding read read_internal flush mem_read read_at unget unget_checked push_into_unget_buffer
    pop_from_unget_buffer is_set is_w_only is_r_only
overread_exits = refl

-- After two bytes are read and put back, a step back by two leaves the channel at position -2.
abbrev step_back : Run ℤ
step_back = do
  r ← read mem abc 2
  u ← unget r.2 (b'a' ∷ b'b' ∷ [])
  q ← seek mem u.1 (negsuc 1) whence_cur
  ok q.1.current_index_position

steps_before_the_block : step_back ≡ ok (negsuc 1)
unfolding read read_internal flush mem_read read_at unget unget_checked push_into_unget_buffer seek
    mem_seek seek_cur seek_back long_sum wrap is_set is_w_only is_r_only
steps_before_the_block = refl

-- From position 1 the largest offset passes the check, and the channel is left before the block.
abbrev far_ahead : Run ℤ
far_ahead = do
  r ← read mem abc 1
  q ← seek mem r.2 (pos 9223372036854775807) whence_cur
  ok q.1.current_index_position

seek_overflows : far_ahead ≡ ok (negsuc 9223372036854775807)
unfolding read read_internal flush mem_read read_at seek mem_seek seek_cur seek_forward long_sum
    wrap is_set is_w_only is_r_only
seek_overflows = refl

-- After a byte is put back, a seek to position 2 does not drop it: the next byte read is that one.
abbrev stale : Run (List ℕ)
stale = do
  r ← read mem abc 1
  u ← unget r.2 (b'a' ∷ [])
  q ← seek mem u.1 (pos 2) whence_set
  s ← read mem q.1 1
  ok s.1

seek_keeps_unget : stale ≡ ok (b'a' ∷ [])
unfolding read read_internal flush mem_read read_at unget unget_checked push_into_unget_buffer seek
    mem_seek seek_set pop_from_unget_buffer is_set is_w_only is_r_only
seek_keeps_unget = refl

-- A line of two bytes for a buffer of two is written with its terminator behind the buffer.
abbrev two_bytes : Run (List ℕ)
two_bytes = do r ← gets mem abc 2; ok r.1

gets_overflows : two_bytes ≡ ok (b'a' ∷ b'b' ∷ 0 ∷ [])
unfolding gets get_bytes read_internal flush mem_read read_at is_set is_w_only is_r_only
gets_overflows = refl

-- The empty text gives -1 without an error.
abbrev no_text : Run (Option ℕ × Error)
no_text = do r ← puts mem abc (0 ∷ []); ok (r.0, r.1.error_type)

puts_refuses : no_text ≡ ok (none, error_none)
unfolding puts put_bytes is_set is_w_only is_r_only
puts_refuses = refl

-- A file that cannot be emptied is mapped all the same, and the call gives true with an error set.
abbrev no_truncation : SystemCalls
no_truncation = record {
  ftruncate = some error_eio;
  lseek = none;
  write_byte = none;
  mmap = λ protection. mapping (7 ∷ 8 ∷ []);
  munmap = none;
}

abbrev mapped_anyway : Run (Bool × Error)
mapped_anyway = do r ← map_fd no_truncation abc (pos 5) 2; ok (r.0, r.1.error_type)

maps_with_error : mapped_anyway ≡ ok (true, error_eio)
unfolding map_fd map_protected set_protection prepare enlarge set_ptr is_pointer is_r_only
maps_with_error = refl

-- Two bytes at their place, opened with the flag that erases them.
abbrev erasing : Run (Bool × Option (List ℕ))
erasing = do r ← open_from_string abc (some (7 ∷ 8 ∷ [])) (pos 2) true; ok (r.0, r.1.stream.ptr)

open_erases : erasing ≡ ok (true, some (0 ∷ 0 ∷ []))
unfolding open_from_string open_block set_ptr is_pointer erased
open_erases = refl

read-Gives_example :
    ((0 < 3) × Returns (read mem abc 5) (Gives 0 (b'a' ∷ b'b' ∷ b'c' ∷ []) 5 abc))
    ⊎ ((3 ≤ 0) × (read mem abc 5 ≡ exit))
unfolding is_w_only
read-Gives_example = read-Gives abc 0 5 (b'a' ∷ b'b' ∷ b'c' ∷ []) refl refl (omega arith)

write_and_read-roundtrip_example : Returns (write_and_read 0 abc (b'x' ∷ b'y' ∷ [])) λ r.
    (r.0 ≡ some 2)
    × (r.1 ≡ b'x' ∷ b'y' ∷ [])
    × IsReady 2 (patch 0 (b'x' ∷ b'y' ∷ []) (b'a' ∷ b'b' ∷ b'c' ∷ [])) r.2
unfolding is_w_only is_r_only
write_and_read-roundtrip_example =
    write_and_read-roundtrip abc 0 (b'x' ∷ b'y' ∷ []) (b'a' ∷ b'b' ∷ b'c' ∷ []) refl refl refl
      (omega arith) (omega arith)

abbrev after_two : MemChannel
after_two = record abc { rd_bytes_from_last_write = 2; current_index_position = pos 2 }

unget_and_read-roundtrip_example :
    unget_and_read mem after_two (b'a' ∷ b'b' ∷ [])
    ≡ ok (some 2, b'a' ∷ b'b' ∷ [], record after_two { rd_bytes_from_last_unget = 2 })
unfolding is_w_only
unget_and_read-roundtrip_example =
    unget_and_read-roundtrip mem after_two (b'a' ∷ b'b' ∷ []) refl refl (omega arith) (omega arith)
      (omega arith)

read_block-Counts_example :
    ((0 < 3) × Returns (read_block mem 1 abc 5) (Counts 0 (b'a' ∷ b'b' ∷ b'c' ∷ []) 5 abc))
    ⊎ ((3 ≤ 0) × (read_block mem 1 abc 5 ≡ exit))
unfolding is_w_only
read_block-Counts_example =
    read_block-Counts abc 0 0 5 (b'a' ∷ b'b' ∷ b'c' ∷ []) refl refl (omega arith)

abc-IsWithin : IsWithin 3 abc
abc-IsWithin = record {
  p = 0;
  cells = b'a' ∷ b'b' ∷ b'c' ∷ [];
  at = refl;
  below = omega arith;
  whole = refl;
}

abbrev some_calls : List Call
some_calls = seek_call (pos 2) whence_cur ∷ write_call (some (b'z' ∷ [])) ∷ []

abbrev at_the_end : MemChannel
at_the_end = record abc {
  current_index_position = pos 3;
  wr_deployed_bytes = 1;
  stream = record {
    ptr = some (b'a' ∷ b'b' ∷ b'z' ∷ []);
    fd = negsuc 0;
    size = 3;
    is_mapped = false;
  };
}

run_calls-IsWithin_example : IsWithin 3 at_the_end
unfolding run_calls run_call seek flush mem_seek seek_cur seek_forward long_sum wrap write
    write_internal drop_unget mem_write write_at patch is_set is_w_only is_r_only
run_calls-IsWithin_example =
    run_calls-IsWithin 3 some_calls abc at_the_end (omega arith, (omega arith, tt)) abc-IsWithin
      refl
