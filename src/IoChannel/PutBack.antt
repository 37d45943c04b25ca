-- ===== src/IoChannel/PutBack.antt =====
-- IOChannel_unget and IOChannel_read of src/IOChannel.c, over any stream.
use tool_boslib.Base.{
  ℕ, suc, ◌+◌, ◌-◌, ◌≤◌, ◌<◌, ◌≡◌, refl, sym, ap, ap₂, ◌∙◌, min, List, [], ◌∷◌, ◌++◌, drop, length,
  length-append, take-left, true, false, ltb, leb, ◌==◌, Run, ok, ◌>>=◌, Option, some, arith,
  Bool-cases, inl, inr,
}
use tool_boslib.IoChannel.{Channel, Stream, error_none, is_set, is_w_only, is_r_only, index}
use tool_boslib.IoChannel.Calls.{
  unget, unget_checked, push_into_unget_buffer, pop_from_unget_buffer, read_internal, read, flush,
  read_flushed,
}

drop-left : (bytes rest : List ℕ) → drop (length bytes) (bytes ++ rest) ≡ rest
drop-left [] rest = refl
drop-left (b ∷ bytes) rest = drop-left bytes rest

module _ {S : Type 0} (io : Stream S) where
  -- An open channel without an error and without write buffering.
  abbrev pub idle : Channel S → Channel S
  idle self = record self {
    valid = true;
    is_open = true;
    uses_write_buffering = false;
    error_type = error_none;
  }

  -- Some bytes put back, and read again.
  abbrev pub unget_and_read : Channel S → List ℕ → Run (Option ℕ × List ℕ × Channel S)
  unget_and_read self bytes = do u ← unget self bytes; read io u.1 (length bytes)

  abbrev with_back : List ℕ → Channel S → Channel S
  with_back bytes self = record (idle self) {
    unget_buffer = record self.unget_buffer { bytes = bytes ++ self.unget_buffer.bytes };
    rd_bytes_from_last_unget = 0;
    rd_bytes_from_last_write = self.rd_bytes_from_last_write - length bytes;
  }

  module _ (self : Channel S) (readable : is_w_only self.mode.access ≡ false) (b : ℕ)
      (bytes : List ℕ) where
    unget-runs :
        length (b ∷ bytes) ≤ self.rd_bytes_from_last_write
        → index self.unget_buffer + length (b ∷ bytes) ≤ self.unget_buffer.size
        → unget (idle self) (b ∷ bytes) ≡ ok (some (length (b ∷ bytes)), with_back (b ∷ bytes) self)
    unfolding unget unget_checked push_into_unget_buffer is_set
    unget-runs read_before room =
        let few : ltb self.rd_bytes_from_last_write (suc (length bytes)) ≡ false = ground arith in
        let asked : ltb 0 (suc (length bytes)) ≡ true = ground arith in
        let fits : leb (index self.unget_buffer + suc (length bytes)) self.unget_buffer.size
            ≡ true =
          ground arith in
        rw (readable, few, asked, fits) refl

    read-back :
        read io (with_back (b ∷ bytes) self) (length (b ∷ bytes))
        ≡ ok (
          some (length (b ∷ bytes)),
          b ∷ bytes,
          record (idle self) {
            rd_bytes_from_last_unget = 0 + length (b ∷ bytes);
            rd_bytes_from_last_write =
                self.rd_bytes_from_last_write - length (b ∷ bytes) + length (b ∷ bytes);
          },
        )
    unfolding read read_internal flush pop_from_unget_buffer is_set
    read-back = rw readable (elim (Bool-cases (is_r_only self.mode.access)) [
      | inl only ↦ rw only popped
      | inr both ↦ rw both popped
    ])
      where
        old : List ℕ
        old = self.unget_buffer.bytes

        popped :
            read_flushed io (length (b ∷ bytes)) (some 0, with_back (b ∷ bytes) self)
            ≡ ok (
              some (length (b ∷ bytes)),
              b ∷ bytes,
              record (idle self) {
                rd_bytes_from_last_unget = 0 + length (b ∷ bytes);
                rd_bytes_from_last_write =
                    self.rd_bytes_from_last_write - length (b ∷ bytes) + length (b ∷ bytes);
              },
            )
        popped =
            let n = length (b ∷ bytes) in
            let m = length ((b ∷ bytes) ++ old) in
            let long : m ≡ n + length old = length-append (b ∷ bytes) old in
            let some_back : ltb 0 m ≡ true = ground arith in
            let all : min n (m + 1) ≡ n = omega arith in
            let in_range : leb n m ≡ true = ground arith in
            let none_left : n - n == 0 ≡ true = ground arith in
            rw (some_back, all, in_range, take-left bytes old, drop-left bytes old, none_left) refl

-- What IOChannel_unget puts back, IOChannel_read gives again, whatever the stream: of an open channel
-- without an error, without write buffering, which may be read, from which at least as many bytes were
-- read since the last write, and whose unget buffer has room for them, both calls return, the read
-- gives the bytes in their order, and the channel is as it was, but for the count of bytes read since
-- the last unget.
pub unget_and_read-roundtrip :
    {S : Type 0} (io : Stream S) (self : Channel S) (bytes : List ℕ)
    → self ≡ idle io self
    → is_w_only self.mode.access ≡ false
    → 0 < length bytes
    → length bytes ≤ self.rd_bytes_from_last_write
    → index self.unget_buffer + length bytes ≤ self.unget_buffer.size
    → unget_and_read io self bytes
      ≡ ok (some (length bytes), bytes, record self { rd_bytes_from_last_unget = length bytes })
unget_and_read-roundtrip io self [] h readable some_there read_before room = absurd (omega arith)
unget_and_read-roundtrip io self (b ∷ bytes) h readable some_there read_before room =
    let n = length (b ∷ bytes) in
    let first : 0 + n ≡ n = omega arith in
    let restored : self.rd_bytes_from_last_write - n + n ≡ self.rd_bytes_from_last_write =
      omega arith in
    ap (λ s. unget_and_read io s (b ∷ bytes)) h
    ∙ ap (λ c. c >>= λ u. read io u.1 n) (unget-runs io self readable b bytes read_before room)
    ∙ read-back io self readable b bytes
    ∙ ap₂
        (λ u w. ok (
          some n,
          b ∷ bytes,
          record (idle io self) { rd_bytes_from_last_unget = u; rd_bytes_from_last_write = w },
        ))
        first restored
    ∙ ap (λ s. ok (some n, b ∷ bytes, record s { rd_bytes_from_last_unget = n })) (sym h)
