-- ===== src/IoChannel/RoundTrip.antt =====
-- IOChannel_write, IOChannel_seek and IOChannel_read of src/IOChannel.c, one after the other, over memory.
use mathlib.Core.Path.{subst}
use tool_boslib.Base.{
  ℕ, zero, suc, ◌+◌, ◌-◌, ◌≤◌, ◌<◌, ◌≡◌, refl, sym, ap, ap₂, ◌∙◌, min, List, [], ◌∷◌, ◌++◌, take,
  drop, length, length-append, length-take, length-drop, take-left, take-all, true, false, ltb, Run,
  ok, ◌>>=◌, Returns, ℤ, pos, pos-plus, Option, some, arith, Bool-cases, inl, inr,
}
use tool_boslib.IoChannel.{is_set, is_w_only, is_r_only, index, whence_set}
use tool_boslib.IoChannel.Calls.{write_internal, drop_unget, write, flush, seek, read}
use tool_boslib.IoChannel.Mem.{MemChannel, mem, patch, write_at, mem_write, mem_seek, seek_set}
use tool_boslib.IoChannel.Reading.{ready, IsReady, Gives, read-Gives}

drop-take : (p : ℕ) (cells rest : List ℕ) → p ≤ length cells → drop p (take p cells ++ rest) ≡ rest
drop-take zero cells rest h = refl
drop-take (suc p) [] rest h = absurd (omega arith)
drop-take (suc p) (c ∷ cells) rest h = drop-take p cells rest (omega arith)

pub length-patch :
    (p : ℕ) (bytes cells : List ℕ)
    → p + length bytes ≤ length cells
    → length (patch p bytes cells) ≡ length cells
unfolding patch
length-patch p bytes cells h = omega (
  arith,
  length-append (take p cells) (bytes ++ drop (p + length bytes) cells),
  length-append bytes (drop (p + length bytes) cells),
  length-take p cells (omega arith),
  length-drop (p + length bytes) cells,
)

-- The bytes that were written stand where they were written.
patch-read :
    (p : ℕ) (bytes cells : List ℕ)
    → p + length bytes ≤ length cells
    → take (length bytes) (drop p (patch p bytes cells)) ≡ bytes
unfolding patch
patch-read p bytes cells h =
    ap (take (length bytes))
      (drop-take p cells (bytes ++ drop (p + length bytes) cells) (omega arith))
    ∙ take-left bytes (drop (p + length bytes) cells)

-- What a write gives that fits into the block.
Wrote : ℕ → List ℕ → List ℕ → MemChannel → Option ℕ × MemChannel → Type 0
Wrote p bytes cells self r =
    (r.0 ≡ some (length bytes))
    × IsReady (p + length bytes) (patch p bytes cells) r.1
    × (r.1.mode ≡ self.mode)

module _ (self : MemChannel) (p : ℕ) (cells : List ℕ) where
  drop_unget-idle : drop_unget mem (ready p cells self) ≡ ok (true, ready p cells self)
  unfolding drop_unget
  drop_unget-idle = elim (Bool-cases (ltb 0 (index self.write_buffer))) [
    | inl some_there ↦ rw some_there refl
    | inr empty ↦ rw empty refl
  ]

  mem_write-fits :
      (bytes : List ℕ)
      → 0 < length bytes
      → p + length bytes ≤ length cells
      → mem_write (ready p cells self) bytes
        ≡ ok (
          some (length bytes),
          record (ready p cells (self)) {
            stream = record self.stream { ptr = some (patch p bytes cells); size = length cells };
          },
        )
  unfolding mem_write write_at
  mem_write-fits bytes some_there fits =
      let asked : ltb 0 (length bytes) ≡ true = ground arith in
      let within : ltb (p + 0) (length cells + 0) ≡ true = ground arith in
      let whole : ltb (length cells) (p + length bytes) ≡ false = ground arith in
      rw (asked, within, whole, take-all (length bytes) bytes (omega arith)) refl

  -- The channel after a write, at a position and with a size of the block.
  abbrev state : List ℕ → ℤ → ℕ → MemChannel
  state bytes q n = record (ready p cells self) {
    wr_deployed_bytes = self.wr_deployed_bytes + length bytes;
    current_index_position = q;
    rd_bytes_from_last_write = 0;
    stream = record self.stream { ptr = some (patch p bytes cells); size = n };
  }

  write-Wrote :
      (bytes : List ℕ)
      → is_r_only self.mode.access ≡ false
      → 0 < length bytes
      → p + length bytes ≤ length cells
      → Returns (write mem (ready p cells self) (some bytes)) (Wrote p bytes cells self)
  unfolding write write_internal Wrote is_set
  write-Wrote [] writable some_there fits = absurd (omega arith)
  write-Wrote (b ∷ bytes) writable some_there fits =
      rw (writable, drop_unget-idle, mem_write-fits (b ∷ bytes) some_there fits)
        (
          _,
          refl,
          (
            refl,
            ap₂ (λ q n. state (b ∷ bytes) q n) (pos-plus p (length (b ∷ bytes)))
                (sym (length-patch p (b ∷ bytes) cells fits)),
            refl,
          ),
        )

  -- A seek to a position of the block.
  seek-set :
      (q : ℕ)
      → q ≤ length cells
      → seek mem (ready p cells self) (pos q) whence_set ≡ ok (pos q, ready q cells self)
  unfolding seek flush mem_seek seek_set is_set
  seek-set q h =
      let below : ltb (length cells + 0) (q + 0) ≡ false = ground arith in
      let above : ltb (q + 0) 0 ≡ false = ground arith in rw (below, above) refl

-- A caller that writes some bytes, seeks back to where they start, and reads as many.
abbrev pub write_and_read : ℕ → MemChannel → List ℕ → Run (Option ℕ × List ℕ × MemChannel)
write_and_read p self bytes = do
  w ← write mem self (some bytes)
  q ← seek mem w.1 (pos p) whence_set
  read mem q.1 (length bytes)

-- What a memory channel takes in it gives back: a write of bytes that fit between the position and the
-- end of the block, a seek to where they start, and a read return, the read gives those bytes, and the
-- block holds them and is otherwise as it was. The channel must be open for both ways, without an
-- error, with nothing put back and no buffer to write from.
pub write_and_read-roundtrip :
    (self : MemChannel) (p : ℕ) (bytes cells : List ℕ)
    → IsReady p cells self
    → is_r_only self.mode.access ≡ false
    → is_w_only self.mode.access ≡ false
    → 0 < length bytes
    → p + length bytes ≤ length cells
    → Returns (write_and_read p self bytes) λ r.
      (r.0 ≡ some (length bytes))
      × (r.1 ≡ bytes)
      × IsReady (p + length bytes) (patch p bytes cells) r.2
unfolding Wrote Gives
write_and_read-roundtrip self p bytes cells h writable readable some_there fits =
    let n = length bytes in
    let held = patch p bytes cells in
    let (w, ran, (count, at, same)) = write-Wrote self p cells bytes writable some_there fits in
    let wide : length held ≡ length cells = length-patch p bytes cells fits in
    let back = ready p held w.1 in
    let sought =
      ap (λ s. seek mem s (pos p) whence_set) at ∙ seek-set w.1 (p + n) held p (omega arith) in
    elim (read-Gives back p n held refl (ap (λ m. is_w_only m.access) same ∙ readable) some_there) [
      | inl (within, (r, read_back, (given, bytes_back, ready_then, at_end))) ↦
          let all : min n (length held - p) ≡ n = omega arith in
          (
            r,
            ap (λ s. write_and_read p s bytes) h
                ∙ ap (λ c. c >>= λ v. seek mem v.1 (pos p) whence_set >>= λ q. read mem q.1 n) ran
                ∙ ap (λ c. c >>= λ q. read mem q.1 n) sought
                ∙ read_back,
            (
              given ∙ ap some all,
              bytes_back ∙ patch-read p bytes cells fits,
              subst (λ k. IsReady (p + k) held r.2) all ready_then,
            ),
          )
      | inr (beyond, stuck) ↦ absurd (omega arith)
    ]
