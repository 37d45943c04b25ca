-- ===== src/IoChannel/Within/Calls.antt =====
-- Sequences of calls of src/IOChannel.c on a memory channel.
use mathlib.Core.Path.{subst}
use tool_boslib.Base.{All, ℕ, ◌≤◌, ◌≡◌, sym, List, [], ◌∷◌, length, ok}
use tool_boslib.IoChannel.Mem.{MemChannel}
use tool_boslib.IoChannel.Within.{
  InRange, Call, read_call, write_call, seek_call, run_call, run_calls, inside, IsWithin, After,
  After-bind,
}
use tool_boslib.IoChannel.Within.Transfers.{read-IsWithin, write-IsWithin}
use tool_boslib.IoChannel.Within.Seeks.{seek-IsWithin}

module _ (n p : ℕ) (cells : List ℕ) (below : p ≤ n) (whole : length cells ≡ n) where
  run_call-inside :
      (self : MemChannel) (c : Call)
      → InRange n c
      → After (IsWithin n) (run_call c (inside p cells self))
  unfolding run_call
  run_call-inside self (read_call size) fits =
      After-bind (λ r. IsWithin n r.2) _ _ _ (read-IsWithin n p cells below whole self size)
        (λ r h. h)
  run_call-inside self (write_call bytes) fits =
      After-bind (λ r. IsWithin n r.1) _ _ _ (write-IsWithin n p cells below whole self bytes)
        (λ r h. h)
  run_call-inside self (seek_call offset whence) fits =
      After-bind (λ r. IsWithin n r.1) _ _ _
        (seek-IsWithin n p cells below whole self offset whence fits) (λ r h. h)

run_call-IsWithin :
    (n : ℕ) (c : Call) (self : MemChannel)
    → InRange n c
    → IsWithin n self
    → After (IsWithin n) (run_call c self)
run_call-IsWithin n c self fits h =
    subst (λ s. After (IsWithin n) (run_call c s)) (sym h.at)
      (run_call-inside n h.p h.cells h.below h.whole self c fits)

run_calls-After :
    (n : ℕ) (calls : List Call) (self : MemChannel)
    → All (InRange n) calls
    → IsWithin n self
    → After (IsWithin n) (run_calls calls self)
unfolding run_calls
run_calls-After n [] self fits h = h
run_calls-After n (c ∷ calls) self fits h =
    After-bind (IsWithin n) (IsWithin n) (run_call c self) (run_calls calls)
      (run_call-IsWithin n c self fits.0 h) (λ s. run_calls-After n calls s fits.1)

-- Whatever a caller reads, writes and seeks, in whatever order, on a memory channel with nothing put
-- back and no buffer to write from: while the calls return, the position is one of the block or its
-- end, and the block has the bytes that it had in number. The size of the block, and each number of
-- bytes and each offset of a seek, also when it is added to that size, must be in the range of `long
-- long`.
pub run_calls-IsWithin :
    (n : ℕ) (calls : List Call) (self left : MemChannel)
    → All (InRange n) calls
    → IsWithin n self
    → run_calls calls self ≡ ok left
    → IsWithin n left
run_calls-IsWithin n calls self left fits h run =
    subst (After (IsWithin n)) run (run_calls-After n calls self fits h)
