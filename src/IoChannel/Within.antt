-- ===== src/IoChannel/Within.antt =====
-- Calls of src/IOChannel.c on a memory channel, one after the other: what it is for the position to stay in
-- the block.
pub mod Transfers
pub mod Seeks
pub mod Calls
use mathlib.Core.Path.{subst}
use tool_boslib.Base.{
  ◌^◌, ℕ, zero, suc, ◌+◌, ◌-◌, ◌≤◌, ◌<◌, ◌≡◌, refl, sym, ap, ap₂, ◌∙◌, min, List, [], ◌∷◌, take,
  drop, length, length-take, take-all, Bool, true, false, not, ◌&&◌, ◌||◌, ltb, ◌==◌, if◌then◌else◌,
  Run, ok, exit, blocked, ◌>>=◌, ◌>>◌, require, ℤ, pos, negsuc, ◌+ℤ◌, pos-plus, ltb_ℤ, Option, none,
  some, arith, Bool-cases, inl, inr,
}
use tool_boslib.IoChannel.{
  Error, error_none, error_accv, error_eoverflow, error_bndsek, error_bwhesek, is_set, is_w_only,
  is_r_only, index, Whence, whence_set, whence_cur, whence_end, whence_other, Channel, set_error,
  set_eof, is_call_allowed, is_error_set,
}
use tool_boslib.IoChannel.Calls.{
  negated, is_minus_one, allowed, no_bytes, read_internal, flushed, read_flushed, read_rest,
  read_on, flush, read, write_internal, write_on, written, drop_unget, discard, write, seek,
  seek_flushed, sought,
}
use tool_boslib.IoChannel.Mem.{
  GenericMem, MemChannel, mem, n_bytes, is_short, read_at, mem_read, mem_flush, patch, write_at,
  mem_write, seek_set, seek_cur, seek_back, seek_forward, mem_seek,
}
use tool_boslib.IoChannel.Reading.{after_read}
use tool_boslib.IoChannel.RoundTrip.{length-patch}

-- A call, without what it gives back.
pub data Call : Type 0 where
  read_call : ℕ → Call
  write_call : Option (List ℕ) → Call
  seek_call : ℤ → Whence → Call

-- What a caller may ask for, of a block of `n` bytes: a number of bytes, or an offset, that is in the range
-- of `long long`, also when it is counted from the end of the block.
abbrev pub InRange : ℕ → Call → Type 0
InRange n (read_call size) = n + size < 2 ^ 63
InRange n (write_call none) = Unit
InRange n (write_call (some bytes)) = n + length bytes < 2 ^ 63
InRange n (seek_call (pos m) whence) = n + m < 2 ^ 63
InRange n (seek_call (negsuc m) whence) = (n < 2 ^ 63) × (m < 2 ^ 63)

unfoldable pub run_call : Call → MemChannel → Run MemChannel
run_call (read_call size) self = do r ← read mem self size; ok r.2
run_call (write_call bytes) self = do r ← write mem self bytes; ok r.1
run_call (seek_call offset whence) self = do r ← seek mem self offset whence; ok r.1

unfoldable pub run_calls : List Call → MemChannel → Run MemChannel
run_calls [] self = ok self
run_calls (c ∷ calls) self = run_call c self >>= run_calls calls

-- A channel at position `p` of a block, with nothing put back and no buffer to write from.
abbrev pub inside : ℕ → List ℕ → MemChannel → MemChannel
inside p cells self = record self {
  uses_write_buffering = false;
  unget_buffer = record self.unget_buffer { bytes = [] };
  current_index_position = pos p;
  stream = record self.stream { ptr = some cells; size = length cells };
}

-- The position is one of a block of `n` bytes, or its end.
pub record IsWithin (n : ℕ) (self : MemChannel) : Type 0 where
  pub p : ℕ
  pub cells : List ℕ
  pub at : self ≡ inside p cells self
  pub below : p ≤ n
  pub whole : length cells ≡ n

-- What holds of a channel that a call leaves, if it returns.
abbrev pub After : {A : Type 0} → (A → Type 0) → Run A → Type 0
After P exit = Unit
After P blocked = Unit
After P (ok a) = P a

pub After-bind :
    {A B : Type 0} (P : A → Type 0) (Q : B → Type 0) (m : Run A) (k : A → Run B)
    → After P m
    → ((a : A) → P a → After Q (k a))
    → After Q (m >>= k)
After-bind P Q exit k h next = tt
After-bind P Q blocked k h next = tt
After-bind P Q (ok a) k h next = next a h

pub After-require :
    {B : Type 0} (Q : B → Type 0) (b : Bool) (k : Run B) → After Q k → After Q (require b >> k)
After-require Q true k h = h
After-require Q false k h = tt

-- What a check of the mode gives.
abbrev pub answer : Bool → MemChannel → MemChannel → Bool × MemChannel
answer wrong refused self = if wrong then (false, refused) else (true, self)

-- A call behind the checks, each of which may refuse it.
pub After-allowed :
    {A : Type 0} (Q : A → Type 0) (self : MemChannel) (wrong : Bool) (refused : MemChannel)
    (call : MemChannel → Run A) (refuse : MemChannel → A)
    → After Q (call self)
    → Q (refuse refused)
    → Q (refuse self)
    → After Q (allowed self (answer wrong refused self) call refuse)
After-allowed Q self wrong refused call refuse h denied closed =
    elim (Bool-cases (is_call_allowed self)) [
      | inl can ↦ rw can (go wrong)
      | inr cannot ↦ rw cannot closed
    ]
  where
    go :
        (b : Bool)
        → After Q (
            if (answer b refused self).0
            then call (answer b refused self).1
            else ok (refuse (answer b refused self).1))
    go true = denied
    go false = h

pub and-false : (b : Bool) → b && false ≡ false
and-false true = refl
and-false false = refl

module _ (n p : ℕ) (cells : List ℕ) (below : p ≤ n) (whole : length cells ≡ n) where
  pub stays : (self : MemChannel) → IsWithin n (inside p cells self)
  stays self = record { p = p; cells = cells; at = refl; below = below; whole = whole }

  -- A flush has nothing to do.
  pub flush-inside :
      (self : MemChannel)
      → flush mem (inside p cells self) ≡ (require self.valid >> ok (some 0, inside p cells self))
  unfolding flush
  flush-inside self =
      ap
        (λ b.
          require self.valid
          >> (if b && ltb 0 (index self.write_buffer)
              then mem_flush (inside p cells self) >>= flushed mem
              else ok (some 0, inside p cells self)))
        (and-false self.is_open)

  pub After-flush :
      {B : Type 0} (self : MemChannel) (Q : B → Type 0) (k : Option ℕ × MemChannel → Run B)
      → After Q (k (some 0, inside p cells self))
      → After Q (flush mem (inside p cells self) >>= k)
  After-flush self Q k h = subst (λ m. After Q (m >>= k)) (sym (flush-inside self)) (go self.valid)
    where
      go : (b : Bool) → After Q ((require b >> ok (some 0, inside p cells self)) >>= k)
      go true = h
      go false = tt
