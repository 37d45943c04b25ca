-- ===== src/IoChannel/Blocks.antt =====
-- IOChannel_readBlock of src/IOChannel.c over memory: what it stores and what it counts.
use tool_boslib.Base.{
  ℕ, zero, suc, ◌+◌, ◌-◌, ◌≤◌, ◌<◌, ◌≡◌, refl, sym, ap, ap₂, ◌∙◌, min, List, ◌++◌, append-nil, take,
  drop, length, true, false, ◌&&◌, ◌||◌, ltb, if◌then◌else◌, Run, ok, exit, ◌>>=◌, Returns, Option,
  some, arith, Bool-cases, ◌⊎◌, inl, inr,
}
use tool_boslib.IoChannel.{error_none, is_set, is_w_only, eof}
use tool_boslib.IoChannel.Calls.{read_internal, read}
use tool_boslib.IoChannel.Mem.{MemChannel, mem}
use tool_boslib.IoChannel.Lines.{next_block, read_blocks, read_count, read_block}
use tool_boslib.IoChannel.Reading.{ready, IsReady, Gives, read-Gives}

-- The stored bytes are those from the position on; none of them counts if the end is marked.
pub Counts : ℕ → List ℕ → ℕ → MemChannel → ℕ × List ℕ × MemChannel → Type 0
Counts p cells size self r =
    (r.0 ≡ (if r.2.found_eof then 0 else size))
    × (r.1 ≡ take size (drop p cells))
    × IsReady (p + min size (length cells - p)) cells r.2
    × (r.2.found_eof ≡ (if ltb (length cells) (p + size) then true else self.found_eof))

module _ (fuel q size : ℕ) (cells bytes : List ℕ) (s : MemChannel) where
  -- The end of the loop after a round that leaves the channel at `q`.
  next_block-ends :
      (k : ℕ)
      → s.found_eof ≡ true
      → next_block mem size (read_blocks mem fuel) (some k, bytes, ready q cells s)
        ≡ ok (size, bytes, ready q cells s)
  unfolding eof
  next_block-ends k e =
      ap
        (λ b.
          if b && true || is_set error_none
          then ok (size, bytes, ready q cells s)
          else (read_blocks mem fuel (size - k) (ready q cells s) >>= λ x.
              ok (x.0, bytes ++ x.1, x.2)))
        e

  next_block-done :
      s.found_eof ≡ false
      → next_block mem size (read_blocks mem fuel) (some size, bytes, ready q cells s)
        ≡ ok (0, bytes, ready q cells s)
  unfolding eof read_blocks is_set
  next_block-done e =
      let none_left : size - size ≡ 0 = omega arith in
      ap
        (λ b.
          if b && true || false
          then ok (size, bytes, ready q cells s)
          else (read_blocks mem fuel (size - size) (ready q cells s) >>= λ x.
              ok (x.0, bytes ++ x.1, x.2)))
        e
      ∙ ap (λ k. read_blocks mem fuel k (ready q cells s) >>= λ x. ok (x.0, bytes ++ x.1, x.2))
          none_left
      ∙ ap (λ l. ok (0, l, ready q cells s)) (append-nil bytes)

read-internal :
    (self : MemChannel) (p n : ℕ) (cells : List ℕ)
    → is_w_only self.mode.access ≡ false
    → read mem (ready p cells self) (suc n) ≡ read_internal mem (suc n) (ready p cells self)
unfolding read is_set
read-internal self p n cells readable = rw readable refl

read_block-internal :
    (self : MemChannel) (p fuel n : ℕ) (cells : List ℕ)
    → is_w_only self.mode.access ≡ false
    → read_block mem (suc fuel) (ready p cells self) (suc n) ≡ (
        read_internal mem (suc n) (ready p cells self)
        >>= next_block mem (suc n) (read_blocks mem fuel)
        >>= read_count mem (suc n))
unfolding read_block read_blocks is_set
read_block-internal self p fuel n cells readable = rw readable refl

-- The round in which a read gave `r`.
one_round :
    (fuel p n : ℕ) (cells : List ℕ) (self : MemChannel) (r : Option ℕ × List ℕ × MemChannel)
    → r.0 ≡ some (min (suc n) (length cells - p))
    → r.1 ≡ take (suc n) (drop p cells)
    → IsReady (p + min (suc n) (length cells - p)) cells r.2
    → r.2.found_eof ≡ (if ltb (length cells) (p + suc n) then true else self.found_eof)
    → read_block mem (suc fuel) self (suc n)
      ≡ (next_block mem (suc n) (read_blocks mem fuel) r >>= read_count mem (suc n))
    → Returns (read_block mem (suc fuel) self (suc n)) (Counts p cells (suc n) self)
unfolding Counts
one_round fuel p n cells self r count bytes at marked run =
    let size = suc n in
    let k = min size (length cells - p) in
    let l = take size (drop p cells) in
    let s = r.2 in
    let at_end = ready (p + k) cells s in
    let next : Option ℕ × List ℕ × MemChannel → Run (ℕ × List ℕ × MemChannel) =
      λ t. next_block mem size (read_blocks mem fuel) t >>= read_count mem size in
    let round = run ∙ ap next (ap₂ (λ c b. (c, b, s)) count bytes ∙ ap (λ t. (some k, l, t)) at) in
    elim (Bool-cases s.found_eof) [
      | inl ended ↦
          let nothing : size - size ≡ 0 = omega arith in
          (
            (size - size, l, at_end),
            round
                ∙ ap (λ c. c >>= read_count mem size)
                    (next_block-ends fuel (p + k) size cells l s k ended),
            (nothing ∙ ap (λ b. if b then 0 else size) (sym ended), refl, refl, marked),
          )
      | inr not_ended ↦
          let all : k ≡ size = ground (arith, marked, not_ended) in
          let whole : size - 0 ≡ size = omega arith in
          (
            (size - 0, l, at_end),
            round
                ∙ ap (λ j. next (some j, l, at_end)) all
                ∙ ap (λ c. c >>= read_count mem size)
                    (next_block-done fuel (p + k) size cells l s not_ended),
            (whole ∙ ap (λ b. if b then 0 else size) (sym not_ended), refl, refl, marked),
          )
    ]

-- IOChannel_readBlock of some bytes, on an open memory channel without an error that may be read and
-- has nothing put back and no buffer to write from, stores within the block the bytes from the position
-- on, as many as there are up to the size, and one round is enough. If the end is marked, by this read
-- or by one before, it returns 0 for them, else the size. At the end of the block it does not return.
pub read_block-Counts :
    (self : MemChannel) (p fuel size : ℕ) (cells : List ℕ)
    → IsReady p cells self
    → is_w_only self.mode.access ≡ false
    → 0 < size
    → ((p < length cells)
        × Returns (read_block mem (suc fuel) self size) (Counts p cells size self))
      ⊎ ((length cells ≤ p) × (read_block mem (suc fuel) self size ≡ exit))
unfolding Gives Counts
read_block-Counts self p fuel zero cells h readable some_asked = absurd (omega arith)
read_block-Counts self p fuel (suc n) cells h readable some_asked =
    let start =
      ap (λ s. read_block mem (suc fuel) s (suc n)) h
      ∙ read_block-internal self p fuel n cells readable in
    let opened =
      sym (read-internal self p n cells readable) ∙ ap (λ s. read mem s (suc n)) (sym h) in
    elim (read-Gives self p (suc n) cells h readable some_asked) [
      | inl (within, (r, run, (count, bytes, at, marked))) ↦ inl (
        within,
        one_round fuel p n cells self r count bytes at marked (
            start
            ∙ ap
                (λ c.
                  c >>= next_block mem (suc n) (read_blocks mem fuel) >>= read_count mem (suc n))
                (opened ∙ run)),
      )
      | inr (beyond, run) ↦ inr (
        beyond,
        start
            ∙ ap
                (λ c.
                  c >>= next_block mem (suc n) (read_blocks mem fuel) >>= read_count mem (suc n))
                (opened ∙ run),
      )
    ]
