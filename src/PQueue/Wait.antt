-- ===== src/PQueue/Wait.antt =====
-- `popWait` and `purgeWait` of src/PQueue.c: they take from the queue what is there after the wait.
use mathlib.Core.Path.{subst}
use tool_boslib.Cond.{wait, Ends, wait-cases}
use tool_boslib.Base.{
  Run, ok, blocked, ◌>>◌, require, false, ℤ, pos, ◌⊎◌, Option, ℕ, zero, suc, ◌-◌, ◌≤◌, ◌<◌, ◌≡◌,
  refl, sym, ap, ◌∙◌, List, [], ◌∷◌, ◌++◌, append_assoc, append-nil, arith, length, length-append,
  inl, inr, Bool, true, ◌>>=◌, Returns, All, take,
}
use tool_boslib.PQueue.{Status, PQueue, Codec, IsCodec}
use tool_boslib.PQueue.Ring.{push_all, pop, pop_wait, purge_wait}
use tool_boslib.PQueue.Fifo.{Fits, Holds, SameShape, set_up-is_valid, push-Holds}
use tool_boslib.PQueue.Pop.{Pops, Purges, pop-Holds, purge-Holds}

module _ {A : Type 0} (codec : Codec A) where
  take-nil : (n : ℕ) → take {A = A} n [] ≡ []
  take-nil zero = refl
  take-nil (suc n) = refl

  append_room :
      (q xs : List A) (x : A) (cap : ℕ)
      → length q < cap
      → (q ++ x ∷ []) ++ take (cap - length (q ++ x ∷ [])) xs ≡ q ++ take (cap - length q) (x ∷ xs)
  append_room q xs x cap room =
      let longer : cap - length q ≡ suc (cap - length (q ++ x ∷ [])) =
        omega (arith, length-append q (x ∷ [])) in
      rw longer (append_assoc q (x ∷ []) _)

  push_all-go :
      (xs q : List A) (self : PQueue) (cap size : ℕ)
      → self.max_length ≡ cap
      → self.max_element_size ≡ size
      → Holds codec q self
      → All (λ x. length (codec.serialize x) ≤ size) xs
      → Returns (push_all codec self xs) λ s.
        Holds codec (q ++ take (cap - length q) xs) s
        × ((s.max_length ≡ cap) × (s.max_element_size ≡ size))
  unfolding push_all
  push_all-go [] q self cap size ec es h fits = (
    self,
    refl,
    (
      subst (λ l. Holds codec l self)
          (sym (ap (λ l. q ++ l) (take-nil (cap - length q)) ∙ append-nil q)) h,
      (ec, es),
    ),
  )
  push_all-go (x ∷ xs) q self cap size ec es h fits =
      let (r, run, (pushes, shape, inside)) =
        push-Holds codec x true h (omega (arith, fits.0, es)) in
      let ec' : r.1.max_length ≡ cap = shape.0 ∙ ec in
      let es' : r.1.max_element_size ≡ size = shape.1 ∙ es in
      elim pushes [
        | inl (room, _, _, held) ↦
            let (s, more, (end, shape')) =
              push_all-go xs (q ++ x ∷ []) r.1 cap size ec' es' held fits.1 in
            (
              s,
              ap (λ m. m >>= λ p. push_all codec p.1 xs) run ∙ more,
              (
                subst (λ l. Holds codec l s) (append_room q xs x cap (omega (arith, ec))) end,
                shape',
              ),
            )
        | inr (inl (full, _, same)) ↦
            let (s, more, (end, shape')) =
              push_all-go xs q r.1 cap size ec' es' (subst (λ p. Holds codec q p) (sym same) h)
                fits.1 in
            let none_fit : cap - length q ≡ 0 = omega (arith, ec) in
            (
              s,
              ap (λ m. m >>= λ p. push_all codec p.1 xs) run ∙ more,
              (subst (λ l. Holds codec l s) (rw none_fit refl) end, shape'),
            )
        | inr (inr (_, bad, _, _)) ↦ absurd (ground arith)
      ]

  -- What producers push goes to the queue while there is room.
  pub push_all-Holds :
      {q : List A} {self : PQueue} (xs : List A)
      → Holds codec q self
      → All (Fits codec self) xs
      → Returns
          (push_all codec self xs)
          λ s. Holds codec (q ++ take (self.max_length - length q) xs) s × SameShape codec s self
  push_all-Holds {q} {self} xs h fits = push_all-go xs q self _ _ refl refl h fits

  -- What `popWait` does: it pops from the queue `s` that the producers leave, or it waits for ever.
  abbrev pub PopWaits :
      List A → PQueue → ℤ → Bool → List A → Bool → Run (Status × Option A × PQueue) → Type 0
  PopWaits q self microsecs wakes meanwhile seek_ok call =
      (Ends microsecs wakes
        × ((s : PQueue) × (push_all codec self meanwhile ≡ ok s)
            × SameShape codec s self
            × Holds codec (q ++ take (self.max_length - length q) meanwhile) s
            × Returns call
                (Pops codec (q ++ take (self.max_length - length q) meanwhile) s seek_ok)))
      ⊎ ((microsecs ≡ pos 0) × (wakes ≡ false) × (call ≡ blocked))

  -- PQueue_popWait of a queue that holds a list of elements, which its serialize function can read
  -- back, always waits, for ever if there is no timeout and no wakeup. Otherwise it returns, and does
  -- what a pop does to the queue that the producers leave: they append what there is room for of
  -- elements that fit.
  pub pop_wait-Holds :
      {q : List A} {self : PQueue} (microsecs : ℤ) (wakes : Bool) (meanwhile : List A)
      (seek_ok : Bool)
      → IsCodec codec
      → Holds codec q self
      → All (Fits codec self) meanwhile
      → PopWaits q self microsecs wakes meanwhile seek_ok
          (pop_wait codec self microsecs wakes meanwhile seek_ok)
  unfolding pop_wait
  pop_wait-Holds {q} {self} microsecs wakes meanwhile seek_ok laws h fits =
      let (s, run, (held, shape)) = push_all-Holds meanwhile h fits in
      let (r, popped, pops) = pop-Holds codec seek_ok laws held in
      let Rest : Run (Unit {0}) → Run (Status × Option A × PQueue) =
        λ w. w >> (push_all codec self meanwhile >>= λ s'. pop codec s' seek_ok) in
      let checked =
        ap (λ b. require b >> Rest (wait microsecs wakes))
          (set_up-is_valid codec self.valid h.set_up) in
      elim (wait-cases microsecs wakes) [
        | inl (ends, ended) ↦
            let all =
              checked ∙ ap Rest ended ∙ ap (λ m. m >>= λ s'. pop codec s' seek_ok) run ∙ popped in
            inl (ends, (s, run, shape, held, (r, all, pops)))
        | inr (zero_time, alone, stuck) ↦ inr (zero_time, alone, checked ∙ ap Rest stuck)
      ]

  -- PQueue_purgeWait of a queue that holds a list of elements, which its serialize function can read
  -- back, returns if its wait ends, and purges the queue as the producers leave it.
  pub purge_wait-Holds :
      {q : List A} {self : PQueue} (microsecs : ℤ) (wakes : Bool) (meanwhile : List A)
      (seek_ok : ℕ → Bool)
      → wait microsecs wakes ≡ ok tt
      → IsCodec codec
      → Holds codec q self
      → All (Fits codec self) meanwhile
      → Returns
          (purge_wait codec self microsecs wakes meanwhile seek_ok)
          (Purges codec (q ++ take (self.max_length - length q) meanwhile) seek_ok)
  unfolding purge_wait
  purge_wait-Holds {q} {self} microsecs wakes meanwhile seek_ok ended laws h fits =
      let (s, run, (held, shape)) = push_all-Holds meanwhile h fits in
      rw (set_up-is_valid codec self.valid h.set_up)
        (rw (ended, run) (purge-Holds codec seek_ok laws held))
