-- ===== src/PQueueArray/Calls.antt =====
-- src/PQueueArray.c: a push and a pop in terms of the lists of elements that the queues of an array hold.
use mathlib.Core.Path.{subst}
use tool_boslib.Base.{
  ◌≡◌, ◌⊎◌, inl, inr, refl, sym, ap, ◌∙◌, List, [], ◌∷◌, ◌++◌, Bool, Run, ok, ◌>>=◌, ◌>>◌, require,
  Returns, ℤ, pos, ℕ, All, Option, none,
}
use tool_boslib.PQueue.{Status, PQueue, Codec, IsCodec}
use tool_boslib.PQueue.Ring.{pop as queue_pop}
use tool_boslib.PQueue.Fifo.{Holds, Fits, Pushes, push-Holds}
use tool_boslib.PQueue.Pop.{Pops, pop-Holds}
use tool_boslib.PQueueArray.Queues.{
  HoldsAll, OutOfBounds, At, Found, All-middle, at_index-cases, put-HoldsAll,
}
use tool_boslib.PQueueArray.{PQueueArray, at_index, with_queue, push, pop, push_to, pop_by}

module _ {A : Type 0} (codec : Codec A) where
  -- The list of a queue after a push with this status.
  abbrev pub pushed : Status → List A → A → List A
  pushed Status.ok q x = q ++ x ∷ []
  pushed status q x = q

  -- What a push to the queue of an index does.
  abbrev pub PushesAt : List (List A) → PQueueArray → ℤ → A → Bool → Status × PQueueArray → Type 0
  PushesAt qs self index x seek_ok r =
      (OutOfBounds self.queues index × (r.0 ≡ Status.no_such_queue) × (r.1 ≡ self))
      ⊎ ((i : ℕ) × (at : At codec qs self.queues i) × (t : PQueue) × (index ≡ pos i)
          × Pushes codec at.list at.queue x seek_ok (r.0, t)
          × (r.1.queues ≡ at.before ++ t ∷ at.behind)
          × HoldsAll codec (at.lists_before ++ pushed r.0 at.list x ∷ at.lists_behind) r.1)

  pushed-Holds :
      {q : List A} {s t : PQueue} (status : Status) (x : A) (seek_ok : Bool)
      → Holds codec q s
      → Pushes codec q s x seek_ok (status, t)
      → Holds codec (pushed status q x) t
  pushed-Holds {q} {s} {t} status x seek_ok h p = elim p [
    | inl (room, seeks, stored, holds) ↦
        subst (λ st. Holds codec (pushed st q x) t) (sym stored) holds
    | inr (inl (full, fails, same)) ↦
        subst (λ st. Holds codec (pushed st q x) t) (sym fails) (unchanged same)
    | inr (inr (room, stuck, fails, same)) ↦
        subst (λ st. Holds codec (pushed st q x) t) (sym fails) (unchanged same)
  ]
    where
      unchanged : t ≡ s → Holds codec q t
      unchanged same = subst (Holds codec q) (sym same) h

  push-Found :
      {qs : List (List A)} {self : PQueueArray} (i : ℕ) (x : A) (seek_ok : Bool)
      → HoldsAll codec qs self
      → All (λ s. Fits codec s x) self.queues
      → (at : At codec qs self.queues i) × Found codec qs self.queues i at
      → Returns
          (push_to codec self (pos i) (at_index self.queues (pos i)) x seek_ok)
          (PushesAt qs self (pos i) x seek_ok)
  push-Found {qs} {self} i x seek_ok h fits (at, f) =
      let fit : Fits codec at.queue x =
        All-middle (λ s. Fits codec s x) at.before at.queue at.behind
          (subst (All (λ s. Fits codec s x)) at.same_queues fits) in
      let done = push-Holds codec x seek_ok f.holds fit in
      let r : Status × PQueue = done.0 in
      let After : Run (Status × PQueue) → Run (Status × PQueueArray) =
        λ c. c >>= λ r. ok (r.0, with_queue self (pos i) r.1) in
      (
        (r.0, with_queue self (pos i) r.1),
        ap (λ o. push_to codec self (pos i) o x seek_ok) f.looked_up ∙ ap After done.1,
        inr (
          i,
          at,
          r.1,
          refl,
          done.2.0,
          f.put r.1,
          put-HoldsAll h f (pushed-Holds r.0 x seek_ok f.holds done.2.0),
        ),
      )

  push-outside :
      {qs : List (List A)} {self : PQueueArray} (index : ℤ) (x : A) (seek_ok : Bool)
      → OutOfBounds self.queues index
      → at_index self.queues index ≡ none
      → Returns
          (push_to codec self index (at_index self.queues index) x seek_ok)
          (PushesAt qs self index x seek_ok)
  push-outside {qs} {self} index x seek_ok out absent = (
    (Status.no_such_queue, self),
    ap (λ o. push_to codec self index o x seek_ok) absent,
    inl (out, refl, refl),
  )

  pub push-PushesAt :
      {qs : List (List A)} {self : PQueueArray} (index : ℤ) (x : A) (seek_ok : Bool)
      → HoldsAll codec qs self
      → All (λ s. Fits codec s x) self.queues
      → Returns (push codec self index x seek_ok) (PushesAt qs self index x seek_ok)
  unfolding push
  push-PushesAt {qs} {self} index x seek_ok h fits =
      let done =
        at_index-cases codec qs self.queues h.each
          (λ index.
            Returns (push_to codec self index (at_index self.queues index) x seek_ok)
              (PushesAt qs self index x seek_ok))
          (λ index. push-outside index x seek_ok) (λ i. push-Found i x seek_ok h fits) index in
      let Checked : Bool → Run (Status × PQueueArray) =
        λ b. require b >> push_to codec self index (at_index self.queues index) x seek_ok in
      (done.0, ap Checked h.set_up ∙ done.1, done.2)

  -- The list of a queue after a pop with this status.
  abbrev pub popped : Status → List A → List A
  popped Status.ok (x ∷ q) = q
  popped status q = q

  -- What a pop from the queue of an index does.
  abbrev pub PopsAt :
      List (List A) → PQueueArray → ℤ → Bool → Status × Option A × PQueueArray → Type 0
  PopsAt qs self index seek_ok r =
      (OutOfBounds self.queues index × (r.0 ≡ Status.no_such_queue) × (r.1 ≡ none) × (r.2 ≡ self))
      ⊎ ((i : ℕ) × (at : At codec qs self.queues i) × (t : PQueue) × (index ≡ pos i)
          × Pops codec at.list at.queue seek_ok (r.0, r.1, t)
          × (r.2.queues ≡ at.before ++ t ∷ at.behind)
          × HoldsAll codec (at.lists_before ++ popped r.0 at.list ∷ at.lists_behind) r.2)

  popped-Holds :
      {s t : PQueue} (q : List A) (status : Status) (x : Option A) (seek_ok : Bool)
      → Holds codec q s
      → Pops codec q s seek_ok (status, x, t)
      → Holds codec (popped status q) t
  popped-Holds {s} {t} [] status x seek_ok h (empty, absent, same) =
      subst (λ st. Holds codec (popped st []) t) (sym empty) (subst (Holds codec []) (sym same) h)
  popped-Holds {s} {t} (y ∷ q) status x seek_ok h (inl (seeks, taken, oldest, holds)) =
      subst (λ st. Holds codec (popped st (y ∷ q)) t) (sym taken) holds
  popped-Holds {s} {t} (y ∷ q) status x seek_ok h (inr (stuck, fails, absent, same)) =
      subst (λ st. Holds codec (popped st (y ∷ q)) t) (sym fails)
        (subst (Holds codec (y ∷ q)) (sym same) h)

  -- The call of a queue that `pop` makes.
  abbrev popping : PQueueArray → ℤ → Bool → Option PQueue → Run (Status × Option A × PQueueArray)
  popping self index seek_ok o = pop_by codec self index o (λ q. queue_pop codec q seek_ok)

  pop-Found :
      {qs : List (List A)} {self : PQueueArray} (i : ℕ) (seek_ok : Bool)
      → IsCodec codec
      → HoldsAll codec qs self
      → (at : At codec qs self.queues i) × Found codec qs self.queues i at
      → Returns
          (popping self (pos i) seek_ok (at_index self.queues (pos i)))
          (PopsAt qs self (pos i) seek_ok)
  pop-Found {qs} {self} i seek_ok laws h (at, f) =
      let done = pop-Holds codec seek_ok laws f.holds in
      let r : Status × Option A × PQueue = done.0 in
      let After : Run (Status × Option A × PQueue) → Run (Status × Option A × PQueueArray) =
        λ c. c >>= λ r. ok (r.0, r.1, with_queue self (pos i) r.2) in
      (
        (r.0, r.1, with_queue self (pos i) r.2),
        ap (popping self (pos i) seek_ok) f.looked_up ∙ ap After done.1,
        inr (
          i,
          at,
          r.2,
          refl,
          done.2,
          f.put r.2,
          put-HoldsAll h f (popped-Holds at.list r.0 r.1 seek_ok f.holds done.2),
        ),
      )

  pop-outside :
      {qs : List (List A)} {self : PQueueArray} (index : ℤ) (seek_ok : Bool)
      → OutOfBounds self.queues index
      → at_index self.queues index ≡ none
      → Returns
          (popping self index seek_ok (at_index self.queues index))
          (PopsAt qs self index seek_ok)
  pop-outside {qs} {self} index seek_ok out absent = (
    (Status.no_such_queue, none, self),
    ap (popping self index seek_ok) absent,
    inl (out, refl, refl, refl),
  )

  pub pop-PopsAt :
      {qs : List (List A)} {self : PQueueArray} (index : ℤ) (seek_ok : Bool)
      → IsCodec codec
      → HoldsAll codec qs self
      → Returns (pop codec self index seek_ok) (PopsAt qs self index seek_ok)
  unfolding pop
  pop-PopsAt {qs} {self} index seek_ok laws h =
      let done =
        at_index-cases codec qs self.queues h.each
          (λ index.
            Returns (popping self index seek_ok (at_index self.queues index))
              (PopsAt qs self index seek_ok))
          (λ index. pop-outside index seek_ok) (λ i. pop-Found i seek_ok laws h) index in
      let Checked : Bool → Run (Status × Option A × PQueueArray) =
        λ b. require b >> popping self index seek_ok (at_index self.queues index) in
      (done.0, ap Checked h.set_up ∙ done.1, done.2)

  -- PQueueArray_push and PQueueArray_pop return, for an array that is set up and whose queues hold
  -- lists of elements, an element that fits in every queue, and a serialize function that can be read
  -- back. For an index that is negative, or not below the number of queues, they return noSuchQueue and
  -- change nothing. Otherwise they do to the queue that stands at that index what PQueue_push and
  -- PQueue_pop do: its list gets the element at its end, or loses its first, exactly if the status is
  -- ok, and the queues before it and behind it are as they were.
  pub calls-At :
      {qs : List (List A)} {self : PQueueArray} (index : ℤ) (x : A) (seek_ok : Bool)
      → IsCodec codec
      → HoldsAll codec qs self
      → All (λ s. Fits codec s x) self.queues
      → Returns (push codec self index x seek_ok) (PushesAt qs self index x seek_ok)
        × Returns (pop codec self index seek_ok) (PopsAt qs self index seek_ok)
  calls-At index x seek_ok laws h fits =
      (push-PushesAt index x seek_ok h fits, pop-PopsAt index seek_ok laws h)
