-- ===== src/PQueue/Pop.antt =====
-- `pop` and `purge` of src/PQueue.c against the bounded list of PQueue/Fifo.antt.
use native.Mathlib.Nat.{mod-add-mod, mod-lt}
use tool_boslib.Base.{
  ℕ, ◌+◌, ◌-◌, ◌*◌, ◌%◌, ◌<◌, ◌≡◌, refl, sym, ap, ap₂, ◌∙◌, List, [], ◌∷◌, ◌++◌, arith, length, ltb,
  inl, inr, Bool, true, false, Option, none, some, Run, Returns, ◌⊎◌, lt→ltb,
}
use tool_boslib.PQueue.{Status, PQueue, Codec, IsCodec}
use tool_boslib.PQueue.Ring.{retrieve_data, pop, purge, purge_rounds, next_round, after_retrieve}
use tool_boslib.PQueue.Fifo.{Holds, set_up-is_valid}

module _ {A : Type 0} (codec : Codec A) where
  -- What `pop` of the queue `q` does: it takes the oldest element if there is one and the seek succeeds.
  -- Otherwise it changes nothing and returns the status that says which of the two failed.
  abbrev pub Pops : List A → PQueue → Bool → Status × Option A × PQueue → Type 0
  Pops [] self seek_ok r = (r.0 ≡ Status.queue_empty) × (r.1 ≡ none) × (r.2 ≡ self)
  Pops (x ∷ q) self seek_ok r =
      ((seek_ok ≡ true) × (r.0 ≡ Status.ok) × (r.1 ≡ some x) × Holds codec q r.2)
      ⊎ ((seek_ok ≡ false) × (r.0 ≡ Status.retrieve_data_failed) × (r.1 ≡ none) × (r.2 ≡ self))

  retrieved :
      {x : A} {q : List A} {self : PQueue}
      → IsCodec codec
      → Holds codec (x ∷ q) self
      → codec.deserialize (λ i. self.element_memory (self.head * self.max_element_size + i)) ≡ x
  retrieved {x} laws h = laws.round_trip x _ h.window.0.bytes

  pop-rest :
      {x : A} {q : List A} {self : PQueue}
      → Holds codec (x ∷ q) self
      → Holds codec q (record self {
        num_elements = self.num_elements - 1;
        head = (self.head + 1) % self.max_length;
      })
  pop-rest {x} {q} {self} h = record {
    set_up = h.set_up;
    head_in = mod-lt (self.head + 1) (omega (arith, h.head_in));
    counted = omega (arith, h.counted);
    bounded = omega (arith, h.bounded);
    tail_at =
        h.tail_at
        ∙ ap (λ n. n % self.max_length) (omega arith)
        ∙ sym (mod-add-mod (self.head + 1) self.max_length (length q));
    window = h.window.1;
  }

  after_retrieve-Pops :
      {x : A} {q : List A} {self : PQueue}
      → IsCodec codec
      → (seek_ok : Bool) → Holds codec (x ∷ q) self
      → Pops (x ∷ q) self seek_ok (after_retrieve codec self (retrieve_data codec self seek_ok))
  unfolding after_retrieve retrieve_data
  after_retrieve-Pops laws true h = inl (refl, refl, ap some (retrieved laws h), pop-rest h)
  after_retrieve-Pops laws false h = inr (refl, refl, refl, refl)

  none_left : (n : ℕ) → n ≡ 0 → ltb 0 n ≡ false
  none_left n e = ground arith

  -- PQueue_pop of a queue that holds a list of elements, which its serialize function can read back,
  -- returns and takes the oldest one if there is one and the seek succeeds; otherwise it changes
  -- nothing and its status says which of the two failed.
  pub pop-Holds :
      {q : List A} {self : PQueue} (seek_ok : Bool)
      → IsCodec codec
      → Holds codec q self
      → Returns (pop codec self seek_ok) (Pops q self seek_ok)
  unfolding pop
  pop-Holds {q = []} {self} seek_ok laws h =
      rw (set_up-is_valid codec self.valid h.set_up)
        (rw (none_left self.num_elements h.counted) (_, refl, (refl, refl, refl)))
  pop-Holds {q = x ∷ q} {self} seek_ok laws h = rw (set_up-is_valid codec self.valid h.set_up) (
      rw (lt→ltb 0 self.num_elements (omega (arith, h.counted)))
        (rw (lt→ltb _ _ h.head_in) (_, refl, after_retrieve-Pops laws seek_ok h)))

  -- What goes to `data` is the oldest elements, and what stays in the queue is the others.
  abbrev pub Purges : List A → (ℕ → Bool) → Status × List A × PQueue → Type 0
  Purges q seek_ok r =
      (rest : List A) × (q ≡ r.1 ++ rest)
      × Holds codec rest r.2
      × (((q ≡ []) × (r.0 ≡ Status.queue_empty))
          ⊎ ((0 < length q) × (rest ≡ []) × (r.0 ≡ Status.ok))
          ⊎ ((0 < length rest)
              × (seek_ok (length r.1) ≡ false)
              × (r.0 ≡ Status.retrieve_data_failed)))

  -- The rounds that are left take what is left, or up to the seek that fails.
  Takes : List A → ℕ → (ℕ → Bool) → Status × List A × PQueue → Type 0
  Takes q i seek_ok r =
      (rest : List A) × (q ≡ r.1 ++ rest)
      × Holds codec rest r.2
      × (((rest ≡ []) × (r.0 ≡ Status.ok))
          ⊎ ((0 < length rest)
              × (seek_ok (i + length r.1) ≡ false)
              × (r.0 ≡ Status.retrieve_data_failed)))

  take_more :
      {x y : A} (q : List A) (i : ℕ) (seek_ok : ℕ → Bool) (r : Status × List A × PQueue)
      → y ≡ x
      → Takes q (i + 1) seek_ok r
      → Takes (x ∷ q) i seek_ok (r.0, y ∷ r.1, r.2)
  unfolding Takes
  take_more {x} {y} q i seek_ok r same (rest, e, h, o) = (
    rest,
    ap₂ (λ (a : A) (l : List A). a ∷ l) (sym same) e,
    h,
    elim o [ inl d ↦ inl d | inr (l, s, d) ↦ inr (l, ap seek_ok (omega arith) ∙ s, d) ],
  )

  next_round-Takes :
      {x : A} {q : List A} {self : PQueue} (i : ℕ) (seek_ok : ℕ → Bool) (b : Bool)
      → IsCodec codec
      → Holds codec (x ∷ q) self
      → seek_ok i ≡ b
      → (more : PQueue → Run (Status × List A × PQueue))
      → ((s : PQueue) → Holds codec q s → Returns (more s) (Takes q (i + 1) seek_ok))
      → Returns
          (next_round codec (after_retrieve codec self (retrieve_data codec self b)) more)
          (Takes (x ∷ q) i seek_ok)
  unfolding after_retrieve retrieve_data next_round Takes
  next_round-Takes {x} {q} {self} i seek_ok true laws h e more others =
      let (r, run, takes) = others _ (pop-rest h) in
      rw run (_, refl, take_more q i seek_ok r (retrieved laws h) takes)
  next_round-Takes {x} {q} {self} i seek_ok false laws h e more others =
      (_, refl, (x ∷ q, refl, h, inr (omega arith, ap seek_ok (omega arith) ∙ e, refl)))

  purge_rounds-Takes :
      (q : List A) (i : ℕ) (seek_ok : ℕ → Bool) (self : PQueue)
      → IsCodec codec
      → Holds codec q self
      → Returns (purge_rounds codec (length q) i seek_ok Status.ok self) (Takes q i seek_ok)
  unfolding purge_rounds Takes
  purge_rounds-Takes [] i seek_ok self laws h = (_, refl, ([], refl, h, inl (refl, refl)))
  purge_rounds-Takes (x ∷ q) i seek_ok self laws h =
      rw (set_up-is_valid codec self.valid h.set_up) (
        rw (lt→ltb _ _ h.head_in) (
          next_round-Takes i seek_ok (seek_ok i) laws h refl
            (purge_rounds codec (length q) (i + 1) seek_ok Status.ok)
            (λ s held. purge_rounds-Takes q (i + 1) seek_ok s laws held)))

  -- PQueue_purge of a queue that holds a list of elements, which its serialize function can read back,
  -- returns and takes out its elements, oldest first, up to the first seek that fails; the status tells
  -- an empty queue, a full purge and a failed seek apart.
  pub purge-Holds :
      {q : List A} {self : PQueue} (seek_ok : ℕ → Bool)
      → IsCodec codec
      → Holds codec q self
      → Returns (purge codec self seek_ok) (Purges q seek_ok)
  unfolding purge Takes
  purge-Holds {q = []} {self} seek_ok laws h =
      rw (set_up-is_valid codec self.valid h.set_up)
        (rw (none_left self.num_elements h.counted) (_, refl, ([], refl, h, inl (refl, refl))))
  purge-Holds {q = x ∷ q} {self} seek_ok laws h =
      let (r, run, (rest, e, held, o)) = purge_rounds-Takes (x ∷ q) 0 seek_ok self laws h in
      let run' = ap (λ n. purge_rounds codec n 0 seek_ok Status.ok self) h.counted ∙ run in
      rw (set_up-is_valid codec self.valid h.set_up) (
        rw (lt→ltb 0 self.num_elements (omega (arith, h.counted))) (
          r,
          run',
          (
            rest,
            e,
            held,
            inr (elim o [
              | inl d ↦ inl (omega arith, d.0, d.1)
              | inr (l, bad, d) ↦ inr (l, ap seek_ok (omega arith) ∙ bad, d)
            ]),
          ),
        ))
