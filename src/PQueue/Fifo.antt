-- ===== src/PQueue/Fifo.antt =====
-- The state of a queue as a bounded list, oldest element first, and `push` of src/PQueue.c against it.
use native.Mathlib.Nat.{mod-add-mod, mod-lt}
use mathlib.Core.Path.{subst}
use tool_boslib.Base.{
  ℕ, ◌+◌, ◌*◌, ◌%◌, ◌≤◌, ◌<◌, ◌≡◌, refl, sym, ap, ◌∙◌, List, [], ◌∷◌, ◌++◌, arith, length,
  length-append, ltb, inl, inr, Bool-cases, Bool, true, false, Returns, ◌⊎◌, lt→ltb,
}
use tool_boslib.PQueue.{Status, Stage, PQueue, Codec}
use tool_boslib.PQueue.Ring.{is_valid, overwrite, store_data, push, after_store}
use tool_boslib.PQueue.Window.{Window, Window-snoc}

module _ {A : Type 0} (codec : Codec A) where
  -- The element, serialized, is no longer than that from which `setupElement` took the size.
  abbrev pub Fits : PQueue → A → Type 0
  Fits self x = length (codec.serialize x) ≤ self.max_element_size

  -- A queue that is set up and holds the elements `q`.
  pub record Holds (q : List A) (self : PQueue) : Type 0 where
    pub set_up : self.valid ≡ Stage.valid
    pub head_in : self.head < self.max_length
    pub counted : self.num_elements ≡ length q
    pub bounded : length q ≤ self.max_length
    pub tail_at : self.tail ≡ (self.head + length q) % self.max_length
    pub window : Window codec self.max_element_size self.max_length self.element_memory self.head q

  -- What no call changes.
  abbrev pub SameShape : PQueue → PQueue → Type 0
  SameShape a b = (a.max_length ≡ b.max_length) × (a.max_element_size ≡ b.max_element_size)

  -- What `push` of `x` to the queue `q` does: it appends the element if there is room and the seek
  -- succeeds. Otherwise it changes nothing and returns the status that says which of the two failed.
  abbrev pub Pushes : List A → PQueue → A → Bool → Status × PQueue → Type 0
  Pushes q self x seek_ok r =
      ((length q < self.max_length)
        × (seek_ok ≡ true)
        × (r.0 ≡ Status.ok)
        × Holds (q ++ x ∷ []) r.1)
      ⊎ ((length q ≡ self.max_length) × (r.0 ≡ Status.queue_full) × (r.1 ≡ self))
      ⊎ ((length q < self.max_length)
          × (seek_ok ≡ false)
          × (r.0 ≡ Status.store_data_failed)
          × (r.1 ≡ self))

  -- The bytes outside of the block of memory are left alone.
  abbrev pub WithinBlock : PQueue → PQueue → Type 0
  WithinBlock self t =
      (a : ℕ)
      → self.max_length * self.max_element_size ≤ a
      → t.element_memory a ≡ self.element_memory a

  pub set_up-is_valid : (s : Stage) → s ≡ Stage.valid → is_valid s ≡ true
  set_up-is_valid s e = rw e

  slot_end : (t cap size : ℕ) → t < cap → t * size + size ≤ cap * size
  slot_end t cap size h = grind arith

  store-WithinBlock :
      (self : PQueue) (x : A)
      → self.tail < self.max_length
      → Fits self x
      → WithinBlock self (store_data codec self x true).1
  unfolding store_data overwrite
  store-WithinBlock self x h fits a out =
      ground (arith, slot_end self.tail self.max_length self.max_element_size h)

  tail_in-Holds : {q : List A} {self : PQueue} → Holds q self → self.tail < self.max_length
  tail_in-Holds {q} {self} h =
      subst (λ t. t < self.max_length) (sym h.tail_at)
        (mod-lt (self.head + length q) (omega (arith, h.head_in)))

  push-stored :
      {q : List A} {self : PQueue} (x : A)
      → Holds q self
      → Fits self x
      → length q < self.max_length
      → Holds (q ++ x ∷ []) (after_store codec (store_data codec self x true)).1
  unfolding after_store store_data
  push-stored {q} {self} x h fits room =
      let longer = length-append q (x ∷ []) in
      record {
        set_up = h.set_up;
        head_in = h.head_in;
        counted = omega (arith, longer, h.counted);
        bounded = omega (arith, longer);
        tail_at =
            ap (λ t. (t + 1) % self.max_length) h.tail_at
            ∙ mod-add-mod _ _ _
            ∙ ap (λ n. n % self.max_length) (omega (arith, longer));
        window =
            Window-snoc codec self.max_element_size self.max_length self.element_memory x q
              self.head self.tail h.head_in room h.tail_at fits h.window;
      }

  -- PQueue_push of an element that fits, to a queue that holds a list of elements, returns. If there is
  -- room and the seek succeeds it appends the element to the queue; otherwise it changes nothing and
  -- its status says which of the two failed. It keeps the shape and writes within the block.
  pub push-Holds :
      {q : List A} {self : PQueue} (x : A) (seek_ok : Bool)
      → Holds q self
      → Fits self x
      → Returns
          (push codec self x seek_ok)
          λ r. Pushes q self x seek_ok r × SameShape r.1 self × WithinBlock self r.1
  unfolding push after_store store_data
  push-Holds {q} {self} x true h fits =
      rw (set_up-is_valid self.valid h.set_up)
        (elim (Bool-cases (ltb self.num_elements self.max_length)) [
          | inl lt ↦
              let room : length q < self.max_length = ground (arith, h.counted) in
              let tail_in : self.tail < self.max_length = tail_in-Holds h in
              rw lt (
                rw (lt→ltb _ _ tail_in) (
                  _,
                  refl,
                  (
                    inl (room, refl, refl, push-stored x h fits room),
                    (refl, refl),
                    store-WithinBlock self x tail_in fits,
                  ),
                ))
          | inr ge ↦
              let full : length q ≡ self.max_length = ground (arith, h.counted, h.bounded) in
              rw ge (_, refl, (inr (inl (full, refl, refl)), (refl, refl), λ a out. refl))
        ])
  push-Holds {q} {self} x false h fits =
      rw (set_up-is_valid self.valid h.set_up)
        (elim (Bool-cases (ltb self.num_elements self.max_length)) [
          | inl lt ↦
              let room : length q < self.max_length = ground (arith, h.counted) in
              let tail_in : self.tail < self.max_length = tail_in-Holds h in
              rw lt (
                rw (lt→ltb _ _ tail_in)
                  (_, refl, (inr (inr (room, refl, refl, refl)), (refl, refl), λ a out. refl)))
          | inr ge ↦
              let full : length q ≡ self.max_length = ground (arith, h.counted, h.bounded) in
              rw ge (_, refl, (inr (inl (full, refl, refl)), (refl, refl), λ a out. refl))
        ])
