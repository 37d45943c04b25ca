-- ===== src/PQueue/Ring.antt =====
-- The calls of src/PQueue.c that move elements. A thread runs alone in them: the locks always
-- succeed, and what remains of `lockSlot` and `unlockSlot` is their check of the slot. Whether
-- IOChannel_seek succeeds enters as an argument.
use tool_boslib.Cond.{wait}
use tool_boslib.Base.{
  ℤ, ℕ, zero, suc, ◌+◌, ◌-◌, ◌*◌, ◌%◌, List, [], ◌∷◌, Bool, true, false, Option, none, some, ◌&&◌,
  ltb, leb, if◌then◌else◌, length, get_or, Run, ok, ◌>>=◌, ◌>>◌, require,
}
use tool_boslib.PQueue.{Status, Stage, Bytes, PQueue, Codec}

abbrev pub is_valid : Stage → Bool
is_valid Stage.valid = true
is_valid _ = false

-- A write of `bytes` from offset `at` on.
unfoldable pub overwrite : Bytes → ℕ → List ℕ → Bytes
overwrite mem at bytes a =
    if leb at a && ltb (a - at) (length bytes) then get_or bytes (a - at) 0 else mem a

unfoldable pub num_elements : PQueue → Run ℕ
num_elements self = do require (is_valid self.valid); ok self.num_elements

unfoldable pub max_length : PQueue → Run ℕ
max_length self = do require (is_valid self.valid); ok self.max_length

-- PQueue_lockSlot, and PQueue_unlockSlot
abbrev pub lock_slot : PQueue → ℕ → Run (Unit {0})
lock_slot self slot = do require (is_valid self.valid); require (ltb slot self.max_length)

module _ {A : Type 0} (codec : Codec A) where
  unfoldable pub store_data : PQueue → A → Bool → Status × PQueue
  store_data self x seek_ok =
      if seek_ok
      then (
        Status.ok,
        record self {
          element_memory =
              overwrite self.element_memory (self.tail * self.max_element_size) (codec.serialize x);
        },
      )
      else (Status.store_data_failed, self)

  -- `none` leaves the caller's element as it is.
  unfoldable pub retrieve_data : PQueue → Bool → Status × Option A
  retrieve_data self seek_ok =
      if seek_ok
      then (
        Status.ok,
        some (codec.deserialize (λ i. self.element_memory (self.head * self.max_element_size + i))),
      )
      else (Status.retrieve_data_failed, none)

  unfoldable pub after_store : Status × PQueue → Status × PQueue
  after_store (Status.ok, self) = (
    Status.ok,
    record self { num_elements = self.num_elements + 1; tail = (self.tail + 1) % self.max_length },
  )
  after_store (status, self) = (status, self)

  unfoldable pub push : PQueue → A → Bool → Run (Status × PQueue)
  unfolding after_store
  push self x seek_ok = do
    require (is_valid self.valid)
    if ltb self.num_elements self.max_length
        then (do lock_slot self self.tail; ok (after_store (store_data self x seek_ok)))
        else ok (Status.queue_full, self)

  unfoldable pub after_retrieve : PQueue → Status × Option A → Status × Option A × PQueue
  after_retrieve self (Status.ok, x) = (
    Status.ok,
    x,
    record self { num_elements = self.num_elements - 1; head = (self.head + 1) % self.max_length },
  )
  after_retrieve self (status, x) = (status, x, self)

  unfoldable pub pop : PQueue → Bool → Run (Status × Option A × PQueue)
  unfolding after_retrieve
  pop self seek_ok = do
    require (is_valid self.valid)
    if ltb 0 self.num_elements
        then (do lock_slot self self.head; ok (after_retrieve self (retrieve_data self seek_ok)))
        else ok (Status.queue_empty, none, self)

  -- What producers do while a consumer waits and holds the mutex of `pop`.
  unfoldable pub push_all : PQueue → List A → Run PQueue
  push_all self [] = ok self
  push_all self (x ∷ xs) = do (_, self') ← push self x true; push_all self' xs

  -- `meanwhile` is what is pushed until Cond_wait ends. Nobody takes elements then, as the caller holds
  -- the mutex of `pop`, and no call signals `pushCond`.
  unfoldable pub pop_wait : PQueue → ℤ → Bool → List A → Bool → Run (Status × Option A × PQueue)
  pop_wait self microsecs wakes meanwhile seek_ok = do
    require (is_valid self.valid)
    wait microsecs wakes
    self' ← push_all self meanwhile
    pop self' seek_ok

  -- A round that retrieved an element is followed by the others; one that failed breaks the loop.
  unfoldable pub next_round :
      Status × Option A × PQueue
      → (PQueue → Run (Status × List A × PQueue))
      → Run (Status × List A × PQueue)
  next_round (Status.ok, some x, self) more = do
    (status, xs, self') ← more self
    ok (status, x ∷ xs, self')
  next_round (status, x, self) more = ok (status, [], self)

  -- The last `n` rounds of the loop of `purge`, of which the first is the `i`-th.
  unfoldable pub purge_rounds :
      ℕ → ℕ → (ℕ → Bool) → Status → PQueue → Run (Status × List A × PQueue)
  purge_rounds zero i seek_ok status self = ok (status, [], self)
  purge_rounds (suc n) i seek_ok status self = do
    lock_slot self self.head
    next_round (after_retrieve self (retrieve_data self (seek_ok i)))
        (purge_rounds n (i + 1) seek_ok Status.ok)

  -- The list is what goes to `data`, and its length to `numPurged`.
  unfoldable pub purge : PQueue → (ℕ → Bool) → Run (Status × List A × PQueue)
  unfolding after_retrieve next_round purge_rounds
  purge self seek_ok = do
    require (is_valid self.valid)
    if ltb 0 self.num_elements
        then purge_rounds self.num_elements 0 seek_ok Status.ok self
        else ok (Status.queue_empty, [], self)

  unfoldable pub purge_wait :
      PQueue → ℤ → Bool → List A → (ℕ → Bool) → Run (Status × List A × PQueue)
  purge_wait self microsecs wakes meanwhile seek_ok = do
    require (is_valid self.valid)
    wait microsecs wakes
    self' ← push_all self meanwhile
    purge self' seek_ok
