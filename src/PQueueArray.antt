-- ===== src/PQueueArray.antt =====
-- src/PQueueArray.c: the calls on one queue of an array of queues, by its index. Each queue is a struct of
-- its own. `arraySize` is the number of queues that PQueueArray_init allocates. The calls take no lock of
-- the array.
pub mod Queues
pub mod Calls
mod Tests
use tool_boslib.Base.{
  ℕ, zero, suc, ◌-◌, List, [], ◌∷◌, length, Bool, Run, ok, ◌>>=◌, ◌>>◌, require, ℤ, pos, negsuc,
  Option, none, some,
}
use tool_boslib.PQueue.{Status, PQueue, Codec}
use tool_boslib.PQueue.Ring.{
  num_elements as queue_elements, max_length as queue_length, push as queue_push, pop as queue_pop,
  pop_wait as queue_pop_wait, purge as queue_purge, purge_wait as queue_purge_wait,
}

-- `valid` is whether the field has the value PQUEUEARRAY_VALID.
pub record PQueueArray : Type 0 where
  pub valid : Bool
  pub queues : List PQueue

module _ {ℓ} {B : Type ℓ} where
  abbrev pub nth : List B → ℕ → Option B
  nth [] i = none
  nth (b ∷ l) zero = some b
  nth (b ∷ l) (suc i) = nth l i

  -- ( index >= 0 ) && ( index < self->arraySize ), and what stands there.
  abbrev pub at_index : List B → ℤ → Option B
  at_index l (negsuc n) = none
  at_index l (pos i) = nth l i

  abbrev pub put_nth : List B → ℕ → B → List B
  put_nth [] i b = []
  put_nth (a ∷ l) zero b = b ∷ l
  put_nth (a ∷ l) (suc i) b = a ∷ put_nth l i b

  abbrev pub put_at : List B → ℤ → B → List B
  put_at l (negsuc n) b = l
  put_at l (pos i) b = put_nth l i b

-- The struct of one queue has changed.
abbrev pub with_queue : PQueueArray → ℤ → PQueue → PQueueArray
with_queue self index q = record self { queues = put_at self.queues index q }

unfoldable pub get_array_size : PQueueArray → Run ℕ
get_array_size self = do require self.valid; ok (length self.queues)

-- `none` is NULL.
unfoldable pub get_queue : PQueueArray → ℤ → Run (Option PQueue)
get_queue self index = do require self.valid; ok (at_index self.queues index)

-- The result of a call that asks a queue, which is -1 out of bounds.
abbrev pub asked : Option PQueue → (PQueue → Run ℕ) → Run ℤ
asked none ask = ok (negsuc 0)
asked (some q) ask = do n ← ask q; ok (pos n)

unfoldable pub num_elements : PQueueArray → ℤ → Run ℤ
num_elements self index = do require self.valid; asked (at_index self.queues index) queue_elements

unfoldable pub max_length : PQueueArray → ℤ → Run ℤ
max_length self index = do require self.valid; asked (at_index self.queues index) queue_length

module _ {A : Type 0} (codec : Codec A) where
  abbrev pub push_to : PQueueArray → ℤ → Option PQueue → A → Bool → Run (Status × PQueueArray)
  push_to self index none x seek_ok = ok (Status.no_such_queue, self)
  push_to self index (some q) x seek_ok = do
    (status, q') ← queue_push codec q x seek_ok
    ok (status, with_queue self index q')

  unfoldable pub push : PQueueArray → ℤ → A → Bool → Run (Status × PQueueArray)
  push self index x seek_ok = do
    require self.valid
    push_to self index (at_index self.queues index) x seek_ok

  -- `none` leaves the caller's element as it is.
  abbrev pub pop_by :
      PQueueArray
      → ℤ
      → Option PQueue
      → (PQueue → Run (Status × Option A × PQueue))
      → Run (Status × Option A × PQueueArray)
  pop_by self index none call = ok (Status.no_such_queue, none, self)
  pop_by self index (some q) call = do
    (status, x, q') ← call q
    ok (status, x, with_queue self index q')

  unfoldable pub pop : PQueueArray → ℤ → Bool → Run (Status × Option A × PQueueArray)
  pop self index seek_ok = do
    require self.valid
    pop_by self index (at_index self.queues index) (λ q. queue_pop codec q seek_ok)

  unfoldable pub pop_wait :
      PQueueArray → ℤ → ℤ → Bool → List A → Bool → Run (Status × Option A × PQueueArray)
  pop_wait self index microsecs wakes meanwhile seek_ok = do
    require self.valid
    pop_by self index (at_index self.queues index)
        (λ q. queue_pop_wait codec q microsecs wakes meanwhile seek_ok)

  -- `none` leaves the caller's array and count as they are.
  abbrev pub purge_by :
      PQueueArray
      → ℤ
      → Option PQueue
      → (PQueue → Run (Status × List A × PQueue))
      → Run (Status × Option (List A) × PQueueArray)
  purge_by self index none call = ok (Status.no_such_queue, none, self)
  purge_by self index (some q) call = do
    (status, xs, q') ← call q
    ok (status, some xs, with_queue self index q')

  unfoldable pub purge : PQueueArray → ℤ → (ℕ → Bool) → Run (Status × Option (List A) × PQueueArray)
  purge self index seek_ok = do
    require self.valid
    purge_by self index (at_index self.queues index) (λ q. queue_purge codec q seek_ok)

  unfoldable pub purge_wait :
      PQueueArray
      → ℤ
      → ℤ
      → Bool
      → List A
      → (ℕ → Bool)
      → Run (Status × Option (List A) × PQueueArray)
  purge_wait self index microsecs wakes meanwhile seek_ok = do
    require self.valid
    purge_by self index (at_index self.queues index)
        (λ q. queue_purge_wait codec q microsecs wakes meanwhile seek_ok)
