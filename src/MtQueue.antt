-- ===== src/MtQueue.antt =====
-- src/MTQueue.c: a queue of linked elements on the heap, in FIFO or LIFO order.
-- An address is a number, 0 for NULL. The address that calloc gives enters as an argument. A thread
-- that waits lets other threads push, which enters as the list of what they push; otherwise a call
-- holds the lock, so it runs alone.
pub mod Chain
pub mod Order
pub mod Pop
pub mod Wait
mod Tests
use tool_boslib.Cond.{wait}
use tool_boslib.Base.{
  ℤ, ℕ, zero, suc, ◌+◌, ◌-◌, ◌%◌, ◌^◌, List, [], ◌∷◌, Bool, true, false, not, Option, none, some,
  ltb, ◌==◌, if◌then◌else◌, Run, ok, exit, ◌>>=◌, ◌>>◌, require,
}

-- MTQueueElement
pub record Node : Type 0 where
  pub item : ℕ
  pub user_class : ℕ
  pub next : ℕ

abbrev pub Heap : Type 0
Heap = ℕ → Node

-- A write of a whole element.
unfoldable pub put : Heap → ℕ → Node → Heap
put heap a node b = if b == a then node else heap b

-- MTQueueType, with any other number in its place.
pub data QueueType : Type 0 where
  fifo lifo other : QueueType

-- The lock and the condition exist together. `signals` counts the calls of Cond_signal.
pub record MtQueue : Type 0 where
  pub valid : Bool
  pub type : QueueType
  pub multi_thread : Bool
  pub num_elements : ℕ
  pub head : ℕ
  pub tail : ℕ
  pub quit : Bool
  pub signals : ℕ
  pub heap : Heap

-- Mutex_new and Cond_new end the process where they get no memory.
unfoldable pub init : Heap → QueueType → Bool → Run MtQueue
init heap type multi_thread = ok (record {
  valid = true;
  type = type;
  multi_thread = multi_thread;
  num_elements = 0;
  head = 0;
  tail = 0;
  quit = false;
  signals = 0;
  heap = heap;
})

-- `numElements++` on `unsigned long`
abbrev pub one_more : ℕ → ℕ
one_more n = (n + 1) % 2 ^ 64

unfoldable pub add_head : MtQueue → ℕ → ℕ → ℕ → Run MtQueue
add_head self e item user_class = do
  require self.valid
  require (not (item == 0))
  require (not (e == 0))
  let node : Node = record { item = item; user_class = user_class; next = self.head }
  let linked : MtQueue = record self {
    head = e;
    num_elements = one_more self.num_elements;
    heap = put self.heap e node;
  }
  ok (if self.head == 0 then record linked { tail = e } else linked)

-- calloc leaves `next` NULL.
unfoldable pub add_tail : MtQueue → ℕ → ℕ → ℕ → Run MtQueue
add_tail self e item user_class = do
  require self.valid
  require (not (item == 0))
  require (not (e == 0))
  let node : Node = record { item = item; user_class = user_class; next = 0 }
  let heap = put self.heap e node
  let counted : MtQueue = record self {
    tail = e;
    num_elements = one_more self.num_elements;
    heap = heap;
  }
  ok (
      if self.tail == 0
      then record counted { head = e }
      else record counted { heap = put heap self.tail (record (heap self.tail) { next = e }) })

abbrev pub signal_push : MtQueue → MtQueue
signal_push self = record self {
  signals = if self.multi_thread then self.signals + 1 else self.signals;
}

-- Another type is logged.
abbrev pub push_as : QueueType → MtQueue → ℕ → ℕ → ℕ → Run MtQueue
push_as QueueType.fifo self e item user_class = do
  linked ← add_tail self e item user_class
  ok (signal_push linked)
push_as QueueType.lifo self e item user_class = do
  linked ← add_head self e item user_class
  ok (signal_push linked)
push_as QueueType.other self e item user_class = ok self

unfoldable pub push : MtQueue → ℕ → ℕ → ℕ → Run MtQueue
push self e item user_class = do
  require self.valid
  require (not (item == 0))
  push_as self.type self e item user_class

-- `with_class` is whether the caller passes a place for the class; `none` leaves it as it is.
-- The head element `e` is taken, and `left` elements remain.
unfoldable pub take_head : Node → Bool → ℕ → MtQueue → Run (ℕ × Option ℕ × MtQueue)
take_head e with_class left self = do
  let class = if with_class then some e.user_class else none
  let rest : MtQueue = record self { head = e.next; num_elements = left }
  if left == 0
      then (do require (e.next == 0); ok (e.item, class, record rest { head = 0; tail = 0 }))
      else ok (e.item, class, rest)

unfoldable pub unlocked_pop : MtQueue → Bool → Run (ℕ × Option ℕ × MtQueue)
unlocked_pop self with_class = do
  require self.valid
  if ltb 0 self.num_elements
      then take_head (self.heap self.head) with_class (self.num_elements - 1) self
      else ok (0, none, self)

unfoldable pub pop : MtQueue → Bool → Run (ℕ × Option ℕ × MtQueue)
pop self with_class = do require self.valid; unlocked_pop self with_class

-- What other threads push: where the element is allocated, its data and its class.
unfoldable pub push_all : MtQueue → List (ℕ × ℕ × ℕ) → Run MtQueue
push_all self [] = ok self
push_all self ((e, item, user_class) ∷ xs) = do
  self' ← push self e item user_class
  push_all self' xs

-- Cond_wait ends the process without a condition. `others` is what other threads do with the queue while
-- it waits.
unfoldable pub pop_wait :
    MtQueue → Bool → ℤ → Bool → (MtQueue → Run MtQueue) → Run (ℕ × Option ℕ × MtQueue)
pop_wait self with_class microsecs wakes others = do
  require self.valid
  if self.quit
      then ok (0, none, self)
      else (if self.num_elements == 0
          then (do
            require self.multi_thread
            wait microsecs wakes
            self' ← others self
            unlocked_pop self' with_class)
          else unlocked_pop self with_class)

unfoldable pub num_elements : MtQueue → Run ℕ
num_elements self = do require self.valid; ok self.num_elements

unfoldable pub set_quit : MtQueue → Bool → Run MtQueue
set_quit self status = do require self.valid; ok (record self { quit = status })

-- `while( MTQueue_pop( self, MTQUEUE_NOCLASS ));` for at most as many rounds as the fuel says.
unfoldable pub pop_rounds : ℕ → MtQueue → Run MtQueue
pop_rounds zero self = exit
pop_rounds (suc fuel) self = do
  (item, _, self') ← pop self false
  let rest = pop_rounds fuel self'
  if item == 0 then ok self' else rest

-- The lock and the condition are deleted.
unfoldable pub release : MtQueue → Run MtQueue
release self = do
  require (self.num_elements == 0)
  ok (record self { valid = false; multi_thread = false })

-- One round for every element, and one that finds none.
unfoldable pub clear : MtQueue → Run MtQueue
clear self = do require self.valid; empty ← pop_rounds (suc self.num_elements) self; release empty
