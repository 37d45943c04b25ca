-- ===== src/MtQueue/Tests.antt =====
-- Runs of the model of src/MTQueue.c, and the theorems about it at a queue of two elements.
use tool_boslib.Base.{
  pos, ℕ, ◌≡◌, ◌≢◌, refl, [], ◌∷◌, true, false, arith, ◌==◌, if◌then◌else◌, Run, ok, ◌>>=◌, Returns,
}
use tool_boslib.MtQueue.{
  Heap, put, QueueType, MtQueue, init, push, add_head, add_tail, push_all, pop, take_head,
  unlocked_pop, pop_wait, clear,
}
use tool_boslib.MtQueue.Chain.{Cell}
use tool_boslib.MtQueue.Order.{Carries, IsNew, SameKind, push-Carries}
use tool_boslib.MtQueue.Pop.{Pops, pop-Carries, clear-empty}
use tool_boslib.MtQueue.Wait.{push_all-Carries, PopWaits, pop_wait-Carries}

abbrev cell : ℕ → ℕ → ℕ → Cell
cell a x k = record { address = a; item = x; user_class = k }

abbrev one : Cell
one = cell 100 7 1

abbrev two : Cell
two = cell 200 8 2

abbrev three : Cell
three = cell 300 9 3

abbrev four : Cell
four = cell 400 10 4

abbrev zeros : Heap
zeros a = record { item = 0; user_class = 0; next = 0 }

-- A queue of either type with two elements.
abbrev pair : QueueType → MtQueue
pair type = record {
  valid = true;
  type = type;
  multi_thread = true;
  num_elements = 2;
  head = 100;
  tail = 200;
  quit = false;
  signals = 0;
  heap = λ a.
      if a == 100
      then record { item = 7; user_class = 1; next = 200 }
      else if a == 200
      then record { item = 8; user_class = 2; next = 0 }
      else zeros a;
}

abbrev none_there : QueueType → MtQueue
none_there type = record (pair type) { num_elements = 0; head = 0; tail = 0 }

differ : (a b : ℕ) → a == b ≡ false → a ≢ b
differ a b h e = ground arith

pair-Carries : (type : QueueType) → Carries (one ∷ two ∷ []) (pair type)
pair-Carries type = record {
  is_valid = refl;
  linked = (refl, omega arith, omega arith, (refl, omega arith, omega arith, tt));
  distinct = ((differ 200 100 refl, tt), (tt, tt));
  head_at = refl;
  tail_at = refl;
  counted = refl;
}

none_there-Carries : (type : QueueType) → Carries [] (none_there type)
none_there-Carries type = record {
  is_valid = refl;
  linked = tt;
  distinct = tt;
  head_at = refl;
  tail_at = refl;
  counted = refl;
}

three-IsNew : IsNew (one ∷ two ∷ []) three
three-IsNew = record {
  placed = omega arith;
  apart = (differ 100 300 refl, (differ 200 300 refl, tt));
  has_item = omega arith;
  room = omega arith;
}

four-IsNew : IsNew (three ∷ []) four
four-IsNew = record {
  placed = omega arith;
  apart = (differ 300 400 refl, tt);
  has_item = omega arith;
  room = omega arith;
}

first-IsNew : IsNew [] three
first-IsNew = record {
  placed = omega arith;
  apart = tt;
  has_item = omega arith;
  room = omega arith;
}

push-Carries_example :
    Returns
      (push (pair QueueType.fifo) 300 9 3)
      λ q'. Carries (one ∷ two ∷ three ∷ []) q' × SameKind q' (pair QueueType.fifo)
push-Carries_example =
    push-Carries (pair QueueType.fifo) (one ∷ two ∷ []) three (pair-Carries QueueType.fifo)
      three-IsNew

pop-Carries_example :
    Returns (pop (pair QueueType.lifo) true) (Pops (one ∷ two ∷ []) true (pair QueueType.lifo))
pop-Carries_example =
    pop-Carries (pair QueueType.lifo) (one ∷ two ∷ []) true (pair-Carries QueueType.lifo)

push_all-Carries_example :
    Returns
      (push_all (none_there QueueType.lifo) ((300, 9, 3) ∷ (400, 10, 4) ∷ []))
      λ s. Carries (four ∷ three ∷ []) s × SameKind s (none_there QueueType.lifo)
push_all-Carries_example =
    push_all-Carries (none_there QueueType.lifo) [] (three ∷ four ∷ [])
      (none_there-Carries QueueType.lifo) (first-IsNew, (four-IsNew, tt))

-- While the queue waits another thread pushes.
abbrev pushes_three : MtQueue → Run MtQueue
pushes_three q = push q 300 9 3

three_there :
    Returns
      (pushes_three (none_there QueueType.fifo))
      λ s. Carries (three ∷ []) s × SameKind s (none_there QueueType.fifo)
three_there =
    push-Carries (none_there QueueType.fifo) [] three (none_there-Carries QueueType.fifo)
      first-IsNew

pop_wait-Carries_example :
    PopWaits []
      (three ∷ [])
      true
      (pos 0)
      true
      (none_there QueueType.fifo)
      three_there.0
      (pop_wait (none_there QueueType.fifo) true (pos 0) true pushes_three)
pop_wait-Carries_example =
    pop_wait-Carries (none_there QueueType.fifo) three_there.0 [] (three ∷ []) true (pos 0) true
      pushes_three refl (none_there-Carries QueueType.fifo) three_there.1 three_there.2.0

clear-empty_example : Returns (clear (pair QueueType.fifo)) λ q'.
    (q'.num_elements ≡ 0)
    × (q'.head ≡ 0)
    × (q'.tail ≡ 0)
    × (q'.valid ≡ false)
    × (q'.multi_thread ≡ false)
clear-empty_example =
    clear-empty (pair QueueType.fifo) (one ∷ two ∷ []) (pair-Carries QueueType.fifo)

-- Two pushes and two pops.
abbrev there_and_back : QueueType → Run (ℕ × ℕ)
there_and_back type = do
  q ← init zeros type false
  a ← push q 100 7 1
  b ← push a 200 8 2
  (x, _, c) ← pop b false
  (y, _, d) ← pop c false
  ok (x, y)

fifo_runs : there_and_back QueueType.fifo ≡ ok (7, 8)
unfolding init push add_tail put pop unlocked_pop take_head
fifo_runs = refl

lifo_runs : there_and_back QueueType.lifo ≡ ok (8, 7)
unfolding init push add_head put pop unlocked_pop take_head
lifo_runs = refl
