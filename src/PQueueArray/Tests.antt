-- ===== src/PQueueArray/Tests.antt =====
-- Runs of src/PQueueArray.c, and instances of the theorems about it.
use tool_boslib.Base.{
  ℕ, ◌≡◌, refl, [], ◌∷◌, true, arith, Run, ok, ◌>>=◌, Returns, ℤ, pos, negsuc, Option, none, some,
}
use tool_boslib.PQueue.{Stage, PQueue, Codec, IsCodec}
use tool_boslib.PQueue.Ring.{
  overwrite, push as queue_push, pop as queue_pop, num_elements as queue_elements, store_data,
  retrieve_data, after_store, after_retrieve,
}
use tool_boslib.PQueue.Fifo.{Holds}
use tool_boslib.PQueueArray.{PQueueArray, push, pop, num_elements}
use tool_boslib.PQueueArray.Queues.{HoldsAll}
use tool_boslib.PQueueArray.Calls.{PushesAt, PopsAt, calls-At}

-- One byte per element.
abbrev plain : Codec ℕ
plain = record { serialize = λ x. x ∷ []; deserialize = λ from. from 0 }

plain-IsCodec : IsCodec plain
plain-IsCodec = record { round_trip = λ x from at. at 0 (omega arith) }

abbrev empty_queue : PQueue
empty_queue = record {
  valid = Stage.valid;
  max_length = 2;
  num_elements = 0;
  max_element_size = 1;
  head = 1;
  tail = 1;
  element_memory = λ i. 0;
  element_memory_size = 2;
}

empty_queue-Holds : Holds plain [] empty_queue
empty_queue-Holds = record {
  set_up = refl;
  head_in = omega arith;
  counted = refl;
  bounded = omega arith;
  tail_at = refl;
  window = tt;
}

abbrev two_queues : PQueueArray
two_queues = record { valid = true; queues = empty_queue ∷ empty_queue ∷ [] }

two_queues-HoldsAll : HoldsAll plain ([] ∷ [] ∷ []) two_queues
two_queues-HoldsAll = record { set_up = refl; each = (empty_queue-Holds, (empty_queue-Holds, tt)) }

-- What is pushed to the second queue does not come out of the first.
abbrev pops_run : Run (Option ℕ × Option ℕ × ℤ)
pops_run = do
  (_, a) ← push plain two_queues (pos 1) 9 true
  (_, x, b) ← pop plain a (pos 0) true
  (_, y, c) ← pop plain b (pos 1) true
  n ← num_elements c (pos 1)
  ok (x, y, n)

pops : pops_run ≡ ok (none, some 9, pos 0)
unfolding push pop num_elements queue_push queue_pop queue_elements overwrite store_data
    retrieve_data after_store after_retrieve
pops = refl

out_of_bounds : num_elements two_queues (pos 2) ≡ ok (negsuc 0)
unfolding num_elements
out_of_bounds = refl

calls-At_example :
    Returns
      (push plain two_queues (pos 1) 9 true)
      (PushesAt plain ([] ∷ [] ∷ []) two_queues (pos 1) 9 true)
    × Returns
        (pop plain two_queues (pos 1) true)
        (PopsAt plain ([] ∷ [] ∷ []) two_queues (pos 1) true)
calls-At_example =
    calls-At plain (pos 1) 9 true plain-IsCodec two_queues-HoldsAll (omega arith, (omega arith, tt))
