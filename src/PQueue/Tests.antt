-- ===== src/PQueue/Tests.antt =====
-- Runs of the model of src/PQueue.c.
use tool_boslib.Cond.{wait}
use tool_boslib.Base.{
  pos, ℕ, zero, suc, ◌≡◌, refl, ◌<◌, List, [], ◌∷◌, true, false, arith, get_or, ◌+◌, Run, ok,
  Returns,
}
use tool_boslib.PQueue.{Status, Stage, Bytes, PQueue, Codec, IsCodec}
use tool_boslib.PQueue.Ring.{
  overwrite, push, pop, pop_wait, purge, purge_wait, push_all, store_data, retrieve_data,
  after_store, after_retrieve, next_round, purge_rounds,
}
use tool_boslib.PQueue.Fifo.{Holds, Pushes, SameShape, WithinBlock, push-Holds}
use tool_boslib.PQueue.Pop.{Pops, Purges, pop-Holds, purge-Holds}
use tool_boslib.PQueue.Wait.{PopWaits, pop_wait-Holds}

-- Two bytes per element: the element and a mark.
abbrev pairs : Codec ℕ
pairs = record { serialize = λ x. x ∷ 255 ∷ []; deserialize = λ from. from 0 }

pairs-IsCodec : IsCodec pairs
pairs-IsCodec = record { round_trip = λ x from at. at 0 (omega arith) }

-- Three slots, of which the last and the first are taken.
abbrev bytes : Bytes
bytes i = get_or (8 ∷ 255 ∷ 0 ∷ 0 ∷ 7 ∷ 255 ∷ []) i 0

abbrev two_items : PQueue
two_items = record {
  valid = Stage.valid;
  max_length = 3;
  num_elements = 2;
  max_element_size = 2;
  head = 2;
  tail = 1;
  element_memory = bytes;
  element_memory_size = 6;
}

at_slot :
    (k x i : ℕ)
    → bytes k ≡ x
    → bytes (k + 1) ≡ 255
    → i < 2
    → bytes (k + i) ≡ get_or (x ∷ 255 ∷ []) i 0
at_slot k x zero a b h = let e : k + 0 ≡ k = omega arith in rw e a
at_slot k x (suc zero) a b h = b
at_slot k x (suc (suc i)) a b h = absurd (omega arith)

two_items-Holds : Holds pairs (7 ∷ 8 ∷ []) two_items
two_items-Holds = record {
  set_up = refl;
  head_in = omega arith;
  counted = refl;
  bounded = omega arith;
  tail_at = refl;
  window = (
    record { fits = omega arith; bytes = λ i h. at_slot 4 7 i refl refl h },
    (record { fits = omega arith; bytes = λ i h. at_slot 0 8 i refl refl h }, tt),
  );
}

push-Holds_example : Returns (push pairs two_items 9 true) λ r.
    Pushes pairs (7 ∷ 8 ∷ []) two_items 9 true r
    × SameShape pairs r.1 two_items
    × WithinBlock pairs two_items r.1
push-Holds_example = push-Holds pairs 9 true two_items-Holds (omega arith)

pop-Holds_example : Returns (pop pairs two_items true) (Pops pairs (7 ∷ 8 ∷ []) two_items true)
pop-Holds_example = pop-Holds pairs true pairs-IsCodec two_items-Holds

-- The second round fails.
purge-Holds_example :
    Returns (purge pairs two_items (λ i. false)) (Purges pairs (7 ∷ 8 ∷ []) (λ i. false))
purge-Holds_example = purge-Holds pairs (λ i. false) pairs-IsCodec two_items-Holds

pop_wait-Holds_example :
    PopWaits pairs
      (7 ∷ 8 ∷ [])
      two_items
      (pos 0)
      true
      (9 ∷ 10 ∷ [])
      true
      (pop_wait pairs two_items (pos 0) true (9 ∷ 10 ∷ []) true)
pop_wait-Holds_example =
    pop_wait-Holds pairs (pos 0) true (9 ∷ 10 ∷ []) true pairs-IsCodec two_items-Holds
      (omega arith, (omega arith, tt))

-- What a purge of a queue hands over.
abbrev purged : Run (Status × List ℕ × PQueue) → List ℕ
purged (ok r) = r.1
purged _ = []

purged_after_wait :
    purged (purge_wait pairs two_items (pos 1000) false (9 ∷ 10 ∷ []) (λ i. true)) ≡ 7 ∷ 8 ∷ 9 ∷ []
unfolding purge_wait wait push_all push store_data after_store overwrite purge purge_rounds
    next_round after_retrieve retrieve_data
purged_after_wait = refl
