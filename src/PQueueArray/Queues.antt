-- ===== src/PQueueArray/Queues.antt =====
-- src/PQueueArray.c: the lists of elements that the queues of an array hold, and the queue of an index.
use tool_boslib.Base.{
  ◌++◌, ◌<◌, ◌≤◌, length, ap, arith, All, sym, pos_injective, negsuc_not_pos, ℕ, zero, suc, ◌≡◌,
  refl, List, [], ◌∷◌, true, ℤ, pos, negsuc, none, some,
}
use tool_boslib.PQueue.{PQueue, Codec}
use tool_boslib.PQueue.Fifo.{Holds}
use native.Mathlib.Decide.{dec_lt}
use mathlib.Core.Path.{subst}
use tool_boslib.PQueueArray.{with_queue, nth, put_nth, PQueueArray, at_index}

module _ {A : Type 0} (codec : Codec A) where
  -- The queues hold the lists, each its own.
  abbrev pub HoldEach : List (List A) → List PQueue → Type 0
  HoldEach [] [] = Unit
  HoldEach [] (s ∷ ss) = ⊥
  HoldEach (q ∷ qs) [] = ⊥
  HoldEach (q ∷ qs) (s ∷ ss) = Holds codec q s × HoldEach qs ss

  -- An array that is set up and whose queues hold the lists.
  pub record HoldsAll (qs : List (List A)) (self : PQueueArray) : Type 0 where
    pub set_up : self.valid ≡ true
    pub each : HoldEach qs self.queues

  -- The index of a queue, with the queues and their lists before it and behind it.
  pub record At (qs : List (List A)) (ss : List PQueue) (i : ℕ) : Type 0 where
    pub lists_before : List (List A)
    pub list : List A
    pub lists_behind : List (List A)
    pub before : List PQueue
    pub queue : PQueue
    pub behind : List PQueue
    pub same_lists : qs ≡ lists_before ++ list ∷ lists_behind
    pub same_queues : ss ≡ before ++ queue ∷ behind
    pub here : length before ≡ i
    pub lists_here : length lists_before ≡ i

  -- The model's lookup and change of a queue are those at the index, and leave the others alone.
  pub record Found (qs : List (List A)) (ss : List PQueue) (i : ℕ) (at : At qs ss i) : Type 0 where
    pub looked_up : nth ss i ≡ some at.queue
    pub holds : Holds codec at.list at.queue
    pub put : (t : PQueue) → put_nth ss i t ≡ at.before ++ t ∷ at.behind
    pub change :
        (q : List A) (t : PQueue)
        → Holds codec q t
        → HoldEach (at.lists_before ++ q ∷ at.lists_behind) (at.before ++ t ∷ at.behind)

  Found-first :
      {q : List A} {s : PQueue} (qs : List (List A)) (ss : List PQueue)
      → Holds codec q s
      → HoldEach qs ss
      → (at : At (q ∷ qs) (s ∷ ss) 0) × Found (q ∷ qs) (s ∷ ss) 0 at
  Found-first {q} {s} qs ss h hs = (
    record {
      lists_before = [];
      list = q;
      lists_behind = qs;
      before = [];
      queue = s;
      behind = ss;
      same_lists = refl;
      same_queues = refl;
      here = refl;
      lists_here = refl;
    },
    record { looked_up = refl; holds = h; put = λ t. refl; change = λ q' t h'. (h', hs) },
  )

  Found-further :
      {q : List A} {s : PQueue} (qs : List (List A)) (ss : List PQueue) (i : ℕ)
      → Holds codec q s
      → (at : At qs ss i) × Found qs ss i at
      → (at : At (q ∷ qs) (s ∷ ss) (suc i)) × Found (q ∷ qs) (s ∷ ss) (suc i) at
  Found-further {q} {s} qs ss i h (at, f) = (
    record {
      lists_before = q ∷ at.lists_before;
      list = at.list;
      lists_behind = at.lists_behind;
      before = s ∷ at.before;
      queue = at.queue;
      behind = at.behind;
      same_lists = ap (λ l. q ∷ l) at.same_lists;
      same_queues = ap (λ l. s ∷ l) at.same_queues;
      here = ap suc at.here;
      lists_here = ap suc at.lists_here;
    },
    record {
      looked_up = f.looked_up;
      holds = f.holds;
      put = λ t. ap (λ l. s ∷ l) (f.put t);
      change = λ q' t h'. (h, f.change q' t h');
    },
  )

  -- An index below the number of queues.
  pub nth-Found :
      (qs : List (List A)) (ss : List PQueue) (i : ℕ)
      → HoldEach qs ss
      → i < length ss
      → (at : At qs ss i) × Found qs ss i at
  nth-Found qs [] i h room = absurd (omega (arith, room))
  nth-Found [] (s ∷ ss) i h room = absurd h
  nth-Found (q ∷ qs) (s ∷ ss) zero h room = Found-first qs ss h.0 h.1
  nth-Found (q ∷ qs) (s ∷ ss) (suc i) h room =
      Found-further qs ss i h.0 (nth-Found qs ss i h.1 (omega (arith, room)))

pub nth-beyond : (ss : List PQueue) (i : ℕ) → length ss ≤ i → nth ss i ≡ none
nth-beyond [] i h = refl
nth-beyond (s ∷ ss) zero h = absurd (omega (arith, h))
nth-beyond (s ∷ ss) (suc i) h = nth-beyond ss i (omega (arith, h))

-- No queue has the index.
abbrev pub OutOfBounds : List PQueue → ℤ → Type 0
OutOfBounds ss index = (i : ℕ) → index ≡ pos i → length ss ≤ i

pub All-middle :
    (P : PQueue → Type 0) (l : List PQueue) (s : PQueue) (u : List PQueue)
    → All P (l ++ s ∷ u)
    → P s
All-middle P [] s u a = a.0
All-middle P (b ∷ l) s u a = All-middle P l s u a.1

module _ {A : Type 0} (codec : Codec A) where
  -- An index is out of bounds and looked up in vain, or that of a queue.
  pub at_index-cases :
      (qs : List (List A)) (ss : List PQueue)
      → HoldEach codec qs ss
      → (P : ℤ → Type 0) → ((index : ℤ) → OutOfBounds ss index → at_index ss index ≡ none → P index)
      → ((i : ℕ) → (at : At codec qs ss i) × Found codec qs ss i at → P (pos i))
      → (index : ℤ) → P index
  at_index-cases qs ss h P outside inside (negsuc n) =
      outside (negsuc n) (λ i e. absurd (negsuc_not_pos n i e)) refl
  at_index-cases qs ss h P outside inside (pos n) = elim (dec_lt n (length ss)) [
    | yes room ↦ inside n (nth-Found codec qs ss n h room)
    | no beyond ↦
        let far : length ss ≤ n = omega (arith, beyond) in
        outside (pos n) (λ i e. omega (arith, far, pos_injective n i e)) (nth-beyond ss n far)
  ]

module _ {A : Type 0} {codec : Codec A} where
  -- The array with another queue at an index.
  pub put-HoldsAll :
      {qs : List (List A)} {self : PQueueArray} {i : ℕ} {at : At codec qs self.queues i}
      {q : List A} {t : PQueue}
      → HoldsAll codec qs self
      → Found codec qs self.queues i at
      → Holds codec q t
      → HoldsAll codec (at.lists_before ++ q ∷ at.lists_behind) (with_queue self (pos i) t)
  put-HoldsAll {at} {q} {t} h f held = record {
    set_up = h.set_up;
    each =
        subst (HoldEach codec (at.lists_before ++ q ∷ at.lists_behind)) (sym (f.put t))
          (f.change q t held);
  }
