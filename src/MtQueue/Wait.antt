-- ===== src/MtQueue/Wait.antt =====
-- Sequences of pushes, and `popWait` of src/MTQueue.c, which lets other threads push while it waits.
use mathlib.Core.Path.{subst}
use tool_boslib.Cond.{wait, Ends, wait-cases}
use tool_boslib.Base.{
  ◌<◌, length, blocked, ℤ, pos, ℕ, ◌≡◌, refl, sym, ap, ◌∙◌, List, [], ◌∷◌, ◌++◌, append_assoc,
  append-nil, Bool, true, false, arith, ◌==◌, if◌then◌else◌, Option, none, Run, ok, ◌>>=◌, ◌>>◌,
  require, Returns, ◌⊎◌, inl, inr, Bool-cases, map,
}
use tool_boslib.MtQueue.{QueueType, MtQueue, Heap, init, push_all, unlocked_pop, pop_wait}
use tool_boslib.MtQueue.Chain.{Cell}
use tool_boslib.MtQueue.Order.{Carries, IsNew, added, SameKind, push-Carries}
use tool_boslib.MtQueue.Pop.{Pops, unlocked_pop-Carries}

-- What a push is given for an element.
abbrev pub arguments : Cell → ℕ × ℕ × ℕ
arguments e = (e.address, e.item, e.user_class)

abbrev onto : List Cell → List Cell → List Cell
onto [] cs = cs
onto (e ∷ es) cs = onto es (e ∷ cs)

-- The elements after pushes of `es`, the next one to pop first: those of a FIFO queue come behind the
-- ones that were there, in their order; those of a LIFO queue before them, the last one first.
abbrev pub arrived : QueueType → List Cell → List Cell → List Cell
arrived QueueType.fifo cs es = cs ++ es
arrived QueueType.lifo cs es = onto es cs
arrived QueueType.other cs es = cs

-- Each element is new when it is pushed.
abbrev pub AllNew : QueueType → List Cell → List Cell → Type 0
AllNew type cs [] = Unit
AllNew type cs (e ∷ es) = IsNew cs e × AllNew type (added type cs e) es

arrived-nil : (type : QueueType) (cs : List Cell) → arrived type cs [] ≡ cs
arrived-nil QueueType.fifo cs = append-nil cs
arrived-nil QueueType.lifo cs = refl
arrived-nil QueueType.other cs = refl

arrived-added :
    (type : QueueType) (cs es : List Cell) (e : Cell)
    → arrived type (added type cs e) es ≡ arrived type cs (e ∷ es)
arrived-added QueueType.fifo cs es e = append_assoc cs (e ∷ []) es
arrived-added QueueType.lifo cs es e = refl
arrived-added QueueType.other cs es e = refl

push_all-go :
    (es cs : List Cell) (type : QueueType) (q : MtQueue)
    → type ≡ q.type
    → Carries cs q
    → AllNew type cs es
    → Returns (push_all q (map arguments es)) λ s. Carries (arrived type cs es) s × SameKind s q
unfolding push_all
push_all-go [] cs type q e h new =
    (q, refl, (subst (λ l. Carries l q) (sym (arrived-nil type cs)) h, (refl, refl, refl)))
push_all-go (x ∷ es) cs type q e h new =
    let (r, run, (held, same)) = push-Carries q cs x h new.0 in
    let held' = subst (λ t. Carries (added t cs x) r) (sym e) held in
    let (s, more, (end, kind)) =
      push_all-go es (added type cs x) type r (e ∙ sym same.0) held' new.1 in
    (
      s,
      ap (λ m. m >>= λ q'. push_all q' (map arguments es)) run ∙ more,
      (
        subst (λ l. Carries l s) (arrived-added type cs es x) end,
        (kind.0 ∙ same.0, kind.1 ∙ same.1, kind.2 ∙ same.2),
      ),
    )

-- Pushes of new elements return. A FIFO queue pops them after the elements that it had, in the order of
-- the pushes; a LIFO queue pops them first, the last one pushed before the others.
pub push_all-Carries :
    (q : MtQueue) (cs es : List Cell)
    → Carries cs q
    → AllNew q.type cs es
    → Returns (push_all q (map arguments es)) λ s. Carries (arrived q.type cs es) s × SameKind s q
push_all-Carries q cs es h new = push_all-go es cs q.type q refl h new

-- What `popWait` does, for what other threads make of the queue `q` while it waits: the queue `s`. If it
-- does not end it waits for ever.
abbrev pub PopWaits :
    List Cell
    → List Cell
    → Bool
    → ℤ
    → Bool
    → MtQueue
    → MtQueue
    → Run (ℕ × Option ℕ × MtQueue)
    → Type 0
PopWaits cs cs' with_class microsecs wakes q s call =
    ((q.quit ≡ true) × (call ≡ ok (0, none, q)))
    ⊎ ((q.quit ≡ false) × (0 < length cs) × Returns call (Pops cs with_class q))
    ⊎ ((q.quit ≡ false) × (cs ≡ []) × Ends microsecs wakes × Returns call (Pops cs' with_class s))
    ⊎ ((q.quit ≡ false) × (cs ≡ []) × (microsecs ≡ pos 0) × (wakes ≡ false) × (call ≡ blocked))

-- `pop_wait` behind its checks, for a count of elements and an outcome of the wait.
abbrev waiting : MtQueue → Bool → Run (Unit {0}) → Run MtQueue → ℕ → Run (ℕ × Option ℕ × MtQueue)
waiting q with_class outcome others n =
    if n == 0
    then (require q.multi_thread >> (outcome >> (others >>= λ s. unlocked_pop s with_class)))
    else unlocked_pop q with_class

module _ (q s : MtQueue) (cs' : List Cell) (with_class : Bool) (microsecs : ℤ) (wakes : Bool)
    (others : MtQueue → Run MtQueue) (locked : q.multi_thread ≡ true) (run : others q ≡ ok s)
    (h' : Carries cs' s) (goes : q.quit ≡ false) where
  waiting-PopWaits :
      (cs : List Cell)
      → Carries cs q
      → PopWaits cs cs' with_class microsecs wakes q s
          (waiting q with_class (wait microsecs wakes) (others q) q.num_elements)
  waiting-PopWaits [] h =
      let waits : waiting q with_class (wait microsecs wakes) (others q) q.num_elements
          ≡ (wait microsecs wakes >> (others q >>= λ s'. unlocked_pop s' with_class)) =
        ap (waiting q with_class (wait microsecs wakes) (others q)) h.counted
        ∙ ap
            (λ b.
              require b
              >> (wait microsecs wakes >> (others q >>= λ s'. unlocked_pop s' with_class)))
            locked in
      let Rest : Run (Unit {0}) → Run (ℕ × Option ℕ × MtQueue) =
        λ w. w >> (others q >>= λ s'. unlocked_pop s' with_class) in
      elim (wait-cases microsecs wakes) [
        | inl (ends, ended) ↦
            let (r, popped, pops) = unlocked_pop-Carries s cs' with_class h' in
            let all =
              waits
              ∙ ap Rest ended
              ∙ ap (λ m. m >>= λ s'. unlocked_pop s' with_class) run
              ∙ popped in
            inr (inr (inl (goes, refl, ends, (r, all, pops))))
        | inr (zero_time, alone, stuck) ↦
            inr (inr (inr (goes, refl, zero_time, alone, waits ∙ ap Rest stuck)))
      ]
  waiting-PopWaits (c ∷ cs) h =
      let (r, popped, pops) = unlocked_pop-Carries q (c ∷ cs) with_class h in
      let some_left : q.num_elements == 0 ≡ false = ground (arith, h.counted) in
      let Choose : Bool → Run (ℕ × Option ℕ × MtQueue) = λ b.
        if b
        then (require q.multi_thread
            >> (wait microsecs wakes >> (others q >>= λ s'. unlocked_pop s' with_class)))
        else unlocked_pop q with_class in
      inr (inl (goes, omega arith, (r, ap Choose some_left ∙ popped, pops)))

-- MTQueue_popWait of a queue with a lock: if the queue quits it gives NULL and changes nothing; of a
-- queue with elements it pops the first without a wait. On an empty queue it waits, for ever if there
-- is no timeout and no wakeup; otherwise it returns, and pops from the queue that other threads have
-- made of it meanwhile. They must leave it valid, with what elements they like.
pub pop_wait-Carries :
    (q s : MtQueue) (cs cs' : List Cell) (with_class : Bool) (microsecs : ℤ) (wakes : Bool)
    (others : MtQueue → Run MtQueue)
    → q.multi_thread ≡ true
    → Carries cs q
    → others q ≡ ok s
    → Carries cs' s
    → PopWaits cs cs' with_class microsecs wakes q s (pop_wait q with_class microsecs wakes others)
unfolding pop_wait
pop_wait-Carries q s cs cs' with_class microsecs wakes others locked h run h' =
    let Choose : Bool → Run (ℕ × Option ℕ × MtQueue) = λ b.
      if b
      then ok (0, none, q)
      else waiting q with_class (wait microsecs wakes) (others q) q.num_elements in
    let checked : pop_wait q with_class microsecs wakes others ≡ Choose q.quit =
      ap (λ b. require b >> Choose q.quit) h.is_valid in
    elim (Bool-cases q.quit) [
      | inl quits ↦ inl (quits, checked ∙ ap Choose quits)
      | inr goes ↦
          subst (PopWaits cs cs' with_class microsecs wakes q s) (sym (checked ∙ ap Choose goes))
            (waiting-PopWaits q s cs' with_class microsecs wakes others locked run h' goes cs h)
    ]

-- `init` gives a queue without elements.
pub init-Carries :
    (heap : Heap) (type : QueueType) (multi_thread : Bool)
    → Returns (init heap type multi_thread) (Carries [])
unfolding init
init-Carries heap type multi_thread = (
  _,
  refl,
  record {
    is_valid = refl;
    linked = tt;
    distinct = tt;
    head_at = refl;
    tail_at = refl;
    counted = refl;
  },
)
