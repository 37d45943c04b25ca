-- ===== src/MtQueue/Pop.antt =====
-- `pop` and `clear` of src/MTQueue.c against the list of the queue's elements.
use mathlib.Core.Path.{subst}
use tool_boslib.Base.{
  ℕ, suc, ◌-◌, ◌≡◌, refl, sym, ap, ap₂, ◌∙◌, List, [], ◌∷◌, length, Bool, true, false, arith, ◌==◌,
  ltb, if◌then◌else◌, Option, none, some, ok, ◌>>=◌, ◌>>◌, require, Returns,
}
use tool_boslib.MtQueue.{MtQueue, take_head, unlocked_pop, pop, pop_rounds, release, clear}
use tool_boslib.MtQueue.Chain.{Cell, start, node}
use tool_boslib.MtQueue.Order.{Carries, SameKind}

-- What `pop` does: it takes the first element and gives its data and, where asked for, its class; of an
-- empty queue it gives NULL and changes nothing.
abbrev pub Pops : List Cell → Bool → MtQueue → ℕ × Option ℕ × MtQueue → Type 0
Pops [] with_class q r = (r.0 ≡ 0) × (r.1 ≡ none) × (r.2 ≡ q)
Pops (c ∷ cs) with_class q r =
    (r.0 ≡ c.item)
    × (r.1 ≡ (if with_class then some c.user_class else none))
    × Carries cs r.2
    × SameKind r.2 q

-- The state that a pop of a cell leaves.
popped : MtQueue → List Cell → MtQueue
popped q [] = record q { head = 0; tail = 0; num_elements = 0 }
popped q (c ∷ cs) = record q { head = c.address; num_elements = suc (length cs) }

popped-Carries :
    (q : MtQueue) (c : Cell) (cs : List Cell) → Carries (c ∷ cs) q → Carries cs (popped q cs)
unfolding popped
popped-Carries q c [] h = record {
  is_valid = h.is_valid;
  linked = tt;
  distinct = tt;
  head_at = refl;
  tail_at = refl;
  counted = refl;
}
popped-Carries q c (d ∷ cs) h = record {
  is_valid = h.is_valid;
  linked = h.linked.3;
  distinct = h.distinct.1;
  head_at = refl;
  tail_at = h.tail_at;
  counted = refl;
}

popped-SameKind : (q : MtQueue) (cs : List Cell) → SameKind (popped q cs) q
unfolding popped
popped-SameKind q [] = (refl, refl, refl)
popped-SameKind q (c ∷ cs) = (refl, refl, refl)

take_head-runs :
    (q : MtQueue) (with_class : Bool) (c : Cell) (cs : List Cell)
    → take_head (node c (start cs)) with_class (length cs) q
      ≡ ok (c.item, (if with_class then some c.user_class else none), popped q cs)
unfolding take_head popped
take_head-runs q with_class c [] = refl
take_head-runs q with_class c (d ∷ cs) =
    let more : suc (length cs) == 0 ≡ false = ground arith in rw more refl

unlocked_pop-runs :
    (q : MtQueue) (with_class : Bool) (c : Cell) (cs : List Cell)
    → Carries (c ∷ cs) q
    → unlocked_pop q with_class
      ≡ ok (c.item, (if with_class then some c.user_class else none), popped q cs)
unfolding unlocked_pop
unlocked_pop-runs q with_class c cs h =
    let some_left : ltb 0 q.num_elements ≡ true = ground (arith, h.counted) in
    let left : q.num_elements - 1 ≡ length cs = omega (arith, h.counted) in
    ap
      (λ b.
        require b
        >> (if ltb 0 q.num_elements
            then take_head (q.heap q.head) with_class (q.num_elements - 1) q
            else ok (0, none, q)))
      h.is_valid
    ∙ ap
        (λ b.
          if b
          then take_head (q.heap q.head) with_class (q.num_elements - 1) q
          else ok (0, none, q))
        some_left
    ∙ ap₂ (λ n k. take_head n with_class k q) (ap q.heap h.head_at ∙ h.linked.0) left
    ∙ take_head-runs q with_class c cs

unlocked_pop-empty :
    (q : MtQueue) (with_class : Bool) → Carries [] q → unlocked_pop q with_class ≡ ok (0, none, q)
unfolding unlocked_pop
unlocked_pop-empty q with_class h =
    let none_left : ltb 0 q.num_elements ≡ false = ground (arith, h.counted) in
    ap
      (λ b.
        require b
        >> (if ltb 0 q.num_elements
            then take_head (q.heap q.head) with_class (q.num_elements - 1) q
            else ok (0, none, q)))
      h.is_valid
    ∙ ap
        (λ b.
          if b
          then take_head (q.heap q.head) with_class (q.num_elements - 1) q
          else ok (0, none, q))
        none_left

pub unlocked_pop-Carries :
    (q : MtQueue) (cs : List Cell) (with_class : Bool)
    → Carries cs q
    → Returns (unlocked_pop q with_class) (Pops cs with_class q)
unlocked_pop-Carries q [] with_class h = (_, unlocked_pop-empty q with_class h, (refl, refl, refl))
unlocked_pop-Carries q (c ∷ cs) with_class h = (
  _,
  unlocked_pop-runs q with_class c cs h,
  (refl, refl, popped-Carries q c cs h, popped-SameKind q cs),
)

-- MTQueue_pop of a queue returns; it takes the first element and gives its data and, where asked for,
-- its class; of an empty queue it gives NULL and changes nothing.
pub pop-Carries :
    (q : MtQueue) (cs : List Cell) (with_class : Bool)
    → Carries cs q
    → Returns (pop q with_class) (Pops cs with_class q)
unfolding pop
pop-Carries q cs with_class h =
    let (r, run, pops) = unlocked_pop-Carries q cs with_class h in
    (r, ap (λ b. require b >> unlocked_pop q with_class) h.is_valid ∙ run, pops)

pop_rounds-Carries :
    (cs : List Cell) (q : MtQueue)
    → Carries cs q
    → Returns (pop_rounds (suc (length cs)) q) (Carries [])
unfolding pop_rounds
pop_rounds-Carries [] q h =
    let (r, run, pops) = pop-Carries q [] false h in
    (
      r.2,
      ap (λ m. m >>= λ r'. if r'.0 == 0 then ok r'.2 else pop_rounds 0 r'.2) run
          ∙ ap (λ n. if n == 0 then ok r.2 else pop_rounds 0 r.2) pops.0,
      subst (Carries []) (sym pops.2) h,
    )
pop_rounds-Carries (c ∷ cs) q h =
    let (r, run, pops) = pop-Carries q (c ∷ cs) false h in
    let (s, more, held) = pop_rounds-Carries cs r.2 pops.2 in
    let some_item : r.0 == 0 ≡ false = ground (arith, pops.0, h.linked.2) in
    (
      s,
      ap (λ m. m >>= λ r'. if r'.0 == 0 then ok r'.2 else pop_rounds (suc (length cs)) r'.2) run
          ∙ ap (λ b. if b then ok r.2 else pop_rounds (suc (length cs)) r.2) some_item
          ∙ more,
      held,
    )

-- MTQueue_clear of a queue returns: its loop ends after one round for every element and one more, since
-- no element has NULL as its data. The queue is empty then, no longer valid, and without a lock.
pub clear-empty :
    (q : MtQueue) (cs : List Cell)
    → Carries cs q
    → Returns (clear q) λ q'.
      (q'.num_elements ≡ 0)
      × (q'.head ≡ 0)
      × (q'.tail ≡ 0)
      × (q'.valid ≡ false)
      × (q'.multi_thread ≡ false)
unfolding clear release
clear-empty q cs h =
    let (s, run, held) = pop_rounds-Carries cs q h in
    let none_left : s.num_elements == 0 ≡ true = ground (arith, held.counted) in
    (
      record s { valid = false; multi_thread = false },
      ap (λ b. require b >> (pop_rounds (suc q.num_elements) q >>= release)) h.is_valid
          ∙ ap (λ n. pop_rounds (suc n) q >>= release) h.counted
          ∙ ap (λ m. m >>= release) run
          ∙ ap (λ b. require b >> ok (record s { valid = false; multi_thread = false })) none_left,
      (held.counted, held.head_at, held.tail_at, refl, refl),
    )
