-- ===== src/MtQueue/Order.antt =====
-- `push` of src/MTQueue.c against the list of the queue's elements.
use mathlib.Core.Path.{subst}
use tool_boslib.Base.{
  ℕ, ◌+◌, ◌^◌, ◌<◌, ◌≡◌, refl, sym, ap, ◌∙◌, List, [], ◌∷◌, ◌++◌, length, length-append, true,
  false, not, arith, ◌==◌, ◌>>◌, require, Returns,
}
use tool_boslib.MtQueue.{
  QueueType, MtQueue, one_more, add_head, add_tail, signal_push, push_as, push,
}
use tool_boslib.MtQueue.Chain.{
  Cell, start, last, node, Linked, Fresh, Distinct, put-same, hang, put-Linked, hang-Linked,
  Distinct-append, last-append, last-positive,
}

-- The queue holds these elements, the next one to pop first.
pub record Carries (cs : List Cell) (q : MtQueue) : Type 0 where
  pub is_valid : q.valid ≡ true
  pub linked : Linked q.heap cs
  pub distinct : Distinct cs
  pub head_at : q.head ≡ start cs
  pub tail_at : q.tail ≡ last cs
  pub counted : q.num_elements ≡ length cs

-- An element that calloc places apart from the others, for a push of data that is not NULL.
pub record IsNew (cs : List Cell) (e : Cell) : Type 0 where
  pub placed : 0 < e.address
  pub apart : Fresh e.address cs
  pub has_item : 0 < e.item
  pub room : length cs + 1 < 2 ^ 64

-- Where an element goes: a FIFO queue pops it last, a LIFO queue first.
abbrev pub added : QueueType → List Cell → Cell → List Cell
added QueueType.fifo cs e = cs ++ e ∷ []
added QueueType.lifo cs e = e ∷ cs
added QueueType.other cs e = cs

-- What no call but `clear` changes.
abbrev pub SameKind : MtQueue → MtQueue → Type 0
SameKind a b = (a.type ≡ b.type) × (a.multi_thread ≡ b.multi_thread) × (a.quit ≡ b.quit)

nonzero : (n : ℕ) → 0 < n → not (n == 0) ≡ true
nonzero n h = ground arith

one_more-counted :
    (n : ℕ) (cs : List Cell) (e : Cell)
    → n ≡ length cs
    → length cs + 1 < 2 ^ 64
    → one_more n ≡ length (cs ++ e ∷ [])
one_more-counted n cs e h room = omega (arith, length-append cs (e ∷ []))

add_tail-Carries :
    (q : MtQueue) (cs : List Cell) (e : Cell)
    → Carries cs q
    → IsNew cs e
    → Returns
        (add_tail q e.address e.item e.user_class)
        λ q'. Carries (cs ++ e ∷ []) q' × SameKind q' q
unfolding add_tail
add_tail-Carries q [] e h new =
    let empty : q.tail == 0 ≡ true = ground (arith, h.tail_at) in
    rw (h.is_valid, nonzero e.item new.has_item, nonzero e.address new.placed, empty)
      (
        _,
        refl,
        (
          record {
            is_valid = refl;
            linked = (put-same q.heap e.address _, new.placed, new.has_item, tt);
            distinct = (tt, tt);
            head_at = refl;
            tail_at = refl;
            counted = omega (arith, h.counted);
          },
          (refl, refl, refl),
        ),
      )
add_tail-Carries q (c ∷ cs) e h new =
    let full : q.tail == 0 ≡ false =
      ground (arith, h.tail_at, last-positive q.heap c cs h.linked) in
    rw (h.is_valid, nonzero e.item new.has_item, nonzero e.address new.placed, full)
      (
        _,
        refl,
        (
          record {
            is_valid = refl;
            linked =
                subst (λ t. Linked (hang q.heap e t) ((c ∷ cs) ++ e ∷ [])) (sym h.tail_at)
                  (hang-Linked q.heap e c cs new.apart h.distinct new.placed new.has_item h.linked);
            distinct = Distinct-append (c ∷ cs) e h.distinct new.apart;
            head_at = h.head_at;
            tail_at = sym (last-append (c ∷ cs) e);
            counted = one_more-counted q.num_elements (c ∷ cs) e h.counted new.room;
          },
          (refl, refl, refl),
        ),
      )

add_head-Carries :
    (q : MtQueue) (cs : List Cell) (e : Cell)
    → Carries cs q
    → IsNew cs e
    → Returns (add_head q e.address e.item e.user_class) λ q'. Carries (e ∷ cs) q' × SameKind q' q
unfolding add_head
add_head-Carries q [] e h new =
    let empty : q.head == 0 ≡ true = ground (arith, h.head_at) in
    rw (h.is_valid, nonzero e.item new.has_item, nonzero e.address new.placed, empty)
      (
        _,
        refl,
        (
          record {
            is_valid = refl;
            linked =
                (put-same q.heap e.address _ ∙ ap (node e) h.head_at, new.placed, new.has_item, tt);
            distinct = (tt, tt);
            head_at = refl;
            tail_at = refl;
            counted = omega (arith, h.counted);
          },
          (refl, refl, refl),
        ),
      )
add_head-Carries q (c ∷ cs) e h new =
    let full : q.head == 0 ≡ false = ground (arith, h.head_at, h.linked.1) in
    rw (h.is_valid, nonzero e.item new.has_item, nonzero e.address new.placed, full)
      (
        _,
        refl,
        (
          record {
            is_valid = refl;
            linked = (
              put-same q.heap e.address _ ∙ ap (node e) h.head_at,
              new.placed,
              new.has_item,
              put-Linked q.heap e.address _ (c ∷ cs) new.apart h.linked,
            );
            distinct = (new.apart, h.distinct);
            head_at = refl;
            tail_at = h.tail_at;
            counted = omega (arith, h.counted, new.room);
          },
          (refl, refl, refl),
        ),
      )

signal_push-Carries : (cs : List Cell) (q : MtQueue) → Carries cs q → Carries cs (signal_push q)
signal_push-Carries cs q h = record {
  is_valid = h.is_valid;
  linked = h.linked;
  distinct = h.distinct;
  head_at = h.head_at;
  tail_at = h.tail_at;
  counted = h.counted;
}

push_as-Carries :
    (type : QueueType) (q : MtQueue) (cs : List Cell) (e : Cell)
    → Carries cs q
    → IsNew cs e
    → Returns
        (push_as type q e.address e.item e.user_class)
        λ q'. Carries (added type cs e) q' × SameKind q' q
push_as-Carries QueueType.fifo q cs e h new =
    let (q', run, (held, same)) = add_tail-Carries q cs e h new in
    rw run (_, refl, (signal_push-Carries _ q' held, same))
push_as-Carries QueueType.lifo q cs e h new =
    let (q', run, (held, same)) = add_head-Carries q cs e h new in
    rw run (_, refl, (signal_push-Carries _ q' held, same))
push_as-Carries QueueType.other q cs e h new = (q, refl, (h, (refl, refl, refl)))

-- MTQueue_push of data that is not NULL returns; a FIFO queue has the element last then, a LIFO queue
-- first, and the elements that it had before are on the heap and in their order as they were. calloc
-- must place the element apart from the others, and there are fewer than 2 ^ 64 - 1 of them.
pub push-Carries :
    (q : MtQueue) (cs : List Cell) (e : Cell)
    → Carries cs q
    → IsNew cs e
    → Returns
        (push q e.address e.item e.user_class)
        λ q'. Carries (added q.type cs e) q' × SameKind q' q
unfolding push
push-Carries q cs e h new =
    let run_as = push_as q.type q e.address e.item e.user_class in
    let (q', run, held) = push_as-Carries q.type q cs e h new in
    (
      q',
      ap (λ b. require b >> (require (not (e.item == 0)) >> run_as)) h.is_valid
          ∙ ap (λ b. require b >> run_as) (nonzero e.item new.has_item)
          ∙ run,
      held,
    )
