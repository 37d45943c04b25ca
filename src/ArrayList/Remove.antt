-- ===== src/ArrayList/Remove.antt =====
-- ArrayList_remove of src/ArrayList.c, on the items of the list.
use tool_boslib.Base.{
  ℕ, zero, suc, ◌+◌, ◌-◌, ◌*◌, ◌/◌, ◌%◌, ◌<◌, ◌≡◌, ◌≢◌, refl, sym, ap, ◌∙◌, List, [], ◌∷◌, ◌++◌,
  length, length-append, append_assoc, All, ◌⊎◌, inl, inr, Bool-cases, ◌==◌, none, some, ok, ◌>>◌,
  require, Returns, arith,
}
use mathlib.Core.Path.{subst}
use tool_boslib.ArrayList.{ArrayList, merge, move_bytes, move_down, remove}
use tool_boslib.ArrayList.Stack.{Stores}
use tool_boslib.ArrayList.MoveDown.{
  last_of, init_of, init_of-last_of, length-init_of, move_bytes-runs, move_down-absent,
  move_down-found, move_bytes-last,
}

-- What ArrayList_remove makes of the items. An item that is not there changes nothing, and the last one
-- goes. Of an inner one, with `k` items from it on, `k / 8` move down by a cell, the next cell gets
-- `k % 8` bytes of its neighbour, the items behind stay in their cells, and the last one is lost.
pub data Removes (item : ℕ) : List ℕ → List ℕ → Type 0 where
  absent : (items : List ℕ) → All (λ x. x ≢ item) items → Removes item items items
  last : (pre : List ℕ) → All (λ x. x ≢ item) pre → Removes item (pre ++ item ∷ []) pre
  inner :
      (pre moved kept : List ℕ) (s k : ℕ)
      → All (λ x. x ≢ item) pre
      → k ≡ length moved + length kept + 2
      → length moved ≡ k / 8
      → Removes item
          (pre ++ item ∷ (moved ++ s ∷ kept))
          (pre ++ (moved ++ merge (k % 8) s (last_of item moved) ∷ init_of s kept))

-- The call, where the item stands behind `pre` and the memmove leaves the cells `cells` from there on.
found-Stores :
    (item : ℕ) (pre post : List ℕ) (self : ArrayList) (h : Stores (pre ++ item ∷ post) self)
    (items spare : List ℕ)
    → All (λ x. x ≢ item) pre
    → pre ++ move_bytes (item ∷ post ++ h.spare) (post ++ h.spare) (suc (length post))
      ≡ items ++ spare
    → length items ≡ length pre + length post
    → length spare ≡ suc (length h.spare)
    → Returns (remove self item) (Stores items)
unfolding remove
found-Stores item pre post self h items spare before cells counted left =
    let long : self.count ≡ length pre + suc (length post) =
      omega (arith, h.counted, length-append pre (item ∷ post)) in
    let met : move_down item self.count self.buffer ≡ some (items ++ spare) =
      ap (λ n. move_down item n self.buffer) long
      ∙ ap (move_down item (length pre + suc (length post)))
          (h.cells ∙ append_assoc pre (item ∷ post) h.spare)
      ∙ move_down-found item pre (post ++ h.spare) (length post) before
      ∙ ap some cells in
    (
      record self { buffer = items ++ spare; count = self.count - 1; free = self.free + 1 },
      ap
            (λ b. require b >> elim (move_down item self.count self.buffer) [
              | none ↦ ok self
              | some c ↦
                  ok (record self { buffer = c; count = self.count - 1; free = self.free + 1 })
            ])
            h.locked
          ∙ ap
              (λ o. elim o [
                | none ↦ ok self
                | some c ↦
                    ok (record self { buffer = c; count = self.count - 1; free = self.free + 1 })
              ])
              met,
      record {
        spare = spare;
        locked = h.locked;
        cells = refl;
        counted = omega (arith, counted, long);
        left = omega (arith, left, h.left);
      },
    )

regroup :
    (s y : ℕ) (pre moved kept spare : List ℕ)
    → pre ++ (moved ++ y ∷ s ∷ (kept ++ spare))
      ≡ (pre ++ (moved ++ y ∷ init_of s kept)) ++ last_of s kept ∷ spare
regroup s y pre moved kept spare =
    let tail : y ∷ s ∷ (kept ++ spare) ≡ (y ∷ init_of s kept) ++ last_of s kept ∷ spare =
      ap (λ l. y ∷ (l ++ spare)) (sym (init_of-last_of s kept))
      ∙ ap (λ l. y ∷ l) (append_assoc (init_of s kept) (last_of s kept ∷ []) spare) in
    ap (λ l. pre ++ (moved ++ l)) tail
    ∙ ap (λ l. pre ++ l) (sym (append_assoc moved (y ∷ init_of s kept) (last_of s kept ∷ spare)))
    ∙ sym (append_assoc pre (moved ++ y ∷ init_of s kept) (last_of s kept ∷ spare))

Removes-Stores :
    (item : ℕ) {items items' : List ℕ} (self : ArrayList)
    → Removes item items items'
    → Stores items self
    → Returns (remove self item) (Stores items')
unfolding remove
Removes-Stores item self (absent items none_there) h =
    let missed : move_down item self.count self.buffer ≡ none =
      ap (λ n. move_down item n self.buffer) h.counted
      ∙ ap (move_down item (length items)) h.cells
      ∙ move_down-absent item items h.spare none_there in
    rw (h.locked, missed) (self, refl, h)
Removes-Stores item self (last pre before) h =
    let (y, e) = move_bytes-last item h.spare in
    found-Stores item pre [] self h pre (y ∷ h.spare) before (ap (λ l. pre ++ l) e) (omega arith)
      (omega arith)
Removes-Stores item self (inner pre moved kept s k before long few) h =
    let post = moved ++ s ∷ kept in
    let y = merge (k % 8) s (last_of item moved) in
    let bytes : suc (length post) ≡ 8 * length moved + k % 8 =
      omega (arith, long, few, length-append moved (s ∷ kept)) in
    let parted = append_assoc moved (s ∷ kept) h.spare in
    found-Stores item pre post self h (pre ++ (moved ++ y ∷ init_of s kept))
      (last_of s kept ∷ h.spare) before
      (ap (λ l. pre ++ move_bytes (item ∷ l) l (suc (length post))) parted
        ∙ ap (λ l. pre ++ l)
            (move_bytes-runs item moved (kept ++ h.spare) s (k % 8) (suc (length post))
              (omega arith) bytes)
        ∙ regroup s y pre moved kept h.spare)
      (omega (
        arith,
        length-append pre (moved ++ y ∷ init_of s kept),
        length-append moved (y ∷ init_of s kept),
        length-init_of s kept,
        length-append moved (s ∷ kept),
      ))
      (omega arith)

-- The cells below a bound, and those from there on.
split_at :
    (n : ℕ) (l : List ℕ)
    → n < length l
    → (a : List ℕ) × (s : ℕ) × (b : List ℕ) × (l ≡ a ++ s ∷ b) × (length a ≡ n)
split_at n [] h = absurd (omega arith)
split_at zero (x ∷ l) h = ([], x, l, refl, refl)
split_at (suc n) (x ∷ l) h =
    let (a, s, b, e, k) = split_at n l (omega arith) in (x ∷ a, s, b, ap (λ t. x ∷ t) e, ap suc k)

-- Where the loop stops.
find_item :
    (item : ℕ) (items : List ℕ)
    → All (λ x. x ≢ item) items
      ⊎ ((pre post : List ℕ) × (items ≡ pre ++ item ∷ post) × All (λ x. x ≢ item) pre)
find_item item [] = inl tt
find_item item (x ∷ items) = elim (Bool-cases (x == item)) [
  | inl here ↦ inr ([], items, ap (λ y. y ∷ items) (ground arith), tt)
  | inr away ↦ elim (find_item item items) [
    | inl none_there ↦ inl (ground arith, none_there)
    | inr (pre, post, e, before) ↦ inr (x ∷ pre, post, ap (λ l. x ∷ l) e, (ground arith, before))
  ]
]

Removes-total : (item : ℕ) (items : List ℕ) → (items' : List ℕ) × Removes item items items'
Removes-total item items = elim (find_item item items) [
  | inl none_there ↦ (items, absent items none_there)
  | inr (pre, post, e, before) ↦
      subst (λ l. (items' : List ℕ) × Removes item l items') (sym e) (inner_or_last pre post before)
]
  where
    inner_or_last :
        (pre post : List ℕ)
        → All (λ x. x ≢ item) pre
        → (items' : List ℕ) × Removes item (pre ++ item ∷ post) items'
    inner_or_last pre [] before = (pre, last pre before)
    inner_or_last pre (x ∷ post) before =
        let (moved, s, kept, e, long) =
          split_at (length (item ∷ x ∷ post) / 8) (x ∷ post) (omega arith) in
        let k = length moved + length kept + 2 in
        let whole : length (item ∷ x ∷ post) ≡ k =
          omega (arith, ap length e, length-append moved (s ∷ kept)) in
        let few : length moved ≡ k / 8 = long ∙ ap (λ n. n / 8) whole in
        subst (λ l. (items' : List ℕ) × Removes item (pre ++ item ∷ l) items') (sym e)
          (_, inner pre moved kept s k before refl few)

-- ArrayList_remove of a list with some items returns, and the items that it leaves are those of
-- `Removes`: all of them where the item is absent, the others where it is the last one, and else the
-- list in which only a part has moved down.
pub remove-Removes :
    (item : ℕ) (items : List ℕ) (self : ArrayList)
    → Stores items self
    → Returns
        (remove self item)
        (λ r. (items' : List ℕ) × Removes item items items' × Stores items' r)
remove-Removes item items self h =
    let (items', moves) = Removes-total item items in
    let (r, run, stored) = Removes-Stores item self moves h in (r, run, (items', moves, stored))
