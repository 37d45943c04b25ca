-- ===== src/ArrayList/Stack.antt =====
-- src/ArrayList.c against the list of its items: push, pop, get and reset.
use tool_boslib.Base.{
  ℕ, zero, ◌≤◌, suc, ◌+◌, ◌-◌, ◌*◌, ◌≡◌, refl, sym, ap, ◌∙◌, List, [], ◌∷◌, ◌++◌, replicate, take,
  take-left, ◌<◌, length, length-append, length-replicate, get_or, set, set-middle, get_or-middle,
  append_assoc, Bool, true, ltb, leb, ◌==◌, if◌then◌else◌, Bool-cases, ◌⊎◌, inl, inr, ok, ◌>>=◌,
  ◌>>◌, require, Returns, ℤ, pos, negsuc, arith,
}
use tool_boslib.ArrayList.{ArrayList, new_size, allocate, store, push, pop, cell_at, get}

-- The items, and the cells that no item uses.
pub record Stores (items : List ℕ) (self : ArrayList) : Type 0 where
  pub spare : List ℕ
  pub locked : self.mutex ≡ true
  pub cells : self.buffer ≡ items ++ spare
  pub counted : self.count ≡ length items
  pub left : self.free ≡ length spare

-- The cells in all.
abbrev pub capacity : ArrayList → ℕ
capacity self = self.count + self.free

new_size-lt : (n : ℕ) → n < new_size n
new_size-lt n = ground arith

grown : ArrayList → List ℕ → ArrayList
grown self items = record self {
  buffer = items ++ replicate (new_size self.count - self.count) 0;
  free = new_size self.count - self.count;
}

allocate-runs :
    (items : List ℕ) (self : ArrayList)
    → Stores items self
    → self.free ≡ 0
    → allocate true self
      ≡ ok (record self {
        buffer = items ++ replicate (new_size self.count - self.count) 0;
        free = new_size self.count - self.count;
      })
unfolding allocate grown
allocate-runs items self h none_free =
    let k = new_size self.count - self.count in
    let larger : ltb self.count (new_size self.count) ≡ true = ground arith in
    let checked : (b : List ℕ)
        → (elim b [ [] ↦ true | x ∷ l ↦ ltb self.count (new_size self.count) ]) ≡ true =
      λ b.
        elim b
          as (λ c. (elim c [ [] ↦ true | x ∷ l ↦ ltb self.count (new_size self.count) ]) ≡ true) [
            | [] ↦ refl
            | x ∷ l ↦ larger
          ] in
    let copied : take self.count self.buffer ≡ items =
      ap (λ n. take n self.buffer) h.counted
      ∙ ap (take (length items)) h.cells
      ∙ take-left items h.spare in
    ap
      (λ b.
        require b
        >> ok (record self { buffer = take self.count self.buffer ++ replicate k 0; free = k }))
      (checked self.buffer)
    ∙ ap (λ l. ok (record self { buffer = l ++ replicate k 0; free = k })) copied

-- An item goes into the first cell_at that no item uses.
store-Stores :
    (items : List ℕ) (self : ArrayList) (item : ℕ)
    → Stores items self
    → 0 < self.free
    → Stores (items ++ item ∷ []) (store item self)
store-Stores items self item h free = go h.spare h.cells h.left
  where
    go :
        (spare : List ℕ)
        → self.buffer ≡ items ++ spare
        → self.free ≡ length spare
        → Stores (items ++ item ∷ []) (store item self)
    go [] cells left = absurd (omega (arith, left, free))
    go (x ∷ spare) cells left = record {
      spare = spare;
      locked = h.locked;
      cells =
          ap (λ n. set self.buffer n item) h.counted
          ∙ ap (λ b. set b (length items) item) cells
          ∙ set-middle items x item spare
          ∙ sym (append_assoc items (item ∷ []) spare);
      counted = omega (arith, h.counted, length-append items (item ∷ []));
      left = omega (arith, left);
    }

-- ArrayList_push returns if it finds a free cell or the allocation of a larger buffer succeeds. The
-- items are those before and the new one at the end, and where no cell was free there are twice as many
-- cells as items before then, or 50 for the first item.
pub push-Stores :
    (items : List ℕ) (self : ArrayList) (item : ℕ) (allocated : Bool)
    → Stores items self
    → (0 < self.free) ⊎ (allocated ≡ true)
    → Returns (push allocated self item) λ r.
      Stores (items ++ item ∷ []) r
      × (capacity r ≡ (
          if self.free == 0
          then (if length items == 0 then 50 else 2 * length items)
          else capacity self))
unfolding push grown
push-Stores items self item allocated h room = elim (Bool-cases (leb self.free 0)) [
  | inl full ↦
      let k = new_size self.count - self.count in
      let none_free : self.free ≡ 0 = ground arith in
      let granted : allocated ≡ true = ground (arith, room) in
      let larger = grown self items in
      let kept : Stores items larger = record {
        spare = replicate k 0;
        locked = h.locked;
        cells = refl;
        counted = h.counted;
        left = sym (length-replicate k 0);
      } in
      (
        store item larger,
        opened
            ∙ ap (λ b. (if b then allocate allocated self else ok self) >>= λ r. ok (store item r))
                full
            ∙ ap (λ b. allocate b self >>= λ r. ok (store item r)) granted
            ∙ ap (λ c. c >>= λ r. ok (store item r)) (allocate-runs items self h none_free),
        (store-Stores items larger item kept (ground arith), ground (arith, h.counted)),
      )
  | inr some_left ↦
      let free : 0 < self.free = ground arith in
      (
        store item self,
        opened
            ∙ ap (λ b. (if b then allocate allocated self else ok self) >>= λ r. ok (store item r))
                some_left,
        (store-Stores items self item h free, ground arith),
      )
]
  where
    opened : push allocated self item ≡ (
        (if leb self.free 0 then allocate allocated self else ok self) >>= λ r. ok (store item r))
    opened =
        ap
          (λ b.
            require b
            >> ((if leb self.free 0 then allocate allocated self else ok self) >>= λ r.
                ok (store item r)))
          h.locked

-- ArrayList_pop of a list whose last item is `item` gives it and leaves the items before.
pub pop-Stores :
    (items : List ℕ) (self : ArrayList) (item : ℕ)
    → Stores (items ++ item ∷ []) self
    → Returns (pop self) (λ r. (r.0 ≡ item) × Stores items r.1)
unfolding pop
pop-Stores items self item h =
    let long : self.count ≡ suc (length items) =
      omega (arith, h.counted, length-append items (item ∷ [])) in
    let some_there : ltb 0 self.count ≡ true = ground arith in
    let last : self.count - 1 ≡ length items = omega arith in
    let parted = h.cells ∙ append_assoc items (item ∷ []) h.spare in
    (
      _,
      ap (λ b. require b >> (if ltb 0 self.count then ok popped else ok (0, self))) h.locked
          ∙ ap (λ b. if b then ok popped else ok (0, self)) some_there,
      (
        ap (λ b. get_or b (self.count - 1) 0) parted
            ∙ ap (λ n. get_or (items ++ item ∷ h.spare) n 0) last
            ∙ get_or-middle items item 0 h.spare,
        record {
          spare = item ∷ h.spare;
          locked = h.locked;
          cells = parted;
          counted = last;
          left = omega (arith, h.left);
        },
      ),
    )
  where
    popped : ℕ × ArrayList
    popped = (
      get_or self.buffer (self.count - 1) 0,
      record self { count = self.count - 1; free = self.free + 1 },
    )

-- A push that finds a free cell or memory is undone by a pop: both return, ArrayList_pop gives the item
-- that ArrayList_push stored, and the items are those before the push.
pub pop-push :
    (items : List ℕ) (self : ArrayList) (item : ℕ) (allocated : Bool)
    → Stores items self
    → (0 < self.free) ⊎ (allocated ≡ true)
    → Returns (push allocated self item >>= pop) (λ r. (r.0 ≡ item) × Stores items r.1)
pop-push items self item allocated h room =
    let (pushed, run, (stored, roomy)) = push-Stores items self item allocated h room in
    let (r, popped, post) = pop-Stores items pushed item stored in
    (r, ap (λ c. c >>= pop) run ∙ popped, post)

get_or-append : (xs ys : List ℕ) (n : ℕ) → n < length xs → get_or (xs ++ ys) n 0 ≡ get_or xs n 0
get_or-append [] ys n h = absurd (omega arith)
get_or-append (x ∷ xs) ys zero h = refl
get_or-append (x ∷ xs) ys (suc n) h = get_or-append xs ys n (omega arith)

get_or-beyond : (xs : List ℕ) (n : ℕ) → length xs ≤ n → get_or xs n 0 ≡ 0
get_or-beyond [] n h = refl
get_or-beyond (x ∷ xs) zero h = absurd (omega arith)
get_or-beyond (x ∷ xs) (suc n) h = get_or-beyond xs n (omega arith)

-- The item of an index, 0 out of range.
abbrev pub item_at : List ℕ → ℤ → ℕ
item_at items (negsuc n) = 0
item_at items (pos n) = get_or items n 0

-- ArrayList_get gives the item of the index, and NULL for one that is negative or too large, also where
-- the buffer has a cell for it.
pub get-Stores :
    (items : List ℕ) (self : ArrayList) (index : ℤ)
    → Stores items self
    → get self index ≡ ok (item_at items index)
unfolding get
get-Stores items self (negsuc n) h = ap (λ b. require b >> ok 0) h.locked
get-Stores items self (pos n) h =
    ap (λ b. require b >> ok (cell_at (pos n) self)) h.locked
    ∙ elim (Bool-cases (ltb n self.count)) [
      | inl within ↦
          ap (λ b. ok (if b then get_or self.buffer n 0 else 0)) within
          ∙ ap (λ b. ok (get_or b n 0)) h.cells
          ∙ ap ok (get_or-append items h.spare n (ground (arith, h.counted)))
      | inr beyond ↦
          ap (λ b. ok (if b then get_or self.buffer n 0 else 0)) beyond
          ∙ ap ok (sym (get_or-beyond items n (ground (arith, h.counted))))
    ]
