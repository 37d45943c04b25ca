-- ===== src/HashTable/Iterator/Remove.antt =====
-- HashTableIterator_remove of src/HashTableIterator.c takes out the entry at which the iterator stands.
use mathlib.Core.Path.{subst}
use tool_boslib.Base.{
  drop-middle, ℕ, suc, Returns, ◌+◌, ◌≡◌, refl, sym, ap, ◌∙◌, List, [], ◌∷◌, ◌++◌, ◌≤◌, drop,
  length, length-append, append_assoc, append-nil, leb, arith, ok, ◌>>=◌, ◌>>◌, require, none, some,
  ◌⊎◌, inl, inr, Bool-cases,
}
use tool_boslib.HashFunctions.{Memory}
use tool_boslib.HashTable.{Entry, HashTable, table_length}
use tool_boslib.HashTable.Calls.{less_one}
use tool_boslib.HashTable.Valid.{IsShaped, is_marked}
use tool_boslib.HashTable.Iterator.{
  Iterator, scan, place, found_one, advance, correct_parent, remove,
}
use tool_boslib.HashTable.Iterator.Visit.{flat, at_entry}
use tool_boslib.HashTable.Iterator.Splice.{At, parent_at, without, flat-append, remove-advance}

scan-splits :
    (cs : List (List Entry)) (j : ℕ)
    → ((scan cs j ≡ none) × (flat cs ≡ []))
      ⊎ ((empty upper : List (List Entry)) × (e : Entry) × (es : List Entry) × (cs
            ≡ empty ++ (e ∷ es) ∷ upper)
          × (flat empty ≡ [])
          × (scan cs j ≡ some (j + length empty, e ∷ es)))
unfolding scan
scan-splits [] j = inl (refl, refl)
scan-splits ((e ∷ es) ∷ cs) j =
    let here : j ≡ j + 0 = omega arith in
    inr ([], cs, e, es, refl, refl, ap (λ k. some (k, e ∷ es)) here)
scan-splits ([] ∷ cs) j = elim (scan-splits cs (j + 1)) [
  | inl none_there ↦ inl none_there
  | inr (empty, upper, e, es, parts, nothing, found) ↦
      let there : j + 1 + length empty ≡ j + suc (length empty) = omega arith in
      inr (
        [] ∷ empty,
        upper,
        e,
        es,
        ap (λ l. [] ∷ l) parts,
        nothing,
        found ∙ ap (λ k. some (k, e ∷ es)) there,
      )
]

-- What a removal leaves: the entries before and after, one less in the count, and the iterator at the
-- next entry, or without one at the end.
pub Leaves : List Entry → List Entry → HashTable → Iterator → Type 0
Leaves before after t self =
    (flat self.hash_table.table ≡ before ++ after)
    × (self.hash_table.entry_count ≡ less_one t.entry_count)
    × (((after ≡ []) × (self.entry ≡ [])) ⊎ At before after self)

flat-without :
    (lower upper : List (List Entry)) (pre rest : List Entry)
    → flat (lower ++ (pre ++ rest) ∷ upper) ≡ (flat lower ++ pre) ++ (rest ++ flat upper)
flat-without lower upper pre rest =
    flat-append lower ((pre ++ rest) ∷ upper)
    ∙ ap (λ l. flat lower ++ l) (append_assoc pre rest (flat upper))
    ∙ sym (append_assoc (flat lower) pre (rest ++ flat upper))

flat-bucket :
    (lower empty : List (List Entry)) (pre : List Entry)
    → flat empty ≡ []
    → flat lower ++ pre ≡ flat (lower ++ pre ∷ empty) ++ []
flat-bucket lower empty pre h =
    ap (λ l. flat lower ++ l) (sym (append-nil pre) ∙ ap (λ l. pre ++ l) (sym h))
    ∙ sym (flat-append lower (pre ∷ empty))
    ∙ sym (append-nil (flat (lower ++ pre ∷ empty)))

-- The bucket in which the search for the next entry stops.
next-At :
    (t : HashTable) (lower empty upper higher : List (List Entry)) (pre : List Entry) (e : Entry)
    (es : List Entry)
    → upper ≡ empty ++ (e ∷ es) ∷ higher
    → flat empty ≡ []
    → At
        (flat lower ++ pre)
        (flat upper)
        (at_entry (without t (lower ++ pre ∷ upper)) (e ∷ es) [] (length lower + 1 + length empty))
next-At t lower empty upper higher pre e es parts nothing = record {
  lower = lower ++ pre ∷ empty;
  pre = [];
  entry = e;
  rest = es;
  upper = higher;
  table = without t (lower ++ pre ∷ upper);
  buckets =
      ap (λ l. lower ++ pre ∷ l) parts ∙ sym (append_assoc lower (pre ∷ empty) ((e ∷ es) ∷ higher));
  behind = flat-bucket lower empty pre nothing;
  ahead =
      ap flat parts
      ∙ flat-append empty ((e ∷ es) ∷ higher)
      ∙ ap (λ l. l ++ ((e ∷ es) ++ flat higher)) nothing;
  self_at =
      let there : length lower + 1 + length empty ≡ length (lower ++ pre ∷ empty) =
        omega (arith, length-append lower (pre ∷ empty)) in
      ap (at_entry (without t (lower ++ pre ∷ upper)) (e ∷ es) []) there;
}

-- The search for the next bucket with an entry, after the last entry of a bucket.
place-Leaves :
    (t : HashTable) (lower upper : List (List Entry)) (pre : List Entry) (here : List Entry)
    → Leaves (flat lower ++ pre) (flat upper) t (
        correct_parent
          (parent_at pre [])
          (found_one (
            place
              (scan upper (length lower + 1))
              t.table_length
              (at_entry (without t (lower ++ pre ∷ upper)) here [] (length lower + 1)))).1)
unfolding Leaves
place-Leaves t lower upper pre here =
    let kept = flat-append lower (pre ∷ upper) ∙ sym (append_assoc (flat lower) pre (flat upper)) in
    elim (scan-splits upper (length lower + 1)) [
      | inl (nothing, empty) ↦ rw nothing (kept, refl, inl (empty, refl))
      | inr (empty, higher, e, es, parts, nothing, found) ↦
          rw found (kept, refl, inr (next-At t lower empty upper higher pre e es parts nothing))
    ]

length-without :
    {m : Memory} (t : HashTable) (buckets : List (List Entry))
    → IsShaped m t
    → table_length (without t buckets) ≡ ok t.table_length
unfolding table_length
length-without t buckets v = ap (λ b. require b >> ok t.table_length) (is_marked v)

upper-empty :
    (lower upper : List (List Entry)) (c : List Entry)
    → length (lower ++ c ∷ upper) ≤ length lower + 1
    → upper ≡ []
upper-empty lower [] c h = refl
upper-empty lower (d ∷ upper) c h = absurd (omega (arith, length-append lower (c ∷ d ∷ upper)))

advance-Leaves :
    {m : Memory} (t : HashTable) (lower upper : List (List Entry)) (pre : List Entry) (e : Entry)
    (rest : List Entry)
    → IsShaped m t
    → t.table ≡ lower ++ (pre ++ e ∷ rest) ∷ upper
    → Returns
        (advance (e ∷ rest) (
            at_entry
              (without t (lower ++ (pre ++ rest) ∷ upper))
              (e ∷ rest)
              (parent_at pre rest)
              (length lower))
          >>= λ r. ok (correct_parent (parent_at pre rest) r.1))
        (Leaves (flat lower ++ pre) (rest ++ flat upper) t)
unfolding advance Leaves
advance-Leaves t lower upper pre e (f ∷ es) v h = (
  _,
  refl,
  (
    flat-without lower upper pre (f ∷ es),
    refl,
    inr (record {
      lower = lower;
      pre = pre;
      entry = f;
      rest = es;
      upper = upper;
      table = without t (lower ++ (pre ++ f ∷ es) ∷ upper);
      buckets = refl;
      behind = refl;
      ahead = refl;
      self_at = refl;
    }),
  ),
)
advance-Leaves t lower upper pre e [] v h =
    let next_index : length lower + 1 ≡ suc (length lower) = omega arith in
    let beyond : drop (length lower + 1) (lower ++ pre ∷ upper) ≡ upper =
      ap (λ k. drop k (lower ++ pre ∷ upper)) next_index ∙ drop-middle lower pre upper in
    rw (append-nil pre, length-without t (lower ++ pre ∷ upper) v)
      (elim (Bool-cases (leb t.table_length (length lower + 1))) [
        | inl ended ↦
            let none_left : upper ≡ [] =
              upper-empty lower upper (pre ++ e ∷ []) (ground (arith, v.width, ap length h)) in
            rw ended (
              _,
              refl,
              (
                flat-append lower (pre ∷ upper) ∙ sym (append_assoc (flat lower) pre (flat upper)),
                refl,
                inl (ap flat none_left, refl),
              ),
            )
        | inr more ↦ rw (more, beyond) (_, refl, place-Leaves t lower upper pre (e ∷ []))
      ])

-- HashTableIterator_remove, of an iterator that stands at an entry of a well-shaped table, returns. It
-- takes that entry out of the table and keeps all others in their order, lowers the count by one (on
-- unsigned int), and leaves the iterator at the next entry with the right parent, or without an entry
-- if there is none.
pub remove-Leaves :
    {m : Memory} (before after : List Entry) (self : Iterator) (e : Entry)
    → IsShaped m self.hash_table
    → At before (e ∷ after) self
    → Returns (remove self) (Leaves before after self.hash_table)
unfolding Leaves
remove-Leaves {m} before after self e v at =
    let t = at.table in
    let back = flat at.lower ++ at.pre in
    let front = at.rest ++ flat at.upper in
    let (r, run, left) =
      advance-Leaves t at.lower at.upper at.pre at.entry at.rest
        (subst (λ s. IsShaped m s.hash_table) at.self_at v) at.buckets in
    let post : Leaves before after self.hash_table r =
      subst (λ s. Leaves before after s.hash_table r) (sym at.self_at)
        (subst (λ b. Leaves b after t r) (sym at.behind)
          (subst (λ a. Leaves back a t r) (sym (ap (drop 1) at.ahead)) left)) in
    (
      r,
      ap remove at.self_at
          ∙ remove-advance t at.lower at.upper at.pre at.entry at.rest at.buckets
          ∙ run,
      post,
    )
