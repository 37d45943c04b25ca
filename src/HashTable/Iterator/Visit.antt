-- ===== src/HashTable/Iterator/Visit.antt =====
-- The walk of src/HashTableIterator.c meets every entry of the table once, bucket by bucket.
use mathlib.Core.Path.{subst}
use tool_boslib.Base.{
  ℕ, zero, suc, Returns, ◌+◌, ◌^◌, ◌≤◌, ◌<◌, ◌≡◌, refl, sym, ap, ◌∙◌, List, [], ◌∷◌, ◌++◌, map,
  drop, length, length-append, true, leb, ◌==◌, arith, ok, ◌>>=◌, ◌>>◌, require, ℤ, pos, negsuc,
  none, some, ◌⊎◌, inl, inr, Bool-cases,
}
use tool_boslib.HashFunctions.{Memory}
use tool_boslib.HashTable.{Entry, HashTable, count, table_length}
use tool_boslib.HashTable.Chains.{total}
use tool_boslib.HashTable.Valid.{IsShaped, IsValid, is_marked}
use tool_boslib.HashTable.Iterator.{
  Iterator, init, scan, place, first, found_one, advance, next, gather, collect,
}

-- All entries of some buckets.
abbrev pub flat : List (List Entry) → List Entry
flat [] = []
flat (c ∷ cs) = c ++ flat cs

abbrev pub pair_of : Entry → ℕ × ℕ
pair_of e = (e.key, e.value)

-- An iterator that stands somewhere in the table.
abbrev pub at_entry : HashTable → List Entry → List Entry → ℕ → Iterator
at_entry t entry parent index = record {
  valid = true;
  hash_table = t;
  entry = entry;
  parent = parent;
  index = index;
  initialized = true;
}

drop-suc : (j d : ℕ) (cs : List (List Entry)) → drop (suc d) (drop j cs) ≡ drop (suc (j + d)) cs
drop-suc zero d cs = let e : d ≡ 0 + d = omega arith in ap (λ k. drop (suc k) cs) e
drop-suc (suc j) d [] = refl
drop-suc (suc j) d (c ∷ cs) =
    let e : suc (j + d) ≡ suc j + d = omega arith in drop-suc j d cs ∙ ap (λ k. drop k cs) e

drop-all : (j : ℕ) (cs : List (List Entry)) → length cs ≤ j → drop j cs ≡ []
drop-all zero [] h = refl
drop-all zero (c ∷ cs) h = absurd (omega arith)
drop-all (suc j) [] h = refl
drop-all (suc j) (c ∷ cs) h = drop-all j cs (omega arith)

scan-cases :
    (cs : List (List Entry)) (j : ℕ)
    → ((scan cs j ≡ none) × (flat cs ≡ []))
      ⊎ ((d : ℕ) × (e : Entry) × (es : List Entry) × (scan cs j ≡ some (j + d, e ∷ es))
          × (flat cs ≡ (e ∷ es) ++ flat (drop (suc d) cs)))
unfolding scan
scan-cases [] j = inl (refl, refl)
scan-cases ((e ∷ es) ∷ cs) j =
    let here : j + 0 ≡ j = omega arith in inr (0, e, es, rw here refl, refl)
scan-cases ([] ∷ cs) j = elim (scan-cases cs (j + 1)) [
  | inl none_there ↦ inl none_there
  | inr (d, e, es, found, parts) ↦
      let there : j + 1 + d ≡ j + suc d = omega arith in
      inr (suc d, e, es, found ∙ ap (λ k. some (k, e ∷ es)) there, parts)
]

pub table_length-ok :
    {m : Memory} {t : HashTable} → IsShaped m t → table_length t ≡ ok t.table_length
unfolding table_length
table_length-ok {m} {t} v = ap (λ b. require b >> ok t.table_length) (is_marked v)

count-ok : {m : Memory} {t : HashTable} → IsShaped m t → count t ≡ ok t.entry_count
unfolding count
count-ok {m} {t} v = ap (λ b. require b >> ok t.entry_count) (is_marked v)

-- Where a step leaves the iterator: behind the last entry, or at the first of the entries `ps` that are
-- left.
Stands : HashTable → List Entry → ℤ × Iterator → Type 0
Stands t ps r =
    ((ps ≡ []) × (r.0 ≡ pos 0))
    ⊎ ((e : Entry) × (es parent : List Entry) × (index : ℕ) × (r
          ≡ (negsuc 0, at_entry t (e ∷ es) parent index))
        × (ps ≡ (e ∷ es) ++ flat (drop (suc index) t.table)))

place-Stands :
    (t : HashTable) (entry parent : List Entry) (index j : ℕ)
    → Stands t
        (flat (drop j t.table))
        (found_one (place (scan (drop j t.table) j) t.table_length (at_entry t entry parent index)))
unfolding Stands
place-Stands t entry parent index j = elim (scan-cases (drop j t.table) j) [
  | inl (nothing, empty) ↦ rw nothing (inl (empty, refl))
  | inr (d, e, es, found, parts) ↦ rw found (
      inr (e, es, parent, j + d, refl, parts ∙ ap (λ l. (e ∷ es) ++ flat l) (drop-suc j d t.table)))
]

advance-Stands :
    {m : Memory} (t : HashTable) (e : Entry) (es parent : List Entry) (index : ℕ)
    → IsShaped m t
    → Returns
        (advance (e ∷ es) (at_entry t (e ∷ es) parent index))
        (Stands t (es ++ flat (drop (suc index) t.table)))
unfolding advance Stands
advance-Stands t e (f ∷ es) parent index v = (_, refl, inr (f, es, e ∷ f ∷ es, index, refl, refl))
advance-Stands t e [] parent index v =
    let next_index : index + 1 ≡ suc index = omega arith in
    rw (table_length-ok v) (elim (Bool-cases (leb t.table_length (index + 1))) [
      | inl beyond ↦
          rw beyond
            (_, refl, inl (ap flat (drop-all (suc index) t.table (ground (arith, v.width))), refl))
      | inr within ↦ rw within (
        _,
        refl,
        subst
            (λ k. Stands t (flat (drop k t.table)) (
              found_one (
                place (scan (drop (index + 1) t.table) (index + 1)) t.table_length
                  (at_entry t (e ∷ []) [] (index + 1)))))
            next_index (place-Stands t (e ∷ []) [] (index + 1) (index + 1)),
      )
    ])

gather-Stands :
    {m : Memory} (n : ℕ) (t : HashTable) (ps : List Entry) (r : ℤ × Iterator)
    → IsShaped m t
    → length ps ≡ n
    → Stands t ps r
    → gather (collect n r.1) r ≡ ok (map pair_of ps)
unfolding Stands collect next
gather-Stands n t ps r v long (inl (empty, ended)) =
    ap (λ k. gather (collect n r.1) (k, r.1)) ended ∙ ap (λ l. ok (map pair_of l)) (sym empty)
gather-Stands zero t ps r v long (inr (f, fs, parent, index, at, parts)) =
    absurd (omega (arith, long, ap length parts))
gather-Stands (suc n) t ps r v long (inr (f, fs, parent, index, at, parts)) =
    let others = fs ++ flat (drop (suc index) t.table) in
    let (r', run, stands) = advance-Stands t f fs parent index v in
    let shorter : length others ≡ n = omega (arith, long, ap length parts) in
    ap (λ p. gather (collect (suc n) p.1) p) at
    ∙ ap (λ c. (c >>= λ p. gather (collect n p.1) p) >>= λ rest. ok (pair_of f ∷ rest)) run
    ∙ ap (λ c. c >>= λ rest. ok (pair_of f ∷ rest)) (gather-Stands n t others r' v shorter stands)
    ∙ ap (λ l. ok (map pair_of l)) (sym parts)

length-flat : (cs : List (List Entry)) → length (flat cs) ≡ total cs
unfolding total
length-flat [] = refl
length-flat (c ∷ cs) = omega (arith, length-append c (flat cs), length-flat cs)

length-zero : (l : List Entry) → length l ≡ 0 → l ≡ []
length-zero [] h = refl
length-zero (e ∷ l) h = absurd (omega (arith, h))

-- The first call of `next`.
begin-Stands :
    {m : Memory} (t : HashTable)
    → IsValid m t
    → total t.table < 2 ^ 32
    → Returns (next (init t)) (Stands t (flat t.table))
unfolding next first Stands
begin-Stands {m} t v small = elim (Bool-cases (t.entry_count == 0)) [
  | inl empty ↦
      let zero_total : total t.table ≡ 0 = ground (arith, v.counted) in
      rw (table_length-ok v.shaped, count-ok v.shaped, empty)
        (_, refl, inl (length-zero (flat t.table) (length-flat t.table ∙ zero_total), refl))
  | inr some_there ↦
      rw (table_length-ok v.shaped, count-ok v.shaped, some_there)
        (_, refl, place-Stands t [] [] t.table_length 0)
]

-- A caller that collects keys and values while HashTableIterator_next gives -1, on a valid table of
-- fewer than 2 ^ 32 entries, gets those of all entries, each once, bucket by bucket, and one round more
-- than there are entries is enough.
pub collect-flat :
    {m : Memory} (t : HashTable)
    → IsValid m t
    → total t.table < 2 ^ 32
    → collect (suc (total t.table)) (init t) ≡ ok (map pair_of (flat t.table))
unfolding collect
collect-flat {m} t v small =
    let (r, run, stands) = begin-Stands {m = m} t v small in
    ap (λ c. c >>= λ p. gather (collect (total t.table) p.1) p) run
    ∙ gather-Stands (total t.table) t (flat t.table) r v.shaped (length-flat t.table) stands
