-- ===== src/HashTable/Iterator/Splice.antt =====
-- Where HashTableIterator_remove of src/HashTableIterator.c writes: the chain behind the parent, or the bucket.
use tool_boslib.Base.{
  set-middle, get_or-middle, take-left, Run, ◌-◌, ◌≡◌, refl, sym, ap, ◌∙◌, List, [], ◌∷◌, ◌++◌,
  take, set, get_or, length, length-append, append_assoc, arith, ok, ◌>>=◌,
}
use tool_boslib.HashTable.{Entry, HashTable}
use tool_boslib.HashTable.Calls.{less_one}
use tool_boslib.HashTable.Iterator.{
  Iterator, advance, next, relink_chain, relinked, correct_parent, remove_entry, remove,
}
use tool_boslib.HashTable.Iterator.Visit.{flat, at_entry}

-- The parent pointer of an iterator that stands at the chain `here` behind the entries `pre`.
abbrev pub parent_at : List Entry → List Entry → List Entry
parent_at [] here = []
parent_at (p ∷ []) here = p ∷ here
parent_at (p ∷ q ∷ pre) here = parent_at (q ∷ pre) here

-- The iterator stands at the first of the entries `after`, and the walk has left `before` behind.
pub record At (before after : List Entry) (self : Iterator) : Type 0 where
  pub lower : List (List Entry)
  pub pre : List Entry
  pub entry : Entry
  pub rest : List Entry
  pub upper : List (List Entry)
  pub table : HashTable
  pub buckets : table.table ≡ lower ++ (pre ++ entry ∷ rest) ∷ upper
  pub behind : before ≡ flat lower ++ pre
  pub ahead : after ≡ entry ∷ rest ++ flat upper
  pub self_at : self ≡ at_entry table (entry ∷ rest) (parent_at pre (entry ∷ rest)) (length lower)

pub flat-append : (l u : List (List Entry)) → flat (l ++ u) ≡ flat l ++ flat u
flat-append [] u = refl
flat-append (c ∷ l) u = ap (λ t. c ++ t) (flat-append l u) ∙ sym (append_assoc c (flat l) (flat u))

last_of : Entry → List Entry → Entry
last_of p [] = p
last_of p (q ∷ pre) = last_of q pre

parent_at-last :
    (p : Entry) (pre here : List Entry) → parent_at (p ∷ pre) here ≡ last_of p pre ∷ here
unfolding last_of
parent_at-last p [] here = refl
parent_at-last p (q ∷ pre) here = parent_at-last q pre here

relink_chain-parent_at :
    (pre : List Entry) (e : Entry) (rest : List Entry)
    → relink_chain (parent_at pre (e ∷ rest)) (pre ++ e ∷ rest) rest ≡ pre ++ rest
unfolding relink_chain
relink_chain-parent_at [] e rest = refl
relink_chain-parent_at (p ∷ pre) e rest =
    let chain = (p ∷ pre) ++ e ∷ rest in
    let kept : length chain - length (e ∷ rest) ≡ length (p ∷ pre) =
      omega (arith, length-append (p ∷ pre) (e ∷ rest)) in
    ap (λ l. relink_chain l chain rest) (parent_at-last p pre (e ∷ rest))
    ∙ ap (λ n. take n chain ++ rest) kept
    ∙ ap (λ l. l ++ rest) (take-left (p ∷ pre) (e ∷ rest))

relinked-parent_at :
    (pre : List Entry) (e : Entry) (rest : List Entry)
    → relinked (parent_at pre (e ∷ rest)) rest ≡ parent_at pre rest
relinked-parent_at [] e rest = refl
relinked-parent_at (p ∷ pre) e rest =
    ap (λ l. relinked l rest) (parent_at-last p pre (e ∷ rest)) ∙ sym (parent_at-last p pre rest)

-- The table without the entry.
abbrev pub without : HashTable → List (List Entry) → HashTable
without t buckets = record t { table = buckets; entry_count = less_one t.entry_count }

-- `remove` up to its call of `next`.
pub remove-advance :
    (t : HashTable) (lower upper : List (List Entry)) (pre : List Entry) (e : Entry)
    (rest : List Entry)
    → t.table ≡ lower ++ (pre ++ e ∷ rest) ∷ upper
    → remove (at_entry t (e ∷ rest) (parent_at pre (e ∷ rest)) (length lower)) ≡ (
        advance (e ∷ rest) (
          at_entry
            (without t (lower ++ (pre ++ rest) ∷ upper))
            (e ∷ rest)
            (parent_at pre rest)
            (length lower))
        >>= λ r. ok (correct_parent (parent_at pre rest) r.1))
unfolding remove remove_entry next
remove-advance t lower upper pre e rest h =
    let index = length lower in
    let parent = parent_at pre (e ∷ rest) in
    let run : List (List Entry) → List Entry → Run Iterator = λ b p.
      advance (e ∷ rest) (at_entry (without t b) (e ∷ rest) p index) >>= λ r.
      ok (correct_parent p r.1) in
    let chain : get_or t.table index [] ≡ pre ++ e ∷ rest =
      ap (λ b. get_or b index []) h ∙ get_or-middle lower (pre ++ e ∷ rest) [] upper in
    let bucket : relink_chain parent (get_or t.table index []) rest ≡ pre ++ rest =
      ap (λ c. relink_chain parent c rest) chain ∙ relink_chain-parent_at pre e rest in
    ap (λ c. run (set t.table index c) (relinked parent rest)) bucket
    ∙ ap (λ b. run (set b index (pre ++ rest)) (relinked parent rest)) h
    ∙ ap (λ b. run b (relinked parent rest))
        (set-middle lower (pre ++ e ∷ rest) (pre ++ rest) upper)
    ∙ ap (λ p. run (lower ++ (pre ++ rest) ∷ upper) p) (relinked-parent_at pre e rest)
