-- ===== src/HashTable/Tests.antt =====
-- Runs of the hash table, and the theorems about it at a small table of keys modulo 256.
use mathlib.Core.Option
use mathlib.Core.Path.{subst}
use tool_boslib.Base.{
  ℕ, ◌+◌, ◌%◌, ◌^◌, ◌≤◌, ◌<◌, ◌≡◌, refl, sym, List, [], ◌∷◌, ◌++◌, Bool, true, false, none, some,
  arith, Run, ok, exit, ◌>>=◌, Returns, ◌==◌, if◌then◌else◌, get_or, set, replicate, ◌⊎◌,
  Bool-cases, inl, inr, get_or-replicate,
}
use tool_boslib.HashFunctions.{Memory}
use tool_boslib.HashTable.{
  Entry, HashTable, Call, destroy_key, valid_mark, primes, init, expand, find_entry, hash,
  push_entry, move_chain, move_all, unlink, assign,
}
use tool_boslib.HashTable.Calls.{
  insert, search, fetch, remove, change, clear, key_call, value_call, take_out, value_of,
}
use tool_boslib.HashTable.Chains.{hits, hits_all, total}
use tool_boslib.HashTable.Buckets.{is_hit}
use tool_boslib.HashTable.Move.{home-set}
use tool_boslib.HashTable.Valid.{IsKeyEquality, IsValid, IsDistinct, view}
use tool_boslib.HashTable.Expand.{IsGrown, IsKept, expand_lem, expand-IsKept}
use tool_boslib.HashTable.Insert.{Models, insert-Models, insert-no_memory}
use tool_boslib.HashTable.Search.{IsValueOf, search-IsValueOf}
use tool_boslib.HashTable.Remove.{TakesOut, fetch-TakesOut, remove-TakesOut}
use tool_boslib.HashTable.Init.{init-Models}
use tool_boslib.HashTable.Clear.{clear-destroyed, keys_destroyed, values_destroyed}
use tool_boslib.HashTable.Iterator.{init as iterator, collect, Iterator, remove as remove_at}
use tool_boslib.HashTable.Iterator.Visit.{collect-flat}
use tool_boslib.HashTable.Iterator.Splice.{At}
use tool_boslib.HashTable.Iterator.Remove.{Leaves, remove-Leaves}

abbrev ramp : Memory
ramp p = p

abbrev low : ℕ → ℕ
low k = k % 256

abbrev same_low : ℕ → ℕ → Bool
same_low a b = a % 256 == b % 256

low-IsKeyEquality : IsKeyEquality low same_low
low-IsKeyEquality = record {
  eq_refl = λ a. ground arith;
  eq_symm = λ a b. ground arith;
  eq_trans = λ a b c p q. ground arith;
  hash-eq = λ a b p. ground arith;
}

-- One entry, with key 5, in bucket 5 of 53.
abbrev five : Entry
five = record { key = 5; value = 50; hash = 5 }

abbrev sample : HashTable
sample = record {
  valid = valid_mark;
  table_length = 53;
  table = set (replicate 53 []) 5 (five ∷ []);
  entry_count = 1;
  load_limit = 34;
  load_factor = 65;
  prime_index = 0;
  hash_func = some low;
  eq_func = some same_low;
  key_dtor = true;
  value_dtor = false;
  user_key_value = 9;
}

sample-IsValid : IsValid ramp sample
unfolding total
sample-IsValid = omega arith

sample-IsDistinct : IsDistinct ramp sample
unfolding hits
sample-IsDistinct q =
    subst (λ c. hits (is_hit low same_low q) c ≤ 1)
      (sym (home-set low same_low 53 5 q (replicate 53 []) (five ∷ []) (omega arith)))
      (elim (Bool-cases (low q % 53 == 5)) [
        | inl here ↦ rw here (ground arith)
        | inr away ↦ rw (away, get_or-replicate) (omega arith)
      ])

-- A key, the call, its destructor calls, and what other calls see then.
abbrev session : Run (ℕ × ℕ × ℕ × ℕ × List Call)
session = do
  (_, a) ← insert ramp sample 7 70 true true
  (_, b) ← change ramp a 263 71
  seven ← search ramp b 7
  (old, c, calls) ← fetch ramp b 5
  gone ← search ramp c 261
  ok (seven, old, gone, c.entry_count, calls)

session_runs : session ≡ ok (71, 50, 0, 1, destroy_key 9 5 ∷ [])
unfolding insert change search fetch hash push_entry find_entry assign unlink value_of take_out
    key_call
session_runs = refl

-- The second of two entries under one key comes back when the table grows.
abbrev twice : HashTable
twice = record sample {
  table = set (replicate 53 []) 5 (record { key = 5; value = 51; hash = 5 } ∷ five ∷ []);
  entry_count = 2;
}

abbrev shadowed : Run (ℕ × ℕ)
shadowed = do
  before ← search ramp twice 5
  (_, grown) ← expand twice true
  after ← search ramp grown 5
  ok (before, after)

shadowed_runs : shadowed ≡ ok (51, 50)
unfolding expand search hash find_entry value_of move_all move_chain push_entry
shadowed_runs = refl

init-Models_example :
    ((2 ^ 30 ≤ 60) × ((b : Bool) → init 60 (some low) none true true 0 b ≡ exit))
    ⊎ ((60 < 2 ^ 30)
        × (init 60 (some low) none true true 0 false ≡ ok none)
        × ((t : HashTable) × (init 60 (some low) none true true 0 true ≡ ok (some t))
            × Models ramp (λ _. none) t
            × (t.entry_count ≡ 0)
            × (60 < t.table_length)
            × ((i : ℕ) → i < t.prime_index → get_or primes i 0 ≤ 60)))
init-Models_example = init-Models (some low) none true true 0 ramp 60

expand_lem_example : Returns (expand sample true) λ r.
    ((r.0 ≡ true) × (0 < 25) × (true ≡ true) × IsGrown ramp sample r.1)
    ⊎ ((r.0 ≡ false) × ((sample.prime_index ≡ 25) ⊎ (true ≡ false)) × (r.1 ≡ sample))
expand_lem_example = expand_lem ramp sample true sample-IsValid.shaped

expand-IsKept_example : Returns (expand sample true) λ r. IsKept ramp sample r.1
expand-IsKept_example = expand-IsKept ramp sample true sample-IsValid.shaped sample-IsDistinct

insert-Models_example : Returns (insert ramp sample 7 70 true true) λ r.
    (r.0 ≡ true)
    × (r.1.entry_count ≡ (1 + 1) % 2 ^ 32)
    × Models ramp (λ q. if same_low q 7 then some 70 else view ramp sample q) r.1
unfolding find_entry
insert-Models_example =
    insert-Models ramp sample 7 70 true low-IsKeyEquality sample-IsValid sample-IsDistinct
      (omega arith) refl

insert-no_memory_example :
    Returns
      (insert ramp sample 7 70 true false)
      λ r. (r.0 ≡ false) × (r.1.entry_count ≡ 1) × Models ramp (view ramp sample) r.1
insert-no_memory_example = insert-no_memory ramp sample 7 70 true sample-IsValid sample-IsDistinct

search-IsValueOf_example : Returns (search ramp sample 261) (IsValueOf sample 261)
search-IsValueOf_example =
    search-IsValueOf ramp sample 261 low-IsKeyEquality sample-IsValid.shaped (omega arith)

fetch-TakesOut_example : Returns (fetch ramp sample 261) λ r.
    (r.0 ≡ Option.get_or (view ramp sample 261) 0)
    × TakesOut ramp sample 261 (key_call sample) r.1 r.2
fetch-TakesOut_example =
    fetch-TakesOut ramp sample 261 low-IsKeyEquality sample-IsValid sample-IsDistinct (omega arith)

remove-TakesOut_example : Returns (remove ramp sample 5) λ r.
    (r.0 ≡ (if false then 0 else Option.get_or (view ramp sample 5) 0))
    × TakesOut ramp sample 5 (λ e. key_call sample e ++ value_call sample e) r.1 r.2
remove-TakesOut_example =
    remove-TakesOut ramp sample 5 low-IsKeyEquality sample-IsValid sample-IsDistinct (omega arith)

clear-destroyed_example : Returns (clear sample) λ r.
    (r.0.table ≡ [])
    × ((p : ℕ)
        → (keys_destroyed p r.1 ≡ hits_all (λ e. e.key == p) sample.table)
          × (values_destroyed p r.1 ≡ 0))
    × ((key value : ℕ) (table_allocated entry_allocated : Bool)
        → (search ramp r.0 key ≡ exit)
          × (insert ramp r.0 key value table_allocated entry_allocated ≡ exit)
          × (fetch ramp r.0 key ≡ exit)
          × (remove ramp r.0 key ≡ exit)
          × (change ramp r.0 key value ≡ exit))
clear-destroyed_example = clear-destroyed ramp sample sample-IsValid.shaped

collect-flat_example : collect 2 (iterator sample) ≡ ok ((5, 50) ∷ [])
unfolding total
collect-flat_example = collect-flat {m = ramp} sample sample-IsValid (omega arith)

-- Keys 58 and 5 in one bucket, and an iterator at the second.
abbrev other : Entry
other = record { key = 58; value = 580; hash = 58 }

abbrev pair : HashTable
pair = record sample { table = set (replicate 53 []) 5 (other ∷ five ∷ []); entry_count = 2 }

abbrev at_five : Iterator
at_five = record {
  valid = true;
  hash_table = pair;
  entry = five ∷ [];
  parent = other ∷ five ∷ [];
  index = 5;
  initialized = true;
}

pair-IsValid : IsValid ramp pair
unfolding total
pair-IsValid = omega arith

at_five-At : At (other ∷ []) (five ∷ []) at_five
at_five-At = record {
  lower = replicate 5 [];
  pre = other ∷ [];
  entry = five;
  rest = [];
  upper = replicate 47 [];
  table = pair;
  buckets = refl;
  behind = refl;
  ahead = refl;
  self_at = refl;
}

remove-Leaves_example : Returns (remove_at at_five) (Leaves (other ∷ []) [] pair)
remove-Leaves_example =
    remove-Leaves {m = ramp} (other ∷ []) [] at_five five pair-IsValid.shaped at_five-At
