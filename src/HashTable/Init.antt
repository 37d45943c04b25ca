-- ===== src/HashTable/Init.antt =====
-- HashTable_init of src/HashTable.c, and the load limits that it and HashTable_expand compute.
use tool_boslib.Base.{
  ℕ, zero, suc, ◌+◌, ◌*◌, ◌/◌, ◌%◌, ◌^◌, ◌≤◌, ◌<◌, ◌≡◌, refl, List, [], ◌∷◌, Bool, true, false,
  Option, none, some, arith, ok, exit, ltb, Bool-cases, inl, inr, ◌⊎◌, lt→ltb, get_or,
  length-replicate,
}
use tool_boslib.HashFunctions.{Memory}
use tool_boslib.HashTable.{
  HashTable, primes, prime_table_length, default_load_factor, find_prime, limit_of, fresh, init,
  key_hash, key_eq,
}
use tool_boslib.HashTable.Buckets.{Placed-replicate, is_hit}
use tool_boslib.HashTable.Move.{total-replicate}
use tool_boslib.HashTable.Expand.{new-empty}
use tool_boslib.HashTable.Insert.{Models}

below-cons :
    (min_size p : ℕ) (ps : List ℕ) (j : ℕ)
    → p ≤ min_size
    → ((l : ℕ) → l < j → get_or ps l 0 ≤ min_size)
    → (l : ℕ) → l < suc j
    → get_or (p ∷ ps) l 0 ≤ min_size
below-cons min_size p ps j h first zero lt = h
below-cons min_size p ps j h first (suc l) lt = first l (omega arith)

-- The loop stops at the first prime above `min_size`, if there is one.
find_prime-first :
    (min_size size : ℕ) (ps : List ℕ) (i k : ℕ)
    → min_size < get_or ps k 0
    → (j : ℕ) × (find_prime min_size size ps i ≡ (get_or ps j 0, i + j))
      × (j ≤ k)
      × (min_size < get_or ps j 0)
      × ((l : ℕ) → l < j → get_or ps l 0 ≤ min_size)
unfolding find_prime
find_prime-first min_size size [] i k h = absurd (omega arith)
find_prime-first min_size size (p ∷ ps) i zero h =
    (0, rw (lt→ltb min_size p h) (ground arith), omega arith, h, λ l lt. absurd (omega arith))
find_prime-first min_size size (p ∷ ps) i (suc k) h = elim (Bool-cases (ltb min_size p)) [
  | inl above ↦
      (0, rw above (ground arith), omega arith, ground arith, λ l lt. absurd (omega arith))
  | inr below ↦
      let (j, run, bound, above, first) = find_prime-first min_size size ps (i + 1) k h in
      (
        suc j,
        rw (below, run) (ground arith),
        omega arith,
        above,
        below-cons min_size p ps j (ground arith) first,
      )
]

module _ (hash_func : Option (ℕ → ℕ)) (eq_func : Option (ℕ → ℕ → Bool))
    (with_key_dtor with_value_dtor : Bool) (user : ℕ) where
  fresh-Models :
      (m : Memory) (i : ℕ)
      → i < prime_table_length
      → Models m
          (λ _. none)
          (fresh (get_or primes i 0, i) hash_func eq_func with_key_dtor with_value_dtor user)
  unfolding fresh
  fresh-Models m i h =
      let t = fresh (get_or primes i 0, i) hash_func eq_func with_key_dtor with_value_dtor user in
      record {
        valid = record {
          shaped = record {
            marked = refl;
            width = length-replicate (get_or primes i 0) [];
            index = h;
            prime = refl;
            placed = Placed-replicate (key_hash m t) (key_eq t) _ 0 (get_or primes i 0);
          };
          counted = omega (arith, total-replicate (get_or primes i 0));
        };
        distinct = λ q.
            let e =
              new-empty (is_hit (key_hash m t) (key_eq t) q) t.table_length
                (key_hash m t q % t.table_length) in
            omega (arith, e.1);
        reads = λ q.
            let e =
              new-empty (is_hit (key_hash m t) (key_eq t) q) t.table_length
                (key_hash m t q % t.table_length) in
            rw e.0;
      }

  -- HashTable_init ends the process for a size of 2 ^ 30 or more. For a smaller one it fails exactly
  -- without memory for the buckets. With it, the table is valid, empty and free of entries, and the
  -- number of its buckets is the least prime of the list above the size asked for.
  pub init-Models :
      (m : Memory) (min_size : ℕ)
      → ((2 ^ 30 ≤ min_size)
          × ((b : Bool)
              → init min_size hash_func eq_func with_key_dtor with_value_dtor user b ≡ exit))
        ⊎ ((min_size < 2 ^ 30)
            × (init min_size hash_func eq_func with_key_dtor with_value_dtor user false ≡ ok none)
            × ((t : HashTable) × (init min_size hash_func eq_func with_key_dtor with_value_dtor user
                    true
                  ≡ ok (some t))
                × Models m (λ _. none) t
                × (t.entry_count ≡ 0)
                × (min_size < t.table_length)
                × ((i : ℕ) → i < t.prime_index → get_or primes i 0 ≤ min_size)))
  unfolding init
  init-Models m min_size = elim (Bool-cases (ltb min_size (2 ^ 30))) [
    | inr large ↦ inl (ground arith, λ b. rw large refl)
    | inl small ↦
        let bound : min_size < 2 ^ 30 = ground arith in
        let (j, run, within, above, first) =
          find_prime-first min_size 53 primes 0 25 (omega arith) in
        let index : 0 + j ≡ j = omega arith in
        inr (
          bound,
          rw small refl,
          (
            fresh (get_or primes j 0, j) hash_func eq_func with_key_dtor with_value_dtor user,
            rw (small, run, index) refl,
            fresh-Models m j (omega arith),
            unfold fresh in refl,
            unfold fresh in above,
            unfold fresh in first,
          ),
        )
  ]

-- The limit is 65 per cent of the buckets for the first 21 primes. From the 22nd on the product wraps
-- at 2 ^ 32, and the limit is lower than that.
pub limit_of-prime :
    (i : ℕ)
    → i < prime_table_length
    → ((i ≤ 20) × (limit_of (get_or primes i 0) default_load_factor ≡ get_or primes i 0 * 65 / 100))
      ⊎ ((20 < i)
          × (limit_of (get_or primes i 0) default_load_factor < get_or primes i 0 * 65 / 100))
unfolding limit_of
limit_of-prime i h = ground arith
