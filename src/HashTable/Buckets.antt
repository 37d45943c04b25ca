-- ===== src/HashTable/Buckets.antt =====
-- The bucket arrays of src/HashTable.c, for a hash and a test of keys that do not change.
use tool_boslib.Base.{
  ℕ, zero, suc, ◌+◌, ◌%◌, ◌<◌, ◌≡◌, ◌≢◌, refl, List, [], ◌∷◌, Bool, ◌&&◌, Option, ◌==◌, get_or, set,
  replicate, All, arith,
}
use native.Mathlib.Nat.{add-zero}
use tool_boslib.HashTable.{Entry}
use tool_boslib.HashTable.Chains.{hits, hits_all, last_match, last_match_all, last-no_hits}

module _ (hash : ℕ → ℕ) (eq : ℕ → ℕ → Bool) where
  -- The test of a walk for the key `q`.
  abbrev pub is_hit : ℕ → Entry → Bool
  is_hit q e = (hash q == e.hash) && eq q e.key

  -- The chain in which a walk for `q` looks.
  abbrev pub home : ℕ → List (List Entry) → ℕ → List Entry
  home n bs q = get_or bs (hash q % n) []

  -- The first bucket has index `i`; every entry stores the hash of its key and lies in its bucket.
  abbrev pub Placed : ℕ → ℕ → List (List Entry) → Type 0
  Placed n i [] = Unit
  Placed n i (c ∷ cs) = All (λ e. (e.hash ≡ hash e.key) × (e.hash % n ≡ i)) c × Placed n (suc i) cs

  pub Placed-get_or :
      (n i j : ℕ) (bs : List (List Entry))
      → Placed n i bs
      → All (λ e. (e.hash ≡ hash e.key) × (e.hash % n ≡ i + j)) (get_or bs j [])
  Placed-get_or n i j [] p = tt
  Placed-get_or n i zero (c ∷ cs) p = rw add-zero p.0
  Placed-get_or n i (suc j) (c ∷ cs) p =
      let e : i + suc j ≡ suc i + j = omega arith in rw e (Placed-get_or n (suc i) j cs p.1)

  pub Placed-set :
      (n i j : ℕ) (bs : List (List Entry)) (c : List Entry)
      → Placed n i bs
      → All (λ e. (e.hash ≡ hash e.key) × (e.hash % n ≡ i + j)) c
      → Placed n i (set bs j c)
  Placed-set n i j [] c p a = tt
  Placed-set n i zero (b ∷ bs) c p a = (rw add-zero at a, p.1)
  Placed-set n i (suc j) (b ∷ bs) c p a =
      let e : i + suc j ≡ suc i + j = omega arith in
      (p.0, Placed-set n (suc i) j bs c p.1 (rw e at a))

  pub Placed-replicate : (n i k : ℕ) → Placed n i (replicate k [])
  Placed-replicate n i zero = tt
  Placed-replicate n i (suc k) = (tt, Placed-replicate n (suc i) k)

  -- A chain of another bucket has no hits.
  hits-elsewhere :
      (n i q : ℕ) (c : List Entry)
      → All (λ e. (e.hash ≡ hash e.key) × (e.hash % n ≡ i)) c
      → hash q % n ≢ i
      → hits (is_hit q) c ≡ 0
  unfolding hits
  hits-elsewhere n i q [] a h = refl
  hits-elsewhere n i q (e ∷ c) a h = ground (arith, hits-elsewhere n i q c)

  hits_all-below :
      (n i q : ℕ) (cs : List (List Entry))
      → Placed n i cs
      → hash q % n < i
      → hits_all (is_hit q) cs ≡ 0
  unfolding hits_all
  hits_all-below n i q [] p h = refl
  hits_all-below n i q (c ∷ cs) p h = omega (
    arith,
    hits-elsewhere n i q c p.0 (omega arith),
    hits_all-below n (suc i) q cs p.1 (omega arith),
  )

  last-no_hits_all :
      (t : Entry → Bool) (cs : List (List Entry)) (d : Option Entry)
      → hits_all t cs ≡ 0
      → last_match_all t cs d ≡ d
  unfolding hits_all last_match_all
  last-no_hits_all t [] d h = refl
  last-no_hits_all t (c ∷ cs) d h =
      rw (last-no_hits t c d (omega arith)) (last-no_hits_all t cs d (omega arith))

  -- All the hits of a table are in one chain.
  all-home :
      (n i j q : ℕ) (cs : List (List Entry)) (d : Option Entry)
      → Placed n i cs
      → hash q % n ≡ i + j
      → (hits_all (is_hit q) cs ≡ hits (is_hit q) (get_or cs j []))
        × (last_match_all (is_hit q) cs d ≡ last_match (is_hit q) (get_or cs j []) d)
  unfolding hits_all last_match_all hits last_match
  all-home n i j q [] d p h = (refl, refl)
  all-home n i zero q (c ∷ cs) d p h =
      let rest = hits_all-below n (suc i) q cs p.1 (omega arith) in
      (omega (arith, rest), last-no_hits_all (is_hit q) cs _ rest)
  all-home n i (suc j) q (c ∷ cs) d p h =
      let here = hits-elsewhere n i q c p.0 (omega arith) in
      let (counted, found) = all-home n (suc i) j q cs d p.1 (omega arith) in
      (omega (arith, here, counted), rw (last-no_hits (is_hit q) c d here) found)

  pub table-home :
      (n q : ℕ) (cs : List (List Entry)) (d : Option Entry)
      → Placed n 0 cs
      → (hits_all (is_hit q) cs ≡ hits (is_hit q) (home n cs q))
        × (last_match_all (is_hit q) cs d ≡ last_match (is_hit q) (home n cs q) d)
  table-home n q cs d p = all-home n 0 (hash q % n) q cs d p (omega arith)
