-- ===== src/HashTable/Chains.antt =====
-- Single chains of src/HashTable.c: how many entries pass a test, and what the walks find.
use tool_boslib.Base.{
  ℕ, suc, ◌+◌, ◌≤◌, ◌≡◌, refl, List, [], ◌∷◌, Bool, true, false, Option, none, some, if◌then◌else◌,
  length, arith,
}
use tool_boslib.HashTable.{Entry, find_entry, unlink, assign}

abbrev pub to_nat : Bool → ℕ
to_nat true = 1
to_nat false = 0

-- How many entries of a chain pass a test, and how many entries there are.
unfoldable pub hits : (Entry → Bool) → List Entry → ℕ
hits t [] = 0
hits t (e ∷ es) = to_nat (t e) + hits t es

unfoldable pub hits_all : (Entry → Bool) → List (List Entry) → ℕ
hits_all t [] = 0
hits_all t (c ∷ cs) = hits t c + hits_all t cs

unfoldable pub total : List (List Entry) → ℕ
total [] = 0
total (c ∷ cs) = length c + total cs

-- The last entry that passes the test.
unfoldable pub last_match : (Entry → Bool) → List Entry → Option Entry → Option Entry
last_match t [] d = d
last_match t (e ∷ es) d = last_match t es (if t e then some e else d)

unfoldable pub last_match_all : (Entry → Bool) → List (List Entry) → Option Entry → Option Entry
last_match_all t [] d = d
last_match_all t (c ∷ cs) d = last_match_all t cs (last_match t c d)

module _ (t : Entry → Bool) where
  pub find-no_hits : (c : List Entry) → hits t c ≡ 0 → find_entry t c ≡ none
  unfolding hits find_entry
  find-no_hits [] h = refl
  find-no_hits (e ∷ c) h = ground (arith, find-no_hits c)

  pub no_hits-find : (c : List Entry) → find_entry t c ≡ none → hits t c ≡ 0
  unfolding hits find_entry
  no_hits-find [] h = refl
  no_hits-find (e ∷ c) h = ground (arith, no_hits-find c)

  pub last-no_hits : (c : List Entry) (d : Option Entry) → hits t c ≡ 0 → last_match t c d ≡ d
  unfolding hits last_match
  last-no_hits [] d h = refl
  last-no_hits (e ∷ c) d h = ground (arith, last-no_hits c d)

  pub last-eq-find : (c : List Entry) → hits t c ≤ 1 → last_match t c none ≡ find_entry t c
  unfolding hits last_match find_entry
  last-eq-find [] h = refl
  last-eq-find (e ∷ c) h = ground (arith, last-eq-find c, last-no_hits c (some e))

  pub length-unlink :
      (c : List Entry) {e : Entry} → find_entry t c ≡ some e → suc (length (unlink t c)) ≡ length c
  unfolding find_entry unlink
  length-unlink [] h = absurd (cc)
  length-unlink (x ∷ c) {e} h = ground (arith, length-unlink c {e = e})

  pub length-assign : (v : ℕ) (c : List Entry) → length (assign t v c) ≡ length c
  unfolding assign
  length-assign v [] = refl
  length-assign v (x ∷ c) = ground (arith, length-assign v c)

  pub hits-unlink : (u : Entry → Bool) (c : List Entry) → hits u (unlink t c) ≤ hits u c
  unfolding hits unlink
  hits-unlink u [] = omega arith
  hits-unlink u (x ∷ c) = ground (arith, hits-unlink u c)
