-- ===== src/HashTable/Search.antt =====
-- HashTable_search of src/HashTable.c, against the entries that lie anywhere in the table.
use mathlib.Core.Bool.{false≢true}
use mathlib.Core.Path.{subst}
use tool_boslib.Base.{
  ℕ, zero, suc, ◌+◌, ◌%◌, ◌≡◌, ◌≢◌, refl, sym, ap, ◌∙◌, List, [], ◌∷◌, Bool, true, false, Option,
  none, some, All, ◌⊎◌, inl, inr, get_or, if◌then◌else◌, Bool-cases, Returns, arith,
}
use tool_boslib.HashFunctions.{Memory}
use tool_boslib.HashTable.{Entry, HashTable, key_hash, key_eq, find_entry}
use tool_boslib.HashTable.Calls.{value_of, search}
use tool_boslib.HashTable.Buckets.{is_hit, home, Placed}
use tool_boslib.HashTable.Valid.{IsKeyEquality, IsShaped, found}
use tool_boslib.HashTable.Insert.{hash-ok}

abbrev pub In : Entry → List Entry → Type 0
In e [] = ⊥
In e (x ∷ c) = (e ≡ x) ⊎ In e c

-- The entry lies in one of the chains.
abbrev pub LiesIn : Entry → List (List Entry) → Type 0
LiesIn e [] = ⊥
LiesIn e (c ∷ cs) = In e c ⊎ LiesIn e cs

-- The value is that of an entry with an equal key, or it is NULL and there is none.
abbrev pub IsValueOf : HashTable → ℕ → ℕ → Type 0
IsValueOf self key result =
    ((e : Entry) × LiesIn e self.table × (key_eq self key e.key ≡ true) × (result ≡ e.value))
    ⊎ ((result ≡ 0) × ((e : Entry) → LiesIn e self.table → key_eq self key e.key ≡ false))

-- What a walk along a chain finds.
abbrev Walk : (Entry → Bool) → List Entry → Option Entry → Type 0
Walk t c none = (e : Entry) → In e c → t e ≡ false
Walk t c (some e) = In e c × (t e ≡ true)

Walk-further :
    (t : Entry → Bool) (x : Entry) (c : List Entry) (o : Option Entry)
    → t x ≡ false
    → Walk t c o
    → Walk t (x ∷ c) o
Walk-further t x c none miss w =
    λ e i. elim i [ inl here ↦ ap t here ∙ miss | inr there ↦ w e there ]
Walk-further t x c (some e) miss (there, hit) = (inr there, hit)

walk_lem : (t : Entry → Bool) (c : List Entry) → Walk t c (find_entry t c)
unfolding find_entry
walk_lem t [] = λ e i. absurd i
walk_lem t (x ∷ c) = elim (Bool-cases (t x)) [
  | inl hit ↦
      subst (λ b. Walk t (x ∷ c) (if b then some x else find_entry t c)) (sym hit) (inl refl, hit)
  | inr miss ↦
      subst (λ b. Walk t (x ∷ c) (if b then some x else find_entry t c)) (sym miss)
        (Walk-further t x c (find_entry t c) miss (walk_lem t c))
]

chain-LiesIn : (e : Entry) (cs : List (List Entry)) (j : ℕ) → In e (get_or cs j []) → LiesIn e cs
chain-LiesIn e [] j i = i
chain-LiesIn e (c ∷ cs) zero i = inl i
chain-LiesIn e (c ∷ cs) (suc j) i = inr (chain-LiesIn e cs j i)

All-In : (P : Entry → Type 0) (e : Entry) (c : List Entry) → All P c → In e c → P e
All-In P e [] a i = absurd i
All-In P e (x ∷ c) a (inl here) = subst P (sym here) a.0
All-In P e (x ∷ c) a (inr there) = All-In P e c a.1 there

module _ (hash : ℕ → ℕ) (eq : ℕ → ℕ → Bool) where
  -- An entry lies in the bucket of its hash.
  bucket_of :
      (n i : ℕ) (cs : List (List Entry)) (e : Entry)
      → Placed hash eq n i cs
      → LiesIn e cs
      → (e.hash ≡ hash e.key) × ((j : ℕ) × (e.hash % n ≡ i + j) × In e (get_or cs j []))
  bucket_of n i [] e p l = absurd l
  bucket_of n i (c ∷ cs) e p (inl here) =
      let placed = All-In (λ e. (e.hash ≡ hash e.key) × (e.hash % n ≡ i)) e c p.0 here in
      (placed.0, (0, omega (arith, placed.1), here))
  bucket_of n i (c ∷ cs) e p (inr there) =
      let (stored, rest) = bucket_of n (suc i) cs e p.1 there in
      (stored, (suc rest.0, omega (arith, rest.1), rest.2))

module _ (m : Memory) (self : HashTable) (key : ℕ) (shaped : IsShaped m self)
    (keys : IsKeyEquality (key_hash m self) (key_eq self)) where
  abbrev test : Entry → Bool
  test = is_hit (key_hash m self) (key_eq self) key

  abbrev chain : List Entry
  chain = home (key_hash m self) (key_eq self) self.table_length self.table key

  -- An entry with an equal key stops the walk along the chain of the key.
  equal-stops :
      (e : Entry)
      → LiesIn e self.table
      → key_eq self key e.key ≡ true
      → In e chain × (test e ≡ true)
  equal-stops e l same =
      let (stored, (j, at, inside)) =
        bucket_of (key_hash m self) (key_eq self) self.table_length 0 self.table e shaped.placed
          l in
      let hashes : key_hash m self key ≡ e.hash = keys.hash-eq key e.key same ∙ sym stored in
      let there : j ≡ key_hash m self key % self.table_length =
        omega (arith, ap (λ h. h % self.table_length) hashes, at) in
      (subst (λ k. In e (get_or self.table k [])) there inside, ground (arith, hashes, same))

  Walk-IsValueOf : (o : Option Entry) → Walk test chain o → IsValueOf self key (value_of o)
  unfolding value_of
  Walk-IsValueOf none w =
      let no_equal : (e : Entry) → LiesIn e self.table → key_eq self key e.key ≡ false = λ e l.
        elim (Bool-cases (key_eq self key e.key)) [
          | inl same ↦
              let (inside, hit) = equal-stops e l same in
              absurd (false≢true (sym (w e inside) ∙ hit))
          | inr other ↦ other
        ] in
      inr (refl, no_equal)
  Walk-IsValueOf (some e) (inside, hit) =
      inl (e, chain-LiesIn e self.table _ inside, ground (arith, hit), refl)

-- HashTable_search of a key that is not NULL, in a table of the right shape whose key equality agrees
-- with its hashes, returns the value of an entry with an equal key if one lies anywhere in the table,
-- and NULL if there is none.
pub search-IsValueOf :
    (m : Memory) (self : HashTable) (key : ℕ)
    → IsKeyEquality (key_hash m self) (key_eq self)
    → IsShaped m self
    → key ≢ 0
    → Returns (search m self key) (IsValueOf self key)
unfolding search
search-IsValueOf m self key keys shaped nonzero = (
  value_of (found m self key),
  rw (hash-ok m key shaped nonzero) refl,
  Walk-IsValueOf m self key shaped keys (found m self key) (
      walk_lem (is_hit (key_hash m self) (key_eq self) key)
        (home (key_hash m self) (key_eq self) self.table_length self.table key)),
)
