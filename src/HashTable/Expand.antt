-- ===== src/HashTable/Expand.antt =====
-- HashTable_expand of src/HashTable.c.
use mathlib.Core.Option
use mathlib.Core.Path.{subst}
use tool_boslib.Base.{
  ℕ, suc, ◌+◌, ◌%◌, ◌<◌, ◌≡◌, refl, sym, ◌∙◌, ap, List, [], ◌∷◌, Bool, true, false, none, ◌==◌,
  length, get_or, replicate, arith, length-replicate, get_or-replicate, Bool-cases, ==_iff, inl,
  inr, Returns, ◌⊎◌,
}
use tool_boslib.HashFunctions.{Memory}
use tool_boslib.HashTable.{
  Entry, HashTable, primes, limit_of, key_hash, key_eq, find_entry, move_chain, move_all, expand,
}
use tool_boslib.HashTable.Chains.{hits, hits_all, total, last_match, last_match_all, last-eq-find}
use tool_boslib.HashTable.Buckets.{is_hit, home, Placed, Placed-replicate, table-home}
use tool_boslib.HashTable.Move.{move_chain-Moved, total-replicate}
use tool_boslib.HashTable.Valid.{IsShaped, IsDistinct, copies, found, view, prime_pos, is_marked}

module _ (hash : ℕ → ℕ) (eq : ℕ → ℕ → Bool) (n : ℕ) (pos : 0 < n) where
  record MovedAll (cs bs new : List (List Entry)) : Type 0 where
    pub width : length new ≡ n
    pub placed : Placed hash eq n 0 new
    pub entries : total new ≡ total cs + total bs
    pub finds :
        (q : ℕ)
        → find_entry (is_hit hash eq q) (home hash eq n new q)
          ≡ last_match_all
              (is_hit hash eq q)
              cs
              (find_entry (is_hit hash eq q) (home hash eq n bs q))
    pub counts :
        (q : ℕ)
        → hits (is_hit hash eq q) (home hash eq n new q)
          ≡ hits_all (is_hit hash eq q) cs + hits (is_hit hash eq q) (home hash eq n bs q)

  move_all-MovedAll :
      (cs bs : List (List Entry)) (k i : ℕ)
      → length bs ≡ n
      → Placed hash eq n 0 bs
      → Placed hash eq k i cs
      → MovedAll cs bs (move_all n cs bs)
  unfolding move_all last_match_all hits_all total
  move_all-MovedAll [] bs k i w p a = record {
    width = w;
    placed = p;
    entries = omega arith;
    finds = λ q. refl;
    counts = λ q. omega arith;
  }
  move_all-MovedAll (c ∷ cs) bs k i w p a =
      let s = move_chain-Moved hash eq n pos c bs i k w p a.0 in
      let r = move_all-MovedAll cs (move_chain n c bs) k (suc i) s.width s.placed a.1 in
      record {
        width = r.width;
        placed = r.placed;
        entries = omega (arith, r.entries, s.entries);
        finds = λ q. rw (← s.finds q) (r.finds q);
        counts = λ q. omega (arith, r.counts q, s.counts q);
      }

-- What `expand` leaves alone in every case.
abbrev pub SameFields : HashTable → HashTable → Type 0
SameFields a b =
    (a.entry_count ≡ b.entry_count)
    × (a.load_factor ≡ b.load_factor)
    × (a.hash_func ≡ b.hash_func)
    × (a.eq_func ≡ b.eq_func)
    × (a.key_dtor ≡ b.key_dtor)
    × (a.value_dtor ≡ b.value_dtor)
    × (a.user_key_value ≡ b.user_key_value)

-- What a successful `expand` does to a table: the next prime, the limit that belongs to it, a
-- valid table with as many entries under every key, and a walk that stops at what was the last match.
pub record IsGrown (m : Memory) (self t : HashTable) : Type 0 where
  pub shaped : IsShaped m t
  pub entries : total t.table ≡ total self.table
  pub next : t.prime_index ≡ self.prime_index + 1
  pub limit : t.load_limit ≡ limit_of t.table_length self.load_factor
  pub same : SameFields t self
  pub copied : (q : ℕ) → copies m t q ≡ copies m self q
  pub reads :
      (q : ℕ)
      → found m t q
        ≡ last_match
            (is_hit (key_hash m self) (key_eq self) q)
            (home (key_hash m self) (key_eq self) self.table_length self.table q)
            none

-- A walk through new buckets finds nothing.
pub new-empty :
    (t : Entry → Bool) (n i : ℕ)
    → (find_entry t (get_or (replicate n []) i []) ≡ none)
      × (hits t (get_or (replicate n []) i []) ≡ 0)
unfolding find_entry hits
new-empty t n i = rw get_or-replicate (refl, refl)

module _ (m : Memory) (self : HashTable) (v : IsShaped m self) where
  grown : HashTable
  grown =
      let new_size = get_or primes (self.prime_index + 1) 0 in
      record self {
        table = move_all new_size self.table (replicate new_size []);
        prime_index = self.prime_index + 1;
        table_length = new_size;
        load_limit = limit_of new_size self.load_factor;
      }

  grown-IsGrown : self.prime_index < 25 → IsGrown m self grown
  unfolding grown
  grown-IsGrown h =
      let empty = λ (n q : ℕ).
        new-empty (is_hit (key_hash m self) (key_eq self) q) n (key_hash m self q % n) in
      let hash = key_hash m self in
      let eq = key_eq self in
      let n = get_or primes (self.prime_index + 1) 0 in
      let r =
        move_all-MovedAll hash eq n (prime_pos (self.prime_index + 1) (omega arith)) self.table
          (replicate n []) self.table_length 0 (length-replicate n [])
          (Placed-replicate hash eq n 0 n) v.placed in
      record {
        shaped = record {
          marked = v.marked;
          width = r.width;
          index = omega arith;
          prime = refl;
          placed = r.placed;
        };
        entries = omega (arith, r.entries, total-replicate n);
        next = refl;
        limit = refl;
        same = (refl, refl, refl, refl, refl, refl, refl);
        copied = λ q. omega (
          arith,
          r.counts q,
          (empty n q).1,
          (table-home hash eq self.table_length q self.table none v.placed).0,
        );
        reads = λ q.
            r.finds q
            ∙ rw ((empty n q).0)
                (table-home hash eq self.table_length q self.table none v.placed).1;
      }

-- HashTable_expand never ends the process on a table of the right shape. It grows the table exactly if
-- there is a next prime and memory for its buckets, and leaves the table as it was otherwise.
pub expand_lem :
    (m : Memory) (self : HashTable) (table_allocated : Bool)
    → IsShaped m self
    → Returns (expand self table_allocated) λ r.
      ((r.0 ≡ true) × (self.prime_index < 25) × (table_allocated ≡ true) × IsGrown m self r.1)
      ⊎ ((r.0 ≡ false) × ((self.prime_index ≡ 25) ⊎ (table_allocated ≡ false)) × (r.1 ≡ self))
unfolding expand grown
expand_lem m self false v = elim (Bool-cases (self.prime_index == 25)) [
  | inl last ↦ ((false, self), rw (is_marked v, last), inr (refl, inl ((==_iff _ _).0 last), refl))
  | inr more ↦ ((false, self), rw (is_marked v, more), inr (refl, inr refl, refl))
]
expand_lem m self true v = elim (Bool-cases (self.prime_index == 25)) [
  | inl last ↦ ((false, self), rw (is_marked v, last), inr (refl, inl ((==_iff _ _).0 last), refl))
  | inr more ↦
      let h : self.prime_index < 25 = ground arith in
      (
        (true, grown m self v),
        rw (is_marked v, more),
        inl (refl, h, refl, grown-IsGrown m self v h),
      )
]

-- `t` has the shape, the number of entries, the other fields and the values of `self`, and no key twice.
pub record IsKept (m : Memory) (self t : HashTable) : Type 0 where
  pub shaped : IsShaped m t
  pub distinct : IsDistinct m t
  pub entries : total t.table ≡ total self.table
  pub same : SameFields t self
  pub reads : (q : ℕ) → view m t q ≡ view m self q

pub unchanged :
    (m : Memory) (self : HashTable) → IsShaped m self → IsDistinct m self → IsKept m self self
unchanged m self v d = record {
  shaped = v;
  distinct = d;
  entries = refl;
  same = (refl, refl, refl, refl, refl, refl, refl);
  reads = λ q. refl;
}

-- On a table of the right shape in which no key is stored twice, both outcomes of HashTable_expand keep
-- the shape, the number of entries, the other fields, the values of all keys, and that no key is stored
-- twice.
pub expand-IsKept :
    (m : Memory) (self : HashTable) (table_allocated : Bool)
    → IsShaped m self
    → IsDistinct m self
    → Returns (expand self table_allocated) λ r. IsKept m self r.1
expand-IsKept m self table_allocated v d =
    let (r, run, cases) = expand_lem m self table_allocated v in
    elim cases [
      | inl (done, index, memory, g) ↦ (
        r,
        run,
        record {
          shaped = g.shaped;
          distinct = λ q. rw (g.copied q) (d q);
          entries = g.entries;
          same = g.same;
          reads =
              λ q. ap (Option.map (λ (e : Entry). e.value)) (g.reads q ∙ last-eq-find _ _ (d q));
        },
      )
      | inr (done, why, e) ↦ (r, run, subst (λ t. IsKept m self t) (sym e) (unchanged m self v d))
    ]
