-- ===== src/HashTable/Remove.antt =====
-- HashTable_fetch and HashTable_remove of src/HashTable.c.
use mathlib.Core.Option
use tool_boslib.Base.{
  ℕ, ◌≡◌, ◌≢◌, ◌∙◌, List, [], ◌++◌, none, some, if◌then◌else◌, arith, Bool-cases, Option-cases, inl,
  inr, ◌>>=◌, Returns,
}
use tool_boslib.HashFunctions.{Memory}
use tool_boslib.HashTable.{Entry, HashTable, Call, key_hash, key_eq}
use tool_boslib.HashTable.Calls.{less_one, take_out, fetch, remove, key_call, value_call}
use tool_boslib.HashTable.Chains.{no_hits-find, find-no_hits}
use tool_boslib.HashTable.Buckets.{is_hit, home}
use tool_boslib.HashTable.Keys.{hits-same}
use tool_boslib.HashTable.Valid.{IsKeyEquality, IsValid, IsDistinct, found, view}
use tool_boslib.HashTable.Insert.{hash-ok, Models}
use tool_boslib.HashTable.Unlink.{take_out-IsValid, take_out-IsDistinct, take_out-reads}

-- A call that took the entry of `key` out of `self`, if there was one: `t` is the table afterwards,
-- and `calls` are the destructor calls that `calls_of` names for the entry.
pub record TakesOut (m : Memory) (self : HashTable) (key : ℕ) (calls_of : Entry → List Call)
    (t : HashTable) (calls : List Call) : Type 0 where
  pub models : Models m (λ q. if key_eq self q key then none else view m self q) t
  pub count :
      t.entry_count
      ≡ elim (found m self key) [ none ↦ self.entry_count | some _ ↦ less_one self.entry_count ]
  pub called : calls ≡ elim (found m self key) [ none ↦ [] | some e ↦ calls_of e ]

module _ (m : Memory) (self : HashTable) (key : ℕ)
    (keys : IsKeyEquality (key_hash m self) (key_eq self)) (v : IsValid m self)
    (d : IsDistinct m self) where
  -- Where a key has no entry, the keys equal to it have none.
  pub absent-reads :
      found m self key ≡ none
      → (q : ℕ) → view m self q ≡ (if key_eq self q key then none else view m self q)
  absent-reads h q = elim (Bool-cases (key_eq self q key)) [
    | inl same ↦
        let none_here = no_hits-find _ _ h in
        let e =
          find-no_hits (is_hit (key_hash m self) (key_eq self) q)
            (home (key_hash m self) (key_eq self) self.table_length self.table q)
            (hits-same keys q key self.table_length self.table same ∙ none_here) in
        rw (same, e)
    | inr other ↦ rw other
  ]

  pub absent-TakesOut :
      (calls_of : Entry → List Call)
      → found m self key ≡ none
      → TakesOut m self key calls_of self []
  absent-TakesOut calls_of h = record {
    models = record { valid = v; distinct = d; reads = absent-reads h };
    count = rw h;
    called = rw h;
  }

  pub present-TakesOut :
      (calls_of : Entry → List Call) {e : Entry}
      → found m self key ≡ some e
      → TakesOut m self key calls_of (take_out self (key_hash m self key) key) (calls_of e)
  unfolding take_out
  present-TakesOut calls_of h = record {
    models = record {
      valid = take_out-IsValid m self key v d h;
      distinct = take_out-IsDistinct m self key v d;
      reads = take_out-reads m self key v d keys;
    };
    count = rw h;
    called = rw h;
  }

  -- On a valid table without double keys, whose key equality is an equivalence that hashes respect,
  -- HashTable_fetch of a key that is not NULL returns its value, or NULL. It takes the entry of the key
  -- out and lowers the count, if there is an entry, and calls the destructor of keys alone. All other
  -- keys keep their values.
  pub fetch-TakesOut :
      key ≢ 0
      → Returns (fetch m self key) λ r.
        (r.0 ≡ Option.get_or (view m self key) 0) × TakesOut m self key (key_call self) r.1 r.2
  unfolding fetch
  fetch-TakesOut nonzero = elim (Option-cases (found m self key)) [
    | inl h ↦ (
      (0, self, []),
      rw (hash-ok m key v.shaped nonzero, ◌>>=◌, h),
      (rw h, absent-TakesOut (key_call self) h),
    )
    | inr (e, h) ↦ (
      (e.value, take_out self (key_hash m self key) key, key_call self e),
      rw (hash-ok m key v.shaped nonzero, ◌>>=◌, h),
      (rw h, present-TakesOut (key_call self) h),
    )
  ]

  -- On a valid table without double keys, whose key equality is an equivalence that hashes respect,
  -- HashTable_remove of a key that is not NULL takes its entry out and lowers the count, if there is an
  -- entry, calls the destructor of keys and then that of values, and returns the value, or NULL where
  -- there is none or where the table has a destructor of values. All other keys keep their values.
  pub remove-TakesOut :
      key ≢ 0
      → Returns (remove m self key) λ r.
        (r.0 ≡ (if self.value_dtor then 0 else Option.get_or (view m self key) 0))
        × TakesOut m self key (λ e. key_call self e ++ value_call self e) r.1 r.2
  unfolding remove
  remove-TakesOut nonzero = elim (Option-cases (found m self key)) [
    | inl h ↦ (
      (0, self, []),
      rw (hash-ok m key v.shaped nonzero, ◌>>=◌, h),
      (rw h (ground arith), absent-TakesOut _ h),
    )
    | inr (e, h) ↦ (
      (
        if self.value_dtor then 0 else e.value,
        take_out self (key_hash m self key) key,
        key_call self e ++ value_call self e,
      ),
      rw (hash-ok m key v.shaped nonzero, ◌>>=◌, h),
      (rw h, present-TakesOut _ h),
    )
  ]
