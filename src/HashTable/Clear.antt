-- ===== src/HashTable/Clear.antt =====
-- HashTable_clear of src/HashTable.c.
use tool_boslib.Base.{
  ℕ, ◌+◌, ◌≡◌, refl, List, [], ◌∷◌, ◌++◌, arith, exit, Bool, Returns, ◌==◌, if◌then◌else◌,
}
use tool_boslib.HashFunctions.{Memory}
use tool_boslib.HashTable.{Entry, HashTable, Call, destroy_key, destroy_value, invalid_mark, hash}
use tool_boslib.HashTable.Calls.{
  clear, clear_chain, clear_table, key_call, value_call, search, insert, fetch, remove, change,
}
use tool_boslib.HashTable.Chains.{to_nat, hits, hits_all}
use tool_boslib.HashTable.Valid.{IsShaped, is_marked}

-- How often the destructor of keys is called for `p`, and that of values.
abbrev pub keys_destroyed : ℕ → List Call → ℕ
keys_destroyed p [] = 0
keys_destroyed p (destroy_key u k ∷ cs) = to_nat (k == p) + keys_destroyed p cs
keys_destroyed p (destroy_value u v ∷ cs) = keys_destroyed p cs

abbrev pub values_destroyed : ℕ → List Call → ℕ
values_destroyed p [] = 0
values_destroyed p (destroy_key u k ∷ cs) = values_destroyed p cs
values_destroyed p (destroy_value u v ∷ cs) = to_nat (v == p) + values_destroyed p cs

module _ (p : ℕ) where
  keys_destroyed-append :
      (a b : List Call) → keys_destroyed p (a ++ b) ≡ keys_destroyed p a + keys_destroyed p b
  keys_destroyed-append [] b = omega arith
  keys_destroyed-append (destroy_key u k ∷ a) b = omega (arith, keys_destroyed-append a b)
  keys_destroyed-append (destroy_value u k ∷ a) b = keys_destroyed-append a b

  values_destroyed-append :
      (a b : List Call) → values_destroyed p (a ++ b) ≡ values_destroyed p a + values_destroyed p b
  values_destroyed-append [] b = omega arith
  values_destroyed-append (destroy_key u k ∷ a) b = values_destroyed-append a b
  values_destroyed-append (destroy_value u k ∷ a) b = omega (arith, values_destroyed-append a b)

  module _ (self : HashTable) where
    chain-destroyed :
        (c : List Entry)
        → (keys_destroyed p (clear_chain self c)
            ≡ (if self.key_dtor then hits (λ e. e.key == p) c else 0))
          × (values_destroyed p (clear_chain self c)
              ≡ (if self.value_dtor then hits (λ e. e.value == p) c else 0))
    unfolding clear_chain key_call value_call hits
    chain-destroyed [] = ground arith
    chain-destroyed (e ∷ c) = ground (arith, chain-destroyed c)

    table-destroyed :
        (cs : List (List Entry))
        → (keys_destroyed p (clear_table self cs)
            ≡ (if self.key_dtor then hits_all (λ e. e.key == p) cs else 0))
          × (values_destroyed p (clear_table self cs)
              ≡ (if self.value_dtor then hits_all (λ e. e.value == p) cs else 0))
    unfolding clear_table hits_all
    table-destroyed [] = ground arith
    table-destroyed (c ∷ cs) = ground (
      arith,
      keys_destroyed-append (clear_chain self c) (clear_table self cs),
      values_destroyed-append (clear_chain self c) (clear_table self cs),
      chain-destroyed c,
      table-destroyed cs,
    )

-- HashTable_clear of a table of the right shape calls the destructors, where the table has them, once
-- for every entry: as often for an address as it is the key, or the value, of an entry. It leaves no
-- bucket, and a search, an insertion, a fetch, a removal and a change of any key end the process then.
pub clear-destroyed :
    (m : Memory) (self : HashTable)
    → IsShaped m self
    → Returns (clear self) λ r.
      (r.0.table ≡ [])
      × ((p : ℕ)
          → (keys_destroyed p r.1
              ≡ (if self.key_dtor then hits_all (λ e. e.key == p) self.table else 0))
            × (values_destroyed p r.1
                ≡ (if self.value_dtor then hits_all (λ e. e.value == p) self.table else 0)))
      × ((key value : ℕ) (table_allocated entry_allocated : Bool)
          → (search m r.0 key ≡ exit)
            × (insert m r.0 key value table_allocated entry_allocated ≡ exit)
            × (fetch m r.0 key ≡ exit)
            × (remove m r.0 key ≡ exit)
            × (change m r.0 key value ≡ exit))
unfolding clear search insert fetch remove change hash
clear-destroyed m self v = (
  (record self { table = []; valid = invalid_mark }, clear_table self self.table),
  rw (is_marked v),
  (refl, (λ p. table-destroyed p self self.table), λ key value t e. (refl, refl, refl, refl, refl)),
)
