-- ===== src/HashTable/Unlink.antt =====
-- The table of src/HashTable.c without the entry at which a walk stops.
use mathlib.Core.Option
use mathlib.Core.Path.{subst}
use tool_boslib.Base.{
  ℕ, ◌%◌, ◌≤◌, ◌<◌, ◌≡◌, sym, ◌∙◌, ap, List, [], ◌∷◌, Bool, false, none, some, All, ◌==◌,
  if◌then◌else◌, length, get_or, length-set, arith, Bool-cases, inl, inr,
}
use tool_boslib.HashFunctions.{Memory}
use tool_boslib.HashTable.{Entry, HashTable, key_hash, key_eq, find_entry, unlink}
use tool_boslib.HashTable.Calls.{take_out}
use tool_boslib.HashTable.Chains.{hits, length-unlink, hits-unlink}
use tool_boslib.HashTable.Buckets.{is_hit, Placed-get_or, Placed-set}
use tool_boslib.HashTable.Move.{home-set, total-set}
use tool_boslib.HashTable.Keys.{find-unlink}
use tool_boslib.HashTable.Valid.{
  IsKeyEquality, IsShaped, IsValid, IsDistinct, found, view, length-pos,
}

All-unlink : (P : Entry → Type 0) (t : Entry → Bool) (c : List Entry) → All P c → All P (unlink t c)
unfolding unlink
All-unlink P t [] a = tt
All-unlink P t (e ∷ c) a = elim (Bool-cases (t e)) [
  | inl hit ↦ rw hit a.1
  | inr miss ↦ rw miss (a.0, All-unlink P t c a.1)
]

module _ (m : Memory) (self : HashTable) (key : ℕ) (v : IsValid m self)
    (d : IsDistinct m self) where
  abbrev pub index : ℕ
  index = key_hash m self key % self.table_length

  pub index-lt : index < length self.table
  index-lt = omega (arith, length-pos v.shaped, v.width)

  -- The table without the entry at which a walk for `key` stops.
  take_out-IsShaped : IsShaped m (take_out self (key_hash m self key) key)
  unfolding take_out
  take_out-IsShaped = record {
    marked = v.marked;
    width = length-set self.table index _ ∙ v.width;
    index = v.index;
    prime = v.prime;
    placed =
        Placed-set (key_hash m self) (key_eq self) self.table_length 0 index self.table _ v.placed (
          All-unlink _ _ _ (
            Placed-get_or (key_hash m self) (key_eq self) self.table_length 0 index self.table
              v.placed));
  }

  pub take_out-IsValid :
      {e : Entry} → found m self key ≡ some e → IsValid m (take_out self (key_hash m self key) key)
  unfolding take_out
  take_out-IsValid {e} h = record {
    shaped = take_out-IsShaped;
    counted = omega (
      arith,
      v.counted,
      total-set self.table index
          (unlink (is_hit (key_hash m self) (key_eq self) key) (get_or self.table index []))
          index-lt,
      length-unlink (is_hit (key_hash m self) (key_eq self) key) (get_or self.table index []) h,
    );
  }

  pub take_out-IsDistinct : IsDistinct m (take_out self (key_hash m self key) key)
  unfolding take_out
  take_out-IsDistinct q =
      let n = self.table_length in
      let chain = get_or self.table index [] in
      let test = is_hit (key_hash m self) (key_eq self) key in
      let test' = is_hit (key_hash m self) (key_eq self) q in
      subst (λ c. hits test' c ≤ 1)
        (sym (
          home-set (key_hash m self) (key_eq self) n index q self.table (unlink test chain)
            index-lt))
        (elim (Bool-cases (key_hash m self q % n == index)) [
          | inl here ↦
              let e : key_hash m self q % n ≡ index = ground arith in
              rw here (omega (arith, hits-unlink test test' chain, rw e at (d q)))
          | inr away ↦ rw away (d q)
        ])

  pub take_out-reads :
      IsKeyEquality (key_hash m self) (key_eq self)
      → (q : ℕ)
      → view m (take_out self (key_hash m self key) key) q
        ≡ (if key_eq self q key then none else view m self q)
  unfolding take_out
  take_out-reads keys q =
      let n = self.table_length in
      let chain = get_or self.table index [] in
      let test = is_hit (key_hash m self) (key_eq self) key in
      let test' = is_hit (key_hash m self) (key_eq self) q in
      ap (λ c. Option.map (λ (e : Entry). e.value) (find_entry test' c))
        (home-set (key_hash m self) (key_eq self) n index q self.table (unlink test chain) index-lt)
      ∙ elim (Bool-cases (key_hash m self q % n == index)) [
        | inl here ↦
            let e : key_hash m self q % n ≡ index = ground arith in
            rw (here, find-unlink keys q key chain (d key), e) (ground arith)
        | inr away ↦
            let e : key_eq self q key ≡ false = ground (arith, keys.hash-eq q key) in rw (away, e)
      ]
