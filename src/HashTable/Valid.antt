-- ===== src/HashTable/Valid.antt =====
-- What holds of every table of src/HashTable.c that `init` has set up.
use tool_boslib.Base.{
  ℕ, ◌%◌, ◌^◌, ◌≤◌, ◌<◌, ◌≡◌, Bool, true, Option, get_or, length, arith, ◌==◌, none,
}
use mathlib.Core.Option
use tool_boslib.HashFunctions.{Memory}
use tool_boslib.HashTable.{
  Entry, HashTable, valid_mark, primes, prime_table_length, key_hash, key_eq, find_entry,
}
use tool_boslib.HashTable.Chains.{hits, total}
use tool_boslib.HashTable.Buckets.{is_hit, home, Placed}

-- What the table relies on in the caller's two functions: equal keys form classes, and equal keys
-- have equal hashes.
pub record IsKeyEquality (hash : ℕ → ℕ) (eq : ℕ → ℕ → Bool) : Type 0 where
  pub eq_refl : (a : ℕ) → eq a a ≡ true
  pub eq_symm : (a b : ℕ) → eq a b ≡ eq b a
  pub eq_trans : (a b c : ℕ) → eq a b ≡ true → eq b c ≡ true → eq a c ≡ true
  pub hash-eq : (a b : ℕ) → eq a b ≡ true → hash a ≡ hash b

-- A table with a prime number of buckets, whose entries lie where their hashes say.
pub record IsShaped (m : Memory) (self : HashTable) : Type 0 where
  pub marked : self.valid ≡ valid_mark
  pub width : length self.table ≡ self.table_length
  pub index : self.prime_index < prime_table_length
  pub prime : get_or primes self.prime_index 0 ≡ self.table_length
  pub placed : Placed (key_hash m self) (key_eq self) self.table_length 0 self.table

-- The count is that of the entries; it wraps at 2 ^ 32.
pub record IsValid (m : Memory) (self : HashTable) : Type 0 where
  pub shaped : IsShaped m self
  pub open shaped use *
  pub counted : self.entry_count ≡ total self.table % 2 ^ 32

-- The number of entries that a walk for `q` could stop at.
abbrev pub copies : Memory → HashTable → ℕ → ℕ
copies m self q =
    hits (is_hit (key_hash m self) (key_eq self) q)
      (home (key_hash m self) (key_eq self) self.table_length self.table q)

-- No key is stored twice.
abbrev pub IsDistinct : Memory → HashTable → Type 0
IsDistinct m self = (q : ℕ) → copies m self q ≤ 1

-- The entry at which a walk for `q` stops.
abbrev pub found : Memory → HashTable → ℕ → Option Entry
found m self q =
    find_entry (is_hit (key_hash m self) (key_eq self) q)
      (home (key_hash m self) (key_eq self) self.table_length self.table q)

-- The table as a map from keys to values.
abbrev pub view : Memory → HashTable → ℕ → Option ℕ
view m self q = Option.map (λ (e : Entry). e.value) (found m self q)

pub view-none :
    (m : Memory) (self : HashTable) (q : ℕ) → view m self q ≡ none → found m self q ≡ none
view-none m self q h = ground arith

-- The table of primes has 26 positive entries.
pub prime_pos : (i : ℕ) → i < prime_table_length → 0 < get_or primes i 0
prime_pos i h = ground arith

pub length-pos : {m : Memory} {self : HashTable} → IsShaped m self → 0 < self.table_length
length-pos {m} {self} v = omega (arith, prime_pos self.prime_index v.index, v.prime)

pub is_marked : {m : Memory} {self : HashTable} → IsShaped m self → self.valid == valid_mark ≡ true
is_marked v = ground arith
