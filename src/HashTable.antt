-- ===== src/HashTable.antt =====
-- src/HashTable.c: a chained hash table that grows through a table of primes.
-- A `void *` is the number of its address, 0 for NULL. A chain is owned by its table alone, so it is
-- a list. What calloc gives (false for NULL) enters as an argument. The calls of the destructors
-- are returned in the order in which they are made.
pub mod Calls
pub mod Chains
pub mod Buckets
pub mod Move
pub mod Valid
pub mod Expand
pub mod Keys
pub mod Insert
pub mod Unlink
pub mod Search
pub mod Remove
pub mod Change
pub mod Init
pub mod Clear
pub mod Iterator
mod Tests
use mathlib.Core.Option
use tool_boslib.Base.{
  ℕ, zero, suc, ◌+◌, ◌-◌, ◌*◌, ◌/◌, ◌%◌, ◌^◌, List, [], ◌∷◌, ◌++◌, Bool, true, false, not, ◌&&◌,
  Option, none, some, ltb, ◌==◌, if◌then◌else◌, length, get_or, set, replicate, Run, ok, exit,
  ◌>>=◌, ◌>>◌, require,
}
use tool_boslib.HashFunctions.{Memory}
use tool_boslib.HashFunctions.Generic.{hash_generic}

pub record Entry : Type 0 where
  pub key : ℕ
  pub value : ℕ
  pub hash : ℕ

pub record HashTable : Type 0 where
  pub valid : ℕ
  pub table_length : ℕ
  pub table : List (List Entry)
  pub entry_count : ℕ
  pub load_limit : ℕ
  pub load_factor : ℕ
  pub prime_index : ℕ
  pub hash_func : Option (ℕ → ℕ)
  pub eq_func : Option (ℕ → ℕ → Bool)
  pub key_dtor : Bool
  pub value_dtor : Bool
  pub user_key_value : ℕ

-- A call of one of the caller's destructors, with `userKeyValue`.
pub data Call : Type 0 where
  destroy_key destroy_value : ℕ → ℕ → Call

abbrev pub valid_mark : ℕ
valid_mark = 0xea12bb4d

abbrev pub invalid_mark : ℕ
invalid_mark = 0x0c4fd348

abbrev pub default_load_factor : ℕ
default_load_factor = 65

abbrev pub primes : List ℕ
primes =
    53 ∷ 97 ∷ 193 ∷ 389 ∷ 769 ∷ 1543 ∷ 3079 ∷ 6151 ∷ 12289 ∷ 24593 ∷ 49157 ∷ 98317 ∷ 196613 ∷ 393241
    ∷ 786433 ∷ 1572869 ∷ 3145739 ∷ 6291469 ∷ 12582917 ∷ 25165843 ∷ 50331653 ∷ 100663319 ∷ 201326611
    ∷ 402653189 ∷ 805306457 ∷ 1610612741 ∷ []

abbrev pub prime_table_length : ℕ
prime_table_length = 26

-- `( size * loadFactor ) / 100` on `unsigned int`
pub limit_of : ℕ → ℕ → ℕ
limit_of size factor = size * factor % 2 ^ 32 / 100

-- The loop of `init`: the first prime above `min_size` and its index, from index `i` on; if there is
-- none, `size` keeps its value and `i` runs to the end.
pub find_prime : ℕ → ℕ → List ℕ → ℕ → ℕ × ℕ
find_prime min_size size [] i = (size, i)
find_prime min_size size (p ∷ ps) i =
    if ltb min_size p then (p, i) else find_prime min_size size ps (i + 1)

-- The table that `init` sets up, with `size` empty buckets.
pub fresh : ℕ × ℕ → Option (ℕ → ℕ) → Option (ℕ → ℕ → Bool) → Bool → Bool → ℕ → HashTable
fresh (size, i) hash_func eq_func with_key_dtor with_value_dtor user = record {
  valid = valid_mark;
  table_length = size;
  table = replicate size [];
  entry_count = 0;
  load_limit = limit_of size default_load_factor;
  load_factor = default_load_factor;
  prime_index = i;
  hash_func = hash_func;
  eq_func = eq_func;
  key_dtor = with_key_dtor;
  value_dtor = with_value_dtor;
  user_key_value = user;
}

-- `none` is the return value false; the caller's table is left marked invalid then.
pub init :
    ℕ → Option (ℕ → ℕ) → Option (ℕ → ℕ → Bool) → Bool → Bool → ℕ → Bool → Run (Option HashTable)
init min_size hash_func eq_func with_key_dtor with_value_dtor user table_allocated = do
  require (ltb min_size (2 ^ 30))
  let found = find_prime min_size 53 primes 0
  if table_allocated
      then ok (some (fresh found hash_func eq_func with_key_dtor with_value_dtor user))
      else ok none

pub set_load_factor : HashTable → ℕ → Run HashTable
set_load_factor self factor = do
  require (self.valid == valid_mark)
  ok (record self { load_factor = factor })

pub get_load_factor : HashTable → Run ℕ
get_load_factor self = do require (self.valid == valid_mark); ok self.load_factor

unfoldable pub count : HashTable → Run ℕ
count self = do require (self.valid == valid_mark); ok self.entry_count

unfoldable pub table_length : HashTable → Run ℕ
table_length self = do require (self.valid == valid_mark); ok self.table_length

-- The hash of a key that is not NULL. The generic hash is over `sizeof( key )` bytes at the key.
abbrev pub key_hash : Memory → HashTable → ℕ → ℕ
key_hash m self key = elim self.hash_func [ some f ↦ f key | none ↦ hash_generic m key 8 0 ]

pub hash : Memory → HashTable → ℕ → Run ℕ
hash m self key = do
  require (self.valid == valid_mark)
  require (not (key == 0))
  ok (key_hash m self key)

-- HashTable_eqFunc
abbrev pub key_eq : HashTable → ℕ → ℕ → Bool
key_eq self a b = elim self.eq_func [ some f ↦ f a b | none ↦ a == b ]

-- The test of every walk along a chain.
abbrev pub matches : HashTable → ℕ → ℕ → Entry → Bool
matches self hash_value key e = (hash_value == e.hash) && key_eq self key e.key

-- The walk to the first entry that passes the test.
pub find_entry : (Entry → Bool) → List Entry → Option Entry
find_entry test [] = none
find_entry test (e ∷ es) = if test e then some e else find_entry test es

-- `*pEntry = entry->next` at that entry.
pub unlink : (Entry → Bool) → List Entry → List Entry
unlink test [] = []
unlink test (e ∷ es) = if test e then es else e ∷ unlink test es

-- `entry->value = value` at that entry.
pub assign : (Entry → Bool) → ℕ → List Entry → List Entry
assign test v [] = []
assign test v (e ∷ es) = if test e then record e { value = v } ∷ es else e ∷ assign test v es

-- `entry->next = table[ index ]; table[ index ] = entry`, at the index of the entry's hash.
pub push_entry : ℕ → List (List Entry) → Entry → List (List Entry)
push_entry size bs e = let i = e.hash % size in set bs i (e ∷ get_or bs i [])

-- The `while` of `expand` over one chain.
pub move_chain : ℕ → List Entry → List (List Entry) → List (List Entry)
move_chain size [] bs = bs
move_chain size (e ∷ es) bs = move_chain size es (push_entry size bs e)

-- The `for` of `expand` over the chains.
pub move_all : ℕ → List (List Entry) → List (List Entry) → List (List Entry)
move_all size [] bs = bs
move_all size (c ∷ cs) bs = move_all size cs (move_chain size c bs)

pub expand : HashTable → Bool → Run (Bool × HashTable)
expand self table_allocated = do
  require (self.valid == valid_mark)
  let new_size = get_or primes (self.prime_index + 1) 0
  let grown : HashTable = record self {
    table = move_all new_size self.table (replicate new_size []);
    prime_index = self.prime_index + 1;
    table_length = new_size;
    load_limit = limit_of new_size self.load_factor;
  }
  if self.prime_index == prime_table_length - 1
      then ok (false, self)
      else if table_allocated
      then ok (true, grown)
      else ok (false, self)
