-- ===== src/HashTable/Calls.antt =====
-- The calls of src/HashTable.c that read and write entries.
use tool_boslib.Base.{
  ℕ, ◌+◌, ◌-◌, ◌%◌, ◌^◌, List, [], ◌∷◌, ◌++◌, Bool, true, false, Option, none, some, ltb, ◌==◌,
  if◌then◌else◌, get_or, set, Run, ok, ◌>>=◌, ◌>>◌, require, ℤ, pos, negsuc,
}
use tool_boslib.HashFunctions.{Memory}
use tool_boslib.HashTable.{
  Entry, HashTable, Call, destroy_key, destroy_value, valid_mark, invalid_mark, hash, matches,
  find_entry, unlink, assign, push_entry, expand,
}

-- `entryCount--` on `unsigned int`
abbrev pub less_one : ℕ → ℕ
less_one n = (n + (2 ^ 32 - 1)) % 2 ^ 32

unfoldable pub insert : Memory → HashTable → ℕ → ℕ → Bool → Bool → Run (Bool × HashTable)
insert m self key value table_allocated entry_allocated = do
  require (self.valid == valid_mark)
  let counted = record self { entry_count = (self.entry_count + 1) % 2 ^ 32 }
  grown ←
      if ltb counted.load_limit counted.entry_count
      then (do (_, t) ← expand counted table_allocated; ok t)
      else ok counted
  if entry_allocated
      then (do
        h ← hash m grown key
        let e : Entry = record { key = key; value = value; hash = h }
        ok (true, record grown { table = push_entry grown.table_length grown.table e }))
      else ok (false, record grown { entry_count = less_one grown.entry_count })

-- `table[ index ]`, with the index of a hash value
abbrev pub chain_of : HashTable → ℕ → List Entry
chain_of self h = get_or self.table (h % self.table_length) []

unfoldable pub value_of : Option Entry → ℕ
value_of none = 0
value_of (some e) = e.value

-- The result is NULL where no entry matches.
unfoldable pub search : Memory → HashTable → ℕ → Run ℕ
unfolding value_of
search m self key = do
  h ← hash m self key
  ok (value_of (find_entry (matches self h key) (chain_of self h)))

-- The write through `pEntry` and the count, where the walk found an entry.
unfoldable pub take_out : HashTable → ℕ → ℕ → HashTable
take_out self h key = record self {
  table = set self.table (h % self.table_length) (unlink (matches self h key) (chain_of self h));
  entry_count = less_one self.entry_count;
}

unfoldable pub key_call : HashTable → Entry → List Call
key_call self e = if self.key_dtor then destroy_key self.user_key_value e.key ∷ [] else []

unfoldable pub value_call : HashTable → Entry → List Call
value_call self e = if self.value_dtor then destroy_value self.user_key_value e.value ∷ [] else []

unfoldable pub fetch : Memory → HashTable → ℕ → Run (ℕ × HashTable × List Call)
fetch m self key = do
  h ← hash m self key
  elim (find_entry (matches self h key) (chain_of self h)) [
    | none ↦ ok (0, self, [])
    | some e ↦ ok (e.value, take_out self h key, key_call self e)
  ]

-- With a destructor of values the result is NULL.
unfoldable pub remove : Memory → HashTable → ℕ → Run (ℕ × HashTable × List Call)
remove m self key = do
  h ← hash m self key
  elim (find_entry (matches self h key) (chain_of self h)) [
    | none ↦ ok (0, self, [])
    | some e ↦ ok (
      if self.value_dtor then 0 else e.value,
      take_out self h key,
      key_call self e ++ value_call self e,
    )
  ]

-- The result is -1 if an entry was changed.
unfoldable pub change : Memory → HashTable → ℕ → ℕ → Run (ℤ × HashTable)
change m self key value = do
  h ← hash m self key
  let chain = chain_of self h
  let test = matches self h key
  elim (find_entry test chain) [
    | none ↦ ok (pos 0, self)
    | some e ↦ ok (
      negsuc 0,
      record self { table = set self.table (h % self.table_length) (assign test value chain) },
    )
  ]

unfoldable pub clear_chain : HashTable → List Entry → List Call
clear_chain self [] = []
clear_chain self (e ∷ es) = key_call self e ++ (value_call self e ++ clear_chain self es)

unfoldable pub clear_table : HashTable → List (List Entry) → List Call
clear_table self [] = []
clear_table self (c ∷ cs) = clear_chain self c ++ clear_table self cs

-- The table is freed and the mark is set to invalid.
unfoldable pub clear : HashTable → Run (HashTable × List Call)
clear self = do
  require (self.valid == valid_mark)
  ok (record self { table = []; valid = invalid_mark }, clear_table self self.table)
