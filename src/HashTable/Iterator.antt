-- ===== src/HashTable/Iterator.antt =====
-- src/HashTableIterator.c: a walk over the entries of a hash table, chain by chain.
-- A pointer to an entry is the chain from that entry on, empty for NULL.
pub mod Visit
pub mod Splice
pub mod Remove
use tool_boslib.Base.{
  ℕ, zero, suc, ◌+◌, List, [], ◌∷◌, ◌++◌, drop, take, get_or, set, length, ◌-◌, ◌^◌, Bool, true,
  false, leb, ltb, ◌==◌, if◌then◌else◌, Run, ok, exit, ◌>>=◌, ◌>>◌, require, ℤ, pos, negsuc, Option,
  none, some,
}
use tool_boslib.HashTable.{Entry, HashTable, count, table_length}
use tool_boslib.HashTable.Calls.{less_one}

pub record Iterator : Type 0 where
  pub valid : Bool
  pub hash_table : HashTable
  pub entry : List Entry
  pub parent : List Entry
  pub index : ℕ
  pub initialized : Bool

abbrev pub init : HashTable → Iterator
init hash_table = record {
  valid = true;
  hash_table = hash_table;
  entry = [];
  parent = [];
  index = 0;
  initialized = false;
}

-- The first chain that is not empty, with its index; `j` is the index of the first of these buckets.
unfoldable pub scan : List (List Entry) → ℕ → Option (ℕ × List Entry)
scan [] j = none
scan ([] ∷ cs) j = scan cs (j + 1)
scan ((e ∷ es) ∷ cs) j = some (j, e ∷ es)

-- What the loops do with what they find.
abbrev pub place : Option (ℕ × List Entry) → ℕ → Iterator → Iterator
place none size self = record self { entry = []; index = size }
place (some (j, chain)) size self = record self { entry = chain; index = j }

unfoldable pub first : Iterator → Run Iterator
first self = do
  require self.valid
  size ← table_length self.hash_table
  n ← count self.hash_table
  let reset : Iterator = record self { entry = []; parent = []; index = size; initialized = false }
  ok (
      if n == 0
      then reset
      else place (scan self.hash_table.table 0) size (record reset { initialized = true }))

-- -1 if there is an entry.
abbrev pub found_one : Iterator → ℤ × Iterator
found_one self = elim self.entry [ [] ↦ (pos 0, self) | e ∷ es ↦ (negsuc 0, self) ]

-- `next` behind its checks, for the entry at which the iterator stands.
unfoldable pub advance : List Entry → Iterator → Run (ℤ × Iterator)
advance [] self = ok (pos 0, self)
advance (e ∷ f ∷ es) self = ok (negsuc 0, record self { parent = e ∷ f ∷ es; entry = f ∷ es })
advance (e ∷ []) self = do
  size ← table_length self.hash_table
  let j = self.index + 1
  let moved : Iterator = record self { parent = []; index = j }
  if leb size j
      then ok (pos 0, record moved { entry = [] })
      else ok (found_one (place (scan (drop j self.hash_table.table) j) size moved))

unfoldable pub next : Iterator → Run (ℤ × Iterator)
next self = do
  require self.valid
  if self.initialized
      then advance self.entry self
      else (do self' ← first self; ok (found_one self'))

-- NULL before the first entry. Behind the last one the code reads through NULL.
abbrev pub get_key : Iterator → Run ℕ
get_key self = do
  require self.valid
  if self.initialized then elim self.entry [ [] ↦ exit | e ∷ es ↦ ok e.key ] else ok 0

abbrev pub get_value : Iterator → Run ℕ
get_value self = do
  require self.valid
  if self.initialized then elim self.entry [ [] ↦ exit | e ∷ es ↦ ok e.value ] else ok 0

-- A caller's round: what HashTableIterator_getKey and HashTableIterator_getValue give, before the others.
abbrev pub gather : Run (List (ℕ × ℕ)) → ℤ × Iterator → Run (List (ℕ × ℕ))
gather others (pos n, self) = ok []
gather others (negsuc n, self) = do
  key ← get_key self
  value ← get_value self
  rest ← others
  ok ((key, value) ∷ rest)

-- `while( HashTableIterator_next( it ))` of a caller, for at most as many rounds as the fuel says.
unfoldable pub collect : ℕ → Iterator → Run (List (ℕ × ℕ))
collect zero self = exit
collect (suc fuel) self = do r ← next self; gather (collect fuel r.1) r

-- The chain after `parent->next = rest`, or after `table[ index ] = rest` where the parent is NULL.
unfoldable pub relink_chain : List Entry → List Entry → List Entry → List Entry
relink_chain [] chain rest = rest
relink_chain (p ∷ ps) chain rest = take (length chain - length ps) chain ++ rest

-- The parent, seen again after the write through it.
abbrev pub relinked : List Entry → List Entry → List Entry
relinked [] rest = []
relinked (p ∷ ps) rest = p ∷ rest

-- `HashTableIterator_next` makes the removed entry the parent where it stays in the chain, and resets the
-- parent to NULL elsewhere.
abbrev pub correct_parent : List Entry → Iterator → Iterator
correct_parent remembered self = elim self.parent [
  | [] ↦ self
  | p ∷ ps ↦ record self { parent = remembered }
]

-- An iterator without an entry reads through NULL.
unfoldable pub remove_entry : List Entry → Iterator → Run Iterator
remove_entry [] self = exit
remove_entry (e ∷ rest) self = do
  let t = self.hash_table
  let chain = relink_chain self.parent (get_or t.table self.index []) rest
  let t' = record t { table = set t.table self.index chain; entry_count = less_one t.entry_count }
  let parent = relinked self.parent rest
  r ← next (record self { hash_table = t'; parent = parent })
  ok (correct_parent parent r.1)

unfoldable pub remove : Iterator → Run Iterator
remove self = do require self.valid; remove_entry self.entry self

-- What `HashTableIterator_clear` leaves; the pointer to the table is NULL, and the index -1.
pub record Cleared : Type 0 where
  pub valid : Bool
  pub hash_table : Option HashTable
  pub entry : List Entry
  pub parent : List Entry
  pub index : ℕ
  pub initialized : Bool

abbrev pub clear : Iterator → Run Cleared
clear self = do
  require self.valid
  ok (record {
    valid = false;
    hash_table = none;
    entry = [];
    parent = [];
    index = 2 ^ 32 - 1;
    initialized = self.initialized;
  })
