-- ===== src/HashTable/Change.antt =====
-- HashTable_change and HashTable_clear of src/HashTable.c.
use mathlib.Core.Option
use tool_boslib.Base.{ℕ, ◌%◌, List, set}
use tool_boslib.HashFunctions.{Memory}
use tool_boslib.HashTable.{Entry, HashTable, key_hash, key_eq, assign}
use tool_boslib.HashTable.Calls.{chain_of}
use tool_boslib.HashTable.Buckets.{is_hit}
use tool_boslib.HashTable.Valid.{IsKeyEquality, IsValid, IsDistinct}

module _ (m : Memory) (self : HashTable) (key value : ℕ)
    (keys : IsKeyEquality (key_hash m self) (key_eq self)) (v : IsValid m self)
    (d : IsDistinct m self) where
  abbrev chain : List Entry
  chain = chain_of self (key_hash m self key)

  abbrev changed : HashTable
  changed = record self {
    table =
        set self.table (key_hash m self key % self.table_length)
          (assign (is_hit (key_hash m self) (key_eq self) key) value chain);
  }
