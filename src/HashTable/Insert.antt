-- ===== src/HashTable/Insert.antt =====
-- HashTable_insert of src/HashTable.c.
use tool_boslib.Base.{
  ℕ, suc, ◌+◌, ◌%◌, ◌^◌, ◌≡◌, ◌≢◌, refl, ◌∙◌, ap, Bool, true, false, Option, none, some, not, ◌==◌,
  if◌then◌else◌, arith, Bool-cases, inl, inr, Run, ok, ◌>>=◌, Returns, ltb,
}
use tool_boslib.HashFunctions.{Memory}
use tool_boslib.HashFunctions.Generic.{hash_generic}
use tool_boslib.HashTable.{Entry, HashTable, key_hash, key_eq, hash, push_entry, expand}
use tool_boslib.HashTable.Calls.{insert, less_one}
use tool_boslib.HashTable.Chains.{total, no_hits-find}
use tool_boslib.HashTable.Move.{home-push, push-Placed, total-push, length-push}
use tool_boslib.HashTable.Keys.{is_hit-stored, hits-same}
use tool_boslib.HashTable.Valid.{
  IsKeyEquality, IsShaped, IsValid, IsDistinct, view, view-none, length-pos, is_marked,
}
use tool_boslib.HashTable.Expand.{IsKept, expand-IsKept, unchanged}

pub hash-ok :
    (m : Memory) {self : HashTable} (key : ℕ)
    → IsShaped m self
    → key ≢ 0
    → hash m self key ≡ ok (key_hash m self key)
unfolding hash
hash-ok m {self} key v h =
    let nonzero : not (key == 0) ≡ true = ground arith in rw (is_marked v, nonzero)

-- A table `t` that stands for `f`, in which no key is stored twice.
pub record Models (m : Memory) (f : ℕ → Option ℕ) (t : HashTable) : Type 0 where
  pub valid : IsValid m t
  pub distinct : IsDistinct m t
  pub reads : (q : ℕ) → view m t q ≡ f q

-- The entry that `insert` makes, and the table with it.
abbrev entry_for : Memory → HashTable → ℕ → ℕ → Entry
entry_for m t key value = record { key = key; value = value; hash = key_hash m t key }

abbrev pushed : Memory → HashTable → ℕ → ℕ → HashTable
pushed m t key value = record t {
  table = push_entry t.table_length t.table (entry_for m t key value);
}

module _ {m : Memory} {t : HashTable} (key value : ℕ) (v : IsShaped m t) (d : IsDistinct m t)
    (keys : IsKeyEquality (key_hash m t) (key_eq t)) (absent : view m t key ≡ none) where
  pushed-IsShaped : IsShaped m (pushed m t key value)
  pushed-IsShaped = record {
    marked = v.marked;
    width = length-push t.table_length t.table (entry_for m t key value) ∙ v.width;
    index = v.index;
    prime = v.prime;
    placed =
        push-Placed (key_hash m t) (key_eq t) t.table_length (length-pos v) t.table
          (entry_for m t key value) v.width refl v.placed;
  }

  pushed-IsDistinct : IsDistinct m (pushed m t key value)
  pushed-IsDistinct q =
      let p =
        home-push (key_hash m t) (key_eq t) t.table_length (length-pos v) t.table
          (entry_for m t key value) q v.width in
      let stored = is_hit-stored keys q key value in
      let none_yet = no_hits-find _ _ (view-none m t key absent) in
      elim (Bool-cases (key_eq t q key)) [
        | inl same ↦
            ground (arith, p.1, stored, hits-same keys q key t.table_length t.table same, none_yet)
        | inr other ↦ ground (arith, p.1, stored, d q)
      ]

  pushed-reads :
      (q : ℕ)
      → view m (pushed m t key value) q ≡ (if key_eq t q key then some value else view m t q)
  pushed-reads q =
      let p =
        home-push (key_hash m t) (key_eq t) t.table_length (length-pos v) t.table
          (entry_for m t key value) q v.width in
      elim (Bool-cases (key_eq t q key)) [
        | inl same ↦ rw (p.0, is_hit-stored keys q key value, same)
        | inr other ↦ rw (p.0, is_hit-stored keys q key value, other)
      ]

  pushed-total : total (pushed m t key value).table ≡ suc (total t.table)
  pushed-total =
      total-push (key_hash m t) (key_eq t) t.table_length (length-pos v) t.table
        (entry_for m t key value) v.width

key_hash-same :
    (m : Memory) (a b : HashTable) → a.hash_func ≡ b.hash_func → key_hash m a ≡ key_hash m b
key_hash-same m a b e =
    ap {B = ℕ → ℕ} (λ h k. elim h [ some f ↦ f k | none ↦ hash_generic m k 8 0 ]) e

key_eq-same : (a b : HashTable) → a.eq_func ≡ b.eq_func → key_eq a ≡ key_eq b
key_eq-same a b e = ap {B = ℕ → ℕ → Bool} (λ h x y. elim h [ some f ↦ f x y | none ↦ x == y ]) e

abbrev counted : HashTable → HashTable
counted self = record self { entry_count = (self.entry_count + 1) % 2 ^ 32 }

-- The first half of `insert`, which may expand the table.
abbrev grow : HashTable → Bool → Run HashTable
grow self table_allocated =
    if ltb (counted self).load_limit (counted self).entry_count
    then (do (_, t) ← expand (counted self) table_allocated; ok t)
    else ok (counted self)

grow-IsKept :
    (m : Memory) (self : HashTable) (table_allocated : Bool)
    → IsShaped m self
    → IsDistinct m self
    → Returns (grow self table_allocated) (IsKept m (counted self))
grow-IsKept m self table_allocated v d =
    let (r, run, kept) = expand-IsKept m (counted self) table_allocated (of_fields v) d in
    elim (Bool-cases (ltb self.load_limit ((self.entry_count + 1) % 2 ^ 32))) [
      | inl over ↦ (r.1, rw (over, run), kept)
      | inr within ↦ (counted self, rw within, unchanged m (counted self) (of_fields v) d)
    ]
  where
    of_fields : IsShaped m self → IsShaped m (counted self)
    of_fields s = record {
      marked = s.marked;
      width = s.width;
      index = s.index;
      prime = s.prime;
      placed = s.placed;
    }

-- On a valid table without double keys, whose key equality is an equivalence that hashes respect,
-- HashTable_insert of a key that is not NULL and has no entry, with memory for the new entry, returns
-- true and keeps the table valid and free of double keys, whether or not the table has to grow and gets
-- the memory for it. Afterwards the keys equal to it have the new value, all other keys the value they
-- had, and the count is one more, modulo 2 ^ 32.
pub insert-Models :
    (m : Memory) (self : HashTable) (key value : ℕ) (table_allocated : Bool)
    → IsKeyEquality (key_hash m self) (key_eq self)
    → IsValid m self
    → IsDistinct m self
    → key ≢ 0
    → view m self key ≡ none
    → Returns (insert m self key value table_allocated true) λ r.
      (r.0 ≡ true)
      × (r.1.entry_count ≡ (self.entry_count + 1) % 2 ^ 32)
      × Models m (λ q. if key_eq self q key then some value else view m self q) r.1
unfolding insert
insert-Models m self key value table_allocated keys v d nonzero absent =
    let (t, run, k) = grow-IsKept m self table_allocated v.shaped d in
    let keys' : IsKeyEquality (key_hash m t) (key_eq t) =
      rw (key_hash-same m t self k.same.2, key_eq-same t self k.same.3) keys in
    let absent' : view m t key ≡ none = k.reads key ∙ absent in
    (
      (true, pushed m t key value),
      rw (is_marked v.shaped, run, hash-ok m key k.shaped nonzero),
      (
        refl,
        k.same.0,
        record {
          valid = record {
            shaped = pushed-IsShaped key value k.shaped k.distinct keys' absent';
            counted = omega (
              arith,
              pushed-total key value k.shaped k.distinct keys' absent',
              k.entries,
              v.counted,
              k.same.0,
            );
          };
          distinct = pushed-IsDistinct key value k.shaped k.distinct keys' absent';
          reads = λ q.
              pushed-reads key value k.shaped k.distinct keys' absent' q
              ∙ rw (k.reads q, key_eq-same t self k.same.3);
        },
      ),
    )

-- Without memory for the entry HashTable_insert into a valid table without double keys returns false
-- and undoes the count; the table may have grown, and all keys have the values they had.
pub insert-no_memory :
    (m : Memory) (self : HashTable) (key value : ℕ) (table_allocated : Bool)
    → IsValid m self
    → IsDistinct m self
    → Returns
        (insert m self key value table_allocated false)
        λ r. (r.0 ≡ false) × (r.1.entry_count ≡ self.entry_count) × Models m (view m self) r.1
unfolding insert
insert-no_memory m self key value table_allocated v d =
    let (t, run, k) = grow-IsKept m self table_allocated v.shaped d in
    let undone : less_one t.entry_count ≡ self.entry_count = omega (arith, k.same.0, v.counted) in
    (
      (false, record t { entry_count = less_one t.entry_count }),
      rw (is_marked v.shaped, run),
      (
        refl,
        undone,
        record {
          valid = record {
            shaped = record {
              marked = k.shaped.marked;
              width = k.shaped.width;
              index = k.shaped.index;
              prime = k.shaped.prime;
              placed = k.shaped.placed;
            };
            counted = omega (arith, undone, k.entries, v.counted);
          };
          distinct = k.distinct;
          reads = k.reads;
        },
      ),
    )
