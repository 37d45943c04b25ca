-- ===== src/ArrayList.antt =====
-- src/ArrayList.c: a growing array of pointers. A pointer is the number of its address, and 0 is NULL.
pub mod Stack
pub mod MoveDown
pub mod Remove
mod Tests
use tool_boslib.Base.{
  ℕ, zero, suc, ◌+◌, ◌-◌, ◌*◌, ◌/◌, ◌%◌, ◌^◌, ◌<◌, List, [], ◌∷◌, ◌++◌, replicate, take, get_or,
  set, map, Bool, true, false, ltb, leb, ◌==◌, if◌then◌else◌, Run, ok, ◌>>=◌, ◌>>◌, require, ℤ, pos,
  negsuc, Option, none, some,
}
use mathlib.Core.Option

-- Without a mutex every call ends the process, since Mutex_lock requires one. A buffer that is NULL has no
-- cells. `free` does not fall below 0.
pub record ArrayList : Type 0 where
  pub mutex : Bool
  pub free : ℕ
  pub count : ℕ
  pub buffer : List ℕ

abbrev pub new_size : ℕ → ℕ
new_size count = if count * 2 == 0 then 50 else count * 2

-- The cells are copied; calloc sets the new ones behind them to 0.
unfoldable pub allocate : Bool → ArrayList → Run ArrayList
allocate allocated self = do
  let size = new_size self.count
  require allocated
  require (elim self.buffer [ [] ↦ true | _ ↦ ltb self.count size ])
  ok (record self {
    buffer = take self.count self.buffer ++ replicate (size - self.count) 0;
    free = size - self.count;
  })

abbrev pub init : Bool → Bool → Run ArrayList
init mutex_allocated mutex_initialized = do
  require mutex_allocated
  require mutex_initialized
  ok (record { mutex = true; free = 0; count = 0; buffer = [] })

abbrev pub clear : ArrayList → ArrayList
clear self = record { mutex = false; free = 0; count = 0; buffer = [] }

abbrev pub count_of : ArrayList → Run ℕ
count_of self = do require self.mutex; ok self.count

-- `self->buffer[ self->count++ ] = item`
abbrev pub store : ℕ → ArrayList → ArrayList
store item self = record self {
  buffer = set self.buffer self.count item;
  count = self.count + 1;
  free = self.free - 1;
}

unfoldable pub push : Bool → ArrayList → ℕ → Run ArrayList
push allocated self item = do
  require self.mutex
  roomy ← if leb self.free 0 then allocate allocated self else ok self
  ok (store item roomy)

unfoldable pub pop : ArrayList → Run (ℕ × ArrayList)
pop self = do
  require self.mutex
  if ltb 0 self.count
      then ok (
        get_or self.buffer (self.count - 1) 0,
        record self { count = self.count - 1; free = self.free + 1 },
      )
      else ok (0, self)

-- The cell_at of an index that may be negative.
abbrev pub cell_at : ℤ → ArrayList → ℕ
cell_at (negsuc n) self = 0
cell_at (pos n) self = if ltb n self.count then get_or self.buffer n 0 else 0

unfoldable pub get : ArrayList → ℤ → Run ℕ
get self index = do require self.mutex; ok (cell_at index self)

unfoldable pub reset : ArrayList → Run ArrayList
reset self = do require self.mutex; ok (record self { free = self.free + self.count; count = 0 })

-- The first `n` bytes of one pointer over those of another, lowest byte first.
abbrev pub merge : ℕ → ℕ → ℕ → ℕ
merge n source target = target / 256 ^ n * 256 ^ n + source % 256 ^ n

-- `memmove` of `n` bytes between cells of 8 bytes. Past the last cell_at of the source it stops.
unfoldable pub move_bytes : List ℕ → List ℕ → ℕ → List ℕ
move_bytes [] source n = []
move_bytes (d ∷ target) [] n = d ∷ target
move_bytes (d ∷ target) (s ∷ source) n =
    if leb 8 n then s ∷ move_bytes target source (n - 8) else merge n s d ∷ target

-- The loop of `remove` from a cell_at on, with the number of items from there on, `count - i`: the cells
-- after the move, where an item is found.
unfoldable pub move_down : ℕ → ℕ → List ℕ → Option (List ℕ)
move_down item zero cells = none
move_down item (suc left) [] = none
move_down item (suc left) (x ∷ cells) =
    if x == item
    then some (move_bytes (x ∷ cells) cells (suc left))
    else Option.map (λ l. x ∷ l) (move_down item left cells)

unfoldable pub remove : ArrayList → ℕ → Run ArrayList
remove self item = do
  require self.mutex
  elim (move_down item self.count self.buffer) [
    | none ↦ ok self
    | some cells ↦ ok (record self { buffer = cells; count = self.count - 1; free = self.free + 1 })
  ]
