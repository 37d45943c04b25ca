-- ===== src/ArrayList/Tests.antt =====
-- Runs of src/ArrayList.c, and instances of the theorems about it.
use tool_boslib.Base.{ℕ, ◌≡◌, refl, inr, List, [], ◌∷◌, true, false, Run, ok, ◌>>=◌, Returns, pos}
use tool_boslib.ArrayList.{ArrayList, init, push, pop, get, remove, allocate, move_down, move_bytes}
use tool_boslib.ArrayList.Stack.{Stores, capacity, push-Stores, pop-push, get-Stores}
use tool_boslib.ArrayList.Remove.{Removes, remove-Removes}

abbrev three : Run ArrayList
three = do a ← init true true; b ← push true a 1; c ← push false b 2; push false c 3

abbrev grows_run : Run (ℕ × ℕ)
grows_run = do a ← three; ok (a.count, a.free)

grows : grows_run ≡ ok (3, 47)
unfolding push allocate
grows = refl

abbrev pops_run : Run (ℕ × ℕ)
pops_run = do a ← three; (x, b) ← pop a; y ← get b (pos 2); ok (x, y)

pops : pops_run ≡ ok (3, 0)
unfolding push allocate pop get
pops = refl

-- 3 bytes move and not 3 pointers: the items 2 and 2 are left, where 2 and 3 are wanted.
abbrev removes_run : Run (ℕ × ℕ × ℕ)
removes_run = do a ← three; b ← remove a 1; x ← get b (pos 0); y ← get b (pos 1); ok (b.count, x, y)

removes : removes_run ≡ ok (2, 2, 2)
unfolding push allocate remove get move_down move_bytes
removes = refl

abbrev full : ArrayList
full = record { mutex = true; free = 0; count = 2; buffer = 10 ∷ 20 ∷ [] }

full-Stores : Stores (10 ∷ 20 ∷ []) full
full-Stores = record { spare = []; locked = refl; cells = refl; counted = refl; left = refl }

push-Stores_example :
    Returns (push true full 30) λ r. Stores (10 ∷ 20 ∷ 30 ∷ []) r × (capacity r ≡ 4)
push-Stores_example = push-Stores (10 ∷ 20 ∷ []) full 30 true full-Stores (inr refl)

pop-push_example : Returns (push true full 30 >>= pop) λ r. (r.0 ≡ 30) × Stores (10 ∷ 20 ∷ []) r.1
pop-push_example = pop-push (10 ∷ 20 ∷ []) full 30 true full-Stores (inr refl)

get-Stores_example : get full (pos 1) ≡ ok 20
get-Stores_example = get-Stores (10 ∷ 20 ∷ []) full (pos 1) full-Stores

remove-Removes_example :
    Returns
      (remove full 10)
      λ r. (items' : List ℕ) × Removes 10 (10 ∷ 20 ∷ []) items' × Stores items' r
remove-Removes_example = remove-Removes 10 (10 ∷ 20 ∷ []) full full-Stores
