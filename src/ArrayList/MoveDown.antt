-- ===== src/ArrayList/MoveDown.antt =====
-- The search and the memmove of ArrayList_remove (src/ArrayList.c), by what they do to the cells.
use tool_boslib.Base.{
  ℕ, suc, ◌+◌, ◌-◌, ◌*◌, ◌<◌, ◌≡◌, ◌≢◌, refl, ap, ◌∙◌, List, [], ◌∷◌, ◌++◌, length, All, true,
  false, leb, ◌==◌, ==_refl, if◌then◌else◌, none, some, arith,
}
use mathlib.Core.Option
use tool_boslib.ArrayList.{merge, move_bytes, move_down}

-- The last of some items, and the others.
pub last_of : ℕ → List ℕ → ℕ
last_of x [] = x
last_of x (y ∷ l) = last_of y l

pub init_of : ℕ → List ℕ → List ℕ
init_of x [] = []
init_of x (y ∷ l) = x ∷ init_of y l

pub init_of-last_of : (x : ℕ) (l : List ℕ) → init_of x l ++ last_of x l ∷ [] ≡ x ∷ l
unfolding init_of last_of
init_of-last_of x [] = refl
init_of-last_of x (y ∷ l) = ap (λ t. x ∷ t) (init_of-last_of y l)

pub length-init_of : (x : ℕ) (l : List ℕ) → length (init_of x l) ≡ length l
unfolding init_of
length-init_of x [] = refl
length-init_of x (y ∷ l) = ap suc (length-init_of y l)

pub move_bytes-runs :
    (d : ℕ) (moved rest : List ℕ) (s m n : ℕ)
    → m < 8
    → n ≡ 8 * length moved + m
    → move_bytes (d ∷ moved ++ s ∷ rest) (moved ++ s ∷ rest) n
      ≡ moved ++ merge m s (last_of d moved) ∷ s ∷ rest
unfolding move_bytes last_of
move_bytes-runs d [] rest s m n small e =
    let few : leb 8 n ≡ false = ground arith in let all : n ≡ m = omega arith in rw (few, all) refl
move_bytes-runs d (x ∷ moved) rest s m n small e =
    let many : leb 8 n ≡ true = ground (arith, e) in
    rw many (ap (λ l. x ∷ l) (move_bytes-runs x moved rest s m (n - 8) small (omega (arith, e))))

pub move_down-absent :
    (item : ℕ) (items spare : List ℕ)
    → All (λ x. x ≢ item) items
    → move_down item (length items) (items ++ spare) ≡ none
unfolding move_down
move_down-absent item [] spare h = refl
move_down-absent item (x ∷ items) spare h =
    let miss : x == item ≡ false = ground (arith, h.0) in
    ap
      (λ b.
        if b
        then some (move_bytes (x ∷ items ++ spare) (items ++ spare) (suc (length items)))
        else Option.map (λ l. x ∷ l) (move_down item (length items) (items ++ spare)))
      miss
    ∙ ap (Option.map (λ l. x ∷ l)) (move_down-absent item items spare h.1)

pub move_down-found :
    (item : ℕ) (pre cells : List ℕ) (left : ℕ)
    → All (λ x. x ≢ item) pre
    → move_down item (length pre + suc left) (pre ++ item ∷ cells)
      ≡ some (pre ++ move_bytes (item ∷ cells) cells (suc left))
unfolding move_down
move_down-found item [] cells left h =
    let here : 0 + suc left ≡ suc left = omega arith in
    ap (λ n. move_down item n (item ∷ cells)) here
    ∙ ap
        (λ b.
          if b
          then some (move_bytes (item ∷ cells) cells (suc left))
          else Option.map (λ l. item ∷ l) (move_down item left cells))
        (==_refl item)
move_down-found item (x ∷ pre) cells left h =
    let there : suc (length pre) + suc left ≡ suc (length pre + suc left) = omega arith in
    let miss : x == item ≡ false = ground (arith, h.0) in
    let rest = pre ++ item ∷ cells in
    ap (λ n. move_down item n (x ∷ rest)) there
    ∙ ap
        (λ b.
          if b
          then some (move_bytes (x ∷ rest) rest (suc (length pre + suc left)))
          else Option.map (λ l. x ∷ l) (move_down item (length pre + suc left) rest))
        miss
    ∙ ap (Option.map (λ l. x ∷ l)) (move_down-found item pre cells left h.1)

-- The byte that moves over the last item.
pub move_bytes-last :
    (item : ℕ) (spare : List ℕ) → (y : ℕ) × (move_bytes (item ∷ spare) spare 1 ≡ y ∷ spare)
unfolding move_bytes
move_bytes-last item [] = (item, refl)
move_bytes-last item (x ∷ spare) = (merge 1 x item, refl)
