-- ===== src/MtQueue/Chain.antt =====
-- The elements of a queue of src/MTQueue.c on the heap.
use tool_boslib.Base.{
  ℕ, ◌<◌, ◌≡◌, ◌≢◌, refl, sym, ap, ◌∙◌, List, [], ◌∷◌, ◌++◌, true, false, arith, ◌==◌, All,
}
use tool_boslib.MtQueue.{Node, Heap, put}

-- An element of the queue: where it is, and what it holds.
pub record Cell : Type 0 where
  pub address : ℕ
  pub item : ℕ
  pub user_class : ℕ

abbrev pub start : List Cell → ℕ
start [] = 0
start (c ∷ cs) = c.address

abbrev pub last : List Cell → ℕ
last [] = 0
last (c ∷ []) = c.address
last (c ∷ d ∷ cs) = last (d ∷ cs)

abbrev pub node : Cell → ℕ → Node
node c next = record { item = c.item; user_class = c.user_class; next = next }

-- Each element is on the heap and points to the next one; addresses and data are not NULL.
abbrev pub Linked : Heap → List Cell → Type 0
Linked h [] = Unit
Linked h (c ∷ cs) = (h c.address ≡ node c (start cs)) × (0 < c.address) × (0 < c.item) × Linked h cs

abbrev pub Fresh : ℕ → List Cell → Type 0
Fresh a cs = All (λ c. c.address ≢ a) cs

abbrev pub Distinct : List Cell → Type 0
Distinct [] = Unit
Distinct (c ∷ cs) = Fresh c.address cs × Distinct cs

pub put-same : (h : Heap) (a : ℕ) (n : Node) → put h a n a ≡ n
unfolding put
put-same h a n = let e : a == a ≡ true = ground arith in rw e refl

pub put-other : (h : Heap) (a b : ℕ) (n : Node) → b ≢ a → put h a n b ≡ h b
unfolding put
put-other h a b n ne = let e : b == a ≡ false = ground arith in rw e refl

pub put-Linked :
    (h : Heap) (a : ℕ) (n : Node) (cs : List Cell)
    → Fresh a cs
    → Linked h cs
    → Linked (put h a n) cs
put-Linked h a n [] f l = tt
put-Linked h a n (c ∷ cs) f l =
    (put-other h a c.address n f.0 ∙ l.0, l.1, l.2, put-Linked h a n cs f.1 l.3)

last-Fresh : (a : ℕ) (c : Cell) (cs : List Cell) → Fresh a (c ∷ cs) → a ≢ last (c ∷ cs)
last-Fresh a c [] f e = f.0 (sym e)
last-Fresh a c (d ∷ cs) f e = last-Fresh a d cs f.1 e

-- The write of `add_tail` through the tail pointer.
abbrev pub hang : Heap → Cell → ℕ → Heap
hang h e tail =
    let heap = put h e.address (node e 0) in put heap tail (record (heap tail) { next = e.address })

pub hang-Linked :
    (h : Heap) (e c : Cell) (cs : List Cell)
    → Fresh e.address (c ∷ cs)
    → Distinct (c ∷ cs)
    → 0 < e.address
    → 0 < e.item
    → Linked h (c ∷ cs)
    → Linked (hang h e (last (c ∷ cs))) ((c ∷ cs) ++ e ∷ [])
hang-Linked h e c [] f d ea ed l =
    let others = put-other h e.address c.address (node e 0) f.0 ∙ l.0 in
    (
      put-same _ c.address _ ∙ ap {A = Node} {B = Node} (λ n. record n { next = e.address }) others,
      l.1,
      l.2,
      (put-other _ c.address e.address _ (λ eq. f.0 (sym eq)) ∙ put-same h e.address _, ea, ed, tt),
    )
hang-Linked h e c (x ∷ cs) f d ea ed l = (
  put-other _ _ c.address _ (last-Fresh c.address x cs d.0)
      ∙ put-other h e.address c.address (node e 0) f.0
      ∙ l.0,
  l.1,
  l.2,
  hang-Linked h e x cs f.1 d.1 ea ed l.3,
)

Fresh-append :
    (a : ℕ) (cs : List Cell) (e : Cell) → Fresh a cs → e.address ≢ a → Fresh a (cs ++ e ∷ [])
Fresh-append a [] e f ne = (ne, tt)
Fresh-append a (c ∷ cs) e f ne = (f.0, Fresh-append a cs e f.1 ne)

pub Distinct-append :
    (cs : List Cell) (e : Cell) → Distinct cs → Fresh e.address cs → Distinct (cs ++ e ∷ [])
Distinct-append [] e d f = (tt, tt)
Distinct-append (c ∷ cs) e d f =
    (Fresh-append c.address cs e d.0 (λ eq. f.0 (sym eq)), Distinct-append cs e d.1 f.1)

pub last-append : (cs : List Cell) (e : Cell) → last (cs ++ e ∷ []) ≡ e.address
last-append [] e = refl
last-append (c ∷ []) e = refl
last-append (c ∷ d ∷ cs) e = last-append (d ∷ cs) e

pub last-positive : (h : Heap) (c : Cell) (cs : List Cell) → Linked h (c ∷ cs) → 0 < last (c ∷ cs)
last-positive h c [] l = l.1
last-positive h c (d ∷ cs) l = last-positive h d cs l.3
