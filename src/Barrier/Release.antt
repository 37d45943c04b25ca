-- ===== src/Barrier/Release.antt =====
-- The threads that wait at a barrier of src/Barrier.c get on as soon as enough others arrive, in whatever
-- order they run.
use native.Mathlib.Decide.{dec_lt}
use mathlib.Core.Path.{subst}
use tool_boslib.Base.{
  ℕ, suc, ◌+◌, ◌*◌, ◌<◌, ◌≤◌, ◌≡◌, ◌⊎◌, inl, inr, refl, sym, ap, ◌∙◌, List, [], ◌∷◌, length,
  length-append, Bool, arith,
}
use tool_boslib.Barrier.{
  leave, System, arrive, arrives, leaves, wakes, Step, Steps, here, further, start,
}
use tool_boslib.Barrier.Rounds.{
  InRounds, winners, winners-won, winners-lost, If, Steps-InRounds, rounds-InRounds, early-runs,
  last-runs,
}

-- How many of some steps are arrivals, and how many steps there are.
abbrev pub arrivals : {s t : System} → Steps s t → ℕ
arrivals here = 0
arrivals (further r (arrives i e)) = suc (arrivals r)
arrivals (further r (leaves i pre post e)) = arrivals r
arrivals (further r (wakes i pre post e)) = arrivals r

abbrev pub count : {s t : System} → Steps s t → ℕ
count here = 0
count (further r st) = suc (count r)

-- All that have arrived since the start.
abbrev total : ℕ → System → ℕ
total n s = s.barrier.arrived + n * winners s.returned

module _ {n : ℕ} {call_back : Bool} where
  arrive-total :
      (i : ℕ) (s : System)
      → InRounds n call_back s
      → If (λ t. total n t ≡ total n s + 1) (arrive i s)
  arrive-total i s h = elim (dec_lt (suc (length s.waiting + s.spurious)) n) [
    | yes room ↦
        subst (If (λ t. total n t ≡ total n s + 1)) (sym (early-runs i s h room)) (omega arith)
    | no full ↦
        let last : suc (length s.waiting + s.spurious) ≡ n = omega (arith, h.few) in
        let round : n * (winners s.returned + 1) ≡ n * winners s.returned + n = grind arith in
        subst (If (λ t. total n t ≡ total n s + 1)) (sym (last-runs i s h last))
          (omega (arith, h.arrived, round, ap (λ w. n * w) (winners-won i s.returned)))
  ]

  steps-total :
      {s t : System} (r : Steps s t) → InRounds n call_back s → total n t ≡ total n s + arrivals r
  unfolding leave
  steps-total here h = omega arith
  steps-total {s} (further {t = u} r (arrives i e)) h =
      let one_more =
        subst (If (λ t. total n t ≡ total n u + 1)) e (arrive-total i u (Steps-InRounds r h)) in
      omega (arith, one_more, steps-total r h)
  steps-total {s} (further {t = u} r (leaves i pre post e)) h =
      omega (arith, steps-total r h, ap (λ w. n * w) (winners-lost i u.returned))
  steps-total (further r (wakes i pre post e)) h = steps-total r h

multiple_lt : (n w v : ℕ) → w < v → n * w + n ≤ n * v
multiple_lt n w v h = grind arith

-- A number below `n` and a multiple of `n` determine each other.
same_multiple : (n a w v : ℕ) → a < n → a + n * w ≡ n * v → (w ≡ v) × (a ≡ 0)
same_multiple n a w v small e = elim (dec_lt w v) [
  | yes less ↦ absurd (omega (arith, multiple_lt n w v less, e, small))
  | no more ↦ elim (dec_lt v w) [
    | yes greater ↦ absurd (omega (arith, multiple_lt n v w greater, e, small))
    | no same ↦
        let equal : w ≡ v = omega (arith, more, same) in
        (equal, omega (arith, e, ap (λ k. n * k) equal))
  ]
]

empty_of_length : (l : List ℕ) → length l ≡ 0 → l ≡ []
empty_of_length [] e = refl
empty_of_length (i ∷ l) e = absurd (omega (arith, e))

-- Nobody arrives, and nobody waits: every step is the return of a woken thread.
drain :
    {t u : System} (w : Steps t u)
    → t.waiting ≡ []
    → arrivals w ≡ 0
    → (u.waiting ≡ []) × (length u.woken + count w ≡ length t.woken)
drain here none_waits quiet = (none_waits, omega arith)
drain (further r (arrives i e)) none_waits quiet = absurd (omega (arith, quiet))
drain (further {t = v} r (leaves i pre post e)) none_waits quiet =
    let (still, counted) = drain r none_waits quiet in
    (
      still,
      omega (arith, counted, ap length e, length-append pre post, length-append pre (i ∷ post)),
    )
drain (further {t = v} r (wakes i pre post e)) none_waits quiet =
    let (still, counted) = drain r none_waits quiet in
    absurd (omega (arith, ap length (sym still ∙ e), length-append pre (i ∷ post)))

-- A woken thread can return.
can_leave :
    (u : System) (l : List ℕ)
    → u.woken ≡ l
    → (u.woken ≡ []) ⊎ ((v : System) × (st : Step u v) × (arrivals (further here st) ≡ 0))
can_leave u [] e = inl e
can_leave u (i ∷ l) e = inr (_, leaves i [] l e, refl)

-- In whatever order the threads run: from every state that steps reach from a new barrier for `n`
-- threads, at least one, any steps with as many arrivals as the running round lacks end in a state in
-- which no thread waits and one more has returned true. From there, as long as nobody arrives, each
-- step is the return of a woken thread, and while there is one a step is possible, so all have returned
-- after as many steps as there are woken threads.
pub arrivals-release :
    {s t : System} (n : ℕ) (call_back : Bool)
    → 0 < n
    → Steps (start n call_back) s
    → (r : Steps s t) → s.barrier.arrived + arrivals r ≡ n
    → (t.waiting ≡ [])
      × (winners t.returned ≡ winners s.returned + 1)
      × ((u : System) (w : Steps t u)
          → arrivals w ≡ 0
          → (u.waiting ≡ [])
            × (length u.woken + count w ≡ length t.woken)
            × ((u.woken ≡ [])
                ⊎ ((v : System) × (st : Step u v) × (arrivals (further here st) ≡ 0))))
arrivals-release {s} {t} n call_back positive reach r full =
    let before = rounds-InRounds n call_back positive reach in
    let after = Steps-InRounds r before in
    let round : n * (winners s.returned + 1) ≡ n * winners s.returned + n = grind arith in
    let (one_more, none_there) =
      same_multiple n t.barrier.arrived (winners t.returned) (winners s.returned + 1)
        (omega (arith, after.arrived, after.few))
        (omega (arith, steps-total r before, round, full)) in
    let none_waits : t.waiting ≡ [] = empty_of_length t.waiting (omega (arith, after.arrived)) in
    (
      none_waits,
      one_more,
      λ u w quiet.
          let (still, counted) = drain w none_waits quiet in
          (still, counted, can_leave u u.woken refl),
    )
