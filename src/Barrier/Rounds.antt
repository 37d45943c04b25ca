-- ===== src/Barrier/Rounds.antt =====
-- What holds of a barrier of src/Barrier.c whatever its threads do: they pass it in rounds.
use native.Mathlib.Decide.{dec_lt}
use mathlib.Core.Path.{subst}
use tool_boslib.Base.{
  ℕ, suc, ◌+◌, ◌*◌, ◌<◌, ◌≡◌, refl, sym, ap, ◌∙◌, List, [], ◌∷◌, ◌++◌, length, length-append, Bool,
  true, false, leb, if◌then◌else◌, Run, exit, blocked, ok, ◌>>=◌, ◌>>◌, require, arith, Bool-cases,
  inl, inr,
}
use tool_boslib.Barrier.{
  enter, leave, System, arrived_at, arrive, leave_at, Step, arrives, leaves, wakes, wake_at, Steps,
  here, further, start,
}

-- How many threads have returned true.
pub winners : List (ℕ × Bool) → ℕ
winners [] = 0
winners ((i, won) ∷ l) = (if won then 1 else 0) + winners l

winners-append : (l m : List (ℕ × Bool)) → winners (l ++ m) ≡ winners l + winners m
unfolding winners
winners-append [] m = omega arith
winners-append ((i, won) ∷ l) m = omega (arith, winners-append l m)

-- With `n` threads to a round: fewer than `n` have arrived, each round lets `n` threads pass, one of them
-- with the result true, and calls the callback once, and those that woke up without a broadcast pass
-- before the end of their round.
pub record InRounds (n : ℕ) (call_back : Bool) (s : System) : Type 0 where
  pub valid : s.barrier.valid ≡ true
  pub required : s.barrier.required ≡ n
  pub same_callback : s.barrier.call_back ≡ call_back
  pub arrived : s.barrier.arrived ≡ length s.waiting + s.spurious
  pub few : length s.waiting + s.spurious < n
  pub passed : length s.woken + length s.returned ≡ n * winners s.returned + s.spurious
  pub calls : s.calls ≡ (if call_back then winners s.returned else 0)

start-InRounds : (n : ℕ) (call_back : Bool) → 0 < n → InRounds n call_back (start n call_back)
unfolding winners
start-InRounds n call_back positive = record {
  valid = refl;
  required = refl;
  same_callback = refl;
  arrived = refl;
  few = positive;
  passed = omega arith;
  calls = ground arith;
}

-- The state that an arriving thread leaves, behind the test whether it is the last one.
abbrev outcome : ℕ → System → Bool → Run System
outcome i s b =
    if b
    then ok (arrived_at i (true, record s.barrier { gone = 1; arrived = 0 }) s)
    else ok (arrived_at i (false, record s.barrier { arrived = s.barrier.arrived + 1 }) s)

arrive-outcome :
    (i : ℕ) (s : System)
    → s.barrier.valid ≡ true
    → arrive i s ≡ outcome i s (leb s.barrier.required (s.barrier.arrived + 1))
unfolding arrive enter
arrive-outcome i s h =
    ap
      (λ b.
        (require b
          >> (if leb s.barrier.required (s.barrier.arrived + 1)
              then ok (true, record s.barrier { gone = 1; arrived = 0 })
              else ok (false, record s.barrier { arrived = s.barrier.arrived + 1 })))
        >>= λ r. ok (arrived_at i r s))
      h
    ∙ elim (Bool-cases (leb s.barrier.required (s.barrier.arrived + 1))) [
      | inl last ↦ rw last refl
      | inr early ↦ rw early refl
    ]

pub winners-won : (i : ℕ) (l : List (ℕ × Bool)) → winners (l ++ (i, true) ∷ []) ≡ winners l + 1
unfolding winners
winners-won i l = omega (arith, winners-append l ((i, true) ∷ []))

pub winners-lost : (i : ℕ) (l : List (ℕ × Bool)) → winners (l ++ (i, false) ∷ []) ≡ winners l
unfolding winners
winners-lost i l = omega (arith, winners-append l ((i, false) ∷ []))

module _ {n : ℕ} {call_back : Bool} (i : ℕ) (s : System) (h : InRounds n call_back s) where
  -- The last thread of a round.
  pub last-runs :
      suc (length s.waiting + s.spurious) ≡ n
      → arrive i s ≡ ok (arrived_at i (true, record s.barrier { gone = 1; arrived = 0 }) s)
  last-runs full =
      let last : leb s.barrier.required (s.barrier.arrived + 1) ≡ true =
        ground (arith, h.required, h.arrived) in
      arrive-outcome i s h.valid ∙ ap (outcome i s) last

  pub early-runs :
      suc (length s.waiting + s.spurious) < n
      → arrive i s
        ≡ ok (arrived_at i (false, record s.barrier { arrived = s.barrier.arrived + 1 }) s)
  early-runs room =
      let early : leb s.barrier.required (s.barrier.arrived + 1) ≡ false =
        ground (arith, h.required, h.arrived) in
      arrive-outcome i s h.valid ∙ ap (outcome i s) early

  pub last-InRounds :
      suc (length s.waiting + s.spurious) ≡ n
      → InRounds n call_back (arrived_at i (true, record s.barrier { gone = 1; arrived = 0 }) s)
  unfolding winners
  last-InRounds full = record {
    valid = h.valid;
    required = h.required;
    same_callback = h.same_callback;
    arrived = refl;
    few = omega (arith, h.few);
    passed =
        let round : n * (winners s.returned + 1) ≡ n * winners s.returned + n = grind arith in
        omega (
          arith,
          h.passed,
          full,
          round,
          ap (λ w. n * w) (winners-won i s.returned),
          length-append s.waiting s.woken,
          length-append s.returned ((i, true) ∷ []),
        );
    calls = ground (arith, h.calls, h.same_callback, winners-won i s.returned);
  }

  pub early-InRounds :
      suc (length s.waiting + s.spurious) < n
      → InRounds n call_back
          (arrived_at i (false, record s.barrier { arrived = s.barrier.arrived + 1 }) s)
  early-InRounds room = record {
    valid = h.valid;
    required = h.required;
    same_callback = h.same_callback;
    arrived = omega (arith, h.arrived);
    few = omega (arith, room);
    passed = h.passed;
    calls = h.calls;
  }

  pub leave_at-InRounds :
      (pre post : List ℕ)
      → s.woken ≡ pre ++ i ∷ post
      → InRounds n call_back (leave_at i (pre ++ post) s)
  unfolding leave winners
  leave_at-InRounds pre post e = record {
    valid = h.valid;
    required = h.required;
    same_callback = h.same_callback;
    arrived = h.arrived;
    few = h.few;
    passed = omega (
      arith,
      h.passed,
      ap length e,
      ap (λ w. n * w) (winners-lost i s.returned),
      length-append pre post,
      length-append pre (i ∷ post),
      length-append s.returned ((i, false) ∷ []),
    );
    calls = ground (arith, h.calls, winners-lost i s.returned);
  }

  pub wake_at-InRounds :
      (pre post : List ℕ)
      → s.waiting ≡ pre ++ i ∷ post
      → InRounds n call_back (wake_at i (pre ++ post) s)
  wake_at-InRounds pre post e =
      let one_less : length s.waiting ≡ suc (length (pre ++ post)) =
        omega (arith, ap length e, length-append pre post, length-append pre (i ∷ post)) in
      record {
        valid = h.valid;
        required = h.required;
        same_callback = h.same_callback;
        arrived = omega (arith, h.arrived, one_less);
        few = omega (arith, h.few, one_less);
        passed = omega (arith, h.passed);
        calls = h.calls;
      }

-- What holds of the state that a step leaves, if it is possible.
abbrev pub If : (System → Type 0) → Run System → Type 0
If P exit = Unit
If P blocked = Unit
If P (ok s) = P s

module _ {n : ℕ} {call_back : Bool} where
  arrive-InRounds :
      (i : ℕ) (s : System) → InRounds n call_back s → If (InRounds n call_back) (arrive i s)
  arrive-InRounds i s h = elim (dec_lt (suc (length s.waiting + s.spurious)) n) [
    | yes room ↦
        subst (If (InRounds n call_back)) (sym (early-runs i s h room)) (early-InRounds i s h room)
    | no full ↦
        let last : suc (length s.waiting + s.spurious) ≡ n = omega (arith, h.few) in
        subst (If (InRounds n call_back)) (sym (last-runs i s h last)) (last-InRounds i s h last)
  ]

  Step-InRounds : {s t : System} → Step s t → InRounds n call_back s → InRounds n call_back t
  Step-InRounds {s} (arrives i e) h = subst (If (InRounds n call_back)) e (arrive-InRounds i s h)
  Step-InRounds {s} (leaves i pre post e) h = leave_at-InRounds i s h pre post e
  Step-InRounds {s} (wakes i pre post e) h = wake_at-InRounds i s h pre post e

  pub Steps-InRounds : {s t : System} → Steps s t → InRounds n call_back s → InRounds n call_back t
  Steps-InRounds here h = h
  Steps-InRounds (further r st) h = Step-InRounds st (Steps-InRounds r h)

-- The threads of a barrier pass it in rounds, in whatever order they run and wherever a wait ends
-- without a broadcast: in every state that steps reach from a new barrier for `n` threads, at least
-- one, fewer than `n` threads have arrived in the running round. The threads that were let pass are `n`
-- for each result true and those of the running round whose wait ended without a broadcast, so without
-- such wakeups none passes before `n` have arrived. The callback, where there is one, was called once
-- for each result true.
pub rounds-InRounds :
    {s : System} (n : ℕ) (call_back : Bool)
    → 0 < n
    → Steps (start n call_back) s
    → InRounds n call_back s
rounds-InRounds n call_back positive r = Steps-InRounds r (start-InRounds n call_back positive)
