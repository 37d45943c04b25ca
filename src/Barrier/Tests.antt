-- ===== src/Barrier/Tests.antt =====
-- Runs of src/Barrier.c, and instances of the theorems about it.
use tool_boslib.Base.{
  length, ◌+◌, ◌⊎◌, ℕ, ◌≡◌, refl, [], ◌∷◌, Bool, true, false, Run, ok, ◌>>=◌, pos, arith,
}
use tool_boslib.Barrier.{
  InitCalls, init, enter, leave, is_empty, clear, System, arrive, arrives, Step, Steps, here,
  further, start,
}
use tool_boslib.Barrier.Rounds.{winners, InRounds, rounds-InRounds}
use tool_boslib.Barrier.Release.{arrivals, count, arrivals-release}

abbrev all_well : InitCalls
all_well = record {
  mutexattr_init = true;
  condattr_init = true;
  mutexattr_setpshared = true;
  condattr_setpshared = true;
  mutex_init = true;
  cond_init = true;
}

-- The first of two threads waits, and the barrier says that it is empty and can be cleared.
abbrev first_waits : Run (ℕ × Bool × Bool)
first_waits = do
  b ← init all_well true false (pos 2) true
  e ← enter b
  empty ← is_empty e.1
  c ← clear e.1
  ok (e.1.arrived, empty, c.valid)

waits_and_empty : first_waits ≡ ok (1, true, false)
unfolding init enter is_empty
waits_and_empty = refl

-- Of three threads the last one comes again, and another with it, before those woken have left: the first
-- of them to leave sets `gone` to 0, and the barrier says that it is empty while the other is in it.
abbrev early_return : Run (ℕ × Bool)
early_return = do
  b ← init all_well true false (pos 3) false
  one ← enter b
  two ← enter one.1
  three ← enter two.1
  again ← enter three.1
  another ← enter again.1
  let one_left = leave another.1
  empty ← is_empty one_left
  ok (one_left.gone, empty)

reset_too_early : early_return ≡ ok (0, true)
unfolding init enter leave is_empty
reset_too_early = refl

-- One of two threads waits.
abbrev one_waits : System
one_waits = record (start 2 true) {
  barrier = record { valid = true; required = 2; arrived = 1; gone = 0; call_back = true };
  waiting = 7 ∷ [];
}

one_waits-Steps : Steps (start 2 true) one_waits
unfolding arrive enter
one_waits-Steps = further here (arrives 7 refl)

rounds-InRounds_example : InRounds 2 true one_waits
rounds-InRounds_example = rounds-InRounds 2 true (omega arith) one_waits-Steps

-- The other thread arrives.
abbrev both_let_go : System
both_let_go = record one_waits {
  barrier = record { valid = true; required = 2; arrived = 0; gone = 1; call_back = true };
  waiting = [];
  woken = 7 ∷ [];
  returned = (8, true) ∷ [];
  calls = 1;
}

last_arrives : Steps one_waits both_let_go
unfolding arrive enter
last_arrives = further here (arrives 8 refl)

one_more_is_missing : 1 + arrivals last_arrives ≡ 2
unfolding last_arrives
one_more_is_missing = refl

arrivals-release_example :
    (both_let_go.waiting ≡ [])
    × (winners both_let_go.returned ≡ winners one_waits.returned + 1)
    × ((u : System) (w : Steps both_let_go u)
        → arrivals w ≡ 0
        → (u.waiting ≡ [])
          × (length u.woken + count w ≡ length both_let_go.woken)
          × ((u.woken ≡ []) ⊎ ((v : System) × (st : Step u v) × (arrivals (further here st) ≡ 0))))
arrivals-release_example =
    arrivals-release 2 true (omega arith) one_waits-Steps last_arrives one_more_is_missing
