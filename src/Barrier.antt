-- ===== src/Barrier.antt =====
-- src/Barrier.c: the counts of a barrier, and the threads that wait at it. A thread is a number.
pub mod Rounds
pub mod Release
mod Tests
use tool_boslib.Base.{
  ℕ, suc, ◌+◌, ◌≡◌, List, [], ◌∷◌, ◌++◌, Bool, true, false, ◌||◌, leb, ◌==◌, if◌then◌else◌, Run, ok,
  exit, ◌>>=◌, ◌>>◌, require, ℤ, pos, negsuc,
}

pub record Barrier : Type 0 where
  pub valid : Bool
  pub required : ℕ
  pub arrived : ℕ
  pub gone : ℕ
  pub call_back : Bool

-- Whether each of the six pthread calls of `init` gives 0.
pub record InitCalls : Type 0 where
  pub mutexattr_init : Bool
  pub condattr_init : Bool
  pub mutexattr_setpshared : Bool
  pub condattr_setpshared : Bool
  pub mutex_init : Bool
  pub cond_init : Bool

-- The flags are whether BARRIER_PRIVATE and BARRIER_SHARED are set.
unfoldable pub init : InitCalls → Bool → Bool → ℤ → Bool → Run Barrier
init calls is_private is_shared (negsuc n) call_back = exit
init calls is_private is_shared (pos count) call_back = do
  require (is_private || is_shared)
  require (leb 1 count)
  require calls.mutexattr_init
  require calls.condattr_init
  require calls.mutexattr_setpshared
  require calls.condattr_setpshared
  require calls.mutex_init
  require calls.cond_init
  ok (record { valid = true; required = count; arrived = 0; gone = 0; call_back = call_back })

-- The part of `wait` up to its end, or up to pthread_cond_wait, which gives the mutex back: whether the
-- thread is the last one, and the barrier.
unfoldable pub enter : Barrier → Run (Bool × Barrier)
enter self = do
  require self.valid
  let arrived = self.arrived + 1
  if leb self.required arrived
      then ok (true, record self { gone = 1; arrived = 0 })
      else ok (false, record self { arrived = arrived })

-- Atomic_testAndSetValue( &self->gone, self->arrived, 0 )
abbrev pub test_and_set : ℕ → ℕ → ℕ
test_and_set gone arrived = if gone == arrived then 0 else gone

-- The part of `wait` behind pthread_cond_wait.
unfoldable pub leave : Barrier → Barrier
leave self = record self { gone = test_and_set (self.gone + 1) self.arrived }

unfoldable pub is_empty : Barrier → Run Bool
is_empty self = do require self.valid; ok (self.gone == 0 || leb self.required self.gone)

-- The four calls that destroy what `init` made are taken to give 0.
abbrev pub clear : Barrier → Run Barrier
clear self = do
  require self.valid
  require (self.gone == 0 || leb self.required self.gone)
  ok (record self { valid = false; arrived = 0; gone = 0 })

-- The barrier with its threads: those in pthread_cond_wait, those that were woken there and that have not
-- yet the mutex, those that have returned, each with its result, oldest first, and the number of calls
-- of the callback.
pub record System : Type 0 where
  pub barrier : Barrier
  pub waiting : List ℕ
  pub woken : List ℕ
  pub returned : List (ℕ × Bool)
  pub calls : ℕ
  -- The wakeups without a broadcast in the running round.
  pub spurious : ℕ

-- `call_back` is called where it is not NULL.
abbrev pub called : Barrier → ℕ
called self = if self.call_back then 1 else 0

-- What `enter` means for the threads: the last one wakes all others and returns.
abbrev pub arrived_at : ℕ → Bool × Barrier → System → System
arrived_at i (true, b) s = record {
  barrier = b;
  waiting = [];
  woken = s.waiting ++ s.woken;
  returned = s.returned ++ (i, true) ∷ [];
  calls = s.calls + called b;
  spurious = 0;
}
arrived_at i (false, b) s = record s { barrier = b; waiting = i ∷ s.waiting }

unfoldable pub arrive : ℕ → System → Run System
arrive i s = do r ← enter s.barrier; ok (arrived_at i r s)

-- A woken thread returns; `others` are the woken threads that are left.
abbrev pub leave_at : ℕ → List ℕ → System → System
leave_at i others s = record s {
  barrier = leave s.barrier;
  woken = others;
  returned = s.returned ++ (i, false) ∷ [];
}

-- pthread_cond_wait may end without a broadcast: the thread wakes up like the others.
abbrev pub wake_at : ℕ → List ℕ → System → System
wake_at i others s = record s { waiting = others; woken = i ∷ s.woken; spurious = suc s.spurious }

-- Steps of the threads in any order: each is one section under the mutex, or a wakeup without a broadcast.
pub data Step (s : System) : System → Type 0 where
  arrives : (i : ℕ) {t : System} → arrive i s ≡ ok t → Step s t
  leaves :
      (i : ℕ) (pre post : List ℕ) → s.woken ≡ pre ++ i ∷ post → Step s (leave_at i (pre ++ post) s)
  wakes :
      (i : ℕ) (pre post : List ℕ) → s.waiting ≡ pre ++ i ∷ post → Step s (wake_at i (pre ++ post) s)

pub data Steps (s : System) : System → Type 0 where
  here : Steps s s
  further : {t u : System} → Steps s t → Step t u → Steps s u

-- A barrier for `count` threads, before the first of them.
abbrev pub start : ℕ → Bool → System
start count call_back = record {
  barrier = record { valid = true; required = count; arrived = 0; gone = 0; call_back = call_back };
  waiting = [];
  woken = [];
  returned = [];
  calls = 0;
  spurious = 0;
}
