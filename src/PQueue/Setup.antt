-- ===== src/PQueue/Setup.antt =====
-- The set-up of a queue, PQueue_init of src/PQueue.c with its stages: every stage acquires resources,
-- and a stage that fails leaves the mark from which the next call goes on.
pub mod Channels
pub mod Calls
pub mod Teardown
pub mod Held
pub mod Ready
pub mod Stages
pub mod Begin
pub mod ElementStages
pub mod Finish
pub mod End
mod Tests
use tool_boslib.Base.{
  ℕ, zero, suc, ◌+◌, List, [], ◌∷◌, ◌++◌, Bool, true, false, if◌then◌else◌, ℤ, pos, negsuc, Option,
  Run, ok, exit, ◌>>=◌, ◌>>◌, require,
}
use tool_boslib.PQueue.{Status, Stage}

-- What the stages acquire; the last three only for the time of a call.
pub data Resource : Type 0 where
  lock_array push_cond push_cond_ready mem_lock_array loader loader_ready : Resource
  channel_write channel_write_ready channel_read channel_read_ready : Resource
  serialize_write serialize_read element_memory channel_write_open channel_read_open : Resource
  serialize_write_ready serialize_read_ready : Resource
  mutex mutex_ready mem_lock mem_lock_ready : ℕ → Resource
  calc_size calc_size_ready calc_size_open : Resource

-- The fields that the set-up writes, and what has been acquired and released so far, newest first.
pub record Setup : Type 0 where
  pub stage : Stage
  pub max_length : ℕ
  pub num_elements : ℕ
  pub max_element_size : ℕ
  pub head : ℕ
  pub tail : ℕ
  pub has_loader : Bool
  pub element_memory_size : ℤ
  pub acquired : List Resource
  pub released : List Resource

-- What the calls of other files give: false is NULL, or a return value that reports a failure.
-- Mutex_new, Cond_new, DynamicLoader_new and Serialize_new end the process where they get no memory.
pub record Outcomes : Type 0 where
  pub alloc_locks : Bool
  pub new_mutex : ℕ → Bool
  pub new_cond : Bool
  pub alloc_mem_locks : Bool
  pub new_mem_lock : ℕ → Bool
  pub new_loader : Bool
  pub init_loader : Bool
  pub get_symbol : Bool
  pub new_channel_write : Bool
  pub new_channel_read : Bool
  pub new_serialize_write : Bool
  pub new_serialize_read : Bool
  pub new_calc_size : Bool
  pub init_calc_size : Bool
  pub open_calc_size : Bool
  pub calc_size : Option ℕ
  pub alloc_memory : Bool
  pub open_write : Bool
  pub open_read : Bool
  pub init_serialize_write : Bool
  pub init_serialize_read : Bool

abbrev pub num_mutexes : ℕ
num_mutexes = 3

-- `self->valid = ...` after the resources of a stage are there.
abbrev pub enter : Stage → List Resource → Setup → Setup
enter stage rs s = record s { stage = stage; acquired = rs ++ s.acquired }

-- The resources of a loop over `n` slots, from slot `i` on.
abbrev pub each : (ℕ → Resource) → ℕ → ℕ → List Resource
each f zero i = []
each f (suc n) i = f i ∷ each f n (i + 1)

-- The loop that calls Mutex_new.
unfoldable pub new_locks : (ℕ → Bool) → (ℕ → Resource) → ℕ → ℕ → Run (List Resource)
new_locks good f zero i = ok []
new_locks good f (suc n) i = do require (good i); rest ← new_locks good f n (i + 1); ok (f i ∷ rest)

-- `status = ...; if( status != PQueue_ok ) return status;` before the code that follows.
abbrev pub proceed : Status × Setup → (Setup → Run (Status × Setup)) → Run (Status × Setup)
proceed (Status.ok, s) next = next s
proceed (status, s) next = ok (status, s)

-- Any_memset( self, 0 )
abbrev pub zeroed : Setup → Setup
zeroed s = record s {
  stage = Stage.clean;
  max_length = 0;
  num_elements = 0;
  max_element_size = 0;
  head = 0;
  tail = 0;
  has_loader = false;
  element_memory_size = pos 0;
}

-- A `case` falls through to the next one, so each is a function of its own, the last one first.
module _ (o : Outcomes) where
  abbrev pub case_push_cond_new : Setup → Run (Status × Setup)
  case_push_cond_new s = ok (Status.ok, enter Stage.push_cond_init (push_cond_ready ∷ []) s)

  abbrev pub case_mutex_init : Setup → Run (Status × Setup)
  case_mutex_init s = do
    require o.new_cond
    case_push_cond_new (enter Stage.push_cond_new (push_cond ∷ []) s)

  abbrev pub case_mutex_new : Setup → Run (Status × Setup)
  case_mutex_new s = case_mutex_init (enter Stage.mutex_init (each mutex_ready num_mutexes 0) s)

  abbrev pub case_lock_alloc : Setup → Run (Status × Setup)
  case_lock_alloc s = do
    locks ← new_locks o.new_mutex mutex num_mutexes 0
    case_mutex_new (enter Stage.mutex_new locks s)

  abbrev pub case_clean : Setup → Run (Status × Setup)
  case_clean s =
      if o.alloc_locks
      then case_lock_alloc (enter Stage.lock_alloc (lock_array ∷ []) s)
      else ok (Status.alloc_mem_failed, s)

  abbrev pub init_mutex : Stage → Setup → Run (Status × Setup)
  init_mutex Stage.clean s = case_clean s
  init_mutex Stage.lock_alloc s = case_lock_alloc s
  init_mutex Stage.mutex_new s = case_mutex_new s
  init_mutex Stage.mutex_init s = case_mutex_init s
  init_mutex Stage.push_cond_new s = case_push_cond_new s
  init_mutex _ s = ok (Status.ok, s)

  abbrev pub case_mem_lock_new : Setup → Run (Status × Setup)
  case_mem_lock_new s =
      ok (Status.ok, enter Stage.mem_lock_init (each mem_lock_ready s.max_length 0) s)

  abbrev pub case_mem_lock_alloc : Setup → Run (Status × Setup)
  case_mem_lock_alloc s = do
    locks ← new_locks o.new_mem_lock mem_lock s.max_length 0
    case_mem_lock_new (enter Stage.mem_lock_new locks s)

  abbrev pub case_push_cond_init : Setup → Run (Status × Setup)
  case_push_cond_init s =
      if o.alloc_mem_locks
      then case_mem_lock_alloc (enter Stage.mem_lock_alloc (mem_lock_array ∷ []) s)
      else ok (Status.alloc_mem_failed, s)

  abbrev pub init_mem_lock_at : Stage → Setup → Run (Status × Setup)
  init_mem_lock_at Stage.push_cond_init s = case_push_cond_init s
  init_mem_lock_at Stage.mem_lock_alloc s = case_mem_lock_alloc s
  init_mem_lock_at Stage.mem_lock_new s = case_mem_lock_new s
  init_mem_lock_at _ s = ok (Status.ok, s)

  abbrev pub init_mem_lock : ℕ → Setup → Run (Status × Setup)
  init_mem_lock max_length s = init_mem_lock_at s.stage (record s { max_length = max_length })

  abbrev pub case_dynamic_loader_init : Setup → Run (Status × Setup)
  case_dynamic_loader_init s = ok (
      if o.get_symbol
      then (Status.ok, enter Stage.get_serialize_func [] s)
      else (Status.load_indirect_serialize_failed, s))

  -- `with_lib` is `libName != NULL`.
  abbrev pub case_dynamic_loader_new : Bool → Setup → Run (Status × Setup)
  case_dynamic_loader_new true s =
      if o.init_loader
      then case_dynamic_loader_init (enter Stage.dynamic_loader_init (loader_ready ∷ []) s)
      else ok (Status.init_dynamic_loader_failed, s)
  case_dynamic_loader_new false s = case_dynamic_loader_init (enter Stage.dynamic_loader_init [] s)

  abbrev pub case_mem_lock_init : Bool → Setup → Run (Status × Setup)
  case_mem_lock_init true s = do
    require o.new_loader
    case_dynamic_loader_new true
        (enter Stage.dynamic_loader_new (loader ∷ []) (record s { has_loader = true }))
  case_mem_lock_init false s = case_dynamic_loader_new false (enter Stage.dynamic_loader_new [] s)

  abbrev pub init_dynamic_loader : Bool → Stage → Setup → Run (Status × Setup)
  init_dynamic_loader with_lib Stage.mem_lock_init s = case_mem_lock_init with_lib s
  init_dynamic_loader with_lib Stage.dynamic_loader_new s = case_dynamic_loader_new with_lib s
  init_dynamic_loader with_lib Stage.dynamic_loader_init s = case_dynamic_loader_init s
  init_dynamic_loader with_lib _ s = ok (Status.ok, s)
