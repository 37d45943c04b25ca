-- ===== src/PQueue/Setup/Held.antt =====
-- What a queue holds at each stage of its set-up: an independent list, and how it relates to what the
-- calls acquire and release.
use tool_boslib.Base.{
  ℕ, zero, suc, ◌+◌, ◌≡◌, ◌∙◌, ap, List, [], ◌∷◌, ◌++◌, Bool, if◌then◌else◌, ◌&&◌, ◌==◌, arith,
}
use tool_boslib.PQueue.{Stage}
use tool_boslib.PQueue.Setup.{
  Resource, num_mutexes, each, mutex, mutex_ready, mem_lock, mem_lock_ready,
}

-- The stage before.
abbrev pub before : Stage → Stage
before Stage.lock_alloc = Stage.clean
before Stage.mutex_new = Stage.lock_alloc
before Stage.mutex_init = Stage.mutex_new
before Stage.push_cond_new = Stage.mutex_init
before Stage.push_cond_init = Stage.push_cond_new
before Stage.mem_lock_alloc = Stage.push_cond_init
before Stage.mem_lock_new = Stage.mem_lock_alloc
before Stage.mem_lock_init = Stage.mem_lock_new
before Stage.dynamic_loader_new = Stage.mem_lock_init
before Stage.dynamic_loader_init = Stage.dynamic_loader_new
before Stage.get_serialize_func = Stage.dynamic_loader_init
before Stage.mem_channel_write_new = Stage.get_serialize_func
before Stage.mem_channel_write_init = Stage.mem_channel_write_new
before Stage.mem_channel_read_new = Stage.mem_channel_write_init
before Stage.mem_channel_read_init = Stage.mem_channel_read_new
before Stage.serialize_write_new = Stage.mem_channel_read_init
before Stage.serialize_read_new = Stage.serialize_write_new
before Stage.misc_init = Stage.serialize_read_new
before Stage.size_init = Stage.misc_init
before Stage.element_memory_alloc = Stage.size_init
before Stage.mem_channel_write_open = Stage.element_memory_alloc
before Stage.mem_channel_read_open = Stage.mem_channel_write_open
before Stage.serialize_write_init = Stage.mem_channel_read_open
before Stage.serialize_read_init = Stage.serialize_write_init
before Stage.valid = Stage.serialize_read_init
before Stage.invalid = Stage.clean
before Stage.clean = Stage.clean

-- What a queue of `n` slots, with or without a loader, has at a stage and had not at the stage before.
abbrev pub added : ℕ → Bool → Stage → List Resource
added n b Stage.lock_alloc = Resource.lock_array ∷ []
added n b Stage.mutex_new = each mutex num_mutexes 0
added n b Stage.mutex_init = each mutex_ready num_mutexes 0
added n b Stage.push_cond_new = Resource.push_cond ∷ []
added n b Stage.push_cond_init = Resource.push_cond_ready ∷ []
added n b Stage.mem_lock_alloc = Resource.mem_lock_array ∷ []
added n b Stage.mem_lock_new = each mem_lock n 0
added n b Stage.mem_lock_init = each mem_lock_ready n 0
added n b Stage.dynamic_loader_new = if b then Resource.loader ∷ [] else []
added n b Stage.dynamic_loader_init = if b then Resource.loader_ready ∷ [] else []
added n b Stage.mem_channel_write_new = Resource.channel_write ∷ []
added n b Stage.mem_channel_write_init = Resource.channel_write_ready ∷ []
added n b Stage.mem_channel_read_new = Resource.channel_read ∷ []
added n b Stage.mem_channel_read_init = Resource.channel_read_ready ∷ []
added n b Stage.serialize_write_new = Resource.serialize_write ∷ []
added n b Stage.serialize_read_new = Resource.serialize_read ∷ []
added n b Stage.element_memory_alloc = Resource.element_memory ∷ []
added n b Stage.mem_channel_write_open = Resource.channel_write_open ∷ []
added n b Stage.mem_channel_read_open = Resource.channel_read_open ∷ []
added n b Stage.serialize_write_init = Resource.serialize_write_ready ∷ []
added n b Stage.serialize_read_init = Resource.serialize_read_ready ∷ []
added n b _ = []

-- What it has from the last `steps` stages.
abbrev pub gathered : ℕ → Bool → ℕ → Stage → List Resource
gathered n b zero stage = []
gathered n b (suc steps) stage = added n b stage ++ gathered n b steps (before stage)

-- There are 25 stages after the first.
abbrev pub held : ℕ → Bool → Stage → List Resource
held n b stage = gathered n b 26 stage

-- The place of a resource in the data type, and its slot.
abbrev code : Resource → ℕ × ℕ
code Resource.lock_array = (0, 0)
code Resource.push_cond = (1, 0)
code Resource.push_cond_ready = (2, 0)
code Resource.mem_lock_array = (3, 0)
code Resource.loader = (4, 0)
code Resource.loader_ready = (5, 0)
code Resource.channel_write = (6, 0)
code Resource.channel_write_ready = (7, 0)
code Resource.channel_read = (8, 0)
code Resource.channel_read_ready = (9, 0)
code Resource.serialize_write = (10, 0)
code Resource.serialize_read = (11, 0)
code Resource.element_memory = (12, 0)
code Resource.channel_write_open = (13, 0)
code Resource.channel_read_open = (14, 0)
code Resource.serialize_write_ready = (15, 0)
code Resource.serialize_read_ready = (16, 0)
code (Resource.mutex i) = (17, i)
code (Resource.mutex_ready i) = (18, i)
code (Resource.mem_lock i) = (19, i)
code (Resource.mem_lock_ready i) = (20, i)
code Resource.calc_size = (21, 0)
code Resource.calc_size_ready = (22, 0)
code Resource.calc_size_open = (23, 0)

abbrev same : Resource → Resource → Bool
same a b = ((code a).0 == (code b).0) && ((code a).1 == (code b).1)

-- How often a resource occurs.
unfoldable pub times : Resource → List Resource → ℕ
times r [] = 0
times r (x ∷ xs) = (if same r x then 1 else 0) + times r xs

pub times-append :
    (r : Resource) (xs ys : List Resource) → times r (xs ++ ys) ≡ times r xs + times r ys
unfolding times
times-append r [] ys = omega arith
times-append r (x ∷ xs) ys = omega (arith, times-append r xs ys)

-- The resources that were acquired and not yet released are those that a queue has at this stage.
unfoldable pub Balanced : ℕ → Bool → Stage → List Resource → List Resource → Type 0
Balanced n b stage acquired released =
    (r : Resource) → times r acquired ≡ times r released + times r (held n b stage)

pub enter-Balanced :
    (n : ℕ) (b : Bool) (p q : Stage) (rs acquired released : List Resource)
    → held n b q ≡ rs ++ held n b p
    → Balanced n b p acquired released
    → Balanced n b q (rs ++ acquired) released
unfolding Balanced
enter-Balanced n b p q rs acquired released e h r =
    rw e (omega (arith, h r, times-append r rs acquired, times-append r rs (held n b p)))

pub leave-Balanced :
    (n : ℕ) (b : Bool) (p q : Stage) (rs acquired released : List Resource)
    → held n b q ≡ rs ++ held n b p
    → Balanced n b q acquired released
    → Balanced n b p acquired (rs ++ released)
unfolding Balanced
leave-Balanced n b p q rs acquired released e h r =
    rw (times-append r rs released) (
      h r
      ∙ ap (λ l. times r released + times r l) e
      ∙ omega (arith, times-append r rs (held n b p)))

pub borrow-Balanced :
    (n : ℕ) (b : Bool) (p : Stage) (rs acquired released : List Resource)
    → Balanced n b p acquired released
    → Balanced n b p (rs ++ acquired) (rs ++ released)
unfolding Balanced
borrow-Balanced n b p rs acquired released h r =
    rw (times-append r rs released) (omega (arith, h r, times-append r rs acquired))
