-- ===== src/PQueue/Setup/End.antt =====
-- PQueue_clear of src/PQueue.c against what a queue holds.
use tool_boslib.Base.{ℕ, zero, suc, ◌+◌, ◌≡◌, ◌≢◌, refl, List, ◌++◌, Bool, arith, Returns}
use tool_boslib.PQueue.{Stage}
use tool_boslib.PQueue.Setup.{Setup, Resource}
use tool_boslib.PQueue.Setup.Teardown.{clear}
use tool_boslib.PQueue.Setup.Held.{added, before, gathered, times, times-append, Balanced}

-- The releases of the last `steps` stages, the last stage first.
abbrev undone : ℕ → Bool → ℕ → Stage → List Resource → List Resource
undone n b zero stage released = released
undone n b (suc steps) stage released =
    undone n b steps (before stage) (added n b stage ++ released)

undone-gathered :
    (n : ℕ) (b : Bool) (steps : ℕ) (stage : Stage) (released : List Resource) (r : Resource)
    → times r (undone n b steps stage released)
      ≡ times r released + times r (gathered n b steps stage)
unfolding times
undone-gathered n b zero stage released r = omega arith
undone-gathered n b (suc steps) stage released r = omega (
  arith,
  undone-gathered n b steps (before stage) (added n b stage ++ released) r,
  times-append r (added n b stage) released,
  times-append r (added n b stage) (gathered n b steps (before stage)),
)

-- The queue is invalid and nothing is left of what was acquired.
abbrev pub Ended : Setup → Type 0
Ended s = (s.stage ≡ Stage.invalid) × ((r : Resource) → times r s.acquired ≡ times r s.released)

clear-go :
    (stage : Stage) (s : Setup)
    → stage ≢ Stage.clean
    → stage ≢ Stage.invalid
    → ((r : Resource)
        → times r s.acquired ≡ times r (undone s.max_length s.has_loader 26 stage s.released))
    → Returns (clear (record s { stage = stage })) Ended
unfolding clear
clear-go Stage.clean s a b all = absurd (a refl)
clear-go Stage.invalid s a b all = absurd (b refl)
clear-go Stage.lock_alloc s a b all = (_, refl, (refl, all))
clear-go Stage.mutex_new s a b all = (_, refl, (refl, all))
clear-go Stage.mutex_init s a b all = (_, refl, (refl, all))
clear-go Stage.push_cond_new s a b all = (_, refl, (refl, all))
clear-go Stage.push_cond_init s a b all = (_, refl, (refl, all))
clear-go Stage.mem_lock_alloc s a b all = (_, refl, (refl, all))
clear-go Stage.mem_lock_new s a b all = (_, refl, (refl, all))
clear-go Stage.mem_lock_init s a b all = (_, refl, (refl, all))
clear-go Stage.dynamic_loader_new s a b all = (_, refl, (refl, all))
clear-go Stage.dynamic_loader_init s a b all = (_, refl, (refl, all))
clear-go Stage.get_serialize_func s a b all = (_, refl, (refl, all))
clear-go Stage.mem_channel_write_new s a b all = (_, refl, (refl, all))
clear-go Stage.mem_channel_write_init s a b all = (_, refl, (refl, all))
clear-go Stage.mem_channel_read_new s a b all = (_, refl, (refl, all))
clear-go Stage.mem_channel_read_init s a b all = (_, refl, (refl, all))
clear-go Stage.serialize_write_new s a b all = (_, refl, (refl, all))
clear-go Stage.serialize_read_new s a b all = (_, refl, (refl, all))
clear-go Stage.misc_init s a b all = (_, refl, (refl, all))
clear-go Stage.size_init s a b all = (_, refl, (refl, all))
clear-go Stage.element_memory_alloc s a b all = (_, refl, (refl, all))
clear-go Stage.mem_channel_write_open s a b all = (_, refl, (refl, all))
clear-go Stage.mem_channel_read_open s a b all = (_, refl, (refl, all))
clear-go Stage.serialize_write_init s a b all = (_, refl, (refl, all))
clear-go Stage.serialize_read_init s a b all = (_, refl, (refl, all))
clear-go Stage.valid s a b all = (_, refl, (refl, all))

-- PQueue_clear of a queue at a stage after the first, which holds what it has at its stage, returns,
-- leaves the queue invalid, and releases every resource that the queue holds, and nothing else: as
-- often as one was acquired it is released.
pub clear-Ended :
    (s : Setup)
    → s.stage ≢ Stage.clean
    → s.stage ≢ Stage.invalid
    → Balanced s.max_length s.has_loader s.stage s.acquired s.released
    → Returns (clear s) Ended
unfolding Balanced
clear-Ended s a b h =
    clear-go s.stage s a b
      λ r. omega (arith, h r, undone-gathered s.max_length s.has_loader 26 s.stage s.released r)
