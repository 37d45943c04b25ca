-- ===== src/PQueue/Setup/Finish.antt =====
-- PQueue_setupElement of src/PQueue.c: where it stops, and what the queue holds then.
use mathlib.Core.Path.{subst}
use tool_boslib.Base.{◌≡◌, refl, sym, Bool, true, arith, Returns, inl, inr}
use tool_boslib.PQueue.{Status, Stage}
use tool_boslib.PQueue.Setup.{Setup, Outcomes}
use tool_boslib.PQueue.Setup.Channels.{init_serialize}
use tool_boslib.PQueue.Setup.Calls.{
  setup_element, setup_at, element_size, element_memory_from, element_io_channel, mark_valid,
}
use tool_boslib.PQueue.Setup.Ready.{Reaches, proceed-Reaches, step}
use tool_boslib.PQueue.Setup.ElementStages.{
  FilledAt, BlockFits, startable, unfinished, element_refused, element_refused-Blames,
  read_open-Reaches, write_open-Reaches, channel-Reaches, memory-Reaches, size-Reaches, Blames,
}

module _ (o : Outcomes) (refused : Bool) (blame : Blames o refused) where
  element_io_channel-Reaches :
      (s : Setup)
      → FilledAt Stage.element_memory_alloc s
      → Returns
          (element_io_channel o (record s { stage = Stage.element_memory_alloc }))
          (Reaches FilledAt refused unfinished Stage.serialize_read_init)
  unfolding element_io_channel
  element_io_channel-Reaches s h =
      proceed-Reaches FilledAt refused unfinished Stage.mem_channel_read_open
        Stage.serialize_read_init _ (λ s₁. init_serialize o s₁.stage s₁)
        (channel-Reaches o refused blame s h) (read_open-Reaches o refused blame)

  element_memory-Reaches :
      (s : Setup)
      → FilledAt Stage.size_init s
      → Returns
          (element_memory_from o (record s { stage = Stage.size_init }))
          (Reaches FilledAt refused unfinished Stage.serialize_read_init)
  unfolding element_memory_from
  element_memory-Reaches s h =
      proceed-Reaches FilledAt refused unfinished Stage.element_memory_alloc
        Stage.serialize_read_init _ (element_io_channel o) (memory-Reaches o refused blame s h)
        element_io_channel-Reaches

  setup_at-Reaches :
      (stage : Stage) (s : Setup)
      → startable stage ≡ true
      → BlockFits o.calc_size s.max_length
      → FilledAt stage s
      → Returns
          (setup_at o stage (record s { stage = stage }))
          (Reaches FilledAt refused unfinished Stage.serialize_read_init)
  unfolding setup_at element_size element_io_channel
  setup_at-Reaches Stage.misc_init s at fits h =
      proceed-Reaches FilledAt refused unfinished Stage.size_init Stage.serialize_read_init _
        (element_memory_from o) (size-Reaches o refused blame s fits h) element_memory-Reaches
  setup_at-Reaches Stage.size_init s at fits h = element_memory-Reaches s h
  setup_at-Reaches Stage.element_memory_alloc s at fits h = element_io_channel-Reaches s h
  setup_at-Reaches Stage.mem_channel_write_open s at fits h =
      proceed-Reaches FilledAt refused unfinished Stage.mem_channel_read_open
        Stage.serialize_read_init _ (λ s₁. init_serialize o s₁.stage s₁)
        (write_open-Reaches o refused blame s h) (read_open-Reaches o refused blame)
  setup_at-Reaches Stage.mem_channel_read_open s at fits h = read_open-Reaches o refused blame s h
  setup_at-Reaches Stage.clean s at fits h = absurd (ground arith)
  setup_at-Reaches Stage.lock_alloc s at fits h = absurd (ground arith)
  setup_at-Reaches Stage.mutex_new s at fits h = absurd (ground arith)
  setup_at-Reaches Stage.mutex_init s at fits h = absurd (ground arith)
  setup_at-Reaches Stage.push_cond_new s at fits h = absurd (ground arith)
  setup_at-Reaches Stage.push_cond_init s at fits h = absurd (ground arith)
  setup_at-Reaches Stage.mem_lock_alloc s at fits h = absurd (ground arith)
  setup_at-Reaches Stage.mem_lock_new s at fits h = absurd (ground arith)
  setup_at-Reaches Stage.mem_lock_init s at fits h = absurd (ground arith)
  setup_at-Reaches Stage.dynamic_loader_new s at fits h = absurd (ground arith)
  setup_at-Reaches Stage.dynamic_loader_init s at fits h = absurd (ground arith)
  setup_at-Reaches Stage.get_serialize_func s at fits h = absurd (ground arith)
  setup_at-Reaches Stage.mem_channel_write_new s at fits h = absurd (ground arith)
  setup_at-Reaches Stage.mem_channel_write_init s at fits h = absurd (ground arith)
  setup_at-Reaches Stage.mem_channel_read_new s at fits h = absurd (ground arith)
  setup_at-Reaches Stage.mem_channel_read_init s at fits h = absurd (ground arith)
  setup_at-Reaches Stage.serialize_write_new s at fits h = absurd (ground arith)
  setup_at-Reaches Stage.serialize_read_new s at fits h = absurd (ground arith)
  setup_at-Reaches Stage.serialize_write_init s at fits h = absurd (ground arith)
  setup_at-Reaches Stage.serialize_read_init s at fits h = absurd (ground arith)
  setup_at-Reaches Stage.valid s at fits h = absurd (ground arith)
  setup_at-Reaches Stage.invalid s at fits h = absurd (ground arith)

  mark_valid-unfinished :
      (stage : Stage) (s : Setup) → unfinished stage ≡ true → mark_valid o stage s ≡ s
  mark_valid-unfinished Stage.serialize_read_init s h = absurd (ground arith)
  mark_valid-unfinished Stage.clean s h = refl
  mark_valid-unfinished Stage.lock_alloc s h = refl
  mark_valid-unfinished Stage.mutex_new s h = refl
  mark_valid-unfinished Stage.mutex_init s h = refl
  mark_valid-unfinished Stage.push_cond_new s h = refl
  mark_valid-unfinished Stage.push_cond_init s h = refl
  mark_valid-unfinished Stage.mem_lock_alloc s h = refl
  mark_valid-unfinished Stage.mem_lock_new s h = refl
  mark_valid-unfinished Stage.mem_lock_init s h = refl
  mark_valid-unfinished Stage.dynamic_loader_new s h = refl
  mark_valid-unfinished Stage.dynamic_loader_init s h = refl
  mark_valid-unfinished Stage.get_serialize_func s h = refl
  mark_valid-unfinished Stage.mem_channel_write_new s h = refl
  mark_valid-unfinished Stage.mem_channel_write_init s h = refl
  mark_valid-unfinished Stage.mem_channel_read_new s h = refl
  mark_valid-unfinished Stage.mem_channel_read_init s h = refl
  mark_valid-unfinished Stage.serialize_write_new s h = refl
  mark_valid-unfinished Stage.serialize_read_new s h = refl
  mark_valid-unfinished Stage.serialize_write_init s h = refl
  mark_valid-unfinished Stage.misc_init s h = refl
  mark_valid-unfinished Stage.size_init s h = refl
  mark_valid-unfinished Stage.element_memory_alloc s h = refl
  mark_valid-unfinished Stage.mem_channel_write_open s h = refl
  mark_valid-unfinished Stage.mem_channel_read_open s h = refl
  mark_valid-unfinished Stage.valid s h = refl
  mark_valid-unfinished Stage.invalid s h = refl

  -- The mark for a queue that is set up.
  mark_valid-Reaches :
      (status : Status) (s : Setup)
      → Reaches FilledAt refused unfinished Stage.serialize_read_init (status, s)
      → Reaches FilledAt refused unfinished Stage.valid (status, mark_valid o s.stage s)
  mark_valid-Reaches status s (inv, inl (done, at)) =
      subst
        (λ st.
          FilledAt st s
          → Reaches FilledAt refused unfinished Stage.valid (status, mark_valid o st s))
        (sym at)
        (λ h. (
          record {
            balanced = step _ _ _ _ Stage.serialize_read_init Stage.valid refl h.balanced;
            sized = h.sized;
          },
          inl (done, refl),
        ))
        inv
  mark_valid-Reaches status s (inv, inr (failed, rest, why)) =
      subst (λ s₁. Reaches FilledAt refused unfinished Stage.valid (status, s₁))
        (sym (mark_valid-unfinished s.stage s rest)) (inv, inr (failed, rest, why))

-- PQueue_setupElement of a queue that PQueue_init has prepared, or that an earlier call left at a stage
-- from which one can go on, returns. It succeeds and the queue is valid, or it fails since a call that
-- it makes failed; in both cases the queue holds exactly what it has at its stage, and its block has
-- room for all slots once the element's size is known. The size of such a block must be in the range of
-- BaseI32.
pub setup_element-Reaches :
    (o : Outcomes) (s : Setup)
    → startable s.stage ≡ true
    → BlockFits o.calc_size s.max_length
    → FilledAt s.stage s
    → Returns (setup_element o s) (Reaches FilledAt (element_refused o) unfinished Stage.valid)
unfolding setup_element
setup_element-Reaches o s at fits h =
    let (r, run, reaches) =
      setup_at-Reaches o (element_refused o) (element_refused-Blames o) s.stage s at fits h in
    rw run
      (_, refl, mark_valid-Reaches o (element_refused o) (element_refused-Blames o) r.0 r.1 reaches)
