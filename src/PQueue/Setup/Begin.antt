-- ===== src/PQueue/Setup/Begin.antt =====
-- PQueue_init of src/PQueue.c: where it stops, and what the queue holds then.
use tool_boslib.Base.{ℕ, ◌≡◌, ◌≢◌, refl, Bool, true, arith, Returns, ◌⊎◌, inl, inr}
use tool_boslib.PQueue.{Stage}
use tool_boslib.PQueue.Setup.{Setup, Outcomes}
use tool_boslib.PQueue.Setup.Calls.{
  init, init_at, init_misc, from_mutex, from_mem_lock, from_dynamic_loader, from_io_channel,
  from_serialize,
}
use tool_boslib.PQueue.Setup.Ready.{HasMemory, ReadyAt, Reaches, proceed-Reaches}
use tool_boslib.PQueue.Setup.Stages.{
  resumable, init_refused, init_refused-Blames, invalid-ReadyAt, mutex-Reaches, mem_lock-Reaches,
  channel_write_init-Reaches, serialize-Reaches, misc-Reaches, loader_init-Reaches,
  loader_new-Reaches, loader-Reaches, channel-Reaches, Blames,
}

module _ (o : Outcomes) (memory : HasMemory o) (refused : Bool) (blame : Blames o refused) where
  -- What is left of `init` from each stage on.
  from_serialize-Reaches :
      (s : Setup)
      → ReadyAt Stage.mem_channel_read_init s
      → Returns
          (from_serialize o (record s { stage = Stage.mem_channel_read_init }))
          (Reaches ReadyAt refused resumable Stage.misc_init)
  unfolding from_serialize
  from_serialize-Reaches s h =
      proceed-Reaches ReadyAt refused resumable Stage.serialize_read_new Stage.misc_init _
        (λ s₁. init_misc s₁.stage s₁) (serialize-Reaches o memory refused blame s h)
        (misc-Reaches o memory refused blame)

  from_io_channel-Reaches :
      (s : Setup)
      → ReadyAt Stage.get_serialize_func s
      → Returns
          (from_io_channel o (record s { stage = Stage.get_serialize_func }))
          (Reaches ReadyAt refused resumable Stage.misc_init)
  unfolding from_io_channel
  from_io_channel-Reaches s h =
      proceed-Reaches ReadyAt refused resumable Stage.mem_channel_read_init Stage.misc_init _
        (from_serialize o) (channel-Reaches o memory refused blame s h) from_serialize-Reaches

  from_mem_lock-Reaches :
      (n : ℕ) (with_lib : Bool) (s : Setup)
      → ReadyAt Stage.push_cond_init s
      → Returns
          (from_mem_lock o n with_lib (record s { stage = Stage.push_cond_init }))
          (Reaches ReadyAt refused resumable Stage.misc_init)
  unfolding from_mem_lock from_dynamic_loader
  from_mem_lock-Reaches n with_lib s h =
      proceed-Reaches ReadyAt refused resumable Stage.mem_lock_init Stage.misc_init _
        (from_dynamic_loader o with_lib) (mem_lock-Reaches o memory refused blame n s h)
        λ s₁ h₁.
          proceed-Reaches ReadyAt refused resumable Stage.get_serialize_func Stage.misc_init _
            (from_io_channel o) (loader-Reaches o memory refused blame with_lib s₁ h₁)
            from_io_channel-Reaches

  from_mutex-Reaches :
      (n : ℕ) (with_lib : Bool) (s : Setup)
      → ReadyAt Stage.clean s
      → Returns (from_mutex o n with_lib s) (Reaches ReadyAt refused resumable Stage.misc_init)
  unfolding from_mutex
  from_mutex-Reaches n with_lib s h =
      proceed-Reaches ReadyAt refused resumable Stage.push_cond_init Stage.misc_init _
        (from_mem_lock o n with_lib) (mutex-Reaches o memory refused blame s h)
        (from_mem_lock-Reaches n with_lib)

  init-go :
      (n : ℕ) (with_lib : Bool) (stage : Stage) (s : Setup)
      → resumable stage ≡ true
      → (stage ≢ Stage.dynamic_loader_new) ⊎ (with_lib ≡ s.has_loader)
      → ReadyAt stage s
      → Returns
          (init o n with_lib (record s { stage = stage }))
          (Reaches ReadyAt refused resumable Stage.misc_init)
  unfolding init init_at from_mutex from_dynamic_loader from_io_channel
  init-go n with_lib Stage.clean s rest lib h = from_mutex-Reaches n with_lib s h
  init-go n with_lib Stage.invalid s rest lib h =
      from_mutex-Reaches n with_lib s (invalid-ReadyAt s h)
  init-go n with_lib Stage.push_cond_init s rest lib h = from_mem_lock-Reaches n with_lib s h
  init-go n with_lib Stage.dynamic_loader_new s rest lib h =
      proceed-Reaches ReadyAt refused resumable Stage.get_serialize_func Stage.misc_init _
        (from_io_channel o)
        (loader_new-Reaches o memory refused blame with_lib s
          (elim lib [ inl other ↦ absurd (other refl) | inr e ↦ e ]) h)
        from_io_channel-Reaches
  init-go n with_lib Stage.dynamic_loader_init s rest lib h =
      proceed-Reaches ReadyAt refused resumable Stage.get_serialize_func Stage.misc_init _
        (from_io_channel o) (loader_init-Reaches o memory refused blame s h) from_io_channel-Reaches
  init-go n with_lib Stage.get_serialize_func s rest lib h = from_io_channel-Reaches s h
  init-go n with_lib Stage.mem_channel_write_init s rest lib h =
      proceed-Reaches ReadyAt refused resumable Stage.mem_channel_read_init Stage.misc_init _
        (from_serialize o) (channel_write_init-Reaches o memory refused blame s h)
        from_serialize-Reaches
  init-go n with_lib Stage.lock_alloc s rest lib h = absurd (ground arith)
  init-go n with_lib Stage.mutex_new s rest lib h = absurd (ground arith)
  init-go n with_lib Stage.mutex_init s rest lib h = absurd (ground arith)
  init-go n with_lib Stage.push_cond_new s rest lib h = absurd (ground arith)
  init-go n with_lib Stage.mem_lock_alloc s rest lib h = absurd (ground arith)
  init-go n with_lib Stage.mem_lock_new s rest lib h = absurd (ground arith)
  init-go n with_lib Stage.mem_lock_init s rest lib h = absurd (ground arith)
  init-go n with_lib Stage.mem_channel_write_new s rest lib h = absurd (ground arith)
  init-go n with_lib Stage.mem_channel_read_new s rest lib h = absurd (ground arith)
  init-go n with_lib Stage.mem_channel_read_init s rest lib h = absurd (ground arith)
  init-go n with_lib Stage.mem_channel_write_open s rest lib h = absurd (ground arith)
  init-go n with_lib Stage.mem_channel_read_open s rest lib h = absurd (ground arith)
  init-go n with_lib Stage.serialize_write_new s rest lib h = absurd (ground arith)
  init-go n with_lib Stage.serialize_write_init s rest lib h = absurd (ground arith)
  init-go n with_lib Stage.serialize_read_new s rest lib h = absurd (ground arith)
  init-go n with_lib Stage.serialize_read_init s rest lib h = absurd (ground arith)
  init-go n with_lib Stage.misc_init s rest lib h = absurd (ground arith)
  init-go n with_lib Stage.size_init s rest lib h = absurd (ground arith)
  init-go n with_lib Stage.element_memory_alloc s rest lib h = absurd (ground arith)
  init-go n with_lib Stage.valid s rest lib h = absurd (ground arith)

-- PQueue_init of a queue that is new or that an earlier call left unfinished returns. It succeeds with
-- all stages up to misc_init done, or, since a call that it makes failed, it fails at a stage from
-- which another call can go on; in both cases the queue holds exactly what it has at its stage. The
-- calls that never give NULL must get their memory, and a call that goes on after the loader failed
-- must name a library exactly if the earlier one did.
pub init-Reaches :
    (o : Outcomes) (n : ℕ) (with_lib : Bool) (s : Setup)
    → HasMemory o
    → resumable s.stage ≡ true
    → (s.stage ≢ Stage.dynamic_loader_new) ⊎ (with_lib ≡ s.has_loader)
    → ReadyAt s.stage s
    → Returns (init o n with_lib s) (Reaches ReadyAt (init_refused o) resumable Stage.misc_init)
init-Reaches o n with_lib s memory =
    init-go o memory (init_refused o) (init_refused-Blames o) n with_lib s.stage s
