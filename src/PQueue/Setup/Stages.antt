-- ===== src/PQueue/Setup/Stages.antt =====
-- The stages that PQueue_init of src/PQueue.c runs, one after the other.
use tool_boslib.Base.{
  ℕ, zero, suc, ◌+◌, ◌≡◌, refl, sym, ap, List, [], ◌∷◌, ◌++◌, Bool, true, false, ◌&&◌, not, arith,
  ok, Returns, inl, inr, Bool-cases, if◌then◌else◌,
}
use tool_boslib.PQueue.{Status, Stage}
use tool_boslib.PQueue.Setup.{
  Setup, Resource, Outcomes, zeroed, enter, each, new_locks, num_mutexes, init_mutex, init_mem_lock,
  init_dynamic_loader, case_dynamic_loader_init, case_dynamic_loader_new, mutex, mem_lock,
  loader_ready, channel_write, channel_write_ready,
}
use tool_boslib.PQueue.Setup.Channels.{init_io_channel, init_serialize, case_channel_write_init}
use tool_boslib.PQueue.Setup.Calls.{init_misc}
use tool_boslib.PQueue.Setup.Held.{Balanced, held, enter-Balanced}
use tool_boslib.PQueue.Setup.Ready.{HasMemory, ReadyAt, Reaches, not_ok, is_ok, early, climb, step}

-- Where a call of `init` that fails leaves the queue, and where the next one can go on.
abbrev pub resumable : Stage → Bool
resumable Stage.invalid = true
resumable Stage.clean = true
resumable Stage.push_cond_init = true
resumable Stage.dynamic_loader_new = true
resumable Stage.dynamic_loader_init = true
resumable Stage.get_serialize_func = true
resumable Stage.mem_channel_write_init = true
resumable _ = false

-- Some call that `init` makes failed.
pub init_refused : Outcomes → Bool
init_refused o = not (
    o.alloc_locks && o.alloc_mem_locks && o.init_loader && o.get_symbol && o.new_channel_write
    && o.new_channel_read)

-- `refused` holds if one of these calls fails.
pub record Blames (o : Outcomes) (refused : Bool) : Type 0 where
  alloc_locks : o.alloc_locks ≡ false → refused ≡ true
  alloc_mem_locks : o.alloc_mem_locks ≡ false → refused ≡ true
  init_loader : o.init_loader ≡ false → refused ≡ true
  get_symbol : o.get_symbol ≡ false → refused ≡ true
  new_channel_write : o.new_channel_write ≡ false → refused ≡ true
  new_channel_read : o.new_channel_read ≡ false → refused ≡ true

pub init_refused-Blames : (o : Outcomes) → Blames o (init_refused o)
unfolding init_refused
init_refused-Blames o = record {
  alloc_locks = λ h. ground arith;
  alloc_mem_locks = λ h. ground arith;
  init_loader = λ h. ground arith;
  get_symbol = λ h. ground arith;
  new_channel_write = λ h. ground arith;
  new_channel_read = λ h. ground arith;
}

new_locks-each :
    (good : ℕ → Bool) (f : ℕ → Resource) (n i : ℕ)
    → ((j : ℕ) → good j ≡ true)
    → new_locks good f n i ≡ ok (each f n i)
unfolding new_locks
new_locks-each good f zero i h = refl
new_locks-each good f (suc n) i h = rw (h i, new_locks-each good f n (i + 1) h) refl

-- A queue at the first stage holds nothing, whatever its length and its loader.
clean-ReadyAt : (s : Setup) → ReadyAt Stage.clean s → ReadyAt Stage.clean (zeroed s)
unfolding Balanced
clean-ReadyAt s h = record { balanced = h.balanced; no_loader = refl }

pub invalid-ReadyAt : (s : Setup) → ReadyAt Stage.invalid s → ReadyAt Stage.clean s
unfolding Balanced
invalid-ReadyAt s h = record { balanced = h.balanced; no_loader = h.no_loader }

module _ (o : Outcomes) (memory : HasMemory o) (refused : Bool) (blame : Blames o refused) where
  -- A stage that is done, and one that failed.
  arrives :
      (s : Setup)
      → Balanced s.max_length s.has_loader s.stage s.acquired s.released
      → (early s.stage && s.has_loader) ≡ false
      → Reaches ReadyAt refused resumable s.stage (Status.ok, s)
  arrives s b e = (record { balanced = b; no_loader = e }, inl (refl, refl))

  stops :
      (status : Status) (goal : Stage) (s : Setup)
      → is_ok status ≡ false
      → resumable s.stage ≡ true
      → Balanced s.max_length s.has_loader s.stage s.acquired s.released
      → (early s.stage && s.has_loader) ≡ false
      → refused ≡ true
      → Reaches ReadyAt refused resumable goal (status, s)
  stops status goal s bad rests b e why =
      (record { balanced = b; no_loader = e }, inr (not_ok status bad, rests, why))

  pub mutex-Reaches :
      (s : Setup)
      → ReadyAt Stage.clean s
      → Returns
          (init_mutex o Stage.clean (zeroed s))
          (Reaches ReadyAt refused resumable Stage.push_cond_init)
  mutex-Reaches s h =
      let start = clean-ReadyAt s h in
      elim (Bool-cases o.alloc_locks) [
        | inl there ↦
            rw (there, new_locks-each o.new_mutex mutex num_mutexes 0 memory.mutexes, memory.cond)
              (
                _,
                refl,
                arrives _ (climb _ _ _ _ 5 Stage.clean Stage.push_cond_init refl start.balanced)
                    refl,
              )
        | inr missing ↦
            rw missing (_, refl, (start, inr (not_ok _ refl, refl, blame.alloc_locks missing)))
      ]

  -- A queue without slots so far has the same resources as one with `n`.
  slots-Balanced :
      (n m : ℕ) (b : Bool) (acquired released : List Resource)
      → Balanced n b Stage.push_cond_init acquired released
      → Balanced m b Stage.push_cond_init acquired released
  unfolding Balanced
  slots-Balanced n m b acquired released h = h

  pub mem_lock-Reaches :
      (n : ℕ) (s : Setup)
      → ReadyAt Stage.push_cond_init s
      → Returns
          (init_mem_lock o n (record s { stage = Stage.push_cond_init }))
          (Reaches ReadyAt refused resumable Stage.mem_lock_init)
  mem_lock-Reaches n s h =
      let start = slots-Balanced _ n _ _ _ h.balanced in
      elim (Bool-cases o.alloc_mem_locks) [
        | inl there ↦
            rw (there, new_locks-each o.new_mem_lock mem_lock n 0 memory.mem_locks)
              (
                _,
                refl,
                arrives _
                    (step n s.has_loader _ _ Stage.mem_lock_new Stage.mem_lock_init refl (
                      step n s.has_loader _ _ Stage.mem_lock_alloc Stage.mem_lock_new refl (
                        step n s.has_loader _ _ Stage.push_cond_init Stage.mem_lock_alloc refl
                          start)))
                    h.no_loader,
              )
        | inr missing ↦
            rw missing
              (_, refl, stops _ _ _ refl refl (start) h.no_loader (blame.alloc_mem_locks missing))
      ]

  pub channel_write_init-Reaches :
      (s : Setup)
      → ReadyAt Stage.mem_channel_write_init s
      → Returns
          (case_channel_write_init o (record s { stage = Stage.mem_channel_write_init }))
          (Reaches ReadyAt refused resumable Stage.mem_channel_read_init)
  channel_write_init-Reaches s h = elim (Bool-cases o.new_channel_read) [
    | inl there ↦ rw there (
      _,
      refl,
      arrives _
          (climb _ _ _ _ 2 Stage.mem_channel_write_init Stage.mem_channel_read_init refl h.balanced)
          refl,
    )
    | inr missing ↦
        rw missing
          (_, refl, stops _ _ _ refl refl (h.balanced) refl (blame.new_channel_read missing))
  ]

  pub serialize-Reaches :
      (s : Setup)
      → ReadyAt Stage.mem_channel_read_init s
      → Returns
          (init_serialize o Stage.mem_channel_read_init
            (record s { stage = Stage.mem_channel_read_init }))
          (Reaches ReadyAt refused resumable Stage.serialize_read_new)
  serialize-Reaches s h =
      rw (memory.serialize_write, memory.serialize_read)
        (
          _,
          refl,
          arrives _
              (climb _ _ _ _ 2 Stage.mem_channel_read_init Stage.serialize_read_new refl h.balanced)
              refl,
        )

  pub misc-Reaches :
      (s : Setup)
      → ReadyAt Stage.serialize_read_new s
      → Returns
          (init_misc Stage.serialize_read_new (record s { stage = Stage.serialize_read_new }))
          (Reaches ReadyAt refused resumable Stage.misc_init)
  misc-Reaches s h = (
    _,
    refl,
    arrives _ (step _ _ _ _ Stage.serialize_read_new Stage.misc_init refl h.balanced) refl,
  )

  loader_step :
      (n : ℕ) (b : Bool) (acquired released : List Resource) (with_lib : Bool)
      → with_lib ≡ b
      → Balanced n b Stage.dynamic_loader_new acquired released
      → Balanced n b Stage.dynamic_loader_init
          ((if with_lib then loader_ready ∷ [] else []) ++ acquired)
          released
  loader_step n b acquired released with_lib e =
      enter-Balanced n b Stage.dynamic_loader_new Stage.dynamic_loader_init
        (if with_lib then loader_ready ∷ [] else []) acquired released
        (ap (λ c. (if c then loader_ready ∷ [] else []) ++ held n b Stage.dynamic_loader_new)
          (sym e))

  no_loader_step :
      (n : ℕ) (b : Bool) (acquired released : List Resource)
      → false ≡ b
      → Balanced n b Stage.mem_lock_init acquired released
      → Balanced n b Stage.dynamic_loader_new acquired released
  no_loader_step n b acquired released e =
      enter-Balanced n b Stage.mem_lock_init Stage.dynamic_loader_new [] acquired released
        (ap (λ c. (if c then Resource.loader ∷ [] else []) ++ held n b Stage.mem_lock_init) (sym e))

  loaderless-Balanced :
      (n : ℕ) (b c : Bool) (acquired released : List Resource)
      → Balanced n b Stage.mem_lock_init acquired released
      → Balanced n c Stage.mem_lock_init acquired released
  unfolding Balanced
  loaderless-Balanced n b c acquired released h = h

  pub loader_init-Reaches :
      (s : Setup)
      → ReadyAt Stage.dynamic_loader_init s
      → Returns
          (case_dynamic_loader_init o (record s { stage = Stage.dynamic_loader_init }))
          (Reaches ReadyAt refused resumable Stage.get_serialize_func)
  loader_init-Reaches s h = elim (Bool-cases o.get_symbol) [
    | inl there ↦ rw there (
      _,
      refl,
      arrives _ (step _ _ _ _ Stage.dynamic_loader_init Stage.get_serialize_func refl h.balanced)
          refl,
    )
    | inr missing ↦
        rw missing (_, refl, stops _ _ _ refl refl (h.balanced) refl (blame.get_symbol missing))
  ]

  pub loader_new-Reaches :
      (with_lib : Bool) (s : Setup)
      → with_lib ≡ s.has_loader
      → ReadyAt Stage.dynamic_loader_new s
      → Returns
          (case_dynamic_loader_new o with_lib (record s { stage = Stage.dynamic_loader_new }))
          (Reaches ReadyAt refused resumable Stage.get_serialize_func)
  loader_new-Reaches true s e h = elim (Bool-cases o.init_loader) [
    | inl there ↦ rw there (
        loader_init-Reaches (enter Stage.dynamic_loader_init (loader_ready ∷ []) s)
          (record { balanced = loader_step _ _ _ _ true e h.balanced; no_loader = refl }))
    | inr missing ↦
        rw missing (_, refl, stops _ _ _ refl refl (h.balanced) refl (blame.init_loader missing))
  ]
  loader_new-Reaches false s e h =
      loader_init-Reaches s
        (record { balanced = loader_step _ _ _ _ false e h.balanced; no_loader = refl })

  -- With the same library, or none, as when the loader was made.
  pub loader-Reaches :
      (with_lib : Bool) (s : Setup)
      → ReadyAt Stage.mem_lock_init s
      → Returns
          (init_dynamic_loader o with_lib Stage.mem_lock_init
            (record s { stage = Stage.mem_lock_init }))
          (Reaches ReadyAt refused resumable Stage.get_serialize_func)
  loader-Reaches true s h = rw memory.loader (
      loader_new-Reaches true
        (enter Stage.dynamic_loader_new (Resource.loader ∷ []) (record s { has_loader = true }))
        refl
        (record {
          balanced =
              step s.max_length true _ _ Stage.mem_lock_init Stage.dynamic_loader_new refl
                (loaderless-Balanced _ _ true _ _ h.balanced);
          no_loader = refl;
        }))
  loader-Reaches false s h =
      loader_new-Reaches false s (sym h.no_loader) (record {
        balanced = no_loader_step _ _ _ _ (sym h.no_loader) h.balanced;
        no_loader = refl;
      })

  pub channel-Reaches :
      (s : Setup)
      → ReadyAt Stage.get_serialize_func s
      → Returns
          (init_io_channel o Stage.get_serialize_func
            (record s { stage = Stage.get_serialize_func }))
          (Reaches ReadyAt refused resumable Stage.mem_channel_read_init)
  channel-Reaches s h = elim (Bool-cases o.new_channel_write) [
    | inl there ↦ rw there (
        channel_write_init-Reaches
          (enter Stage.mem_channel_write_init (channel_write_ready ∷ channel_write ∷ []) s)
          (record {
            balanced =
                climb _ _ _ _ 2 Stage.get_serialize_func Stage.mem_channel_write_init refl
                  h.balanced;
            no_loader = refl;
          }))
    | inr missing ↦
        rw missing
          (_, refl, stops _ _ _ refl refl (h.balanced) refl (blame.new_channel_write missing))
  ]
