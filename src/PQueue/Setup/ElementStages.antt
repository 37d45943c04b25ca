-- ===== src/PQueue/Setup/ElementStages.antt =====
-- The stages that PQueue_setupElement of src/PQueue.c runs, one after the other.
use tool_boslib.Base.{
  wrap-InWord, ◌*◌, ◌<◌, ◌^◌, pos, ℕ, ◌*◌, ◌≡◌, refl, List, [], ◌∷◌, Bool, true, false, ◌&&◌, not,
  arith, Returns, inl, inr, Bool-cases, pos, Option, none, some,
}
use tool_boslib.PQueue.{Status, Stage}
use tool_boslib.PQueue.Setup.{
  Setup, Resource, Outcomes, enter, channel_write_open, serialize_write_ready, calc_size,
  calc_size_ready, calc_size_open,
}
use tool_boslib.PQueue.Setup.Channels.{
  init_io_channel, case_channel_write_open, case_serialize_write_init, case_channel_read_open,
}
use tool_boslib.PQueue.Setup.Calls.{init_size, init_element_memory, measured, borrow}
use tool_boslib.PQueue.Setup.Held.{Balanced, borrow-Balanced}
use tool_boslib.PQueue.Setup.Ready.{Reaches, not_ok, is_ok, step}

-- From `size_init` on the block has room for all slots.
abbrev pub SizedAt : Stage → Setup → Type 0
SizedAt Stage.misc_init s = Unit
SizedAt _ s = s.element_memory_size ≡ pos (s.max_element_size * s.max_length)

-- The queue holds what it has at its stage, and its block has the right size.
pub record FilledAt (stage : Stage) (s : Setup) : Type 0 where
  pub balanced : Balanced s.max_length s.has_loader stage s.acquired s.released
  pub sized : SizedAt stage s

-- Where `setup_element` can start, and where a call of it that fails leaves the queue. From the last
-- one no further call goes on.
abbrev pub startable : Stage → Bool
startable Stage.misc_init = true
startable Stage.size_init = true
startable Stage.element_memory_alloc = true
startable Stage.mem_channel_write_open = true
startable Stage.mem_channel_read_open = true
startable _ = false

abbrev pub unfinished : Stage → Bool
unfinished Stage.serialize_write_init = true
unfinished stage = startable stage

-- The serializer counted without an error.
abbrev is_some : Option ℕ → Bool
is_some (some size) = true
is_some none = false

-- Some call that `setup_element` makes failed.
pub element_refused : Outcomes → Bool
element_refused o = not (
    o.new_calc_size
    && o.init_calc_size
    && o.open_calc_size
    && is_some o.calc_size
    && o.alloc_memory
    && o.open_write
    && o.open_read
    && o.init_serialize_write
    && o.init_serialize_read)

-- A block for all slots has a size in the range of BaseI32.
abbrev pub BlockFits : Option ℕ → ℕ → Type 0
BlockFits none n = Unit
BlockFits (some size) n = size * n < 2 ^ 31

-- `refused` holds if one of these calls fails.
pub record Blames (o : Outcomes) (refused : Bool) : Type 0 where
  new_calc_size : o.new_calc_size ≡ false → refused ≡ true
  init_calc_size : o.init_calc_size ≡ false → refused ≡ true
  open_calc_size : o.open_calc_size ≡ false → refused ≡ true
  alloc_memory : o.alloc_memory ≡ false → refused ≡ true
  open_write : o.open_write ≡ false → refused ≡ true
  open_read : o.open_read ≡ false → refused ≡ true
  init_serialize_write : o.init_serialize_write ≡ false → refused ≡ true
  init_serialize_read : o.init_serialize_read ≡ false → refused ≡ true
  no_size : is_some o.calc_size ≡ false → refused ≡ true

pub element_refused-Blames : (o : Outcomes) → Blames o (element_refused o)
unfolding element_refused
element_refused-Blames o = record {
  new_calc_size = λ h. ground arith;
  init_calc_size = λ h. ground arith;
  open_calc_size = λ h. ground arith;
  alloc_memory = λ h. ground arith;
  open_write = λ h. ground arith;
  open_read = λ h. ground arith;
  init_serialize_write = λ h. ground arith;
  init_serialize_read = λ h. ground arith;
  no_size = λ h. ground arith;
}

module _ (o : Outcomes) (refused : Bool) (blame : Blames o refused) where
  -- A stage that is done, and one that failed.
  arrives :
      (s : Setup)
      → Balanced s.max_length s.has_loader s.stage s.acquired s.released
      → SizedAt s.stage s
      → Reaches FilledAt refused unfinished s.stage (Status.ok, s)
  arrives s b e = (record { balanced = b; sized = e }, inl (refl, refl))

  stops :
      (status : Status) (goal : Stage) (s : Setup)
      → is_ok status ≡ false
      → unfinished s.stage ≡ true
      → Balanced s.max_length s.has_loader s.stage s.acquired s.released
      → SizedAt s.stage s
      → refused ≡ true
      → Reaches FilledAt refused unfinished goal (status, s)
  stops status goal s bad rests b e why =
      (record { balanced = b; sized = e }, inr (not_ok status bad, rests, why))

  write_init-Reaches :
      (s : Setup)
      → FilledAt Stage.serialize_write_init s
      → Returns
          (case_serialize_write_init o (record s { stage = Stage.serialize_write_init }))
          (Reaches FilledAt refused unfinished Stage.serialize_read_init)
  write_init-Reaches s h = elim (Bool-cases o.init_serialize_read) [
    | inl there ↦ rw there (
      _,
      refl,
      arrives _ (step _ _ _ _ Stage.serialize_write_init Stage.serialize_read_init refl h.balanced)
          h.sized,
    )
    | inr missing ↦
        rw missing
          (_, refl, stops _ _ _ refl refl (h.balanced) h.sized (blame.init_serialize_read missing))
  ]

  pub read_open-Reaches :
      (s : Setup)
      → FilledAt Stage.mem_channel_read_open s
      → Returns
          (case_channel_read_open o (record s { stage = Stage.mem_channel_read_open }))
          (Reaches FilledAt refused unfinished Stage.serialize_read_init)
  read_open-Reaches s h = elim (Bool-cases o.init_serialize_write) [
    | inl there ↦ rw there (
        write_init-Reaches (enter Stage.serialize_write_init (serialize_write_ready ∷ []) s)
          (record {
            balanced =
                step _ _ _ _ Stage.mem_channel_read_open Stage.serialize_write_init refl h.balanced;
            sized = h.sized;
          }))
    | inr missing ↦
        rw missing
          (_, refl, stops _ _ _ refl refl (h.balanced) h.sized (blame.init_serialize_write missing))
  ]

  pub write_open-Reaches :
      (s : Setup)
      → FilledAt Stage.mem_channel_write_open s
      → Returns
          (case_channel_write_open o (record s { stage = Stage.mem_channel_write_open }))
          (Reaches FilledAt refused unfinished Stage.mem_channel_read_open)
  write_open-Reaches s h = elim (Bool-cases o.open_read) [
    | inl there ↦ rw there (
      _,
      refl,
      arrives _
          (step _ _ _ _ Stage.mem_channel_write_open Stage.mem_channel_read_open refl h.balanced)
          h.sized,
    )
    | inr missing ↦
        rw missing (_, refl, stops _ _ _ refl refl (h.balanced) h.sized (blame.open_read missing))
  ]

  pub channel-Reaches :
      (s : Setup)
      → FilledAt Stage.element_memory_alloc s
      → Returns
          (init_io_channel o Stage.element_memory_alloc
            (record s { stage = Stage.element_memory_alloc }))
          (Reaches FilledAt refused unfinished Stage.mem_channel_read_open)
  channel-Reaches s h = elim (Bool-cases o.open_write) [
    | inl there ↦ rw there (
        write_open-Reaches (enter Stage.mem_channel_write_open (channel_write_open ∷ []) s)
          (record {
            balanced =
                step _ _ _ _ Stage.element_memory_alloc Stage.mem_channel_write_open refl
                  h.balanced;
            sized = h.sized;
          }))
    | inr missing ↦
        rw missing (_, refl, stops _ _ _ refl refl (h.balanced) h.sized (blame.open_write missing))
  ]

  pub memory-Reaches :
      (s : Setup)
      → FilledAt Stage.size_init s
      → Returns
          (init_element_memory o Stage.size_init (record s { stage = Stage.size_init }))
          (Reaches FilledAt refused unfinished Stage.element_memory_alloc)
  memory-Reaches s h = elim (Bool-cases o.alloc_memory) [
    | inl there ↦ rw there (
      _,
      refl,
      arrives _ (step _ _ _ _ Stage.size_init Stage.element_memory_alloc refl h.balanced) h.sized,
    )
    | inr missing ↦
        rw missing
          (_, refl, stops _ _ _ refl refl (h.balanced) h.sized (blame.alloc_memory missing))
  ]

  measured-Reaches :
      (size : Option ℕ) (s : Setup)
      → (is_some size ≡ false → refused ≡ true)
      → BlockFits size s.max_length
      → FilledAt Stage.misc_init s
      → Reaches FilledAt refused unfinished Stage.size_init
          (measured o size (record s { stage = Stage.misc_init }))
  measured-Reaches (some size) s why fits h = (
    record {
      balanced = step _ _ _ _ Stage.misc_init Stage.size_init refl h.balanced;
      sized = wrap-InWord 32 (pos (size * s.max_length)) (omega (arith, fits));
    },
    inl (refl, refl),
  )
  measured-Reaches none s why fits h =
      (record { balanced = h.balanced; sized = tt }, inr (not_ok _ refl, refl, why refl))

  -- What a failed call borrowed is released again.
  borrowed :
      (rs : List Resource) (s : Setup)
      → FilledAt Stage.misc_init s
      → FilledAt Stage.misc_init (borrow rs s)
  borrowed rs s h = record { balanced = borrow-Balanced _ _ _ rs _ _ h.balanced; sized = tt }

  pub size-Reaches :
      (s : Setup)
      → BlockFits o.calc_size s.max_length
      → FilledAt Stage.misc_init s
      → Returns
          (init_size o Stage.misc_init (record s { stage = Stage.misc_init }))
          (Reaches FilledAt refused unfinished Stage.size_init)
  size-Reaches s fits h = elim (Bool-cases o.new_calc_size) [
    | inr missing ↦
        rw missing (_, refl, stops _ _ _ refl refl (h.balanced) tt (blame.new_calc_size missing))
    | inl there ↦ rw there (elim (Bool-cases o.init_calc_size) [
      | inr missing ↦ rw missing (
        _,
        refl,
        stops _ _ _ refl refl ((borrowed (calc_size ∷ []) s h).balanced) tt
            (blame.init_calc_size missing),
      )
      | inl ready ↦ rw ready (elim (Bool-cases o.open_calc_size) [
        | inr missing ↦ rw missing (
          _,
          refl,
          stops _ _ _ refl refl ((borrowed (calc_size_ready ∷ calc_size ∷ []) s h).balanced) tt
              (blame.open_calc_size missing),
        )
        | inl opened ↦ rw opened (
          _,
          refl,
          measured-Reaches o.calc_size
              (borrow (calc_size_open ∷ calc_size_ready ∷ calc_size ∷ []) s) blame.no_size fits
              (borrowed (calc_size_open ∷ calc_size_ready ∷ calc_size ∷ []) s h),
        )
      ])
    ])
  ]
