-- ===== src/PQueue/Setup/Calls.antt =====
-- PQueue_init and PQueue_setupElement of src/PQueue.c, with the stages that only one of them runs.
use tool_boslib.Base.{
  wrap, ℕ, ◌*◌, List, [], ◌∷◌, ◌++◌, Bool, if◌then◌else◌, pos, negsuc, Option, none, some, Run, ok,
  exit, ◌>>=◌,
}
use tool_boslib.PQueue.{Status, Stage}
use tool_boslib.PQueue.Setup.{
  Setup, Resource, Outcomes, enter, proceed, zeroed, init_mutex, init_mem_lock, init_dynamic_loader,
  calc_size, calc_size_ready, calc_size_open, element_memory,
}
use tool_boslib.PQueue.Setup.Channels.{init_io_channel, init_serialize}

abbrev pub init_misc : Stage → Setup → Run (Status × Setup)
init_misc Stage.serialize_read_new s = ok (
  Status.ok,
  enter Stage.misc_init []
      (record s { num_elements = 0; head = 0; tail = 0; element_memory_size = negsuc 0 }),
)
init_misc _ s = ok (Status.ok, s)

-- Resources that the call has released again when it ends.
abbrev pub borrow : List Resource → Setup → Setup
borrow rs s = record s { acquired = rs ++ s.acquired; released = rs ++ s.released }

module _ (o : Outcomes) where
  -- The serializer that only counts gives the size of the element, or `none` for an error. The product
  -- of two BaseI32 wraps where C leaves an overflow undefined.
  abbrev pub measured : Option ℕ → Setup → Status × Setup
  measured (some size) s = (
    Status.ok,
    enter Stage.size_init [] (record s {
      max_element_size = size;
      element_memory_size = wrap 32 (pos (size * s.max_length));
    }),
  )
  measured none s = (Status.calc_size_failed, s)

  abbrev pub init_size : Stage → Setup → Run (Status × Setup)
  init_size Stage.misc_init s =
      if o.new_calc_size
      then if o.init_calc_size
        then if o.open_calc_size
          then ok
              (measured o.calc_size (borrow (calc_size_open ∷ calc_size_ready ∷ calc_size ∷ []) s))
          else ok
              (Status.open_calc_size_serializer_failed, borrow (calc_size_ready ∷ calc_size ∷ []) s)
        else ok (Status.init_calc_size_serializer_failed, borrow (calc_size ∷ []) s)
      else ok (Status.alloc_mem_failed, s)
  init_size _ s = ok (Status.ok, s)

  abbrev pub init_element_memory : Stage → Setup → Run (Status × Setup)
  init_element_memory Stage.size_init s = ok (
      if o.alloc_memory
      then (Status.ok, enter Stage.element_memory_alloc (element_memory ∷ []) s)
      else (Status.alloc_mem_failed, s))
  init_element_memory _ s = ok (Status.ok, s)

  -- The cases of the `switch` of PQueue_init, the last one first.
  unfoldable pub from_serialize : Setup → Run (Status × Setup)
  from_serialize s = do r ← init_serialize o s.stage s; proceed r λ s₁. init_misc s₁.stage s₁

  unfoldable pub from_io_channel : Setup → Run (Status × Setup)
  from_io_channel s = do r ← init_io_channel o s.stage s; proceed r from_serialize

  unfoldable pub from_dynamic_loader : Bool → Setup → Run (Status × Setup)
  from_dynamic_loader with_lib s = do
    r ← init_dynamic_loader o with_lib s.stage s
    proceed r from_io_channel

  unfoldable pub from_mem_lock : ℕ → Bool → Setup → Run (Status × Setup)
  from_mem_lock max_length with_lib s = do
    r ← init_mem_lock o max_length s
    proceed r (from_dynamic_loader with_lib)

  unfoldable pub from_mutex : ℕ → Bool → Setup → Run (Status × Setup)
  from_mutex max_length with_lib s = do
    r ← init_mutex o Stage.clean (zeroed s)
    proceed r (from_mem_lock max_length with_lib)

  unfoldable pub init_at : ℕ → Bool → Stage → Setup → Run (Status × Setup)
  init_at max_length with_lib Stage.invalid s = from_mutex max_length with_lib s
  init_at max_length with_lib Stage.clean s = from_mutex max_length with_lib s
  init_at max_length with_lib Stage.lock_alloc s = from_mutex max_length with_lib s
  init_at max_length with_lib Stage.mutex_new s = from_mutex max_length with_lib s
  init_at max_length with_lib Stage.mutex_init s = from_mutex max_length with_lib s
  init_at max_length with_lib Stage.push_cond_new s = from_mutex max_length with_lib s
  init_at max_length with_lib Stage.push_cond_init s = from_mem_lock max_length with_lib s
  init_at max_length with_lib Stage.mem_lock_alloc s = from_mem_lock max_length with_lib s
  init_at max_length with_lib Stage.mem_lock_new s = from_mem_lock max_length with_lib s
  init_at max_length with_lib Stage.mem_lock_init s = from_dynamic_loader with_lib s
  init_at max_length with_lib Stage.dynamic_loader_new s = from_dynamic_loader with_lib s
  init_at max_length with_lib Stage.dynamic_loader_init s = from_dynamic_loader with_lib s
  init_at max_length with_lib Stage.get_serialize_func s = from_io_channel s
  init_at max_length with_lib Stage.mem_channel_write_new s = from_io_channel s
  init_at max_length with_lib Stage.mem_channel_write_init s = from_io_channel s
  init_at max_length with_lib Stage.mem_channel_read_new s = from_io_channel s
  init_at max_length with_lib Stage.mem_channel_read_init s = from_serialize s
  init_at max_length with_lib Stage.serialize_write_new s = from_serialize s
  init_at max_length with_lib Stage.serialize_read_new s = init_misc s.stage s
  init_at max_length with_lib Stage.valid s = ok (Status.already_setup, s)
  init_at max_length with_lib _ s = exit

  unfoldable pub init : ℕ → Bool → Setup → Run (Status × Setup)
  unfolding init_at from_mutex from_mem_lock from_dynamic_loader from_io_channel from_serialize
  init max_length with_lib s = init_at max_length with_lib s.stage s

  -- The cases of the `switch` of PQueue_setupElement, the last one first.
  unfoldable pub element_io_channel : Setup → Run (Status × Setup)
  element_io_channel s = do
    r ← init_io_channel o s.stage s
    proceed r λ s₁. init_serialize o s₁.stage s₁

  unfoldable pub element_memory_from : Setup → Run (Status × Setup)
  element_memory_from s = do r ← init_element_memory s.stage s; proceed r element_io_channel

  unfoldable pub element_size : Setup → Run (Status × Setup)
  element_size s = do r ← init_size s.stage s; proceed r element_memory_from

  unfoldable pub setup_at : Stage → Setup → Run (Status × Setup)
  setup_at Stage.misc_init s = element_size s
  setup_at Stage.size_init s = element_memory_from s
  setup_at Stage.element_memory_alloc s = element_io_channel s
  setup_at Stage.mem_channel_write_open s = element_io_channel s
  setup_at Stage.mem_channel_read_open s = init_serialize o s.stage s
  setup_at Stage.serialize_write_new s = init_serialize o s.stage s
  setup_at Stage.valid s = ok (Status.already_setup, s)
  setup_at _ s = exit

  -- `if( self->valid == PQueue_serializeReadInit ) self->valid = PQUEUE_VALID;`
  abbrev pub mark_valid : Stage → Setup → Setup
  mark_valid Stage.serialize_read_init s = record s { stage = Stage.valid }
  mark_valid _ s = s

  unfoldable pub setup_element : Setup → Run (Status × Setup)
  unfolding setup_at element_size element_memory_from element_io_channel
  setup_element s = do (status, s₁) ← setup_at s.stage s; ok (status, mark_valid s₁.stage s₁)
