-- ===== src/PQueue/Setup/Channels.antt =====
-- PQueue_initIOChannel and PQueue_initSerialize of src/PQueue.c. Each has a first part, which
-- PQueue_init runs, and a second one, which PQueue_setupElement runs.
use tool_boslib.Base.{[], ◌∷◌, if◌then◌else◌, Run, ok, ◌>>◌, require}
use tool_boslib.PQueue.{Status, Stage}
use tool_boslib.PQueue.Setup.{
  Setup, Outcomes, enter, channel_write, channel_write_ready, channel_read, channel_read_ready,
  serialize_write, serialize_read, channel_write_open, channel_read_open, serialize_write_ready,
  serialize_read_ready,
}

module _ (o : Outcomes) where
  abbrev pub case_channel_read_new : Setup → Run (Status × Setup)
  case_channel_read_new s =
      ok (Status.ok, enter Stage.mem_channel_read_init (channel_read_ready ∷ []) s)

  abbrev pub case_channel_write_init : Setup → Run (Status × Setup)
  case_channel_write_init s =
      if o.new_channel_read
      then case_channel_read_new (enter Stage.mem_channel_read_new (channel_read ∷ []) s)
      else ok (Status.alloc_mem_failed, s)

  abbrev pub case_channel_write_new : Setup → Run (Status × Setup)
  case_channel_write_new s =
      case_channel_write_init (enter Stage.mem_channel_write_init (channel_write_ready ∷ []) s)

  abbrev pub case_get_serialize_func : Setup → Run (Status × Setup)
  case_get_serialize_func s =
      if o.new_channel_write
      then case_channel_write_new (enter Stage.mem_channel_write_new (channel_write ∷ []) s)
      else ok (Status.alloc_mem_failed, s)

  abbrev pub case_channel_write_open : Setup → Run (Status × Setup)
  case_channel_write_open s = ok (
      if o.open_read
      then (Status.ok, enter Stage.mem_channel_read_open (channel_read_open ∷ []) s)
      else (Status.open_mem_channel_failed, s))

  abbrev pub case_element_memory_alloc : Setup → Run (Status × Setup)
  case_element_memory_alloc s =
      if o.open_write
      then case_channel_write_open (enter Stage.mem_channel_write_open (channel_write_open ∷ []) s)
      else ok (Status.open_mem_channel_failed, s)

  abbrev pub init_io_channel : Stage → Setup → Run (Status × Setup)
  init_io_channel Stage.get_serialize_func s = case_get_serialize_func s
  init_io_channel Stage.mem_channel_write_new s = case_channel_write_new s
  init_io_channel Stage.mem_channel_write_init s = case_channel_write_init s
  init_io_channel Stage.mem_channel_read_new s = case_channel_read_new s
  init_io_channel Stage.element_memory_alloc s = case_element_memory_alloc s
  init_io_channel Stage.mem_channel_write_open s = case_channel_write_open s
  init_io_channel _ s = ok (Status.ok, s)

  abbrev pub case_serialize_write_new : Setup → Run (Status × Setup)
  case_serialize_write_new s = do
    require o.new_serialize_read
    ok (Status.ok, enter Stage.serialize_read_new (serialize_read ∷ []) s)

  abbrev pub case_channel_read_init : Setup → Run (Status × Setup)
  case_channel_read_init s = do
    require o.new_serialize_write
    case_serialize_write_new (enter Stage.serialize_write_new (serialize_write ∷ []) s)

  abbrev pub case_serialize_write_init : Setup → Run (Status × Setup)
  case_serialize_write_init s = ok (
      if o.init_serialize_read
      then (Status.ok, enter Stage.serialize_read_init (serialize_read_ready ∷ []) s)
      else (Status.init_serialize_failed, s))

  abbrev pub case_channel_read_open : Setup → Run (Status × Setup)
  case_channel_read_open s =
      if o.init_serialize_write
      then case_serialize_write_init
          (enter Stage.serialize_write_init (serialize_write_ready ∷ []) s)
      else ok (Status.init_serialize_failed, s)

  abbrev pub init_serialize : Stage → Setup → Run (Status × Setup)
  init_serialize Stage.mem_channel_read_init s = case_channel_read_init s
  init_serialize Stage.serialize_write_new s = case_serialize_write_new s
  init_serialize Stage.mem_channel_read_open s = case_channel_read_open s
  init_serialize Stage.serialize_write_init s = case_serialize_write_init s
  init_serialize _ s = ok (Status.ok, s)
