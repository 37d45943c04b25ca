-- ===== src/PQueue/Setup/Teardown.antt =====
-- PQueue_clear of src/PQueue.c and the functions that release what the stages of the set-up acquired.
use tool_boslib.Base.{List, [], ◌∷◌, ◌++◌, if◌then◌else◌, Run, ok, exit, blocked}
use tool_boslib.PQueue.{Stage}
use tool_boslib.PQueue.Setup.{
  Setup, Resource, num_mutexes, each, zeroed, lock_array, push_cond, push_cond_ready,
  mem_lock_array, loader, loader_ready, channel_write, channel_write_ready, channel_read,
  channel_read_ready, serialize_write, serialize_read, element_memory, channel_write_open,
  channel_read_open, serialize_write_ready, serialize_read_ready, mutex, mutex_ready, mem_lock,
  mem_lock_ready,
}

-- The resources are released, then the mark goes back to the stage before.
abbrev pub leave : Stage → List Resource → Setup → Setup
leave stage rs s = record s { stage = stage; released = rs ++ s.released }

abbrev pub free_lock_alloc : Setup → Setup
free_lock_alloc s = leave Stage.clean (lock_array ∷ []) s

abbrev pub free_mutex_new : Setup → Setup
free_mutex_new s = free_lock_alloc (leave Stage.lock_alloc (each mutex num_mutexes 0) s)

abbrev pub free_mutex_init : Setup → Setup
free_mutex_init s = free_mutex_new (leave Stage.mutex_new (each mutex_ready num_mutexes 0) s)

abbrev pub free_push_cond_new : Setup → Setup
free_push_cond_new s = free_mutex_init (leave Stage.mutex_init (push_cond ∷ []) s)

abbrev pub free_push_cond_init : Setup → Setup
free_push_cond_init s = free_push_cond_new (leave Stage.push_cond_new (push_cond_ready ∷ []) s)

abbrev pub clear_mutex : Stage → Setup → Setup
clear_mutex Stage.push_cond_init s = free_push_cond_init s
clear_mutex Stage.push_cond_new s = free_push_cond_new s
clear_mutex Stage.mutex_init s = free_mutex_init s
clear_mutex Stage.mutex_new s = free_mutex_new s
clear_mutex Stage.lock_alloc s = free_lock_alloc s
clear_mutex _ s = s

abbrev pub free_mem_lock_alloc : Setup → Setup
free_mem_lock_alloc s = leave Stage.push_cond_init (mem_lock_array ∷ []) s

abbrev pub free_mem_lock_new : Setup → Setup
free_mem_lock_new s =
    free_mem_lock_alloc (leave Stage.mem_lock_alloc (each mem_lock s.max_length 0) s)

abbrev pub free_mem_lock_init : Setup → Setup
free_mem_lock_init s =
    free_mem_lock_new (leave Stage.mem_lock_new (each mem_lock_ready s.max_length 0) s)

abbrev pub clear_mem_lock : Stage → Setup → Setup
clear_mem_lock Stage.mem_lock_init s = free_mem_lock_init s
clear_mem_lock Stage.mem_lock_new s = free_mem_lock_new s
clear_mem_lock Stage.mem_lock_alloc s = free_mem_lock_alloc s
clear_mem_lock _ s = s

abbrev pub free_loader_new : Setup → Setup
free_loader_new s = leave Stage.mem_lock_init (if s.has_loader then loader ∷ [] else []) s

abbrev pub free_loader_init : Setup → Setup
free_loader_init s =
    free_loader_new
      (leave Stage.dynamic_loader_new (if s.has_loader then loader_ready ∷ [] else []) s)

abbrev pub clear_dynamic_loader : Stage → Setup → Setup
clear_dynamic_loader Stage.get_serialize_func s =
    free_loader_init (leave Stage.dynamic_loader_init [] s)
clear_dynamic_loader Stage.dynamic_loader_init s = free_loader_init s
clear_dynamic_loader Stage.dynamic_loader_new s = free_loader_new s
clear_dynamic_loader _ s = s

abbrev pub free_write_open : Setup → Setup
free_write_open s = leave Stage.element_memory_alloc (channel_write_open ∷ []) s

abbrev pub free_write_new : Setup → Setup
free_write_new s = leave Stage.get_serialize_func (channel_write ∷ []) s

abbrev pub free_write_init : Setup → Setup
free_write_init s = free_write_new (leave Stage.mem_channel_write_new (channel_write_ready ∷ []) s)

abbrev pub free_read_new : Setup → Setup
free_read_new s = free_write_init (leave Stage.mem_channel_write_init (channel_read ∷ []) s)

abbrev pub clear_io_channel : Stage → Setup → Setup
clear_io_channel Stage.mem_channel_read_open s =
    free_write_open (leave Stage.mem_channel_write_open (channel_read_open ∷ []) s)
clear_io_channel Stage.mem_channel_write_open s = free_write_open s
clear_io_channel Stage.mem_channel_read_init s =
    free_read_new (leave Stage.mem_channel_read_new (channel_read_ready ∷ []) s)
clear_io_channel Stage.mem_channel_read_new s = free_read_new s
clear_io_channel Stage.mem_channel_write_init s = free_write_init s
clear_io_channel Stage.mem_channel_write_new s = free_write_new s
clear_io_channel _ s = s

abbrev pub free_serialize_write_init : Setup → Setup
free_serialize_write_init s = leave Stage.mem_channel_read_open (serialize_write_ready ∷ []) s

abbrev pub free_serialize_write_new : Setup → Setup
free_serialize_write_new s = leave Stage.mem_channel_read_init (serialize_write ∷ []) s

abbrev pub clear_serialize : Stage → Setup → Setup
clear_serialize Stage.serialize_read_init s =
    free_serialize_write_init (leave Stage.serialize_write_init (serialize_read_ready ∷ []) s)
clear_serialize Stage.serialize_write_init s = free_serialize_write_init s
clear_serialize Stage.serialize_read_new s =
    free_serialize_write_new (leave Stage.serialize_write_new (serialize_read ∷ []) s)
clear_serialize Stage.serialize_write_new s = free_serialize_write_new s
clear_serialize _ s = s

abbrev pub clear_misc : Stage → Setup → Setup
clear_misc Stage.misc_init s = leave Stage.serialize_read_new [] s
clear_misc _ s = s

abbrev pub clear_size : Stage → Setup → Setup
clear_size Stage.size_init s = leave Stage.misc_init [] s
clear_size _ s = s

abbrev pub clear_element_memory : Stage → Setup → Setup
clear_element_memory Stage.element_memory_alloc s = leave Stage.size_init (element_memory ∷ []) s
clear_element_memory _ s = s

-- The cases of the `switch` of PQueue_clear, the last one first.
abbrev pub down_mutex : Setup → Setup
down_mutex s = clear_mutex s.stage s

abbrev pub down_mem_lock : Setup → Setup
down_mem_lock s = down_mutex (clear_mem_lock s.stage s)

abbrev pub down_loader : Setup → Setup
down_loader s = down_mem_lock (clear_dynamic_loader s.stage s)

abbrev pub down_channel : Setup → Setup
down_channel s = down_loader (clear_io_channel s.stage s)

abbrev pub down_serialize : Setup → Setup
down_serialize s = down_channel (clear_serialize s.stage s)

abbrev pub down_misc : Setup → Setup
down_misc s = down_serialize (clear_misc s.stage s)

abbrev pub down_size : Setup → Setup
down_size s = down_misc (clear_size s.stage s)

abbrev pub down_memory : Setup → Setup
down_memory s = down_size (clear_element_memory s.stage s)

abbrev pub down_open : Setup → Setup
down_open s = down_memory (clear_io_channel s.stage s)

abbrev pub down_stream : Setup → Setup
down_stream s = down_open (clear_serialize s.stage s)

abbrev pub clear_at : Stage → Setup → Run Setup
clear_at Stage.serialize_read_init s = ok (down_stream s)
clear_at Stage.serialize_write_init s = ok (down_stream s)
clear_at Stage.mem_channel_read_open s = ok (down_open s)
clear_at Stage.mem_channel_write_open s = ok (down_open s)
clear_at Stage.element_memory_alloc s = ok (down_memory s)
clear_at Stage.size_init s = ok (down_size s)
clear_at Stage.misc_init s = ok (down_misc s)
clear_at Stage.serialize_read_new s = ok (down_serialize s)
clear_at Stage.serialize_write_new s = ok (down_serialize s)
clear_at Stage.mem_channel_read_init s = ok (down_channel s)
clear_at Stage.mem_channel_read_new s = ok (down_channel s)
clear_at Stage.mem_channel_write_init s = ok (down_channel s)
clear_at Stage.mem_channel_write_new s = ok (down_channel s)
clear_at Stage.get_serialize_func s = ok (down_loader s)
clear_at Stage.dynamic_loader_init s = ok (down_loader s)
clear_at Stage.dynamic_loader_new s = ok (down_loader s)
clear_at Stage.mem_lock_init s = ok (down_mem_lock s)
clear_at Stage.mem_lock_new s = ok (down_mem_lock s)
clear_at Stage.mem_lock_alloc s = ok (down_mem_lock s)
clear_at Stage.push_cond_init s = ok (down_mutex s)
clear_at Stage.push_cond_new s = ok (down_mutex s)
clear_at Stage.mutex_init s = ok (down_mutex s)
clear_at Stage.mutex_new s = ok (down_mutex s)
clear_at Stage.lock_alloc s = ok (down_mutex s)
clear_at _ s = exit

-- `if( self->valid == PQUEUE_VALID ) self->valid = PQueue_serializeReadInit;`
abbrev pub reopen : Stage → Setup → Setup
reopen Stage.valid s = record s { stage = Stage.serialize_read_init }
reopen _ s = s

abbrev wiped : Run Setup → Run Setup
wiped (ok s) = ok (record (zeroed s) { stage = Stage.invalid })
wiped exit = exit
wiped blocked = blocked

unfoldable pub clear : Setup → Run Setup
clear s = let s₁ = reopen s.stage s in wiped (clear_at s₁.stage s₁)
