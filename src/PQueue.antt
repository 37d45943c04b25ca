-- ===== src/PQueue.antt =====
-- src/PQueue.c and src/PQueue.h: the data of a bounded queue that stores its elements, serialized, in
-- slots of one block of memory.
pub mod Ring
pub mod Window
pub mod Fifo
pub mod Pop
pub mod Wait
pub mod Setup
mod Tests
use tool_boslib.Base.{ℕ, ◌<◌, ◌≡◌, List, length, get_or}

-- `enum PQueueStatus`
pub data Status : Type 0 where
  retrieve_data_failed store_data_failed queue_empty queue_full timeout : Status
  alloc_mem_failed init_mutex_failed init_cond_failed init_dynamic_loader_failed : Status
  init_serialize_failed load_indirect_serialize_failed init_mem_channel_failed : Status
  open_mem_channel_failed init_calc_size_serializer_failed open_calc_size_serializer_failed : Status
  calc_size_failed already_setup no_such_queue ok : Status

-- `enum PQueueValidFlags`
pub data Stage : Type 0 where
  clean lock_alloc mutex_new mutex_init push_cond_new push_cond_init : Stage
  mem_lock_alloc mem_lock_new mem_lock_init dynamic_loader_new dynamic_loader_init : Stage
  get_serialize_func mem_channel_write_new mem_channel_write_init mem_channel_read_new : Stage
  mem_channel_read_init mem_channel_write_open mem_channel_read_open serialize_write_new : Stage
  serialize_write_init serialize_read_new serialize_read_init misc_init size_init : Stage
  element_memory_alloc valid invalid : Stage

-- The bytes of a block of memory, by their offset.
abbrev pub Bytes : Type 0
Bytes = ℕ → ℕ

-- The fields that the calls compute with. `elementMemorySize` is the size of the block, 0 while the code
-- marks it as invalid by -1. The C code holds these numbers in `BaseI32`; what its products and sums
-- give stays in range if the block is shorter than 2 ^ 31 bytes.
pub record PQueue : Type 0 where
  pub valid : Stage
  pub max_length : ℕ
  pub num_elements : ℕ
  pub max_element_size : ℕ
  pub head : ℕ
  pub tail : ℕ
  pub element_memory : Bytes
  pub element_memory_size : ℕ

-- The serialize function of the element type, over the memory channels of the queue: the bytes that it
-- writes for an element, and the element that it reads where the channel stands.
pub record Codec (A : Type 0) : Type 0 where
  pub serialize : A → List ℕ
  pub deserialize : Bytes → A

-- What the queue relies on: reading where an element was written gives that element back.
pub record IsCodec {A : Type 0} (codec : Codec A) : Type 0 where
  pub round_trip :
      (x : A) (from : Bytes)
      → ((i : ℕ) → i < length (codec.serialize x) → from i ≡ get_or (codec.serialize x) i 0)
      → codec.deserialize from ≡ x
