-- ===== src/IoChannel/MemOpen.antt =====
-- Opening and closing of src/IOChannelGenericMem.c and src/IOChannelMem.c. Calls of the operating system are
-- parameters: `none` where they succeed, else the error that errno stands for.
use tool_boslib.Base.{
  ℕ, zero, suc, List, replicate, drop, ◌++◌, Bool, true, false, ◌||◌, ltb, if◌then◌else◌, Run, ok,
  exit, ◌>>=◌, ◌>>◌, require, ℤ, pos, negsuc, Option, none, some,
}
use tool_boslib.IoChannel.{
  Error, error_bmode, error_bmmfl, error_bflgs, error_bsize, error_enomem, error_bmemptr, Mode,
  mode_r_only, mode_w_only, mode_rw, mode_other, is_r_only, type_memptr, set_error,
}
use tool_boslib.IoChannel.Mem.{MemChannel}

unfoldable pub mem_init : MemChannel → Run MemChannel
mem_init self = do
  require self.valid
  ok (record self { stream = record { ptr = none; fd = negsuc 0; size = 0; is_mapped = false } })

unfoldable pub is_pointer : Option (List ℕ) → Bool
is_pointer none = false
is_pointer (some cells) = true

unfoldable pub set_ptr : MemChannel → Option (List ℕ) → ℤ → ℕ → Bool → Run MemChannel
set_ptr self ptr fd size is_mapped = do
  require self.valid
  require (is_pointer ptr)
  require (ltb 0 size)
  ok (record self {
    stream = record { ptr = ptr; fd = fd; size = size; is_mapped = is_mapped };
    channel_type = type_memptr;
  })

abbrev pub failed : Error → MemChannel → Run (Bool × MemChannel)
failed e self = ok (false, set_error e self)

-- `Any_memset( ptr, 0, size )`, where the mode asks for it.
unfoldable pub erased : Mode → ℕ → List ℕ → List ℕ
erased mode size cells = if mode.trunc then replicate size 0 ++ drop size cells else cells

-- The end of a successful IOChannelMem_openFromString.
abbrev pub opened : List ℕ → ℕ → MemChannel → Run (Bool × MemChannel)
opened cells size self = do
  s ← set_ptr self (some cells) (negsuc 0) size false
  ok (true, record s { stream = record s.stream { ptr = some (erased s.mode size cells) } })

-- `calloc` gives a block of zeros, or NULL where `allocated` is false.
abbrev pub calloc : Bool → ℕ → Option (List ℕ)
calloc allocated size = if allocated then some (replicate size 0) else none

unfoldable pub open_block : Option (List ℕ) → ℕ → Bool → MemChannel → Run (Bool × MemChannel)
open_block none size allocated self =
    if self.mode.creat
    then (elim (calloc allocated size) [
      | none ↦ failed error_enomem self
      | some cells ↦ opened cells size self
    ])
    else failed error_bmemptr self
open_block (some cells) size allocated self =
    if self.mode.creat then failed error_bmemptr self else opened cells size self

-- Without a mode the channel gets IOCHANNEL_MODE_RW.
unfoldable pub open_default : Option (List ℕ) → ℕ → Bool → MemChannel → Run (Bool × MemChannel)
open_default (some cells) size allocated self = do
  s ← set_ptr self (some cells) (negsuc 0) size false
  ok (true, s)
open_default none size allocated self = do
  let creating = record self { mode = record self.mode { creat = true } }
  s ← set_ptr creating (calloc allocated size) (negsuc 0) size false
  ok (true, s)

-- The size is a `long`; one that is not positive is refused.
abbrev pub check_size :
    ℤ → (ℕ → MemChannel → Run (Bool × MemChannel)) → MemChannel → Run (Bool × MemChannel)
check_size (pos (suc n)) next self = next (suc n) self
check_size size next self = failed error_bsize self

abbrev pub default_mode : Mode
default_mode = record {
  defined = true;
  access = mode_rw;
  creat = false;
  trunc = false;
  append = false;
  close = false;
}

unfoldable pub open_from_string : MemChannel → Option (List ℕ) → ℤ → Bool → Run (Bool × MemChannel)
open_from_string self ptr size allocated = do
  require self.valid
  if self.mode.defined
      then (if self.mode.append
          then failed error_bflgs self
          else check_size size (λ n. open_block ptr n allocated) self)
      else check_size size (λ n. open_default ptr n allocated) (record self { mode = default_mode })

-- Whether the block is freed.
abbrev pub mem_close : MemChannel → Bool × Bool
mem_close self = (true, self.mode.close)

abbrev pub mem_clear : MemChannel → MemChannel
mem_clear self = record self { stream = record self.stream { ptr = none } }

-- PROT_READ, PROT_WRITE, or both.
unfoldable pub set_protection : MemChannel → Option ℕ × MemChannel
set_protection self = elim self.mode.access [
  | mode_r_only ↦ (some 1, self)
  | mode_w_only ↦ (some 2, self)
  | mode_rw ↦ (some 3, self)
  | mode_other ↦ (none, set_error error_bmode self)
]

pub data Mapping : Type 0 where
  mapping_failed : Error → Mapping
  mapping : List ℕ → Mapping

pub record SystemCalls : Type 0 where
  pub ftruncate : Option Error
  pub lseek : Option Error
  pub write_byte : Option Error
  pub mmap : ℕ → Mapping
  pub munmap : Option Error

-- Whether IOChannelGenericMem_mapFd goes on after a step, and the channel.
abbrev pub after_call :
    Option Error → (MemChannel → Bool × MemChannel) → MemChannel → Bool × MemChannel
after_call none next self = next self
after_call (some e) next self = (false, set_error e self)

-- A file that does not shrink to nothing leaves an error, but the mapping goes on.
unfoldable pub enlarge : SystemCalls → MemChannel → Bool × MemChannel
enlarge calls self = elim calls.ftruncate [
  | some e ↦ (true, set_error e self)
  | none ↦ after_call calls.lseek (after_call calls.write_byte (λ s. (true, s))) self
]

unfoldable pub prepare : SystemCalls → MemChannel → Bool × MemChannel
prepare calls self =
    if self.mode.creat || self.mode.trunc
    then (if is_r_only self.mode.access
        then (false, set_error error_bmmfl self)
        else enlarge calls self)
    else (true, self)

abbrev pub map_pages : Mapping → ℕ → ℕ → MemChannel → Run (Bool × MemChannel)
map_pages (mapping_failed e) fd size self = failed e self
map_pages (mapping cells) fd size self = do
  s ← set_ptr self (some cells) (pos fd) size true
  ok (true, s)

unfoldable pub map_protected : SystemCalls → ℕ → ℕ → Option ℕ × MemChannel → Run (Bool × MemChannel)
map_protected calls fd size (none, self) = ok (false, self)
map_protected calls fd size (some protection, self) =
    let (ready, s) = prepare calls self in
    if ready then map_pages (calls.mmap protection) fd size s else ok (false, s)

unfoldable pub map_fd : SystemCalls → MemChannel → ℤ → ℕ → Run (Bool × MemChannel)
map_fd calls self (negsuc n) size = exit
map_fd calls self (pos fd) size = do
  require self.valid
  require (ltb 0 size)
  map_protected calls fd size (set_protection self)

abbrev pub is_fd : ℤ → Bool
is_fd (negsuc zero) = false
is_fd n = true

abbrev pub unmapped : Option Error → MemChannel → Bool × MemChannel
unmapped none self = (true, self)
unmapped (some e) self = (false, set_error e self)

unfoldable pub unmap_fd : SystemCalls → MemChannel → Run (Bool × MemChannel)
unmap_fd calls self = if is_r_only self.mode.access then ok (unmapped calls.munmap self) else (do
  require (is_fd self.stream.fd)
  ok (after_call calls.ftruncate (unmapped calls.munmap) self))
