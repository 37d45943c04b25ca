-- ===== src/IoChannel.antt =====
-- src/IOChannel.c and src/IOChannel.h: the state of a channel, and the interface of the stream below it.
-- A byte is a number. A pointer to bytes is the list of the bytes.
pub mod Calls
pub mod Lines
pub mod Mem
pub mod MemOpen
pub mod Reading
pub mod RoundTrip
pub mod PutBack
pub mod Within
pub mod Blocks
mod Tests
use tool_boslib.Base.{
  ℕ, List, [], length, Bool, true, false, not, ◌&&◌, if◌then◌else◌, ◌==◌, Run, ok, ◌>>=◌, ◌>>◌,
  require, ℤ, pos, negsuc, Option, none, some,
}

pub data Error : Type 0 where
  error_none : Error
  error_accv : Error
  error_incr : Error
  error_bbuf : Error
  error_bist : Error
  error_bsek : Error
  error_bsize : Error
  error_bmemptr : Error
  error_bmmpsize : Error
  error_bwhesek : Error
  error_bndsek : Error
  error_biocall : Error
  error_bsl : Error
  error_bmode : Error
  error_bwnc : Error
  error_bshmname : Error
  error_bsockr : Error
  error_bsockw : Error
  error_notdef : Error
  error_bllw : Error
  error_bsinam : Error
  error_bsouam : Error
  error_bflgs : Error
  error_boarg : Error
  error_bmmfl : Error
  error_uconcl : Error
  error_sockettimeout : Error
  error_bcllbkw : Error
  error_bcllbkr : Error
  error_eexist : Error
  error_eisdir : Error
  error_eacces : Error
  error_enametoolong : Error
  error_enoent : Error
  error_enotdir : Error
  error_enxio : Error
  error_enodev : Error
  error_erofs : Error
  error_etxtbsy : Error
  error_efault : Error
  error_eloop : Error
  error_enospc : Error
  error_enomem : Error
  error_emfile : Error
  error_enfile : Error
  error_eintr : Error
  error_eagain : Error
  error_eio : Error
  error_ebadf : Error
  error_einval : Error
  error_efbig : Error
  error_epipe : Error
  error_espipe : Error
  error_eoverflow : Error
  error_toounget : Error
  error_enotsup : Error

-- `errorType != IOCHANNELERROR_NONE`
unfoldable pub is_set : Error → Bool
is_set error_none = false
is_set e = true

-- The access mode of a mode without its flags; `mode_other` is any other number.
pub data Access : Type 0 where
  mode_r_only : Access
  mode_w_only : Access
  mode_rw : Access
  mode_other : Access

-- An IOChannelMode, with the flags of open; `defined` is false for IOCHANNEL_MODE_UNDEFINED.
pub record Mode : Type 0 where
  pub defined : Bool
  pub access : Access
  pub creat : Bool
  pub trunc : Bool
  pub append : Bool
  pub close : Bool

unfoldable pub is_r_only : Access → Bool
is_r_only mode_r_only = true
is_r_only a = false

unfoldable pub is_w_only : Access → Bool
is_w_only mode_w_only = true
is_w_only a = false

pub data Whence : Type 0 where
  whence_set : Whence
  whence_cur : Whence
  whence_end : Whence
  whence_other : Whence

-- An IOChannelType, what a stream stands on.
pub data ChannelType : Type 0 where
  type_fd : ChannelType
  type_socket : ChannelType
  type_memptr : ChannelType
  type_ansi_file : ChannelType
  type_generic_handle : ChannelType
  type_notset : ChannelType

-- An IOChannelBuffer: its bytes, `index` of them, and how many it can hold. The bytes of the unget buffer
-- stand from the last one down to the first, in the order in which they are read.
pub record Buffer : Type 0 where
  pub bytes : List ℕ
  pub size : ℕ

abbrev pub index : Buffer → ℕ
index self = length self.bytes

pub record Channel (S : Type 0) : Type 0 where
  pub valid : Bool
  pub is_open : Bool
  pub found_eof : Bool
  pub uses_write_buffering : Bool
  pub mode : Mode
  pub channel_type : ChannelType
  pub rd_deployed_bytes : ℕ
  pub wr_deployed_bytes : ℕ
  pub error_type : Error
  pub unget_buffer : Buffer
  pub write_buffer : Buffer
  pub current_index_position : ℤ
  pub rd_bytes_from_last_write : ℕ
  pub rd_bytes_from_last_unget : ℕ
  pub stream : S

-- What the channel calls of an IOChannelInterface. A result of -1 is `none`, but for a seek, which gives
-- a position.
pub record Stream (S : Type 0) : Type 0 where
  pub indirect_read : Channel S → ℕ → Run (Option ℕ × List ℕ × Channel S)
  pub indirect_write : Channel S → List ℕ → Run (Option ℕ × Channel S)
  pub indirect_flush : Channel S → Run (Option ℕ × Channel S)
  pub indirect_seek : Channel S → ℤ → Whence → Run (ℤ × Channel S)

module _ {S : Type 0} where
  -- Every error stands in the table of IOChannel_setError.
  abbrev pub set_error : Error → Channel S → Channel S
  set_error e self = record self { error_type = e }

  abbrev pub set_eof : Channel S → Channel S
  set_eof self = record self { found_eof = true }

  abbrev pub is_error_set : Channel S → Bool
  is_error_set self = is_set self.error_type

  abbrev pub is_call_allowed : Channel S → Bool
  is_call_allowed self = self.is_open && not (is_error_set self)

  -- The test, and the channel, which has an error if the test fails.
  abbrev pub is_not_wr_only : Channel S → Bool × Channel S
  is_not_wr_only self =
      if is_w_only self.mode.access then (false, set_error error_accv self) else (true, self)

  abbrev pub is_not_rd_only : Channel S → Bool × Channel S
  is_not_rd_only self =
      if is_r_only self.mode.access then (false, set_error error_accv self) else (true, self)

  abbrev pub clean_error : Channel S → Run (Channel S)
  clean_error self = do require self.valid; ok (record self { error_type = error_none })

  unfoldable pub eof : Channel S → Run Bool
  eof self = do
    require self.valid
    ok (self.is_open && self.found_eof && index self.unget_buffer == 0)
