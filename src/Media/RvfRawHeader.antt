-- ===== src/Media/RvfRawHeader.antt =====
-- include/avtp/Rvf.h: the header fields and the functions on them.
use open_lib.Common.{
  Bool, List, Option, [], false, if◌then◌else◌, ltb, none, some, true, u16, u32, u64, u8, ℕ, ◌∷◌,
}
use mathlib.Core.Option
use open_lib.Memory.{Endian, Memory, memcpy, memset}
use open_lib.Utils.{FieldDescriptor, desc, get_in, set_in}

-- `Avtp_RvfRawHeaderFields_t`
pub data RvfRawHeaderField : Type 0 where
  reserved1 pixel_depth pixel_format frame_rate colorspace num_lines reserved2 i_seq_num
        line_number :
      RvfRawHeaderField

unfoldable pub index : RvfRawHeaderField → ℕ
index reserved1 = 0
index pixel_depth = 1
index pixel_format = 2
index frame_rate = 3
index colorspace = 4
index num_lines = 5
index reserved2 = 6
index i_seq_num = 7
index line_number = 8

-- `Avtp_RvfRawHeaderFieldDesc`, in the order of the indices.
abbrev pub table : List FieldDescriptor
table =
    desc 0 0 8
    ∷ desc 0 8 4
    ∷ desc 0 12 4
    ∷ desc 0 16 8
    ∷ desc 0 24 4
    ∷ desc 0 28 4
    ∷ desc 1 0 8
    ∷ desc 1 8 8
    ∷ desc 1 16 16
    ∷ []

-- `AVTP_RVF_RAW_HEADER_LEN`
abbrev pub header_len : ℕ
header_len = 8

module _ (host : Endian) where
  -- The macros.
  unfoldable pub get : Memory → RvfRawHeaderField → ℕ
  get pdu field = get_in host table 9 pdu (index field)

  unfoldable pub set : Memory → RvfRawHeaderField → ℕ → Memory
  set pdu field value = set_in host table 9 pdu (index field) (u64 value)

  unfoldable pub get_pixel_depth : Memory → ℕ
  get_pixel_depth pdu = u32 (get pdu pixel_depth)

  unfoldable pub get_pixel_format : Memory → ℕ
  get_pixel_format pdu = u32 (get pdu pixel_format)

  unfoldable pub get_frame_rate : Memory → ℕ
  get_frame_rate pdu = u32 (get pdu frame_rate)

  unfoldable pub get_colorspace : Memory → ℕ
  get_colorspace pdu = u32 (get pdu colorspace)

  unfoldable pub get_num_lines : Memory → ℕ
  get_num_lines pdu = u8 (get pdu num_lines)

  unfoldable pub get_iseq_num : Memory → ℕ
  get_iseq_num pdu = u8 (get pdu i_seq_num)

  unfoldable pub get_line_number : Memory → ℕ
  get_line_number pdu = u16 (get pdu line_number)

  unfoldable pub set_pixel_depth : Memory → ℕ → Memory
  set_pixel_depth pdu value = set pdu pixel_depth (u32 value)

  unfoldable pub set_pixel_format : Memory → ℕ → Memory
  set_pixel_format pdu value = set pdu pixel_format (u32 value)

  unfoldable pub set_frame_rate : Memory → ℕ → Memory
  set_frame_rate pdu value = set pdu frame_rate (u32 value)

  unfoldable pub set_colorspace : Memory → ℕ → Memory
  set_colorspace pdu value = set pdu colorspace (u32 value)

  unfoldable pub set_num_lines : Memory → ℕ → Memory
  set_num_lines pdu value = set pdu num_lines (u8 value)

  unfoldable pub set_iseq_num : Memory → ℕ → Memory
  set_iseq_num pdu value = set pdu i_seq_num (u8 value)

  unfoldable pub set_line_number : Memory → ℕ → Memory
  set_line_number pdu value = set pdu line_number (u16 value)

  unfoldable pub get_payload : Memory → ℕ
  get_payload pdu = header_len

  unfoldable pub set_payload : Memory → Memory → ℕ → Memory
  set_payload pdu payload payload_length = memcpy pdu header_len payload 0 (u16 payload_length)

  -- `Avtp_RvfRawHeader_Init` of a PDU that is not NULL.
  unfoldable pub init_present : Memory → Memory
  init_present pdu = memset pdu 0 0 header_len

  unfoldable pub init : Option Memory → Option Memory
  init pdu = Option.map init_present pdu

  unfoldable pub is_valid : Option Memory → ℕ → Bool
  is_valid none buffer_size = false
  is_valid (some pdu) buffer_size = if ltb buffer_size header_len then false else true

  unfoldable pub get_field : Memory → RvfRawHeaderField → ℕ
  get_field pdu field = get pdu field

  unfoldable pub set_field : Memory → RvfRawHeaderField → ℕ → Memory
  set_field pdu field value = set pdu field value
