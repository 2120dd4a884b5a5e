-- ===== src/Media/H264.antt =====
-- include/avtp/cvf/H264.h: the header fields and the functions on them.
use open_lib.Common.{
  Bool, List, Option, [], false, if◌then◌else◌, ltb, none, some, true, u16, u32, u64, ℕ, ◌∷◌,
}
use mathlib.Core.Option
use open_lib.Memory.{Endian, Memory, memcpy, memset}
use open_lib.Utils.{FieldDescriptor, desc, get_in, set_in}

-- `Avtp_H264Fields_t`
pub data H264Field : Type 0 where
  timestamp : H264Field

unfoldable pub index : H264Field → ℕ
index timestamp = 0

-- `Avtp_H264FieldDesc`, in the order of the indices.
abbrev pub table : List FieldDescriptor
table = desc 0 0 32 ∷ []

-- `AVTP_H264_HEADER_LEN`
abbrev pub header_len : ℕ
header_len = 4

module _ (host : Endian) where
  -- The macros.
  unfoldable pub get : Memory → H264Field → ℕ
  get pdu field = get_in host table 1 pdu (index field)

  unfoldable pub set : Memory → H264Field → ℕ → Memory
  set pdu field value = set_in host table 1 pdu (index field) (u64 value)

  unfoldable pub get_timestamp : Memory → ℕ
  get_timestamp pdu = u32 (get pdu timestamp)

  unfoldable pub set_timestamp : Memory → ℕ → Memory
  set_timestamp pdu value = set pdu timestamp (u32 value)

  unfoldable pub get_payload : Memory → ℕ
  get_payload pdu = header_len

  unfoldable pub set_payload : Memory → Memory → ℕ → Memory
  set_payload pdu payload payload_length = memcpy pdu header_len payload 0 (u16 payload_length)

  -- `Avtp_H264_Init` of a PDU that is not NULL.
  unfoldable pub init_present : Memory → Memory
  init_present pdu = memset pdu 0 0 header_len

  unfoldable pub init : Option Memory → Option Memory
  init pdu = Option.map init_present pdu

  unfoldable pub is_valid : Option Memory → ℕ → Bool
  is_valid none buffer_size = false
  is_valid (some pdu) buffer_size = if ltb buffer_size header_len then false else true

  unfoldable pub get_field : Memory → H264Field → ℕ
  get_field pdu field = get pdu field

  unfoldable pub set_field : Memory → H264Field → ℕ → Memory
  set_field pdu field value = set pdu field value
