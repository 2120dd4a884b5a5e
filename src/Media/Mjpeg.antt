-- ===== src/Media/Mjpeg.antt =====
-- include/avtp/cvf/Mjpeg.h: the header fields and the functions on them.
use open_lib.Common.{
  Bool, List, Option, [], false, if◌then◌else◌, ltb, none, some, true, u16, u32, u64, u8, ℕ, ◌∷◌,
}
use mathlib.Core.Option
use open_lib.Memory.{Endian, Memory, memcpy, memset}
use open_lib.Utils.{FieldDescriptor, desc, get_in, set_in}

-- `Avtp_MjpegFields_t`
pub data MjpegField : Type 0 where
  type_specific fragment_offset type_field q width height : MjpegField

unfoldable pub index : MjpegField → ℕ
index type_specific = 0
index fragment_offset = 1
index type_field = 2
index q = 3
index width = 4
index height = 5

-- `Avtp_MjpegFieldDesc`, in the order of the indices.
abbrev pub table : List FieldDescriptor
table = desc 0 0 8 ∷ desc 0 8 24 ∷ desc 1 0 8 ∷ desc 1 8 8 ∷ desc 1 16 8 ∷ desc 1 24 8 ∷ []

-- `AVTP_MJPEG_HEADER_LEN`
abbrev pub header_len : ℕ
header_len = 8

module _ (host : Endian) where
  -- The macros.
  unfoldable pub get : Memory → MjpegField → ℕ
  get pdu field = get_in host table 6 pdu (index field)

  unfoldable pub set : Memory → MjpegField → ℕ → Memory
  set pdu field value = set_in host table 6 pdu (index field) (u64 value)

  unfoldable pub get_type_specific : Memory → ℕ
  get_type_specific pdu = u8 (get pdu type_specific)

  unfoldable pub get_fragment_offset : Memory → ℕ
  get_fragment_offset pdu = u32 (get pdu fragment_offset)

  unfoldable pub get_type : Memory → ℕ
  get_type pdu = u8 (get pdu type_field)

  unfoldable pub get_q : Memory → ℕ
  get_q pdu = u8 (get pdu q)

  unfoldable pub get_width : Memory → ℕ
  get_width pdu = u8 (get pdu width)

  unfoldable pub get_height : Memory → ℕ
  get_height pdu = u8 (get pdu height)

  unfoldable pub set_type_specific : Memory → ℕ → Memory
  set_type_specific pdu value = set pdu type_specific (u8 value)

  unfoldable pub set_fragment_offset : Memory → ℕ → Memory
  set_fragment_offset pdu value = set pdu fragment_offset (u32 value)

  unfoldable pub set_type : Memory → ℕ → Memory
  set_type pdu value = set pdu type_field (u8 value)

  unfoldable pub set_q : Memory → ℕ → Memory
  set_q pdu value = set pdu q (u8 value)

  unfoldable pub set_width : Memory → ℕ → Memory
  set_width pdu value = set pdu width (u8 value)

  unfoldable pub set_height : Memory → ℕ → Memory
  set_height pdu value = set pdu height (u8 value)

  unfoldable pub get_payload : Memory → ℕ
  get_payload pdu = header_len

  unfoldable pub set_payload : Memory → Memory → ℕ → Memory
  set_payload pdu payload payload_length = memcpy pdu header_len payload 0 (u16 payload_length)

  -- `Avtp_Mjpeg_Init` of a PDU that is not NULL.
  unfoldable pub init_present : Memory → Memory
  init_present pdu = memset pdu 0 0 header_len

  unfoldable pub init : Option Memory → Option Memory
  init pdu = Option.map init_present pdu

  unfoldable pub is_valid : Option Memory → ℕ → Bool
  is_valid none buffer_size = false
  is_valid (some pdu) buffer_size = if ltb buffer_size header_len then false else true

  unfoldable pub get_field : Memory → MjpegField → ℕ
  get_field pdu field = get pdu field

  unfoldable pub set_field : Memory → MjpegField → ℕ → Memory
  set_field pdu field value = set pdu field value
