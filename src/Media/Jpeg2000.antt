-- ===== src/Media/Jpeg2000.antt =====
-- include/avtp/cvf/Jpeg2000.h: the header fields and the functions on them.
use open_lib.Common.{
  Bool, List, Option, [], bit_num, false, if◌then◌else◌, ltb, none, some, to_bool, true, u16, u32,
  u64, u8, ℕ, ◌∷◌,
}
use mathlib.Core.Option
use open_lib.Memory.{Endian, Memory, memcpy, memset}
use open_lib.Utils.{FieldDescriptor, desc, get_in, set_in}

-- `Avtp_Jpeg2000Fields_t`
pub data Jpeg2000Field : Type 0 where
  tp mhf mh_id t priority tile_number reserved fragment_offset : Jpeg2000Field

unfoldable pub index : Jpeg2000Field → ℕ
index tp = 0
index mhf = 1
index mh_id = 2
index t = 3
index priority = 4
index tile_number = 5
index reserved = 6
index fragment_offset = 7

-- `Avtp_Jpeg2000FieldDesc`, in the order of the indices.
abbrev pub table : List FieldDescriptor
table =
    desc 0 0 2
    ∷ desc 0 2 2
    ∷ desc 0 4 3
    ∷ desc 0 7 1
    ∷ desc 0 8 8
    ∷ desc 0 16 16
    ∷ desc 1 0 8
    ∷ desc 1 8 24
    ∷ []

-- `AVTP_JPEG2000_HEADER_LEN`
abbrev pub header_len : ℕ
header_len = 8

module _ (host : Endian) where
  -- The macros.
  unfoldable pub get : Memory → Jpeg2000Field → ℕ
  get pdu field = get_in host table 8 pdu (index field)

  unfoldable pub set : Memory → Jpeg2000Field → ℕ → Memory
  set pdu field value = set_in host table 8 pdu (index field) (u64 value)

  unfoldable pub get_tp : Memory → ℕ
  get_tp pdu = u8 (get pdu tp)

  unfoldable pub get_mhf : Memory → ℕ
  get_mhf pdu = u8 (get pdu mhf)

  unfoldable pub get_mh_id : Memory → ℕ
  get_mh_id pdu = u8 (get pdu mh_id)

  unfoldable pub is_t : Memory → Bool
  is_t pdu = to_bool (get pdu t)

  unfoldable pub get_priority : Memory → ℕ
  get_priority pdu = u8 (get pdu priority)

  unfoldable pub get_tile_number : Memory → ℕ
  get_tile_number pdu = u16 (get pdu tile_number)

  unfoldable pub get_fragment_offset : Memory → ℕ
  get_fragment_offset pdu = u32 (get pdu fragment_offset)

  unfoldable pub set_tp : Memory → ℕ → Memory
  set_tp pdu value = set pdu tp (u8 value)

  unfoldable pub set_mhf : Memory → ℕ → Memory
  set_mhf pdu value = set pdu mhf (u8 value)

  unfoldable pub set_mh_id : Memory → ℕ → Memory
  set_mh_id pdu value = set pdu mh_id (u8 value)

  unfoldable pub set_t : Memory → Bool → Memory
  set_t pdu flag = set pdu t (bit_num flag)

  unfoldable pub set_priority : Memory → ℕ → Memory
  set_priority pdu value = set pdu priority (u8 value)

  unfoldable pub set_tile_number : Memory → ℕ → Memory
  set_tile_number pdu value = set pdu tile_number (u16 value)

  unfoldable pub set_fragment_offset : Memory → ℕ → Memory
  set_fragment_offset pdu value = set pdu fragment_offset (u32 value)

  unfoldable pub get_payload : Memory → ℕ
  get_payload pdu = header_len

  unfoldable pub set_payload : Memory → Memory → ℕ → Memory
  set_payload pdu payload payload_length = memcpy pdu header_len payload 0 (u16 payload_length)

  -- `Avtp_Jpeg2000_Init` of a PDU that is not NULL.
  unfoldable pub init_present : Memory → Memory
  init_present pdu = memset pdu 0 0 header_len

  unfoldable pub init : Option Memory → Option Memory
  init pdu = Option.map init_present pdu

  unfoldable pub is_valid : Option Memory → ℕ → Bool
  is_valid none buffer_size = false
  is_valid (some pdu) buffer_size = if ltb buffer_size header_len then false else true

  unfoldable pub get_field : Memory → Jpeg2000Field → ℕ
  get_field pdu field = get pdu field

  unfoldable pub set_field : Memory → Jpeg2000Field → ℕ → Memory
  set_field pdu field value = set pdu field value
