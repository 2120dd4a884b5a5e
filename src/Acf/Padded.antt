-- ===== src/Acf/Padded.antt =====
-- The ACF formats with a PAD field (CAN, CAN brief, CAN XL, FlexRay, LIN, MOST, GISF, and others under
-- include/avtp/acf): their headers repeat the same functions under other names, so that one section
-- over what differs models them. Each format's module instantiates it.
pub mod Header
pub mod Length
pub mod Valid
use open_lib.Common.{
  ℕ, ◌+◌, ◌-◌, ◌*◌, ◌/◌, ◌%◌, ◌^◌, ◌<◌, ◌≡◌, Bool, true, false, ltb, leb, ◌==◌, not, if◌then◌else◌,
  List, length, u8, u16,
}
use open_lib.Memory.{Memory, Endian, memset, memcpy}
use open_lib.Utils.{FieldDescriptor, get_in, set_in, descriptor_at}
use open_lib.Utils.Table.{IsTable}
use open_lib.Acf.{
  quadlet_size, get_acf_msg_type, get_acf_msg_length_in_bytes, set_acf_msg_type, set_acf_msg_length,
}
use open_lib.Acf.Laws.{StartsAcf}

-- What differs: `AVTP_<X>_HEADER_LEN`, `AVTP_ACF_TYPE_<X>`, the descriptor table, the index of PAD.
pub record PaddedFormat : Type 0 where
  pub header_len : ℕ
  pub acf_type : ℕ
  pub table : List FieldDescriptor
  pub pad_field : ℕ

-- What the proofs use of it, by evaluation for each format.
pub record IsPadded (format : PaddedFormat) : Type 0 where
  pub is_table : IsTable format.header_len format.table
  pub starts_acf : StartsAcf format.table
  pub pad_is_new : 1 < format.pad_field
  pub pad_in : format.pad_field < length format.table
  pub pad_two : (descriptor_at format.table format.pad_field).bits ≡ 2
  pub quadlets : format.header_len % 4 ≡ 0
  pub small : format.header_len < 256
  pub type_fits : format.acf_type < 128

module _ (host : Endian) (format : PaddedFormat) where
  open format use {header_len, acf_type, table, pad_field}

  -- `Avtp_<X>_GetPad`, `Avtp_<X>_SetPad`
  unfoldable pub get_pad : Memory → ℕ
  get_pad m = u8 (get_in host table (length table) m pad_field)

  unfoldable pub set_pad : Memory → ℕ → Memory
  set_pad m value = set_in host table (length table) m pad_field (u8 value)

  -- `Avtp_<X>_Init` of a PDU that is not NULL.
  unfoldable pub init : Memory → Memory
  init m = set_acf_msg_type host (memset m 0 0 header_len) acf_type

  -- `Avtp_<X>_SetPayload`
  unfoldable pub set_payload : Memory → Memory → ℕ → Memory
  set_payload m payload payload_length = memcpy m header_len payload 0 payload_length

  -- `Avtp_<X>_SetPayloadLength`
  unfoldable pub set_payload_length : Memory → ℕ → Memory
  set_payload_length m payload_length =
      let msg_len_bytes = u16 (header_len + payload_length) in
      let pad = u8 (4 - msg_len_bytes % 4) % 4 in
      let cleared = if ltb 0 pad then memset m (header_len + payload_length) 0 pad else m in
      let msg_len_quadlets = u16 ((msg_len_bytes + pad) / 4) in
      set_acf_msg_length host (set_pad cleared pad) msg_len_quadlets

  -- `acf_length_bytes - HEADER_LEN - pad_length`, modulo 2 ^ 16 since it can be negative; the cast
  -- to the return type of `Avtp_<X>_GetPayloadLength` is in the format's module.
  unfoldable pub payload_octets : Memory → ℕ
  payload_octets m = u16 (get_acf_msg_length_in_bytes host m + 2 ^ 16 - header_len - get_pad m)

  -- The checks of `Avtp_<X>_IsValid` that all share, for a PDU that is not NULL.
  unfoldable pub envelope_valid : Memory → ℕ → Bool
  envelope_valid m buffer_size =
      let msg_length_bytes = get_acf_msg_length_in_bytes host m in
      let header_and_pad = u16 (header_len + get_pad m) in
      if ltb buffer_size header_len
      then false
      else if not (get_acf_msg_type host m == acf_type)
      then false
      else if ltb buffer_size msg_length_bytes
      then false
      else if ltb msg_length_bytes header_and_pad
      then false
      else true

  -- `payload_length` of `Avtp_<X>_IsValid`, computed after those checks.
  unfoldable pub checked_payload_length : Memory → ℕ
  checked_payload_length m =
      u16 (get_acf_msg_length_in_bytes host m + 2 ^ 16 - u16 (header_len + get_pad m))
