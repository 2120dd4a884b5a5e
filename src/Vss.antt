-- ===== src/Vss.antt =====
-- src/avtp/acf/custom/Vss.c and include/avtp/acf/custom/Vss.h: the header of ACF VSS messages, and the
-- helpers that keep the getters within the declared message length.
-- A pointer into the PDU is its offset from the PDU's first byte.
pub mod Header
pub mod Clamp
pub mod Path
pub mod Data
pub mod Strings
use open_lib.Common.{
  ℕ, ◌+◌, ◌-◌, ◌*◌, ◌/◌, ◌%◌, ◌^◌, Bool, true, false, ltb, leb, ◌==◌, not, if◌then◌else◌, Option,
  none, some, List, [], ◌∷◌, u8, u16, u32, u64, to_bool, bit_num,
}
use mathlib.Core.Option
use open_lib.Memory.{Memory, Endian, load, memset}
use open_lib.Byteorder.{be_to_cpu16}
use open_lib.Utils.{FieldDescriptor, desc, get_in, set_in}
use open_lib.Acf.{quadlet_size, get_acf_msg_type, get_acf_msg_length_in_bytes}

-- `AVTP_VSS_FIXED_HEADER_LEN` and `AVTP_ACF_TYPE_VSS`
abbrev pub header_len : ℕ
header_len = 3 * quadlet_size

abbrev pub acf_type_vss : ℕ
acf_type_vss = 0x42

-- `Vss_AddrMode_t`
abbrev pub interop_mode : ℕ
interop_mode = 0

abbrev pub static_id_mode : ℕ
static_id_mode = 1

-- `Avtp_VssFields_t`
pub data VssField : Type 0 where
  acf_msg_type acf_msg_length pad mtv addr_mode vss_op vss_datatype message_timestamp : VssField

unfoldable pub index : VssField → ℕ
index acf_msg_type = 0
index acf_msg_length = 1
index pad = 2
index mtv = 3
index addr_mode = 4
index vss_op = 5
index vss_datatype = 6
index message_timestamp = 7

-- `Avtp_VssFieldDesc`
abbrev pub table : List FieldDescriptor
table =
    desc 0 0 7
    ∷ desc 0 7 9
    ∷ desc 0 16 2
    ∷ desc 0 18 1
    ∷ desc 0 19 2
    ∷ desc 0 21 3
    ∷ desc 0 24 8
    ∷ desc 1 0 64
    ∷ []

module _ (host : Endian) where
  -- `Avtp_Vss_GetField`, `Avtp_Vss_SetField`
  unfoldable pub get : Memory → VssField → ℕ
  get m f = get_in host table 8 m (index f)

  unfoldable pub set : Memory → VssField → ℕ → Memory
  set m f value = set_in host table 8 m (index f) (u64 value)

  unfoldable pub get_pad : Memory → ℕ
  get_pad m = u8 (get m pad)

  unfoldable pub is_mtv : Memory → Bool
  is_mtv m = to_bool (get m mtv)

  -- An enumeration is an `unsigned int`.
  unfoldable pub get_addr_mode : Memory → ℕ
  get_addr_mode m = u32 (get m addr_mode)

  unfoldable pub get_op_code : Memory → ℕ
  get_op_code m = u32 (get m vss_op)

  unfoldable pub get_datatype : Memory → ℕ
  get_datatype m = u32 (get m vss_datatype)

  unfoldable pub get_message_timestamp : Memory → ℕ
  get_message_timestamp m = get m message_timestamp

  unfoldable pub set_pad : Memory → ℕ → Memory
  set_pad m value = set m pad (u8 value)

  unfoldable pub set_mtv : Memory → Bool → Memory
  set_mtv m flag = set m mtv (bit_num flag)

  unfoldable pub set_addr_mode : Memory → ℕ → Memory
  set_addr_mode m value = set m addr_mode (u32 value)

  unfoldable pub set_op_code : Memory → ℕ → Memory
  set_op_code m value = set m vss_op (u32 value)

  unfoldable pub set_datatype : Memory → ℕ → Memory
  set_datatype m value = set m vss_datatype (u32 value)

  unfoldable pub set_message_timestamp : Memory → ℕ → Memory
  set_message_timestamp m value = set m message_timestamp value

  -- `vss_read_clamped_length`
  unfoldable pub read_clamped_length : Memory → ℕ → ℕ
  read_clamped_length m ptr =
      let declared = get_acf_msg_length_in_bytes host m in
      let offset = u32 ptr in
      let wire_len = be_to_cpu16 host (load host m ptr 2) in
      if ltb declared (u32 (offset + 2))
      then 0
      else if ltb declared (u32 (offset + 2 + wire_len))
      then u16 (u32 (declared + 2 ^ 32 - offset - 2))
      else wire_len

  -- `vss_get_clamped_path_length`
  unfoldable pub get_clamped_path_length : Memory → ℕ
  get_clamped_path_length m =
      let declared = get_acf_msg_length_in_bytes host m in
      if get_addr_mode m == static_id_mode
      then if leb (header_len + 4) declared
        then 4
        else if ltb header_len declared
        then u16 (declared - header_len)
        else 0
      else if get_addr_mode m == interop_mode
      then if ltb declared (header_len + 2) then 0 else u16 (read_clamped_length m header_len + 2)
      else 0

  -- `vss_has_bytes`
  unfoldable pub has_bytes : Memory → ℕ → ℕ → Bool
  has_bytes m ptr num_bytes = leb (u32 (u32 ptr + num_bytes)) (get_acf_msg_length_in_bytes host m)

  -- `Avtp_Vss_IsValid`; `none` for NULL.
  unfoldable pub is_valid : Option Memory → ℕ → Bool
  is_valid none buffer_size = false
  is_valid (some m) buffer_size =
      let msg_length_bytes = get_acf_msg_length_in_bytes host m in
      if ltb buffer_size header_len
      then false
      else if not (get_acf_msg_type host m == acf_type_vss)
      then false
      else if ltb msg_length_bytes header_len
      then false
      else if ltb buffer_size msg_length_bytes
      then false
      else true

  -- `Avtp_Vss_Init`
  unfoldable pub init : Option Memory → Option Memory
  init pdu = Option.map (λ m. set (memset m 0 0 header_len) acf_msg_type acf_type_vss) pdu

  -- `Avtp_Vss_SetPayloadLength`
  unfoldable pub set_payload_length : Memory → ℕ → Memory
  set_payload_length m payload_length =
      let msg_len_bytes = u16 (header_len + payload_length) in
      let pad_size = u8 ((quadlet_size - msg_len_bytes % quadlet_size) % quadlet_size) in
      let cleared =
        if msg_len_bytes % quadlet_size == 0 then m else memset m msg_len_bytes 0 pad_size in
      let padded_length = u16 (msg_len_bytes + pad_size) in
      set (set cleared acf_msg_length (padded_length / quadlet_size)) pad pad_size

  -- `Avtp_Vss_CalcVssPathLength`
  unfoldable pub calc_vss_path_length : Memory → ℕ
  calc_vss_path_length m =
      if get_addr_mode m == static_id_mode
      then 4
      else if get_addr_mode m == interop_mode
      then u16 (be_to_cpu16 host (load host m header_len 2) + 2)
      else 0
