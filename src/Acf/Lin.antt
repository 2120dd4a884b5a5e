-- ===== src/Acf/Lin.antt =====
-- include/avtp/acf/Lin.h: the header fields of ACF Lin messages and the functions on them.
use open_lib.Common.{
  ℕ, ◌*◌, List, [], ◌∷◌, Bool, Option, bit_num, false, if◌then◌else◌, leb, none, some, to_bool, u64,
  u8,
}
use mathlib.Core.Option
use open_lib.Memory.{Memory, Endian}
use open_lib.Utils.{FieldDescriptor, desc, get_in, set_in}
use open_lib.Acf.{quadlet_size}
use open_lib.Acf.Padded
use open_lib.Acf.Padded.{PaddedFormat}

-- `Avtp_LinFields_t`
pub data LinField : Type 0 where
  acf_msg_type acf_msg_length pad mtv lin_bus_id lin_identifier message_timestamp : LinField

unfoldable pub index : LinField → ℕ
index acf_msg_type = 0
index acf_msg_length = 1
index pad = 2
index mtv = 3
index lin_bus_id = 4
index lin_identifier = 5
index message_timestamp = 6

-- `Avtp_LinFieldDesc`, in the order of the indices.
abbrev pub table : List FieldDescriptor
table =
    desc 0 0 7
    ∷ desc 0 7 9
    ∷ desc 0 16 2
    ∷ desc 0 18 1
    ∷ desc 0 19 5
    ∷ desc 0 24 8
    ∷ desc 1 0 64
    ∷ []

-- `AVTP_LIN_HEADER_LEN`
abbrev pub header_len : ℕ
header_len = 3 * quadlet_size

-- `Avtp_Lin_GetPayload`: the address of the payload.
abbrev pub get_payload : ℕ
get_payload = header_len

abbrev pub padded : PaddedFormat
padded = record { header_len = header_len; acf_type = 0x3; table = table; pad_field = 2 }

module _ (host : Endian) where
  -- The macros that the accessors expand to.
  unfoldable pub get : Memory → LinField → ℕ
  get m f = get_in host table 7 m (index f)

  unfoldable pub set : Memory → LinField → ℕ → Memory
  set m f value = set_in host table 7 m (index f) (u64 value)

  unfoldable pub get_pad : Memory → ℕ
  get_pad m = Padded.get_pad host padded m

  unfoldable pub is_mtv : Memory → Bool
  is_mtv m = to_bool (get m mtv)

  unfoldable pub get_lin_bus_id : Memory → ℕ
  get_lin_bus_id m = u8 (get m lin_bus_id)

  unfoldable pub get_lin_identifier : Memory → ℕ
  get_lin_identifier m = u8 (get m lin_identifier)

  unfoldable pub get_message_timestamp : Memory → ℕ
  get_message_timestamp m = u64 (get m message_timestamp)

  unfoldable pub set_pad : Memory → ℕ → Memory
  set_pad m value = Padded.set_pad host padded m value

  unfoldable pub set_mtv : Memory → Bool → Memory
  set_mtv m flag = set m mtv (bit_num flag)

  unfoldable pub set_lin_bus_id : Memory → ℕ → Memory
  set_lin_bus_id m value = set m lin_bus_id (u8 value)

  unfoldable pub set_lin_identifier : Memory → ℕ → Memory
  set_lin_identifier m value = set m lin_identifier (u8 value)

  unfoldable pub set_message_timestamp : Memory → ℕ → Memory
  set_message_timestamp m value = set m message_timestamp (u64 value)

  -- `none` for NULL.
  unfoldable pub init : Option Memory → Option Memory
  init pdu = Option.map (Padded.init host padded) pdu

  unfoldable pub set_payload : Memory → Memory → ℕ → Memory
  set_payload m payload payload_length = Padded.set_payload host padded m payload payload_length

  unfoldable pub set_payload_length : Memory → ℕ → Memory
  set_payload_length m payload_length = Padded.set_payload_length host padded m payload_length

  unfoldable pub get_payload_length : Memory → ℕ
  get_payload_length m = u8 (Padded.payload_octets host padded m)

  -- The calls in their order; the PDU is not NULL.
  unfoldable pub create_acf_message : Memory → ℕ → ℕ → ℕ → Memory → ℕ → Memory
  create_acf_message m lin_bus_id' lin_identifier' message_timestamp' payload payload_length =
      let m1 = Padded.init host padded m in
      let m2 = set_payload m1 payload payload_length in
      let m3 = set_lin_bus_id m2 lin_bus_id' in
      let m4 = set_lin_identifier m3 lin_identifier' in
      let m5 = set_message_timestamp m4 message_timestamp' in set_payload_length m5 payload_length

  unfoldable pub is_valid : Option Memory → ℕ → Bool
  is_valid none buffer_size = false
  is_valid (some m) buffer_size =
      if Padded.envelope_valid host padded m buffer_size
      then leb (Padded.checked_payload_length host padded m) 8
      else false
