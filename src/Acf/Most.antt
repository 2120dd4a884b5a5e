-- ===== src/Acf/Most.antt =====
-- include/avtp/acf/Most.h: the header fields of ACF Most messages and the functions on them.
use open_lib.Common.{
  ℕ, ◌*◌, List, [], ◌∷◌, Bool, Option, bit_num, false, none, some, to_bool, u16, u64, u8,
}
use mathlib.Core.Option
use open_lib.Memory.{Memory, Endian}
use open_lib.Utils.{FieldDescriptor, desc, get_in, set_in}
use open_lib.Acf.{quadlet_size}
use open_lib.Acf.Padded
use open_lib.Acf.Padded.{PaddedFormat}

-- `Avtp_MostFields_t`
pub data MostField : Type 0 where
  acf_msg_type acf_msg_length pad mtv most_net_id reserved message_timestamp device_id fblock_id
        inst_id func_id op_type reserved_2 :
      MostField

unfoldable pub index : MostField → ℕ
index acf_msg_type = 0
index acf_msg_length = 1
index pad = 2
index mtv = 3
index most_net_id = 4
index reserved = 5
index message_timestamp = 6
index device_id = 7
index fblock_id = 8
index inst_id = 9
index func_id = 10
index op_type = 11
index reserved_2 = 12

-- `Avtp_MostFieldDesc`, in the order of the indices.
abbrev pub table : List FieldDescriptor
table =
    desc 0 0 7
    ∷ desc 0 7 9
    ∷ desc 0 16 2
    ∷ desc 0 18 1
    ∷ desc 0 19 5
    ∷ desc 0 24 8
    ∷ desc 1 0 64
    ∷ desc 3 0 16
    ∷ desc 3 16 8
    ∷ desc 3 24 8
    ∷ desc 4 0 12
    ∷ desc 4 12 4
    ∷ desc 4 16 16
    ∷ []

-- `AVTP_MOST_HEADER_LEN`
abbrev pub header_len : ℕ
header_len = 5 * quadlet_size

-- `Avtp_Most_GetPayload`: the address of the payload.
abbrev pub get_payload : ℕ
get_payload = header_len

abbrev pub padded : PaddedFormat
padded = record { header_len = header_len; acf_type = 0x4; table = table; pad_field = 2 }

module _ (host : Endian) where
  -- The macros that the accessors expand to.
  unfoldable pub get : Memory → MostField → ℕ
  get m f = get_in host table 13 m (index f)

  unfoldable pub set : Memory → MostField → ℕ → Memory
  set m f value = set_in host table 13 m (index f) (u64 value)

  unfoldable pub get_pad : Memory → ℕ
  get_pad m = Padded.get_pad host padded m

  unfoldable pub is_mtv : Memory → Bool
  is_mtv m = to_bool (get m mtv)

  unfoldable pub get_most_net_id : Memory → ℕ
  get_most_net_id m = u8 (get m most_net_id)

  unfoldable pub get_message_timestamp : Memory → ℕ
  get_message_timestamp m = u64 (get m message_timestamp)

  unfoldable pub get_device_id : Memory → ℕ
  get_device_id m = u16 (get m device_id)

  unfoldable pub get_fblock_id : Memory → ℕ
  get_fblock_id m = u8 (get m fblock_id)

  unfoldable pub get_inst_id : Memory → ℕ
  get_inst_id m = u8 (get m inst_id)

  unfoldable pub get_func_id : Memory → ℕ
  get_func_id m = u16 (get m func_id)

  unfoldable pub get_op_type : Memory → ℕ
  get_op_type m = u8 (get m op_type)

  unfoldable pub set_pad : Memory → ℕ → Memory
  set_pad m value = Padded.set_pad host padded m value

  unfoldable pub set_mtv : Memory → Bool → Memory
  set_mtv m flag = set m mtv (bit_num flag)

  unfoldable pub set_most_net_id : Memory → ℕ → Memory
  set_most_net_id m value = set m most_net_id (u8 value)

  unfoldable pub set_message_timestamp : Memory → ℕ → Memory
  set_message_timestamp m value = set m message_timestamp (u64 value)

  unfoldable pub set_device_id : Memory → ℕ → Memory
  set_device_id m value = set m device_id (u16 value)

  unfoldable pub set_fblock_id : Memory → ℕ → Memory
  set_fblock_id m value = set m fblock_id (u8 value)

  unfoldable pub set_inst_id : Memory → ℕ → Memory
  set_inst_id m value = set m inst_id (u8 value)

  unfoldable pub set_func_id : Memory → ℕ → Memory
  set_func_id m value = set m func_id (u16 value)

  unfoldable pub set_op_type : Memory → ℕ → Memory
  set_op_type m value = set m op_type (u8 value)

  -- `none` for NULL.
  unfoldable pub init : Option Memory → Option Memory
  init pdu = Option.map (Padded.init host padded) pdu

  unfoldable pub set_payload : Memory → Memory → ℕ → Memory
  set_payload m payload payload_length = Padded.set_payload host padded m payload payload_length

  unfoldable pub set_payload_length : Memory → ℕ → Memory
  set_payload_length m payload_length = Padded.set_payload_length host padded m payload_length

  unfoldable pub get_payload_length : Memory → ℕ
  get_payload_length m = u8 (Padded.payload_octets host padded m)

  -- The calls in their order; the PDU is not NULL.
  unfoldable pub create_acf_message : Memory → ℕ → ℕ → ℕ → ℕ → ℕ → Memory → ℕ → Memory
  create_acf_message m device_id' fblock_id' inst_id' func_id' op_type' payload payload_length =
      let m1 = Padded.init host padded m in
      let m2 = set_device_id m1 device_id' in
      let m3 = set_fblock_id m2 fblock_id' in
      let m4 = set_inst_id m3 inst_id' in
      let m5 = set_func_id m4 func_id' in
      let m6 = set_op_type m5 op_type' in
      let m7 = set_payload m6 payload payload_length in set_payload_length m7 payload_length

  unfoldable pub is_valid : Option Memory → ℕ → Bool
  is_valid none buffer_size = false
  is_valid (some m) buffer_size = Padded.envelope_valid host padded m buffer_size
