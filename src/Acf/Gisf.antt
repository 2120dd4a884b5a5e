-- ===== src/Acf/Gisf.antt =====
-- include/avtp/acf/Gisf.h: the header fields of ACF Gisf messages and the functions on them.
use open_lib.Common.{
  ℕ, ◌*◌, List, [], ◌∷◌, Bool, Option, bit_num, false, none, some, to_bool, u16, u64, u8,
}
use mathlib.Core.Option
use open_lib.Memory.{Memory, Endian}
use open_lib.Utils.{FieldDescriptor, desc, get_in, set_in}
use open_lib.Acf.{quadlet_size}
use open_lib.Acf.Padded
use open_lib.Acf.Padded.{PaddedFormat}

-- `Avtp_GisfFields_t`
pub data GisfField : Type 0 where
  acf_msg_type acf_msg_length pad mtv rsv1 image_sensor_id message_timestamp reserved r el tl ef evt
        rsv2 bf line_type_id evt2 i_seq_num line_number :
      GisfField

unfoldable pub index : GisfField → ℕ
index acf_msg_type = 0
index acf_msg_length = 1
index pad = 2
index mtv = 3
index rsv1 = 4
index image_sensor_id = 5
index message_timestamp = 6
index reserved = 7
index r = 8
index el = 9
index tl = 10
index ef = 11
index evt = 12
index rsv2 = 13
index bf = 14
index line_type_id = 15
index evt2 = 16
index i_seq_num = 17
index line_number = 18

-- `Avtp_GisfFieldDesc`, in the order of the indices.
abbrev pub table : List FieldDescriptor
table =
    desc 0 0 7
    ∷ desc 0 7 9
    ∷ desc 0 16 2
    ∷ desc 0 18 1
    ∷ desc 0 19 2
    ∷ desc 0 21 11
    ∷ desc 1 0 64
    ∷ desc 3 0 16
    ∷ desc 3 16 1
    ∷ desc 3 17 1
    ∷ desc 3 18 1
    ∷ desc 3 19 1
    ∷ desc 3 20 4
    ∷ desc 3 24 2
    ∷ desc 3 26 1
    ∷ desc 3 27 5
    ∷ desc 4 0 8
    ∷ desc 4 8 8
    ∷ desc 4 16 16
    ∷ []

-- `AVTP_GISF_HEADER_LEN`
abbrev pub header_len : ℕ
header_len = 5 * quadlet_size

-- `Avtp_Gisf_GetPayload`: the address of the payload.
abbrev pub get_payload : ℕ
get_payload = header_len

abbrev pub padded : PaddedFormat
padded = record { header_len = header_len; acf_type = 0xc; table = table; pad_field = 2 }

module _ (host : Endian) where
  -- The macros that the accessors expand to.
  unfoldable pub get : Memory → GisfField → ℕ
  get m f = get_in host table 19 m (index f)

  unfoldable pub set : Memory → GisfField → ℕ → Memory
  set m f value = set_in host table 19 m (index f) (u64 value)

  unfoldable pub get_pad : Memory → ℕ
  get_pad m = Padded.get_pad host padded m

  unfoldable pub set_pad : Memory → ℕ → Memory
  set_pad m value = Padded.set_pad host padded m value

  unfoldable pub is_mtv : Memory → Bool
  is_mtv m = to_bool (get m mtv)

  unfoldable pub get_image_sensor_id : Memory → ℕ
  get_image_sensor_id m = u16 (get m image_sensor_id)

  unfoldable pub get_message_timestamp : Memory → ℕ
  get_message_timestamp m = u64 (get m message_timestamp)

  unfoldable pub is_el : Memory → Bool
  is_el m = to_bool (get m el)

  unfoldable pub is_tl : Memory → Bool
  is_tl m = to_bool (get m tl)

  unfoldable pub is_ef : Memory → Bool
  is_ef m = to_bool (get m ef)

  unfoldable pub get_evt : Memory → ℕ
  get_evt m = u8 (get m evt)

  unfoldable pub is_bf : Memory → Bool
  is_bf m = to_bool (get m bf)

  unfoldable pub get_line_type_id : Memory → ℕ
  get_line_type_id m = u8 (get m line_type_id)

  unfoldable pub get_evt2 : Memory → ℕ
  get_evt2 m = u8 (get m evt2)

  unfoldable pub get_iseq_num : Memory → ℕ
  get_iseq_num m = u8 (get m i_seq_num)

  unfoldable pub get_line_number : Memory → ℕ
  get_line_number m = u16 (get m line_number)

  unfoldable pub set_mtv : Memory → Bool → Memory
  set_mtv m flag = set m mtv (bit_num flag)

  unfoldable pub set_image_sensor_id : Memory → ℕ → Memory
  set_image_sensor_id m value = set m image_sensor_id (u16 value)

  unfoldable pub set_message_timestamp : Memory → ℕ → Memory
  set_message_timestamp m value = set m message_timestamp (u64 value)

  unfoldable pub set_el : Memory → Bool → Memory
  set_el m flag = set m el (bit_num flag)

  unfoldable pub set_tl : Memory → Bool → Memory
  set_tl m flag = set m tl (bit_num flag)

  unfoldable pub set_ef : Memory → Bool → Memory
  set_ef m flag = set m ef (bit_num flag)

  unfoldable pub set_evt : Memory → ℕ → Memory
  set_evt m value = set m evt (u8 value)

  unfoldable pub set_bf : Memory → Bool → Memory
  set_bf m flag = set m bf (bit_num flag)

  unfoldable pub set_line_type_id : Memory → ℕ → Memory
  set_line_type_id m value = set m line_type_id (u8 value)

  unfoldable pub set_evt2 : Memory → ℕ → Memory
  set_evt2 m value = set m evt2 (u8 value)

  unfoldable pub set_iseq_num : Memory → ℕ → Memory
  set_iseq_num m value = set m i_seq_num (u8 value)

  unfoldable pub set_line_number : Memory → ℕ → Memory
  set_line_number m value = set m line_number (u16 value)

  -- `none` for NULL.
  unfoldable pub init : Option Memory → Option Memory
  init pdu = Option.map (Padded.init host padded) pdu

  unfoldable pub set_payload : Memory → Memory → ℕ → Memory
  set_payload m payload payload_length = Padded.set_payload host padded m payload payload_length

  unfoldable pub set_payload_length : Memory → ℕ → Memory
  set_payload_length m payload_length = Padded.set_payload_length host padded m payload_length

  unfoldable pub get_payload_length : Memory → ℕ
  get_payload_length m = u16 (Padded.payload_octets host padded m)

  -- The calls in their order; the PDU is not NULL.
  unfoldable pub create_acf_message : Memory → ℕ → Memory → ℕ → Memory
  create_acf_message m image_sensor_id' payload payload_length =
      let m1 = Padded.init host padded m in
      let m2 = set_image_sensor_id m1 image_sensor_id' in
      let m3 = set_payload m2 payload payload_length in set_payload_length m3 payload_length

  unfoldable pub is_valid : Option Memory → ℕ → Bool
  is_valid none buffer_size = false
  is_valid (some m) buffer_size = Padded.envelope_valid host padded m buffer_size
