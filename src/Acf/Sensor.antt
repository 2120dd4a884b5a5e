-- ===== src/Acf/Sensor.antt =====
-- include/avtp/acf/Sensor.h: the header fields and the functions on them.
use open_lib.Common.{
  Bool, List, Option, [], bit_and, bit_num, false, if◌then◌else◌, ltb, none, not, not32, some,
  to_bool, true, u16, u64, u8, ℕ, ◌%◌, ◌*◌, ◌+◌, ◌-◌, ◌/◌, ◌==◌, ◌∷◌,
}
use mathlib.Core.Option
use open_lib.Memory.{Endian, Memory, memcpy, memset}
use open_lib.Utils.{FieldDescriptor, desc, get_in, set_in}
use open_lib.Acf

-- `Avtp_SensorFields_t`
pub data SensorField : Type 0 where
  acf_msg_type acf_msg_length mtv num_sensor sz sensor_group message_timestamp : SensorField

unfoldable pub index : SensorField → ℕ
index acf_msg_type = 0
index acf_msg_length = 1
index mtv = 2
index num_sensor = 3
index sz = 4
index sensor_group = 5
index message_timestamp = 6

-- `Avtp_SensorFieldDesc`, in the order of the indices.
abbrev pub table : List FieldDescriptor
table =
    desc 0 0 7
    ∷ desc 0 7 9
    ∷ desc 0 16 1
    ∷ desc 0 17 7
    ∷ desc 0 24 2
    ∷ desc 0 26 6
    ∷ desc 1 0 64
    ∷ []

-- `AVTP_SENSOR_HEADER_LEN`
abbrev pub header_len : ℕ
header_len = 12

module _ (host : Endian) where
  -- The macros.
  unfoldable pub get : Memory → SensorField → ℕ
  get pdu field = get_in host table 7 pdu (index field)

  unfoldable pub set : Memory → SensorField → ℕ → Memory
  set pdu field value = set_in host table 7 pdu (index field) (u64 value)

  unfoldable pub is_mtv : Memory → Bool
  is_mtv pdu = to_bool (get pdu mtv)

  unfoldable pub get_num_sensor : Memory → ℕ
  get_num_sensor pdu = u8 (get pdu num_sensor)

  unfoldable pub get_sz : Memory → ℕ
  get_sz pdu = u8 (get pdu sz)

  unfoldable pub get_sensor_group : Memory → ℕ
  get_sensor_group pdu = u8 (get pdu sensor_group)

  unfoldable pub get_message_timestamp : Memory → ℕ
  get_message_timestamp pdu = get pdu message_timestamp

  unfoldable pub set_mtv : Memory → Bool → Memory
  set_mtv pdu flag = set pdu mtv (bit_num flag)

  unfoldable pub set_num_sensor : Memory → ℕ → Memory
  set_num_sensor pdu value = set pdu num_sensor (u8 value)

  unfoldable pub set_sz : Memory → ℕ → Memory
  set_sz pdu value = set pdu sz (u8 value)

  unfoldable pub set_sensor_group : Memory → ℕ → Memory
  set_sensor_group pdu value = set pdu sensor_group (u8 value)

  unfoldable pub set_message_timestamp : Memory → ℕ → Memory
  set_message_timestamp pdu value = set pdu message_timestamp value

  unfoldable pub get_payload : Memory → ℕ
  get_payload pdu = header_len

  unfoldable pub set_payload : Memory → Memory → ℕ → Memory
  set_payload pdu payload payload_length = memcpy pdu header_len payload 0 (u16 payload_length)

  unfoldable pub set_payload_length : Memory → ℕ → Memory
  set_payload_length pdu payload_length =
      let msg_len_bytes = u16 (header_len + u16 payload_length) in
      let pad = u8 (u8 (4 - (msg_len_bytes % 4)) % 4) in
      let pdu1 = if ltb 0 pad then memset pdu (header_len + u16 payload_length) 0 pad else pdu in
      let msg_len_quadlets = u16 ((msg_len_bytes + pad) / 4) in
      Acf.set_acf_msg_length host pdu1 msg_len_quadlets

  unfoldable pub get_payload_length : Memory → ℕ
  get_payload_length pdu =
      let num = get_num_sensor pdu in
      let count = u8 (if (num == 0) then 128 else num) in
      let sz_value = get_sz pdu in
      let size = u8 (if (sz_value == 0) then 4 else sz_value) in u16 (count * size)

  -- `Avtp_Sensor_Init` of a PDU that is not NULL.
  unfoldable pub init_present : Memory → Memory
  init_present pdu = let pdu1 = memset pdu 0 0 header_len in Acf.set_acf_msg_type host pdu1 8

  unfoldable pub init : Option Memory → Option Memory
  init pdu = Option.map init_present pdu

  unfoldable pub create_acf_message : Memory → ℕ → ℕ → Memory → ℕ → Memory
  create_acf_message pdu num_sensors sz_value payload payload_length =
      let pdu1 = init_present pdu in
      let pdu2 = set_num_sensor pdu1 (u8 num_sensors) in
      let pdu3 = set_sz pdu2 (u8 sz_value) in
      let pdu4 = set_payload pdu3 payload (u16 payload_length) in
      set_payload_length pdu4 (u16 payload_length)

  unfoldable pub is_valid : Option Memory → ℕ → Bool
  is_valid none buffer_size = false
  is_valid (some pdu) buffer_size =
      if ltb buffer_size header_len
      then false
      else if not (Acf.get_acf_msg_type host pdu == 8)
      then false
      else (let msg_length_bytes = Acf.get_acf_msg_length_in_bytes host pdu in
          if ltb buffer_size msg_length_bytes
          then false
          else if ltb msg_length_bytes header_len
          then false
          else (let data_len = get_payload_length pdu in
              let padded_len = u16 (bit_and (data_len + 3) (not32 3)) in
              let expected_len = u16 (header_len + padded_len) in
              if not (msg_length_bytes == expected_len) then false else true))
