-- ===== src/Acf/I2cBrief.antt =====
-- include/avtp/acf/I2CBrief.h: the header fields and the functions on them.
use open_lib.Common.{
  Bool, List, Option, [], bit_num, false, if◌then◌else◌, ltb, none, not, some, to_bool, true, u16,
  u64, u8, ℕ, ◌/◌, ◌==◌, ◌∷◌,
}
use mathlib.Core.Option
use open_lib.Memory.{Endian, Memory, memset}
use open_lib.Utils.{FieldDescriptor, desc, get_in, set_in}
use open_lib.Acf

-- `Avtp_I2CBriefFields_t`
pub data I2cBriefField : Type 0 where
  acf_msg_type acf_msg_length pad mtv rsv i2c_bus_id i2c_code trr reserved transaction_num evt
        exception_code i2c_data :
      I2cBriefField

unfoldable pub index : I2cBriefField → ℕ
index acf_msg_type = 0
index acf_msg_length = 1
index pad = 2
index mtv = 3
index rsv = 4
index i2c_bus_id = 5
index i2c_code = 6
index trr = 7
index reserved = 8
index transaction_num = 9
index evt = 10
index exception_code = 11
index i2c_data = 12

-- `Avtp_I2CBriefFieldDesc`, in the order of the indices.
abbrev pub table : List FieldDescriptor
table =
    desc 0 0 7
    ∷ desc 0 7 9
    ∷ desc 0 16 2
    ∷ desc 0 18 1
    ∷ desc 0 19 2
    ∷ desc 0 21 11
    ∷ desc 1 0 4
    ∷ desc 1 4 1
    ∷ desc 1 5 3
    ∷ desc 1 8 8
    ∷ desc 1 16 4
    ∷ desc 1 20 4
    ∷ desc 1 24 8
    ∷ []

-- `AVTP_I2C_BRIEF_HEADER_LEN`
abbrev pub header_len : ℕ
header_len = 8

module _ (host : Endian) where
  -- The macros.
  unfoldable pub get : Memory → I2cBriefField → ℕ
  get pdu field = get_in host table 13 pdu (index field)

  unfoldable pub set : Memory → I2cBriefField → ℕ → Memory
  set pdu field value = set_in host table 13 pdu (index field) (u64 value)

  unfoldable pub get_pad : Memory → ℕ
  get_pad pdu = u8 (get pdu pad)

  unfoldable pub is_mtv : Memory → Bool
  is_mtv pdu = to_bool (get pdu mtv)

  unfoldable pub get_i2c_bus_id : Memory → ℕ
  get_i2c_bus_id pdu = u16 (get pdu i2c_bus_id)

  unfoldable pub get_i2c_code : Memory → ℕ
  get_i2c_code pdu = u8 (get pdu i2c_code)

  unfoldable pub is_trr : Memory → Bool
  is_trr pdu = to_bool (get pdu trr)

  unfoldable pub get_transaction_num : Memory → ℕ
  get_transaction_num pdu = u8 (get pdu transaction_num)

  unfoldable pub get_evt : Memory → ℕ
  get_evt pdu = u8 (get pdu evt)

  unfoldable pub get_exception_code : Memory → ℕ
  get_exception_code pdu = u8 (get pdu exception_code)

  unfoldable pub get_i2c_data : Memory → ℕ
  get_i2c_data pdu = u8 (get pdu i2c_data)

  unfoldable pub set_pad : Memory → ℕ → Memory
  set_pad pdu value = set pdu pad (u8 value)

  unfoldable pub set_mtv : Memory → Bool → Memory
  set_mtv pdu flag = set pdu mtv (bit_num flag)

  unfoldable pub set_i2c_bus_id : Memory → ℕ → Memory
  set_i2c_bus_id pdu value = set pdu i2c_bus_id (u16 value)

  unfoldable pub set_i2c_code : Memory → ℕ → Memory
  set_i2c_code pdu value = set pdu i2c_code (u8 value)

  unfoldable pub set_trr : Memory → Bool → Memory
  set_trr pdu flag = set pdu trr (bit_num flag)

  unfoldable pub set_transaction_num : Memory → ℕ → Memory
  set_transaction_num pdu value = set pdu transaction_num (u8 value)

  unfoldable pub set_evt : Memory → ℕ → Memory
  set_evt pdu value = set pdu evt (u8 value)

  unfoldable pub set_exception_code : Memory → ℕ → Memory
  set_exception_code pdu value = set pdu exception_code (u8 value)

  unfoldable pub set_i2c_data : Memory → ℕ → Memory
  set_i2c_data pdu value = set pdu i2c_data (u8 value)

  -- `Avtp_I2CBrief_Init` of a PDU that is not NULL.
  unfoldable pub init_present : Memory → Memory
  init_present pdu = let pdu1 = memset pdu 0 0 header_len in Acf.set_acf_msg_type host pdu1 0x10

  unfoldable pub init : Option Memory → Option Memory
  init pdu = Option.map init_present pdu

  unfoldable pub create_acf_message : Memory → ℕ → Bool → ℕ → ℕ → ℕ → ℕ → Memory
  create_acf_message pdu i2c_code_value flag transaction_num_value event exception_code_value
        i2c_data_value =
      let pdu1 = init_present pdu in
      let pdu2 = set_i2c_code pdu1 (u8 i2c_code_value) in
      let pdu3 = set_trr pdu2 flag in
      let pdu4 = set_transaction_num pdu3 (u8 transaction_num_value) in
      let pdu5 = set_evt pdu4 (u8 event) in
      let pdu6 = set_exception_code pdu5 (u8 exception_code_value) in
      let pdu7 = set_i2c_data pdu6 (u8 i2c_data_value) in
      Acf.set_acf_msg_length host pdu7 (u16 (header_len / 4))

  unfoldable pub is_valid : Option Memory → ℕ → Bool
  is_valid none buffer_size = false
  is_valid (some pdu) buffer_size =
      if ltb buffer_size header_len
      then false
      else (let msg_length_bytes = Acf.get_acf_msg_length_in_bytes host pdu in
          if not (msg_length_bytes == header_len)
          then false
          else if not (Acf.get_acf_msg_type host pdu == 0x10)
          then false
          else true)
