-- ===== src/Header/CommonStreamHeader/Fields.antt =====
-- include/avtp/CommonStreamHeader.h: the header fields, their tables and the access to them.
use open_lib.Common.{List, [], if◌then◌else◌, u64, ℕ, ◌==◌, ◌∷◌}
use open_lib.Memory.{Endian, Memory}
use open_lib.Utils.{FieldDescriptor, desc, get_in, set_in}
use open_lib.Header.CommonHeader

-- `Avtp_CommonStreamHeaderField_t`
pub data CommonStreamHeaderField : Type 0 where
  sv mr fsd tv sequence_num fsd0 fsd1 tu stream_id avtp_timestamp ptp_grandmaster_identity
        stream_data_length :
      CommonStreamHeaderField

unfoldable pub index : CommonStreamHeaderField → ℕ
index sv = 0
index mr = 1
index fsd = 2
index tv = 3
index sequence_num = 4
index fsd0 = 5
index fsd1 = 6
index tu = 7
index stream_id = 8
index avtp_timestamp = 9
index ptp_grandmaster_identity = 10
index stream_data_length = 11

-- `Avtp_CshFieldDescV0`, in the order of the indices.
abbrev pub table_v0 : List FieldDescriptor
table_v0 =
    desc 0 8 1
    ∷ desc 0 12 1
    ∷ desc 0 13 2
    ∷ desc 0 15 1
    ∷ desc 0 16 8
    ∷ desc 0 0 0
    ∷ desc 0 24 7
    ∷ desc 0 31 1
    ∷ desc 1 0 64
    ∷ desc 3 0 32
    ∷ desc 0 0 0
    ∷ desc 5 0 16
    ∷ []

-- `Avtp_CshFieldDescV1`, in the order of the indices.
abbrev pub table_v1 : List FieldDescriptor
table_v1 =
    desc 0 8 1
    ∷ desc 0 12 1
    ∷ desc 0 13 2
    ∷ desc 0 15 1
    ∷ desc 3 0 32
    ∷ desc 0 16 8
    ∷ desc 0 24 7
    ∷ desc 0 31 1
    ∷ desc 1 0 64
    ∷ desc 4 0 64
    ∷ desc 6 0 64
    ∷ desc 9 0 16
    ∷ []

-- `AVTPDU_CSH_LEN_V0`
abbrev pub header_len_v0 : ℕ
header_len_v0 = 24

-- `AVTPDU_CSH_LEN_V1`
abbrev pub header_len_v1 : ℕ
header_len_v1 = 40

module _ (host : Endian) where
  unfoldable pub get_version : Memory → ℕ
  get_version pdu = CommonHeader.get_version host pdu

  unfoldable pub get_header_len_v0 : Memory → ℕ
  get_header_len_v0 pdu = header_len_v0

  unfoldable pub get_header_len_v1 : Memory → ℕ
  get_header_len_v1 pdu = header_len_v1

  unfoldable pub get_header_len : Memory → ℕ
  get_header_len pdu = if get_version pdu == 1 then get_header_len_v1 pdu else get_header_len_v0 pdu

  unfoldable pub get_field_v0 : Memory → CommonStreamHeaderField → ℕ
  get_field_v0 pdu field = get_in host table_v0 12 pdu (index field)

  unfoldable pub get_field_v1 : Memory → CommonStreamHeaderField → ℕ
  get_field_v1 pdu field = get_in host table_v1 12 pdu (index field)

  unfoldable pub get_field : Memory → CommonStreamHeaderField → ℕ
  get_field pdu field =
      if get_version pdu == 1 then get_field_v1 pdu field else get_field_v0 pdu field

  unfoldable pub set_field_v0 : Memory → CommonStreamHeaderField → ℕ → Memory
  set_field_v0 pdu field value = set_in host table_v0 12 pdu (index field) (u64 value)

  unfoldable pub set_field_v1 : Memory → CommonStreamHeaderField → ℕ → Memory
  set_field_v1 pdu field value = set_in host table_v1 12 pdu (index field) (u64 value)

  unfoldable pub set_field : Memory → CommonStreamHeaderField → ℕ → Memory
  set_field pdu field value =
      if get_version pdu == 1 then set_field_v1 pdu field value else set_field_v0 pdu field value
