-- ===== src/Control/Tscf/Fields.antt =====
-- include/avtp/acf/Tscf.h: the header fields, their tables and the access to them.
use open_lib.Common.{List, [], if◌then◌else◌, u64, ℕ, ◌==◌, ◌∷◌}
use open_lib.Memory.{Endian, Memory}
use open_lib.Utils.{FieldDescriptor, desc, get_in, set_in}
use open_lib.Header.CommonStreamHeader

-- `Avtp_TscfFields_t`
pub data TscfField : Type 0 where
  sv mr fsd tv sequence_num fsd0 fsd1 tu stream_id avtp_timestamp ptp_grandmaster_identity
        stream_data_length reserved2 reserved3 :
      TscfField

unfoldable pub index : TscfField → ℕ
index sv = 0
index mr = 1
index fsd = 2
index tv = 3
index sequence_num = 4
index fsd0 = 5
index fsd1 = 6
index tu = 7
index stream_id = 8
index avtp_timestamp = 9
index ptp_grandmaster_identity = 10
index stream_data_length = 11
index reserved2 = 12
index reserved3 = 13

-- `Avtp_TscfFieldDescV0`, in the order of the indices.
abbrev pub table_v0 : List FieldDescriptor
table_v0 =
    desc 0 8 1
    ∷ desc 0 12 1
    ∷ desc 0 13 2
    ∷ desc 0 15 1
    ∷ desc 0 16 8
    ∷ desc 0 0 0
    ∷ desc 0 24 7
    ∷ desc 0 31 1
    ∷ desc 1 0 64
    ∷ desc 3 0 32
    ∷ desc 0 0 0
    ∷ desc 5 0 16
    ∷ desc 4 0 32
    ∷ desc 5 16 16
    ∷ []

-- `Avtp_TscfFieldDescV1`, in the order of the indices.
abbrev pub table_v1 : List FieldDescriptor
table_v1 =
    desc 0 8 1
    ∷ desc 0 12 1
    ∷ desc 0 13 2
    ∷ desc 0 15 1
    ∷ desc 3 0 32
    ∷ desc 0 16 8
    ∷ desc 0 24 7
    ∷ desc 0 31 1
    ∷ desc 1 0 64
    ∷ desc 4 0 64
    ∷ desc 6 0 64
    ∷ desc 9 0 16
    ∷ desc 8 0 32
    ∷ desc 9 16 16
    ∷ []

-- `AVTP_TSCF_HEADER_LEN_V0`
abbrev pub header_len_v0 : ℕ
header_len_v0 = 24

-- `AVTP_TSCF_HEADER_LEN_V1`
abbrev pub header_len_v1 : ℕ
header_len_v1 = 40

-- `AVTP_TSCF_SUPPORTED_VERSIONS`
abbrev pub supported_versions : ℕ
supported_versions = 3

module _ (host : Endian) where
  unfoldable pub get_field_v0 : Memory → TscfField → ℕ
  get_field_v0 pdu field = get_in host table_v0 14 pdu (index field)

  unfoldable pub get_field_v1 : Memory → TscfField → ℕ
  get_field_v1 pdu field = get_in host table_v1 14 pdu (index field)

  unfoldable pub get_field : Memory → TscfField → ℕ
  get_field pdu field =
      if CommonStreamHeader.get_version host pdu == 1
      then get_field_v1 pdu field
      else get_field_v0 pdu field

  unfoldable pub set_field_v0 : Memory → TscfField → ℕ → Memory
  set_field_v0 pdu field value = set_in host table_v0 14 pdu (index field) (u64 value)

  unfoldable pub set_field_v1 : Memory → TscfField → ℕ → Memory
  set_field_v1 pdu field value = set_in host table_v1 14 pdu (index field) (u64 value)

  unfoldable pub set_field : Memory → TscfField → ℕ → Memory
  set_field pdu field value =
      if CommonStreamHeader.get_version host pdu == 1
      then set_field_v1 pdu field value
      else set_field_v0 pdu field value

  unfoldable pub get_header_len_v0 : Memory → ℕ
  get_header_len_v0 pdu = header_len_v0

  unfoldable pub get_header_len_v1 : Memory → ℕ
  get_header_len_v1 pdu = header_len_v1

  unfoldable pub get_header_len : Memory → ℕ
  get_header_len pdu =
      if CommonStreamHeader.get_version host pdu == 1
      then get_header_len_v1 pdu
      else get_header_len_v0 pdu
