-- ===== src/Media/Crf/Fields.antt =====
-- include/avtp/Crf.h: the header fields, their tables and the access to them.
use open_lib.Common.{List, [], if◌then◌else◌, u64, ℕ, ◌==◌, ◌∷◌}
use open_lib.Memory.{Endian, Memory}
use open_lib.Utils.{FieldDescriptor, desc, get_in, set_in}
use open_lib.Header.AlternativeHeader

-- `Avtp_CrfFields_t`
pub data CrfField : Type 0 where
  reserved1 sequence_num ptp_grandmaster_identity sv reserved mr r fs tu sequence_num_lsb type_field
        stream_id pull base_frequency crf_data_length timestamp_interval :
      CrfField

unfoldable pub index : CrfField → ℕ
index reserved1 = 0
index sequence_num = 1
index ptp_grandmaster_identity = 2
index sv = 3
index reserved = 4
index mr = 5
index r = 6
index fs = 7
index tu = 8
index sequence_num_lsb = 9
index type_field = 10
index stream_id = 11
index pull = 12
index base_frequency = 13
index crf_data_length = 14
index timestamp_interval = 15

-- `Avtp_CrfFieldDescV0`, in the order of the indices.
abbrev pub table_v0 : List FieldDescriptor
table_v0 =
    desc 0 0 0
    ∷ desc 0 0 0
    ∷ desc 0 0 0
    ∷ desc 0 8 1
    ∷ desc 0 0 0
    ∷ desc 0 12 1
    ∷ desc 0 13 1
    ∷ desc 0 14 1
    ∷ desc 0 15 1
    ∷ desc 0 16 8
    ∷ desc 0 24 8
    ∷ desc 1 0 64
    ∷ desc 3 0 3
    ∷ desc 3 3 29
    ∷ desc 4 0 16
    ∷ desc 4 16 16
    ∷ []

-- `Avtp_CrfFieldDescV1`, in the order of the indices.
abbrev pub table_v1 : List FieldDescriptor
table_v1 =
    desc 0 12 20
    ∷ desc 1 0 32
    ∷ desc 2 0 64
    ∷ desc 0 8 1
    ∷ desc 4 0 12
    ∷ desc 4 12 1
    ∷ desc 4 13 1
    ∷ desc 4 14 1
    ∷ desc 4 15 1
    ∷ desc 4 16 8
    ∷ desc 4 24 8
    ∷ desc 5 0 64
    ∷ desc 7 0 3
    ∷ desc 7 3 29
    ∷ desc 8 0 16
    ∷ desc 8 16 16
    ∷ []

-- `AVTP_CRF_HEADER_LEN_V0`
abbrev pub header_len_v0 : ℕ
header_len_v0 = 20

-- `AVTP_CRF_HEADER_LEN_V1`
abbrev pub header_len_v1 : ℕ
header_len_v1 = 36

-- `AVTP_CRF_SUPPORTED_VERSIONS`
abbrev pub supported_versions : ℕ
supported_versions = 3

module _ (host : Endian) where
  unfoldable pub get_field_v0 : Memory → CrfField → ℕ
  get_field_v0 pdu field = get_in host table_v0 16 pdu (index field)

  unfoldable pub get_field_v1 : Memory → CrfField → ℕ
  get_field_v1 pdu field = get_in host table_v1 16 pdu (index field)

  unfoldable pub get_field : Memory → CrfField → ℕ
  get_field pdu field =
      if AlternativeHeader.get_version host pdu == 1
      then get_field_v1 pdu field
      else get_field_v0 pdu field

  unfoldable pub set_field_v0 : Memory → CrfField → ℕ → Memory
  set_field_v0 pdu field value = set_in host table_v0 16 pdu (index field) (u64 value)

  unfoldable pub set_field_v1 : Memory → CrfField → ℕ → Memory
  set_field_v1 pdu field value = set_in host table_v1 16 pdu (index field) (u64 value)

  unfoldable pub set_field : Memory → CrfField → ℕ → Memory
  set_field pdu field value =
      if AlternativeHeader.get_version host pdu == 1
      then set_field_v1 pdu field value
      else set_field_v0 pdu field value

  unfoldable pub get_header_len_v0 : Memory → ℕ
  get_header_len_v0 pdu = header_len_v0

  unfoldable pub get_header_len_v1 : Memory → ℕ
  get_header_len_v1 pdu = header_len_v1

  unfoldable pub get_header_len : Memory → ℕ
  get_header_len pdu =
      if AlternativeHeader.get_version host pdu == 1
      then get_header_len_v1 pdu
      else get_header_len_v0 pdu
