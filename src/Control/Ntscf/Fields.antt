-- ===== src/Control/Ntscf/Fields.antt =====
-- include/avtp/acf/Ntscf.h: the header fields, their tables and the access to them.
use open_lib.Common.{List, [], if◌then◌else◌, u64, ℕ, ◌==◌, ◌∷◌}
use open_lib.Memory.{Endian, Memory}
use open_lib.Utils.{FieldDescriptor, desc, get_in, set_in}
use open_lib.Header.AlternativeHeader

-- `Avtp_NtscfFields_t`
pub data NtscfField : Type 0 where
  reserved1 sequence_num ptp_grandmaster_identity sv reserved r ntscf_data_length sequence_num_lsb
        stream_id :
      NtscfField

unfoldable pub index : NtscfField → ℕ
index reserved1 = 0
index sequence_num = 1
index ptp_grandmaster_identity = 2
index sv = 3
index reserved = 4
index r = 5
index ntscf_data_length = 6
index sequence_num_lsb = 7
index stream_id = 8

-- `Avtp_NtscfFieldDescV0`, in the order of the indices.
abbrev pub table_v0 : List FieldDescriptor
table_v0 =
    desc 0 0 0
    ∷ desc 0 0 0
    ∷ desc 0 0 0
    ∷ desc 0 8 1
    ∷ desc 0 0 0
    ∷ desc 0 12 1
    ∷ desc 0 13 11
    ∷ desc 0 24 8
    ∷ desc 1 0 64
    ∷ []

-- `Avtp_NtscfFieldDescV1`, in the order of the indices.
abbrev pub table_v1 : List FieldDescriptor
table_v1 =
    desc 0 12 20
    ∷ desc 1 0 32
    ∷ desc 2 0 64
    ∷ desc 0 8 1
    ∷ desc 4 0 12
    ∷ desc 4 12 1
    ∷ desc 4 13 11
    ∷ desc 4 24 8
    ∷ desc 5 0 64
    ∷ []

-- `AVTP_NTSCF_HEADER_LEN_V0`
abbrev pub header_len_v0 : ℕ
header_len_v0 = 12

-- `AVTP_NTSCF_HEADER_LEN_V1`
abbrev pub header_len_v1 : ℕ
header_len_v1 = 28

-- `AVTP_NTSCF_SUPPORTED_VERSIONS`
abbrev pub supported_versions : ℕ
supported_versions = 3

module _ (host : Endian) where
  unfoldable pub get_field_v0 : Memory → NtscfField → ℕ
  get_field_v0 pdu field = get_in host table_v0 9 pdu (index field)

  unfoldable pub get_field_v1 : Memory → NtscfField → ℕ
  get_field_v1 pdu field = get_in host table_v1 9 pdu (index field)

  unfoldable pub get_field : Memory → NtscfField → ℕ
  get_field pdu field =
      if AlternativeHeader.get_version host pdu == 1
      then get_field_v1 pdu field
      else get_field_v0 pdu field

  unfoldable pub set_field_v0 : Memory → NtscfField → ℕ → Memory
  set_field_v0 pdu field value = set_in host table_v0 9 pdu (index field) (u64 value)

  unfoldable pub set_field_v1 : Memory → NtscfField → ℕ → Memory
  set_field_v1 pdu field value = set_in host table_v1 9 pdu (index field) (u64 value)

  unfoldable pub set_field : Memory → NtscfField → ℕ → Memory
  set_field pdu field value =
      if AlternativeHeader.get_version host pdu == 1
      then set_field_v1 pdu field value
      else set_field_v0 pdu field value

  unfoldable pub get_header_len_v0 : Memory → ℕ
  get_header_len_v0 pdu = header_len_v0

  unfoldable pub get_header_len_v1 : Memory → ℕ
  get_header_len_v1 pdu = header_len_v1

  unfoldable pub get_header_len : Memory → ℕ
  get_header_len pdu =
      if AlternativeHeader.get_version host pdu == 1
      then get_header_len_v1 pdu
      else get_header_len_v0 pdu
