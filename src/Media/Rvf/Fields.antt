-- ===== src/Media/Rvf/Fields.antt =====
-- include/avtp/Rvf.h: the header fields, their tables and the access to them.
use open_lib.Common.{List, [], if◌then◌else◌, u64, ℕ, ◌==◌, ◌∷◌}
use open_lib.Memory.{Endian, Memory}
use open_lib.Utils.{FieldDescriptor, desc, get_in, set_in}
use open_lib.Header.CommonStreamHeader

-- `Avtp_RvfFields_t`
pub data RvfField : Type 0 where
  sv mr fsd tv sequence_num fsd0 fsd1 tu stream_id avtp_timestamp ptp_grandmaster_identity
        stream_data_length active_pixels total_lines ap r f_bit ef evt pd i reserved2 :
      RvfField

unfoldable pub index : RvfField → ℕ
index sv = 0
index mr = 1
index fsd = 2
index tv = 3
index sequence_num = 4
index fsd0 = 5
index fsd1 = 6
index tu = 7
index stream_id = 8
index avtp_timestamp = 9
index ptp_grandmaster_identity = 10
index stream_data_length = 11
index active_pixels = 12
index total_lines = 13
index ap = 14
index r = 15
index f_bit = 16
index ef = 17
index evt = 18
index pd = 19
index i = 20
index reserved2 = 21

-- `Avtp_RvfFieldDescV0`, in the order of the indices.
abbrev pub table_v0 : List FieldDescriptor
table_v0 =
    desc 0 8 1
    ∷ desc 0 12 1
    ∷ desc 0 13 2
    ∷ desc 0 15 1
    ∷ desc 0 16 8
    ∷ desc 0 0 0
    ∷ desc 0 24 7
    ∷ desc 0 31 1
    ∷ desc 1 0 64
    ∷ desc 3 0 32
    ∷ desc 0 0 0
    ∷ desc 5 0 16
    ∷ desc 4 0 16
    ∷ desc 4 16 16
    ∷ desc 5 16 1
    ∷ desc 5 17 1
    ∷ desc 5 18 1
    ∷ desc 5 19 1
    ∷ desc 5 20 4
    ∷ desc 5 24 1
    ∷ desc 5 25 1
    ∷ desc 5 26 6
    ∷ []

-- `Avtp_RvfFieldDescV1`, in the order of the indices.
abbrev pub table_v1 : List FieldDescriptor
table_v1 =
    desc 0 8 1
    ∷ desc 0 12 1
    ∷ desc 0 13 2
    ∷ desc 0 15 1
    ∷ desc 3 0 32
    ∷ desc 0 16 8
    ∷ desc 0 24 7
    ∷ desc 0 31 1
    ∷ desc 1 0 64
    ∷ desc 4 0 64
    ∷ desc 6 0 64
    ∷ desc 9 0 16
    ∷ desc 8 0 16
    ∷ desc 8 16 16
    ∷ desc 9 16 1
    ∷ desc 9 17 1
    ∷ desc 9 18 1
    ∷ desc 9 19 1
    ∷ desc 9 20 4
    ∷ desc 9 24 1
    ∷ desc 9 25 1
    ∷ desc 9 26 6
    ∷ []

-- `AVTP_RVF_HEADER_LEN_V0`
abbrev pub header_len_v0 : ℕ
header_len_v0 = 24

-- `AVTP_RVF_HEADER_LEN_V1`
abbrev pub header_len_v1 : ℕ
header_len_v1 = 40

-- `AVTP_RVF_SUPPORTED_VERSIONS`
abbrev pub supported_versions : ℕ
supported_versions = 3

module _ (host : Endian) where
  unfoldable pub get_field_v0 : Memory → RvfField → ℕ
  get_field_v0 pdu field = get_in host table_v0 22 pdu (index field)

  unfoldable pub get_field_v1 : Memory → RvfField → ℕ
  get_field_v1 pdu field = get_in host table_v1 22 pdu (index field)

  unfoldable pub get_field : Memory → RvfField → ℕ
  get_field pdu field =
      if CommonStreamHeader.get_version host pdu == 1
      then get_field_v1 pdu field
      else get_field_v0 pdu field

  unfoldable pub set_field_v0 : Memory → RvfField → ℕ → Memory
  set_field_v0 pdu field value = set_in host table_v0 22 pdu (index field) (u64 value)

  unfoldable pub set_field_v1 : Memory → RvfField → ℕ → Memory
  set_field_v1 pdu field value = set_in host table_v1 22 pdu (index field) (u64 value)

  unfoldable pub set_field : Memory → RvfField → ℕ → Memory
  set_field pdu field value =
      if CommonStreamHeader.get_version host pdu == 1
      then set_field_v1 pdu field value
      else set_field_v0 pdu field value

  unfoldable pub get_header_len_v0 : Memory → ℕ
  get_header_len_v0 pdu = header_len_v0

  unfoldable pub get_header_len_v1 : Memory → ℕ
  get_header_len_v1 pdu = header_len_v1

  unfoldable pub get_header_len : Memory → ℕ
  get_header_len pdu =
      if CommonStreamHeader.get_version host pdu == 1
      then get_header_len_v1 pdu
      else get_header_len_v0 pdu
