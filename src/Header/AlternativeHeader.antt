-- ===== src/Header/AlternativeHeader.antt =====
-- include/avtp/AlternativeHeader.h: the header fields and the functions on them.
use open_lib.Common.{List, [], if◌then◌else◌, u32, u64, ℕ, ◌==◌, ◌∷◌}
use open_lib.Memory.{Endian, Memory}
use open_lib.Utils.{FieldDescriptor, desc, get_in, set_in}
use open_lib.Header.CommonHeader

-- `Avtp_AlternativeHeaderField_t`
pub data AlternativeHeaderField : Type 0 where
  reserved1 sequence_num ptp_grandmaster_identity : AlternativeHeaderField

unfoldable pub index : AlternativeHeaderField → ℕ
index reserved1 = 0
index sequence_num = 1
index ptp_grandmaster_identity = 2

-- `Avtp_AhFieldDescV0`, in the order of the indices.
abbrev pub table_v0 : List FieldDescriptor
table_v0 = desc 0 0 0 ∷ desc 0 0 0 ∷ desc 0 0 0 ∷ []

-- `Avtp_AhFieldDescV1`, in the order of the indices.
abbrev pub table_v1 : List FieldDescriptor
table_v1 = desc 0 12 20 ∷ desc 1 0 32 ∷ desc 2 0 64 ∷ []

-- `AVTPDU_AH_LEN_V0`
abbrev pub header_len_v0 : ℕ
header_len_v0 = 4

-- `AVTPDU_AH_LEN_V1`
abbrev pub header_len_v1 : ℕ
header_len_v1 = 16

module _ (host : Endian) where
  unfoldable pub get_version : Memory → ℕ
  get_version pdu = CommonHeader.get_version host pdu

  unfoldable pub get_field_v0 : Memory → AlternativeHeaderField → ℕ
  get_field_v0 pdu field = get_in host table_v0 3 pdu (index field)

  unfoldable pub get_field_v1 : Memory → AlternativeHeaderField → ℕ
  get_field_v1 pdu field = get_in host table_v1 3 pdu (index field)

  unfoldable pub get_field : Memory → AlternativeHeaderField → ℕ
  get_field pdu field =
      if get_version pdu == 1 then get_field_v1 pdu field else get_field_v0 pdu field

  unfoldable pub set_field_v0 : Memory → AlternativeHeaderField → ℕ → Memory
  set_field_v0 pdu field value = set_in host table_v0 3 pdu (index field) (u64 value)

  unfoldable pub set_field_v1 : Memory → AlternativeHeaderField → ℕ → Memory
  set_field_v1 pdu field value = set_in host table_v1 3 pdu (index field) (u64 value)

  unfoldable pub set_field : Memory → AlternativeHeaderField → ℕ → Memory
  set_field pdu field value =
      if get_version pdu == 1 then set_field_v1 pdu field value else set_field_v0 pdu field value

  unfoldable pub get_sequence_num : Memory → ℕ
  get_sequence_num pdu = u32 (get_field pdu sequence_num)

  unfoldable pub set_sequence_num : Memory → ℕ → Memory
  set_sequence_num pdu value = set_field pdu sequence_num (u32 value)

  unfoldable pub get_ptp_grandmaster_identity : Memory → ℕ
  get_ptp_grandmaster_identity pdu = get_field pdu ptp_grandmaster_identity

  unfoldable pub set_ptp_grandmaster_identity : Memory → ℕ → Memory
  set_ptp_grandmaster_identity pdu value = set_field pdu ptp_grandmaster_identity value

  unfoldable pub get_sequence_num_v0 : Memory → ℕ
  get_sequence_num_v0 pdu = u32 (get_field_v0 pdu sequence_num)

  unfoldable pub get_sequence_num_v1 : Memory → ℕ
  get_sequence_num_v1 pdu = u32 (get_field_v1 pdu sequence_num)

  unfoldable pub get_ptp_grandmaster_identity_v0 : Memory → ℕ
  get_ptp_grandmaster_identity_v0 pdu = get_field_v0 pdu ptp_grandmaster_identity

  unfoldable pub get_ptp_grandmaster_identity_v1 : Memory → ℕ
  get_ptp_grandmaster_identity_v1 pdu = get_field_v1 pdu ptp_grandmaster_identity

  unfoldable pub set_sequence_num_v0 : Memory → ℕ → Memory
  set_sequence_num_v0 pdu value = set_field_v0 pdu sequence_num (u32 value)

  unfoldable pub set_sequence_num_v1 : Memory → ℕ → Memory
  set_sequence_num_v1 pdu value = set_field_v1 pdu sequence_num (u32 value)

  unfoldable pub set_ptp_grandmaster_identity_v0 : Memory → ℕ → Memory
  set_ptp_grandmaster_identity_v0 pdu value = set_field_v0 pdu ptp_grandmaster_identity value

  unfoldable pub set_ptp_grandmaster_identity_v1 : Memory → ℕ → Memory
  set_ptp_grandmaster_identity_v1 pdu value = set_field_v1 pdu ptp_grandmaster_identity value
