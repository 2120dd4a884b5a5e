-- ===== src/Header/CommonHeader.antt =====
-- include/avtp/CommonHeader.h: the header fields and the functions on them.
use open_lib.Common.{
  Bool, List, [], bit_and, false, if◌then◌else◌, leb, to_bool, u64, u8, ℕ, ◌>>>◌, ◌∷◌,
}
use open_lib.Memory.{Endian, Memory}
use open_lib.Utils.{FieldDescriptor, desc, get_in, set_in}

-- `Avtp_CommonHeaderField_t`
pub data CommonHeaderField : Type 0 where
  subtype h version : CommonHeaderField

unfoldable pub index : CommonHeaderField → ℕ
index subtype = 0
index h = 1
index version = 2

-- `Avtp_CommonHeaderFieldDesc`, in the order of the indices.
abbrev pub table : List FieldDescriptor
table = desc 0 0 8 ∷ desc 0 8 1 ∷ desc 0 9 3 ∷ []

-- `AVTPDU_COMMON_LEN`
abbrev pub header_len : ℕ
header_len = 4

-- `Avtp_AvtpduVersion_IsSupported`
unfoldable pub is_supported : ℕ → ℕ → Bool
is_supported version_mask version_value =
    if leb 8 (u8 version_value)
    then false
    else to_bool (bit_and (u8 version_mask >>> u8 version_value) 0x01)

module _ (host : Endian) where
  -- The macros.
  unfoldable pub get : Memory → CommonHeaderField → ℕ
  get pdu field = get_in host table 3 pdu (index field)

  unfoldable pub set : Memory → CommonHeaderField → ℕ → Memory
  set pdu field value = set_in host table 3 pdu (index field) (u64 value)

  unfoldable pub get_field : Memory → CommonHeaderField → ℕ
  get_field pdu field = get pdu field

  unfoldable pub get_subtype : Memory → ℕ
  get_subtype pdu = u8 (get pdu subtype)

  unfoldable pub get_h : Memory → ℕ
  get_h pdu = u8 (get pdu h)

  unfoldable pub get_version : Memory → ℕ
  get_version pdu = u8 (get pdu version)

  unfoldable pub set_field : Memory → CommonHeaderField → ℕ → Memory
  set_field pdu field value = set pdu field value

  unfoldable pub set_subtype : Memory → ℕ → Memory
  set_subtype pdu value = set pdu subtype (u8 value)

  unfoldable pub set_h : Memory → ℕ → Memory
  set_h pdu value = set pdu h (u8 value)

  unfoldable pub set_version : Memory → ℕ → Memory
  set_version pdu value = set pdu version (u8 value)
