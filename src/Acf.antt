-- ===== src/Acf.antt =====
-- include/avtp/acf/AcfCommon.h: the two fields that every ACF message starts with.
pub mod Laws
pub mod Padded
pub mod CanFamily
pub mod Can
pub mod CanBrief
pub mod CanV2
pub mod CanBriefV2
pub mod CanXl
pub mod CanXlBrief
pub mod FlexRay
pub mod Lin
pub mod Most
pub mod Gisf
pub mod Abb
pub mod Gbb
pub mod Gpc
pub mod I2c
pub mod I2cBrief
pub mod Sensor
pub mod SensorBrief
pub mod Formats
pub mod PayloadLength
use open_lib.Common.{ℕ, ◌*◌, List, [], ◌∷◌, u8, u16, u64}
use open_lib.Memory.{Memory, Endian}
use open_lib.Utils.{FieldDescriptor, desc, get_in, set_in}

-- `AVTP_QUADLET_SIZE` and `AVTP_ACF_COMMON_HEADER_LEN`
abbrev pub quadlet_size : ℕ
quadlet_size = 4

abbrev pub acf_common_header_len : ℕ
acf_common_header_len = 1 * quadlet_size

-- `Avtp_AcfCommonFields_t`
pub data AcfCommonField : Type 0 where
  acf_msg_type acf_msg_length : AcfCommonField

unfoldable pub index : AcfCommonField → ℕ
index acf_msg_type = 0
index acf_msg_length = 1

-- `Avtp_AcfCommonFieldDesc`
abbrev pub table : List FieldDescriptor
table = desc 0 0 7 ∷ desc 0 7 9 ∷ []

module _ (host : Endian) (m : Memory) where
  unfoldable pub get : AcfCommonField → ℕ
  get f = get_in host table 2 m (index f)

  unfoldable pub set : AcfCommonField → ℕ → Memory
  set f value = set_in host table 2 m (index f) (u64 value)

  unfoldable pub get_acf_msg_type : ℕ
  get_acf_msg_type = u8 (get acf_msg_type)

  unfoldable pub get_acf_msg_length : ℕ
  get_acf_msg_length = u16 (get acf_msg_length)

  unfoldable pub get_acf_msg_length_in_bytes : ℕ
  get_acf_msg_length_in_bytes = u16 (get_acf_msg_length * quadlet_size)

  unfoldable pub set_acf_msg_type : ℕ → Memory
  set_acf_msg_type value = set acf_msg_type (u8 value)

  unfoldable pub set_acf_msg_length : ℕ → Memory
  set_acf_msg_length value = set acf_msg_length (u16 value)
