-- ===== src/Acf/Can.antt =====
-- include/avtp/acf/Can.h: the header fields of ACF CAN messages and the functions on them.
use open_lib.Common.{ℕ, ◌*◌, List, [], ◌∷◌, Bool, Option, bit_num, to_bool, u32, u64, u8}
use mathlib.Core.Option
use open_lib.Memory.{Memory, Endian}
use open_lib.Utils.{FieldDescriptor, desc, get_in, set_in}
use open_lib.Acf.{quadlet_size}
use open_lib.Acf.Padded
use open_lib.Acf.Padded.{PaddedFormat}
use open_lib.Acf.CanFamily
use open_lib.Acf.CanFamily.{CanFormat}

-- `Avtp_CanFields_t`
pub data CanField : Type 0 where
  acf_msg_type acf_msg_length pad mtv rtr eff brs fdf esi rsv1 can_bus_id message_timestamp rsv2
        can_identifier :
      CanField

unfoldable pub index : CanField → ℕ
index acf_msg_type = 0
index acf_msg_length = 1
index pad = 2
index mtv = 3
index rtr = 4
index eff = 5
index brs = 6
index fdf = 7
index esi = 8
index rsv1 = 9
index can_bus_id = 10
index message_timestamp = 11
index rsv2 = 12
index can_identifier = 13

-- `Avtp_CanFieldDesc`, in the order of the indices.
abbrev pub table : List FieldDescriptor
table =
    desc 0 0 7
    ∷ desc 0 7 9
    ∷ desc 0 16 2
    ∷ desc 0 18 1
    ∷ desc 0 19 1
    ∷ desc 0 20 1
    ∷ desc 0 21 1
    ∷ desc 0 22 1
    ∷ desc 0 23 1
    ∷ desc 0 24 3
    ∷ desc 0 27 5
    ∷ desc 1 0 64
    ∷ desc 3 0 3
    ∷ desc 3 3 29
    ∷ []

-- `AVTP_CAN_HEADER_LEN`
abbrev pub header_len : ℕ
header_len = 4 * quadlet_size

-- `Avtp_Can_GetPayload`: the address of the payload.
abbrev pub get_payload : ℕ
get_payload = header_len

abbrev pub padded : PaddedFormat
padded = record { header_len = header_len; acf_type = 0x1; table = table; pad_field = 2 }

abbrev pub can_format : CanFormat
can_format = record { padded = padded; eff_field = 5; fdf_field = 7; identifier_field = 13 }

module _ (host : Endian) where
  -- The macros that the accessors expand to.
  unfoldable pub get : Memory → CanField → ℕ
  get m f = get_in host table 14 m (index f)

  unfoldable pub set : Memory → CanField → ℕ → Memory
  set m f value = set_in host table 14 m (index f) (u64 value)

  unfoldable pub get_pad : Memory → ℕ
  get_pad m = Padded.get_pad host padded m

  unfoldable pub is_mtv : Memory → Bool
  is_mtv m = to_bool (get m mtv)

  unfoldable pub is_rtr : Memory → Bool
  is_rtr m = to_bool (get m rtr)

  unfoldable pub is_eff : Memory → Bool
  is_eff m = to_bool (get m eff)

  unfoldable pub is_brs : Memory → Bool
  is_brs m = to_bool (get m brs)

  unfoldable pub is_fdf : Memory → Bool
  is_fdf m = to_bool (get m fdf)

  unfoldable pub is_esi : Memory → Bool
  is_esi m = to_bool (get m esi)

  unfoldable pub get_can_bus_id : Memory → ℕ
  get_can_bus_id m = u8 (get m can_bus_id)

  unfoldable pub get_message_timestamp : Memory → ℕ
  get_message_timestamp m = u64 (get m message_timestamp)

  unfoldable pub get_can_identifier : Memory → ℕ
  get_can_identifier m = u32 (get m can_identifier)

  unfoldable pub set_pad : Memory → ℕ → Memory
  set_pad m value = Padded.set_pad host padded m value

  unfoldable pub set_can_bus_id : Memory → ℕ → Memory
  set_can_bus_id m value = set m can_bus_id (u8 value)

  unfoldable pub set_message_timestamp : Memory → ℕ → Memory
  set_message_timestamp m value = set m message_timestamp (u64 value)

  unfoldable pub set_can_identifier : Memory → ℕ → Memory
  set_can_identifier m value = set m can_identifier (u32 value)

  unfoldable pub set_mtv : Memory → Bool → Memory
  set_mtv m flag = set m mtv (bit_num flag)

  unfoldable pub set_rtr : Memory → Bool → Memory
  set_rtr m flag = set m rtr (bit_num flag)

  unfoldable pub set_eff : Memory → Bool → Memory
  set_eff m flag = set m eff (bit_num flag)

  unfoldable pub set_brs : Memory → Bool → Memory
  set_brs m flag = set m brs (bit_num flag)

  unfoldable pub set_fdf : Memory → Bool → Memory
  set_fdf m flag = set m fdf (bit_num flag)

  unfoldable pub set_esi : Memory → Bool → Memory
  set_esi m flag = set m esi (bit_num flag)

  -- `none` for NULL.
  unfoldable pub init : Option Memory → Option Memory
  init pdu = Option.map (Padded.init host padded) pdu

  unfoldable pub set_payload : Memory → Memory → ℕ → Memory
  set_payload m payload payload_length = Padded.set_payload host padded m payload payload_length

  unfoldable pub set_payload_length : Memory → ℕ → Memory
  set_payload_length m payload_length = Padded.set_payload_length host padded m payload_length

  unfoldable pub get_payload_length : Memory → ℕ
  get_payload_length m = u8 (Padded.payload_octets host padded m)

  unfoldable pub create_acf_message : Memory → ℕ → Memory → ℕ → Bool → Memory
  create_acf_message = CanFamily.create_acf_message host can_format

  unfoldable pub is_valid : Option Memory → ℕ → Bool
  is_valid = CanFamily.is_valid host can_format
