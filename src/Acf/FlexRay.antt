-- ===== src/Acf/FlexRay.antt =====
-- include/avtp/acf/FlexRay.h: the header fields of ACF FlexRay messages and the functions on them.
use open_lib.Common.{
  ℕ, ◌*◌, List, [], ◌∷◌, Bool, Option, bit_num, false, if◌then◌else◌, leb, none, some, to_bool, u16,
  u64, u8,
}
use mathlib.Core.Option
use open_lib.Memory.{Memory, Endian}
use open_lib.Utils.{FieldDescriptor, desc, get_in, set_in}
use open_lib.Acf.{quadlet_size}
use open_lib.Acf.Padded
use open_lib.Acf.Padded.{PaddedFormat}

-- `Avtp_FlexRayFields_t`
pub data FlexRayField : Type 0 where
  acf_msg_type acf_msg_length pad mtv fr_bus_id reserved chan str syn pre nfi message_timestamp
        fr_frame_id reserved_2 cycle :
      FlexRayField

unfoldable pub index : FlexRayField → ℕ
index acf_msg_type = 0
index acf_msg_length = 1
index pad = 2
index mtv = 3
index fr_bus_id = 4
index reserved = 5
index chan = 6
index str = 7
index syn = 8
index pre = 9
index nfi = 10
index message_timestamp = 11
index fr_frame_id = 12
index reserved_2 = 13
index cycle = 14

-- `Avtp_FlexRayFieldDesc`, in the order of the indices.
abbrev pub table : List FieldDescriptor
table =
    desc 0 0 7
    ∷ desc 0 7 9
    ∷ desc 0 16 2
    ∷ desc 0 18 1
    ∷ desc 0 19 5
    ∷ desc 0 24 2
    ∷ desc 0 26 2
    ∷ desc 0 28 1
    ∷ desc 0 29 1
    ∷ desc 0 30 1
    ∷ desc 0 31 1
    ∷ desc 1 0 64
    ∷ desc 3 0 11
    ∷ desc 3 11 15
    ∷ desc 3 26 6
    ∷ []

-- `AVTP_FLEXRAY_HEADER_LEN`
abbrev pub header_len : ℕ
header_len = 4 * quadlet_size

-- `Avtp_FlexRay_GetPayload`: the address of the payload.
abbrev pub get_payload : ℕ
get_payload = header_len

abbrev pub padded : PaddedFormat
padded = record { header_len = header_len; acf_type = 0x0; table = table; pad_field = 2 }

module _ (host : Endian) where
  -- The macros that the accessors expand to.
  unfoldable pub get : Memory → FlexRayField → ℕ
  get m f = get_in host table 15 m (index f)

  unfoldable pub set : Memory → FlexRayField → ℕ → Memory
  set m f value = set_in host table 15 m (index f) (u64 value)

  unfoldable pub get_pad : Memory → ℕ
  get_pad m = Padded.get_pad host padded m

  unfoldable pub is_mtv : Memory → Bool
  is_mtv m = to_bool (get m mtv)

  unfoldable pub get_fr_bus_id : Memory → ℕ
  get_fr_bus_id m = u8 (get m fr_bus_id)

  unfoldable pub get_chan : Memory → ℕ
  get_chan m = u8 (get m chan)

  unfoldable pub is_str : Memory → Bool
  is_str m = to_bool (get m str)

  unfoldable pub is_syn : Memory → Bool
  is_syn m = to_bool (get m syn)

  unfoldable pub is_pre : Memory → Bool
  is_pre m = to_bool (get m pre)

  unfoldable pub is_nfi : Memory → Bool
  is_nfi m = to_bool (get m nfi)

  unfoldable pub get_message_timestamp : Memory → ℕ
  get_message_timestamp m = u64 (get m message_timestamp)

  unfoldable pub get_fr_frame_id : Memory → ℕ
  get_fr_frame_id m = u16 (get m fr_frame_id)

  unfoldable pub get_cycle : Memory → ℕ
  get_cycle m = u8 (get m cycle)

  unfoldable pub set_pad : Memory → ℕ → Memory
  set_pad m value = Padded.set_pad host padded m value

  unfoldable pub set_mtv : Memory → Bool → Memory
  set_mtv m flag = set m mtv (bit_num flag)

  unfoldable pub set_fr_bus_id : Memory → ℕ → Memory
  set_fr_bus_id m value = set m fr_bus_id (u8 value)

  unfoldable pub set_chan : Memory → ℕ → Memory
  set_chan m value = set m chan (u8 value)

  unfoldable pub set_str : Memory → Bool → Memory
  set_str m flag = set m str (bit_num flag)

  unfoldable pub set_syn : Memory → Bool → Memory
  set_syn m flag = set m syn (bit_num flag)

  unfoldable pub set_pre : Memory → Bool → Memory
  set_pre m flag = set m pre (bit_num flag)

  unfoldable pub set_nfi : Memory → Bool → Memory
  set_nfi m flag = set m nfi (bit_num flag)

  unfoldable pub set_message_timestamp : Memory → ℕ → Memory
  set_message_timestamp m value = set m message_timestamp (u64 value)

  unfoldable pub set_fr_frame_id : Memory → ℕ → Memory
  set_fr_frame_id m value = set m fr_frame_id (u16 value)

  unfoldable pub set_cycle : Memory → ℕ → Memory
  set_cycle m value = set m cycle (u8 value)

  -- `none` for NULL.
  unfoldable pub init : Option Memory → Option Memory
  init pdu = Option.map (Padded.init host padded) pdu

  unfoldable pub set_payload : Memory → Memory → ℕ → Memory
  set_payload m payload payload_length = Padded.set_payload host padded m payload payload_length

  unfoldable pub set_payload_length : Memory → ℕ → Memory
  set_payload_length m payload_length = Padded.set_payload_length host padded m payload_length

  unfoldable pub get_payload_length : Memory → ℕ
  get_payload_length m = u8 (Padded.payload_octets host padded m)

  -- The calls in their order; the PDU is not NULL.
  unfoldable pub create_acf_message : Memory → ℕ → ℕ → Memory → ℕ → Memory
  create_acf_message m frame_id cycle' payload payload_length =
      let m1 = Padded.init host padded m in
      let m2 = set_fr_frame_id m1 frame_id in
      let m3 = set_cycle m2 cycle' in
      let m4 = set_payload m3 payload payload_length in set_payload_length m4 payload_length

  unfoldable pub is_valid : Option Memory → ℕ → Bool
  is_valid none buffer_size = false
  is_valid (some m) buffer_size =
      if Padded.envelope_valid host padded m buffer_size
      then leb (Padded.checked_payload_length host padded m) 254
      else false
