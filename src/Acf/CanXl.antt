-- ===== src/Acf/CanXl.antt =====
-- include/avtp/acf/CanXl.h: the header fields of ACF CanXl messages and the functions on them.
use open_lib.Common.{
  ℕ, ◌*◌, List, [], ◌∷◌, Bool, Option, bit_num, false, none, some, to_bool, u16, u32, u64, u8,
}
use mathlib.Core.Option
use open_lib.Memory.{Memory, Endian}
use open_lib.Utils.{FieldDescriptor, desc, get_in, set_in}
use open_lib.Acf.{quadlet_size}
use open_lib.Acf.Padded
use open_lib.Acf.Padded.{PaddedFormat}

-- `Avtp_CanXlFields_t`
pub data CanXlField : Type 0 where
  acf_msg_type acf_msg_length pad mtv rsv can_bus_id message_timestamp vcid sdt reserved1 rrs sec
        priority_id acceptance_field reserved2 transaction_num reserved3 ms segment_num :
      CanXlField

unfoldable pub index : CanXlField → ℕ
index acf_msg_type = 0
index acf_msg_length = 1
index pad = 2
index mtv = 3
index rsv = 4
index can_bus_id = 5
index message_timestamp = 6
index vcid = 7
index sdt = 8
index reserved1 = 9
index rrs = 10
index sec = 11
index priority_id = 12
index acceptance_field = 13
index reserved2 = 14
index transaction_num = 15
index reserved3 = 16
index ms = 17
index segment_num = 18

-- `Avtp_CanXlFieldDesc`, in the order of the indices.
abbrev pub table : List FieldDescriptor
table =
    desc 0 0 7
    ∷ desc 0 7 9
    ∷ desc 0 16 2
    ∷ desc 0 18 1
    ∷ desc 0 19 2
    ∷ desc 0 21 11
    ∷ desc 1 0 64
    ∷ desc 3 0 8
    ∷ desc 3 8 8
    ∷ desc 3 16 3
    ∷ desc 3 19 1
    ∷ desc 3 20 1
    ∷ desc 3 21 11
    ∷ desc 4 0 32
    ∷ desc 5 0 8
    ∷ desc 5 8 8
    ∷ desc 5 16 3
    ∷ desc 5 19 1
    ∷ desc 5 20 12
    ∷ []

-- `AVTP_CANXL_HEADER_LEN`
abbrev pub header_len : ℕ
header_len = 6 * quadlet_size

-- `Avtp_CanXl_GetPayload`: the address of the payload.
abbrev pub get_payload : ℕ
get_payload = header_len

abbrev pub padded : PaddedFormat
padded = record { header_len = header_len; acf_type = 0x11; table = table; pad_field = 2 }

module _ (host : Endian) where
  -- The macros that the accessors expand to.
  unfoldable pub get : Memory → CanXlField → ℕ
  get m f = get_in host table 19 m (index f)

  unfoldable pub set : Memory → CanXlField → ℕ → Memory
  set m f value = set_in host table 19 m (index f) (u64 value)

  unfoldable pub get_pad : Memory → ℕ
  get_pad m = Padded.get_pad host padded m

  unfoldable pub set_pad : Memory → ℕ → Memory
  set_pad m value = Padded.set_pad host padded m value

  unfoldable pub is_mtv : Memory → Bool
  is_mtv m = to_bool (get m mtv)

  unfoldable pub get_can_bus_id : Memory → ℕ
  get_can_bus_id m = u16 (get m can_bus_id)

  unfoldable pub get_message_timestamp : Memory → ℕ
  get_message_timestamp m = u64 (get m message_timestamp)

  unfoldable pub get_vcid : Memory → ℕ
  get_vcid m = u8 (get m vcid)

  unfoldable pub get_sdt : Memory → ℕ
  get_sdt m = u8 (get m sdt)

  unfoldable pub is_rrs : Memory → Bool
  is_rrs m = to_bool (get m rrs)

  unfoldable pub is_sec : Memory → Bool
  is_sec m = to_bool (get m sec)

  unfoldable pub get_priority_id : Memory → ℕ
  get_priority_id m = u16 (get m priority_id)

  unfoldable pub get_acceptance_field : Memory → ℕ
  get_acceptance_field m = u32 (get m acceptance_field)

  unfoldable pub get_transaction_num : Memory → ℕ
  get_transaction_num m = u8 (get m transaction_num)

  unfoldable pub is_ms : Memory → Bool
  is_ms m = to_bool (get m ms)

  unfoldable pub get_segment_num : Memory → ℕ
  get_segment_num m = u16 (get m segment_num)

  unfoldable pub set_mtv : Memory → Bool → Memory
  set_mtv m flag = set m mtv (bit_num flag)

  unfoldable pub set_can_bus_id : Memory → ℕ → Memory
  set_can_bus_id m value = set m can_bus_id (u16 value)

  unfoldable pub set_message_timestamp : Memory → ℕ → Memory
  set_message_timestamp m value = set m message_timestamp (u64 value)

  unfoldable pub set_vcid : Memory → ℕ → Memory
  set_vcid m value = set m vcid (u8 value)

  unfoldable pub set_sdt : Memory → ℕ → Memory
  set_sdt m value = set m sdt (u8 value)

  unfoldable pub set_rrs : Memory → Bool → Memory
  set_rrs m flag = set m rrs (bit_num flag)

  unfoldable pub set_sec : Memory → Bool → Memory
  set_sec m flag = set m sec (bit_num flag)

  unfoldable pub set_priority_id : Memory → ℕ → Memory
  set_priority_id m value = set m priority_id (u16 value)

  unfoldable pub set_acceptance_field : Memory → ℕ → Memory
  set_acceptance_field m value = set m acceptance_field (u32 value)

  unfoldable pub set_transaction_num : Memory → ℕ → Memory
  set_transaction_num m value = set m transaction_num (u8 value)

  unfoldable pub set_ms : Memory → Bool → Memory
  set_ms m flag = set m ms (bit_num flag)

  unfoldable pub set_segment_num : Memory → ℕ → Memory
  set_segment_num m value = set m segment_num (u16 value)

  -- `none` for NULL.
  unfoldable pub init : Option Memory → Option Memory
  init pdu = Option.map (Padded.init host padded) pdu

  unfoldable pub set_payload : Memory → Memory → ℕ → Memory
  set_payload m payload payload_length = Padded.set_payload host padded m payload payload_length

  unfoldable pub set_payload_length : Memory → ℕ → Memory
  set_payload_length m payload_length = Padded.set_payload_length host padded m payload_length

  unfoldable pub get_payload_length : Memory → ℕ
  get_payload_length m = u8 (Padded.payload_octets host padded m)

  -- The calls in their order; the PDU is not NULL.
  unfoldable pub create_acf_message : Memory → ℕ → ℕ → ℕ → Memory → ℕ → Memory
  create_acf_message m priority_id' acceptance_field' sdt' payload payload_length =
      let m1 = Padded.init host padded m in
      let m2 = set_priority_id m1 priority_id' in
      let m3 = set_acceptance_field m2 acceptance_field' in
      let m4 = set_sdt m3 sdt' in
      let m5 = set_payload m4 payload payload_length in set_payload_length m5 payload_length

  unfoldable pub is_valid : Option Memory → ℕ → Bool
  is_valid none buffer_size = false
  is_valid (some m) buffer_size = Padded.envelope_valid host padded m buffer_size
