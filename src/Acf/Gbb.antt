-- ===== src/Acf/Gbb.antt =====
-- include/avtp/acf/Gbb.h: the header fields of ACF Gbb messages and the functions on them.
use open_lib.Common.{
  ℕ, ◌*◌, List, [], ◌∷◌, Bool, Option, bit_num, false, none, some, to_bool, u16, u64, u8,
}
use mathlib.Core.Option
use open_lib.Memory.{Memory, Endian}
use open_lib.Utils.{FieldDescriptor, desc, get_in, set_in}
use open_lib.Acf.{quadlet_size}
use open_lib.Acf.Padded
use open_lib.Acf.Padded.{PaddedFormat}

-- `Avtp_GbbFields_t`
pub data GbbField : Type 0 where
  acf_msg_type acf_msg_length pad mtv rsv1 byte_bus_id message_timestamp evt rsv2 hs cs
        transaction_num op rsp err ms read_size_segment_num :
      GbbField

unfoldable pub index : GbbField → ℕ
index acf_msg_type = 0
index acf_msg_length = 1
index pad = 2
index mtv = 3
index rsv1 = 4
index byte_bus_id = 5
index message_timestamp = 6
index evt = 7
index rsv2 = 8
index hs = 9
index cs = 10
index transaction_num = 11
index op = 12
index rsp = 13
index err = 14
index ms = 15
index read_size_segment_num = 16

-- `Avtp_GbbFieldDesc`, in the order of the indices.
abbrev pub table : List FieldDescriptor
table =
    desc 0 0 7
    ∷ desc 0 7 9
    ∷ desc 0 16 2
    ∷ desc 0 18 1
    ∷ desc 0 19 2
    ∷ desc 0 21 11
    ∷ desc 1 0 64
    ∷ desc 3 0 4
    ∷ desc 3 4 2
    ∷ desc 3 6 1
    ∷ desc 3 7 1
    ∷ desc 3 8 8
    ∷ desc 3 16 1
    ∷ desc 3 17 1
    ∷ desc 3 18 1
    ∷ desc 3 19 1
    ∷ desc 3 20 12
    ∷ []

-- `AVTP_GBB_HEADER_LEN`
abbrev pub header_len : ℕ
header_len = 4 * quadlet_size

-- `Avtp_Gbb_GetPayload`: the address of the payload.
abbrev pub get_payload : ℕ
get_payload = header_len

abbrev pub padded : PaddedFormat
padded = record { header_len = header_len; acf_type = 0xd; table = table; pad_field = 2 }

module _ (host : Endian) where
  -- The macros that the accessors expand to.
  unfoldable pub get : Memory → GbbField → ℕ
  get m f = get_in host table 17 m (index f)

  unfoldable pub set : Memory → GbbField → ℕ → Memory
  set m f value = set_in host table 17 m (index f) (u64 value)

  unfoldable pub get_pad : Memory → ℕ
  get_pad m = Padded.get_pad host padded m

  unfoldable pub set_pad : Memory → ℕ → Memory
  set_pad m value = Padded.set_pad host padded m value

  unfoldable pub is_mtv : Memory → Bool
  is_mtv m = to_bool (get m mtv)

  unfoldable pub get_byte_bus_id : Memory → ℕ
  get_byte_bus_id m = u16 (get m byte_bus_id)

  unfoldable pub get_message_timestamp : Memory → ℕ
  get_message_timestamp m = u64 (get m message_timestamp)

  unfoldable pub get_evt : Memory → ℕ
  get_evt m = u8 (get m evt)

  unfoldable pub is_hs : Memory → Bool
  is_hs m = to_bool (get m hs)

  unfoldable pub is_cs : Memory → Bool
  is_cs m = to_bool (get m cs)

  unfoldable pub get_transaction_num : Memory → ℕ
  get_transaction_num m = u8 (get m transaction_num)

  unfoldable pub is_op : Memory → Bool
  is_op m = to_bool (get m op)

  unfoldable pub is_rsp : Memory → Bool
  is_rsp m = to_bool (get m rsp)

  unfoldable pub is_err : Memory → Bool
  is_err m = to_bool (get m err)

  unfoldable pub is_ms : Memory → Bool
  is_ms m = to_bool (get m ms)

  unfoldable pub get_read_size : Memory → ℕ
  get_read_size m = u16 (get m read_size_segment_num)

  unfoldable pub get_segment_num : Memory → ℕ
  get_segment_num m = u16 (get m read_size_segment_num)

  unfoldable pub set_mtv : Memory → Bool → Memory
  set_mtv m flag = set m mtv (bit_num flag)

  unfoldable pub set_byte_bus_id : Memory → ℕ → Memory
  set_byte_bus_id m value = set m byte_bus_id (u16 value)

  unfoldable pub set_message_timestamp : Memory → ℕ → Memory
  set_message_timestamp m value = set m message_timestamp (u64 value)

  unfoldable pub set_evt : Memory → ℕ → Memory
  set_evt m value = set m evt (u8 value)

  unfoldable pub set_hs : Memory → Bool → Memory
  set_hs m flag = set m hs (bit_num flag)

  unfoldable pub set_cs : Memory → Bool → Memory
  set_cs m flag = set m cs (bit_num flag)

  unfoldable pub set_transaction_num : Memory → ℕ → Memory
  set_transaction_num m value = set m transaction_num (u8 value)

  unfoldable pub set_op : Memory → Bool → Memory
  set_op m flag = set m op (bit_num flag)

  unfoldable pub set_rsp : Memory → Bool → Memory
  set_rsp m flag = set m rsp (bit_num flag)

  unfoldable pub set_err : Memory → Bool → Memory
  set_err m flag = set m err (bit_num flag)

  unfoldable pub set_ms : Memory → Bool → Memory
  set_ms m flag = set m ms (bit_num flag)

  unfoldable pub set_read_size : Memory → ℕ → Memory
  set_read_size m value = set m read_size_segment_num (u16 value)

  unfoldable pub set_segment_num : Memory → ℕ → Memory
  set_segment_num m value = set m read_size_segment_num (u16 value)

  -- `none` for NULL.
  unfoldable pub init : Option Memory → Option Memory
  init pdu = Option.map (Padded.init host padded) pdu

  unfoldable pub set_payload : Memory → Memory → ℕ → Memory
  set_payload m payload payload_length = Padded.set_payload host padded m payload payload_length

  unfoldable pub set_payload_length : Memory → ℕ → Memory
  set_payload_length m payload_length = Padded.set_payload_length host padded m payload_length

  unfoldable pub get_payload_length : Memory → ℕ
  get_payload_length m = u8 (Padded.payload_octets host padded m)

  -- The calls in their order; the PDU is not NULL.
  unfoldable pub create_acf_message : Memory → ℕ → Bool → ℕ → Memory → ℕ → Memory
  create_acf_message m byte_bus_id' op' transaction_num' payload payload_length =
      let m1 = Padded.init host padded m in
      let m2 = set_byte_bus_id m1 byte_bus_id' in
      let m3 = set_op m2 op' in
      let m4 = set_transaction_num m3 transaction_num' in
      let m5 = set_payload m4 payload payload_length in set_payload_length m5 payload_length

  unfoldable pub is_valid : Option Memory → ℕ → Bool
  is_valid none buffer_size = false
  is_valid (some m) buffer_size = Padded.envelope_valid host padded m buffer_size
