-- ===== src/Acf/Gpc.antt =====
-- include/avtp/acf/Gpc.h: the header fields and the functions on them.
use open_lib.Common.{
  Bool, List, Option, [], false, if◌then◌else◌, ltb, none, not, some, true, u16, u64, u8, ℕ, ◌%◌,
  ◌+◌, ◌-◌, ◌/◌, ◌==◌, ◌∷◌,
}
use mathlib.Core.Option
use open_lib.Memory.{Endian, Memory, memcpy, memset}
use open_lib.Utils.{FieldDescriptor, desc, get_in, set_in}
use open_lib.Acf

-- `Avtp_GpcFields_t`
pub data GpcField : Type 0 where
  acf_msg_type acf_msg_length gpc_msg_id : GpcField

unfoldable pub index : GpcField → ℕ
index acf_msg_type = 0
index acf_msg_length = 1
index gpc_msg_id = 2

-- `Avtp_GpcFieldDesc`, in the order of the indices.
abbrev pub table : List FieldDescriptor
table = desc 0 0 7 ∷ desc 0 7 9 ∷ desc 0 16 48 ∷ []

-- `AVTP_GPC_HEADER_LEN`
abbrev pub header_len : ℕ
header_len = 8

module _ (host : Endian) where
  -- The macros.
  unfoldable pub get : Memory → GpcField → ℕ
  get pdu field = get_in host table 3 pdu (index field)

  unfoldable pub set : Memory → GpcField → ℕ → Memory
  set pdu field value = set_in host table 3 pdu (index field) (u64 value)

  unfoldable pub get_gpc_msg_id : Memory → ℕ
  get_gpc_msg_id pdu = get pdu gpc_msg_id

  unfoldable pub set_gpc_msg_id : Memory → ℕ → Memory
  set_gpc_msg_id pdu value = set pdu gpc_msg_id value

  unfoldable pub get_payload : Memory → ℕ
  get_payload pdu = header_len

  unfoldable pub set_payload : Memory → Memory → ℕ → Memory
  set_payload pdu payload payload_length = memcpy pdu header_len payload 0 (u16 payload_length)

  unfoldable pub set_payload_length : Memory → ℕ → Memory
  set_payload_length pdu payload_length =
      let msg_len_bytes = u16 (header_len + u16 payload_length) in
      let pad = u8 (u8 (4 - (msg_len_bytes % 4)) % 4) in
      let pdu1 = if ltb 0 pad then memset pdu (header_len + u16 payload_length) 0 pad else pdu in
      let msg_len_quadlets = u16 ((msg_len_bytes + pad) / 4) in
      Acf.set_acf_msg_length host pdu1 msg_len_quadlets

  -- `Avtp_Gpc_Init` of a PDU that is not NULL.
  unfoldable pub init_present : Memory → Memory
  init_present pdu = let pdu1 = memset pdu 0 0 header_len in Acf.set_acf_msg_type host pdu1 5

  unfoldable pub init : Option Memory → Option Memory
  init pdu = Option.map init_present pdu

  unfoldable pub create_acf_message : Memory → ℕ → Memory → ℕ → Memory
  create_acf_message pdu gpc_msg_id_value payload payload_length =
      let pdu1 = init_present pdu in
      let pdu2 = set_gpc_msg_id pdu1 gpc_msg_id_value in
      let pdu3 = set_payload pdu2 payload (u16 payload_length) in
      set_payload_length pdu3 (u16 payload_length)

  unfoldable pub is_valid : Option Memory → ℕ → Bool
  is_valid none buffer_size = false
  is_valid (some pdu) buffer_size =
      if ltb buffer_size header_len
      then false
      else if not (Acf.get_acf_msg_type host pdu == 5)
      then false
      else (let msg_length_bytes = Acf.get_acf_msg_length_in_bytes host pdu in
          if ltb buffer_size msg_length_bytes
          then false
          else if ltb msg_length_bytes header_len
          then false
          else true)
