-- ===== src/Header/Udp.antt =====
-- include/avtp/Udp.h: the header fields and the functions on them.
use open_lib.Common.{List, Option, [], u32, u64, ℕ, ◌∷◌}
use mathlib.Core.Option
use open_lib.Memory.{Endian, Memory, memset}
use open_lib.Utils.{FieldDescriptor, desc, get_in, set_in}

-- `Avtp_UdpFields_t`
pub data UdpField : Type 0 where
  encapsulation_seq_no : UdpField

unfoldable pub index : UdpField → ℕ
index encapsulation_seq_no = 0

-- `Avtp_UdpFieldDesc`, in the order of the indices.
abbrev pub table : List FieldDescriptor
table = desc 0 0 32 ∷ []

-- `AVTP_UDP_HEADER_LEN`
abbrev pub header_len : ℕ
header_len = 4

module _ (host : Endian) where
  -- The macros.
  unfoldable pub get : Memory → UdpField → ℕ
  get pdu field = get_in host table 1 pdu (index field)

  unfoldable pub set : Memory → UdpField → ℕ → Memory
  set pdu field value = set_in host table 1 pdu (index field) (u64 value)

  unfoldable pub get_encapsulation_seq_no : Memory → ℕ
  get_encapsulation_seq_no pdu = u32 (get pdu encapsulation_seq_no)

  unfoldable pub set_encapsulation_seq_no : Memory → ℕ → Memory
  set_encapsulation_seq_no pdu value = set pdu encapsulation_seq_no (u32 value)

  -- `Avtp_Udp_Init` of a PDU that is not NULL.
  unfoldable pub init_present : Memory → Memory
  init_present pdu = let pdu1 = memset pdu 0 0 header_len in set_encapsulation_seq_no pdu1 0

  unfoldable pub init : Option Memory → Option Memory
  init pdu = Option.map init_present pdu

  unfoldable pub get_field : Memory → UdpField → ℕ
  get_field pdu field = get pdu field

  unfoldable pub set_field : Memory → UdpField → ℕ → Memory
  set_field pdu field value = set pdu field value
