-- ===== src/Tests/Messages.antt =====
-- ACF messages at concrete inputs: a CAN FD frame with five bytes, and a GISF message.
use open_lib.Common.{
  ℕ, ◌+◌, ◌*◌, ◌%◌, ◌≤◌, ◌<◌, ◌≡◌, ◌≢◌, ◌↔◌, arith, ltb, true, some, if◌then◌else◌,
}
use open_lib.Memory.{Memory, little, big, load8, store8}
use open_lib.Acf.{get_acf_msg_type, get_acf_msg_length_in_bytes}
use open_lib.Acf.Laws.{get_acf_msg_length_in_bytes-lt}
use open_lib.Acf.Padded.{get_pad, set_payload_length, payload_octets}
use open_lib.Acf.Padded.Length.{load8-set_payload_length}
use open_lib.Acf.CanFamily.{create_acf_message, get_can_identifier, is_fdf, is_eff, is_valid}
use open_lib.Acf.CanFamily.Create.{create_acf_message-read, create_acf_message-is_valid}
use open_lib.Acf.CanFamily.Valid.{is_valid_iff}
use open_lib.Acf.Formats.{lin-IsPadded, can-IsCanFamily}
use open_lib.Acf.PayloadLength.{get_payload_length-set_payload_length, payload_length_truncated}
use open_lib.Acf.Can
use open_lib.Acf.CanBrief
use open_lib.Acf.CanV2
use open_lib.Acf.CanBriefV2
use open_lib.Acf.CanXl
use open_lib.Acf.CanXlBrief
use open_lib.Acf.FlexRay
use open_lib.Acf.Lin
use open_lib.Acf.Most
use open_lib.Acf.Gisf
use open_lib.Acf.Abb
use open_lib.Acf.Gbb

abbrev sample : Memory
sample a = a * 73 + 29

abbrev payload : Memory
payload a = a + 1

abbrev message : Memory
message = create_acf_message little Can.can_format sample 0x12345 payload 5 true

create_acf_message-read_example :
    (get_acf_msg_type little message ≡ 0x1)
    × (get_can_identifier little Can.can_format message ≡ 0x12345)
    × (is_fdf little Can.can_format message ≡ true)
    × (is_eff little Can.can_format message ≡ ltb 0x7ff 0x12345)
    × (payload_octets little Can.padded message ≡ 5)
    × ((a : ℕ) → a < 5 → load8 message (16 + a) ≡ load8 payload a)
create_acf_message-read_example =
    create_acf_message-read little can-IsCanFamily sample 0x12345 payload 5 true (omega arith)
      (omega arith)

create_acf_message-is_valid_example : is_valid little Can.can_format (some message) 2048 ≡ true
create_acf_message-is_valid_example =
    create_acf_message-is_valid little can-IsCanFamily sample 0x12345 payload 5 true (omega arith)
      (omega arith) 2048 (omega (arith, get_acf_msg_length_in_bytes-lt little message))

is_valid_iff_example :
    (is_valid little Can.can_format (some message) 23 ≡ true)
    ↔ (get_acf_msg_type little message ≡ 0x1)
      × (16 + payload_octets little Can.padded message + get_pad little Can.padded message
          ≡ get_acf_msg_length_in_bytes little message)
      × (get_acf_msg_length_in_bytes little message ≤ 23)
      × (payload_octets little Can.padded message
          ≤ (if is_fdf little Can.can_format message then 64 else 8))
is_valid_iff_example = is_valid_iff little can-IsCanFamily message 23

-- The message with the byte behind it changed.
abbrev changed : Memory
changed = store8 message 24 1

load8-set_payload_length_example : load8 (set_payload_length big Lin.padded sample 3) 15 ≡ 0
load8-set_payload_length_example =
    load8-set_payload_length big lin-IsPadded sample 3 (omega arith) 15 (omega arith)

get_payload_length-set_payload_length_example :
    (Can.get_payload_length little (Can.set_payload_length little sample 200) ≡ 200)
    × (CanBrief.get_payload_length little (CanBrief.set_payload_length little sample 200) ≡ 200)
    × (CanV2.get_payload_length little (CanV2.set_payload_length little sample 200) ≡ 200)
    × (CanBriefV2.get_payload_length little (CanBriefV2.set_payload_length little sample 200) ≡ 200)
    × (CanXl.get_payload_length little (CanXl.set_payload_length little sample 200) ≡ 200)
    × (CanXlBrief.get_payload_length little (CanXlBrief.set_payload_length little sample 200) ≡ 200)
    × (FlexRay.get_payload_length little (FlexRay.set_payload_length little sample 200) ≡ 200)
    × (Lin.get_payload_length little (Lin.set_payload_length little sample 200) ≡ 200)
    × (Most.get_payload_length little (Most.set_payload_length little sample 200) ≡ 200)
    × (Gisf.get_payload_length little (Gisf.set_payload_length little sample 200) ≡ 200)
    × (Abb.get_payload_length little (Abb.set_payload_length little sample 200) ≡ 200)
    × (Gbb.get_payload_length little (Gbb.set_payload_length little sample 200) ≡ 200)
get_payload_length-set_payload_length_example =
    get_payload_length-set_payload_length little sample 200 (omega arith)

payload_length_truncated_example :
    (CanXl.get_payload_length little (CanXl.set_payload_length little sample 300) ≡ 300 % 256)
    × (CanXlBrief.get_payload_length little (CanXlBrief.set_payload_length little sample 300)
        ≡ 300 % 256)
    × (Most.get_payload_length little (Most.set_payload_length little sample 300) ≡ 300 % 256)
    × (Abb.get_payload_length little (Abb.set_payload_length little sample 300) ≡ 300 % 256)
    × (Gbb.get_payload_length little (Gbb.set_payload_length little sample 300) ≡ 300 % 256)
    × (300 % 256 ≢ 300)
payload_length_truncated_example =
    payload_length_truncated little sample 300 (omega arith) (omega arith)
