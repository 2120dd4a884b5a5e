-- ===== src/AcfCan/Reading.antt =====
-- One CAN message as `prepare_acf_packet` of examples/acf-can/acf-can-common.c makes it, as its receiver reads it.
use open_lib.Common.{
  ℕ, ◌+◌, ◌*◌, ◌/◌, ◌≤◌, ◌<◌, ◌≡◌, ◌≢◌, ◌∙◌, arith, Bool, true, ltb, ◌==◌, if◌then◌else◌, some, u8,
  bit_num,
}
use open_lib.Memory.{Memory, Endian, load8}
use open_lib.Acf.{get_acf_msg_length_in_bytes}
use open_lib.Acf.Laws.{get_acf_msg_length_in_bytes_in, get_acf_msg_type_in}
use open_lib.Acf.Padded.{payload_octets, get_pad}
use open_lib.Acf.Padded.Header.{get_pad-field, get_pad-lt}
use open_lib.Acf.CanFamily.{get_can_identifier, is_eff, is_fdf, is_valid}
use open_lib.Acf.CanFamily.Valid.{is_valid_iff}
use open_lib.Acf.CanFamily.Create.{
  at-message_body, create_acf_message-read, create_acf_message-is_valid,
}
use open_lib.Acf.CanFamily.Body.{at-body}
use open_lib.Acf.Can
use open_lib.Acf.Formats.{can-IsPadded, can-IsCanFamily}
use open_lib.AcfCan.{Frame, FdFlags}
use open_lib.AcfCan.Message.{
  at, base, prepared, is_remote, has_flag, frame_id, frame_id-lt, at-prepared, load8-prepared,
}

module _ (host : Endian) (fd : FdFlags) (can_fd : Bool) (pdu : Memory) (frame : Frame)
    (now : ℕ) where
  -- The message that `CreateAcfMessage` makes, the finished one, and what the frame asks for.
  abbrev created : Memory
  created = base host fd can_fd pdu frame now

  abbrev message : Memory
  message = prepared host fd can_fd pdu frame now

  abbrev identifier : ℕ
  identifier = frame_id host fd can_fd pdu frame now

  abbrev remote : Bool
  remote = is_remote host fd can_fd pdu frame now

  module _ (short : frame.len ≤ (if can_fd then 64 else 8)) where
    len_small : u8 frame.len ≡ frame.len
    len_small = ground arith

    short_u8 : u8 frame.len ≤ (if can_fd then 64 else 8)
    short_u8 = rw len_small short

    -- Fields that `CreateAcfMessage` leaves 0.
    at-base :
        (j : ℕ)
        → 1 ≢ j
        → 2 ≢ j
        → at host created j ≡ (
            if 7 == j
            then bit_num can_fd
            else if 13 == j
            then identifier
            else if 0 == j
            then 1
            else if 5 == j
            then bit_num (ltb 0x7ff identifier)
            else 0)
    at-base j p q =
        at-message_body host can-IsCanFamily pdu identifier frame.data_bytes (u8 frame.len) can_fd
          (frame_id-lt host fd can_fd pdu frame now) short_u8 j p q
        ∙ at-body host can-IsCanFamily pdu identifier frame.data_bytes (u8 frame.len) can_fd j
            (frame_id-lt host fd can_fd pdu frame now)

    -- What the receiver looks at.
    pub read_flags :
        (get_can_identifier host Can.can_format message ≡ identifier)
        × (is_eff host Can.can_format message ≡ ltb 0x7ff identifier)
        × (Can.is_rtr host message ≡ remote)
        × (Can.is_brs host message ≡ has_flag host fd can_fd pdu frame now fd.brs)
        × (is_fdf host Can.can_format message ≡ can_fd)
        × (Can.is_esi host message ≡ has_flag host fd can_fd pdu frame now fd.esi)
    unfolding get_can_identifier is_eff Can.is_rtr Can.is_brs is_fdf Can.is_esi Can.get Can.index
    read_flags = (
      ground (
        arith,
        at-prepared host fd can_fd pdu frame now 13,
        at-base 13,
        (frame_id-lt host fd can_fd pdu frame now),
      ),
      ground (arith, at-prepared host fd can_fd pdu frame now 5, at-base 5),
      ground (arith, at-prepared host fd can_fd pdu frame now 4, at-base 4),
      ground (arith, at-prepared host fd can_fd pdu frame now 6, at-base 6),
      ground (arith, at-prepared host fd can_fd pdu frame now 7, at-base 7),
      ground (arith, at-prepared host fd can_fd pdu frame now 8, at-base 8),
    )

    same_length :
        get_acf_msg_length_in_bytes host message ≡ get_acf_msg_length_in_bytes host created
    same_length = ground (
      arith,
      get_acf_msg_length_in_bytes_in host can-IsPadded.starts_acf message,
      get_acf_msg_length_in_bytes_in host can-IsPadded.starts_acf created,
      at-prepared host fd can_fd pdu frame now 1,
    )

    same_pad : get_pad host Can.padded message ≡ get_pad host Can.padded created
    same_pad = ground (
      arith,
      get_pad-field host can-IsPadded message,
      get_pad-field host can-IsPadded created,
      at-prepared host fd can_fd pdu frame now 2,
    )

    read_base : payload_octets host Can.padded created ≡ frame.len
    read_base =
        (create_acf_message-read host can-IsCanFamily pdu identifier frame.data_bytes (u8 frame.len)
          can_fd (frame_id-lt host fd can_fd pdu frame now) short_u8).4
        ∙ len_small

    framed :
        16 + payload_octets host Can.padded created + get_pad host Can.padded created
        ≡ get_acf_msg_length_in_bytes host created
    framed =
        let size = get_acf_msg_length_in_bytes host created in
        let valid =
          create_acf_message-is_valid host can-IsCanFamily pdu identifier frame.data_bytes
            (u8 frame.len) can_fd (frame_id-lt host fd can_fd pdu frame now) short_u8 size
            (omega arith) in
        ((is_valid_iff host can-IsCanFamily created size).0 valid).1

    -- The length of the message: the header and the payload, filled up to whole quadlets.
    pub read_length :
        (get_acf_msg_length_in_bytes host message ≡ 16 + (frame.len + 3) / 4 * 4)
        × (payload_octets host Can.padded message ≡ frame.len)
    unfolding payload_octets
    read_length = (
      omega (
        arith,
        same_length,
        framed,
        read_base,
        get_pad-lt host can-IsPadded created,
        get_acf_msg_length_in_bytes_in host can-IsPadded.starts_acf created,
      ),
      rw (same_length, same_pad) read_base,
    )

    -- The message is valid in its own length.
    pub prepared-IsValid :
        (n : ℕ)
        → get_acf_msg_length_in_bytes host message ≤ n
        → is_valid host Can.can_format (some message) n ≡ true
    prepared-IsValid n fits = ground (
      arith,
      is_valid_iff host can-IsCanFamily message n,
      get_acf_msg_type_in host can-IsPadded.starts_acf message,
      at-prepared host fd can_fd pdu frame now 0,
      at-base 0,
      read_length,
      framed,
      read_base,
      same_length,
      same_pad,
      read_flags.4,
      short,
    )

    pub read_data : (a : ℕ) → a < frame.len → load8 message (16 + a) ≡ load8 frame.data_bytes a
    read_data a lt =
        load8-prepared host fd can_fd pdu frame now (16 + a) (omega arith)
        ∙ (create_acf_message-read host can-IsCanFamily pdu identifier frame.data_bytes
              (u8 frame.len) can_fd (frame_id-lt host fd can_fd pdu frame now) short_u8).5
            a (omega (arith, len_small))
