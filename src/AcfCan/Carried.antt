-- ===== src/AcfCan/Carried.antt =====
-- The frame that a CAN message carries between the two functions of
-- examples/acf-can/acf-can-common.c, and the bytes that decide it.
use open_lib.Common.{
  ℕ, ◌+◌, ◌*◌, ◌/◌, ◌≤◌, ◌<◌, ◌≡◌, ◌-◌, fun_ext, refl, sym, ◌∙◌, arith, Bool, true, false, ltb,
  ◌&&◌, not, if◌then◌else◌, some, u8, u16, bit_and, bit_or, to_bool,
}
use open_lib.Memory.{Memory, Endian, load8, memcpy}
use open_lib.Acf.{get_acf_msg_length_in_bytes}
use open_lib.Acf.CanFamily.{is_valid, get_can_identifier, is_eff, is_fdf}
use open_lib.Acf.CanFamily.Valid.{is_valid_agree}
use open_lib.Acf.Can
use open_lib.Acf.Formats.{can-IsCanFamily}
use open_lib.AcfCan.{Frame, FdFlags, can_eff_flag, can_eff_mask, can_rtr_flag}
use open_lib.AcfCan.Receive.{receive_can_id, receive_flags, receive_frame}
use open_lib.AcfCan.Agree.{same_size, same_flags, receive_frame_cong}
use open_lib.AcfCan.Message.{prepared}
use open_lib.AcfCan.Reading.{read_flags, read_length, prepared-IsValid, read_data}

-- The bytes of the message that a frame becomes.
abbrev pub message_size : Frame → ℕ
message_size frame = 16 + (frame.len + 3) / 4 * 4

module _ (fd : FdFlags) (can_fd : Bool) (frame : Frame) where
  abbrev sent_id : ℕ
  sent_id = bit_and frame.can_id can_eff_mask

  -- The identifier that arrives: EFF tells of more than 11 bits, RTR is as it was.
  abbrev pub carried_id : ℕ
  carried_id =
      let extended = if ltb 0x7ff sent_id then bit_or sent_id can_eff_flag else sent_id in
      if to_bool (bit_and frame.can_id can_rtr_flag) then bit_or extended can_rtr_flag else extended

  -- The flags that arrive: FDF is always set on a CAN FD bus.
  abbrev pub carried_flags : ℕ
  carried_flags =
      let flags1 = if can_fd && to_bool (bit_and frame.flags fd.brs) then bit_or 0 fd.brs else 0 in
      let flags2 = if can_fd then bit_or flags1 fd.fdf else flags1 in
      if can_fd && to_bool (bit_and frame.flags fd.esi) then bit_or flags2 fd.esi else flags2

  -- The frame that arrives, its array zero behind the payload.
  abbrev pub carried : Frame
  carried = record {
    can_id = carried_id;
    len = frame.len;
    flags = if can_fd then carried_flags else 0;
    data_bytes = memcpy (λ a. 0) 0 frame.data_bytes 0 frame.len;
  }

module _ (host : Endian) (fd : FdFlags) (can_fd : Bool) where
  -- The message at the start of `acf_pdu` is taken as the frame.
  pub record Carries (acf_pdu : Memory) (frame : Frame) : Type 0 where
    pub size : get_acf_msg_length_in_bytes host acf_pdu ≡ message_size frame
    pub accepted :
        (n : ℕ) → message_size frame ≤ n → is_valid host Can.can_format (some acf_pdu) n ≡ true
    pub standard :
        (not (is_eff host Can.can_format acf_pdu)
          && ltb 0x7ff (get_can_identifier host Can.can_format acf_pdu))
        ≡ false
    pub frame_read : receive_frame host fd can_fd acf_pdu ≡ carried fd can_fd frame
    pub payload : Can.get_payload_length host acf_pdu ≡ frame.len
    pub short : frame.len ≤ 64

  module _ (pdu : Memory) (frame : Frame) (now : ℕ)
      (short : frame.len ≤ (if can_fd then 64 else 8)) where
    abbrev message : Memory
    message = prepared host fd can_fd pdu frame now

    copied : memcpy (λ a. 0) 0 message 16 frame.len ≡ memcpy (λ a. 0) 0 frame.data_bytes 0 frame.len
    unfolding memcpy
    copied = fun_ext λ j.
        let same : 16 + (j - 0) ≡ 16 + j = omega arith in
        let same' : 0 + (j - 0) ≡ j = omega arith in
        rw (same, same') (ground (arith, read_data host fd can_fd pdu frame now short j))

    fdf_read : Can.is_fdf host message ≡ is_fdf host Can.can_format message
    unfolding Can.is_fdf Can.get Can.index is_fdf
    fdf_read = refl

    length_read : Can.get_payload_length host message ≡ frame.len
    unfolding Can.get_payload_length
    length_read = ground (arith, read_length host fd can_fd pdu frame now short)

    taken : receive_frame host fd can_fd message ≡ carried fd can_fd frame
    unfolding receive_frame receive_can_id receive_flags
    taken =
        let flags = read_flags host fd can_fd pdu frame now short in
        let whole : u16 frame.len ≡ frame.len = ground arith in
        let whole8 : u8 frame.len ≡ frame.len = ground arith in
        rw (
          flags.0, flags.1, flags.2, flags.3, fdf_read, flags.4, flags.5, length_read, whole,
          whole8, copied,
        )

    pub prepared-Carries : Carries message frame
    prepared-Carries = record {
      size = (read_length host fd can_fd pdu frame now short).0;
      accepted = λ n fits.
          prepared-IsValid host fd can_fd pdu frame now short n
            (omega (arith, read_length host fd can_fd pdu frame now short));
      standard = ground (arith, read_flags host fd can_fd pdu frame now short);
      frame_read = taken;
      payload = length_read;
      short = ground arith;
    }

  -- Only the message's own bytes decide.
  module _ {acf_pdu : Memory} {frame : Frame} (carries : Carries acf_pdu frame) (other : Memory)
      (agree : (a : ℕ) → a < message_size frame → load8 acf_pdu a ≡ load8 other a) where
    header : (a : ℕ) → a < 16 → load8 acf_pdu a ≡ load8 other a
    header a lt = agree a (omega arith)

    pub Carries-cong : Carries other frame
    Carries-cong =
        let flags = same_flags host fd can_fd acf_pdu other header in
        let size' = same_size host fd can_fd acf_pdu other header in
        let whole : u16 (Can.get_payload_length host acf_pdu) ≤ frame.len =
          omega (arith, carries.payload) in
        let frame' =
          receive_frame_cong host fd can_fd acf_pdu other header λ a lt. agree a (omega arith) in
        record {
          size = sym size' ∙ carries.size;
          accepted = λ n fits.
              sym (is_valid_agree host can-IsCanFamily acf_pdu other header n)
              ∙ carries.accepted n fits;
          standard = ground (arith, flags, carries.standard);
          frame_read = sym frame' ∙ carries.frame_read;
          payload = sym flags.4 ∙ carries.payload;
          short = carries.short;
        }
