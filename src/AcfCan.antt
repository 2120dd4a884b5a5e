-- ===== src/AcfCan.antt =====
-- examples/acf-can/acf-can-common.c and acf-can-common.h: CAN frames packed into one AVTP PDU, as built
-- for Linux with the default `AVTP_CAN_API` (Can.h).
pub mod Receive
pub mod Stream
pub mod Bounds
pub mod Control
pub mod Message
pub mod Reading
pub mod Agree
pub mod AgreeHeader
pub mod Behind
pub mod Carried
pub mod Packed
pub mod Sent
pub mod Started
pub mod StartedNtscf
pub mod StartedTscf
pub mod AcceptedNtscf
pub mod AcceptedTscf
pub mod Announced
pub mod Composed
pub mod RoundTrip
use open_lib.Common.{
  ℕ, ◌+◌, ◌-◌, ◌^◌, ◌*◌, Bool, true, false, ltb, ◌==◌, ◌&&◌, if◌then◌else◌, List, [], ◌∷◌, some, u8,
  u16, u32, u64, bit_and, to_bool,
}
use open_lib.Memory.{Memory, Endian}
use open_lib.Acf.{get_acf_msg_length_in_bytes}
use open_lib.Acf.CanFamily.{create_acf_message}
use open_lib.Acf.Can
use open_lib.Header.Udp
use open_lib.Control.Tscf
use open_lib.Control.Ntscf

-- `frame_t` under Linux: the members `cc` and `fd` of the union keep the identifier, the length and the
-- data at the same places. `data` is the array behind the header of the struct.
pub record Frame : Type 0 where
  pub can_id : ℕ
  pub len : ℕ
  pub flags : ℕ
  pub data_bytes : Memory

-- The flags of linux/can.h, which is not part of the repository: `CANFD_BRS`, `CANFD_ESI`, `CANFD_FDF`.
pub record FdFlags : Type 0 where
  pub brs : ℕ
  pub esi : ℕ
  pub fdf : ℕ

-- `CAN_EFF_FLAG`, `CAN_RTR_FLAG`, `CAN_EFF_MASK`
abbrev pub can_eff_flag : ℕ
can_eff_flag = 0x80000000

abbrev pub can_rtr_flag : ℕ
can_rtr_flag = 0x40000000

abbrev pub can_eff_mask : ℕ
can_eff_mask = 0x1FFFFFFF

-- `acf_can_cf_t`
pub data ControlFormat : Type 0 where
  ntscf_v0 ntscf_v1 tscf_v0 tscf_v1 : ControlFormat

-- The memory as a callee sees it that is given `pdu + offset`, and what it makes of the caller's.
unfoldable pub view : Memory → ℕ → Memory
view m offset a = m (offset + a)

unfoldable pub put : Memory → ℕ → Memory → Memory
put m offset inner a = if ltb a offset then m a else inner (a - offset)

-- The local variables of `can_to_avtp` with the PDU.
pub record SendState : Type 0 where
  pub pdu : Memory
  pub pdu_length : ℕ
  pub cf_length : ℕ

module _ (host : Endian) where
  -- `init_cf_pdu`: the PDU afterwards, and the length returned.
  unfoldable pub init_cf_pdu : Memory → ℕ → ControlFormat → ℕ → Memory × ℕ
  init_cf_pdu pdu stream_id ntscf_v1 seq_num =
      let pdu1 = Ntscf.init_v1_present host pdu in
      let pdu2 = Ntscf.set_sequence_num_v1 host pdu1 seq_num in
      let pdu3 = Ntscf.set_stream_id_v1 host pdu2 stream_id in
      (pdu3, Ntscf.get_header_len_v1 host pdu3)
  init_cf_pdu pdu stream_id ntscf_v0 seq_num =
      let pdu1 = Ntscf.init_v0_present host pdu in
      let pdu2 = Ntscf.set_sequence_num_v0 host pdu1 seq_num in
      let pdu3 = Ntscf.set_stream_id_v0 host pdu2 stream_id in
      (pdu3, Ntscf.get_header_len_v0 host pdu3)
  init_cf_pdu pdu stream_id tscf_v1 seq_num =
      let pdu1 = Tscf.init_v1_present host pdu in
      let pdu2 = Tscf.set_tu_v1 host pdu1 false in
      let pdu3 = Tscf.set_sequence_num_v1 host pdu2 seq_num in
      let pdu4 = Tscf.set_stream_id_v1 host pdu3 stream_id in
      (pdu4, Tscf.get_header_len_v1 host pdu4)
  init_cf_pdu pdu stream_id tscf_v0 seq_num =
      let pdu1 = Tscf.init_v0_present host pdu in
      let pdu2 = Tscf.set_tu_v0 host pdu1 false in
      let pdu3 = Tscf.set_sequence_num_v0 host pdu2 seq_num in
      let pdu4 = Tscf.set_stream_id_v0 host pdu3 stream_id in
      (pdu4, Tscf.get_header_len_v0 host pdu4)

  -- `update_cf_length`; the subtraction is on `uint64_t`.
  unfoldable pub update_cf_length : Memory → ℕ → ControlFormat → Memory
  update_cf_length pdu length ntscf_v1 =
      let payload_len = u64 (length + 2 ^ 64 - Ntscf.get_header_len_v1 host pdu) in
      Ntscf.set_ntscf_data_length_v1 host pdu (u16 payload_len)
  update_cf_length pdu length ntscf_v0 =
      let payload_len = u64 (length + 2 ^ 64 - Ntscf.get_header_len_v0 host pdu) in
      Ntscf.set_ntscf_data_length_v0 host pdu (u16 payload_len)
  update_cf_length pdu length tscf_v1 =
      let payload_len = u64 (length + 2 ^ 64 - Tscf.get_header_len_v1 host pdu) in
      Tscf.set_stream_data_length_v1 host pdu (u16 payload_len)
  update_cf_length pdu length tscf_v0 =
      let payload_len = u64 (length + 2 ^ 64 - Tscf.get_header_len_v0 host pdu) in
      Tscf.set_stream_data_length_v0 host pdu (u16 payload_len)

  module _ (fd : FdFlags) (can_fd : Bool) where
    -- `prepare_acf_packet`; `now` is the time in nanoseconds that `clock_gettime` gave. The length that
    -- it returns is read off the result.
    unfoldable pub prepare_acf_packet : Memory → Frame → ℕ → Memory
    prepare_acf_packet pdu frame now =
        let frame_id = bit_and frame.can_id can_eff_mask in
        let pdu1 =
          create_acf_message host Can.can_format pdu frame_id frame.data_bytes (u8 frame.len)
            can_fd in
        let pdu2 = Can.set_message_timestamp host pdu1 now in
        let pdu3 = Can.set_mtv host pdu2 true in
        let pdu4 =
          if to_bool (bit_and frame.can_id can_rtr_flag)
          then Can.set_rtr host pdu3 true
          else pdu3 in
        let pdu5 =
          if can_fd && to_bool (bit_and frame.flags fd.brs)
          then Can.set_brs host pdu4 true
          else pdu4 in
        let pdu6 =
          if can_fd && to_bool (bit_and frame.flags fd.fdf)
          then Can.set_fdf host pdu5 true
          else pdu5 in
        if can_fd && to_bool (bit_and frame.flags fd.esi) then Can.set_esi host pdu6 true else pdu6

  module _ (fd : FdFlags) (can_fd : Bool) (clock : ℕ → ℕ) where
    -- The loop over the frames; `clock i` is the time that the `i`-th round reads.
    unfoldable pub send_frames : List Frame → ℕ → SendState → SendState
    send_frames [] i s = s
    send_frames (frame ∷ frames) i s =
        let acf_pdu = prepare_acf_packet fd can_fd (view s.pdu s.pdu_length) frame (clock i) in
        let res = get_acf_msg_length_in_bytes host acf_pdu in
        send_frames frames (i + 1) (record {
          pdu = put s.pdu s.pdu_length acf_pdu;
          pdu_length = u16 (s.pdu_length + res);
          cf_length = u16 (s.cf_length + res);
        })

    -- `can_to_avtp`: the PDU afterwards and the length returned. `frames` are the first
    -- `num_acf_msgs` elements of the array.
    unfoldable pub can_to_avtp : List Frame → Memory → Bool → ControlFormat → ℕ → ℕ → ℕ → Memory × ℕ
    can_to_avtp frames pdu use_udp cf stream_id cf_seq_num udp_seq_num =
        let pdu1 = if use_udp then Udp.set_encapsulation_seq_no host pdu udp_seq_num else pdu in
        let cf_pdu = if use_udp then 4 else 0 in
        let started = init_cf_pdu (view pdu1 cf_pdu) stream_id cf cf_seq_num in
        let sent = send_frames frames 0 (record {
          pdu = put pdu1 cf_pdu started.0;
          pdu_length = u16 (cf_pdu + started.1);
          cf_length = u16 started.1;
        }) in
        let pdu2 =
          put sent.pdu cf_pdu (update_cf_length (view sent.pdu cf_pdu) sent.cf_length cf) in
        (pdu2, sent.pdu_length)
