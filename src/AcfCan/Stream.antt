-- ===== src/AcfCan/Stream.antt =====
-- `avtp_to_can` of examples/acf-can/acf-can-common.c: the encapsulation and the control format before
-- the ACF messages.
use open_lib.Common.{
  ℕ, ◌+◌, ◌-◌, Bool, ltb, ◌==◌, not, if◌then◌else◌, Option, some, none, u16, bit_and,
}
use open_lib.Memory.{Memory, Endian}
use open_lib.Header.CommonHeader
use open_lib.Header.CommonStreamHeader
use open_lib.Header.AlternativeHeader
use open_lib.Header.Udp
use open_lib.Control.Tscf
use open_lib.Control.Ntscf
use open_lib.AcfCan.{Frame, FdFlags, view}
use open_lib.AcfCan.Receive.{Received, receive_frames}

-- What the function reads from the control format header.
pub record ControlInfo : Type 0 where
  pub header_len : ℕ
  pub data_length : ℕ
  pub s_id : ℕ
  pub seq_num : ℕ
  pub seq_mask : ℕ

-- The result of `avtp_to_can`, and what it leaves where its pointers point.
pub record StreamResult : Type 0 where
  pub received : Received
  pub exp_cf_seqnum : ℕ
  pub exp_udp_seqnum : ℕ

module _ (host : Endian) where
  unfoldable pub read_tscf : Memory → ControlInfo
  read_tscf cf_pdu =
      if CommonStreamHeader.get_version host cf_pdu == 1
      then record {
        header_len = Tscf.get_header_len_v1 host cf_pdu;
        data_length = Tscf.get_stream_data_length_v1 host cf_pdu;
        s_id = Tscf.get_stream_id_v1 host cf_pdu;
        seq_num = Tscf.get_sequence_num_v1 host cf_pdu;
        seq_mask = 0xFFFFFFFF;
      }
      else record {
        header_len = Tscf.get_header_len_v0 host cf_pdu;
        data_length = Tscf.get_stream_data_length_v0 host cf_pdu;
        s_id = Tscf.get_stream_id_v0 host cf_pdu;
        seq_num = Tscf.get_sequence_num_v0 host cf_pdu;
        seq_mask = 0xFF;
      }

  unfoldable pub read_ntscf : Memory → ControlInfo
  read_ntscf cf_pdu =
      if AlternativeHeader.get_version host cf_pdu == 1
      then record {
        header_len = Ntscf.get_header_len_v1 host cf_pdu;
        data_length = Ntscf.get_ntscf_data_length_v1 host cf_pdu;
        s_id = Ntscf.get_stream_id_v1 host cf_pdu;
        seq_num = Ntscf.get_sequence_num_v1 host cf_pdu;
        seq_mask = 0xFFFFFFFF;
      }
      else record {
        header_len = Ntscf.get_header_len_v0 host cf_pdu;
        data_length = Ntscf.get_ntscf_data_length_v0 host cf_pdu;
        s_id = Ntscf.get_stream_id_v0 host cf_pdu;
        seq_num = Ntscf.get_sequence_num_v0 host cf_pdu;
        seq_mask = 0xFF;
      }

  -- The tests of the control format, `none` where the function returns -1. `received` is
  -- `pdu_length - proc_bytes`.
  unfoldable pub read_control : Memory → ℕ → Option ControlInfo
  read_control cf_pdu received =
      if CommonHeader.get_subtype host cf_pdu == 5
      then (if not (Tscf.is_valid host (some cf_pdu) received)
          then none
          else if not (
              CommonHeader.is_supported Tscf.supported_versions
                (CommonStreamHeader.get_version host cf_pdu))
          then none
          else some (read_tscf cf_pdu))
      else if CommonHeader.get_subtype host cf_pdu == 0x82
      then (if not (Ntscf.is_valid host (some cf_pdu) received)
          then none
          else if not (
              CommonHeader.is_supported Ntscf.supported_versions
                (AlternativeHeader.get_version host cf_pdu))
          then none
          else some (read_ntscf cf_pdu))
      else none

  module _ (fd : FdFlags) (can_fd : Bool) (pdu : Memory) (pdu_length : ℕ) (can_frames : ℕ → Frame)
      (stream_id : ℕ) where
    -- From the control format on; `start` is the `proc_bytes` at that point.
    unfoldable pub receive_from : ℕ → ℕ → ℕ → StreamResult
    receive_from start exp_cf_seqnum exp_udp_seqnum =
        let refused : StreamResult = record {
          received = record { returned = none; can_frames = can_frames };
          exp_cf_seqnum = exp_cf_seqnum;
          exp_udp_seqnum = exp_udp_seqnum;
        } in
        if ltb (pdu_length - start) 2
        then refused
        else elim (read_control (view pdu start) (pdu_length - start)) [
          | none ↦ refused
          | some info ↦ if not (info.s_id == stream_id) then refused else record {
            received =
                receive_frames host fd can_fd pdu
                  (u16 (start + u16 (info.data_length + info.header_len))) 16 0
                  (u16 (start + u16 info.header_len)) can_frames;
            exp_cf_seqnum =
                if bit_and info.seq_num info.seq_mask == bit_and exp_cf_seqnum info.seq_mask
                then exp_cf_seqnum
                else info.seq_num;
            exp_udp_seqnum = exp_udp_seqnum;
          }
        ]

    -- `avtp_to_can`
    unfoldable pub avtp_to_can : Bool → ℕ → ℕ → StreamResult
    avtp_to_can use_udp exp_cf_seqnum exp_udp_seqnum =
        if use_udp
        then (if ltb pdu_length 4
            then record {
              received = record { returned = none; can_frames = can_frames };
              exp_cf_seqnum = exp_cf_seqnum;
              exp_udp_seqnum = exp_udp_seqnum;
            }
            else (let udp_seq_num = Udp.get_encapsulation_seq_no host pdu in
                receive_from 4 exp_cf_seqnum
                  (if udp_seq_num == exp_udp_seqnum then exp_udp_seqnum else udp_seq_num)))
        else receive_from 0 exp_cf_seqnum exp_udp_seqnum
