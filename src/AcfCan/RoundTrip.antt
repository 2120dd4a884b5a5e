-- ===== src/AcfCan/RoundTrip.antt =====
-- `avtp_to_can` after `can_to_avtp`: examples/acf-can/acf-can-common.c.
use open_lib.Common.{
  ℕ, ◌+◌, ◌^◌, ◌≤◌, ◌<◌, ◌≡◌, refl, arith, Bool, true, false, List, length, get_or, some,
}
use open_lib.Memory.{Memory, Endian}
use open_lib.Header.Udp
use open_lib.AcfCan.{Frame, FdFlags, ControlFormat, can_to_avtp}
use open_lib.AcfCan.Receive.{zero_frame}
use open_lib.AcfCan.Stream.{avtp_to_can}
use open_lib.AcfCan.Carried.{carried}
use open_lib.AcfCan.Packed.{AllShort, store_all, stored, after_all}
use open_lib.AcfCan.Composed.{received_back, length_at, cf_length_at, long_enough}

module _ (host : Endian) (fd : FdFlags) (can_fd : Bool) where
  all_received :
      (clock : ℕ → ℕ) (frames : List Frame) (pdu : Memory) (use_udp : Bool) (cf : ControlFormat)
      (stream_id seq_num udp_seq_num : ℕ) (can_frames : ℕ → Frame) (exp_cf exp_udp : ℕ)
      → AllShort can_fd frames
      → length frames ≤ 15
      → stream_id < 2 ^ 64
      → (avtp_to_can host fd can_fd
          (can_to_avtp host fd can_fd clock frames pdu use_udp cf stream_id seq_num udp_seq_num).0
          (can_to_avtp host fd can_fd clock frames pdu use_udp cf stream_id seq_num udp_seq_num).1
          can_frames
          stream_id
          use_udp
          exp_cf
          exp_udp).received
        ≡ record {
          returned = some (length frames);
          can_frames = store_all fd can_fd can_frames 0 frames;
        }
  unfolding avtp_to_can can_to_avtp
  all_received clock frames pdu false cf stream_id seq_num udp_seq_num can_frames exp_cf exp_udp
        short few wide =
      rw
        (
          length_at host fd can_fd clock frames short few cf stream_id seq_num pdu 0 (omega arith),
          cf_length_at host fd can_fd clock frames short few cf stream_id seq_num pdu 0
              (omega arith),
        )
        (received_back host fd can_fd clock frames short few cf stream_id seq_num pdu 0
          (omega arith) can_frames exp_cf exp_udp wide)
  all_received clock frames pdu true cf stream_id seq_num udp_seq_num can_frames exp_cf exp_udp
        short few wide =
      let pdu1 = Udp.set_encapsulation_seq_no host pdu udp_seq_num in
      rw
        (
          length_at host fd can_fd clock frames short few cf stream_id seq_num pdu1 4 (omega arith),
          cf_length_at host fd can_fd clock frames short few cf stream_id seq_num pdu1 4
              (omega arith),
          long_enough host fd can_fd clock frames short few cf stream_id seq_num pdu1 4
              (omega arith),
        )
        (received_back host fd can_fd clock frames short few cf stream_id seq_num pdu1 4
          (omega arith) can_frames exp_cf _ wide)

  -- The frames that `can_to_avtp` packs into a PDU are the ones that `avtp_to_can` returns from it,
  -- whatever the control format, the UDP encapsulation, the sequence numbers, the clock and the old bytes
  -- of the PDU are: it returns their number, the array holds what arrives of each (`carried`) in their
  -- order from the element 0 on, and its other elements stay. At most 15 frames are packed, none longer
  -- than 8 bytes or, on a CAN FD bus, 64, and the receiver asks for the stream id of the sender.
  pub avtp_to_can-can_to_avtp :
      (clock : ℕ → ℕ) (frames : List Frame) (pdu : Memory) (use_udp : Bool) (cf : ControlFormat)
      (stream_id seq_num udp_seq_num : ℕ) (can_frames : ℕ → Frame) (exp_cf exp_udp : ℕ)
      → AllShort can_fd frames
      → length frames ≤ 15
      → stream_id < 2 ^ 64
      → let sent =
          can_to_avtp host fd can_fd clock frames pdu use_udp cf stream_id seq_num udp_seq_num in
        let result =
          (avtp_to_can host fd can_fd sent.0 sent.1 can_frames stream_id use_udp exp_cf
            exp_udp).received in
        (result.returned ≡ some (length frames))
        × ((k : ℕ)
            → k < length frames
            → result.can_frames k ≡ carried fd can_fd (get_or frames k zero_frame))
        × ((k : ℕ) → length frames ≤ k → result.can_frames k ≡ can_frames k)
  avtp_to_can-can_to_avtp clock frames pdu use_udp cf stream_id seq_num udp_seq_num can_frames
        exp_cf exp_udp short few wide =
      rw
        (all_received clock frames pdu use_udp cf stream_id seq_num udp_seq_num can_frames exp_cf
          exp_udp short few wide)
        (
          refl,
          λ k lt.
              let e : 0 + k ≡ k = omega arith in
              rw e at (stored fd can_fd can_frames 0 frames k lt),
          λ k h. after_all fd can_fd can_frames 0 frames k (omega arith),
        )
