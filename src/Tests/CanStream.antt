-- ===== src/Tests/CanStream.antt =====
-- The CAN stream functions of the example at concrete inputs.
use open_lib.Common.{
  List, [], ◌∷◌, get_or, if◌then◌else◌, ◌==◌, ℕ, ◌+◌, ◌*◌, ◌≤◌, ◌<◌, ◌≡◌, ◌⊎◌, refl, arith, true,
  false, some,
}
use open_lib.Memory.{Memory, little, big}
use open_lib.Header.CommonHeader
use open_lib.Header.AlternativeHeader
use open_lib.Control.Ntscf
use open_lib.Memory.{load, load_le, load8, store8}
use open_lib.Byteorder.{be_to_cpu32, bswap32}
use open_lib.Utils.{
  get_in, descriptor_at, read_field, read_loop, read_round, quadlet_bits, quadlet_shift,
  quadlet_mask, min_u8,
}
use open_lib.AcfCan.{Frame, FdFlags, ntscf_v0, can_to_avtp}
use open_lib.AcfCan.Receive.{zero_frame, receive_frames}
use open_lib.AcfCan.Stream.{read_control, read_ntscf, avtp_to_can}
use open_lib.AcfCan.Bounds.{receive_frames-ends, receive_frames-bounded}
use open_lib.AcfCan.Control.{read_control-fits}
use open_lib.AcfCan.Carried.{carried}
use open_lib.AcfCan.Behind.{avtp_to_can_cong}
use open_lib.AcfCan.RoundTrip.{avtp_to_can-can_to_avtp}

abbrev sample : Memory
sample a = a * 73 + 29

-- As linux/can.h documents them.
abbrev linux : FdFlags
linux = record { brs = 1; esi = 2; fdf = 4 }

abbrev empty : ℕ → Frame
empty i = zero_frame

-- A header of NTSCF version 0 with SV set and no data.
abbrev bare : Memory
bare a = if a == 0 then 0x82 else 0

receive_frames-ends_example :
    receive_frames little linux true sample 200 (9 + 16) 0 12 empty
    ≡ receive_frames little linux true sample 200 16 0 12 empty
receive_frames-ends_example = receive_frames-ends little linux true sample 200 9 12 empty

receive_frames-bounded_example :
    ((n : ℕ) → (receive_frames big linux false sample 200 16 0 12 empty).returned ≡ some n → n ≤ 15)
    × ((j : ℕ)
        → 15 ≤ j
        → (receive_frames big linux false sample 200 16 0 12 empty).can_frames j ≡ empty j)
receive_frames-bounded_example = receive_frames-bounded big linux false sample 200 12 empty

-- The header is accepted with the 12 bytes of version 0.
bare_accepted : read_control little bare 12 ≡ some (read_ntscf little bare)
unfolding read_control CommonHeader.get_subtype CommonHeader.get_version CommonHeader.get
    CommonHeader.index CommonHeader.is_supported AlternativeHeader.get_version get_in descriptor_at
    read_field read_loop read_round quadlet_bits quadlet_shift quadlet_mask load load_le load8
    be_to_cpu32 bswap32 min_u8 Ntscf.is_valid Ntscf.get_header_len Ntscf.get_header_len_v0
    Ntscf.get_ntscf_data_length Ntscf.get_field Ntscf.get_field_v0 Ntscf.index
bare_accepted = refl

read_control-fits_example :
    ((CommonHeader.get_subtype little bare ≡ 5) ⊎ (CommonHeader.get_subtype little bare ≡ 0x82))
    × (CommonHeader.get_version little bare < 2)
    × ((read_ntscf little bare).header_len + (read_ntscf little bare).data_length ≤ 12)
read_control-fits_example = read_control-fits little bare 12 (read_ntscf little bare) bare_accepted

-- A remote frame with an extended identifier, and one of five bytes with the flag BRS.
abbrev two_frames : List Frame
two_frames =
    record { can_id = 0xC0012345; len = 0; flags = 0; data_bytes = sample }
    ∷ record { can_id = 0x123; len = 5; flags = 1; data_bytes = sample }
    ∷ []

abbrev times : ℕ → ℕ
times i = 1000 * i

avtp_to_can-can_to_avtp_example :
    let sent = can_to_avtp little linux true times two_frames sample true ntscf_v0 7 3 5 in
    let result = (avtp_to_can little linux true sent.0 sent.1 empty 7 true 4 5).received in
    (result.returned ≡ some 2)
    × ((k : ℕ) → k < 2 → result.can_frames k ≡ carried linux true (get_or two_frames k zero_frame))
    × ((k : ℕ) → 2 ≤ k → result.can_frames k ≡ empty k)
avtp_to_can-can_to_avtp_example =
    avtp_to_can-can_to_avtp little linux true times two_frames sample true ntscf_v0 7 3 5 empty 4 5
      (omega arith, (omega arith, tt)) (omega arith) (omega arith)

-- A byte behind the first `n` that is written.
rewritten_behind : (m : Memory) (n a : ℕ) → a < n → load8 m a ≡ load8 (store8 m n 1) a
unfolding load8 store8
rewritten_behind m n a lt = ground arith

abbrev sent_pdu : Memory
sent_pdu = (can_to_avtp little linux true times two_frames sample true ntscf_v0 7 3 5).0

abbrev sent_length : ℕ
sent_length = (can_to_avtp little linux true times two_frames sample true ntscf_v0 7 3 5).1

avtp_to_can_cong_example :
    avtp_to_can little linux true sent_pdu sent_length empty 7 true 4 5
    ≡ avtp_to_can little linux true (store8 sent_pdu sent_length 1) sent_length empty 7 true 4 5
avtp_to_can_cong_example =
    avtp_to_can_cong little linux true sent_pdu (store8 sent_pdu sent_length 1) sent_length empty 7
      (rewritten_behind sent_pdu sent_length) true 4 5
