-- ===== src/AcfCan/Receive.antt =====
-- `avtp_to_can` of examples/acf-can/acf-can-common.c: the loop over the ACF messages of a PDU.
use open_lib.Common.{
  ℕ, zero, suc, ◌+◌, ◌-◌, Bool, ltb, leb, ◌==◌, ◌&&◌, not, if◌then◌else◌, Option, some, none, u8,
  u16, bit_or,
}
use open_lib.Memory.{Memory, Endian, memcpy}
use open_lib.Acf.{get_acf_msg_length_in_bytes}
use open_lib.Acf.CanFamily.{is_valid, get_can_identifier, is_eff}
use open_lib.Acf.Can
use open_lib.AcfCan.{Frame, FdFlags, can_eff_flag, can_rtr_flag, view}

-- `MAX_CAN_FRAMES_IN_ACF`
abbrev pub max_can_frames_in_acf : ℕ
max_can_frames_in_acf = 15

-- `memset(frame, 0, sizeof(*frame))`
abbrev pub zero_frame : Frame
zero_frame = record { can_id = 0; len = 0; flags = 0; data_bytes = λ a. 0 }

-- The array `can_frames`, and what the function leaves in it; `none` stands for -1.
pub record Received : Type 0 where
  pub returned : Option ℕ
  pub can_frames : ℕ → Frame

unfoldable pub store_frame : (ℕ → Frame) → ℕ → Frame → ℕ → Frame
store_frame can_frames i frame j = if j == i then frame else can_frames j

module _ (host : Endian) (fd : FdFlags) (can_fd : Bool) where
  -- The identifier with the flags that the message carries, where EFF is set if it has to be.
  unfoldable pub receive_can_id : Memory → ℕ
  receive_can_id acf_pdu =
      let identifier = get_can_identifier host Can.can_format acf_pdu in
      let extended =
        if is_eff host Can.can_format acf_pdu then bit_or identifier can_eff_flag else identifier in
      if Can.is_rtr host acf_pdu then bit_or extended can_rtr_flag else extended

  unfoldable pub receive_flags : Memory → ℕ
  receive_flags acf_pdu =
      let flags1 = if Can.is_brs host acf_pdu then bit_or 0 fd.brs else 0 in
      let flags2 = if Can.is_fdf host acf_pdu then bit_or flags1 fd.fdf else flags1 in
      if Can.is_esi host acf_pdu then bit_or flags2 fd.esi else flags2

  -- What one round writes to its slot of the array, once the message has passed the tests.
  unfoldable pub receive_frame : Memory → Frame
  receive_frame acf_pdu =
      let can_payload_length = u16 (Can.get_payload_length host acf_pdu) in
      record {
        can_id = receive_can_id acf_pdu;
        len = u8 can_payload_length;
        flags = if can_fd then receive_flags acf_pdu else 0;
        data_bytes = memcpy (λ a. 0) 0 acf_pdu Can.get_payload can_payload_length;
      }

  module _ (pdu : Memory) (msg_length : ℕ) where
    -- One round of the loop at `proc_bytes`; `rest` is what the rounds behind it come to.
    unfoldable pub receive_round : ℕ → ℕ → (ℕ → Frame) → Received → Received
    receive_round i proc_bytes can_frames rest =
        let acf_pdu = view pdu proc_bytes in
        if not (ltb proc_bytes msg_length)
        then record { returned = some i; can_frames = can_frames }
        else if not (is_valid host Can.can_format (some acf_pdu) (msg_length - proc_bytes))
        then record { returned = none; can_frames = can_frames }
        else if leb max_can_frames_in_acf i
        then record { returned = none; can_frames = can_frames }
        else if not (is_eff host Can.can_format acf_pdu)
            && ltb 0x7ff (get_can_identifier host Can.can_format acf_pdu)
        then record { returned = none; can_frames = store_frame can_frames i zero_frame }
        else rest

    -- The loop, on fuel: a round that does not return raises `i`, and the 16th returns.
    unfoldable pub receive_frames : ℕ → ℕ → ℕ → (ℕ → Frame) → Received
    receive_frames zero i proc_bytes can_frames = record {
      returned = none;
      can_frames = can_frames;
    }
    receive_frames (suc fuel) i proc_bytes can_frames =
        let acf_pdu = view pdu proc_bytes in
        let rest =
          receive_frames fuel (u8 (i + 1))
            (u16 (proc_bytes + get_acf_msg_length_in_bytes host acf_pdu))
            (store_frame can_frames i (receive_frame acf_pdu)) in
        receive_round i proc_bytes can_frames rest
