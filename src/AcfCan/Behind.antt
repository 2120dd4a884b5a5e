-- ===== src/AcfCan/Behind.antt =====
-- `avtp_to_can` of examples/acf-can/acf-can-common.c and the memory behind the PDU.
use open_lib.Common.{
  ℕ, ◌+◌, ◌-◌, ◌≤◌, ◌<◌, ◌≡◌, refl, arith, Bool, true, false, some, dec_lt, inl, inr, u16, ltb,
  Option-cases,
}
use open_lib.Memory.{Memory, Endian, load8}
use open_lib.Utils.{get_in}
use open_lib.Utils.Table.{IsTable, get_cong}
use open_lib.Header.Udp
use open_lib.AcfCan.{Frame, FdFlags, view}
use open_lib.AcfCan.Receive.{receive_frames}
use open_lib.AcfCan.Stream.{ControlInfo, read_control, receive_from, avtp_to_can}
use open_lib.AcfCan.Control.{read_control-fits}
use open_lib.AcfCan.Agree.{receive_frames_cong}
use open_lib.AcfCan.AgreeHeader.{read_control_cong}

udp-IsTable : IsTable 4 Udp.table
udp-IsTable = record { fit = refl; disjoint = refl }

module _ (host : Endian) (fd : FdFlags) (can_fd : Bool) (pdu pdu' : Memory) (pdu_length : ℕ)
    (can_frames : ℕ → Frame) (stream_id : ℕ)
    (agree : (a : ℕ) → a < pdu_length → load8 pdu a ≡ load8 pdu' a) where
  control_same :
      (start : ℕ)
      → 2 ≤ pdu_length - start
      → read_control host (view pdu start) (pdu_length - start)
        ≡ read_control host (view pdu' start) (pdu_length - start)
  unfolding load8 view
  control_same start long =
      read_control_cong host (view pdu start) (view pdu' start) (pdu_length - start) long
        λ a lt. agree (start + a) (omega arith)

  -- The messages end where the checked length of the header ends.
  frames_same :
      (start : ℕ) (info : ControlInfo) (proc_bytes : ℕ)
      → 2 ≤ pdu_length - start
      → read_control host (view pdu start) (pdu_length - start) ≡ some info
      → receive_frames host fd can_fd pdu
          (u16 (start + u16 (info.data_length + info.header_len)))
          16
          0
          proc_bytes
          can_frames
        ≡ receive_frames host fd can_fd pdu'
            (u16 (start + u16 (info.data_length + info.header_len)))
            16
            0
            proc_bytes
            can_frames
  frames_same start info proc_bytes long e =
      let fits = (read_control-fits host (view pdu start) (pdu_length - start) info e).2 in
      receive_frames_cong host fd can_fd pdu pdu'
        (u16 (start + u16 (info.data_length + info.header_len))) (λ a lt. agree a (omega arith)) 16
        0 proc_bytes can_frames

  receive_from_cong :
      (start exp_cf exp_udp : ℕ)
      → receive_from host fd can_fd pdu pdu_length can_frames stream_id start exp_cf exp_udp
        ≡ receive_from host fd can_fd pdu' pdu_length can_frames stream_id start exp_cf exp_udp
  unfolding receive_from
  receive_from_cong start exp_cf exp_udp = elim (dec_lt (pdu_length - start) 2) [
    | yes lt ↦ let e : ltb (pdu_length - start) 2 ≡ true = ground arith in rw e refl
    | no ge ↦
        let long : 2 ≤ pdu_length - start = omega arith in
        let e : ltb (pdu_length - start) 2 ≡ false = ground arith in
        elim (Option-cases (read_control host (view pdu start) (pdu_length - start))) [
          | inl h ↦ rw (← control_same start long, e, h)
          | inr (info, h) ↦ rw (← control_same start long, e, h, frames_same start info _ long h)
        ]
  ]

  -- The result of `avtp_to_can` does not depend on the bytes behind the `pdu_length` bytes of the PDU,
  -- be it well-formed or not: for two memories that agree on these bytes, the number returned or -1,
  -- the array of frames and both expected sequence numbers are the same.
  pub avtp_to_can_cong :
      (use_udp : Bool) (exp_cf exp_udp : ℕ)
      → avtp_to_can host fd can_fd pdu pdu_length can_frames stream_id use_udp exp_cf exp_udp
        ≡ avtp_to_can host fd can_fd pdu' pdu_length can_frames stream_id use_udp exp_cf exp_udp
  unfolding avtp_to_can Udp.get_encapsulation_seq_no Udp.get Udp.index
  avtp_to_can_cong false exp_cf exp_udp = receive_from_cong 0 exp_cf exp_udp
  avtp_to_can_cong true exp_cf exp_udp = elim (dec_lt pdu_length 4) [
    | yes lt ↦ let e : ltb pdu_length 4 ≡ true = ground arith in rw e refl
    | no ge ↦
        let e : ltb pdu_length 4 ≡ false = ground arith in
        let number : get_in host Udp.table 1 pdu 0 ≡ get_in host Udp.table 1 pdu' 0 =
          get_cong host udp-IsTable pdu pdu' 0 λ a lt. agree a (omega arith) in
        rw (e, number) (receive_from_cong 4 exp_cf _)
  ]
