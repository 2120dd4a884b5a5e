-- ===== src/AcfCan/Agree.antt =====
-- The bytes of a message that decide a round of `avtp_to_can` in examples/acf-can/acf-can-common.c.
use open_lib.Common.{
  ℕ, zero, suc, ◌+◌, ◌-◌, ◌≤◌, ◌<◌, ◌≡◌, refl, arith, Bool, true, u16, some, dec_lt, inl, inr,
  Bool-cases,
}
use open_lib.Memory.{Memory, Endian, load8}
use open_lib.Memory.Copy.{memcpy-cong}
use open_lib.Acf.{get_acf_msg_length_in_bytes}
use open_lib.Acf.Padded.{payload_octets, get_pad}
use open_lib.Acf.Padded.Header.{field, field_cong}
use open_lib.Acf.Padded.Valid.{get_acf_msg_length_in_bytes_cong}
use open_lib.Acf.CanFamily.{is_valid, get_can_identifier, is_eff}
use open_lib.Acf.CanFamily.Valid.{is_valid_iff, is_valid_cong}
use open_lib.Acf.Can
use open_lib.Acf.Formats.{can-IsPadded, can-IsCanFamily}
use open_lib.AcfCan.{Frame, FdFlags, view}
use open_lib.AcfCan.Receive.{
  Received, receive_can_id, receive_flags, receive_frame, receive_round, receive_frames,
}

module _ (host : Endian) (fd : FdFlags) (can_fd : Bool) where
  -- Messages with the same header.
  module _ (m m' : Memory) (header : (a : ℕ) → a < 16 → load8 m a ≡ load8 m' a) where
    same : (j : ℕ) → field host can-IsPadded m j ≡ field host can-IsPadded m' j
    same j = field_cong host can-IsPadded m m' j header

    pub same_size : get_acf_msg_length_in_bytes host m ≡ get_acf_msg_length_in_bytes host m'
    same_size = get_acf_msg_length_in_bytes_cong host can-IsPadded m m' header

    pub same_flags :
        (receive_can_id host fd can_fd m ≡ receive_can_id host fd can_fd m')
        × (receive_flags host fd can_fd m ≡ receive_flags host fd can_fd m')
        × (is_eff host Can.can_format m ≡ is_eff host Can.can_format m')
        × (get_can_identifier host Can.can_format m ≡ get_can_identifier host Can.can_format m')
        × (Can.get_payload_length host m ≡ Can.get_payload_length host m')
    unfolding receive_can_id receive_flags is_eff get_can_identifier Can.is_rtr Can.is_brs
        Can.is_fdf Can.is_esi Can.get Can.index Can.get_payload_length payload_octets get_pad
    same_flags = (
      rw (same 4, same 5, same 13),
      rw (same 6, same 7, same 8),
      rw (same 5),
      rw (same 13),
      rw (same_size, same 2),
    )

    -- The payload decides the rest of the frame.
    pub receive_frame_cong :
        ((a : ℕ) → a < 16 + u16 (Can.get_payload_length host m) → load8 m a ≡ load8 m' a)
        → receive_frame host fd can_fd m ≡ receive_frame host fd can_fd m'
    unfolding receive_frame
    receive_frame_cong agree =
        let copied =
          memcpy-cong (λ a. 0) 0 m m' Can.get_payload (u16 (Can.get_payload_length host m))
            λ j lt. agree (Can.get_payload + j) (omega arith) in
        rw (same_flags.0, same_flags.1, ← same_flags.4, copied)

  module _ (pdu pdu' : Memory) (msg_length : ℕ)
      (agree : (a : ℕ) → a < msg_length → load8 pdu a ≡ load8 pdu' a) where
    view_agree :
        (p a : ℕ)
        → p < msg_length
        → a < msg_length - p
        → load8 (view pdu p) a ≡ load8 (view pdu' p) a
    unfolding load8 view
    view_agree p a lt lt' = agree (p + a) (omega arith)

    abbrev Accepted : ℕ → Type 0
    Accepted p = is_valid host Can.can_format (some (view pdu p)) (msg_length - p) ≡ true

    -- A message that passes `IsValid` lies in the buffer with its payload.
    Accepted-fits :
        (p : ℕ) → Accepted p → 16 + u16 (Can.get_payload_length host (view pdu p)) ≤ msg_length - p
    unfolding Can.get_payload_length
    Accepted-fits p valid =
        ground (arith, (is_valid_iff host can-IsCanFamily (view pdu p) (msg_length - p)).0 valid)

    round_cong :
        (i p : ℕ) (can_frames : ℕ → Frame) (rest rest' : Received)
        → (p < msg_length → Accepted p → rest ≡ rest')
        → receive_round host fd can_fd pdu msg_length i p can_frames rest
          ≡ receive_round host fd can_fd pdu' msg_length i p can_frames rest'
    unfolding receive_round
    round_cong i p can_frames rest rest' later = elim (dec_lt p msg_length) [
      | no out ↦ ground arith
      | yes lt ↦
          let v =
            is_valid_cong host can-IsCanFamily (view pdu p) (view pdu' p) (msg_length - p)
              λ a h. view_agree p a lt h in
          elim (Bool-cases (is_valid host Can.can_format (some (view pdu p)) (msg_length - p))) [
            | inr invalid ↦ ground (arith, invalid, v)
            | inl valid ↦
                let fits = Accepted-fits p valid in
                let s =
                  same_flags (view pdu p) (view pdu' p) λ a h. view_agree p a lt (omega arith) in
                rw (later lt valid, ← v, s.2, s.3)
          ]
    ]

    pub receive_frames_cong :
        (fuel i p : ℕ) (can_frames : ℕ → Frame)
        → receive_frames host fd can_fd pdu msg_length fuel i p can_frames
          ≡ receive_frames host fd can_fd pdu' msg_length fuel i p can_frames
    unfolding receive_frames
    receive_frames_cong zero i p can_frames = refl
    receive_frames_cong (suc fuel) i p can_frames = round_cong i p can_frames _ _ λ lt valid.
        let fits = Accepted-fits p valid in
        let header = λ (a : ℕ) (h : a < 16). view_agree p a lt (omega arith) in
        let frame =
          receive_frame_cong (view pdu p) (view pdu' p) header
            λ a h. view_agree p a lt (omega arith) in
        rw (same_size (view pdu p) (view pdu' p) header, frame) (receive_frames_cong fuel _ _ _)
