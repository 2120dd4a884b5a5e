-- ===== src/AcfCan/Sent.antt =====
-- The loop of `can_to_avtp` in examples/acf-can/acf-can-common.c.
use open_lib.Common.{
  ℕ, ◌+◌, ◌-◌, ◌^◌, ◌≤◌, ◌<◌, ◌≡◌, refl, sym, ◌∙◌, arith, Bool, List, [], ◌∷◌, u16, if◌then◌else◌,
}
use mathlib.Core.Path.{subst}
use open_lib.Memory.{Endian, load8}
use open_lib.Acf.{get_acf_msg_length_in_bytes}
use open_lib.AcfCan.{Frame, FdFlags, SendState, view, put, prepare_acf_packet, send_frames}
use open_lib.AcfCan.Carried.{message_size, prepared-Carries, Carries-cong}
use open_lib.AcfCan.Packed.{messages_size, AllShort, Packed, load8-put, load8-view}

module _ (host : Endian) (fd : FdFlags) (can_fd : Bool) (clock : ℕ → ℕ) where
  -- The loop appends the messages of the frames and leaves what stands before them.
  abbrev pub IsSent : List Frame → SendState → SendState → Type 0
  IsSent frames s r =
      (r.pdu_length ≡ s.pdu_length + messages_size frames)
      × (r.cf_length ≡ s.cf_length + messages_size frames)
      × ((a : ℕ) → a < s.pdu_length → load8 r.pdu a ≡ load8 s.pdu a)
      × Packed host fd can_fd r.pdu s.pdu_length frames

  -- The state after one frame, the lengths without their casts.
  abbrev appended : SendState → Frame → ℕ → SendState
  appended s frame i = record {
    pdu =
        put s.pdu s.pdu_length
          (prepare_acf_packet host fd can_fd (view s.pdu s.pdu_length) frame (clock i));
    pdu_length = s.pdu_length + message_size frame;
    cf_length = s.cf_length + message_size frame;
  }

  send_step :
      (frame : Frame) (frames : List Frame) (i : ℕ) (s : SendState)
      → frame.len ≤ (if can_fd then 64 else 8)
      → s.pdu_length + message_size frame < 2 ^ 16
      → s.cf_length + message_size frame < 2 ^ 16
      → send_frames host fd can_fd clock (frame ∷ frames) i s
        ≡ send_frames host fd can_fd clock frames (i + 1) (appended s frame i)
  unfolding send_frames
  send_step frame frames i s short small cf_small =
      let acf = prepare_acf_packet host fd can_fd (view s.pdu s.pdu_length) frame (clock i) in
      let carries =
        prepared-Carries host fd can_fd (view s.pdu s.pdu_length) frame (clock i) short in
      let next : u16 (s.pdu_length + get_acf_msg_length_in_bytes host acf)
          ≡ s.pdu_length + message_size frame =
        omega (arith, carries.size) in
      let cf_next : u16 (s.cf_length + get_acf_msg_length_in_bytes host acf)
          ≡ s.cf_length + message_size frame =
        omega (arith, carries.size) in
      rw (next, cf_next)

  load8-appended :
      (s : SendState) (frame : Frame) (i a : ℕ)
      → a < s.pdu_length
      → load8 (appended s frame i).pdu a ≡ load8 s.pdu a
  load8-appended s frame i a lt =
      rw
        (load8-put s.pdu s.pdu_length
          (prepare_acf_packet host fd can_fd (view s.pdu s.pdu_length) frame (clock i)) a)
        (ground arith)

  load8-message :
      (s : SendState) (frame : Frame) (i a : ℕ)
      → load8 (prepare_acf_packet host fd can_fd (view s.pdu s.pdu_length) frame (clock i)) a
        ≡ load8 (appended s frame i).pdu (s.pdu_length + a)
  load8-message s frame i a =
      let e : s.pdu_length + a - s.pdu_length ≡ a = omega arith in
      rw
        (
          load8-put s.pdu s.pdu_length
              (prepare_acf_packet host fd can_fd (view s.pdu s.pdu_length) frame (clock i))
              (s.pdu_length + a),
          e,
        )
        (ground arith)

  pub send_all :
      (frames : List Frame) (i : ℕ) (s : SendState)
      → AllShort can_fd frames
      → s.pdu_length + messages_size frames < 2 ^ 16
      → s.cf_length + messages_size frames < 2 ^ 16
      → IsSent frames s (send_frames host fd can_fd clock frames i s)
  unfolding send_frames
  send_all [] i s short small cf_small = (omega arith, omega arith, λ a lt. refl, tt)
  send_all (frame ∷ frames) i s (short, shorts) small cf_small =
      let p = s.pdu_length in
      let t = appended s frame i in
      let r = send_frames host fd can_fd clock frames (i + 1) t in
      let later : IsSent frames t r =
        send_all frames (i + 1) t shorts (omega arith) (omega arith) in
      let carries = prepared-Carries host fd can_fd (view s.pdu p) frame (clock i) short in
      let sent : IsSent (frame ∷ frames) s r = (
        omega (arith, later.0),
        omega (arith, later.1),
        λ a lt. later.2 a (omega arith) ∙ load8-appended s frame i a lt,
        (
          Carries-cong host fd can_fd carries (view r.pdu p) (λ a lt.
              load8-message s frame i a
              ∙ sym (later.2 (p + a) (omega arith))
              ∙ sym (load8-view r.pdu p a)),
          later.3,
        ),
      ) in
      subst (IsSent (frame ∷ frames) s)
        (sym (send_step frame frames i s short (omega arith) (omega arith))) sent
