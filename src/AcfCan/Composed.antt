-- ===== src/AcfCan/Composed.antt =====
-- The PDU that `can_to_avtp` of examples/acf-can/acf-can-common.c ends with, read by `avtp_to_can`.
use open_lib.Common.{
  ℕ, ◌+◌, ◌-◌, ◌*◌, ◌^◌, ◌≤◌, ◌<◌, ◌≡◌, refl, sym, ap, ◌∙◌, fun_ext, arith, Bool, true, false, ltb,
  ◌==◌, List, [], ◌∷◌, length, some, u16,
}
use open_lib.Memory.{Memory, Endian, load8}
use open_lib.AcfCan.{
  Frame, FdFlags, ControlFormat, SendState, view, put, init_cf_pdu, update_cf_length, send_frames,
}
use open_lib.AcfCan.Stream.{ControlInfo, read_control, receive_from}
use open_lib.AcfCan.Packed.{
  messages_size, AllShort, store_all, Packed, Packed-cong, receive_all, load8-put, load8-view,
}
use open_lib.AcfCan.Sent.{send_all, IsSent}
use open_lib.AcfCan.Announced.{
  cf_header_len, init_cf_pdu_length, IsAccepted, update_cf_length-IsAccepted,
}

view-put : (m : Memory) (offset : ℕ) (inner : Memory) → view (put m offset inner) offset ≡ inner
unfolding view put
view-put m offset inner = fun_ext λ a.
    let e : offset + a - offset ≡ a = omega arith in
    let over : ltb (offset + a) offset ≡ false = ground arith in rw (over, e)

-- A message has at most 80 bytes.
messages_size-le :
    (can_fd : Bool) (frames : List Frame)
    → AllShort can_fd frames
    → messages_size frames ≤ 80 * length frames
messages_size-le can_fd [] short = omega arith
messages_size-le can_fd (frame ∷ frames) (short, shorts) =
    let bound : frame.len ≤ 64 = ground arith in
    omega (arith, messages_size-le can_fd frames shorts)

module _ (host : Endian) (fd : FdFlags) (can_fd : Bool) where
  -- From the control format on, a PDU whose header is accepted and whose messages are packed behind it.
  receive_from-Packed :
      (pdu : Memory) (offset pdu_length : ℕ) (can_frames : ℕ → Frame) (stream_id : ℕ)
      (exp_cf exp_udp : ℕ) (frames : List Frame) (header_len : ℕ) (info : ControlInfo)
      → read_control host (view pdu offset) (pdu_length - offset) ≡ some info
      → info.header_len ≡ header_len
      → info.data_length ≡ messages_size frames
      → info.s_id ≡ stream_id
      → Packed host fd can_fd pdu (offset + header_len) frames
      → length frames ≤ 15
      → offset + header_len + messages_size frames ≤ pdu_length
      → offset + header_len + messages_size frames < 2 ^ 16
      → 2 ≤ header_len
      → (receive_from host fd can_fd pdu pdu_length can_frames stream_id offset exp_cf
          exp_udp).received
        ≡ record {
          returned = some (length frames);
          can_frames = store_all fd can_fd can_frames 0 frames;
        }
  unfolding receive_from
  receive_from-Packed pdu offset pdu_length can_frames stream_id exp_cf exp_udp frames header_len
        info known is_header is_data is_stream packed few fits small long =
      let present : ltb (pdu_length - offset) 2 ≡ false = ground arith in
      let wanted : (info.s_id == stream_id) ≡ true = ground arith in
      let end : u16 (offset + u16 (info.data_length + info.header_len))
          ≡ offset + header_len + messages_size frames =
        omega (arith, is_header, is_data) in
      let start : u16 (offset + u16 info.header_len) ≡ offset + header_len =
        omega (arith, is_header) in
      let count : 0 + length frames ≡ length frames = omega arith in
      rw (present, known, wanted, end, start)
        (rw count at (
          receive_all host fd can_fd pdu (offset + header_len + messages_size frames) frames 16 0
            (offset + header_len) can_frames packed (omega arith) (omega arith) refl small))

  module _ (clock : ℕ → ℕ) (frames : List Frame) (short : AllShort can_fd frames)
      (few : length frames ≤ 15) (cf : ControlFormat) (stream_id seq_num : ℕ) (pdu1 : Memory)
      (offset : ℕ) (near : offset ≤ 4) where
    abbrev pub header : Memory
    header = (init_cf_pdu host (view pdu1 offset) stream_id cf seq_num).0

    abbrev pub before : SendState
    before = record {
      pdu = put pdu1 offset header;
      pdu_length = offset + cf_header_len cf;
      cf_length = cf_header_len cf;
    }

    abbrev pub after : SendState
    after = send_frames host fd can_fd clock frames 0 before

    abbrev pub finished : Memory
    finished =
        put after.pdu offset (update_cf_length host (view after.pdu offset) after.cf_length cf)

    size : messages_size frames ≤ 1200
    size = omega (arith, messages_size-le can_fd frames short)

    header_bounds : (cf : ControlFormat) → (12 ≤ cf_header_len cf) × (cf_header_len cf ≤ 40)
    header_bounds ControlFormat.ntscf_v0 = (omega arith, omega arith)
    header_bounds ControlFormat.ntscf_v1 = (omega arith, omega arith)
    header_bounds ControlFormat.tscf_v0 = (omega arith, omega arith)
    header_bounds ControlFormat.tscf_v1 = (omega arith, omega arith)

    sent : IsSent host fd can_fd clock frames before after
    sent =
        send_all host fd can_fd clock frames 0 before short (omega (arith, size, header_bounds cf))
          (omega (arith, size, header_bounds cf))

    header_kept : (a : ℕ) → a < cf_header_len cf → load8 header a ≡ load8 (view after.pdu offset) a
    header_kept a lt =
        let e : offset + a - offset ≡ a = omega arith in
        let over : ltb (offset + a) offset ≡ false = ground arith in
        let written : load8 (put pdu1 offset header) (offset + a) ≡ load8 header a =
          rw (load8-put pdu1 offset header (offset + a), over, e) in
        sym written ∙ sym (sent.2 (offset + a) (omega arith)) ∙ sym (load8-view after.pdu offset a)

    accepted :
        IsAccepted host
          (view pdu1 offset)
          stream_id
          seq_num
          cf
          (messages_size frames)
          (view after.pdu offset)
          (update_cf_length host (view after.pdu offset) after.cf_length cf)
    accepted = rw (sent.1) (
        update_cf_length-IsAccepted host (view pdu1 offset) stream_id seq_num cf
          (view after.pdu offset) (messages_size frames) header_kept (omega (arith, size)))

    kept : (a : ℕ) → offset + cf_header_len cf ≤ a → load8 after.pdu a ≡ load8 finished a
    kept a h =
        let over : ltb a offset ≡ false = ground arith in
        let e : offset + (a - offset) ≡ a = omega arith in
        let behind = accepted.1 (a - offset) (omega arith) in
        let viewed : load8 (view after.pdu offset) (a - offset) ≡ load8 after.pdu a =
          load8-view after.pdu offset (a - offset) ∙ ap (load8 after.pdu) e in
        rw
          (
            load8-put after.pdu offset
                (update_cf_length host (view after.pdu offset) after.cf_length cf) a,
            over,
          )
          (sym (behind ∙ viewed))

    packed : Packed host fd can_fd finished (offset + cf_header_len cf) frames
    packed =
        Packed-cong host fd can_fd after.pdu finished (offset + cf_header_len cf) frames kept sent.3

    pub received_back :
        (can_frames : ℕ → Frame) (exp_cf exp_udp : ℕ)
        → stream_id < 2 ^ 64
        → (receive_from host fd can_fd finished after.pdu_length can_frames stream_id offset exp_cf
            exp_udp).received
          ≡ record {
            returned = some (length frames);
            can_frames = store_all fd can_fd can_frames 0 frames;
          }
    received_back can_frames exp_cf exp_udp wide =
        let length_is = sent.0 in
        let info = accepted.0 (after.pdu_length - offset) (omega (arith, length_is)) in
        let seen : view finished offset
            ≡ update_cf_length host (view after.pdu offset) after.cf_length cf =
          view-put after.pdu offset
            (update_cf_length host (view after.pdu offset) after.cf_length cf) in
        let stream : info.0.s_id ≡ stream_id = omega (arith, info.4) in
        receive_from-Packed finished offset after.pdu_length can_frames stream_id exp_cf exp_udp
          frames (cf_header_len cf) info.0
          (ap (λ (m : Memory). read_control host m (after.pdu_length - offset)) seen ∙ info.1)
          info.2 info.3 stream packed few (omega (arith, length_is))
          (omega (arith, size, header_bounds cf)) (omega (arith, header_bounds cf))

    pub long_enough : ltb after.pdu_length 4 ≡ false
    long_enough = ground (arith, sent.0, header_bounds cf)

    -- The lengths that `can_to_avtp` starts with, the casts taken off.
    pub length_at :
        u16 (offset + (init_cf_pdu host (view pdu1 offset) stream_id cf seq_num).1)
        ≡ offset + cf_header_len cf
    length_at =
        omega
          (arith, init_cf_pdu_length host (view pdu1 offset) stream_id seq_num cf, header_bounds cf)

    pub cf_length_at :
        u16 (init_cf_pdu host (view pdu1 offset) stream_id cf seq_num).1 ≡ cf_header_len cf
    cf_length_at =
        omega
          (arith, init_cf_pdu_length host (view pdu1 offset) stream_id seq_num cf, header_bounds cf)
