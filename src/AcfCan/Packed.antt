-- ===== src/AcfCan/Packed.antt =====
-- A row of CAN messages in a PDU: what the loop of `can_to_avtp` writes and the loop of `avtp_to_can`
-- reads in examples/acf-can/acf-can-common.c.
use open_lib.Common.{
  ℕ, zero, suc, ◌+◌, ◌-◌, ◌^◌, ◌≤◌, ◌<◌, ◌≡◌, refl, sym, ◌∙◌, arith, Bool, ltb, List, [], ◌∷◌,
  length, get_or, if◌then◌else◌, some, u8, u16,
}
use open_lib.Memory.{Memory, Endian, load8}
use open_lib.Acf.{get_acf_msg_length_in_bytes}
use open_lib.AcfCan.{Frame, FdFlags, view, put}
use open_lib.AcfCan.Receive.{Received, receive_round, receive_frames, store_frame, zero_frame}
use open_lib.AcfCan.Carried.{message_size, carried, Carries, Carries-cong}

abbrev pub messages_size : List Frame → ℕ
messages_size [] = 0
messages_size (frame ∷ frames) = message_size frame + messages_size frames

-- No frame is longer than its bus allows.
abbrev pub AllShort : Bool → List Frame → Type 0
AllShort can_fd [] = Unit
AllShort can_fd (frame ∷ frames) = (frame.len ≤ (if can_fd then 64 else 8)) × AllShort can_fd frames

-- The array after the frames that arrive have been stored from `i` on.
abbrev pub store_all : FdFlags → Bool → (ℕ → Frame) → ℕ → List Frame → ℕ → Frame
store_all fd can_fd can_frames i [] = can_frames
store_all fd can_fd can_frames i (frame ∷ frames) =
    store_all fd can_fd (store_frame can_frames i (carried fd can_fd frame)) (i + 1) frames

before_all :
    (fd : FdFlags) (can_fd : Bool) (can_frames : ℕ → Frame) (i : ℕ) (frames : List Frame) (j : ℕ)
    → j < i
    → store_all fd can_fd can_frames i frames j ≡ can_frames j
unfolding store_frame
before_all fd can_fd can_frames i [] j lt = refl
before_all fd can_fd can_frames i (frame ∷ frames) j lt =
    before_all fd can_fd (store_frame can_frames i (carried fd can_fd frame)) (i + 1) frames j
      (omega arith)
    ∙ ground arith

-- Each frame is in its slot.
pub stored :
    (fd : FdFlags) (can_fd : Bool) (can_frames : ℕ → Frame) (i : ℕ) (frames : List Frame) (k : ℕ)
    → k < length frames
    → store_all fd can_fd can_frames i frames (i + k)
      ≡ carried fd can_fd (get_or frames k zero_frame)
unfolding store_frame
stored fd can_fd can_frames i [] k lt = absurd (omega arith)
stored fd can_fd can_frames i (frame ∷ frames) zero lt =
    before_all fd can_fd (store_frame can_frames i (carried fd can_fd frame)) (i + 1) frames (i + 0)
      (omega arith)
    ∙ ground arith
stored fd can_fd can_frames i (frame ∷ frames) (suc k) lt =
    let e : i + suc k ≡ i + 1 + k = omega arith in
    rw e (
      stored fd can_fd (store_frame can_frames i (carried fd can_fd frame)) (i + 1) frames k
        (omega arith))

-- The slots behind them are left.
pub after_all :
    (fd : FdFlags) (can_fd : Bool) (can_frames : ℕ → Frame) (i : ℕ) (frames : List Frame) (j : ℕ)
    → i + length frames ≤ j
    → store_all fd can_fd can_frames i frames j ≡ can_frames j
unfolding store_frame
after_all fd can_fd can_frames i [] j h = refl
after_all fd can_fd can_frames i (frame ∷ frames) j h =
    after_all fd can_fd (store_frame can_frames i (carried fd can_fd frame)) (i + 1) frames j
      (omega arith)
    ∙ ground arith

pub load8-view : (m : Memory) (offset a : ℕ) → load8 (view m offset) a ≡ load8 m (offset + a)
unfolding load8 view
load8-view m offset a = refl

pub load8-put :
    (m : Memory) (offset : ℕ) (inner : Memory) (a : ℕ)
    → load8 (put m offset inner) a ≡ (if ltb a offset then load8 m a else load8 inner (a - offset))
unfolding load8 put
load8-put m offset inner a = ground arith

module _ (host : Endian) (fd : FdFlags) (can_fd : Bool) where
  abbrev pub Packed : Memory → ℕ → List Frame → Type 0
  Packed m p [] = Unit
  Packed m p (frame ∷ frames) =
      Carries host fd can_fd (view m p) frame × Packed m (p + message_size frame) frames

  pub Packed-cong :
      (m m' : Memory) (p : ℕ) (frames : List Frame)
      → ((a : ℕ) → p ≤ a → load8 m a ≡ load8 m' a)
      → Packed m p frames
      → Packed m' p frames
  Packed-cong m m' p [] agree packed = tt
  Packed-cong m m' p (frame ∷ frames) agree (first, rest) = (
    Carries-cong host fd can_fd first (view m' p)
        λ a lt. load8-view m p a ∙ agree (p + a) (omega arith) ∙ sym (load8-view m' p a),
    Packed-cong m m' (p + message_size frame) frames (λ a h. agree a (omega arith)) rest,
  )

  module _ (pdu : Memory) (msg_length : ℕ) where
    round_done :
        (i p : ℕ) (can_frames : ℕ → Frame) (rest : Received)
        → p ≡ msg_length
        → receive_round host fd can_fd pdu msg_length i p can_frames rest
          ≡ record { returned = some i; can_frames = can_frames }
    unfolding receive_round
    round_done i p can_frames rest e = ground arith

    round_taken :
        (i p : ℕ) (can_frames : ℕ → Frame) (rest : Received) (frame : Frame)
        → Carries host fd can_fd (view pdu p) frame
        → p + message_size frame ≤ msg_length
        → i < 15
        → receive_round host fd can_fd pdu msg_length i p can_frames rest ≡ rest
    unfolding receive_round
    round_taken i p can_frames rest frame carries fits room =
        ground (arith, carries.accepted (msg_length - p) (omega arith), carries.standard)

    pub receive_all :
        (frames : List Frame) (fuel i p : ℕ) (can_frames : ℕ → Frame)
        → Packed pdu p frames
        → i + length frames ≤ 15
        → length frames < fuel
        → p + messages_size frames ≡ msg_length
        → msg_length < 2 ^ 16
        → receive_frames host fd can_fd pdu msg_length fuel i p can_frames ≡ record {
          returned = some (i + length frames);
          can_frames = store_all fd can_fd can_frames i frames;
        }
    unfolding receive_frames
    receive_all frames zero i p can_frames packed room enough all small = absurd (omega arith)
    receive_all [] (suc fuel) i p can_frames packed room enough all small =
        let e : i + 0 ≡ i = omega arith in rw e (round_done i p can_frames _ (omega arith))
    receive_all (frame ∷ frames) (suc fuel) i p can_frames (carries, packed) room enough all small =
        let next : u16 (p + get_acf_msg_length_in_bytes host (view pdu p))
            ≡ p + message_size frame =
          omega (arith, carries.size) in
        let later : u8 (i + 1) ≡ i + 1 = omega arith in
        let count : i + suc (length frames) ≡ i + 1 + length frames = omega arith in
        round_taken i p can_frames _ frame carries (omega arith) (omega arith)
        ∙ rw (next, later, carries.frame_read, count)
            (receive_all frames fuel (i + 1) (p + message_size frame) _ packed (omega arith)
              (omega arith) (omega arith) small)
