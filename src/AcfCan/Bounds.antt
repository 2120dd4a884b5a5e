-- ===== src/AcfCan/Bounds.antt =====
-- The loop of `avtp_to_can` in examples/acf-can/acf-can-common.c: its rounds and its writes.
use open_lib.Common.{
  ℕ, zero, suc, ◌+◌, ◌≤◌, ◌<◌, ◌≡◌, refl, ◌∙◌, ap, arith, Bool, some, dec_lt, u8, ◌⊎◌, ◌≢◌, inr,
}
use open_lib.Memory.{Memory, Endian}
use open_lib.AcfCan.{Frame, FdFlags}
use open_lib.AcfCan.Receive.{Received, receive_round, receive_frames, store_frame}

store_elsewhere :
    (can_frames : ℕ → Frame) (i : ℕ) (frame : Frame) (j : ℕ)
    → j ≢ i
    → store_frame can_frames i frame j ≡ can_frames j
unfolding store_frame
store_elsewhere can_frames i frame j ne = ground arith

module _ (host : Endian) (fd : FdFlags) (can_fd : Bool) (pdu : Memory) (msg_length : ℕ) where
  abbrev round : ℕ → ℕ → (ℕ → Frame) → Received → Received
  round i proc_bytes can_frames rest =
      receive_round host fd can_fd pdu msg_length i proc_bytes can_frames rest

  abbrev loop : ℕ → ℕ → ℕ → (ℕ → Frame) → Received
  loop fuel i proc_bytes can_frames =
      receive_frames host fd can_fd pdu msg_length fuel i proc_bytes can_frames

  -- With the array full, the round returns.
  round_full :
      (i proc_bytes : ℕ) (can_frames : ℕ → Frame) (r r' : Received)
      → 15 ≤ i
      → round i proc_bytes can_frames r ≡ round i proc_bytes can_frames r'
  unfolding receive_round
  round_full i proc_bytes can_frames r r' full = ground arith

  one_more :
      (fuel i proc_bytes : ℕ) (can_frames : ℕ → Frame)
      → i ≤ 15
      → 16 ≤ fuel + i
      → loop (suc fuel) i proc_bytes can_frames ≡ loop fuel i proc_bytes can_frames
  unfolding receive_frames
  one_more zero i proc_bytes can_frames small enough = absurd (omega arith)
  one_more (suc fuel) i proc_bytes can_frames small enough = elim (dec_lt i 15) [
    | yes lt ↦
        ap (round i proc_bytes can_frames)
          (one_more fuel (u8 (i + 1)) _ _ (omega arith) (omega arith))
    | no ge ↦ round_full i proc_bytes can_frames _ _ (omega arith)
  ]

  -- The loop of `avtp_to_can` ends by its own tests within 16 rounds, whatever the bytes of the PDU are:
  -- further rounds would change neither the result nor the array.
  pub receive_frames-ends :
      (more proc_bytes : ℕ) (can_frames : ℕ → Frame)
      → loop (more + 16) 0 proc_bytes can_frames ≡ loop 16 0 proc_bytes can_frames
  receive_frames-ends zero proc_bytes can_frames = refl
  receive_frames-ends (suc more) proc_bytes can_frames =
      let e : suc more + 16 ≡ suc (more + 16) = omega arith in
      rw e (
        one_more (more + 16) 0 proc_bytes can_frames (omega arith) (omega arith)
        ∙ receive_frames-ends more proc_bytes can_frames)

  round-returned :
      (i proc_bytes : ℕ) (can_frames : ℕ → Frame) (rest : Received) (n : ℕ)
      → i ≤ 15
      → (i < 15 → rest.returned ≡ some n → (i ≤ n) × (n ≤ 15))
      → (round i proc_bytes can_frames rest).returned ≡ some n
      → (i ≤ n) × (n ≤ 15)
  unfolding receive_round
  round-returned i proc_bytes can_frames rest n small later e = ground arith

  round-slot :
      (i proc_bytes : ℕ) (can_frames : ℕ → Frame) (rest : Received) (j : ℕ)
      → (j < i) ⊎ (15 ≤ j)
      → (i < 15 → rest.can_frames j ≡ can_frames j)
      → (round i proc_bytes can_frames rest).can_frames j ≡ can_frames j
  unfolding receive_round store_frame
  round-slot i proc_bytes can_frames rest j outside later = ground arith

  loop-returned :
      (fuel i proc_bytes : ℕ) (can_frames : ℕ → Frame) (n : ℕ)
      → i ≤ 15
      → (loop fuel i proc_bytes can_frames).returned ≡ some n
      → (i ≤ n) × (n ≤ 15)
  unfolding receive_frames
  loop-returned zero i proc_bytes can_frames n small e = ground arith
  loop-returned (suc fuel) i proc_bytes can_frames n small e =
      round-returned i proc_bytes can_frames _ n small
        (λ lt e'. omega (arith, loop-returned fuel (u8 (i + 1)) _ _ n (omega arith) e')) e

  loop-slot :
      (fuel i proc_bytes : ℕ) (can_frames : ℕ → Frame) (j : ℕ)
      → i ≤ 15
      → (j < i) ⊎ (15 ≤ j)
      → (loop fuel i proc_bytes can_frames).can_frames j ≡ can_frames j
  unfolding receive_frames
  loop-slot zero i proc_bytes can_frames j small outside = refl
  loop-slot (suc fuel) i proc_bytes can_frames j small outside =
      round-slot i proc_bytes can_frames _ j outside λ lt.
        loop-slot fuel (u8 (i + 1)) _ _ j (omega arith) (omega arith)
        ∙ store_elsewhere can_frames i _ j (omega arith)

  -- Whatever the bytes of the PDU are, the loop of `avtp_to_can` returns -1 or a number up to 15, and
  -- leaves the array as it is from the element 15 on.
  pub receive_frames-bounded :
      (proc_bytes : ℕ) (can_frames : ℕ → Frame)
      → ((n : ℕ) → (loop 16 0 proc_bytes can_frames).returned ≡ some n → n ≤ 15)
        × ((j : ℕ) → 15 ≤ j → (loop 16 0 proc_bytes can_frames).can_frames j ≡ can_frames j)
  receive_frames-bounded proc_bytes can_frames = (
    λ n e. (loop-returned 16 0 proc_bytes can_frames n (omega arith) e).1,
    λ j h. loop-slot 16 0 proc_bytes can_frames j (omega arith) (inr h),
  )
