-- ===== src/AcfCan/Message.antt =====
-- One CAN message as `prepare_acf_packet` of examples/acf-can/acf-can-common.c makes it.
use open_lib.Common.{
  ℕ, ◌%◌, ◌^◌, ◌≤◌, ◌<◌, ◌≡◌, refl, ◌∙◌, arith, Bool, true, false, ◌==◌, ◌&&◌, if◌then◌else◌, u8,
  u64, bit_and, bit_and_field, bit_num, to_bool,
}
use open_lib.Memory.{Memory, Endian, load8}
use open_lib.Utils.{set_in, descriptor_at}
use open_lib.Utils.Table.{get-set, load8-set}
use open_lib.Acf.Padded.Header.{field}
use open_lib.Acf.CanFamily.{create_acf_message}
use open_lib.Acf.Can
use open_lib.Acf.Formats.{can-IsPadded}
use open_lib.AcfCan.{Frame, FdFlags, can_eff_mask, can_rtr_flag, prepare_acf_packet}

module _ (host : Endian) where
  abbrev pub at : Memory → ℕ → ℕ
  at m j = field host can-IsPadded m j

  -- A flag that is set on a condition.
  at_flagged :
      (c : Bool) (m : Memory) (i j : ℕ)
      → i < 14
      → (descriptor_at Can.table i).bits ≡ 1
      → at (if c then set_in host Can.table 14 m i (u64 (bit_num true)) else m) j
        ≡ (if c && i == j then 1 else at m j)
  at_flagged true m i j lt one =
      rw (get-set host can-IsPadded.is_table m i (u64 (bit_num true)) j, one) (ground arith)
  at_flagged false m i j lt one = refl

  load8_flagged :
      (c : Bool) (m : Memory) (i a : ℕ)
      → 16 ≤ a
      → load8 (if c then set_in host Can.table 14 m i (u64 (bit_num true)) else m) a ≡ load8 m a
  load8_flagged true m i a h = load8-set host can-IsPadded.is_table m i (u64 (bit_num true)) a h
  load8_flagged false m i a h = refl

module _ (host : Endian) (fd : FdFlags) (can_fd : Bool) (pdu : Memory) (frame : Frame)
    (now : ℕ) where
  abbrev pub base : Memory
  base =
      create_acf_message host Can.can_format pdu (bit_and frame.can_id can_eff_mask)
        frame.data_bytes (u8 frame.len) can_fd

  abbrev pub is_remote : Bool
  is_remote = to_bool (bit_and frame.can_id can_rtr_flag)

  abbrev pub has_flag : ℕ → Bool
  has_flag flag = can_fd && to_bool (bit_and frame.flags flag)

  abbrev pub prepared : Memory
  prepared = prepare_acf_packet host fd can_fd pdu frame now

  abbrev stamped : Memory
  stamped = set_in host Can.table 14 base 11 (u64 (u64 now))

  at-stamped : (j : ℕ) → at host stamped j ≡ (if 11 == j then now % 2 ^ 64 else at host base j)
  unfolding descriptor_at
  at-stamped j = rw (get-set host can-IsPadded.is_table base 11 (u64 (u64 now)) j) (ground arith)

  abbrev timed : Memory
  timed = set_in host Can.table 14 stamped 3 (u64 (bit_num true))

  at-timed : (j : ℕ) → at host timed j ≡ (if 3 == j then 1 else at host stamped j)
  unfolding descriptor_at
  at-timed j =
      rw (get-set host can-IsPadded.is_table stamped 3 (u64 (bit_num true)) j) (ground arith)

  -- Every field of the finished message, next to the message that `CreateAcfMessage` made.
  pub at-prepared :
      (j : ℕ)
      → at host prepared j ≡ (
          if has_flag fd.esi && 8 == j
          then 1
          else if has_flag fd.fdf && 7 == j
          then 1
          else if has_flag fd.brs && 6 == j
          then 1
          else if is_remote && 4 == j
          then 1
          else if 3 == j
          then 1
          else if 11 == j
          then now % 2 ^ 64
          else at host base j)
  unfolding prepare_acf_packet Can.set_message_timestamp Can.set_mtv Can.set_rtr Can.set_brs
      Can.set_fdf Can.set_esi Can.set Can.index descriptor_at
  at-prepared j = rw (
    at_flagged host (has_flag fd.esi) _ 8 j (omega arith) refl,
    at_flagged host (has_flag fd.fdf) _ 7 j (omega arith) refl,
    at_flagged host (has_flag fd.brs) _ 6 j (omega arith) refl,
    at_flagged host is_remote timed 4 j (omega arith) refl,
    at-timed j,
    at-stamped j,
  )

  pub load8-prepared : (a : ℕ) → 16 ≤ a → load8 prepared a ≡ load8 base a
  unfolding prepare_acf_packet Can.set_message_timestamp Can.set_mtv Can.set_rtr Can.set_brs
      Can.set_fdf Can.set_esi Can.set Can.index
  load8-prepared a h =
      load8_flagged host (has_flag fd.esi) _ 8 a h
      ∙ load8_flagged host (has_flag fd.fdf) _ 7 a h
      ∙ load8_flagged host (has_flag fd.brs) _ 6 a h
      ∙ load8_flagged host is_remote timed 4 a h
      ∙ load8-set host can-IsPadded.is_table stamped 3 (u64 (bit_num true)) a h
      ∙ load8-set host can-IsPadded.is_table base 11 (u64 (u64 now)) a h

  abbrev pub frame_id : ℕ
  frame_id = bit_and frame.can_id can_eff_mask

  pub frame_id-lt : frame_id < 2 ^ 29
  frame_id-lt = omega (arith, bit_and_field 29 0 frame.can_id)
