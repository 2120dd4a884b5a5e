-- ===== src/Utils/Write.antt =====
-- The loop of `Avtp_SetField` against the bits of the PDU.
use open_lib.Common.{
  ℕ, zero, suc, ◌+◌, ◌-◌, ◌*◌, ◌/◌, ◌^◌, ◌≤◌, ◌<◌, ◌≡◌, refl, arith, within, ltb, u8, u32, dec_lt,
  lt→ltb, if◌then◌else◌, ◌&&◌, false, testbit, testbit-mod, testbit-shl, testbit-shr, bit_and,
  bit_or, testbit-bit_and, testbit-bit_or, testbit-not32, not32,
}
use open_lib.Memory.{Memory, Endian, load_be, store_be, pdu_bit}
use open_lib.Memory.Laws.{testbit-load_be, pdu_bit-store_be}
use open_lib.Byteorder.Host.{be_to_cpu32-load, store-cpu_to_be32}
use open_lib.Utils.{
  FieldDescriptor, WriteState, quadlet_bits, quadlet_shift, quadlet_mask, write_round, write_loop,
  write_field,
}
use open_lib.Utils.Geometry.{
  IsDescriptor, lead, quadlet_bits_lem, quadlet_shift_lem, testbit-quadlet_mask, quadlet_mask-lt,
}
use open_lib.Utils.Read.{start}

-- The quadlet with the masked part replaced.
abbrev updated : ℕ → ℕ → ℕ → ℕ → ℕ
updated word width shift part =
    bit_or (bit_and word (not32 (quadlet_mask width shift)))
      (bit_and (u32 (part * 2 ^ shift)) (quadlet_mask width shift))

testbit-updated :
    (word width shift part i : ℕ)
    → width + shift ≤ 32
    → i < 32
    → testbit (updated word width shift part) i
      ≡ (if within shift (shift + width) i then testbit part (i - shift) else testbit word i)
testbit-updated word width shift part i h lt =
    rw
      (
        testbit-bit_or,
        testbit-bit_and,
        testbit-bit_and,
        testbit-not32 (quadlet_mask width shift) i (quadlet_mask-lt width shift),
        testbit-quadlet_mask width shift i h,
        testbit-mod,
        testbit-shl,
      )
      (ground arith)

module _ (host : Endian) {d : FieldDescriptor} (ok : IsDescriptor d) (m : Memory) (value : ℕ) where
  -- What holds before each round: the bits done are in place, and the others as at the start.
  record IsWritten (s : WriteState) : Type 0 where
    part : s.processed_bits ≤ d.bits
    aligned :
        s.processed_bits < d.bits
        → s.processed_bits + d.offset ≡ 32 * s.quadlet_offset + lead d s.processed_bits
    done :
        (k : ℕ)
        → pdu_bit s.pdu k ≡ (
            if within (start d) (start d + s.processed_bits) k
            then testbit value (start d + d.bits - 1 - k)
            else pdu_bit m k)

  module _ (s : WriteState) (inv : IsWritten s) (more : s.processed_bits < d.bits) where
    write_round-progress :
        (write_round host d value s).processed_bits
        ≡ s.processed_bits + quadlet_bits d s.processed_bits
    unfolding write_round
    write_round-progress = ground (arith, quadlet_bits_lem ok more, ok.narrow)

    write_round-advances : s.processed_bits < (write_round host d value s).processed_bits
    write_round-advances =
        rw write_round-progress (ground (arith, quadlet_bits_lem ok more, ok.starts))

    write_round-step : (write_round host d value s).quadlet_offset ≡ u8 (s.quadlet_offset + 1)
    unfolding write_round
    write_round-step = refl

    write_round-aligned :
        (write_round host d value s).processed_bits < d.bits
        → (write_round host d value s).processed_bits + d.offset
          ≡ 32 * (write_round host d value s).quadlet_offset
            + lead d (write_round host d value s).processed_bits
    write_round-aligned h = rw write_round-step (
        ground (
          arith,
          write_round-progress,
          quadlet_bits_lem ok more,
          inv.aligned more,
          ok.narrow,
          ok.starts,
        ))

    -- The address of the quadlet that the round changes.
    abbrev address : ℕ
    address = u8 (d.quadlet + s.quadlet_offset) * 4

    abbrev width : ℕ
    width = quadlet_bits d s.processed_bits

    abbrev shift : ℕ
    shift = quadlet_shift d s.processed_bits

    abbrev part_value : ℕ
    part_value = u32 (value / 2 ^ (d.bits - s.processed_bits - width))

    write_round-pdu :
        (write_round host d value s).pdu
        ≡ store_be s.pdu address 4 (updated (load_be s.pdu address 4) width shift part_value)
    unfolding write_round
    write_round-pdu = rw (be_to_cpu32-load, store-cpu_to_be32)

    testbit-part_value :
        (i : ℕ)
        → testbit part_value i
          ≡ (ltb i 32 && testbit value (i + (d.bits - s.processed_bits - width)))
    testbit-part_value i = rw (testbit-mod, testbit-shr)

    -- The round goes on where the last one stopped.
    address_lem : 8 * address + lead d s.processed_bits ≡ start d + s.processed_bits
    address_lem = omega (arith, inv.aligned more, ok.reachable, ok.narrow, ok.starts)

    -- The bits that the round writes, by their place in the quadlet.
    write_round-pdu_bit :
        (k : ℕ)
        → pdu_bit (write_round host d value s).pdu k ≡ (
            if within (8 * address + (32 - shift - width)) (8 * address + (32 - shift)) k
            then testbit part_value (8 * address + 31 - k - shift)
            else pdu_bit s.pdu k)
    write_round-pdu_bit k =
        let e : 8 * (address + 4) - 1 - k ≡ 8 * address + 31 - k = omega arith in
        rw (write_round-pdu, pdu_bit-store_be, e)
          (ground (
            arith,
            testbit-updated (load_be s.pdu address 4) width shift part_value (8 * address + 31 - k),
            testbit-load_be s.pdu address 4 (8 * address + 31 - k),
            quadlet_shift_lem ok more,
          ))

    write_round-done :
        (k : ℕ)
        → pdu_bit (write_round host d value s).pdu k ≡ (
            if within (start d) (start d + (s.processed_bits + width)) k
            then testbit value (start d + d.bits - 1 - k)
            else pdu_bit m k)
    write_round-done k =
        rw (write_round-pdu_bit, testbit-part_value, inv.done k)
          (ground (arith, address_lem, quadlet_bits_lem ok more, quadlet_shift_lem ok more))

    write_round-IsWritten : IsWritten (write_round host d value s)
    write_round-IsWritten = record {
      part = omega (arith, write_round-progress, quadlet_bits_lem ok more);
      aligned = λ h. write_round-aligned h;
      done = λ k. rw write_round-progress (write_round-done k);
    }

  write_loop-IsWritten :
      (fuel : ℕ) (s : WriteState)
      → IsWritten s
      → d.bits ≤ s.processed_bits + fuel
      → IsWritten (write_loop host d value fuel s)
        × ((write_loop host d value fuel s).processed_bits ≡ d.bits)
  unfolding write_loop
  write_loop-IsWritten zero s inv h = (inv, omega (arith, inv.part))
  write_loop-IsWritten (suc fuel) s inv h = elim (dec_lt s.processed_bits d.bits) [
    | yes more ↦ rw (lt→ltb _ _ more) (
        write_loop-IsWritten fuel (write_round host d value s) (write_round-IsWritten s inv more)
          (omega (arith, write_round-advances s inv more)))
    | no stop ↦
        let e : ltb s.processed_bits d.bits ≡ false = ground arith in
        rw e (inv, omega (arith, inv.part))
  ]

  abbrev first : WriteState
  first = record { quadlet_offset = 0; processed_bits = 0; pdu = m }

  first-IsWritten : IsWritten first
  first-IsWritten = record {
    part = omega arith;
    aligned = λ h. omega arith;
    done = λ k. ground arith;
  }

  -- The loop of `Avtp_SetField` ends by its own test, with every bit of the field processed, within
  -- as many rounds as the field has bits.
  pub write_loop-ends : (write_loop host d value d.bits first).processed_bits ≡ d.bits
  write_loop-ends = (write_loop-IsWritten d.bits first first-IsWritten (omega arith)).1

  -- On a host of either byte order, writing the field of a well-formed descriptor puts the low bits
  -- of the value there, highest first, and leaves every other bit of the memory as it was.
  pub pdu_bit-write_field :
      (k : ℕ)
      → pdu_bit (write_field host d m value) k ≡ (
          if within (start d) (start d + d.bits) k
          then testbit value (start d + d.bits - 1 - k)
          else pdu_bit m k)
  unfolding write_field
  pdu_bit-write_field k = ground (
    arith,
    (write_loop-IsWritten d.bits first first-IsWritten (omega arith)).0.done k,
    write_loop-ends,
  )
