-- ===== src/Utils/Read.antt =====
-- The loop of `Avtp_GetField` against the bits of the PDU.
use open_lib.Common.{
  ℕ, zero, suc, ◌+◌, ◌-◌, ◌*◌, ◌/◌, ◌%◌, ◌^◌, ◌≤◌, ◌<◌, ◌≡◌, refl, arith, within, ltb, u8, dec_lt,
  lt→ltb, if◌then◌else◌, Bool, false, bit_num, testbit, testbit-mod, testbit-shl, testbit-shr,
  bit_and, bit_or, testbit-bit_and, testbit-bit_or, testbit-zero, testbit_ext,
}
use open_lib.Memory.{Memory, Endian, load_be, pdu_bit}
use open_lib.Memory.Laws.{testbit-load_be}
use open_lib.Byteorder.Host.{be_to_cpu32-load}
use open_lib.Utils.{
  FieldDescriptor, ReadState, quadlet_bits, quadlet_shift, quadlet_mask, read_round, read_loop,
  read_field,
}
use open_lib.Utils.Geometry.{
  IsDescriptor, lead, quadlet_bits_lem, quadlet_shift_lem, testbit-quadlet_mask,
}

-- The first bit of the field.
abbrev pub start : FieldDescriptor → ℕ
start d = 32 * d.quadlet + d.offset

-- The specification: `n` bits from bit `k` of the PDU on, as a binary number.
unfoldable pub bits_value : Memory → ℕ → ℕ → ℕ
unfolding pdu_bit
bits_value m k zero = 0
bits_value m k (suc n) = bits_value m k n * 2 + bit_num (pdu_bit m (k + n))

testbit-double :
    (x i : ℕ) (b : Bool)
    → testbit (x * 2 + bit_num b) i ≡ (if ltb 0 i then testbit x (i - 1) else b)
unfolding testbit
testbit-double x zero b = ground arith
testbit-double x (suc i) b =
    let e : (x * 2 + bit_num b) / 2 ≡ x = ground arith in
    let e' : suc i - 1 ≡ i = omega arith in rw (e, e') (ground arith)

bits_value-suc :
    (m : Memory) (k n : ℕ)
    → bits_value m k (suc n) ≡ bits_value m k n * 2 + bit_num (pdu_bit m (k + n))
unfolding bits_value
bits_value-suc m k n = refl

pub testbit-bits_value :
    (m : Memory) (k n i : ℕ)
    → testbit (bits_value m k n) i ≡ (if ltb i n then pdu_bit m (k + n - 1 - i) else false)
testbit-bits_value m k zero i = unfold bits_value in rw testbit-zero (ground arith)
testbit-bits_value m k (suc n) i =
    rw (bits_value-suc, testbit-double, testbit-bits_value m k n (i - 1)) (ground arith)

testbit-partial :
    (m : Memory) (a width shift i : ℕ)
    → width + shift ≤ 32
    → testbit (bit_and (load_be m a 4) (quadlet_mask width shift) / 2 ^ shift) i
      ≡ (if ltb i width then pdu_bit m (8 * (a + 4) - 1 - (i + shift)) else false)
testbit-partial m a width shift i h =
    rw
      (
        testbit-shr,
        testbit-bit_and,
        testbit-load_be,
        testbit-quadlet_mask width shift (i + shift) h,
      )
      (ground arith)

module _ (host : Endian) {d : FieldDescriptor} (ok : IsDescriptor d) (m : Memory) where
  -- What holds before each round: the bits done are in place.
  record IsRead (s : ReadState) : Type 0 where
    part : s.processed_bits ≤ d.bits
    aligned :
        s.processed_bits < d.bits
        → s.processed_bits + d.offset ≡ 32 * s.quadlet_offset + lead d s.processed_bits
    done :
        (i : ℕ)
        → testbit s.result i ≡ (
            if within (d.bits - s.processed_bits) d.bits i
            then pdu_bit m (start d + d.bits - 1 - i)
            else false)

  module _ (s : ReadState) (inv : IsRead s) (more : s.processed_bits < d.bits) where
    read_round-progress :
        (read_round host d m s).processed_bits ≡ s.processed_bits + quadlet_bits d s.processed_bits
    unfolding read_round
    read_round-progress = ground (arith, quadlet_bits_lem ok more, ok.narrow)

    read_round-advances : s.processed_bits < (read_round host d m s).processed_bits
    read_round-advances =
        rw read_round-progress (ground (arith, quadlet_bits_lem ok more, ok.starts))

    -- The big-endian quadlet that the round looks at.
    abbrev word : ℕ
    word = load_be m (u8 (d.quadlet + s.quadlet_offset) * 4) 4

    abbrev width : ℕ
    width = quadlet_bits d s.processed_bits

    abbrev shift : ℕ
    shift = quadlet_shift d s.processed_bits

    abbrev left : ℕ
    left = d.bits - s.processed_bits - width

    read_round-result :
        (read_round host d m s).result
        ≡ bit_or s.result (bit_and word (quadlet_mask width shift) / 2 ^ shift * 2 ^ left % 2 ^ 64)
    unfolding read_round
    read_round-result = rw be_to_cpu32-load

    read_round-step : (read_round host d m s).quadlet_offset ≡ u8 (s.quadlet_offset + 1)
    unfolding read_round
    read_round-step = refl

    read_round-done :
        (i : ℕ)
        → testbit (read_round host d m s).result i
          ≡ (if within left d.bits i then pdu_bit m (start d + d.bits - 1 - i) else false)
    read_round-done i =
        rw
          (
            read_round-result,
            testbit-bit_or,
            testbit-mod,
            testbit-shl,
            inv.done i,
            testbit-partial m (u8 (d.quadlet + s.quadlet_offset) * 4) width shift (i - left)
                (omega (arith, quadlet_shift_lem ok more)),
          )
          (ground (
            arith,
            quadlet_bits_lem ok more,
            quadlet_shift_lem ok more,
            inv.aligned more,
            ok.narrow,
            ok.reachable,
            ok.starts,
          ))

    read_round-aligned :
        (read_round host d m s).processed_bits < d.bits
        → (read_round host d m s).processed_bits + d.offset
          ≡ 32 * (read_round host d m s).quadlet_offset
            + lead d (read_round host d m s).processed_bits
    read_round-aligned h = rw read_round-step (
        ground (
          arith,
          read_round-progress,
          quadlet_bits_lem ok more,
          inv.aligned more,
          ok.narrow,
          ok.starts,
        ))

    read_round-IsRead : IsRead (read_round host d m s)
    read_round-IsRead = record {
      part = omega (arith, read_round-progress, quadlet_bits_lem ok more);
      aligned = λ h. read_round-aligned h;
      done = λ i. rw read_round-progress (ground (arith, read_round-done i));
    }

  read_loop-IsRead :
      (fuel : ℕ) (s : ReadState)
      → IsRead s
      → d.bits ≤ s.processed_bits + fuel
      → IsRead (read_loop host d m fuel s) × ((read_loop host d m fuel s).processed_bits ≡ d.bits)
  unfolding read_loop
  read_loop-IsRead zero s inv h = (inv, omega (arith, inv.part))
  read_loop-IsRead (suc fuel) s inv h = elim (dec_lt s.processed_bits d.bits) [
    | yes more ↦ rw (lt→ltb _ _ more) (
        read_loop-IsRead fuel (read_round host d m s) (read_round-IsRead s inv more)
          (omega (arith, read_round-advances s inv more)))
    | no stop ↦
        let e : ltb s.processed_bits d.bits ≡ false = ground arith in
        rw e (inv, omega (arith, inv.part))
  ]

  abbrev first : ReadState
  first = record { quadlet_offset = 0; processed_bits = 0; result = 0 }

  first-IsRead : IsRead first
  first-IsRead = record {
    part = omega arith;
    aligned = λ h. omega arith;
    done = λ i. rw testbit-zero (ground arith);
  }

  -- The loop of `Avtp_GetField` ends by its own test, with every bit of the field processed, within
  -- as many rounds as the field has bits.
  pub read_loop-ends : (read_loop host d m d.bits first).processed_bits ≡ d.bits
  read_loop-ends = (read_loop-IsRead d.bits first first-IsRead (omega arith)).1

  -- On a host of either byte order, the field of a well-formed descriptor reads as the binary
  -- number made of its bits in the PDU, first bit highest.
  pub read_field-eq-bits_value : read_field host d m ≡ bits_value m (start d) d.bits
  unfolding read_field
  read_field-eq-bits_value = testbit_ext _ _ λ i. ground (
    arith,
    (read_loop-IsRead d.bits first first-IsRead (omega arith)).0.done i,
    read_loop-ends,
    testbit-bits_value m (start d) d.bits i,
  )
