-- ===== src/Utils/Geometry.antt =====
-- Where a round of `Avtp_GetField` or `Avtp_SetField` stands in its quadlet.
use open_lib.Common.{
  ℕ, ◌+◌, ◌-◌, ◌*◌, ◌%◌, ◌^◌, ◌≤◌, ◌<◌, ◌≡◌, arith, within, ◌==◌, if◌then◌else◌, testbit,
  testbit-mod, testbit-shl, testbit-ones, min,
}
use native.Mathlib.Nat.{one-le-pow, pow-le-pow_right}
use open_lib.Utils.{FieldDescriptor, quadlet_bits, quadlet_shift, quadlet_mask, min_u8}

-- A descriptor of a field of at most 64 bits, which starts in its quadlet, and which `uint8_t`
-- quadlet numbers reach.
pub record IsDescriptor (d : FieldDescriptor) : Type 0 where
  pub starts : d.offset < 32
  pub narrow : d.bits ≤ 64
  pub reachable : d.quadlet ≤ 253

-- The bit of its quadlet that the round starts at.
abbrev pub lead : FieldDescriptor → ℕ → ℕ
lead d processed = if processed == 0 then d.offset else 0

module _ {d : FieldDescriptor} (ok : IsDescriptor d) {p : ℕ} (more : p < d.bits) where
  pub quadlet_bits_lem : quadlet_bits d p ≡ min (32 - lead d p) (d.bits - p)
  unfolding quadlet_bits min_u8
  quadlet_bits_lem = ground arith

  pub quadlet_shift_lem : quadlet_shift d p + quadlet_bits d p + lead d p ≡ 32
  unfolding quadlet_shift
  quadlet_shift_lem = ground (arith, quadlet_bits_lem)

ones64 : (width : ℕ) → width ≤ 32 → (1 * 2 ^ width % 2 ^ 64 + 2 ^ 64 - 1) % 2 ^ 64 ≡ 2 ^ width - 1
ones64 width h =
    omega (arith, one-le-pow width 2, pow-le-pow_right {n = 2} (omega arith) {i = width} {j = 32} h)

pub testbit-quadlet_mask :
    (width shift i : ℕ)
    → width + shift ≤ 32
    → testbit (quadlet_mask width shift) i ≡ within shift (shift + width) i
unfolding quadlet_mask
testbit-quadlet_mask width shift i h =
    rw (ones64 width (omega arith), testbit-mod, testbit-mod, testbit-shl, testbit-ones)
      (ground arith)

pub quadlet_mask-lt : (width shift : ℕ) → quadlet_mask width shift < 2 ^ 32
unfolding quadlet_mask
quadlet_mask-lt width shift = omega arith
