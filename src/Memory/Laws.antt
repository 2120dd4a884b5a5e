-- ===== src/Memory/Laws.antt =====
-- What loads and stores mean for the bits of a PDU.
use open_lib.Common.{
  ℕ, zero, suc, ◌+◌, ◌-◌, ◌*◌, ◌/◌, ◌%◌, ◌<◌, ◌≡◌, arith, false, within, ◌==◌, if◌then◌else◌, u8,
  testbit, testbit-zero, testbit-join, testbit-shr, testbit-mod, testbit_ext, testbit_above, ltb,
  dec_lt, ◌≤◌,
}
use open_lib.Memory.{Memory, load8, store8, load_be, store_be, pdu_bit, memset, memcpy}

pub load8-lt : (m : Memory) (a : ℕ) → load8 m a < 256
unfolding load8
load8-lt m a = omega arith

pub pdu_bit_in_byte :
    (m : Memory) (a i : ℕ) → i < 8 → pdu_bit m (8 * a + 7 - i) ≡ testbit (load8 m a) i
unfolding pdu_bit
pdu_bit_in_byte m a i h =
    let q : (8 * a + 7 - i) / 8 ≡ a = omega arith in
    let r : 7 - (8 * a + 7 - i) % 8 ≡ i = omega arith in rw (q, r)

pub testbit-load_be :
    (m : Memory) (a n i : ℕ)
    → testbit (load_be m a n) i ≡ (if ltb i (8 * n) then pdu_bit m (8 * (a + n) - 1 - i) else false)
unfolding load_be
testbit-load_be m a zero i = rw testbit-zero (ground arith)
testbit-load_be m a (suc n) i =
    rw
      (
        testbit-join 8 (load_be m a n) (load8 m (a + n)) i (load8-lt m (a + n)),
        testbit-load_be m a n (i - 8),
      )
      (ground (arith, pdu_bit_in_byte m (a + n) i))

pub load8-store8 :
    (m : Memory) (a v j : ℕ) → load8 (store8 m a v) j ≡ (if j == a then u8 v else load8 m j)
unfolding load8 store8
load8-store8 m a v j = ground arith

pub pdu_bit-store8 :
    (m : Memory) (a v k : ℕ)
    → pdu_bit (store8 m a v) k ≡ (if k / 8 == a then testbit v (7 - k % 8) else pdu_bit m k)
unfolding pdu_bit load8 store8
pdu_bit-store8 m a v k =
    ground (arith, testbit-mod v 8 (7 - k % 8), testbit-mod (v % 256) 8 (7 - k % 8))

pub pdu_bit-store_be :
    (m : Memory) (a n v k : ℕ)
    → pdu_bit (store_be m a n v) k
      ≡ (if within (8 * a) (8 * (a + n)) k then testbit v (8 * (a + n) - 1 - k) else pdu_bit m k)
unfolding store_be
pdu_bit-store_be m a zero v k = ground arith
pdu_bit-store_be m a (suc n) v k =
    rw (pdu_bit-store8, pdu_bit-store_be m a n (v / 256) k, testbit-shr v 8 (8 * (a + n) - 1 - k))
      (ground arith)

-- A byte is its eight bits.
pub load8_ext :
    (m m' : Memory) (a : ℕ)
    → ((j : ℕ) → 8 * a ≤ j → j < 8 * a + 8 → pdu_bit m j ≡ pdu_bit m' j)
    → load8 m a ≡ load8 m' a
load8_ext m m' a h = testbit_ext _ _ λ i. elim (dec_lt i 8) [
  | yes lt ↦ ground (
    arith,
    pdu_bit_in_byte m a i lt,
    pdu_bit_in_byte m' a i lt,
    h (8 * a + 7 - i) (omega arith) (omega arith),
  )
  | no ge ↦ ground (
    arith,
    testbit_above 8 (load8 m a) i (load8-lt m a),
    testbit_above 8 (load8 m' a) i (load8-lt m' a),
  )
]

pub pdu_bit_cong :
    (m m' : Memory) (j : ℕ) → load8 m (j / 8) ≡ load8 m' (j / 8) → pdu_bit m j ≡ pdu_bit m' j
unfolding pdu_bit
pdu_bit_cong m m' j e = rw e

pub load8-memset :
    (m : Memory) (a v n j : ℕ)
    → load8 (memset m a v n) j ≡ (if within a (a + n) j then u8 v else load8 m j)
unfolding load8 memset
load8-memset m a v n j = ground arith

pub load8-memcpy :
    (dst : Memory) (d : ℕ) (src : Memory) (s n j : ℕ)
    → load8 (memcpy dst d src s n) j
      ≡ (if within d (d + n) j then load8 src (s + (j - d)) else load8 dst j)
unfolding load8 memcpy
load8-memcpy dst d src s n j = ground arith

pub pdu_bit_zero : (m : Memory) (j : ℕ) → load8 m (j / 8) ≡ 0 → pdu_bit m j ≡ false
unfolding pdu_bit
pdu_bit_zero m j e = rw (e, testbit-zero)
