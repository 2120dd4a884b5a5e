-- ===== src/Common/Bits.antt =====
-- The bits of a number, and what each C operator does to them.
use Prim.Native.Nat.{ℕ, zero, suc, ◌+◌, ◌-◌, ◌*◌, ◌/◌, ◌%◌, ◌^◌, ◌≤◌, ◌<◌, bit_and, bit_or}
use mathlib.Core.Path.{◌≡◌, refl, ap}
use mathlib.Core.Bool.{Bool, false, ◌&&◌, ◌||◌, not}
use native.Mathlib.Nat.{pow-suc, one-le-pow}
use native.Mathlib.Omega.{arith}
use open_lib.Common.Tests.{ltb, leb, ◌==◌, if◌then◌else◌}
use open_lib.Common.Step.{bit_or_lowest, bit_and_lowest}

-- Bit `i` of `x`, 0 the lowest.
unfoldable pub testbit : ℕ → ℕ → Bool
testbit x zero = x % 2 == 1
testbit x (suc i) = testbit (x / 2) i

pub testbit-zero : (i : ℕ) → testbit 0 i ≡ false
unfolding testbit
testbit-zero zero = refl
testbit-zero (suc i) = testbit-zero i

pub testbit-bit_and : (x y i : ℕ) → testbit (bit_and x y) i ≡ (testbit x i && testbit y i)
unfolding testbit
testbit-bit_and x y zero = ground (arith, bit_and_lowest x y)
testbit-bit_and x y (suc i) =
    let e : bit_and x y / 2 ≡ bit_and (x / 2) (y / 2) = omega (arith, bit_and_lowest x y) in
    rw e (testbit-bit_and (x / 2) (y / 2) i)

pub testbit-bit_or : (x y i : ℕ) → testbit (bit_or x y) i ≡ (testbit x i || testbit y i)
unfolding testbit
testbit-bit_or x y zero = ground (arith, bit_or_lowest x y)
testbit-bit_or x y (suc i) =
    let e : bit_or x y / 2 ≡ bit_or (x / 2) (y / 2) = omega (arith, bit_or_lowest x y) in
    rw e (testbit-bit_or (x / 2) (y / 2) i)

-- A low part of `k` bits under a high part.
pub testbit-join :
    (k x y i : ℕ)
    → y < 2 ^ k
    → testbit (x * 2 ^ k + y) i ≡ (if ltb i k then testbit y i else testbit x (i - k))
unfolding testbit
testbit-join zero x y i h =
    let e : x * 2 ^ 0 + y ≡ x = omega arith in
    let e' : i - 0 ≡ i = omega arith in rw (e, e') (ground arith)
testbit-join (suc k) x y zero h = ground (arith, ap (λ (t : ℕ). x * t) (pow-suc 2 k))
testbit-join (suc k) x y (suc i) h =
    let e : (x * 2 ^ suc k + y) / 2 ≡ x * 2 ^ k + y / 2 =
      omega (arith, ap (λ (t : ℕ). x * t) (pow-suc 2 k)) in
    let e' : suc i - suc k ≡ i - k = omega arith in
    rw (e, e', testbit-join k x (y / 2) i (omega (arith, pow-suc 2 k))) (ground arith)

-- Numbers with the same bits are equal.
testbit_ext_fuel : (n x y : ℕ) → x + y ≤ n → ((i : ℕ) → testbit x i ≡ testbit y i) → x ≡ y
unfolding testbit
testbit_ext_fuel zero x y h e = omega arith
testbit_ext_fuel (suc n) x y h e =
    ground (arith, e 0, testbit_ext_fuel n (x / 2) (y / 2) (omega arith) (λ i. e (suc i)))

pub testbit_ext : (x y : ℕ) → ((i : ℕ) → testbit x i ≡ testbit y i) → x ≡ y
testbit_ext x y = testbit_ext_fuel (x + y) x y (omega arith)

pub testbit_above : (k x i : ℕ) → x < 2 ^ k → k ≤ i → testbit x i ≡ false
testbit_above k x i h le = ground (arith, testbit-join k 0 x i h, testbit-zero (i - k))

pub testbit-shl : (x k i : ℕ) → testbit (x * 2 ^ k) i ≡ (leb k i && testbit x (i - k))
testbit-shl x k i =
    let e : x * 2 ^ k ≡ x * 2 ^ k + 0 = omega arith in
    rw (e, testbit-join k x 0 i (omega (arith, one-le-pow k 2))) (ground (arith, testbit-zero i))

pub testbit-shr : (x k i : ℕ) → testbit (x / 2 ^ k) i ≡ testbit x (i + k)
testbit-shr x k i =
    let r : x % 2 ^ k < 2 ^ k = grind (arith, one-le-pow k 2) in
    let e : x / 2 ^ k * 2 ^ k + x % 2 ^ k ≡ x = omega arith in
    let e' : i + k - k ≡ i = omega arith in
    let join = testbit-join k (x / 2 ^ k) (x % 2 ^ k) (i + k) r in
    ground (arith, rw (e, e') at join)

pub testbit-mod : (x k i : ℕ) → testbit (x % 2 ^ k) i ≡ (ltb i k && testbit x i)
testbit-mod x k i =
    let r : x % 2 ^ k < 2 ^ k = grind (arith, one-le-pow k 2) in
    let e : x / 2 ^ k * 2 ^ k + x % 2 ^ k ≡ x = omega arith in
    let join = testbit-join k (x / 2 ^ k) (x % 2 ^ k) i r in
    ground (arith, rw e at join, testbit_above k (x % 2 ^ k) i r)

pub testbit-ones : (k i : ℕ) → testbit (2 ^ k - 1) i ≡ ltb i k
unfolding testbit
testbit-ones zero i = rw testbit-zero (ground arith)
testbit-ones (suc k) zero = ground (arith, pow-suc 2 k, one-le-pow k 2)
testbit-ones (suc k) (suc i) =
    let e : (2 ^ suc k - 1) / 2 ≡ 2 ^ k - 1 = omega (arith, pow-suc 2 k, one-le-pow k 2) in
    rw (e, testbit-ones k i) (ground arith)

-- `w` ones from bit `s` on.
pub testbit-mask : (w s i : ℕ) → testbit ((2 ^ w - 1) * 2 ^ s) i ≡ (leb s i && ltb i (s + w))
testbit-mask w s i = rw (testbit-shl, testbit-ones) (ground arith)

testbit-complement :
    (n x i : ℕ) → x < 2 ^ n → testbit (2 ^ n - 1 - x) i ≡ (ltb i n && not (testbit x i))
unfolding testbit
testbit-complement zero x i h =
    let e : 2 ^ 0 - 1 - x ≡ 0 = omega arith in rw (e, testbit-zero) (ground arith)
testbit-complement (suc n) x zero h = ground (arith, pow-suc 2 n, one-le-pow n 2)
testbit-complement (suc n) x (suc i) h =
    let e : (2 ^ suc n - 1 - x) / 2 ≡ 2 ^ n - 1 - x / 2 = omega (arith, pow-suc 2 n) in
    rw (e, testbit-complement n (x / 2) i (omega (arith, pow-suc 2 n))) (ground arith)

pub testbit-not32 :
    (x i : ℕ) → x < 2 ^ 32 → testbit (2 ^ 32 - 1 - x) i ≡ (ltb i 32 && not (testbit x i))
testbit-not32 x i = testbit-complement 32 x i

-- The number is small if its high bits are clear.
pub lt_of_testbit : (k x : ℕ) → ((i : ℕ) → k ≤ i → testbit x i ≡ false) → x < 2 ^ k
lt_of_testbit k x h =
    let e : x ≡ x % 2 ^ k =
      testbit_ext x (x % 2 ^ k) (λ i. ground (arith, testbit-mod x k i, h i)) in
    rw e (grind (arith, one-le-pow k 2))

-- A field of `w` bits at bit `s`, cut out in place.
pub bit_and_field : (w s x : ℕ) → bit_and x ((2 ^ w - 1) * 2 ^ s) ≡ x / 2 ^ s % 2 ^ w * 2 ^ s
bit_and_field w s x = testbit_ext _ _ λ i. ground (
  arith,
  testbit-bit_and x ((2 ^ w - 1) * 2 ^ s) i,
  testbit-mask w s i,
  testbit-shl (x / 2 ^ s % 2 ^ w) s i,
  testbit-mod (x / 2 ^ s) w (i - s),
  testbit-shr x s (i - s),
  ap (testbit x) (sub_back i s),
)
  where
    sub_back : (i s : ℕ) → (if leb s i then i - s + s else i) ≡ i
    sub_back i s = ground arith

-- `|` of a number below `2 ^ k` and a multiple of `2 ^ k` is their sum.
pub bit_or_sum : (k x y : ℕ) → y < 2 ^ k → bit_or y (x * 2 ^ k) ≡ x * 2 ^ k + y
bit_or_sum k x y h = testbit_ext _ _ λ i. ground (
  arith,
  testbit-bit_or y (x * 2 ^ k) i,
  testbit-shl x k i,
  testbit-join k x y i h,
  testbit_above k y i h,
)
