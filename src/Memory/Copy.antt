-- ===== src/Memory/Copy.antt =====
-- Numbers stored and loaded again, and copies of bytes.
use open_lib.Common.{
  ℕ, zero, suc, ◌+◌, ◌-◌, ◌*◌, ◌/◌, ◌%◌, ◌^◌, ◌≤◌, ◌<◌, ◌≡◌, ◌⊎◌, refl, fun_ext, arith, testbit_ext,
  dec_lt, ℕ_discrete, testbit-mod,
}
use open_lib.Memory.{
  Memory, Endian, little, big, load8, store8, load_be, load_le, store_be, store_le, load, store,
  memcpy,
}
use open_lib.Memory.Laws.{testbit-load_be, pdu_bit-store_be, load8_ext, load8-lt}

pub load_be-store_be : (m : Memory) (a n v : ℕ) → load_be (store_be m a n v) a n ≡ v % 2 ^ (8 * n)
load_be-store_be m a n v =
    testbit_ext _ _ λ i. rw (testbit-load_be, pdu_bit-store_be, testbit-mod) (ground arith)

pub load8-store_be :
    (m : Memory) (a n v j : ℕ) → (j < a) ⊎ (a + n ≤ j) → load8 (store_be m a n v) j ≡ load8 m j
load8-store_be m a n v j h = load8_ext _ m j λ k p q. rw pdu_bit-store_be (ground arith)

pub load_be-cong :
    (m m' : Memory) (a n : ℕ)
    → ((j : ℕ) → a ≤ j → j < a + n → load8 m j ≡ load8 m' j)
    → load_be m a n ≡ load_be m' a n
unfolding load_be
load_be-cong m m' a zero h = refl
load_be-cong m m' a (suc n) h =
    rw (load_be-cong m m' a n (λ j p q. h j p (omega arith)), h (a + n) (omega arith) (omega arith))

pub load_be-lt : (m : Memory) (a : ℕ) → load_be m a 2 < 2 ^ 16
unfolding load_be
load_be-lt m a = omega (arith, load8-lt m (a + 0), load8-lt m (a + 1))

pub memcpy-cong :
    (d : Memory) (a : ℕ) (m m' : Memory) (s n : ℕ)
    → ((j : ℕ) → j < n → load8 m (s + j) ≡ load8 m' (s + j))
    → memcpy d a m s n ≡ memcpy d a m' s n
unfolding memcpy
memcpy-cong d a m m' s n h = fun_ext λ j. ground (arith, h (j - a))

-- The first byte of a copy and the rest of it.
copied :
    (d : Memory) (a : ℕ) (m : Memory) (s n j v : ℕ)
    → memcpy (store8 d a (load8 m s + v * 256)) (a + 1) m (s + 1) n j ≡ memcpy d a m s (suc n) j
unfolding memcpy store8
copied d a m s n j v = elim (dec_lt a j) [
  | yes more ↦ let e : s + 1 + (j - (a + 1)) ≡ s + (j - a) = omega arith in rw e (ground arith)
  | no less ↦ elim (ℕ_discrete j a) [
    | yes here ↦ let e : s + (j - a) ≡ s = omega arith in rw e (ground (arith, load8-lt m s))
    | no before ↦ ground arith
  ]
]

-- A number loaded and stored in one byte order is a copy of its bytes.
store_le-load_le :
    (d : Memory) (a : ℕ) (m : Memory) (s n : ℕ) → store_le d a n (load_le m s n) ≡ memcpy d a m s n
unfolding store_le load_le
store_le-load_le d a m s zero = unfold memcpy in fun_ext λ j. ground arith
store_le-load_le d a m s (suc n) =
    let rest : (load8 m s + load_le m (s + 1) n * 256) / 256 ≡ load_le m (s + 1) n =
      omega (arith, load8-lt m s) in
    rw
      (
        rest,
        store_le-load_le (store8 d a (load8 m s + load_le m (s + 1) n * 256)) (a + 1) m (s + 1) n,
      )
      (fun_ext λ j. copied d a m s n j (load_le m (s + 1) n))

store_be-load_be :
    (d : Memory) (a : ℕ) (m : Memory) (s n : ℕ) → store_be d a n (load_be m s n) ≡ memcpy d a m s n
unfolding store_be load_be
store_be-load_be d a m s zero = unfold memcpy in fun_ext λ j. ground arith
store_be-load_be d a m s (suc n) =
    let rest : (load_be m s n * 256 + load8 m (s + n)) / 256 ≡ load_be m s n =
      omega (arith, load8-lt m (s + n)) in
    rw (rest, store_be-load_be d a m s n)
      (unfold memcpy store8 in
        fun_ext λ j. elim (ℕ_discrete j (a + n)) [
          | yes last ↦
              let e : s + (j - a) ≡ s + n = omega arith in rw e (ground (arith, load8-lt m (s + n)))
          | no other ↦ ground arith
        ])

-- A number loaded and stored in the order of the host is a copy of its bytes.
pub store-load :
    (host : Endian) (d : Memory) (a : ℕ) (m : Memory) (s n : ℕ)
    → store host d a n (load host m s n) ≡ memcpy d a m s n
unfolding store load
store-load little d a m s n = store_le-load_le d a m s n
store-load big d a m s n = store_be-load_be d a m s n

-- A copy in two parts.
pub memcpy-memcpy :
    (d m : Memory) (n k : ℕ) → memcpy (memcpy d 0 m 0 n) n m n k ≡ memcpy d 0 m 0 (n + k)
unfolding memcpy
memcpy-memcpy d m n k = fun_ext λ j. elim (dec_lt j n) [
  | yes early ↦ ground arith
  | no late ↦ let e : n + (j - n) ≡ 0 + (j - 0) = omega arith in rw e (ground arith)
]

-- A copy of a copy.
pub memcpy-copied :
    (d x : Memory) (b : ℕ) (m : Memory) (n : ℕ)
    → memcpy d 0 (memcpy x b m 0 n) b n ≡ memcpy d 0 m 0 n
unfolding memcpy load8
memcpy-copied d x b m n = fun_ext λ j. elim (dec_lt j n) [
  | yes lt ↦ let e : b + (j - 0) - b ≡ j - 0 = omega arith in rw e (ground arith)
  | no out ↦ ground arith
]

pub memcpy_nothing : (d : Memory) (a : ℕ) (m : Memory) (s n : ℕ) → n ≡ 0 → memcpy d a m s n ≡ d
unfolding memcpy
memcpy_nothing d a m s n h = fun_ext λ j. ground arith

-- Copies of the same bytes from two places.
pub memcpy_same :
    (d : Memory) (a : ℕ) (m : Memory) (s : ℕ) (m' : Memory) (s' n : ℕ)
    → ((j : ℕ) → j < n → load8 m (s + j) ≡ load8 m' (s' + j))
    → memcpy d a m s n ≡ memcpy d a m' s' n
unfolding memcpy
memcpy_same d a m s m' s' n h = fun_ext λ j. ground (arith, h (j - a))
