-- ===== src/Byteorder/Host.antt =====
-- Loads that are converted, and stores of converted values, on a host of either byte order.
use open_lib.Common.{ℕ, suc, ◌+◌, ◌≡◌, refl, fun_ext, arith}
use open_lib.Memory.{
  Memory, Endian, little, big, store8, load, store, load_le, load_be, store_le, store_be,
}
use open_lib.Memory.Laws.{load8-lt}
use open_lib.Byteorder.{
  be_to_cpu16, be_to_cpu32, be_to_cpu64, cpu_to_be16, cpu_to_be32, cpu_to_be64,
}
use open_lib.Byteorder.Laws.{bswap16_bytes, bswap32_bytes, bswap64_bytes}

add_one_one : (a n : ℕ) → a + n + 1 ≡ a + suc n
add_one_one a n = omega arith

pub be_to_cpu16-load :
    (host : Endian) (m : Memory) (a : ℕ) → be_to_cpu16 host (load host m a 2) ≡ load_be m a 2
unfolding be_to_cpu16 load load_le load_be
be_to_cpu16-load big m a = refl
be_to_cpu16-load little m a =
    let e : a + 0 ≡ a = omega arith in
    rw (bswap16_bytes, e) (omega (arith, load8-lt m a, load8-lt m (a + 1)))

pub be_to_cpu32-load :
    (host : Endian) (m : Memory) (a : ℕ) → be_to_cpu32 host (load host m a 4) ≡ load_be m a 4
unfolding be_to_cpu32 load load_le load_be
be_to_cpu32-load big m a = refl
be_to_cpu32-load little m a =
    let e : a + 0 ≡ a = omega arith in
    let e2 : a + 1 + 1 ≡ a + 2 = omega arith in
    let e3 : a + 2 + 1 ≡ a + 3 = omega arith in
    rw (bswap32_bytes, e, e2, e3)
      (omega (arith, load8-lt m a, load8-lt m (a + 1), load8-lt m (a + 2), load8-lt m (a + 3)))

pub be_to_cpu64-load :
    (host : Endian) (m : Memory) (a : ℕ) → be_to_cpu64 host (load host m a 8) ≡ load_be m a 8
unfolding be_to_cpu64 load load_le load_be
be_to_cpu64-load big m a = refl
be_to_cpu64-load little m a =
    let e : a + 0 ≡ a = omega arith in
    let e2 : a + 1 + 1 ≡ a + 2 = omega arith in
    let e3 : a + 2 + 1 ≡ a + 3 = omega arith in
    let e4 : a + 3 + 1 ≡ a + 4 = omega arith in
    let e5 : a + 4 + 1 ≡ a + 5 = omega arith in
    let e6 : a + 5 + 1 ≡ a + 6 = omega arith in
    let e7 : a + 6 + 1 ≡ a + 7 = omega arith in
    rw (bswap64_bytes, e, e2, e3, e4, e5, e6, e7)
      (omega (
        arith,
        load8-lt m a,
        load8-lt m (a + 1),
        load8-lt m (a + 2),
        load8-lt m (a + 3),
        load8-lt m (a + 4),
        load8-lt m (a + 5),
        load8-lt m (a + 6),
        load8-lt m (a + 7),
      ))

pub store-cpu_to_be16 :
    (host : Endian) (m : Memory) (a v : ℕ)
    → store host m a 2 (cpu_to_be16 host v) ≡ store_be m a 2 v
unfolding cpu_to_be16 store store_le store_be store8
store-cpu_to_be16 big m a v = refl
store-cpu_to_be16 little m a v = fun_ext λ j. ground (arith, bswap16_bytes v)

pub store-cpu_to_be32 :
    (host : Endian) (m : Memory) (a v : ℕ)
    → store host m a 4 (cpu_to_be32 host v) ≡ store_be m a 4 v
unfolding cpu_to_be32 store store_le store_be store8
store-cpu_to_be32 big m a v = refl
store-cpu_to_be32 little m a v = fun_ext λ j. ground (arith, bswap32_bytes v)

pub store-cpu_to_be64 :
    (host : Endian) (m : Memory) (a v : ℕ)
    → store host m a 8 (cpu_to_be64 host v) ≡ store_be m a 8 v
unfolding cpu_to_be64 store store_le store_be store8
store-cpu_to_be64 big m a v = refl
store-cpu_to_be64 little m a v = fun_ext λ j. ground (arith, bswap64_bytes v)
