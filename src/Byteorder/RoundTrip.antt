-- ===== src/Byteorder/RoundTrip.antt =====
-- include/avtp/Byteorder.h: conversions one after another, and with loads and stores.
use open_lib.Common.{ℕ, ◌^◌, ◌<◌, ◌≡◌, refl, arith}
use open_lib.Memory.{Memory, Endian, little, big, load, store, load_be, store_be}
use open_lib.Byteorder.{
  bswap16, bswap32, bswap64, cpu_to_le16, cpu_to_le32, cpu_to_le64, cpu_to_be16, cpu_to_be32,
  cpu_to_be64, le_to_cpu16, le_to_cpu32, le_to_cpu64, be_to_cpu16, be_to_cpu32, be_to_cpu64,
}
use open_lib.Byteorder.Laws.{bswap16_bytes, bswap32_bytes, bswap64_bytes}
use open_lib.Byteorder.Host.{
  be_to_cpu16-load, be_to_cpu32-load, be_to_cpu64-load, store-cpu_to_be16, store-cpu_to_be32,
  store-cpu_to_be64,
}

bswap16-bswap16 : (x : ℕ) → x < 2 ^ 16 → bswap16 (bswap16 x) ≡ x
bswap16-bswap16 x h = rw (bswap16_bytes x, bswap16_bytes) (omega arith)

bswap32-bswap32 : (x : ℕ) → x < 2 ^ 32 → bswap32 (bswap32 x) ≡ x
bswap32-bswap32 x h = rw (bswap32_bytes x, bswap32_bytes) (omega arith)

bswap64-bswap64 : (x : ℕ) → x < 2 ^ 64 → bswap64 (bswap64 x) ≡ x
bswap64-bswap64 x h = rw (bswap64_bytes x, bswap64_bytes) (omega arith)

-- On a host of either byte order, converting a value that fits the width to big-endian or to
-- little-endian and back gives the value, at 16, 32 and 64 bits.
pub to_cpu-cpu_to :
    (host : Endian) (x y z : ℕ)
    → x < 2 ^ 16
    → y < 2 ^ 32
    → z < 2 ^ 64
    → (be_to_cpu16 host (cpu_to_be16 host x) ≡ x)
      × (be_to_cpu32 host (cpu_to_be32 host y) ≡ y)
      × (be_to_cpu64 host (cpu_to_be64 host z) ≡ z)
      × (le_to_cpu16 host (cpu_to_le16 host x) ≡ x)
      × (le_to_cpu32 host (cpu_to_le32 host y) ≡ y)
      × (le_to_cpu64 host (cpu_to_le64 host z) ≡ z)
unfolding be_to_cpu16 be_to_cpu32 be_to_cpu64 cpu_to_be16 cpu_to_be32 cpu_to_be64 le_to_cpu16
    le_to_cpu32 le_to_cpu64 cpu_to_le16 cpu_to_le32 cpu_to_le64
to_cpu-cpu_to little x y z p q r =
    (bswap16-bswap16 x p, bswap32-bswap32 y q, bswap64-bswap64 z r, refl, refl, refl)
to_cpu-cpu_to big x y z p q r =
    (refl, refl, refl, bswap16-bswap16 x p, bswap32-bswap32 y q, bswap64-bswap64 z r)

-- Loading 2, 4 or 8 bytes and converting them from big-endian gives the same number on a host of
-- either byte order: the first byte is the highest.
pub be_to_cpu-load :
    (host : Endian) (m : Memory) (a : ℕ)
    → (be_to_cpu16 host (load host m a 2) ≡ load_be m a 2)
      × (be_to_cpu32 host (load host m a 4) ≡ load_be m a 4)
      × (be_to_cpu64 host (load host m a 8) ≡ load_be m a 8)
be_to_cpu-load host m a =
    (be_to_cpu16-load host m a, be_to_cpu32-load host m a, be_to_cpu64-load host m a)

-- Converting a number to big-endian and storing it in 2, 4 or 8 bytes leaves the same memory on a host
-- of either byte order: the highest byte first, and no other byte changed.
pub store-cpu_to_be :
    (host : Endian) (m : Memory) (a v : ℕ)
    → (store host m a 2 (cpu_to_be16 host v) ≡ store_be m a 2 v)
      × (store host m a 4 (cpu_to_be32 host v) ≡ store_be m a 4 v)
      × (store host m a 8 (cpu_to_be64 host v) ≡ store_be m a 8 v)
store-cpu_to_be host m a v =
    (store-cpu_to_be16 host m a v, store-cpu_to_be32 host m a v, store-cpu_to_be64 host m a v)
