-- ===== src/Memory.antt =====
-- The memory that a PDU lies in, as the C code of include/avtp reads and writes it: bytes, loads and
-- stores of 16, 32 and 64 bits in the byte order of the host, `memset` and `memcpy`.
-- An address is an offset from the pointer that a function is given.
pub mod Laws
pub mod Copy
use open_lib.Common.{
  ℕ, zero, suc, ◌+◌, ◌-◌, ◌*◌, ◌/◌, ◌%◌, Bool, within, ◌==◌, if◌then◌else◌, u8, testbit,
}

-- A cell holds a `uint8_t`: it is read modulo 256.
abbrev pub Memory : Type 0
Memory = ℕ → ℕ

unfoldable pub load8 : Memory → ℕ → ℕ
load8 m a = u8 (m a)

unfoldable pub store8 : Memory → ℕ → ℕ → Memory
store8 m a v j = if j == a then u8 v else m j

-- `__BYTE_ORDER__` of the machine that the library is built for.
pub data Endian : Type 0 where
  little big : Endian

-- The `n` bytes from `a` on as a number, the lowest byte first and last.
unfoldable pub load_le : Memory → ℕ → ℕ → ℕ
load_le m a zero = 0
load_le m a (suc n) = load8 m a + load_le m (a + 1) n * 256

unfoldable pub load_be : Memory → ℕ → ℕ → ℕ
load_be m a zero = 0
load_be m a (suc n) = load_be m a n * 256 + load8 m (a + n)

unfoldable pub store_le : Memory → ℕ → ℕ → ℕ → Memory
store_le m a zero v = m
store_le m a (suc n) v = store_le (store8 m a v) (a + 1) n (v / 256)

unfoldable pub store_be : Memory → ℕ → ℕ → ℕ → Memory
store_be m a zero v = m
store_be m a (suc n) v = store8 (store_be m a n (v / 256)) (a + n) v

-- `*(const uintN_t *)(pdu + a)` for N = 8 * n, on either kind of host.
unfoldable pub load : Endian → Memory → ℕ → ℕ → ℕ
unfolding load_le load_be load8
load little m a n = load_le m a n
load big m a n = load_be m a n

-- `*(uintN_t *)(pdu + a) = v`.
unfoldable pub store : Endian → Memory → ℕ → ℕ → ℕ → Memory
unfolding store_le store_be store8
store little m a n v = store_le m a n v
store big m a n v = store_be m a n v

-- `memset(pdu + a, v, n)`
unfoldable pub memset : Memory → ℕ → ℕ → ℕ → Memory
memset m a v n j = if within a (a + n) j then u8 v else m j

-- `memcpy(dst + d, src + s, n)` between two objects, which the code never lets overlap.
unfoldable pub memcpy : Memory → ℕ → Memory → ℕ → ℕ → Memory
unfolding load8
memcpy dst d src s n j = if within d (d + n) j then load8 src (s + (j - d)) else dst j

-- Bit `k` of the PDU as IEEE 1722 counts: from the first byte on, the highest bit of a byte first.
unfoldable pub pdu_bit : Memory → ℕ → Bool
unfolding load8 testbit
pdu_bit m k = testbit (load8 m (k / 8)) (7 - k % 8)
