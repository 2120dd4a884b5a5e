-- ===== src/Byteorder.antt =====
-- include/avtp/Byteorder.h: the byte swaps, and the conversions for a host of either byte order.
pub mod Laws
pub mod Host
pub mod RoundTrip
use open_lib.Common.{ℕ, bit_and, bit_or, u16, u32, u64, ◌<<<◌, ◌>>>◌}
use open_lib.Memory.{Endian, little, big}

-- `Avtp_Bswap16`: computed in `unsigned int`, and cut to 16 bits on return.
unfoldable pub bswap16 : ℕ → ℕ
bswap16 x = u16 (bit_or (bit_and x 0xff00 >>> 8) (u32 (bit_and x 0x00ff <<< 8)))

-- `Avtp_Bswap32`
unfoldable pub bswap32 : ℕ → ℕ
bswap32 x =
    bit_or
      (bit_or (bit_or (bit_and x 0xff000000 >>> 24) (bit_and x 0x00ff0000 >>> 8))
        (u32 (bit_and x 0x0000ff00 <<< 8)))
      (u32 (bit_and x 0x000000ff <<< 24))

-- `Avtp_Bswap64`: the four bytes that move down, then the four that move up.
unfoldable pub bswap64 : ℕ → ℕ
bswap64 x =
    bit_or
      (bit_or
        (bit_or
          (bit_or
            (bit_or
              (bit_or
                (bit_or (bit_and x 0xff00000000000000 >>> 56) (bit_and x 0x00ff000000000000 >>> 40))
                (bit_and x 0x0000ff0000000000 >>> 24))
              (bit_and x 0x000000ff00000000 >>> 8))
            (u64 (bit_and x 0x00000000ff000000 <<< 8)))
          (u64 (bit_and x 0x0000000000ff0000 <<< 24)))
        (u64 (bit_and x 0x000000000000ff00 <<< 40)))
      (u64 (bit_and x 0x00000000000000ff <<< 56))

-- The two sets of conversions that `__BYTE_ORDER__` chooses from.
unfoldable pub cpu_to_le16 : Endian → ℕ → ℕ
cpu_to_le16 little x = x
cpu_to_le16 big x = bswap16 x

unfoldable pub cpu_to_le32 : Endian → ℕ → ℕ
cpu_to_le32 little x = x
cpu_to_le32 big x = bswap32 x

unfoldable pub cpu_to_le64 : Endian → ℕ → ℕ
cpu_to_le64 little x = x
cpu_to_le64 big x = bswap64 x

unfoldable pub cpu_to_be16 : Endian → ℕ → ℕ
cpu_to_be16 little x = bswap16 x
cpu_to_be16 big x = x

unfoldable pub cpu_to_be32 : Endian → ℕ → ℕ
cpu_to_be32 little x = bswap32 x
cpu_to_be32 big x = x

unfoldable pub cpu_to_be64 : Endian → ℕ → ℕ
cpu_to_be64 little x = bswap64 x
cpu_to_be64 big x = x

unfoldable pub le_to_cpu16 : Endian → ℕ → ℕ
le_to_cpu16 little x = x
le_to_cpu16 big x = bswap16 x

unfoldable pub le_to_cpu32 : Endian → ℕ → ℕ
le_to_cpu32 little x = x
le_to_cpu32 big x = bswap32 x

unfoldable pub le_to_cpu64 : Endian → ℕ → ℕ
le_to_cpu64 little x = x
le_to_cpu64 big x = bswap64 x

unfoldable pub be_to_cpu16 : Endian → ℕ → ℕ
be_to_cpu16 little x = bswap16 x
be_to_cpu16 big x = x

unfoldable pub be_to_cpu32 : Endian → ℕ → ℕ
be_to_cpu32 little x = bswap32 x
be_to_cpu32 big x = x

unfoldable pub be_to_cpu64 : Endian → ℕ → ℕ
be_to_cpu64 little x = bswap64 x
be_to_cpu64 big x = x
