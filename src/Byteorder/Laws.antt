-- ===== src/Byteorder/Laws.antt =====
-- The byte swaps as arithmetic.
use open_lib.Common.{ℕ, ◌+◌, ◌*◌, ◌/◌, ◌%◌, ◌<◌, ◌^◌, ◌≡◌, arith, bit_or, bit_and_field, bit_or_sum}
use open_lib.Byteorder.{bswap16, bswap32, bswap64}

-- Byte `s / 8` of `x`.
abbrev byte : ℕ → ℕ → ℕ
byte x s = x / 2 ^ s % 2 ^ 8

pub bswap16_bytes : (x : ℕ) → bswap16 x ≡ byte x 0 * 2 ^ 8 + byte x 8
unfolding bswap16
bswap16_bytes x =
    let low : byte x 8 * 2 ^ 8 / 2 ^ 8 ≡ byte x 8 = omega arith in
    let high : byte x 0 * 2 ^ 0 * 2 ^ 8 % 2 ^ 32 ≡ byte x 0 * 2 ^ 8 = omega arith in
    rw
      (
        bit_and_field 8 8 x,
        bit_and_field 8 0 x,
        low,
        high,
        bit_or_sum 8 (byte x 0) (byte x 8) (omega arith),
      )
      (omega arith)

or_bytes :
    (a b c d : ℕ)
    → a < 256
    → b < 256
    → c < 256
    → bit_or (bit_or (bit_or a (b * 2 ^ 8)) (c * 2 ^ 16)) (d * 2 ^ 24)
      ≡ d * 2 ^ 24 + (c * 2 ^ 16 + (b * 2 ^ 8 + a))
or_bytes a b c d p q r = rw (
  bit_or_sum 8 b a (omega arith),
  bit_or_sum 16 c (b * 2 ^ 8 + a) (omega arith),
  bit_or_sum 24 d (c * 2 ^ 16 + (b * 2 ^ 8 + a)) (omega arith),
)

pub bswap32_bytes :
    (x : ℕ) → bswap32 x ≡ byte x 0 * 2 ^ 24 + (byte x 8 * 2 ^ 16 + (byte x 16 * 2 ^ 8 + byte x 24))
unfolding bswap32
bswap32_bytes x =
    let a : byte x 24 * 2 ^ 24 / 2 ^ 24 ≡ byte x 24 = omega arith in
    let b : byte x 16 * 2 ^ 16 / 2 ^ 8 ≡ byte x 16 * 2 ^ 8 = omega arith in
    let c : byte x 8 * 2 ^ 8 * 2 ^ 8 % 2 ^ 32 ≡ byte x 8 * 2 ^ 16 = omega arith in
    let d : byte x 0 * 2 ^ 0 * 2 ^ 24 % 2 ^ 32 ≡ byte x 0 * 2 ^ 24 = omega arith in
    rw
      (
        bit_and_field 8 24 x,
        bit_and_field 8 16 x,
        bit_and_field 8 8 x,
        bit_and_field 8 0 x,
        a,
        b,
        c,
        d,
      )
      (or_bytes (byte x 24) (byte x 16) (byte x 8) (byte x 0) (omega arith) (omega arith)
        (omega arith))

or_words :
    (l a b c d : ℕ)
    → l < 2 ^ 32
    → a < 256
    → b < 256
    → c < 256
    → bit_or (bit_or (bit_or (bit_or l (a * 2 ^ 32)) (b * 2 ^ 40)) (c * 2 ^ 48)) (d * 2 ^ 56)
      ≡ d * 2 ^ 56 + (c * 2 ^ 48 + (b * 2 ^ 40 + (a * 2 ^ 32 + l)))
or_words l a b c d h p q r = rw (
  bit_or_sum 32 a l h,
  bit_or_sum 40 b (a * 2 ^ 32 + l) (omega arith),
  bit_or_sum 48 c (b * 2 ^ 40 + (a * 2 ^ 32 + l)) (omega arith),
  bit_or_sum 56 d (c * 2 ^ 48 + (b * 2 ^ 40 + (a * 2 ^ 32 + l))) (omega arith),
)

module _ (x : ℕ) where
  abbrev low_word : ℕ
  low_word = byte x 32 * 2 ^ 24 + (byte x 40 * 2 ^ 16 + (byte x 48 * 2 ^ 8 + byte x 56))

  pub bswap64_bytes :
      bswap64 x
      ≡ byte x 0 * 2 ^ 56
        + (byte x 8 * 2 ^ 48 + (byte x 16 * 2 ^ 40 + (byte x 24 * 2 ^ 32 + low_word)))
  unfolding bswap64
  bswap64_bytes =
      let a : byte x 56 * 2 ^ 56 / 2 ^ 56 ≡ byte x 56 = omega arith in
      let b : byte x 48 * 2 ^ 48 / 2 ^ 40 ≡ byte x 48 * 2 ^ 8 = omega arith in
      let c : byte x 40 * 2 ^ 40 / 2 ^ 24 ≡ byte x 40 * 2 ^ 16 = omega arith in
      let d : byte x 32 * 2 ^ 32 / 2 ^ 8 ≡ byte x 32 * 2 ^ 24 = omega arith in
      let e : byte x 24 * 2 ^ 24 * 2 ^ 8 % 2 ^ 64 ≡ byte x 24 * 2 ^ 32 = omega arith in
      let f : byte x 16 * 2 ^ 16 * 2 ^ 24 % 2 ^ 64 ≡ byte x 16 * 2 ^ 40 = omega arith in
      let g : byte x 8 * 2 ^ 8 * 2 ^ 40 % 2 ^ 64 ≡ byte x 8 * 2 ^ 48 = omega arith in
      let h : byte x 0 * 2 ^ 0 * 2 ^ 56 % 2 ^ 64 ≡ byte x 0 * 2 ^ 56 = omega arith in
      rw
        (
          bit_and_field 8 56 x,
          bit_and_field 8 48 x,
          bit_and_field 8 40 x,
          bit_and_field 8 32 x,
          bit_and_field 8 24 x,
          bit_and_field 8 16 x,
          bit_and_field 8 8 x,
          bit_and_field 8 0 x,
          a,
          b,
          c,
          d,
          e,
          f,
          g,
          h,
          or_bytes (byte x 56) (byte x 48) (byte x 40) (byte x 32) (omega arith) (omega arith)
              (omega arith),
        )
        (or_words low_word (byte x 24) (byte x 16) (byte x 8) (byte x 0) (omega arith) (omega arith)
          (omega arith) (omega arith))
