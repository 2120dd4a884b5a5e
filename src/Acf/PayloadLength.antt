-- ===== src/Acf/PayloadLength.antt =====
-- `SetPayloadLength` and then `GetPayloadLength`, in each format with the types that it declares.
use open_lib.Common.{ℕ, ◌+◌, ◌%◌, ◌≤◌, ◌<◌, ◌≡◌, ◌≢◌, arith, u8}
use open_lib.Memory.{Memory, Endian}
use open_lib.Acf.Padded.{PaddedFormat, IsPadded, set_payload_length, payload_octets}
use open_lib.Acf.Padded.Length.{payload_octets-set_payload_length}
use open_lib.Acf.Formats.{
  can-IsPadded, can_brief-IsPadded, can_v2-IsPadded, can_brief_v2-IsPadded, can_xl-IsPadded,
  can_xl_brief-IsPadded, flex_ray-IsPadded, lin-IsPadded, most-IsPadded, gisf-IsPadded,
  abb-IsPadded, gbb-IsPadded,
}
use open_lib.Acf.Can
use open_lib.Acf.CanBrief
use open_lib.Acf.CanV2
use open_lib.Acf.CanBriefV2
use open_lib.Acf.CanXl
use open_lib.Acf.CanXlBrief
use open_lib.Acf.FlexRay
use open_lib.Acf.Lin
use open_lib.Acf.Most
use open_lib.Acf.Gisf
use open_lib.Acf.Abb
use open_lib.Acf.Gbb

module _ (host : Endian) (m : Memory) (n : ℕ) where
  short :
      {format : PaddedFormat} (ok : IsPadded format)
      → n < 256
      → u8 (payload_octets host format (set_payload_length host format m n)) ≡ n
  short ok h =
      let lem = payload_octets-set_payload_length host ok m n (omega (arith, ok.small)) in
      omega (arith, lem.3)

  long :
      {format : PaddedFormat} (ok : IsPadded format)
      → format.header_len + n ≤ 2044
      → payload_octets host format (set_payload_length host format m n) ≡ n
  long ok h = (payload_octets-set_payload_length host ok m n h).3

  cut :
      {format : PaddedFormat} (ok : IsPadded format)
      → format.header_len + n ≤ 2044
      → u8 (payload_octets host format (set_payload_length host format m n)) ≡ n % 256
  cut ok h = omega (arith, long ok h)

  -- GISF returns 16 bits, and reads back every payload length that its message length can hold.
  pub gisf_payload_length :
      n ≤ 2024 → Gisf.get_payload_length host (Gisf.set_payload_length host m n) ≡ n
  unfolding Gisf.get_payload_length Gisf.set_payload_length
  gisf_payload_length h = omega (arith, long gisf-IsPadded (omega arith))

  -- A payload length below 256 reads back as it was set, in every padded format.
  pub get_payload_length-set_payload_length :
      n < 256
      → (Can.get_payload_length host (Can.set_payload_length host m n) ≡ n)
        × (CanBrief.get_payload_length host (CanBrief.set_payload_length host m n) ≡ n)
        × (CanV2.get_payload_length host (CanV2.set_payload_length host m n) ≡ n)
        × (CanBriefV2.get_payload_length host (CanBriefV2.set_payload_length host m n) ≡ n)
        × (CanXl.get_payload_length host (CanXl.set_payload_length host m n) ≡ n)
        × (CanXlBrief.get_payload_length host (CanXlBrief.set_payload_length host m n) ≡ n)
        × (FlexRay.get_payload_length host (FlexRay.set_payload_length host m n) ≡ n)
        × (Lin.get_payload_length host (Lin.set_payload_length host m n) ≡ n)
        × (Most.get_payload_length host (Most.set_payload_length host m n) ≡ n)
        × (Gisf.get_payload_length host (Gisf.set_payload_length host m n) ≡ n)
        × (Abb.get_payload_length host (Abb.set_payload_length host m n) ≡ n)
        × (Gbb.get_payload_length host (Gbb.set_payload_length host m n) ≡ n)
  unfolding Can.get_payload_length Can.set_payload_length CanBrief.get_payload_length
      CanBrief.set_payload_length CanV2.get_payload_length CanV2.set_payload_length
      CanBriefV2.get_payload_length CanBriefV2.set_payload_length CanXl.get_payload_length
      CanXl.set_payload_length CanXlBrief.get_payload_length CanXlBrief.set_payload_length
      FlexRay.get_payload_length FlexRay.set_payload_length Lin.get_payload_length
      Lin.set_payload_length Most.get_payload_length Most.set_payload_length Gisf.get_payload_length
      Gisf.set_payload_length Abb.get_payload_length Abb.set_payload_length Gbb.get_payload_length
      Gbb.set_payload_length
  get_payload_length-set_payload_length h = (
    short can-IsPadded h,
    short can_brief-IsPadded h,
    short can_v2-IsPadded h,
    short can_brief_v2-IsPadded h,
    short can_xl-IsPadded h,
    short can_xl_brief-IsPadded h,
    short flex_ray-IsPadded h,
    short lin-IsPadded h,
    short most-IsPadded h,
    gisf_payload_length (omega arith),
    short abb-IsPadded h,
    short gbb-IsPadded h,
  )

  -- CAN XL, CAN XL brief, MOST, ABB and GBB return 8 bits: a payload length from 256 to 2000, which
  -- their messages can hold, reads back as its remainder by 256, and so never as it was set.
  pub payload_length_truncated :
      256 ≤ n
      → n ≤ 2000
      → (CanXl.get_payload_length host (CanXl.set_payload_length host m n) ≡ n % 256)
        × (CanXlBrief.get_payload_length host (CanXlBrief.set_payload_length host m n) ≡ n % 256)
        × (Most.get_payload_length host (Most.set_payload_length host m n) ≡ n % 256)
        × (Abb.get_payload_length host (Abb.set_payload_length host m n) ≡ n % 256)
        × (Gbb.get_payload_length host (Gbb.set_payload_length host m n) ≡ n % 256)
        × (n % 256 ≢ n)
  unfolding CanXl.get_payload_length CanXl.set_payload_length CanXlBrief.get_payload_length
      CanXlBrief.set_payload_length Most.get_payload_length Most.set_payload_length
      Abb.get_payload_length Abb.set_payload_length Gbb.get_payload_length Gbb.set_payload_length
  payload_length_truncated lo hi = (
    cut can_xl-IsPadded (omega arith),
    cut can_xl_brief-IsPadded (omega arith),
    cut most-IsPadded (omega arith),
    cut abb-IsPadded (omega arith),
    cut gbb-IsPadded (omega arith),
    omega arith,
  )
