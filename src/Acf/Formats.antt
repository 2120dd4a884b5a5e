-- ===== src/Acf/Formats.antt =====
-- The descriptor tables, header lengths and message types of the twelve padded ACF formats of
-- include/avtp/acf, by evaluation.
use open_lib.Common.{◌≡◌, refl, arith, true, ltb, ◌==◌, ◌&&◌, ◌%◌, length}
use open_lib.Utils.{desc, descriptor_at}
use open_lib.Utils.Table.{all_fit, all_apart}
use open_lib.Acf.Padded.{PaddedFormat, IsPadded}
use open_lib.Acf.CanFamily.{CanFormat}
use open_lib.Acf.CanFamily.Format.{IsCanFamily}
use open_lib.Acf.Can
use open_lib.Acf.CanBrief
use open_lib.Acf.CanV2
use open_lib.Acf.CanBriefV2
use open_lib.Acf.CanXl
use open_lib.Acf.CanXlBrief
use open_lib.Acf.FlexRay
use open_lib.Acf.Lin
use open_lib.Acf.Most
use open_lib.Acf.Gisf
use open_lib.Acf.Abb
use open_lib.Acf.Gbb

-- The tests that evaluate.
by_tests :
    {format : PaddedFormat}
    → (all_fit format.header_len format.table && all_apart format.table) ≡ true
    → descriptor_at format.table 0 ≡ desc 0 0 7
    → descriptor_at format.table 1 ≡ desc 0 7 9
    → (descriptor_at format.table format.pad_field).bits ≡ 2
    → (ltb 2 (length format.table)
        && (ltb 1 format.pad_field && ltb format.pad_field (length format.table)))
      ≡ true
    → (format.header_len % 4 == 0 && (ltb format.header_len 256 && ltb format.acf_type 128)) ≡ true
    → IsPadded format
by_tests sound type_at length_at pad_two fields numbers = record {
  is_table = record { fit = ground arith; disjoint = ground arith };
  starts_acf = record { longer = ground arith; type_at = type_at; length_at = length_at };
  pad_is_new = ground arith;
  pad_in = ground arith;
  pad_two = pad_two;
  quadlets = ground arith;
  small = ground arith;
  type_fits = ground arith;
}

family_by_tests :
    {format : CanFormat}
    → IsPadded format.padded
    → (ltb 1 format.eff_field && (ltb 1 format.fdf_field && ltb 1 format.identifier_field)) ≡ true
    → (ltb format.eff_field format.fdf_field
        && (ltb format.fdf_field format.identifier_field
            && ltb format.identifier_field (length format.padded.table)))
      ≡ true
    → ltb format.padded.pad_field format.eff_field ≡ true
    → (descriptor_at format.padded.table format.eff_field).bits ≡ 1
    → (descriptor_at format.padded.table format.fdf_field).bits ≡ 1
    → (descriptor_at format.padded.table format.identifier_field).bits ≡ 29
    → IsCanFamily format
family_by_tests ok new order pad eff_bits fdf_bits identifier_bits = record {
  is_padded = ok;
  eff_new = (ground arith, ground arith);
  fdf_new = (ground arith, ground arith);
  identifier_new = (ground arith, ground arith);
  eff_ne = (ground arith, ground arith);
  fdf_ne = ground arith;
  pad_ne = (ground arith, ground arith, ground arith);
  eff_bits = eff_bits;
  fdf_bits = fdf_bits;
  identifier_bits = identifier_bits;
}

pub can-IsPadded : IsPadded Can.padded
unfolding descriptor_at
can-IsPadded = by_tests refl refl refl refl refl refl

pub can_brief-IsPadded : IsPadded CanBrief.padded
unfolding descriptor_at
can_brief-IsPadded = by_tests refl refl refl refl refl refl

pub can_v2-IsPadded : IsPadded CanV2.padded
unfolding descriptor_at
can_v2-IsPadded = by_tests refl refl refl refl refl refl

pub can_brief_v2-IsPadded : IsPadded CanBriefV2.padded
unfolding descriptor_at
can_brief_v2-IsPadded = by_tests refl refl refl refl refl refl

pub can_xl-IsPadded : IsPadded CanXl.padded
unfolding descriptor_at
can_xl-IsPadded = by_tests refl refl refl refl refl refl

pub can_xl_brief-IsPadded : IsPadded CanXlBrief.padded
unfolding descriptor_at
can_xl_brief-IsPadded = by_tests refl refl refl refl refl refl

pub flex_ray-IsPadded : IsPadded FlexRay.padded
unfolding descriptor_at
flex_ray-IsPadded = by_tests refl refl refl refl refl refl

pub lin-IsPadded : IsPadded Lin.padded
unfolding descriptor_at
lin-IsPadded = by_tests refl refl refl refl refl refl

pub most-IsPadded : IsPadded Most.padded
unfolding descriptor_at
most-IsPadded = by_tests refl refl refl refl refl refl

pub gisf-IsPadded : IsPadded Gisf.padded
unfolding descriptor_at
gisf-IsPadded = by_tests refl refl refl refl refl refl

pub abb-IsPadded : IsPadded Abb.padded
unfolding descriptor_at
abb-IsPadded = by_tests refl refl refl refl refl refl

pub gbb-IsPadded : IsPadded Gbb.padded
unfolding descriptor_at
gbb-IsPadded = by_tests refl refl refl refl refl refl

pub can-IsCanFamily : IsCanFamily Can.can_format
unfolding descriptor_at
can-IsCanFamily = family_by_tests can-IsPadded refl refl refl refl refl refl

pub can_brief-IsCanFamily : IsCanFamily CanBrief.can_format
unfolding descriptor_at
can_brief-IsCanFamily = family_by_tests can_brief-IsPadded refl refl refl refl refl refl

pub can_v2-IsCanFamily : IsCanFamily CanV2.can_format
unfolding descriptor_at
can_v2-IsCanFamily = family_by_tests can_v2-IsPadded refl refl refl refl refl refl

pub can_brief_v2-IsCanFamily : IsCanFamily CanBriefV2.can_format
unfolding descriptor_at
can_brief_v2-IsCanFamily = family_by_tests can_brief_v2-IsPadded refl refl refl refl refl refl

-- In every one of the twelve formats the fields lie in the header and share no bit, the first two are
-- the ACF message type and length, PAD has two bits, and the header is a whole number of quadlets.
pub formats-IsPadded :
    IsPadded Can.padded
    × IsPadded CanBrief.padded
    × IsPadded CanV2.padded
    × IsPadded CanBriefV2.padded
    × IsPadded CanXl.padded
    × IsPadded CanXlBrief.padded
    × IsPadded FlexRay.padded
    × IsPadded Lin.padded
    × IsPadded Most.padded
    × IsPadded Gisf.padded
    × IsPadded Abb.padded
    × IsPadded Gbb.padded
formats-IsPadded = (
  can-IsPadded, can_brief-IsPadded, can_v2-IsPadded, can_brief_v2-IsPadded, can_xl-IsPadded,
  can_xl_brief-IsPadded, flex_ray-IsPadded, lin-IsPadded, most-IsPadded, gisf-IsPadded,
  abb-IsPadded, gbb-IsPadded,
)

-- In the four CAN formats EFF and FDF have one bit and the identifier 29, and the three are fields
-- of their own beside PAD and the ACF message type and length.
pub can_formats-IsCanFamily :
    IsCanFamily Can.can_format
    × IsCanFamily CanBrief.can_format
    × IsCanFamily CanV2.can_format
    × IsCanFamily CanBriefV2.can_format
can_formats-IsCanFamily =
    (can-IsCanFamily, can_brief-IsCanFamily, can_v2-IsCanFamily, can_brief_v2-IsCanFamily)
