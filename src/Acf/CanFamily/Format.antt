-- ===== src/Acf/CanFamily/Format.antt =====
-- The facts about a CAN format that the proofs use.
use open_lib.Common.{◌<◌, ◌≡◌, ◌≢◌, length}
use open_lib.Utils.{descriptor_at}
use open_lib.Acf.Padded.{IsPadded}
use open_lib.Acf.CanFamily.{CanFormat}

-- What the proofs use of a CAN format, by evaluation for each.
pub record IsCanFamily (format : CanFormat) : Type 0 where
  pub is_padded : IsPadded format.padded
  pub eff_new : (1 < format.eff_field) × (format.eff_field < length format.padded.table)
  pub fdf_new : (1 < format.fdf_field) × (format.fdf_field < length format.padded.table)
  pub identifier_new :
      (1 < format.identifier_field) × (format.identifier_field < length format.padded.table)
  pub eff_ne : (format.eff_field ≢ format.fdf_field) × (format.eff_field ≢ format.identifier_field)
  pub fdf_ne : format.fdf_field ≢ format.identifier_field
  pub pad_ne :
      (format.padded.pad_field ≢ format.eff_field)
      × (format.padded.pad_field ≢ format.fdf_field)
      × (format.padded.pad_field ≢ format.identifier_field)
  pub eff_bits : (descriptor_at format.padded.table format.eff_field).bits ≡ 1
  pub fdf_bits : (descriptor_at format.padded.table format.fdf_field).bits ≡ 1
  pub identifier_bits : (descriptor_at format.padded.table format.identifier_field).bits ≡ 29
