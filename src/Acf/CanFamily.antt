-- ===== src/Acf/CanFamily.antt =====
-- What the four CAN formats share beyond `Padded`: include/avtp/acf/Can.h, CanBrief.h, CanV2.h and
-- CanBriefV2.h have the same `CreateAcfMessage` and `IsValid` under other names.
pub mod Format
pub mod Body
pub mod Create
pub mod Valid
use open_lib.Common.{
  ℕ, ◌<◌, ◌≡◌, ◌≢◌, Bool, true, false, ltb, leb, if◌then◌else◌, Option, none, some, length, u32,
  u64, to_bool, bit_num,
}
use open_lib.Memory.{Memory, Endian}
use open_lib.Utils.{get_in, set_in, descriptor_at}
use open_lib.Acf.Padded.{
  PaddedFormat, IsPadded, init, set_payload, set_payload_length, envelope_valid,
  checked_payload_length,
}

-- A format with the indices of its EFF, FDF and CAN identifier fields.
pub record CanFormat : Type 0 where
  pub padded : PaddedFormat
  pub eff_field : ℕ
  pub fdf_field : ℕ
  pub identifier_field : ℕ

module _ (host : Endian) (format : CanFormat) where
  open format use {padded, eff_field, fdf_field, identifier_field}

  -- `Avtp_<X>_SetEff`, `Avtp_<X>_IsEff` and the same of FDF and the identifier.
  unfoldable pub set_eff : Memory → Bool → Memory
  set_eff m eff = set_in host padded.table (length padded.table) m eff_field (bit_num eff)

  unfoldable pub is_eff : Memory → Bool
  is_eff m = to_bool (get_in host padded.table (length padded.table) m eff_field)

  unfoldable pub set_fdf : Memory → Bool → Memory
  set_fdf m fdf = set_in host padded.table (length padded.table) m fdf_field (bit_num fdf)

  unfoldable pub is_fdf : Memory → Bool
  is_fdf m = to_bool (get_in host padded.table (length padded.table) m fdf_field)

  unfoldable pub set_can_identifier : Memory → ℕ → Memory
  set_can_identifier m value =
      set_in host padded.table (length padded.table) m identifier_field (u32 value)

  unfoldable pub get_can_identifier : Memory → ℕ
  get_can_identifier m = u32 (get_in host padded.table (length padded.table) m identifier_field)

  -- `Avtp_<X>_CreateAcfMessage` of a PDU that is not NULL.
  unfoldable pub create_acf_message : Memory → ℕ → Memory → ℕ → Bool → Memory
  create_acf_message m frame_id payload payload_length fdf =
      let filled = set_payload host padded (init host padded m) payload payload_length in
      let extended = if ltb 0x7ff frame_id then set_eff filled true else filled in
      set_payload_length host padded (set_fdf (set_can_identifier extended frame_id) fdf)
        payload_length

  -- `Avtp_<X>_IsValid`
  unfoldable pub is_valid : Option Memory → ℕ → Bool
  is_valid none buffer_size = false
  is_valid (some m) buffer_size =
      let max_payload = if is_fdf m then 64 else 8 in
      if envelope_valid host padded m buffer_size
      then leb (checked_payload_length host padded m) max_payload
      else false
