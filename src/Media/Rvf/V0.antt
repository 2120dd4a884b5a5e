-- ===== src/Media/Rvf/V0.antt =====
-- include/avtp/Rvf.h: the accessors of version 0.
use open_lib.Common.{Bool, bit_num, to_bool, u16, u32, u8, ℕ}
use open_lib.Memory.{Endian, Memory}
use open_lib.Header.CommonStreamHeader
use open_lib.Media.Rvf.Fields.{
  active_pixels, ap, ef, evt, f_bit, get_field_v0, i, pd, set_field_v0, total_lines,
}

module _ (host : Endian) where
  unfoldable pub is_sv_v0 : Memory → Bool
  is_sv_v0 pdu = CommonStreamHeader.is_sv_v0 host pdu

  unfoldable pub is_mr_v0 : Memory → Bool
  is_mr_v0 pdu = CommonStreamHeader.is_mr_v0 host pdu

  unfoldable pub is_tv_v0 : Memory → Bool
  is_tv_v0 pdu = CommonStreamHeader.is_tv_v0 host pdu

  unfoldable pub is_tu_v0 : Memory → Bool
  is_tu_v0 pdu = CommonStreamHeader.is_tu_v0 host pdu

  unfoldable pub get_sequence_num_v0 : Memory → ℕ
  get_sequence_num_v0 pdu = CommonStreamHeader.get_sequence_num_v0 host pdu

  unfoldable pub get_stream_id_v0 : Memory → ℕ
  get_stream_id_v0 pdu = CommonStreamHeader.get_stream_id_v0 host pdu

  unfoldable pub get_avtp_timestamp_v0 : Memory → ℕ
  get_avtp_timestamp_v0 pdu = CommonStreamHeader.get_avtp_timestamp_v0 host pdu

  unfoldable pub get_ptp_grandmaster_identity_v0 : Memory → ℕ
  get_ptp_grandmaster_identity_v0 pdu = CommonStreamHeader.get_ptp_grandmaster_identity_v0 host pdu

  unfoldable pub get_stream_data_length_v0 : Memory → ℕ
  get_stream_data_length_v0 pdu = CommonStreamHeader.get_stream_data_length_v0 host pdu

  unfoldable pub get_active_pixels_v0 : Memory → ℕ
  get_active_pixels_v0 pdu = u16 (get_field_v0 host pdu active_pixels)

  unfoldable pub get_total_lines_v0 : Memory → ℕ
  get_total_lines_v0 pdu = u16 (get_field_v0 host pdu total_lines)

  unfoldable pub is_ap_v0 : Memory → Bool
  is_ap_v0 pdu = to_bool (get_field_v0 host pdu ap)

  unfoldable pub is_fv0 : Memory → Bool
  is_fv0 pdu = to_bool (get_field_v0 host pdu f_bit)

  unfoldable pub is_ef_v0 : Memory → Bool
  is_ef_v0 pdu = to_bool (get_field_v0 host pdu ef)

  unfoldable pub get_evt_v0 : Memory → ℕ
  get_evt_v0 pdu = u8 (get_field_v0 host pdu evt)

  unfoldable pub is_pd_v0 : Memory → Bool
  is_pd_v0 pdu = to_bool (get_field_v0 host pdu pd)

  unfoldable pub is_iv0 : Memory → Bool
  is_iv0 pdu = to_bool (get_field_v0 host pdu i)

  unfoldable pub set_sv_v0 : Memory → Bool → Memory
  set_sv_v0 pdu flag = CommonStreamHeader.set_sv_v0 host pdu flag

  unfoldable pub set_mr_v0 : Memory → Bool → Memory
  set_mr_v0 pdu flag = CommonStreamHeader.set_mr_v0 host pdu flag

  unfoldable pub set_tv_v0 : Memory → Bool → Memory
  set_tv_v0 pdu flag = CommonStreamHeader.set_tv_v0 host pdu flag

  unfoldable pub set_tu_v0 : Memory → Bool → Memory
  set_tu_v0 pdu flag = CommonStreamHeader.set_tu_v0 host pdu flag

  unfoldable pub set_sequence_num_v0 : Memory → ℕ → Memory
  set_sequence_num_v0 pdu value = CommonStreamHeader.set_sequence_num_v0 host pdu (u32 value)

  unfoldable pub set_stream_id_v0 : Memory → ℕ → Memory
  set_stream_id_v0 pdu value = CommonStreamHeader.set_stream_id_v0 host pdu value

  unfoldable pub set_avtp_timestamp_v0 : Memory → ℕ → Memory
  set_avtp_timestamp_v0 pdu value = CommonStreamHeader.set_avtp_timestamp_v0 host pdu value

  unfoldable pub set_ptp_grandmaster_identity_v0 : Memory → ℕ → Memory
  set_ptp_grandmaster_identity_v0 pdu value =
      CommonStreamHeader.set_ptp_grandmaster_identity_v0 host pdu value

  unfoldable pub set_stream_data_length_v0 : Memory → ℕ → Memory
  set_stream_data_length_v0 pdu value =
      CommonStreamHeader.set_stream_data_length_v0 host pdu (u16 value)

  unfoldable pub set_active_pixels_v0 : Memory → ℕ → Memory
  set_active_pixels_v0 pdu value = set_field_v0 host pdu active_pixels (u16 value)

  unfoldable pub set_total_lines_v0 : Memory → ℕ → Memory
  set_total_lines_v0 pdu value = set_field_v0 host pdu total_lines (u16 value)

  unfoldable pub set_ap_v0 : Memory → Bool → Memory
  set_ap_v0 pdu flag = set_field_v0 host pdu ap (bit_num flag)

  unfoldable pub set_fv0 : Memory → Bool → Memory
  set_fv0 pdu flag = set_field_v0 host pdu f_bit (bit_num flag)

  unfoldable pub set_ef_v0 : Memory → Bool → Memory
  set_ef_v0 pdu flag = set_field_v0 host pdu ef (bit_num flag)

  unfoldable pub set_evt_v0 : Memory → ℕ → Memory
  set_evt_v0 pdu value = set_field_v0 host pdu evt (u8 value)

  unfoldable pub set_pd_v0 : Memory → Bool → Memory
  set_pd_v0 pdu flag = set_field_v0 host pdu pd (bit_num flag)

  unfoldable pub set_iv0 : Memory → Bool → Memory
  set_iv0 pdu flag = set_field_v0 host pdu i (bit_num flag)
