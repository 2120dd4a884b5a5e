-- ===== src/Media/Cvf/V1.antt =====
-- include/avtp/cvf/Cvf.h: the accessors of version 1.
use open_lib.Common.{Bool, bit_num, to_bool, u16, u32, u8, ℕ}
use open_lib.Memory.{Endian, Memory}
use open_lib.Header.CommonStreamHeader
use open_lib.Media.Cvf.Fields.{evt, format, format_subtype, get_field_v1, m, ptv, set_field_v1}

module _ (host : Endian) where
  unfoldable pub is_sv_v1 : Memory → Bool
  is_sv_v1 pdu = CommonStreamHeader.is_sv_v1 host pdu

  unfoldable pub is_mr_v1 : Memory → Bool
  is_mr_v1 pdu = CommonStreamHeader.is_mr_v1 host pdu

  unfoldable pub is_tv_v1 : Memory → Bool
  is_tv_v1 pdu = CommonStreamHeader.is_tv_v1 host pdu

  unfoldable pub is_tu_v1 : Memory → Bool
  is_tu_v1 pdu = CommonStreamHeader.is_tu_v1 host pdu

  unfoldable pub get_sequence_num_v1 : Memory → ℕ
  get_sequence_num_v1 pdu = CommonStreamHeader.get_sequence_num_v1 host pdu

  unfoldable pub get_stream_id_v1 : Memory → ℕ
  get_stream_id_v1 pdu = CommonStreamHeader.get_stream_id_v1 host pdu

  unfoldable pub get_avtp_timestamp_v1 : Memory → ℕ
  get_avtp_timestamp_v1 pdu = CommonStreamHeader.get_avtp_timestamp_v1 host pdu

  unfoldable pub get_ptp_grandmaster_identity_v1 : Memory → ℕ
  get_ptp_grandmaster_identity_v1 pdu = CommonStreamHeader.get_ptp_grandmaster_identity_v1 host pdu

  unfoldable pub get_format_v1 : Memory → ℕ
  get_format_v1 pdu = u32 (get_field_v1 host pdu format)

  unfoldable pub get_format_subtype_v1 : Memory → ℕ
  get_format_subtype_v1 pdu = u32 (get_field_v1 host pdu format_subtype)

  unfoldable pub get_stream_data_length_v1 : Memory → ℕ
  get_stream_data_length_v1 pdu = CommonStreamHeader.get_stream_data_length_v1 host pdu

  unfoldable pub is_ptv_v1 : Memory → Bool
  is_ptv_v1 pdu = to_bool (get_field_v1 host pdu ptv)

  unfoldable pub is_mv1 : Memory → Bool
  is_mv1 pdu = to_bool (get_field_v1 host pdu m)

  unfoldable pub get_evt_v1 : Memory → ℕ
  get_evt_v1 pdu = u8 (get_field_v1 host pdu evt)

  unfoldable pub set_sv_v1 : Memory → Bool → Memory
  set_sv_v1 pdu flag = CommonStreamHeader.set_sv_v1 host pdu flag

  unfoldable pub set_mr_v1 : Memory → Bool → Memory
  set_mr_v1 pdu flag = CommonStreamHeader.set_mr_v1 host pdu flag

  unfoldable pub set_tv_v1 : Memory → Bool → Memory
  set_tv_v1 pdu flag = CommonStreamHeader.set_tv_v1 host pdu flag

  unfoldable pub set_tu_v1 : Memory → Bool → Memory
  set_tu_v1 pdu flag = CommonStreamHeader.set_tu_v1 host pdu flag

  unfoldable pub set_sequence_num_v1 : Memory → ℕ → Memory
  set_sequence_num_v1 pdu value = CommonStreamHeader.set_sequence_num_v1 host pdu (u32 value)

  unfoldable pub set_stream_id_v1 : Memory → ℕ → Memory
  set_stream_id_v1 pdu value = CommonStreamHeader.set_stream_id_v1 host pdu value

  unfoldable pub set_avtp_timestamp_v1 : Memory → ℕ → Memory
  set_avtp_timestamp_v1 pdu value = CommonStreamHeader.set_avtp_timestamp_v1 host pdu value

  unfoldable pub set_ptp_grandmaster_identity_v1 : Memory → ℕ → Memory
  set_ptp_grandmaster_identity_v1 pdu value =
      CommonStreamHeader.set_ptp_grandmaster_identity_v1 host pdu value

  unfoldable pub set_format_v1 : Memory → ℕ → Memory
  set_format_v1 pdu value = set_field_v1 host pdu format (u32 value)

  unfoldable pub set_format_subtype_v1 : Memory → ℕ → Memory
  set_format_subtype_v1 pdu value = set_field_v1 host pdu format_subtype (u32 value)

  unfoldable pub set_stream_data_length_v1 : Memory → ℕ → Memory
  set_stream_data_length_v1 pdu value =
      CommonStreamHeader.set_stream_data_length_v1 host pdu (u16 value)

  unfoldable pub set_ptv_v1 : Memory → Bool → Memory
  set_ptv_v1 pdu flag = set_field_v1 host pdu ptv (bit_num flag)

  unfoldable pub set_mv1 : Memory → Bool → Memory
  set_mv1 pdu flag = set_field_v1 host pdu m (bit_num flag)

  unfoldable pub set_evt_v1 : Memory → ℕ → Memory
  set_evt_v1 pdu value = set_field_v1 host pdu evt (u8 value)
