-- ===== src/Header/CommonStreamHeader/V1.antt =====
-- include/avtp/CommonStreamHeader.h: the accessors of version 1.
use open_lib.Common.{Bool, bit_num, to_bool, u16, u32, u8, ℕ}
use open_lib.Memory.{Endian, Memory}
use open_lib.Header.CommonStreamHeader.Fields.{
  avtp_timestamp, fsd, fsd0, fsd1, get_field_v1, mr, ptp_grandmaster_identity, sequence_num,
  set_field_v1, stream_data_length, stream_id, sv, tu, tv,
}

module _ (host : Endian) where
  unfoldable pub is_sv_v1 : Memory → Bool
  is_sv_v1 pdu = to_bool (get_field_v1 host pdu sv)

  unfoldable pub is_mr_v1 : Memory → Bool
  is_mr_v1 pdu = to_bool (get_field_v1 host pdu mr)

  unfoldable pub is_tv_v1 : Memory → Bool
  is_tv_v1 pdu = to_bool (get_field_v1 host pdu tv)

  unfoldable pub is_tu_v1 : Memory → Bool
  is_tu_v1 pdu = to_bool (get_field_v1 host pdu tu)

  unfoldable pub get_fsd_v1 : Memory → ℕ
  get_fsd_v1 pdu = u8 (get_field_v1 host pdu fsd)

  unfoldable pub get_format_specific_data0_v1 : Memory → ℕ
  get_format_specific_data0_v1 pdu = u8 (get_field_v1 host pdu fsd0)

  unfoldable pub get_format_specific_data1_v1 : Memory → ℕ
  get_format_specific_data1_v1 pdu = u8 (get_field_v1 host pdu fsd1)

  unfoldable pub get_sequence_num_v1 : Memory → ℕ
  get_sequence_num_v1 pdu = u32 (get_field_v1 host pdu sequence_num)

  unfoldable pub get_stream_id_v1 : Memory → ℕ
  get_stream_id_v1 pdu = get_field_v1 host pdu stream_id

  unfoldable pub get_avtp_timestamp_v1 : Memory → ℕ
  get_avtp_timestamp_v1 pdu = get_field_v1 host pdu avtp_timestamp

  unfoldable pub get_ptp_grandmaster_identity_v1 : Memory → ℕ
  get_ptp_grandmaster_identity_v1 pdu = get_field_v1 host pdu ptp_grandmaster_identity

  unfoldable pub get_stream_data_length_v1 : Memory → ℕ
  get_stream_data_length_v1 pdu = u16 (get_field_v1 host pdu stream_data_length)

  unfoldable pub set_sv_v1 : Memory → Bool → Memory
  set_sv_v1 pdu flag = set_field_v1 host pdu sv (bit_num flag)

  unfoldable pub set_mr_v1 : Memory → Bool → Memory
  set_mr_v1 pdu flag = set_field_v1 host pdu mr (bit_num flag)

  unfoldable pub set_tv_v1 : Memory → Bool → Memory
  set_tv_v1 pdu flag = set_field_v1 host pdu tv (bit_num flag)

  unfoldable pub set_tu_v1 : Memory → Bool → Memory
  set_tu_v1 pdu flag = set_field_v1 host pdu tu (bit_num flag)

  unfoldable pub set_fsd_v1 : Memory → ℕ → Memory
  set_fsd_v1 pdu fsd_value = set_field_v1 host pdu fsd (u8 fsd_value)

  unfoldable pub set_format_specific_data0_v1 : Memory → ℕ → Memory
  set_format_specific_data0_v1 pdu value = set_field_v1 host pdu fsd0 (u8 value)

  unfoldable pub set_format_specific_data1_v1 : Memory → ℕ → Memory
  set_format_specific_data1_v1 pdu value = set_field_v1 host pdu fsd1 (u8 value)

  unfoldable pub set_sequence_num_v1 : Memory → ℕ → Memory
  set_sequence_num_v1 pdu value = set_field_v1 host pdu sequence_num (u32 value)

  unfoldable pub set_stream_id_v1 : Memory → ℕ → Memory
  set_stream_id_v1 pdu value = set_field_v1 host pdu stream_id value

  unfoldable pub set_avtp_timestamp_v1 : Memory → ℕ → Memory
  set_avtp_timestamp_v1 pdu value = set_field_v1 host pdu avtp_timestamp value

  unfoldable pub set_ptp_grandmaster_identity_v1 : Memory → ℕ → Memory
  set_ptp_grandmaster_identity_v1 pdu value = set_field_v1 host pdu ptp_grandmaster_identity value

  unfoldable pub set_stream_data_length_v1 : Memory → ℕ → Memory
  set_stream_data_length_v1 pdu value = set_field_v1 host pdu stream_data_length (u16 value)
