-- ===== src/Header/CommonStreamHeader/Access.antt =====
-- include/avtp/CommonStreamHeader.h: the accessors that dispatch on the version.
use open_lib.Common.{Bool, bit_num, to_bool, u16, u32, u8, ℕ}
use open_lib.Memory.{Endian, Memory}
use open_lib.Header.CommonStreamHeader.Fields.{
  avtp_timestamp, fsd, fsd0, fsd1, get_field, mr, ptp_grandmaster_identity, sequence_num, set_field,
  stream_data_length, stream_id, sv, tu, tv,
}

module _ (host : Endian) where
  unfoldable pub is_sv : Memory → Bool
  is_sv pdu = to_bool (get_field host pdu sv)

  unfoldable pub set_sv : Memory → Bool → Memory
  set_sv pdu flag = set_field host pdu sv (bit_num flag)

  unfoldable pub is_mr : Memory → Bool
  is_mr pdu = to_bool (get_field host pdu mr)

  unfoldable pub set_mr : Memory → Bool → Memory
  set_mr pdu flag = set_field host pdu mr (bit_num flag)

  unfoldable pub is_tv : Memory → Bool
  is_tv pdu = to_bool (get_field host pdu tv)

  unfoldable pub set_tv : Memory → Bool → Memory
  set_tv pdu flag = set_field host pdu tv (bit_num flag)

  unfoldable pub is_tu : Memory → Bool
  is_tu pdu = to_bool (get_field host pdu tu)

  unfoldable pub set_tu : Memory → Bool → Memory
  set_tu pdu flag = set_field host pdu tu (bit_num flag)

  unfoldable pub get_fsd : Memory → ℕ
  get_fsd pdu = u8 (get_field host pdu fsd)

  unfoldable pub set_fsd : Memory → ℕ → Memory
  set_fsd pdu fsd_value = set_field host pdu fsd (u8 fsd_value)

  unfoldable pub get_format_specific_data0 : Memory → ℕ
  get_format_specific_data0 pdu = u8 (get_field host pdu fsd0)

  unfoldable pub set_format_specific_data0 : Memory → ℕ → Memory
  set_format_specific_data0 pdu value = set_field host pdu fsd0 (u8 value)

  unfoldable pub get_format_specific_data1 : Memory → ℕ
  get_format_specific_data1 pdu = u8 (get_field host pdu fsd1)

  unfoldable pub set_format_specific_data1 : Memory → ℕ → Memory
  set_format_specific_data1 pdu value = set_field host pdu fsd1 (u8 value)

  unfoldable pub get_sequence_num : Memory → ℕ
  get_sequence_num pdu = u32 (get_field host pdu sequence_num)

  unfoldable pub set_sequence_num : Memory → ℕ → Memory
  set_sequence_num pdu value = set_field host pdu sequence_num (u32 value)

  unfoldable pub get_stream_id : Memory → ℕ
  get_stream_id pdu = get_field host pdu stream_id

  unfoldable pub set_stream_id : Memory → ℕ → Memory
  set_stream_id pdu value = set_field host pdu stream_id value

  unfoldable pub get_avtp_timestamp : Memory → ℕ
  get_avtp_timestamp pdu = get_field host pdu avtp_timestamp

  unfoldable pub set_avtp_timestamp : Memory → ℕ → Memory
  set_avtp_timestamp pdu value = set_field host pdu avtp_timestamp value

  unfoldable pub get_ptp_grandmaster_identity : Memory → ℕ
  get_ptp_grandmaster_identity pdu = get_field host pdu ptp_grandmaster_identity

  unfoldable pub set_ptp_grandmaster_identity : Memory → ℕ → Memory
  set_ptp_grandmaster_identity pdu value = set_field host pdu ptp_grandmaster_identity value

  unfoldable pub get_stream_data_length : Memory → ℕ
  get_stream_data_length pdu = u16 (get_field host pdu stream_data_length)

  unfoldable pub set_stream_data_length : Memory → ℕ → Memory
  set_stream_data_length pdu value = set_field host pdu stream_data_length (u16 value)
