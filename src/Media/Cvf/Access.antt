-- ===== src/Media/Cvf/Access.antt =====
-- include/avtp/cvf/Cvf.h: the accessors that dispatch on the version.
use open_lib.Common.{Bool, bit_num, to_bool, u16, u32, u8, ℕ}
use open_lib.Memory.{Endian, Memory}
use open_lib.Media.Cvf.Fields.{
  avtp_timestamp, evt, format, format_subtype, get_field, m, mr, ptp_grandmaster_identity, ptv,
  sequence_num, set_field, stream_data_length, stream_id, sv, tu, tv,
}

module _ (host : Endian) where
  unfoldable pub is_sv : Memory → Bool
  is_sv pdu = to_bool (get_field host pdu sv)

  unfoldable pub is_mr : Memory → Bool
  is_mr pdu = to_bool (get_field host pdu mr)

  unfoldable pub is_tv : Memory → Bool
  is_tv pdu = to_bool (get_field host pdu tv)

  unfoldable pub get_sequence_num : Memory → ℕ
  get_sequence_num pdu = u32 (get_field host pdu sequence_num)

  unfoldable pub is_tu : Memory → Bool
  is_tu pdu = to_bool (get_field host pdu tu)

  unfoldable pub get_stream_id : Memory → ℕ
  get_stream_id pdu = get_field host pdu stream_id

  unfoldable pub get_avtp_timestamp : Memory → ℕ
  get_avtp_timestamp pdu = get_field host pdu avtp_timestamp

  unfoldable pub get_ptp_grandmaster_identity : Memory → ℕ
  get_ptp_grandmaster_identity pdu = get_field host pdu ptp_grandmaster_identity

  unfoldable pub get_format : Memory → ℕ
  get_format pdu = u32 (get_field host pdu format)

  unfoldable pub get_format_subtype : Memory → ℕ
  get_format_subtype pdu = u32 (get_field host pdu format_subtype)

  unfoldable pub get_stream_data_length : Memory → ℕ
  get_stream_data_length pdu = u16 (get_field host pdu stream_data_length)

  unfoldable pub is_ptv : Memory → Bool
  is_ptv pdu = to_bool (get_field host pdu ptv)

  unfoldable pub is_m : Memory → Bool
  is_m pdu = to_bool (get_field host pdu m)

  unfoldable pub get_evt : Memory → ℕ
  get_evt pdu = u8 (get_field host pdu evt)

  unfoldable pub set_sv : Memory → Bool → Memory
  set_sv pdu flag = set_field host pdu sv (bit_num flag)

  unfoldable pub set_mr : Memory → Bool → Memory
  set_mr pdu flag = set_field host pdu mr (bit_num flag)

  unfoldable pub set_tv : Memory → Bool → Memory
  set_tv pdu flag = set_field host pdu tv (bit_num flag)

  unfoldable pub set_sequence_num : Memory → ℕ → Memory
  set_sequence_num pdu value = set_field host pdu sequence_num (u32 value)

  unfoldable pub set_tu : Memory → Bool → Memory
  set_tu pdu flag = set_field host pdu tu (bit_num flag)

  unfoldable pub set_stream_id : Memory → ℕ → Memory
  set_stream_id pdu value = set_field host pdu stream_id value

  unfoldable pub set_avtp_timestamp : Memory → ℕ → Memory
  set_avtp_timestamp pdu value = set_field host pdu avtp_timestamp value

  unfoldable pub set_ptp_grandmaster_identity : Memory → ℕ → Memory
  set_ptp_grandmaster_identity pdu value = set_field host pdu ptp_grandmaster_identity value

  unfoldable pub set_format : Memory → ℕ → Memory
  set_format pdu value = set_field host pdu format (u32 value)

  unfoldable pub set_format_subtype : Memory → ℕ → Memory
  set_format_subtype pdu value = set_field host pdu format_subtype (u32 value)

  unfoldable pub set_stream_data_length : Memory → ℕ → Memory
  set_stream_data_length pdu value = set_field host pdu stream_data_length (u16 value)

  unfoldable pub set_ptv : Memory → Bool → Memory
  set_ptv pdu flag = set_field host pdu ptv (bit_num flag)

  unfoldable pub set_m : Memory → Bool → Memory
  set_m pdu flag = set_field host pdu m (bit_num flag)

  unfoldable pub set_evt : Memory → ℕ → Memory
  set_evt pdu value = set_field host pdu evt (u8 value)
