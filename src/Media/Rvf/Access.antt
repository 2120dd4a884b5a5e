-- ===== src/Media/Rvf/Access.antt =====
-- include/avtp/Rvf.h: the accessors that dispatch on the version.
use open_lib.Common.{Bool, bit_num, to_bool, u16, u32, u8, ℕ}
use open_lib.Memory.{Endian, Memory}
use open_lib.Media.Rvf.Fields.{
  active_pixels, ap, avtp_timestamp, ef, evt, f_bit, get_field, i, mr, pd, ptp_grandmaster_identity,
  sequence_num, set_field, stream_data_length, stream_id, sv, total_lines, tu, tv,
}

module _ (host : Endian) where
  unfoldable pub is_sv : Memory → Bool
  is_sv pdu = to_bool (get_field host pdu sv)

  unfoldable pub is_mr : Memory → Bool
  is_mr pdu = to_bool (get_field host pdu mr)

  unfoldable pub is_tv : Memory → Bool
  is_tv pdu = to_bool (get_field host pdu tv)

  unfoldable pub get_sequence_num : Memory → ℕ
  get_sequence_num pdu = u32 (get_field host pdu sequence_num)

  unfoldable pub is_tu : Memory → Bool
  is_tu pdu = to_bool (get_field host pdu tu)

  unfoldable pub get_stream_id : Memory → ℕ
  get_stream_id pdu = get_field host pdu stream_id

  unfoldable pub get_avtp_timestamp : Memory → ℕ
  get_avtp_timestamp pdu = get_field host pdu avtp_timestamp

  unfoldable pub get_ptp_grandmaster_identity : Memory → ℕ
  get_ptp_grandmaster_identity pdu = get_field host pdu ptp_grandmaster_identity

  unfoldable pub get_active_pixels : Memory → ℕ
  get_active_pixels pdu = u16 (get_field host pdu active_pixels)

  unfoldable pub get_total_lines : Memory → ℕ
  get_total_lines pdu = u16 (get_field host pdu total_lines)

  unfoldable pub get_stream_data_length : Memory → ℕ
  get_stream_data_length pdu = u16 (get_field host pdu stream_data_length)

  unfoldable pub is_ap : Memory → Bool
  is_ap pdu = to_bool (get_field host pdu ap)

  unfoldable pub is_f : Memory → Bool
  is_f pdu = to_bool (get_field host pdu f_bit)

  unfoldable pub is_ef : Memory → Bool
  is_ef pdu = to_bool (get_field host pdu ef)

  unfoldable pub get_evt : Memory → ℕ
  get_evt pdu = u8 (get_field host pdu evt)

  unfoldable pub is_pd : Memory → Bool
  is_pd pdu = to_bool (get_field host pdu pd)

  unfoldable pub is_i : Memory → Bool
  is_i pdu = to_bool (get_field host pdu i)

  unfoldable pub set_sv : Memory → Bool → Memory
  set_sv pdu flag = set_field host pdu sv (bit_num flag)

  unfoldable pub set_mr : Memory → Bool → Memory
  set_mr pdu flag = set_field host pdu mr (bit_num flag)

  unfoldable pub set_tv : Memory → Bool → Memory
  set_tv pdu flag = set_field host pdu tv (bit_num flag)

  unfoldable pub set_sequence_num : Memory → ℕ → Memory
  set_sequence_num pdu value = set_field host pdu sequence_num (u32 value)

  unfoldable pub set_tu : Memory → Bool → Memory
  set_tu pdu flag = set_field host pdu tu (bit_num flag)

  unfoldable pub set_stream_id : Memory → ℕ → Memory
  set_stream_id pdu value = set_field host pdu stream_id value

  unfoldable pub set_avtp_timestamp : Memory → ℕ → Memory
  set_avtp_timestamp pdu value = set_field host pdu avtp_timestamp value

  unfoldable pub set_ptp_grandmaster_identity : Memory → ℕ → Memory
  set_ptp_grandmaster_identity pdu value = set_field host pdu ptp_grandmaster_identity value

  unfoldable pub set_active_pixels : Memory → ℕ → Memory
  set_active_pixels pdu value = set_field host pdu active_pixels (u16 value)

  unfoldable pub set_total_lines : Memory → ℕ → Memory
  set_total_lines pdu value = set_field host pdu total_lines (u16 value)

  unfoldable pub set_stream_data_length : Memory → ℕ → Memory
  set_stream_data_length pdu value = set_field host pdu stream_data_length (u16 value)

  unfoldable pub set_ap : Memory → Bool → Memory
  set_ap pdu flag = set_field host pdu ap (bit_num flag)

  unfoldable pub set_f : Memory → Bool → Memory
  set_f pdu flag = set_field host pdu f_bit (bit_num flag)

  unfoldable pub set_ef : Memory → Bool → Memory
  set_ef pdu flag = set_field host pdu ef (bit_num flag)

  unfoldable pub set_evt : Memory → ℕ → Memory
  set_evt pdu value = set_field host pdu evt (u8 value)

  unfoldable pub set_pd : Memory → Bool → Memory
  set_pd pdu flag = set_field host pdu pd (bit_num flag)

  unfoldable pub set_i : Memory → Bool → Memory
  set_i pdu flag = set_field host pdu i (bit_num flag)
