-- ===== src/Media/Crf/V1.antt =====
-- include/avtp/Crf.h: the accessors of version 1.
use open_lib.Common.{Bool, bit_and, bit_num, to_bool, u16, u32, u8, ℕ}
use open_lib.Memory.{Endian, Memory}
use open_lib.Header.AlternativeHeader
use open_lib.Media.Crf.Fields.{
  base_frequency, crf_data_length, fs, get_field_v1, mr, pull, sequence_num, sequence_num_lsb,
  set_field_v1, stream_id, sv, timestamp_interval, tu, type_field,
}

module _ (host : Endian) where
  unfoldable pub is_sv_v1 : Memory → Bool
  is_sv_v1 pdu = to_bool (get_field_v1 host pdu sv)

  unfoldable pub is_mr_v1 : Memory → Bool
  is_mr_v1 pdu = to_bool (get_field_v1 host pdu mr)

  unfoldable pub is_fs_v1 : Memory → Bool
  is_fs_v1 pdu = to_bool (get_field_v1 host pdu fs)

  unfoldable pub is_tu_v1 : Memory → Bool
  is_tu_v1 pdu = to_bool (get_field_v1 host pdu tu)

  unfoldable pub get_sequence_num_v1 : Memory → ℕ
  get_sequence_num_v1 pdu = u32 (get_field_v1 host pdu sequence_num)

  unfoldable pub get_sequence_num_lsb_v1 : Memory → ℕ
  get_sequence_num_lsb_v1 pdu = u8 (get_field_v1 host pdu sequence_num_lsb)

  unfoldable pub get_ptp_grandmaster_identity_v1 : Memory → ℕ
  get_ptp_grandmaster_identity_v1 pdu = AlternativeHeader.get_ptp_grandmaster_identity_v1 host pdu

  unfoldable pub get_type_v1 : Memory → ℕ
  get_type_v1 pdu = u32 (get_field_v1 host pdu type_field)

  unfoldable pub get_stream_id_v1 : Memory → ℕ
  get_stream_id_v1 pdu = get_field_v1 host pdu stream_id

  unfoldable pub get_pull_v1 : Memory → ℕ
  get_pull_v1 pdu = u32 (get_field_v1 host pdu pull)

  unfoldable pub get_base_frequency_v1 : Memory → ℕ
  get_base_frequency_v1 pdu = u32 (get_field_v1 host pdu base_frequency)

  unfoldable pub get_crf_data_length_v1 : Memory → ℕ
  get_crf_data_length_v1 pdu = u16 (get_field_v1 host pdu crf_data_length)

  unfoldable pub get_timestamp_interval_v1 : Memory → ℕ
  get_timestamp_interval_v1 pdu = u16 (get_field_v1 host pdu timestamp_interval)

  unfoldable pub set_sv_v1 : Memory → Bool → Memory
  set_sv_v1 pdu flag = set_field_v1 host pdu sv (bit_num flag)

  unfoldable pub set_mr_v1 : Memory → Bool → Memory
  set_mr_v1 pdu flag = set_field_v1 host pdu mr (bit_num flag)

  unfoldable pub set_fs_v1 : Memory → Bool → Memory
  set_fs_v1 pdu flag = set_field_v1 host pdu fs (bit_num flag)

  unfoldable pub set_tu_v1 : Memory → Bool → Memory
  set_tu_v1 pdu flag = set_field_v1 host pdu tu (bit_num flag)

  unfoldable pub set_sequence_num_v1 : Memory → ℕ → Memory
  set_sequence_num_v1 pdu value =
      let pdu1 = set_field_v1 host pdu sequence_num (u32 value) in
      set_field_v1 host pdu1 sequence_num_lsb (u8 (bit_and (u32 value) 0xff))

  unfoldable pub set_ptp_grandmaster_identity_v1 : Memory → ℕ → Memory
  set_ptp_grandmaster_identity_v1 pdu value =
      AlternativeHeader.set_ptp_grandmaster_identity_v1 host pdu value

  unfoldable pub set_type_v1 : Memory → ℕ → Memory
  set_type_v1 pdu value = set_field_v1 host pdu type_field (u32 value)

  unfoldable pub set_stream_id_v1 : Memory → ℕ → Memory
  set_stream_id_v1 pdu value = set_field_v1 host pdu stream_id value

  unfoldable pub set_pull_v1 : Memory → ℕ → Memory
  set_pull_v1 pdu value = set_field_v1 host pdu pull (u32 value)

  unfoldable pub set_base_frequency_v1 : Memory → ℕ → Memory
  set_base_frequency_v1 pdu value = set_field_v1 host pdu base_frequency (u32 value)

  unfoldable pub set_crf_data_length_v1 : Memory → ℕ → Memory
  set_crf_data_length_v1 pdu value = set_field_v1 host pdu crf_data_length (u16 value)

  unfoldable pub set_timestamp_interval_v1 : Memory → ℕ → Memory
  set_timestamp_interval_v1 pdu value = set_field_v1 host pdu timestamp_interval (u16 value)
