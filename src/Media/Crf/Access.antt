-- ===== src/Media/Crf/Access.antt =====
-- include/avtp/Crf.h: the accessors that dispatch on the version.
use open_lib.Common.{Bool, bit_and, bit_num, if◌then◌else◌, to_bool, u16, u32, u8, ℕ, ◌==◌}
use open_lib.Memory.{Endian, Memory}
use open_lib.Header.AlternativeHeader
use open_lib.Media.Crf.Fields.{
  base_frequency, crf_data_length, fs, get_field, get_field_v0, get_field_v1, mr,
  ptp_grandmaster_identity, pull, sequence_num, sequence_num_lsb, set_field, set_field_v0,
  set_field_v1, stream_id, sv, timestamp_interval, tu, type_field,
}

module _ (host : Endian) where
  unfoldable pub is_sv : Memory → Bool
  is_sv pdu = to_bool (get_field host pdu sv)

  unfoldable pub is_mr : Memory → Bool
  is_mr pdu = to_bool (get_field host pdu mr)

  unfoldable pub is_fs : Memory → Bool
  is_fs pdu = to_bool (get_field host pdu fs)

  unfoldable pub is_tu : Memory → Bool
  is_tu pdu = to_bool (get_field host pdu tu)

  unfoldable pub get_sequence_num : Memory → ℕ
  get_sequence_num pdu =
      if AlternativeHeader.get_version host pdu == 1
      then u32 (get_field_v1 host pdu sequence_num)
      else u8 (get_field_v0 host pdu sequence_num_lsb)

  unfoldable pub get_sequence_num_lsb : Memory → ℕ
  get_sequence_num_lsb pdu = u8 (get_field host pdu sequence_num_lsb)

  unfoldable pub get_ptp_grandmaster_identity : Memory → ℕ
  get_ptp_grandmaster_identity pdu = get_field host pdu ptp_grandmaster_identity

  unfoldable pub get_type : Memory → ℕ
  get_type pdu = u32 (get_field host pdu type_field)

  unfoldable pub get_stream_id : Memory → ℕ
  get_stream_id pdu = get_field host pdu stream_id

  unfoldable pub get_pull : Memory → ℕ
  get_pull pdu = u32 (get_field host pdu pull)

  unfoldable pub get_base_frequency : Memory → ℕ
  get_base_frequency pdu = u32 (get_field host pdu base_frequency)

  unfoldable pub get_crf_data_length : Memory → ℕ
  get_crf_data_length pdu = u16 (get_field host pdu crf_data_length)

  unfoldable pub get_timestamp_interval : Memory → ℕ
  get_timestamp_interval pdu = u16 (get_field host pdu timestamp_interval)

  unfoldable pub set_sv : Memory → Bool → Memory
  set_sv pdu flag = set_field host pdu sv (bit_num flag)

  unfoldable pub set_mr : Memory → Bool → Memory
  set_mr pdu flag = set_field host pdu mr (bit_num flag)

  unfoldable pub set_fs : Memory → Bool → Memory
  set_fs pdu flag = set_field host pdu fs (bit_num flag)

  unfoldable pub set_tu : Memory → Bool → Memory
  set_tu pdu flag = set_field host pdu tu (bit_num flag)

  unfoldable pub set_sequence_num : Memory → ℕ → Memory
  set_sequence_num pdu value =
      if AlternativeHeader.get_version host pdu == 1
      then (let pdu1 = set_field_v1 host pdu sequence_num (u32 value) in
          set_field_v1 host pdu1 sequence_num_lsb (u8 (bit_and (u32 value) 0xff)))
      else set_field_v0 host pdu sequence_num_lsb (u8 (bit_and (u32 value) 0xff))

  unfoldable pub set_ptp_grandmaster_identity : Memory → ℕ → Memory
  set_ptp_grandmaster_identity pdu value = set_field host pdu ptp_grandmaster_identity value

  unfoldable pub set_type : Memory → ℕ → Memory
  set_type pdu value = set_field host pdu type_field (u32 value)

  unfoldable pub set_stream_id : Memory → ℕ → Memory
  set_stream_id pdu value = set_field host pdu stream_id value

  unfoldable pub set_pull : Memory → ℕ → Memory
  set_pull pdu value = set_field host pdu pull (u32 value)

  unfoldable pub set_base_frequency : Memory → ℕ → Memory
  set_base_frequency pdu value = set_field host pdu base_frequency (u32 value)

  unfoldable pub set_crf_data_length : Memory → ℕ → Memory
  set_crf_data_length pdu value = set_field host pdu crf_data_length (u16 value)

  unfoldable pub set_timestamp_interval : Memory → ℕ → Memory
  set_timestamp_interval pdu value = set_field host pdu timestamp_interval (u16 value)
