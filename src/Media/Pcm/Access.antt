-- ===== src/Media/Pcm/Access.antt =====
-- include/avtp/aaf/Pcm.h: the accessors that dispatch on the version.
use open_lib.Common.{Bool, bit_num, to_bool, u16, u32, u8, ℕ}
use open_lib.Memory.{Endian, Memory}
use open_lib.Media.Pcm.Fields.{
  avtp_timestamp, bit_depth, channels_per_frame, evt, format, get_field, mr, nsr,
  ptp_grandmaster_identity, sequence_num, set_field, sp, stream_data_length, stream_id, sv, tu, tv,
}

module _ (host : Endian) where
  unfoldable pub is_sv : Memory → Bool
  is_sv pdu = to_bool (get_field host pdu sv)

  unfoldable pub is_mr : Memory → Bool
  is_mr pdu = to_bool (get_field host pdu mr)

  unfoldable pub is_tv : Memory → Bool
  is_tv pdu = to_bool (get_field host pdu tv)

  unfoldable pub get_sequence_num : Memory → ℕ
  get_sequence_num pdu = u32 (get_field host pdu sequence_num)

  unfoldable pub is_tu : Memory → Bool
  is_tu pdu = to_bool (get_field host pdu tu)

  unfoldable pub get_stream_id : Memory → ℕ
  get_stream_id pdu = get_field host pdu stream_id

  unfoldable pub get_avtp_timestamp : Memory → ℕ
  get_avtp_timestamp pdu = get_field host pdu avtp_timestamp

  unfoldable pub get_ptp_grandmaster_identity : Memory → ℕ
  get_ptp_grandmaster_identity pdu = get_field host pdu ptp_grandmaster_identity

  unfoldable pub get_format : Memory → ℕ
  get_format pdu = u32 (get_field host pdu format)

  unfoldable pub get_nsr : Memory → ℕ
  get_nsr pdu = u32 (get_field host pdu nsr)

  unfoldable pub get_channels_per_frame : Memory → ℕ
  get_channels_per_frame pdu = u16 (get_field host pdu channels_per_frame)

  unfoldable pub get_bit_depth : Memory → ℕ
  get_bit_depth pdu = u8 (get_field host pdu bit_depth)

  unfoldable pub get_stream_data_length : Memory → ℕ
  get_stream_data_length pdu = u16 (get_field host pdu stream_data_length)

  unfoldable pub is_sp : Memory → Bool
  is_sp pdu = to_bool (get_field host pdu sp)

  unfoldable pub get_evt : Memory → ℕ
  get_evt pdu = u8 (get_field host pdu evt)

  unfoldable pub set_sv : Memory → Bool → Memory
  set_sv pdu flag = set_field host pdu sv (bit_num flag)

  unfoldable pub set_mr : Memory → Bool → Memory
  set_mr pdu flag = set_field host pdu mr (bit_num flag)

  unfoldable pub set_tv : Memory → Bool → Memory
  set_tv pdu flag = set_field host pdu tv (bit_num flag)

  unfoldable pub set_sequence_num : Memory → ℕ → Memory
  set_sequence_num pdu value = set_field host pdu sequence_num (u32 value)

  unfoldable pub set_tu : Memory → Bool → Memory
  set_tu pdu flag = set_field host pdu tu (bit_num flag)

  unfoldable pub set_stream_id : Memory → ℕ → Memory
  set_stream_id pdu value = set_field host pdu stream_id value

  unfoldable pub set_avtp_timestamp : Memory → ℕ → Memory
  set_avtp_timestamp pdu value = set_field host pdu avtp_timestamp value

  unfoldable pub set_ptp_grandmaster_identity : Memory → ℕ → Memory
  set_ptp_grandmaster_identity pdu value = set_field host pdu ptp_grandmaster_identity value

  unfoldable pub set_format : Memory → ℕ → Memory
  set_format pdu value = set_field host pdu format (u32 value)

  unfoldable pub set_nsr : Memory → ℕ → Memory
  set_nsr pdu value = set_field host pdu nsr (u32 value)

  unfoldable pub set_channels_per_frame : Memory → ℕ → Memory
  set_channels_per_frame pdu value = set_field host pdu channels_per_frame (u16 value)

  unfoldable pub set_bit_depth : Memory → ℕ → Memory
  set_bit_depth pdu value = set_field host pdu bit_depth (u8 value)

  unfoldable pub set_stream_data_length : Memory → ℕ → Memory
  set_stream_data_length pdu value = set_field host pdu stream_data_length (u16 value)

  unfoldable pub set_sp : Memory → Bool → Memory
  set_sp pdu flag = set_field host pdu sp (bit_num flag)

  unfoldable pub set_evt : Memory → ℕ → Memory
  set_evt pdu value = set_field host pdu evt (u8 value)
