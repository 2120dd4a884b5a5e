-- ===== src/Media/Pcm/V0.antt =====
-- include/avtp/aaf/Pcm.h: the accessors of version 0.
use open_lib.Common.{Bool, bit_num, to_bool, u16, u32, u8, ℕ}
use open_lib.Memory.{Endian, Memory}
use open_lib.Header.CommonStreamHeader
use open_lib.Media.Pcm.Fields.{
  bit_depth, channels_per_frame, evt, format, get_field_v0, nsr, set_field_v0, sp,
}

module _ (host : Endian) where
  unfoldable pub is_sv_v0 : Memory → Bool
  is_sv_v0 pdu = CommonStreamHeader.is_sv_v0 host pdu

  unfoldable pub is_mr_v0 : Memory → Bool
  is_mr_v0 pdu = CommonStreamHeader.is_mr_v0 host pdu

  unfoldable pub is_tv_v0 : Memory → Bool
  is_tv_v0 pdu = CommonStreamHeader.is_tv_v0 host pdu

  unfoldable pub is_tu_v0 : Memory → Bool
  is_tu_v0 pdu = CommonStreamHeader.is_tu_v0 host pdu

  unfoldable pub get_sequence_num_v0 : Memory → ℕ
  get_sequence_num_v0 pdu = CommonStreamHeader.get_sequence_num_v0 host pdu

  unfoldable pub get_stream_id_v0 : Memory → ℕ
  get_stream_id_v0 pdu = CommonStreamHeader.get_stream_id_v0 host pdu

  unfoldable pub get_avtp_timestamp_v0 : Memory → ℕ
  get_avtp_timestamp_v0 pdu = CommonStreamHeader.get_avtp_timestamp_v0 host pdu

  unfoldable pub get_ptp_grandmaster_identity_v0 : Memory → ℕ
  get_ptp_grandmaster_identity_v0 pdu = CommonStreamHeader.get_ptp_grandmaster_identity_v0 host pdu

  unfoldable pub get_format_v0 : Memory → ℕ
  get_format_v0 pdu = u32 (get_field_v0 host pdu format)

  unfoldable pub get_nsr_v0 : Memory → ℕ
  get_nsr_v0 pdu = u32 (get_field_v0 host pdu nsr)

  unfoldable pub get_channels_per_frame_v0 : Memory → ℕ
  get_channels_per_frame_v0 pdu = u16 (get_field_v0 host pdu channels_per_frame)

  unfoldable pub get_bit_depth_v0 : Memory → ℕ
  get_bit_depth_v0 pdu = u8 (get_field_v0 host pdu bit_depth)

  unfoldable pub get_stream_data_length_v0 : Memory → ℕ
  get_stream_data_length_v0 pdu = CommonStreamHeader.get_stream_data_length_v0 host pdu

  unfoldable pub is_sp_v0 : Memory → Bool
  is_sp_v0 pdu = to_bool (get_field_v0 host pdu sp)

  unfoldable pub get_evt_v0 : Memory → ℕ
  get_evt_v0 pdu = u8 (get_field_v0 host pdu evt)

  unfoldable pub set_sv_v0 : Memory → Bool → Memory
  set_sv_v0 pdu flag = CommonStreamHeader.set_sv_v0 host pdu flag

  unfoldable pub set_mr_v0 : Memory → Bool → Memory
  set_mr_v0 pdu flag = CommonStreamHeader.set_mr_v0 host pdu flag

  unfoldable pub set_tv_v0 : Memory → Bool → Memory
  set_tv_v0 pdu flag = CommonStreamHeader.set_tv_v0 host pdu flag

  unfoldable pub set_tu_v0 : Memory → Bool → Memory
  set_tu_v0 pdu flag = CommonStreamHeader.set_tu_v0 host pdu flag

  unfoldable pub set_sequence_num_v0 : Memory → ℕ → Memory
  set_sequence_num_v0 pdu value = CommonStreamHeader.set_sequence_num_v0 host pdu (u32 value)

  unfoldable pub set_stream_id_v0 : Memory → ℕ → Memory
  set_stream_id_v0 pdu value = CommonStreamHeader.set_stream_id_v0 host pdu value

  unfoldable pub set_avtp_timestamp_v0 : Memory → ℕ → Memory
  set_avtp_timestamp_v0 pdu value = CommonStreamHeader.set_avtp_timestamp_v0 host pdu value

  unfoldable pub set_ptp_grandmaster_identity_v0 : Memory → ℕ → Memory
  set_ptp_grandmaster_identity_v0 pdu value =
      CommonStreamHeader.set_ptp_grandmaster_identity_v0 host pdu value

  unfoldable pub set_format_v0 : Memory → ℕ → Memory
  set_format_v0 pdu value = set_field_v0 host pdu format (u32 value)

  unfoldable pub set_nsr_v0 : Memory → ℕ → Memory
  set_nsr_v0 pdu value = set_field_v0 host pdu nsr (u32 value)

  unfoldable pub set_channels_per_frame_v0 : Memory → ℕ → Memory
  set_channels_per_frame_v0 pdu value = set_field_v0 host pdu channels_per_frame (u16 value)

  unfoldable pub set_bit_depth_v0 : Memory → ℕ → Memory
  set_bit_depth_v0 pdu value = set_field_v0 host pdu bit_depth (u8 value)

  unfoldable pub set_stream_data_length_v0 : Memory → ℕ → Memory
  set_stream_data_length_v0 pdu value =
      CommonStreamHeader.set_stream_data_length_v0 host pdu (u16 value)

  unfoldable pub set_sp_v0 : Memory → Bool → Memory
  set_sp_v0 pdu flag = set_field_v0 host pdu sp (bit_num flag)

  unfoldable pub set_evt_v0 : Memory → ℕ → Memory
  set_evt_v0 pdu value = set_field_v0 host pdu evt (u8 value)
