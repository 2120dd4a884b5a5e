-- ===== src/Control/Tscf/V1.antt =====
-- include/avtp/acf/Tscf.h: the accessors of version 1.
use open_lib.Common.{Bool, bit_and, u16, u32, u8, ℕ}
use open_lib.Memory.{Endian, Memory}
use open_lib.Header.CommonStreamHeader
use open_lib.Control.Tscf.Fields.{fsd0, get_field_v1, sequence_num, set_field_v1}

module _ (host : Endian) where
  unfoldable pub is_sv_v1 : Memory → Bool
  is_sv_v1 pdu = CommonStreamHeader.is_sv_v1 host pdu

  unfoldable pub is_mr_v1 : Memory → Bool
  is_mr_v1 pdu = CommonStreamHeader.is_mr_v1 host pdu

  unfoldable pub is_tv_v1 : Memory → Bool
  is_tv_v1 pdu = CommonStreamHeader.is_tv_v1 host pdu

  unfoldable pub is_tu_v1 : Memory → Bool
  is_tu_v1 pdu = CommonStreamHeader.is_tu_v1 host pdu

  unfoldable pub get_sequence_num_v1 : Memory → ℕ
  get_sequence_num_v1 pdu = CommonStreamHeader.get_sequence_num_v1 host pdu

  unfoldable pub get_sequence_num_lsb_v1 : Memory → ℕ
  get_sequence_num_lsb_v1 pdu = u8 (get_field_v1 host pdu fsd0)

  unfoldable pub get_stream_id_v1 : Memory → ℕ
  get_stream_id_v1 pdu = CommonStreamHeader.get_stream_id_v1 host pdu

  unfoldable pub get_avtp_timestamp_v1 : Memory → ℕ
  get_avtp_timestamp_v1 pdu = CommonStreamHeader.get_avtp_timestamp_v1 host pdu

  unfoldable pub get_ptp_grandmaster_identity_v1 : Memory → ℕ
  get_ptp_grandmaster_identity_v1 pdu = CommonStreamHeader.get_ptp_grandmaster_identity_v1 host pdu

  unfoldable pub get_stream_data_length_v1 : Memory → ℕ
  get_stream_data_length_v1 pdu = CommonStreamHeader.get_stream_data_length_v1 host pdu

  unfoldable pub set_sv_v1 : Memory → Bool → Memory
  set_sv_v1 pdu flag = CommonStreamHeader.set_sv_v1 host pdu flag

  unfoldable pub set_mr_v1 : Memory → Bool → Memory
  set_mr_v1 pdu flag = CommonStreamHeader.set_mr_v1 host pdu flag

  unfoldable pub set_tv_v1 : Memory → Bool → Memory
  set_tv_v1 pdu flag = CommonStreamHeader.set_tv_v1 host pdu flag

  unfoldable pub set_tu_v1 : Memory → Bool → Memory
  set_tu_v1 pdu flag = CommonStreamHeader.set_tu_v1 host pdu flag

  unfoldable pub set_sequence_num_v1 : Memory → ℕ → Memory
  set_sequence_num_v1 pdu value =
      let pdu1 = set_field_v1 host pdu sequence_num (u32 value) in
      set_field_v1 host pdu1 fsd0 (u8 (bit_and (u32 value) 0xff))

  unfoldable pub set_stream_id_v1 : Memory → ℕ → Memory
  set_stream_id_v1 pdu value = CommonStreamHeader.set_stream_id_v1 host pdu value

  unfoldable pub set_avtp_timestamp_v1 : Memory → ℕ → Memory
  set_avtp_timestamp_v1 pdu value = CommonStreamHeader.set_avtp_timestamp_v1 host pdu value

  unfoldable pub set_ptp_grandmaster_identity_v1 : Memory → ℕ → Memory
  set_ptp_grandmaster_identity_v1 pdu value =
      CommonStreamHeader.set_ptp_grandmaster_identity_v1 host pdu value

  unfoldable pub set_stream_data_length_v1 : Memory → ℕ → Memory
  set_stream_data_length_v1 pdu value =
      CommonStreamHeader.set_stream_data_length_v1 host pdu (u16 value)
