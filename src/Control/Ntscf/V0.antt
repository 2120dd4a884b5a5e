-- ===== src/Control/Ntscf/V0.antt =====
-- include/avtp/acf/Ntscf.h: the accessors of version 0.
use open_lib.Common.{Bool, bit_and, bit_num, to_bool, u16, u32, u8, ℕ}
use open_lib.Memory.{Endian, Memory}
use open_lib.Header.AlternativeHeader
use open_lib.Control.Ntscf.Fields.{
  get_field_v0, ntscf_data_length, sequence_num_lsb, set_field_v0, stream_id, sv,
}

module _ (host : Endian) where
  unfoldable pub is_sv_v0 : Memory → Bool
  is_sv_v0 pdu = to_bool (get_field_v0 host pdu sv)

  unfoldable pub get_ntscf_data_length_v0 : Memory → ℕ
  get_ntscf_data_length_v0 pdu = u16 (get_field_v0 host pdu ntscf_data_length)

  unfoldable pub get_sequence_num_v0 : Memory → ℕ
  get_sequence_num_v0 pdu = u32 (get_field_v0 host pdu sequence_num_lsb)

  unfoldable pub get_sequence_num_lsb_v0 : Memory → ℕ
  get_sequence_num_lsb_v0 pdu = u8 (get_field_v0 host pdu sequence_num_lsb)

  unfoldable pub get_ptp_grandmaster_identity_v0 : Memory → ℕ
  get_ptp_grandmaster_identity_v0 pdu = AlternativeHeader.get_ptp_grandmaster_identity_v0 host pdu

  unfoldable pub get_stream_id_v0 : Memory → ℕ
  get_stream_id_v0 pdu = get_field_v0 host pdu stream_id

  unfoldable pub set_sv_v0 : Memory → Bool → Memory
  set_sv_v0 pdu flag = set_field_v0 host pdu sv (bit_num flag)

  unfoldable pub set_ntscf_data_length_v0 : Memory → ℕ → Memory
  set_ntscf_data_length_v0 pdu value = set_field_v0 host pdu ntscf_data_length (u16 value)

  unfoldable pub set_sequence_num_v0 : Memory → ℕ → Memory
  set_sequence_num_v0 pdu value =
      set_field_v0 host pdu sequence_num_lsb (u8 (bit_and (u32 value) 0xff))

  unfoldable pub set_ptp_grandmaster_identity_v0 : Memory → ℕ → Memory
  set_ptp_grandmaster_identity_v0 pdu value =
      AlternativeHeader.set_ptp_grandmaster_identity_v0 host pdu value

  unfoldable pub set_stream_id_v0 : Memory → ℕ → Memory
  set_stream_id_v0 pdu value = set_field_v0 host pdu stream_id value
