-- ===== src/Control/Ntscf/Access.antt =====
-- include/avtp/acf/Ntscf.h: the accessors that dispatch on the version.
use open_lib.Common.{Bool, bit_and, bit_num, if◌then◌else◌, to_bool, u16, u32, u8, ℕ, ◌==◌}
use open_lib.Memory.{Endian, Memory}
use open_lib.Header.AlternativeHeader
use open_lib.Control.Ntscf.Fields.{
  get_field, get_field_v0, get_field_v1, ntscf_data_length, ptp_grandmaster_identity, sequence_num,
  sequence_num_lsb, set_field, set_field_v0, set_field_v1, stream_id, sv,
}

module _ (host : Endian) where
  unfoldable pub is_sv : Memory → Bool
  is_sv pdu = to_bool (get_field host pdu sv)

  unfoldable pub get_ntscf_data_length : Memory → ℕ
  get_ntscf_data_length pdu = u16 (get_field host pdu ntscf_data_length)

  unfoldable pub get_sequence_num : Memory → ℕ
  get_sequence_num pdu =
      if AlternativeHeader.get_version host pdu == 1
      then u32 (get_field_v1 host pdu sequence_num)
      else u8 (get_field_v0 host pdu sequence_num_lsb)

  unfoldable pub get_sequence_num_lsb : Memory → ℕ
  get_sequence_num_lsb pdu = u8 (get_field host pdu sequence_num_lsb)

  unfoldable pub get_ptp_grandmaster_identity : Memory → ℕ
  get_ptp_grandmaster_identity pdu = get_field host pdu ptp_grandmaster_identity

  unfoldable pub get_stream_id : Memory → ℕ
  get_stream_id pdu = get_field host pdu stream_id

  unfoldable pub set_sv : Memory → Bool → Memory
  set_sv pdu flag = set_field host pdu sv (bit_num flag)

  unfoldable pub set_ntscf_data_length : Memory → ℕ → Memory
  set_ntscf_data_length pdu value = set_field host pdu ntscf_data_length (u16 value)

  unfoldable pub set_sequence_num : Memory → ℕ → Memory
  set_sequence_num pdu value =
      if AlternativeHeader.get_version host pdu == 1
      then (let pdu1 = set_field_v1 host pdu sequence_num (u32 value) in
          set_field_v1 host pdu1 sequence_num_lsb (u8 (bit_and (u32 value) 0xff)))
      else set_field_v0 host pdu sequence_num_lsb (u8 (bit_and (u32 value) 0xff))

  unfoldable pub set_ptp_grandmaster_identity : Memory → ℕ → Memory
  set_ptp_grandmaster_identity pdu value = set_field host pdu ptp_grandmaster_identity value

  unfoldable pub set_stream_id : Memory → ℕ → Memory
  set_stream_id pdu value = set_field host pdu stream_id value
