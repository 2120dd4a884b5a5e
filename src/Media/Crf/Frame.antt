-- ===== src/Media/Crf/Frame.antt =====
-- include/avtp/Crf.h: payload, initialisation and validity.
use open_lib.Common.{
  Bool, Option, false, if◌then◌else◌, ltb, none, not, some, true, u16, u8, ℕ, ◌%◌, ◌+◌, ◌==◌, ◌||◌,
}
use mathlib.Core.Option
use open_lib.Memory.{Endian, Memory, memcpy, memset}
use open_lib.Header.AlternativeHeader
use open_lib.Header.CommonHeader
use open_lib.Media.Crf.Access.{get_crf_data_length, set_sv}
use open_lib.Media.Crf.Fields.{get_header_len, header_len_v0, header_len_v1, supported_versions}

module _ (host : Endian) where
  unfoldable pub get_payload_v0 : Memory → ℕ
  get_payload_v0 pdu = header_len_v0

  unfoldable pub get_payload_v1 : Memory → ℕ
  get_payload_v1 pdu = header_len_v1

  unfoldable pub get_payload : Memory → ℕ
  get_payload pdu =
      if AlternativeHeader.get_version host pdu == 1 then get_payload_v1 pdu else get_payload_v0 pdu

  unfoldable pub set_payload_v0 : Memory → Memory → ℕ → Memory
  set_payload_v0 pdu payload payload_length =
      memcpy pdu header_len_v0 payload 0 (u16 payload_length)

  unfoldable pub set_payload_v1 : Memory → Memory → ℕ → Memory
  set_payload_v1 pdu payload payload_length =
      memcpy pdu header_len_v1 payload 0 (u16 payload_length)

  unfoldable pub set_payload : Memory → Memory → ℕ → Memory
  set_payload pdu payload payload_length =
      if AlternativeHeader.get_version host pdu == 1
      then set_payload_v1 pdu payload (u16 payload_length)
      else set_payload_v0 pdu payload (u16 payload_length)

  -- `Avtp_Crf_InitV0` of a PDU that is not NULL.
  unfoldable pub init_v0_present : Memory → Memory
  init_v0_present pdu =
      let pdu1 = memset pdu 0 0 header_len_v0 in
      let pdu2 = CommonHeader.set_subtype host pdu1 4 in set_sv host pdu2 true

  unfoldable pub init_v0 : Option Memory → Option Memory
  init_v0 pdu = Option.map init_v0_present pdu

  -- `Avtp_Crf_InitV1` of a PDU that is not NULL.
  unfoldable pub init_v1_present : Memory → Memory
  init_v1_present pdu =
      let pdu1 = memset pdu 0 0 header_len_v1 in
      let pdu2 = CommonHeader.set_subtype host pdu1 4 in
      let pdu3 = CommonHeader.set_version host pdu2 1 in set_sv host pdu3 true

  unfoldable pub init_v1 : Option Memory → Option Memory
  init_v1 pdu = Option.map init_v1_present pdu

  unfoldable pub is_valid : Option Memory → ℕ → Bool
  is_valid none buffer_size = false
  is_valid (some pdu) buffer_size =
      if not (CommonHeader.get_subtype host pdu == 4)
      then false
      else (let version = AlternativeHeader.get_version host pdu in
          if not (CommonHeader.is_supported supported_versions version)
          then false
          else (let header_len = get_header_len host pdu in
              if ltb buffer_size header_len
              then false
              else (let crf_data_length_value = get_crf_data_length host pdu in
                  if crf_data_length_value == 0 || not ((crf_data_length_value % 8) == 0)
                  then false
                  else if ltb buffer_size (header_len + crf_data_length_value)
                  then false
                  else true)))

  unfoldable pub init : Option Memory → ℕ → Option Memory
  init pdu version = if u8 version == 1 then init_v1 pdu else init_v0 pdu
