-- ===== src/Media/Pcm/Frame.antt =====
-- include/avtp/aaf/Pcm.h: payload, initialisation and validity.
use open_lib.Common.{
  Bool, Option, false, if◌then◌else◌, ltb, none, not, some, true, u16, u8, ℕ, ◌==◌,
}
use mathlib.Core.Option
use open_lib.Memory.{Endian, Memory, memcpy, memset}
use open_lib.Header.CommonHeader
use open_lib.Header.CommonStreamHeader
use open_lib.Media.Aaf
use open_lib.Media.Pcm.Access.{get_bit_depth, get_channels_per_frame, get_format, set_sv}
use open_lib.Media.Pcm.Fields.{header_len_v0, header_len_v1}

module _ (host : Endian) where
  unfoldable pub get_payload_v0 : Memory → ℕ
  get_payload_v0 pdu = header_len_v0

  unfoldable pub get_payload_v1 : Memory → ℕ
  get_payload_v1 pdu = header_len_v1

  unfoldable pub get_payload : Memory → ℕ
  get_payload pdu =
      if CommonStreamHeader.get_version host pdu == 1
      then get_payload_v1 pdu
      else get_payload_v0 pdu

  unfoldable pub set_payload_v0 : Memory → Memory → ℕ → Memory
  set_payload_v0 pdu payload payload_length =
      memcpy pdu header_len_v0 payload 0 (u16 payload_length)

  unfoldable pub set_payload_v1 : Memory → Memory → ℕ → Memory
  set_payload_v1 pdu payload payload_length =
      memcpy pdu header_len_v1 payload 0 (u16 payload_length)

  unfoldable pub set_payload : Memory → Memory → ℕ → Memory
  set_payload pdu payload payload_length =
      if CommonStreamHeader.get_version host pdu == 1
      then set_payload_v1 pdu payload (u16 payload_length)
      else set_payload_v0 pdu payload (u16 payload_length)

  -- `Avtp_Pcm_InitV0` of a PDU that is not NULL.
  unfoldable pub init_v0_present : Memory → Memory
  init_v0_present pdu =
      let pdu1 = memset pdu 0 0 header_len_v0 in
      let pdu2 = CommonHeader.set_subtype host pdu1 2 in set_sv host pdu2 true

  unfoldable pub init_v0 : Option Memory → Option Memory
  init_v0 pdu = Option.map init_v0_present pdu

  -- `Avtp_Pcm_InitV1` of a PDU that is not NULL.
  unfoldable pub init_v1_present : Memory → Memory
  init_v1_present pdu =
      let pdu1 = memset pdu 0 0 header_len_v1 in
      let pdu2 = CommonHeader.set_subtype host pdu1 2 in
      let pdu3 = CommonHeader.set_version host pdu2 1 in set_sv host pdu3 true

  unfoldable pub init_v1 : Option Memory → Option Memory
  init_v1 pdu = Option.map init_v1_present pdu

  -- The `switch` of `Avtp_Pcm_IsValid`: the sample container of each format bounds the bit depth.
  unfoldable pub bit_depth_fits : ℕ → ℕ → Bool
  bit_depth_fits format bit_depth =
      if format == 0
      then true
      else if format == 1
      then bit_depth == 32
      else if format == 2
      then not (ltb 32 bit_depth)
      else if format == 3
      then not (ltb 24 bit_depth)
      else if format == 4
      then not (ltb 16 bit_depth)
      else false

  unfoldable pub is_valid : Option Memory → ℕ → Bool
  is_valid none buffer_size = Aaf.is_valid host none buffer_size
  is_valid (some pdu) buffer_size =
      if not (Aaf.is_valid host (some pdu) buffer_size)
      then false
      else if ltb 4 (get_format host pdu)
      then false
      else if get_channels_per_frame host pdu == 0
      then false
      else if get_bit_depth host pdu == 0
      then false
      else bit_depth_fits (get_format host pdu) (get_bit_depth host pdu)

  unfoldable pub init : Option Memory → ℕ → Option Memory
  init pdu version = if u8 version == 1 then init_v1 pdu else init_v0 pdu
