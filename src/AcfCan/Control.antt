-- ===== src/AcfCan/Control.antt =====
-- The control format header as `avtp_to_can` of examples/acf-can/acf-can-common.c accepts it.
use open_lib.Common.{ℕ, ◌+◌, ◌≤◌, ◌<◌, ◌≡◌, ◌⊎◌, arith, true, some, ℕ_discrete}
use open_lib.Memory.{Memory, Endian}
use open_lib.Utils.{get_in, descriptor_at}
use open_lib.Header.CommonHeader
use open_lib.Header.CommonStreamHeader
use open_lib.Header.AlternativeHeader
use open_lib.Header.Supported.{supported}
use open_lib.Control.Tscf
use open_lib.Control.Ntscf
use open_lib.Control.Valid.{control_is_valid_iff}
use open_lib.AcfCan.Stream.{ControlInfo, read_control, read_tscf, read_ntscf}

module _ (host : Endian) (cf_pdu : Memory) (received : ℕ) where
  -- The length that the function reads for its version is the one that `IsValid` has checked.
  read_tscf-fits :
      Tscf.is_valid host (some cf_pdu) received ≡ true
      → (read_tscf host cf_pdu).header_len + (read_tscf host cf_pdu).data_length ≤ received
  unfolding read_tscf CommonStreamHeader.get_version Tscf.get_header_len_v0 Tscf.get_header_len_v1
      Tscf.get_stream_data_length Tscf.get_stream_data_length_v0 Tscf.get_stream_data_length_v1
      Tscf.get_field Tscf.get_field_v0 Tscf.get_field_v1
      CommonStreamHeader.get_stream_data_length_v0 CommonStreamHeader.get_stream_data_length_v1
      CommonStreamHeader.get_field_v0 CommonStreamHeader.get_field_v1 Tscf.index
      CommonStreamHeader.index get_in descriptor_at
  read_tscf-fits valid = elim (ℕ_discrete (CommonHeader.get_version host cf_pdu) 1) [
    | yes new ↦ ground (arith, valid, (control_is_valid_iff host cf_pdu received).0, new)
    | no old ↦ ground (arith, valid, (control_is_valid_iff host cf_pdu received).0, old)
  ]

  read_ntscf-fits :
      Ntscf.is_valid host (some cf_pdu) received ≡ true
      → (read_ntscf host cf_pdu).header_len + (read_ntscf host cf_pdu).data_length ≤ received
  unfolding read_ntscf AlternativeHeader.get_version Ntscf.get_header_len_v0 Ntscf.get_header_len_v1
      Ntscf.get_ntscf_data_length Ntscf.get_ntscf_data_length_v0 Ntscf.get_ntscf_data_length_v1
      Ntscf.get_field Ntscf.get_field_v0 Ntscf.get_field_v1
  read_ntscf-fits valid = elim (ℕ_discrete (CommonHeader.get_version host cf_pdu) 1) [
    | yes new ↦ ground (arith, valid, (control_is_valid_iff host cf_pdu received).1, new)
    | no old ↦ ground (arith, valid, (control_is_valid_iff host cf_pdu received).1, old)
  ]

  -- Where `avtp_to_can` goes on with a control format header, the PDU has the subtype of TSCF or NTSCF
  -- and version 0 or 1, and the header together with the data length that was read from it lies within
  -- the bytes received.
  pub read_control-fits :
      (info : ControlInfo)
      → read_control host cf_pdu received ≡ some info
      → ((CommonHeader.get_subtype host cf_pdu ≡ 5) ⊎ (CommonHeader.get_subtype host cf_pdu ≡ 0x82))
        × (CommonHeader.get_version host cf_pdu < 2)
        × (info.header_len + info.data_length ≤ received)
  unfolding read_control CommonStreamHeader.get_version AlternativeHeader.get_version
  read_control-fits info e =
      ground (arith, read_tscf-fits, read_ntscf-fits, supported host cf_pdu, e)
