-- ===== src/Control/Valid.antt =====
-- `Avtp_Tscf_IsValid` and `Avtp_Ntscf_IsValid` of include/avtp/acf.
use open_lib.Common.{
  ℕ, ◌+◌, ◌≤◌, ◌<◌, ◌≡◌, ◌↔◌, refl, arith, true, false, some, none, if◌then◌else◌, ◌==◌,
}
use open_lib.Memory.{Memory, Endian}
use open_lib.Header.CommonHeader
use open_lib.Header.CommonStreamHeader
use open_lib.Header.AlternativeHeader
use open_lib.Header.Supported.{supported}
use open_lib.Control.Tscf
use open_lib.Control.Ntscf

module _ (host : Endian) (m : Memory) (buffer_size : ℕ) where
  tscf_is_valid_iff :
      (Tscf.is_valid host (some m) buffer_size ≡ true)
      ↔ (CommonHeader.get_subtype host m ≡ 5)
        × (CommonHeader.get_version host m < 2)
        × ((if CommonHeader.get_version host m == 1 then 40 else 24)
              + Tscf.get_stream_data_length host m
            ≤ buffer_size)
  unfolding Tscf.is_valid CommonStreamHeader.get_version CommonStreamHeader.get_header_len
      CommonStreamHeader.get_header_len_v0 CommonStreamHeader.get_header_len_v1
  tscf_is_valid_iff = ground (arith, supported host m)

  ntscf_is_valid_iff :
      (Ntscf.is_valid host (some m) buffer_size ≡ true)
      ↔ (CommonHeader.get_subtype host m ≡ 0x82)
        × (CommonHeader.get_version host m < 2)
        × ((if CommonHeader.get_version host m == 1 then 28 else 12)
              + Ntscf.get_ntscf_data_length host m
            ≤ buffer_size)
  unfolding Ntscf.is_valid AlternativeHeader.get_version Ntscf.get_header_len
      Ntscf.get_header_len_v0 Ntscf.get_header_len_v1
  ntscf_is_valid_iff = ground (arith, supported host m)

  -- `Avtp_Tscf_IsValid` accepts a PDU exactly when its subtype is that of TSCF, its version is 0 or 1,
  -- and the header of that version together with the stream data length that the header declares fits
  -- in the buffer; `Avtp_Ntscf_IsValid` does so with the subtype, the header lengths and the data
  -- length of NTSCF. Both refuse NULL.
  pub control_is_valid_iff :
      ((Tscf.is_valid host (some m) buffer_size ≡ true)
        ↔ (CommonHeader.get_subtype host m ≡ 5)
          × (CommonHeader.get_version host m < 2)
          × ((if CommonHeader.get_version host m == 1 then 40 else 24)
                + Tscf.get_stream_data_length host m
              ≤ buffer_size))
      × ((Ntscf.is_valid host (some m) buffer_size ≡ true)
          ↔ (CommonHeader.get_subtype host m ≡ 0x82)
            × (CommonHeader.get_version host m < 2)
            × ((if CommonHeader.get_version host m == 1 then 28 else 12)
                  + Ntscf.get_ntscf_data_length host m
                ≤ buffer_size))
      × (Tscf.is_valid host none buffer_size ≡ false)
      × (Ntscf.is_valid host none buffer_size ≡ false)
  unfolding Tscf.is_valid Ntscf.is_valid
  control_is_valid_iff = (tscf_is_valid_iff, ntscf_is_valid_iff, refl, refl)
