-- ===== src/Media/Valid.antt =====
-- `IsValid` of AAF, AAF PCM, CVF, RVF and CRF: include/avtp/aaf, include/avtp/cvf, Rvf.h and Crf.h.
use open_lib.Common.{ℕ, ◌+◌, ◌%◌, ◌≤◌, ◌<◌, ◌≡◌, ◌≢◌, ◌↔◌, arith, true, some, if◌then◌else◌, ◌==◌}
use open_lib.Memory.{Memory, Endian}
use open_lib.Header.CommonHeader
use open_lib.Header.CommonStreamHeader
use open_lib.Header.AlternativeHeader
use open_lib.Header.Supported.{supported}
use open_lib.Media.Aaf
use open_lib.Media.Pcm
use open_lib.Media.Cvf
use open_lib.Media.Rvf
use open_lib.Media.Crf

module _ (host : Endian) (m : Memory) (buffer_size : ℕ) where
  -- A header of the stream formats with the given subtype and declared data length fits the buffer.
  abbrev pub StreamFits : ℕ → ℕ → Type 0
  StreamFits subtype data_length =
      (CommonHeader.get_subtype host m ≡ subtype)
      × (CommonHeader.get_version host m < 2)
      × ((if CommonHeader.get_version host m == 1 then 40 else 24) + data_length ≤ buffer_size)

  aaf_is_valid_iff :
      (Aaf.is_valid host (some m) buffer_size ≡ true)
      ↔ StreamFits 2 (Aaf.get_stream_data_length host m)
  unfolding Aaf.is_valid CommonStreamHeader.get_version CommonStreamHeader.get_header_len
      CommonStreamHeader.get_header_len_v0 CommonStreamHeader.get_header_len_v1 Aaf.get_header_len
      Aaf.get_header_len_v0 Aaf.get_header_len_v1
  aaf_is_valid_iff = ground (arith, supported host m)

  cvf_is_valid_iff :
      (Cvf.is_valid host (some m) buffer_size ≡ true)
      ↔ StreamFits 3 (Cvf.get_stream_data_length host m)
  unfolding Cvf.is_valid CommonStreamHeader.get_version CommonStreamHeader.get_header_len
      CommonStreamHeader.get_header_len_v0 CommonStreamHeader.get_header_len_v1 Cvf.get_header_len
      Cvf.get_header_len_v0 Cvf.get_header_len_v1
  cvf_is_valid_iff = ground (arith, supported host m)

  rvf_is_valid_iff :
      (Rvf.is_valid host (some m) buffer_size ≡ true)
      ↔ StreamFits 7 (Rvf.get_stream_data_length host m) × (8 ≤ Rvf.get_stream_data_length host m)
  unfolding Rvf.is_valid CommonStreamHeader.get_version Rvf.get_header_len Rvf.get_header_len_v0
      Rvf.get_header_len_v1
  rvf_is_valid_iff = ground (arith, supported host m)

  crf_is_valid_iff :
      (Crf.is_valid host (some m) buffer_size ≡ true)
      ↔ (CommonHeader.get_subtype host m ≡ 4)
        × (CommonHeader.get_version host m < 2)
        × ((if CommonHeader.get_version host m == 1 then 36 else 20)
              + Crf.get_crf_data_length host m
            ≤ buffer_size)
        × (Crf.get_crf_data_length host m ≢ 0)
        × (Crf.get_crf_data_length host m % 8 ≡ 0)
  unfolding Crf.is_valid AlternativeHeader.get_version Crf.get_header_len Crf.get_header_len_v0
      Crf.get_header_len_v1
  crf_is_valid_iff = ground (arith, supported host m)

  -- The media formats accept a PDU exactly when it has their subtype, version 0 or 1, and a header that
  -- fits in the buffer together with the data length that it declares. RVF moreover wants the 8 bytes
  -- of its raw header in the data, and CRF a data length that is a multiple of 8 and not 0.
  pub media_is_valid_iff :
      ((Aaf.is_valid host (some m) buffer_size ≡ true)
        ↔ StreamFits 2 (Aaf.get_stream_data_length host m))
      × ((Cvf.is_valid host (some m) buffer_size ≡ true)
          ↔ StreamFits 3 (Cvf.get_stream_data_length host m))
      × ((Rvf.is_valid host (some m) buffer_size ≡ true)
          ↔ StreamFits 7 (Rvf.get_stream_data_length host m)
            × (8 ≤ Rvf.get_stream_data_length host m))
      × ((Crf.is_valid host (some m) buffer_size ≡ true)
          ↔ (CommonHeader.get_subtype host m ≡ 4)
            × (CommonHeader.get_version host m < 2)
            × ((if CommonHeader.get_version host m == 1 then 36 else 20)
                  + Crf.get_crf_data_length host m
                ≤ buffer_size)
            × (Crf.get_crf_data_length host m ≢ 0)
            × (Crf.get_crf_data_length host m % 8 ≡ 0))
  media_is_valid_iff = (aaf_is_valid_iff, cvf_is_valid_iff, rvf_is_valid_iff, crf_is_valid_iff)

  -- `Avtp_Pcm_IsValid` accepts a PDU exactly when `Avtp_Aaf_IsValid` does, the format is one of the five
  -- PCM formats, neither the channels per frame nor the bit depth is 0, and the bit depth is 32 for
  -- samples in floating point and at most 32, 24 or 16 for integers of that size.
  pub pcm_is_valid_iff :
      (Pcm.is_valid host (some m) buffer_size ≡ true)
      ↔ (Aaf.is_valid host (some m) buffer_size ≡ true)
        × (Pcm.get_format host m ≤ 4)
        × (Pcm.get_channels_per_frame host m ≢ 0)
        × (Pcm.get_bit_depth host m ≢ 0)
        × (Pcm.get_format host m ≡ 1 → Pcm.get_bit_depth host m ≡ 32)
        × (Pcm.get_format host m ≡ 2 → Pcm.get_bit_depth host m ≤ 32)
        × (Pcm.get_format host m ≡ 3 → Pcm.get_bit_depth host m ≤ 24)
        × (Pcm.get_format host m ≡ 4 → Pcm.get_bit_depth host m ≤ 16)
  unfolding Pcm.is_valid Pcm.bit_depth_fits
  pcm_is_valid_iff = ground arith
