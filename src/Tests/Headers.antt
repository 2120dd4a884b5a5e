-- ===== src/Tests/Headers.antt =====
-- The headers with two versions at concrete inputs: TSCF, NTSCF and the media formats.
use open_lib.Common.{
  ℕ, ◌+◌, ◌*◌, ◌%◌, ◌^◌, ◌≤◌, ◌<◌, ◌≡◌, ◌≢◌, ◌↔◌, true, false, some, none, u64, if◌then◌else◌, ◌==◌,
}
use open_lib.Memory.{Memory, little, big, load8}
use open_lib.Header.CommonHeader
use open_lib.Header.Versioned.{field_bits, get_field-set_field, set_field-keeps}
use open_lib.Header.Formats.{tscf-IsVersioned, ntscf-IsVersioned}
use open_lib.Header.Init.{init-IsStarted, IsStarted}
use open_lib.Header.InitFormats.{cvf-IsInit}
use open_lib.Header.Formats.{cvf-IsVersioned}
use open_lib.Control.Tscf
use open_lib.Control.Ntscf
use open_lib.Control.Valid.{control_is_valid_iff}
use open_lib.Control.Sequence.{get_sequence_num-set_sequence_num}
use open_lib.Media.Aaf
use open_lib.Media.Cvf
use open_lib.Media.Rvf
use open_lib.Media.Crf
use open_lib.Media.Pcm
use open_lib.Media.Valid.{StreamFits, media_is_valid_iff, pcm_is_valid_iff}

abbrev sample : Memory
sample a = a * 73 + 29

get_field-set_field_example :
    Tscf.get_field little
      (Tscf.set_field little sample Tscf.stream_id 0x1122334455667788)
      Tscf.stream_id
    ≡ (if 8 == 8
        then u64 0x1122334455667788 % 2 ^ field_bits little tscf-IsVersioned sample Tscf.stream_id
        else Tscf.get_field little sample Tscf.stream_id)
unfolding Tscf.index
get_field-set_field_example =
    get_field-set_field little tscf-IsVersioned sample Tscf.stream_id Tscf.stream_id
      0x1122334455667788

set_field-keeps_example :
    (CommonHeader.get_version big (Ntscf.set_field big sample Ntscf.ntscf_data_length 300)
      ≡ CommonHeader.get_version big sample)
    × (CommonHeader.get_subtype big (Ntscf.set_field big sample Ntscf.ntscf_data_length 300)
        ≡ CommonHeader.get_subtype big sample)
    × ((a : ℕ)
        → (if CommonHeader.get_version big sample == 1 then 28 else 12) ≤ a
        → load8 (Ntscf.set_field big sample Ntscf.ntscf_data_length 300) a ≡ load8 sample a)
set_field-keeps_example = set_field-keeps big ntscf-IsVersioned sample Ntscf.ntscf_data_length 300

init-IsStarted_example :
    ((after : Memory) × (Cvf.init little (some sample) 1 ≡ some after)
      × IsStarted little cvf-IsVersioned cvf-IsInit sample 1 after)
    × (Cvf.init little none 1 ≡ none)
init-IsStarted_example = init-IsStarted little cvf-IsVersioned cvf-IsInit sample 1

control_is_valid_iff_example :
    ((Tscf.is_valid little (some sample) 100 ≡ true)
      ↔ (CommonHeader.get_subtype little sample ≡ 5)
        × (CommonHeader.get_version little sample < 2)
        × ((if CommonHeader.get_version little sample == 1 then 40 else 24)
              + Tscf.get_stream_data_length little sample
            ≤ 100))
    × ((Ntscf.is_valid little (some sample) 100 ≡ true)
        ↔ (CommonHeader.get_subtype little sample ≡ 0x82)
          × (CommonHeader.get_version little sample < 2)
          × ((if CommonHeader.get_version little sample == 1 then 28 else 12)
                + Ntscf.get_ntscf_data_length little sample
              ≤ 100))
    × (Tscf.is_valid little none 100 ≡ false)
    × (Ntscf.is_valid little none 100 ≡ false)
control_is_valid_iff_example = control_is_valid_iff little sample 100

get_sequence_num-set_sequence_num_example :
    (Tscf.get_sequence_num little (Tscf.set_sequence_num little sample 1000)
      ≡ (if CommonHeader.get_version little sample == 1 then 1000 % 2 ^ 32 else 1000 % 2 ^ 8))
    × (Tscf.get_sequence_num_lsb little (Tscf.set_sequence_num little sample 1000) ≡ 1000 % 2 ^ 8)
    × (Ntscf.get_sequence_num little (Ntscf.set_sequence_num little sample 1000)
        ≡ (if CommonHeader.get_version little sample == 1 then 1000 % 2 ^ 32 else 1000 % 2 ^ 8))
    × (Ntscf.get_sequence_num_lsb little (Ntscf.set_sequence_num little sample 1000) ≡ 1000 % 2 ^ 8)
get_sequence_num-set_sequence_num_example = get_sequence_num-set_sequence_num little sample 1000

media_is_valid_iff_example :
    ((Aaf.is_valid big (some sample) 64 ≡ true)
      ↔ StreamFits big sample 64 2 (Aaf.get_stream_data_length big sample))
    × ((Cvf.is_valid big (some sample) 64 ≡ true)
        ↔ StreamFits big sample 64 3 (Cvf.get_stream_data_length big sample))
    × ((Rvf.is_valid big (some sample) 64 ≡ true)
        ↔ StreamFits big sample 64 7 (Rvf.get_stream_data_length big sample)
          × (8 ≤ Rvf.get_stream_data_length big sample))
    × ((Crf.is_valid big (some sample) 64 ≡ true)
        ↔ (CommonHeader.get_subtype big sample ≡ 4)
          × (CommonHeader.get_version big sample < 2)
          × ((if CommonHeader.get_version big sample == 1 then 36 else 20)
                + Crf.get_crf_data_length big sample
              ≤ 64)
          × (Crf.get_crf_data_length big sample ≢ 0)
          × (Crf.get_crf_data_length big sample % 8 ≡ 0))
media_is_valid_iff_example = media_is_valid_iff big sample 64

pcm_is_valid_iff_example :
    (Pcm.is_valid little (some sample) 64 ≡ true)
    ↔ (Aaf.is_valid little (some sample) 64 ≡ true)
      × (Pcm.get_format little sample ≤ 4)
      × (Pcm.get_channels_per_frame little sample ≢ 0)
      × (Pcm.get_bit_depth little sample ≢ 0)
      × (Pcm.get_format little sample ≡ 1 → Pcm.get_bit_depth little sample ≡ 32)
      × (Pcm.get_format little sample ≡ 2 → Pcm.get_bit_depth little sample ≤ 32)
      × (Pcm.get_format little sample ≡ 3 → Pcm.get_bit_depth little sample ≤ 24)
      × (Pcm.get_format little sample ≡ 4 → Pcm.get_bit_depth little sample ≤ 16)
pcm_is_valid_iff_example = pcm_is_valid_iff little sample 64
