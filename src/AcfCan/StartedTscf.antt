-- ===== src/AcfCan/StartedTscf.antt =====
-- The TSCF headers as `init_cf_pdu` of examples/acf-can/acf-can-common.c fills them.
use open_lib.Common.{
  ℕ, ◌≡◌, ◌∙◌, arith, true, false, ◌==◌, if◌then◌else◌, u8, u32, u64, bit_and, bit_and_field,
  bit_num,
}
use open_lib.Memory.{Memory, Endian, memset}
use open_lib.Utils.{set_in, descriptor_at}
use open_lib.Header.CommonHeader
use open_lib.Header.CommonStreamHeader
use open_lib.Header.Formats.{tscf-IsVersioned}
use open_lib.Header.Named.{get_version-named, get_version-set_version}
use open_lib.Header.Holds.{Holds, set-Holds}
use open_lib.Control.Tscf
use open_lib.AcfCan.{init_cf_pdu, ControlFormat}
use open_lib.AcfCan.Started.{named-Holds, versioned-Holds}

module _ (host : Endian) (m : Memory) (stream_id seq_num : ℕ) where
  tscf_v1_lem :
      Tscf.init_v1_present host m
      ≡ set_in host Tscf.table_v1 14
          (CommonHeader.set_version host (CommonHeader.set_subtype host (memset m 0 0 40) 0x5) 1)
          0
          (u64 (bit_num true))
  unfolding Tscf.init_v1_present Tscf.set_sv Tscf.set_field Tscf.set_field_v1 Tscf.index
      CommonStreamHeader.get_version
  tscf_v1_lem =
      let version =
        get_version-set_version host (CommonHeader.set_subtype host (memset m 0 0 40) 0x5) 1 in
      rw version

  -- The values of the fields of TSCF.
  pub tscf_v1-Holds :
      Holds host Tscf.table_v1 1 0x5
        (λ j.
          if j == 8
          then u64 stream_id
          else if j == 5
          then u8 seq_num
          else if j == 4
          then u32 seq_num
          else if j == 0
          then 1
          else 0)
        (init_cf_pdu host m stream_id ControlFormat.tscf_v1 seq_num).0
  unfolding init_cf_pdu Tscf.set_tu_v1 Tscf.set_sequence_num_v1 Tscf.set_stream_id_v1
      Tscf.set_field_v1 Tscf.index CommonStreamHeader.set_tu_v1 CommonStreamHeader.set_stream_id_v1
      CommonStreamHeader.set_field_v1 CommonStreamHeader.index set_in descriptor_at
  tscf_v1-Holds =
      let h0 =
        versioned-Holds host m tscf-IsVersioned.is_table_v1 tscf-IsVersioned.identity_apart_v1
          (omega arith) 0x5 (omega arith) in
      let h1 =
        set-Holds host tscf-IsVersioned.is_table_v1 tscf-IsVersioned.apart_v1 h0 0
          (u64 (bit_num true)) in
      let h2 =
        set-Holds host tscf-IsVersioned.is_table_v1 tscf-IsVersioned.apart_v1 h1 7
          (u64 (bit_num false)) in
      let h3 =
        set-Holds host tscf-IsVersioned.is_table_v1 tscf-IsVersioned.apart_v1 h2 4
          (u64 (u32 seq_num)) in
      let h4 =
        set-Holds host tscf-IsVersioned.is_table_v1 tscf-IsVersioned.apart_v1 h3 5
          (u64 (u8 (bit_and (u32 seq_num) 0xff))) in
      let h5 =
        set-Holds host tscf-IsVersioned.is_table_v1 tscf-IsVersioned.apart_v1 h4 8
          (u64 stream_id) in
      let cut = bit_and_field 8 0 (u32 seq_num) in
      rw tscf_v1_lem (record {
        version_is = h5.version_is;
        subtype_is = h5.subtype_is;
        field_is = λ j. h5.field_is j ∙ ground (arith, cut);
      })

  tscf_v0_lem :
      Tscf.init_v0_present host m
      ≡ set_in host Tscf.table_v0 14
          (CommonHeader.set_subtype host (memset m 0 0 24) 0x5)
          0
          (u64 (bit_num true))
  unfolding Tscf.init_v0_present Tscf.set_sv Tscf.set_field Tscf.set_field_v0 Tscf.index
      CommonStreamHeader.get_version
  tscf_v0_lem =
      let version =
        get_version-named host m tscf-IsVersioned.is_table_v0 tscf-IsVersioned.identity_apart_v0
          (omega arith) 0x5 in
      rw version

  pub tscf_v0-Holds :
      Holds host Tscf.table_v0 0 0x5
        (λ j.
          if j == 8 then u64 stream_id else if j == 4 then u8 seq_num else if j == 0 then 1 else 0)
        (init_cf_pdu host m stream_id ControlFormat.tscf_v0 seq_num).0
  unfolding init_cf_pdu Tscf.set_tu_v0 Tscf.set_sequence_num_v0 Tscf.set_stream_id_v0
      Tscf.set_field_v0 Tscf.index CommonStreamHeader.set_tu_v0 CommonStreamHeader.set_stream_id_v0
      CommonStreamHeader.set_field_v0 CommonStreamHeader.index set_in descriptor_at
  tscf_v0-Holds =
      let h0 =
        named-Holds host m tscf-IsVersioned.is_table_v0 tscf-IsVersioned.identity_apart_v0
          (omega arith) 0x5 (omega arith) in
      let h1 =
        set-Holds host tscf-IsVersioned.is_table_v0 tscf-IsVersioned.apart_v0 h0 0
          (u64 (bit_num true)) in
      let h2 =
        set-Holds host tscf-IsVersioned.is_table_v0 tscf-IsVersioned.apart_v0 h1 7
          (u64 (bit_num false)) in
      let h3 =
        set-Holds host tscf-IsVersioned.is_table_v0 tscf-IsVersioned.apart_v0 h2 4
          (u64 (u32 seq_num)) in
      let h4 =
        set-Holds host tscf-IsVersioned.is_table_v0 tscf-IsVersioned.apart_v0 h3 8
          (u64 stream_id) in
      let cut = bit_and_field 8 0 (u32 seq_num) in
      rw tscf_v0_lem (record {
        version_is = h4.version_is;
        subtype_is = h4.subtype_is;
        field_is = λ j. h4.field_is j ∙ ground (arith, cut);
      })
