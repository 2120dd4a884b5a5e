-- ===== src/AcfCan/StartedNtscf.antt =====
-- The NTSCF headers as `init_cf_pdu` of examples/acf-can/acf-can-common.c fills them.
use open_lib.Common.{
  ℕ, ◌≡◌, ◌∙◌, arith, true, ◌==◌, if◌then◌else◌, u8, u32, u64, bit_and, bit_and_field, bit_num,
}
use open_lib.Memory.{Memory, Endian, memset}
use open_lib.Utils.{set_in, descriptor_at}
use open_lib.Header.CommonHeader
use open_lib.Header.AlternativeHeader
use open_lib.Header.Formats.{ntscf-IsVersioned}
use open_lib.Header.Named.{get_version-named, get_version-set_version}
use open_lib.Header.Holds.{Holds, set-Holds}
use open_lib.Control.Ntscf
use open_lib.AcfCan.{init_cf_pdu, ControlFormat}
use open_lib.AcfCan.Started.{named-Holds, versioned-Holds}

module _ (host : Endian) (m : Memory) (stream_id seq_num : ℕ) where
  ntscf_v1_lem :
      Ntscf.init_v1_present host m
      ≡ set_in host Ntscf.table_v1 9
          (CommonHeader.set_version host (CommonHeader.set_subtype host (memset m 0 0 28) 0x82) 1)
          3
          (u64 (bit_num true))
  unfolding Ntscf.init_v1_present Ntscf.set_sv Ntscf.set_field Ntscf.set_field_v1 Ntscf.index
      AlternativeHeader.get_version
  ntscf_v1_lem =
      let version =
        get_version-set_version host (CommonHeader.set_subtype host (memset m 0 0 28) 0x82) 1 in
      rw version

  -- The values of the fields of NTSCF.
  pub ntscf_v1-Holds :
      Holds host Ntscf.table_v1 1 0x82
        (λ j.
          if j == 8
          then u64 stream_id
          else if j == 7
          then u8 seq_num
          else if j == 1
          then u32 seq_num
          else if j == 3
          then 1
          else 0)
        (init_cf_pdu host m stream_id ControlFormat.ntscf_v1 seq_num).0
  unfolding init_cf_pdu Ntscf.set_sequence_num_v1 Ntscf.set_stream_id_v1 Ntscf.set_field_v1
      Ntscf.index descriptor_at
  ntscf_v1-Holds =
      let h0 =
        versioned-Holds host m ntscf-IsVersioned.is_table_v1 ntscf-IsVersioned.identity_apart_v1
          (omega arith) 0x82 (omega arith) in
      let h1 =
        set-Holds host ntscf-IsVersioned.is_table_v1 ntscf-IsVersioned.apart_v1 h0 3
          (u64 (bit_num true)) in
      let h2 =
        set-Holds host ntscf-IsVersioned.is_table_v1 ntscf-IsVersioned.apart_v1 h1 1
          (u64 (u32 seq_num)) in
      let h3 =
        set-Holds host ntscf-IsVersioned.is_table_v1 ntscf-IsVersioned.apart_v1 h2 7
          (u64 (u8 (bit_and (u32 seq_num) 0xff))) in
      let h4 =
        set-Holds host ntscf-IsVersioned.is_table_v1 ntscf-IsVersioned.apart_v1 h3 8
          (u64 stream_id) in
      let cut = bit_and_field 8 0 (u32 seq_num) in
      rw ntscf_v1_lem (record {
        version_is = h4.version_is;
        subtype_is = h4.subtype_is;
        field_is = λ j. h4.field_is j ∙ ground (arith, cut);
      })

  ntscf_v0_lem :
      Ntscf.init_v0_present host m
      ≡ set_in host Ntscf.table_v0 9
          (CommonHeader.set_subtype host (memset m 0 0 12) 0x82)
          3
          (u64 (bit_num true))
  unfolding Ntscf.init_v0_present Ntscf.set_sv Ntscf.set_field Ntscf.set_field_v0 Ntscf.index
      AlternativeHeader.get_version
  ntscf_v0_lem =
      let version =
        get_version-named host m ntscf-IsVersioned.is_table_v0 ntscf-IsVersioned.identity_apart_v0
          (omega arith) 0x82 in
      rw version

  pub ntscf_v0-Holds :
      Holds host Ntscf.table_v0 0 0x82
        (λ j.
          if j == 8 then u64 stream_id else if j == 7 then u8 seq_num else if j == 3 then 1 else 0)
        (init_cf_pdu host m stream_id ControlFormat.ntscf_v0 seq_num).0
  unfolding init_cf_pdu Ntscf.set_sequence_num_v0 Ntscf.set_stream_id_v0 Ntscf.set_field_v0
      Ntscf.index descriptor_at
  ntscf_v0-Holds =
      let h0 =
        named-Holds host m ntscf-IsVersioned.is_table_v0 ntscf-IsVersioned.identity_apart_v0
          (omega arith) 0x82 (omega arith) in
      let h1 =
        set-Holds host ntscf-IsVersioned.is_table_v0 ntscf-IsVersioned.apart_v0 h0 3
          (u64 (bit_num true)) in
      let h2 =
        set-Holds host ntscf-IsVersioned.is_table_v0 ntscf-IsVersioned.apart_v0 h1 7
          (u64 (u8 (bit_and (u32 seq_num) 0xff))) in
      let h3 =
        set-Holds host ntscf-IsVersioned.is_table_v0 ntscf-IsVersioned.apart_v0 h2 8
          (u64 stream_id) in
      let cut = bit_and_field 8 0 (u32 seq_num) in
      rw ntscf_v0_lem (record {
        version_is = h3.version_is;
        subtype_is = h3.subtype_is;
        field_is = λ j. h3.field_is j ∙ ground (arith, cut);
      })
