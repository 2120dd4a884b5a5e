-- ===== src/AcfCan/AcceptedTscf.antt =====
-- The control format headers of examples/acf-can/acf-can-common.c from `update_cf_length` to the tests
-- of `avtp_to_can`.
use open_lib.Common.{
  ℕ, ◌+◌, ◌-◌, ◌^◌, ◌≤◌, ◌<◌, ◌≡◌, ◌∙◌, arith, true, ◌==◌, if◌then◌else◌, some, u8, u16, u32, u64,
}
use open_lib.Memory.{Memory, Endian, load8}
use open_lib.Utils.{set_in, get_in, descriptor_at}
use open_lib.Utils.Table.{load8-set}
use open_lib.Header.CommonHeader
use open_lib.Header.CommonStreamHeader
use open_lib.Header.Supported.{supported}
use open_lib.Header.Formats.{tscf-IsVersioned}
use open_lib.Header.Holds.{Holds, set-Holds}
use open_lib.Control.Tscf
use open_lib.Control.Valid.{control_is_valid_iff}
use open_lib.AcfCan.{update_cf_length, ControlFormat}
use open_lib.AcfCan.Stream.{read_control, read_tscf}

module _ (host : Endian) (m : Memory) (stream_id seq_num : ℕ) (data_length received : ℕ) where
  module _
      (holds : Holds host Tscf.table_v1 1 0x5
        (λ j.
          if j == 8
          then u64 stream_id
          else if j == 5
          then u8 seq_num
          else if j == 4
          then u32 seq_num
          else if j == 0
          then 1
          else 0)
        m)
      (small : data_length < 2 ^ 11) where
    abbrev tscf_v1_sent : Memory
    tscf_v1_sent = update_cf_length host m (40 + data_length) ControlFormat.tscf_v1

    tscf_v1_write : tscf_v1_sent ≡ set_in host Tscf.table_v1 14 m 11 (u64 data_length)
    unfolding update_cf_length Tscf.set_stream_data_length_v1 Tscf.set_field_v1 Tscf.index
        Tscf.get_header_len_v1 CommonStreamHeader.set_stream_data_length_v1
        CommonStreamHeader.set_field_v1 CommonStreamHeader.index set_in descriptor_at
    tscf_v1_write =
        let e : u64 (40 + data_length + 2 ^ 64 - 40) ≡ data_length = omega arith in
        let e' : u16 data_length ≡ data_length = omega arith in rw (e, e', e', e')

    tscf_v1_Holds :
        Holds host Tscf.table_v1 1 0x5
          (λ j.
            if j == 11
            then data_length
            else if j == 8
            then u64 stream_id
            else if j == 5
            then u8 seq_num
            else if j == 4
            then u32 seq_num
            else if j == 0
            then 1
            else 0)
          tscf_v1_sent
    unfolding descriptor_at
    tscf_v1_Holds =
        let h =
          set-Holds host tscf-IsVersioned.is_table_v1 tscf-IsVersioned.apart_v1 holds 11
            (u64 data_length) in
        rw tscf_v1_write (record {
          version_is = h.version_is;
          subtype_is = h.subtype_is;
          field_is = λ j. h.field_is j ∙ ground arith;
        })

    tscf_v1_values :
        (Tscf.get_stream_data_length host tscf_v1_sent ≡ data_length)
        × (Tscf.get_stream_data_length_v1 host tscf_v1_sent ≡ data_length)
        × (Tscf.get_stream_id_v1 host tscf_v1_sent ≡ u64 stream_id)
        × (Tscf.get_sequence_num_v1 host tscf_v1_sent ≡ u32 seq_num)
    unfolding Tscf.get_stream_data_length Tscf.get_stream_data_length_v1 Tscf.get_stream_id_v1
        Tscf.get_sequence_num_v1 Tscf.get_field Tscf.get_field_v1 Tscf.index Tscf.get_header_len_v1
        CommonStreamHeader.get_version CommonStreamHeader.get_stream_data_length_v1
        CommonStreamHeader.get_stream_id_v1 CommonStreamHeader.get_sequence_num_v1
        CommonStreamHeader.get_field_v1 CommonStreamHeader.index get_in descriptor_at
    tscf_v1_values = (
      ground (arith, tscf_v1_Holds.version_is, tscf_v1_Holds.field_is 11),
      ground (arith, tscf_v1_Holds.field_is 11),
      ground (arith, tscf_v1_Holds.field_is 8),
      ground (arith, tscf_v1_Holds.field_is 4),
    )

    pub tscf_v1_accepted :
        40 + data_length ≤ received
        → read_control host tscf_v1_sent received
          ≡ some (record {
            header_len = 40;
            data_length = data_length;
            s_id = u64 stream_id;
            seq_num = u32 seq_num;
            seq_mask = 0xFFFFFFFF;
          })
    unfolding read_control read_tscf CommonStreamHeader.get_version Tscf.get_header_len_v1
    tscf_v1_accepted fits =
        let version = tscf_v1_Holds.version_is in
        let subtype = tscf_v1_Holds.subtype_is in
        let values = tscf_v1_values in
        let valid : Tscf.is_valid host (some tscf_v1_sent) received ≡ true =
          ground (
            arith,
            (control_is_valid_iff host tscf_v1_sent received).0,
            version,
            subtype,
            values,
          ) in
        let known : CommonHeader.is_supported Tscf.supported_versions 1 ≡ true =
          ground (arith, supported host tscf_v1_sent, version) in
        rw (subtype, valid, version, known, values.1, values.2, values.3)

    pub tscf_v1_behind : (a : ℕ) → 40 ≤ a → load8 tscf_v1_sent a ≡ load8 m a
    tscf_v1_behind a h =
        rw tscf_v1_write (load8-set host tscf-IsVersioned.is_table_v1 m 11 (u64 data_length) a h)

  module _
      (holds : Holds host Tscf.table_v0 0 0x5
        (λ j.
          if j == 8 then u64 stream_id else if j == 4 then u8 seq_num else if j == 0 then 1 else 0)
        m)
      (small : data_length < 2 ^ 11) where
    abbrev tscf_v0_sent : Memory
    tscf_v0_sent = update_cf_length host m (24 + data_length) ControlFormat.tscf_v0

    tscf_v0_write : tscf_v0_sent ≡ set_in host Tscf.table_v0 14 m 11 (u64 data_length)
    unfolding update_cf_length Tscf.set_stream_data_length_v0 Tscf.set_field_v0 Tscf.index
        Tscf.get_header_len_v0 CommonStreamHeader.set_stream_data_length_v0
        CommonStreamHeader.set_field_v0 CommonStreamHeader.index set_in descriptor_at
    tscf_v0_write =
        let e : u64 (24 + data_length + 2 ^ 64 - 24) ≡ data_length = omega arith in
        let e' : u16 data_length ≡ data_length = omega arith in rw (e, e', e', e')

    tscf_v0_Holds :
        Holds host Tscf.table_v0 0 0x5
          (λ j.
            if j == 11
            then data_length
            else if j == 8
            then u64 stream_id
            else if j == 4
            then u8 seq_num
            else if j == 0
            then 1
            else 0)
          tscf_v0_sent
    unfolding descriptor_at
    tscf_v0_Holds =
        let h =
          set-Holds host tscf-IsVersioned.is_table_v0 tscf-IsVersioned.apart_v0 holds 11
            (u64 data_length) in
        rw tscf_v0_write (record {
          version_is = h.version_is;
          subtype_is = h.subtype_is;
          field_is = λ j. h.field_is j ∙ ground arith;
        })

    tscf_v0_values :
        (Tscf.get_stream_data_length host tscf_v0_sent ≡ data_length)
        × (Tscf.get_stream_data_length_v0 host tscf_v0_sent ≡ data_length)
        × (Tscf.get_stream_id_v0 host tscf_v0_sent ≡ u64 stream_id)
        × (Tscf.get_sequence_num_v0 host tscf_v0_sent ≡ u8 seq_num)
    unfolding Tscf.get_stream_data_length Tscf.get_stream_data_length_v0 Tscf.get_stream_id_v0
        Tscf.get_sequence_num_v0 Tscf.get_field Tscf.get_field_v0 Tscf.index Tscf.get_header_len_v0
        CommonStreamHeader.get_version CommonStreamHeader.get_stream_data_length_v0
        CommonStreamHeader.get_stream_id_v0 CommonStreamHeader.get_sequence_num_v0
        CommonStreamHeader.get_field_v0 CommonStreamHeader.index get_in descriptor_at
    tscf_v0_values = (
      ground (arith, tscf_v0_Holds.version_is, tscf_v0_Holds.field_is 11),
      ground (arith, tscf_v0_Holds.field_is 11),
      ground (arith, tscf_v0_Holds.field_is 8),
      ground (arith, tscf_v0_Holds.field_is 4),
    )

    pub tscf_v0_accepted :
        24 + data_length ≤ received
        → read_control host tscf_v0_sent received
          ≡ some (record {
            header_len = 24;
            data_length = data_length;
            s_id = u64 stream_id;
            seq_num = u8 seq_num;
            seq_mask = 0xFF;
          })
    unfolding read_control read_tscf CommonStreamHeader.get_version Tscf.get_header_len_v0
    tscf_v0_accepted fits =
        let version = tscf_v0_Holds.version_is in
        let subtype = tscf_v0_Holds.subtype_is in
        let values = tscf_v0_values in
        let valid : Tscf.is_valid host (some tscf_v0_sent) received ≡ true =
          ground (
            arith,
            (control_is_valid_iff host tscf_v0_sent received).0,
            version,
            subtype,
            values,
          ) in
        let known : CommonHeader.is_supported Tscf.supported_versions 0 ≡ true =
          ground (arith, supported host tscf_v0_sent, version) in
        rw (subtype, valid, version, known, values.1, values.2, values.3)

    pub tscf_v0_behind : (a : ℕ) → 24 ≤ a → load8 tscf_v0_sent a ≡ load8 m a
    tscf_v0_behind a h =
        rw tscf_v0_write (load8-set host tscf-IsVersioned.is_table_v0 m 11 (u64 data_length) a h)
