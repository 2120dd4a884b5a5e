-- ===== src/AcfCan/AcceptedNtscf.antt =====
-- The control format headers of examples/acf-can/acf-can-common.c from `update_cf_length` to the tests
-- of `avtp_to_can`.
use open_lib.Common.{
  ℕ, ◌+◌, ◌-◌, ◌^◌, ◌≤◌, ◌<◌, ◌≡◌, ◌∙◌, arith, true, ◌==◌, if◌then◌else◌, some, u8, u16, u32, u64,
}
use open_lib.Memory.{Memory, Endian, load8}
use open_lib.Utils.{set_in, descriptor_at}
use open_lib.Utils.Table.{load8-set}
use open_lib.Header.CommonHeader
use open_lib.Header.AlternativeHeader
use open_lib.Header.Supported.{supported}
use open_lib.Header.Formats.{ntscf-IsVersioned}
use open_lib.Header.Holds.{Holds, set-Holds}
use open_lib.Control.Ntscf
use open_lib.Control.Valid.{control_is_valid_iff}
use open_lib.AcfCan.{update_cf_length, ControlFormat}
use open_lib.AcfCan.Stream.{read_control, read_ntscf}

module _ (host : Endian) (m : Memory) (stream_id seq_num : ℕ) (data_length received : ℕ) where
  module _
      (holds : Holds host Ntscf.table_v1 1 0x82
        (λ j.
          if j == 8
          then u64 stream_id
          else if j == 7
          then u8 seq_num
          else if j == 1
          then u32 seq_num
          else if j == 3
          then 1
          else 0)
        m)
      (small : data_length < 2 ^ 11) where
    abbrev ntscf_v1_sent : Memory
    ntscf_v1_sent = update_cf_length host m (28 + data_length) ControlFormat.ntscf_v1

    ntscf_v1_write : ntscf_v1_sent ≡ set_in host Ntscf.table_v1 9 m 6 (u64 data_length)
    unfolding update_cf_length Ntscf.set_ntscf_data_length_v1 Ntscf.set_field_v1 Ntscf.index
        Ntscf.get_header_len_v1 descriptor_at
    ntscf_v1_write =
        let e : u64 (28 + data_length + 2 ^ 64 - 28) ≡ data_length = omega arith in
        let e' : u16 data_length ≡ data_length = omega arith in rw (e, e', e')

    ntscf_v1_Holds :
        Holds host Ntscf.table_v1 1 0x82
          (λ j.
            if j == 6
            then data_length
            else if j == 8
            then u64 stream_id
            else if j == 7
            then u8 seq_num
            else if j == 1
            then u32 seq_num
            else if j == 3
            then 1
            else 0)
          ntscf_v1_sent
    unfolding descriptor_at
    ntscf_v1_Holds =
        let h =
          set-Holds host ntscf-IsVersioned.is_table_v1 ntscf-IsVersioned.apart_v1 holds 6
            (u64 data_length) in
        rw ntscf_v1_write (record {
          version_is = h.version_is;
          subtype_is = h.subtype_is;
          field_is = λ j. h.field_is j ∙ ground arith;
        })

    ntscf_v1_values :
        (Ntscf.get_ntscf_data_length host ntscf_v1_sent ≡ data_length)
        × (Ntscf.get_ntscf_data_length_v1 host ntscf_v1_sent ≡ data_length)
        × (Ntscf.get_stream_id_v1 host ntscf_v1_sent ≡ u64 stream_id)
        × (Ntscf.get_sequence_num_v1 host ntscf_v1_sent ≡ u32 seq_num)
    unfolding Ntscf.get_ntscf_data_length Ntscf.get_ntscf_data_length_v1 Ntscf.get_stream_id_v1
        Ntscf.get_sequence_num_v1 Ntscf.get_field Ntscf.get_field_v1 Ntscf.index
        Ntscf.get_header_len_v1 AlternativeHeader.get_version descriptor_at
    ntscf_v1_values = (
      ground (arith, ntscf_v1_Holds.version_is, ntscf_v1_Holds.field_is 6),
      ground (arith, ntscf_v1_Holds.field_is 6),
      ground (arith, ntscf_v1_Holds.field_is 8),
      ground (arith, ntscf_v1_Holds.field_is 1),
    )

    pub ntscf_v1_accepted :
        28 + data_length ≤ received
        → read_control host ntscf_v1_sent received
          ≡ some (record {
            header_len = 28;
            data_length = data_length;
            s_id = u64 stream_id;
            seq_num = u32 seq_num;
            seq_mask = 0xFFFFFFFF;
          })
    unfolding read_control read_ntscf AlternativeHeader.get_version Ntscf.get_header_len_v1
    ntscf_v1_accepted fits =
        let version = ntscf_v1_Holds.version_is in
        let subtype = ntscf_v1_Holds.subtype_is in
        let values = ntscf_v1_values in
        let valid : Ntscf.is_valid host (some ntscf_v1_sent) received ≡ true =
          ground (
            arith,
            (control_is_valid_iff host ntscf_v1_sent received).1,
            version,
            subtype,
            values,
          ) in
        let known : CommonHeader.is_supported Ntscf.supported_versions 1 ≡ true =
          ground (arith, supported host ntscf_v1_sent, version) in
        rw (subtype, valid, version, known, values.1, values.2, values.3)

    pub ntscf_v1_behind : (a : ℕ) → 28 ≤ a → load8 ntscf_v1_sent a ≡ load8 m a
    ntscf_v1_behind a h =
        rw ntscf_v1_write (load8-set host ntscf-IsVersioned.is_table_v1 m 6 (u64 data_length) a h)

  module _
      (holds : Holds host Ntscf.table_v0 0 0x82
        (λ j.
          if j == 8 then u64 stream_id else if j == 7 then u8 seq_num else if j == 3 then 1 else 0)
        m)
      (small : data_length < 2 ^ 11) where
    abbrev ntscf_v0_sent : Memory
    ntscf_v0_sent = update_cf_length host m (12 + data_length) ControlFormat.ntscf_v0

    ntscf_v0_write : ntscf_v0_sent ≡ set_in host Ntscf.table_v0 9 m 6 (u64 data_length)
    unfolding update_cf_length Ntscf.set_ntscf_data_length_v0 Ntscf.set_field_v0 Ntscf.index
        Ntscf.get_header_len_v0 descriptor_at
    ntscf_v0_write =
        let e : u64 (12 + data_length + 2 ^ 64 - 12) ≡ data_length = omega arith in
        let e' : u16 data_length ≡ data_length = omega arith in rw (e, e', e')

    ntscf_v0_Holds :
        Holds host Ntscf.table_v0 0 0x82
          (λ j.
            if j == 6
            then data_length
            else if j == 8
            then u64 stream_id
            else if j == 7
            then u8 seq_num
            else if j == 3
            then 1
            else 0)
          ntscf_v0_sent
    unfolding descriptor_at
    ntscf_v0_Holds =
        let h =
          set-Holds host ntscf-IsVersioned.is_table_v0 ntscf-IsVersioned.apart_v0 holds 6
            (u64 data_length) in
        rw ntscf_v0_write (record {
          version_is = h.version_is;
          subtype_is = h.subtype_is;
          field_is = λ j. h.field_is j ∙ ground arith;
        })

    ntscf_v0_values :
        (Ntscf.get_ntscf_data_length host ntscf_v0_sent ≡ data_length)
        × (Ntscf.get_ntscf_data_length_v0 host ntscf_v0_sent ≡ data_length)
        × (Ntscf.get_stream_id_v0 host ntscf_v0_sent ≡ u64 stream_id)
        × (Ntscf.get_sequence_num_v0 host ntscf_v0_sent ≡ u8 seq_num)
    unfolding Ntscf.get_ntscf_data_length Ntscf.get_ntscf_data_length_v0 Ntscf.get_stream_id_v0
        Ntscf.get_sequence_num_v0 Ntscf.get_field Ntscf.get_field_v0 Ntscf.index
        Ntscf.get_header_len_v0 AlternativeHeader.get_version descriptor_at
    ntscf_v0_values = (
      ground (arith, ntscf_v0_Holds.version_is, ntscf_v0_Holds.field_is 6),
      ground (arith, ntscf_v0_Holds.field_is 6),
      ground (arith, ntscf_v0_Holds.field_is 8),
      ground (arith, ntscf_v0_Holds.field_is 7),
    )

    pub ntscf_v0_accepted :
        12 + data_length ≤ received
        → read_control host ntscf_v0_sent received
          ≡ some (record {
            header_len = 12;
            data_length = data_length;
            s_id = u64 stream_id;
            seq_num = u8 seq_num;
            seq_mask = 0xFF;
          })
    unfolding read_control read_ntscf AlternativeHeader.get_version Ntscf.get_header_len_v0
    ntscf_v0_accepted fits =
        let version = ntscf_v0_Holds.version_is in
        let subtype = ntscf_v0_Holds.subtype_is in
        let values = ntscf_v0_values in
        let valid : Ntscf.is_valid host (some ntscf_v0_sent) received ≡ true =
          ground (
            arith,
            (control_is_valid_iff host ntscf_v0_sent received).1,
            version,
            subtype,
            values,
          ) in
        let known : CommonHeader.is_supported Ntscf.supported_versions 0 ≡ true =
          ground (arith, supported host ntscf_v0_sent, version) in
        rw (subtype, valid, version, known, values.1, values.2, values.3)

    pub ntscf_v0_behind : (a : ℕ) → 12 ≤ a → load8 ntscf_v0_sent a ≡ load8 m a
    ntscf_v0_behind a h =
        rw ntscf_v0_write (load8-set host ntscf-IsVersioned.is_table_v0 m 6 (u64 data_length) a h)
