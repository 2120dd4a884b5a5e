-- ===== src/AcfCan/AgreeHeader.antt =====
-- The bytes of a control format header that decide `avtp_to_can` in examples/acf-can/acf-can-common.c.
use open_lib.Common.{
  ℕ, ◌≤◌, ◌<◌, ◌≡◌, refl, arith, true, false, some, dec_lt, ℕ_discrete, List, length, ◌==◌,
}
use open_lib.Memory.{Memory, Endian, load8}
use open_lib.Utils.{FieldDescriptor, get_in}
use open_lib.Utils.Table.{IsTable, get_cong}
use open_lib.Header.CommonHeader
use open_lib.Header.CommonStreamHeader
use open_lib.Header.AlternativeHeader
use open_lib.Header.Formats.{common_stream_header-IsVersioned, tscf-IsVersioned, ntscf-IsVersioned}
use open_lib.Header.Versioned.{identity_table, get_version_in, get_subtype_in}
use open_lib.Control.Tscf
use open_lib.Control.Ntscf
use open_lib.Control.Valid.{control_is_valid_iff}
use open_lib.AcfCan.Stream.{read_control, read_tscf, read_ntscf}

-- The subtype and the version lie in the first two bytes.
two-IsTable : IsTable 2 identity_table
two-IsTable = record { fit = refl; disjoint = refl }

module _ (host : Endian) (m m' : Memory) (received : ℕ) (long : 2 ≤ received)
    (agree : (a : ℕ) → a < received → load8 m a ≡ load8 m' a) where
  identity_same : (i : ℕ) → get_in host identity_table 2 m i ≡ get_in host identity_table 2 m' i
  identity_same i = get_cong host two-IsTable m m' i λ a lt. agree a (omega arith)

  same_version : CommonHeader.get_version host m ≡ CommonHeader.get_version host m'
  same_version = rw (get_version_in, get_version_in, identity_same 1) refl

  same_subtype : CommonHeader.get_subtype host m ≡ CommonHeader.get_subtype host m'
  same_subtype = rw (get_subtype_in, get_subtype_in, identity_same 0) refl

  fields_same :
      {bytes : ℕ} {table : List FieldDescriptor}
      → IsTable bytes table
      → bytes ≤ received
      → (i : ℕ) → get_in host table (length table) m i ≡ get_in host table (length table) m' i
  fields_same ok fits i = get_cong host ok m m' i λ a lt. agree a (omega arith)

  -- With a header of its version that fits, the data length is the same; else both are refused.
  tscf_valid_same : Tscf.is_valid host (some m) received ≡ Tscf.is_valid host (some m') received
  unfolding Tscf.is_valid Tscf.get_header_len Tscf.get_header_len_v0 Tscf.get_header_len_v1
      CommonStreamHeader.get_version CommonStreamHeader.get_header_len
      CommonStreamHeader.get_header_len_v0 CommonStreamHeader.get_header_len_v1
      Tscf.get_stream_data_length Tscf.get_field Tscf.get_field_v0 Tscf.get_field_v1 Tscf.index
  tscf_valid_same = elim (ℕ_discrete (CommonHeader.get_version host m) 1) [
    | yes new ↦ elim (dec_lt received 40) [
      | yes lt ↦ ground (arith, same_version, same_subtype)
      | no ge ↦ ground (
        arith,
        same_version,
        same_subtype,
        fields_same tscf-IsVersioned.is_table_v1 (omega arith) 11,
      )
    ]
    | no old ↦ elim (dec_lt received 24) [
      | yes lt ↦ ground (arith, same_version, same_subtype)
      | no ge ↦ ground (
        arith,
        same_version,
        same_subtype,
        fields_same tscf-IsVersioned.is_table_v0 (omega arith) 11,
      )
    ]
  ]

  ntscf_valid_same : Ntscf.is_valid host (some m) received ≡ Ntscf.is_valid host (some m') received
  unfolding Ntscf.is_valid Ntscf.get_header_len Ntscf.get_header_len_v0 Ntscf.get_header_len_v1
      AlternativeHeader.get_version Ntscf.get_ntscf_data_length Ntscf.get_field Ntscf.get_field_v0
      Ntscf.get_field_v1 Ntscf.index
  ntscf_valid_same = elim (ℕ_discrete (CommonHeader.get_version host m) 1) [
    | yes new ↦ elim (dec_lt received 28) [
      | yes lt ↦ ground (arith, same_version, same_subtype)
      | no ge ↦ ground (
        arith,
        same_version,
        same_subtype,
        fields_same ntscf-IsVersioned.is_table_v1 (omega arith) 6,
      )
    ]
    | no old ↦ elim (dec_lt received 12) [
      | yes lt ↦ ground (arith, same_version, same_subtype)
      | no ge ↦ ground (
        arith,
        same_version,
        same_subtype,
        fields_same ntscf-IsVersioned.is_table_v0 (omega arith) 6,
      )
    ]
  ]

  -- A header that is accepted lies in the bytes received, and so is read alike.
  read_tscf_same :
      Tscf.is_valid host (some m) received ≡ true → read_tscf host m ≡ read_tscf host m'
  unfolding read_tscf CommonStreamHeader.get_version Tscf.get_header_len_v0 Tscf.get_header_len_v1
      Tscf.get_stream_data_length_v0 Tscf.get_stream_data_length_v1 Tscf.get_stream_id_v0
      Tscf.get_stream_id_v1 Tscf.get_sequence_num_v0 Tscf.get_sequence_num_v1
      CommonStreamHeader.get_stream_data_length_v0 CommonStreamHeader.get_stream_data_length_v1
      CommonStreamHeader.get_stream_id_v0 CommonStreamHeader.get_stream_id_v1
      CommonStreamHeader.get_sequence_num_v0 CommonStreamHeader.get_sequence_num_v1
      CommonStreamHeader.get_field_v0 CommonStreamHeader.get_field_v1 CommonStreamHeader.index
  read_tscf_same valid =
      let size = ((control_is_valid_iff host m received).0.0 valid).2 in
      elim (ℕ_discrete (CommonHeader.get_version host m) 1) [
        | yes new ↦
            let same =
              fields_same common_stream_header-IsVersioned.is_table_v1
                (ground (arith, size, new)) in
            rw (← same_version, new, same 4, same 8, same 11)
        | no old ↦
            let e : (CommonHeader.get_version host m == 1) ≡ false = ground arith in
            let same =
              fields_same common_stream_header-IsVersioned.is_table_v0 (ground (arith, size, e)) in
            rw (← same_version, e, same 4, same 8, same 11)
      ]

  read_ntscf_same :
      Ntscf.is_valid host (some m) received ≡ true → read_ntscf host m ≡ read_ntscf host m'
  unfolding read_ntscf AlternativeHeader.get_version Ntscf.get_header_len_v0 Ntscf.get_header_len_v1
      Ntscf.get_ntscf_data_length_v0 Ntscf.get_ntscf_data_length_v1 Ntscf.get_stream_id_v0
      Ntscf.get_stream_id_v1 Ntscf.get_sequence_num_v0 Ntscf.get_sequence_num_v1 Ntscf.get_field_v0
      Ntscf.get_field_v1 Ntscf.index
  read_ntscf_same valid =
      let size = ((control_is_valid_iff host m received).1.0 valid).2 in
      elim (ℕ_discrete (CommonHeader.get_version host m) 1) [
        | yes new ↦
            let same = fields_same ntscf-IsVersioned.is_table_v1 (ground (arith, size, new)) in
            rw (← same_version, new, same 1, same 6, same 8)
        | no old ↦
            let e : (CommonHeader.get_version host m == 1) ≡ false = ground arith in
            let same = fields_same ntscf-IsVersioned.is_table_v0 (ground (arith, size, e)) in
            rw (← same_version, e, same 6, same 7, same 8)
      ]

  -- The tests of the control format and what they let through depend on the bytes received alone.
  pub read_control_cong : read_control host m received ≡ read_control host m' received
  unfolding read_control CommonStreamHeader.get_version AlternativeHeader.get_version
  read_control_cong =
      rw (← same_subtype, ← same_version, ← tscf_valid_same, ← ntscf_valid_same)
        (ground (arith, read_tscf_same, read_ntscf_same))
