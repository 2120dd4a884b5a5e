-- ===== src/Control/Sequence.antt =====
-- The sequence numbers of include/avtp/acf/Tscf.h and Ntscf.h. Version 1 keeps the number twice: whole,
-- and its low byte at the place that version 0 gives the number.
use open_lib.Common.{
  ℕ, ◌%◌, ◌^◌, ◌≡◌, arith, if◌then◌else◌, ◌==◌, ◌≢◌, bit_and, bit_and_field, ℕ_discrete, u8, u32,
  u64,
}
use open_lib.Memory.{Memory, Endian}
use open_lib.Utils.{descriptor_at, set_in}
use open_lib.Utils.Table.{get-set}
use open_lib.Header.CommonHeader
use open_lib.Header.CommonStreamHeader
use open_lib.Header.AlternativeHeader
use open_lib.Header.Versioned.{get_version-set}
use open_lib.Header.Formats.{tscf-IsVersioned, ntscf-IsVersioned}
use open_lib.Control.Tscf
use open_lib.Control.Ntscf

module _ (host : Endian) (m : Memory) (value : ℕ) where
  tscf_sequence_v0 :
      CommonHeader.get_version host m ≢ 1
      → (Tscf.get_sequence_num host (Tscf.set_sequence_num host m value) ≡ value % 2 ^ 8)
        × (Tscf.get_sequence_num_lsb host (Tscf.set_sequence_num host m value) ≡ value % 2 ^ 8)
  unfolding Tscf.get_sequence_num Tscf.get_sequence_num_lsb Tscf.set_sequence_num Tscf.get_field
      Tscf.get_field_v0 Tscf.get_field_v1 Tscf.set_field_v0 Tscf.set_field_v1 Tscf.index
      CommonStreamHeader.get_version descriptor_at
  tscf_sequence_v0 old =
      let written = set_in host Tscf.table_v0 14 m 4 (u64 (u32 value)) in
      let kept =
        get_version-set host tscf-IsVersioned.is_table_v0 tscf-IsVersioned.apart_v0 m 4
          (u64 (u32 value)) in
      let back = get-set host tscf-IsVersioned.is_table_v0 m 4 (u64 (u32 value)) 4 in
      (ground (arith, kept, back), ground (arith, kept, back))

  tscf_sequence_v1 :
      CommonHeader.get_version host m ≡ 1
      → (Tscf.get_sequence_num host (Tscf.set_sequence_num host m value) ≡ value % 2 ^ 32)
        × (Tscf.get_sequence_num_lsb host (Tscf.set_sequence_num host m value) ≡ value % 2 ^ 8)
  unfolding Tscf.get_sequence_num Tscf.get_sequence_num_lsb Tscf.set_sequence_num Tscf.get_field
      Tscf.get_field_v0 Tscf.get_field_v1 Tscf.set_field_v0 Tscf.set_field_v1 Tscf.index
      CommonStreamHeader.get_version descriptor_at
  tscf_sequence_v1 new =
      let whole = set_in host Tscf.table_v1 14 m 4 (u64 (u32 value)) in
      let low = u64 (u8 (bit_and (u32 value) 0xff)) in
      let kept =
        get_version-set host tscf-IsVersioned.is_table_v1 tscf-IsVersioned.apart_v1 m 4
          (u64 (u32 value)) in
      let kept_low =
        get_version-set host tscf-IsVersioned.is_table_v1 tscf-IsVersioned.apart_v1 whole 5 low in
      let back = get-set host tscf-IsVersioned.is_table_v1 m 4 (u64 (u32 value)) 4 in
      let past = get-set host tscf-IsVersioned.is_table_v1 whole 5 low 4 in
      let back_low = get-set host tscf-IsVersioned.is_table_v1 whole 5 low 5 in
      let cut = bit_and_field 8 0 (u32 value) in
      (ground (arith, kept, kept_low, back, past), ground (arith, kept, kept_low, back_low, cut))

  ntscf_sequence_v0 :
      CommonHeader.get_version host m ≢ 1
      → (Ntscf.get_sequence_num host (Ntscf.set_sequence_num host m value) ≡ value % 2 ^ 8)
        × (Ntscf.get_sequence_num_lsb host (Ntscf.set_sequence_num host m value) ≡ value % 2 ^ 8)
  unfolding Ntscf.get_sequence_num Ntscf.get_sequence_num_lsb Ntscf.set_sequence_num Ntscf.get_field
      Ntscf.get_field_v0 Ntscf.get_field_v1 Ntscf.set_field_v0 Ntscf.set_field_v1 Ntscf.index
      AlternativeHeader.get_version descriptor_at
  ntscf_sequence_v0 old =
      let low = u64 (u8 (bit_and (u32 value) 0xff)) in
      let kept =
        get_version-set host ntscf-IsVersioned.is_table_v0 ntscf-IsVersioned.apart_v0 m 7 low in
      let back = get-set host ntscf-IsVersioned.is_table_v0 m 7 low 7 in
      let cut = bit_and_field 8 0 (u32 value) in
      (ground (arith, kept, back, cut), ground (arith, kept, back, cut))

  ntscf_sequence_v1 :
      CommonHeader.get_version host m ≡ 1
      → (Ntscf.get_sequence_num host (Ntscf.set_sequence_num host m value) ≡ value % 2 ^ 32)
        × (Ntscf.get_sequence_num_lsb host (Ntscf.set_sequence_num host m value) ≡ value % 2 ^ 8)
  unfolding Ntscf.get_sequence_num Ntscf.get_sequence_num_lsb Ntscf.set_sequence_num Ntscf.get_field
      Ntscf.get_field_v0 Ntscf.get_field_v1 Ntscf.set_field_v0 Ntscf.set_field_v1 Ntscf.index
      AlternativeHeader.get_version descriptor_at
  ntscf_sequence_v1 new =
      let whole = set_in host Ntscf.table_v1 9 m 1 (u64 (u32 value)) in
      let low = u64 (u8 (bit_and (u32 value) 0xff)) in
      let kept =
        get_version-set host ntscf-IsVersioned.is_table_v1 ntscf-IsVersioned.apart_v1 m 1
          (u64 (u32 value)) in
      let kept_low =
        get_version-set host ntscf-IsVersioned.is_table_v1 ntscf-IsVersioned.apart_v1 whole 7 low in
      let back = get-set host ntscf-IsVersioned.is_table_v1 m 1 (u64 (u32 value)) 1 in
      let past = get-set host ntscf-IsVersioned.is_table_v1 whole 7 low 1 in
      let back_low = get-set host ntscf-IsVersioned.is_table_v1 whole 7 low 7 in
      let cut = bit_and_field 8 0 (u32 value) in
      (ground (arith, kept, kept_low, back, past), ground (arith, kept, kept_low, back_low, cut))

  -- After `SetSequenceNum` of TSCF or NTSCF, the number reads back modulo 2^8 from a PDU of version 0
  -- and modulo 2^32 from one of version 1, and `GetSequenceNumLsb` gives its low byte in both.
  pub get_sequence_num-set_sequence_num :
      (Tscf.get_sequence_num host (Tscf.set_sequence_num host m value)
        ≡ (if CommonHeader.get_version host m == 1 then value % 2 ^ 32 else value % 2 ^ 8))
      × (Tscf.get_sequence_num_lsb host (Tscf.set_sequence_num host m value) ≡ value % 2 ^ 8)
      × (Ntscf.get_sequence_num host (Ntscf.set_sequence_num host m value)
          ≡ (if CommonHeader.get_version host m == 1 then value % 2 ^ 32 else value % 2 ^ 8))
      × (Ntscf.get_sequence_num_lsb host (Ntscf.set_sequence_num host m value) ≡ value % 2 ^ 8)
  get_sequence_num-set_sequence_num = elim (ℕ_discrete (CommonHeader.get_version host m) 1) [
    | yes new ↦
        let t = tscf_sequence_v1 new in let n = ntscf_sequence_v1 new in rw new (t.0, t.1, n.0, n.1)
    | no old ↦
        let t = tscf_sequence_v0 old in
        let n = ntscf_sequence_v0 old in
        (ground (arith, t), ground (arith, t), ground (arith, n), ground (arith, n))
  ]
