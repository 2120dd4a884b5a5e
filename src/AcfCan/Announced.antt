-- ===== src/AcfCan/Announced.antt =====
-- Any of the four control format headers of examples/acf-can/acf-can-common.c, from `init_cf_pdu` to the
-- receiver.
use open_lib.Common.{ℕ, ◌+◌, ◌^◌, ◌≤◌, ◌<◌, ◌≡◌, refl, arith, some, u64}
use open_lib.Memory.{Memory, Endian, load8}
use open_lib.Header.Formats.{tscf-IsVersioned, ntscf-IsVersioned}
use open_lib.Header.Holds.{Holds-cong}
use open_lib.Control.Tscf
use open_lib.Control.Ntscf
use open_lib.AcfCan.{ControlFormat, init_cf_pdu, update_cf_length}
use open_lib.AcfCan.Stream.{ControlInfo, read_control}
use open_lib.AcfCan.StartedNtscf.{ntscf_v1-Holds, ntscf_v0-Holds}
use open_lib.AcfCan.StartedTscf.{tscf_v1-Holds, tscf_v0-Holds}
use open_lib.AcfCan.AcceptedNtscf.{
  ntscf_v1_accepted, ntscf_v1_behind, ntscf_v0_accepted, ntscf_v0_behind,
}
use open_lib.AcfCan.AcceptedTscf.{
  tscf_v1_accepted, tscf_v1_behind, tscf_v0_accepted, tscf_v0_behind,
}

abbrev pub cf_header_len : ControlFormat → ℕ
cf_header_len ControlFormat.ntscf_v0 = 12
cf_header_len ControlFormat.ntscf_v1 = 28
cf_header_len ControlFormat.tscf_v0 = 24
cf_header_len ControlFormat.tscf_v1 = 40

module _ (host : Endian) (m : Memory) (stream_id seq_num : ℕ) where
  pub init_cf_pdu_length :
      (cf : ControlFormat) → (init_cf_pdu host m stream_id cf seq_num).1 ≡ cf_header_len cf
  unfolding init_cf_pdu Ntscf.get_header_len_v0 Ntscf.get_header_len_v1 Tscf.get_header_len_v0
      Tscf.get_header_len_v1
  init_cf_pdu_length ControlFormat.ntscf_v0 = refl
  init_cf_pdu_length ControlFormat.ntscf_v1 = refl
  init_cf_pdu_length ControlFormat.tscf_v0 = refl
  init_cf_pdu_length ControlFormat.tscf_v1 = refl

  -- The receiver accepts the header `after` with the length and the stream, and the bytes behind it
  -- are those of `before`.
  abbrev pub IsAccepted : ControlFormat → ℕ → Memory → Memory → Type 0
  IsAccepted cf data_length before after =
      ((received : ℕ)
        → cf_header_len cf + data_length ≤ received
        → (info : ControlInfo) × (read_control host after received ≡ some info)
          × (info.header_len ≡ cf_header_len cf)
          × (info.data_length ≡ data_length)
          × (info.s_id ≡ u64 stream_id))
      × ((a : ℕ) → cf_header_len cf ≤ a → load8 after a ≡ load8 before a)

  pub update_cf_length-IsAccepted :
      (cf : ControlFormat) (x : Memory) (data_length : ℕ)
      → ((a : ℕ)
          → a < cf_header_len cf
          → load8 (init_cf_pdu host m stream_id cf seq_num).0 a ≡ load8 x a)
      → data_length < 2 ^ 11
      → IsAccepted cf data_length x (update_cf_length host x (cf_header_len cf + data_length) cf)
  update_cf_length-IsAccepted ControlFormat.ntscf_v0 x d agree small =
      let holds =
        Holds-cong host ntscf-IsVersioned.is_table_v0 ntscf-IsVersioned.apart_v0
          (ntscf_v0-Holds host m stream_id seq_num) x (omega arith) agree in
      (
        λ received fits. (
          _,
          ntscf_v0_accepted host x stream_id seq_num d received holds small fits,
          refl,
          refl,
          refl,
        ),
        ntscf_v0_behind host x stream_id seq_num d 0 holds small,
      )
  update_cf_length-IsAccepted ControlFormat.ntscf_v1 x d agree small =
      let holds =
        Holds-cong host ntscf-IsVersioned.is_table_v1 ntscf-IsVersioned.apart_v1
          (ntscf_v1-Holds host m stream_id seq_num) x (omega arith) agree in
      (
        λ received fits. (
          _,
          ntscf_v1_accepted host x stream_id seq_num d received holds small fits,
          refl,
          refl,
          refl,
        ),
        ntscf_v1_behind host x stream_id seq_num d 0 holds small,
      )
  update_cf_length-IsAccepted ControlFormat.tscf_v0 x d agree small =
      let holds =
        Holds-cong host tscf-IsVersioned.is_table_v0 tscf-IsVersioned.apart_v0
          (tscf_v0-Holds host m stream_id seq_num) x (omega arith) agree in
      (
        λ received fits. (
          _,
          tscf_v0_accepted host x stream_id seq_num d received holds small fits,
          refl,
          refl,
          refl,
        ),
        tscf_v0_behind host x stream_id seq_num d 0 holds small,
      )
  update_cf_length-IsAccepted ControlFormat.tscf_v1 x d agree small =
      let holds =
        Holds-cong host tscf-IsVersioned.is_table_v1 tscf-IsVersioned.apart_v1
          (tscf_v1-Holds host m stream_id seq_num) x (omega arith) agree in
      (
        λ received fits. (
          _,
          tscf_v1_accepted host x stream_id seq_num d received holds small fits,
          refl,
          refl,
          refl,
        ),
        tscf_v1_behind host x stream_id seq_num d 0 holds small,
      )
