-- ===== src/Vss/Path/Laws.antt =====
-- Setting and getting a VSS path, and the bytes that the getter looks at.
use open_lib.Common.{
  ℕ, ◌+◌, ◌-◌, ◌^◌, ◌%◌, ◌≤◌, ◌<◌, ◌≡◌, inl, sym, arith, true, false, leb, some, dec_lt,
}
use open_lib.Memory.{Memory, Endian, load8, load_be, store_be, memcpy}
use open_lib.Memory.Laws.{load8-memcpy}
use open_lib.Memory.Copy.{
  load_be-store_be, load8-store_be, load_be-cong, memcpy-cong, memcpy-copied,
}
use open_lib.Byteorder.Host.{be_to_cpu32-load, store-cpu_to_be16, store-cpu_to_be32}
use open_lib.Acf.{get_acf_msg_length_in_bytes}
use open_lib.Acf.Laws.{get_acf_msg_length_in_bytes-lt}
use open_lib.Vss.{get_addr_mode, get_clamped_path_length, is_valid}
use open_lib.Vss.Header.{declared-cong, get_addr_mode-cong, vss_is_valid_iff}
use open_lib.Vss.Clamp.{get_clamped_path_length_lem, get_clamped_path_length-le}
use open_lib.Vss.Path.{
  VssPath, VssInteropPath, get_vss_path, set_vss_path, get_static_id_path, get_interop_path,
}

module _ (host : Endian) (m m' : Memory)
    (declared_agree : (a : ℕ) → a < get_acf_msg_length_in_bytes host m → load8 m a ≡ load8 m' a)
    (header : 12 ≤ get_acf_msg_length_in_bytes host m) where
  same_length : get_acf_msg_length_in_bytes host m ≡ get_acf_msg_length_in_bytes host m'
  same_length = declared-cong host m m' λ a lt. declared_agree a (omega arith)

  same_mode : get_addr_mode host m ≡ get_addr_mode host m'
  same_mode = get_addr_mode-cong host m m' λ a lt. declared_agree a (omega arith)

  pub get_clamped_path_length-cong :
      get_clamped_path_length host m ≡ get_clamped_path_length host m'
  get_clamped_path_length-cong = elim (dec_lt (get_acf_msg_length_in_bytes host m) 14) [
    | yes short ↦ ground (
      arith,
      get_clamped_path_length_lem host m,
      get_clamped_path_length_lem host m',
      same_length,
      same_mode,
    )
    | no long ↦ ground (
      arith,
      get_clamped_path_length_lem host m,
      get_clamped_path_length_lem host m',
      same_length,
      same_mode,
      load_be-cong m m' 12 2 (λ j p q. declared_agree j (omega arith)),
    )
  ]

  get_static_id_path-cong :
      get_static_id_path host m (get_clamped_path_length host m)
      ≡ get_static_id_path host m' (get_clamped_path_length host m)
  unfolding get_static_id_path
  get_static_id_path-cong =
      let le = get_clamped_path_length-le host m header in
      rw (be_to_cpu32-load, be_to_cpu32-load)
        (elim (dec_lt (get_clamped_path_length host m) 4) [
          | yes short ↦ ground arith
          | no long ↦ rw (load_be-cong m m' 12 4 (λ j p q. declared_agree j (omega arith)))
        ])

  get_interop_path-cong :
      (val : VssInteropPath)
      → get_interop_path host m (get_clamped_path_length host m) val
        ≡ get_interop_path host m' (get_clamped_path_length host m) val
  unfolding get_interop_path
  get_interop_path-cong val =
      let le = get_clamped_path_length-le host m header in
      elim (dec_lt (get_clamped_path_length host m) 2) [
        | yes short ↦ let e : leb 2 (get_clamped_path_length host m) ≡ false = ground arith in rw e
        | no long ↦ rw (
            memcpy-cong val.path 0 m m' 14 (get_clamped_path_length host m - 2)
              (λ j p. declared_agree (14 + j) (omega arith)))
      ]

  get_vss_path_agree : (val : VssPath) → get_vss_path host m val ≡ get_vss_path host m' val
  unfolding get_vss_path
  get_vss_path_agree val =
      rw (
        ← same_mode,
        ← get_clamped_path_length-cong,
        get_static_id_path-cong,
        get_interop_path-cong,
      )

-- On a message that `Avtp_Vss_IsValid` accepts, `Avtp_Vss_GetVssPath` reads nothing outside the
-- buffer: with other bytes behind it the result is the same.
pub get_vss_path-cong :
    (host : Endian) (m m' : Memory) (buffer_size : ℕ) (val : VssPath)
    → is_valid host (some m) buffer_size ≡ true
    → ((a : ℕ) → a < buffer_size → load8 m a ≡ load8 m' a)
    → get_vss_path host m val ≡ get_vss_path host m' val
get_vss_path-cong host m m' buffer_size val valid agree =
    let known = (vss_is_valid_iff host m buffer_size).0 valid in
    get_vss_path_agree host m m' (λ a lt. agree a (omega arith)) (omega arith) val

module _ (host : Endian) (m : Memory) (val out : VssPath) where
  abbrev written : Memory
  written = set_vss_path host m val

  module _ (header : (a : ℕ) → a < 12 → load8 m a ≡ load8 written a) where
    written_length : get_acf_msg_length_in_bytes host written ≡ get_acf_msg_length_in_bytes host m
    written_length = sym (declared-cong host m written header)

    written_mode : get_addr_mode host written ≡ get_addr_mode host m
    written_mode = sym (get_addr_mode-cong host m written header)

  module _ (mode : get_addr_mode host m ≡ 1) (fits : 16 ≤ get_acf_msg_length_in_bytes host m) where
    written_static : written ≡ store_be m 12 4 val.vss_static_id_path
    unfolding set_vss_path
    written_static = rw (mode, store-cpu_to_be32)

    header_static : (a : ℕ) → a < 12 → load8 m a ≡ load8 written a
    header_static a lt =
        rw (written_static, load8-store_be m 12 4 val.vss_static_id_path a (inl (omega arith)))

    clamped_static : get_clamped_path_length host written ≡ 4
    clamped_static = ground (
      arith,
      get_clamped_path_length_lem host written,
      written_length header_static,
      written_mode header_static,
    )

    -- In static ID mode, in a message that holds the four bytes of the ID, the path that
    -- `Avtp_Vss_SetVssPath` writes is the one that `Avtp_Vss_GetVssPath` reads.
    pub get_vss_path-set_vss_path_static :
        get_vss_path host (set_vss_path host m val) out ≡ record {
          vss_interop_path = out.vss_interop_path;
          vss_static_id_path = val.vss_static_id_path % 2 ^ 32;
        }
    unfolding get_vss_path get_static_id_path
    get_vss_path-set_vss_path_static = rw (
      clamped_static,
      written_mode header_static,
      mode,
      be_to_cpu32-load,
      written_static,
      load_be-store_be,
    )

  module _ (mode : get_addr_mode host m ≡ 0)
      (fits : 14 + val.vss_interop_path.path_length ≤ get_acf_msg_length_in_bytes host m) where
    abbrev path : VssInteropPath
    path = val.vss_interop_path

    written_interop :
        written ≡ memcpy (store_be m 12 2 path.path_length) 14 path.path 0 path.path_length
    unfolding set_vss_path
    written_interop = rw (mode, store-cpu_to_be16)

    header_interop : (a : ℕ) → a < 12 → load8 m a ≡ load8 written a
    header_interop a lt =
        rw (written_interop, load8-memcpy)
          (ground (arith, load8-store_be m 12 2 path.path_length a (inl (omega arith))))

    prefix_interop : load_be written 12 2 ≡ path.path_length
    prefix_interop =
        let prefix_kept =
          load_be-cong written (store_be m 12 2 path.path_length) 12 2
            (λ j p q. rw (written_interop, load8-memcpy) (ground arith)) in
        omega (
          arith,
          prefix_kept,
          load_be-store_be m 12 2 path.path_length,
          get_acf_msg_length_in_bytes-lt host m,
        )

    clamped_interop : get_clamped_path_length host written ≡ path.path_length + 2
    clamped_interop = ground (
      arith,
      get_clamped_path_length_lem host written,
      written_length header_interop,
      written_mode header_interop,
      prefix_interop,
    )

    -- In interop mode, in a message that holds the path and its length prefix, the path that
    -- `Avtp_Vss_SetVssPath` writes is the one that `Avtp_Vss_GetVssPath` reads, its length and
    -- every byte.
    pub get_vss_path-set_vss_path_interop :
        get_vss_path host (set_vss_path host m val) out ≡ record {
          vss_interop_path = record {
            path_length = val.vss_interop_path.path_length;
            path =
                memcpy out.vss_interop_path.path 0 val.vss_interop_path.path 0
                  val.vss_interop_path.path_length;
          };
          vss_static_id_path = out.vss_static_id_path;
        }
    unfolding get_vss_path get_interop_path
    get_vss_path-set_vss_path_interop =
        let le : leb 2 (path.path_length + 2) ≡ true = ground arith in
        let n : path.path_length + 2 - 2 ≡ path.path_length = omega arith in
        let n' : path.path_length % 2 ^ 16 ≡ path.path_length =
          omega (arith, get_acf_msg_length_in_bytes-lt host m) in
        rw (
          clamped_interop,
          written_mode header_interop,
          mode,
          le,
          n,
          n',
          written_interop,
          memcpy-copied,
        )
