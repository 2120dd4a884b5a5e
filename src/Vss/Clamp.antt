-- ===== src/Vss/Clamp.antt =====
-- The clamped lengths that the VSS getters use, against the declared message length.
use open_lib.Common.{ℕ, ◌+◌, ◌-◌, ◌^◌, ◌≤◌, ◌<◌, ◌≡◌, arith, leb, ◌==◌, if◌then◌else◌, min}
use open_lib.Memory.{Memory, Endian, load_be}
use open_lib.Memory.Copy.{load_be-lt}
use open_lib.Byteorder.Host.{be_to_cpu16-load}
use open_lib.Acf.{get_acf_msg_length_in_bytes}
use open_lib.Acf.Laws.{get_acf_msg_length_in_bytes-lt}
use open_lib.Vss.{
  get_addr_mode, read_clamped_length, get_clamped_path_length, has_bytes, calc_vss_path_length,
}

module _ (host : Endian) (m : Memory) where
  abbrev declared : ℕ
  declared = get_acf_msg_length_in_bytes host m

  -- For an offset below 2 ^ 31, `vss_read_clamped_length` gives the length that the prefix tells, cut
  -- to the bytes that the declared message has behind the prefix, where the prefix itself lies in the
  -- message, and 0 where it does not. With a declared length of 0, a PDU that is not framed yet, the
  -- result is 0 too, where the comment above the function promises the length of the prefix unchanged.
  pub read_clamped_length_lem :
      (ptr : ℕ)
      → ptr < 2 ^ 31
      → read_clamped_length host m ptr ≡ (
          if get_acf_msg_length_in_bytes host m == 0
          then 0
          else if leb (ptr + 2) (get_acf_msg_length_in_bytes host m)
          then min (load_be m ptr 2) (get_acf_msg_length_in_bytes host m - ptr - 2)
          else 0)
  unfolding read_clamped_length
  read_clamped_length_lem ptr h =
      rw be_to_cpu16-load (ground (arith, load_be-lt m ptr, get_acf_msg_length_in_bytes-lt host m))

  -- What the path takes of the frame, for each addressing mode.
  pub get_clamped_path_length_lem : get_clamped_path_length host m ≡ (
      if get_addr_mode host m == 1
      then min 4 (get_acf_msg_length_in_bytes host m - 12)
      else if get_addr_mode host m == 0
      then (if leb 14 (get_acf_msg_length_in_bytes host m)
          then min (load_be m 12 2) (get_acf_msg_length_in_bytes host m - 14) + 2
          else 0)
      else 0)
  unfolding get_clamped_path_length
  get_clamped_path_length_lem = ground (
    arith,
    read_clamped_length_lem 12 (omega arith),
    load_be-lt m 12,
    get_acf_msg_length_in_bytes-lt host m,
  )

  -- Where a message declares at least its fixed header, the path that the getters see lies in the
  -- declared message.
  pub get_clamped_path_length-le :
      12 ≤ get_acf_msg_length_in_bytes host m
      → 12 + get_clamped_path_length host m ≤ get_acf_msg_length_in_bytes host m
  get_clamped_path_length-le h = ground (arith, get_clamped_path_length_lem)

  pub has_bytes_lem :
      (ptr n : ℕ)
      → ptr + n < 2 ^ 31
      → has_bytes host m ptr n ≡ leb (ptr + n) (get_acf_msg_length_in_bytes host m)
  unfolding has_bytes
  has_bytes_lem ptr n h = ground arith

  -- The length of the path that the PDU tells, its prefix included.
  abbrev pub told_path_length : ℕ
  told_path_length =
      if get_addr_mode host m == 1
      then 4
      else if get_addr_mode host m == 0
      then load_be m 12 2 + 2
      else 0

  -- Where that path fits the message, the getters and the setters see the same.
  module _ (h : 12 + told_path_length ≤ get_acf_msg_length_in_bytes host m) where
    pub get_clamped_path_length_told : get_clamped_path_length host m ≡ told_path_length
    get_clamped_path_length_told = ground (arith, get_clamped_path_length_lem)

    pub calc_vss_path_length_told : calc_vss_path_length host m ≡ told_path_length
    unfolding calc_vss_path_length
    calc_vss_path_length_told =
        rw be_to_cpu16-load (ground (arith, get_acf_msg_length_in_bytes-lt host m))
