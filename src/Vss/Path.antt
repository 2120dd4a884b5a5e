-- ===== src/Vss/Path.antt =====
-- src/avtp/acf/custom/Vss.c: the VSS path of a message, `Avtp_Vss_GetVssPath` and
-- `Avtp_Vss_SetVssPath`.
pub mod Laws
use open_lib.Common.{ℕ, ◌+◌, ◌-◌, ◌^◌, ltb, leb, ◌==◌, if◌then◌else◌, u16, u32}
use open_lib.Memory.{Memory, Endian, load, store, memcpy}
use open_lib.Byteorder.{be_to_cpu32, cpu_to_be16, cpu_to_be32}
use open_lib.Vss.{header_len, static_id_mode, interop_mode, get_addr_mode, get_clamped_path_length}

-- `VssInteropPath_t`; `path` is the memory that the pointer points to.
pub record VssInteropPath : Type 0 where
  pub path_length : ℕ
  pub path : Memory

-- `VssPath_t` is a union: the addressing mode of the PDU tells which member the code uses. The
-- member that it does not use is left alone here, where C lets the two share their bytes.
pub record VssPath : Type 0 where
  pub vss_interop_path : VssInteropPath
  pub vss_static_id_path : ℕ

module _ (host : Endian) (m : Memory) where
  -- The two branches of `Avtp_Vss_GetVssPath`, by the clamped length of the path.
  unfoldable pub get_static_id_path : ℕ → ℕ
  get_static_id_path clamped_len =
      if leb 4 clamped_len then be_to_cpu32 host (load host m header_len 4) else 0

  unfoldable pub get_interop_path : ℕ → VssInteropPath → VssInteropPath
  get_interop_path clamped_len val =
      if leb 2 clamped_len
      then record {
        path_length = u16 (clamped_len - 2);
        path = memcpy val.path 0 m (header_len + 2) (clamped_len - 2);
      }
      else record { path_length = 0; path = val.path }

  -- `Avtp_Vss_GetVssPath`; the result is the struct afterwards.
  unfoldable pub get_vss_path : VssPath → VssPath
  get_vss_path val =
      let clamped_len = get_clamped_path_length host m in
      if get_addr_mode host m == static_id_mode
      then record {
        vss_interop_path = val.vss_interop_path;
        vss_static_id_path = get_static_id_path clamped_len;
      }
      else if get_addr_mode host m == interop_mode
      then record {
        vss_interop_path = get_interop_path clamped_len val.vss_interop_path;
        vss_static_id_path = val.vss_static_id_path;
      }
      else val

  -- `Avtp_Vss_SetVssPath`
  unfoldable pub set_vss_path : VssPath → Memory
  set_vss_path val =
      if get_addr_mode host m == static_id_mode
      then store host m header_len 4 (cpu_to_be32 host val.vss_static_id_path)
      else if get_addr_mode host m == interop_mode
      then memcpy (store host m header_len 2 (cpu_to_be16 host val.vss_interop_path.path_length))
          (header_len + 2) val.vss_interop_path.path 0 val.vss_interop_path.path_length
      else m
