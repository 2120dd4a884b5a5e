-- ===== src/Header/Supported.antt =====
-- `Avtp_AvtpduVersion_IsSupported` of include/avtp/CommonHeader.h with the mask of versions 0 and 1,
-- which every format with two versions passes.
use open_lib.Common.{ℕ, zero, suc, ◌<◌, ◌≡◌, refl, arith, ltb}
use open_lib.Memory.{Memory, Endian}
use open_lib.Utils.{descriptor_at}
use open_lib.Utils.Table.{get-lt}
use open_lib.Header.CommonHeader
use open_lib.Header.Versioned.{identity-IsTable, get_version_in}

supported_small : (version : ℕ) → version < 8 → CommonHeader.is_supported 3 version ≡ ltb version 2
unfolding CommonHeader.is_supported
supported_small zero h = refl
supported_small (suc zero) h = refl
supported_small (suc (suc zero)) h = refl
supported_small (suc (suc (suc zero))) h = refl
supported_small (suc (suc (suc (suc zero)))) h = refl
supported_small (suc (suc (suc (suc (suc zero))))) h = refl
supported_small (suc (suc (suc (suc (suc (suc zero)))))) h = refl
supported_small (suc (suc (suc (suc (suc (suc (suc zero))))))) h = refl
supported_small (suc (suc (suc (suc (suc (suc (suc (suc n)))))))) h = absurd (omega arith)

pub get_version-lt : (host : Endian) (m : Memory) → CommonHeader.get_version host m < 8
unfolding descriptor_at
get_version-lt host m = ground (arith, get_version_in host m, get-lt host identity-IsTable m 1)

-- A PDU's version is supported exactly when it is 0 or 1.
pub supported :
    (host : Endian) (m : Memory)
    → CommonHeader.is_supported 3 (CommonHeader.get_version host m)
      ≡ ltb (CommonHeader.get_version host m) 2
supported host m = supported_small (CommonHeader.get_version host m) (get_version-lt host m)
