-- ===== src/Header/Named.antt =====
-- A header after `memset`, `Avtp_CommonHeader_SetSubtype` and `Avtp_CommonHeader_SetVersion` of
-- include/avtp/CommonHeader.h, as the `Init` functions start.
use open_lib.Common.{ℕ, ◌%◌, ◌≤◌, ◌≡◌, refl, arith, true, List, length, u8, u64}
use open_lib.Memory.{Memory, Endian, load8, memset}
use open_lib.Memory.Laws.{load8-memset}
use open_lib.Utils.{FieldDescriptor, descriptor_at, get_in, set_in}
use open_lib.Utils.Table.{IsTable, get-set, get_zero, load8-set}
use open_lib.Utils.Apart.{get-set_apart, tables_apart}
use open_lib.Header.Versioned.{identity_table, identity-IsTable, get_version_in, get_subtype_in}
use open_lib.Header.CommonHeader

-- The common header's two setters as writes through the identity table.
module _ (host : Endian) (m : Memory) where
  set_subtype_in :
      (v : ℕ) → CommonHeader.set_subtype host m v ≡ set_in host identity_table 2 m 0 (u64 (u8 v))
  unfolding CommonHeader.set_subtype CommonHeader.set CommonHeader.index set_in descriptor_at
  set_subtype_in v = refl

  set_version_in :
      (v : ℕ) → CommonHeader.set_version host m v ≡ set_in host identity_table 2 m 1 (u64 (u8 v))
  unfolding CommonHeader.set_version CommonHeader.set CommonHeader.index set_in descriptor_at
  set_version_in v = refl

  pub get_version-set_subtype :
      (v : ℕ)
      → CommonHeader.get_version host (CommonHeader.set_subtype host m v)
        ≡ CommonHeader.get_version host m
  get_version-set_subtype v = rw set_subtype_in (
      ground (
        arith,
        get_version_in host m,
        get_version_in host (set_in host identity_table 2 m 0 (u64 (u8 v))),
        get-set host identity-IsTable m 0 (u64 (u8 v)) 1,
      ))

  pub get_subtype-set_subtype :
      (v : ℕ) → CommonHeader.get_subtype host (CommonHeader.set_subtype host m v) ≡ u8 v
  unfolding descriptor_at
  get_subtype-set_subtype v = rw set_subtype_in (
      ground (
        arith,
        get_subtype_in host (set_in host identity_table 2 m 0 (u64 (u8 v))),
        get-set host identity-IsTable m 0 (u64 (u8 v)) 0,
      ))

  pub get_version-set_version :
      (v : ℕ) → CommonHeader.get_version host (CommonHeader.set_version host m v) ≡ v % 8
  unfolding descriptor_at
  get_version-set_version v = rw set_version_in (
      ground (
        arith,
        get_version_in host (set_in host identity_table 2 m 1 (u64 (u8 v))),
        get-set host identity-IsTable m 1 (u64 (u8 v)) 1,
      ))

  pub get_subtype-set_version :
      (v : ℕ)
      → CommonHeader.get_subtype host (CommonHeader.set_version host m v)
        ≡ CommonHeader.get_subtype host m
  get_subtype-set_version v = rw set_version_in (
      ground (
        arith,
        get_subtype_in host m,
        get_subtype_in host (set_in host identity_table 2 m 1 (u64 (u8 v))),
        get-set host identity-IsTable m 1 (u64 (u8 v)) 0,
      ))

-- A header that was cleared and named.
module _ (host : Endian) (m : Memory) {bytes : ℕ} {table : List FieldDescriptor}
    (ok : IsTable bytes table) (separate : tables_apart identity_table table ≡ true)
    (long : 4 ≤ bytes) (subtype : ℕ) where
  abbrev named : Memory
  named = CommonHeader.set_subtype host (memset m 0 0 bytes) subtype

  pub get_version-named : CommonHeader.get_version host named ≡ 0
  get_version-named =
      rw (get_version-set_subtype host (memset m 0 0 bytes) subtype, get_version_in)
        (ground (
          arith,
          get_zero host identity-IsTable (memset m 0 0 bytes) 1
              λ a h. ground (arith, load8-memset m 0 0 bytes a),
        ))

  pub get-named : (i : ℕ) → get_in host table (length table) named i ≡ 0
  get-named i = rw set_subtype_in (
      ground (
        arith,
        get-set_apart host identity-IsTable ok separate (memset m 0 0 bytes) 0 (u64 (u8 subtype)) i,
        get_zero host ok (memset m 0 0 bytes) i λ a h. ground (arith, load8-memset m 0 0 bytes a),
      ))

  pub get-set_version-named :
      (i : ℕ) → get_in host table (length table) (CommonHeader.set_version host named 1) i ≡ 0
  get-set_version-named i = rw set_version_in (
      ground (
        arith,
        get-set_apart host identity-IsTable ok separate named 1 (u64 (u8 1)) i,
        get-named i,
      ))

  pub load8-named : (a : ℕ) → bytes ≤ a → load8 named a ≡ load8 m a
  load8-named a h = rw set_subtype_in (
      ground (
        arith,
        load8-set host identity-IsTable (memset m 0 0 bytes) 0 (u64 (u8 subtype)) a,
        load8-memset m 0 0 bytes a,
      ))

  pub load8-set_version-named :
      (a : ℕ) → bytes ≤ a → load8 (CommonHeader.set_version host named 1) a ≡ load8 m a
  load8-set_version-named a h =
      rw set_version_in
        (ground (arith, load8-set host identity-IsTable named 1 (u64 (u8 1)) a, load8-named a h))
