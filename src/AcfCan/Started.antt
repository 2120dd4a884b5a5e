-- ===== src/AcfCan/Started.antt =====
-- The control format headers as `init_cf_pdu` of examples/acf-can/acf-can-common.c fills them.
use open_lib.Common.{ℕ, ◌≤◌, ◌<◌, ◌≡◌, arith, true, List}
use open_lib.Memory.{Memory, Endian, memset}
use open_lib.Utils.{FieldDescriptor}
use open_lib.Utils.Table.{IsTable}
use open_lib.Utils.Apart.{tables_apart}
use open_lib.Header.CommonHeader
use open_lib.Header.Versioned.{identity_table}
use open_lib.Header.Named.{
  get_version-named, get-named, get-set_version-named, get_subtype-set_subtype,
  get_subtype-set_version, get_version-set_version,
}
use open_lib.Header.Holds.{Holds}

-- The header after it was cleared and has its subtype and version.
module _ (host : Endian) (m : Memory) {bytes : ℕ} {table : List FieldDescriptor}
    (ok : IsTable bytes table) (separate : tables_apart identity_table table ≡ true)
    (long : 4 ≤ bytes) (subtype : ℕ) (fits : subtype < 256) where
  abbrev pub named : Memory
  named = CommonHeader.set_subtype host (memset m 0 0 bytes) subtype

  pub named-Holds : Holds host table 0 subtype (λ i. 0) named
  named-Holds = record {
    version_is = get_version-named host m ok separate long subtype;
    subtype_is = ground (arith, get_subtype-set_subtype host (memset m 0 0 bytes) subtype);
    field_is = get-named host m ok separate long subtype;
  }

  pub versioned-Holds : Holds host table 1 subtype (λ i. 0) (CommonHeader.set_version host named 1)
  versioned-Holds = record {
    version_is = get_version-set_version host named 1;
    subtype_is = ground (
      arith,
      get_subtype-set_version host named 1,
      get_subtype-set_subtype host (memset m 0 0 bytes) subtype,
    );
    field_is = get-set_version-named host m ok separate long subtype;
  }
