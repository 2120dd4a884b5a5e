-- ===== src/Header/Holds.antt =====
-- A header seen through one table of descriptors: its version, its subtype and the value of each field,
-- through the writes that the functions of a format with two versions make.
use open_lib.Common.{
  ℕ, ◌%◌, ◌^◌, ◌≤◌, ◌<◌, ◌≡◌, sym, ◌∙◌, arith, true, ltb, ◌&&◌, ◌==◌, if◌then◌else◌, List, length,
}
use open_lib.Memory.{Memory, Endian, load8}
use open_lib.Utils.{FieldDescriptor, descriptor_at, get_in, set_in}
use open_lib.Utils.Table.{IsTable, get-set, get_cong}
use open_lib.Utils.Apart.{tables_apart}
use open_lib.Header.CommonHeader
use open_lib.Header.Versioned.{
  identity_table, identity-IsTable, get_version_in, get_subtype_in, get_version-set,
  get_subtype-set,
}

pub record Holds (host : Endian) (table : List FieldDescriptor) (version subtype : ℕ)
    (value : ℕ → ℕ) (m : Memory) : Type 0 where
  pub version_is : CommonHeader.get_version host m ≡ version
  pub subtype_is : CommonHeader.get_subtype host m ≡ subtype
  pub field_is : (i : ℕ) → get_in host table (length table) m i ≡ value i

module _ (host : Endian) {bytes : ℕ} {table : List FieldDescriptor} (ok : IsTable bytes table)
    (separate : tables_apart table identity_table ≡ true) {version subtype : ℕ} {value : ℕ → ℕ}
    {m : Memory} (holds : Holds host table version subtype value m) where
  -- The values after a write.
  abbrev pub written : ℕ → ℕ → ℕ → ℕ
  written i v j =
      if ltb i (length table) && i == j then v % 2 ^ (descriptor_at table i).bits else value j

  pub set-Holds :
      (i v : ℕ)
      → Holds host table version subtype (written i v) (set_in host table (length table) m i v)
  set-Holds i v = record {
    version_is = get_version-set host ok separate m i v ∙ holds.version_is;
    subtype_is = get_subtype-set host ok separate m i v ∙ holds.subtype_is;
    field_is = λ j. get-set host ok m i v j ∙ ground (arith, holds.field_is j);
  }

  -- The bytes of the header decide.
  pub Holds-cong :
      (other : Memory)
      → 4 ≤ bytes
      → ((a : ℕ) → a < bytes → load8 m a ≡ load8 other a)
      → Holds host table version subtype value other
  Holds-cong other long agree =
      let identity =
        λ (i : ℕ). get_cong host identity-IsTable m other i λ a lt. agree a (omega arith) in
      record {
        version_is =
            ground (
              arith,
              get_version_in host m,
              get_version_in host other,
              identity 1,
              holds.version_is,
            );
        subtype_is =
            ground (
              arith,
              get_subtype_in host m,
              get_subtype_in host other,
              identity 0,
              holds.subtype_is,
            );
        field_is = λ i. sym (get_cong host ok m other i agree) ∙ holds.field_is i;
      }
