-- ===== src/Header/Versioned.antt =====
-- The interface of the headers that have a version 0 and a version 1 (CommonStreamHeader.h,
-- AlternativeHeader.h, Crf.h, Rvf.h, acf/Tscf.h, acf/Ntscf.h, aaf/Aaf.h, aaf/Pcm.h and cvf/Cvf.h under
-- include/avtp): a table of descriptors for each version, and `GetField` and `SetField`, which choose
-- the table by the version field of the PDU itself.
use open_lib.Common.{
  ℕ, zero, suc, [], ◌∷◌, lt→ltb, ◌%◌, ◌^◌, ◌≤◌, ◌≡◌, refl, arith, true, ◌==◌, if◌then◌else◌, List,
  length, u8, u64, dec_lt, ℕ_discrete,
}
use open_lib.Memory.{Memory, Endian, load8}
use open_lib.Utils.{FieldDescriptor, desc, descriptor_at, get_in, set_in}
use open_lib.Utils.Table.{IsTable, get-set, load8-set, set_out_of_range, get_value}
use open_lib.Utils.Apart.{tables_apart, get-set_apart}
use open_lib.Header.CommonHeader

-- The subtype and the version, which lie at the same place in every header.
abbrev pub identity_table : List FieldDescriptor
identity_table = desc 0 0 8 ∷ desc 0 9 3 ∷ []

pub record VersionedHeader (Field : Type 0) : Type 0 where
  pub index : Field → ℕ
  pub table_v0 : List FieldDescriptor
  pub table_v1 : List FieldDescriptor
  pub header_len_v0 : ℕ
  pub header_len_v1 : ℕ
  pub get_field : Endian → Memory → Field → ℕ
  pub set_field : Endian → Memory → Field → ℕ → Memory

-- What each header has to fulfil: sound tables that leave the identity alone, and accessors that
-- dispatch on the version of the PDU.
pub record IsVersioned {Field : Type 0} (header : VersionedHeader Field) : Type 0 where
  pub is_table_v0 : IsTable header.header_len_v0 header.table_v0
  pub is_table_v1 : IsTable header.header_len_v1 header.table_v1
  pub apart_v0 : tables_apart header.table_v0 identity_table ≡ true
  pub apart_v1 : tables_apart header.table_v1 identity_table ≡ true
  pub identity_apart_v0 : tables_apart identity_table header.table_v0 ≡ true
  pub identity_apart_v1 : tables_apart identity_table header.table_v1 ≡ true
  pub reads :
      (host : Endian) (m : Memory) (field : Field)
      → header.get_field host m field ≡ (
          if CommonHeader.get_version host m == 1
          then get_in host header.table_v1 (length header.table_v1) m (header.index field)
          else get_in host header.table_v0 (length header.table_v0) m (header.index field))
  pub writes :
      (host : Endian) (m : Memory) (field : Field) (value : ℕ)
      → header.set_field host m field value ≡ (
          if CommonHeader.get_version host m == 1
          then set_in host header.table_v1
              (length header.table_v1)
              m
              (header.index field)
              (u64 value)
          else set_in host header.table_v0
              (length header.table_v0)
              m
              (header.index field)
              (u64 value))

pub identity-IsTable : IsTable 4 identity_table
identity-IsTable = record { fit = refl; disjoint = refl }

absent_bits :
    (table : List FieldDescriptor) (i : ℕ) → length table ≤ i → (descriptor_at table i).bits ≡ 0
unfolding descriptor_at
absent_bits [] i h = refl
absent_bits (d ∷ ds) zero h = absurd (omega arith)
absent_bits (d ∷ ds) (suc i) h = absent_bits ds i (omega arith)

module _ (host : Endian) where
  pub get_version_in :
      (m : Memory) → CommonHeader.get_version host m ≡ u8 (get_in host identity_table 2 m 1)
  unfolding CommonHeader.get_version CommonHeader.get CommonHeader.index get_in descriptor_at
  get_version_in m = refl

  pub get_subtype_in :
      (m : Memory) → CommonHeader.get_subtype host m ≡ u8 (get_in host identity_table 2 m 0)
  unfolding CommonHeader.get_subtype CommonHeader.get CommonHeader.index get_in descriptor_at
  get_subtype_in m = refl

module _ (host : Endian) {bytes : ℕ} {table : List FieldDescriptor} (ok : IsTable bytes table)
    (separate : tables_apart table identity_table ≡ true) where
  pub get_version-set :
      (m : Memory) (i v : ℕ)
      → CommonHeader.get_version host (set_in host table (length table) m i v)
        ≡ CommonHeader.get_version host m
  get_version-set m i v =
      rw (get_version_in, get_version_in, get-set_apart host ok identity-IsTable separate m i v 1)

  pub get_subtype-set :
      (m : Memory) (i v : ℕ)
      → CommonHeader.get_subtype host (set_in host table (length table) m i v)
        ≡ CommonHeader.get_subtype host m
  get_subtype-set m i v =
      rw (get_subtype_in, get_subtype_in, get-set_apart host ok identity-IsTable separate m i v 0)

  -- A field that the table lacks has no bits, and reads 0.
  get-set_any :
      (m : Memory) (i v j : ℕ)
      → get_in host table (length table) (set_in host table (length table) m i v) j ≡ (
          if i == j
          then v % 2 ^ (descriptor_at table i).bits
          else get_in host table (length table) m j)
  get-set_any m i v j = elim (dec_lt i (length table)) [
    | yes p ↦ ground (arith, get-set host ok m i v j, lt→ltb i (length table) p)
    | no out ↦ elim (ℕ_discrete i j) [
      | yes e ↦
          rw (← e, absent_bits table i (omega arith))
            (ground (arith, get_value host ok (set_in host table (length table) m i v) i))
      | no ne ↦ rw (set_out_of_range host ok m i v (omega arith)) (ground arith)
    ]
  ]

module _ (host : Endian) {Field : Type 0} {header : VersionedHeader Field}
    (ok : IsVersioned header) where
  open header use {index, table_v0, table_v1, header_len_v0, header_len_v1, get_field, set_field}

  -- The bits that a field has in the version of the PDU.
  abbrev pub field_bits : Memory → Field → ℕ
  field_bits m field =
      if CommonHeader.get_version host m == 1
      then (descriptor_at table_v1 (index field)).bits
      else (descriptor_at table_v0 (index field)).bits

  pub get_version-set_field :
      (m : Memory) (field : Field) (value : ℕ)
      → CommonHeader.get_version host (set_field host m field value)
        ≡ CommonHeader.get_version host m
  get_version-set_field m field value = ground (
    arith,
    ok.writes host m field value,
    get_version-set host ok.is_table_v0 ok.apart_v0 m (index field) (u64 value),
    get_version-set host ok.is_table_v1 ok.apart_v1 m (index field) (u64 value),
  )

  pub get_subtype-set_field :
      (m : Memory) (field : Field) (value : ℕ)
      → CommonHeader.get_subtype host (set_field host m field value)
        ≡ CommonHeader.get_subtype host m
  get_subtype-set_field m field value = ground (
    arith,
    ok.writes host m field value,
    get_subtype-set host ok.is_table_v0 ok.apart_v0 m (index field) (u64 value),
    get_subtype-set host ok.is_table_v1 ok.apart_v1 m (index field) (u64 value),
  )

  -- In a header with two versions, a field that `SetField` writes reads back through `GetField` as
  -- the value cut to the bits that the PDU's own version gives the field, and every other field
  -- keeps its value.
  pub get_field-set_field :
      (m : Memory) (f g : Field) (value : ℕ)
      → get_field host (set_field host m f value) g
        ≡ (if index f == index g then u64 value % 2 ^ field_bits m f else get_field host m g)
  get_field-set_field m f g value =
      rw (ok.reads host (set_field host m f value) g, get_version-set_field m f value)
        (ground (
          arith,
          ok.writes host m f value,
          ok.reads host m g,
          get-set_any host ok.is_table_v0 ok.apart_v0 m (index f) (u64 value) (index g),
          get-set_any host ok.is_table_v1 ok.apart_v1 m (index f) (u64 value) (index g),
        ))

  -- Whatever `SetField` writes, the version and the subtype of the PDU stay, and so does every byte
  -- behind the header of the PDU's version.
  pub set_field-keeps :
      (m : Memory) (f : Field) (value : ℕ)
      → (CommonHeader.get_version host (set_field host m f value) ≡ CommonHeader.get_version host m)
        × (CommonHeader.get_subtype host (set_field host m f value)
            ≡ CommonHeader.get_subtype host m)
        × ((a : ℕ)
            → (if CommonHeader.get_version host m == 1 then header_len_v1 else header_len_v0) ≤ a
            → load8 (set_field host m f value) a ≡ load8 m a)
  set_field-keeps m f value = (
    get_version-set_field m f value,
    get_subtype-set_field m f value,
    λ a h. ground (
      arith,
      ok.writes host m f value,
      load8-set host ok.is_table_v0 m (index f) (u64 value) a,
      load8-set host ok.is_table_v1 m (index f) (u64 value) a,
    ),
  )
