-- ===== src/Utils/Apart.antt =====
-- Two tables of field descriptors laid over one header, as a format's own table and the table of
-- include/avtp/CommonHeader.h are: a write through the one, read through the other.
use open_lib.Common.{ℕ, zero, suc, ◌<◌, ◌≡◌, arith, Bool, true, length, List, [], ◌∷◌, ◌&&◌, dec_lt}
use open_lib.Memory.{Memory, Endian}
use open_lib.Utils.{FieldDescriptor, descriptor_at, get_in, set_in, write_field}
use open_lib.Utils.Table.{
  IsTable, apart, apart_from, get_value, set_in_at, set_out_of_range, bits_value-apart, descriptor,
}

-- Every field of the one is apart from every field of the other.
abbrev pub tables_apart : List FieldDescriptor → List FieldDescriptor → Bool
tables_apart [] table = true
tables_apart (d ∷ ds) table = apart_from d table && tables_apart ds table

-- The descriptor is apart from the one at each index of the table.
apart_from_at :
    (d : FieldDescriptor) (table : List FieldDescriptor) (i : ℕ)
    → apart_from d table ≡ true
    → i < length table
    → apart d (descriptor_at table i) ≡ true
unfolding descriptor_at
apart_from_at d [] i h lt = absurd (omega arith)
apart_from_at d (e ∷ es) zero h lt = ground arith
apart_from_at d (e ∷ es) (suc i) h lt = apart_from_at d es i (ground arith) (omega arith)

-- So are any two, one of each table.
apart_at :
    (table table' : List FieldDescriptor) (i j : ℕ)
    → tables_apart table table' ≡ true
    → i < length table
    → j < length table'
    → apart (descriptor_at table i) (descriptor_at table' j) ≡ true
unfolding descriptor_at
apart_at [] table' i j h p q = absurd (omega arith)
apart_at (d ∷ ds) table' zero j h p q = apart_from_at d table' j (ground arith) q
apart_at (d ∷ ds) table' (suc i) j h p q = apart_at ds table' i j (ground arith) (omega arith) q

module _ (host : Endian) {bytes bytes' : ℕ} {table table' : List FieldDescriptor}
    (ok : IsTable bytes table) (ok' : IsTable bytes' table')
    (separate : tables_apart table table' ≡ true) where
  -- A write through the one table leaves every field of the other.
  pub get-set_apart :
      (m : Memory) (i v j : ℕ)
      → get_in host table' (length table') (set_in host table (length table) m i v) j
        ≡ get_in host table' (length table') m j
  get-set_apart m i v j = elim (dec_lt i (length table)) [
    | yes p ↦ elim (dec_lt j (length table')) [
      | yes q ↦ rw (set_in_at host table (length table) m i p v) (
          ground (
            arith,
            get_value host ok' (write_field host (descriptor_at table i) m v) j,
            get_value host ok' m j,
            bits_value-apart host (descriptor host ok i p) m v (descriptor_at table' j)
                (apart_at table table' i j separate p q),
          ))
      | no out ↦ ground (
        arith,
        get_value host ok' m j,
        get_value host ok' (set_in host table (length table) m i v) j,
      )
    ]
    | no out ↦ rw (set_out_of_range host ok m i v (omega arith))
  ]
