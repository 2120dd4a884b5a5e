-- ===== src/Acf/Laws.antt =====
-- The common fields through their own table and through that of a format that starts with them.
use open_lib.Common.{ℕ, ◌*◌, ◌^◌, ◌<◌, ◌≡◌, refl, arith, List, length, u64, u8, u16, ap}
use open_lib.Memory.{Memory, Endian}
use open_lib.Utils.{FieldDescriptor, desc, get_in, set_in, descriptor_at, read_field}
use open_lib.Utils.Table.{IsTable, get-lt, get_in_at, set_in_at}
use open_lib.Acf.{
  table, index, get, set, get_acf_msg_type, get_acf_msg_length, get_acf_msg_length_in_bytes,
  set_acf_msg_type, set_acf_msg_length,
}

pub table-IsTable : IsTable 4 table
table-IsTable = record { fit = refl; disjoint = refl }

pub get_acf_msg_length-lt : (host : Endian) (m : Memory) → get_acf_msg_length host m < 512
unfolding get_acf_msg_length get index descriptor_at
get_acf_msg_length-lt host m = omega (arith, get-lt host table-IsTable m 1)

pub get_acf_msg_length_in_bytes-lt :
    (host : Endian) (m : Memory) → get_acf_msg_length_in_bytes host m < 2 ^ 11
unfolding get_acf_msg_length_in_bytes
get_acf_msg_length_in_bytes-lt host m = omega (arith, get_acf_msg_length-lt host m)

-- A table whose first two fields are the common ones.
pub record StartsAcf (t : List FieldDescriptor) : Type 0 where
  pub longer : 2 < length t
  pub type_at : descriptor_at t 0 ≡ desc 0 0 7
  pub length_at : descriptor_at t 1 ≡ desc 0 7 9

module _ (host : Endian) {t : List FieldDescriptor} (acf : StartsAcf t) (m : Memory) where
  pub get_acf_msg_type_in : get_acf_msg_type host m ≡ get_in host t (length t) m 0
  unfolding get_acf_msg_type get index descriptor_at
  get_acf_msg_type_in = omega (
    arith,
    get-lt host table-IsTable m 0,
    get_in_at host table 2 m 0 (omega arith),
    get_in_at host t (length t) m 0 (omega (arith, acf.longer)),
    ap (λ d. read_field host d m) acf.type_at,
  )

  pub get_acf_msg_length_in : get_acf_msg_length host m ≡ get_in host t (length t) m 1
  unfolding get_acf_msg_length get index descriptor_at
  get_acf_msg_length_in = omega (
    arith,
    get-lt host table-IsTable m 1,
    get_in_at host table 2 m 1 (omega arith),
    get_in_at host t (length t) m 1 (omega (arith, acf.longer)),
    ap (λ d. read_field host d m) acf.length_at,
  )

  pub get_acf_msg_length_in_bytes_in :
      get_acf_msg_length_in_bytes host m ≡ get_in host t (length t) m 1 * 4
  unfolding get_acf_msg_length_in_bytes
  get_acf_msg_length_in_bytes_in =
      omega (arith, get_acf_msg_length_in, get_acf_msg_length-lt host m)

  pub set_acf_msg_type_in :
      (v : ℕ) → v < 256 → set_acf_msg_type host m v ≡ set_in host t (length t) m 0 v
  unfolding set_acf_msg_type set index
  set_acf_msg_type_in v h =
      let e : u64 (u8 v) ≡ v = omega arith in
      rw
        (
          e,
          set_in_at host table 2 m 0 (omega arith) v,
          set_in_at host t (length t) m 0 (omega (arith, acf.longer)) v,
          acf.type_at,
        )
        (unfold descriptor_at in refl)

  pub set_acf_msg_length_in :
      (v : ℕ) → v < 2 ^ 16 → set_acf_msg_length host m v ≡ set_in host t (length t) m 1 v
  unfolding set_acf_msg_length set index
  set_acf_msg_length_in v h =
      let e : u64 (u16 v) ≡ v = omega arith in
      rw
        (
          e,
          set_in_at host table 2 m 1 (omega arith) v,
          set_in_at host t (length t) m 1 (omega (arith, acf.longer)) v,
          acf.length_at,
        )
        (unfold descriptor_at in refl)
