-- ===== src/Acf/Padded/Header.antt =====
-- The header operations of a padded format, field by field and byte by byte.
use open_lib.Common.{ℕ, ◌%◌, ◌≤◌, ◌<◌, ◌≡◌, arith, ◌==◌, if◌then◌else◌, length, u8}
use open_lib.Memory.{Memory, Endian, load8, memset, memcpy}
use open_lib.Memory.Laws.{load8-memset, load8-memcpy}
use open_lib.Utils.{get_in}
use open_lib.Utils.Table.{get-lt, get-set, get_cong, load8-set}
use open_lib.Acf.{set_acf_msg_type, set_acf_msg_length}
use open_lib.Acf.Laws.{set_acf_msg_type_in, set_acf_msg_length_in}
use open_lib.Acf.Padded.{PaddedFormat, IsPadded, get_pad, set_pad}

module _ (host : Endian) {format : PaddedFormat} (ok : IsPadded format) where
  open format use {header_len, table, pad_field}

  -- Field `i` of the format's own table.
  abbrev pub field : Memory → ℕ → ℕ
  field m i = get_in host table (length table) m i

  pub get_pad-lt : (m : Memory) → get_pad host format m < 4
  unfolding get_pad
  get_pad-lt m = let h = get-lt host ok.is_table m pad_field in omega (arith, rw ok.pad_two at h)

  pub get_pad-field : (m : Memory) → get_pad host format m ≡ field m pad_field
  unfolding get_pad
  get_pad-field m = let h = get-lt host ok.is_table m pad_field in omega (arith, rw ok.pad_two at h)

  pub field-set_pad :
      (m : Memory) (v j : ℕ)
      → v < 4
      → field (set_pad host format m v) j ≡ (if pad_field == j then v else field m j)
  unfolding set_pad
  field-set_pad m v j h =
      let e : u8 v % 4 ≡ v = omega arith in
      rw (get-set host ok.is_table m pad_field (u8 v) j, ok.pad_two) (ground (arith, ok.pad_in))

  pub field-set_acf_msg_length :
      (m : Memory) (v j : ℕ)
      → v < 512
      → field (set_acf_msg_length host m v) j ≡ (if 1 == j then v else field m j)
  field-set_acf_msg_length m v j h =
      rw
        (
          set_acf_msg_length_in host ok.starts_acf m v (omega arith),
          get-set host ok.is_table m 1 v j,
          ok.starts_acf.length_at,
        )
        (ground (arith, ok.starts_acf.longer))

  pub field-set_acf_msg_type :
      (m : Memory) (v j : ℕ)
      → v < 128
      → field (set_acf_msg_type host m v) j ≡ (if 0 == j then v else field m j)
  field-set_acf_msg_type m v j h =
      rw
        (
          set_acf_msg_type_in host ok.starts_acf m v (omega arith),
          get-set host ok.is_table m 0 v j,
          ok.starts_acf.type_at,
        )
        (ground (arith, ok.starts_acf.longer))

  -- What is behind the header is no part of a field.
  pub field_cong :
      (m m' : Memory) (j : ℕ)
      → ((a : ℕ) → a < header_len → load8 m a ≡ load8 m' a)
      → field m j ≡ field m' j
  field_cong m m' j h = get_cong host ok.is_table m m' j h

  pub field-memset :
      (m : Memory) (a v n j : ℕ) → header_len ≤ a → field (memset m a v n) j ≡ field m j
  field-memset m a v n j h = field_cong _ m j λ b lt. ground (arith, load8-memset m a v n b)

  pub field-memcpy :
      (m : Memory) (a : ℕ) (src : Memory) (s n j : ℕ)
      → header_len ≤ a
      → field (memcpy m a src s n) j ≡ field m j
  field-memcpy m a src s n j h = field_cong _ m j λ b lt. ground (arith, load8-memcpy m a src s n b)

  -- Nor does a header operation touch what is behind it.
  pub load8-set_pad :
      (m : Memory) (v a : ℕ) → header_len ≤ a → load8 (set_pad host format m v) a ≡ load8 m a
  unfolding set_pad
  load8-set_pad m v a h = load8-set host ok.is_table m pad_field (u8 v) a h

  pub load8-set_acf_msg_length :
      (m : Memory) (v a : ℕ)
      → v < 512
      → header_len ≤ a
      → load8 (set_acf_msg_length host m v) a ≡ load8 m a
  load8-set_acf_msg_length m v a h le =
      rw (set_acf_msg_length_in host ok.starts_acf m v (omega arith))
        (load8-set host ok.is_table m 1 v a le)

  pub load8-set_acf_msg_type :
      (m : Memory) (v a : ℕ)
      → v < 128
      → header_len ≤ a
      → load8 (set_acf_msg_type host m v) a ≡ load8 m a
  load8-set_acf_msg_type m v a h le =
      rw (set_acf_msg_type_in host ok.starts_acf m v (omega arith))
        (load8-set host ok.is_table m 0 v a le)
