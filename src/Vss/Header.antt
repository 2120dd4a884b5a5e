-- ===== src/Vss/Header.antt =====
-- The VSS header through its table: what a write behind it leaves alone, and framing.
use open_lib.Common.{
  ℕ, ◌+◌, ◌-◌, ◌/◌, ◌%◌, ◌^◌, ◌≤◌, ◌<◌, ◌≡◌, ◌↔◌, refl, ◌∙◌, arith, true, ◌==◌, within,
  if◌then◌else◌, some, u64,
}
use open_lib.Memory.{Memory, Endian, load8, memset}
use open_lib.Memory.Laws.{load8-memset}
use open_lib.Utils.{descriptor_at}
use open_lib.Utils.Table.{IsTable, get-set, get_cong, load8-set}
use open_lib.Acf.{get_acf_msg_type, get_acf_msg_length_in_bytes}
use open_lib.Acf.Laws.{StartsAcf, get_acf_msg_length_in_bytes_in}
use open_lib.Vss.{
  table, index, VssField, acf_msg_length, pad, vss_datatype, addr_mode, get, set, get_pad,
  get_addr_mode, get_datatype, is_valid, set_payload_length,
}

pub table-IsTable : IsTable 12 table
table-IsTable = record { fit = refl; disjoint = refl }

pub table-StartsAcf : StartsAcf table
unfolding descriptor_at
table-StartsAcf = record { longer = omega arith; type_at = refl; length_at = refl }

-- Two memories with the same header agree on what the getters read of it.
module _ (host : Endian) (m m' : Memory) (agree : (a : ℕ) → a < 12 → load8 m a ≡ load8 m' a) where
  get-cong : (f : VssField) → get host m f ≡ get host m' f
  unfolding get
  get-cong f = get_cong host table-IsTable m m' (index f) agree

  pub declared-cong : get_acf_msg_length_in_bytes host m ≡ get_acf_msg_length_in_bytes host m'
  declared-cong = omega (
    arith,
    get_acf_msg_length_in_bytes_in host table-StartsAcf m,
    get_acf_msg_length_in_bytes_in host table-StartsAcf m',
    get_cong host table-IsTable m m' 1 agree,
  )

  pub get_addr_mode-cong : get_addr_mode host m ≡ get_addr_mode host m'
  unfolding get_addr_mode
  get_addr_mode-cong = rw (get-cong addr_mode)

  pub get_datatype-cong : get_datatype host m ≡ get_datatype host m'
  unfolding get_datatype
  get_datatype-cong = rw (get-cong vss_datatype)

module _ (host : Endian) (m : Memory) where
  -- `Avtp_Vss_IsValid` accepts exactly the VSS messages that hold their fixed header and lie in the
  -- buffer by their declared length.
  pub vss_is_valid_iff :
      (buffer_size : ℕ)
      → (is_valid host (some m) buffer_size ≡ true)
        ↔ (get_acf_msg_type host m ≡ 0x42)
          × (12 ≤ get_acf_msg_length_in_bytes host m)
          × (get_acf_msg_length_in_bytes host m ≤ buffer_size)
  unfolding is_valid
  vss_is_valid_iff buffer_size = ground arith

  module _ (n : ℕ) (fits : 12 + n ≤ 2044) where
    abbrev pad_size : ℕ
    pad_size = (4 - (12 + n) % 4) % 4

    abbrev framed : Memory
    framed = set_payload_length host m n

    abbrev cleared : Memory
    cleared = if (12 + n) % 4 == 0 then m else memset m (12 + n) 0 pad_size

    framed_steps :
        framed ≡ set host (set host cleared acf_msg_length ((12 + n + pad_size) / 4)) pad pad_size
    unfolding set_payload_length
    framed_steps =
        let e : (12 + n) % 2 ^ 16 ≡ 12 + n = omega arith in
        let e' : pad_size % 2 ^ 8 ≡ pad_size = omega arith in
        let e'' : (12 + n + pad_size) % 2 ^ 16 ≡ 12 + n + pad_size = omega arith in rw (e, e', e'')

    framed_length : get_acf_msg_length_in_bytes host framed ≡ 12 + n + pad_size
    unfolding set descriptor_at index
    framed_length = rw framed_steps (
        omega (
          arith,
          get_acf_msg_length_in_bytes_in host table-StartsAcf
              (set host (set host cleared acf_msg_length ((12 + n + pad_size) / 4)) pad pad_size),
          get-set host table-IsTable (set host cleared acf_msg_length ((12 + n + pad_size) / 4)) 2
              (u64 pad_size) 1,
          get-set host table-IsTable cleared 1 (u64 ((12 + n + pad_size) / 4)) 1,
        ))

    framed_pad : get_pad host framed ≡ pad_size
    unfolding set get_pad get descriptor_at index
    framed_pad = rw framed_steps (
        omega (
          arith,
          get-set host table-IsTable (set host cleared acf_msg_length ((12 + n + pad_size) / 4)) 2
              (u64 pad_size) 2,
        ))

    framed_bytes :
        (a : ℕ)
        → 12 ≤ a
        → load8 framed a ≡ (if within (12 + n) (12 + n + pad_size) a then 0 else load8 m a)
    unfolding set index
    framed_bytes a h = rw framed_steps (
        load8-set host table-IsTable (set host cleared acf_msg_length ((12 + n + pad_size) / 4)) 2
          (u64 pad_size) a h
        ∙ load8-set host table-IsTable cleared 1 (u64 ((12 + n + pad_size) / 4)) a h
        ∙ ground (arith, load8-memset m (12 + n) 0 pad_size a))

    -- After `Avtp_Vss_SetPayloadLength` the declared length is that of the header, the payload and
    -- the padding that the PAD field tells, which is the least that makes it whole quadlets; the
    -- padding is zero, and every other byte behind the header is as it was. The message length field
    -- has nine bits, so that header and payload have at most 2044 bytes.
    pub vss_set_payload_length_lem :
        (get_acf_msg_length_in_bytes host framed ≡ 12 + n + get_pad host framed)
        × (get_acf_msg_length_in_bytes host framed % 4 ≡ 0)
        × (get_pad host framed < 4)
        × ((a : ℕ)
            → 12 ≤ a
            → load8 framed a
              ≡ (if within (12 + n) (12 + n + get_pad host framed) a then 0 else load8 m a))
    vss_set_payload_length_lem = (
      omega (arith, framed_length, framed_pad),
      omega (arith, framed_length),
      omega (arith, framed_pad),
      λ a h. rw framed_pad (framed_bytes a h),
    )
