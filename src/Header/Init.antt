-- ===== src/Header/Init.antt =====
-- `InitV0`, `InitV1` and `Init` of the formats with two versions: clear the header, write the subtype,
-- write the version unless it is 0, in CVF write the format field, and set SV.
use open_lib.Common.{
  ℕ, ◌%◌, ◌^◌, ◌≤◌, ◌<◌, ◌≡◌, ℕ_discrete, arith, ◌∙◌, ◌==◌, if◌then◌else◌, u8, u64, Option, some,
  none,
}
use open_lib.Memory.{Memory, Endian, load8, memset}
use open_lib.Utils.{descriptor_at}
use open_lib.Header.Versioned.{
  VersionedHeader, IsVersioned, get_version-set_field, get_subtype-set_field, get_field-set_field,
  set_field-keeps,
}
use open_lib.Header.CommonHeader
use open_lib.Header.Named.{
  get_version-named, get-named, get-set_version-named, load8-named, load8-set_version-named,
  get_version-set_version, get_subtype-set_subtype, get_subtype-set_version,
}

-- What `Init` of a format needs beyond its fields: the SV field, the subtype, and the field that it
-- writes besides, if there is one, with its value.
pub record VersionedInit {Field : Type 0} (header : VersionedHeader Field) : Type 0 where
  pub sv : Field
  pub subtype : ℕ
  pub preset : Option Field
  pub preset_value : ℕ
  pub init : Endian → Option Memory → ℕ → Option Memory

module _ {Field : Type 0} (header : VersionedHeader Field) where
  open header use {index, table_v0, table_v1, set_field}

  -- The write of the preset field, the value it gives every field, and that the value fits.
  abbrev pub filled : Option Field → ℕ → Endian → Memory → Memory
  filled none v host m = m
  filled (some f) v host m = set_field host m f v

  abbrev pub preset_of : Option Field → ℕ → Field → ℕ
  preset_of none v g = 0
  preset_of (some f) v g = if index f == index g then v else 0

  abbrev pub PresetFits : Option Field → ℕ → Type 0
  PresetFits none v = Unit
  PresetFits (some f) v =
      (u64 v % 2 ^ (descriptor_at table_v0 (index f)).bits ≡ v)
      × (u64 v % 2 ^ (descriptor_at table_v1 (index f)).bits ≡ v)

module _ {Field : Type 0} {header : VersionedHeader Field} (format : VersionedInit header)
    (host : Endian) (m : Memory) where
  open header use {set_field, header_len_v0, header_len_v1}
  open format use {sv, subtype, preset, preset_value}

  abbrev pub cleared_v0 : Memory
  cleared_v0 = CommonHeader.set_subtype host (memset m 0 0 header_len_v0) subtype

  abbrev pub cleared_v1 : Memory
  cleared_v1 =
      CommonHeader.set_version host
        (CommonHeader.set_subtype host (memset m 0 0 header_len_v1) subtype) 1

  abbrev pub started_v0 : Memory
  started_v0 = set_field host (filled header preset preset_value host cleared_v0) sv 1

  abbrev pub started_v1 : Memory
  started_v1 = set_field host (filled header preset preset_value host cleared_v1) sv 1

pub record IsInit {Field : Type 0} {header : VersionedHeader Field} (format : VersionedInit header)
    : Type 0 where
  pub starts :
      (host : Endian) (m : Memory) (version : ℕ)
      → format.init host (some m) version
        ≡ some (if u8 version == 1 then started_v1 format host m else started_v0 format host m)
  pub null : (host : Endian) (version : ℕ) → format.init host none version ≡ none
  pub sv_bit_v0 : (descriptor_at header.table_v0 (header.index format.sv)).bits ≡ 1
  pub sv_bit_v1 : (descriptor_at header.table_v1 (header.index format.sv)).bits ≡ 1
  pub preset_fits : PresetFits header format.preset format.preset_value
  pub subtype_fits : format.subtype < 256
  pub long_v0 : 4 ≤ header.header_len_v0
  pub long_v1 : 4 ≤ header.header_len_v1

module _ (host : Endian) {Field : Type 0} {header : VersionedHeader Field} (ok : IsVersioned header)
    {format : VersionedInit header} (starts : IsInit format) (m : Memory) where
  open header use {index, get_field, set_field, table_v0, table_v1, header_len_v0, header_len_v1}
  open format use {sv, subtype, preset, preset_value}

  -- The PDU `after` is one of the given version with the given values in its fields, and with the bytes
  -- behind the header as in `m`.
  abbrev pub IsFilled : ℕ → (Field → ℕ) → Memory → Type 0
  IsFilled version value after =
      (CommonHeader.get_version host after ≡ version)
      × (CommonHeader.get_subtype host after ≡ subtype)
      × ((field : Field) → get_field host after field ≡ value field)
      × ((a : ℕ)
          → (if version == 1 then header_len_v1 else header_len_v0) ≤ a
          → load8 after a ≡ load8 m a)

  -- SV is set, the preset field has its value, every other field is 0.
  abbrev pub IsStarted : ℕ → Memory → Type 0
  IsStarted version =
      IsFilled version
        λ field. if index field == index sv then 1 else preset_of header preset preset_value field

  set_field-IsFilled :
      (version : ℕ) (value : Field → ℕ) (x : Memory) (f : Field) (v w : ℕ)
      → (u64 v % 2 ^ (descriptor_at table_v0 (index f)).bits ≡ w)
      → (u64 v % 2 ^ (descriptor_at table_v1 (index f)).bits ≡ w)
      → IsFilled version value x
      → IsFilled version (λ g. if index f == index g then w else value g) (set_field host x f v)
  set_field-IsFilled version value x f v w fits_v0 fits_v1
        (version_is, subtype_is, values, behind) =
      (
        get_version-set_field host ok x f v ∙ version_is,
        get_subtype-set_field host ok x f v ∙ subtype_is,
        λ g. ground (arith, get_field-set_field host ok x f g v, fits_v0, fits_v1, values g),
        λ a h. ground (arith, (set_field-keeps host ok x f v).2 a, version_is, behind a h),
      )

  filled-IsFilled :
      (version : ℕ) (x : Memory) (p : Option Field) (v : ℕ)
      → PresetFits header p v
      → IsFilled version (λ g. 0) x
      → IsFilled version (preset_of header p v) (filled header p v host x)
  filled-IsFilled version x none v fits holds = holds
  filled-IsFilled version x (some f) v (fits_v0, fits_v1) holds =
      set_field-IsFilled version (λ g. 0) x f v v fits_v0 fits_v1 holds

  set_field-IsStarted :
      (version : ℕ) (x : Memory)
      → IsFilled version (λ g. 0) x
      → IsStarted version (set_field host (filled header preset preset_value host x) sv 1)
  set_field-IsStarted version x holds =
      let filled_x = filled-IsFilled version x preset preset_value starts.preset_fits holds in
      let set_x =
        set_field-IsFilled version (preset_of header preset preset_value)
          (filled header preset preset_value host x) sv 1 1 (rw starts.sv_bit_v0)
          (rw starts.sv_bit_v1) filled_x in
      (set_x.0, set_x.1, λ g. ground (arith, set_x.2 g), set_x.3)

  cleared_v0-IsFilled : IsFilled 0 (λ g. 0) (cleared_v0 format host m)
  cleared_v0-IsFilled =
      let version =
        get_version-named host m ok.is_table_v0 ok.identity_apart_v0 starts.long_v0 subtype in
      (
        version,
        ground (
          arith,
          get_subtype-set_subtype host (memset m 0 0 header_len_v0) subtype,
          starts.subtype_fits,
        ),
        λ g. ground (
          arith,
          version,
          ok.reads host (cleared_v0 format host m) g,
          get-named host m ok.is_table_v0 ok.identity_apart_v0 starts.long_v0 subtype (index g),
        ),
        λ a h. load8-named host m ok.is_table_v0 ok.identity_apart_v0 starts.long_v0 subtype a h,
      )

  cleared_v1-IsFilled : IsFilled 1 (λ g. 0) (cleared_v1 format host m)
  cleared_v1-IsFilled =
      let named = CommonHeader.set_subtype host (memset m 0 0 header_len_v1) subtype in
      let version = get_version-set_version host named 1 in
      (
        ground (arith, version),
        ground (
          arith,
          get_subtype-set_version host named 1,
          get_subtype-set_subtype host (memset m 0 0 header_len_v1) subtype,
          starts.subtype_fits,
        ),
        λ g. ground (
          arith,
          version,
          ok.reads host (cleared_v1 format host m) g,
          get-set_version-named host m ok.is_table_v1 ok.identity_apart_v1 starts.long_v1 subtype
              (index g),
        ),
        λ a h.
            load8-set_version-named host m ok.is_table_v1 ok.identity_apart_v1 starts.long_v1
              subtype a h,
      )

  -- `Init` of a format that fulfils `IsInit` (Header/InitFormats has TSCF, NTSCF, CRF, AAF, PCM, CVF and
  -- RVF) leaves a PDU of version 1 where the version asked for is 1, and one of version 0 for any other
  -- number. The PDU has the format's subtype, SV is set, the field that the format presets, if there is
  -- one, has its value (in CVF the format field has that of RFC), every other field reads 0, and no byte
  -- behind the header of that version has changed. NULL stays NULL.
  pub init-IsStarted :
      (version : ℕ)
      → ((after : Memory) × (format.init host (some m) version ≡ some after)
          × IsStarted (if u8 version == 1 then 1 else 0) after)
        × (format.init host none version ≡ none)
  init-IsStarted version = elim (ℕ_discrete (u8 version) 1) [
    | yes e ↦ (
      (
        started_v1 format host m,
        ground (arith, starts.starts host m version),
        rw e (set_field-IsStarted 1 (cleared_v1 format host m) cleared_v1-IsFilled),
      ),
      starts.null host version,
    )
    | no ne ↦ (
      (
        started_v0 format host m,
        ground (arith, starts.starts host m version),
        ground (arith, set_field-IsStarted 0 (cleared_v0 format host m) cleared_v0-IsFilled),
      ),
      starts.null host version,
    )
  ]
