-- ===== src/Vss/Data.antt =====
-- src/avtp/acf/custom/Vss.c: the VSS data of a message, `Avtp_Vss_GetVssData` and
-- `Avtp_Vss_SetVssData`. Their 24 cases are of three kinds, which repeat the same statements for each
-- element type: one number, an array of bytes copied whole, and an array of numbers.
pub mod Element
pub mod Laws
pub mod Safety
use open_lib.Common.{
  ℕ, zero, suc, ◌+◌, ◌-◌, ◌*◌, ◌/◌, ◌%◌, ◌^◌, ◌==◌, if◌then◌else◌, Option, none, some, u8, u16,
}
use mathlib.Core.Option
use open_lib.Memory.{Memory, Endian, load, store, memcpy}
use open_lib.Byteorder.{
  be_to_cpu16, be_to_cpu32, be_to_cpu64, cpu_to_be16, cpu_to_be32, cpu_to_be64,
}
use open_lib.Vss.{
  header_len, get_datatype, get_clamped_path_length, calc_vss_path_length, has_bytes,
  read_clamped_length,
}

-- The element widths.
pub data Width : Type 0 where
  one two four eight : Width

unfoldable pub bytes : Width → ℕ
bytes one = 1
bytes two = 2
bytes four = 4
bytes eight = 8

-- `Vss_Datatype_t`
pub data VssDatatype : Type 0 where
  vss_uint8 vss_int8 vss_uint16 vss_int16 vss_uint32 vss_int32 vss_uint64 vss_int64 vss_bool
        vss_float vss_double vss_string vss_uint8_array vss_int8_array vss_uint16_array
        vss_int16_array vss_uint32_array vss_int32_array vss_uint64_array vss_int64_array
        vss_bool_array vss_float_array vss_double_array vss_string_array :
      VssDatatype

-- What a number of the DATATYPE field stands for, if anything.
unfoldable pub datatype_of : ℕ → Option VssDatatype
datatype_of n =
    if n == 0x0
    then some vss_uint8
    else if n == 0x1
    then some vss_int8
    else if n == 0x2
    then some vss_uint16
    else if n == 0x3
    then some vss_int16
    else if n == 0x4
    then some vss_uint32
    else if n == 0x5
    then some vss_int32
    else if n == 0x6
    then some vss_uint64
    else if n == 0x7
    then some vss_int64
    else if n == 0x8
    then some vss_bool
    else if n == 0x9
    then some vss_float
    else if n == 0xa
    then some vss_double
    else if n == 0xb
    then some vss_string
    else if n == 0x80
    then some vss_uint8_array
    else if n == 0x81
    then some vss_int8_array
    else if n == 0x82
    then some vss_uint16_array
    else if n == 0x83
    then some vss_int16_array
    else if n == 0x84
    then some vss_uint32_array
    else if n == 0x85
    then some vss_int32_array
    else if n == 0x86
    then some vss_uint64_array
    else if n == 0x87
    then some vss_int64_array
    else if n == 0x88
    then some vss_bool_array
    else if n == 0x89
    then some vss_float_array
    else if n == 0x8a
    then some vss_double_array
    else if n == 0x8b
    then some vss_string_array
    else none

-- What the case of a datatype does.
pub data Kind : Type 0 where
  scalar elements : Width → Kind
  copied : Kind

unfoldable pub kind : VssDatatype → Kind
kind vss_uint8 = scalar one
kind vss_int8 = scalar one
kind vss_uint16 = scalar two
kind vss_int16 = scalar two
kind vss_uint32 = scalar four
kind vss_int32 = scalar four
kind vss_uint64 = scalar eight
kind vss_int64 = scalar eight
kind vss_bool = scalar one
kind vss_float = scalar four
kind vss_double = scalar eight
kind vss_string = copied
kind vss_uint8_array = copied
kind vss_int8_array = copied
kind vss_uint16_array = elements two
kind vss_int16_array = elements two
kind vss_uint32_array = elements four
kind vss_int32_array = elements four
kind vss_uint64_array = elements eight
kind vss_int64_array = elements eight
kind vss_bool_array = copied
kind vss_float_array = elements four
kind vss_double_array = elements eight
kind vss_string_array = copied

-- `VssDataString_t` and the array structs: the length in bytes, and the memory that `data` points
-- to, `none` for NULL. Elements lie there in the byte order of the host.
pub record VssArray : Type 0 where
  pub data_length : ℕ
  pub elems : Option Memory

-- `VssData_t`, a union: the datatype tells the member. A number is given by its bits, also where it
-- is signed or floating.
pub record VssData : Type 0 where
  pub number : ℕ
  pub array : VssArray

-- `Avtp_BeToCpu16` and so on, by width; a single byte is taken as it is.
unfoldable pub be_to_cpu : Width → Endian → ℕ → ℕ
be_to_cpu one host x = x
be_to_cpu two host x = be_to_cpu16 host x
be_to_cpu four host x = be_to_cpu32 host x
be_to_cpu eight host x = be_to_cpu64 host x

unfoldable pub cpu_to_be : Width → Endian → ℕ → ℕ
cpu_to_be one host x = x
cpu_to_be two host x = cpu_to_be16 host x
cpu_to_be four host x = cpu_to_be32 host x
cpu_to_be eight host x = cpu_to_be64 host x

module _ (host : Endian) where
  -- The loops over the elements, `n` rounds in order of the index.
  unfoldable pub read_elements : Width → Memory → ℕ → Memory → ℕ → Memory
  read_elements w m ptr dst zero = dst
  read_elements w m ptr dst (suc i) =
      store host (read_elements w m ptr dst i) (bytes w * i) (bytes w)
        (be_to_cpu w host (load host m (ptr + bytes w * i) (bytes w)))

  unfoldable pub write_elements : Width → Memory → ℕ → Memory → ℕ → Memory
  write_elements w m ptr src zero = m
  write_elements w m ptr src (suc i) =
      store host (write_elements w m ptr src i) (ptr + bytes w * i) (bytes w)
        (cpu_to_be w host (load host src (bytes w * i) (bytes w)))

  -- A case of `Avtp_Vss_GetVssData`.
  unfoldable pub get_kind : Memory → ℕ → Kind → VssData → VssData
  get_kind m ptr (scalar w) val =
      if has_bytes host m ptr (bytes w)
      then record { number = be_to_cpu w host (load host m ptr (bytes w)); array = val.array }
      else val
  get_kind m ptr copied val =
      let length = read_clamped_length host m ptr in
      record {
        number = val.number;
        array = record {
          data_length = length;
          elems = Option.map (λ dst. memcpy dst 0 m (ptr + 2) length) val.array.elems;
        };
      }
  get_kind m ptr (elements w) val =
      let length = read_clamped_length host m ptr in
      record {
        number = val.number;
        array = record {
          data_length = length;
          elems =
              Option.map (λ dst. read_elements w m (ptr + 2) dst (u16 (length / bytes w)))
                val.array.elems;
        };
      }

  -- The `switch`; any other number is its `default`.
  unfoldable pub get_case : Memory → ℕ → Option VssDatatype → VssData → VssData
  get_case m ptr none val = val
  get_case m ptr (some t) val = get_kind m ptr (kind t) val

  -- `Avtp_Vss_GetVssData`; the result is the union afterwards, and what it points to.
  unfoldable pub get_vss_data : Memory → VssData → VssData
  get_vss_data m val =
      get_case m (header_len + get_clamped_path_length host m) (datatype_of (get_datatype host m))
        val

  -- A case of `Avtp_Vss_SetVssData`, which copies from `data` without a test for NULL: the
  -- result is `none` there, as C defines none.
  unfoldable pub set_kind : Memory → ℕ → Kind → VssData → Option Memory
  set_kind m ptr (scalar w) val = some (store host m ptr (bytes w) (cpu_to_be w host val.number))
  set_kind m ptr copied val =
      let prefixed = store host m ptr 2 (cpu_to_be16 host val.array.data_length) in
      Option.map (λ src. memcpy prefixed (ptr + 2) src 0 val.array.data_length) val.array.elems
  set_kind m ptr (elements w) val =
      let prefixed = store host m ptr 2 (cpu_to_be16 host val.array.data_length) in
      Option.map
        (λ src. write_elements w prefixed (ptr + 2) src (u16 (val.array.data_length / bytes w)))
        val.array.elems

  unfoldable pub set_case : Memory → ℕ → Option VssDatatype → VssData → Option Memory
  set_case m ptr none val = some m
  set_case m ptr (some t) val = set_kind m ptr (kind t) val

  -- `Avtp_Vss_SetVssData`
  unfoldable pub set_vss_data : Memory → VssData → Option Memory
  set_vss_data m val =
      set_case m (header_len + calc_vss_path_length host m) (datatype_of (get_datatype host m)) val
