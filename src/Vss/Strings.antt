-- ===== src/Vss/Strings.antt =====
-- src/avtp/acf/custom/Vss.c: string arrays, `Avtp_Vss_SerializeStringArray`,
-- `Avtp_Vss_GetVSSDataStringArrayLength` and `Avtp_Vss_DeserializeStringArray`. On the wire a string
-- is its length in two bytes and then its bytes.
pub mod Laws
use open_lib.Common.{
  ℕ, zero, suc, ◌+◌, ◌-◌, ◌^◌, ltb, leb, if◌then◌else◌, Option, none, some, List, [], ◌∷◌, u16, u32,
}
use mathlib.Core.Option
use open_lib.Memory.{Memory, Endian, load, store, memcpy}
use open_lib.Byteorder.{be_to_cpu16, cpu_to_be16}

-- `VssDataString_t` that is read from; `chars` is what `data` points to.
pub record VssDataString : Type 0 where
  pub string_length : ℕ
  pub chars : Memory

-- `VssDataString_t` that is written to; `chars_out` is `none` where `data` is NULL.
pub record VssStringOut : Type 0 where
  pub out_length : ℕ
  pub chars_out : Option Memory

-- `VssDataStringArray_t`
pub record VssDataStringArray : Type 0 where
  pub array_length : ℕ
  pub raw : Memory

module _ (host : Endian) where
  -- The loop of `Avtp_Vss_SerializeStringArray`: `raw` as written so far, the pointer `data` as its
  -- offset, and `total_length`.
  unfoldable pub serialize_loop : Memory → ℕ → ℕ → List VssDataString → VssDataStringArray
  serialize_loop raw data_ptr total_length [] = record {
    array_length = u16 total_length;
    raw = raw;
  }
  serialize_loop raw data_ptr total_length (s ∷ ss) =
      let entry_size = u32 (s.string_length + 2) in
      let prefixed = store host raw data_ptr 2 (cpu_to_be16 host s.string_length) in
      let rest =
        serialize_loop (memcpy prefixed (data_ptr + 2) s.chars 0 s.string_length)
          (data_ptr + entry_size) (u32 (total_length + entry_size)) ss in
      if ltb (2 ^ 16 - 1) (u32 (total_length + entry_size))
      then record { array_length = u16 total_length; raw = raw }
      else rest

  unfoldable pub serialize_string_array : Memory → List VssDataString → VssDataStringArray
  serialize_string_array raw strings = serialize_loop raw 0 0 strings

  module _ (array : VssDataStringArray) where
    -- The loop of `Avtp_Vss_GetVSSDataStringArrayLength`, on fuel: a round takes at least two bytes.
    unfoldable pub count_loop : ℕ → ℕ → ℕ → ℕ
    count_loop zero idx ptr_idx = idx
    count_loop (suc fuel) idx ptr_idx =
        let str_length = be_to_cpu16 host (load host array.raw ptr_idx 2) in
        let rest = count_loop fuel (u16 (idx + 1)) (u16 (ptr_idx + u16 (2 + str_length))) in
        if leb (u32 (ptr_idx + 2)) array.array_length
        then if ltb array.array_length (u32 (ptr_idx + 2 + str_length)) then idx else rest
        else idx

    unfoldable pub get_string_array_length : ℕ
    get_string_array_length = count_loop array.array_length 0 0

    -- The loop of `Avtp_Vss_DeserializeStringArray` over the remaining entries of `strings`, of which
    -- there are `num_strings`; `none` is an entry that is NULL.
    unfoldable pub deserialize_loop :
        ℕ → ℕ → List (Option VssStringOut) → List (Option VssStringOut)
    deserialize_loop array_data consumed [] = []
    deserialize_loop array_data consumed (none ∷ strings) = none ∷ strings
    deserialize_loop array_data consumed (some out ∷ strings) =
        let str_length = be_to_cpu16 host (load host array.raw array_data 2) in
        let filled : VssStringOut = record {
          out_length = str_length;
          chars_out =
              Option.map (λ dst. memcpy dst 0 array.raw (array_data + 2) str_length) out.chars_out;
        } in
        let rest =
          deserialize_loop (array_data + (2 + str_length)) (u16 (consumed + u16 (2 + str_length)))
            strings in
        if ltb array.array_length (u32 (consumed + 2))
        then some out ∷ strings
        else if ltb array.array_length (u32 (consumed + 2 + str_length))
        then some out ∷ strings
        else some filled ∷ rest

    unfoldable pub deserialize_string_array :
        List (Option VssStringOut) → List (Option VssStringOut)
    deserialize_string_array strings = deserialize_loop 0 0 strings
