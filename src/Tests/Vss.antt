-- ===== src/Tests/Vss.antt =====
-- VSS messages of 24 bytes at concrete inputs: one with a static ID, one with an interop path.
use open_lib.Common.{
  ℕ, ◌+◌, ◌-◌, ◌*◌, ◌/◌, ◌^◌, ◌%◌, ◌≤◌, ◌<◌, ◌≡◌, ◌↔◌, refl, arith, true, leb, ◌==◌, within,
  if◌then◌else◌, some, none, Option, List, [], ◌∷◌, min, u16,
}
use mathlib.Core.Option
use open_lib.Memory.{Memory, big, little, load8, store8, load_be, memcpy}
use open_lib.Utils.{get_in, read_field, descriptor_at}
use open_lib.Acf
use open_lib.Acf.{get_acf_msg_type, get_acf_msg_length, get_acf_msg_length_in_bytes}
use open_lib.Vss
use open_lib.Vss.{
  get_addr_mode, get_datatype, get_pad, is_valid, set_payload_length, read_clamped_length,
  get_clamped_path_length,
}
use open_lib.Vss.Header.{vss_is_valid_iff, vss_set_payload_length_lem}
use open_lib.Vss.Clamp.{read_clamped_length_lem}
use open_lib.Vss.Path.{VssPath, get_vss_path, set_vss_path}
use open_lib.Vss.Path.Laws.{
  get_vss_path-cong, get_vss_path-set_vss_path_static, get_vss_path-set_vss_path_interop,
}
use open_lib.Vss.Data.{
  VssData, datatype_of, vss_uint16, vss_string, vss_uint16_array, two, bytes, kind, get_vss_data,
  set_vss_data,
}
use open_lib.Vss.Data.Laws.{
  get_vss_data-set_vss_data_scalar, get_vss_data-set_vss_data_text,
  get_vss_data-set_vss_data_elements,
}
use open_lib.Vss.Data.Safety.{get_vss_data-cong}
use open_lib.Vss.Strings.{
  VssDataString, VssStringOut, serialize_string_array, get_string_array_length,
  deserialize_string_array,
}
use open_lib.Vss.Strings.Laws.{
  wire_size, fill, get_string_array_length-serialize_string_array,
  deserialize_string_array-serialize_string_array,
}

-- Type 0x42 and 6 quadlets, with the third and fourth byte as given; the interop path is empty.
abbrev pdu : ℕ → ℕ → Memory
pdu third datatype a =
    if a == 0
    then 0x84
    else if a == 1
    then 6
    else if a == 2
    then third
    else if a == 3
    then datatype
    else 0

abbrev static_pdu : ℕ → Memory
static_pdu datatype = pdu 8 datatype

abbrev interop_pdu : ℕ → Memory
interop_pdu datatype = pdu 0 datatype

abbrev text : Memory
text a = a + 65

abbrev other : Memory
other a = 0

abbrev some_path : VssPath
some_path = record {
  vss_interop_path = record { path_length = 8; path = text };
  vss_static_id_path = 0x12345678;
}

abbrev some_data : VssData
some_data = record { number = 0x1234; array = record { data_length = 6; elems = some text } }

abbrev no_data : VssData
no_data = record { number = 0; array = record { data_length = 0; elems = some other } }

number_length : get_acf_msg_length_in_bytes big (static_pdu 2) ≡ 24
unfolding get_acf_msg_length_in_bytes get_acf_msg_length Acf.get Acf.index get_in read_field
    descriptor_at
number_length = refl

number_mode : get_addr_mode big (static_pdu 2) ≡ 1
unfolding get_addr_mode Vss.get Vss.index get_in read_field descriptor_at
number_mode = refl

number_datatype : datatype_of (get_datatype big (static_pdu 2)) ≡ some vss_uint16
unfolding datatype_of get_datatype Vss.get Vss.index get_in read_field descriptor_at
number_datatype = refl

text_length : get_acf_msg_length_in_bytes big (static_pdu 0xb) ≡ 24
unfolding get_acf_msg_length_in_bytes get_acf_msg_length Acf.get Acf.index get_in read_field
    descriptor_at
text_length = refl

text_mode : get_addr_mode big (static_pdu 0xb) ≡ 1
unfolding get_addr_mode Vss.get Vss.index get_in read_field descriptor_at
text_mode = refl

text_datatype : datatype_of (get_datatype big (static_pdu 0xb)) ≡ some vss_string
unfolding datatype_of get_datatype Vss.get Vss.index get_in read_field descriptor_at
text_datatype = refl

array_length : get_acf_msg_length_in_bytes big (static_pdu 0x82) ≡ 24
unfolding get_acf_msg_length_in_bytes get_acf_msg_length Acf.get Acf.index get_in read_field
    descriptor_at
array_length = refl

array_mode : get_addr_mode big (static_pdu 0x82) ≡ 1
unfolding get_addr_mode Vss.get Vss.index get_in read_field descriptor_at
array_mode = refl

array_datatype : datatype_of (get_datatype big (static_pdu 0x82)) ≡ some vss_uint16_array
unfolding datatype_of get_datatype Vss.get Vss.index get_in read_field descriptor_at
array_datatype = refl

interop_length : get_acf_msg_length_in_bytes big (interop_pdu 2) ≡ 24
unfolding get_acf_msg_length_in_bytes get_acf_msg_length Acf.get Acf.index get_in read_field
    descriptor_at
interop_length = refl

interop_mode : get_addr_mode big (interop_pdu 2) ≡ 0
unfolding get_addr_mode Vss.get Vss.index get_in read_field descriptor_at
interop_mode = refl

number_valid : is_valid big (some (static_pdu 2)) 24 ≡ true
unfolding is_valid get_acf_msg_type get_acf_msg_length_in_bytes get_acf_msg_length Acf.get Acf.index
    get_in read_field descriptor_at
number_valid = refl

-- The message with the byte behind it changed.
abbrev changed : Memory
changed = store8 (static_pdu 2) 24 1

changed_behind : (a : ℕ) → a < 24 → load8 (static_pdu 2) a ≡ load8 changed a
unfolding load8 store8
changed_behind a lt = ground arith

vss_is_valid_iff_example :
    (is_valid big (some (static_pdu 2)) 23 ≡ true)
    ↔ (get_acf_msg_type big (static_pdu 2) ≡ 0x42)
      × (12 ≤ get_acf_msg_length_in_bytes big (static_pdu 2))
      × (get_acf_msg_length_in_bytes big (static_pdu 2) ≤ 23)
vss_is_valid_iff_example = vss_is_valid_iff big (static_pdu 2) 23

vss_set_payload_length_lem_example :
    (get_acf_msg_length_in_bytes little (set_payload_length little text 7)
      ≡ 12 + 7 + get_pad little (set_payload_length little text 7))
    × (get_acf_msg_length_in_bytes little (set_payload_length little text 7) % 4 ≡ 0)
    × (get_pad little (set_payload_length little text 7) < 4)
    × ((a : ℕ)
        → 12 ≤ a
        → load8 (set_payload_length little text 7) a ≡ (
            if within (12 + 7) (12 + 7 + get_pad little (set_payload_length little text 7)) a
            then 0
            else load8 text a))
vss_set_payload_length_lem_example = vss_set_payload_length_lem little text 7 (omega arith)

read_clamped_length_lem_example : read_clamped_length big (static_pdu 2) 16 ≡ (
    if get_acf_msg_length_in_bytes big (static_pdu 2) == 0
    then 0
    else if leb (16 + 2) (get_acf_msg_length_in_bytes big (static_pdu 2))
    then min (load_be (static_pdu 2) 16 2) (get_acf_msg_length_in_bytes big (static_pdu 2) - 16 - 2)
    else 0)
read_clamped_length_lem_example = read_clamped_length_lem big (static_pdu 2) 16 (omega arith)

get_vss_data-cong_example :
    get_vss_data big (static_pdu 2) some_data ≡ get_vss_data big changed some_data
get_vss_data-cong_example =
    get_vss_data-cong big (static_pdu 2) changed 24 some_data number_valid changed_behind

get_vss_path-cong_example :
    get_vss_path big (static_pdu 2) some_path ≡ get_vss_path big changed some_path
get_vss_path-cong_example =
    get_vss_path-cong big (static_pdu 2) changed 24 some_path number_valid changed_behind

get_vss_path-set_vss_path_static_example :
    get_vss_path big (set_vss_path big (static_pdu 2) some_path) some_path ≡ record {
      vss_interop_path = record { path_length = 8; path = text };
      vss_static_id_path = 0x12345678 % 2 ^ 32;
    }
get_vss_path-set_vss_path_static_example =
    get_vss_path-set_vss_path_static big (static_pdu 2) some_path some_path number_mode
      (omega (arith, number_length))

get_vss_path-set_vss_path_interop_example :
    get_vss_path big (set_vss_path big (interop_pdu 2) some_path) some_path ≡ record {
      vss_interop_path = record { path_length = 8; path = memcpy text 0 text 0 8 };
      vss_static_id_path = 0x12345678;
    }
get_vss_path-set_vss_path_interop_example =
    get_vss_path-set_vss_path_interop big (interop_pdu 2) some_path some_path interop_mode
      (omega (arith, interop_length))

get_vss_data-set_vss_data_scalar_example :
    Option.map (λ m. get_vss_data big m no_data) (set_vss_data big (static_pdu 2) some_data)
    ≡ some (record {
      number = 0x1234 % 2 ^ (8 * bytes two);
      array = record { data_length = 0; elems = some other };
    })
get_vss_data-set_vss_data_scalar_example =
    get_vss_data-set_vss_data_scalar big (static_pdu 2) number_datatype
      (ground (arith, number_mode, number_length)) some_data no_data two (unfold kind in refl)
      (unfold bytes in ground (arith, number_mode, number_length))

get_vss_data-set_vss_data_text_example :
    Option.map (λ m. get_vss_data big m no_data) (set_vss_data big (static_pdu 0xb) some_data)
    ≡ some (record {
      number = 0;
      array = record { data_length = 6; elems = some (memcpy other 0 text 0 6) };
    })
get_vss_data-set_vss_data_text_example =
    get_vss_data-set_vss_data_text big (static_pdu 0xb) text_datatype
      (ground (arith, text_mode, text_length)) some_data no_data refl refl
      (ground (arith, text_mode, text_length)) (unfold kind in refl)

get_vss_data-set_vss_data_elements_example :
    Option.map (λ m. get_vss_data big m no_data) (set_vss_data big (static_pdu 0x82) some_data)
    ≡ some (record {
      number = 0;
      array = record {
        data_length = 6;
        elems = some (memcpy other 0 text 0 (bytes two * u16 (6 / bytes two)));
      };
    })
get_vss_data-set_vss_data_elements_example =
    get_vss_data-set_vss_data_elements big (static_pdu 0x82) array_datatype
      (ground (arith, array_mode, array_length)) some_data no_data refl refl
      (ground (arith, array_mode, array_length)) two (unfold kind in refl)

abbrev two_strings : List VssDataString
two_strings =
    record { string_length = 3; chars = text } ∷ record { string_length = 0; chars = other } ∷ []

-- Room for one string, and an entry that is NULL.
abbrev entries : List (Option VssStringOut)
entries = some (record { out_length = 0; chars_out = some other }) ∷ none ∷ []

get_string_array_length-serialize_string_array_example :
    get_string_array_length little (serialize_string_array little other two_strings) ≡ 2
get_string_array_length-serialize_string_array_example =
    get_string_array_length-serialize_string_array little other two_strings
      (unfold wire_size in omega arith)

deserialize_string_array-serialize_string_array_example :
    deserialize_string_array little (serialize_string_array little other two_strings) entries
    ≡ fill two_strings entries
deserialize_string_array-serialize_string_array_example =
    deserialize_string_array-serialize_string_array little other two_strings entries
      (unfold wire_size in omega arith)
