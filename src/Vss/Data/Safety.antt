-- ===== src/Vss/Data/Safety.antt =====
-- The bytes that `Avtp_Vss_GetVssData` looks at.
use open_lib.Common.{
  ℕ, zero, suc, ◌+◌, ◌-◌, ◌*◌, ◌/◌, ◌≤◌, ◌<◌, ◌≡◌, inl, inr, refl, ap, arith, true, Option, none,
  some, dec_lt, u16, Bool-cases,
}
use mathlib.Core.Option
use open_lib.Memory.{Memory, Endian, load8, memcpy}
use open_lib.Memory.Copy.{load_be-cong, memcpy-cong}
use open_lib.Acf.{get_acf_msg_length_in_bytes}
use open_lib.Acf.Laws.{get_acf_msg_length_in_bytes-lt}
use open_lib.Vss.{is_valid, get_clamped_path_length, read_clamped_length, has_bytes, get_datatype}
use open_lib.Vss.Header.{declared-cong, get_datatype-cong, vss_is_valid_iff}
use open_lib.Vss.Clamp.{get_clamped_path_length-le, read_clamped_length_lem, has_bytes_lem}
use open_lib.Vss.Path.Laws.{get_clamped_path_length-cong}
use open_lib.Vss.Data.{
  Width, one, two, four, eight, bytes, Kind, scalar, elements, copied, VssDatatype, VssData, kind,
  datatype_of, get_kind, get_case, get_vss_data, read_elements,
}
use open_lib.Vss.Data.Element.{be_to_cpu-load_lem, elements_apart}

whole_elements : (w : Width) (n : ℕ) → bytes w * u16 (n / bytes w) ≤ n
unfolding bytes
whole_elements one n = omega arith
whole_elements two n = omega arith
whole_elements four n = omega arith
whole_elements eight n = omega arith

read_elements-cong :
    (host : Endian) (w : Width) (m m' : Memory) (ptr : ℕ) (dst : Memory) (n : ℕ)
    → ((a : ℕ) → ptr ≤ a → a < ptr + bytes w * n → load8 m a ≡ load8 m' a)
    → read_elements host w m ptr dst n ≡ read_elements host w m' ptr dst n
unfolding read_elements
read_elements-cong host w m m' ptr dst zero h = refl
read_elements-cong host w m m' ptr dst (suc n) h =
    let last : bytes w * n + bytes w ≤ bytes w * suc n = elements_apart w n (suc n) (omega arith) in
    let rest = read_elements-cong host w m m' ptr dst n (λ a p q. h a p (omega arith)) in
    let number =
      load_be-cong m m' (ptr + bytes w * n) (bytes w) (λ a p q. h a (omega arith) (omega arith)) in
    rw (rest, be_to_cpu-load_lem, be_to_cpu-load_lem, number)

module _ (host : Endian) (m m' : Memory)
    (agree : (a : ℕ) → a < get_acf_msg_length_in_bytes host m → load8 m a ≡ load8 m' a)
    (header : 12 ≤ get_acf_msg_length_in_bytes host m) where
  same_length : get_acf_msg_length_in_bytes host m ≡ get_acf_msg_length_in_bytes host m'
  same_length = declared-cong host m m' λ a lt. agree a (omega arith)

  module _ (ptr : ℕ) (inside : ptr ≤ get_acf_msg_length_in_bytes host m) where
    read_clamped_length-cong : read_clamped_length host m ptr ≡ read_clamped_length host m' ptr
    read_clamped_length-cong = elim (dec_lt (get_acf_msg_length_in_bytes host m) (ptr + 2)) [
      | yes short ↦ ground (
        arith,
        read_clamped_length_lem host m ptr,
        read_clamped_length_lem host m' ptr,
        same_length,
        get_acf_msg_length_in_bytes-lt host m,
      )
      | no long ↦ ground (
        arith,
        read_clamped_length_lem host m ptr,
        read_clamped_length_lem host m' ptr,
        same_length,
        get_acf_msg_length_in_bytes-lt host m,
        load_be-cong m m' ptr 2 (λ j p q. agree j (omega arith)),
      )
    ]

    -- The length that is read counts bytes of the message, where there are any.
    read_clamped_length-le :
        (j : ℕ)
        → j < read_clamped_length host m ptr
        → ptr + 2 + j < get_acf_msg_length_in_bytes host m
    read_clamped_length-le j lt =
        ground (arith, read_clamped_length_lem host m ptr, get_acf_msg_length_in_bytes-lt host m)

    has_bytes-cong : (n : ℕ) → has_bytes host m ptr n ≡ has_bytes host m' ptr n
    unfolding has_bytes
    has_bytes-cong n = rw same_length

    bytes_inside :
        (w : Width)
        → has_bytes host m ptr (bytes w) ≡ true
        → ptr + bytes w ≤ get_acf_msg_length_in_bytes host m
    unfolding bytes
    bytes_inside one h =
        ground (arith, has_bytes_lem host m ptr 1, get_acf_msg_length_in_bytes-lt host m)
    bytes_inside two h =
        ground (arith, has_bytes_lem host m ptr 2, get_acf_msg_length_in_bytes-lt host m)
    bytes_inside four h =
        ground (arith, has_bytes_lem host m ptr 4, get_acf_msg_length_in_bytes-lt host m)
    bytes_inside eight h =
        ground (arith, has_bytes_lem host m ptr 8, get_acf_msg_length_in_bytes-lt host m)

    copy-cong :
        (elems : Option Memory)
        → Option.map (λ dst. memcpy dst 0 m (ptr + 2) (read_clamped_length host m ptr)) elems
          ≡ Option.map (λ dst. memcpy dst 0 m' (ptr + 2) (read_clamped_length host m ptr)) elems
    copy-cong none = refl
    copy-cong (some dst) = ap some (
        memcpy-cong dst 0 m m' (ptr + 2) (read_clamped_length host m ptr)
          (λ j lt. agree (ptr + 2 + j) (read_clamped_length-le j lt)))

    numbers-cong :
        (w : Width) (elems : Option Memory)
        → Option.map
            (λ dst.
              read_elements host w m (ptr + 2) dst (u16 (read_clamped_length host m ptr / bytes w)))
            elems
          ≡ Option.map
              (λ dst.
                read_elements host w m'
                  (ptr + 2)
                  dst
                  (u16 (read_clamped_length host m ptr / bytes w)))
              elems
    numbers-cong w none = refl
    numbers-cong w (some dst) = ap some (
        read_elements-cong host w m m' (ptr + 2) dst _ λ a p q. agree a (
          let whole = whole_elements w (read_clamped_length host m ptr) in
          let inner = read_clamped_length-le (a - (ptr + 2)) (omega arith) in omega arith))

    get_kind-cong :
        (k : Kind) (val : VssData) → get_kind host m ptr k val ≡ get_kind host m' ptr k val
    unfolding get_kind
    get_kind-cong (scalar w) val =
        rw (← has_bytes-cong (bytes w), be_to_cpu-load_lem, be_to_cpu-load_lem)
          (elim (Bool-cases (has_bytes host m ptr (bytes w))) [
            | inl enough ↦
                let le = bytes_inside w enough in
                rw (load_be-cong m m' ptr (bytes w) (λ j p q. agree j (omega arith)))
            | inr short ↦ rw short
          ])
    get_kind-cong copied val = rw (← read_clamped_length-cong, copy-cong val.array.elems)
    get_kind-cong (elements w) val = rw (← read_clamped_length-cong, numbers-cong w val.array.elems)

    get_case-cong :
        (o : Option VssDatatype) (val : VssData)
        → get_case host m ptr o val ≡ get_case host m' ptr o val
    unfolding get_case
    get_case-cong none val = refl
    get_case-cong (some t) val = get_kind-cong (kind t) val

  get_vss_data_agree : (val : VssData) → get_vss_data host m val ≡ get_vss_data host m' val
  unfolding get_vss_data
  get_vss_data_agree val =
      let mode = get_datatype-cong host m m' λ a lt. agree a (omega arith) in
      let path = get_clamped_path_length-cong host m m' agree header in
      rw (← mode, ← path)
        (get_case-cong (12 + get_clamped_path_length host m)
          (get_clamped_path_length-le host m header) (datatype_of (get_datatype host m)) val)

-- On a message that `Avtp_Vss_IsValid` accepts, `Avtp_Vss_GetVssData` reads nothing outside the
-- buffer, for every datatype: with other bytes behind it the result is the same.
pub get_vss_data-cong :
    (host : Endian) (m m' : Memory) (buffer_size : ℕ) (val : VssData)
    → is_valid host (some m) buffer_size ≡ true
    → ((a : ℕ) → a < buffer_size → load8 m a ≡ load8 m' a)
    → get_vss_data host m val ≡ get_vss_data host m' val
get_vss_data-cong host m m' buffer_size val valid agree =
    let known = (vss_is_valid_iff host m buffer_size).0 valid in
    get_vss_data_agree host m m' (λ a lt. agree a (omega arith)) (omega arith) val
