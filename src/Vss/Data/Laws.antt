-- ===== src/Vss/Data/Laws.antt =====
-- Setting and getting VSS data.
use open_lib.Common.{
  ℕ, ◌+◌, ◌*◌, ◌/◌, ◌^◌, ◌%◌, ◌≤◌, ◌<◌, ◌≡◌, inl, sym, ◌∙◌, arith, true, some, u16,
}
use mathlib.Core.Option
use open_lib.Memory.{Memory, Endian, load8, load_be, store_be, memcpy}
use open_lib.Memory.Laws.{load8-memcpy}
use open_lib.Memory.Copy.{load_be-store_be, load8-store_be, load_be-cong, memcpy-copied}
use open_lib.Byteorder.Host.{store-cpu_to_be16}
use open_lib.Acf.{get_acf_msg_length_in_bytes}
use open_lib.Acf.Laws.{get_acf_msg_length_in_bytes-lt}
use open_lib.Vss.{get_addr_mode, get_datatype, read_clamped_length, has_bytes}
use open_lib.Vss.Header.{declared-cong, get_addr_mode-cong, get_datatype-cong}
use open_lib.Vss.Clamp.{
  told_path_length, get_clamped_path_length_told, calc_vss_path_length_told,
  read_clamped_length_lem, has_bytes_lem,
}
use open_lib.Vss.Data.{
  Width, bytes, VssDatatype, datatype_of, kind, scalar, elements, copied, VssData, get_kind,
  set_kind, get_case, set_case, get_vss_data, set_vss_data, write_elements,
}
use open_lib.Vss.Data.Element.{
  be_to_cpu-load_lem, store-cpu_to_be_lem, load8-write_elements, read_elements-write_elements,
}

module _ (host : Endian) (m : Memory) {t : VssDatatype}
    (known : datatype_of (get_datatype host m) ≡ some t)
    (path_fits : 12 + told_path_length host m ≤ get_acf_msg_length_in_bytes host m) where
  -- Where the data starts.
  abbrev ptr : ℕ
  ptr = 12 + told_path_length host m

  set_vss_data_known : (val : VssData) → set_vss_data host m val ≡ set_kind host m ptr (kind t) val
  unfolding set_vss_data set_case
  set_vss_data_known val = rw (known, calc_vss_path_length_told host m path_fits)

  -- A memory that differs from the PDU in the data alone.
  module _ (m' : Memory) (same : (a : ℕ) → a < ptr → load8 m a ≡ load8 m' a) where
    same_length : get_acf_msg_length_in_bytes host m' ≡ get_acf_msg_length_in_bytes host m
    same_length = sym (declared-cong host m m' λ a lt. same a (omega arith))

    same_mode : get_addr_mode host m' ≡ get_addr_mode host m
    same_mode = sym (get_addr_mode-cong host m m' λ a lt. same a (omega arith))

    same_prefix : get_addr_mode host m ≡ 0 → load_be m' 12 2 ≡ load_be m 12 2
    same_prefix mode = sym (load_be-cong m m' 12 2 λ j p q. same j (rw mode (omega arith)))

    same_told : told_path_length host m' ≡ told_path_length host m
    same_told = ground (arith, same_mode, same_prefix)

    get_vss_data_known :
        (out : VssData) → get_vss_data host m' out ≡ get_kind host m' ptr (kind t) out
    unfolding get_vss_data get_case
    get_vss_data_known out =
        let mode = sym (get_datatype-cong host m m' λ a lt. same a (omega arith)) in
        let clamped =
          get_clamped_path_length_told host m' (omega (arith, same_told, same_length))
          ∙ same_told in
        rw (mode, known, clamped)

    -- The length prefix that the getter reads, where it fits the message.
    read_length :
        (n : ℕ)
        → load_be m' ptr 2 ≡ n
        → ptr + 2 + n ≤ get_acf_msg_length_in_bytes host m
        → read_clamped_length host m' ptr ≡ n
    read_length n e h = ground (
      arith,
      read_clamped_length_lem host m' ptr,
      get_acf_msg_length_in_bytes-lt host m,
      same_length,
    )

  module _ (val out : VssData) where
    -- In a message that holds the path and the number, a number that `Avtp_Vss_SetVssData` writes is
    -- the one that `Avtp_Vss_GetVssData` reads, cut to its width.
    pub get_vss_data-set_vss_data_scalar :
        (w : Width)
        → kind t ≡ scalar w
        → 12 + told_path_length host m + bytes w ≤ get_acf_msg_length_in_bytes host m
        → Option.map (λ m'. get_vss_data host m' out) (set_vss_data host m val)
          ≡ some (record { number = val.number % 2 ^ (8 * bytes w); array = out.array })
    unfolding set_kind get_kind
    get_vss_data-set_vss_data_scalar w is_scalar fits =
        let written = store_be m ptr (bytes w) val.number in
        let same : (a : ℕ) → a < ptr → load8 m a ≡ load8 written a =
          λ a lt. sym (load8-store_be m ptr (bytes w) val.number a (inl lt)) in
        let enough : has_bytes host written ptr (bytes w) ≡ true = ground (
          arith,
          has_bytes_lem host written ptr (bytes w),
          same_length written same,
          get_acf_msg_length_in_bytes-lt host m,
        ) in
        rw (
          set_vss_data_known val,
          is_scalar,
          store-cpu_to_be_lem,
          get_vss_data_known written same out,
          is_scalar,
          enough,
          be_to_cpu-load_lem,
          load_be-store_be,
        )

    module _ {src dst : Memory} (from : val.array.elems ≡ some src)
        (to : out.array.elems ≡ some dst)
        (fits : 12 + told_path_length host m + 2 + val.array.data_length
          ≤ get_acf_msg_length_in_bytes host m) where
      abbrev len : ℕ
      len = val.array.data_length

      abbrev prefixed : Memory
      prefixed = store_be m ptr 2 len

      same_prefixed : (a : ℕ) → a < ptr → load8 m a ≡ load8 prefixed a
      same_prefixed a lt = sym (load8-store_be m ptr 2 len a (inl lt))

      prefixed_length : load_be prefixed ptr 2 ≡ len
      prefixed_length =
          omega (arith, load_be-store_be m ptr 2 len, get_acf_msg_length_in_bytes-lt host m)

      -- In a message that holds the path and the data, a string or an array of bytes that
      -- `Avtp_Vss_SetVssData` writes is the one that `Avtp_Vss_GetVssData` reads, its length and
      -- every byte, where both point to memory.
      pub get_vss_data-set_vss_data_text :
          kind t ≡ copied
          → Option.map (λ m'. get_vss_data host m' out) (set_vss_data host m val)
            ≡ some (record {
              number = out.number;
              array = record {
                data_length = val.array.data_length;
                elems = some (memcpy dst 0 src 0 val.array.data_length);
              };
            })
      unfolding set_kind get_kind
      get_vss_data-set_vss_data_text is_copied =
          let written = memcpy prefixed (ptr + 2) src 0 len in
          let same : (a : ℕ) → a < ptr → load8 m a ≡ load8 written a =
            λ a lt. rw load8-memcpy (ground (arith, same_prefixed a)) in
          let kept =
            load_be-cong written prefixed ptr 2 (λ j p q. rw load8-memcpy (ground arith)) in
          let length = read_length written same len (kept ∙ prefixed_length) fits in
          rw (
            set_vss_data_known val,
            is_copied,
            from,
            store-cpu_to_be16,
            get_vss_data_known written same out,
            is_copied,
            length,
            to,
            memcpy-copied,
          )

      -- In a message that holds the path and the data, an array of numbers that `Avtp_Vss_SetVssData`
      -- writes is the one that `Avtp_Vss_GetVssData` reads, its length and every whole element,
      -- where both point to memory.
      pub get_vss_data-set_vss_data_elements :
          (w : Width)
          → kind t ≡ elements w
          → Option.map (λ m'. get_vss_data host m' out) (set_vss_data host m val)
            ≡ some (record {
              number = out.number;
              array = record {
                data_length = val.array.data_length;
                elems = some (memcpy dst 0 src 0 (bytes w * u16 (val.array.data_length / bytes w)));
              };
            })
      unfolding set_kind get_kind
      get_vss_data-set_vss_data_elements w is_elements =
          let n = u16 (len / bytes w) in
          let written = write_elements host w prefixed (ptr + 2) src n in
          let same : (a : ℕ) → a < ptr → load8 m a ≡ load8 written a = λ a lt.
            same_prefixed a lt
            ∙ sym (load8-write_elements w host src prefixed (ptr + 2) n a (omega arith)) in
          let kept =
            load_be-cong written prefixed ptr 2
              (λ j p q. load8-write_elements w host src prefixed (ptr + 2) n j (omega arith)) in
          let length = read_length written same len (kept ∙ prefixed_length) fits in
          rw (
            set_vss_data_known val,
            is_elements,
            from,
            store-cpu_to_be16,
            get_vss_data_known written same out,
            is_elements,
            length,
            to,
            read_elements-write_elements,
          )
