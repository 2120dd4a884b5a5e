-- ===== src/Acf/CanFamily/Body.antt =====
-- A CAN message while `CreateAcfMessage` fills it, before its length is set: its fields and payload.
use open_lib.Common.{
  ℕ, ◌+◌, ◌-◌, ◌^◌, ◌≤◌, ◌<◌, ◌≡◌, refl, ◌∙◌, arith, Bool, true, ltb, ◌==◌, if◌then◌else◌, length,
  u32, bit_num,
}
use open_lib.Memory.{Memory, Endian, load8, memset}
use open_lib.Memory.Laws.{load8-memset, load8-memcpy}
use open_lib.Utils.{set_in, descriptor_at}
use open_lib.Utils.Table.{IsTable, get-set, get_zero, load8-set}
use open_lib.Acf.Padded.{init, set_payload, set_payload_length}
use open_lib.Acf.Padded.Header.{field, field-set_acf_msg_type, field-memcpy}
use open_lib.Acf.CanFamily.{CanFormat, set_eff, set_fdf, set_can_identifier, create_acf_message}
use open_lib.Acf.CanFamily.Format.{IsCanFamily}

module _ (host : Endian) {format : CanFormat} (ok : IsCanFamily format) where
  open format use {padded, eff_field, fdf_field, identifier_field}

  abbrev pub at : Memory → ℕ → ℕ
  at m i = field host ok.is_padded m i

  is_table : IsTable padded.header_len padded.table
  is_table = ok.is_padded.is_table

  field-set_flag :
      (m : Memory) (i : ℕ) (flag : Bool) (j : ℕ)
      → i < length padded.table
      → (descriptor_at padded.table i).bits ≡ 1
      → at (set_in host padded.table (length padded.table) m i (bit_num flag)) j
        ≡ (if i == j then bit_num flag else at m j)
  field-set_flag m i flag j lt one =
      rw (get-set host ok.is_padded.is_table m i (bit_num flag) j, one) (ground arith)

  field-set_can_identifier :
      (m : Memory) (v j : ℕ)
      → v < 2 ^ 29
      → at (set_can_identifier host format m v) j ≡ (if identifier_field == j then v else at m j)
  unfolding set_can_identifier
  field-set_can_identifier m v j h =
      let e : u32 v ≡ v = omega arith in
      rw (e, get-set host ok.is_padded.is_table m identifier_field v j, ok.identifier_bits)
        (ground (arith, ok.identifier_new))

  -- The message before its length is set.
  module _ (m : Memory) (frame_id : ℕ) (payload : Memory) (payload_length : ℕ) (fdf : Bool) where
    abbrev pub filled : Memory
    filled = set_payload host padded (init host padded m) payload payload_length

    abbrev pub extended : Memory
    extended = if ltb 0x7ff frame_id then set_eff host format filled true else filled

    abbrev pub body : Memory
    body = set_fdf host format (set_can_identifier host format extended frame_id) fdf

    pub created :
        create_acf_message host format m frame_id payload payload_length fdf
        ≡ set_payload_length host padded body payload_length
    unfolding create_acf_message
    created = refl

    at-filled : (j : ℕ) → at filled j ≡ (if 0 == j then padded.acf_type else 0)
    unfolding set_payload init
    at-filled j = rw (
      field-memcpy host ok.is_padded _ padded.header_len payload 0 payload_length j (omega arith),
      field-set_acf_msg_type host ok.is_padded _ padded.acf_type j ok.is_padded.type_fits,
      get_zero host ok.is_padded.is_table (memset m 0 0 padded.header_len) j
          (λ a lt. ground (arith, load8-memset m 0 0 padded.header_len a)),
    )

    at-extended :
        (j : ℕ)
        → at extended j ≡ (
            if 0 == j
            then padded.acf_type
            else if eff_field == j
            then bit_num (ltb 0x7ff frame_id)
            else 0)
    unfolding set_eff
    at-extended j = ground (
      arith,
      field-set_flag filled eff_field true j ok.eff_new.1 ok.eff_bits,
      at-filled j,
      ok.eff_new,
    )

    pub at-body :
        (j : ℕ)
        → frame_id < 2 ^ 29
        → at body j ≡ (
            if fdf_field == j
            then bit_num fdf
            else if identifier_field == j
            then frame_id
            else if 0 == j
            then padded.acf_type
            else if eff_field == j
            then bit_num (ltb 0x7ff frame_id)
            else 0)
    unfolding set_fdf
    at-body j h = ground (
      arith,
      field-set_flag (set_can_identifier host format extended frame_id) fdf_field fdf j ok.fdf_new.1
          ok.fdf_bits,
      field-set_can_identifier extended frame_id j h,
      at-extended j,
      ok.identifier_new,
      ok.fdf_new,
    )

    pub load8-filled :
        (a : ℕ) → a < payload_length → load8 filled (padded.header_len + a) ≡ load8 payload a
    unfolding set_payload
    load8-filled a lt =
        let e : 0 + (padded.header_len + a - padded.header_len) ≡ a = omega arith in
        rw (load8-memcpy, e) (ground arith)

    pub load8-extended : (a : ℕ) → padded.header_len ≤ a → load8 extended a ≡ load8 filled a
    unfolding set_eff
    load8-extended a le = ground (arith, load8-set host is_table filled eff_field 1 a le)

    pub load8-body : (a : ℕ) → padded.header_len ≤ a → load8 body a ≡ load8 extended a
    unfolding set_fdf set_can_identifier
    load8-body a le =
        load8-set host is_table _ fdf_field (bit_num fdf) a le
        ∙ load8-set host is_table extended identifier_field (u32 frame_id) a le
