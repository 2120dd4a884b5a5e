-- ===== src/Acf/CanFamily/Create.antt =====
-- A CAN message that `CreateAcfMessage` makes, and what its receiver reads.
use open_lib.Common.{
  ℕ, ◌+◌, ◌^◌, ◌≤◌, ◌<◌, ◌≡◌, ◌≢◌, arith, Bool, true, ltb, ◌==◌, if◌then◌else◌, some,
}
use open_lib.Memory.{Memory, Endian, load8}
use open_lib.Acf.{get_acf_msg_type, get_acf_msg_length_in_bytes}
use open_lib.Acf.Laws.{get_acf_msg_type_in}
use open_lib.Acf.Padded.{payload_octets}
use open_lib.Acf.Padded.Length.{
  field-set_payload_length, load8-set_payload_length, payload_octets-set_payload_length,
}
use open_lib.Acf.Padded.Valid.{envelope_valid_iff, payload_octets_lem}
use open_lib.Acf.CanFamily.{
  CanFormat, is_eff, is_fdf, get_can_identifier, create_acf_message, is_valid,
}
use open_lib.Acf.CanFamily.Format.{IsCanFamily}
use open_lib.Acf.CanFamily.Body.{
  at, body, created, at-body, load8-filled, load8-extended, load8-body,
}

module _ (host : Endian) {format : CanFormat} (ok : IsCanFamily format) (m : Memory) (frame_id : ℕ)
    (payload : Memory) (payload_length : ℕ) (fdf : Bool) where
  open format use {padded, eff_field, fdf_field, identifier_field}

  -- The message before its length is set.
  abbrev unframed : Memory
  unframed = body host ok m frame_id payload payload_length fdf

  abbrev at_field : Memory → ℕ → ℕ
  at_field = at host ok

  -- The message as it is sent.
  abbrev message : Memory
  message = create_acf_message host format m frame_id payload payload_length fdf

  module _ (id_fits : frame_id < 2 ^ 29)
      (payload_fits : payload_length ≤ (if fdf then 64 else 8)) where
    fits : padded.header_len + payload_length ≤ 2044
    fits = ground (arith, ok.is_padded.small)

    at-message :
        (j : ℕ)
        → at_field message j ≡ (
            if 1 == j
            then at_field message 1
            else if padded.pad_field == j
            then at_field message padded.pad_field
            else at_field unframed j)
    at-message j = rw (created host ok m frame_id payload payload_length fdf) (
        ground (
          arith,
          field-set_payload_length host ok.is_padded unframed payload_length fits j,
          field-set_payload_length host ok.is_padded unframed payload_length fits 1,
          field-set_payload_length host ok.is_padded unframed payload_length fits padded.pad_field,
        ))

    -- A field that neither PAD nor the message length is.
    pub at-message_body :
        (j : ℕ) → 1 ≢ j → padded.pad_field ≢ j → at_field message j ≡ at_field unframed j
    at-message_body j p q = ground (arith, at-message j)

    read_type : get_acf_msg_type host message ≡ padded.acf_type
    read_type = ground (
      arith,
      get_acf_msg_type_in host ok.is_padded.starts_acf message,
      at-message_body 0 (omega arith) (omega (arith, ok.is_padded.pad_is_new)),
      at-body host ok m frame_id payload payload_length fdf 0 id_fits,
      ok.fdf_new,
      ok.identifier_new,
    )

    read_identifier : get_can_identifier host format message ≡ frame_id
    unfolding get_can_identifier
    read_identifier = ground (
      arith,
      at-message_body identifier_field (omega (arith, ok.identifier_new)) ok.pad_ne.2,
      at-body host ok m frame_id payload payload_length fdf identifier_field id_fits,
      ok.fdf_ne,
    )

    read_fdf : is_fdf host format message ≡ fdf
    unfolding is_fdf
    read_fdf = ground (
      arith,
      at-message_body fdf_field (omega (arith, ok.fdf_new)) ok.pad_ne.1,
      at-body host ok m frame_id payload payload_length fdf fdf_field id_fits,
    )

    read_eff : is_eff host format message ≡ ltb 0x7ff frame_id
    unfolding is_eff
    read_eff = ground (
      arith,
      at-message_body eff_field (omega (arith, ok.eff_new)) ok.pad_ne.0,
      at-body host ok m frame_id payload payload_length fdf eff_field id_fits,
      ok.eff_ne,
      ok.eff_new,
    )

    read_payload :
        (a : ℕ) → a < payload_length → load8 message (padded.header_len + a) ≡ load8 payload a
    read_payload a lt = rw (created host ok m frame_id payload payload_length fdf) (
        ground (
          arith,
          load8-set_payload_length host ok.is_padded unframed payload_length fits
              (padded.header_len + a),
          load8-body host ok m frame_id payload payload_length fdf (padded.header_len + a),
          load8-extended host ok m frame_id payload payload_length fdf (padded.header_len + a),
          load8-filled host ok m frame_id payload payload_length fdf a,
        ))

    -- What the receiver reads from a message that the sender made: its type, identifier, flags,
    -- payload length and payload bytes are the ones given. EFF tells whether the identifier has
    -- more than 11 bits. The identifier has at most 29 bits, and the payload at most 64 bytes
    -- with FDF and 8 without.
    pub create_acf_message-read :
        (get_acf_msg_type host message ≡ padded.acf_type)
        × (get_can_identifier host format message ≡ frame_id)
        × (is_fdf host format message ≡ fdf)
        × (is_eff host format message ≡ ltb 0x7ff frame_id)
        × (payload_octets host padded message ≡ payload_length)
        × ((a : ℕ) → a < payload_length → load8 message (padded.header_len + a) ≡ load8 payload a)
    create_acf_message-read = (
      read_type,
      read_identifier,
      read_fdf,
      read_eff,
      rw (created host ok m frame_id payload payload_length fdf)
          ((payload_octets-set_payload_length host ok.is_padded unframed payload_length fits).3),
      read_payload,
    )

    -- A message that `CreateAcfMessage` makes is valid in every buffer that holds it. The
    -- identifier has at most 29 bits, and the payload at most 64 bytes with FDF and 8 without.
    pub create_acf_message-is_valid :
        (buffer_size : ℕ)
        → get_acf_msg_length_in_bytes host message ≤ buffer_size
        → is_valid host format (some message) buffer_size ≡ true
    unfolding is_valid
    create_acf_message-is_valid buffer_size h =
        let framed =
          payload_octets-set_payload_length host ok.is_padded unframed payload_length fits in
        let framed' = rw (← created host ok m frame_id payload payload_length fdf) at framed in
        ground (
          arith,
          envelope_valid_iff host ok.is_padded message buffer_size,
          payload_octets_lem host ok.is_padded message,
          framed',
          read_type,
          read_fdf,
        )
