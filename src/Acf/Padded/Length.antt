-- ===== src/Acf/Padded/Length.antt =====
-- `Avtp_<X>_SetPayloadLength` against `Avtp_<X>_GetPayloadLength`, and what it leaves alone.
use open_lib.Common.{
  ℕ, ◌+◌, ◌-◌, ◌/◌, ◌%◌, ◌≤◌, ◌<◌, ◌≡◌, refl, arith, ltb, ◌==◌, within, if◌then◌else◌, u8, u16,
}
use open_lib.Memory.{Memory, Endian, load8, memset}
use open_lib.Memory.Laws.{load8-memset}
use open_lib.Acf.{get_acf_msg_length_in_bytes, set_acf_msg_length}
use open_lib.Acf.Laws.{get_acf_msg_length_in_bytes_in}
use open_lib.Acf.Padded.{
  PaddedFormat, IsPadded, get_pad, set_pad, set_payload_length, payload_octets,
}
use open_lib.Acf.Padded.Header.{
  field, get_pad-field, field-set_pad, field-set_acf_msg_length, field-memset, load8-set_pad,
  load8-set_acf_msg_length,
}

module _ (host : Endian) {format : PaddedFormat} (ok : IsPadded format) (m : Memory)
    (payload_length : ℕ) (fits : format.header_len + payload_length ≤ 2044) where
  open format use {header_len, pad_field}

  abbrev total : ℕ
  total = header_len + payload_length

  abbrev pad : ℕ
  pad = u8 (4 - u16 total % 4) % 4

  abbrev quadlets : ℕ
  quadlets = u16 ((u16 total + pad) / 4)

  abbrev cleared : Memory
  cleared = if ltb 0 pad then memset m total 0 pad else m

  abbrev framed : Memory
  framed = set_payload_length host format m payload_length

  framed_steps : framed ≡ set_acf_msg_length host (set_pad host format cleared pad) quadlets
  unfolding set_payload_length
  framed_steps = refl

  field-cleared : (j : ℕ) → field host ok cleared j ≡ field host ok m j
  field-cleared j = ground (arith, field-memset host ok m total 0 pad j)

  load8-cleared :
      (a : ℕ) → load8 cleared a ≡ (if within total (total + pad) a then 0 else load8 m a)
  load8-cleared a = ground (arith, load8-memset m total 0 pad a)

  pub field-set_payload_length :
      (j : ℕ)
      → field host ok framed j
        ≡ (if 1 == j then quadlets else if pad_field == j then pad else field host ok m j)
  field-set_payload_length j = rw framed_steps (
      ground (
        arith,
        field-set_acf_msg_length host ok (set_pad host format cleared pad) quadlets j,
        field-set_pad host ok cleared pad j,
        field-cleared j,
      ))

  -- Behind the header `SetPayloadLength` changes the padding alone, which it clears: header and payload have at
  -- most 2044 bytes.
  pub load8-set_payload_length :
      (a : ℕ)
      → header_len ≤ a
      → load8 framed a ≡ (if within total (total + pad) a then 0 else load8 m a)
  load8-set_payload_length a h = rw framed_steps (
      ground (
        arith,
        load8-set_acf_msg_length host ok (set_pad host format cleared pad) quadlets a,
        load8-set_pad host ok cleared pad a,
        load8-cleared a,
      ))

  pub payload_octets-set_payload_length :
      (get_acf_msg_length_in_bytes host framed % 4 ≡ 0)
      × (get_acf_msg_length_in_bytes host framed ≡ total + get_pad host format framed)
      × (get_pad host format framed < 4)
      × (payload_octets host format framed ≡ payload_length)
  unfolding payload_octets
  payload_octets-set_payload_length = ground (
    arith,
    get_acf_msg_length_in_bytes_in host ok.starts_acf framed,
    get_pad-field host ok framed,
    field-set_payload_length 1,
    field-set_payload_length pad_field,
    ok.pad_is_new,
  )
