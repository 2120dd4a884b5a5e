-- ===== src/Acf/Padded/Valid.antt =====
-- What the shared checks of `Avtp_<X>_IsValid` establish, and what they look at.
use open_lib.Common.{ℕ, ◌+◌, ◌≤◌, ◌<◌, ◌≡◌, ◌↔◌, arith, true, false, dec_lt}
use open_lib.Memory.{Memory, Endian, load8}
use open_lib.Acf.{get_acf_msg_type, get_acf_msg_length_in_bytes}
use open_lib.Acf.Laws.{
  get_acf_msg_type_in, get_acf_msg_length_in_bytes_in, get_acf_msg_length_in_bytes-lt,
}
use open_lib.Acf.Padded.{
  PaddedFormat, IsPadded, get_pad, envelope_valid, payload_octets, checked_payload_length,
}
use open_lib.Acf.Padded.Header.{field_cong, get_pad-field, get_pad-lt}

module _ (host : Endian) {format : PaddedFormat} (ok : IsPadded format) where
  open format use {header_len, acf_type}

  -- The checks that every `IsValid` of a padded format shares accept exactly the messages of the
  -- format's type that hold their header and padding and lie in the buffer.
  pub envelope_valid_iff :
      (m : Memory) (buffer_size : ℕ)
      → (envelope_valid host format m buffer_size ≡ true)
        ↔ (get_acf_msg_type host m ≡ acf_type)
          × (header_len + get_pad host format m ≤ get_acf_msg_length_in_bytes host m)
          × (get_acf_msg_length_in_bytes host m ≤ buffer_size)
  unfolding envelope_valid
  envelope_valid_iff m buffer_size = ground (arith, get_pad-lt host ok m, ok.small)

  -- Where the message holds its header and padding, the rest of it is the payload.
  pub payload_octets_lem :
      (m : Memory)
      → header_len + get_pad host format m ≤ get_acf_msg_length_in_bytes host m
      → (header_len + payload_octets host format m + get_pad host format m
          ≡ get_acf_msg_length_in_bytes host m)
        × (checked_payload_length host format m ≡ payload_octets host format m)
  unfolding payload_octets checked_payload_length
  payload_octets_lem m h =
      omega (arith, get_pad-lt host ok m, ok.small, get_acf_msg_length_in_bytes-lt host m)

  -- Memories that agree on the header.
  module _ (m m' : Memory) (agree : (a : ℕ) → a < header_len → load8 m a ≡ load8 m' a) where
    pub get_acf_msg_type_cong : get_acf_msg_type host m ≡ get_acf_msg_type host m'
    get_acf_msg_type_cong =
        rw (get_acf_msg_type_in host ok.starts_acf m, get_acf_msg_type_in host ok.starts_acf m')
          (field_cong host ok m m' 0 agree)

    pub get_acf_msg_length_in_bytes_cong :
        get_acf_msg_length_in_bytes host m ≡ get_acf_msg_length_in_bytes host m'
    get_acf_msg_length_in_bytes_cong = omega (
      arith,
      get_acf_msg_length_in_bytes_in host ok.starts_acf m,
      get_acf_msg_length_in_bytes_in host ok.starts_acf m',
      field_cong host ok m m' 1 agree,
    )

    pub get_pad_cong : get_pad host format m ≡ get_pad host format m'
    get_pad_cong = omega (
      arith,
      get_pad-field host ok m,
      get_pad-field host ok m',
      field_cong host ok m m' format.pad_field agree,
    )

    pub envelope_valid_agree :
        (buffer_size : ℕ)
        → envelope_valid host format m buffer_size ≡ envelope_valid host format m' buffer_size
    unfolding envelope_valid
    envelope_valid_agree buffer_size =
        rw (get_acf_msg_type_cong, get_acf_msg_length_in_bytes_cong, get_pad_cong)

    pub checked_payload_length_cong :
        checked_payload_length host format m ≡ checked_payload_length host format m'
    unfolding checked_payload_length
    checked_payload_length_cong = rw (get_acf_msg_length_in_bytes_cong, get_pad_cong)

  pub envelope_valid_short :
      (m : Memory) (buffer_size : ℕ)
      → buffer_size < header_len
      → envelope_valid host format m buffer_size ≡ false
  unfolding envelope_valid
  envelope_valid_short m buffer_size short = ground arith

  -- The checks that every `IsValid` of a padded format shares look at nothing outside the buffer: with
  -- other bytes behind it the result is the same.
  pub envelope_valid_cong :
      (m m' : Memory) (buffer_size : ℕ)
      → ((a : ℕ) → a < buffer_size → load8 m a ≡ load8 m' a)
      → envelope_valid host format m buffer_size ≡ envelope_valid host format m' buffer_size
  envelope_valid_cong m m' buffer_size agree = elim (dec_lt buffer_size header_len) [
    | yes short ↦ rw (envelope_valid_short m _ short, envelope_valid_short m' _ short)
    | no long ↦ envelope_valid_agree m m' (λ a lt. agree a (omega arith)) buffer_size
  ]
