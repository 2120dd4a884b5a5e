-- ===== src/Acf/CanFamily/Valid.antt =====
-- What `IsValid` of a CAN format accepts, and what it looks at.
use open_lib.Common.{ℕ, ◌+◌, ◌≤◌, ◌<◌, ◌≡◌, ◌↔◌, arith, true, if◌then◌else◌, some, dec_lt}
use open_lib.Memory.{Memory, Endian, load8}
use open_lib.Acf.{get_acf_msg_type, get_acf_msg_length_in_bytes}
use open_lib.Acf.Padded.{get_pad, payload_octets}
use open_lib.Acf.Padded.Header.{field_cong}
use open_lib.Acf.Padded.Valid.{
  envelope_valid_iff, envelope_valid_agree, envelope_valid_short, payload_octets_lem,
  checked_payload_length_cong,
}
use open_lib.Acf.CanFamily.{CanFormat, is_fdf, is_valid}
use open_lib.Acf.CanFamily.Format.{IsCanFamily}

module _ (host : Endian) {format : CanFormat} (ok : IsCanFamily format) where
  open format use {padded, fdf_field}

  -- `IsValid` accepts exactly the messages of the format's type that lie in the buffer, as a header,
  -- a payload and padding, with a payload of at most 64 bytes with FDF and 8 without.
  pub is_valid_iff :
      (m : Memory) (buffer_size : ℕ)
      → (is_valid host format (some m) buffer_size ≡ true)
        ↔ (get_acf_msg_type host m ≡ padded.acf_type)
          × (padded.header_len + payload_octets host padded m + get_pad host padded m
              ≡ get_acf_msg_length_in_bytes host m)
          × (get_acf_msg_length_in_bytes host m ≤ buffer_size)
          × (payload_octets host padded m ≤ (if is_fdf host format m then 64 else 8))
  unfolding is_valid
  is_valid_iff m buffer_size = ground (
    arith,
    envelope_valid_iff host ok.is_padded m buffer_size,
    payload_octets_lem host ok.is_padded m,
  )

  module _ (m m' : Memory) (agree : (a : ℕ) → a < padded.header_len → load8 m a ≡ load8 m' a) where
    is_fdf_cong : is_fdf host format m ≡ is_fdf host format m'
    unfolding is_fdf
    is_fdf_cong = rw (field_cong host ok.is_padded m m' fdf_field agree)

    pub is_valid_agree :
        (buffer_size : ℕ)
        → is_valid host format (some m) buffer_size ≡ is_valid host format (some m') buffer_size
    unfolding is_valid
    is_valid_agree buffer_size = ground (
      arith,
      is_fdf_cong,
      checked_payload_length_cong host ok.is_padded m m' agree,
      envelope_valid_agree host ok.is_padded m m' agree buffer_size,
    )

  pub is_valid_cong :
      (m m' : Memory) (buffer_size : ℕ)
      → ((a : ℕ) → a < buffer_size → load8 m a ≡ load8 m' a)
      → is_valid host format (some m) buffer_size ≡ is_valid host format (some m') buffer_size
  is_valid_cong m m' buffer_size agree = elim (dec_lt buffer_size padded.header_len) [
    | yes short ↦
        let e = envelope_valid_short host ok.is_padded m buffer_size short in
        let e' = envelope_valid_short host ok.is_padded m' buffer_size short in
        unfold is_valid in ground (arith, e, e')
    | no long ↦ is_valid_agree m m' (λ a lt. agree a (omega arith)) buffer_size
  ]
