-- ===== src/Utils/Table.antt =====
-- Tables of field descriptors: what makes one well-formed, and what reading and writing do then.
use open_lib.Common.{
  ℕ, zero, suc, ◌+◌, ◌-◌, ◌*◌, ◌/◌, ◌%◌, ◌^◌, ◌≤◌, ◌<◌, ◌≡◌, ◌≢◌, refl, ap, arith, dec_lt,
  ℕ_discrete, lt→ltb, ltb, leb, ◌==◌, Bool, true, false, ◌&&◌, ◌||◌, if◌then◌else◌, List, [], ◌∷◌,
  length, get_or, testbit-zero, testbit-mod, testbit_ext, lt_of_testbit,
}
use native.Mathlib.Nat.{one-le-pow}
use open_lib.Memory.{Memory, Endian, load8, pdu_bit}
use open_lib.Memory.Laws.{load8_ext, pdu_bit_cong, pdu_bit_zero}
use open_lib.Utils.{FieldDescriptor, read_field, write_field, descriptor_at, get_in, set_in}
use open_lib.Utils.Geometry.{IsDescriptor}
use open_lib.Utils.Read.{start, bits_value, testbit-bits_value, read_field-eq-bits_value}
use open_lib.Utils.Write.{pdu_bit-write_field}

-- The test of one descriptor of a header of `bytes` bytes.
abbrev pub fits : ℕ → FieldDescriptor → Bool
fits bytes d =
    ltb d.offset 32 && (leb d.bits 64 && (leb d.quadlet 253 && leb (start d + d.bits) (8 * bytes)))

-- The two fields share no bit. A field that its version lacks has 0 bits.
abbrev pub apart : FieldDescriptor → FieldDescriptor → Bool
apart d e =
    d.bits == 0
    || (e.bits == 0 || (leb (start d + d.bits) (start e) || leb (start e + e.bits) (start d)))

abbrev pub all_fit : ℕ → List FieldDescriptor → Bool
all_fit bytes [] = true
all_fit bytes (d ∷ ds) = fits bytes d && all_fit bytes ds

abbrev pub apart_from : FieldDescriptor → List FieldDescriptor → Bool
apart_from d [] = true
apart_from d (e ∷ es) = apart d e && apart_from d es

abbrev pub all_apart : List FieldDescriptor → Bool
all_apart [] = true
all_apart (d ∷ ds) = apart_from d ds && all_apart ds

-- Every field lies in the header's `bytes` bytes and can be read whole, and no two overlap.
pub record IsTable (bytes : ℕ) (table : List FieldDescriptor) : Type 0 where
  pub fit : all_fit bytes table ≡ true
  pub disjoint : all_apart table ≡ true

fits_at :
    (bytes : ℕ) (table : List FieldDescriptor) (i : ℕ)
    → all_fit bytes table ≡ true
    → i < length table
    → fits bytes (descriptor_at table i) ≡ true
unfolding descriptor_at
fits_at bytes [] i h lt = absurd (omega arith)
fits_at bytes (d ∷ ds) zero h lt = ground arith
fits_at bytes (d ∷ ds) (suc i) h lt = fits_at bytes ds i (ground arith) (omega arith)

apart_at :
    (d : FieldDescriptor) (table : List FieldDescriptor) (i : ℕ)
    → apart_from d table ≡ true
    → i < length table
    → apart d (descriptor_at table i) ≡ true
unfolding descriptor_at
apart_at d [] i h lt = absurd (omega arith)
apart_at d (e ∷ es) zero h lt = ground arith
apart_at d (e ∷ es) (suc i) h lt = apart_at d es i (ground arith) (omega arith)

abbrev blank : FieldDescriptor
blank = record { quadlet = 0; offset = 0; bits = 0 }

apart_sym : (d e : FieldDescriptor) → apart d e ≡ true → apart e d ≡ true
apart_sym d e h = ground arith

both_apart :
    (table : List FieldDescriptor) (i j : ℕ)
    → all_apart table ≡ true
    → i < length table
    → j < length table
    → i ≢ j
    → apart (descriptor_at table i) (descriptor_at table j) ≡ true
unfolding descriptor_at
both_apart [] i j h p q ne = absurd (omega arith)
both_apart (d ∷ ds) zero zero h p q ne = absurd (ne refl)
both_apart (d ∷ ds) zero (suc j) h p q ne = apart_at d ds j (ground arith) (omega arith)
both_apart (d ∷ ds) (suc i) zero h p q ne =
    apart_sym d (get_or ds i blank) (apart_at d ds i (ground arith) (omega arith))
both_apart (d ∷ ds) (suc i) (suc j) h p q ne =
    both_apart ds i j (ground arith) (omega arith) (omega arith) (λ e. ne (ap suc e))

-- The number that a written field holds.
bits_value_written :
    (host : Endian) {d : FieldDescriptor} (ok : IsDescriptor d) (m : Memory) (v : ℕ)
    → bits_value (write_field host d m v) (start d) d.bits ≡ v % 2 ^ d.bits
bits_value_written host {d} ok m v =
    testbit_ext _ _
      λ i. rw (testbit-bits_value, pdu_bit-write_field host ok m v, testbit-mod) (ground arith)

-- A field apart from the written one keeps its number.
pub bits_value-apart :
    (host : Endian) {d : FieldDescriptor} (ok : IsDescriptor d) (m : Memory) (v : ℕ)
    (e : FieldDescriptor)
    → apart d e ≡ true
    → bits_value (write_field host d m v) (start e) e.bits ≡ bits_value m (start e) e.bits
bits_value-apart host {d} ok m v e h =
    testbit_ext _ _ λ i.
      rw (testbit-bits_value, testbit-bits_value, pdu_bit-write_field host ok m v) (ground arith)

bits_value-lt : (m : Memory) (k n : ℕ) → bits_value m k n < 2 ^ n
bits_value-lt m k n = lt_of_testbit n _ λ i h. rw testbit-bits_value (ground arith)

-- The number depends only on the bits that it is made of.
bits_value_cong :
    (m m' : Memory) (k n : ℕ)
    → ((j : ℕ) → k ≤ j → j < k + n → pdu_bit m j ≡ pdu_bit m' j)
    → bits_value m k n ≡ bits_value m' k n
bits_value_cong m m' k n h =
    testbit_ext _ _
      λ i. rw (testbit-bits_value, testbit-bits_value) (ground (arith, h (k + n - 1 - i)))

bits_value_zero :
    (m : Memory) (k n : ℕ)
    → ((j : ℕ) → k ≤ j → j < k + n → pdu_bit m j ≡ false)
    → bits_value m k n ≡ 0
bits_value_zero m k n h =
    testbit_ext _ 0 λ i. rw (testbit-bits_value, testbit-zero) (ground (arith, h (k + n - 1 - i)))

-- Only the field's own descriptor matters, not the table that holds it.
module _ (host : Endian) (table : List FieldDescriptor) (n : ℕ) (m : Memory) (i : ℕ)
    (lt : i < n) where
  pub get_in_at : get_in host table n m i ≡ read_field host (descriptor_at table i) m
  unfolding get_in
  get_in_at = rw (lt→ltb _ _ lt)

  pub set_in_at : (v : ℕ) → set_in host table n m i v ≡ write_field host (descriptor_at table i) m v
  unfolding set_in
  set_in_at v = rw (lt→ltb _ _ lt)

module _ (host : Endian) {bytes : ℕ} {table : List FieldDescriptor} (ok : IsTable bytes table) where
  fit_at : (i : ℕ) → i < length table → fits bytes (descriptor_at table i) ≡ true
  fit_at i lt = fits_at bytes table i ok.fit lt

  pub descriptor : (i : ℕ) → i < length table → IsDescriptor (descriptor_at table i)
  descriptor i lt = record {
    starts = ground (arith, fit_at i lt);
    narrow = ground (arith, fit_at i lt);
    reachable = ground (arith, fit_at i lt);
  }

  abbrev get : Memory → ℕ → ℕ
  get m i = get_in host table (length table) m i

  abbrev set : Memory → ℕ → ℕ → Memory
  set m i v = set_in host table (length table) m i v

  -- What `Avtp_GetField` returns, as a number read off the bits of the PDU.
  pub get_value :
      (m : Memory) (i : ℕ)
      → get m i ≡ (
          if ltb i (length table)
          then bits_value m (start (descriptor_at table i)) (descriptor_at table i).bits
          else 0)
  get_value m i = elim (dec_lt i (length table)) [
    | yes lt ↦
        rw (get_in_at host table (length table) m i lt, lt→ltb _ _ lt)
          (read_field-eq-bits_value host (descriptor i lt) m)
    | no out ↦ unfold get_in in ground arith
  ]

  pub get-lt : (m : Memory) (i : ℕ) → get m i < 2 ^ (descriptor_at table i).bits
  get-lt m i = rw get_value (
      ground (
        arith,
        bits_value-lt m (start (descriptor_at table i)) (descriptor_at table i).bits,
        one-le-pow (descriptor_at table i).bits 2,
      ))

  -- In a table whose fields lie in the header, a read looks at the header's bytes alone.
  pub get_cong :
      (m m' : Memory) (i : ℕ) → ((a : ℕ) → a < bytes → load8 m a ≡ load8 m' a) → get m i ≡ get m' i
  get_cong m m' i h = elim (dec_lt i (length table)) [
    | yes lt ↦
        let e =
          bits_value_cong m m' (start (descriptor_at table i)) (descriptor_at table i).bits
            λ j p q. pdu_bit_cong m m' j (h (j / 8) (ground (arith, fit_at i lt))) in
        ground (arith, get_value m i, get_value m' i, e)
    | no out ↦ ground (arith, get_value m i, get_value m' i)
  ]

  -- A header of zeros has the value 0 in every field.
  pub get_zero : (m : Memory) (i : ℕ) → ((a : ℕ) → a < bytes → load8 m a ≡ 0) → get m i ≡ 0
  get_zero m i h = elim (dec_lt i (length table)) [
    | yes lt ↦
        let e =
          bits_value_zero m (start (descriptor_at table i)) (descriptor_at table i).bits
            λ j p q. pdu_bit_zero m j (h (j / 8) (ground (arith, fit_at i lt))) in
        ground (arith, get_value m i)
    | no out ↦ ground (arith, get_value m i)
  ]

  pub set_out_of_range : (m : Memory) (i v : ℕ) → length table ≤ i → set m i v ≡ m
  unfolding set_in
  set_out_of_range m i v h = ground arith

  get-set_in_range :
      (m : Memory) (i v j : ℕ)
      → i < length table
      → j < length table
      → get (set m i v) j ≡ (if i == j then v % 2 ^ (descriptor_at table i).bits else get m j)
  get-set_in_range m i v j p q = elim (ℕ_discrete i j) [
    | yes e ↦
        rw (set_in_at host table (length table) m i p v, get_value, ← e)
          (ground (arith, bits_value_written host (descriptor i p) m v))
    | no ne ↦ rw (set_in_at host table (length table) m i p v) (
        ground (
          arith,
          get_value (write_field host (descriptor_at table i) m v) j,
          get_value m j,
          bits_value-apart host (descriptor i p) m v (descriptor_at table j)
              (both_apart table i j ok.disjoint p q ne),
        ))
  ]

  -- In a table of fields that share no bit, writing a field gives that field its value, cut to its
  -- bits, and no other field a new one.
  pub get-set :
      (m : Memory) (i v j : ℕ)
      → get (set m i v) j
        ≡ (if ltb i (length table) && i == j then v % 2 ^ (descriptor_at table i).bits else get m j)
  get-set m i v j = elim (dec_lt i (length table)) [
    | yes p ↦ elim (dec_lt j (length table)) [
      | yes q ↦ ground (arith, get-set_in_range m i v j p q)
      | no out ↦ ground (arith, get_value m j, get_value (set m i v) j)
    ]
    | no out ↦ rw (set_out_of_range m i v (omega arith)) (ground arith)
  ]

  -- In a table whose fields lie in the header, a write changes no byte behind the header.
  pub load8-set : (m : Memory) (i v a : ℕ) → bytes ≤ a → load8 (set m i v) a ≡ load8 m a
  load8-set m i v a h = elim (dec_lt i (length table)) [
    | yes p ↦ rw (set_in_at host table (length table) m i p v) (
        load8_ext _ m a
          λ j q r. rw (pdu_bit-write_field host (descriptor i p) m v) (ground (arith, fit_at i p)))
    | no out ↦ rw (set_out_of_range m i v (omega arith))
  ]
