-- ===== src/Utils.antt =====
-- include/avtp/Utils.h and include/avtp/Defines.h: reading and writing one field of a PDU by its
-- descriptor. Both loops walk the quadlets (32-bit words) that the field touches.
-- A PDU pointer is `none` for NULL; the table of descriptors likewise.
pub mod Geometry
pub mod Read
pub mod Write
pub mod Table
pub mod Apart
use open_lib.Common.{
  ℕ, zero, suc, ◌+◌, ◌-◌, ◌*◌, ◌^◌, Bool, true, false, ltb, ◌==◌, if◌then◌else◌, Option, none, some,
  List, get_or, u8, u32, u64, ◌<<<◌, ◌>>>◌, not32, bit_and, bit_or,
}
use open_lib.Memory.{Memory, Endian, load, store}
use open_lib.Byteorder.{be_to_cpu32, cpu_to_be32}

-- `Avtp_FieldDescriptor_t`; all three are `uint8_t`.
pub record FieldDescriptor : Type 0 where
  pub quadlet : ℕ
  pub offset : ℕ
  pub bits : ℕ

abbrev pub desc : ℕ → ℕ → ℕ → FieldDescriptor
desc quadlet offset bits = record { quadlet = quadlet; offset = offset; bits = bits }

-- `Avtp_MinU8`
unfoldable pub min_u8 : ℕ → ℕ → ℕ
min_u8 a b = if ltb a b then a else b

-- `quadletBits` and `quadletShift` of the round that starts with `processed` bits done. The casts
-- to `uint8_t` are of an `int` that can be negative: a multiple of 256 is added first.
unfoldable pub quadlet_bits : FieldDescriptor → ℕ → ℕ
unfolding min_u8
quadlet_bits d processed =
    if processed == 0
    then min_u8 (u8 (32 + 256 - d.offset)) (u8 (d.bits + 256 - processed))
    else min_u8 32 (u8 (d.bits + 256 - processed))

unfoldable pub quadlet_shift : FieldDescriptor → ℕ → ℕ
unfolding quadlet_bits
quadlet_shift d processed =
    if processed == 0
    then u8 (32 + 512 - quadlet_bits d processed - d.offset)
    else u8 (32 + 256 - quadlet_bits d processed)

-- `(uint32_t)(((1ULL << quadletBits) - 1ULL) << quadletShift)`
unfoldable pub quadlet_mask : ℕ → ℕ → ℕ
quadlet_mask width shift = u32 (u64 (u64 (u64 (1 <<< width) + 2 ^ 64 - 1) <<< shift))

-- The local variables of `Avtp_GetField`.
pub record ReadState : Type 0 where
  pub quadlet_offset : ℕ
  pub processed_bits : ℕ
  pub result : ℕ

-- The local variables of `Avtp_SetField`, with the PDU that it changes.
pub record WriteState : Type 0 where
  pub quadlet_offset : ℕ
  pub processed_bits : ℕ
  pub pdu : Memory

module _ (host : Endian) (d : FieldDescriptor) where
  -- The body of the loop of `Avtp_GetField`.
  unfoldable pub read_round : Memory → ReadState → ReadState
  unfolding quadlet_bits quadlet_shift quadlet_mask load be_to_cpu32
  read_round m s =
      let width = quadlet_bits d s.processed_bits in
      let shift = quadlet_shift d s.processed_bits in
      let quadlet_id = u8 (d.quadlet + s.quadlet_offset) in
      let quadlet_host_order = be_to_cpu32 host (load host m (quadlet_id * 4) 4) in
      let partial_value = bit_and quadlet_host_order (quadlet_mask width shift) >>> shift in
      record {
        quadlet_offset = u8 (s.quadlet_offset + 1);
        processed_bits = u8 (s.processed_bits + width);
        result = bit_or s.result (u64 (partial_value <<< (d.bits - s.processed_bits - width)));
      }

  -- The loop, on fuel: a round processes at least one bit.
  unfoldable pub read_loop : Memory → ℕ → ReadState → ReadState
  unfolding read_round
  read_loop m zero s = s
  read_loop m (suc fuel) s =
      let rest = read_loop m fuel (read_round m s) in
      if ltb s.processed_bits d.bits then rest else s

  -- The body of the loop of `Avtp_SetField`.
  unfoldable pub write_round : ℕ → WriteState → WriteState
  unfolding quadlet_bits quadlet_shift quadlet_mask load be_to_cpu32 store cpu_to_be32
  write_round value s =
      let width = quadlet_bits d s.processed_bits in
      let shift = quadlet_shift d s.processed_bits in
      let quadlet_id = u8 (d.quadlet + s.quadlet_offset) in
      let partial_value = u32 (value >>> (d.bits - s.processed_bits - width)) in
      let mask = quadlet_mask width shift in
      let quadlet_host_order = be_to_cpu32 host (load host s.pdu (quadlet_id * 4) 4) in
      let updated =
        bit_or (bit_and quadlet_host_order (not32 mask))
          (bit_and (u32 (partial_value <<< shift)) mask) in
      record {
        quadlet_offset = u8 (s.quadlet_offset + 1);
        processed_bits = u8 (s.processed_bits + width);
        pdu = store host s.pdu (quadlet_id * 4) 4 (cpu_to_be32 host updated);
      }

  unfoldable pub write_loop : ℕ → ℕ → WriteState → WriteState
  unfolding write_round
  write_loop value zero s = s
  write_loop value (suc fuel) s =
      let rest = write_loop value fuel (write_round value s) in
      if ltb s.processed_bits d.bits then rest else s

  unfoldable pub read_field : Memory → ℕ
  unfolding read_loop
  read_field m =
      (read_loop m d.bits (record { quadlet_offset = 0; processed_bits = 0; result = 0 })).result

  unfoldable pub write_field : Memory → ℕ → Memory
  unfolding write_loop
  write_field m value =
      (write_loop value d.bits (record { quadlet_offset = 0; processed_bits = 0; pdu = m })).pdu

-- `fieldDescriptors[field]`. Every caller passes the length of the table as `numFields`, so that
-- the default is never taken.
unfoldable pub descriptor_at : List FieldDescriptor → ℕ → FieldDescriptor
descriptor_at table field = get_or table field (record { quadlet = 0; offset = 0; bits = 0 })

-- `Avtp_GetField` and `Avtp_SetField` where neither pointer is NULL, as the formats call them.
module _ (host : Endian) (table : List FieldDescriptor) (num_fields : ℕ) (m : Memory)
    (field : ℕ) where
  unfoldable pub get_in : ℕ
  unfolding read_field descriptor_at
  get_in = if ltb field num_fields then read_field host (descriptor_at table field) m else 0

  unfoldable pub set_in : ℕ → Memory
  unfolding write_field descriptor_at
  set_in value =
      if ltb field num_fields then write_field host (descriptor_at table field) m value else m

-- `Avtp_GetField`
unfoldable pub get_field : Endian → Option (List FieldDescriptor) → ℕ → Option Memory → ℕ → ℕ
unfolding get_in
get_field host none num_fields pdu field = 0
get_field host (some table) num_fields none field = 0
get_field host (some table) num_fields (some m) field = get_in host table num_fields m field

-- `Avtp_SetField`; the result is the PDU afterwards, where there is one.
unfoldable pub set_field :
    Endian → Option (List FieldDescriptor) → ℕ → Option Memory → ℕ → ℕ → Option Memory
unfolding set_in
set_field host none num_fields pdu field value = pdu
set_field host (some table) num_fields none field value = none
set_field host (some table) num_fields (some m) field value =
    some (set_in host table num_fields m field value)
