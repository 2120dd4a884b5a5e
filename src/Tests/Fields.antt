-- ===== src/Tests/Fields.antt =====
-- The byte order, the field loops and the descriptor tables at concrete inputs.
use open_lib.Common.{
  ℕ, ◌+◌, ◌*◌, ◌%◌, ◌^◌, ◌-◌, ◌<◌, ◌≡◌, refl, arith, within, ltb, ◌==◌, ◌&&◌, if◌then◌else◌,
  testbit,
}
use open_lib.Memory.{Memory, little, big, load8, load, store, load_be, store_be, store8, pdu_bit}
use open_lib.Byteorder.{
  bswap32, cpu_to_le16, cpu_to_le32, cpu_to_le64, cpu_to_be16, cpu_to_be32, cpu_to_be64,
  le_to_cpu16, le_to_cpu32, le_to_cpu64, be_to_cpu16, be_to_cpu32, be_to_cpu64,
}
use open_lib.Byteorder.RoundTrip.{to_cpu-cpu_to, be_to_cpu-load, store-cpu_to_be}
use open_lib.Utils.{FieldDescriptor, desc, descriptor_at, read_field, write_field, get_in, set_in}
use open_lib.Utils.Geometry.{IsDescriptor}
use open_lib.Utils.Read.{start, bits_value, read_field-eq-bits_value}
use open_lib.Utils.Write.{pdu_bit-write_field}
use open_lib.Utils.Table.{get-set}
use open_lib.Acf.Can
use open_lib.Acf.Formats.{can-IsPadded}

abbrev sample : Memory
sample a = a * 73 + 29

-- The 64-bit timestamp of a CAN message, and its 29-bit identifier.
abbrev timestamp : FieldDescriptor
timestamp = desc 1 0 64

abbrev identifier : FieldDescriptor
identifier = desc 3 3 29

timestamp-IsDescriptor : IsDescriptor timestamp
timestamp-IsDescriptor = record {
  starts = omega arith;
  narrow = omega arith;
  reachable = omega arith;
}

identifier-IsDescriptor : IsDescriptor identifier
identifier-IsDescriptor = record {
  starts = omega arith;
  narrow = omega arith;
  reachable = omega arith;
}

swapped : bswap32 0x12345678 ≡ 0x78563412
unfolding bswap32
swapped = refl

-- 0xa1 0xea 0x33 0x7c, less the three bits before the field.
read_sample : read_field big identifier (λ a. a * 73 + 53) ≡ 0x01ea337c
unfolding read_field
read_sample = refl

to_cpu-cpu_to_example :
    (be_to_cpu16 little (cpu_to_be16 little 0x1234) ≡ 0x1234)
    × (be_to_cpu32 little (cpu_to_be32 little 0x12345678) ≡ 0x12345678)
    × (be_to_cpu64 little (cpu_to_be64 little 0x123456789a) ≡ 0x123456789a)
    × (le_to_cpu16 little (cpu_to_le16 little 0x1234) ≡ 0x1234)
    × (le_to_cpu32 little (cpu_to_le32 little 0x12345678) ≡ 0x12345678)
    × (le_to_cpu64 little (cpu_to_le64 little 0x123456789a) ≡ 0x123456789a)
to_cpu-cpu_to_example =
    to_cpu-cpu_to little 0x1234 0x12345678 0x123456789a (omega arith) (omega arith) (omega arith)

be_to_cpu-load_example :
    (be_to_cpu16 little (load little sample 3 2) ≡ load_be sample 3 2)
    × (be_to_cpu32 little (load little sample 3 4) ≡ load_be sample 3 4)
    × (be_to_cpu64 little (load little sample 3 8) ≡ load_be sample 3 8)
be_to_cpu-load_example = be_to_cpu-load little sample 3

store-cpu_to_be_example :
    (store little sample 3 2 (cpu_to_be16 little 0x1234) ≡ store_be sample 3 2 0x1234)
    × (store little sample 3 4 (cpu_to_be32 little 0x1234) ≡ store_be sample 3 4 0x1234)
    × (store little sample 3 8 (cpu_to_be64 little 0x1234) ≡ store_be sample 3 8 0x1234)
store-cpu_to_be_example = store-cpu_to_be little sample 3 0x1234

read_field-eq-bits_value_example :
    read_field little timestamp sample ≡ bits_value sample (start timestamp) 64
read_field-eq-bits_value_example = read_field-eq-bits_value little timestamp-IsDescriptor sample

pdu_bit-write_field_example : pdu_bit (write_field little identifier sample 0x7ff) 120 ≡ (
    if within (start identifier) (start identifier + 29) 120
    then testbit 0x7ff (start identifier + 29 - 1 - 120)
    else pdu_bit sample 120)
pdu_bit-write_field_example = pdu_bit-write_field little identifier-IsDescriptor sample 0x7ff 120

get-set_example : get_in little Can.table 14 (set_in little Can.table 14 sample 13 0x7ff) 9 ≡ (
    if ltb 13 14 && 13 == 9
    then 0x7ff % 2 ^ (descriptor_at Can.table 13).bits
    else get_in little Can.table 14 sample 9)
get-set_example = get-set little can-IsPadded.is_table sample 13 0x7ff 9

-- The sample with the byte behind a CAN header changed.
abbrev changed : Memory
changed = store8 sample 16 1

changed_behind : (a : ℕ) → a < 16 → load8 sample a ≡ load8 changed a
unfolding load8 store8
changed_behind a lt = ground arith
