-- ===== src/Vss/Strings/Laws.antt =====
-- Serialising a string array, and then counting and deserialising it.
use open_lib.Common.{
  ℕ, zero, suc, ◌+◌, ◌-◌, ◌^◌, ◌%◌, ◌≤◌, ◌<◌, ◌≡◌, inl, refl, ap, ◌∙◌, arith, true, false, leb, ltb,
  Option, none, some, List, [], ◌∷◌, length,
}
use mathlib.Core.Option
use open_lib.Memory.{Memory, Endian, load8, load_be, store_be, memcpy}
use open_lib.Memory.Laws.{load8-memcpy}
use open_lib.Memory.Copy.{load_be-store_be, load8-store_be, load_be-cong, memcpy_same}
use open_lib.Byteorder.Host.{be_to_cpu16-load, store-cpu_to_be16}
use open_lib.Vss.Strings.{
  VssDataString, VssStringOut, VssDataStringArray, serialize_loop, serialize_string_array,
  count_loop, get_string_array_length, deserialize_loop, deserialize_string_array,
}

-- The bytes that the strings take on the wire.
unfoldable pub wire_size : List VssDataString → ℕ
wire_size [] = 0
wire_size (s ∷ ss) = s.string_length + 2 + wire_size ss

-- The strings lie one after another from `pos` on.
unfoldable IsLayout : Memory → ℕ → List VssDataString → Type 0
IsLayout m pos [] = pos ≡ pos
IsLayout m pos (s ∷ ss) =
    (load_be m pos 2 ≡ s.string_length)
    × ((j : ℕ) → j < s.string_length → load8 m (pos + 2 + j) ≡ load8 s.chars j)
    × IsLayout m (pos + (s.string_length + 2)) ss

IsLayout-entry :
    (m : Memory) (pos : ℕ) (s : VssDataString) (ss : List VssDataString)
    → load_be m pos 2 ≡ s.string_length
    → ((j : ℕ) → j < s.string_length → load8 m (pos + 2 + j) ≡ load8 s.chars j)
    → IsLayout m (pos + (s.string_length + 2)) ss
    → IsLayout m pos (s ∷ ss)
unfolding IsLayout
IsLayout-entry m pos s ss prefix chars rest = (prefix, chars, rest)

-- What the strings leave in the caller's entries: each gets its string until one is NULL, and those
-- after the last string stay as they are.
unfoldable pub fill : List VssDataString → List (Option VssStringOut) → List (Option VssStringOut)
fill [] outs = outs
fill (s ∷ ss) [] = []
fill (s ∷ ss) (none ∷ outs) = none ∷ outs
fill (s ∷ ss) (some out ∷ outs) =
    some (record {
      out_length = s.string_length;
      chars_out = Option.map (λ dst. memcpy dst 0 s.chars 0 s.string_length) out.chars_out;
    })
    ∷ fill ss outs

module _ (host : Endian) where
  -- The bytes after one round of the loop.
  abbrev entered : Memory → ℕ → VssDataString → Memory
  entered raw pos s =
      memcpy (store_be raw pos 2 s.string_length) (pos + 2) s.chars 0 s.string_length

  module _ (raw : Memory) (pos : ℕ) (s : VssDataString) where
    serialize_loop-round :
        (ss : List VssDataString)
        → pos + (s.string_length + 2) < 2 ^ 16
        → serialize_loop host raw pos pos (s ∷ ss)
          ≡ serialize_loop host
              (entered raw pos s)
              (pos + (s.string_length + 2))
              (pos + (s.string_length + 2))
              ss
    unfolding serialize_loop
    serialize_loop-round ss h =
        let size : (s.string_length + 2) % 2 ^ 32 ≡ s.string_length + 2 = omega arith in
        let total : (pos + (s.string_length + 2)) % 2 ^ 32 ≡ pos + (s.string_length + 2) =
          omega arith in
        let small : ltb (2 ^ 16 - 1) (pos + (s.string_length + 2)) ≡ false = ground arith in
        rw (store-cpu_to_be16, size, total, small)

    entered_before : (a : ℕ) → a < pos → load8 (entered raw pos s) a ≡ load8 raw a
    entered_before a lt =
        rw load8-memcpy (ground (arith, load8-store_be raw pos 2 s.string_length a (inl lt)))

    entered_length : s.string_length < 2 ^ 16 → load_be (entered raw pos s) pos 2 ≡ s.string_length
    entered_length h =
        load_be-cong (entered raw pos s) (store_be raw pos 2 s.string_length) pos 2
          (λ j p q. rw load8-memcpy (ground arith))
        ∙ omega (arith, load_be-store_be raw pos 2 s.string_length)

    entered_chars :
        (j : ℕ) → j < s.string_length → load8 (entered raw pos s) (pos + 2 + j) ≡ load8 s.chars j
    entered_chars j lt =
        let e : 0 + (pos + 2 + j - (pos + 2)) ≡ j = omega arith in
        rw (load8-memcpy, e) (ground arith)

  -- The loop lays the strings out behind what is there.
  serialize_loop_lem :
      (raw : Memory) (pos : ℕ) (ss : List VssDataString)
      → pos + wire_size ss < 2 ^ 16
      → ((serialize_loop host raw pos pos ss).array_length ≡ pos + wire_size ss)
        × ((a : ℕ) → a < pos → load8 (serialize_loop host raw pos pos ss).raw a ≡ load8 raw a)
        × IsLayout (serialize_loop host raw pos pos ss).raw pos ss
  unfolding wire_size
  serialize_loop_lem raw pos [] h =
      unfold serialize_loop IsLayout in (omega arith, λ a lt. refl, refl)
  serialize_loop_lem raw pos (s ∷ ss) h =
      let rest =
        serialize_loop_lem (entered raw pos s) (pos + (s.string_length + 2)) ss (omega arith) in
      rw (serialize_loop-round raw pos s ss (omega arith)) (
        omega (arith, rest.0),
        λ a lt. rest.1 a (omega arith) ∙ entered_before raw pos s a lt,
        IsLayout-entry _ pos s ss
            (load_be-cong _ (entered raw pos s) pos 2 (λ j p q. rest.1 j (omega arith))
              ∙ entered_length raw pos s (omega arith))
            (λ j lt. rest.1 (pos + 2 + j) (omega arith) ∙ entered_chars raw pos s j lt) rest.2,
      )

  module _ (array : VssDataStringArray) (bounded : array.array_length < 2 ^ 16) where
    count_loop_lem :
        (fuel idx pos : ℕ) (ss : List VssDataString)
        → IsLayout array.raw pos ss
        → pos + wire_size ss ≡ array.array_length
        → wire_size ss ≤ fuel
        → idx ≤ pos
        → count_loop host array fuel idx pos ≡ idx + length ss
    unfolding count_loop wire_size IsLayout
    count_loop_lem zero idx pos [] layout h enough le = omega arith
    count_loop_lem zero idx pos (s ∷ ss) layout h enough le = absurd (omega arith)
    count_loop_lem (suc fuel) idx pos [] layout h enough le =
        let stop : leb ((pos + 2) % 2 ^ 32) array.array_length ≡ false = ground arith in
        rw stop (omega arith)
    count_loop_lem (suc fuel) idx pos (s ∷ ss) layout h enough le =
        let more : leb ((pos + 2) % 2 ^ 32) array.array_length ≡ true = ground arith in
        let whole : ltb array.array_length ((pos + 2 + s.string_length) % 2 ^ 32) ≡ false =
          ground arith in
        let next : (pos + (2 + s.string_length) % 2 ^ 16) % 2 ^ 16 ≡ pos + (s.string_length + 2) =
          omega arith in
        let counted : (idx + 1) % 2 ^ 16 ≡ idx + 1 = omega arith in
        rw (be_to_cpu16-load, layout.0, more, whole, next, counted)
          (omega (
            arith,
            count_loop_lem fuel (idx + 1) (pos + (s.string_length + 2)) ss layout.2 (omega arith)
                (omega arith) (omega arith),
          ))

    -- The characters that are copied are those of the string.
    chars_same :
        (pos : ℕ) (s : VssDataString)
        → ((j : ℕ) → j < s.string_length → load8 array.raw (pos + j) ≡ load8 s.chars j)
        → (chars_out : Option Memory)
        → Option.map (λ dst. memcpy dst 0 array.raw pos s.string_length) chars_out
          ≡ Option.map (λ dst. memcpy dst 0 s.chars 0 s.string_length) chars_out
    chars_same pos s h none = refl
    chars_same pos s h (some dst) = ap some (
        memcpy_same dst 0 array.raw pos s.chars 0 s.string_length
          (λ j lt. let e : 0 + j ≡ j = omega arith in rw e (h j lt)))

    deserialize_loop_lem :
        (pos : ℕ) (ss : List VssDataString) (outs : List (Option VssStringOut))
        → IsLayout array.raw pos ss
        → pos + wire_size ss ≡ array.array_length
        → deserialize_loop host array pos pos outs ≡ fill ss outs
    unfolding deserialize_loop wire_size IsLayout fill
    deserialize_loop_lem pos [] [] layout h = refl
    deserialize_loop_lem pos [] (none ∷ outs) layout h = refl
    deserialize_loop_lem pos [] (some out ∷ outs) layout h =
        let stop : ltb array.array_length ((pos + 2) % 2 ^ 32) ≡ true = ground arith in rw stop refl
    deserialize_loop_lem pos (s ∷ ss) [] layout h = refl
    deserialize_loop_lem pos (s ∷ ss) (none ∷ outs) layout h = refl
    deserialize_loop_lem pos (s ∷ ss) (some out ∷ outs) layout h =
        let more : ltb array.array_length ((pos + 2) % 2 ^ 32) ≡ false = ground arith in
        let whole : ltb array.array_length ((pos + 2 + s.string_length) % 2 ^ 32) ≡ false =
          ground arith in
        let next : (pos + (2 + s.string_length) % 2 ^ 16) % 2 ^ 16 ≡ pos + (s.string_length + 2) =
          omega arith in
        let next' : pos + (2 + s.string_length) ≡ pos + (s.string_length + 2) = omega arith in
        rw (
          be_to_cpu16-load,
          layout.0,
          more,
          whole,
          next,
          next',
          deserialize_loop_lem (pos + (s.string_length + 2)) ss outs layout.2 (omega arith),
          chars_same (pos + 2) s layout.1 out.chars_out,
        )

  -- For strings that take less than 2 ^ 16 bytes on the wire, `Avtp_Vss_GetVSSDataStringArrayLength`
  -- counts as many as `Avtp_Vss_SerializeStringArray` was given.
  pub get_string_array_length-serialize_string_array :
      (raw : Memory) (ss : List VssDataString)
      → wire_size ss < 2 ^ 16
      → get_string_array_length host (serialize_string_array host raw ss) ≡ length ss
  unfolding get_string_array_length serialize_string_array
  get_string_array_length-serialize_string_array raw ss h =
      let laid = serialize_loop_lem raw 0 ss (omega arith) in
      omega (
        arith,
        count_loop_lem (serialize_loop host raw 0 0 ss) (omega (arith, laid.0))
            (serialize_loop host raw 0 0 ss).array_length 0 0 ss laid.2 (omega (arith, laid.0))
            (omega (arith, laid.0)) (omega arith),
      )

  -- For strings that take less than 2 ^ 16 bytes on the wire, what `Avtp_Vss_DeserializeStringArray`
  -- puts in the caller's entries are the strings that `Avtp_Vss_SerializeStringArray` was given, in
  -- order, up to an entry that is NULL.
  pub deserialize_string_array-serialize_string_array :
      (raw : Memory) (ss : List VssDataString) (outs : List (Option VssStringOut))
      → wire_size ss < 2 ^ 16
      → deserialize_string_array host (serialize_string_array host raw ss) outs ≡ fill ss outs
  unfolding deserialize_string_array serialize_string_array
  deserialize_string_array-serialize_string_array raw ss outs h =
      let laid = serialize_loop_lem raw 0 ss (omega arith) in
      deserialize_loop_lem (serialize_loop host raw 0 0 ss) (omega (arith, laid.0)) 0 ss outs laid.2
        (omega (arith, laid.0))
