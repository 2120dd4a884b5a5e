-- ===== src/Vss/Data/Element.antt =====
-- One number and an array of numbers, written by the setter and read by the getter.
use open_lib.Common.{
  ℕ, zero, suc, ◌+◌, ◌*◌, ◌^◌, ◌%◌, ◌≤◌, ◌<◌, ◌≡◌, inl, sym, refl, ◌∙◌, arith, dec_lt,
}
use native.Mathlib.Nat.{pow-suc}
use open_lib.Memory.{
  Memory, Endian, little, big, load8, load_be, load_le, store_be, store_le, load, store, memcpy,
}
use open_lib.Memory.Laws.{load8-lt}
use open_lib.Memory.Copy.{
  load_be-store_be, load8-store_be, load_be-cong, store-load, memcpy-memcpy, memcpy_nothing,
}
use open_lib.Byteorder.Host.{
  be_to_cpu16-load, be_to_cpu32-load, be_to_cpu64-load, store-cpu_to_be16, store-cpu_to_be32,
  store-cpu_to_be64,
}
use open_lib.Vss.Data.{
  Width, one, two, four, eight, bytes, be_to_cpu, cpu_to_be, read_elements, write_elements,
}

load-one : (host : Endian) (m : Memory) (a : ℕ) → load host m a 1 ≡ load_be m a 1
unfolding load load_le load_be
load-one little m a = let e : a + 0 ≡ a = omega arith in rw e (omega arith)
load-one big m a = refl

store-one : (host : Endian) (m : Memory) (a v : ℕ) → store host m a 1 v ≡ store_be m a 1 v
unfolding store store_le store_be
store-one little m a v = let e : a + 0 ≡ a = omega arith in rw e refl
store-one big m a v = refl

pub be_to_cpu-load_lem :
    (w : Width) (host : Endian) (m : Memory) (a : ℕ)
    → be_to_cpu w host (load host m a (bytes w)) ≡ load_be m a (bytes w)
unfolding be_to_cpu bytes
be_to_cpu-load_lem one host m a = load-one host m a
be_to_cpu-load_lem two host m a = be_to_cpu16-load host m a
be_to_cpu-load_lem four host m a = be_to_cpu32-load host m a
be_to_cpu-load_lem eight host m a = be_to_cpu64-load host m a

pub store-cpu_to_be_lem :
    (w : Width) (host : Endian) (m : Memory) (a v : ℕ)
    → store host m a (bytes w) (cpu_to_be w host v) ≡ store_be m a (bytes w) v
unfolding cpu_to_be bytes
store-cpu_to_be_lem one host m a v = store-one host m a v
store-cpu_to_be_lem two host m a v = store-cpu_to_be16 host m a v
store-cpu_to_be_lem four host m a v = store-cpu_to_be32 host m a v
store-cpu_to_be_lem eight host m a v = store-cpu_to_be64 host m a v

load_le-lt : (m : Memory) (a n : ℕ) → load_le m a n < 256 ^ n
unfolding load_le
load_le-lt m a zero = omega arith
load_le-lt m a (suc n) = omega (arith, pow-suc 256 n, load_le-lt m (a + 1) n, load8-lt m a)

load_be-lt : (m : Memory) (a n : ℕ) → load_be m a n < 256 ^ n
unfolding load_be
load_be-lt m a zero = omega arith
load_be-lt m a (suc n) = omega (arith, pow-suc 256 n, load_be-lt m a n, load8-lt m (a + n))

load-lt :
    (w : Width) (host : Endian) (m : Memory) (a : ℕ) → load host m a (bytes w) < 2 ^ (8 * bytes w)
unfolding load bytes
load-lt one little m a = omega (arith, load_le-lt m a 1)
load-lt one big m a = omega (arith, load_be-lt m a 1)
load-lt two little m a = omega (arith, load_le-lt m a 2)
load-lt two big m a = omega (arith, load_be-lt m a 2)
load-lt four little m a = omega (arith, load_le-lt m a 4)
load-lt four big m a = omega (arith, load_be-lt m a 4)
load-lt eight little m a = omega (arith, load_le-lt m a 8)
load-lt eight big m a = omega (arith, load_be-lt m a 8)

mod_small : (x n : ℕ) → x < n → x % n ≡ x
mod_small x n h = grind arith

pub elements_apart : (w : Width) (i n : ℕ) → i < n → bytes w * i + bytes w ≤ bytes w * n
unfolding bytes
elements_apart one i n h = omega arith
elements_apart two i n h = omega arith
elements_apart four i n h = omega arith
elements_apart eight i n h = omega arith

elements_suc : (w : Width) (n : ℕ) → bytes w * suc n ≡ bytes w * n + bytes w
unfolding bytes
elements_suc one n = omega arith
elements_suc two n = omega arith
elements_suc four n = omega arith
elements_suc eight n = omega arith

module _ (w : Width) (host : Endian) (src : Memory) where
  abbrev elem : ℕ → ℕ
  elem i = load host src (bytes w * i) (bytes w)

  -- The elements before the `n` ones are as they were.
  pub load8-write_elements :
      (m : Memory) (ptr n a : ℕ) → a < ptr → load8 (write_elements host w m ptr src n) a ≡ load8 m a
  unfolding write_elements
  load8-write_elements m ptr zero a lt = refl
  load8-write_elements m ptr (suc n) a lt = rw store-cpu_to_be_lem (
      load8-store_be (write_elements host w m ptr src n) (ptr + bytes w * n) (bytes w) (elem n) a
        (inl (omega arith))
      ∙ load8-write_elements m ptr n a lt)

  written_element :
      (m : Memory) (ptr n i : ℕ)
      → i < n
      → load_be (write_elements host w m ptr src n) (ptr + bytes w * i) (bytes w) ≡ elem i
  unfolding write_elements
  written_element m ptr zero i lt = absurd (omega arith)
  written_element m ptr (suc n) i lt = rw store-cpu_to_be_lem (elim (dec_lt i n) [
    | yes before ↦
        let apart : bytes w * i + bytes w ≤ bytes w * n = elements_apart w i n before in
        load_be-cong _ (write_elements host w m ptr src n) (ptr + bytes w * i) (bytes w)
          (λ j p q. load8-store_be _ (ptr + bytes w * n) (bytes w) (elem n) j (inl (omega arith)))
        ∙ written_element m ptr n i before
    | no last ↦
        let e : i ≡ n = omega arith in
        rw (e, load_be-store_be) (mod_small _ _ (load-lt w host src (bytes w * n)))
  ])

  -- Reading numbers that are those of `src` copies the bytes of `src`.
  pub read_elements_lem :
      (m : Memory) (ptr : ℕ) (dst : Memory) (n : ℕ)
      → ((i : ℕ) → i < n → load_be m (ptr + bytes w * i) (bytes w) ≡ elem i)
      → read_elements host w m ptr dst n ≡ memcpy dst 0 src 0 (bytes w * n)
  unfolding read_elements
  read_elements_lem m ptr dst zero h = sym (memcpy_nothing dst 0 src 0 (bytes w * 0) (omega arith))
  read_elements_lem m ptr dst (suc n) h =
      let e : bytes w * suc n ≡ bytes w * n + bytes w = elements_suc w n in
      rw
        (
          be_to_cpu-load_lem,
          h n (omega arith),
          read_elements_lem m ptr dst n (λ i lt. h i (omega arith)),
          store-load,
          e,
        )
        (memcpy-memcpy dst src (bytes w * n) (bytes w))

  -- The array reads back byte for byte.
  pub read_elements-write_elements :
      (m : Memory) (ptr : ℕ) (dst : Memory) (n : ℕ)
      → read_elements host w (write_elements host w m ptr src n) ptr dst n
        ≡ memcpy dst 0 src 0 (bytes w * n)
  read_elements-write_elements m ptr dst n =
      read_elements_lem _ ptr dst n λ i lt. written_element m ptr n i lt
