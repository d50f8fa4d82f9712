-- ===== src/Cpack/Values.antt =====
-- The functions of cpack.c that pack and unpack one value.
use randserver.Base.{
  ℕ, ◌+◌, ◌^◌, ◌≤◌, ◌<◌, ◌≡◌, refl, ◌∙◌, Bool, true, Option, some, List, length, ◌>>=◌, arith,
}
use randserver.Base.Bytes.{le_bytes, from_le, length-le_bytes, from_le-le_bytes}
use randserver.Cpack.{
  Cpack, pack_struct, pack_char, pack_uchar, pack_short, pack_ushort, pack_int, pack_uint, pack_ll,
  pack_ull, pack_float, pack_double, Cunpack, unpack_struct, unpack_char, unpack_uchar,
  unpack_short, unpack_ushort, unpack_int, unpack_uint, unpack_ll, unpack_ull, unpack_float,
  unpack_double,
}
use randserver.Cpack.Laws.{IsPacking, Packed, pack_struct-Packed, unpack_struct-some, read_at-moved}

-- The C types of the values.
pub data Kind : Type 0 where
  char_kind uchar_kind short_kind ushort_kind int_kind uint_kind ll_kind ull_kind float_kind
        double_kind :
      Kind

-- The width in bytes.
abbrev pub width : Kind → ℕ
width char_kind = 1
width uchar_kind = 1
width short_kind = 2
width ushort_kind = 2
width int_kind = 4
width uint_kind = 4
width ll_kind = 8
width ull_kind = 8
width float_kind = 4
width double_kind = 8

-- The function that packs a value of the type, and the one that unpacks it.
pub pack_kind : Kind → Cpack → ℕ → Option (Bool × Cpack)
pack_kind char_kind = pack_char
pack_kind uchar_kind = pack_uchar
pack_kind short_kind = pack_short
pack_kind ushort_kind = pack_ushort
pack_kind int_kind = pack_int
pack_kind uint_kind = pack_uint
pack_kind ll_kind = pack_ll
pack_kind ull_kind = pack_ull
pack_kind float_kind = pack_float
pack_kind double_kind = pack_double

pub unpack_kind : Kind → Cunpack → Option (Option ℕ × Cunpack)
unpack_kind char_kind = unpack_char
unpack_kind uchar_kind = unpack_uchar
unpack_kind short_kind = unpack_short
unpack_kind ushort_kind = unpack_ushort
unpack_kind int_kind = unpack_int
unpack_kind uint_kind = unpack_uint
unpack_kind ll_kind = unpack_ll
unpack_kind ull_kind = unpack_ull
unpack_kind float_kind = unpack_float
unpack_kind double_kind = unpack_double

-- Every packing function writes the bytes of the value in its width, every unpacking one reads them.
pack_kind-struct :
    (t : Kind) (cp : Cpack) (value : ℕ)
    → pack_kind t cp value ≡ pack_struct cp (le_bytes (width t) value)
unfolding pack_kind pack_char pack_uchar pack_short pack_ushort pack_int pack_uint pack_ll pack_ull
    pack_float pack_double
pack_kind-struct char_kind cp value = refl
pack_kind-struct uchar_kind cp value = refl
pack_kind-struct short_kind cp value = refl
pack_kind-struct ushort_kind cp value = refl
pack_kind-struct int_kind cp value = refl
pack_kind-struct uint_kind cp value = refl
pack_kind-struct ll_kind cp value = refl
pack_kind-struct ull_kind cp value = refl
pack_kind-struct float_kind cp value = refl
pack_kind-struct double_kind cp value = refl

unpack_kind-struct :
    (t : Kind) (c : Cunpack)
    → unpack_kind t c
      ≡ (unpack_struct c (width t) >>= λ (bytes, c'). some (bytes >>= λ bs. some (from_le bs), c'))
unfolding unpack_kind unpack_char unpack_uchar unpack_short unpack_ushort unpack_int unpack_uint
    unpack_ll unpack_ull unpack_float unpack_double
unpack_kind-struct char_kind c = refl
unpack_kind-struct uchar_kind c = refl
unpack_kind-struct short_kind c = refl
unpack_kind-struct ushort_kind c = refl
unpack_kind-struct int_kind c = refl
unpack_kind-struct uint_kind c = refl
unpack_kind-struct ll_kind c = refl
unpack_kind-struct ull_kind c = refl
unpack_kind-struct float_kind c = refl
unpack_kind-struct double_kind c = refl

narrow : (t : Kind) → width t ≤ 8
narrow char_kind = omega arith
narrow uchar_kind = omega arith
narrow short_kind = omega arith
narrow ushort_kind = omega arith
narrow int_kind = omega arith
narrow uint_kind = omega arith
narrow ll_kind = omega arith
narrow ull_kind = omega arith
narrow float_kind = omega arith
narrow double_kind = omega arith

Packed-moved : {n m : ℕ} (cp cp' : Cpack) → n ≡ m → Packed cp n cp' → Packed cp m cp'
Packed-moved cp cp' e k = record {
  packing = k.packing;
  max_kept = k.max_kept;
  grown = omega (arith, k.grown);
  before = k.before;
}

value_read :
    (t : Kind) (c : Cunpack) (bytes : List ℕ) (value : ℕ)
    → unpack_struct c (width t)
      ≡ some (some bytes, record c { unpack_size = c.unpack_size + width t })
    → from_le bytes ≡ value
    → c.unpack_size + width t ≡ c.size
    → unpack_kind t c ≡ some (some value, record c { unpack_size = c.size })
value_read t c bytes value got e ends = unpack_kind-struct t c ∙ rw (got, e, ends) refl

-- For each of the ten value types: in a block of less than 2 ^ 32 bytes a value of the type that
-- fits is packed without an error, and the unpacking function of the type at its place gives the
-- same bits and steps past them.
pub unpack_kind-pack_kind :
    (t : Kind) (cp : Cpack) (value : ℕ)
    → IsPacking cp
    → value < 256 ^ width t
    → cp.size + width t ≤ cp.max_size
    → (cp' : Cpack) × (pack_kind t cp value ≡ some (true, cp'))
      × Packed cp (width t) cp'
      × (unpack_kind t (record { unpack_size = cp.size; size = cp'.size; block = cp'.block })
          ≡ some
              (some value, record { unpack_size = cp'.size; size = cp'.size; block = cp'.block }))
unpack_kind-pack_kind t cp value p small fits =
    let bytes = le_bytes (width t) value in
    let len : length bytes ≡ width t = length-le_bytes (width t) value in
    let (cp', e, k, here) = pack_struct-Packed cp bytes p (omega (arith, len)) in
    let c : Cunpack = record { unpack_size = cp.size; size = cp'.size; block = cp'.block } in
    let ends : cp.size + width t ≡ cp'.size = omega (arith, k.grown, len) in
    let got =
      unpack_struct-some c (width t) bytes (read_at-moved cp'.block bytes refl len here)
        (omega arith) (omega (arith, k.packing.within, k.packing.bounded))
        (omega (arith, narrow t)) in
    (
      cp',
      pack_kind-struct t cp value ∙ e,
      Packed-moved cp cp' len k,
      value_read t c bytes value got (from_le-le_bytes (width t) value small) ends,
    )
