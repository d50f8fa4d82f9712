-- ===== src/Cpack.antt =====
-- engine/tool/cpack.c: values written one after the other into a block, and read back.
-- The result `true` stands for the return value 0 and `false` for -1; `none` is an access past the
-- end of the block. Bytes are those of a little-endian host.
pub mod Laws
pub mod Values
mod Tests
use randserver.Base.{
  ℕ, zero, suc, ◌+◌, ◌-◌, ◌%◌, ◌^◌, Bool, true, false, Option, none, some, List, [], ◌∷◌, length,
  ltb, if◌then◌else◌, ◌>>=◌, u16, u32, u64,
}
use randserver.Base.Bytes.{write_at, read_at, le_bytes, from_le}

-- `struct cpack`
pub record Cpack : Type 0 where
  pub max_size : ℕ
  pub size : ℕ
  pub block : List ℕ

-- `pack_init`, on the memory behind the struct.
pub pack_init : List ℕ → ℕ → Cpack
pack_init block max_size = record { max_size = max_size; size = 0; block = block }

-- `pack_struct`. The first test, `cp->size < 0`, is never true of an unsigned number. A value that
-- does not fit negates the size, modulo 2 ^ 32.
pub pack_struct : Cpack → List ℕ → Option (Bool × Cpack)
pack_struct cp bytes =
    let written = write_at cp.size bytes cp.block >>= λ block.
    some (true, record cp { block = block; size = u32 (cp.size + u32 (length bytes)) }) in
    if ltb cp.max_size (u64 (cp.size + length bytes))
    then some (false, record cp { size = u32 (2 ^ 32 - cp.size) })
    else written

-- The functions of one value differ in the width of its type; a signed value and a floating-point
-- value are given by their bits.
pub pack_char : Cpack → ℕ → Option (Bool × Cpack)
pack_char cp value = pack_struct cp (le_bytes 1 value)

pub pack_uchar : Cpack → ℕ → Option (Bool × Cpack)
pack_uchar cp value = pack_struct cp (le_bytes 1 value)

pub pack_short : Cpack → ℕ → Option (Bool × Cpack)
pack_short cp value = pack_struct cp (le_bytes 2 value)

pub pack_ushort : Cpack → ℕ → Option (Bool × Cpack)
pack_ushort cp value = pack_struct cp (le_bytes 2 value)

pub pack_int : Cpack → ℕ → Option (Bool × Cpack)
pack_int cp value = pack_struct cp (le_bytes 4 value)

pub pack_uint : Cpack → ℕ → Option (Bool × Cpack)
pack_uint cp value = pack_struct cp (le_bytes 4 value)

pub pack_ll : Cpack → ℕ → Option (Bool × Cpack)
pack_ll cp value = pack_struct cp (le_bytes 8 value)

pub pack_ull : Cpack → ℕ → Option (Bool × Cpack)
pack_ull cp value = pack_struct cp (le_bytes 8 value)

pub pack_float : Cpack → ℕ → Option (Bool × Cpack)
pack_float cp value = pack_struct cp (le_bytes 4 value)

pub pack_double : Cpack → ℕ → Option (Bool × Cpack)
pack_double cp value = pack_struct cp (le_bytes 8 value)

-- `pack_string`: the length in two bytes, then that many bytes of `text`.
pub pack_string : Cpack → ℕ → List ℕ → Option (Bool × Cpack)
pack_string cp len text = pack_struct cp (le_bytes 2 len) >>= λ (ret, cp').
    let rest = read_at 0 len text >>= λ bytes. pack_struct cp' bytes in
    if ret then rest else some (false, cp')

-- `struct cunpack`
pub record Cunpack : Type 0 where
  pub unpack_size : ℕ
  pub size : ℕ
  pub block : List ℕ

-- `unpack_init`
pub unpack_init : ℕ → List ℕ → Cunpack
unpack_init len msg = record { unpack_size = 0; size = len; block = msg }

-- The bytes that are left, in unsigned arithmetic.
abbrev pub left : Cunpack → ℕ
left c = u32 (c.size + 2 ^ 32 - c.unpack_size)

-- `unpack_struct`: the bytes read, or `none` inside for the result -1. The step is cut to an
-- `unsigned short`.
pub unpack_struct : Cunpack → ℕ → Option (Option (List ℕ) × Cunpack)
unpack_struct c len =
    let copied = read_at c.unpack_size len c.block >>= λ bytes.
    some (some bytes, record c { unpack_size = u32 (c.unpack_size + u16 len) }) in
    if ltb (left c) len then some (none, c) else copied

-- A value of `n` bytes.
abbrev unpack_value : ℕ → Cunpack → Option (Option ℕ × Cunpack)
unpack_value n c = unpack_struct c n >>= λ (bytes, c'). some (bytes >>= λ bs. some (from_le bs), c')

pub unpack_char : Cunpack → Option (Option ℕ × Cunpack)
unpack_char c = unpack_value 1 c

pub unpack_uchar : Cunpack → Option (Option ℕ × Cunpack)
unpack_uchar c = unpack_value 1 c

pub unpack_short : Cunpack → Option (Option ℕ × Cunpack)
unpack_short c = unpack_value 2 c

pub unpack_ushort : Cunpack → Option (Option ℕ × Cunpack)
unpack_ushort c = unpack_value 2 c

pub unpack_int : Cunpack → Option (Option ℕ × Cunpack)
unpack_int c = unpack_value 4 c

pub unpack_uint : Cunpack → Option (Option ℕ × Cunpack)
unpack_uint c = unpack_value 4 c

pub unpack_ll : Cunpack → Option (Option ℕ × Cunpack)
unpack_ll c = unpack_value 8 c

pub unpack_ull : Cunpack → Option (Option ℕ × Cunpack)
unpack_ull c = unpack_value 8 c

pub unpack_float : Cunpack → Option (Option ℕ × Cunpack)
unpack_float c = unpack_value 4 c

pub unpack_double : Cunpack → Option (Option ℕ × Cunpack)
unpack_double c = unpack_value 8 c

-- `unpack_string`: the bytes that `*data` and `*length` describe.
pub unpack_string : Cunpack → Option (Option (List ℕ) × Cunpack)
unpack_string c = unpack_struct c 2 >>= λ (bytes, c'). elim bytes [
  | none ↦ some (none, c')
  | some bs ↦
      let len = from_le bs in
      let found = read_at c'.unpack_size len c'.block >>= λ text.
      some (some text, record c' { unpack_size = u32 (c'.unpack_size + len) }) in
      if ltb (left c') len then some (none, c') else found
]
