-- ===== src/BitArray.antt =====
-- engine/tool/bit.c and engine/tool/bit.h: an array of bits, four in each word. A bit of a word, which
-- the code masks, is written by division. `malloc` is a parameter, with the words of the block.
pub mod Bits
mod Tests
use randserver.Base.{
  ℕ, zero, suc, ◌+◌, ◌-◌, ◌*◌, ◌/◌, ◌%◌, ◌^◌, ◌≤◌, ◌<◌, ◌≡◌, refl, sym, ap, ◌∙◌, Bool, true, false,
  Option, none, some, List, length, get_elem?, get_elem?-set, get_elem?-some, length-set, set, ltb,
  leb, ◌==◌, ==→eq, ◌&&◌, Bool-cases, inl, inr, if◌then◌else◌, ◌>>=◌, arith,
}

pub record BitArray : Type 0 where
  pub uarray : List ℕ
  pub array_size : ℕ

-- `create_bit_array`; `sizeof(BIT_TYPE)` is 4, and the words keep what the block has.
pub create_bit_array : (ℕ → Option (List ℕ)) → ℕ → Option BitArray
create_bit_array malloc size = malloc 16 >>= λ block.
    malloc (4 * (size + 4 - 1) / 4) >>= λ words. some (record { uarray = words; array_size = size })

-- `(word & (1 << k)) != 0`
abbrev pub has_bit : ℕ → ℕ → Bool
has_bit word k = word / 2 ^ k % 2 == 1

-- `word | (1 << k)`
abbrev pub with_bit : ℕ → ℕ → ℕ
with_bit word k = if has_bit word k then word else word + 2 ^ k

-- `word & ~(1 << k)`
abbrev pub without_bit : ℕ → ℕ → ℕ
without_bit word k = if has_bit word k then word - 2 ^ k else word

-- `get_bit`; `none` is a read outside the block.
pub get_bit : BitArray → ℕ → Option Bool
get_bit array index =
    let found = get_elem? array.uarray (index / 4) >>= λ word. some (has_bit word (index % 4)) in
    if leb array.array_size index then some false else found

-- `set_bit`; `none` is an access outside the block.
pub set_bit : BitArray → ℕ → Bool → Option (Bool × BitArray)
set_bit array index b =
    let stored = get_elem? array.uarray (index / 4) >>= λ word.
    (let word' = if b then with_bit word (index % 4) else without_bit word (index % 4) in
      some (true, record array { uarray = set array.uarray (index / 4) word' })) in
    if leb array.array_size index then some (false, array) else stored
