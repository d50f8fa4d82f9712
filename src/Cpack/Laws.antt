-- ===== src/Cpack/Laws.antt =====
-- What is packed is unpacked, and what a value that does not fit leaves behind.
use randserver.Base.{
  ℕ, ◌+◌, ◌-◌, ◌^◌, ◌≤◌, ◌<◌, ◌≡◌, refl, ◌∙◌, Bool, true, false, Option, none, some, List, [], ◌∷◌,
  length, ltb, All, le→ltb, if◌then◌else◌, ◌>>=◌, u16, u32, u64, arith,
}
use randserver.Base.Bytes.{
  read_at, le_bytes, from_le, length-le_bytes, from_le-le_bytes, read_at-whole, write_at-Written,
}
use randserver.Cpack.{Cpack, pack_struct, pack_string, Cunpack, left, unpack_struct, unpack_string}

-- The written part lies in the block.
pub record IsPacking (cp : Cpack) : Type 0 where
  pub within : cp.size ≤ cp.max_size
  pub backed : cp.max_size ≤ length cp.block
  pub bounded : cp.max_size < 2 ^ 32

-- `cp'` is `cp` with bytes written behind its old ones.
pub record Packed (cp : Cpack) (n : ℕ) (cp' : Cpack) : Type 0 where
  pub packing : IsPacking cp'
  pub max_kept : cp'.max_size ≡ cp.max_size
  pub grown : cp'.size ≡ cp.size + n
  pub before : (k m : ℕ) → k + m ≤ cp.size → read_at k m cp'.block ≡ read_at k m cp.block

-- Bytes that fit are written behind the old ones, which stay.
pub pack_struct-Packed :
    (cp : Cpack) (bytes : List ℕ)
    → IsPacking cp
    → cp.size + length bytes ≤ cp.max_size
    → (cp' : Cpack) × (pack_struct cp bytes ≡ some (true, cp'))
      × Packed cp (length bytes) cp'
      × (read_at cp.size (length bytes) cp'.block ≡ some bytes)
unfolding pack_struct
pack_struct-Packed cp bytes p fits =
    let (block, e, w) = write_at-Written cp.size bytes cp.block (omega (arith, p.backed)) in
    let size : u32 (cp.size + u32 (length bytes)) ≡ cp.size + length bytes =
      omega (arith, p.bounded) in
    let fit : ltb cp.max_size (u64 (cp.size + length bytes)) ≡ false =
      le→ltb _ _ (omega (arith, p.bounded)) in
    (
      _,
      rw (fit, e, size) refl,
      record {
        packing = record {
          within = fits;
          backed = omega (arith, p.backed, w.same_length);
          bounded = p.bounded;
        };
        max_kept = refl;
        grown = refl;
        before = w.before;
      },
      w.inside,
    )

-- Reading bytes where they stand, in a message that reaches beyond them.
pub unpack_struct-some :
    (c : Cunpack) (n : ℕ) (bytes : List ℕ)
    → read_at c.unpack_size n c.block ≡ some bytes
    → c.unpack_size + n ≤ c.size
    → c.size < 2 ^ 32
    → n < 2 ^ 16
    → unpack_struct c n ≡ some (some bytes, record c { unpack_size = c.unpack_size + n })
unfolding unpack_struct
unpack_struct-some c n bytes at within bounded short =
    let fit : ltb (left c) n ≡ false = le→ltb _ _ (omega arith) in
    let step : u32 (c.unpack_size + u16 n) ≡ c.unpack_size + n = omega arith in
    rw (fit, at, step) refl

pub read_at-moved :
    {i j n m : ℕ} (block bytes : List ℕ)
    → i ≡ j
    → n ≡ m
    → read_at i n block ≡ some bytes
    → read_at j m block ≡ some bytes
read_at-moved block bytes p q h = cc

-- A sequence of values, packed in order and unpacked by their lengths.
pub pack_all : Cpack → List (List ℕ) → Option (Bool × Cpack)
pack_all cp [] = some (true, cp)
pack_all cp (b ∷ bs) = pack_struct cp b >>= λ (ret, cp').
    let rest = pack_all cp' bs in if ret then rest else some (false, cp')

pub unpack_all : Cunpack → List (List ℕ) → Option (Option (List (List ℕ)) × Cunpack)
unpack_all c [] = some (some [], c)
unpack_all c (b ∷ bs) = unpack_struct c (length b) >>= λ (got, c'). elim got [
  | none ↦ some (none, c')
  | some x ↦ unpack_all c' bs >>= λ (rest, c''). some (rest >>= λ xs. some (x ∷ xs), c'')
]

abbrev pub total : List (List ℕ) → ℕ
total [] = 0
total (b ∷ bs) = length b + total bs

-- Values of less than 2 ^ 16 bytes each that fit together are packed without an error, and
-- unpacking the block from where they begin gives the same values in the same order and ends where
-- they end.
pub unpack_all-pack_all :
    (cp : Cpack) (bs : List (List ℕ))
    → IsPacking cp
    → All (λ b. length b < 2 ^ 16) bs
    → cp.size + total bs ≤ cp.max_size
    → (cp' : Cpack) × (pack_all cp bs ≡ some (true, cp'))
      × Packed cp (total bs) cp'
      × (unpack_all (record { unpack_size = cp.size; size = cp'.size; block = cp'.block }) bs
          ≡ some (some bs, record { unpack_size = cp'.size; size = cp'.size; block = cp'.block }))
unfolding pack_all unpack_all
unpack_all-pack_all cp [] p short fits = (
  cp,
  refl,
  record { packing = p; max_kept = refl; grown = omega arith; before = λ k m h. refl },
  refl,
)
unpack_all-pack_all cp (b ∷ bs) p short fits =
    let (cp1, e1, k1, at) = pack_struct-Packed cp b p (omega arith) in
    let (cp', e', k', u') =
      unpack_all-pack_all cp1 bs k1.packing short.1 (omega (arith, k1.grown, k1.max_kept)) in
    let c : Cunpack = record { unpack_size = cp.size; size = cp'.size; block = cp'.block } in
    let here = k'.before cp.size (length b) (omega (arith, k1.grown)) ∙ at in
    let got =
      unpack_struct-some c (length b) b here (omega (arith, k'.grown, k1.grown))
        (omega (arith, k'.packing.within, k'.packing.bounded)) short.0 in
    (
      cp',
      rw e1 e',
      record {
        packing = k'.packing;
        max_kept = k'.max_kept ∙ k1.max_kept;
        grown = omega (arith, k'.grown, k1.grown);
        before = λ k m h. k'.before k m (omega (arith, k1.grown)) ∙ k1.before k m h;
      },
      rw (got, ← k1.grown) (rw u' refl),
    )

-- `unpack_string` where a length of `text` and then `text` itself stand, up to the end.
text_read :
    (c : Cunpack) (head text : List ℕ)
    → unpack_struct c 2 ≡ some (some head, record c { unpack_size = c.unpack_size + 2 })
    → from_le head ≡ length text
    → read_at (c.unpack_size + 2) (length text) c.block ≡ some text
    → c.size ≡ c.unpack_size + 2 + length text
    → c.size < 2 ^ 32
    → unpack_string c ≡ some (some text, record c { unpack_size = c.size })
unfolding unpack_string
text_read c head text got value here ends limit =
    let fit : ltb (u32 (c.size + 2 ^ 32 - (c.unpack_size + 2))) (length text) ≡ false =
      le→ltb _ _ (omega arith) in
    let step : u32 (c.unpack_size + 2 + length text) ≡ c.size = omega arith in
    rw (got, value, fit, here, step) refl

-- A text of less than 2 ^ 16 bytes that fits with its length is packed without an error, and
-- `unpack_string` at its place gives the text back and steps past it.
pub unpack_string-pack_string :
    (cp : Cpack) (text : List ℕ)
    → IsPacking cp
    → length text < 2 ^ 16
    → cp.size + length text + 2 ≤ cp.max_size
    → (cp' : Cpack) × (pack_string cp (length text) text ≡ some (true, cp'))
      × Packed cp (length text + 2) cp'
      × (unpack_string (record { unpack_size = cp.size; size = cp'.size; block = cp'.block })
          ≡ some (some text, record { unpack_size = cp'.size; size = cp'.size; block = cp'.block }))
unfolding pack_string unpack_string
unpack_string-pack_string cp text p short fits =
    let n = length text in
    let head = le_bytes 2 n in
    let two : length head ≡ 2 = length-le_bytes 2 n in
    let (cp1, e1, k1, at1) = pack_struct-Packed cp head p (omega (arith, two)) in
    let (cp', e', k', at') =
      pack_struct-Packed cp1 text k1.packing (omega (arith, k1.grown, k1.max_kept, two)) in
    let c : Cunpack = record { unpack_size = cp.size; size = cp'.size; block = cp'.block } in
    let ends : cp'.size ≡ cp.size + 2 + n = omega (arith, k'.grown, k1.grown, two) in
    let limit : cp'.size < 2 ^ 32 = omega (arith, k'.packing.within, k'.packing.bounded) in
    let got : unpack_struct c 2 ≡ some (some head, record c { unpack_size = cp.size + 2 }) =
      unpack_struct-some c 2 head
        (read_at-moved cp'.block head refl two
          (k'.before cp.size (length head) (omega (arith, k1.grown)) ∙ at1))
        (omega (arith, ends)) limit (omega arith) in
    let value : from_le head ≡ n = from_le-le_bytes 2 n short in
    let place : cp1.size ≡ cp.size + 2 = omega (arith, k1.grown, two) in
    let here : read_at (cp.size + 2) n cp'.block ≡ some text =
      read_at-moved cp'.block text place refl at' in
    (
      cp',
      rw (e1, read_at-whole text) e',
      record {
        packing = k'.packing;
        max_kept = k'.max_kept ∙ k1.max_kept;
        grown = omega (arith, ends);
        before = λ k m h. k'.before k m (omega (arith, k1.grown)) ∙ k1.before k m h;
      },
      text_read c head text got value here ends limit,
    )
