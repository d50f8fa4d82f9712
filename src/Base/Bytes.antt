-- ===== src/Base/Bytes.antt =====
-- Blocks of memory as lists of bytes: copies in and out, and little-endian values.
use Prim.Native.Nat.{ℕ, zero, suc, ◌+◌, ◌-◌, ◌*◌, ◌/◌, ◌%◌, ◌^◌, ◌≤◌, ◌<◌}
use mathlib.Core.Path.{◌≡◌, refl, ap, sym, ◌∙◌}
use mathlib.Core.List.{List, [], ◌∷◌}
use mathlib.Core.Option.{Option, none, some}
use native.Mathlib.Nat.{pow-suc}
use native.Mathlib.Omega.{arith}
use mathlib.Core.Bool.{◌&&◌}
use randserver.Base.Tests.{◌>>=◌, some_inj, ltb, leb, if◌then◌else◌}
use randserver.Base.Lists.{length, get_elem?}

-- `memcpy` into a block at an offset, and out of it; `none` is an access past its end.
unfoldable pub write_at {ℓ} : {A : Type ℓ} → ℕ → List A → List A → Option (List A)
write_at zero [] block = some block
write_at zero (b ∷ bs) [] = none
write_at zero (b ∷ bs) (c ∷ cs) = write_at zero bs cs >>= λ rest. some (b ∷ rest)
write_at (suc n) bs [] = none
write_at (suc n) bs (c ∷ cs) = write_at n bs cs >>= λ rest. some (c ∷ rest)

unfoldable pub read_at {ℓ} : {A : Type ℓ} → ℕ → ℕ → List A → Option (List A)
read_at zero zero block = some []
read_at zero (suc n) [] = none
read_at zero (suc n) (c ∷ cs) = read_at zero n cs >>= λ rest. some (c ∷ rest)
read_at (suc k) n [] = none
read_at (suc k) n (c ∷ cs) = read_at k n cs

-- The outcome of a write that fits.
pub record Written {ℓ} {A : Type ℓ} (off : ℕ) (bs block block' : List A) : Type ℓ where
  pub same_length : length block' ≡ length block
  pub inside : read_at off (length bs) block' ≡ some bs
  pub before : (k n : ℕ) → k + n ≤ off → read_at k n block' ≡ read_at k n block

write_first {ℓ} :
    {A : Type ℓ} (bs block : List A)
    → length bs ≤ length block
    → (block' : List A) × (write_at 0 bs block ≡ some block')
      × (length block' ≡ length block)
      × (read_at 0 (length bs) block' ≡ some bs)
unfolding write_at read_at
write_first [] block h = (block, refl, refl, refl)
write_first (b ∷ bs) [] h = absurd (omega arith)
write_first (b ∷ bs) (c ∷ cs) h =
    let (rest, e, len, inside) = write_first bs cs (omega arith) in
    (b ∷ rest, rw e refl, omega arith, rw inside refl)

read_nothing {ℓ} :
    {A : Type ℓ} (xs ys : List A) (k n : ℕ) → k + n ≤ 0 → read_at k n ys ≡ read_at k n xs
unfolding read_at
read_nothing xs ys zero zero h = refl
read_nothing xs ys zero (suc n) h = absurd (omega arith)
read_nothing xs ys (suc k) n h = absurd (omega arith)

read_behind {ℓ} :
    {A : Type ℓ} (m : ℕ) (c : A) (xs ys : List A)
    → ((k n : ℕ) → k + n ≤ m → read_at k n ys ≡ read_at k n xs)
    → (k n : ℕ) → k + n ≤ suc m
    → read_at k n (c ∷ ys) ≡ read_at k n (c ∷ xs)
unfolding read_at
read_behind m c xs ys same zero zero h = refl
read_behind m c xs ys same zero (suc n) h = rw (same 0 n (omega arith))
read_behind m c xs ys same (suc k) n h = same k n (omega arith)

pub write_at-Written {ℓ} :
    {A : Type ℓ} (off : ℕ) (bs block : List A)
    → off + length bs ≤ length block
    → (block' : List A) × (write_at off bs block ≡ some block') × Written off bs block block'
unfolding write_at read_at
write_at-Written zero bs block h =
    let (block', e, len, inside) = write_first bs block (omega arith) in
    (block', e, record { same_length = len; inside = inside; before = read_nothing block block' })
write_at-Written (suc n) bs [] h = absurd (omega arith)
write_at-Written (suc n) bs (c ∷ cs) h =
    let (rest, e, w) = write_at-Written n bs cs (omega arith) in
    (
      c ∷ rest,
      rw e refl,
      record {
        same_length = ap suc w.same_length;
        inside = w.inside;
        before = read_behind n c cs rest w.before;
      },
    )

-- The bytes of an unsigned value of `n` bytes, lowest first, and the value of such bytes.
unfoldable pub le_bytes : ℕ → ℕ → List ℕ
le_bytes zero v = []
le_bytes (suc n) v = (v % 256) ∷ le_bytes n (v / 256)

unfoldable pub from_le : List ℕ → ℕ
from_le [] = 0
from_le (b ∷ bs) = b + 256 * from_le bs

pub length-le_bytes : (n v : ℕ) → length (le_bytes n v) ≡ n
unfolding le_bytes
length-le_bytes zero v = refl
length-le_bytes (suc n) v = ap suc (length-le_bytes n (v / 256))

pub from_le-le_bytes : (n v : ℕ) → v < 256 ^ n → from_le (le_bytes n v) ≡ v
unfolding le_bytes from_le
from_le-le_bytes zero v h = omega arith
from_le-le_bytes (suc n) v h =
    omega (arith, from_le-le_bytes n (v / 256) (omega (arith, pow-suc 256 n)))

pub read_at-some {ℓ} :
    {A : Type ℓ} (k n : ℕ) (block : List A)
    → k + n ≤ length block
    → (bs : List A) × (read_at k n block ≡ some bs) × (length bs ≡ n)
unfolding read_at
read_at-some zero zero block h = ([], refl, refl)
read_at-some zero (suc n) [] h = absurd (omega arith)
read_at-some zero (suc n) (c ∷ cs) h =
    let (bs, e, len) = read_at-some zero n cs (omega arith) in (c ∷ bs, rw e refl, ap suc len)
read_at-some (suc k) n [] h = absurd (omega arith)
read_at-some (suc k) n (c ∷ cs) h = read_at-some k n cs (omega arith)

pub read_at-whole {ℓ} : {A : Type ℓ} (bs : List A) → read_at 0 (length bs) bs ≡ some bs
unfolding read_at
read_at-whole [] = refl
read_at-whole (b ∷ bs) = rw (read_at-whole bs) refl

-- A copy that fits into a block, by its entries.
pub write_at-entries {ℓ} :
    {A : Type ℓ} (off : ℕ) (xs block : List A)
    → off + length xs ≤ length block
    → (block' : List A) × (write_at off xs block ≡ some block')
      × (length block' ≡ length block)
      × ((i : ℕ)
          → get_elem? block' i ≡ (
              if leb off i && ltb i (off + length xs)
              then get_elem? xs (i - off)
              else get_elem? block i))
unfolding write_at
write_at-entries zero [] block h = (block, refl, refl, λ i. ground arith)
write_at-entries zero (x ∷ xs) [] h = absurd (omega arith)
write_at-entries zero (x ∷ xs) (c ∷ cs) h =
    let (rest, e, len, at) = write_at-entries zero xs cs (omega arith) in
    (x ∷ rest, rw e refl, omega arith, first_entry x c xs cs rest at)
  where
    first_entry :
        {A : Type ℓ} (x c : A) (xs cs rest : List A)
        → ((i : ℕ)
            → get_elem? rest i
              ≡ (if leb 0 i && ltb i (0 + length xs) then get_elem? xs (i - 0) else get_elem? cs i))
        → (i : ℕ)
        → get_elem? (x ∷ rest) i ≡ (
            if leb 0 i && ltb i (0 + suc (length xs))
            then get_elem? (x ∷ xs) (i - 0)
            else get_elem? (c ∷ cs) i)
    first_entry x c xs cs rest at zero = ground arith
    first_entry x c xs cs rest at (suc i) = ground (arith, at i)
write_at-entries (suc n) xs [] h = absurd (omega arith)
write_at-entries (suc n) xs (c ∷ cs) h =
    let (rest, e, len, at) = write_at-entries n xs cs (omega arith) in
    (c ∷ rest, rw e refl, omega arith, later_entry n c xs cs rest at)
  where
    later_entry :
        {A : Type ℓ} (n : ℕ) (c : A) (xs cs rest : List A)
        → ((i : ℕ)
            → get_elem? rest i
              ≡ (if leb n i && ltb i (n + length xs) then get_elem? xs (i - n) else get_elem? cs i))
        → (i : ℕ)
        → get_elem? (c ∷ rest) i ≡ (
            if leb (suc n) i && ltb i (suc n + length xs)
            then get_elem? xs (i - suc n)
            else get_elem? (c ∷ cs) i)
    later_entry n c xs cs rest at zero = ground arith
    later_entry n c xs cs rest at (suc i) =
        let less : suc i - suc n ≡ i - n = omega arith in ground (arith, at i, less)

shifted {ℓ} :
    {A : Type ℓ} (k i : ℕ) (c : A) (cs : List A)
    → get_elem? (c ∷ cs) (suc k + i) ≡ get_elem? cs (k + i)
shifted k i c cs = let e : suc k + i ≡ suc (k + i) = omega arith in ap (get_elem? (c ∷ cs)) e

-- A copy out of a block, from its entries.
pub read_at-get_elem? {ℓ} :
    {A : Type ℓ} (off : ℕ) (xs block : List A)
    → off + length xs ≤ length block
    → ((i : ℕ) → i < length xs → get_elem? block (off + i) ≡ get_elem? xs i)
    → read_at off (length xs) block ≡ some xs
unfolding read_at
read_at-get_elem? zero [] block b h = refl
read_at-get_elem? zero (x ∷ xs) [] b h = absurd (omega arith)
read_at-get_elem? zero (x ∷ xs) (c ∷ cs) b h =
    let first : c ≡ x = some_inj (h 0 (omega arith)) in
    let rest = read_at-get_elem? 0 xs cs (omega arith) (λ i lt. ground (arith, h (suc i))) in
    rw (rest, first) refl
read_at-get_elem? (suc k) xs [] b h = absurd (omega arith)
read_at-get_elem? (suc k) xs (c ∷ cs) b h =
    read_at-get_elem? k xs cs (omega arith) (λ i lt. sym (shifted k i c cs) ∙ h i lt)
