-- ===== src/Ring/Chunks.antt =====
-- A run of cells cut at the ends of the blocks.
use randserver.Base.{
  ℕ, ◌+◌, ◌-◌, ◌*◌, ◌/◌, ◌%◌, ◌<◌, ◌≡◌, sym, ap, ◌∙◌, arith, List, ◌++◌, length, length-append,
  split_at,
}
use native.Mathlib.Nat.{
  mod-lt, mod-eq_of_lt, mod-add-mod, div-eq_of_lt, mul-add-div, mul-add-mod_self_left, div-add-mod,
}
use randserver.Ring.Position.{double}

pub next_place : (n x y : ℕ) → x % n ≡ y % n → (x + 1) % n ≡ (y + 1) % n
next_place n x y e = sym (mod-add-mod x n 1) ∙ ap (λ z. (z + 1) % n) e ∙ mod-add-mod y n 1

-- The position `x` whole blocks and `l` cells behind the start of the ring.
pub place_of : (n bs w x l : ℕ) → 0 < bs → l < bs → w ≡ bs * x + l → (w / bs ≡ x) × (w % bs ≡ l)
place_of n bs w x l bpos lt e = (
  ap (λ z. z / bs) e ∙ mul-add-div bpos x l ∙ omega (arith, div-eq_of_lt lt),
  ap (λ z. z % bs) e ∙ mul-add-mod_self_left bs x l ∙ mod-eq_of_lt lt,
)

-- The block `k` behind the next one.
pub block_turn : (n x k y : ℕ) → x + 1 + k ≡ y → (x % (2 * n) + 1 + k) % n ≡ y % n
block_turn n x k y e =
    let more : x % (2 * n) + 1 + k ≡ x % (2 * n) + (1 + k) = omega arith in
    let sum : x + (1 + k) ≡ y = omega arith in
    ap (λ z. z % n) more
    ∙ sym (mod-add-mod (x % (2 * n)) n (1 + k))
    ∙ ap (λ z. (z + (1 + k)) % n) (double n x)
    ∙ mod-add-mod x n (1 + k)
    ∙ ap (λ z. z % n) sum

pub turn : (m x k y : ℕ) → x + 1 + k ≡ y → (x % m + 1 + k) % m ≡ y % m
turn m x k y e =
    let more : x % m + 1 + k ≡ x % m + (1 + k) = omega arith in
    let sum : x + (1 + k) ≡ y = omega arith in
    ap (λ z. z % m) more ∙ mod-add-mod x m (1 + k) ∙ ap (λ z. z % m) sum

-- A message cut at the ends of the blocks: what goes into the block that holds `l` cells, whole blocks,
-- and what is left.
pub cuts :
    (bs l : ℕ) (xs : List ℕ)
    → 0 < bs
    → l < bs
    → bs < l + length xs
    → (a : List ℕ) × (b : List ℕ) × (c : List ℕ) × (uh : ℕ) × (xs ≡ a ++ (b ++ c))
      × (l + length a ≡ bs)
      × (length b ≡ uh * bs)
      × (length c < bs)
cuts bs l xs bpos lt far =
    let left = length xs - (bs - l) in
    let cut : bs * (left / bs) + left % bs ≡ left = div-add-mod left bs in
    let short : left % bs < bs = mod-lt left bpos in
    let (a, d, e, la) = split_at xs (bs - l) (omega arith) in
    let len : length xs ≡ length a + length d = ap length e ∙ length-append a d in
    let (b, c, e', lb) = split_at d (left / bs * bs) (omega arith) in
    let len' : length d ≡ length b + length c = ap length e' ∙ length-append b c in
    (a, b, c, left / bs, e ∙ ap (λ z. a ++ z) e', omega arith, lb, omega arith)
