-- ===== src/Ring/Position.antt =====
-- Positions in a ring, against the number of cells that were ever written or read.
use randserver.Base.{
  ℕ, ◌+◌, ◌-◌, ◌*◌, ◌/◌, ◌%◌, ◌^◌, ◌≤◌, ◌<◌, ◌≡◌, ◌≢◌, refl, sym, ap, ap₂, ◌∙◌, u32, some, arith,
  ltb, leb, ◌==◌, ltb→lt, ltb→le, Bool-cases, true, false, inl, inr, ◌⊎◌,
}
use native.Mathlib.Nat.{
  mod-lt, div-eq_of_lt, le-div_iff_mul-le, div-mul-le_self, add-mul-div_right, mod-eq-sub-mod,
  mod-eq_of_lt, mod-add-mod, mod-mod_of_dvd, div-add-mod, mul-add-div, dvd-mul_left,
  mul-le-mul_right, div-le_self, add-mod_right,
}
use randserver.Ring.{unpack, pack, advance, get_space}

-- The position of a writer behind `p` cells, and of a reader behind `p` cells: a reader's is a round ahead.
abbrev pub write_pos : ℕ → ℕ → ℕ → ℕ × ℕ
write_pos n bs p = ((p / bs) % (2 * n), p % bs)

abbrev pub read_pos : ℕ → ℕ → ℕ → ℕ × ℕ
read_pos n bs p = ((p / bs + n) % (2 * n), p % bs)

space_vars :
    (n bs a b lw lr w r hw hr : ℕ)
    → w ≡ bs * a + lw
    → r ≡ bs * b + lr
    → lw < bs
    → lr < bs
    → r ≤ w
    → w ≤ r + n * bs
    → n * bs < 2 ^ 32
    → 2 * n ≤ 2 ^ 16
    → bs < 2 ^ 16
    → (d : ℕ) × (d + a ≡ b + n) × (d ≤ n) × ((hr ≡ hw + d) ⊎ ((hr + 2 * n ≡ hw + d) × (hw < 2 * n)))
    → get_space n bs (hr, lr) (hw, lw) ≡ some (r + n * bs - w)
unfolding get_space
space_vars n bs a b lw lr w r hw hr ew er bw br low high fits hn hb (d, e, le, turn) =
    let whole : d * bs + a * bs ≡ b * bs + n * bs = omega (arith, ap (λ x. x * bs) e) in
    let left : r + n * bs + lw ≡ d * bs + lr + w = omega arith in
    let most : d * bs ≤ n * bs = mul-le-mul_right bs le in
    let exact : u32 (u32 (d * bs) + lr + 2 ^ 32 - lw) ≡ r + n * bs - w = omega arith in
    elim turn [
      | inl ahead ↦ elim (Bool-cases (ltb hw hr)) [
        | inl lt ↦ let gap : hr - hw ≡ d = omega arith in rw (lt, gap, exact) refl
        | inr ge ↦
            let none_between : d ≡ 0 = ground arith in
            let level : (hr == hw) ≡ true = ground arith in
            let nothing : d * bs ≡ 0 = rw none_between (omega arith) in
            let fit : leb lw lr ≡ true = ground arith in
            let level_exact : lr - lw ≡ r + n * bs - w = omega arith in
            rw (ge, level, fit, level_exact) refl
      ]
      | inr (around, below) ↦
          let behind : ltb hw hr ≡ false = ground arith in
          let apart : (hr == hw) ≡ false = ground arith in
          let gap : u32 (2 * n + hr + 2 ^ 32 - hw) ≡ d = omega arith in
          rw (behind, apart, gap, exact) refl
    ]

-- A number `d` further on, modulo `m`: with or without a wrap.
pub mod_turn : (a d c m : ℕ) → a + d ≡ c → d < m → (c % m ≡ a % m + d) ⊎ (c % m + m ≡ a % m + d)
mod_turn a d c m e h =
    let low : a % m < m = mod-lt a (omega arith) in
    let same : (a % m + d) % m ≡ c % m = mod-add-mod a m d ∙ ap (λ x. x % m) e in
    elim (Bool-cases (ltb (a % m + d) m)) [
      | inl lt ↦ inl (sym same ∙ mod-eq_of_lt (ltb→lt _ _ lt))
      | inr ge ↦
          let over = ltb→le _ _ ge in
          inr (
            omega (
              arith,
              same,
              mod-eq-sub-mod over,
              mod-eq_of_lt {n = a % m + d - m} {m = m} (omega arith),
            ))
    ]

pub double : (n x : ℕ) → x % (2 * n) % n ≡ x % n
double n x = mod-mod_of_dvd n x (dvd-mul_left n 2)

-- A reader's block, a round ahead, lies in the same place.
pub round : (n x : ℕ) → (x + n) % (2 * n) % n ≡ x % n
round n x = double n (x + n) ∙ add-mod_right x n

module _ (n bs : ℕ) (npos : 0 < n) (bpos : 0 < bs) where
  pub div_mono : (p k : ℕ) → p ≤ k → p / bs ≤ k / bs
  div_mono p k h = (le-div_iff_mul-le bpos).1 (omega (arith, div-mul-le_self p bs))

  pub div_add : (p k : ℕ) → p / bs + (p % bs + k) / bs ≡ (p + k) / bs
  div_add p k =
      sym (mul-add-div bpos (p / bs) (p % bs + k))
      ∙ ap (λ x. x / bs) (omega (arith, div-add-mod p bs))

  pub mod_add : (p k : ℕ) → (p % bs + k) % bs ≡ (p + k) % bs
  mod_add p k = mod-add-mod p bs k

  -- A cell further on within the block.
  pub in_block : (p k : ℕ) → p % bs + k < bs → ((p + k) / bs ≡ p / bs) × ((p + k) % bs ≡ p % bs + k)
  in_block p k h = (omega (arith, div_add p k, div-eq_of_lt h), sym (mod_add p k) ∙ mod-eq_of_lt h)

  pub small_block : (p : ℕ) → 2 * n ≤ 2 ^ 16 → (p % (2 * n)) < 2 ^ 16
  small_block p h = omega (arith, mod-lt p {m = 2 * n} (omega arith))

  unpack-pack : (h l : ℕ) → h < 2 ^ 16 → l < 2 ^ 16 → unpack (pack (h, l)) ≡ (h, l)
  unpack-pack h l a b = ap₂ (λ x y. (x, y)) (omega arith) (omega arith)

  -- The offset and the block count of a position moved on by `k` cells.
  module _ (hn : 2 * n ≤ 2 ^ 16) (hb : bs < 2 ^ 16) where
    advance-block :
        (x y p k : ℕ)
        → x + (p % bs + k) / bs ≡ y
        → k < 2 ^ 31
        → advance n bs (x % (2 * n), p % bs) k ≡ (y % (2 * n), (p + k) % bs)
    advance-block x y p k e hk =
        let low : p % bs < bs = mod-lt p bpos in
        let sum : u32 (p % bs + k) ≡ p % bs + k = omega arith in
        let rest = (p % bs + k) / bs in
        let small : x % (2 * n) < 2 ^ 16 = small_block x hn in
        let short : rest ≤ p % bs + k = div-le_self (p % bs + k) bs in
        let exact : u32 (x % (2 * n) + rest) ≡ x % (2 * n) + rest = omega arith in
        let same : (x % (2 * n) + rest) % (2 * n) ≡ y % (2 * n) =
          mod-add-mod x (2 * n) rest ∙ ap (λ z. z % (2 * n)) e in
        rw (sum, exact, same, mod_add p k) refl

    pub advance-write_pos :
        (p k : ℕ) → k < 2 ^ 31 → advance n bs (write_pos n bs p) k ≡ write_pos n bs (p + k)
    advance-write_pos p k hk = advance-block (p / bs) ((p + k) / bs) p k (div_add p k) hk

    pub advance-read_pos :
        (p k : ℕ) → k < 2 ^ 31 → advance n bs (read_pos n bs p) k ≡ read_pos n bs (p + k)
    advance-read_pos p k hk =
        advance-block (p / bs + n) ((p + k) / bs + n) p k (omega (arith, div_add p k)) hk

    pub unpack-write_pos : (p : ℕ) → unpack (pack (write_pos n bs p)) ≡ write_pos n bs p
    unpack-write_pos p = unpack-pack _ _ (small_block (p / bs) hn) (omega (arith, mod-lt p bpos))

    pub unpack-read_pos : (p : ℕ) → unpack (pack (read_pos n bs p)) ≡ read_pos n bs p
    unpack-read_pos p = unpack-pack _ _ (small_block (p / bs + n) hn) (omega (arith, mod-lt p bpos))

    -- In a ring of at least one and at most 2 ^ 15 blocks of at least one and fewer than 2 ^ 16
    -- cells, with fewer than 2 ^ 32 cells in all, of which `w` were written and `r` read, at most a
    -- ring apart, `buff_get_space` at the positions of reader and writer is what is left of the
    -- ring.
    pub get_space_lem :
        (r w : ℕ)
        → r ≤ w
        → w ≤ r + n * bs
        → n * bs < 2 ^ 32
        → get_space n bs (read_pos n bs r) (write_pos n bs w) ≡ some (r + n * bs - w)
    unfolding get_space
    get_space_lem r w low high fits =
        let a = w / bs in
        let b = r / bs in
        let ew = div-add-mod w bs in
        let er = div-add-mod r bs in
        let after : b ≤ a = div_mono r w low in
        let before : a ≤ b + n =
          omega (arith, div_mono w (r + n * bs) high, add-mul-div_right r n bpos) in
        let d = b + n - a in
        let meets : a + d ≡ b + n = omega arith in
        let turn = mod_turn a d (b + n) (2 * n) meets (omega arith) in
        space_vars n bs a b (w % bs) (r % bs) w r (a % (2 * n)) ((b + n) % (2 * n)) (sym ew)
          (sym er) (mod-lt w bpos) (mod-lt r bpos) low high fits hn hb
          (
            d,
            omega arith,
            omega arith,
            elim turn [ inl e ↦ inl e | inr e ↦ inr (e, mod-lt a {m = 2 * n} (omega arith)) ],
          )

  -- Different cells of the last round lie in different places.
  pub cell_apart :
      (p w : ℕ) → p < w → w < p + n * bs → (p / bs) % n ≡ (w / bs) % n → p % bs ≡ w % bs → ⊥
  cell_apart p w lt near block offset =
      let a = p / bs in
      let b = w / bs in
      let ep = div-add-mod p bs in
      let ew = div-add-mod w bs in
      let le : a ≤ b = div_mono p w (omega arith) in
      let ne : a ≢ b = λ e. omega (arith, ep, ew, ap (λ x. bs * x) e) in
      let d = b - a in
      let meets : a + d ≡ b = omega arith in
      let span : a * bs + d * bs ≡ b * bs = omega (arith, ap (λ x. x * bs) meets) in
      let short : d < n = elim (Bool-cases (ltb d n)) [
        | inl lt' ↦ ltb→lt _ _ lt'
        | inr ge ↦ absurd (omega (arith, mul-le-mul_right bs (ltb→le d n ge)))
      ] in
      elim (mod_turn a d b n meets short) [ inl e ↦ omega arith | inr e ↦ omega arith ]
