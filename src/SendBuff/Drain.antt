-- ===== src/SendBuff/Drain.antt =====
-- `struct send_buff` gives its bytes away in the order in which they came.
use randserver.Base.{
  ℕ, ◌+◌, ◌-◌, ◌*◌, ◌/◌, ◌%◌, ◌^◌, ◌≤◌, ◌<◌, ◌≡◌, ◌≢◌, refl, sym, ap, ap₂, ◌∙◌, subst, u32, Bool,
  some, arith, List, [], ◌∷◌, ◌++◌, append-nil, length, length-append, split_at, ltb, leb, ◌==◌,
  le→leb, ltb→lt, ==→eq, eq→==, ◌&&◌, if◌then◌else◌, Bool-cases, true, false, inl, inr, ◌⊎◌, not,
}
use native.Mathlib.Nat.{mod-lt, add-mul-div_right, div-add-mod, mul-le-mul_left}
use randserver.Ring.{Pool, Ring, unpack, pack, advance, copy_out, gc_help}
use randserver.Ring.Position.{
  write_pos, read_pos, div_mono, round, double, mod_turn, advance-read_pos,
}
use randserver.Ring.Content.{capacity, Held}
use randserver.Ring.Fifo.{Fifo, released, Held-front, copy_out_lem}
use randserver.Ring.Put.{area, read_of, write_of, consumed, release_lem}
use randserver.SendBuff.{SendBuff, send_prepare, prepared, send_consume}

tests : (x y : Bool) → (x ≡ true) ⊎ (y ≡ false) → (not x && y) ≡ false
tests x y (inl e) = rw e refl
tests true y (inr e) = refl
tests false y (inr e) = e

-- Whether the reader's block is the writer's, and not a round behind it.
same_block :
    (n a b : ℕ)
    → 0 < n
    → b ≤ a
    → a ≤ b + n
    → (not ((b + n) % (2 * n) == a % (2 * n)) && (a % (2 * n) % n == (b + n) % (2 * n) % n))
      ≡ (a == b)
same_block n a b npos low high = elim (Bool-cases (a == b)) [
  | inl same ↦
      let e : a ≡ b = ==→eq _ _ same in
      let apart : (b + n) % (2 * n) ≢ a % (2 * n) = λ met.
        elim (mod_turn b n (b + n) (2 * n) refl (omega arith)) [
          | inl ahead ↦ omega (arith, ap (λ x. x % (2 * n)) e)
          | inr around ↦ omega (arith, ap (λ x. x % (2 * n)) e)
        ] in
      let differ : ((b + n) % (2 * n) == a % (2 * n)) ≡ false = ground arith in
      let meet : (a % (2 * n) % n == (b + n) % (2 * n) % n) ≡ true =
        eq→== _ _ (double n a ∙ ap (λ x. x % n) e ∙ sym (round n b)) in
      rw (differ, meet, same) refl
  | inr differ ↦ elim (Bool-cases (a % (2 * n) % n == (b + n) % (2 * n) % n)) [
    | inr apart ↦ tests _ _ (inr apart) ∙ sym differ
    | inl meet ↦
        let ne : a ≢ b = ground arith in
        let here : a % n ≡ b % n = sym (double n a) ∙ ==→eq _ _ meet ∙ round n b in
        let around : a ≡ b + n = elim (Bool-cases (ltb (a - b) n)) [
          | inr far ↦ ground arith
          | inl near ↦ absurd (elim (mod_turn b (a - b) a n (omega arith) (ltb→lt _ _ near)) [
            | inl ahead ↦ omega (arith, ltb→lt (a - b) n near)
            | inr behind ↦ omega (arith, ltb→lt (a - b) n near)
          ])
        ] in
        tests _ _ (inl (eq→== _ _ (ap (λ x. x % (2 * n)) (sym around)))) ∙ sym differ
  ]
]

prepare_step :
    (sbuff : SendBuff) (w r : ℕ × ℕ) (together : Bool) (space : ℕ)
    → unpack sbuff.ring.write ≡ w
    → unpack sbuff.ring.read ≡ r
    → (not (r.0 == w.0) && (w.0 % sbuff.ring.pool_cnt == r.0 % sbuff.ring.pool_cnt)) ≡ together
    → (together ≡ true → leb r.1 w.1 ≡ true)
    → (if together then w.1 - r.1 else u32 (sbuff.ring.buffer_size + 2 ^ 32 - r.1)) ≡ space
    → leb space sbuff.ring.buffer_size ≡ true
    → send_prepare sbuff ≡ some (space, (r.0 % sbuff.ring.pool_cnt, r.1))
unfolding send_prepare
prepare_step sbuff w r true space ew er t order e fits =
    rw
      (
        ap (λ p. p.0) ew,
        ap (λ p. p.1) ew,
        ap (λ p. p.0) er,
        ap (λ p. p.1) er,
        t,
        order refl,
        e,
        fits,
      )
      refl
prepare_step sbuff w r false space ew er t order e fits =
    rw (ap (λ p. p.0) ew, ap (λ p. p.1) ew, ap (λ p. p.0) er, ap (λ p. p.1) er, t, e, fits) refl

empty : (q : List ℕ) → (q ≡ []) ⊎ (0 < length q)
empty [] = inl refl
empty (x ∷ q) = inr (omega arith)

-- The bytes up to the end of the reader's block, or to the end of the queue.
at_once :
    (bs r : ℕ) (q : List ℕ)
    → 0 < bs
    → (xs : List ℕ) × (ys : List ℕ) × (q ≡ xs ++ ys)
      × ((q ≡ []) ⊎ (0 < length xs))
      × (r % bs + length xs ≤ bs)
      × (((r + length q) / bs == r / bs) ≡ true
          → (length xs ≡ length q) × ((r + length q) % bs ≡ r % bs + length q))
      × (((r + length q) / bs == r / bs) ≡ false → length xs ≡ bs - r % bs)
at_once bs r q bpos =
    let base = div-add-mod r bs in
    let end = div-add-mod (r + length q) bs in
    let low = mod-lt r bpos in
    elim (Bool-cases ((r + length q) / bs == r / bs)) [
      | inl same ↦
          let blocks : bs * ((r + length q) / bs) ≡ bs * (r / bs) =
            ap (λ x. bs * x) (==→eq _ _ same) in
          let last : (r + length q) % bs ≡ r % bs + length q = omega arith in
          (
            q,
            [],
            sym (append-nil q),
            empty q,
            omega (arith, mod-lt (r + length q) bpos),
            λ e. (refl, last),
            λ e. absurd (ground arith),
          )
      | inr differ ↦
          let ne : (r + length q) / bs ≢ r / bs = ground arith in
          let more : r / bs ≤ (r + length q) / bs =
            div_mono bs bs bpos bpos r (r + length q) (omega arith) in
          let next : bs * (r / bs + 1) ≤ bs * ((r + length q) / bs) =
            mul-le-mul_left bs (omega arith) in
          let (xs, ys, e, len) = split_at q (bs - r % bs) (omega arith) in
          (xs, ys, e, inr (omega arith), omega arith, λ same. absurd (ground arith), λ e'. len)
    ]

-- In a valid buffer `send_buff_prepare` points to bytes that the stream begins with, and to none
-- only where the stream is empty.
pub send_prepare_lem :
    (sbuff : SendBuff) (r : ℕ) (q : List ℕ)
    → Fifo sbuff.ring r q
    → (xs : List ℕ) × (ys : List ℕ) × (at : ℕ × ℕ) × (q ≡ xs ++ ys)
      × ((q ≡ []) ⊎ (0 < length xs))
      × (send_prepare sbuff ≡ some (length xs, at))
      × (prepared sbuff ≡ some xs)
unfolding prepared
send_prepare_lem sbuff r q f =
    let ring = sbuff.ring in
    let v = f.filled.shape in
    let n = ring.pool_cnt in
    let bs = ring.buffer_size in
    let w = r + length q in
    let (xs, ys, e, some_bytes, near, whole, rest) = at_once bs r q v.some_cells in
    let test =
      same_block n (w / bs) (r / bs) v.some_blocks
        (div_mono n bs v.some_blocks v.some_cells r w (omega arith))
        (omega (
          arith,
          div_mono n bs v.some_blocks v.some_cells w (r + n * bs) (omega (arith, f.filled.room)),
          add-mul-div_right r n v.some_cells,
        )) in
    let low : r % bs < bs = mod-lt r v.some_cells in
    let here : send_prepare sbuff ≡ some (length xs, ((r / bs + n) % (2 * n) % n, r % bs)) =
      elim (Bool-cases (w / bs == r / bs)) [
        | inl same ↦
            let (all, last) = whole same in
            prepare_step sbuff (write_pos n bs w) (read_pos n bs r) true (length xs)
              (write_of ring r q f) (read_of ring r q f) (test ∙ same)
              (λ e. le→leb _ _ (omega arith)) (omega arith) (le→leb _ _ (omega arith))
        | inr differ ↦
            let some_left = rest differ in
            prepare_step sbuff (write_pos n bs w) (read_pos n bs r) false (length xs)
              (write_of ring r q f) (read_of ring r q f) (test ∙ differ)
              (λ e. absurd (ground arith)) (omega (arith, v.few_cells)) (le→leb _ _ (omega arith))
      ] in
    let copied =
      copy_out_lem ring r xs v (Held-front ring r xs ys (subst (Held ring r) e f.filled.held))
        near in
    (
      xs,
      ys,
      ((r / bs + n) % (2 * n) % n, r % bs),
      e,
      some_bytes,
      here,
      rw here (ap (λ i. copy_out ring i (r % bs) (length xs)) (round n (r / bs)) ∙ copied),
    )

module _ {S : Type 0} (pool : Pool ℕ S) where
  consume_step :
      (sbuff : SendBuff) (usize cnt : ℕ) (end : ℕ × ℕ) (ring' : Ring ℕ) (s s' : S)
      → leb usize (sbuff.ring.buffer_size * sbuff.ring.pool_cnt) ≡ true
      → (usize == 0) ≡ false
      → advance sbuff.ring.pool_cnt sbuff.ring.buffer_size (unpack sbuff.ring.read) (u32 usize)
        ≡ end
      → gc_help pool sbuff.ring end.0 (unpack sbuff.ring.write).0 s ≡ some (cnt, ring', s')
      → send_consume pool sbuff usize s
        ≡ some (record sbuff { ring = record ring' { read = pack end } }, s')
  unfolding send_consume
  consume_step sbuff usize cnt end ring' s s' few some_bytes on e =
      subst
        (λ end.
          gc_help pool sbuff.ring end.0 (unpack sbuff.ring.write).0 s ≡ some (cnt, ring', s')
          → send_consume pool sbuff usize s
            ≡ some (record sbuff { ring = record ring' { read = pack end } }, s'))
        on (λ gc. rw (few, some_bytes, gc) refl) e

  -- In a valid buffer `send_buff_consume` of any number of the bytes that are there takes these from
  -- the front of the stream.
  pub send_consume_lem :
      (sbuff : SendBuff) (r : ℕ) (xs q : List ℕ) (s : S)
      → Fifo sbuff.ring r (xs ++ q)
      → (ring' : Ring ℕ) × (s' : S) × (send_consume pool sbuff (length xs) s
          ≡ some (record sbuff { ring = ring' }, s'))
        × Fifo ring' (r + length xs) q
        × (capacity ring' ≡ capacity sbuff.ring)
  unfolding send_consume
  send_consume_lem sbuff r [] q s f = (
    sbuff.ring,
    s,
    rw (le→leb 0 (sbuff.ring.buffer_size * sbuff.ring.pool_cnt) (omega arith)) refl,
    subst (λ x. Fifo sbuff.ring x q) (omega arith) f,
    refl,
  )
  send_consume_lem sbuff r (x ∷ xs) q s f =
      let ring = sbuff.ring in
      let v = f.filled.shape in
      let n = ring.pool_cnt in
      let bs = ring.buffer_size in
      let len = length-append (x ∷ xs) q in
      let few : length (x ∷ xs) ≤ n * bs = omega (arith, f.filled.room) in
      let exact : u32 (length (x ∷ xs)) ≡ length (x ∷ xs) = omega (arith, area ring v) in
      let on =
        advance-read_pos n bs v.some_blocks v.some_cells v.few_blocks v.few_cells r
          (length (x ∷ xs)) (omega (arith, area ring v)) in
      let (cnt, ys, s', e, f') = release_lem pool ring r (x ∷ xs) q s f in
      (
        consumed ring ys (r + length (x ∷ xs)),
        s',
        consume_step sbuff (length (x ∷ xs)) cnt (read_pos n bs (r + length (x ∷ xs)))
            (released ring ys (r + length (x ∷ xs))) s s' (le→leb _ _ (omega arith)) (ground arith)
            (ap₂ (advance n bs) (read_of ring r (x ∷ xs ++ q) f) exact ∙ on) e,
        f',
        refl,
      )
