-- ===== src/SendBuff/Header.antt =====
-- The length in front of a message.
use randserver.Base.{
  ℕ, zero, suc, ◌+◌, ◌/◌, ◌%◌, ◌^◌, ◌≤◌, ◌<◌, ◌≡◌, refl, sym, ap, ◌∙◌, subst, Option, some, arith,
  List, [], ◌∷◌, ◌++◌, append_assoc, append-nil, length, length-append, true,
}
use randserver.Base.Bytes.{le_bytes}
use native.Mathlib.Nat.{mod-lt, div-div-eq-div-mul, pow-suc}
use randserver.Ring.{Block, Pool, Ring, advance, put}
use randserver.Ring.Position.{write_pos, double, advance-write_pos}
use randserver.Ring.Content.{capacity, block_of, with}
use randserver.Ring.Blocks.{Serves}
use randserver.Ring.Fifo.{Filled}
use randserver.Ring.Put.{put_lem}
use randserver.SendBuff.{length_byte, write_length}

-- The bytes that `send_buff_write` puts in front are those of the length, lowest first.
length_byte_lem : (m i : ℕ) → m < 2 ^ 32 → i < 4 → length_byte m i ≡ m / 256 ^ i % 256
unfolding length_byte
length_byte_lem m zero h lt = omega arith
length_byte_lem m (suc zero) h lt = omega arith
length_byte_lem m (suc (suc zero)) h lt = omega arith
length_byte_lem m (suc (suc (suc zero))) h lt = omega arith
length_byte_lem m (suc (suc (suc (suc i)))) h lt = absurd (omega arith)

next_byte : (m i : ℕ) → m / 256 ^ (i + 1) ≡ m / 256 ^ i / 256
next_byte m i =
    let more : i + 1 ≡ suc i = omega arith in
    ap (λ k. m / 256 ^ k) more
    ∙ ap (λ d. m / d) (pow-suc 256 i)
    ∙ sym (div-div-eq-div-mul m (256 ^ i) 256)

module _ {S : Type 0} (pool : Pool ℕ S) where
  length_step :
      (rounds i m : ℕ) (ring ring' : Ring ℕ) (p p' : ℕ × ℕ) (s s' : S) (at b : ℕ)
      → p.0 % ring.pool_cnt ≡ at
      → length_byte m i ≡ b
      → put pool ring at p.1 (b ∷ []) s ≡ some (true, ring', s')
      → advance ring.pool_cnt ring.buffer_size p 1 ≡ p'
      → write_length pool (suc rounds) i m ring p s ≡ write_length pool rounds (i + 1) m ring' p' s'
  unfolding write_length
  length_step rounds i m ring ring' p p' s s' at b place byte e on = rw (place, byte, e, ← on) refl

  pub write_length_lem :
      (rounds i m : ℕ) (ring : Ring ℕ) (r : ℕ) (q : List ℕ) (s : S)
      → Serves pool
      → Filled ring r q
      → m < 2 ^ 32
      → i + rounds ≤ 4
      → length q + rounds ≤ capacity ring
      → (ys : List (Option (Block ℕ))) × (s' : S) × (write_length pool rounds i m ring
            (write_pos ring.pool_cnt ring.buffer_size (r + length q))
            s
          ≡ some (
            some (write_pos ring.pool_cnt ring.buffer_size (r + length q + rounds)),
            with ring ys,
            s',
          ))
        × Filled (with ring ys) r (q ++ le_bytes rounds (m / 256 ^ i))
  unfolding write_length le_bytes
  write_length_lem zero i m ring r q s serves f small few room = (
    ring.buffers,
    s,
    ap (λ x. some (some (write_pos ring.pool_cnt ring.buffer_size x), ring, s)) (omega arith),
    subst (Filled ring r) (sym (append-nil q)) f,
  )
  write_length_lem (suc rounds) i m ring r q s serves f small few room =
      let v = f.shape in
      let n = ring.pool_cnt in
      let bs = ring.buffer_size in
      let w = r + length q in
      let b = m / 256 ^ i % 256 in
      let (ys, s1, e, f1) =
        put_lem pool ring r q (b ∷ []) s serves f (omega (arith, mod-lt w v.some_cells))
          (omega arith) in
      let len : length (q ++ b ∷ []) ≡ length q + 1 = length-append q (b ∷ []) in
      let (zs, s2, e2, f2) =
        write_length_lem rounds (i + 1) m (with ring ys) r (q ++ b ∷ []) s1 serves f1 small
          (omega arith) (omega (arith, len)) in
      let on =
        advance-write_pos n bs v.some_blocks v.some_cells v.few_blocks v.few_cells w 1
          (omega arith) in
      let at : r + length (q ++ b ∷ []) ≡ w + 1 = omega (arith, len) in
      let end : w + 1 + rounds ≡ w + suc rounds = omega arith in
      let left : m / 256 ^ (i + 1) ≡ m / 256 ^ i / 256 = next_byte m i in
      (
        zs,
        s2,
        length_step rounds i m ring (with ring ys) (write_pos n bs w) (write_pos n bs (w + 1)) s s1
              (block_of ring w) b (double n (w / bs)) (length_byte_lem m i small (omega arith)) e on
            ∙ ap (λ x. write_length pool rounds (i + 1) m (with ring ys) (write_pos n bs x) s1)
                (sym at)
            ∙ e2
            ∙ ap (λ x. some (some (write_pos n bs x), with ring zs, s2))
                (ap (λ x. x + rounds) at ∙ end),
        subst (Filled (with ring zs) r)
            (append_assoc q (b ∷ []) (le_bytes rounds (m / 256 ^ (i + 1)))
              ∙ ap (λ x. q ++ b ∷ le_bytes rounds x) left)
            f2,
      )
