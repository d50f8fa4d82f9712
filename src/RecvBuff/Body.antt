-- ===== src/RecvBuff/Body.antt =====
-- The bytes of a message behind its length, over the blocks.
use randserver.Base.{
  ℕ, zero, suc, ◌+◌, ◌-◌, ◌*◌, ◌/◌, ◌%◌, ◌≤◌, ◌<◌, ◌≡◌, refl, sym, ap, ap₂, ◌∙◌, subst, Bool, some,
  arith, List, [], ◌∷◌, ◌++◌, length, length-append, split_at, leb, if◌then◌else◌, Bool-cases, true,
  false, inl, inr,
}
use native.Mathlib.Nat.{mod-lt, add-mod_right, add-div_right, div-add-mod}
use randserver.Ring.{Ring, advance, copy_out}
use randserver.Ring.Position.{read_pos, round, advance-read_pos}
use randserver.Ring.Content.{Shape, capacity, block_of, Held}
use randserver.Ring.Fifo.{Held-behind, Held-front, copy_out_lem}
use randserver.Ring.Put.{area}
use randserver.RecvBuff.{read_blocks, read_short, read_long, read_body}
use randserver.Ring.Chunks.{next_place, place_of, block_turn, turn, cuts}

blocks_step :
    (rounds i h at : ℕ) (ring : Ring ℕ) (a b : List ℕ)
    → (h + i + 1) % ring.pool_cnt ≡ at
    → copy_out ring at 0 ring.buffer_size ≡ some a
    → read_blocks rounds (i + 1) h ring ≡ some b
    → read_blocks (suc rounds) i h ring ≡ some (a ++ b)
unfolding read_blocks
blocks_step rounds i h at ring a b place here more = rw (place, here, more) refl

read_blocks_lem :
    (rounds i h : ℕ) (ring : Ring ℕ) (p : ℕ) (xs : List ℕ)
    → Shape ring
    → Held ring p xs
    → length xs ≡ rounds * ring.buffer_size
    → p % ring.buffer_size ≡ 0
    → (h + i + 1) % ring.pool_cnt ≡ block_of ring p
    → read_blocks rounds i h ring ≡ some xs
unfolding read_blocks
read_blocks_lem zero i h ring p [] v held size start place = refl
read_blocks_lem zero i h ring p (x ∷ xs) v held size start place = absurd (omega arith)
read_blocks_lem (suc rounds) i h ring p xs v held size start place =
    let n = ring.pool_cnt in
    let bs = ring.buffer_size in
    let (a, b, e, len) = split_at xs bs (omega arith) in
    let both : length xs ≡ length a + length b = ap length e ∙ length-append a b in
    let held' : Held ring p (a ++ b) = subst (Held ring p) e held in
    let next : p + length a ≡ p + bs = omega arith in
    let blocks : (p + length a) / bs ≡ p / bs + 1 =
      ap (λ x. x / bs) next ∙ add-div_right p v.some_cells in
    let start' : (p + length a) % bs ≡ 0 = ap (λ x. x % bs) next ∙ add-mod_right p bs ∙ start in
    let more : h + (i + 1) + 1 ≡ h + i + 1 + 1 = omega arith in
    let place' : (h + (i + 1) + 1) % n ≡ (p + length a) / bs % n =
      ap (λ x. x % n) more
      ∙ next_place n (h + i + 1) (p / bs) place
      ∙ ap (λ x. x % n) (sym blocks) in
    let here : copy_out ring (block_of ring p) 0 bs ≡ some a =
      ap₂ (copy_out ring (block_of ring p)) (sym start) (sym len)
      ∙ copy_out_lem ring p a v (Held-front ring p a b held') (omega arith) in
    let rest =
      read_blocks_lem rounds (i + 1) h ring (p + length a) b v (Held-behind ring p a b held')
        (omega arith) start' place' in
    blocks_step rounds i h (block_of ring p) ring a b place here rest ∙ ap some (sym e)

long_step :
    (ring : Ring ℕ) (size rest uh ul at at' : ℕ) (p : ℕ × ℕ) (a b c : List ℕ)
    → ring.buffer_size - p.1 ≡ rest
    → (size - rest) / ring.buffer_size ≡ uh
    → (size - rest) % ring.buffer_size ≡ ul
    → p.0 % ring.pool_cnt ≡ at
    → copy_out ring at p.1 rest ≡ some a
    → read_blocks uh 0 p.0 ring ≡ some b
    → (p.0 + uh + 1) % ring.pool_cnt ≡ at'
    → copy_out ring at' 0 ul ≡ some c
    → read_long ring size p ≡ some (a ++ (b ++ c), ((p.0 + uh + 1) % (2 * ring.pool_cnt), ul))
unfolding read_long
long_step ring size rest uh ul at at' p a b c er eu el place ra rb place' rc =
    rw (er, eu, el, place, ra, rb, place', rc) refl

read_parts :
    (ring : Ring ℕ) (p : ℕ) (xs a b c : List ℕ) (uh : ℕ)
    → Shape ring
    → Held ring p xs
    → xs ≡ a ++ (b ++ c)
    → p % ring.buffer_size + length a ≡ ring.buffer_size
    → length b ≡ uh * ring.buffer_size
    → length c < ring.buffer_size
    → read_long ring (length xs) (read_pos ring.pool_cnt ring.buffer_size p)
      ≡ some (xs, read_pos ring.pool_cnt ring.buffer_size (p + length xs))
read_parts ring p xs a b c uh v held parts fits whole short =
    let n = ring.pool_cnt in
    let bs = ring.buffer_size in
    let base = div-add-mod p bs in
    let len : length xs ≡ length a + length b + length c =
      omega (arith, ap length parts, length-append a (b ++ c), length-append b c) in
    let h0 : Held ring p (a ++ (b ++ c)) = subst (Held ring p) parts held in
    let h1 : Held ring (p + length a) (b ++ c) = Held-behind ring p a (b ++ c) h0 in
    let h2 : Held ring (p + length a + length b) c = Held-behind ring (p + length a) b c h1 in
    let (at1, off1) =
      place_of n bs (p + length a) (p / bs + 1) 0 v.some_cells v.some_cells (omega arith) in
    let (at2, off2) =
      place_of n bs (p + length a + length b) (p / bs + 1 + uh) 0 v.some_cells v.some_cells
        (omega arith) in
    let (at3, off3) =
      place_of n bs (p + length xs) (p / bs + 1 + uh) (length c) v.some_cells short (omega arith) in
    let (eu, el) =
      place_of n bs (length xs - length a) uh (length c) v.some_cells short (omega arith) in
    let h = (p / bs + n) % (2 * n) in
    let around : (k : ℕ) → (y : ℕ) → p / bs + 1 + k ≡ y → (h + k + 1) % n ≡ y % n = λ k y e.
      let more : h + k + 1 ≡ h + 1 + k = omega arith in
      ap (λ z. z % n) more
      ∙ block_turn n (p / bs + n) k (y + n) (omega arith)
      ∙ add-mod_right y n in
    let order : h + uh + 1 ≡ h + 1 + uh = omega arith in
    let end : (h + uh + 1) % (2 * n) ≡ ((p + length xs) / bs + n) % (2 * n) =
      ap (λ z. z % (2 * n)) order ∙ turn (2 * n) (p / bs + n) uh _ (omega (arith, at3)) in
    let back : copy_out ring ((p + length a + length b) / bs % n) 0 (length c) ≡ some c =
      ap (λ l. copy_out ring ((p + length a + length b) / bs % n) l (length c)) (sym off2)
      ∙ copy_out_lem ring (p + length a + length b) c v h2 (omega arith) in
    long_step ring (length xs) (length a) uh (length c) (p / bs % n) _ (read_pos n bs p) a b c
      (omega arith) eu el (round n (p / bs))
      (copy_out_lem ring p a v (Held-front ring p a (b ++ c) h0) (omega arith))
      (read_blocks_lem uh 0 h ring (p + length a) b v (Held-front ring (p + length a) b c h1) whole
        off1 (around 0 _ (omega (arith, at1))))
      (around uh _ (sym at2)) back
    ∙ ap₂ (λ ys q. some (ys, q)) (sym parts) (ap₂ (λ x y. (x, y)) end (sym off3))

body_step :
    (ring : Ring ℕ) (size : ℕ) (p : ℕ × ℕ) (fits : Bool)
    → leb size (ring.buffer_size - p.1) ≡ fits
    → read_body ring size p ≡ (if fits then read_short ring size p else read_long ring size p)
unfolding read_body
body_step ring size p fits e = rw e refl

short_step :
    (ring : Ring ℕ) (size at : ℕ) (p p' : ℕ × ℕ) (xs : List ℕ)
    → p.0 % ring.pool_cnt ≡ at
    → copy_out ring at p.1 size ≡ some xs
    → advance ring.pool_cnt ring.buffer_size p size ≡ p'
    → read_short ring size p ≡ some (xs, p')
unfolding read_short
short_step ring size at p p' xs place e on = rw (place, e, ← on) refl

pub read_body_lem :
    (ring : Ring ℕ) (p : ℕ) (xs : List ℕ)
    → Shape ring
    → Held ring p xs
    → length xs ≤ capacity ring
    → read_body ring (length xs) (read_pos ring.pool_cnt ring.buffer_size p)
      ≡ some (xs, read_pos ring.pool_cnt ring.buffer_size (p + length xs))
read_body_lem ring p xs v held room =
    let n = ring.pool_cnt in
    let bs = ring.buffer_size in
    let choice = body_step ring (length xs) (read_pos n bs p) in
    elim (Bool-cases (leb (length xs) (bs - p % bs))) [
      | inl fits ↦
          choice true fits
          ∙ short_step ring (length xs) (p / bs % n) (read_pos n bs p)
              (read_pos n bs (p + length xs)) xs (round n (p / bs))
              (copy_out_lem ring p xs v held (ground (arith, mod-lt p v.some_cells)))
              (advance-read_pos n bs v.some_blocks v.some_cells v.few_blocks v.few_cells p
                (length xs) (omega (arith, area ring v)))
      | inr over ↦
          let (a, b, c, uh, parts, first, whole, short) =
            cuts bs (p % bs) xs v.some_cells (mod-lt p v.some_cells) (ground arith) in
          choice false over ∙ read_parts ring p xs a b c uh v held parts first whole short
    ]
