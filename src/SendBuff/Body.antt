-- ===== src/SendBuff/Body.antt =====
-- The bytes of a message behind its length.
use randserver.Base.{
  ℕ, zero, suc, ◌+◌, ◌-◌, ◌*◌, ◌/◌, ◌%◌, ◌≤◌, ◌<◌, ◌≡◌, refl, sym, ap, ap₂, ◌∙◌, subst, Bool,
  Option, some, arith, List, [], ◌∷◌, ◌++◌, append_assoc, append-nil, length, length-append,
  split_at, leb, if◌then◌else◌, Bool-cases, true, false, inl, inr,
}
use randserver.Base.Bytes.{read_at, read_at-whole}
use native.Mathlib.Nat.{mod-lt, add-mod_right, add-div_right, div-add-mod}
use randserver.Ring.{Block, Pool, Ring, advance, put}
use randserver.Ring.Position.{write_pos, double, advance-write_pos}
use randserver.Ring.Content.{capacity, block_of, with}
use randserver.Ring.Blocks.{Serves}
use randserver.Ring.Fifo.{Filled}
use randserver.Ring.Put.{put_lem, area}
use randserver.Ring.Chunks.{next_place, place_of, block_turn, turn, cuts}
use randserver.SendBuff.{write_blocks, write_short, write_long, write_body}

read_at-inside {ℓ} :
    {A : Type ℓ} (xs ys zs : List A) → read_at (length xs) (length ys) (xs ++ (ys ++ zs)) ≡ some ys
unfolding read_at
read_at-inside [] [] zs = refl
read_at-inside [] (y ∷ ys) zs = rw (read_at-inside [] ys zs) refl
read_at-inside (x ∷ xs) ys zs = read_at-inside xs ys zs

read_last :
    (xs a b c : List ℕ) (m : ℕ)
    → xs ≡ a ++ (b ++ c)
    → length b ≡ m
    → read_at (length a + m) (length c) xs ≡ some c
read_last xs a b c m parts e =
    let off : length a + m ≡ length (a ++ b) = omega (arith, length-append a b) in
    let list : xs ≡ (a ++ b) ++ (c ++ []) =
      parts ∙ sym (append_assoc a b c) ∙ ap (λ z. (a ++ b) ++ z) (sym (append-nil c)) in
    ap₂ (λ k z. read_at k (length c) z) off list ∙ read_at-inside (a ++ b) c []

module _ {S : Type 0} (pool : Pool ℕ S) where
  short_step :
      (ring ring' : Ring ℕ) (p p' : ℕ × ℕ) (xs : List ℕ) (s s' : S) (at : ℕ)
      → p.0 % ring.pool_cnt ≡ at
      → put pool ring at p.1 xs s ≡ some (true, ring', s')
      → advance ring.pool_cnt ring.buffer_size p (length xs) ≡ p'
      → write_short pool xs (length xs) ring p s ≡ some (some p', ring', s')
  unfolding write_short
  short_step ring ring' p p' xs s s' at place e on =
      let all : read_at 0 (length xs) xs ≡ some xs = read_at-whole xs in
      rw (place, all, e, ← on) refl

  -- The message ends in the block that its length ends in.
  write_short_lem :
      (ring : Ring ℕ) (r : ℕ) (q xs : List ℕ) (s : S)
      → Serves pool
      → Filled ring r q
      → length q + length xs ≤ capacity ring
      → (r + length q) % ring.buffer_size + length xs ≤ ring.buffer_size
      → (ys : List (Option (Block ℕ))) × (s' : S) × (write_short pool xs
            (length xs)
            ring
            (write_pos ring.pool_cnt ring.buffer_size (r + length q))
            s
          ≡ some (
            some (write_pos ring.pool_cnt ring.buffer_size (r + length q + length xs)),
            with ring ys,
            s',
          ))
        × Filled (with ring ys) r (q ++ xs)
  write_short_lem ring r q xs s serves f room near =
      let v = f.shape in
      let n = ring.pool_cnt in
      let bs = ring.buffer_size in
      let w = r + length q in
      let (ys, s1, e, f1) = put_lem pool ring r q xs s serves f near room in
      let on =
        advance-write_pos n bs v.some_blocks v.some_cells v.few_blocks v.few_cells w (length xs)
          (omega (arith, area ring v)) in
      (
        ys,
        s1,
        short_step ring (with ring ys) (write_pos n bs w) (write_pos n bs (w + length xs)) xs s s1
            (block_of ring w) (double n (w / bs)) e on,
        f1,
      )

  blocks_step :
      (rounds i h off at : ℕ) (ring ring' : Ring ℕ) (xs bytes : List ℕ) (s s' : S)
      → read_at off ring.buffer_size xs ≡ some bytes
      → (h + 1 + i) % ring.pool_cnt ≡ at
      → put pool ring at 0 bytes s ≡ some (true, ring', s')
      → write_blocks pool (suc rounds) i h xs off ring s
        ≡ write_blocks pool rounds (i + 1) h xs (off + ring.buffer_size) ring' s'
  unfolding write_blocks
  blocks_step rounds i h off at ring ring' xs bytes s s' got place e = rw (got, place, e) refl

  write_blocks_lem :
      (rounds i h : ℕ) (ring : Ring ℕ) (r : ℕ) (q xs pre mid tail : List ℕ) (s : S)
      → Serves pool
      → Filled ring r q
      → length q + length mid ≤ capacity ring
      → xs ≡ pre ++ (mid ++ tail)
      → length mid ≡ rounds * ring.buffer_size
      → (r + length q) % ring.buffer_size ≡ 0
      → (h + 1 + i) % ring.pool_cnt ≡ block_of ring (r + length q)
      → (ys : List (Option (Block ℕ))) × (s' : S) × (write_blocks pool rounds i h xs
            (length pre)
            ring
            s
          ≡ some (true, with ring ys, s'))
        × Filled (with ring ys) r (q ++ mid)
  unfolding write_blocks
  write_blocks_lem zero i h ring r q xs pre [] tail s serves f room parts size start place =
      (ring.buffers, s, refl, subst (Filled ring r) (sym (append-nil q)) f)
  write_blocks_lem zero i h ring r q xs pre (x ∷ mid) tail s serves f room parts size start place =
      absurd (omega arith)
  write_blocks_lem (suc rounds) i h ring r q xs pre mid tail s serves f room parts size start
        place =
      let v = f.shape in
      let n = ring.pool_cnt in
      let bs = ring.buffer_size in
      let w = r + length q in
      let (a, b, e, len) = split_at mid bs (omega arith) in
      let both : length mid ≡ length a + length b = ap length e ∙ length-append a b in
      let whole : xs ≡ pre ++ (a ++ (b ++ tail)) =
        parts ∙ ap (λ z. pre ++ (z ++ tail)) e ∙ ap (λ z. pre ++ z) (append_assoc a b tail) in
      let got : read_at (length pre) bs xs ≡ some a =
        ap₂ (λ k z. read_at (length pre) k z) (sym len) whole ∙ read_at-inside pre a (b ++ tail) in
      let (ys, s1, e1, f1) = put_lem pool ring r q a s serves f (omega arith) (omega arith) in
      let at : r + length (q ++ a) ≡ w + bs = omega (arith, length-append q a) in
      let start' : (r + length (q ++ a)) % bs ≡ 0 =
        ap (λ x. x % bs) at ∙ add-mod_right w bs ∙ start in
      let blocks : (r + length (q ++ a)) / bs ≡ w / bs + 1 =
        ap (λ x. x / bs) at ∙ add-div_right w v.some_cells in
      let place' : (h + 1 + (i + 1)) % n ≡ ((r + length (q ++ a)) / bs) % n =
        ap (λ x. x % n) (omega arith)
        ∙ next_place n (h + 1 + i) (w / bs) place
        ∙ ap (λ x. x % n) (sym blocks) in
      let (zs, s2, e2, f2) =
        write_blocks_lem rounds (i + 1) h (with ring ys) r (q ++ a) xs (pre ++ a) b tail s1 serves
          f1 (omega (arith, length-append q a)) (whole ∙ sym (append_assoc pre a (b ++ tail)))
          (omega arith) start' place' in
      (
        zs,
        s2,
        blocks_step rounds i h (length pre) (block_of ring w) ring (with ring ys) xs a s s1 got
              place (ap (λ l. put pool ring (block_of ring w) l a s) (sym start) ∙ e1)
            ∙ ap (λ off. write_blocks pool rounds (i + 1) h xs off (with ring ys) s1)
                (omega (arith, length-append pre a))
            ∙ e2,
        subst (Filled (with ring zs) r) (append_assoc q a b ∙ ap (λ x. q ++ x) (sym e)) f2,
      )

  long_step :
      (ring ring1 ring2 ring3 : Ring ℕ) (xs a c : List ℕ) (size rest uh ul : ℕ) (p : ℕ × ℕ)
      (s s1 s2 s3 : S)
      → ring.buffer_size - p.1 ≡ rest
      → (size - rest) / ring.buffer_size ≡ uh
      → (size - rest) % ring.buffer_size ≡ ul
      → read_at 0 rest xs ≡ some a
      → put pool ring (p.0 % ring.pool_cnt) p.1 a s ≡ some (true, ring1, s1)
      → write_blocks pool uh 0 p.0 xs rest ring1 s1 ≡ some (true, ring2, s2)
      → read_at (rest + uh * ring.buffer_size) ul xs ≡ some c
      → put pool ring2 ((p.0 + 1 + uh) % ring.pool_cnt) 0 c s2 ≡ some (true, ring3, s3)
      → write_long pool xs size ring p s
        ≡ some (some ((p.0 + 1 + uh) % (2 * ring.pool_cnt), ul), ring3, s3)
  unfolding write_long
  long_step ring ring1 ring2 ring3 xs a c size rest uh ul p s s1 s2 s3 er eu el ra pa rb rc pc =
      rw (er, eu, el, ra, pa, rb, rc, pc) refl

  -- The message takes more blocks than the one that its length ends in.
  write_parts :
      (ring : Ring ℕ) (r : ℕ) (q xs a b c : List ℕ) (uh : ℕ) (s : S)
      → Serves pool
      → Filled ring r q
      → length q + length xs ≤ capacity ring
      → xs ≡ a ++ (b ++ c)
      → (r + length q) % ring.buffer_size + length a ≡ ring.buffer_size
      → length b ≡ uh * ring.buffer_size
      → length c < ring.buffer_size
      → (ys : List (Option (Block ℕ))) × (s' : S) × (write_long pool xs
            (length xs)
            ring
            (write_pos ring.pool_cnt ring.buffer_size (r + length q))
            s
          ≡ some (
            some (write_pos ring.pool_cnt ring.buffer_size (r + length q + length xs)),
            with ring ys,
            s',
          ))
        × Filled (with ring ys) r (q ++ xs)
  write_parts ring r q xs a b c uh s serves f room parts fits whole short =
      let v = f.shape in
      let n = ring.pool_cnt in
      let bs = ring.buffer_size in
      let w = r + length q in
      let base = div-add-mod w bs in
      let len : length xs ≡ length a + length b + length c =
        omega (arith, ap length parts, length-append a (b ++ c), length-append b c) in
      let l1 = length-append q a in
      let l2 = length-append (q ++ a) b in
      let (at1, off1) =
        place_of n bs (r + length (q ++ a)) (w / bs + 1) 0 v.some_cells v.some_cells
          (omega arith) in
      let (at2, off2) =
        place_of n bs (r + length (q ++ a ++ b)) (w / bs + 1 + uh) 0 v.some_cells v.some_cells
          (omega arith) in
      let (at3, off3) =
        place_of n bs (w + length xs) (w / bs + 1 + uh) (length c) v.some_cells short
          (omega arith) in
      let place1 : ((w / bs) % (2 * n) + 1 + 0) % n ≡ block_of ring (r + length (q ++ a)) =
        block_turn n (w / bs) 0 _ (omega (arith, at1)) in
      let place2 : ((w / bs) % (2 * n) + 1 + uh) % n ≡ block_of ring (r + length (q ++ a ++ b)) =
        block_turn n (w / bs) uh _ (sym at2) in
      let (eu, el) =
        place_of n bs (length xs - length a) uh (length c) v.some_cells short (omega arith) in
      let first : read_at 0 (length a) xs ≡ some a =
        ap (read_at 0 (length a)) parts ∙ read_at-inside [] a (b ++ c) in
      let last : read_at (length a + uh * bs) (length c) xs ≡ some c =
        read_last xs a b c (uh * bs) parts whole in
      let (ys, s1, e1, f1) = put_lem pool ring r q a s serves f (omega arith) (omega arith) in
      let (zs, s2, e2, f2) =
        write_blocks_lem uh 0 ((w / bs) % (2 * n)) (with ring ys) r (q ++ a) xs a b c s1 serves f1
          (omega arith) parts whole off1 place1 in
      let (us, s3, e3, f3) =
        put_lem pool (with ring zs) r (q ++ a ++ b) c s2 serves f2 (omega arith) (omega arith) in
      (
        us,
        s3,
        long_step ring (with ring ys) (with ring zs) (with ring us) xs a c (length xs) (length a) uh
              (length c) (write_pos n bs w) s s1 s2 s3 (omega arith) eu el first
              (ap (λ i. put pool ring i (w % bs) a s) (double n (w / bs)) ∙ e1) e2 last
              (ap₂ (λ i l. put pool (with ring zs) i l c s2) place2 (sym off2) ∙ e3)
            ∙ ap₂ (λ x y. some (some (x, y), with ring us, s3))
                (turn (2 * n) (w / bs) uh _ (sym at3)) (sym off3),
        subst (Filled (with ring us) r)
            (append_assoc (q ++ a) b c ∙ append_assoc q a (b ++ c) ∙ ap (λ z. q ++ z) (sym parts))
            f3,
      )

  choose_step :
      (bs : ℕ) (xs : List ℕ) (ring : Ring ℕ) (p : ℕ × ℕ) (s : S) (fits : Bool)
      → leb (length xs) (bs - p.1) ≡ fits
      → write_body pool bs xs (length xs) (some p, ring, s) ≡ (
          if fits
          then write_short pool xs (length xs) ring p s
          else write_long pool xs (length xs) ring p s)
  unfolding write_body
  choose_step bs xs ring p s fits e = rw e refl

  -- Either way the message stands behind its length.
  pub write_body_lem :
      (ring : Ring ℕ) (r : ℕ) (q xs : List ℕ) (s : S)
      → Serves pool
      → Filled ring r q
      → length q + length xs ≤ capacity ring
      → (ys : List (Option (Block ℕ))) × (s' : S) × (write_body pool ring.buffer_size xs
            (length xs)
            (some (write_pos ring.pool_cnt ring.buffer_size (r + length q)), ring, s)
          ≡ some (
            some (write_pos ring.pool_cnt ring.buffer_size (r + length q + length xs)),
            with ring ys,
            s',
          ))
        × Filled (with ring ys) r (q ++ xs)
  write_body_lem ring r q xs s serves f room =
      let v = f.shape in
      let n = ring.pool_cnt in
      let bs = ring.buffer_size in
      let w = r + length q in
      let low : w % bs < bs = mod-lt w v.some_cells in
      let choice = choose_step bs xs ring (write_pos n bs w) s in
      elim (Bool-cases (leb (length xs) (bs - w % bs))) [
        | inl fits ↦
            let (ys, s', e, f') = write_short_lem ring r q xs s serves f room (ground arith) in
            (ys, s', choice true fits ∙ e, f')
        | inr over ↦
            let (a, b, c, uh, parts, first, whole, short) =
              cuts bs (w % bs) xs v.some_cells low (ground arith) in
            let (ys, s', e, f') =
              write_parts ring r q xs a b c uh s serves f room parts first whole short in
            (ys, s', choice false over ∙ e, f')
      ]
