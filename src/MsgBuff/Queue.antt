-- ===== src/MsgBuff/Queue.antt =====
-- `struct msg_buff` is a bounded queue.
use randserver.Base.{
  ℕ, suc, ◌+◌, ◌-◌, ◌*◌, ◌/◌, ◌%◌, ◌^◌, ◌≤◌, ◌<◌, ◌≡◌, refl, ap, ◌∙◌, u32, some, none, arith, List,
  [], ◌∷◌, ◌++◌, length, length-append, get_elem?, split_at, ltb, ◌==◌, ==→eq, if◌then◌else◌,
  Bool-cases, true, false, inl, inr, ◌⊎◌,
}
use randserver.Base.Int.{pos, negsuc}
use native.Mathlib.Nat.{mod-lt}
use randserver.Ring.{Pool, Ring, unpack, pack, advance, ensure, put}
use randserver.Ring.Position.{
  write_pos, read_pos, round, double, advance-read_pos, advance-write_pos,
}
use randserver.Ring.Content.{Shape, capacity, block_of, Held, with}
use randserver.Ring.Blocks.{Serves}
use randserver.Ring.Fifo.{Fifo, Held-front, Held-behind, copy_out_lem}
use randserver.Ring.Put.{
  put_lem, Filled-write, area, read_of, write_of, space_of, full_lem, consumed, release_lem,
}
use randserver.MsgBuff.{msg_size, copy_msgs, msg_write, msg_read}

module _ {ℓ} {A : Type ℓ} where
  -- `msg_buff_size` is the number of messages that the queue holds.
  pub msg_size_lem :
      (ring : Ring A) (r : ℕ) (q : List A) → Fifo ring r q → msg_size ring ≡ some (length q)
  unfolding msg_size
  msg_size_lem ring r q f =
      let exact : u32 (
            u32 (ring.pool_cnt * ring.buffer_size)
            + 2 ^ 32
            - (ring.pool_cnt * ring.buffer_size - length q))
          ≡ length q =
        omega (arith, area ring f.filled.shape, f.filled.room) in
      rw (space_of ring r q f, exact) refl

  copy_msgs_lem :
      (ring : Ring A) (p : ℕ) (xs : List A)
      → Shape ring
      → Held ring p xs
      → copy_msgs (length xs) ring (read_pos ring.pool_cnt ring.buffer_size p)
        ≡ some (xs, read_pos ring.pool_cnt ring.buffer_size (p + length xs))
  unfolding copy_msgs
  copy_msgs_lem ring p [] v h =
      ap (λ x. some ([], read_pos ring.pool_cnt ring.buffer_size x)) (omega arith)
  copy_msgs_lem ring p (x ∷ xs) v h =
      let n = ring.pool_cnt in
      let bs = ring.buffer_size in
      let here =
        copy_out_lem ring p (x ∷ []) v (Held-front ring p (x ∷ []) xs h)
          (omega (arith, mod-lt p v.some_cells)) in
      let on =
        advance-read_pos n bs v.some_blocks v.some_cells v.few_blocks v.few_cells p 1
          (omega arith) in
      let rest = copy_msgs_lem ring (p + 1) xs v (Held-behind ring p (x ∷ []) xs h) in
      let end : p + 1 + length xs ≡ p + suc (length xs) = omega arith in
      rw (round n (p / bs), here, on, rest, end) refl

  -- A read of the messages `xs`, the first of the queue.
  reads :
      {S : Type 0} (pool : Pool A S) (ring : Ring A) (r : ℕ) (xs ys : List A) (n : ℕ) (s : S)
      → Fifo ring r (xs ++ ys)
      → length xs ≡ (if ltb (length (xs ++ ys)) n then length (xs ++ ys) else n)
      → (ring' : Ring A) × (s' : S) × (msg_read pool ring n s ≡ some (xs, ring', s'))
        × Fifo ring' (r + length xs) ys
        × (capacity ring' ≡ capacity ring)
  unfolding msg_read msg_size
  reads pool ring r xs ys n s f len =
      let v = f.filled.shape in
      let size = msg_size_lem ring r (xs ++ ys) f in
      let copied = copy_msgs_lem ring r xs v (Held-front ring r xs ys f.filled.held) in
      let (cnt, zs, s', e, f') = release_lem pool ring r xs ys s f in
      (
        consumed ring zs (r + length xs),
        s',
        rw (size, ← len, read_of ring r (xs ++ ys) f, copied, e) refl,
        f',
        refl,
      )

  writes :
      {S : Type 0} (pool : Pool A S) (ring ring' : Ring A) (msg : A) (s s' : S) (p p' : ℕ × ℕ)
      (i : ℕ)
      → (ring.write == ring.read) ≡ false
      → unpack ring.write ≡ p
      → p.0 % ring.pool_cnt ≡ i
      → put pool ring i p.1 (msg ∷ []) s ≡ some (true, ring', s')
      → advance ring.pool_cnt ring.buffer_size p 1 ≡ p'
      → msg_write pool ring msg s ≡ some (pos 1, record ring' { write = pack p' }, s')
  unfolding msg_write
  writes pool ring ring' msg s s' p p' i room at place e on =
      let high : ring.write / 2 ^ 16 ≡ p.0 = ap (λ x. x.0) at in
      let low : ring.write % 2 ^ 16 ≡ p.1 = ap (λ x. x.1) at in
      rw (room, high, low, place, e, ← on) refl

  -- Writing to a queue that is not full, with memory left, answers 1 and puts the message at its end;
  -- a full queue stays as it is, for the answer 0.
  pub msg_write_lem :
      {S : Type 0} (pool : Pool A S) (ring : Ring A) (r : ℕ) (q : List A) (msg : A) (s : S)
      → Serves pool
      → Fifo ring r q
      → ((length q ≡ capacity ring) × (msg_write pool ring msg s ≡ some (pos 0, ring, s)))
        ⊎ ((length q < capacity ring)
            × ((ring' : Ring A) × (s' : S) × (msg_write pool ring msg s ≡ some (pos 1, ring', s'))
                × Fifo ring' r (q ++ msg ∷ [])
                × (capacity ring' ≡ capacity ring)))
  unfolding msg_write
  msg_write_lem pool ring r q msg s serves f =
      elim (Bool-cases (length q == ring.pool_cnt * ring.buffer_size)) [
        | inl full ↦ inl (==→eq _ _ full, rw (full_lem ring r q f ∙ full) refl)
        | inr less ↦
            let v = f.filled.shape in
            let n = ring.pool_cnt in
            let bs = ring.buffer_size in
            let w = r + length q in
            let room : length q < n * bs = ground (arith, f.filled.room) in
            let near : w % bs + 1 ≤ bs = omega (arith, mod-lt w v.some_cells) in
            let (ys, s', e, f') =
              put_lem pool ring r q (msg ∷ []) s serves f.filled near (omega arith) in
            let on =
              advance-write_pos n bs v.some_blocks v.some_cells v.few_blocks v.few_cells w 1
                (omega arith) in
            let end : w + 1 ≡ r + length (q ++ msg ∷ []) =
              omega (arith, length-append q (msg ∷ [])) in
            inr (
              room,
              (
                record (with ring ys) { write = pack (write_pos n bs (w + 1)) },
                s',
                writes pool ring (with ring ys) msg s s' (write_pos n bs w) (write_pos n bs (w + 1))
                    (block_of ring w) (full_lem ring r q f ∙ less) (write_of ring r q f)
                    (double n (w / bs)) e on,
                record {
                  filled =
                      Filled-write (with ring ys) r (pack (write_pos n bs (w + 1))) (q ++ msg ∷ [])
                        f';
                  write_at_w = ap (λ x. pack (write_pos n bs x)) end;
                },
                refl,
              ),
            )
      ]

  -- Reading gives the oldest messages in order, at most as many as asked for, and leaves the others.
  pub msg_read_lem :
      {S : Type 0} (pool : Pool A S) (ring : Ring A) (r : ℕ) (q : List A) (n : ℕ) (s : S)
      → Fifo ring r q
      → (xs : List A) × (ys : List A) × (ring' : Ring A) × (s' : S) × (q ≡ xs ++ ys)
        × (length xs ≡ (if ltb (length q) n then length q else n))
        × (msg_read pool ring n s ≡ some (xs, ring', s'))
        × Fifo ring' (r + length xs) ys
        × (capacity ring' ≡ capacity ring)
  msg_read_lem pool ring r q n s f =
      let cnt = if ltb (length q) n then length q else n in
      let (xs, ys, e, len) = split_at q cnt (ground arith) in
      let same : length q ≡ length (xs ++ ys) = ap length e in
      let (ring', s', e', f', cap) =
        reads pool ring r xs ys n s (rw e at f) (len ∙ ap (λ l. if ltb l n then l else n) same) in
      (xs, ys, ring', s', e, len, e', f', cap)

  -- In a valid buffer that is not full, where the block of the next message is missing and the pool
  -- has no memory, `msg_buff_write` answers `enErr_NoMemory` and leaves the ring as it is.
  pub msg_write_refused :
      {S : Type 0} (pool : Pool A S) (ring : Ring A) (r : ℕ) (q : List A) (msg : A) (s s' : S)
      → Fifo ring r q
      → length q < capacity ring
      → get_elem? ring.buffers (block_of ring (r + length q)) ≡ some none
      → pool.new_buff s ring.buffer_size ≡ (none, s')
      → msg_write pool ring msg s ≡ some (negsuc 0, ring, s')
  unfolding msg_write put ensure
  msg_write_refused pool ring r q msg s s' f room missing refused =
      let at = write_of ring r q f in
      let high : ring.write / 2 ^ 16 ≡ ((r + length q) / ring.buffer_size) % (2 * ring.pool_cnt) =
        ap (λ x. x.0) at in
      let place = double ring.pool_cnt ((r + length q) / ring.buffer_size) in
      let less : (length q == ring.pool_cnt * ring.buffer_size) ≡ false = ground arith in
      rw (full_lem ring r q f ∙ less, high, place, missing, refused) refl
