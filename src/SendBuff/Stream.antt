-- ===== src/SendBuff/Stream.antt =====
-- `struct send_buff` is a queue of bytes: messages go in with their lengths in front.
use randserver.Base.{
  ℕ, zero, suc, ◌+◌, ◌-◌, ◌*◌, ◌/◌, ◌^◌, ◌≤◌, ◌<◌, ◌≡◌, refl, sym, ap, ◌∙◌, subst, u32, some, arith,
  List, ◌++◌, length, length-append, ltb, leb, lt→ltb, ltb→lt, Bool-cases, true, false, inl, inr,
  ◌⊎◌,
}
use randserver.Base.Int.{pos}
use randserver.Base.Bytes.{le_bytes, length-le_bytes}
use native.Mathlib.Nat.{div-div-eq-div-mul, pow-suc, one-le-pow, le-div_iff_mul-le}
use randserver.Ring.{Pool, Ring, unpack, pack, get_space}
use randserver.Ring.Position.{write_pos}
use randserver.Ring.Content.{capacity, with}
use randserver.Ring.Blocks.{Serves}
use randserver.Ring.Fifo.{Fifo}
use randserver.Ring.Put.{Filled-write, write_of, space_of}
use randserver.SendBuff.{
  SendBuff, shifted, Progress, write_length, write_body, finished, send_write,
}
use randserver.SendBuff.Header.{write_length_lem}
use randserver.SendBuff.Body.{write_body_lem}

shifted_lem : (i u : ℕ) → shifted i u ≡ u / 256 ^ i
unfolding shifted
shifted_lem zero u = omega arith
shifted_lem (suc i) u =
    shifted_lem i (u / 256)
    ∙ div-div-eq-div-mul u 256 (256 ^ i)
    ∙ ap (λ d. u / d) (omega (arith, pow-suc 256 i))

-- A message is too long where its size does not fit into the bytes of the length.
too_long : (i u : ℕ) → ltb 0 (shifted i u) ≡ leb (256 ^ i) u
too_long i u =
    let same = shifted_lem i u in
    let some_size : 0 < 256 ^ i = one-le-pow i 256 (omega arith) in
    let lower = le-div_iff_mul-le {k = 256 ^ i} {x = 1} {y = u} some_size in
    elim (Bool-cases (leb (256 ^ i) u)) [
      | inl long ↦ lt→ltb _ _ (omega (arith, same, lower.1 (ground arith))) ∙ sym long
      | inr short ↦ elim (Bool-cases (ltb 0 (shifted i u))) [
        | inr none_left ↦ none_left ∙ sym short
        | inl left ↦ absurd (ground (arith, lower.0 (omega (arith, same, ltb→lt _ _ left))))
      ]
    ]

module _ {S : Type 0} (pool : Pool ℕ S) where
  write_step :
      (sbuff : SendBuff) (xs : List ℕ) (space msg : ℕ) (s : S) (pr pr' : Progress pool)
      → ltb 0 (shifted sbuff.en_byte (length xs)) ≡ false
      → get_space sbuff.ring.pool_cnt sbuff.ring.buffer_size
          (unpack sbuff.ring.read)
          (unpack sbuff.ring.write)
        ≡ some space
      → u32 (length xs + sbuff.en_byte) ≡ msg
      → ltb space msg ≡ false
      → write_length pool sbuff.en_byte 0 msg sbuff.ring (unpack sbuff.ring.write) s ≡ some pr
      → write_body pool sbuff.ring.buffer_size xs (length xs) pr ≡ some pr'
      → send_write pool sbuff xs (pos (length xs)) s ≡ some (finished pool sbuff (length xs) pr')
  unfolding send_write
  write_step sbuff xs space msg s pr pr' short got size room e e' =
      rw (short, got, size, room, e, e') refl

  no_room :
      (sbuff : SendBuff) (xs : List ℕ) (space : ℕ) (s : S)
      → ltb 0 (shifted sbuff.en_byte (length xs)) ≡ false
      → get_space sbuff.ring.pool_cnt sbuff.ring.buffer_size
          (unpack sbuff.ring.read)
          (unpack sbuff.ring.write)
        ≡ some space
      → ltb space (u32 (length xs + sbuff.en_byte)) ≡ true
      → send_write pool sbuff xs (pos (length xs)) s ≡ some (pos 0, sbuff, s)
  unfolding send_write
  no_room sbuff xs space s short got room = rw (short, got, room) refl

  -- In a valid buffer with at most four bytes of length and with a pool that has memory, a message
  -- of fewer than 2 ^ 31 bytes whose size is too large for the bytes of the length, or that finds
  -- too little room, is refused with the answer 0 and no change; any other such message is answered
  -- with its size, and stands at the end of the stream behind its length, which counts the length
  -- itself and is cut to its bytes.
  pub send_write_lem :
      (sbuff : SendBuff) (r : ℕ) (q xs : List ℕ) (s : S)
      → Serves pool
      → Fifo sbuff.ring r q
      → sbuff.en_byte ≤ 4
      → length xs < 2 ^ 31
      → (((256 ^ sbuff.en_byte ≤ length xs)
            ⊎ (capacity sbuff.ring < length q + (length xs + sbuff.en_byte)))
          × (send_write pool sbuff xs (pos (length xs)) s ≡ some (pos 0, sbuff, s)))
        ⊎ ((length xs < 256 ^ sbuff.en_byte)
            × (length q + (length xs + sbuff.en_byte) ≤ capacity sbuff.ring)
            × ((ring' : Ring ℕ) × (s' : S) × (send_write pool sbuff xs (pos (length xs)) s
                  ≡ some (pos (length xs), record sbuff { ring = ring' }, s'))
                × Fifo ring' r (q ++ le_bytes sbuff.en_byte (length xs + sbuff.en_byte) ++ xs)
                × (capacity ring' ≡ capacity sbuff.ring)))
  unfolding send_write
  send_write_lem sbuff r q xs s serves f few small =
      let ring = sbuff.ring in
      let en = sbuff.en_byte in
      let v = f.filled.shape in
      let n = ring.pool_cnt in
      let bs = ring.buffer_size in
      let size = length xs + en in
      let exact : u32 size ≡ size = omega arith in
      let space = space_of ring r q f in
      let long = too_long en (length xs) in
      elim (Bool-cases (leb (256 ^ en) (length xs))) [
        | inl over ↦ inl (inl (ground arith), rw (long, over) refl)
        | inr fits ↦ elim (Bool-cases (ltb (n * bs - length q) size)) [
          | inl full ↦ inl (
            inr (ground (arith, f.filled.room)),
            no_room sbuff xs (n * bs - length q) s (long ∙ fits) space
                (ap (ltb (n * bs - length q)) exact ∙ full),
          )
          | inr room ↦
              let enough : length q + size ≤ n * bs = ground (arith, f.filled.room) in
              let (ys, s1, e1, f1) =
                write_length_lem pool en 0 size ring r q s serves f.filled (omega arith)
                  (omega arith) (omega arith) in
              let head = le_bytes en (size / 256 ^ 0) in
              let len : length (q ++ head) ≡ length q + en =
                omega (arith, length-append q head, length-le_bytes en (size / 256 ^ 0)) in
              let at : r + length q + en ≡ r + length (q ++ head) = omega (arith, len) in
              let (zs, s2, e2, f2) =
                write_body_lem pool (with ring ys) r (q ++ head) xs s1 serves f1
                  (omega (arith, len)) in
              let end = write_pos n bs (r + length (q ++ head) + length xs) in
              let all : r + length (q ++ head) + length xs ≡ r + length (q ++ head ++ xs) =
                omega (arith, length-append (q ++ head) xs) in
              let same : size / 256 ^ 0 ≡ size = omega arith in
              inr (
                ground arith,
                enough,
                (
                  record (with ring zs) { write = pack end },
                  s2,
                  write_step sbuff xs (n * bs - length q) size s
                      (some (write_pos n bs (r + length (q ++ head))), with ring ys, s1)
                      (some end, with ring zs, s2) (long ∙ fits) space exact room
                      (ap (λ p. write_length pool en 0 size ring p s) (write_of ring r q f)
                        ∙ e1
                        ∙ ap (λ x. some (some (write_pos n bs x), with ring ys, s1)) at)
                      e2,
                  subst
                      (λ x.
                        Fifo (record (with ring zs) { write = pack end }) r
                          (q ++ le_bytes en x ++ xs))
                      same
                      (record {
                        filled = Filled-write (with ring zs) r (pack end) (q ++ head ++ xs) f2;
                        write_at_w = ap (λ x. pack (write_pos n bs x)) all;
                      }),
                  refl,
                ),
              )
        ]
      ]
