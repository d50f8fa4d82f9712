-- ===== src/RecvBuff/Arrive.antt =====
-- Bytes arrive, and the messages that they complete are counted.
use randserver.Base.{
  ℕ, zero, suc, ◌+◌, ◌-◌, ◌*◌, ◌^◌, ◌≤◌, ◌<◌, ◌≡◌, refl, sym, ap, ap₂, ◌∙◌, subst, u32, some, arith,
  List, [], ◌∷◌, ◌++◌, append_assoc, length, length-append, le→leb, leb, ◌==◌, true, false,
}
use randserver.Base.Int.{ℤ, pos}
use randserver.Base.Bytes.{le_bytes, length-le_bytes}
use randserver.Ring.{Ring, unpack, pack, advance}
use randserver.Ring.Position.{
  write_pos, read_pos, advance-read_pos, unpack-read_pos, unpack-write_pos, advance-write_pos,
}
use randserver.Ring.Content.{Shape, capacity, Held}
use randserver.Ring.Fifo.{Filled, Fifo, Held-behind}
use randserver.Ring.Put.{Filled-write, area}
use randserver.RecvBuff.{RecvBuff, gain_msg_size, checked, check_loop, check_new_msg, recv_consume}
use randserver.RecvBuff.Frame.{frame_size, gain_msg_size_lem}
use randserver.RecvBuff.Read.{frame_size_framed}

-- Messages in a row, each behind its length.
abbrev pub framed : ℕ → List (List ℕ) → List ℕ
framed en_byte [] = []
framed en_byte (msg ∷ msgs) =
    le_bytes en_byte (length msg + en_byte) ++ (msg ++ framed en_byte msgs)

-- The sizes of the messages fit into their lengths.
abbrev pub AllFit : ℕ → List (List ℕ) → Type 0
AllFit en_byte [] = Unit
AllFit en_byte (msg ∷ msgs) = (length msg + en_byte < 256 ^ en_byte) × AllFit en_byte msgs

length-framed :
    (en_byte : ℕ) (msg : List ℕ) (msgs : List (List ℕ))
    → length (framed en_byte (msg ∷ msgs)) ≡ length msg + en_byte + length (framed en_byte msgs)
length-framed en_byte msg msgs =
    let head = le_bytes en_byte (length msg + en_byte) in
    omega (
      arith,
      length-append head (msg ++ framed en_byte msgs),
      length-append msg (framed en_byte msgs),
      length-le_bytes en_byte (length msg + en_byte),
    )

-- A frame has at least a byte.
pub few_frames :
    (en_byte : ℕ) (msgs : List (List ℕ)) → 0 < en_byte → length msgs ≤ length (framed en_byte msgs)
few_frames en_byte [] h = omega arith
few_frames en_byte (msg ∷ msgs) h =
    omega (arith, few_frames en_byte msgs h, length-framed en_byte msg msgs)

loop_step :
    (fuel en_byte check check' count k : ℕ) (ring : Ring ℕ) (w : ℕ × ℕ)
    → gain_msg_size ring en_byte (unpack check) w ≡ some (pos (suc k))
    → pack (advance ring.pool_cnt ring.buffer_size (unpack check) (suc k)) ≡ check'
    → check_loop (suc fuel) ring en_byte w check count
      ≡ check_loop fuel ring en_byte w check' (count + 1)
unfolding check_loop checked
loop_step fuel en_byte check check' count k ring w got on = rw (got, ← on) refl

loop_end :
    (fuel en_byte check count : ℕ) (ring : Ring ℕ) (w : ℕ × ℕ)
    → gain_msg_size ring en_byte (unpack check) w ≡ some (pos 0)
    → check_loop (suc fuel) ring en_byte w check count ≡ some (pos count, check)
unfolding check_loop checked
loop_end fuel en_byte check count ring w got = rw got refl

module _ (ring : Ring ℕ) (v : Shape ring) where
  -- The size at a position, packed as the code keeps it.
  gain_at :
      (en_byte c : ℕ) (q : List ℕ) (w : ℕ × ℕ)
      → Held ring c q
      → length q ≤ capacity ring
      → w ≡ write_pos ring.pool_cnt ring.buffer_size (c + length q)
      → gain_msg_size ring en_byte (unpack (pack (read_pos ring.pool_cnt ring.buffer_size c))) w
        ≡ some (frame_size (capacity ring) en_byte q)
  gain_at en_byte c q w held room end =
      ap₂ (gain_msg_size ring en_byte)
        (unpack-read_pos ring.pool_cnt ring.buffer_size v.some_blocks v.some_cells v.few_blocks
          v.few_cells c)
        end
      ∙ gain_msg_size_lem ring en_byte c q v held room

  check_loop_lem :
      (fuel en_byte c count : ℕ) (msgs : List (List ℕ)) (rest : List ℕ) (w : ℕ × ℕ)
      → 0 < en_byte
      → AllFit en_byte msgs
      → frame_size (capacity ring) en_byte rest ≡ pos 0
      → length msgs < fuel
      → Held ring c (framed en_byte msgs ++ rest)
      → length (framed en_byte msgs ++ rest) ≤ capacity ring
      → w ≡ write_pos ring.pool_cnt ring.buffer_size (c + length (framed en_byte msgs ++ rest))
      → check_loop fuel ring en_byte w (pack (read_pos ring.pool_cnt ring.buffer_size c)) count
        ≡ some (
          pos (count + length msgs),
          pack (read_pos ring.pool_cnt ring.buffer_size (c + length (framed en_byte msgs))),
        )
  check_loop_lem zero en_byte c count msgs rest w h fit partial few held room end =
      absurd (omega arith)
  check_loop_lem (suc fuel) en_byte c count [] rest w h fit partial few held room end =
      loop_end fuel en_byte _ count ring w
        (gain_at en_byte c rest w held room end ∙ ap some partial)
      ∙ ap₂ (λ k p. some (pos k, pack (read_pos ring.pool_cnt ring.buffer_size p))) (omega arith)
          (omega arith)
  check_loop_lem (suc fuel) en_byte c count (msg ∷ msgs) rest w h (small, fit) partial few held room
        end =
      let n = ring.pool_cnt in
      let bs = ring.buffer_size in
      let size = length msg + en_byte in
      let head = le_bytes en_byte size in
      let more = framed en_byte msgs in
      let list : head ++ (msg ++ more) ++ rest ≡ head ++ (msg ++ (more ++ rest)) =
        append_assoc head (msg ++ more) rest ∙ ap (λ z. head ++ z) (append_assoc msg more rest) in
      let list' : head ++ (msg ++ (more ++ rest)) ≡ (head ++ msg) ++ (more ++ rest) =
        sym (append_assoc head msg (more ++ rest)) in
      let front : length (head ++ msg) ≡ size =
        omega (arith, length-append head msg, length-le_bytes en_byte size) in
      let len : length (head ++ (msg ++ (more ++ rest))) ≡ size + length (more ++ rest) =
        ap length list'
        ∙ length-append (head ++ msg) (more ++ rest)
        ∙ ap (λ k. k + length (more ++ rest)) front in
      let whole : length (head ++ (msg ++ more) ++ rest) ≡ size + length (more ++ rest) =
        ap length list ∙ len in
      let here = subst (Held ring c) list held in
      let next : Held ring (c + size) (more ++ rest) =
        subst (λ k. Held ring (c + k) (more ++ rest)) front
          (Held-behind ring c (head ++ msg) (more ++ rest) (subst (Held ring c) list' here)) in
      let one : size ≡ suc (size - 1) = omega arith in
      let got =
        gain_at en_byte c (head ++ (msg ++ (more ++ rest))) w here (omega (arith, whole, len))
          (end ∙ ap (λ l. write_pos n bs (c + length l)) list)
        ∙ ap some (
            frame_size_framed (n * bs) en_byte msg (more ++ rest) small (omega (arith, whole))
            ∙ ap pos one) in
      let on : pack (advance n bs (unpack (pack (read_pos n bs c))) (suc (size - 1)))
          ≡ pack (read_pos n bs (c + size)) =
        ap₂ (λ p k. pack (advance n bs p k))
          (unpack-read_pos n bs v.some_blocks v.some_cells v.few_blocks v.few_cells c) (sym one)
        ∙ ap pack (
            advance-read_pos n bs v.some_blocks v.some_cells v.few_blocks v.few_cells c size
              (omega (arith, area ring v, whole))) in
      let end' : w ≡ write_pos n bs (c + size + length (more ++ rest)) =
        end ∙ ap (write_pos n bs) (omega (arith, whole)) in
      let all : c + size + length more ≡ c + length (framed en_byte (msg ∷ msgs)) =
        omega (arith, length-framed en_byte msg msgs) in
      loop_step fuel en_byte _ _ count (size - 1) ring w got on
      ∙ check_loop_lem fuel en_byte (c + size) (count + 1) msgs rest w h fit partial (omega arith)
          next (omega (arith, whole)) end'
      ∙ ap₂ (λ k p. some (pos k, pack (read_pos n bs p))) (omega arith) all

consume_step :
    (rbuff : RecvBuff) (usize check : ℕ) (ret : ℤ) (w : ℕ × ℕ)
    → leb usize (rbuff.ring.buffer_size * rbuff.ring.pool_cnt) ≡ true
    → (usize == 0) ≡ false
    → advance rbuff.ring.pool_cnt rbuff.ring.buffer_size (unpack rbuff.ring.write) (u32 usize) ≡ w
    → check_new_msg rbuff (unpack (pack w)) ≡ some (ret, check)
    → recv_consume rbuff usize
      ≡ some (ret, record rbuff { ring = record rbuff.ring { write = pack w }; check = check })
unfolding recv_consume
consume_step rbuff usize check ret w few some_bytes on e =
    subst
      (λ w.
        check_new_msg rbuff (unpack (pack w)) ≡ some (ret, check)
        → recv_consume rbuff usize
          ≡ some (ret, record rbuff { ring = record rbuff.ring { write = pack w }; check = check }))
      on (λ e'. rw (few, some_bytes, e') refl) e

-- In a valid ring with at least one byte of length let there be, behind the bytes `done` that were
-- counted before, the messages `msgs`, whose sizes fit into their lengths, and a part of a message;
-- at least one of these bytes has just arrived, and the field `check` stands behind `done`. Then
-- `recv_buff_consume_vA` answers the number of `msgs`, the arrived bytes belong to the stream, and
-- `check` stands behind `msgs`.
pub recv_consume_lem :
    (rbuff : RecvBuff) (r usize : ℕ) (done : List ℕ) (msgs : List (List ℕ)) (rest : List ℕ)
    → 0 < rbuff.en_byte
    → AllFit rbuff.en_byte msgs
    → frame_size (capacity rbuff.ring) rbuff.en_byte rest ≡ pos 0
    → 0 < usize
    → usize ≤ length (done ++ (framed rbuff.en_byte msgs ++ rest))
    → Filled rbuff.ring r (done ++ (framed rbuff.en_byte msgs ++ rest))
    → rbuff.ring.write
      ≡ pack (
          write_pos rbuff.ring.pool_cnt rbuff.ring.buffer_size
            (r + (length (done ++ (framed rbuff.en_byte msgs ++ rest)) - usize)))
    → rbuff.check ≡ pack (read_pos rbuff.ring.pool_cnt rbuff.ring.buffer_size (r + length done))
    → (rbuff' : RecvBuff) × (recv_consume rbuff usize ≡ some (pos (length msgs), rbuff'))
      × Fifo rbuff'.ring r (done ++ (framed rbuff.en_byte msgs ++ rest))
      × (rbuff'.check
          ≡ pack (
              read_pos rbuff.ring.pool_cnt rbuff.ring.buffer_size
                (r + length done + length (framed rbuff.en_byte msgs))))
unfolding check_new_msg
recv_consume_lem rbuff r usize done msgs rest h fit partial some_bytes few f at seen =
    let ring = rbuff.ring in
    let en = rbuff.en_byte in
    let v = f.shape in
    let n = ring.pool_cnt in
    let bs = ring.buffer_size in
    let tail = framed en msgs ++ rest in
    let small = area ring v in
    let all = length-append done tail in
    let two = length-append (framed en msgs) rest in
    let w = write_pos n bs (r + length (done ++ tail)) in
    let exact : u32 usize ≡ usize = omega (arith, f.room) in
    let none_before : 0 + length msgs ≡ length msgs = omega arith in
    let sum : r + (length (done ++ tail) - usize) + usize ≡ r + length (done ++ tail) =
      omega arith in
    let on : advance n bs (unpack ring.write) (u32 usize) ≡ w =
      ap₂ (advance n bs)
        (ap unpack at ∙ unpack-write_pos n bs v.some_blocks v.some_cells v.few_blocks v.few_cells _)
        exact
      ∙ advance-write_pos n bs v.some_blocks v.some_cells v.few_blocks v.few_cells
          (r + (length (done ++ tail) - usize)) usize (omega (arith, f.room))
      ∙ ap (write_pos n bs) sum in
    let end : unpack (pack w) ≡ write_pos n bs (r + length done + length tail) =
      unpack-write_pos n bs v.some_blocks v.some_cells v.few_blocks v.few_cells _
      ∙ ap (write_pos n bs) (omega (arith, all)) in
    let counted : check_new_msg rbuff (unpack (pack w))
        ≡ some
            (pos (length msgs), pack (read_pos n bs (r + length done + length (framed en msgs)))) =
      ap (λ c. check_loop (n * bs + 1) ring en (unpack (pack w)) c 0) seen
      ∙ check_loop_lem ring v (n * bs + 1) en (r + length done) 0 msgs rest (unpack (pack w)) h fit
          partial (omega (arith, few_frames en msgs h, f.room, all, two))
          (Held-behind ring r done tail f.held) (omega (arith, f.room, all)) end
      ∙ ap (λ k. some (pos k, pack (read_pos n bs (r + length done + length (framed en msgs)))))
          none_before in
    (
      record rbuff {
        ring = record ring { write = pack w };
        check = pack (read_pos n bs (r + length done + length (framed en msgs)));
      },
      consume_step rbuff usize _ _ w (le→leb _ _ (omega (arith, f.room))) (ground arith) on counted,
      record { filled = Filled-write ring r (pack w) (done ++ tail) f; write_at_w = refl },
      refl,
    )
