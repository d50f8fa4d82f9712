-- ===== src/RecvBuff/Read.antt =====
-- Messages are read from the stream as they were framed.
use randserver.Base.{
  ℕ, suc, ◌+◌, ◌-◌, ◌*◌, ◌^◌, ◌≤◌, ◌<◌, ◌≡◌, refl, sym, ap, ap₂, ◌∙◌, subst, some, arith, List, [],
  ◌++◌, append_assoc, length, length-append, take, take-append, ltb, ltb→lt, ltb→le, Bool-cases,
  true, false, inl, inr, ◌⊎◌,
}
use randserver.Base.Int.{pos}
use randserver.Base.Bytes.{from_le, from_le-le_bytes, le_bytes, length-le_bytes}
use randserver.Ring.{Pool, Ring, unpack, pack, advance, gc_help}
use randserver.Ring.Position.{read_pos, advance-read_pos}
use randserver.Ring.Content.{capacity, Held}
use randserver.Ring.Fifo.{Fifo, released, Held-behind, Held-front}
use randserver.Ring.Put.{area, read_of, write_of, consumed, release_lem}
use randserver.RecvBuff.{RecvBuff, gain_msg_size, read_body, message_read, recv_read}
use randserver.RecvBuff.Frame.{frame_size, gain_msg_size_lem}
use randserver.RecvBuff.Body.{read_body_lem}

-- A message in front of a stream, behind a length that counts itself.
pub frame_size_framed :
    (room en_byte : ℕ) (xs ys : List ℕ)
    → length xs + en_byte < 256 ^ en_byte
    → length xs + en_byte + length ys ≤ room
    → frame_size room en_byte (le_bytes en_byte (length xs + en_byte) ++ (xs ++ ys))
      ≡ pos (length xs + en_byte)
unfolding frame_size
frame_size_framed room en_byte xs ys small fits =
    let size = length xs + en_byte in
    let head = le_bytes en_byte size in
    let front : length head ≡ en_byte = length-le_bytes en_byte size in
    let len : length (head ++ (xs ++ ys)) ≡ size + length ys =
      omega (arith, length-append head (xs ++ ys), length-append xs ys) in
    let value : from_le (take en_byte (head ++ (xs ++ ys))) ≡ size =
      ap (λ k. from_le (take k (head ++ (xs ++ ys)))) (sym front)
      ∙ ap from_le (take-append head (xs ++ ys))
      ∙ from_le-le_bytes en_byte size small in
    let long : ltb (size + length ys) en_byte ≡ false = ground arith in
    let large : ltb size en_byte ≡ false = ground arith in
    let low : ltb room size ≡ false = ground arith in
    let whole : ltb (size + length ys) size ≡ false = ground arith in
    rw (value, len, long, large, low, whole) refl

module _ {S : Type 0} (pool : Pool ℕ S) where
  read_step :
      (rbuff : RecvBuff) (usize k cnt msg_size : ℕ) (start end : ℕ × ℕ) (xs : List ℕ)
      (ring' : Ring ℕ) (s s' : S)
      → gain_msg_size rbuff.ring rbuff.en_byte (unpack rbuff.ring.read) (unpack rbuff.ring.write)
        ≡ some (pos (suc k))
      → suc k - rbuff.en_byte ≡ msg_size
      → ltb usize msg_size ≡ false
      → advance rbuff.ring.pool_cnt rbuff.ring.buffer_size (unpack rbuff.ring.read) rbuff.en_byte
        ≡ start
      → read_body rbuff.ring msg_size start ≡ some (xs, end)
      → gc_help pool rbuff.ring end.0 (unpack rbuff.ring.write).0 s ≡ some (cnt, ring', s')
      → recv_read pool rbuff usize s
        ≡ some (pos msg_size, xs, record rbuff { ring = record ring' { read = pack end } }, s')
  unfolding recv_read message_read
  read_step rbuff usize k cnt msg_size start end xs ring' s s' got size room on body gc =
      let body' : read_body rbuff.ring msg_size (
            advance rbuff.ring.pool_cnt rbuff.ring.buffer_size (unpack rbuff.ring.read)
              rbuff.en_byte)
          ≡ some (xs, end) =
        ap (read_body rbuff.ring msg_size) on ∙ body in
      rw (got, size, room, body', gc) refl

  small_step :
      (rbuff : RecvBuff) (usize k msg_size : ℕ) (s : S)
      → gain_msg_size rbuff.ring rbuff.en_byte (unpack rbuff.ring.read) (unpack rbuff.ring.write)
        ≡ some (pos (suc k))
      → suc k - rbuff.en_byte ≡ msg_size
      → ltb usize msg_size ≡ true
      → recv_read pool rbuff usize s ≡ some (pos msg_size, [], rbuff, s)
  unfolding recv_read message_read
  small_step rbuff usize k msg_size s got size room = rw (got, size, room) refl

  -- In a valid buffer with at least one byte of length, a message that stands in front of the
  -- stream, behind a length that its size with the length fits into, is read by `recv_buff_read_vA`
  -- as it is, and the stream goes on behind it; where the caller's buffer is too small the answer is
  -- the size of the message and nothing changes.
  pub recv_read_lem :
      (rbuff : RecvBuff) (r usize : ℕ) (xs ys : List ℕ) (s : S)
      → 0 < rbuff.en_byte
      → length xs + rbuff.en_byte < 256 ^ rbuff.en_byte
      → Fifo rbuff.ring r (le_bytes rbuff.en_byte (length xs + rbuff.en_byte) ++ (xs ++ ys))
      → ((usize < length xs)
          × (recv_read pool rbuff usize s ≡ some (pos (length xs), [], rbuff, s)))
        ⊎ ((length xs ≤ usize)
            × ((ring' : Ring ℕ) × (s' : S) × (recv_read pool rbuff usize s
                  ≡ some (pos (length xs), xs, record rbuff { ring = ring' }, s'))
                × Fifo ring' (r + (rbuff.en_byte + length xs)) ys
                × (capacity ring' ≡ capacity rbuff.ring)))
  recv_read_lem rbuff r usize xs ys s some_head small f =
      let ring = rbuff.ring in
      let en = rbuff.en_byte in
      let v = f.filled.shape in
      let n = ring.pool_cnt in
      let bs = ring.buffer_size in
      let size = length xs + en in
      let head = le_bytes en size in
      let q = head ++ (xs ++ ys) in
      let front : length head ≡ en = length-le_bytes en size in
      let len : length q ≡ size + length ys =
        omega (arith, length-append head (xs ++ ys), length-append xs ys) in
      let fits : size + length ys ≤ n * bs = omega (arith, f.filled.room) in
      let one : size ≡ suc (size - 1) = omega arith in
      let got : gain_msg_size ring en (unpack ring.read) (unpack ring.write)
          ≡ some (pos (suc (size - 1))) =
        ap₂ (gain_msg_size ring en) (read_of ring r q f) (write_of ring r q f)
        ∙ gain_msg_size_lem ring en r q v f.filled.held f.filled.room
        ∙ ap some (frame_size_framed (n * bs) en xs ys small fits ∙ ap pos one) in
      let left : suc (size - 1) - en ≡ length xs = omega arith in
      elim (Bool-cases (ltb usize (length xs))) [
        | inl less ↦
            inl (ltb→lt _ _ less, small_step rbuff usize (size - 1) (length xs) s got left less)
        | inr enough ↦
            let behind : Held ring (r + en) (xs ++ ys) =
              subst (λ k. Held ring (r + k) (xs ++ ys)) front
                (Held-behind ring r head (xs ++ ys) f.filled.held) in
            let body =
              read_body_lem ring (r + en) xs v (Held-front ring (r + en) xs ys behind)
                (omega arith) in
            let on : advance n bs (unpack ring.read) en ≡ read_pos n bs (r + en) =
              ap (λ p. advance n bs p en) (read_of ring r q f)
              ∙ advance-read_pos n bs v.some_blocks v.some_cells v.few_blocks v.few_cells r en
                  (omega (arith, area ring v)) in
            let all : r + length (head ++ xs) ≡ r + en + length xs =
              omega (arith, length-append head xs) in
            let step : r + length (head ++ xs) ≡ r + (en + length xs) =
              omega (arith, length-append head xs) in
            let (cnt, zs, s', e, f') =
              release_lem pool ring r (head ++ xs) ys s
                (subst (Fifo ring r) (sym (append_assoc head xs ys)) f) in
            inr (
              ltb→le _ _ enough,
              (
                consumed ring zs (r + length (head ++ xs)),
                s',
                read_step rbuff usize (size - 1) cnt (length xs) (read_pos n bs (r + en))
                    (read_pos n bs (r + length (head ++ xs))) xs
                    (released ring zs (r + length (head ++ xs))) s s' got left enough on
                    (body ∙ ap (λ k. some (xs, read_pos n bs k)) (sym all)) e,
                subst (λ k. Fifo (consumed ring zs (r + length (head ++ xs))) k ys) step f',
                refl,
              ),
            )
      ]
