-- ===== src/RecvBuff/Frame.antt =====
-- The size of a message from the bytes in front of it.
use randserver.Base.{
  ℕ, zero, suc, ◌+◌, ◌-◌, ◌*◌, ◌/◌, ◌%◌, ◌^◌, ◌≤◌, ◌<◌, ◌≡◌, refl, sym, ap, ap₂, ◌∙◌, subst, u32,
  some, arith, List, [], ◌∷◌, length, take, take-append, split_at, ltb, if◌then◌else◌, Bool-cases,
  true, false, inl, inr,
}
use randserver.Base.Int.{ℤ, pos, negsuc}
use randserver.Base.Bytes.{from_le}
use native.Mathlib.Nat.{mod-lt, mod-add-mod, pow-suc}
use randserver.Ring.{Ring, get_space, copy_out}
use randserver.Ring.Position.{write_pos, read_pos, round, get_space_lem, div_add, mod_add}
use randserver.Ring.Content.{Shape, capacity, Held}
use randserver.Ring.Fifo.{Held-behind, Held-front, copy_out_lem}
use randserver.Ring.Put.{area}
use randserver.RecvBuff.{gain_bytes, int_of, gain_msg_size}

two_pow : (k : ℕ) → 2 ^ (k + 8) ≡ 256 * 2 ^ k
two_pow k =
    let more : k + 8 ≡ suc (suc (suc (suc (suc (suc (suc (suc k))))))) = omega arith in
    let one = pow-suc 2 k in
    let two = pow-suc 2 (suc k) in
    let three = pow-suc 2 (suc (suc k)) in
    let four = pow-suc 2 (suc (suc (suc k))) in
    let five = pow-suc 2 (suc (suc (suc (suc k)))) in
    let six = pow-suc 2 (suc (suc (suc (suc (suc k))))) in
    let seven = pow-suc 2 (suc (suc (suc (suc (suc (suc k)))))) in
    let eight = pow-suc 2 (suc (suc (suc (suc (suc (suc (suc k))))))) in
    ap (λ j. 2 ^ j) more ∙ omega arith

shift_in : (x v a b c : ℕ) → a ≡ b → c ≡ b * 256 → x * a + c * v ≡ b * (x + 256 * v)
shift_in x v a b c e e' = ap (λ k. x * k + c * v) e ∙ ap (λ k. x * b + k * v) e' ∙ omega arith

byte_shift : (i : ℕ) → 2 ^ (i * 8) ≡ 256 ^ i
byte_shift zero = refl
byte_shift (suc i) =
    let more : suc i * 8 ≡ i * 8 + 8 = omega arith in
    ap (λ k. 2 ^ k) more ∙ two_pow (i * 8) ∙ omega (arith, byte_shift i, pow-suc 256 i)

-- A byte further on in the ring, from a reader's position.
byte_place :
    (n bs p i : ℕ)
    → 0 < n
    → 0 < bs
    → (((p / bs + n) % (2 * n) + (p % bs + i) / bs) % n ≡ (p + i) / bs % n)
      × ((p % bs + i) % bs ≡ (p + i) % bs)
byte_place n bs p i npos bpos =
    let k = (p % bs + i) / bs in
    let x = (p / bs + n) % (2 * n) in
    let sum : p / bs + k ≡ (p + i) / bs = div_add n bs npos bpos p i in
    (
      sym (mod-add-mod x n k)
          ∙ ap (λ z. (z + k) % n) (round n (p / bs))
          ∙ mod-add-mod (p / bs) n k
          ∙ ap (λ z. z % n) sum,
      mod_add n bs npos bpos p i,
    )

bytes_step :
    (rounds i : ℕ) (ring : Ring ℕ) (p : ℕ × ℕ) (b v at l : ℕ)
    → (p.0 + (p.1 + i) / ring.buffer_size) % ring.pool_cnt ≡ at
    → (p.1 + i) % ring.buffer_size ≡ l
    → copy_out ring at l 1 ≡ some (b ∷ [])
    → gain_bytes rounds (i + 1) ring p ≡ some v
    → gain_bytes (suc rounds) i ring p ≡ some (b * 2 ^ (i * 8) + v)
unfolding gain_bytes
bytes_step rounds i ring p b v at l place off e more = rw (place, off, e, more) refl

gain_bytes_lem :
    (i : ℕ) (ring : Ring ℕ) (p : ℕ) (xs : List ℕ)
    → Shape ring
    → Held ring (p + i) xs
    → gain_bytes (length xs) i ring (read_pos ring.pool_cnt ring.buffer_size p)
      ≡ some (256 ^ i * from_le xs)
unfolding gain_bytes from_le
gain_bytes_lem i ring p [] v h = ap some (omega arith)
gain_bytes_lem i ring p (x ∷ xs) v h =
    let n = ring.pool_cnt in
    let bs = ring.buffer_size in
    let (place, off) = byte_place n bs p i v.some_blocks v.some_cells in
    let one_more : i + 1 ≡ suc i = omega arith in
    let here =
      copy_out_lem ring (p + i) (x ∷ []) v (Held-front ring (p + i) (x ∷ []) xs h)
        (omega (arith, mod-lt (p + i) v.some_cells)) in
    let next : p + i + 1 ≡ p + (i + 1) = omega arith in
    let more =
      gain_bytes_lem (i + 1) ring p xs v
        (subst (λ k. Held ring k xs) next (Held-behind ring (p + i) (x ∷ []) xs h)) in
    bytes_step (length xs) i ring (read_pos n bs p) x (256 ^ (i + 1) * from_le xs)
      ((p + i) / bs % n) ((p + i) % bs) place off here more
    ∙ ap some (
        shift_in x (from_le xs) (2 ^ (i * 8)) (256 ^ i) (256 ^ (i + 1)) (byte_shift i)
          (ap (λ k. 256 ^ k) one_more ∙ pow-suc 256 i))

-- The size of the message that a stream of bytes begins with, in a ring of `room` bytes: 0 if it is not
-- there in full.
unfoldable pub frame_size : ℕ → ℕ → List ℕ → ℤ
frame_size room en_byte q =
    let msg_size = from_le (take en_byte q) in
    if ltb (length q) en_byte
    then pos 0
    else if ltb msg_size en_byte
    then negsuc 1
    else if ltb room msg_size
    then negsuc 2
    else if ltb (length q) msg_size
    then pos 0
    else pos msg_size

verdict :
    (space size en_byte msg_size : ℕ)
    → space < 2 ^ 31
    → (if ltb msg_size en_byte
        then negsuc 1
        else if ltb space msg_size
        then negsuc 2
        else if ltb size msg_size
        then pos 0
        else int_of msg_size)
      ≡ (if ltb msg_size en_byte
          then negsuc 1
          else if ltb space msg_size
          then negsuc 2
          else if ltb size msg_size
          then pos 0
          else pos msg_size)
verdict space size en_byte msg_size h = elim (Bool-cases (ltb space msg_size)) [
  | inl big ↦ rw big refl
  | inr fits ↦ let short : ltb msg_size (2 ^ 31) ≡ true = ground arith in rw (fits, short) refl
]

gain_none :
    (ring : Ring ℕ) (en_byte : ℕ) (r w : ℕ × ℕ) (space area size : ℕ)
    → get_space ring.pool_cnt ring.buffer_size r w ≡ some space
    → u32 (ring.pool_cnt * ring.buffer_size) ≡ area
    → u32 (area + 2 ^ 32 - space) ≡ size
    → ltb size en_byte ≡ true
    → gain_msg_size ring en_byte r w ≡ some (pos 0)
unfolding gain_msg_size
gain_none ring en_byte r w space area size e whole left short = rw (e, whole, left, short) refl

gain_some :
    (ring : Ring ℕ) (en_byte : ℕ) (r w : ℕ × ℕ) (space area size msg_size : ℕ)
    → get_space ring.pool_cnt ring.buffer_size r w ≡ some space
    → u32 (ring.pool_cnt * ring.buffer_size) ≡ area
    → u32 (area + 2 ^ 32 - space) ≡ size
    → ltb size en_byte ≡ false
    → gain_bytes en_byte 0 ring r ≡ some msg_size
    → gain_msg_size ring en_byte r w
      ≡ some (
          if ltb msg_size en_byte
          then negsuc 1
          else if ltb area msg_size
          then negsuc 2
          else if ltb size msg_size
          then pos 0
          else int_of msg_size)
unfolding gain_msg_size
gain_some ring en_byte r w space area size msg_size e whole left long got =
    rw (e, whole, left, long, got) refl

-- At a position of a valid ring behind which the bytes `q` are held, `buff_gain_msg_size` is the
-- size that these bytes begin with, as `frame_size` reads it from the list: 0 for a message that is
-- not there in full, an error for a size below that of the length or above that of the ring, and
-- the size otherwise.
pub gain_msg_size_lem :
    (ring : Ring ℕ) (en_byte p : ℕ) (q : List ℕ)
    → Shape ring
    → Held ring p q
    → length q ≤ capacity ring
    → gain_msg_size ring en_byte
        (read_pos ring.pool_cnt ring.buffer_size p)
        (write_pos ring.pool_cnt ring.buffer_size (p + length q))
      ≡ some (frame_size (capacity ring) en_byte q)
unfolding frame_size
gain_msg_size_lem ring en_byte p q v h room =
    let n = ring.pool_cnt in
    let bs = ring.buffer_size in
    let small = area ring v in
    let space =
      get_space_lem n bs v.some_blocks v.some_cells v.few_blocks v.few_cells p (p + length q)
        (omega arith) (omega arith) (omega arith) in
    let whole : u32 (n * bs) ≡ n * bs = omega arith in
    let left : u32 (n * bs + 2 ^ 32 - (p + n * bs - (p + length q))) ≡ length q = omega arith in
    elim (Bool-cases (ltb (length q) en_byte)) [
      | inl short ↦
          gain_none ring en_byte (read_pos n bs p) (write_pos n bs (p + length q)) _ (n * bs)
            (length q) space whole left short
          ∙ rw short refl
      | inr long ↦
          let (a, c, e, len) = split_at q en_byte (ground arith) in
          let value : 256 ^ 0 * from_le a ≡ from_le (take en_byte q) =
            omega arith ∙ ap from_le (sym (take-append a c) ∙ ap₂ take len (sym e)) in
          let start : p ≡ p + 0 = omega arith in
          let got : gain_bytes en_byte 0 ring (read_pos n bs p) ≡ some (from_le (take en_byte q)) =
            ap (λ k. gain_bytes k 0 ring (read_pos n bs p)) (sym len)
            ∙ gain_bytes_lem 0 ring p a v
                (subst (λ k. Held ring k a) start (Held-front ring p a c (subst (Held ring p) e h)))
            ∙ ap some value in
          gain_some ring en_byte (read_pos n bs p) (write_pos n bs (p + length q)) _ (n * bs)
            (length q) _ space whole left long got
          ∙ ap some (verdict (n * bs) (length q) en_byte (from_le (take en_byte q)) small)
          ∙ rw long refl
    ]
