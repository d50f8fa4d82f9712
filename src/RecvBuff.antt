-- ===== src/RecvBuff.antt =====
-- engine/net/buff.c, `struct recv_buff` in its version A: a stream of bytes from a socket that is cut into
-- messages by the length in front of each. One thread fills it and another reads; here a call runs alone,
-- so that the lock `prep_flag` is left out.
pub mod Frame
pub mod Body
pub mod Read
pub mod Arrive
mod Tests
use randserver.Base.{
  ℕ, zero, suc, ◌+◌, ◌-◌, ◌*◌, ◌/◌, ◌%◌, ◌^◌, Bool, true, false, Option, none, some, List, [], ◌∷◌,
  ◌++◌, get_elem?, ltb, leb, ◌==◌, if◌then◌else◌, ◌>>=◌, u16, u32,
}
use randserver.Base.Int.{ℤ, pos, negsuc}
use randserver.Ring.{
  Block, Pool, Ring, unpack, pack, advance, get_space, new_ring, ensure, copy_out, gc_help,
}

-- `struct recv_buff`
pub record RecvBuff : Type 0 where
  pub ring : Ring ℕ
  pub en_byte : ℕ
  pub check : ℕ

-- `recv_buff_create_vA` for a pool of buffers of `buffer_size` bytes, with the memory that it asks for.
pub recv_create : ℕ → ℕ → ℕ → Option RecvBuff
recv_create en_byte pool_cnt buffer_size = new_ring (u16 buffer_size) pool_cnt >>= λ ring.
    some (record { ring = ring; en_byte = en_byte; check = u32 (pool_cnt * 2 ^ 16) })

-- `recv_buff_is_full_vA`
pub recv_is_full : RecvBuff → Bool
recv_is_full rbuff = rbuff.ring.write == rbuff.ring.read

-- The loop that reads a length from a position on, with the rounds that are left. The bytes have bits
-- of their own in `uMsgSize`, so that `|=` is a sum.
pub gain_bytes : ℕ → ℕ → Ring ℕ → ℕ × ℕ → Option ℕ
gain_bytes zero i ring p = some 0
gain_bytes (suc rounds) i ring p = do
  bytes ←
      copy_out ring ((p.0 + (p.1 + i) / ring.buffer_size) % ring.pool_cnt)
        ((p.1 + i) % ring.buffer_size) 1
  byte ← get_elem? bytes 0
  high ← gain_bytes rounds (i + 1) ring p
  some (byte * 2 ^ (i * 8) + high)

-- `(int)` of an unsigned value
abbrev pub int_of : ℕ → ℤ
int_of u = if ltb u (2 ^ 31) then pos u else negsuc (2 ^ 32 - 1 - u)

-- `buff_gain_msg_size`: the size of the message at a position, 0 if it is not there yet,
-- `enErr_Recv_MsgSmall` or `enErr_Recv_MsgBig`.
pub gain_msg_size : Ring ℕ → ℕ → ℕ × ℕ → ℕ × ℕ → Option ℤ
gain_msg_size ring en_byte r w = get_space ring.pool_cnt ring.buffer_size r w >>= λ space.
    let area = u32 (ring.pool_cnt * ring.buffer_size) in
    let write_size = u32 (area + 2 ^ 32 - space) in
    let sized = gain_bytes en_byte 0 ring r >>= λ msg_size. some (
      if ltb msg_size en_byte
      then negsuc 1
      else if ltb area msg_size
      then negsuc 2
      else if ltb write_size msg_size
      then pos 0
      else int_of msg_size) in
    if ltb write_size en_byte then some (pos 0) else sized

-- A round of the loop of `recv_buff_check_new_msg` behind `buff_gain_msg_size`, with the rounds that follow.
pub checked : Ring ℕ → ℕ → ℕ → ℤ → (ℕ → Option (ℤ × ℕ)) → Option (ℤ × ℕ)
checked ring check count (negsuc e) on = some (negsuc e, check)
checked ring check count (pos zero) on = some (pos count, check)
checked ring check count (pos (suc n)) on =
    on (pack (advance ring.pool_cnt ring.buffer_size (unpack check) (suc n)))

-- The loop of `recv_buff_check_new_msg`: the messages counted, or an error, and the field `check`.
pub check_loop : ℕ → Ring ℕ → ℕ → ℕ × ℕ → ℕ → ℕ → Option (ℤ × ℕ)
check_loop zero ring en_byte w check count = none
check_loop (suc fuel) ring en_byte w check count =
    let on = λ (check' : ℕ). check_loop fuel ring en_byte w check' (count + 1) in
    gain_msg_size ring en_byte (unpack check) w >>= λ err. checked ring check count err on

-- `recv_buff_check_new_msg`; a message has at least one byte.
pub check_new_msg : RecvBuff → ℕ × ℕ → Option (ℤ × ℕ)
check_new_msg rbuff w =
    check_loop (rbuff.ring.pool_cnt * rbuff.ring.buffer_size + 1) rbuff.ring rbuff.en_byte w
      rbuff.check 0

-- `recv_buff_consume_vA`: the number of messages that are now complete, or an error.
pub recv_consume : RecvBuff → ℕ → Option (ℤ × RecvBuff)
recv_consume rbuff usize =
    let ring = rbuff.ring in
    let w = advance ring.pool_cnt ring.buffer_size (unpack ring.write) (u32 usize) in
    let moved = check_new_msg rbuff (unpack (pack w)) >>= λ (ret, check).
    some (ret, record rbuff { ring = record ring { write = pack w }; check = check }) in
    if leb usize (ring.buffer_size * ring.pool_cnt)
    then if usize == 0 then some (pos 0, rbuff) else moved
    else none

-- The loop of `recv_buff_read_vA` over whole blocks.
pub read_blocks : ℕ → ℕ → ℕ → Ring ℕ → Option (List ℕ)
read_blocks zero i h ring = some []
read_blocks (suc rounds) i h ring = do
  block ← copy_out ring ((h + i + 1) % ring.pool_cnt) 0 ring.buffer_size
  blocks ← read_blocks rounds (i + 1) h ring
  some (block ++ blocks)

-- The bytes of a message that ends in the block of a position, and the position behind it.
pub read_short : Ring ℕ → ℕ → ℕ × ℕ → Option (List ℕ × (ℕ × ℕ))
read_short ring msg_size p = copy_out ring (p.0 % ring.pool_cnt) p.1 msg_size >>= λ bytes.
    some (bytes, advance ring.pool_cnt ring.buffer_size p msg_size)

-- The bytes of a message that takes more blocks.
pub read_long : Ring ℕ → ℕ → ℕ × ℕ → Option (List ℕ × (ℕ × ℕ))
read_long ring msg_size p =
    let rest = ring.buffer_size - p.1 in
    let uh = (msg_size - rest) / ring.buffer_size in
    let ul = (msg_size - rest) % ring.buffer_size in
    do
      front ← copy_out ring (p.0 % ring.pool_cnt) p.1 rest
      blocks ← read_blocks uh 0 p.0 ring
      back ← copy_out ring ((p.0 + uh + 1) % ring.pool_cnt) 0 ul
      some (front ++ (blocks ++ back), ((p.0 + uh + 1) % (2 * ring.pool_cnt), ul))

pub read_body : Ring ℕ → ℕ → ℕ × ℕ → Option (List ℕ × (ℕ × ℕ))
read_body ring msg_size p =
    let short = read_short ring msg_size p in
    let long = read_long ring msg_size p in
    if leb msg_size (ring.buffer_size - p.1) then short else long

module _ {S : Type 0} (pool : Pool ℕ S) where
  -- `recv_buff_prepare_vA`: how many bytes may be received and where, or `none` inside for 0 and null.
  pub recv_prepare : RecvBuff → S → Option (Option (ℕ × (ℕ × ℕ)) × RecvBuff × S)
  recv_prepare rbuff s =
      let ring = rbuff.ring in
      let w = unpack ring.write in
      let r = unpack ring.read in
      get_space ring.pool_cnt ring.buffer_size r w >>= λ space.
      let size = if r.0 == w.0 then space else ring.buffer_size - w.1 in
      let place = if ltb 0 size then some (size, (w.0 % ring.pool_cnt, w.1)) else none in
      let ready = ensure pool ring (w.0 % ring.pool_cnt) s >>= λ (found, ring', s').
      some (found >>= λ b. place, record rbuff { ring = ring' }, s') in
      if leb space (ring.pool_cnt * ring.buffer_size)
      then if space == 0 then some (none, rbuff, s) else ready
      else none

  -- `recv_buff_read_vA` behind `buff_gain_msg_size`.
  pub message_read : RecvBuff → ℕ → S → ℤ → Option (ℤ × List ℕ × RecvBuff × S)
  message_read rbuff usize s (negsuc e) = some (negsuc e, [], rbuff, s)
  message_read rbuff usize s (pos zero) = some (pos 0, [], rbuff, s)
  message_read rbuff usize s (pos (suc n)) =
      let ring = rbuff.ring in
      let msg_size = suc n - rbuff.en_byte in
      let start = advance ring.pool_cnt ring.buffer_size (unpack ring.read) rbuff.en_byte in
      let read = read_body ring msg_size start >>= λ (bytes, end).
      gc_help pool ring end.0 (unpack ring.write).0 s >>= λ (cnt, ring', s').
      some (pos msg_size, bytes, record rbuff { ring = record ring' { read = pack end } }, s') in
      if ltb usize msg_size then some (pos msg_size, [], rbuff, s) else read

  -- `recv_buff_read_vA` into a buffer of `usize` bytes: the result, and what is copied to the buffer.
  pub recv_read : RecvBuff → ℕ → S → Option (ℤ × List ℕ × RecvBuff × S)
  recv_read rbuff usize s =
      gain_msg_size rbuff.ring rbuff.en_byte (unpack rbuff.ring.read) (unpack rbuff.ring.write)
      >>= message_read rbuff usize s
