-- ===== src/SendBuff.antt =====
-- engine/net/buff.c, `struct send_buff`: messages, each with its length in front, that become a stream
-- of bytes. One thread writes messages and another sends what is there; here a call runs alone.
pub mod Header
pub mod Body
pub mod Stream
pub mod Drain
mod Tests
use randserver.Base.{
  ℕ, zero, suc, ◌+◌, ◌-◌, ◌*◌, ◌/◌, ◌%◌, ◌^◌, Bool, true, false, Option, none, some, List, [], ◌∷◌,
  ◌++◌, ltb, leb, ◌==◌, if◌then◌else◌, ◌>>=◌, ◌&&◌, not, u16, u32,
}
use randserver.Base.Int.{ℤ, pos, negsuc}
use randserver.Base.Bytes.{read_at}
use randserver.Ring.{
  Block, Pool, Ring, unpack, pack, advance, get_space, new_ring, copy_out, gc_help, put,
}

-- `struct send_buff`; the length of a message takes `en_byte` bytes.
pub record SendBuff : Type 0 where
  pub ring : Ring ℕ
  pub en_byte : ℕ

-- `send_buff_create` for a pool of buffers of `buffer_size` bytes, with the memory that it asks for.
pub send_create : ℕ → ℕ → ℕ → Option SendBuff
send_create en_byte pool_cnt buffer_size =
    new_ring (u16 buffer_size) pool_cnt >>= λ ring. some (record { ring = ring; en_byte = en_byte })

-- `send_buff_prepare`: the number of bytes to send, and the block and the offset where they are.
pub send_prepare : SendBuff → Option (ℕ × (ℕ × ℕ))
send_prepare sbuff =
    let ring = sbuff.ring in
    let w = unpack ring.write in
    let r = unpack ring.read in
    let hw = w.0 % ring.pool_cnt in
    let hr = r.0 % ring.pool_cnt in
    let behind = if leb r.1 w.1 then some (w.1 - r.1) else none in
    let rest = some (u32 (ring.buffer_size + 2 ^ 32 - r.1)) in
    (if not (r.0 == w.0) && (hw == hr) then behind else rest) >>= λ space.
    if leb space ring.buffer_size then some (space, (hr, r.1)) else none

-- The bytes that `send_buff_prepare` points to.
pub prepared : SendBuff → Option (List ℕ)
unfolding send_prepare
prepared sbuff = send_prepare sbuff >>= λ (space, (i, l)). copy_out sbuff.ring i l space

-- `usize >>= 8`, as often as `i` says.
pub shifted : ℕ → ℕ → ℕ
shifted zero usize = usize
shifted (suc i) usize = shifted i (usize / 2 ^ 8)

-- The byte `uc` of the length with number `i`.
pub length_byte : ℕ → ℕ → ℕ
length_byte msg_size i = u32 (msg_size * 2 ^ (8 * (3 - i))) / 2 ^ 24

module _ {S : Type 0} (pool : Pool ℕ S) where
  -- `send_buff_consume`
  pub send_consume : SendBuff → ℕ → S → Option (SendBuff × S)
  send_consume sbuff usize s =
      let ring = sbuff.ring in
      let end = advance ring.pool_cnt ring.buffer_size (unpack ring.read) (u32 usize) in
      let consumed = gc_help pool ring end.0 (unpack ring.write).0 s >>= λ (cnt, ring', s').
      some (record sbuff { ring = record ring' { read = pack end } }, s') in
      if leb usize (ring.buffer_size * ring.pool_cnt)
      then if usize == 0 then some (sbuff, s) else consumed
      else none

  -- A write so far: the position, the ring and the pool, or `none` inside for `enErr_NoMemory`.
  abbrev pub Progress : Type 0
  Progress = Option (ℕ × ℕ) × Ring ℕ × S

  -- The loop that writes the length, with the rounds that are left.
  pub write_length : ℕ → ℕ → ℕ → Ring ℕ → ℕ × ℕ → S → Option Progress
  write_length zero i msg_size ring p s = some (some p, ring, s)
  write_length (suc rounds) i msg_size ring p s =
      put pool ring (p.0 % ring.pool_cnt) p.1 (length_byte msg_size i ∷ []) s
      >>= λ (there, ring', s').
          let next = advance ring.pool_cnt ring.buffer_size p 1 in
          let rest = write_length rounds (i + 1) msg_size ring' next s' in
          if there then rest else some (none, ring', s')

  -- The loop that copies whole blocks of the data from offset `off` on.
  pub write_blocks : ℕ → ℕ → ℕ → List ℕ → ℕ → Ring ℕ → S → Option (Bool × Ring ℕ × S)
  write_blocks zero i hw pdata off ring s = some (true, ring, s)
  write_blocks (suc rounds) i hw pdata off ring s = do
    bytes ← read_at off ring.buffer_size pdata
    (there, ring', s') ← put pool ring ((hw + 1 + i) % ring.pool_cnt) 0 bytes s
    let rest = write_blocks rounds (i + 1) hw pdata (off + ring.buffer_size) ring' s'
    if there then rest else some (false, ring', s')

  -- The data, where it ends in the block that the length ends in.
  pub write_short : List ℕ → ℕ → Ring ℕ → ℕ × ℕ → S → Option Progress
  write_short pdata usize ring p s = do
    bytes ← read_at 0 usize pdata
    (there, ring', s') ← put pool ring (p.0 % ring.pool_cnt) p.1 bytes s
    let end = advance ring.pool_cnt ring.buffer_size p usize
    some (if there then (some end, ring', s') else (none, ring', s'))

  -- The data, where it takes more blocks.
  pub write_long : List ℕ → ℕ → Ring ℕ → ℕ × ℕ → S → Option Progress
  write_long pdata usize ring p s =
      let rest = ring.buffer_size - p.1 in
      let uh = (usize - rest) / ring.buffer_size in
      let ul = (usize - rest) % ring.buffer_size in
      let last = λ (ring2 : Ring ℕ) (s2 : S).
        read_at (rest + uh * ring.buffer_size) ul pdata >>= λ bytes.
        put pool ring2 ((p.0 + 1 + uh) % ring.pool_cnt) 0 bytes s2 >>= λ (there, ring3, s3). some (
          if there
          then (some ((p.0 + 1 + uh) % (2 * ring.pool_cnt), ul), ring3, s3)
          else (none, ring3, s3)) in
      let blocks = λ (ring1 : Ring ℕ) (s1 : S).
        write_blocks uh 0 p.0 pdata rest ring1 s1 >>= λ (there, ring2, s2).
        (let end = last ring2 s2 in if there then end else some (none, ring2, s2)) in
      do
        bytes ← read_at 0 rest pdata
        (there, ring1, s1) ← put pool ring (p.0 % ring.pool_cnt) p.1 bytes s
        let next = blocks ring1 s1
        if there then next else some (none, ring1, s1)

  -- What follows the length, in either way.
  pub write_body : ℕ → List ℕ → ℕ → Progress → Option Progress
  write_body buffer_size pdata usize (none, ring, s) = some (none, ring, s)
  write_body buffer_size pdata usize (some p, ring, s) =
      let short = write_short pdata usize ring p s in
      let long = write_long pdata usize ring p s in
      if leb usize (buffer_size - p.1) then short else long

  -- The end of `send_buff_write`.
  abbrev pub finished : SendBuff → ℕ → Progress → ℤ × SendBuff × S
  finished sbuff usize (none, ring, s) = (negsuc 0, record sbuff { ring = ring }, s)
  finished sbuff usize (some p, ring, s) =
      (pos usize, record sbuff { ring = record ring { write = pack p } }, s)

  -- `send_buff_write`: the number of bytes written, 0 for a message that is too long or does not fit,
  -- or `enErr_NoMemory`. The numbers of blocks do not wrap: they stay below 2 ^ 32.
  pub send_write : SendBuff → List ℕ → ℤ → S → Option (ℤ × SendBuff × S)
  send_write sbuff pdata (negsuc n) s = some (pos 0, sbuff, s)
  send_write sbuff pdata (pos size) s =
      let ring = sbuff.ring in
      let msg_size = u32 (size + sbuff.en_byte) in
      let written =
        write_length sbuff.en_byte 0 msg_size ring (unpack ring.write) s
        >>= write_body sbuff.ring.buffer_size pdata size
        >>= λ progress. some (finished sbuff size progress) in
      let begun =
        get_space ring.pool_cnt ring.buffer_size (unpack ring.read) (unpack ring.write) >>= λ space.
        if ltb space msg_size then some (pos 0, sbuff, s) else written in
      if ltb 0 (shifted sbuff.en_byte size) then some (pos 0, sbuff, s) else begun
