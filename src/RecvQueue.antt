-- ===== src/RecvQueue.antt =====
-- engine/net/buff.c, `struct recv_buff` in its version B: a queue of whole messages, each in a buffer of
-- its own. A message is received in two parts, the length into its entry of `lens` and then the rest.
-- One thread fills it and another reads; here a call runs alone.
pub mod Safety
mod Tests
use randserver.Base.{
  ℕ, zero, suc, ◌+◌, ◌-◌, ◌*◌, ◌%◌, ◌^◌, Bool, true, false, Option, none, some, List, [], ◌∷◌,
  get_elem?, set, replicate, ltb, leb, ◌==◌, if◌then◌else◌, ◌>>=◌, ◌||◌, u32,
}
use randserver.Base.Int.{ℤ, pos, negsuc}
use randserver.Base.Bytes.{read_at, write_at, le_bytes, from_le}
use randserver.Ring.{Block, Pool}

-- The fields of `struct recv_buff` that version B uses. `lens` is kept by its bytes, four for an entry.
pub record RecvQueue : Type 0 where
  pub buffers : List (Option (Block ℕ))
  pub lens : List ℕ
  pub write : ℕ
  pub read : ℕ
  pub check : ℕ
  pub en_byte : ℕ
  pub pool_cnt : ℕ

-- `recv_buff_create_vB`, with the memory that it asks for; `lens` is not set.
pub queue_create : ℕ → ℕ → List ℕ → Option RecvQueue
queue_create en_byte pool_cnt lens =
    let queue : RecvQueue = record {
      buffers = replicate pool_cnt none;
      lens = lens;
      write = 0;
      read = pool_cnt;
      check = 0;
      en_byte = en_byte;
      pool_cnt = pool_cnt;
    } in
    if leb pool_cnt 0xefff then some queue else none

-- Where received bytes go: into `lens`, or to an offset of a buffer.
pub data Place : Type 0 where
  in_lens : ℕ → Place
  in_buffer : ℕ → ℕ → Place

-- An entry of `lens`, by its bits.
abbrev pub len_at : RecvQueue → ℕ → Option ℕ
len_at queue i = read_at (4 * i) 4 queue.lens >>= λ bytes. some (from_le bytes)

-- `recv_buff_prepare_vB`: how many bytes may be received and where.
pub queue_prepare : RecvQueue → Option (ℕ × Option Place)
queue_prepare queue =
    let cur = queue.write % queue.pool_cnt in
    let body = len_at queue cur >>= λ size.
    let done = queue.check - queue.en_byte in
    some (
      if size == 0 || leb (2 ^ 31) size
      then (0, none)
      else (u32 (size + 2 ^ 32 - done), some (in_buffer cur done))) in
    let head = some (queue.en_byte - queue.check, some (in_lens (4 * cur + queue.check))) in
    if queue.write == queue.read
    then some (0, none)
    else if ltb queue.check queue.en_byte
    then head
    else body

module _ {S : Type 0} (pool : Pool ℕ S) where
  -- The buffer for a message whose length is there.
  pub queue_installed : RecvQueue → ℕ → Option (Block ℕ) × S → ℤ × RecvQueue × S
  queue_installed queue check (none, s) = (negsuc 0, queue, s)
  queue_installed queue check (some b, s) = (
    pos 0,
    record queue {
      buffers = set queue.buffers (queue.write % queue.pool_cnt) (some b);
      check = check;
    },
    s,
  )

  -- `recv_buff_consume_vB` where the length of a message is complete. The bytes have bits of their own in
  -- `msg_size`, so that `|=` is a sum.
  pub queue_sized : RecvQueue → ℕ → S → Option (ℤ × RecvQueue × S)
  queue_sized queue check s =
      let cur = queue.write % queue.pool_cnt in
      read_at (4 * cur) queue.en_byte queue.lens >>= λ bytes.
      let msg_size = from_le bytes in
      let sized = write_at (4 * cur) (le_bytes 4 (msg_size - queue.en_byte)) queue.lens >>= λ lens.
      some (
        queue_installed (record queue { lens = lens }) check
          (pool.new_buff s (msg_size - queue.en_byte))) in
      if leb (2 ^ 31) msg_size
      then some (negsuc 2, queue, s)
      else if ltb msg_size queue.en_byte
      then some (negsuc 1, queue, s)
      else sized

  -- `recv_buff_consume_vB`: 1 where a message is complete, or an error.
  pub queue_consume : RecvQueue → ℕ → S → Option (ℤ × RecvQueue × S)
  queue_consume queue usize s =
      let cur = queue.write % queue.pool_cnt in
      let check = u32 (queue.check + usize) in
      let sized = queue_sized queue check s in
      let head =
        if ltb queue.en_byte (queue.check + usize)
        then some (negsuc 0, queue, s)
        else if check == queue.en_byte
        then sized
        else some (pos 0, record queue { check = check }, s) in
      let body = len_at queue cur >>= λ msg_size. some (
        if ltb msg_size (queue.check - queue.en_byte + usize)
        then (negsuc 2, queue, s)
        else if check - queue.en_byte == msg_size
        then (
          pos 1,
          record queue { write = u32 (queue.write + 1) % (2 * queue.pool_cnt); check = 0 },
          s,
        )
        else (pos 0, record queue { check = check }, s)) in
      if usize == 0
      then some (pos 0, queue, s)
      else if ltb queue.check queue.en_byte
      then head
      else body

-- `recv_buff_read_vB` with the place for a pointer: the length, and the pointer that is put there.
pub queue_read : RecvQueue → Option (ℕ × Option (Option (Block ℕ)) × RecvQueue)
queue_read queue =
    let cur = queue.read % queue.pool_cnt in
    let taken = get_elem? queue.buffers cur >>= λ found. len_at queue cur >>= λ msg_len.
    write_at (4 * cur) (le_bytes 4 0) queue.lens >>= λ lens. some (
      msg_len,
      some found,
      record queue {
        buffers = set queue.buffers cur none;
        lens = lens;
        read = u32 (queue.read + 1) % (2 * queue.pool_cnt);
      },
    ) in
    if u32 (queue.write + queue.pool_cnt) % (2 * queue.pool_cnt) == queue.read
    then some (0, none, queue)
    else taken
