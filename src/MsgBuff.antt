-- ===== src/MsgBuff.antt =====
-- engine/net/buff.c, `struct msg_buff`: a queue of messages of one size between two threads. A cell of
-- the ring is a message, so that a block of `msg_type_size * buffer_size` bytes has `buffer_size` cells.
-- Writers and readers each take a lock of their own; here a call runs alone.
pub mod Queue
pub mod Runs
mod Tests
use randserver.Base.{
  ℕ, zero, suc, ◌+◌, ◌-◌, ◌*◌, ◌%◌, ◌^◌, Bool, true, false, Option, none, some, List, [], ◌∷◌, ◌++◌,
  ltb, ◌==◌, if◌then◌else◌, ◌>>=◌, u32,
}
use randserver.Base.Int.{ℤ, pos, negsuc}
use randserver.Ring.{
  Block, Pool, Ring, unpack, pack, advance, get_space, new_ring, copy_out, gc_help, put,
}

-- `msg_buff_create`, with the memory that it asks for.
pub msg_create {ℓ} : {A : Type ℓ} → ℕ → ℕ → Option (Ring A)
msg_create buffer_size pool_cnt = new_ring buffer_size pool_cnt

-- The messages in the ring, for a value of its field `write`: `pool_cnt * buffer_size - buff_get_space(...)`.
abbrev pub write_size {ℓ} : {A : Type ℓ} → Ring A → ℕ → Option ℕ
write_size ring write =
    get_space ring.pool_cnt ring.buffer_size (unpack ring.read) (unpack write) >>= λ space.
    some (u32 (u32 (ring.pool_cnt * ring.buffer_size) + 2 ^ 32 - space))

-- `msg_buff_size`
pub msg_size {ℓ} : {A : Type ℓ} → Ring A → Option ℕ
msg_size ring = write_size ring ring.write

-- The loop of `msg_buff_read` from a position on, with the rounds that are left.
pub copy_msgs {ℓ} : {A : Type ℓ} → ℕ → Ring A → ℕ × ℕ → Option (List A × (ℕ × ℕ))
copy_msgs zero ring p = some ([], p)
copy_msgs (suc rounds) ring p = do
  msg ← copy_out ring (p.0 % ring.pool_cnt) p.1 1
  (msgs, end) ← copy_msgs rounds ring (advance ring.pool_cnt ring.buffer_size p 1)
  some (msg ++ msgs, end)

module _ {ℓ} {A : Type ℓ} {S : Type 0} (pool : Pool A S) where
  -- `msg_buff_write`: 1, 0 for a full ring, or `enErr_NoMemory`.
  pub msg_write : Ring A → A → S → Option (ℤ × Ring A × S)
  msg_write ring msg s =
      let p = unpack ring.write in
      let written = put pool ring (p.0 % ring.pool_cnt) p.1 (msg ∷ []) s >>= λ (there, ring', s').
      let moved = record ring' { write = pack (advance ring.pool_cnt ring.buffer_size p 1) } in
      some (if there then (pos 1, moved, s') else (negsuc 0, ring', s')) in
      if ring.write == ring.read then some (pos 0, ring, s) else written

  -- `msg_buff_read` from where it has loaded the field `write`, which a writer may move on meanwhile.
  pub msg_read_at : Ring A → ℕ → ℕ → S → Option (List A × Ring A × S)
  msg_read_at ring write n s = do
    size ← write_size ring write
    (msgs, end) ← copy_msgs (if ltb size n then size else n) ring (unpack ring.read)
    (cnt, ring', s') ← gc_help pool ring end.0 (unpack write).0 s
    some (msgs, record ring' { read = pack end }, s')

  -- `msg_buff_read`: at most `n` messages; their number is the result.
  pub msg_read : Ring A → ℕ → S → Option (List A × Ring A × S)
  unfolding msg_read_at
  msg_read ring n s = msg_read_at ring ring.write n s
