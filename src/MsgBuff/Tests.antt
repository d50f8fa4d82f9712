-- ===== src/MsgBuff/Tests.antt =====
-- Runs of a message buffer of two blocks of two messages, and its theorems there.
use randserver.Base.{
  ℕ, ◌+◌, ◌*◌, ◌≡◌, refl, Option, none, some, List, [], ◌∷◌, replicate, length-replicate, ◌>>=◌,
  arith,
}
use randserver.Base.Int.{pos}
use randserver.Base.Bytes.{write_at, read_at}
use randserver.Ring.{
  Pool, Ring, put, ensure, copy_in, copy_out, get_space, gc_help, gc_loop, reclaim, new_ring,
}
use randserver.Ring.Blocks.{Serves}
use randserver.Ring.Fifo.{Fifo}
use randserver.Ring.Put.{new_ring-Fifo}
use randserver.MsgBuff.{msg_create, msg_write, msg_read, msg_read_at, copy_msgs}
use randserver.MsgBuff.Runs.{Op, send, take, sent, taken, run, spec_run, msg_buff_run}

-- A pool whose state counts the blocks that were given out.
abbrev fresh_pool : Pool ℕ ℕ
fresh_pool = record {
  new_buff = λ s n. (some (record { address = s; cells = replicate n 0 }), s + 1);
  del_buff = λ s b n. s;
}

fresh_pool-Serves : Serves fresh_pool
fresh_pool-Serves s n =
    (record { address = s; cells = replicate n 0 }, s + 1, refl, length-replicate n 0)

abbrev ring : Ring ℕ
ring = record {
  buffers = none ∷ none ∷ [];
  write = 0;
  read = 131072;
  buffer_size = 2;
  pool_cnt = 2;
  free_h = 2;
}

ring-Fifo : Fifo ring 0 []
unfolding new_ring
ring-Fifo = new_ring-Fifo ring 2 2 refl (omega arith) (omega arith) (omega arith) (omega arith)

abbrev calls : List (Op ℕ)
calls = send 7 ∷ send 8 ∷ send 9 ∷ take 2 ∷ send 4 ∷ send 5 ∷ send 6 ∷ send 3 ∷ take 9 ∷ []

calls_answers :
    run fresh_pool ring 0 calls
    ≡ some (
        sent (pos 1)
        ∷ sent (pos 1)
        ∷ sent (pos 1)
        ∷ taken (7 ∷ 8 ∷ [])
        ∷ sent (pos 1)
        ∷ sent (pos 1)
        ∷ sent (pos 1)
        ∷ sent (pos 0)
        ∷ taken (9 ∷ 4 ∷ 5 ∷ 6 ∷ [])
        ∷ [])
unfolding run msg_write msg_read msg_read_at copy_msgs put ensure copy_in copy_out write_at read_at
    get_space gc_help gc_loop reclaim
calls_answers = refl

-- A reader takes one of three messages and loads `write`; the writer then fills the ring up to the
-- block that is being read; the reader gives that block back, with the last message in it.
abbrev stale_read : Option (List ℕ)
stale_read = do
  (a, r1, s1) ← msg_write fresh_pool ring 7 0
  (b, r2, s2) ← msg_write fresh_pool r1 8 s1
  (c, r3, s3) ← msg_write fresh_pool r2 9 s2
  (x, r4, s4) ← msg_read fresh_pool r3 1 s3
  let seen = r4.write
  (d, r5, s5) ← msg_write fresh_pool r4 4 s4
  (e, r6, s6) ← msg_write fresh_pool r5 5 s5
  (y, r7, s7) ← msg_read_at fresh_pool r6 seen 1 s6
  (z, r8, s8) ← msg_read fresh_pool r7 9 s7
  some z

stale_read_fault : stale_read ≡ none
unfolding msg_write msg_read msg_read_at copy_msgs put ensure copy_in copy_out write_at read_at
    get_space gc_help gc_loop reclaim
stale_read_fault = refl

msg_buff_run_example :
    (start : Ring ℕ) × (msg_create 2 2 ≡ some start)
    × (run fresh_pool start 0 calls ≡ some (spec_run (2 * 2) [] calls))
msg_buff_run_example =
    msg_buff_run fresh_pool 2 2 0 calls fresh_pool-Serves (omega arith) (omega arith) (omega arith)
      (omega arith)
