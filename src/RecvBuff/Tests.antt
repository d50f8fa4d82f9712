-- ===== src/RecvBuff/Tests.antt =====
-- Runs of a receive buffer of two blocks of four bytes, and its theorems there.
use randserver.Base.{
  ℕ, zero, suc, ◌+◌, ◌≤◌, ◌<◌, ◌≡◌, refl, ap, sym, some_inj, ◌⊎◌, ◌>>=◌, Option, some, List, [],
  ◌∷◌, replicate, length, get_elem?, arith,
}
use mathlib.Core.Option.{none-ne-some}
use randserver.Base.Int.{ℤ, pos}
use randserver.Base.Bytes.{read_at, write_at, le_bytes}
use randserver.Ring.{
  Block, Pool, Ring, pack, ensure, copy_in, copy_out, get_space, gc_help, gc_loop, reclaim,
  new_ring,
}
use randserver.Ring.Position.{read_pos}
use randserver.Ring.Content.{capacity, Held}
use randserver.Ring.Fifo.{Filled, Fifo}
use randserver.RecvBuff.{
  RecvBuff, recv_create, gain_bytes, gain_msg_size, checked, check_loop, check_new_msg,
  recv_consume, recv_prepare, read_short, read_body, message_read, recv_read,
}
use randserver.RecvBuff.Frame.{frame_size, gain_msg_size_lem}
use randserver.RecvBuff.Read.{recv_read_lem}
use randserver.RecvBuff.Arrive.{recv_consume_lem}

abbrev fresh_pool : Pool ℕ ℕ
fresh_pool = record {
  new_buff = λ s n. (some (record { address = s; cells = replicate n 0 }), s + 1);
  del_buff = λ s b n. s;
}

-- Six bytes, of which the first five are the message 7, 8, 9 behind its length.
abbrev stream : List ℕ
stream = 5 ∷ 0 ∷ 7 ∷ 8 ∷ 9 ∷ 3 ∷ []

abbrev ring : Ring ℕ
ring = record {
  buffers =
      some (record { address = 0; cells = 5 ∷ 0 ∷ 7 ∷ 8 ∷ [] })
      ∷ some (record { address = 1; cells = 9 ∷ 3 ∷ 0 ∷ 0 ∷ [] })
      ∷ [];
  write = 65538;
  read = 131072;
  buffer_size = 4;
  pool_cnt = 2;
  free_h = 2;
}

ring-full_blocks :
    (i : ℕ) (b : Block ℕ) → get_elem? ring.buffers i ≡ some (some b) → length b.cells ≡ 4
ring-full_blocks zero b e = ap (λ x. length x.cells) (sym (some_inj (some_inj e)))
ring-full_blocks (suc zero) b e = ap (λ x. length x.cells) (sym (some_inj (some_inj e)))
ring-full_blocks (suc (suc i)) b e = absurd (none-ne-some (some b) e)

ring-Held : Held ring 0 stream
ring-Held zero lt = refl
ring-Held (suc zero) lt = refl
ring-Held (suc (suc zero)) lt = refl
ring-Held (suc (suc (suc zero))) lt = refl
ring-Held (suc (suc (suc (suc zero)))) lt = refl
ring-Held (suc (suc (suc (suc (suc zero))))) lt = refl
ring-Held (suc (suc (suc (suc (suc (suc i)))))) lt = absurd (omega arith)

ring-Filled : Filled ring 0 stream
ring-Filled = record {
  shape = record {
    some_blocks = omega arith;
    few_blocks = omega arith;
    some_cells = omega arith;
    few_cells = omega arith;
    array = refl;
    full_blocks = ring-full_blocks;
  };
  held = ring-Held;
  room = omega arith;
  read_at_r = refl;
  free_at_r = refl;
}

abbrev rbuff : RecvBuff
rbuff = record { ring = ring; en_byte = 2; check = 131072 }

-- The same before the last four bytes were consumed.
abbrev half : RecvBuff
half = record rbuff { ring = record ring { write = 2 } }

half-Filled : Filled half.ring 0 stream
half-Filled = record {
  shape = record {
    some_blocks = omega arith;
    few_blocks = omega arith;
    some_cells = omega arith;
    few_cells = omega arith;
    array = refl;
    full_blocks = ring-full_blocks;
  };
  held = ring-Held;
  room = omega arith;
  read_at_r = refl;
  free_at_r = refl;
}

-- Bytes arrive in two parts, are counted and read.
abbrev received : Option (ℤ × List ℕ)
received = do
  empty ← recv_create 2 2 4
  (place, b1, s1) ← recv_prepare fresh_pool empty 0
  (size, at) ← place
  r1 ← copy_in b1.ring at.0 at.1 (4 ∷ 0 ∷ 7 ∷ [])
  (ret, b2) ← recv_consume (record b1 { ring = r1 }) 3
  (place', b3, s3) ← recv_prepare fresh_pool b2 s1
  (size', at') ← place'
  r3 ← copy_in b3.ring at'.0 at'.1 (8 ∷ [])
  (ret', b4) ← recv_consume (record b3 { ring = r3 }) 1
  (n, xs, b5, s5) ← recv_read fresh_pool b4 16 s3
  some (ret', xs)

received_message : received ≡ some (pos 1, 7 ∷ 8 ∷ [])
unfolding recv_create new_ring recv_prepare ensure copy_in copy_out write_at read_at get_space
    recv_consume check_new_msg check_loop checked gain_msg_size gain_bytes recv_read message_read
    read_body read_short gc_help gc_loop reclaim
received_message = refl

gain_msg_size_lem_example : gain_msg_size ring 2 (2, 0) (1, 2) ≡ some (frame_size 8 2 stream)
gain_msg_size_lem_example =
    gain_msg_size_lem ring 2 0 stream ring-Filled.shape ring-Held (omega arith)

recv_read_lem_example :
    ((4 < 3) × (recv_read fresh_pool rbuff 4 0 ≡ some (pos 3, [], rbuff, 0)))
    ⊎ ((3 ≤ 4)
        × ((ring' : Ring ℕ) × (s' : ℕ) × (recv_read fresh_pool rbuff 4 0
              ≡ some (pos 3, 7 ∷ 8 ∷ 9 ∷ [], record rbuff { ring = ring' }, s'))
            × Fifo ring' 5 (3 ∷ [])
            × (capacity ring' ≡ 8)))
unfolding le_bytes
recv_read_lem_example =
    recv_read_lem fresh_pool rbuff 0 4 (7 ∷ 8 ∷ 9 ∷ []) (3 ∷ []) 0 (omega arith) (omega arith)
      (record { filled = ring-Filled; write_at_w = refl })

recv_consume_lem_example :
    (rbuff' : RecvBuff) × (recv_consume half 4 ≡ some (pos 1, rbuff'))
    × Fifo rbuff'.ring 0 stream
    × (rbuff'.check ≡ pack (read_pos 2 4 5))
unfolding le_bytes frame_size
recv_consume_lem_example =
    recv_consume_lem half 0 4 [] ((7 ∷ 8 ∷ 9 ∷ []) ∷ []) (3 ∷ []) (omega arith) (omega arith, tt)
      refl (omega arith) (omega arith) half-Filled refl refl
