-- ===== src/SendBuff/Tests.antt =====
-- Runs of a send buffer of two blocks of four bytes, and its theorems there.
use randserver.Base.{
  ℕ, zero, suc, get_elem?, ap, sym, some_inj, ◌+◌, ◌^◌, ◌≤◌, ◌<◌, ◌≡◌, refl, ◌⊎◌, ◌>>=◌, Option,
  none, some, List, [], ◌∷◌, ◌++◌, replicate, length, length-replicate, arith,
}
use mathlib.Core.Option.{none-ne-some}
use randserver.Base.Int.{ℤ, pos}
use randserver.Base.Bytes.{read_at, write_at, le_bytes}
use randserver.Ring.{
  Block, Pool, Ring, put, ensure, copy_in, copy_out, get_space, gc_help, gc_loop, reclaim, new_ring,
}
use randserver.Ring.Content.{capacity, Held}
use randserver.Ring.Blocks.{Serves}
use randserver.Ring.Fifo.{Fifo}
use randserver.Ring.Put.{new_ring-Fifo}
use randserver.SendBuff.{
  SendBuff, send_create, send_prepare, prepared, shifted, length_byte, send_consume, write_length,
  write_blocks, write_short, write_long, write_body, send_write,
}
use randserver.SendBuff.Stream.{send_write_lem}
use randserver.SendBuff.Drain.{send_prepare_lem, send_consume_lem}

abbrev fresh_pool : Pool ℕ ℕ
fresh_pool = record {
  new_buff = λ s n. (some (record { address = s; cells = replicate n 0 }), s + 1);
  del_buff = λ s b n. s;
}

fresh_pool-Serves : Serves fresh_pool
fresh_pool-Serves s n =
    (record { address = s; cells = replicate n 0 }, s + 1, refl, length-replicate n 0)

abbrev sbuff : SendBuff
sbuff = record {
  ring = record {
    buffers = none ∷ none ∷ [];
    write = 0;
    read = 131072;
    buffer_size = 4;
    pool_cnt = 2;
    free_h = 2;
  };
  en_byte = 2;
}

sbuff-create : send_create 2 2 4 ≡ some sbuff
unfolding send_create new_ring
sbuff-create = refl

sbuff-Fifo : Fifo sbuff.ring 0 []
unfolding new_ring
sbuff-Fifo =
    new_ring-Fifo sbuff.ring 4 2 refl (omega arith) (omega arith) (omega arith) (omega arith)

-- A message of three bytes crosses the end of a block; it is sent in two parts.
abbrev sent : Option (ℤ × (List ℕ × List ℕ) × ℤ)
sent = do
  (a, b1, s1) ← send_write fresh_pool sbuff (7 ∷ 8 ∷ 9 ∷ []) (pos 3) 0
  xs ← prepared b1
  (b2, s2) ← send_consume fresh_pool b1 (length xs) s1
  ys ← prepared b2
  (c, b3, s3) ← send_write fresh_pool b2 (1 ∷ 2 ∷ 3 ∷ 4 ∷ 5 ∷ 6 ∷ []) (pos 6) s2
  some (a, (xs, ys), c)

sent_bytes : sent ≡ some (pos 3, (5 ∷ 0 ∷ 7 ∷ 8 ∷ [], 9 ∷ []), pos 0)
unfolding send_write send_consume prepared send_prepare shifted length_byte write_length write_body
    write_short write_long write_blocks put ensure copy_in copy_out write_at read_at get_space
    gc_help gc_loop reclaim
sent_bytes = refl

-- A message of 255 bytes behind one byte of length: 256 is written as 0.
abbrev wide : SendBuff
wide = record {
  ring = record {
    buffers = none ∷ none ∷ [];
    write = 0;
    read = 131072;
    buffer_size = 128;
    pool_cnt = 2;
    free_h = 2;
  };
  en_byte = 1;
}

abbrev first_byte : Option (ℤ × Option (List ℕ))
first_byte = do
  (a, b1, s1) ← send_write fresh_pool wide (replicate 255 7) (pos 255) 0
  some (a, copy_out b1.ring 0 0 2)

first_byte_lost : first_byte ≡ some (pos 255, some (0 ∷ 7 ∷ []))
unfolding send_write shifted length_byte write_length write_body write_short write_long write_blocks
    put ensure copy_in copy_out write_at read_at get_space
first_byte_lost = refl

send_write_lem_example :
    (((256 ^ 2 ≤ 3) ⊎ (8 < 0 + (3 + 2)))
      × (send_write fresh_pool sbuff (7 ∷ 8 ∷ 9 ∷ []) (pos 3) 0 ≡ some (pos 0, sbuff, 0)))
    ⊎ ((3 < 256 ^ 2)
        × (0 + (3 + 2) ≤ 8)
        × ((ring' : Ring ℕ) × (s' : ℕ) × (send_write fresh_pool sbuff (7 ∷ 8 ∷ 9 ∷ []) (pos 3) 0
              ≡ some (pos 3, record sbuff { ring = ring' }, s'))
            × Fifo ring' 0 ([] ++ le_bytes 2 5 ++ 7 ∷ 8 ∷ 9 ∷ [])
            × (capacity ring' ≡ 8)))
send_write_lem_example =
    send_write_lem fresh_pool sbuff 0 [] (7 ∷ 8 ∷ 9 ∷ []) 0 fresh_pool-Serves sbuff-Fifo
      (omega arith) (omega arith)

abbrev five : List ℕ
five = 5 ∷ 0 ∷ 7 ∷ 8 ∷ 9 ∷ []

-- The buffer with five bytes.
abbrev loaded : SendBuff
loaded = record sbuff {
  ring = record sbuff.ring {
    buffers =
        some (record { address = 0; cells = 5 ∷ 0 ∷ 7 ∷ 8 ∷ [] })
        ∷ some (record { address = 1; cells = 9 ∷ 0 ∷ 0 ∷ 0 ∷ [] })
        ∷ [];
    write = 65537;
  };
}

loaded-full_blocks :
    (i : ℕ) (b : Block ℕ) → get_elem? loaded.ring.buffers i ≡ some (some b) → length b.cells ≡ 4
loaded-full_blocks zero b e = ap (λ x. length x.cells) (sym (some_inj (some_inj e)))
loaded-full_blocks (suc zero) b e = ap (λ x. length x.cells) (sym (some_inj (some_inj e)))
loaded-full_blocks (suc (suc i)) b e = absurd (none-ne-some (some b) e)

loaded-Held : Held loaded.ring 0 (5 ∷ 0 ∷ 7 ∷ 8 ∷ 9 ∷ [])
loaded-Held zero lt = refl
loaded-Held (suc zero) lt = refl
loaded-Held (suc (suc zero)) lt = refl
loaded-Held (suc (suc (suc zero))) lt = refl
loaded-Held (suc (suc (suc (suc zero)))) lt = refl
loaded-Held (suc (suc (suc (suc (suc i))))) lt = absurd (omega arith)

loaded-Fifo : Fifo loaded.ring 0 (5 ∷ 0 ∷ 7 ∷ 8 ∷ 9 ∷ [])
loaded-Fifo = record {
  filled = record {
    shape = record {
      some_blocks = omega arith;
      few_blocks = omega arith;
      some_cells = omega arith;
      few_cells = omega arith;
      array = refl;
      full_blocks = loaded-full_blocks;
    };
    held = loaded-Held;
    room = omega arith;
    read_at_r = refl;
    free_at_r = refl;
  };
  write_at_w = refl;
}

send_prepare_lem_example :
    (xs : List ℕ) × (ys : List ℕ) × (at : ℕ × ℕ) × (five ≡ xs ++ ys)
    × ((five ≡ []) ⊎ (0 < length xs))
    × (send_prepare loaded ≡ some (length xs, at))
    × (prepared loaded ≡ some xs)
send_prepare_lem_example = send_prepare_lem loaded 0 five loaded-Fifo

send_consume_lem_example :
    (ring' : Ring ℕ) × (s' : ℕ) × (send_consume fresh_pool loaded 4 2
      ≡ some (record loaded { ring = ring' }, s'))
    × Fifo ring' 4 (9 ∷ [])
    × (capacity ring' ≡ 8)
send_consume_lem_example =
    send_consume_lem fresh_pool loaded 0 (5 ∷ 0 ∷ 7 ∷ 8 ∷ []) (9 ∷ []) 2 loaded-Fifo
