-- ===== src/RecvQueue/Tests.antt =====
-- Runs of a queue of two messages behind lengths of two bytes.
use randserver.Base.{
  ℕ, ◌+◌, ◌≡◌, refl, ap, sym, ◌∙◌, some_inj, Option, none, some, [], ◌∷◌, replicate,
  length-replicate, length, ◌>>=◌, arith,
}
use randserver.Base.Int.{ℤ, pos}
use randserver.Base.Bytes.{read_at, write_at, le_bytes, from_le}
use randserver.Ring.{Pool}
use randserver.RecvQueue.{
  RecvQueue, Place, queue_create, queue_prepare, queue_installed, queue_sized, queue_consume,
  queue_read,
}
use randserver.RecvQueue.Safety.{Sound, Inside, IsExact, queue_memory_lem}

abbrev fresh_pool : Pool ℕ ℕ
fresh_pool = record {
  new_buff = λ s n. (some (record { address = s; cells = replicate n 0 }), s + 1);
  del_buff = λ s b n. s;
}

-- A queue in which the bytes of a length have been received.
abbrev sized : ℕ → Option (ℤ × RecvQueue × ℕ)
sized msg_size = do
  queue ← queue_create 2 2 (replicate 8 0)
  lens ← write_at 0 (le_bytes 2 msg_size) queue.lens
  queue_consume fresh_pool (record queue { lens = lens }) 2 0

-- A message of three bytes is complete with its last byte and is read once.
abbrev received : Option (ℤ × ℤ × ℕ × ℕ)
received = do
  (a, q1, s1) ← sized 5
  (b, q2, s2) ← queue_consume fresh_pool q1 2 s1
  (c, q3, s3) ← queue_consume fresh_pool q2 1 s2
  (n, at, q4) ← queue_read q3
  (m, at', q5) ← queue_read q4
  some (b, c, n, m)

received_message : received ≡ some (pos 0, pos 1, 3, 0)
unfolding queue_create queue_consume queue_sized queue_installed queue_read read_at write_at
    le_bytes from_le
received_message = refl

-- Behind the length of an empty message nothing can be received, and it never becomes complete.
abbrev empty_message : Option (ℕ × ℕ)
empty_message = do
  (a, q1, s1) ← sized 2
  (size, place) ← queue_prepare q1
  (n, at, q2) ← queue_read q1
  some (size, n)

empty_message_stuck : empty_message ≡ some (0, 0)
unfolding queue_create queue_consume queue_sized queue_installed queue_prepare queue_read read_at
    write_at le_bytes from_le
empty_message_stuck = refl

fresh_pool-IsExact : IsExact fresh_pool
fresh_pool-IsExact s s' n b e =
    ap (λ x. length x.cells) (sym (some_inj (ap (λ p. p.0) e))) ∙ length-replicate n 0

-- A queue that waits for the rest of a message of three bytes.
abbrev waiting : RecvQueue
waiting = record {
  buffers = some (record { address = 0; cells = 7 ∷ 0 ∷ 0 ∷ [] }) ∷ none ∷ [];
  lens = 3 ∷ 0 ∷ 0 ∷ 0 ∷ 0 ∷ 0 ∷ 0 ∷ 0 ∷ [];
  write = 0;
  read = 2;
  check = 3;
  en_byte = 2;
  pool_cnt = 2;
}

waiting-Sound : Sound waiting
unfolding read_at from_le
waiting-Sound = record {
  some_slots = omega arith;
  some_head = omega arith;
  few_bytes = omega arith;
  array = refl;
  entries = refl;
  filling = λ more. record {
    block = record { address = 0; cells = 7 ∷ 0 ∷ 0 ∷ [] };
    there = refl;
    entry = refl;
    short = omega arith;
    within = omega arith;
  };
}

queue_memory_lem_example :
    ((place : ℕ × Option Place) × (queue_prepare waiting ≡ some place) × Inside waiting place)
    × ((t : ℤ × RecvQueue × ℕ) × (queue_consume fresh_pool waiting 2 0 ≡ some t) × Sound t.1)
queue_memory_lem_example = queue_memory_lem fresh_pool waiting 2 0 fresh_pool-IsExact waiting-Sound
