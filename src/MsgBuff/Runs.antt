-- ===== src/MsgBuff/Runs.antt =====
-- A message buffer in use, against a list.
use randserver.Base.{
  ℕ, ◌+◌, ◌-◌, ◌*◌, ◌^◌, ◌≤◌, ◌<◌, ◌≡◌, refl, ap, ◌∙◌, false, Option, some, arith, List, [], ◌∷◌,
  ◌++◌, length, ltb, ◌==◌, eq→==, ◌>>=◌, if◌then◌else◌, inl, inr,
}
use randserver.Base.Int.{ℤ, pos}
use randserver.Ring.{Pool, Ring}
use randserver.Ring.Content.{capacity}
use randserver.Ring.Blocks.{Serves}
use randserver.Ring.Fifo.{Fifo}
use randserver.Ring.Put.{new_ring_lem}
use randserver.MsgBuff.{msg_create, msg_write, msg_read}
use randserver.MsgBuff.Queue.{msg_write_lem, msg_read_lem}

-- A call, and what it gives back.
pub data Op {ℓ} (A : Type ℓ) : Type ℓ where
  send : A → Op A
  take : ℕ → Op A

pub data Answer {ℓ} (A : Type ℓ) : Type ℓ where
  sent : ℤ → Answer A
  taken : List A → Answer A

-- The answers of a ring to calls in a row.
unfoldable pub run {ℓ} :
    {A : Type ℓ} {S : Type 0} → Pool A S → Ring A → S → List (Op A) → Option (List (Answer A))
run pool ring s [] = some []
run pool ring s (send msg ∷ ops) = do
  (ret, ring', s') ← msg_write pool ring msg s
  rest ← run pool ring' s' ops
  some (sent ret ∷ rest)
run pool ring s (take n ∷ ops) = do
  (msgs, ring', s') ← msg_read pool ring n s
  rest ← run pool ring' s' ops
  some (taken msgs ∷ rest)

-- The answers of a list of at most `cap` messages.
abbrev pub first {ℓ} : {A : Type ℓ} → ℕ → List A → List A × List A
first {A = A} n [] = ([], [])
first {A = A} n (x ∷ xs) =
    let rest = first (n - 1) xs in if n == 0 then ([], x ∷ xs) else (x ∷ rest.0, rest.1)

unfoldable pub spec_run {ℓ} : {A : Type ℓ} → ℕ → List A → List (Op A) → List (Answer A)
spec_run cap q [] = []
spec_run cap q (send msg ∷ ops) =
    let full = sent (pos 0) ∷ spec_run cap q ops in
    let room = sent (pos 1) ∷ spec_run cap (q ++ msg ∷ []) ops in
    if length q == cap then full else room
spec_run cap q (take n ∷ ops) = taken (first n q).0 ∷ spec_run cap (first n q).1 ops

module _ {ℓ} {A : Type ℓ} where
  first-append :
      (n : ℕ) (xs ys : List A)
      → length xs ≡ (if ltb (length (xs ++ ys)) n then length (xs ++ ys) else n)
      → first n (xs ++ ys) ≡ (xs, ys)
  first-append n [] [] len = refl
  first-append n [] (y ∷ ys) len = ground arith
  first-append n (x ∷ xs) ys len =
      let some_left : (n == 0) ≡ false = ground arith in
      rw (some_left, first-append (n - 1) xs ys (ground arith)) refl

  first_lem :
      (n : ℕ) (q xs ys : List A)
      → q ≡ xs ++ ys
      → length xs ≡ (if ltb (length q) n then length q else n)
      → first n q ≡ (xs, ys)
  first_lem n q xs ys e len =
      rw e (first-append n xs ys (len ∙ ap (λ l. if ltb (length l) n then length l else n) e))

  run_lem :
      {S : Type 0} (pool : Pool A S) (ring : Ring A) (r : ℕ) (q : List A) (s : S)
      (ops : List (Op A))
      → Serves pool
      → Fifo ring r q
      → run pool ring s ops ≡ some (spec_run (capacity ring) q ops)
  unfolding run spec_run
  run_lem pool ring r q s [] serves f = refl
  run_lem pool ring r q s (send msg ∷ ops) serves f =
      elim (msg_write_lem pool ring r q msg s serves f) [
        | inl (full, e) ↦ rw (e, run_lem pool ring r q s ops serves f, eq→== _ _ full) refl
        | inr (room, (ring', s', e, f', cap)) ↦
            let less : (length q == capacity ring) ≡ false = ground arith in
            rw (e, run_lem pool ring' r (q ++ msg ∷ []) s' ops serves f', cap, less) refl
      ]
  run_lem pool ring r q s (take n ∷ ops) serves f =
      let (xs, ys, ring', s', cut, len, e, f', cap) = msg_read_lem pool ring r q n s f in
      let rest = run_lem pool ring' (r + length xs) ys s' ops serves f' in
      rw (e, rest, cap, first_lem n q xs ys cut len) refl

  -- In a new message buffer of at least one and at most 2 ^ 15 blocks of at least one and fewer than
  -- 2 ^ 16 messages, with a pool that has memory, any sequence of writes and reads returns, with the
  -- answers that a bounded queue gives.
  pub msg_buff_run :
      {S : Type 0} (pool : Pool A S) (buffer_size pool_cnt : ℕ) (s : S) (ops : List (Op A))
      → Serves pool
      → 0 < buffer_size
      → buffer_size < 2 ^ 16
      → 0 < pool_cnt
      → pool_cnt ≤ 2 ^ 15
      → (ring : Ring A) × (msg_create buffer_size pool_cnt ≡ some ring)
        × (run pool ring s ops ≡ some (spec_run (pool_cnt * buffer_size) [] ops))
  unfolding msg_create
  msg_buff_run pool bs n s ops serves bpos bshort npos few =
      let (ring, e, f, same_bs, same_n) = new_ring_lem bs n bpos bshort npos few in
      (ring, e, run_lem pool ring 0 [] s ops serves f ∙ rw (same_bs, same_n) refl)
