-- ===== src/BuffPool/Stock.antt =====
-- The pool of buffers is a stack of bounded height.
use randserver.Base.{
  ℕ, zero, suc, ◌+◌, ◌-◌, ◌^◌, ◌≤◌, ◌<◌, ◌≡◌, ◌≢◌, refl, ap, ◌∙◌, true, false, Bool-cases, ◌⊎◌, inl,
  inr, Option, none, some, List, [], ◌∷◌, ◌++◌, length, get_or, get_elem?-get_or, get_or-set, set,
  length-set, ltb, leb, lt→ltb, ◌==◌, ==→eq, arith,
}
use randserver.BuffPool.{
  BuffPool, Realloc, cells_for, pool_create, trim, revive, new_buff, del_buff,
}

-- The buffers in the first cells, the last one first.
abbrev pub stack : ℕ → List ℕ → List ℕ
stack zero head = []
stack (suc n) head = get_or head n 0 ∷ stack n head

abbrev pub stock : BuffPool → List ℕ
stock pool = stack pool.pool_cnt pool.head

pub record IsValid (pool : BuffPool) : Type 0 where
  pub within : pool.pool_cnt ≤ pool.pool_max_cnt
  pub array : length pool.head ≡ pool.pool_max_cnt

-- `realloc` as it is documented, where memory is left: a block of the new length that begins with
-- the old entries.
abbrev pub IsRealloc : Realloc → Type 0
IsRealloc f =
    (xs : List ℕ) (n : ℕ)
    → (ys : List ℕ) × (f xs n ≡ some ys)
      × (length ys ≡ n)
      × ((i : ℕ) → i < n → i < length xs → get_or ys i 0 ≡ get_or xs i 0)

stack-agree :
    (n : ℕ) (xs ys : List ℕ)
    → ((i : ℕ) → i < n → get_or ys i 0 ≡ get_or xs i 0)
    → stack n ys ≡ stack n xs
stack-agree zero xs ys h = refl
stack-agree (suc n) xs ys h =
    rw (h n (omega arith), stack-agree n xs ys (λ i lt. h i (omega arith))) refl

-- `buff_pool_del_buff` of a buffer that is not null, on a valid pool: a buffer of the pool's size
-- goes on top of the stock if there is room, and any other is freed and the pool stays.
pub del_buff_lem :
    (pool : BuffPool) (buff buffer_size : ℕ)
    → IsValid pool
    → buff ≢ 0
    → (freed : Option ℕ) × (pool' : BuffPool) × (del_buff pool buff buffer_size
        ≡ some (freed, pool'))
      × IsValid pool'
      × (((buffer_size ≡ pool.buffer_size)
            × (pool.pool_cnt < pool.pool_max_cnt)
            × (freed ≡ none)
            × (stock pool' ≡ buff ∷ stock pool))
          ⊎ (((buffer_size ≢ pool.buffer_size) ⊎ (pool.pool_cnt ≡ pool.pool_max_cnt))
              × (freed ≡ some buff)
              × (pool' ≡ pool)))
unfolding del_buff
del_buff_lem pool buff buffer_size v solid =
    let there : (buff == 0) ≡ false = ground arith in
    elim (Bool-cases (buffer_size == pool.buffer_size)) [
      | inr other ↦
          (some buff, pool, rw (there, other) refl, v, inr (inl (ground arith), refl, refl))
      | inl same ↦ elim (Bool-cases (leb pool.pool_max_cnt pool.pool_cnt)) [
        | inl full ↦ (
          some buff,
          pool,
          rw (there, same, full) refl,
          v,
          inr (inr (ground (arith, v.within)), refl, refl),
        )
        | inr room ↦
            let inside : pool.pool_cnt < length pool.head = ground (arith, v.array) in
            let head = set pool.head pool.pool_cnt buff in
            let top = λ (i : ℕ). get_or-set pool.head pool.pool_cnt i buff 0 inside in
            let up : pool.pool_cnt + 1 ≡ suc pool.pool_cnt = omega arith in
            let kept = stack-agree pool.pool_cnt pool.head head (λ i lt. ground (arith, top i)) in
            let on_top : get_or head pool.pool_cnt 0 ≡ buff = ground (arith, top pool.pool_cnt) in
            let stack_top : stack (pool.pool_cnt + 1) head ≡ buff ∷ stock pool =
              rw (up, on_top, kept) refl in
            (
              none,
              record pool { head = head; pool_cnt = pool.pool_cnt + 1 },
              rw (there, same, room, lt→ltb _ _ inside) refl,
              record {
                within = omega (arith, v.array);
                array = length-set pool.head pool.pool_cnt buff ∙ v.array;
              },
              inl (ground arith, omega (arith, v.array), refl, stack_top),
            )
      ]
    ]

trim_lem :
    (n pool_max_cnt : ℕ) (head : List ℕ)
    → n ≤ length head
    → (freed : List ℕ) × (cnt : ℕ) × (trim n pool_max_cnt head ≡ some (freed, cnt))
      × (cnt ≤ pool_max_cnt)
      × (cnt ≤ n)
      × (freed ++ stack cnt head ≡ stack n head)
unfolding trim
trim_lem zero pool_max_cnt head b = ([], 0, refl, omega arith, omega arith, refl)
trim_lem (suc n) pool_max_cnt head b = elim (Bool-cases (ltb pool_max_cnt (suc n))) [
  | inr fits ↦ ([], suc n, rw fits refl, ground arith, omega arith, refl)
  | inl over ↦
      let (freed, cnt, e, low, below, same) = trim_lem n pool_max_cnt head (omega arith) in
      (
        get_or head n 0 ∷ freed,
        cnt,
        rw (over, get_elem?-get_or head n 0 (omega arith), e) refl,
        low,
        omega arith,
        ap (λ xs. get_or head n 0 ∷ xs) same,
      )
]

cells_for-eq : (n : ℕ) → n < 2 ^ 61 → cells_for n ≡ n
cells_for-eq n h = omega arith

-- `buff_pool_revive` of a valid pool, with memory left and a bound below 2 ^ 61, so that the size
-- of the array fits into `size_t`: the pool is valid with the new bound, and the freed buffers with
-- the remaining stock are the old stock, in order: no buffer is lost or freed twice.
pub revive_lem :
    (realloc : Realloc) (pool : BuffPool) (pool_max_cnt : ℕ)
    → IsRealloc realloc
    → pool_max_cnt < 2 ^ 61
    → IsValid pool
    → (freed : List ℕ) × (pool' : BuffPool) × (revive realloc pool pool_max_cnt
        ≡ some (freed, pool'))
      × IsValid pool'
      × (pool'.pool_max_cnt ≡ pool_max_cnt)
      × (freed ++ stock pool' ≡ stock pool)
unfolding revive
revive_lem realloc pool pool_max_cnt re small v =
    let (freed, cnt, e, low, below, same) =
      trim_lem pool.pool_cnt pool_max_cnt pool.head (omega (arith, v.within, v.array)) in
    let (ys, er, len, agree) = re pool.head pool_max_cnt in
    (
      freed,
      record pool { head = ys; pool_cnt = cnt; pool_max_cnt = pool_max_cnt },
      rw (e, cells_for-eq pool_max_cnt small, er) refl,
      record { within = low; array = len },
      refl,
      ap (λ xs. freed ++ xs)
            (stack-agree cnt pool.head ys
              (λ i lt. agree i (omega arith) (omega (arith, v.within, v.array))))
          ∙ same,
    )

-- `buff_pool_new_buff` on a valid pool: a request for the pool's size takes the top of the stock, if
-- there is any; any other request is answered with what `malloc` gives, and the pool stays.
pub new_buff_lem :
    (fresh : ℕ) (pool : BuffPool) (buffer_size : ℕ)
    → IsValid pool
    → (buff : ℕ) × (pool' : BuffPool) × (new_buff fresh pool buffer_size ≡ some (buff, pool'))
      × IsValid pool'
      × (((buffer_size ≡ pool.buffer_size) × (stock pool ≡ buff ∷ stock pool'))
          ⊎ (((buffer_size ≢ pool.buffer_size) ⊎ (stock pool ≡ []))
              × (buff ≡ fresh)
              × (pool' ≡ pool)))
unfolding new_buff
new_buff_lem fresh pool buffer_size v = elim (Bool-cases (pool.buffer_size == buffer_size)) [
  | inr other ↦ (fresh, pool, rw other refl, v, inr (inl (ground arith), refl, refl))
  | inl same ↦ elim (Bool-cases (pool.pool_cnt == 0)) [
    | inl empty ↦
        let none_left : pool.pool_cnt ≡ 0 = ==→eq _ _ empty in
        (fresh, pool, rw (same, empty) refl, v, inr (inr (rw none_left refl), refl, refl))
    | inr more ↦
        let cnt = pool.pool_cnt - 1 in
        let up : pool.pool_cnt ≡ suc cnt = ground arith in
        (
          get_or pool.head cnt 0,
          record pool { pool_cnt = cnt },
          rw (same, more, get_elem?-get_or pool.head cnt 0 (omega (arith, v.within, v.array, up)))
              refl,
          record { within = omega (arith, v.within); array = v.array },
          inl (ground arith, ap (λ n. stack n pool.head) up),
        )
  ]
]

-- `buff_pool_create` with memory at hand and a bound below 2 ^ 61 gives a valid pool without buffers.
pub pool_create_lem :
    (malloc : Realloc) (buffer_size pool_max_cnt : ℕ)
    → IsRealloc malloc
    → pool_max_cnt < 2 ^ 61
    → (pool : BuffPool) × (pool_create malloc buffer_size pool_max_cnt ≡ some pool)
      × IsValid pool
      × (stock pool ≡ [])
      × (pool.buffer_size ≡ buffer_size)
unfolding pool_create
pool_create_lem malloc buffer_size zero re small =
    (_, refl, record { within = omega arith; array = refl }, refl, refl)
pool_create_lem malloc buffer_size (suc n) re small =
    let (ys, e, len, agree) = re [] (suc n) in
    let some_cells : ltb 0 (suc n) ≡ true = ground arith in
    let pool : BuffPool = record {
      head = ys;
      buffer_size = buffer_size;
      pool_cnt = 0;
      pool_max_cnt = suc n;
    } in
    (
      pool,
      rw (some_cells, cells_for-eq (suc n) small, e) refl,
      record { within = omega arith; array = len },
      refl,
      refl,
    )
