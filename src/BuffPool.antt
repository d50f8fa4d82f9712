-- ===== src/BuffPool.antt =====
-- engine/net/buff_pool.c: a stock of buffers of one size. A buffer is given by its address, 0 for
-- null. Each function does its work inside the lock, so a call is one step. `none` is an access
-- outside the array of addresses.
pub mod Stock
mod Tests
use randserver.Base.{
  ℕ, zero, suc, ◌+◌, ◌-◌, ◌*◌, ◌/◌, u64, Bool, true, false, Option, none, some, List, [], ◌∷◌,
  length, get_elem?, store, ltb, leb, ◌==◌, if◌then◌else◌, ◌>>=◌, ◌||◌, not,
}

-- `struct buff_pool`; the list is the array that `head` points to, empty for a null pointer.
pub record BuffPool : Type 0 where
  pub head : List ℕ
  pub buffer_size : ℕ
  pub pool_cnt : ℕ
  pub pool_max_cnt : ℕ

-- A call of `malloc` or `realloc` for the array of addresses: the block and the number of cells, and
-- the new block or null.
abbrev pub Realloc : Type 0
Realloc = List ℕ → ℕ → Option (List ℕ)

-- The cells of a block of `pool_max_cnt * sizeof(char*)` bytes: the product is cut to `size_t`.
abbrev pub cells_for : ℕ → ℕ
cells_for pool_max_cnt = u64 (pool_max_cnt * 8) / 8

-- The fields that `buff_pool_create` sets.
with_head : ℕ → ℕ → List ℕ → BuffPool
with_head buffer_size pool_max_cnt head = record {
  head = head;
  buffer_size = buffer_size;
  pool_cnt = 0;
  pool_max_cnt = pool_max_cnt;
}

-- `buff_pool_create`, where the struct itself was given: `none` for the result null.
pub pool_create : Realloc → ℕ → ℕ → Option BuffPool
unfolding with_head
pool_create malloc buffer_size pool_max_cnt =
    let made = malloc [] (cells_for pool_max_cnt) >>= λ head.
    some (with_head buffer_size pool_max_cnt head) in
    if ltb 0 pool_max_cnt then made else some (with_head buffer_size pool_max_cnt [])

-- The loop of `buff_pool_revive` from `pool_cnt` down: the buffers that are freed, and the count.
pub trim : ℕ → ℕ → List ℕ → Option (List ℕ × ℕ)
trim zero pool_max_cnt head = some ([], 0)
trim (suc pool_cnt) pool_max_cnt head =
    let rest = trim pool_cnt pool_max_cnt head in
    let step =
      get_elem? head pool_cnt >>= λ buff. rest >>= λ (freed, cnt). some (buff ∷ freed, cnt) in
    if ltb pool_max_cnt (suc pool_cnt) then step else some ([], suc pool_cnt)

-- `buff_pool_revive`: the freed buffers and the pool.
pub revive : Realloc → BuffPool → ℕ → Option (List ℕ × BuffPool)
revive realloc pool pool_max_cnt = trim pool.pool_cnt pool_max_cnt pool.head >>= λ (freed, cnt).
    let head : List ℕ = elim (realloc pool.head (cells_for pool_max_cnt)) [
      | none ↦ []
      | some block ↦ block
    ] in
    some (freed, record pool { head = head; pool_cnt = cnt; pool_max_cnt = pool_max_cnt })

-- `buff_pool_new_buff` on a pool, with the buffer that `malloc` would give.
pub new_buff : ℕ → BuffPool → ℕ → Option (ℕ × BuffPool)
new_buff fresh pool buffer_size =
    let cnt = pool.pool_cnt - 1 in
    let taken = get_elem? pool.head cnt >>= λ buff. some (buff, record pool { pool_cnt = cnt }) in
    if not (pool.buffer_size == buffer_size)
    then some (fresh, pool)
    else if pool.pool_cnt == 0
    then some (fresh, pool)
    else taken

-- `buff_pool_del_buff` on a pool: the buffer that is freed, if any.
pub del_buff : BuffPool → ℕ → ℕ → Option (Option ℕ × BuffPool)
del_buff pool buff buffer_size =
    let kept = store pool.head pool.pool_cnt buff >>= λ head.
    some (none, record pool { head = head; pool_cnt = pool.pool_cnt + 1 }) in
    if buff == 0
    then some (none, pool)
    else if not (buffer_size == pool.buffer_size)
    then some (some buff, pool)
    else if leb pool.pool_max_cnt pool.pool_cnt
    then some (some buff, pool)
    else kept
