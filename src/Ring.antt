-- ===== src/Ring.antt =====
-- engine/net/buff.c, the parts that its three rings share: positions, the free space, the release of
-- blocks that are read. A position in a ring of `pool_cnt` blocks of `buffer_size` cells is a block
-- number below `2 * pool_cnt` and an offset. `none` is a null pointer that is read through, an access
-- outside an array, a failed assertion, or the model's fuel running out.
pub mod Position
pub mod Content
pub mod Blocks
pub mod Fifo
pub mod Put
pub mod Chunks
mod Tests
use randserver.Base.{
  ℕ, zero, suc, ◌+◌, ◌-◌, ◌*◌, ◌/◌, ◌%◌, ◌^◌, Bool, true, false, Option, none, some, List, [], ◌∷◌,
  length, get_elem?, set, store, replicate, ltb, leb, ◌==◌, if◌then◌else◌, ◌>>=◌, u16, u32,
}
use randserver.Base.Bytes.{write_at, read_at}

-- A buffer from the pool: its address and its cells.
pub record Block {ℓ} (A : Type ℓ) : Type ℓ where
  pub address : ℕ
  pub cells : List A

-- The calls of `buff_pool_new_buff` and `buff_pool_del_buff`, on the state of the pool.
pub record Pool {ℓ} (A : Type ℓ) (S : Type 0) : Type ℓ where
  pub new_buff : S → ℕ → Option (Block A) × S
  pub del_buff : S → Block A → ℕ → S

-- The fields that `struct recv_buff`, `struct send_buff` and `struct msg_buff` share.
pub record Ring {ℓ} (A : Type ℓ) : Type ℓ where
  pub buffers : List (Option (Block A))
  pub write : ℕ
  pub read : ℕ
  pub buffer_size : ℕ
  pub pool_cnt : ℕ
  pub free_h : ℕ

-- `uWrite >> 16` and `(uWrite << 16) >> 16`
abbrev pub unpack : ℕ → ℕ × ℕ
unpack p = (p / 2 ^ 16, p % 2 ^ 16)

-- `uHWrite << 16 | uLWrite`, where the offset has at most 16 bits.
abbrev pub pack : ℕ × ℕ → ℕ
pack (h, l) = u32 (h * 2 ^ 16) + l

-- A position moved on: `uLWrite += n; uHWrite = (uHWrite + uLWrite / buffer_size) % (2 * pool_cnt);
-- uLWrite %= buffer_size`.
abbrev pub advance : ℕ → ℕ → ℕ × ℕ → ℕ → ℕ × ℕ
advance pool_cnt buffer_size (h, l) n =
    let l' = u32 (l + n) in (u32 (h + l' / buffer_size) % (2 * pool_cnt), l' % buffer_size)

-- `buff_get_space`
unfoldable pub get_space : ℕ → ℕ → ℕ × ℕ → ℕ × ℕ → Option ℕ
get_space pool_cnt buffer_size (hr, lr) (hw, lw) =
    let ahead = u32 (u32 ((hr - hw) * buffer_size) + lr + 2 ^ 32 - lw) in
    let around =
      u32 (u32 (u32 (2 * pool_cnt + hr + 2 ^ 32 - hw) * buffer_size) + lr + 2 ^ 32 - lw) in
    let same = if leb lw lr then some (lr - lw) else none in
    if ltb hw hr then some ahead else if hr == hw then same else some around

-- The fields that the three `create` functions set; all blocks are null.
unfoldable pub new_ring {ℓ} : {A : Type ℓ} → ℕ → ℕ → Option (Ring A)
new_ring {A = A} buffer_size pool_cnt =
    let ring : Ring A = record {
      buffers = replicate pool_cnt none;
      write = 0;
      read = u32 (pool_cnt * 2 ^ 16);
      buffer_size = buffer_size;
      pool_cnt = pool_cnt;
      free_h = pool_cnt;
    } in
    if leb pool_cnt 0xefff then some ring else none

-- `memcpy(buffers[i] + l, xs, n)` and `memcpy(xs, buffers[i] + l, n)`; a copy of no cells reads none.
unfoldable pub copy_in {ℓ} : {A : Type ℓ} → Ring A → ℕ → ℕ → List A → Option (Ring A)
copy_in ring i l xs = get_elem? ring.buffers i >>= λ found. found >>= λ b.
    write_at l xs b.cells >>= λ cells.
    some (record ring { buffers = set ring.buffers i (some (record b { cells = cells })) })

unfoldable pub copy_out {ℓ} : {A : Type ℓ} → Ring A → ℕ → ℕ → ℕ → Option (List A)
copy_out ring i l zero = some []
copy_out ring i l (suc n) =
    get_elem? ring.buffers i >>= λ found. found >>= λ b. read_at l (suc n) b.cells

module _ {ℓ} {A : Type ℓ} {S : Type 0} (pool : Pool A S) where
  -- The body of the loop of `buff_gc_help` for the block at `i`: 1 if it was released.
  unfoldable pub reclaim :
      ℕ → Bool → List (Option (Block A)) → ℕ → S → Option (ℕ × List (Option (Block A)) × S)
  reclaim buffer_size skip buffers i s =
      let freed = get_elem? buffers i >>= λ found. elim found [
        | none ↦ some (0, buffers, s)
        | some b ↦ some (1, set buffers i none, pool.del_buff s b buffer_size)
      ] in
      if skip then some (0, buffers, s) else freed

  -- The loop of `buff_gc_help`: the released blocks, the next `uHFree`, the array and the pool.
  unfoldable pub gc_loop :
      ℕ
      → ℕ
      → ℕ
      → ℕ
      → ℕ
      → List (Option (Block A))
      → ℕ
      → S
      → Option (ℕ × ℕ × List (Option (Block A)) × S)
  gc_loop zero pool_cnt buffer_size hr hw buffers free s = none
  gc_loop (suc fuel) pool_cnt buffer_size hr hw buffers free s =
      let skip = free % pool_cnt == hw % pool_cnt in
      let on = reclaim buffer_size skip buffers (free % pool_cnt) s >>= λ (cnt, buffers', s').
      gc_loop fuel pool_cnt buffer_size hr hw buffers' ((free + 1) % (2 * pool_cnt)) s'
      >>= λ (cnt', free', buffers'', s''). some (cnt + cnt', free', buffers'', s'') in
      if free == hr then some (0, free, buffers, s) else on

  -- `buff_gc_help` for the ring that `hr` and `hw` are block numbers of.
  unfoldable pub gc_help : Ring A → ℕ → ℕ → S → Option (ℕ × Ring A × S)
  gc_help ring hr hw s =
      gc_loop (2 * ring.pool_cnt + 1) ring.pool_cnt ring.buffer_size hr hw ring.buffers ring.free_h
        s
      >>= λ (cnt, free, buffers, s').
          some (cnt, record ring { buffers = buffers; free_h = u16 free }, s')

  -- `buffers[i] = bf`, if `bf` is not null.
  abbrev pub installed : Ring A → ℕ → Option (Block A) × S → Option (Block A) × Ring A × S
  installed ring i (none, s) = (none, ring, s)
  installed ring i (some b, s) = (some b, record ring { buffers = set ring.buffers i (some b) }, s)

  -- The block at `i`, from the pool if there is none yet; `none` inside if the pool has none.
  unfoldable pub ensure : Ring A → ℕ → S → Option (Option (Block A) × Ring A × S)
  ensure ring i s = get_elem? ring.buffers i >>= λ found. elim found [
    | some b ↦ some (some b, ring, s)
    | none ↦ some (installed ring i (pool.new_buff s ring.buffer_size))
  ]

  -- A copy of `xs` to offset `l` of block `i`, which is fetched if it is not there: `false` if the pool
  -- has none.
  unfoldable pub put : Ring A → ℕ → ℕ → List A → S → Option (Bool × Ring A × S)
  put ring i l xs s = ensure ring i s >>= λ (found, ring', s'). elim found [
    | none ↦ some (false, ring', s')
    | some b ↦ copy_in ring' i l xs >>= λ ring''. some (true, ring'', s')
  ]
