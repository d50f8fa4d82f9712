-- ===== src/Ring/Content.antt =====
-- The cells that a ring holds, as a list.
use randserver.Base.{
  ℕ, ◌+◌, ◌-◌, ◌*◌, ◌/◌, ◌%◌, ◌^◌, ◌≤◌, ◌<◌, ◌≡◌, refl, sym, ap, ◌∙◌, Option, some, arith, List,
  ◌++◌, length, length-append, length-set, get_elem?, get_elem?-append, get_elem?-set, set, ltb,
  leb, ◌==◌, ltb→lt, ltb→le, ==→eq, some_inj, ◌&&◌, ◌>>=◌, if◌then◌else◌, Bool-cases, true, inl,
  inr,
}
use randserver.Base.Bytes.{write_at-entries}
use randserver.Ring.{Block, Ring, copy_in}
use randserver.Ring.Position.{in_block, cell_apart}

-- The dimensions of a ring, and blocks of the right size.
pub record Shape {ℓ} {A : Type ℓ} (ring : Ring A) : Type ℓ where
  pub some_blocks : 0 < ring.pool_cnt
  pub few_blocks : 2 * ring.pool_cnt ≤ 2 ^ 16
  pub some_cells : 0 < ring.buffer_size
  pub few_cells : ring.buffer_size < 2 ^ 16
  pub array : length ring.buffers ≡ ring.pool_cnt
  pub full_blocks :
      (i : ℕ) (b : Block A)
      → get_elem? ring.buffers i ≡ some (some b)
      → length b.cells ≡ ring.buffer_size

-- The cell at an offset of a block.
abbrev pub entry {ℓ} : {A : Type ℓ} → List (Option (Block A)) → ℕ → ℕ → Option A
entry buffers i l = get_elem? buffers i >>= λ found. found >>= λ b. get_elem? b.cells l

-- The place of the cell that is the `p`th ever written.
abbrev pub block_of {ℓ} : {A : Type ℓ} → Ring A → ℕ → ℕ
block_of ring p = (p / ring.buffer_size) % ring.pool_cnt

abbrev pub cell {ℓ} : {A : Type ℓ} → Ring A → ℕ → Option A
cell ring p = entry ring.buffers (block_of ring p) (p % ring.buffer_size)

-- The cells from the `r`th on are those of the list.
abbrev pub Held {ℓ} : {A : Type ℓ} → Ring A → ℕ → List A → Type ℓ
Held ring r q = (i : ℕ) → i < length q → cell ring (r + i) ≡ get_elem? q i

-- The number of cells.
abbrev pub capacity {ℓ} : {A : Type ℓ} → Ring A → ℕ
capacity ring = ring.pool_cnt * ring.buffer_size

-- The ring with another array of blocks.
abbrev pub with {ℓ} : {A : Type ℓ} → Ring A → List (Option (Block A)) → Ring A
with ring buffers = record ring { buffers = buffers }

module _ {ℓ} {A : Type ℓ} where
  -- A block put into the array.
  pub set-Shape :
      (ring : Ring A) (i : ℕ) (b : Block A)
      → Shape ring
      → i < ring.pool_cnt
      → length b.cells ≡ ring.buffer_size
      → Shape (with ring (set ring.buffers i (some b)))
  set-Shape ring i b v lt len = record {
    some_blocks = v.some_blocks;
    few_blocks = v.few_blocks;
    some_cells = v.some_cells;
    few_cells = v.few_cells;
    array = length-set ring.buffers i (some b) ∙ v.array;
    full_blocks = λ j b' at.
        let found = sym (get_elem?-set ring.buffers i j (some b) (omega (arith, v.array))) ∙ at in
        elim (Bool-cases (i == j)) [
          | inl same ↦ ap (λ x. length x.cells) (sym (some_inj (some_inj (rw same at found)))) ∙ len
          | inr other ↦ v.full_blocks j b' (rw other at found)
        ];
  }

  pub entry-set :
      (buffers : List (Option (Block A))) (i : ℕ) (b : Block A) (j m : ℕ)
      → i < length buffers
      → entry (set buffers i (some b)) j m
        ≡ (if i == j then get_elem? b.cells m else entry buffers j m)
  entry-set buffers i b j m lt = elim (Bool-cases (i == j)) [
    | inl same ↦ rw (get_elem?-set buffers i j (some b) lt, same) refl
    | inr other ↦ rw (get_elem?-set buffers i j (some b) lt, other) refl
  ]

  -- The entries of an array after a copy of `xs` to offset `l` of block `i`.
  abbrev pub IsCopied : List (Option (Block A)) → ℕ → ℕ → List A → List (Option (Block A)) → Type ℓ
  IsCopied buffers i l xs buffers' =
      (j m : ℕ)
      → entry buffers' j m ≡ (
          if (i == j) && (leb l m && ltb m (l + length xs))
          then get_elem? xs (m - l)
          else entry buffers j m)

  set-IsCopied :
      (buffers : List (Option (Block A))) (i l : ℕ) (xs : List A) (b b' : Block A)
      → i < length buffers
      → get_elem? buffers i ≡ some (some b)
      → ((m : ℕ)
          → get_elem? b'.cells m ≡ (
              if leb l m && ltb m (l + length xs)
              then get_elem? xs (m - l)
              else get_elem? b.cells m))
      → IsCopied buffers i l xs (set buffers i (some b'))
  set-IsCopied buffers i l xs b b' lt there at j m = elim (Bool-cases (i == j)) [
    | inl same ↦ rw (entry-set buffers i b' j m lt, same, at m, ← ==→eq i j same, there) refl
    | inr other ↦ rw (entry-set buffers i b' j m lt, other) refl
  ]

  -- A copy within a block.
  pub copy_in_lem :
      (ring : Ring A) (b : Block A) (i l : ℕ) (xs : List A)
      → Shape ring
      → get_elem? ring.buffers i ≡ some (some b)
      → i < ring.pool_cnt
      → l + length xs ≤ ring.buffer_size
      → (buffers : List (Option (Block A))) × (copy_in ring i l xs ≡ some (with ring buffers))
        × Shape (with ring buffers)
        × IsCopied ring.buffers i l xs buffers
  unfolding copy_in
  copy_in_lem ring b i l xs v there lt fits =
      let (cells, e, len, at) =
        write_at-entries l xs b.cells (omega (arith, v.full_blocks i b there)) in
      let b' : Block A = record b { cells = cells } in
      (
        set ring.buffers i (some b'),
        rw (there, e) refl,
        set-Shape ring i b' v lt (len ∙ v.full_blocks i b there),
        set-IsCopied ring.buffers i l xs b b' (omega (arith, v.array)) there at,
      )

  -- No cell that is held lies where the copy goes.
  clash :
      (ring : Ring A) (r i : ℕ) (q xs : List A)
      → Shape ring
      → i < length q
      → (r + length q) % ring.buffer_size + length xs ≤ ring.buffer_size
      → length q + length xs ≤ ring.pool_cnt * ring.buffer_size
      → ((block_of ring (r + length q) == block_of ring (r + i))
          && (leb ((r + length q) % ring.buffer_size) ((r + i) % ring.buffer_size)
              && ltb ((r + i) % ring.buffer_size) ((r + length q) % ring.buffer_size + length xs)))
        ≡ true
      → ⊥
  clash ring r i q xs v before near room struck =
      let bs = ring.buffer_size in
      let w = r + length q in
      let k = (r + i) % bs - w % bs in
      let met : block_of ring w ≡ block_of ring (r + i) = ground arith in
      let low : w % bs ≤ (r + i) % bs = ground arith in
      let high : (r + i) % bs < w % bs + length xs = ground arith in
      let (block, offset) =
        in_block ring.pool_cnt bs v.some_blocks v.some_cells w k (omega arith) in
      cell_apart ring.pool_cnt bs v.some_blocks v.some_cells (r + i) (w + k) (omega arith)
        (omega arith) (sym (ap (λ x. x % ring.pool_cnt) block ∙ met)) (omega arith)

  -- A copy to where the `w`th cell goes lengthens what the ring holds.
  pub copy_in-Held :
      (ring : Ring A) (buffers : List (Option (Block A))) (r : ℕ) (q xs : List A)
      → Shape ring
      → Held ring r q
      → IsCopied ring.buffers
          (block_of ring (r + length q))
          ((r + length q) % ring.buffer_size)
          xs
          buffers
      → (r + length q) % ring.buffer_size + length xs ≤ ring.buffer_size
      → length q + length xs ≤ ring.pool_cnt * ring.buffer_size
      → Held (with ring buffers) r (q ++ xs)
  copy_in-Held ring buffers r q xs v h c near room i lt =
      let bs = ring.buffer_size in
      let w = r + length q in
      elim (Bool-cases (ltb i (length q))) [
        | inl old ↦
            let target = block_of ring w == block_of ring (r + i) in
            let hit = leb (w % bs) ((r + i) % bs) && ltb ((r + i) % bs) (w % bs + length xs) in
            let here = c (block_of ring (r + i)) ((r + i) % bs) in
            let list = get_elem?-append q xs i in
            let before : i < length q = ltb→lt _ _ old in
            elim (Bool-cases (target && hit)) [
              | inr away ↦ rw (here, list, away, old) (h i before)
              | inl struck ↦ absurd (clash ring r i q xs v before near room struck)
            ]
        | inr new ↦
            let k = i - length q in
            let within : k < length xs = omega (arith, length-append q xs, ltb→le _ _ new) in
            let place : r + i ≡ w + k = omega (arith, ltb→le _ _ new) in
            let (block, offset) =
              in_block ring.pool_cnt bs v.some_blocks v.some_cells w k (omega arith) in
            let here = c (block_of ring w) (w % bs + k) in
            let met : (block_of ring w == block_of ring w) ≡ true = ground arith in
            let low : leb (w % bs) (w % bs + k) ≡ true = ground arith in
            let high : ltb (w % bs + k) (w % bs + length xs) ≡ true = ground arith in
            let back : w % bs + k - w % bs ≡ k = omega arith in
            rw (place, block, offset, here, met, low, high, back, get_elem?-append q xs i, new) refl
      ]
