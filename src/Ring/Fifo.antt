-- ===== src/Ring/Fifo.antt =====
-- What the rings of buff.c hold, as a queue.
use randserver.Base.{
  ℕ, ◌+◌, ◌-◌, ◌*◌, ◌/◌, ◌%◌, ◌≤◌, ◌<◌, ◌≡◌, refl, sym, ap, ◌∙◌, subst, u16, Option, some, none,
  arith, List, [], ◌∷◌, ◌++◌, length, length-append, get_elem?, get_elem?-append, get_elem?-some,
  ltb, ltb→lt, ltb→le, ◌>>=◌, Bool-cases, true, false, inl, inr,
}
use randserver.Base.Bytes.{read_at-get_elem?}
use mathlib.Core.Option.{none-ne-some}
use native.Mathlib.Nat.{mod-lt, add-mul-div_right}
use randserver.Ring.{Block, Pool, Ring, pack, gc_loop, gc_help, copy_out}
use randserver.Ring.Position.{write_pos, read_pos, mod_turn, div_mono, in_block, small_block}
use randserver.Ring.Content.{Shape, entry, block_of, cell, Held, with}
use randserver.Ring.Blocks.{Collected, gc_loop_lem}

-- A ring of which `r` cells were read and that holds `q`, up to its field `write`.
pub record Filled {ℓ} {A : Type ℓ} (ring : Ring A) (r : ℕ) (q : List A) : Type ℓ where
  pub shape : Shape ring
  pub held : Held ring r q
  pub room : length q ≤ ring.pool_cnt * ring.buffer_size
  pub read_at_r : ring.read ≡ pack (read_pos ring.pool_cnt ring.buffer_size r)
  pub free_at_r : ring.free_h ≡ (r / ring.buffer_size + ring.pool_cnt) % (2 * ring.pool_cnt)

-- A ring of which `r` cells were read and that holds the queue `q`.
pub record Fifo {ℓ} {A : Type ℓ} (ring : Ring A) (r : ℕ) (q : List A) : Type ℓ where
  pub filled : Filled ring r q
  pub write_at_w : ring.write ≡ pack (write_pos ring.pool_cnt ring.buffer_size (r + length q))

module _ {ℓ} {A : Type ℓ} where
  pub Held-behind :
      (ring : Ring A) (r : ℕ) (xs q : List A) → Held ring r (xs ++ q) → Held ring (r + length xs) q
  Held-behind ring r xs q h i lt =
      let place : r + length xs + i ≡ r + (length xs + i) = omega arith in
      let behind : ltb (length xs + i) (length xs) ≡ false = ground arith in
      let back : length xs + i - length xs ≡ i = omega arith in
      ap (λ p. cell ring p) place
      ∙ h (length xs + i) (omega (arith, length-append xs q))
      ∙ get_elem?-append xs q (length xs + i)
      ∙ rw (behind, back) refl

  pub Held-front : (ring : Ring A) (r : ℕ) (xs q : List A) → Held ring r (xs ++ q) → Held ring r xs
  Held-front ring r xs q h i lt =
      let front : ltb i (length xs) ≡ true = ground arith in
      h i (omega (arith, length-append xs q)) ∙ get_elem?-append xs q i ∙ rw front refl

  -- The block of a cell that is held.
  block_there :
      (buffers : List (Option (Block A))) (i l : ℕ) (x : A)
      → entry buffers i l ≡ some x
      → i < length buffers
      → (b : Block A) × (get_elem? buffers i ≡ some (some b))
  block_there buffers i l x e lt = let (found, at) = get_elem?-some buffers i lt in from found at
    where
      from :
          (found : Option (Block A))
          → get_elem? buffers i ≡ some found
          → (b : Block A) × (get_elem? buffers i ≡ some (some b))
      from (some b) at = (b, at)
      from none at = absurd (none-ne-some x (rw at at e))

  cell-block :
      (ring : Ring A) (p i : ℕ) (b : Block A)
      → Shape ring
      → get_elem? ring.buffers (block_of ring p) ≡ some (some b)
      → p % ring.buffer_size + i < ring.buffer_size
      → cell ring (p + i) ≡ get_elem? b.cells (p % ring.buffer_size + i)
  cell-block ring p i b v at near =
      let (block, offset) =
        in_block ring.pool_cnt ring.buffer_size v.some_blocks v.some_cells p i near in
      rw (block, offset, at) refl

  -- A copy out of the block where the cells begin.
  pub copy_out_lem :
      (ring : Ring A) (p : ℕ) (xs : List A)
      → Shape ring
      → Held ring p xs
      → p % ring.buffer_size + length xs ≤ ring.buffer_size
      → copy_out ring (block_of ring p) (p % ring.buffer_size) (length xs) ≡ some xs
  unfolding copy_out
  copy_out_lem ring p [] v h near = refl
  copy_out_lem ring p (x ∷ xs) v h near =
      let bs = ring.buffer_size in
      let here : p + 0 ≡ p = omega arith in
      let first : cell ring p ≡ some x = ap (λ z. cell ring z) (sym here) ∙ h 0 (omega arith) in
      let (b, at) =
        block_there ring.buffers (block_of ring p) (p % bs) x first
          (omega (arith, v.array, mod-lt (p / bs) v.some_blocks)) in
      rw at (
        read_at-get_elem? (p % bs) (x ∷ xs) b.cells (omega (arith, v.full_blocks _ b at))
          (λ i lt. sym (cell-block ring p i b v at (omega arith)) ∙ h i lt))

  -- No block of an unread cell is at a place that is given back, but for the writer's.
  unread_place :
      (ring : Ring A) (p w k : ℕ)
      → Shape ring
      → p ≤ w
      → k < p / ring.buffer_size
      → w / ring.buffer_size ≤ k + ring.pool_cnt
      → k % ring.pool_cnt ≡ block_of ring p
      → block_of ring p ≡ block_of ring w
  unread_place ring p w k v low behind near met =
      let n = ring.pool_cnt in
      let bs = ring.buffer_size in
      let up : p / bs ≤ w / bs = div_mono n bs v.some_blocks v.some_cells p w low in
      let d = p / bs - k in
      elim (Bool-cases (ltb d n)) [
        | inl short ↦ elim (mod_turn k d (p / bs) n (omega arith) (ltb→lt _ _ short)) [
          | inl e ↦ absurd (omega arith)
          | inr e ↦ absurd (omega (arith, ltb→lt d n short))
        ]
        | inr far ↦
            let same : p / bs ≡ w / bs = omega (arith, ltb→le d n far) in ap (λ x. x % n) same
      ]

  Collected-Held :
      {S : Type 0} (pool : Pool A S) (ring : Ring A) (ys : List (Option (Block A))) (f r : ℕ)
      (q : List A)
      → Shape ring
      → Held ring r q
      → (r + length q) / ring.buffer_size ≤ f + ring.pool_cnt
      → Collected pool ring.pool_cnt
          ((r + length q) / ring.buffer_size)
          f
          (r / ring.buffer_size)
          ring.buffers
          ys
      → Held (with ring ys) r q
  Collected-Held pool ring ys f r q v h near c i lt =
      let bs = ring.buffer_size in
      let kept = c.left (block_of ring (r + i)) (λ k low high met.
        unread_place ring (r + i) (r + length q) k v (omega arith)
          (omega
            (arith, div_mono ring.pool_cnt bs v.some_blocks v.some_cells r (r + i) (omega arith)))
          (omega arith) met) in
      ap (λ o. o >>= λ found. found >>= λ b. get_elem? b.cells ((r + i) % bs)) kept ∙ h i lt

  -- A reader is at most a round of blocks behind.
  round_behind :
      (ring : Ring A) (r k : ℕ)
      → Shape ring
      → k ≤ r + ring.pool_cnt * ring.buffer_size
      → k / ring.buffer_size ≤ r / ring.buffer_size + ring.pool_cnt
  round_behind ring r k v h =
      let n = ring.pool_cnt in
      let bs = ring.buffer_size in
      omega (
        arith,
        div_mono n bs v.some_blocks v.some_cells k (r + n * bs) h,
        add-mul-div_right r n v.some_cells,
      )

  Collected-Filled :
      {S : Type 0} (pool : Pool A S) (ring : Ring A) (ys : List (Option (Block A))) (r : ℕ)
      (xs q : List A)
      → Filled ring r (xs ++ q)
      → Collected pool ring.pool_cnt
          ((r + length xs + length q) / ring.buffer_size)
          (r / ring.buffer_size)
          ((r + length xs) / ring.buffer_size)
          ring.buffers
          ys
      → Filled
          (record ring {
            buffers = ys;
            read = pack (read_pos ring.pool_cnt ring.buffer_size (r + length xs));
            free_h = ((r + length xs) / ring.buffer_size + ring.pool_cnt) % (2 * ring.pool_cnt);
          })
          (r + length xs)
          q
  Collected-Filled pool ring ys r xs q f c =
      let v = f.shape in
      let total : length (xs ++ q) ≡ length xs + length q = length-append xs q in
      record {
        shape = record {
          some_blocks = v.some_blocks;
          few_blocks = v.few_blocks;
          some_cells = v.some_cells;
          few_cells = v.few_cells;
          array = c.same_length ∙ v.array;
          full_blocks = λ i b at. v.full_blocks i b (c.nothing_new i b at);
        };
        held =
            Collected-Held pool ring ys (r / ring.buffer_size) (r + length xs) q v
              (Held-behind ring r xs q f.held)
              (round_behind ring r (r + length xs + length q) v (omega (arith, f.room))) c;
        room = omega (arith, f.room);
        read_at_r = refl;
        free_at_r = refl;
      }

  gc_loop-help :
      {S : Type 0} (pool : Pool A S) (ring : Ring A) (free hr hr' hw cnt : ℕ)
      (ys : List (Option (Block A))) (s s' : S)
      → ring.free_h ≡ free
      → hr' ≡ hr
      → u16 hr ≡ hr
      → gc_loop pool
          (2 * ring.pool_cnt + 1)
          ring.pool_cnt
          ring.buffer_size
          hr'
          hw
          ring.buffers
          free
          s
        ≡ some (cnt, hr', ys, s')
      → gc_help pool ring hr hw s ≡ some (cnt, record ring { buffers = ys; free_h = hr }, s')
  unfolding gc_help
  gc_loop-help pool ring free hr hr' hw cnt ys s s' at same short e =
      rw (at, ← same, e, same, short) refl

  -- The ring that `buff_gc_help` leaves when `r` cells are read.
  abbrev pub released : Ring A → List (Option (Block A)) → ℕ → Ring A
  released ring ys r = record ring {
    buffers = ys;
    free_h = (r / ring.buffer_size + ring.pool_cnt) % (2 * ring.pool_cnt);
  }

  -- `buff_gc_help` behind a read of `xs`.
  pub gc_help_lem :
      {S : Type 0} (pool : Pool A S) (ring : Ring A) (r hw : ℕ) (xs q : List A) (s : S)
      → Filled ring r (xs ++ q)
      → hw % ring.pool_cnt ≡ block_of ring (r + length xs + length q)
      → (cnt : ℕ) × (ys : List (Option (Block A))) × (s' : S) × (gc_help pool ring
            (((r + length xs) / ring.buffer_size + ring.pool_cnt) % (2 * ring.pool_cnt))
            hw
            s
          ≡ some (cnt, released ring ys (r + length xs), s'))
        × Filled
            (record (released ring ys (r + length xs)) {
              read = pack (read_pos ring.pool_cnt ring.buffer_size (r + length xs));
            })
            (r + length xs)
            q
  gc_help_lem pool ring r hw xs q s f at =
      let v = f.shape in
      let n = ring.pool_cnt in
      let bs = ring.buffer_size in
      let r' = r + length xs in
      let w = r' + length q in
      let total : length (xs ++ q) ≡ length xs + length q = length-append xs q in
      let k = r' / bs - r / bs in
      let on : r / bs ≤ r' / bs = div_mono n bs v.some_blocks v.some_cells r r' (omega arith) in
      let most : r' / bs ≤ r / bs + n = round_behind ring r r' v (omega (arith, f.room)) in
      let meets : r / bs + k ≡ r' / bs = omega arith in
      let (cnt, ys, s', e, c) =
        gc_loop_lem pool k n bs (w / bs) (r / bs) (2 * n + 1) hw ring.buffers s v.some_blocks
          (omega arith) (omega arith) at v.array in
      let hr = (r' / bs + n) % (2 * n) in
      let whole : r / bs + k + n ≡ r' / bs + n = omega arith in
      let short : u16 hr ≡ hr =
        omega (arith, small_block n bs v.some_blocks v.some_cells (r' / bs + n) v.few_blocks) in
      (
        cnt,
        ys,
        s',
        gc_loop-help pool ring ((r / bs + n) % (2 * n)) hr ((r / bs + k + n) % (2 * n)) hw cnt ys s
            s' f.free_at_r (ap (λ x. x % (2 * n)) whole) short e,
        Collected-Filled pool ring ys r xs q f
            (subst (λ g. Collected pool n (w / bs) (r / bs) g ring.buffers ys) meets c),
      )
