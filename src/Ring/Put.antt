-- ===== src/Ring/Put.antt =====
-- Copies into a ring, its free space, and a new ring.
use randserver.Base.{
  ℕ, ◌+◌, ◌-◌, ◌*◌, ◌/◌, ◌%◌, ◌^◌, ◌≤◌, ◌<◌, ◌≡◌, refl, sym, ap, ap₂, ◌∙◌, subst, u32, Option, some,
  none, arith, List, [], ◌++◌, length, length-append, replicate, length-replicate,
  get_elem?-replicate, ltb, leb, ◌==◌, ==→eq, eq→==, some_inj, Bool-cases, true, inl, inr,
}
use mathlib.Core.Option.{none-ne-some}
use native.Mathlib.Nat.{
  mod-lt, mod-eq_of_lt, mul-le-mul, add-mul-div_right, add-mul-mod_self_right, zero-div, zero-mod,
}
use randserver.Ring.{Block, Pool, Ring, unpack, pack, get_space, new_ring, put, gc_help}
use randserver.Ring.Position.{
  double, write_pos, read_pos, unpack-write_pos, unpack-read_pos, get_space_lem,
}
use randserver.Ring.Content.{Shape, block_of, with, copy_in_lem, copy_in-Held}
use randserver.Ring.Blocks.{Serves, IsKept-Held, ensure_lem}
use randserver.Ring.Fifo.{Filled, Fifo, released, gc_help_lem}

get_space-same : (n bs : ℕ) (p : ℕ × ℕ) → get_space n bs p p ≡ some 0
unfolding get_space
get_space-same n bs p = ground arith

module _ {ℓ} {A : Type ℓ} where
  pub put_lem :
      {S : Type 0} (pool : Pool A S) (ring : Ring A) (r : ℕ) (q xs : List A) (s : S)
      → Serves pool
      → Filled ring r q
      → (r + length q) % ring.buffer_size + length xs ≤ ring.buffer_size
      → length q + length xs ≤ ring.pool_cnt * ring.buffer_size
      → (buffers : List (Option (Block A))) × (s' : S) × (put pool ring
            (block_of ring (r + length q))
            ((r + length q) % ring.buffer_size)
            xs
            s
          ≡ some (true, with ring buffers, s'))
        × Filled (with ring buffers) r (q ++ xs)
  unfolding put
  put_lem pool ring r q xs s serves f near room =
      let v = f.shape in
      let w = r + length q in
      let i = block_of ring w in
      let lt : i < ring.pool_cnt = mod-lt (w / ring.buffer_size) v.some_blocks in
      let (b, ys, s', e, v1, there, kept) = ensure_lem pool ring i s serves v lt in
      let (zs, e', v2, copied) =
        copy_in_lem (with ring ys) b i (w % ring.buffer_size) xs v1 there lt near in
      (
        zs,
        s',
        rw (e, e') refl,
        record {
          shape = v2;
          held =
              copy_in-Held (with ring ys) zs r q xs v1 (IsKept-Held ring ys r q kept f.held) copied
                near room;
          room = omega (arith, length-append q xs);
          read_at_r = f.read_at_r;
          free_at_r = f.free_at_r;
        },
      )

  pub Filled-write :
      (ring : Ring A) (r w : ℕ) (q : List A)
      → Filled ring r q
      → Filled (record ring { write = w }) r q
  Filled-write ring r w q f = record {
    shape = record {
      some_blocks = f.shape.some_blocks;
      few_blocks = f.shape.few_blocks;
      some_cells = f.shape.some_cells;
      few_cells = f.shape.few_cells;
      array = f.shape.array;
      full_blocks = f.shape.full_blocks;
    };
    held = f.held;
    room = f.room;
    read_at_r = f.read_at_r;
    free_at_r = f.free_at_r;
  }

  pub area : (ring : Ring A) → Shape ring → ring.pool_cnt * ring.buffer_size < 2 ^ 31
  area ring v =
      let most : ring.pool_cnt * ring.buffer_size ≤ 32768 * 65535 =
        mul-le-mul {n₁ = ring.pool_cnt} {m₁ = ring.buffer_size} {n₂ = 32768} {m₂ = 65535}
          (omega (arith, v.few_blocks)) (omega (arith, v.few_cells)) in
      omega arith

  -- The two positions of a ring, unpacked.
  pub read_of :
      (ring : Ring A) (r : ℕ) (q : List A)
      → Fifo ring r q
      → unpack ring.read ≡ read_pos ring.pool_cnt ring.buffer_size r
  read_of ring r q f =
      let v = f.filled.shape in
      ap unpack f.filled.read_at_r
      ∙ unpack-read_pos ring.pool_cnt ring.buffer_size v.some_blocks v.some_cells v.few_blocks
          v.few_cells r

  pub write_of :
      (ring : Ring A) (r : ℕ) (q : List A)
      → Fifo ring r q
      → unpack ring.write ≡ write_pos ring.pool_cnt ring.buffer_size (r + length q)
  write_of ring r q f =
      let v = f.filled.shape in
      ap unpack f.write_at_w
      ∙ unpack-write_pos ring.pool_cnt ring.buffer_size v.some_blocks v.some_cells v.few_blocks
          v.few_cells (r + length q)

  pub space_of :
      (ring : Ring A) (r : ℕ) (q : List A)
      → Fifo ring r q
      → get_space ring.pool_cnt ring.buffer_size (unpack ring.read) (unpack ring.write)
        ≡ some (ring.pool_cnt * ring.buffer_size - length q)
  space_of ring r q f =
      let v = f.filled.shape in
      let left : r + ring.pool_cnt * ring.buffer_size - (r + length q)
          ≡ ring.pool_cnt * ring.buffer_size - length q =
        omega arith in
      ap₂ (get_space ring.pool_cnt ring.buffer_size) (read_of ring r q f) (write_of ring r q f)
      ∙ get_space_lem ring.pool_cnt ring.buffer_size v.some_blocks v.some_cells v.few_blocks
          v.few_cells r (r + length q) (omega arith) (omega (arith, f.filled.room))
          (omega (arith, area ring v))
      ∙ ap some left

  -- The ring after a read up to its `r`th cell.
  abbrev pub consumed : Ring A → List (Option (Block A)) → ℕ → Ring A
  consumed ring ys r = record (released ring ys r) {
    read = pack (read_pos ring.pool_cnt ring.buffer_size r);
  }

  pub release_lem :
      {S : Type 0} (pool : Pool A S) (ring : Ring A) (r : ℕ) (xs q : List A) (s : S)
      → Fifo ring r (xs ++ q)
      → (cnt : ℕ) × (ys : List (Option (Block A))) × (s' : S) × (gc_help pool ring
            (read_pos ring.pool_cnt ring.buffer_size (r + length xs)).0
            (unpack ring.write).0
            s
          ≡ some (cnt, released ring ys (r + length xs), s'))
        × Fifo (consumed ring ys (r + length xs)) (r + length xs) q
  release_lem pool ring r xs q s f =
      let n = ring.pool_cnt in
      let bs = ring.buffer_size in
      let w : r + length (xs ++ q) ≡ r + length xs + length q = omega (arith, length-append xs q) in
      let at : unpack ring.write ≡ write_pos n bs (r + length xs + length q) =
        write_of ring r (xs ++ q) f ∙ ap (write_pos n bs) w in
      let place : (unpack ring.write).0 % n ≡ block_of ring (r + length xs + length q) =
        ap (λ p. p.0 % n) at ∙ double n ((r + length xs + length q) / bs) in
      let (cnt, ys, s', e, f') =
        gc_help_lem pool ring r (unpack ring.write).0 xs q s f.filled place in
      (
        cnt,
        ys,
        s',
        e,
        record { filled = f'; write_at_w = f.write_at_w ∙ ap (λ x. pack (write_pos n bs x)) w },
      )

  -- The positions are equal exactly when the ring is full.
  pub full_lem :
      (ring : Ring A) (r : ℕ) (q : List A)
      → Fifo ring r q
      → (ring.write == ring.read) ≡ (length q == ring.pool_cnt * ring.buffer_size)
  full_lem ring r q f =
      let n = ring.pool_cnt in
      let bs = ring.buffer_size in
      let v = f.filled.shape in
      let w = r + length q in
      elim (Bool-cases (length q == n * bs)) [
        | inl full ↦
            let end : w ≡ r + n * bs = omega (arith, ==→eq _ _ full) in
            let blocks : w / bs ≡ r / bs + n =
              ap (λ x. x / bs) end ∙ add-mul-div_right r n v.some_cells in
            let offset : w % bs ≡ r % bs = ap (λ x. x % bs) end ∙ add-mul-mod_self_right r n bs in
            let met : ring.write ≡ ring.read =
              f.write_at_w
              ∙ ap₂ (λ x y. pack (x % (2 * n), y)) blocks offset
              ∙ sym f.filled.read_at_r in
            eq→== _ _ met ∙ sym full
        | inr less ↦ elim (Bool-cases (ring.write == ring.read)) [
          | inr apart ↦ apart ∙ sym less
          | inl met ↦
              let same = ap (λ p. get_space n bs (unpack ring.read) (unpack p)) (==→eq _ _ met) in
              let nothing : n * bs - length q ≡ 0 =
                some_inj
                  (sym (space_of ring r q f) ∙ same ∙ get_space-same n bs (unpack ring.read)) in
              absurd (ground (arith, f.filled.room))
        ]
      ]

  -- A new ring is empty.
  pub new_ring_lem :
      (buffer_size pool_cnt : ℕ)
      → 0 < buffer_size
      → buffer_size < 2 ^ 16
      → 0 < pool_cnt
      → pool_cnt ≤ 2 ^ 15
      → (ring : Ring A) × (new_ring buffer_size pool_cnt ≡ some ring)
        × Fifo ring 0 []
        × (ring.buffer_size ≡ buffer_size)
        × (ring.pool_cnt ≡ pool_cnt)
  unfolding new_ring
  new_ring_lem bs n bpos bshort npos few =
      let ring : Ring A = record {
        buffers = replicate n none;
        write = 0;
        read = u32 (n * 2 ^ 16);
        buffer_size = bs;
        pool_cnt = n;
        free_h = n;
      } in
      let allowed : leb n 0xefff ≡ true = ground arith in
      let start : (0 / bs + n) % (2 * n) ≡ n =
        ap (λ x. (x + n) % (2 * n)) (zero-div bs)
        ∙ mod-eq_of_lt {n = 0 + n} {m = 2 * n} (omega arith)
        ∙ omega arith in
      (
        ring,
        rw allowed refl,
        record {
          filled = record {
            shape = record {
              some_blocks = npos;
              few_blocks = omega arith;
              some_cells = bpos;
              few_cells = bshort;
              array = length-replicate n none;
              full_blocks = λ i b at.
                  let none_there = sym (get_elem?-replicate n i none) ∙ at in
                  elim (Bool-cases (ltb i n)) [
                    | inl lt ↦ absurd (none-ne-some b (some_inj (rw lt at none_there)))
                    | inr ge ↦ absurd (none-ne-some (some b) (rw ge at none_there))
                  ];
            };
            held = λ i lt. absurd (omega arith);
            room = omega arith;
            read_at_r = omega (arith, start, zero-mod bs);
            free_at_r = sym start;
          };
          write_at_w =
              omega (arith, ap (λ x. x % (2 * n)) (zero-div bs), zero-mod (2 * n), zero-mod bs);
        },
        refl,
        refl,
      )

  pub new_ring-Fifo :
      (ring : Ring A) (buffer_size pool_cnt : ℕ)
      → new_ring buffer_size pool_cnt ≡ some ring
      → 0 < buffer_size
      → buffer_size < 2 ^ 16
      → 0 < pool_cnt
      → pool_cnt ≤ 2 ^ 15
      → Fifo ring 0 []
  new_ring-Fifo ring bs n made bpos bshort npos few =
      let (ring', e, f, same_bs, same_n) = new_ring_lem bs n bpos bshort npos few in
      subst (λ x. Fifo x 0 []) (some_inj (sym e ∙ made)) f
