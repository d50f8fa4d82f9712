-- ===== src/Heap/Push.antt =====
-- `heap_push` puts one key in.
use randserver.Base.{
  ℕ, suc, ◌+◌, ◌*◌, ◌^◌, ◌<◌, ◌≡◌, refl, ap, ◌∙◌, Bool-cases, inl, inr, some, List, length, set,
  length-set, ltb, lt→ltb, ◌==◌, if◌then◌else◌, u32, arith,
}
use randserver.Base.Int.{ℤ}
use randserver.Heap.{Heap, Realloc, check_gc, place_key, push}
use randserver.Heap.Cells.{occ, same, occ-set, occ-suc}
use randserver.Heap.Order.{IsHeap, Settled}
use randserver.Heap.Up.{sift_up-Settled, Rising-last}
use randserver.Heap.Gc.{IsValid, IsRealloc, Carries, check_gc-Carries, Carries-IsHeap, Carries-occ}

-- `h'` is a valid heap in order with the keys of `h` and one more.
pub record Pushed (key : ℤ) (h h' : Heap) : Type 0 where
  pub valid : IsValid h'
  pub ordered : IsHeap h'.big_head h'.size h'.nodes
  pub grown : h'.size ≡ h.size + 1
  pub big_kept : h'.big_head ≡ h.big_head
  pub keys : (a : ℤ) → occ a h'.size h'.nodes ≡ occ a h.size h.nodes + same a key

-- A block in which the loop of `heap_push` has settled, with the key written and the size raised.
settle_push :
    (gc : Realloc) (h : Heap) (key : ℤ) (r : List ℤ × ℕ) (m : ℕ)
    → IsRealloc gc
    → IsValid h
    → h.size < h.max_size
    → m ≡ h.size + 1
    → Settled h.big_head m h.nodes h.size key r
    → Pushed key h (check_gc gc (record h { nodes = set r.0 r.1 key; size = m }))
settle_push gc h key r m re v room e settled =
    let full : Heap = record h { nodes = set r.0 r.1 key; size = m } in
    let step : m ≡ suc h.size = omega arith in
    let len : length (set r.0 r.1 key) ≡ h.max_size =
      length-set r.0 r.1 key ∙ settled.length_kept ∙ v.block in
    let valid : IsValid full = record {
      within = omega arith;
      block = len;
      bounded = v.bounded;
      ticks = v.ticks;
    } in
    let carried = check_gc-Carries gc full re valid in
    record {
      valid = carried.valid;
      ordered = Carries-IsHeap full (check_gc gc full) carried settled.heap;
      grown = carried.size_kept ∙ e;
      big_kept = carried.big_kept;
      keys = λ a. omega (
        arith,
        Carries-occ full (check_gc gc full) carried valid a,
        settled.keys a,
        occ-set a m h.nodes h.size key (omega arith) (omega (arith, v.block)),
        ap (λ n. occ a n h.nodes) step ∙ occ-suc a h.size h.nodes (omega (arith, v.block)),
      );
    }

place_key-Pushed :
    (gc : Realloc) (h : Heap) (key : ℤ)
    → IsRealloc gc
    → IsValid h
    → IsHeap h.big_head h.size h.nodes
    → h.size < h.max_size
    → (h' : Heap) × (place_key gc h key ≡ some h') × Pushed key h h'
unfolding place_key
place_key-Pushed gc h key re v o room =
    let (r, er, settled) =
      sift_up-Settled h.big_head (h.size + 1) key (h.size + 1) h.nodes h.size (omega arith)
        (omega arith) (omega (arith, v.block)) (Rising-last h.big_head h.size key h.nodes o) in
    let size : u32 (h.size + 1) ≡ h.size + 1 = omega (arith, v.bounded) in
    (
      _,
      rw (er, lt→ltb r.1 (length r.0) (omega (arith, settled.inside, settled.length_kept, v.block)))
          refl,
      settle_push gc h key r (u32 (h.size + 1)) re v room size (rw size settled),
    )

-- `heap_push` on a valid heap in order of less than 2 ^ 30 keys, with memory left: it returns a
-- valid heap in order that holds the same keys, as often, and the new one once more.
pub push-Pushed :
    (grow gc : Realloc) (h : Heap) (key : ℤ)
    → IsRealloc grow
    → IsRealloc gc
    → IsValid h
    → IsHeap h.big_head h.size h.nodes
    → h.size < 2 ^ 30
    → (h' : Heap) × (push grow gc h key ≡ some h') × Pushed key h h'
unfolding push
push-Pushed grow gc h key rg re v o few = elim (Bool-cases (h.max_size == h.size)) [
  | inr room ↦ rw room (place_key-Pushed gc h key re v o (ground (arith, v.within)))
  | inl full ↦
      let new_size = if ltb h.max_size 8 then 8 else u32 (h.max_size * 2) in
      let (ys, e, len, agree) = rg h.nodes new_size in
      let large : (h.size < new_size) × (new_size < 2 ^ 31) = ground arith in
      let h1 : Heap = record h { nodes = ys; max_size = new_size } in
      let carried : Carries h h1 = record {
        valid = record {
          within = omega (arith, large);
          block = len;
          bounded = large.1;
          ticks = v.ticks;
        };
        size_kept = refl;
        big_kept = refl;
        cells = λ i l. agree i (omega (arith, large)) (omega (arith, v.block, v.within));
      } in
      let (h', eh, p) =
        place_key-Pushed gc h1 key re carried.valid (Carries-IsHeap h h1 carried o) large.0 in
      (
        h',
        rw (full, e) eh,
        record {
          valid = p.valid;
          ordered = p.ordered;
          grown = p.grown;
          big_kept = p.big_kept;
          keys = λ a. omega (arith, p.keys a, Carries-occ h h1 carried v a);
        },
      )
]
