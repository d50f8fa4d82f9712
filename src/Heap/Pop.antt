-- ===== src/Heap/Pop.antt =====
-- `heap_pop` takes one key out.
use randserver.Base.{
  ℕ, suc, ◌+◌, ◌-◌, ◌≤◌, ◌<◌, ◌≡◌, refl, ap, ◌∙◌, false, Bool-cases, inl, inr, some, List, length,
  set, length-set, leb, lt→ltb, ◌==◌, arith,
}
use randserver.Base.Int.{ℤ, pos}
use randserver.Heap.{Heap, Realloc, check_gc, remove_at, pop}
use randserver.Heap.Cells.{at, get_elem?-at, occ, same, occ-set, occ-suc}
use randserver.Heap.Order.{Above, IsHeap, parent, root-Above}
use randserver.Heap.Down.{Sinking, sift_down-Settled}
use randserver.Heap.Gc.{IsValid, IsRealloc, check_gc-Carries, Carries-IsHeap, Carries-occ}

-- `h'` is a valid heap with the keys of `h` but one `key`, still in order.
pub record Popped (key : ℤ) (h h' : Heap) : Type 0 where
  pub valid : IsValid h'
  pub ordered : IsHeap h'.big_head h'.size h'.nodes
  pub shrunk : h.size ≡ h'.size + 1
  pub big_kept : h'.big_head ≡ h.big_head
  pub keys : (a : ℤ) → occ a h.size h.nodes ≡ occ a h'.size h'.nodes + same a key

-- The first `last` cells of a valid heap, rearranged in place.
settle_pop :
    (gc : Realloc) (h : Heap) (last : ℕ) (ns : List ℤ) (key : ℤ)
    → IsRealloc gc
    → IsValid h
    → h.size ≡ suc last
    → length ns ≡ length h.nodes
    → IsHeap h.big_head last ns
    → ((a : ℤ) → occ a h.size h.nodes ≡ occ a last ns + same a key)
    → Popped key h (check_gc gc (record h { nodes = ns; size = last }))
settle_pop gc h last ns key re v e len o keys =
    let cut : Heap = record h { nodes = ns; size = last } in
    let valid : IsValid cut = record {
      within = omega (arith, v.within);
      block = len ∙ v.block;
      bounded = v.bounded;
      ticks = v.ticks;
    } in
    let carried = check_gc-Carries gc cut re valid in
    record {
      valid = carried.valid;
      ordered = Carries-IsHeap cut (check_gc gc cut) carried o;
      shrunk = omega (arith, carried.size_kept);
      big_kept = carried.big_kept;
      keys = λ a. omega (arith, keys a, Carries-occ cut (check_gc gc cut) carried valid a);
    }

remove_at-Popped :
    (gc : Realloc) (h : Heap) (last index : ℕ)
    → IsRealloc gc
    → IsValid h
    → IsHeap h.big_head h.size h.nodes
    → h.size ≡ suc last
    → index ≤ last
    → (0 < index → Above h.big_head (at h.nodes (parent index)) (at h.nodes last))
    → (h' : Heap) × (remove_at gc h last index ≡ some (h', some (at h.nodes index)))
      × Popped (at h.nodes index) h h'
unfolding remove_at
remove_at-Popped gc h last index re v o e b fit =
    let whole : (a : ℤ) → occ a h.size h.nodes ≡ occ a last h.nodes + same a (at h.nodes last) =
      λ a.
        ap (λ n. occ a n h.nodes) e ∙ occ-suc a last h.nodes (omega (arith, v.within, v.block)) in
    elim (Bool-cases (index == last)) [
      | inl end ↦ (
        _,
        rw (get_elem?-at h.nodes index (omega (arith, v.within, v.block)), end) refl,
        settle_pop gc h last h.nodes (at h.nodes index) re v e refl (λ c p q. o c p (omega arith))
            (λ a. ground (arith, whole a)),
      )
      | inr inner ↦
          let sinking : Sinking h.big_head last h.nodes index (at h.nodes last) = record {
            edges = λ c p q ne. ground (arith, o c p, fit);
            bridge = λ c p q at_index pos. ground (arith, o c p, o index pos);
          } in
          let key = at h.nodes last in
          let (r, er, st) =
            sift_down-Settled h.big_head last key (last + 1) h.nodes index (omega arith)
              (ground arith) (omega (arith, v.within, v.bounded)) (omega (arith, v.within, v.block))
              sinking in
          (
            _,
            rw
                (
                  get_elem?-at h.nodes index (omega (arith, v.within, v.block)),
                  inner,
                  get_elem?-at h.nodes last (omega (arith, v.within, v.block)),
                  er,
                  lt→ltb r.1 (length r.0)
                      (omega (arith, st.inside, st.length_kept, v.within, v.block)),
                )
                refl,
            settle_pop gc h last (set r.0 r.1 key) (at h.nodes index) re v e
                (length-set r.0 r.1 key ∙ st.length_kept) st.heap
                (λ a. omega (
                  arith,
                  whole a,
                  st.keys a,
                  occ-set a last h.nodes index (at h.nodes last) (ground arith)
                      (omega (arith, v.within, v.block)),
                )),
          )
    ]

-- `heap_pop` at an index within a valid heap in order, with memory left, where the last key may stand
-- below the parent of the index (for the root there is no such condition): it returns the key at that
-- index and a valid heap, still in order, that holds the other keys, as often. The key returned at
-- the root may stand above every key of the heap.
pub pop-Popped :
    (gc : Realloc) (h : Heap) (index : ℕ)
    → IsRealloc gc
    → IsValid h
    → IsHeap h.big_head h.size h.nodes
    → index < h.size
    → (0 < index → Above h.big_head (at h.nodes (parent index)) (at h.nodes (h.size - 1)))
    → (h' : Heap) × (pop gc h (pos index) ≡ some (h', some (at h.nodes index)))
      × Popped (at h.nodes index) h h'
      × (index ≡ 0 → (i : ℕ) → i < h.size → Above h.big_head (at h.nodes index) (at h.nodes i))
unfolding pop
pop-Popped gc h index re v o b fit =
    let inside : leb h.size index ≡ false = ground arith in
    let (h', e, p) =
      remove_at-Popped gc h (h.size - 1) index re v o (omega arith) (omega arith) fit in
    (h', rw inside e, p, λ first i l. rw first (root-Above h.big_head h.size h.nodes i o l))
