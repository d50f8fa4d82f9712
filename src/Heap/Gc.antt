-- ===== src/Heap/Gc.antt =====
-- The shrinking of the block in `check_gc`.
use randserver.Base.{
  ℕ, ◌+◌, ◌*◌, ◌/◌, ◌^◌, ◌≤◌, ◌<◌, ◌≡◌, refl, sym, ap, ◌∙◌, ◌⊎◌, Bool-cases, inl, inr, none, some,
  List, length, leb, u32, arith,
}
use mathlib.Core.Option.{none-ne-some}
use randserver.Base.Int.{ℤ}
use randserver.Heap.{Heap, Realloc, dropped, check_gc}
use randserver.Heap.Cells.{at, occ, occ-agree}
use randserver.Heap.Order.{IsHeap, parent}

-- The fields fit the block, and no index computation wraps.
pub record IsValid (h : Heap) : Type 0 where
  pub within : h.size ≤ h.max_size
  pub block : length h.nodes ≡ h.max_size
  pub bounded : h.max_size < 2 ^ 31
  pub ticks : h.gc_tick < 8

-- `realloc` as it is documented, where memory is left: a block of the new length that begins with
-- the old entries.
abbrev pub IsRealloc : Realloc → Type 0
IsRealloc f =
    (xs : List ℤ) (n : ℕ)
    → (ys : List ℤ) × (f xs n ≡ some ys)
      × (length ys ≡ n)
      × ((i : ℕ) → i < n → i < length xs → at ys i ≡ at xs i)

-- `h'` holds the keys of `h` in the same places.
pub record Carries (h h' : Heap) : Type 0 where
  pub valid : IsValid h'
  pub size_kept : h'.size ≡ h.size
  pub big_kept : h'.big_head ≡ h.big_head
  pub cells : (i : ℕ) → i < h.size → at h'.nodes i ≡ at h.nodes i

-- `realloc` as it is documented, where memory may be short: null, or such a block.
abbrev pub IsFallible : Realloc → Type 0
IsFallible f =
    (xs : List ℤ) (n : ℕ)
    → (f xs n ≡ none)
      ⊎ ((ys : List ℤ) × (f xs n ≡ some ys)
          × (length ys ≡ n)
          × ((i : ℕ) → i < n → i < length xs → at ys i ≡ at xs i))

-- With a `realloc` that may give null, `check_gc` on a valid heap either carries every key in its
-- place, or has lost all of them: then the block was more than twice as large as the heap, the call
-- was the eighth such in a row, and `realloc` gave null. The heap is valid in both cases.
pub check_gc-dropped :
    (gc : Realloc) (h : Heap)
    → IsFallible gc
    → IsValid h
    → Carries h (check_gc gc h)
      ⊎ (IsValid (check_gc gc h)
          × ((check_gc gc h).size ≡ 0)
          × (h.size * 2 < h.max_size)
          × (h.gc_tick ≡ 7)
          × (gc h.nodes (u32 (h.max_size + 1) / 2) ≡ none))
unfolding check_gc dropped
check_gc-dropped gc h re v = elim (Bool-cases (leb h.max_size (u32 (h.size * 2)))) [
  | inl full ↦ rw full (inl (stays 0 (omega arith)))
  | inr sparse ↦
      let low : h.size * 2 < h.max_size = ground (arith, v.within, v.bounded) in
      elim (Bool-cases (leb 8 (h.gc_tick + 1))) [
        | inr early ↦ rw (sparse, early) (inl (stays (h.gc_tick + 1) (ground arith)))
        | inl due ↦ elim (re h.nodes (u32 (h.max_size + 1) / 2)) [
          | inl e ↦
              rw (sparse, due, e)
                (inr (
                  record {
                    within = omega arith;
                    block = refl;
                    bounded = omega arith;
                    ticks = omega arith;
                  },
                  refl,
                  low,
                  ground (arith, v.ticks),
                  refl,
                ))
          | inr (ys, e, len, agree) ↦
              rw (sparse, due, e)
                (inl (record {
                  valid = record {
                    within = omega (arith, v.bounded);
                    block = len;
                    bounded = omega (arith, v.bounded);
                    ticks = omega arith;
                  };
                  size_kept = refl;
                  big_kept = refl;
                  cells =
                      λ i l. agree i (omega (arith, v.bounded)) (omega (arith, v.block, v.within));
                }))
        ]
      ]
]
  where
    stays : (tick : ℕ) → tick < 8 → Carries h (record h { gc_tick = tick })
    stays tick few = record {
      valid = record { within = v.within; block = v.block; bounded = v.bounded; ticks = few };
      size_kept = refl;
      big_kept = refl;
      cells = λ i l. refl;
    }

-- With memory, `check_gc` on a valid heap leaves a valid heap with every key in its place:
-- shrinking the block never cuts a key off.
pub check_gc-Carries :
    (gc : Realloc) (h : Heap) → IsRealloc gc → IsValid h → Carries h (check_gc gc h)
check_gc-Carries gc h re v = elim (check_gc-dropped gc h (λ xs n. inr (re xs n)) v) [
  | inl kept ↦ kept
  | inr (_, _, _, _, lost) ↦
      let (ys, e, _, _) = re h.nodes (u32 (h.max_size + 1) / 2) in
      absurd (none-ne-some ys (sym lost ∙ e))
]

module _ (h h' : Heap) (k : Carries h h') where
  pub Carries-IsHeap : IsHeap h.big_head h.size h.nodes → IsHeap h'.big_head h'.size h'.nodes
  Carries-IsHeap o =
      λ c p q. ground (arith, k.big_kept, k.size_kept, k.cells c, k.cells (parent c), o c p)

  pub Carries-occ : IsValid h → (a : ℤ) → occ a h'.size h'.nodes ≡ occ a h.size h.nodes
  Carries-occ v a =
      ap (λ n. occ a n h'.nodes) k.size_kept
      ∙ occ-agree a h.size h.nodes h'.nodes (omega (arith, v.within, v.block))
          (omega (arith, k.valid.within, k.valid.block, k.size_kept)) k.cells
