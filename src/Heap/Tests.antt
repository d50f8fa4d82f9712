-- ===== src/Heap/Tests.antt =====
-- Runs of heap.c on a heap of three keys, and its theorems there.
use randserver.Base.{
  ℕ, zero, suc, ◌+◌, ◌*◌, ◌/◌, u32, ◌⊎◌, inl, ◌<◌, ◌≡◌, refl, false, none, some, List, [], ◌∷◌,
  length, ltb, if◌then◌else◌, arith,
}
use randserver.Base.Int.{ℤ, pos, negsuc}
use randserver.Heap.{Heap, Realloc, check_gc, push, pop, get}
use randserver.Heap.Cells.{at}
use randserver.Heap.Order.{Above, IsHeap}
use randserver.Heap.Gc.{IsValid, IsRealloc, Carries, check_gc-Carries, check_gc-dropped}
use randserver.Heap.Push.{Pushed, push-Pushed}
use randserver.Heap.Pop.{Popped, pop-Popped}
use randserver.Heap.Get.{get_lem}

-- A `realloc` that fills new cells with 0, and one that never has memory.
abbrev resize : List ℤ → ℕ → List ℤ
resize xs zero = []
resize [] (suc n) = pos 0 ∷ resize [] n
resize (x ∷ xs) (suc n) = x ∷ resize xs n

abbrev memory : Realloc
memory xs n = some (resize xs n)

abbrev no_memory : Realloc
no_memory xs n = none

length-resize : (xs : List ℤ) (n : ℕ) → length (resize xs n) ≡ n
length-resize xs zero = refl
length-resize [] (suc n) = omega (arith, length-resize [] n)
length-resize (x ∷ xs) (suc n) = omega (arith, length-resize xs n)

at-resize : (xs : List ℤ) (n i : ℕ) → i < n → i < length xs → at (resize xs n) i ≡ at xs i
unfolding at
at-resize xs zero i p q = absurd (omega arith)
at-resize [] (suc n) i p q = absurd (omega arith)
at-resize (x ∷ xs) (suc n) zero p q = refl
at-resize (x ∷ xs) (suc n) (suc i) p q = at-resize xs n i (omega arith) (omega arith)

memory-IsRealloc : IsRealloc memory
memory-IsRealloc xs n = (resize xs n, refl, length-resize xs n, at-resize xs n)

-- Three keys, the least first, in a block of eight.
abbrev cells : List ℤ
cells = resize (negsuc 4 ∷ pos 3 ∷ pos 2 ∷ []) 8

abbrev three : Heap
three = record { size = 3; max_size = 8; nodes = cells; gc_tick = 7; big_head = false }

three-IsValid : IsValid three
three-IsValid = record {
  within = omega arith;
  block = refl;
  bounded = omega arith;
  ticks = omega arith;
}

three-IsHeap : IsHeap false 3 cells
unfolding at
three-IsHeap zero p q = absurd (omega arith)
three-IsHeap (suc zero) p q = ground arith
three-IsHeap (suc (suc zero)) p q = ground arith
three-IsHeap (suc (suc (suc c))) p q = absurd (omega arith)

push-Pushed_example :
    (h' : Heap) × (push memory memory three (pos 1) ≡ some h') × Pushed (pos 1) three h'
push-Pushed_example =
    push-Pushed memory memory three (pos 1) memory-IsRealloc memory-IsRealloc three-IsValid
      three-IsHeap (omega arith)

pop-Popped_example :
    (h' : Heap) × (pop memory three (pos 0) ≡ some (h', some (at cells 0)))
    × Popped (at cells 0) three h'
    × (◌≡◌ {A = ℕ} 0 0 → (i : ℕ) → i < 3 → Above false (at cells 0) (at cells i))
pop-Popped_example =
    pop-Popped memory three 0 memory-IsRealloc three-IsValid three-IsHeap (omega arith)
      (λ p. absurd (omega arith))

check_gc-Carries_example : Carries three (check_gc memory three)
check_gc-Carries_example = check_gc-Carries memory three memory-IsRealloc three-IsValid

check_gc-dropped_example :
    Carries three (check_gc no_memory three)
    ⊎ (IsValid (check_gc no_memory three)
        × ((check_gc no_memory three).size ≡ 0)
        × (three.size * 2 < three.max_size)
        × (three.gc_tick ≡ 7)
        × (no_memory three.nodes (u32 (three.max_size + 1) / 2) ≡ none))
check_gc-dropped_example = check_gc-dropped no_memory three (λ xs n. inl refl) three-IsValid

get_lem_example :
    (get three (pos 1) ≡ some (if ltb 1 3 then some (at cells 1) else none))
    × (get three (negsuc 1) ≡ some none)
    × (1 < 3 → Above false (at cells 0) (at cells 1))
get_lem_example = get_lem three 1 three-IsValid three-IsHeap

-- At an inner index the last key can end below a key that it has to stand above: 1 over 9 is taken
-- out, and 3 goes under 8.
abbrev uneven : Heap
uneven = record {
  size = 7;
  max_size = 8;
  nodes = resize (pos 1 ∷ pos 8 ∷ pos 2 ∷ pos 9 ∷ pos 10 ∷ pos 4 ∷ pos 3 ∷ []) 8;
  gc_tick = 0;
  big_head = false;
}

pop_inner_unordered :
    pop no_memory uneven (pos 3)
    ≡ some (
      record uneven {
        size = 6;
        nodes = resize (pos 1 ∷ pos 8 ∷ pos 2 ∷ pos 3 ∷ pos 10 ∷ pos 4 ∷ pos 3 ∷ []) 8;
      },
      some (pos 9),
    )
unfolding pop
pop_inner_unordered = refl
