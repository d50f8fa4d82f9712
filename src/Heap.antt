-- ===== src/Heap.antt =====
-- engine/tool/heap.c: a binary heap of 64-bit keys in a growing array. `none` is a read or write
-- outside the allocated block, or the model's fuel running out.
pub mod Cells
pub mod Order
pub mod Up
pub mod Down
pub mod Gc
pub mod Push
pub mod Pop
pub mod Get
mod Tests
use randserver.Base.{
  ℕ, zero, suc, ◌+◌, ◌-◌, ◌*◌, ◌/◌, Bool, true, false, Option, none, some, List, [], length,
  get_elem?, store, ltb, leb, ◌==◌, if◌then◌else◌, ◌>>=◌, u32, ◌&&◌, ◌||◌, not,
}
use randserver.Base.Int.{ℤ, pos, negsuc, leb_ℤ, ltb_ℤ}

-- `struct heap`; the list is the block that `nodes` points to, empty for a null pointer.
pub record Heap : Type 0 where
  pub size : ℕ
  pub max_size : ℕ
  pub nodes : List ℤ
  pub gc_tick : ℕ
  pub big_head : Bool

-- A call of `realloc`: the block and the new number of entries, and the new block or null.
abbrev pub Realloc : Type 0
Realloc = List ℤ → ℕ → Option (List ℤ)

-- `heap_init`
pub init : Bool → Heap
init big_head = record { size = 0; max_size = 0; nodes = []; gc_tick = 0; big_head = big_head }

-- What `heap_push` and `check_gc` leave when `realloc` gives null.
pub dropped : Heap → Heap
dropped h = record h { size = 0; max_size = 0; nodes = [] }

-- `check_gc`
pub check_gc : Realloc → Heap → Heap
unfolding dropped
check_gc realloc h =
    let new_size = u32 (h.max_size + 1) / 2 in
    let tick = h.gc_tick + 1 in
    let shrunk : Heap = elim (realloc h.nodes new_size) [
      | none ↦ record (dropped h) { gc_tick = 0 }
      | some block ↦ record h { nodes = block; max_size = new_size; gc_tick = 0 }
    ] in
    if leb h.max_size (u32 (h.size * 2))
    then record h { gc_tick = 0 }
    else if leb 8 tick
    then shrunk
    else record h { gc_tick = tick }

-- The tests that end the loop of `heap_push`: the key may stay below `parent`.
pub may_stay : Bool → ℤ → ℤ → Bool
may_stay big_head parent key = (big_head && leb_ℤ key parent) || (not big_head && leb_ℤ parent key)

-- `a` has to stand above `b`: the two tests of the loop of `heap_pop`.
pub beats : Bool → ℤ → ℤ → Bool
beats big_head a b = (big_head && ltb_ℤ b a) || (not big_head && ltb_ℤ a b)

-- The loop of `heap_push`: the block and the index where the key goes.
pub sift_up : ℕ → Bool → List ℤ → ℕ → ℤ → Option (List ℤ × ℕ)
unfolding may_stay
sift_up zero big_head nodes index key = none
sift_up (suc fuel) big_head nodes index key =
    let parent_index = (index - 1) / 2 in
    let step = do
      parent ← get_elem? nodes parent_index
      let rise = store nodes index parent >>= λ ns. sift_up fuel big_head ns parent_index key
      if may_stay big_head parent key then some (nodes, index) else rise
    in if ltb 0 index then step else some (nodes, index)

-- The part of `heap_push` behind the growth of the block.
pub place_key : Realloc → Heap → ℤ → Option Heap
unfolding sift_up check_gc
place_key gc h key = do
  (nodes, index) ← sift_up (h.size + 1) h.big_head h.nodes h.size key
  nodes' ← store nodes index key
  some (check_gc gc (record h { nodes = nodes'; size = u32 (h.size + 1) }))

-- `heap_push`, with the answers of its two calls of `realloc`.
pub push : Realloc → Realloc → Heap → ℤ → Option Heap
unfolding place_key dropped
push grow gc h key =
    let new_size = if ltb h.max_size 8 then 8 else u32 (h.max_size * 2) in
    let grown : Option Heap = elim (grow h.nodes new_size) [
      | none ↦ some (dropped h)
      | some block ↦ place_key gc (record h { nodes = block; max_size = new_size }) key
    ] in
    if h.max_size == h.size then grown else place_key gc h key

-- The child that the loop of `heap_pop` looks at.
pub best_child : Bool → ℕ → List ℤ → ℕ → Option ℕ
unfolding beats
best_child big_head size nodes child_index =
    let second = do
      a ← get_elem? nodes child_index
      b ← get_elem? nodes (child_index + 1)
      if beats big_head b a then some (child_index + 1) else some child_index
    in if leb (child_index + 1) (size - 1) then second else some child_index

-- The loop of `heap_pop`: the block and the index where the last key goes.
pub sift_down : ℕ → Bool → ℕ → List ℤ → ℕ → ℤ → Option (List ℤ × ℕ)
unfolding best_child beats
sift_down zero big_head size nodes parent_index key = none
sift_down (suc fuel) big_head size nodes parent_index key =
    let first_child = u32 (parent_index * 2 + 1) in
    let step = do
      child_index ← best_child big_head size nodes first_child
      child ← get_elem? nodes child_index
      let sink =
          store nodes parent_index child >>= λ ns. sift_down fuel big_head size ns child_index key
      if beats big_head child key then sink else some (nodes, parent_index)
    in if ltb parent_index size
      then if leb size first_child then some (nodes, parent_index) else step
      else some (nodes, parent_index)

-- `heap_pop` from `--hp->size` on; `last` is the new size.
pub remove_at : Realloc → Heap → ℕ → ℕ → Option (Heap × Option ℤ)
unfolding sift_down check_gc
remove_at gc h last index =
    let moved = do
      key ← get_elem? h.nodes last
      (nodes, parent_index) ← sift_down (last + 1) h.big_head last h.nodes index key
      store nodes parent_index key
    in do
      popped ← get_elem? h.nodes index
      nodes ← if index == last then some h.nodes else moved
      some (check_gc gc (record h { nodes = nodes; size = last }), some popped)

-- `heap_pop`: `none` for the result 0.
pub pop : Realloc → Heap → ℤ → Option (Heap × Option ℤ)
unfolding remove_at
pop gc h (negsuc n) = some (h, none)
pop gc h (pos index) =
    if leb h.size index then some (h, none) else remove_at gc h (h.size - 1) index

-- `heap_get`
pub get : Heap → ℤ → Option (Option ℤ)
get h (negsuc n) = some none
get h (pos index) =
    let found = get_elem? h.nodes index >>= λ key. some (some key) in
    if leb h.size index then some none else found
