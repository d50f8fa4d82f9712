-- ===== src/Heap/Get.antt =====
-- `heap_get` and `heap_init`.
use randserver.Base.{
  ℕ, ◌<◌, ◌≡◌, refl, Bool, true, false, Bool-cases, inl, inr, none, some, leb, ltb, if◌then◌else◌,
  arith,
}
use randserver.Base.Int.{pos, negsuc}
use randserver.Heap.{Heap, init, get}
use randserver.Heap.Cells.{at, get_elem?-at}
use randserver.Heap.Order.{Above, IsHeap, root-Above}
use randserver.Heap.Gc.{IsValid}

-- `heap_get` on a valid heap in order reads no cell outside the block: it gives the key at an index
-- within the heap and nothing at any other, and the key it gives at 0 may stand above all keys.
pub get_lem :
    (h : Heap) (i : ℕ)
    → IsValid h
    → IsHeap h.big_head h.size h.nodes
    → (get h (pos i) ≡ some (if ltb i h.size then some (at h.nodes i) else none))
      × (get h (negsuc i) ≡ some none)
      × (i < h.size → Above h.big_head (at h.nodes 0) (at h.nodes i))
unfolding get
get_lem h i v o = elim (Bool-cases (ltb i h.size)) [
  | inl lt ↦
      let inside : leb h.size i ≡ false = ground arith in
      (
        rw (lt, inside, get_elem?-at h.nodes i (ground (arith, v.within, v.block))) refl,
        refl,
        λ l. root-Above h.big_head h.size h.nodes i o l,
      )
  | inr ge ↦
      let outside : leb h.size i ≡ true = ground arith in
      (rw (ge, outside) refl, refl, λ l. root-Above h.big_head h.size h.nodes i o l)
]

-- The heap that `heap_init` leaves is valid and in order.
pub init_lem :
    (big_head : Bool)
    → IsValid (init big_head)
      × IsHeap (init big_head).big_head (init big_head).size (init big_head).nodes
unfolding init
init_lem big_head = (
  record { within = omega arith; block = refl; bounded = omega arith; ticks = omega arith },
  λ c p q. absurd (omega arith),
)
