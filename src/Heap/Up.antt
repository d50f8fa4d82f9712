-- ===== src/Heap/Up.antt =====
-- The loop of `heap_push` restores the heap order.
use randserver.Base.{
  ℕ, zero, suc, ◌+◌, ◌≤◌, ◌<◌, ◌≡◌, ◌≢◌, refl, ◌∙◌, Bool, Bool-cases, inl, inr, some, List, length,
  set, length-set, ltb, lt→ltb, ltb→lt, ltb→le, arith,
}
use randserver.Base.Int.{ℤ}
use randserver.Heap.{may_stay, sift_up}
use randserver.Heap.Cells.{at, get_elem?-at, at-set, occ, occ-set}
use randserver.Heap.Order.{Above, IsHeap, Settled, parent, virtual, may_stay-true, may_stay-false}

-- With the key at `i`, all edges but the one to `i` are in order, and so are those around `i`.
pub record Rising (big : Bool) (n : ℕ) (xs : List ℤ) (i : ℕ) (key : ℤ) : Type 0 where
  pub edges :
      (c : ℕ) → 0 < c → c < n → c ≢ i → Above big (virtual xs i key (parent c)) (virtual xs i key c)
  pub bridge :
      (c : ℕ)
      → 0 < c
      → c < n
      → parent c ≡ i
      → 0 < i
      → Above big (virtual xs i key (parent i)) (virtual xs i key c)

module _ (big : Bool) (n : ℕ) (key : ℤ) where
  finish :
      (xs : List ℤ) (i : ℕ)
      → i < n
      → n ≤ length xs
      → Rising big n xs i key
      → (0 < i → Above big (at xs (parent i)) key)
      → Settled big n xs i key (xs, i)
  finish xs i b l inv top = record {
    inside = b;
    length_kept = refl;
    heap = λ c p q. ground (
      arith,
      inv.edges c p q,
      top,
      at-set xs i c key (omega arith),
      at-set xs i (parent c) key (omega arith),
    );
    keys = λ a. refl;
  }

  rise :
      (xs : List ℤ) (i : ℕ)
      → i < n
      → 0 < i
      → n ≤ length xs
      → Rising big n xs i key
      → Above big key (at xs (parent i))
      → Rising big n (set xs i (at xs (parent i))) (parent i) key
  rise xs i b pos l inv worse = record {
    edges = λ c p q ne. ground (
      arith,
      inv.edges c p q,
      inv.bridge c p q,
      at-set xs i c (at xs (parent i)) (omega arith),
      at-set xs i (parent c) (at xs (parent i)) (omega arith),
    );
    bridge = λ c p q e pos'. ground (
      arith,
      inv.edges c p q,
      inv.edges (parent i),
      at-set xs i c (at xs (parent i)) (omega arith),
      at-set xs i (parent (parent i)) (at xs (parent i)) (omega arith),
    );
  }

  rise-occ :
      (xs : List ℤ) (i j : ℕ) (a p : ℤ)
      → i < n
      → j < i
      → n ≤ length xs
      → p ≡ at xs j
      → occ a n (set (set xs i p) j key) ≡ occ a n (set xs i key)
  rise-occ xs i j a p b pos l e =
      let kept : at (set xs i p) j ≡ at xs j = ground (arith, at-set xs i j p) in
      ground (
        arith,
        kept,
        length-set xs i p,
        occ-set a n xs i p b (omega arith),
        occ-set a n xs i key b (omega arith),
        occ-set a n (set xs i p) j key (omega arith) (omega (arith, length-set xs i p)),
      )

  -- From a block where only the edge to `i` may be wrong the loop returns within `i + 1` rounds, and
  -- the key at its index gives a heap of the same keys.
  pub sift_up-Settled :
      (fuel : ℕ) (xs : List ℤ) (i : ℕ)
      → i < fuel
      → i < n
      → n ≤ length xs
      → Rising big n xs i key
      → (r : List ℤ × ℕ) × (sift_up fuel big xs i key ≡ some r) × Settled big n xs i key r
  unfolding sift_up
  sift_up-Settled zero xs i f b l inv = absurd (omega arith)
  sift_up-Settled (suc fuel) xs i f b l inv = elim (Bool-cases (ltb 0 i)) [
    | inr root ↦
        ((xs, i), rw root, finish xs i b l inv (λ p. absurd (omega (arith, ltb→le 0 i root))))
    | inl inner ↦
        let pos = ltb→lt 0 i inner in
        let at_parent = get_elem?-at xs (parent i) (omega arith) in
        elim (Bool-cases (may_stay big (at xs (parent i)) key)) [
          | inl stay ↦ (
            (xs, i),
            rw (inner, at_parent, stay) refl,
            finish xs i b l inv (λ p. may_stay-true big _ key stay),
          )
          | inr up ↦
              let p = at xs (parent i) in
              let (r, er, sr) =
                sift_up-Settled fuel (set xs i p) (parent i) (omega arith) (omega arith)
                  (omega (arith, length-set xs i p))
                  (rise xs i b pos l inv (may_stay-false big _ key up)) in
              (
                r,
                rw (inner, at_parent, up, lt→ltb i (length xs) (omega arith)) er,
                record {
                  inside = sr.inside;
                  length_kept = sr.length_kept ∙ length-set xs i p;
                  heap = sr.heap;
                  keys = λ a. sr.keys a ∙ rise-occ xs i (parent i) a p b (omega arith) l refl;
                },
              )
        ]
  ]

pub Rising-last :
    (big : Bool) (m : ℕ) (key : ℤ) (xs : List ℤ) → IsHeap big m xs → Rising big (m + 1) xs m key
Rising-last big m key xs h = record {
  edges = λ c p q ne. ground (arith, h c p);
  bridge = λ c p q e pos. absurd (omega arith);
}
