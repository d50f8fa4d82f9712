-- ===== src/Heap/Down.antt =====
-- The loop of `heap_pop` restores the heap order below the removed key.
use randserver.Base.{
  ℕ, zero, suc, ◌+◌, ◌-◌, ◌*◌, ◌^◌, ◌≤◌, ◌<◌, ◌≡◌, ◌≢◌, refl, ◌∙◌, ◌⊎◌, Bool, true, false,
  Bool-cases, inl, inr, some, List, length, set, length-set, leb, lt→ltb, u32, arith,
}
use randserver.Base.Int.{ℤ}
use randserver.Heap.{beats, best_child, sift_down}
use randserver.Heap.Cells.{at, get_elem?-at, at-set, occ, occ-set}
use randserver.Heap.Order.{Above, Settled, parent, virtual, beats-true, beats-false}

-- With the key at `i`, all edges but those from `i` to its children are in order, and so are those
-- past `i`.
pub record Sinking (big : Bool) (n : ℕ) (xs : List ℤ) (i : ℕ) (key : ℤ) : Type 0 where
  pub edges :
      (c : ℕ)
      → 0 < c
      → c < n
      → parent c ≢ i
      → Above big (virtual xs i key (parent c)) (virtual xs i key c)
  pub bridge :
      (c : ℕ)
      → 0 < c
      → c < n
      → parent c ≡ i
      → 0 < i
      → Above big (virtual xs i key (parent i)) (virtual xs i key c)

-- The child that is chosen stands above its sibling.
record Best (big : Bool) (n : ℕ) (xs : List ℤ) (i c : ℕ) : Type 0 where
  inside : c < n
  child : parent c ≡ i
  positive : 0 < c
  above : (d : ℕ) → 0 < d → d < n → parent d ≡ i → Above big (at xs c) (at xs d)

children : (d i : ℕ) → 0 < d → parent d ≡ i → (d ≡ 2 * i + 1) ⊎ (d ≡ 2 * i + 1 + 1)
children d i p e = omega arith

best_child-Best :
    (big : Bool) (n : ℕ) (xs : List ℤ) (i : ℕ)
    → 2 * i + 1 < n
    → n ≤ length xs
    → (c : ℕ) × (best_child big n xs (2 * i + 1) ≡ some c) × Best big n xs i c
unfolding best_child
best_child-Best big n xs i b l = elim (Bool-cases (leb (2 * i + 1 + 1) (n - 1))) [
  | inr lone ↦ (
    2 * i + 1,
    rw lone,
    record {
      inside = b;
      child = omega arith;
      positive = omega arith;
      above = λ d p q e. ground (arith, children d i p e);
    },
  )
  | inl two ↦
      let first = get_elem?-at xs (2 * i + 1) (omega arith) in
      let second = get_elem?-at xs (2 * i + 1 + 1) (ground arith) in
      elim (Bool-cases (beats big (at xs (2 * i + 1 + 1)) (at xs (2 * i + 1)))) [
        | inl right ↦ (
          2 * i + 1 + 1,
          rw (two, first, second, right) refl,
          record {
            inside = ground arith;
            child = omega arith;
            positive = omega arith;
            above = λ d p q e. ground (
              arith,
              children d i p e,
              beats-true big (at xs (2 * i + 1 + 1)) (at xs (2 * i + 1)) right,
            );
          },
        )
        | inr left ↦ (
          2 * i + 1,
          rw (two, first, second, left) refl,
          record {
            inside = b;
            child = omega arith;
            positive = omega arith;
            above = λ d p q e. ground (
              arith,
              children d i p e,
              beats-false big (at xs (2 * i + 1 + 1)) (at xs (2 * i + 1)) left,
            );
          },
        )
      ]
]

module _ (big : Bool) (n : ℕ) (key : ℤ) where
  stop :
      (xs : List ℤ) (i : ℕ)
      → i < n
      → n ≤ length xs
      → Sinking big n xs i key
      → ((c : ℕ) → 0 < c → c < n → parent c ≡ i → Above big key (at xs c))
      → Settled big n xs i key (xs, i)
  stop xs i b l inv low = record {
    inside = b;
    length_kept = refl;
    heap = λ c p q. ground (
      arith,
      inv.edges c p q,
      low c p q,
      at-set xs i c key (omega arith),
      at-set xs i (parent c) key (omega arith),
    );
    keys = λ a. refl;
  }

  sink :
      (xs : List ℤ) (i c : ℕ)
      → i < n
      → n ≤ length xs
      → Sinking big n xs i key
      → Best big n xs i c
      → Above big (at xs c) key
      → Sinking big n (set xs i (at xs c)) c key
  sink xs i c b l inv best better =
      let child = at xs c in
      record {
        edges = λ d p q ne. ground (
          arith,
          inv.edges d p q,
          inv.bridge c best.positive best.inside best.child,
          best.above d p q,
          best.child,
          best.positive,
          at-set xs i d child (omega arith),
          at-set xs i (parent d) child (omega arith),
        );
        bridge = λ d p q e pos. ground (
          arith,
          inv.edges d p q,
          best.child,
          best.positive,
          at-set xs i d child (omega arith),
          at-set xs i (parent c) child (omega arith),
        );
      }

  sink-occ :
      (xs : List ℤ) (i c : ℕ) (a p : ℤ)
      → c < n
      → i < c
      → n ≤ length xs
      → p ≡ at xs c
      → occ a n (set (set xs i p) c key) ≡ occ a n (set xs i key)
  sink-occ xs i c a p b pos l e =
      let kept : at (set xs i p) c ≡ at xs c = ground (arith, at-set xs i c p) in
      ground (
        arith,
        kept,
        length-set xs i p,
        occ-set a n xs i p (omega arith) (omega arith),
        occ-set a n xs i key (omega arith) (omega arith),
        occ-set a n (set xs i p) c key b (omega (arith, length-set xs i p)),
      )

  -- One round of the loop at a node with a child.
  module _ (fuel : ℕ) (xs : List ℤ) (i c : ℕ) (b : i < n) (m : n < 2 ^ 31) (l : n ≤ length xs)
      (has_child : leb n (2 * i + 1) ≡ false) (chosen : best_child big n xs (2 * i + 1) ≡ some c)
      (inside : c < n) where
    first_child : u32 (i * 2 + 1) ≡ 2 * i + 1
    first_child = omega arith

    round_sink :
        beats big (at xs c) key ≡ true
        → sift_down (suc fuel) big n xs i key ≡ sift_down fuel big n (set xs i (at xs c)) c key
    unfolding sift_down
    round_sink down =
        rw
          (
            lt→ltb i n b,
            first_child,
            has_child,
            chosen,
            get_elem?-at xs c (omega arith),
            down,
            lt→ltb i (length xs) (omega arith),
          )
          refl

    round_stay :
        beats big (at xs c) key ≡ false → sift_down (suc fuel) big n xs i key ≡ some (xs, i)
    unfolding sift_down
    round_stay stay =
        rw (lt→ltb i n b, first_child, has_child, chosen, get_elem?-at xs c (omega arith), stay)
          refl

  round_leaf :
      (fuel : ℕ) (xs : List ℤ) (i : ℕ)
      → i < n
      → n < 2 ^ 31
      → leb n (2 * i + 1) ≡ true
      → sift_down (suc fuel) big n xs i key ≡ some (xs, i)
  unfolding sift_down
  round_leaf fuel xs i b m none_left =
      let first : u32 (i * 2 + 1) ≡ 2 * i + 1 = omega arith in
      rw (lt→ltb i n b, first, none_left) refl

  -- From a block where only the edges below `i` may be wrong the loop returns within `n - i` rounds,
  -- and the key at its index gives a heap of the same keys.
  pub sift_down-Settled :
      (fuel : ℕ) (xs : List ℤ) (i : ℕ)
      → n < i + fuel
      → i < n
      → n < 2 ^ 31
      → n ≤ length xs
      → Sinking big n xs i key
      → (r : List ℤ × ℕ) × (sift_down fuel big n xs i key ≡ some r) × Settled big n xs i key r
  sift_down-Settled zero xs i f b m l inv = absurd (omega arith)
  sift_down-Settled (suc fuel) xs i f b m l inv = elim (Bool-cases (leb n (2 * i + 1))) [
    | inl none_left ↦ (
      (xs, i),
      round_leaf fuel xs i b m none_left,
      stop xs i b l inv (λ c p q e. absurd (ground arith)),
    )
    | inr has_child ↦
        let (c, chosen, best) = best_child-Best big n xs i (ground arith) l in
        elim (Bool-cases (beats big (at xs c) key)) [
          | inr stay ↦ (
            (xs, i),
            round_stay fuel xs i c b m l has_child chosen best.inside stay,
            stop xs i b l inv
                (λ d p q e. omega (arith, best.above d p q e, beats-false big (at xs c) key stay)),
          )
          | inl down ↦
              let (r, er, sr) =
                sift_down-Settled fuel (set xs i (at xs c)) c
                  (omega (arith, best.child, best.positive)) best.inside m
                  (omega (arith, length-set xs i (at xs c)))
                  (sink xs i c b l inv best (beats-true big (at xs c) key down)) in
              (
                r,
                round_sink fuel xs i c b m l has_child chosen best.inside down ∙ er,
                record {
                  inside = sr.inside;
                  length_kept = sr.length_kept ∙ length-set xs i (at xs c);
                  heap = sr.heap;
                  keys = λ a.
                      sr.keys a
                      ∙ sink-occ xs i c a (at xs c) best.inside
                          (omega (arith, best.child, best.positive)) l refl;
                },
              )
        ]
  ]
