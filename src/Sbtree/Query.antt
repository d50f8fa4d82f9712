-- ===== src/Sbtree/Query.antt =====
-- The queries of sbtree.c, against the list of the entries in order.
use randserver.Base.{
  ℕ, ◌+◌, ◌-◌, ◌^◌, ◌<◌, ◌≡◌, refl, sym, Bool, ◌⊎◌, inl, inr, Option, none, some, List, ◌∷◌, ◌++◌,
  get_elem?, get_elem?-middle, get_elem?-some, get_elem?-none, append_assoc, ltb, ltb→lt, ltb→le,
  ◌==◌, if◌then◌else◌, u32, arith, Bool-cases,
}
use randserver.Sbtree.{Tree, leaf, node, node_size, Entry}
use randserver.Sbtree.Shape.{inorder, count, HasShape, count-inorder}
use randserver.Sbtree.Rotate.{node_size-count}
use randserver.Sbtree.Order.{IsSorted, IsSorted-Parts}
use randserver.Sbtree.Count.{
  occurrences, below_cnt, occurrences-append, below_cnt-append, occurrences-AllGe,
  occurrences-AllLe, below_cnt-AllGe, below_cnt-AllLe, occurrences-le, below_cnt-le,
}

-- `sb_tree_find`: the entry of the node, or `none` for a null pointer.
pub find : Tree → ℕ → Option Entry
find leaf key = none
find (node l k v s r) key =
    let low = find l key in
    let high = find r key in if ltb key k then low else if ltb k key then high else some (k, v)

-- `sb_tree_find_cnt`
pub find_cnt : Tree → ℕ → ℕ
find_cnt leaf key = 0
find_cnt (node l k v s r) key =
    let low = find_cnt l key in
    let high = find_cnt r key in
    if ltb key k then low else if ltb k key then high else u32 (1 + low + high)

-- `sb_tree_lt`
pub lt_cnt : Tree → ℕ → ℕ
lt_cnt leaf key = 0
lt_cnt (node l k v s r) key =
    let low = lt_cnt l key in
    let high = lt_cnt r key in if ltb k key then u32 (node_size l + 1 + high) else low

-- The loop of `sb_tree_index`; `none` is a null pointer that is read through.
pub index_loop : Tree → ℕ → Option Entry
index_loop leaf i = none
index_loop (node l k v s r) i =
    let usize = node_size l in
    let low = index_loop l i in
    let high = index_loop r (i - u32 (usize + 1)) in
    if i == usize then some (k, v) else if ltb i usize then low else high

-- `sb_tree_index`: `some none` is a null result.
pub index : Tree → ℕ → Option (Option Entry)
index leaf i = some none
index (node l k v s r) i =
    let found = index_loop (node l k v s r) i in
    if ltb i s then (elim found [ none ↦ none | some e ↦ some (some e) ]) else some none

-- `sb_tree_size`
pub tree_size : Tree → ℕ
tree_size t = node_size t

-- In an ordered tree with less than 2 ^ 32 nodes `sb_tree_find_cnt` is the number of
-- entries with the key.
pub find_cnt_lem :
    (t : Tree) (key : ℕ)
    → IsSorted (inorder t)
    → count t < 2 ^ 32
    → find_cnt t key ≡ occurrences key (inorder t)
unfolding find_cnt occurrences
find_cnt_lem leaf key o b = refl
find_cnt_lem (node l k v s r) key o b =
    let parts = IsSorted-Parts (inorder l) (k, v) (inorder r) o in
    ground (
      arith,
      find_cnt_lem l key parts.low,
      find_cnt_lem r key parts.high,
      occurrences-append key (inorder l) ((k, v) ∷ inorder r),
      occurrences-AllGe key k (inorder r) parts.above,
      occurrences-AllLe key k (inorder l) parts.below,
      occurrences-le key (inorder l),
      occurrences-le key (inorder r),
      count-inorder l,
      count-inorder r,
    )

-- In an ordered tree of good shape with less than 2 ^ 32 nodes `sb_tree_lt` is the number of
-- entries with a smaller key.
pub lt_cnt_lem :
    (g : Bool) (t : Tree) (key : ℕ)
    → HasShape g t
    → IsSorted (inorder t)
    → count t < 2 ^ 32
    → lt_cnt t key ≡ below_cnt key (inorder t)
unfolding lt_cnt below_cnt
lt_cnt_lem g leaf key h o b = refl
lt_cnt_lem g (node l k v s r) key h o b =
    let parts = IsSorted-Parts (inorder l) (k, v) (inorder r) o in
    ground (
      arith,
      lt_cnt_lem g l key h.0 parts.low,
      lt_cnt_lem g r key h.1 parts.high,
      below_cnt-append key (inorder l) ((k, v) ∷ inorder r),
      below_cnt-AllGe key k (inorder r) parts.above,
      below_cnt-AllLe key k (inorder l) parts.below,
      below_cnt-le key (inorder r),
      count-inorder l,
      count-inorder r,
      node_size-count g l h.0,
    )

index_loop_lem :
    (g : Bool) (t : Tree) (i : ℕ)
    → HasShape g t
    → count t < 2 ^ 32
    → i < count t
    → index_loop t i ≡ get_elem? (inorder t) i
unfolding index_loop
index_loop_lem g leaf i h b lt = absurd (omega arith)
index_loop_lem g (node l k v s r) i h b lt = ground (
  arith,
  get_elem?-middle (inorder l) (k, v) (inorder r) i,
  count-inorder l,
  node_size-count g l h.0,
  index_loop_lem g l i h.0,
  index_loop_lem g r (i - (count l + 1)) h.1,
)

-- In a tree with right sizes and less than 2 ^ 32 nodes `sb_tree_index` is the entry at that place
-- of the order, and null past the end; it reads through no null pointer.
pub index_lem :
    (g : Bool) (t : Tree) (i : ℕ)
    → HasShape g t
    → count t < 2 ^ 32
    → index t i ≡ some (get_elem? (inorder t) i)
unfolding index
index_lem g leaf i h b = refl
index_lem g (node l k v s r) i h b =
    let t = node l k v s r in
    elim (Bool-cases (ltb i s)) [
      | inl lt ↦
          let in_range = rw h.2 at (ltb→lt i s lt) in
          let (e, at) = get_elem?-some (inorder t) i (omega (arith, count-inorder t)) in
          rw (lt, index_loop_lem g t i h b in_range, at) refl
      | inr ge ↦
          rw (ge, get_elem?-none (inorder t) i (omega (arith, count-inorder t, ltb→le i s ge))) refl
    ]

-- `sb_tree_find` in an ordered tree: null exactly when no entry has the key, and else an entry
-- with the key that the tree holds.
pub find_lem :
    (t : Tree) (key : ℕ)
    → IsSorted (inorder t)
    → ((find t key ≡ none) × (occurrences key (inorder t) ≡ 0))
      ⊎ ((v : ℕ) × (xs : List Entry) × (ys : List Entry) × (find t key ≡ some (key, v))
          × (inorder t ≡ xs ++ (key, v) ∷ ys))
unfolding find occurrences
find_lem leaf key o = inl (refl, refl)
find_lem (node l k v s r) key o =
    let parts = IsSorted-Parts (inorder l) (k, v) (inorder r) o in
    let split = occurrences-append key (inorder l) ((k, v) ∷ inorder r) in
    elim (Bool-cases (ltb key k)) [
      | inl lt ↦ elim (find_lem l key parts.low) [
        | inl absent ↦ inl (
          rw lt absent.0,
          ground (
            arith,
            split,
            absent.1,
            occurrences-AllGe key k (inorder r) parts.above,
            ltb→lt _ _ lt,
          ),
        )
        | inr (w, xs, ys, found, at) ↦
            inr (w, xs, ys ++ (k, v) ∷ inorder r, rw lt found, rw at (append_assoc xs _ _))
      ]
      | inr ge ↦ elim (Bool-cases (ltb k key)) [
        | inl gt ↦ elim (find_lem r key parts.high) [
          | inl absent ↦ inl (
            rw (ge, gt) absent.0,
            ground (
              arith,
              split,
              absent.1,
              occurrences-AllLe key k (inorder l) parts.below,
              ltb→lt _ _ gt,
            ),
          )
          | inr (w, xs, ys, found, at) ↦ inr (
            w,
            inorder l ++ (k, v) ∷ xs,
            ys,
            rw (ge, gt) found,
            rw at (sym (append_assoc (inorder l) _ _)),
          )
        ]
        | inr le ↦
            let same : k ≡ key = omega (arith, ltb→le _ _ ge, ltb→le _ _ le) in
            inr (v, inorder l, inorder r, rw (ge, le, same) refl, rw same)
      ]
    ]
