-- ===== src/Sbtree/Delete/Laws.antt =====
-- `sb_tree_delete` takes out one entry with the key.
use randserver.Base.{
  ℕ, ◌^◌, ◌<◌, ◌≡◌, refl, true, false, Bool-cases, inl, inr, ◌⊎◌, some, List, ◌∷◌, ◌++◌, ltb,
  ltb→lt, ◌==◌, ==→eq, arith,
}
use randserver.Sbtree.{Tree, leaf, node, Entry}
use randserver.Sbtree.Shape.{inorder, count}
use randserver.Sbtree.Order.{IsSorted, IsSorted-Parts}
use randserver.Sbtree.Count.{occurrences}
use randserver.Sbtree.Delete.{delete_node, delete}
use randserver.Sbtree.Delete.Last.{HasLefts, HasSizes}
use randserver.Sbtree.Delete.Branches.{Outcome, delete_low, delete_high, delete_here}

delete_node-Outcome :
    (t : Tree) (key : ℕ)
    → HasSizes t
    → HasLefts t
    → IsSorted (inorder t)
    → count t < 2 ^ 32
    → Outcome key t (delete_node t key false)
unfolding delete_node occurrences
delete_node-Outcome leaf key h g o b = inl (record {
  rest = leaf;
  answer = refl;
  sizes = tt;
  entries = refl;
  counted = refl;
  unused = refl;
})
delete_node-Outcome (node l k v s r) key h g o b =
    let parts = IsSorted-Parts (inorder l) (k, v) (inorder r) o in
    elim (Bool-cases (key == k)) [
      | inl same ↦ rw (same, ==→eq key k same) (inr (delete_here k v s l r h g.2 (omega arith)))
      | inr other ↦ elim (Bool-cases (ltb key k)) [
        | inl lt ↦
            rw (other, lt)
              (delete_low key k v s l r h o (omega arith) (ltb→lt _ _ lt)
                (delete_node-Outcome l key h.0 g.0 parts.low (omega arith)))
        | inr ge ↦
            rw (other, ge)
              (delete_high key k v s l r h o (omega arith) (ground arith)
                (delete_node-Outcome r key h.1 g.1 parts.high (omega arith)))
      ]
    ]

-- In an ordered tree with right sizes and less than 2 ^ 32 nodes, where every node of more than two
-- entries has a left child, `sb_tree_delete` returns. If it answers 0, no entry has the key and the
-- entries are unchanged; if it answers 1, exactly one entry with the key is gone and the others
-- stand in their order. The sizes stay right.
pub delete_lem :
    (t : Tree) (key : ℕ)
    → HasSizes t
    → HasLefts t
    → IsSorted (inorder t)
    → count t < 2 ^ 32
    → (t' : Tree) × HasSizes t'
      × (((delete t key ≡ some (t', false))
            × (occurrences key (inorder t) ≡ 0)
            × (inorder t' ≡ inorder t))
          ⊎ ((v : ℕ) × (xs : List Entry) × (ys : List Entry) × (delete t key ≡ some (t', true))
              × (inorder t ≡ xs ++ (key, v) ∷ ys)
              × (inorder t' ≡ xs ++ ys)))
unfolding delete
delete_lem t key h g o b = elim (delete_node-Outcome t key h g o b) [
  | inl a ↦ (a.rest, a.sizes, inl (rw a.answer refl, a.unused, a.entries))
  | inr c ↦ (c.rest, c.sizes, inr (c.value, c.before, c.after, rw c.answer refl, c.held, c.entries))
]
