-- ===== src/Sbtree/Undo.antt =====
-- `sb_tree_delete` behind `sb_tree_insert`.
use randserver.Base.{
  ℕ, ◌+◌, ◌^◌, ◌<◌, ◌≡◌, refl, ap, sym, ◌∙◌, length, true, inl, inr, some, List, [], ◌∷◌, ◌++◌,
  arith,
}
use randserver.Sbtree.{Tree, leaf, node, Entry}
use randserver.Sbtree.Shape.{inorder, count, HasShape, count-inorder}
use randserver.Sbtree.Order.{IsSorted, place}
use randserver.Sbtree.Count.{occurrences}
use randserver.Sbtree.Insert.{insert, insert_lem}
use randserver.Sbtree.Delete.{delete}
use randserver.Sbtree.Delete.Last.{HasLefts, HasSizes}
use randserver.Sbtree.Delete.Laws.{delete_lem}

pub HasShape-HasSizes : (t : Tree) → HasShape true t → HasSizes t
HasShape-HasSizes leaf h = tt
HasShape-HasSizes (node l k v s r) h =
    (HasShape-HasSizes l h.0, HasShape-HasSizes r h.1, h.2, inl refl, inl refl)

pub HasShape-HasLefts : (t : Tree) → HasShape true t → HasLefts t
HasShape-HasLefts leaf h = tt
HasShape-HasLefts (node l k v s r) h =
    ground (arith, HasShape-HasLefts l h.0, HasShape-HasLefts r h.1)

occurrences-place :
    (k v : ℕ) (es : List Entry) → occurrences k (place k v es) ≡ occurrences k es + 1
unfolding place occurrences
occurrences-place k v [] = ground arith
occurrences-place k v (e ∷ es) = ground (arith, occurrences-place k v es)

length-place : (k v : ℕ) (es : List Entry) → length (place k v es) ≡ length es + 1
unfolding place
length-place k v [] = omega arith
length-place k v (e ∷ es) = ground (arith, length-place k v es)

-- In an ordered tree of good shape (right sizes, and no subtree of more than one node beside an
-- empty one) with less than 2 ^ 32 - 1 nodes, `sb_tree_insert` with memory at hand and then
-- `sb_tree_delete` of the same key both succeed, and exactly one entry with the key is gone from
-- the entries with the new one in its place.
pub delete-insert :
    (t : Tree) (k v : ℕ)
    → HasShape true t
    → IsSorted (inorder t)
    → count t + 1 < 2 ^ 32
    → (t1 : Tree) × (t2 : Tree) × (w : ℕ) × (xs : List Entry) × (ys : List Entry) × (insert true t k
          v
        ≡ some (t1, true))
      × (delete t1 k ≡ some (t2, true))
      × (place k v (inorder t) ≡ xs ++ (k, w) ∷ ys)
      × (inorder t2 ≡ xs ++ ys)
delete-insert t k v h o b =
    let (t1, e1, h1, o1, p1, q1) = insert_lem true t k v h o b in
    let counted : count t1 < 2 ^ 32 =
      omega
        (arith, ap length p1, length-place k v (inorder t), count-inorder t, count-inorder t1) in
    let (t2, s2, answer) =
      delete_lem t1 k (HasShape-HasSizes t1 h1) (HasShape-HasLefts t1 h1) o1 counted in
    elim answer [
      | inl (e2, absent, kept) ↦
          absurd (omega (arith, absent, ap (occurrences k) p1, occurrences-place k v (inorder t)))
      | inr (w, xs, ys, e2, held, cut) ↦ (t1, t2, w, xs, ys, e1, e2, sym p1 ∙ held, cut)
    ]
