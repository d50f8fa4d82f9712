-- ===== src/Sbtree/Insert.antt =====
-- `sb_tree_insert_node` and `sb_tree_insert`.
use randserver.Base.{
  ℕ, ◌+◌, ◌^◌, ◌<◌, ◌≡◌, refl, ◌∙◌, Bool, true, false, Bool-cases, inl, inr, Option, some, ltb,
  ltb→lt, ltb→le, if◌then◌else◌, ◌>>=◌, u32, arith,
}
use randserver.Sbtree.{Tree, leaf, node}
use randserver.Sbtree.Shape.{inorder, count, HasShape}
use randserver.Sbtree.Maintain.{maintain, maintain-Kept}
use randserver.Sbtree.Order.{
  IsSorted, IsSorted-Parts, AllLe-le, place, place_before, place_behind, place-IsSorted,
}

-- `sb_tree_insert_node`: the new node is a leaf when it is hung in.
unfoldable pub insert_node : Tree → ℕ → ℕ → Option Tree
insert_node leaf k v = some (node leaf k v 1 leaf)
insert_node (node l k' v' s r) k v =
    let low = insert_node l k v >>= λ l'. maintain (node l' k' v' (u32 (s + 1)) r) false in
    let high = insert_node r k v >>= λ r'. maintain (node l k' v' (u32 (s + 1)) r') true in
    if ltb k k' then low else high

-- `sb_tree_insert`, with whether `malloc` gave a node: the tree, and whether the result is a node.
unfoldable pub insert : Bool → Tree → ℕ → ℕ → Option (Tree × Bool)
insert allocated t k v =
    let inserted = insert_node t k v >>= λ t'. some (t', true) in
    if allocated then inserted else some (t, false)

-- `t'` is `t` with the entry put in.
pub record Grown (g : Bool) (t : Tree) (k v : ℕ) (t' : Tree) : Type 0 where
  pub shape : HasShape g t'
  pub placed : inorder t' ≡ place k v (inorder t)
  pub counted : count t' ≡ count t + 1

pub insert_node-Grown :
    (g : Bool) (t : Tree) (k v : ℕ)
    → HasShape g t
    → IsSorted (inorder t)
    → count t + 1 < 2 ^ 32
    → (t' : Tree) × (insert_node t k v ≡ some t') × Grown g t k v t'
unfolding insert_node
insert_node-Grown g leaf k v h o b = (
  node leaf k v 1 leaf,
  refl,
  record { shape = grind arith; placed = unfold place in refl; counted = omega arith },
)
insert_node-Grown g (node l k' v' s r) k v h o b =
    let parts = IsSorted-Parts (inorder l) (k', v') (inorder r) o in
    elim (Bool-cases (ltb k k')) [
      | inl lt ↦
          let (l', el, gl) = insert_node-Grown g l k v h.0 parts.low (omega arith) in
          let (t', et, kt) =
            maintain-Kept g (node l' k' v' (u32 (s + 1)) r) false
              (ground (arith, gl.shape, gl.counted)) (omega (arith, gl.counted)) in
          (
            t',
            rw (lt, el) et,
            record {
              shape = kt.shape;
              placed =
                  kt.same
                  ∙ rw (
                    gl.placed,
                    place_before k v (inorder l) (k', v') (inorder r) (ltb→lt _ _ lt),
                  );
              counted = omega (arith, kt.counted, gl.counted);
            },
          )
      | inr ge ↦
          let (r', er, gr) = insert_node-Grown g r k v h.1 parts.high (omega arith) in
          let (t', et, kt) =
            maintain-Kept g (node l k' v' (u32 (s + 1)) r') true
              (ground (arith, gr.shape, gr.counted)) (omega (arith, gr.counted)) in
          (
            t',
            rw (ge, er) et,
            record {
              shape = kt.shape;
              placed =
                  kt.same
                  ∙ rw (
                    gr.placed,
                    place_behind k v (inorder l) (k', v') (inorder r)
                        (AllLe-le k k' _ (ltb→le _ _ ge) parts.below) (ltb→le _ _ ge),
                  );
              counted = omega (arith, kt.counted, gr.counted);
            },
          )
    ]

-- With memory at hand, inserting into an ordered tree of good shape and less than 2 ^ 32 - 1 nodes
-- returns a node and leaves an ordered tree of good shape, whose entries are the old ones with the
-- new one behind those of smaller or equal key. Without memory it returns null and changes nothing.
pub insert_lem :
    (g : Bool) (t : Tree) (k v : ℕ)
    → HasShape g t
    → IsSorted (inorder t)
    → count t + 1 < 2 ^ 32
    → (t' : Tree) × (insert true t k v ≡ some (t', true))
      × HasShape g t'
      × IsSorted (inorder t')
      × (inorder t' ≡ place k v (inorder t))
      × (insert false t k v ≡ some (t, false))
unfolding insert
insert_lem g t k v h o b =
    let (t', e, g) = insert_node-Grown g t k v h o b in
    (t', rw e refl, g.shape, rw g.placed (place-IsSorted k v (inorder t) o), g.placed, refl)
