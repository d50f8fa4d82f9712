-- ===== src/Sbtree.antt =====
-- engine/tool/sbtree.c: the size balanced tree. Every node is reached by one pointer only, so a
-- subtree is a value and a function that writes through `struct sbtree_node**` returns the new
-- subtree. `none` is a null pointer that is read through, or the model's fuel running out.
pub mod Shape
pub mod Rotate
pub mod Maintain
pub mod Order
pub mod Insert
pub mod Count
pub mod Query
pub mod Delete
pub mod Undo
pub mod Clean
mod Tests
use randserver.Base.{
  ℕ, zero, suc, ◌+◌, ◌-◌, ◌^◌, Bool, true, false, Option, none, some, List, [], ◌∷◌, ◌++◌, ltb,
  ◌==◌, if◌then◌else◌, ◌>>=◌, u32, not, ◌&&◌,
}

-- `struct sbtree_node*`: left, key, value (the 64 bits of the union), size, right.
pub data Tree : Type 0 where
  leaf : Tree
  node : Tree → ℕ → ℕ → ℕ → Tree → Tree

-- The key and the value of a node.
abbrev pub Entry : Type 0
Entry = ℕ × ℕ

-- `_S`
pub node_size : Tree → ℕ
node_size leaf = 0
node_size (node l k v s r) = s

pub left_rotate : Tree → Option Tree
left_rotate (node l k v s (node rl rk rv rs rr)) =
    some (node (node l k v (u32 (node_size l + node_size rl + 1)) rl) rk rv s rr)
left_rotate _ = none

pub right_rotate : Tree → Option Tree
right_rotate (node (node ll lk lv ls lr) k v s r) =
    some (node ll lk lv s (node lr k v (u32 (node_size lr + node_size r + 1)) r))
right_rotate _ = none

-- The calls after a rotation. `node` still points to the node that was rotated down, which is now
-- the right (left) child of the new root: `&node->left` is the left link of that child.
pub settle : Bool → (Tree → Bool → Option Tree) → Tree → Option Tree
settle false maintain (node a k v s (node b k' v' s' c)) = do
  b' ← maintain b false
  t ← maintain (node a k v s (node b' k' v' s' c)) false
  maintain t true
settle true maintain (node (node a k' v' s' b) k v s c) = do
  b' ← maintain b true
  t ← maintain (node (node a k' v' s' b') k v s c) false
  maintain t true
settle _ maintain _ = none

-- The rotations of `sb_tree_main_tain` with `rightdeeper` 0, if one is due: `some none` is the
-- early return.
pub rotate_left_deeper : Tree → Option (Option Tree)
rotate_left_deeper leaf = some none
rotate_left_deeper (node leaf k v s r) = some none
rotate_left_deeper (node (node ll lk lv ls lr) k v s r) =
    let l = node ll lk lv ls lr in
    let single = right_rotate (node l k v s r) >>= λ t. some (some t) in
    let double = left_rotate l >>= λ l'. right_rotate (node l' k v s r) >>= λ t. some (some t) in
    if ltb (node_size r) (node_size ll)
    then single
    else if ltb (node_size r) (node_size lr)
    then double
    else some none

-- The same with `rightdeeper` 1.
pub rotate_right_deeper : Tree → Option (Option Tree)
rotate_right_deeper leaf = some none
rotate_right_deeper (node l k v s leaf) = some none
rotate_right_deeper (node l k v s (node rl rk rv rs rr)) =
    let r = node rl rk rv rs rr in
    let single = left_rotate (node l k v s r) >>= λ t. some (some t) in
    let double = right_rotate r >>= λ r'. left_rotate (node l k v s r') >>= λ t. some (some t) in
    if ltb (node_size l) (node_size rr)
    then single
    else if ltb (node_size l) (node_size rl)
    then double
    else some none

pub rotate_deeper : Bool → Tree → Option (Option Tree)
unfolding rotate_left_deeper rotate_right_deeper
rotate_deeper false = rotate_left_deeper
rotate_deeper true = rotate_right_deeper

-- `sb_tree_main_tain`, with the depth of its recursion bounded by fuel.
pub main_tain : ℕ → Tree → Bool → Option Tree
main_tain zero t right_deeper = none
main_tain (suc fuel) t right_deeper = rotate_deeper right_deeper t >>= λ rotated. elim rotated [
  | none ↦ some t
  | some t' ↦ settle right_deeper (main_tain fuel) t'
]
