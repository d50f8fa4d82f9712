-- ===== src/Sbtree/Shape.antt =====
-- What sbtree.c keeps about a tree: its entries in order, its true node counts, and its shape.
use randserver.Base.{
  ℕ, ◌+◌, ◌≤◌, ◌≡◌, ◌⊎◌, Bool, false, if◌then◌else◌, List, [], ◌∷◌, ◌++◌, length, length-append,
  arith,
}
use randserver.Sbtree.{Tree, Entry, leaf, node}

-- The entries from left to right.
abbrev pub inorder : Tree → List Entry
inorder leaf = []
inorder (node l k v s r) = inorder l ++ (k, v) ∷ inorder r

-- The number of nodes.
abbrev pub count : Tree → ℕ
count leaf = 0
count (node l k v s r) = count l + count r + 1

-- The sum of all subtree counts, which every rotation of `sb_tree_main_tain` lowers.
abbrev pub weight : Tree → ℕ
weight leaf = 0
weight (node l k v s r) = weight l + weight r + count l + count r + 1

-- Beside an empty subtree stands one of at most one node, if the flag asks for it.
abbrev pub Covered : Bool → ℕ → ℕ → Type 0
Covered g a b = (g ≡ false) ⊎ (1 ≤ b) ⊎ (a ≤ 1)

-- Every stored size is the number of nodes and, with the flag, no subtree of more than one node
-- stands beside an empty one.
abbrev pub HasShape : Bool → Tree → Type 0
HasShape g leaf = Unit
HasShape g (node l k v s r) =
    HasShape g l
    × HasShape g r
    × (s ≡ count l + count r + 1)
    × Covered g (count l) (count r)
    × Covered g (count r) (count l)

-- The shape before a repair: the side that grew may be one node too large.
abbrev pub IsLoose : Bool → Bool → Tree → Type 0
IsLoose g d leaf = Unit
IsLoose g d (node l k v s r) =
    HasShape g l
    × HasShape g r
    × (s ≡ count l + count r + 1)
    × ((g ≡ false) ⊎ (1 ≤ count r) ⊎ (count l ≤ (if d then 1 else 2)))
    × ((g ≡ false) ⊎ (1 ≤ count l) ⊎ (count r ≤ (if d then 2 else 1)))

-- `t'` holds the entries of `t` in their order, in good shape, and is no heavier.
pub record Kept (g : Bool) (t t' : Tree) : Type 0 where
  pub shape : HasShape g t'
  pub same : inorder t' ≡ inorder t
  pub counted : count t' ≡ count t
  pub lighter : weight t' ≤ weight t

pub count-inorder : (t : Tree) → length (inorder t) ≡ count t
count-inorder leaf = omega arith
count-inorder (node l k v s r) =
    omega
      (arith, length-append {0} (inorder l) ((k, v) ∷ inorder r), count-inorder l, count-inorder r)
