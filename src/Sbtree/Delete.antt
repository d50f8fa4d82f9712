-- ===== src/Sbtree/Delete.antt =====
-- `sb_tree_delete_node` and `sb_tree_delete`.
pub mod Last
pub mod Branches
pub mod Laws
use randserver.Base.{
  ℕ, ◌+◌, ◌-◌, ◌^◌, ◌≤◌, ◌<◌, ◌≡◌, refl, sym, ◌∙◌, Bool, true, false, Bool-cases, inl, inr, ◌⊎◌,
  Option, none, some, List, [], ◌∷◌, ◌++◌, append_assoc, append-nil, ltb, ltb→lt, ltb→le, ◌==◌,
  ==→eq, if◌then◌else◌, ◌>>=◌, u32, arith, not, ◌&&◌,
}
use randserver.Sbtree.{Tree, leaf, node, node_size, Entry}
use randserver.Sbtree.Maintain.{maintain}

-- The result `record` (an unlinked node, or null) and the tree that is left.
abbrev pub Deleted : Type 0
Deleted = Option Entry × Tree

-- The node's key and value after `if(record)`.
abbrev replaced : Option Entry → ℕ → ℕ → Entry
replaced none k v = (k, v)
replaced (some e) k v = e

-- `if(record) --node->size`
abbrev shrunk : Option Entry → ℕ → ℕ
shrunk none s = s
shrunk (some e) s = u32 (s + 2 ^ 32 - 1)

-- The entry of a node, if the pointer is not null.
pub root_entry : Tree → Option Entry
root_entry leaf = none
root_entry (node l k v s r) = some (k, v)

-- `record = node->left ? node->left : node->right`
pub only_child : Tree → Tree → Option Entry
unfolding root_entry
only_child leaf r = root_entry r
only_child (node l k v s r') r = some (k, v)

-- The end of the branch that found the key, from `if(record)` on.
pub refill : ℕ → ℕ → ℕ → ℕ → Tree → Deleted → Option Deleted
refill key k v s r (found, l) =
    let e = replaced found k v in
    do
      t ← maintain (node l e.0 e.1 (u32 (s + 2 ^ 32 - 1)) r) true
      t' ← maintain t (ltb key e.0)
      some (found, t')

-- The ends of the two branches that go down.
pub relink_left : ℕ → ℕ → ℕ → ℕ → Tree → Deleted → Option Deleted
relink_left key k v s r (found, l) = do
  t ← maintain (node l k v (shrunk found s) r) (ltb key k)
  some (found, t)

pub relink_right : Bool → ℕ → Tree → ℕ → ℕ → ℕ → Deleted → Option Deleted
relink_right is_find key l k v s (found, r) = do
  t ← maintain (node l k v (shrunk found s) r) (not is_find && ltb key k)
  some (found, t)

-- `isfind && !node->right`
pub at_end : Bool → Tree → Bool
at_end false r = false
at_end true leaf = true
at_end true (node l k v s r) = false

-- `sb_tree_delete_node`
unfoldable pub delete_node : Tree → ℕ → Bool → Option Deleted
unfolding at_end only_child refill relink_left relink_right
delete_node leaf key is_find = some (none, leaf)
delete_node (node l k v s r) key is_find =
    let last_of_left = delete_node l key true >>= refill key k v s r in
    let lone = refill key k v s leaf (only_child l r, leaf) in
    let low = delete_node l key false >>= relink_left key k v s r in
    let high = delete_node r key is_find >>= relink_right is_find key l k v s in
    let here = if s == 1 then some (some (k, v), leaf) else if s == 2 then lone else last_of_left in
    if at_end is_find r
    then some (some (k, v), l)
    else if not is_find && (key == k)
    then here
    else if not is_find && ltb key k
    then low
    else high

-- `sb_tree_delete`: the tree, and whether a node was freed.
unfoldable pub delete : Tree → ℕ → Option (Tree × Bool)
unfolding delete_node
delete t key = delete_node t key false >>= λ (found, t').
    some (t', elim found [ none ↦ false | some e ↦ true ])
