-- ===== src/Sbtree/Rotate.antt =====
-- The rotations of sbtree.c: `left_rotate`, `right_rotate` and the tests of `sb_tree_main_tain`
-- that choose them.
use randserver.Base.{
  ℕ, ◌+◌, ◌^◌, ◌≤◌, ◌<◌, ◌≡◌, refl, ◌⊎◌, inl, inr, Bool, true, false, Bool-cases, Option, none,
  some, append_assoc, ltb, ltb→lt, ltb→le, u32, arith, ◌>>=◌,
}
use randserver.Sbtree.{Tree, leaf, node, node_size, left_rotate, right_rotate, rotate_deeper}
use randserver.Sbtree.Shape.{inorder, count, weight, HasShape, IsLoose}

-- The size of the side that a rotation moved the old root to.
abbrev pub lowered_size : Bool → Tree → ℕ
lowered_size d leaf = 0
lowered_size false (node l k v s r) = count r
lowered_size true (node l k v s r) = count l

-- `t'` is `t` after a rotation.
pub record Turned (g d : Bool) (t t' : Tree) : Type 0 where
  pub shape : HasShape g t'
  pub same : inorder t' ≡ inorder t
  pub counted : count t' ≡ count t
  pub lighter : weight t' < weight t
  pub lowered : 1 ≤ lowered_size d t'

pub node_size-count : (g : Bool) (t : Tree) → HasShape g t → node_size t ≡ count t
unfolding node_size
node_size-count g leaf h = refl
node_size-count g (node l k v s r) h = h.2

-- A tree with a left child, and one with a right child.
abbrev left_heavy : Tree → ℕ → ℕ → ℕ → Tree → ℕ → ℕ → ℕ → Tree → Tree
left_heavy ll lk lv ls lr k v s r = node (node ll lk lv ls lr) k v s r

abbrev right_heavy : Tree → ℕ → ℕ → ℕ → Tree → ℕ → ℕ → ℕ → Tree → Tree
right_heavy l k v s rl rk rv rs rr = node l k v s (node rl rk rv rs rr)

-- A left subtree whose left child outweighs the right subtree is turned up at once.
module _ (g : Bool) (ll : Tree) (lk lv ls : ℕ) (lr : Tree) (k v s : ℕ) (r : Tree) where
  single_right :
      IsLoose g false (left_heavy ll lk lv ls lr k v s r)
      → count (left_heavy ll lk lv ls lr k v s r) < 2 ^ 32
      → node_size r < node_size ll
      → Turned g false
          (left_heavy ll lk lv ls lr k v s r)
          (node ll lk lv s (node lr k v (u32 (node_size lr + node_size r + 1)) r))
  single_right h b deep = record {
    shape =
        ground
          (arith, node_size-count g r h.1, node_size-count g ll h.0.0, node_size-count g lr h.0.1);
    same = simp append_assoc;
    counted = omega arith;
    lighter = omega (arith, node_size-count g r h.1, node_size-count g ll h.0.0);
    lowered = omega arith;
  }

-- Otherwise its right child, if that one outweighs the right subtree, comes up by two rotations.
module _ (g : Bool) (ll : Tree) (lk lv ls : ℕ) (a : Tree) (mk mv ms : ℕ) (c : Tree) (k v s : ℕ)
    (r : Tree) where
  double_right :
      IsLoose g false (left_heavy ll lk lv ls (node a mk mv ms c) k v s r)
      → count (left_heavy ll lk lv ls (node a mk mv ms c) k v s r) < 2 ^ 32
      → node_size ll ≤ node_size r
      → node_size r < ms
      → Turned g false (left_heavy ll lk lv ls (node a mk mv ms c) k v s r) (
          node
            (node ll lk lv (u32 (node_size ll + node_size a + 1)) a)
            mk
            mv
            s
            (node c k v (u32 (node_size c + node_size r + 1)) r))
  double_right h b shallow deep = record {
    shape = ground (
      arith,
      node_size-count g r h.1,
      node_size-count g ll h.0.0,
      node_size-count g a h.0.1.0,
      node_size-count g c h.0.1.1,
    );
    same = simp append_assoc;
    counted = omega arith;
    lighter = omega (arith, node_size-count g r h.1, node_size-count g ll h.0.0);
    lowered = omega arith;
  }

-- The mirror images.
module _ (g : Bool) (l : Tree) (k v s : ℕ) (rl : Tree) (rk rv rs : ℕ) (rr : Tree) where
  single_left :
      IsLoose g true (right_heavy l k v s rl rk rv rs rr)
      → count (right_heavy l k v s rl rk rv rs rr) < 2 ^ 32
      → node_size l < node_size rr
      → Turned g true
          (right_heavy l k v s rl rk rv rs rr)
          (node (node l k v (u32 (node_size l + node_size rl + 1)) rl) rk rv s rr)
  single_left h b deep = record {
    shape =
        ground
          (arith, node_size-count g l h.0, node_size-count g rl h.1.0, node_size-count g rr h.1.1);
    same = simp append_assoc;
    counted = omega arith;
    lighter = omega (arith, node_size-count g l h.0, node_size-count g rr h.1.1);
    lowered = omega arith;
  }

module _ (g : Bool) (l : Tree) (k v s : ℕ) (a : Tree) (mk mv ms : ℕ) (c : Tree) (rk rv rs : ℕ)
    (rr : Tree) where
  double_left :
      IsLoose g true (right_heavy l k v s (node a mk mv ms c) rk rv rs rr)
      → count (right_heavy l k v s (node a mk mv ms c) rk rv rs rr) < 2 ^ 32
      → node_size rr ≤ node_size l
      → node_size l < ms
      → Turned g true (right_heavy l k v s (node a mk mv ms c) rk rv rs rr) (
          node
            (node l k v (u32 (node_size l + node_size a + 1)) a)
            mk
            mv
            s
            (node c rk rv (u32 (node_size c + node_size rr + 1)) rr))
  double_left h b shallow deep = record {
    shape = ground (
      arith,
      node_size-count g l h.0,
      node_size-count g rr h.1.1,
      node_size-count g a h.1.0.0,
      node_size-count g c h.1.0.1,
    );
    same = simp append_assoc;
    counted = omega arith;
    lighter = omega (arith, node_size-count g l h.0, node_size-count g rr h.1.1);
    lowered = omega arith;
  }

-- The answer of `rotate_deeper`: nothing to do, or a rotated tree.
abbrev pub Answer : Bool → Bool → Tree → Option (Option Tree) → Type 0
Answer g d t o =
    ((o ≡ some none) × HasShape g t) ⊎ ((t' : Tree) × (o ≡ some (some t')) × Turned g d t t')

module _ (g : Bool) (ll : Tree) (lk lv ls : ℕ) (k v s : ℕ) (r : Tree) where
  turn_right :
      (lr : Tree)
      → IsLoose g false (left_heavy ll lk lv ls lr k v s r)
      → count (left_heavy ll lk lv ls lr k v s r) < 2 ^ 32
      → Answer g false
          (left_heavy ll lk lv ls lr k v s r)
          (rotate_deeper false (left_heavy ll lk lv ls lr k v s r))
  unfolding rotate_deeper right_rotate left_rotate node_size
  turn_right lr h b = elim (Bool-cases (ltb (node_size r) (node_size ll))) [
    | inl deep ↦
        rw deep (inr (_, refl, single_right g ll lk lv ls lr k v s r h b (ltb→lt _ _ deep)))
    | inr shallow ↦ elim (Bool-cases (ltb (node_size r) (node_size lr))) [
      | inl deep ↦ rw (shallow, deep) (double lr h b (ltb→le _ _ shallow) (ltb→lt _ _ deep))
      | inr flat ↦
          rw (shallow, flat)
            (inl (
              refl,
              ground (
                arith,
                node_size-count g r h.1,
                node_size-count g ll h.0.0,
                node_size-count g lr h.0.1,
                ltb→le _ _ shallow,
                ltb→le _ _ flat,
              ),
            ))
    ]
  ]
    where
      double :
          (lr : Tree)
          → IsLoose g false (left_heavy ll lk lv ls lr k v s r)
          → count (left_heavy ll lk lv ls lr k v s r) < 2 ^ 32
          → node_size ll ≤ node_size r
          → node_size r < node_size lr
          → Answer g false (left_heavy ll lk lv ls lr k v s r) (
              left_rotate (node ll lk lv ls lr) >>= λ l'.
              right_rotate (node l' k v s r) >>= λ t. some (some t))
      double leaf h b shallow deep = absurd (omega arith)
      double (node a mk mv ms c) h b shallow deep =
          inr (_, refl, double_right g ll lk lv ls a mk mv ms c k v s r h b shallow deep)

module _ (g : Bool) (l : Tree) (k v s : ℕ) (rk rv rs : ℕ) (rr : Tree) where
  turn_left :
      (rl : Tree)
      → IsLoose g true (right_heavy l k v s rl rk rv rs rr)
      → count (right_heavy l k v s rl rk rv rs rr) < 2 ^ 32
      → Answer g true
          (right_heavy l k v s rl rk rv rs rr)
          (rotate_deeper true (right_heavy l k v s rl rk rv rs rr))
  unfolding rotate_deeper right_rotate left_rotate node_size
  turn_left rl h b = elim (Bool-cases (ltb (node_size l) (node_size rr))) [
    | inl deep ↦ rw deep (inr (_, refl, single_left g l k v s rl rk rv rs rr h b (ltb→lt _ _ deep)))
    | inr shallow ↦ elim (Bool-cases (ltb (node_size l) (node_size rl))) [
      | inl deep ↦ rw (shallow, deep) (double rl h b (ltb→le _ _ shallow) (ltb→lt _ _ deep))
      | inr flat ↦
          rw (shallow, flat)
            (inl (
              refl,
              ground (
                arith,
                node_size-count g l h.0,
                node_size-count g rl h.1.0,
                node_size-count g rr h.1.1,
                ltb→le _ _ shallow,
                ltb→le _ _ flat,
              ),
            ))
    ]
  ]
    where
      double :
          (rl : Tree)
          → IsLoose g true (right_heavy l k v s rl rk rv rs rr)
          → count (right_heavy l k v s rl rk rv rs rr) < 2 ^ 32
          → node_size rr ≤ node_size l
          → node_size l < node_size rl
          → Answer g true (right_heavy l k v s rl rk rv rs rr) (
              right_rotate (node rl rk rv rs rr) >>= λ r'.
              left_rotate (node l k v s r') >>= λ t. some (some t))
      double leaf h b shallow deep = absurd (omega arith)
      double (node a mk mv ms c) h b shallow deep =
          inr (_, refl, double_left g l k v s a mk mv ms c rk rv rs rr h b shallow deep)

-- On a tree whose side `d` may be one node too large, the tests of `sb_tree_main_tain` either find
-- the shape good, or rotate to a lighter tree of good shape with the same entries in order.
pub rotate_deeper-Answer :
    (g d : Bool) (t : Tree) → IsLoose g d t → count t < 2 ^ 32 → Answer g d t (rotate_deeper d t)
unfolding rotate_deeper
rotate_deeper-Answer g false leaf h b = inl (refl, tt)
rotate_deeper-Answer g true leaf h b = inl (refl, tt)
rotate_deeper-Answer g false (node leaf k v s r) h b = inl (refl, ground arith)
rotate_deeper-Answer g true (node l k v s leaf) h b = inl (refl, ground arith)
rotate_deeper-Answer g false (node (node ll lk lv ls lr) k v s r) h b =
    turn_right g ll lk lv ls k v s r lr h b
rotate_deeper-Answer g true (node l k v s (node rl rk rv rs rr)) h b =
    turn_left g l k v s rk rv rs rr rl h b
