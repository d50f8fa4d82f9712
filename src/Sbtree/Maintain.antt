-- ===== src/Sbtree/Maintain.antt =====
-- `sb_tree_main_tain`: it returns on every tree that one insertion or deletion leaves, and changes
-- neither the entries nor their order.
use randserver.Base.{
  ℕ, zero, suc, ◌+◌, ◌^◌, ◌≤◌, ◌<◌, ◌≡◌, refl, ◌∙◌, inl, inr, Bool, true, false, Option, some,
  ◌>>=◌, arith,
}
use randserver.Sbtree.{Tree, leaf, node, settle, main_tain}
use randserver.Sbtree.Shape.{count, weight, HasShape, IsLoose, Kept}
use randserver.Sbtree.Rotate.{lowered_size, rotate_deeper-Answer}

-- A repair of `t` that returns.
abbrev Repairs : Bool → Option Tree → Tree → Type 0
Repairs g o t = (t' : Tree) × (o ≡ some t') × Kept g t t'

pub Kept-refl : {g : Bool} (t : Tree) → HasShape g t → Kept g t t
Kept-refl t h = record { shape = h; same = refl; counted = refl; lighter = omega arith }

pub Kept-trans : {g : Bool} {t u w : Tree} → Kept g t u → Kept g u w → Kept g t w
Kept-trans a b = record {
  shape = b.shape;
  same = b.same ∙ a.same;
  counted = b.counted ∙ a.counted;
  lighter = omega arith;
}

pub HasShape-IsLoose : (g d : Bool) (t : Tree) → HasShape g t → IsLoose g d t
HasShape-IsLoose g false leaf h = tt
HasShape-IsLoose g true leaf h = tt
HasShape-IsLoose g false (node l k v s r) h = ground arith
HasShape-IsLoose g true (node l k v s r) h = ground arith

-- A repair of the subtrees on the way down is one of the whole.
module _ {g : Bool} (a : Tree) (k v s : ℕ) (b : Tree) (k' v' s' : ℕ) (c : Tree) (b' : Tree)
    (kept : Kept g b b') where
  Kept-right_left :
      HasShape g (node a k v s (node b k' v' s' c))
      → Kept g (node a k v s (node b k' v' s' c)) (node a k v s (node b' k' v' s' c))
  Kept-right_left h = record {
    shape = ground (arith, kept.shape, kept.counted);
    same = rw kept.same;
    counted = omega (arith, kept.counted);
    lighter = omega (arith, kept.counted, kept.lighter);
  }

  Kept-left_right :
      HasShape g (node (node a k v s b) k' v' s' c)
      → Kept g (node (node a k v s b) k' v' s' c) (node (node a k v s b') k' v' s' c)
  Kept-left_right h = record {
    shape = ground (arith, kept.shape, kept.counted);
    same = rw kept.same;
    counted = omega (arith, kept.counted);
    lighter = omega (arith, kept.counted, kept.lighter);
  }

-- The calls after a rotation, given a procedure that repairs every tree up to the weight `w`.
module _ (g : Bool) (w : ℕ) (m : Tree → Bool → Option Tree)
    (ih : (t : Tree) (d : Bool)
      → HasShape g t
      → count t < 2 ^ 32
      → weight t ≤ w
      → Repairs g (m t d) t) where
  twice :
      (t : Tree)
      → HasShape g t
      → count t < 2 ^ 32
      → weight t ≤ w
      → Repairs g (m t false >>= λ u. m u true) t
  twice t h b lim =
      let (u, eu, ku) = ih t false h b lim in
      let (x, ex, kx) =
        ih u true ku.shape (omega (arith, ku.counted)) (omega (arith, ku.lighter)) in
      (x, rw eu ex, Kept-trans ku kx)

  settle_lem :
      (d : Bool) (t : Tree)
      → HasShape g t
      → count t < 2 ^ 32
      → weight t ≤ w
      → 1 ≤ lowered_size d t
      → Repairs g (settle d m t) t
  unfolding settle
  settle_lem d leaf h b lim low = absurd (omega arith)
  settle_lem false (node a k v s leaf) h b lim low = absurd (omega arith)
  settle_lem true (node leaf k v s c) h b lim low = absurd (omega arith)
  settle_lem false (node a k v s (node b k' v' s' c)) h bound lim low =
      let (b', eb, kb) = ih b false h.1.0 (omega arith) (omega arith) in
      let kept = Kept-right_left a k v s b k' v' s' c b' kb h in
      let (t', et, kt) =
        twice (node a k v s (node b' k' v' s' c)) kept.shape (omega (arith, kept.counted))
          (omega (arith, kept.lighter)) in
      (t', rw eb et, Kept-trans kept kt)
  settle_lem true (node (node a k v s b) k' v' s' c) h bound lim low =
      let (b', eb, kb) = ih b true h.0.1 (omega arith) (omega arith) in
      let kept = Kept-left_right a k v s b k' v' s' c b' kb h in
      let (t', et, kt) =
        twice (node (node a k v s b') k' v' s' c) kept.shape (omega (arith, kept.counted))
          (omega (arith, kept.lighter)) in
      (t', rw eb et, Kept-trans kept kt)

-- On a tree of less than 2 ^ 32 nodes whose two subtrees are of good shape and whose stored size is
-- right, and where the side that the flag names may have two nodes beside an empty one, but no
-- more, `sb_tree_main_tain` ends: every rotation lowers the weight, so fuel above it is enough. It
-- keeps the entries in their order, every stored size is the node count, and the shape is good at
-- the root too. The same holds of the sizes and entries alone, without any condition on the shape.
pub main_tain-Kept :
    (g : Bool) (fuel : ℕ) (t : Tree) (d : Bool)
    → IsLoose g d t
    → count t < 2 ^ 32
    → weight t < fuel
    → (t' : Tree) × (main_tain fuel t d ≡ some t') × Kept g t t'
unfolding main_tain
main_tain-Kept g zero t d h b f = absurd (omega arith)
main_tain-Kept g (suc fuel) t d h b f = elim (rotate_deeper-Answer g d t h b) [
  | inl (e, good) ↦ (t, rw e, Kept-refl t good)
  | inr (u, e, turned) ↦
      let ih : (x : Tree) (d' : Bool)
          → HasShape g x
          → count x < 2 ^ 32
          → weight x ≤ weight u
          → Repairs g (main_tain fuel x d') x =
        λ x d' hx bx wx.
          main_tain-Kept g fuel x d' (HasShape-IsLoose g d' x hx) bx
            (omega (arith, turned.lighter)) in
      let (t', et, kt) =
        settle_lem g (weight u) (main_tain fuel) ih d u turned.shape (omega (arith, turned.counted))
          (omega arith) turned.lowered in
      (
        t',
        rw e et,
        Kept-trans
            (record {
              shape = turned.shape;
              same = turned.same;
              counted = turned.counted;
              lighter = omega (arith, turned.lighter);
            })
            kt,
      )
]

-- `sb_tree_main_tain` with the fuel that it needs.
unfoldable pub maintain : Tree → Bool → Option Tree
maintain t right_deeper = main_tain (weight t + 1) t right_deeper

pub maintain-Kept :
    (g : Bool) (t : Tree) (d : Bool)
    → IsLoose g d t
    → count t < 2 ^ 32
    → (t' : Tree) × (maintain t d ≡ some t') × Kept g t t'
unfolding maintain
maintain-Kept g t d h b = main_tain-Kept g (weight t + 1) t d h b (omega arith)
