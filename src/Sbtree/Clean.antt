-- ===== src/Sbtree/Clean.antt =====
-- `sb_tree_clean`, which sees of a node only its address and its links.
use randserver.Base.{
  ℕ, ◌+◌, ◌≤◌, ◌≡◌, refl, Bool, true, false, Option, none, some, List, [], ◌∷◌, ◌++◌, ◌==◌, ◌||◌,
  if◌then◌else◌, ◌>>=◌, arith,
}

-- `struct sbtree_node*`: null, or the address of a node with its left and its right link.
pub data Nodes : Type 0 where
  null : Nodes
  at : ℕ → Nodes → Nodes → Nodes

-- Whether `free` was called with the address.
pub is_freed : ℕ → List ℕ → Bool
is_freed a [] = false
is_freed a (b ∷ freed) = b == a || is_freed a freed

-- An access to a node, or a call of `free`, is a fault behind a call of `free`.
pub touch : ℕ → List ℕ → Option (List ℕ × Nodes) → Option (List ℕ × Nodes)
unfolding is_freed
touch a freed next = if is_freed a freed then none else next

-- `sb_tree_clean`, with the addresses freed so far, the last one first: these afterwards, and the pointer.
unfoldable pub clean : List ℕ → Nodes → Option (List ℕ × Nodes)
unfolding touch
clean freed null = some (freed, null)
clean freed (at a l r) =
    let walk = do
      (freed_l, l') ← clean freed l
      (freed_r, r') ← touch a freed_l (clean freed_l r)
      touch a freed_r (some (a ∷ freed_r, null))
    in touch a freed walk

-- How often an address is in a list, and that of the nodes of a tree.
abbrev pub times : ℕ → List ℕ → ℕ
times a [] = 0
times a (b ∷ bs) = (if b == a then 1 else 0) + times a bs

abbrev pub addresses : Nodes → List ℕ
addresses null = []
addresses (at a l r) = a ∷ (addresses l ++ addresses r)

times-append : (x : ℕ) (xs ys : List ℕ) → times x (xs ++ ys) ≡ times x xs + times x ys
times-append x [] ys = omega arith
times-append x (a ∷ xs) ys = omega (arith, times-append x xs ys)

is_freed-times : (a : ℕ) (freed : List ℕ) → times a freed ≡ 0 → is_freed a freed ≡ false
unfolding is_freed
is_freed-times a [] h = refl
is_freed-times a (b ∷ freed) h = ground (arith, is_freed-times a freed)

touch-live :
    (a : ℕ) (freed : List ℕ) (next : Option (List ℕ × Nodes))
    → times a freed ≡ 0
    → touch a freed next ≡ next
unfolding touch
touch-live a freed next h = rw (is_freed-times a freed h) refl

clean-Frees :
    (t : Nodes) (freed : List ℕ)
    → ((x : ℕ) → times x freed + times x (addresses t) ≤ 1)
    → (freed' : List ℕ) × (clean freed t ≡ some (freed', null))
      × ((x : ℕ) → times x freed' ≡ times x freed + times x (addresses t))
unfolding clean
clean-Frees null freed h = (freed, refl, λ x. omega arith)
clean-Frees (at a l r) freed h =
    let split = λ (x : ℕ). times-append x (addresses l) (addresses r) in
    let self : (a == a) ≡ true = ground arith in
    let once : times a freed + (1 + times a (addresses l ++ addresses r)) ≤ 1 = rw self at (h a) in
    let (freed_l, el, cl) = clean-Frees l freed (λ x. omega (arith, h x, split x)) in
    let (freed_r, er, cr) = clean-Frees r freed_l (λ x. omega (arith, h x, split x, cl x)) in
    (
      a ∷ freed_r,
      rw
          (
            touch-live a freed _ (omega (arith, once)),
            el,
            touch-live a freed_l _ (omega (arith, once, split a, cl a)),
            er,
            touch-live a freed_r _ (omega (arith, once, split a, cl a, cr a)),
          )
          refl,
      λ x. omega (arith, split x, cl x, cr x),
    )

-- In a tree whose nodes lie at different addresses `sb_tree_clean` reads no node that was freed,
-- frees none twice, and frees every node of the tree and nothing else; the pointer is null
-- afterwards.
pub clean_lem :
    (t : Nodes)
    → ((x : ℕ) → times x (addresses t) ≤ 1)
    → (freed : List ℕ) × (clean [] t ≡ some (freed, null))
      × ((x : ℕ) → times x freed ≡ times x (addresses t))
clean_lem t h =
    let (freed, e, c) = clean-Frees t [] (λ x. omega (arith, h x)) in
    (freed, e, λ x. omega (arith, c x))
