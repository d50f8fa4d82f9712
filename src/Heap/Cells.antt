-- ===== src/Heap/Cells.antt =====
-- The entries of a block by index, and how often a key stands in its first cells.
use randserver.Base.{
  ℕ, zero, suc, ◌+◌, ◌≤◌, ◌<◌, ◌≡◌, refl, some, List, [], ◌∷◌, length, get_elem?, set, ◌==◌,
  if◌then◌else◌, arith,
}
use randserver.Base.Int.{ℤ, pos, pos_part, neg_part}

-- The key at an index, 0 past the end.
unfoldable pub at : List ℤ → ℕ → ℤ
at [] i = pos 0
at (x ∷ xs) zero = x
at (x ∷ xs) (suc i) = at xs i

pub get_elem?-at : (xs : List ℤ) (i : ℕ) → i < length xs → get_elem? xs i ≡ some (at xs i)
unfolding at
get_elem?-at [] i h = absurd (omega arith)
get_elem?-at (x ∷ xs) zero h = refl
get_elem?-at (x ∷ xs) (suc i) h = get_elem?-at xs i (omega arith)

pub at-get_elem? : (xs : List ℤ) (i : ℕ) {x : ℤ} → get_elem? xs i ≡ some x → at xs i ≡ x
unfolding at
at-get_elem? [] i h = ground arith
at-get_elem? (x ∷ xs) zero h = ground arith
at-get_elem? (x ∷ xs) (suc i) h = at-get_elem? xs i h

pub at-set :
    (xs : List ℤ) (i j : ℕ) (v : ℤ)
    → i < length xs
    → at (set xs i v) j ≡ (if i == j then v else at xs j)
unfolding at
at-set [] i j v h = absurd (omega arith)
at-set (x ∷ xs) zero zero v h = ground arith
at-set (x ∷ xs) zero (suc j) v h = ground arith
at-set (x ∷ xs) (suc i) zero v h = ground arith
at-set (x ∷ xs) (suc i) (suc j) v h = ground (arith, at-set xs i j v)

-- 1 for equal keys, else 0.
unfoldable pub same : ℤ → ℤ → ℕ
same a b = if pos_part a + neg_part b == pos_part b + neg_part a then 1 else 0

-- How often `a` stands in the first `n` cells.
unfoldable pub occ : ℤ → ℕ → List ℤ → ℕ
occ a zero xs = 0
occ a (suc n) [] = 0
occ a (suc n) (x ∷ xs) = same a x + occ a n xs

pub occ-set :
    (a : ℤ) (n : ℕ) (xs : List ℤ) (i : ℕ) (v : ℤ)
    → i < n
    → i < length xs
    → occ a n (set xs i v) + same a (at xs i) ≡ occ a n xs + same a v
unfolding occ at
occ-set a zero xs i v h b = absurd (omega arith)
occ-set a (suc n) [] i v h b = absurd (omega arith)
occ-set a (suc n) (x ∷ xs) zero v h b = omega arith
occ-set a (suc n) (x ∷ xs) (suc i) v h b =
    omega (arith, occ-set a n xs i v (omega arith) (omega arith))

pub occ-suc :
    (a : ℤ) (n : ℕ) (xs : List ℤ) → n < length xs → occ a (suc n) xs ≡ occ a n xs + same a (at xs n)
unfolding occ at
occ-suc a n [] h = absurd (omega arith)
occ-suc a zero (x ∷ xs) h = omega arith
occ-suc a (suc n) (x ∷ xs) h = omega (arith, occ-suc a n xs (omega arith))

-- Blocks that agree on the first `n` cells hold the same keys there.
pub occ-agree :
    (a : ℤ) (n : ℕ) (xs ys : List ℤ)
    → n ≤ length xs
    → n ≤ length ys
    → ((i : ℕ) → i < n → at ys i ≡ at xs i)
    → occ a n ys ≡ occ a n xs
unfolding occ at
occ-agree a zero xs ys p q h = refl
occ-agree a (suc n) [] ys p q h = absurd (omega arith)
occ-agree a (suc n) (x ∷ xs) [] p q h = absurd (omega arith)
occ-agree a (suc n) (x ∷ xs) (y ∷ ys) p q h =
    ground
      (arith, h 0, occ-agree a n xs ys (omega arith) (omega arith) (λ i l. h (suc i) (omega arith)))
