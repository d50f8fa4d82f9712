-- ===== src/Sbtree/Count.antt =====
-- How often a key stands in a list of entries, and how many keys are smaller.
use randserver.Base.{
  ℕ, ◌+◌, ◌≤◌, ◌<◌, ◌≡◌, refl, List, [], ◌∷◌, ◌++◌, length, ltb, ◌==◌, if◌then◌else◌, arith,
}
use randserver.Sbtree.{Entry}
use randserver.Sbtree.Order.{AllLe, AllGe}

-- How many entries have the key, and how many a smaller one.
unfoldable pub occurrences : ℕ → List Entry → ℕ
occurrences k [] = 0
occurrences k (e ∷ es) = (if k == e.0 then 1 else 0) + occurrences k es

unfoldable pub below_cnt : ℕ → List Entry → ℕ
below_cnt k [] = 0
below_cnt k (e ∷ es) = (if ltb e.0 k then 1 else 0) + below_cnt k es

module _ (k : ℕ) where
  pub occurrences-append :
      (xs ys : List Entry) → occurrences k (xs ++ ys) ≡ occurrences k xs + occurrences k ys
  unfolding occurrences
  occurrences-append [] ys = omega arith
  occurrences-append (x ∷ xs) ys = omega (arith, occurrences-append xs ys)

  pub below_cnt-append :
      (xs ys : List Entry) → below_cnt k (xs ++ ys) ≡ below_cnt k xs + below_cnt k ys
  unfolding below_cnt
  below_cnt-append [] ys = omega arith
  below_cnt-append (x ∷ xs) ys = omega (arith, below_cnt-append xs ys)

  pub occurrences-AllGe : (j : ℕ) (es : List Entry) → AllGe j es → k < j → occurrences k es ≡ 0
  unfolding occurrences
  occurrences-AllGe j [] a h = refl
  occurrences-AllGe j (e ∷ es) a h = ground (arith, occurrences-AllGe j es a.1 h)

  pub occurrences-AllLe : (j : ℕ) (es : List Entry) → AllLe j es → j < k → occurrences k es ≡ 0
  unfolding occurrences
  occurrences-AllLe j [] a h = refl
  occurrences-AllLe j (e ∷ es) a h = ground (arith, occurrences-AllLe j es a.1 h)

  pub below_cnt-AllGe : (j : ℕ) (es : List Entry) → AllGe j es → k ≤ j → below_cnt k es ≡ 0
  unfolding below_cnt
  below_cnt-AllGe j [] a h = refl
  below_cnt-AllGe j (e ∷ es) a h = ground (arith, below_cnt-AllGe j es a.1 h)

  pub below_cnt-AllLe : (j : ℕ) (es : List Entry) → AllLe j es → j < k → below_cnt k es ≡ length es
  unfolding below_cnt
  below_cnt-AllLe j [] a h = refl
  below_cnt-AllLe j (e ∷ es) a h = ground (arith, below_cnt-AllLe j es a.1 h)

  pub occurrences-le : (es : List Entry) → occurrences k es ≤ length es
  unfolding occurrences
  occurrences-le [] = omega arith
  occurrences-le (e ∷ es) = ground (arith, occurrences-le es)

  pub below_cnt-le : (es : List Entry) → below_cnt k es ≤ length es
  unfolding below_cnt
  below_cnt-le [] = omega arith
  below_cnt-le (e ∷ es) = ground (arith, below_cnt-le es)
