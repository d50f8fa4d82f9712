-- ===== src/Sbtree/Order.antt =====
-- Entries in ascending order of key, and insertion into them.
use randserver.Base.{
  ℕ, ◌≤◌, ◌<◌, ◌≡◌, List, [], ◌∷◌, ◌++◌, All, All-imp, All-append_inv, ltb, if◌then◌else◌, arith,
}
use randserver.Sbtree.{Entry}

-- Every key of the list is at most `k`, or at least `k`.
abbrev pub AllLe : ℕ → List Entry → Type 0
AllLe k = All (λ e. e.0 ≤ k)

abbrev pub AllGe : ℕ → List Entry → Type 0
AllGe k = All (λ e. k ≤ e.0)

abbrev pub IsSorted : List Entry → Type 0
IsSorted [] = Unit
IsSorted (e ∷ es) = AllGe e.0 es × IsSorted es

pub AllGe-le : (j k : ℕ) (es : List Entry) → j ≤ k → AllGe k es → AllGe j es
AllGe-le j k es h = All-imp (λ e p. omega arith) es

pub AllLe-le : (j k : ℕ) (es : List Entry) → k ≤ j → AllLe k es → AllLe j es
AllLe-le j k es h = All-imp (λ e p. omega arith) es

-- The parts of a sorted list.
pub record Parts (xs : List Entry) (e : Entry) (ys : List Entry) : Type 0 where
  pub low : IsSorted xs
  pub below : AllLe e.0 xs
  pub above : AllGe e.0 ys
  pub high : IsSorted ys

pub IsSorted-Parts :
    (xs : List Entry) (e : Entry) (ys : List Entry) → IsSorted (xs ++ e ∷ ys) → Parts xs e ys
IsSorted-Parts [] e ys h = record { low = tt; below = tt; above = h.0; high = h.1 }
IsSorted-Parts (x ∷ xs) e ys h =
    let rest = IsSorted-Parts xs e ys h.1 in
    let (first, at) = All-append_inv (λ y. x.0 ≤ y.0) xs (e ∷ ys) h.0 in
    record {
      low = (first, rest.low);
      below = (at.0, rest.below);
      above = rest.above;
      high = rest.high;
    }

-- The list with a new entry behind the entries of smaller or equal key that stand in front.
unfoldable pub place : ℕ → ℕ → List Entry → List Entry
place k v [] = (k, v) ∷ []
place k v ((k', v') ∷ es) = if ltb k k' then (k, v) ∷ (k', v') ∷ es else (k', v') ∷ place k v es

pub place_before :
    (k v : ℕ) (xs : List Entry) (e : Entry) (ys : List Entry)
    → k < e.0
    → place k v (xs ++ e ∷ ys) ≡ place k v xs ++ e ∷ ys
unfolding place
place_before k v [] e ys h = ground arith
place_before k v (x ∷ xs) e ys h = ground (arith, place_before k v xs e ys h)

pub place_behind :
    (k v : ℕ) (xs : List Entry) (e : Entry) (ys : List Entry)
    → AllLe k xs
    → e.0 ≤ k
    → place k v (xs ++ e ∷ ys) ≡ xs ++ e ∷ place k v ys
unfolding place
place_behind k v [] e ys a h = ground arith
place_behind k v (x ∷ xs) e ys a h = ground (arith, place_behind k v xs e ys a.1 h)

AllGe-place : (j k v : ℕ) (es : List Entry) → j ≤ k → AllGe j es → AllGe j (place k v es)
unfolding place
AllGe-place j k v [] h a = (h, tt)
AllGe-place j k v (e ∷ es) h a = ground (arith, AllGe-place j k v es h a.1)

pub place-IsSorted : (k v : ℕ) (es : List Entry) → IsSorted es → IsSorted (place k v es)
unfolding place
place-IsSorted k v [] s = (tt, tt)
place-IsSorted k v (e ∷ es) s =
    ground (arith, place-IsSorted k v es s.1, AllGe-place e.0 k v es, AllGe-le k e.0 es)
