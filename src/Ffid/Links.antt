-- ===== src/Ffid/Links.antt =====
-- The free ids that are linked through the slots.
use randserver.Base.{
  ℕ, ◌%◌, ◌<◌, ◌≡◌, ◌≢◌, sym, ap, ◌∙◌, List, [], ◌∷◌, ◌++◌, length, get_or, get_or-set, set,
  length-set, All, All-imp, ◌==◌, if◌then◌else◌, arith,
}

-- The number in a slot.
abbrev pub held : List ℕ → ℕ → ℕ
held ts i = get_or ts i 0

-- The free ids from `id` on: each slot holds the next one, and the last, which holds the limit, is
-- the slot `end`.
abbrev pub Linked : List ℕ → ℕ → ℕ → ℕ → ℕ → List ℕ → Type 0
Linked ts size limit end id [] = (held ts (id % size) ≡ limit) × (end ≡ id % size)
Linked ts size limit end id (next ∷ ids) =
    (held ts (id % size) ≡ next) × Linked ts size limit end next ids

-- The slot belongs to none of the ids.
abbrev pub Avoids : ℕ → ℕ → List ℕ → Type 0
Avoids size i = All (λ id. id % size ≢ i)

pub Avoids-moved : (size i j : ℕ) (ids : List ℕ) → i ≡ j → Avoids size i ids → Avoids size j ids
Avoids-moved size i j ids e a = All-imp (λ id n p. n (omega arith)) ids a

-- No two of the ids share a slot.
abbrev pub Apart : ℕ → List ℕ → Type 0
Apart size [] = Unit
Apart size (id ∷ ids) = Avoids size (id % size) ids × Apart size ids

-- Two writes.
pub held-set_twice :
    (ts : List ℕ) (e n i v j : ℕ)
    → e < length ts
    → i < length ts
    → held (set (set ts e n) i v) j ≡ (if i == j then v else if e == j then n else held ts j)
held-set_twice ts e n i v j b c =
    get_or-set (set ts e n) i j v 0 (omega (arith, length-set ts e n))
    ∙ ap (λ x. if i == j then v else x) (get_or-set ts e j n 0 b)

module _ (size limit : ℕ) where
  pub end-lt :
      (ts : List ℕ) (end id : ℕ) (ids : List ℕ)
      → 0 < size
      → Linked ts size limit end id ids
      → end < size
  end-lt ts end id [] pos l = omega (arith, l.1)
  end-lt ts end id (next ∷ ids) pos l = end-lt ts end next ids pos l.1

  -- A write to a slot that no free id has.
  pub Linked-set :
      (ts : List ℕ) (end id : ℕ) (ids : List ℕ) (i v : ℕ)
      → i < length ts
      → Avoids size i (id ∷ ids)
      → Linked ts size limit end id ids
      → Linked (set ts i v) size limit end id ids
  Linked-set ts end id [] i v b a l = ground (arith, get_or-set ts i (id % size) v 0 b)
  Linked-set ts end id (next ∷ ids) i v b a l = (
    ground (arith, get_or-set ts i (id % size) v 0 b, a.0, l.0),
    Linked-set ts end next ids i v b a.1 l.1,
  )

  -- The slot `end` is that of a free id.
  pub end-Avoids :
      (ts : List ℕ) (end id : ℕ) (ids : List ℕ) (i : ℕ)
      → Avoids size i (id ∷ ids)
      → Linked ts size limit end id ids
      → end ≢ i
  end-Avoids ts end id [] i a l = λ e. a.0 (omega (arith, l.1))
  end-Avoids ts end id (next ∷ ids) i a l = end-Avoids ts end next ids i a.1 l.1

  -- A free slot does not hold its own id.
  pub held-Linked :
      (ts : List ℕ) (end id : ℕ) (ids : List ℕ) (i : ℕ)
      → Apart size (id ∷ ids)
      → All (λ f. f < limit) (id ∷ ids)
      → Linked ts size limit end id ids
      → held ts (i % size) ≡ i
      → i < limit
      → Avoids size (i % size) (id ∷ ids)
  held-Linked ts end id [] i a low l h b = (λ e. ground (arith, l.0), tt)
  held-Linked ts end id (next ∷ ids) i a low l h b =
      (λ e. a.0.0 (ground (arith, l.0)), held-Linked ts end next ids i a.1 low.1 l.1 h b)

  -- A new last id, whose slot no free id has.
  pub Linked-last :
      (ts : List ℕ) (end id : ℕ) (ids : List ℕ) (next i : ℕ)
      → next % size ≡ i
      → length ts ≡ size
      → 0 < size
      → end < size
      → Apart size (id ∷ ids)
      → Avoids size i (id ∷ ids)
      → Linked ts size limit end id ids
      → Linked (set (set ts end next) i limit) size limit i id (ids ++ next ∷ [])
  Linked-last ts end id [] next i e len pos b a avoid l =
      let at = held-set_twice ts end next i limit in
      (
        ground (arith, at (id % size) (omega arith) (omega arith), avoid.0, l.1),
        (ground (arith, at (next % size) (omega arith) (omega arith)), sym e),
      )
  Linked-last ts end id (x ∷ ids) next i e len pos b a avoid l = (
    ground (
      arith,
      held-set_twice ts end next i limit (id % size) (omega arith) (omega arith),
      avoid.0,
      l.0,
      end-Avoids ts end x ids (id % size) a.0 l.1,
    ),
    Linked-last ts end x ids next i e len pos b a.1 avoid.1 l.1,
  )

  Avoids-append :
      (i : ℕ) (ids : List ℕ) (next : ℕ)
      → Avoids size i ids
      → next % size ≢ i
      → Avoids size i (ids ++ next ∷ [])
  Avoids-append i [] next a n = (n, tt)
  Avoids-append i (x ∷ ids) next a n = (a.0, Avoids-append i ids next a.1 n)

  pub Apart-last :
      (ids : List ℕ) (next : ℕ)
      → Apart size ids
      → Avoids size (next % size) ids
      → Apart size (ids ++ next ∷ [])
  Apart-last [] next a n = (tt, tt)
  Apart-last (x ∷ ids) next a n =
      (Avoids-append (x % size) ids next a.0 (λ e. n.0 (omega arith)), Apart-last ids next a.1 n.1)

  pub All-last :
      (ids : List ℕ) (next : ℕ)
      → All (λ f. f < limit) ids
      → next < limit
      → All (λ f. f < limit) (ids ++ next ∷ [])
  All-last [] next a n = (n, tt)
  All-last (x ∷ ids) next a n = (a.0, All-last ids next a.1 n)
