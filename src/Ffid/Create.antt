-- ===== src/Ffid/Create.antt =====
-- `ffid_create` and the queue of free ids that it leaves.
use randserver.Base.{
  ℕ, zero, suc, ◌+◌, ◌-◌, ◌%◌, ◌^◌, ◌≤◌, ◌<◌, ◌≡◌, refl, ◌∙◌, Bool, some, List, [], ◌∷◌, length,
  get_or-set, set, length-set, All, ltb, leb, lt→ltb, if◌then◌else◌, ◌&&◌, u16, arith,
}
use native.Mathlib.Nat.{mod-eq_of_lt}
use randserver.Ffid.{Ffid, create, fill}
use randserver.Ffid.Links.{held, Linked, Avoids, Apart}
use randserver.Ffid.State.{IsValid}

fill_lem :
    (rounds i : ℕ) (ts : List ℕ)
    → i + rounds ≤ length ts
    → (ts' : List ℕ) × (fill rounds i ts ≡ some ts')
      × (length ts' ≡ length ts)
      × ((j : ℕ) → held ts' j ≡ (if leb i j && ltb j (i + rounds) then j + 1 else held ts j))
unfolding fill
fill_lem zero i ts b = (ts, refl, refl, λ j. ground arith)
fill_lem (suc rounds) i ts b =
    let (ts', e, len, at) =
      fill_lem rounds (i + 1) (set ts i (i + 1)) (omega (arith, length-set ts i (i + 1))) in
    (
      ts',
      rw (lt→ltb i (length ts) (omega arith)) e,
      len ∙ length-set ts i (i + 1),
      λ j. ground (arith, at j, get_or-set ts i j (i + 1) 0 (omega arith)),
    )

-- The `n` ids from `i` on.
abbrev pub ids_from : ℕ → ℕ → List ℕ
ids_from i zero = []
ids_from i (suc n) = i ∷ ids_from (i + 1) n

Linked-ids_from :
    (size limit : ℕ) (ts : List ℕ) (end i n : ℕ)
    → i + n + 1 ≡ size
    → end ≡ i + n
    → ((j : ℕ) → j + 1 < size → held ts j ≡ j + 1)
    → held ts end ≡ limit
    → Linked ts size limit end i (ids_from (i + 1) n)
Linked-ids_from size limit ts end i zero e last inner top =
    let here : i % size ≡ i = mod-eq_of_lt (omega arith) in
    let place : end ≡ i = omega arith in (rw (here, ← place) top, omega arith)
Linked-ids_from size limit ts end i (suc n) e last inner top = (
  rw (mod-eq_of_lt {n = i} {m = size} (omega arith)) (inner i (omega arith)),
  Linked-ids_from size limit ts end (i + 1) n (omega arith) (omega arith) inner top,
)

Avoids-ids_from : (size i j n : ℕ) → i < j → j + n ≤ size → Avoids size (i % size) (ids_from j n)
Avoids-ids_from size i j zero lt b = tt
Avoids-ids_from size i j (suc n) lt b = (
  λ e. omega (
    arith,
    e,
    mod-eq_of_lt {n = i} {m = size} (omega arith),
    mod-eq_of_lt {n = j} {m = size} (omega arith),
  ),
  Avoids-ids_from size i (j + 1) n (omega arith) (omega arith),
)

Apart-ids_from : (size i n : ℕ) → i + n ≤ size → Apart size (ids_from i n)
Apart-ids_from size i zero b = tt
Apart-ids_from size i (suc n) b = (
  Avoids-ids_from size i (i + 1) n (omega arith) (omega arith),
  Apart-ids_from size (i + 1) n (omega arith),
)

ids_from-lt : (limit i n : ℕ) → i + n ≤ limit → All (λ id. id < limit) (ids_from i n)
ids_from-lt limit i zero b = tt
ids_from-lt limit i (suc n) b = (omega arith, ids_from-lt limit (i + 1) n (omega arith))

-- `ffid_create` on memory for a positive number of slots makes a pool in which the ids from 0 on,
-- one for each slot, are free in this order.
pub create_lem :
    (memory : List ℕ) (max_size : ℕ) (is_loop : Bool)
    → length memory ≡ max_size
    → 0 < max_size
    → max_size < 2 ^ 16
    → (ff : Ffid) × (create memory max_size is_loop ≡ some ff) × IsValid ff (ids_from 0 max_size)
unfolding create
create_lem memory zero is_loop len pos small = absurd (omega arith)
create_lem memory (suc n) is_loop len pos small =
    let (filled, e, same, at) = fill_lem n 0 memory (omega arith) in
    let last : u16 (suc n + 2 ^ 16 - 1) ≡ n = omega arith in
    let written = λ (j : ℕ). get_or-set filled n j (2 ^ 32 - 1) 0 (omega (arith, same, len)) in
    let ts = set filled n (2 ^ 32 - 1) in
    let ff : Ffid = record {
      ts = ts;
      max_limit = 2 ^ 32 - 1;
      first = 0;
      end = n;
      cur_size = 0;
      max_size = suc n;
      is_loop = is_loop;
    } in
    (
      ff,
      rw (last, e, lt→ltb n (length filled) (omega (arith, same, len))) refl,
      record {
        array = length-set filled n (2 ^ 32 - 1) ∙ same ∙ len;
        positive = omega arith;
        small = small;
        limit = refl;
        links = (
          refl,
          Linked-ids_from (suc n) (2 ^ 32 - 1) ts n 0 n (omega arith) (omega arith)
              (λ j lt. ground (arith, written j, at j)) (ground (arith, written n)),
        );
        apart = Apart-ids_from (suc n) 0 (suc n) (omega arith);
        low = ids_from-lt (2 ^ 32 - 1) 0 (suc n) (omega arith);
      },
    )
