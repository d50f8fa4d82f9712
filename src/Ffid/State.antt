-- ===== src/Ffid/State.antt =====
-- What is kept of the id pool.
use randserver.Base.{
  ℕ, ◌+◌, ◌-◌, ◌%◌, ◌^◌, ◌<◌, ◌≡◌, refl, true, false, some, List, [], ◌∷◌, length, get_elem?-get_or,
  All, leb, ◌==◌, u16, u32, arith,
}
use native.Mathlib.Nat.{mod-lt}
use randserver.Ffid.{Ffid, has_id, index_of, id_at}
use randserver.Ffid.Links.{held, Linked, Apart}

-- The queue of free ids that starts at `first`.
abbrev pub IsFree : Ffid → List ℕ → Type 0
IsFree ff [] = ff.first ≡ ff.max_limit
IsFree ff (id ∷ ids) = (ff.first ≡ id) × Linked ff.ts ff.max_size ff.max_limit ff.end id ids

-- Ids are counted from 0 here, one less than the numbers that the functions take and return.
pub record IsValid (ff : Ffid) (free : List ℕ) : Type 0 where
  pub array : length ff.ts ≡ ff.max_size
  pub positive : 0 < ff.max_size
  pub small : ff.max_size < 2 ^ 16
  pub limit : ff.max_limit ≡ 2 ^ 32 - 1
  pub links : IsFree ff free
  pub apart : Apart ff.max_size free
  pub low : All (λ id. id < ff.max_limit) free

-- `id` stands in its slot.
abbrev pub Has : Ffid → ℕ → Type 0
Has ff id = held ff.ts (id % ff.max_size) ≡ id

-- `ffid_has_id` compares the slot of an id with it, and writes the number of the slot.
pub has_id-Has :
    (ff : Ffid) (free : List ℕ) (id : ℕ)
    → IsValid ff free
    → has_id ff (id + 1) ≡ some (held ff.ts (id % ff.max_size) == id, some (id % ff.max_size))
unfolding has_id
has_id-Has ff free id v =
    let back : id + 1 - 1 ≡ id = omega arith in
    let no_zero : (id + 1 == 0) ≡ false = ground arith in
    let below : id % ff.max_size < ff.max_size = mod-lt id v.positive in
    let short : u16 (id % ff.max_size) ≡ id % ff.max_size = omega (arith, v.small) in
    rw
      (
        no_zero,
        back,
        short,
        get_elem?-get_or ff.ts (id % ff.max_size) 0 (omega (arith, v.array, v.positive)),
      )
      refl

-- For an id that is had in a valid pool, `ffid_index` gives its slot and `ffid_id` at that slot
-- gives the id back.
pub id_at-index_of :
    (ff : Ffid) (free : List ℕ) (id : ℕ)
    → IsValid ff free
    → Has ff id
    → id < ff.max_limit
    → (index_of ff (id + 1) ≡ id % ff.max_size) × (id_at ff (index_of ff (id + 1)) ≡ some (id + 1))
unfolding index_of id_at
id_at-index_of ff free id v h b =
    let i = id % ff.max_size in
    let below : i < ff.max_size = mod-lt id v.positive in
    let back : u32 (id + 1 + 2 ^ 32 - 1) ≡ id = omega (arith, v.limit) in
    let number : u32 (id + 1) ≡ id + 1 = omega (arith, v.limit) in
    let short : u16 i ≡ i = omega (arith, v.small) in
    let within : leb ff.max_size i ≡ false = ground arith in
    let same : (i == i) ≡ true = ground arith in
    (
      rw (back, short) refl,
      rw (back, short, within, get_elem?-get_or ff.ts i 0 (omega (arith, v.array)), h, same, number)
          refl,
    )
