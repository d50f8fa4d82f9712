-- ===== src/Serialize/Sets.antt =====
-- The entries that unpacking sets, against the tables of the heap.
use randserver.Base.{
  ℕ, zero, suc, ◌-◌, ◌≤◌, ◌<◌, ◌≡◌, refl, ap, ◌∙◌, Bool, false, none, some, List, [], ◌∷◌, ◌++◌,
  length, length-append, get_elem?, ◌==◌, Bool-cases, inl, inr, ◌⊎◌, if◌then◌else◌, arith,
}
use randserver.Serialize.Values.{
  Value, nil, boolean, integer, number, string, table, userdata, light, other, Entries, Heap,
}
use randserver.Serialize.Graph.{
  named, Sets, Packs, leaf, known, fresh, Rows, last, row, Packs-more, Rows-more,
}

-- The entries set in the table `k`, in their order.
abbrev pub sets_of : ℕ → Sets → Entries
sets_of k [] = []
sets_of k ((i, x) ∷ sets) = let rest = sets_of k sets in if i == k then x ∷ rest else rest

-- The `n` tables from `k` on.
abbrev pub built : ℕ → ℕ → Sets → Heap
built k zero sets = []
built k (suc n) sets = sets_of k sets ∷ built (suc k) n sets

abbrev pub renamed : List ℕ → Entries → Entries
renamed met [] = []
renamed met ((k, v) ∷ entries) = (named met k, named met v) ∷ renamed met entries

-- The address of a table for its number.
abbrev pub original : List ℕ → Value → Value
original met (table k) = elim (get_elem? met (k - 1)) [ none ↦ nil | some a ↦ table a ]
original met nil = nil
original met (boolean b) = boolean b
original met (integer i) = integer i
original met (number b) = number b
original met (string s) = string s
original met (userdata u) = userdata u
original met (light p) = light p
original met other = other

abbrev pub originals : List ℕ → Entries → Entries
originals met [] = []
originals met ((k, v) ∷ entries) = (original met k, original met v) ∷ originals met entries

abbrev pub entries_at : Heap → ℕ → Entries
entries_at heap a = elim (get_elem? heap a) [ none ↦ [] | some entries ↦ entries ]

pub sets_of-append : (k : ℕ) (s t : Sets) → sets_of k (s ++ t) ≡ sets_of k s ++ sets_of k t
sets_of-append k [] t = refl
sets_of-append k ((i, x) ∷ s) t = elim (Bool-cases (i == k)) [
  | inl same ↦ rw (same, sets_of-append k s t) refl
  | inr differ ↦ rw (differ, sets_of-append k s t) refl
]

pub Packs-longer :
    {support : Bool} {heap : Heap} {met met' : List ℕ} {v : Value} {bytes : List ℕ} {s : Sets}
    → Packs support heap met v met' bytes s
    → length met ≤ length met'
Packs-longer {met = met} p =
    let (more, grown) = Packs-more p in omega (arith, ap length grown, length-append met more)

Rows-longer :
    {support : Bool} {heap : Heap} {index : ℕ} {met met' : List ℕ} {entries : Entries}
    {bytes : List ℕ} {s : Sets}
    → Rows support heap index met entries met' bytes s
    → length met ≤ length met'
Rows-longer {met = met} p =
    let (more, grown) = Rows-more p in omega (arith, ap length grown, length-append met more)

-- A call sets entries only in the tables that it meets.
abbrev pub IsOutside : ℕ → List ℕ → List ℕ → Type 0
IsOutside k met met' = (k ≤ length met) ⊎ (length met' < k)

-- The entries of a table set by a row of two values and further rows.
pub sets_of-row :
    (k index : ℕ) (x : Value × Value) (s1 s2 s3 : Sets)
    → sets_of k (s1 ++ (s2 ++ (index, x) ∷ s3))
      ≡ sets_of k s1 ++ (sets_of k s2 ++ sets_of k ((index, x) ∷ s3))
sets_of-row k index x s1 s2 s3 =
    sets_of-append k s1 _ ∙ ap (λ l. sets_of k s1 ++ l) (sets_of-append k s2 _)

mutual
  pub Packs-outside :
      {support : Bool} {heap : Heap} {met met' : List ℕ} {v : Value} {bytes : List ℕ} {s : Sets}
      → Packs support heap met v met' bytes s
      → (k : ℕ) → IsOutside k met met'
      → sets_of k s ≡ []
  Packs-outside (leaf v h) k out = refl
  Packs-outside (known a i e) k out = refl
  Packs-outside {met = met} (fresh a e there rows) k (inl low) =
      Rows-outside rows k (inl (omega (arith, length-append met (a ∷ [])))) (ground arith)
  Packs-outside {met = met} (fresh a e there rows) k (inr high) =
      let longer = Rows-longer rows in
      Rows-outside rows k (inr high) (ground (arith, length-append met (a ∷ [])))

  pub Rows-outside :
      {support : Bool} {heap : Heap} {index : ℕ} {met met' : List ℕ} {entries : Entries}
      {bytes : List ℕ} {s : Sets}
      → Rows support heap index met entries met' bytes s
      → (k : ℕ) → IsOutside k met met'
      → (index == k) ≡ false
      → sets_of k s ≡ []
  Rows-outside last k out differ = refl
  Rows-outside {index = index} (row key v {s1 = s1} {s2 = s2} {s3 = s3} ik pk pv rows) k (inl low)
        differ =
      let first = Packs-outside pk k (inl low) in
      let second = Packs-outside pv k (inl (omega (arith, Packs-longer pk))) in
      let third =
        Rows-outside rows k (inl (omega (arith, Packs-longer pk, Packs-longer pv))) differ in
      sets_of-row k index _ s1 s2 s3 ∙ rw (first, second, differ, third) refl
  Rows-outside {index = index} (row key v {s1 = s1} {s2 = s2} {s3 = s3} ik pk pv rows) k (inr high)
        differ =
      let first = Packs-outside pk k (inr (omega (arith, Packs-longer pv, Rows-longer rows))) in
      let second = Packs-outside pv k (inr (omega (arith, Rows-longer rows))) in
      let third = Rows-outside rows k (inr high) differ in
      sets_of-row k index _ s1 s2 s3 ∙ rw (first, second, differ, third) refl
