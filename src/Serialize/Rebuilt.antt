-- ===== src/Serialize/Rebuilt.antt =====
-- The tables that unpacking builds from all arguments, against those of the heap.
use randserver.Base.{
  ℕ, suc, ◌+◌, ◌≤◌, ◌≡◌, refl, sym, ap, ap₂, ◌∙◌, subst, Bool, some, List, [], ◌∷◌, length,
  length-append, append-nil, get_elem?, get_elem?-bound, ltb, ltb→lt, Bool-cases, inl, inr, arith,
}
use randserver.Serialize.Values.{Value, Heap}
use randserver.Serialize.Graph.{named, Sets, Packs-more}
use randserver.Serialize.All.{PacksAll, end, next}
use randserver.Serialize.Unmet.{unmet, unmet-all, Packs-few}
use randserver.Serialize.Sets.{
  sets_of, sets_of-append, built, renamed, entries_at, original, originals, Packs-longer,
  Packs-outside,
}
use randserver.Serialize.Inside.{
  Begins, Begins-trans, get_elem?-Begins, Rebuilds, Packs-original, Packs-named, Packs-inside,
}

-- Values with the numbers of the tables for their addresses.
abbrev pub all_named : List ℕ → List Value → List Value
all_named met [] = []
all_named met (v ∷ vs) = named met v ∷ all_named met vs

-- The tables of the heap at `addresses`, with the numbers of the tables for their addresses.
abbrev pub tables_at : Heap → List ℕ → List ℕ → Heap
tables_at heap met [] = []
tables_at heap met (a ∷ addresses) = renamed met (entries_at heap a) ∷ tables_at heap met addresses

abbrev pub all_originals : List ℕ → Heap → Heap
all_originals met [] = []
all_originals met (entries ∷ tables) = originals met entries ∷ all_originals met tables

abbrev pub original_values : List ℕ → List Value → List Value
original_values met [] = []
original_values met (v ∷ vs) = original met v ∷ original_values met vs

-- The tables of the heap at `addresses`.
abbrev pub heap_at : Heap → List ℕ → Heap
heap_at heap [] = []
heap_at heap (a ∷ addresses) = entries_at heap a ∷ heap_at heap addresses

built_lem :
    (heap : Heap) (final : List ℕ) (s : Sets) (k : ℕ) (l : List ℕ)
    → ((i a : ℕ) → get_elem? l i ≡ some a → Rebuilds final (entries_at heap a) (sets_of (k + i) s))
    → (built k (length l) s ≡ tables_at heap final l)
      × (all_originals final (built k (length l) s) ≡ heap_at heap l)
built_lem heap final s k [] h = (refl, refl)
built_lem heap final s k (a ∷ l) h =
    let first : k + 0 ≡ k = omega arith in
    let (there, back) =
      subst (λ n. Rebuilds final (entries_at heap a) (sets_of n s)) first (h 0 a refl) in
    let (theres, backs) = built_lem heap final s (suc k) l later in
    (ap₂ (λ x xs. x ∷ xs) there theres, ap₂ (λ x xs. x ∷ xs) back backs)
  where
    later :
        (i b : ℕ)
        → get_elem? l i ≡ some b
        → Rebuilds final (entries_at heap b) (sets_of (suc k + i) s)
    later i b e =
        let after : k + suc i ≡ suc k + i = omega arith in
        subst (λ n. Rebuilds final (entries_at heap b) (sets_of n s)) after (h (suc i) b e)

module _ {support : Bool} {heap : Heap} where
  pub All-more :
      {met met' : List ℕ} {vs : List Value} {b : List ℕ} {s : Sets} {values : List Value}
      → PacksAll support heap met vs met' b s values
      → Begins met met'
  All-more {met = met} end = ([], sym (append-nil met))
  All-more (next {met = met} {met1 = met1} {met2 = met2} v p ps) =
      Begins-trans met met1 met2 (Packs-more p) (All-more ps)

  All-longer :
      {met met' : List ℕ} {vs : List Value} {b : List ℕ} {s : Sets} {values : List Value}
      → PacksAll support heap met vs met' b s values
      → length met ≤ length met'
  All-longer {met = met} p =
      let (more, grown) = All-more p in omega (arith, ap length grown, length-append met more)

  All-few :
      {met met' : List ℕ} {vs : List Value} {b : List ℕ} {s : Sets} {values : List Value}
      → PacksAll support heap met vs met' b s values
      → length met' + unmet (length heap) met' ≤ length met + unmet (length heap) met
  All-few end = omega arith
  All-few (next v p ps) = omega (arith, Packs-few p, All-few ps)

  -- No more tables are met than the heap has.
  pub All-bound :
      {met : List ℕ} {vs : List Value} {b : List ℕ} {s : Sets} {values : List Value}
      → PacksAll support heap [] vs met b s values
      → length met ≤ length heap
  All-bound p = omega (arith, All-few p, unmet-all (length heap))

  pub All-named :
      {met met' : List ℕ} {vs : List Value} {b : List ℕ} {s : Sets} {values : List Value}
      → PacksAll support heap met vs met' b s values
      → (final : List ℕ) → Begins met' final
      → values ≡ all_named final vs
  All-named end final front = refl
  All-named (next {met1 = met1} {met2 = met2} v p ps) final front =
      ap₂ (λ w ws. w ∷ ws) (Packs-named p final (Begins-trans met1 met2 final (All-more ps) front))
        (All-named ps final front)

  pub All-original :
      {met met' : List ℕ} {vs : List Value} {b : List ℕ} {s : Sets} {values : List Value}
      → PacksAll support heap met vs met' b s values
      → (final : List ℕ) → Begins met' final
      → original_values final values ≡ vs
  All-original end final front = refl
  All-original (next {met1 = met1} {met2 = met2} v p ps) final front =
      ap₂ (λ w ws. w ∷ ws)
        (Packs-original p final (Begins-trans met1 met2 final (All-more ps) front))
        (All-original ps final front)

  All-outside :
      {met met' : List ℕ} {vs : List Value} {b : List ℕ} {s : Sets} {values : List Value}
      → PacksAll support heap met vs met' b s values
      → (k : ℕ) → k ≤ length met
      → sets_of k s ≡ []
  All-outside end k low = refl
  All-outside (next v {s1 = s1} {s2 = s2} p ps) k low =
      let first = Packs-outside p k (inl low) in
      let second = All-outside ps k (omega (arith, Packs-longer p)) in
      sets_of-append k s1 s2 ∙ rw (first, second) refl

  All-inside :
      {met met' : List ℕ} {vs : List Value} {b : List ℕ} {s : Sets} {values : List Value}
      → PacksAll support heap met vs met' b s values
      → (final : List ℕ) → Begins met' final
      → (i a : ℕ) → get_elem? met' i ≡ some a
      → length met ≤ i
      → Rebuilds final (entries_at heap a) (sets_of (suc i) s)
  All-inside {met = met} end final front i a at new =
      absurd (omega (arith, get_elem?-bound met i a at))
  All-inside (next {met1 = met1} {met2 = met2} v {s1 = s1} {s2 = s2} p ps) final front i a at new =
      let split = sets_of-append (suc i) s1 s2 in
      elim (Bool-cases (ltb i (length met1))) [
        | inl early ↦
            let at1 = get_elem?-Begins met1 met2 i a (All-more ps) (ltb→lt _ _ early) at in
            let first =
              Packs-inside p final (Begins-trans met1 met2 final (All-more ps) front) i a at1 new in
            let second = All-outside ps (suc i) (omega (arith, ltb→lt _ _ early)) in
            subst (Rebuilds final (entries_at heap a))
              (sym (split ∙ rw second (append-nil (sets_of (suc i) s1)))) first
        | inr late ↦
            let first = Packs-outside p (suc i) (inr (ground arith)) in
            subst (Rebuilds final (entries_at heap a)) (sym (split ∙ rw first refl))
              (All-inside ps final front i a at (ground arith))
      ]

  -- The tables built are those met.
  pub All-built :
      {met : List ℕ} {vs : List Value} {b : List ℕ} {s : Sets} {values : List Value}
      → PacksAll support heap [] vs met b s values
      → (built 1 (length met) s ≡ tables_at heap met met)
        × (all_originals met (built 1 (length met) s) ≡ heap_at heap met)
  All-built {met = met} {s = s} p = built_lem heap met s 1 met (λ i a e.
      subst (λ n. Rebuilds met (entries_at heap a) (sets_of n s)) (omega arith)
        (All-inside p met ([], sym (append-nil met)) i a e (omega arith)))
