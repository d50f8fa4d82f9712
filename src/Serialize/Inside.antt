-- ===== src/Serialize/Inside.antt =====
-- The tables met in a call of packing, against the entries set in them.
use randserver.Base.{
  ℕ, suc, ◌+◌, ◌-◌, ◌≤◌, ◌<◌, ◌≡◌, refl, sym, ap, ap₂, ◌∙◌, subst, Bool, true, false, some,
  some_inj, List, [], ◌∷◌, ◌++◌, length, length-append, append_assoc, append-nil, get_elem?,
  get_elem?-append, get_elem?-bound, ltb, ltb→lt, ◌==◌, ==→eq, eq→==, Bool-cases, inl, inr, arith,
}
use randserver.Base.Parts.{get_elem?-inside}
use randserver.Serialize.Values.{
  Value, nil, boolean, integer, number, string, table, userdata, light, other, Entries, Heap,
}
use mathlib.Core.Option.{none-ne-some}
use randserver.Serialize.{find_ref}
use randserver.Serialize.Graph.{
  numbered, number_of, named, named-IsLeaf, named-number, IsLeaf, Sets, Packs, leaf, known, fresh,
  Rows, last, row, find_ref-range, find_ref-more, find_ref-last, Packs-more, Rows-more,
}
use randserver.Serialize.Sets.{
  sets_of, renamed, original, originals, entries_at, Packs-longer, sets_of-row, Packs-outside,
  Rows-outside,
}

-- `met` begins `final`.
abbrev pub Begins : List ℕ → List ℕ → Type 0
Begins met final = (more : List ℕ) × (final ≡ met ++ more)

pub Begins-trans :
    (met met' final : List ℕ) → Begins met met' → Begins met' final → Begins met final
Begins-trans met met' final (more, e) (more', e') =
    (more ++ more', e' ∙ ap (λ l. l ++ more') e ∙ append_assoc met more more')

number_of-Begins :
    (met final : List ℕ) (a k : ℕ)
    → number_of met a ≡ some k
    → Begins met final
    → number_of final a ≡ some k
number_of-Begins met final a k e (more, grown) =
    ap (λ l. number_of l a) grown ∙ find_ref-more 1 met more a k e

pub get_elem?-Begins :
    (met final : List ℕ) (i a : ℕ)
    → Begins met final
    → i < length met
    → get_elem? final i ≡ some a
    → get_elem? met i ≡ some a
get_elem?-Begins met final i a (more, grown) lt e =
    let inside : ltb i (length met) ≡ true = ground arith in
    sym (ap (λ l. get_elem? l i) grown ∙ get_elem?-append met more i ∙ rw inside refl) ∙ e

-- `l` is `entries` with the numbers of the tables for their addresses, and has its addresses back.
abbrev pub Rebuilds : List ℕ → Entries → Entries → Type 0
Rebuilds final entries l = (l ≡ renamed final entries) × (originals final l ≡ entries)

find_ref-get_elem? :
    (k : ℕ) (met : List ℕ) (a i : ℕ)
    → find_ref (numbered k met) a ≡ some i
    → get_elem? met (i - k) ≡ some a
unfolding numbered find_ref
find_ref-get_elem? k [] a i e = absurd (none-ne-some i e)
find_ref-get_elem? k (b ∷ met) a i e = elim (Bool-cases (b == a)) [
  | inl same ↦
      let here : i - k ≡ 0 = omega (arith, some_inj (rw same at e)) in
      rw here (ap some (==→eq b a same))
  | inr differ ↦
      let (low, _) = find_ref-range (suc k) met a i (rw differ at e) in
      let there : i - k ≡ suc (i - suc k) = omega arith in
      rw there (find_ref-get_elem? (suc k) met a i (rw differ at e))
]

original-IsLeaf :
    (support : Bool) (met : List ℕ) (v : Value) → IsLeaf support v → original met v ≡ v
original-IsLeaf support met nil h = refl
original-IsLeaf support met (boolean b) h = refl
original-IsLeaf support met (integer i) h = refl
original-IsLeaf support met (number b) h = refl
original-IsLeaf support met (string s) h = refl
original-IsLeaf support met (light p) h = refl
original-IsLeaf support met (table a) h = absurd h
original-IsLeaf support met (userdata u) h = absurd h
original-IsLeaf support met other h = absurd h

original-number :
    (met : List ℕ) (a k : ℕ) → number_of met a ≡ some k → original met (table k) ≡ table a
original-number met a k e = rw (original, find_ref-get_elem? 1 met a k e) refl

entries_at-some :
    (heap : Heap) (a : ℕ) (entries : Entries)
    → get_elem? heap a ≡ some entries
    → entries_at heap a ≡ entries
entries_at-some heap a entries e = rw (entries_at, e) refl

-- The number of a table, once given, stays.
pub Packs-named :
    {support : Bool} {heap : Heap} {met met' : List ℕ} {v : Value} {bytes : List ℕ} {s : Sets}
    → Packs support heap met v met' bytes s
    → (final : List ℕ) → Begins met' final
    → named met' v ≡ named final v
Packs-named {support = support} {met = met} (leaf v h) final front =
    named-IsLeaf support met v h ∙ sym (named-IsLeaf support final v h)
Packs-named {met = met} (known a k e) final front =
    named-number met a k e ∙ sym (named-number final a k (number_of-Begins met final a k e front))
Packs-named {met = met} {met' = met'} (fresh a e there rows) final front =
    let counted =
      number_of-Begins (met ++ a ∷ []) met' a _ (find_ref-last 1 met a e) (Rows-more rows) in
    named-number met' a _ counted
    ∙ sym (named-number final a _ (number_of-Begins met' final a _ counted front))

-- A number leads back to its table.
pub Packs-original :
    {support : Bool} {heap : Heap} {met met' : List ℕ} {v : Value} {bytes : List ℕ} {s : Sets}
    → Packs support heap met v met' bytes s
    → (final : List ℕ) → Begins met' final
    → original final (named met' v) ≡ v
Packs-original {support = support} {met = met} (leaf v h) final front =
    ap (original final) (named-IsLeaf support met v h) ∙ original-IsLeaf support final v h
Packs-original {met = met} (known a k e) final front =
    ap (original final) (named-number met a k e)
    ∙ original-number final a k (number_of-Begins met final a k e front)
Packs-original {met = met} {met' = met'} (fresh a e there rows) final front =
    let counted =
      number_of-Begins (met ++ a ∷ []) met' a _ (find_ref-last 1 met a e) (Rows-more rows) in
    ap (original final) (named-number met' a _ counted)
    ∙ original-number final a _ (number_of-Begins met' final a _ counted front)

Rows-index :
    {support : Bool} {heap : Heap} {index : ℕ} {met met' : List ℕ} {entries : Entries}
    {bytes : List ℕ} {s : Sets}
    → Rows support heap index met entries met' bytes s
    → index ≤ length met
    → (final : List ℕ) → Begins met' final
    → Rebuilds final entries (sets_of index s)
Rows-index last low final front = (refl, refl)
Rows-index {index = index}
      (row {met1 = met1} {met2 = met2} {met3 = met3} key v {entries = entries} {s1 = s1} {s2 = s2}
        {s3 = s3} ik pk pv rows)
      low final front =
    let first = Packs-outside pk index (inl low) in
    let second = Packs-outside pv index (inl (omega (arith, Packs-longer pk))) in
    let (later, back) =
      Rows-index rows (omega (arith, Packs-longer pk, Packs-longer pv)) final front in
    let front2 = Begins-trans met2 met3 final (Rows-more rows) front in
    let here =
      ap₂ (λ w w'. (w, w'))
        (Packs-named pk final (Begins-trans met1 met2 final (Packs-more pv) front2))
        (Packs-named pv final front2) in
    let front1 = Begins-trans met1 met2 final (Packs-more pv) front2 in
    let same : sets_of index (s1 ++ (s2 ++ (index, (named met1 key, named met2 v)) ∷ s3))
        ≡ (named met1 key, named met2 v) ∷ sets_of index s3 =
      sets_of-row index index _ s1 s2 s3 ∙ rw (first, second, eq→== index index refl) refl in
    let whole : originals final ((named met1 key, named met2 v) ∷ sets_of index s3)
        ≡ (key, v) ∷ entries =
      ap₂ (λ x l. x ∷ l)
        (ap₂ (λ w w'. (w, w')) (Packs-original pk final front1) (Packs-original pv final front2))
        back in
    (same ∙ ap₂ (λ x l. x ∷ l) here later, ap (originals final) same ∙ whole)

mutual
  pub Packs-inside :
      {support : Bool} {heap : Heap} {met met' : List ℕ} {v : Value} {bytes : List ℕ} {s : Sets}
      → Packs support heap met v met' bytes s
      → (final : List ℕ) → Begins met' final
      → (i a : ℕ) → get_elem? met' i ≡ some a
      → length met ≤ i
      → Rebuilds final (entries_at heap a) (sets_of (suc i) s)
  Packs-inside {met = met} (leaf v h) final front i a at new =
      absurd (omega (arith, get_elem?-bound met i a at))
  Packs-inside {met = met} (known b k e) final front i a at new =
      absurd (omega (arith, get_elem?-bound met i a at))
  Packs-inside {heap = heap} {met = met} {met' = met'}
        (fresh b {entries = entries} {sets = s} e there rows) final front i a at new =
      elim (Bool-cases (i == length met)) [
        | inl same ↦
            let here : i ≡ length met = ==→eq _ _ same in
            let early =
              get_elem?-Begins (met ++ b ∷ []) met' i a (Rows-more rows)
                (omega (arith, length-append met (b ∷ []))) at in
            let chosen : a ≡ b =
              some_inj
                (sym early ∙ ap (get_elem? (met ++ b ∷ [])) here ∙ get_elem?-inside met b []) in
            let number : suc i ≡ length met + 1 = omega arith in
            let found = entries_at-some heap a entries (ap (get_elem? heap) chosen ∙ there) in
            subst (λ k. Rebuilds final (entries_at heap a) (sets_of k s)) (sym number)
              (subst (λ l. Rebuilds final l (sets_of (length met + 1) s)) (sym found)
                (Rows-index rows (omega (arith, length-append met (b ∷ []))) final front))
        | inr differ ↦
            Rows-inside rows (omega (arith, length-append met (b ∷ []))) final front i a at
              (ground (arith, length-append met (b ∷ [])))
      ]

  Rows-inside :
      {support : Bool} {heap : Heap} {index : ℕ} {met met' : List ℕ} {entries : Entries}
      {bytes : List ℕ} {s : Sets}
      → Rows support heap index met entries met' bytes s
      → index ≤ length met
      → (final : List ℕ) → Begins met' final
      → (i a : ℕ) → get_elem? met' i ≡ some a
      → length met ≤ i
      → Rebuilds final (entries_at heap a) (sets_of (suc i) s)
  Rows-inside {met = met} last low final front i a at new =
      absurd (omega (arith, get_elem?-bound met i a at))
  Rows-inside {heap = heap} {index = index} {met = met}
        (row {met1 = met1} {met2 = met2} {met3 = met3} key v {s1 = s1} {s2 = s2} {s3 = s3} ik pk pv
          rows)
        low final front i a at new =
      let differ : (index == suc i) ≡ false = ground arith in
      let front2 = Begins-trans met2 met3 final (Rows-more rows) front in
      let front1 = Begins-trans met1 met2 final (Packs-more pv) front2 in
      let split = sets_of-row (suc i) index (named met1 key, named met2 v) s1 s2 s3 in
      elim (Bool-cases (ltb i (length met1))) [
        | inl early ↦
            let at1 =
              get_elem?-Begins met1 met3 i a
                (Begins-trans met1 met2 met3 (Packs-more pv) (Rows-more rows)) (ltb→lt _ _ early)
                at in
            let first = Packs-inside pk final front1 i a at1 new in
            let second = Packs-outside pv (suc i) (inl (omega (arith, ltb→lt _ _ early))) in
            let third =
              Rows-outside rows (suc i) (inl (omega (arith, ltb→lt _ _ early, Packs-longer pv)))
                differ in
            subst (Rebuilds final (entries_at heap a))
              (sym (split ∙ rw (second, differ, third) (append-nil (sets_of (suc i) s1)))) first
        | inr late ↦
            let first = Packs-outside pk (suc i) (inr (ground arith)) in
            elim (Bool-cases (ltb i (length met2))) [
              | inl early ↦
                  let at2 = get_elem?-Begins met2 met3 i a (Rows-more rows) (ltb→lt _ _ early) at in
                  let second = Packs-inside pv final front2 i a at2 (ground arith) in
                  let third =
                    Rows-outside rows (suc i) (inl (omega (arith, ltb→lt _ _ early))) differ in
                  subst (Rebuilds final (entries_at heap a))
                    (sym (split ∙ rw (first, differ, third) (append-nil (sets_of (suc i) s2))))
                    second
              | inr later ↦
                  let second = Packs-outside pv (suc i) (inr (ground arith)) in
                  let third =
                    Rows-inside rows (omega (arith, Packs-longer pk, Packs-longer pv)) final front i
                      a at (ground arith) in
                  subst (Rebuilds final (entries_at heap a))
                    (sym (split ∙ rw (first, second, differ) refl)) third
            ]
      ]
