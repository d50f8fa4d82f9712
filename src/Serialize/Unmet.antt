-- ===== src/Serialize/Unmet.antt =====
-- The tables met while packing, by their number.
use randserver.Base.{
  ℕ, zero, suc, ◌+◌, ◌≤◌, ◌<◌, ◌≡◌, refl, sym, ap, ◌∙◌, Bool, Option, none, some, List, [], ◌∷◌,
  ◌++◌, length, length-append, get_elem?-bound, ◌==◌, ==→eq, Bool-cases, inl, inr, arith,
}
use randserver.Serialize.{Value, Entries, Heap, find_ref}
use randserver.Serialize.Graph.{
  numbered, number_of, Sets, Packs, leaf, known, fresh, Rows, last, row, find_ref-more,
  find_ref-last,
}

-- The tables among the first `n` that were not met.
abbrev miss : Option ℕ → ℕ
miss none = 1
miss (some k) = 0

abbrev pub unmet : ℕ → List ℕ → ℕ
unmet zero met = 0
unmet (suc n) met = miss (number_of met n) + unmet n met

miss-more : (met more : List ℕ) (a : ℕ) → miss (number_of (met ++ more) a) ≤ miss (number_of met a)
miss-more met more a = of (number_of met a) refl
  where
    of :
        (o : Option ℕ)
        → number_of met a ≡ o
        → miss (number_of (met ++ more) a) ≤ miss (number_of met a)
    of (some k) e = omega (arith, ap miss (find_ref-more 1 met more a k e), ap miss e)
    of none e = omega (arith, ap miss e, most (number_of (met ++ more) a))
      where
        most : (o : Option ℕ) → miss o ≤ 1
        most none = omega arith
        most (some k) = omega arith

pub unmet-more : (n : ℕ) (met more : List ℕ) → unmet n (met ++ more) ≤ unmet n met
unmet-more zero met more = omega arith
unmet-more (suc n) met more = omega (arith, unmet-more n met more, miss-more met more n)

pub unmet-fresh :
    (n : ℕ) (met : List ℕ) (a : ℕ)
    → a < n
    → number_of met a ≡ none
    → unmet n (met ++ a ∷ []) < unmet n met
unmet-fresh zero met a lt e = absurd (omega arith)
unmet-fresh (suc n) met a lt e = elim (Bool-cases (a == n)) [
  | inl same ↦
      let here : a ≡ n = ==→eq _ _ same in
      let none_before : miss (number_of met n) ≡ 1 = ap miss (ap (number_of met) (sym here) ∙ e) in
      let some_now : miss (number_of (met ++ a ∷ []) n) ≡ 0 =
        ap miss (ap (number_of (met ++ a ∷ [])) (sym here) ∙ find_ref-last 1 met a e) in
      omega (arith, unmet-more n met (a ∷ []))
  | inr differ ↦
      let less : a < n = ground arith in
      omega (arith, unmet-fresh n met a less e, miss-more met (a ∷ []) n)
]

pub unmet-all : (n : ℕ) → unmet n [] ≡ n
unfolding numbered find_ref
unmet-all zero = refl
unmet-all (suc n) = omega (arith, unmet-all n)

-- The tables met are tables of the heap, each met once.
mutual
  pub Packs-few :
      {support : Bool} {heap : Heap} {met met' : List ℕ} {v : Value} {bytes : List ℕ} {sets : Sets}
      → Packs support heap met v met' bytes sets
      → length met' + unmet (length heap) met' ≤ length met + unmet (length heap) met
  Packs-few (leaf v h) = omega arith
  Packs-few (known a k e) = omega arith
  Packs-few {heap = heap} {met = met} (fresh a {entries = entries} e there rows) = omega (
    arith,
    Rows-few rows,
    length-append met (a ∷ []),
    unmet-fresh (length heap) met a (get_elem?-bound heap a entries there) e,
  )

  Rows-few :
      {support : Bool} {heap : Heap} {index : ℕ} {met met' : List ℕ} {entries : Entries}
      {bytes : List ℕ} {sets : Sets}
      → Rows support heap index met entries met' bytes sets
      → length met' + unmet (length heap) met' ≤ length met + unmet (length heap) met
  Rows-few last = omega arith
  Rows-few (row k v ik pk pv rows) = omega (arith, Packs-few pk, Packs-few pv, Rows-few rows)
