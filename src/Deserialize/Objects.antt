-- ===== src/Deserialize/Objects.antt =====
-- engine/lualib/serialize.c: `unpack_obj` on packed bytes.
use randserver.Base.{
  ℕ, suc, ◌+◌, ◌^◌, ◌≤◌, ◌<◌, ◌≡◌, refl, sym, ap, ap₂, ◌∙◌, subst, Bool, true, false, some, List,
  [], ◌∷◌, ◌++◌, length, length-append, append_assoc, append-nil, ◌==◌, arith,
}
use randserver.Base.Bytes.{le_bytes, length-le_bytes}
use randserver.Base.Parts.{IsAt, IsAt-get_elem?, IsAt-fits, IsAt-front, IsAt-back}
use randserver.Serialize.Values.{
  Value, nil, table, Entries, Heap, is_key, ser_none, ser_table_begin, ser_table_end, ser_table_ref,
}
use randserver.Serialize.Graph.{
  number_of, named, leaf_bytes, IsLeaf, Sets, Packs, leaf, known, fresh, Rows, last, row,
  find_ref-range, find_ref-more, find_ref-last, Packs-more, Rows-more,
}
use randserver.Deserialize.{done, unpack_obj, always}
use randserver.Deserialize.Leaves.{good, leaf-Back}
use randserver.Serialize.Graph.{named-IsLeaf, named-number, is_key-named}
use randserver.Deserialize.Steps.{
  positive, leaf_step, table_step, ref_leaf, end_leaf, entries_end, entries_step, table_lem,
  entries_from,
}

module _ (registered : List ℕ → Bool) (bytes : List ℕ) where
  -- The outcome of a call at the front of `b`.
  abbrev Gets : ℕ → ℕ → Sets → List ℕ → Value → List ℕ → List ℕ → Sets → Type 0
  Gets f p sets met v met' b s =
      (op : ℕ) × ((op == ser_none) ≡ false)
      × ((op == ser_table_end) ≡ false)
      × (0 < length b)
      × (unpack_obj registered always bytes (suc f) (good p (length met) sets)
          ≡ done (good (p + length b) (length met') (sets ++ s), op, named met' v))

  leaf-Gets :
      (support : Bool) (f p : ℕ) (sets : Sets) (met : List ℕ) (v : Value)
      → IsLeaf support v
      → IsAt bytes p (leaf_bytes v)
      → Gets f p sets met v met (leaf_bytes v) []
  leaf-Gets support f p sets met v h at =
      let (op, rest, e, e0, e1, e2, back) =
        leaf-Back registered bytes support p (length met) sets v h at in
      let at' : IsAt bytes p (op ∷ rest) = subst (IsAt bytes p) e at in
      let same =
        ap₂ (λ l w. done (good (p + length (leaf_bytes v)) (length met) l, op, w))
          (sym (append-nil sets)) (sym (named-IsLeaf support met v h)) in
      (
        op,
        e0,
        e1,
        omega (arith, ap length e),
        leaf_step registered bytes f p (length met) op sets _ v
              (omega (arith, IsAt-fits bytes p (op ∷ rest) at'))
              (IsAt-get_elem? bytes p op rest at') e2 back
            ∙ same,
      )

  known-Gets :
      (f p : ℕ) (sets : Sets) (met : List ℕ) (a k : ℕ)
      → number_of met a ≡ some k
      → IsAt bytes p (ser_table_ref ∷ le_bytes 4 k)
      → length met < 2 ^ 31
      → Gets f p sets met (table a) met (ser_table_ref ∷ le_bytes 4 k) []
  known-Gets f p sets met a k e at small =
      let (low, high) = find_ref-range 1 met a k e in
      let at' = IsAt-back bytes p (ser_table_ref ∷ []) (le_bytes 4 k) at in
      let back =
        ref_leaf registered bytes (p + 1) (length met) k sets at' (omega arith) (omega arith)
          (omega arith) in
      let end : p + 1 + 4 ≡ p + length (ser_table_ref ∷ le_bytes 4 k) =
        omega (arith, length-le_bytes 4 k) in
      let step =
        leaf_step registered bytes f p (length met) ser_table_ref sets _ (table k)
          (omega (arith, IsAt-fits bytes p _ at)) (IsAt-get_elem? bytes p _ _ at) refl back in
      (
        ser_table_ref,
        refl,
        refl,
        omega arith,
        step
            ∙ ap₂ (λ n l. done (good n (length met) l, ser_table_ref, table k)) end
                (sym (append-nil sets))
            ∙ ap
                (λ w. done (
                  good (p + length (ser_table_ref ∷ le_bytes 4 k)) (length met) (sets ++ []),
                  ser_table_ref,
                  w,
                ))
                (sym (named-number met a k e)),
      )

  abbrev EntriesBack : ℕ → ℕ → ℕ → ℕ → Sets → List ℕ → List ℕ → List ℕ → Sets → Type 0
  EntriesBack f rounds index p sets met met' b s =
      entries_from registered bytes (suc rounds) (unpack_obj registered always bytes (suc f)) index
        (unpack_obj registered always bytes (suc f) (good p (length met) sets))
      ≡ done (good (p + length b + 1) (length met') (sets ++ s))

  last_lem :
      (f rounds index p : ℕ) (sets : Sets) (met : List ℕ)
      → IsAt bytes p (ser_table_end ∷ [])
      → EntriesBack f rounds index p sets met met [] []
  last_lem f rounds index p sets met at =
      let obj = unpack_obj registered always bytes (suc f) in
      let step =
        leaf_step registered bytes f p (length met) ser_table_end sets _ nil
          (omega (arith, IsAt-fits bytes p _ at)) (IsAt-get_elem? bytes p _ _ at) refl
          (end_leaf registered bytes _) in
      ap (entries_from registered bytes (suc rounds) obj index) step
      ∙ entries_end registered bytes rounds index (p + 1) (length met) obj sets
      ∙ ap₂ (λ n l. done (good n (length met) l)) (omega arith) (sym (append-nil sets))

  fresh-Gets :
      (g p a : ℕ) (sets : Sets) (met met' : List ℕ) (b : List ℕ) (s : Sets)
      → number_of met' a ≡ some (length met + 1)
      → IsAt bytes p (ser_table_begin ∷ (b ++ ser_table_end ∷ []))
      → EntriesBack g g (length met + 1) (p + 1) sets (met ++ a ∷ []) met' b s
      → Gets (suc g) p sets met (table a) met' (ser_table_begin ∷ (b ++ ser_table_end ∷ [])) s
  fresh-Gets g p a sets met met' b s e at back =
      let obj = unpack_obj registered always bytes (suc g) in
      let back' =
        subst
          (λ n.
            entries_from registered bytes (suc g) obj (length met + 1) (obj (good (p + 1) n sets))
            ≡ done (good (p + 1 + length b + 1) (length met') (sets ++ s)))
          (length-append met (a ∷ [])) back in
      let step =
        table_step registered bytes (suc g) p (length met) sets _ _
          (omega (arith, IsAt-fits bytes p _ at)) (IsAt-get_elem? bytes p _ _ at)
          (table_lem registered bytes (suc g) (p + 1) (length met) _ _ obj sets _ back') in
      let end : p + 1 + length b + 1 ≡ p + length (ser_table_begin ∷ (b ++ ser_table_end ∷ [])) =
        omega (arith, length-append b (ser_table_end ∷ [])) in
      (
        ser_table_begin,
        refl,
        refl,
        omega arith,
        step
            ∙ ap₂ (λ n w. done (good n (length met') (sets ++ s), ser_table_begin, w)) end
                (sym (named-number met' a (length met + 1) e)),
      )

  sets_lem :
      (sets s1 s2 s3 : Sets) (x : ℕ × (Value × Value))
      → (((sets ++ s1) ++ s2) ++ x ∷ []) ++ s3 ≡ sets ++ (s1 ++ (s2 ++ x ∷ s3))
  sets_lem sets s1 s2 s3 x =
      append_assoc ((sets ++ s1) ++ s2) (x ∷ []) s3
      ∙ append_assoc (sets ++ s1) s2 (x ∷ s3)
      ∙ append_assoc sets s1 (s2 ++ x ∷ s3)

  row_lem :
      (f r index p : ℕ) (sets : Sets) (met met1 met2 met3 : List ℕ) (k v : Value)
      (b1 b2 b3 : List ℕ) (s1 s2 s3 : Sets)
      → is_key (named met1 k) ≡ true
      → Gets f p sets met k met1 b1 s1
      → Gets f (p + length b1) (sets ++ s1) met1 v met2 b2 s2
      → EntriesBack f r index
          (p + length b1 + length b2)
          (((sets ++ s1) ++ s2) ++ (index, (named met1 k, named met2 v)) ∷ [])
          met2
          met3
          b3
          s3
      → EntriesBack f
          (suc r)
          index
          p
          sets
          met
          met3
          (b1 ++ (b2 ++ b3))
          (s1 ++ (s2 ++ (index, (named met1 k, named met2 v)) ∷ s3))
  row_lem f r index p sets met met1 met2 met3 k v b1 b2 b3 s1 s2 s3 ik (op, n0, n1, _, key)
        (op', n2, n3, _, value) back =
      let obj = unpack_obj registered always bytes (suc f) in
      let end : p + length b1 + length b2 + length b3 + 1 ≡ p + length (b1 ++ (b2 ++ b3)) + 1 =
        omega (arith, length-append b1 (b2 ++ b3), length-append b2 b3) in
      ap (entries_from registered bytes (suc (suc r)) obj index) key
      ∙ entries_step registered bytes (suc r) index obj op op' _ _ _ _ _ _ _ _ n0 n1 n2 n3 ik value
      ∙ back
      ∙ ap₂ (λ n l. done (good n (length met3) l)) end (sets_lem sets s1 s2 s3 _)

  mutual
    pub obj_back :
        {support : Bool} {heap : Heap} {met met' : List ℕ} {v : Value} {b : List ℕ} {s : Sets}
        → Packs support heap met v met' b s
        → (f p : ℕ) (sets : Sets) → IsAt bytes p b
        → length bytes ≤ f + p
        → length met' < 2 ^ 31
        → Gets f p sets met v met' b s
    obj_back {support = support} {met = met} (leaf v h) f p sets at few small =
        leaf-Gets support f p sets met v h at
    obj_back {met = met} (known a k e) f p sets at few small =
        known-Gets f p sets met a k e at small
    obj_back {met = met} (fresh {met' = met'} a {bytes = b} {sets = s} e there rows) f p sets at few
          small =
        let (g, same) = positive f p (length bytes) few (omega (arith, IsAt-fits bytes p _ at)) in
        let (more, grown) = Rows-more rows in
        let counted : number_of met' a ≡ some (length met + 1) =
          ap (λ l. number_of l a) grown
          ∙ find_ref-more 1 (met ++ a ∷ []) more a _ (find_ref-last 1 met a e)
          ∙ ap some (omega arith) in
        let enough : length bytes ≤ g + (p + 1) = omega arith in
        let back =
          Rows-back rows g g (p + 1) sets (IsAt-back bytes p (ser_table_begin ∷ []) _ at) enough
            enough small in
        subst
          (λ n. Gets n p sets met (table a) met' (ser_table_begin ∷ (b ++ ser_table_end ∷ [])) s)
          (sym same) (fresh-Gets g p a sets met met' b s counted at back)

    Rows-back :
        {support : Bool} {heap : Heap} {index : ℕ} {met met' : List ℕ} {entries : Entries}
        {b : List ℕ} {s : Sets}
        → Rows support heap index met entries met' b s
        → (f rounds p : ℕ) (sets : Sets) → IsAt bytes p (b ++ ser_table_end ∷ [])
        → length bytes ≤ f + p
        → length bytes ≤ rounds + p
        → length met' < 2 ^ 31
        → EntriesBack f rounds index p sets met met' b s
    Rows-back {index = index} {met = met} last f rounds p sets at few enough small =
        last_lem f rounds index p sets met at
    Rows-back {index = index} {met = met}
          (row {met1 = met1} {met2 = met2} {met3 = met3} k v {b1 = b1} {b2 = b2} {b3 = b3} {s1 = s1}
            {s2 = s2} {s3 = s3} ik pk pv rows)
          f rounds p sets at few enough small =
        let (more, grown) = Packs-more pv in
        let (more', grown') = Rows-more rows in
        let small2 : length met2 < 2 ^ 31 =
          omega (arith, ap length grown', length-append met2 more') in
        let small1 : length met1 < 2 ^ 31 =
          omega (arith, ap length grown, length-append met1 more) in
        let at1 : IsAt bytes p (b1 ++ (b2 ++ (b3 ++ ser_table_end ∷ []))) =
          subst (IsAt bytes p)
            (append_assoc b1 (b2 ++ b3) _ ∙ ap (λ l. b1 ++ l) (append_assoc b2 b3 _)) at in
        let at2 = IsAt-back bytes p b1 _ at1 in
        let at3 = IsAt-back bytes (p + length b1) b2 _ at2 in
        let (op, n0, n1, some_byte, key) =
          obj_back pk f p sets (IsAt-front bytes p b1 _ at1) few small1 in
        let value =
          obj_back pv f (p + length b1) (sets ++ s1) (IsAt-front bytes _ b2 _ at2) (omega arith)
            small2 in
        let (r, same) =
          positive rounds p (length bytes) enough
            (omega (arith, IsAt-fits bytes p b1 (IsAt-front bytes p b1 _ at1))) in
        let back =
          Rows-back rows f r (p + length b1 + length b2) _ at3 (omega arith) (omega arith) small in
        subst
          (λ n.
            EntriesBack f n index p sets met met3 (b1 ++ (b2 ++ b3))
              (s1 ++ (s2 ++ (index, (named met1 k, named met2 v)) ∷ s3)))
          (sym same)
          (row_lem f r index p sets met met1 met2 met3 k v b1 b2 b3 s1 s2 s3
            (is_key-named met1 k ik) (op, n0, n1, some_byte, key) value back)
