-- ===== src/Serialize/Pack.antt =====
-- engine/lualib/serialize.c: `pack_obj` against the relation of packing.
use randserver.Base.{
  ℕ, zero, suc, ◌+◌, ◌<◌, ◌≡◌, refl, sym, ap, ◌∙◌, subst, Bool, false, Option, none, some, List, [],
  ◌∷◌, ◌++◌, length, length-append, append_assoc, append-nil, get_elem?, get_elem?-some, inl, inr,
  ltb, lt→ltb, true, ◌⊎◌, arith,
}
use randserver.Base.Bytes.{le_bytes}
use randserver.Serialize.{
  Value, nil, boolean, integer, number, string, table, userdata, light, other, Entries, Heap, Refs,
  find_ref, is_error, Memory, SerializeData, ser_table_begin, ser_table_end, ser_table_ref,
  serialize_pack_op, pack_op_bytes, pack_entries, pack_table, pack_value, pack_obj,
}
use randserver.Serialize.Buffer.{HasMemory, Holds, pack_op_lem}
use randserver.Serialize.Graph.{
  numbered, number_of, named, leaf_bytes, IsLeaf, IsPlain, ArePlain, IsPlainHeap, ArePlain-at, Sets,
  Packs, leaf, known, fresh, Rows, last, row, numbered-snoc, Packs-more,
}
use randserver.Serialize.Unmet.{unmet, unmet-more, unmet-fresh, Packs-few}
use randserver.Serialize.Leaves.{Packer, op-Left, leaf_lem}

-- A plain value is a table of the heap, or packed by itself.
plain_cases :
    (support : Bool) (heap : Heap) (v : Value)
    → IsPlain support heap v
    → ((a : ℕ) × (v ≡ table a) × (a < length heap)) ⊎ IsLeaf support v
plain_cases support heap nil h = inr h
plain_cases support heap (boolean b) h = inr h
plain_cases support heap (integer i) h = inr h
plain_cases support heap (number b) h = inr h
plain_cases support heap (string s) h = inr h
plain_cases support heap (table a) h = inl (a, refl, h)
plain_cases support heap (userdata u) h = inr h
plain_cases support heap (light p) h = inr h
plain_cases support heap other h = inr h

module _ (memory : Memory) (m : HasMemory memory) (support : Bool) (heap : Heap) where
  -- A call with the tables `met` that leaves what the relation says.
  abbrev Goes : ℕ → List ℕ → Value → SerializeData → List ℕ → Type 0
  Goes fuel met v ser xs =
      (met' : List ℕ) × (bytes : List ℕ) × (sets : Sets) × (ser' : SerializeData) × (pack_obj memory
          fuel heap ser (numbered 1 met) v
        ≡ some (ser', numbered 1 met'))
      × Packs support heap met v met' bytes sets
      × Holds support ser' (xs ++ bytes) (length met')

  abbrev IsPacker : ℕ → Type 0
  IsPacker fuel =
      (met : List ℕ) (v : Value) (ser : SerializeData) (xs : List ℕ)
      → Holds support ser xs (length met)
      → unmet (length heap) met < fuel
      → length met + unmet (length heap) met < 2147483648
      → IsPlain support heap v
      → Goes fuel met v ser xs

  entries_lem :
      (fuel index : ℕ)
      → IsPacker fuel
      → (entries : Entries) (met : List ℕ) (ser : SerializeData) (xs : List ℕ)
      → Holds support ser xs (length met)
      → unmet (length heap) met < fuel
      → length met + unmet (length heap) met < 2147483648
      → ArePlain support heap entries
      → (met' : List ℕ) × (bytes : List ℕ) × (sets : Sets) × (ser' : SerializeData) × (pack_entries
            (pack_obj memory fuel heap)
            ser
            (numbered 1 met)
            entries
          ≡ some (ser', numbered 1 met'))
        × Rows support heap index met entries met' bytes sets
        × Holds support ser' (xs ++ bytes) (length met')
  unfolding pack_entries
  entries_lem fuel index packer [] met ser xs hold few bound plain = (
    met,
    [],
    [],
    ser,
    refl,
    last,
    subst (λ l. Holds support ser l (length met)) (sym (append-nil xs)) hold,
  )
  entries_lem fuel index packer ((k, v) ∷ entries) met ser xs hold few bound (ik, pk, pv, ps) =
      let (met1, b1, s1, ser1, e1, k1, h1) = packer met k ser xs hold few bound pk in
      let (more1, same1) = Packs-more k1 in
      let few1 : unmet (length heap) met1 < fuel =
        omega (arith, ap (unmet (length heap)) same1, unmet-more (length heap) met more1) in
      let bound1 : length met1 + unmet (length heap) met1 < 2147483648 =
        omega (arith, Packs-few k1) in
      let (met2, b2, s2, ser2, e2, k2, h2) = packer met1 v ser1 (xs ++ b1) h1 few1 bound1 pv in
      let (more2, same2) = Packs-more k2 in
      let few2 : unmet (length heap) met2 < fuel =
        omega (arith, ap (unmet (length heap)) same2, unmet-more (length heap) met1 more2) in
      let bound2 : length met2 + unmet (length heap) met2 < 2147483648 =
        omega (arith, Packs-few k2) in
      let (met3, b3, s3, ser3, e3, k3, h3) =
        entries_lem fuel index packer entries met2 ser2 (xs ++ b1 ++ b2) h2 few2 bound2 ps in
      (
        met3,
        b1 ++ (b2 ++ b3),
        s1 ++ (s2 ++ (index, (named met1 k, named met2 v)) ∷ s3),
        ser3,
        rw (e1, e2, e3) refl,
        row k v ik k1 k2 k3,
        subst (λ l. Holds support ser3 l (length met3))
            (append_assoc (xs ++ b1) b2 b3 ∙ append_assoc xs b1 (b2 ++ b3)) h3,
      )

  table_step :
      (pack : Packer memory m support heap) (ser ser1 ser2 ser3 : SerializeData)
      (refs refs1 refs2 : Refs) (a count : ℕ) (entries : Entries)
      → find_ref refs a ≡ none
      → get_elem? heap a ≡ some entries
      → ser.table_ref + 1 ≡ count
      → ltb count 2147483648 ≡ true
      → serialize_pack_op memory (record ser { table_ref = count }) ser_table_begin ≡ some ser1
      → refs ++ (a, count) ∷ [] ≡ refs1
      → pack_entries pack ser1 refs1 entries ≡ some (ser2, refs2)
      → serialize_pack_op memory ser2 ser_table_end ≡ some ser3
      → pack_table memory pack heap ser refs a ≡ some (ser3, refs2)
  unfolding pack_table
  table_step pack ser ser1 ser2 ser3 refs refs1 refs2 a count entries e1 e2 e3 room e4 e5 e6 e7 =
      rw (pack_table, e1, e2, e3, room, e4, e5, e6, e7) refl

  ref_step :
      (pack : Packer memory m support heap) (ser ser1 : SerializeData) (refs : Refs) (a k : ℕ)
      → find_ref refs a ≡ some k
      → pack_op_bytes memory ser ser_table_ref (le_bytes 4 k) ≡ some ser1
      → pack_table memory pack heap ser refs a ≡ some (ser1, refs)
  unfolding pack_table
  ref_step pack ser ser1 refs a k e1 e2 = rw (pack_table, e1, e2) refl

  obj_step :
      (fuel : ℕ) (ser : SerializeData) (refs : Refs) (v : Value) (r : Option (SerializeData × Refs))
      → is_error ser.error ≡ false
      → pack_value memory (pack_obj memory fuel heap) heap ser refs v ≡ r
      → pack_obj memory (suc fuel) heap ser refs v ≡ r
  unfolding pack_obj
  obj_step fuel ser refs v r good e = rw good e

  -- One more table is recorded.
  counted :
      (ser : SerializeData) (xs : List ℕ) (t n : ℕ)
      → Holds support ser xs t
      → Holds support (record ser { table_ref = n }) xs n
  counted ser xs t n h = record {
    rest = h.rest;
    cells = h.cells;
    size_now = h.size_now;
    max_now = h.max_now;
    init_length = h.init_length;
    init_max = h.init_max;
    no_error = h.no_error;
    supports = h.supports;
    refs_now = refl;
  }

  fresh_lem :
      (fuel : ℕ) (packer : IsPacker fuel) (plain : IsPlainHeap support heap) (met : List ℕ) (a : ℕ)
      (ser : SerializeData) (xs : List ℕ)
      → Holds support ser xs (length met)
      → unmet (length heap) met < suc fuel
      → length met + unmet (length heap) met < 2147483648
      → a < length heap
      → number_of met a ≡ none
      → Goes (suc fuel) met (table a) ser xs
  unfolding pack_value
  fresh_lem fuel packer plain met a ser xs hold few bound lt e =
      let (entries, there) = get_elem?-some heap a lt in
      let count = length met + 1 in
      let small : ltb count 2147483648 ≡ true =
        lt→ltb _ _ (omega (arith, unmet-fresh (length heap) met a lt e)) in
      let len : length (met ++ a ∷ []) ≡ count = length-append met (a ∷ []) in
      let same : numbered 1 met ++ (a, count) ∷ [] ≡ numbered 1 (met ++ a ∷ []) =
        ap (λ n. numbered 1 met ++ (a, n) ∷ []) (omega arith) ∙ sym (numbered-snoc 1 met a) in
      let (ser1, e1, h1) =
        op-Left memory m support heap (record ser { table_ref = count }) xs count ser_table_begin
          (counted ser xs (length met) count hold) in
      let (met', b, s, ser2, e2, rows, h2) =
        entries_lem fuel count packer entries (met ++ a ∷ []) ser1 (xs ++ ser_table_begin ∷ [])
          (subst (Holds support ser1 (xs ++ ser_table_begin ∷ [])) (sym len) h1)
          (omega (arith, unmet-fresh (length heap) met a lt e))
          (omega (arith, unmet-fresh (length heap) met a lt e))
          (ArePlain-at support heap heap a entries plain there) in
      let (ser3, e3, h3) =
        op-Left memory m support heap ser2 (xs ++ ser_table_begin ∷ [] ++ b) (length met')
          ser_table_end h2 in
      (
        met',
        ser_table_begin ∷ (b ++ ser_table_end ∷ []),
        s,
        ser3,
        obj_step fuel ser (numbered 1 met) (table a) _ hold.no_error (
            table_step (pack_obj memory fuel heap) ser ser1 ser2 ser3 (numbered 1 met)
              (numbered 1 (met ++ a ∷ [])) (numbered 1 met') a count entries e there
              (ap (λ n. n + 1) hold.refs_now) small e1 same e2 e3),
        fresh a e there rows,
        subst (λ l. Holds support ser3 l (length met'))
            (append_assoc (xs ++ ser_table_begin ∷ []) b (ser_table_end ∷ [])
              ∙ append_assoc xs (ser_table_begin ∷ []) (b ++ ser_table_end ∷ []))
            h3,
      )

  table_lem :
      (fuel : ℕ) (packer : IsPacker fuel) (plain : IsPlainHeap support heap) (met : List ℕ) (a : ℕ)
      (ser : SerializeData) (xs : List ℕ)
      → Holds support ser xs (length met)
      → unmet (length heap) met < suc fuel
      → length met + unmet (length heap) met < 2147483648
      → a < length heap
      → (o : Option ℕ) → number_of met a ≡ o
      → Goes (suc fuel) met (table a) ser xs
  unfolding pack_value
  table_lem fuel packer plain met a ser xs hold few bound lt none e =
      fresh_lem fuel packer plain met a ser xs hold few bound lt e
  table_lem fuel packer plain met a ser xs hold few bound lt (some k) e =
      let (ser1, e1, h1) =
        pack_op_lem memory m support ser xs (le_bytes 4 k) ser_table_ref (length met) hold in
      (
        met,
        ser_table_ref ∷ le_bytes 4 k,
        [],
        ser1,
        obj_step fuel ser (numbered 1 met) (table a) _ hold.no_error
            (ref_step (pack_obj memory fuel heap) ser ser1 (numbered 1 met) a k e e1),
        known a k e,
        h1,
      )

  pub pack_obj_lem : IsPlainHeap support heap → (fuel : ℕ) → IsPacker fuel
  pack_obj_lem plain zero met v ser xs hold few bound p = absurd (omega arith)
  pack_obj_lem plain (suc fuel) met v ser xs hold few bound p =
      elim (plain_cases support heap v p) [
        | inl (a, is, lt) ↦
            subst (λ w. Goes (suc fuel) met w ser xs) (sym is)
              (table_lem fuel (pack_obj_lem plain fuel) plain met a ser xs hold few bound lt
                (number_of met a) refl)
        | inr single ↦
            let (ser', e, hold') =
              leaf_lem memory m support heap (pack_obj memory fuel heap) ser (numbered 1 met) xs
                (length met) v single hold in
            (
              met,
              leaf_bytes v,
              [],
              ser',
              obj_step fuel ser (numbered 1 met) v _ hold.no_error e,
              leaf v single,
              hold',
            )
      ]
