-- ===== src/Deserialize/Steps.antt =====
-- engine/lualib/serialize.c: the steps of unpacking where a table begins, goes on, is named or ends.
use randserver.Base.{
  ℕ, zero, suc, ◌+◌, ◌^◌, ◌≤◌, ◌<◌, ◌≡◌, refl, sym, ap, ◌∙◌, Bool, true, false, some, List, [], ◌∷◌,
  ◌++◌, length, get_elem?, ltb, leb, le→ltb, ◌==◌, ◌||◌, ◌&&◌, arith,
}
use randserver.Base.Bytes.{read_at, le_bytes, length-le_bytes, from_le-le_bytes}
use randserver.Base.Parts.{IsAt, IsAt-read_at, IsAt-fits}
use randserver.Serialize.Values.{
  Value, nil, table, err_unpack_table_no_value_buff, ser_none, ser_table_begin, ser_table_end,
  ser_table_ref, is_key,
}
use randserver.Serialize.Graph.{Sets}
use randserver.Deserialize.{
  Outcome, done, fault, raised, full, spent, always, Unpacked, Pushed, unpack_table_ref,
  unpack_leaf, unpack_entries, unpack_table, unpack_obj, ◌>>=◌,
}
use randserver.Deserialize.Leaves.{good}

pub bind-done :
    {A B C : Type 0} (f : A → Outcome B) (g : B → Outcome C) (y : B) (r : Outcome A)
    → (r >>= f) ≡ done y
    → (r >>= λ x. f x >>= g) ≡ g y
bind-done f g y (done x) e = ap (λ q. q >>= g) e
bind-done f g y fault e = ap (λ q. q >>= g) e
bind-done f g y raised e = ap (λ q. q >>= g) e
bind-done f g y full e = ap (λ q. q >>= g) e
bind-done f g y spent e = ap (λ q. q >>= g) e

pub positive : (n p l : ℕ) → l ≤ n + p → p < l → (m : ℕ) × (n ≡ suc m)
positive zero p l h lt = absurd (omega arith)
positive (suc m) p l h lt = (m, refl)

module _ (registered : List ℕ → Bool) (bytes : List ℕ) where
  -- The rest of the loop of a table behind a key.
  abbrev pub entries_from : ℕ → (Unpacked → Pushed) → ℕ → Pushed → Outcome Unpacked
  entries_from rounds obj index result = result >>= λ (u, key_type, key).
      unpack_entries registered always bytes rounds obj index u key_type key

  pub leaf_step :
      (f p t op : ℕ) (sets : Sets) (u : Unpacked) (v : Value)
      → p < length bytes
      → get_elem? bytes p ≡ some op
      → (op == ser_table_begin) ≡ false
      → unpack_leaf registered always bytes op (good (p + 1) t sets) ≡ done (u, v)
      → unpack_obj registered always bytes (suc f) (good p t sets) ≡ done (u, op, v)
  unfolding unpack_obj
  leaf_step f p t op sets u v lt there e back =
      let inside : leb (length bytes) p ≡ false = ground arith in
      rw (unpack_obj, inside, there, e, back) refl

  pub table_step :
      (f p t : ℕ) (sets : Sets) (u : Unpacked) (v : Value)
      → p < length bytes
      → get_elem? bytes p ≡ some ser_table_begin
      → unpack_table registered always bytes f
          (unpack_obj registered always bytes f)
          (good (p + 1) t sets)
        ≡ done (u, v)
      → unpack_obj registered always bytes (suc f) (good p t sets) ≡ done (u, ser_table_begin, v)
  unfolding unpack_obj
  table_step f p t sets u v lt there e =
      let inside : leb (length bytes) p ≡ false = ground arith in
      rw (unpack_obj, inside, there)
        (ap (λ r. r >>= λ (u', value). done (u', ser_table_begin, value)) e)

  ref_lem :
      (p t k : ℕ) (sets : Sets)
      → IsAt bytes p (le_bytes 4 k)
      → k < 2 ^ 31
      → 0 < k
      → k ≤ t
      → unpack_table_ref registered always bytes (good p t sets)
        ≡ done (good (p + 4) t sets, table k)
  unfolding unpack_table_ref
  ref_lem p t k sets at small low high =
      let len = length-le_bytes 4 k in
      let enough : ltb (length bytes) (p + 4) ≡ false =
        le→ltb _ _ (omega (arith, IsAt-fits bytes p (le_bytes 4 k) at)) in
      let got : read_at p 4 bytes ≡ some (le_bytes 4 k) =
        ap (λ n. read_at p n bytes) (sym len) ∙ IsAt-read_at bytes p (le_bytes 4 k) at in
      let some_table : (ltb k 2147483648 && (ltb 0 k && leb k t)) ≡ true = ground arith in
      rw (enough, got, from_le-le_bytes 4 k (omega arith), some_table) refl

  pub ref_leaf :
      (p t k : ℕ) (sets : Sets)
      → IsAt bytes p (le_bytes 4 k)
      → k < 2 ^ 31
      → 0 < k
      → k ≤ t
      → unpack_leaf registered always bytes ser_table_ref (good p t sets)
        ≡ done (good (p + 4) t sets, table k)
  unfolding unpack_leaf
  ref_leaf p t k sets at small low high = ref_lem p t k sets at small low high

  pub end_leaf :
      (u : Unpacked) → unpack_leaf registered always bytes ser_table_end u ≡ done (u, nil)
  unfolding unpack_leaf
  end_leaf u = refl

  pub entries_end :
      (rounds index p t : ℕ) (obj : Unpacked → Pushed) (sets : Sets)
      → unpack_entries registered always bytes
          (suc rounds)
          obj
          index
          (good p t sets)
          ser_table_end
          nil
        ≡ done (good p t sets)
  unfolding unpack_entries
  entries_end rounds index p t obj sets = refl

  pub entries_step :
      (rounds index : ℕ) (obj : Unpacked → Pushed) (op op' p0 p t0 t : ℕ) (sets0 sets : Sets)
      (k v : Value)
      → (op == ser_none) ≡ false
      → (op == ser_table_end) ≡ false
      → (op' == ser_none) ≡ false
      → (op' == ser_table_end) ≡ false
      → is_key k ≡ true
      → obj (good p0 t0 sets0) ≡ done (good p t sets, op', v)
      → unpack_entries registered always bytes (suc rounds) obj index (good p0 t0 sets0) op k
        ≡ entries_from rounds obj index (obj (good p t (sets ++ (index, (k, v)) ∷ [])))
  unfolding unpack_entries
  entries_step rounds index obj op op' p0 p t0 t sets0 sets k v n0 n1 n2 n3 ik e =
      let neither : ((op' == ser_none) || (op' == ser_table_end)) ≡ false = ground arith in
      let wrong : Outcome Unpacked =
        done (record (good p t sets) { error = err_unpack_table_no_value_buff }) in
      let next = entries_from rounds obj index (obj (good p t (sets ++ (index, (k, v)) ∷ []))) in
      let keyed : Outcome Unpacked = elim (is_key k) as (λ x. Outcome Unpacked) [
        | false ↦ raised
        | true ↦ next
      ] in
      rw (unpack_entries, n1, n0, e)
        (ap (λ c. elim c as (λ x. Outcome Unpacked) [ true ↦ wrong | false ↦ keyed ]) neither
          ∙ ap (λ c. elim c as (λ x. Outcome Unpacked) [ false ↦ raised | true ↦ next ]) ik)

  pub table_lem :
      (rounds p t p' t' : ℕ) (obj : Unpacked → Pushed) (sets sets' : Sets)
      → entries_from rounds obj (t + 1) (obj (good p (t + 1) sets)) ≡ done (good p' t' sets')
      → unpack_table registered always bytes rounds obj (good p t sets)
        ≡ done (good p' t' sets', table (t + 1))
  unfolding unpack_table
  table_lem rounds p t p' t' obj sets sets' e = bind-done _ _ _ (obj (good p (t + 1) sets)) e
