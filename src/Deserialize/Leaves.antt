-- ===== src/Deserialize/Leaves.antt =====
-- engine/lualib/serialize.c: the unpacking of values other than tables.
use randserver.Base.{
  ℕ, suc, ◌+◌, ◌-◌, ◌*◌, ◌^◌, ◌%◌, ◌<◌, ◌≡◌, refl, sym, ap, ◌∙◌, subst, Bool, true, false, some,
  List, [], ◌∷◌, ◌++◌, length, length-append, ltb, le→ltb, lt→ltb, ltb→lt, ◌==◌, Bool-cases, inl,
  inr, arith,
}
use native.Mathlib.Nat.{mod-eq_of_lt}
use randserver.Base.Int.{ℤ, pos, negsuc, ltb_ℤ, leb_ℤ}
use randserver.Base.Bytes.{read_at, le_bytes, from_le, length-le_bytes, from_le-le_bytes}
use randserver.Base.Parts.{IsAt, IsAt-read_at, IsAt-fits, IsAt-front, IsAt-back}
use randserver.Serialize.Values.{
  Value, nil, boolean, integer, number, string, table, userdata, light, other, Error, err_none,
  ser_none, ser_nil, ser_int8, ser_int16, ser_int32, ser_int64, ser_double, ser_string8,
  ser_string16, ser_bool_false, ser_bool_true, ser_table_begin, ser_table_end, ser_lightuser_data,
}
use randserver.Serialize.{low_bits, abs_value}
use randserver.Serialize.Graph.{leaf_bytes, IsLeaf, IsPlainInteger, Sets}
use randserver.Deserialize.{
  done, Unpacked, always, signed, unpack_fixed, unpack_string, unpack_leaf,
}

-- A state without an error.
abbrev pub good : ℕ → ℕ → Sets → Unpacked
good p t sets = record { at = p; error = err_none; tables = t; sets = sets }

-- A signed value that fits into twice `half` values.
abbrev IsWithin : ℕ → ℤ → Type 0
IsWithin half (pos n) = n < half
IsWithin half (negsuc n) = n < half

abs-IsWithin :
    (k : ℕ) (i : ℤ) → IsPlainInteger i → ltb_ℤ (abs_value i) (pos k) ≡ true → IsWithin k i
abs-IsWithin k (pos n) h e = ground arith
abs-IsWithin k (negsuc n) h e =
    let plain : ltb (suc n) (2 ^ 63) ≡ true = lt→ltb _ _ h in
    let less : ltb_ℤ (pos (suc n)) (pos k) ≡ true = rw plain at e in ground arith

low_bits_small : (w half : ℕ) (i : ℤ) → 2 ^ w ≡ 2 * half → IsWithin half i → low_bits w i < 2 ^ w
low_bits_small w half (pos n) e h = omega (arith, mod-eq_of_lt {n = n} {m = 2 ^ w} (omega arith))
low_bits_small w half (negsuc n) e h = omega arith

signed-low_bits :
    (w half : ℕ) (i : ℤ)
    → 2 ^ w ≡ 2 * half
    → 2 ^ (w - 1) ≡ half
    → IsWithin half i
    → signed w (low_bits w i) ≡ i
signed-low_bits w half (pos n) e e' h =
    let same : n % 2 ^ w ≡ n = mod-eq_of_lt {n = n} {m = 2 ^ w} (omega arith) in
    let less : ltb n (2 ^ (w - 1)) ≡ true = lt→ltb _ _ (omega arith) in rw (same, less) refl
signed-low_bits w half (negsuc n) e e' h =
    let same : n % 2 ^ w ≡ n = mod-eq_of_lt {n = n} {m = 2 ^ w} (omega arith) in
    let more : ltb (2 ^ w - 1 - n) (2 ^ (w - 1)) ≡ false = le→ltb _ _ (omega arith) in
    let back : 2 ^ w - 1 - (2 ^ w - 1 - n) ≡ n = omega arith in rw (same, more, back) refl

module _ (registered : List ℕ → Bool) (bytes : List ℕ) where
  pub unpack_fixed_lem :
      (n : ℕ) (err : Error) (value : ℕ → Value) (p t : ℕ) (sets : Sets) (b : List ℕ)
      → IsAt bytes p b
      → length b ≡ n
      → unpack_fixed registered always bytes n err value (good p t sets)
        ≡ done (good (p + n) t sets, value (from_le b))
  unfolding unpack_fixed
  unpack_fixed_lem n err value p t sets b h len =
      let enough : ltb (length bytes) (p + n) ≡ false =
        le→ltb _ _ (omega (arith, IsAt-fits bytes p b h)) in
      let got : read_at p n bytes ≡ some b =
        ap (λ k. read_at p k bytes) (sym len) ∙ IsAt-read_at bytes p b h in
      rw (enough, got) refl

  value_lem :
      (n : ℕ) (err : Error) (value : ℕ → Value) (p t : ℕ) (sets : Sets) (x : ℕ)
      → IsAt bytes p (le_bytes n x)
      → x < 256 ^ n
      → unpack_fixed registered always bytes n err value (good p t sets)
        ≡ done (good (p + n) t sets, value x)
  value_lem n err value p t sets x h small =
      unpack_fixed_lem n err value p t sets (le_bytes n x) h (length-le_bytes n x)
      ∙ ap (λ y. done (good (p + n) t sets, value y)) (from_le-le_bytes n x small)

  text_lem :
      (n : ℕ) (no_size no_data : Error) (p t : ℕ) (sets : Sets) (s : List ℕ)
      → IsAt bytes p (le_bytes n (length s) ++ s)
      → length s < 256 ^ n
      → unpack_string registered always bytes n no_size no_data (good p t sets)
        ≡ done (good (p + n + length s) t sets, string s)
  unfolding unpack_string
  text_lem n no_size no_data p t sets s h small =
      let head = le_bytes n (length s) in
      let len = length-le_bytes n (length s) in
      let first = IsAt-front bytes p head s h in
      let text : IsAt bytes (p + n) s =
        subst (λ k. IsAt bytes (p + k) s) len (IsAt-back bytes p head s h) in
      let enough : ltb (length bytes) (p + n) ≡ false =
        le→ltb _ _ (omega (arith, IsAt-fits bytes p head first)) in
      let more : ltb (length bytes) (p + n + length s) ≡ false =
        le→ltb _ _ (omega (arith, IsAt-fits bytes (p + n) s text)) in
      let got : read_at p n bytes ≡ some head =
        ap (λ k. read_at p k bytes) (sym len) ∙ IsAt-read_at bytes p head first in
      let got' : read_at (p + n) (length s) bytes ≡ some s = IsAt-read_at bytes (p + n) s text in
      rw (enough, got, from_le-le_bytes n (length s) small, more, got') refl

  integer_lem :
      (n w half : ℕ) (err : Error) (p t : ℕ) (sets : Sets) (i : ℤ)
      → 256 ^ n ≡ 2 ^ w
      → 2 ^ w ≡ 2 * half
      → 2 ^ (w - 1) ≡ half
      → IsWithin half i
      → IsAt bytes p (le_bytes n (low_bits w i))
      → unpack_fixed registered always bytes n err (λ u. integer (signed w u)) (good p t sets)
        ≡ done (good (p + n) t sets, integer i)
  integer_lem n w half err p t sets i e1 e2 e3 h at =
      value_lem n err (λ u. integer (signed w u)) p t sets (low_bits w i) at
        (omega (arith, low_bits_small w half i e2 h))
      ∙ ap (λ j. done (good (p + n) t sets, integer j)) (signed-low_bits w half i e2 e3 h)

  -- What `unpack_leaf` does behind the first byte of `b`.
  abbrev pub Back : ℕ → ℕ → Sets → List ℕ → Value → Type 0
  Back p t sets b v =
      (op : ℕ) × (rest : List ℕ) × (b ≡ op ∷ rest)
      × ((op == ser_none) ≡ false)
      × ((op == ser_table_end) ≡ false)
      × ((op == ser_table_begin) ≡ false)
      × (unpack_leaf registered always bytes op (good (p + 1) t sets)
          ≡ done (good (p + length b) t sets, v))

  behind : (p op : ℕ) (rest : List ℕ) → IsAt bytes p (op ∷ rest) → IsAt bytes (p + 1) rest
  behind p op rest h = IsAt-back bytes p (op ∷ []) rest h

  Back-of :
      (p t : ℕ) (sets : Sets) (b : List ℕ) (v : Value) (op n : ℕ) (rest : List ℕ)
      → b ≡ op ∷ rest
      → length rest ≡ n
      → (op == ser_none) ≡ false
      → (op == ser_table_end) ≡ false
      → (op == ser_table_begin) ≡ false
      → (IsAt bytes (p + 1) rest
          → unpack_leaf registered always bytes op (good (p + 1) t sets)
            ≡ done (good (p + 1 + n) t sets, v))
      → IsAt bytes p b
      → Back p t sets b v
  Back-of p t sets b v op n rest e len e0 e1 e2 leaf at =
      let end : p + 1 + n ≡ p + length b = omega (arith, ap length e) in
      (
        op,
        rest,
        e,
        e0,
        e1,
        e2,
        leaf (behind p op rest (rw e at at)) ∙ ap (λ k. done (good k t sets, v)) end,
      )

  integer-Back :
      (p t : ℕ) (sets : Sets) (i : ℤ)
      → IsPlainInteger i
      → IsAt bytes p (leaf_bytes (integer i))
      → Back p t sets (leaf_bytes (integer i)) (integer i)
  unfolding unpack_leaf
  integer-Back p t sets i h at = elim (Bool-cases (ltb_ℤ (abs_value i) (pos 128))) [
    | inl e ↦
        Back-of p t sets _ (integer i) ser_int8 1 (le_bytes 1 (low_bits 8 i)) (rw e refl)
          (length-le_bytes 1 _) refl refl refl
          (integer_lem 1 8 128 _ (p + 1) t sets i refl refl refl (abs-IsWithin 128 i h e)) at
    | inr e ↦ elim (Bool-cases (ltb_ℤ (abs_value i) (pos 32768))) [
      | inl e' ↦
          Back-of p t sets _ (integer i) ser_int16 2 (le_bytes 2 (low_bits 16 i)) (rw (e, e') refl)
            (length-le_bytes 2 _) refl refl refl
            (integer_lem 2 16 32768 _ (p + 1) t sets i refl refl refl (abs-IsWithin 32768 i h e'))
            at
      | inr e' ↦ elim (Bool-cases (leb_ℤ (abs_value i) (pos 2147483647))) [
        | inl e'' ↦
            Back-of p t sets _ (integer i) ser_int32 4 (le_bytes 4 (low_bits 32 i))
              (rw (e, e', e'') refl) (length-le_bytes 4 _) refl refl refl
              (integer_lem 4 32 2147483648 _ (p + 1) t sets i refl refl refl
                (abs-IsWithin 2147483648 i h (most i e'')))
              at
        | inr e'' ↦
            Back-of p t sets _ (integer i) ser_int64 8 (le_bytes 8 (low_bits 64 i))
              (rw (e, e', e'') refl) (length-le_bytes 8 _) refl refl refl
              (integer_lem 8 64 (2 ^ 63) _ (p + 1) t sets i refl refl refl (all i h)) at
      ]
    ]
  ]
    where
      most :
          (i : ℤ)
          → leb_ℤ (abs_value i) (pos 2147483647) ≡ true
          → ltb_ℤ (abs_value i) (pos 2147483648) ≡ true
      most i e = ground arith

      all : (i : ℤ) → IsPlainInteger i → IsWithin (2 ^ 63) i
      all (pos n) h = h
      all (negsuc n) h = omega arith

  string-Back :
      (p t : ℕ) (sets : Sets) (s : List ℕ)
      → length s < 2 ^ 15
      → IsAt bytes p (leaf_bytes (string s))
      → Back p t sets (leaf_bytes (string s)) (string s)
  unfolding unpack_leaf
  string-Back p t sets s h at = elim (Bool-cases (ltb (length s) (2 ^ 7))) [
    | inl e ↦
        Back-of p t sets _ (string s) ser_string8 (1 + length s) (le_bytes 1 (length s) ++ s)
          (rw e refl) (sized 1) refl refl refl
          (λ at'.
            text_lem 1 _ _ (p + 1) t sets s at' (omega (arith, ltb→lt _ _ e))
            ∙ ap (λ k. done (good k t sets, string s)) (omega arith))
          at
    | inr e ↦
        Back-of p t sets _ (string s) ser_string16 (2 + length s) (le_bytes 2 (length s) ++ s)
          (rw e refl) (sized 2) refl refl refl
          (λ at'.
            text_lem 2 _ _ (p + 1) t sets s at' (omega arith)
            ∙ ap (λ k. done (good k t sets, string s)) (omega arith))
          at
  ]
    where
      sized : (n : ℕ) → length (le_bytes n (length s) ++ s) ≡ n + length s
      sized n = omega (arith, length-append (le_bytes n (length s)) s, length-le_bytes n (length s))

  pub leaf-Back :
      (support : Bool) (p t : ℕ) (sets : Sets) (v : Value)
      → IsLeaf support v
      → IsAt bytes p (leaf_bytes v)
      → Back p t sets (leaf_bytes v) v
  unfolding unpack_leaf
  leaf-Back support p t sets nil h at =
      Back-of p t sets _ nil ser_nil 0 [] refl refl refl refl refl
        (λ at'. ap (λ k. done (good k t sets, nil)) (omega arith)) at
  leaf-Back support p t sets (boolean true) h at =
      Back-of p t sets _ (boolean true) ser_bool_true 0 [] refl refl refl refl refl
        (λ at'. ap (λ k. done (good k t sets, boolean true)) (omega arith)) at
  leaf-Back support p t sets (boolean false) h at =
      Back-of p t sets _ (boolean false) ser_bool_false 0 [] refl refl refl refl refl
        (λ at'. ap (λ k. done (good k t sets, boolean false)) (omega arith)) at
  leaf-Back support p t sets (integer i) h at = integer-Back p t sets i h at
  leaf-Back support p t sets (number b) h at =
      Back-of p t sets _ (number b) ser_double 8 (le_bytes 8 b) refl (length-le_bytes 8 b) refl refl
        refl (λ at'. value_lem 8 _ number (p + 1) t sets b at' h) at
  leaf-Back support p t sets (string s) h at = string-Back p t sets s h at
  leaf-Back support p t sets (light x) (on, small) at =
      Back-of p t sets _ (light x) ser_lightuser_data 8 (le_bytes 8 x) refl (length-le_bytes 8 x)
        refl refl refl (λ at'. value_lem 8 _ light (p + 1) t sets x at' small) at
  leaf-Back support p t sets (table a) h at = absurd h
  leaf-Back support p t sets (userdata u) h at = absurd h
  leaf-Back support p t sets other h at = absurd h
