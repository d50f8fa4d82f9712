-- ===== src/Serialize/Graph.antt =====
-- What packing means: the bytes of a value in a heap, with the tables numbered in the order in which they
-- are met, and the entries that unpacking has to set.
use randserver.Base.{
  ℕ, zero, suc, ◌+◌, ◌^◌, ◌≤◌, ◌<◌, ◌≡◌, refl, sym, ap, ◌∙◌, subst, Bool, true, Option, none, some,
  some_inj, List, [], ◌∷◌, ◌++◌, length, append_assoc, append-nil, get_elem?, ltb, ◌==◌, eq→==,
  Bool-cases, inl, inr, if◌then◌else◌, arith,
}
use mathlib.Core.Option.{none-ne-some}
use randserver.Base.Int.{ℤ, pos, negsuc, ltb_ℤ, leb_ℤ}
use randserver.Base.Bytes.{le_bytes}
use randserver.Serialize.{
  Value, nil, boolean, integer, number, string, table, userdata, light, other, Entries, Heap, Refs,
  find_ref, low_bits, abs_value, ser_nil, ser_int8, ser_int16, ser_int32, ser_int64, ser_double,
  ser_string8, ser_string16, ser_bool_false, ser_bool_true, ser_table_begin, ser_table_end,
  ser_table_ref, ser_lightuser_data, is_key,
}

-- The record of the tables met so far, by their addresses.
unfoldable pub numbered : ℕ → List ℕ → Refs
numbered k [] = []
numbered k (a ∷ met) = (a, k) ∷ numbered (suc k) met

-- The number of a table.
abbrev pub number_of : List ℕ → ℕ → Option ℕ
number_of met a = find_ref (numbered 1 met) a

-- A value with the numbers of the tables for their addresses.
abbrev pub named : List ℕ → Value → Value
named met (table a) = elim (number_of met a) [ none ↦ table 0 | some k ↦ table k ]
named met nil = nil
named met (boolean b) = boolean b
named met (integer i) = integer i
named met (number b) = number b
named met (string s) = string s
named met (userdata u) = userdata u
named met (light p) = light p
named met other = other

abbrev pub integer_bytes : ℤ → List ℕ
integer_bytes i =
    if ltb_ℤ (abs_value i) (pos 128)
    then ser_int8 ∷ le_bytes 1 (low_bits 8 i)
    else if ltb_ℤ (abs_value i) (pos 32768)
    then ser_int16 ∷ le_bytes 2 (low_bits 16 i)
    else if leb_ℤ (abs_value i) (pos 2147483647)
    then ser_int32 ∷ le_bytes 4 (low_bits 32 i)
    else ser_int64 ∷ le_bytes 8 (low_bits 64 i)

abbrev pub string_bytes : List ℕ → List ℕ
string_bytes s =
    if ltb (length s) (2 ^ 7)
    then ser_string8 ∷ (le_bytes 1 (length s) ++ s)
    else ser_string16 ∷ (le_bytes 2 (length s) ++ s)

-- The bytes of a value that is not a table.
abbrev pub leaf_bytes : Value → List ℕ
leaf_bytes (boolean b) = (if b then ser_bool_true else ser_bool_false) ∷ []
leaf_bytes (integer i) = integer_bytes i
leaf_bytes (number b) = ser_double ∷ le_bytes 8 b
leaf_bytes (string s) = string_bytes s
leaf_bytes (light p) = ser_lightuser_data ∷ le_bytes 8 p
leaf_bytes _ = ser_nil ∷ []

-- A `lua_Integer`, but not the least.
abbrev pub IsPlainInteger : ℤ → Type 0
IsPlainInteger (pos n) = n < 2 ^ 63
IsPlainInteger (negsuc n) = suc n < 2 ^ 63

-- The values other than tables that come back as they are: integers but the least, numbers, strings
-- shorter than 2 ^ 15, and light userdata where it is supported.
abbrev pub IsLeaf : Bool → Value → Type 0
IsLeaf support nil = Unit
IsLeaf support (boolean b) = Unit
IsLeaf support (integer i) = IsPlainInteger i
IsLeaf support (number b) = b < 2 ^ 64
IsLeaf support (string s) = length s < 2 ^ 15
IsLeaf support (light p) = (support ≡ true) × (p < 2 ^ 64)
IsLeaf support _ = ⊥

-- The same with tables of the heap.
abbrev pub IsPlain : Bool → Heap → Value → Type 0
IsPlain support heap (table a) = a < length heap
IsPlain support heap v = IsLeaf support v

abbrev pub ArePlain : Bool → Heap → Entries → Type 0
ArePlain support heap [] = Unit
ArePlain support heap ((k, v) ∷ entries) =
    (is_key k ≡ true)
    × IsPlain support heap k
    × IsPlain support heap v
    × ArePlain support heap entries

-- All entries of the tables are plain, and their keys can be keys.
abbrev pub TablesPlain : Bool → Heap → List Entries → Type 0
TablesPlain support heap [] = Unit
TablesPlain support heap (entries ∷ tables) =
    ArePlain support heap entries × TablesPlain support heap tables

abbrev pub IsPlainHeap : Bool → Heap → Type 0
IsPlainHeap support heap = TablesPlain support heap heap

pub ArePlain-at :
    (support : Bool) (heap : Heap) (tables : List Entries) (a : ℕ) (entries : Entries)
    → TablesPlain support heap tables
    → get_elem? tables a ≡ some entries
    → ArePlain support heap entries
ArePlain-at support heap [] a entries h e = absurd (none-ne-some entries e)
ArePlain-at support heap (x ∷ tables) zero entries (h, hs) e =
    subst (ArePlain support heap) (some_inj e) h
ArePlain-at support heap (x ∷ tables) (suc a) entries (h, hs) e =
    ArePlain-at support heap tables a entries hs e

pub named-IsLeaf : (support : Bool) (met : List ℕ) (v : Value) → IsLeaf support v → named met v ≡ v
named-IsLeaf support met nil h = refl
named-IsLeaf support met (boolean b) h = refl
named-IsLeaf support met (integer i) h = refl
named-IsLeaf support met (number b) h = refl
named-IsLeaf support met (string s) h = refl
named-IsLeaf support met (light p) h = refl
named-IsLeaf support met (table a) h = absurd h
named-IsLeaf support met (userdata u) h = absurd h
named-IsLeaf support met other h = absurd h

pub named-number :
    (met : List ℕ) (a k : ℕ) → number_of met a ≡ some k → named met (table a) ≡ table k
named-number met a k e = rw (named, e) refl

is_key-table : (o : Option ℕ) → is_key (elim o [ none ↦ table 0 | some k ↦ table k ]) ≡ true
is_key-table none = refl
is_key-table (some k) = refl

-- The number of a table is a key like its address.
pub is_key-named : (met : List ℕ) (v : Value) → is_key v ≡ true → is_key (named met v) ≡ true
is_key-named met nil h = h
is_key-named met (boolean b) h = refl
is_key-named met (integer i) h = refl
is_key-named met (number b) h = h
is_key-named met (string s) h = refl
is_key-named met (table a) h = is_key-table (number_of met a)
is_key-named met (userdata u) h = refl
is_key-named met (light p) h = refl
is_key-named met other h = refl

abbrev pub Sets : Type 0
Sets = List (ℕ × (Value × Value))

-- `Packs support heap met v met' bytes sets`: with the tables `met`, packing `v` writes `bytes`, and has met
-- `met'`; unpacking the bytes makes `sets`. `Rows` is the same of the entries of the table `index`.
mutual
  pub data Packs (support : Bool) (heap : Heap)
      : List ℕ → Value → List ℕ → List ℕ → Sets → Type 0 where
    leaf :
        {met : List ℕ} (v : Value)
        → IsLeaf support v
        → Packs support heap met v met (leaf_bytes v) []
    known :
        {met : List ℕ} (a k : ℕ)
        → number_of met a ≡ some k
        → Packs support heap met (table a) met (ser_table_ref ∷ le_bytes 4 k) []
    fresh :
        {met met' : List ℕ} (a : ℕ) {entries : Entries} {bytes : List ℕ} {sets : Sets}
        → number_of met a ≡ none
        → get_elem? heap a ≡ some entries
        → Rows support heap (length met + 1) (met ++ a ∷ []) entries met' bytes sets
        → Packs support heap met
            (table a)
            met'
            (ser_table_begin ∷ (bytes ++ ser_table_end ∷ []))
            sets

  pub data Rows (support : Bool) (heap : Heap)
      : ℕ → List ℕ → Entries → List ℕ → List ℕ → Sets → Type 0 where
    last : {index : ℕ} {met : List ℕ} → Rows support heap index met [] met [] []
    row :
        {index : ℕ} {met met1 met2 met3 : List ℕ} (k v : Value) {entries : Entries}
        {b1 b2 b3 : List ℕ} {s1 s2 s3 : Sets}
        → is_key k ≡ true
        → Packs support heap met k met1 b1 s1
        → Packs support heap met1 v met2 b2 s2
        → Rows support heap index met2 entries met3 b3 s3
        → Rows support heap index met
            ((k, v) ∷ entries)
            met3
            (b1 ++ (b2 ++ b3))
            (s1 ++ (s2 ++ (index, (named met1 k, named met2 v)) ∷ s3))

-- The record grows at its end.
pub numbered-snoc :
    (k : ℕ) (met : List ℕ) (a : ℕ)
    → numbered k (met ++ a ∷ []) ≡ numbered k met ++ (a, k + length met) ∷ []
unfolding numbered
numbered-snoc k [] a = ap (λ n. (a, n) ∷ []) (omega arith)
numbered-snoc k (b ∷ met) a =
    let same : suc k + length met ≡ k + suc (length met) = omega arith in
    ap (λ l. (b, k) ∷ l)
      (numbered-snoc (suc k) met a ∙ ap (λ n. numbered (suc k) met ++ (a, n) ∷ []) same)

-- A number lies in the range of the record.
pub find_ref-range :
    (k : ℕ) (met : List ℕ) (a i : ℕ)
    → find_ref (numbered k met) a ≡ some i
    → (k ≤ i) × (i < k + length met)
unfolding numbered find_ref
find_ref-range k [] a i e = absurd (none-ne-some i e)
find_ref-range k (b ∷ met) a i e = elim (Bool-cases (b == a)) [
  | inl same ↦ let first : k ≡ i = some_inj (rw same at e) in (omega arith, omega arith)
  | inr differ ↦
      let (low, high) = find_ref-range (suc k) met a i (rw differ at e) in
      (omega arith, omega arith)
]

-- More tables leave the numbers as they are.
pub find_ref-more :
    (k : ℕ) (met more : List ℕ) (a i : ℕ)
    → find_ref (numbered k met) a ≡ some i
    → find_ref (numbered k (met ++ more)) a ≡ some i
unfolding numbered find_ref
find_ref-more k [] more a i e = absurd (none-ne-some i e)
find_ref-more k (b ∷ met) more a i e = elim (Bool-cases (b == a)) [
  | inl same ↦ rw same (rw same at e)
  | inr differ ↦ rw differ (find_ref-more (suc k) met more a i (rw differ at e))
]

pub find_ref-last :
    (k : ℕ) (met : List ℕ) (a : ℕ)
    → find_ref (numbered k met) a ≡ none
    → find_ref (numbered k (met ++ a ∷ [])) a ≡ some (k + length met)
unfolding numbered find_ref
find_ref-last k [] a e = rw (eq→== a a refl) (ap some (omega arith))
find_ref-last k (b ∷ met) a e = elim (Bool-cases (b == a)) [
  | inl same ↦ absurd (none-ne-some k (sym (rw same at e)))
  | inr differ ↦
      let next : suc k + length met ≡ k + suc (length met) = omega arith in
      rw differ (find_ref-last (suc k) met a (rw differ at e) ∙ ap some next)
]

-- The tables met before stay at the front.
mutual
  pub Packs-more :
      {support : Bool} {heap : Heap} {met met' : List ℕ} {v : Value} {bytes : List ℕ} {sets : Sets}
      → Packs support heap met v met' bytes sets
      → (more : List ℕ) × (met' ≡ met ++ more)
  Packs-more {met = met} (leaf v h) = ([], sym (append-nil met))
  Packs-more {met = met} (known a k e) = ([], sym (append-nil met))
  Packs-more {met = met} (fresh a e e' rows) =
      let (more, same) = Rows-more rows in (a ∷ more, same ∙ append_assoc met (a ∷ []) more)

  pub Rows-more :
      {support : Bool} {heap : Heap} {index : ℕ} {met met' : List ℕ} {entries : Entries}
      {bytes : List ℕ} {sets : Sets}
      → Rows support heap index met entries met' bytes sets
      → (more : List ℕ) × (met' ≡ met ++ more)
  Rows-more {met = met} last = ([], sym (append-nil met))
  Rows-more {met = met} (row k v ik pk pv rows) =
      let (more1, e1) = Packs-more pk in
      let (more2, e2) = Packs-more pv in
      let (more3, e3) = Rows-more rows in
      (
        more1 ++ (more2 ++ more3),
        e3
            ∙ ap (λ l. l ++ more3) (e2 ∙ ap (λ l. l ++ more2) e1)
            ∙ append_assoc (met ++ more1) more2 more3
            ∙ append_assoc met more1 (more2 ++ more3),
      )
