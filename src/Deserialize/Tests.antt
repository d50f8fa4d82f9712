-- ===== src/Deserialize/Tests.antt =====
-- Unpacked values, by the functions of engine/lualib/serialize.c.
use randserver.Base.{
  ℕ, zero, suc, ◌-◌, ◌≤◌, ◌≡◌, ◌==◌, Bool, refl, ap, ◌∙◌, ◌⊎◌, ◌++◌, length, length-replicate,
  arith, true, false, some, List, [], ◌∷◌, replicate,
}
use randserver.Base.Int.{pos, negsuc}
use randserver.Base.Bytes.{read_at, from_le}
use randserver.Serialize.{
  Value, err_none, boolean, integer, string, table, Heap, Memory, SerializeData, serialize_pack,
}
use randserver.Deserialize.Ends.{HasUserData, HasTable, LacksRoom, deserialize_unpack_lem}
use randserver.Serialize.Values.{ser_nil, ser_table_begin, ser_table_end, is_error}
use randserver.Deserialize.{fault, raised, full, always}
use randserver.Deserialize.{
  Unpacked, unpack_fixed, unpack_string, unpack_table_ref, unpack_leaf, unpack_entries,
  unpack_table, unpack_obj, unpack_loop, deserialize_unpack, Outcome, done,
}
use randserver.Serialize.Buffer.{HasMemory}
use randserver.Serialize.Graph.{Sets}
use randserver.Serialize.Sets.{built}
use randserver.Serialize.Rebuilt.{all_named, tables_at, original_values, all_originals, heap_at}
use randserver.Deserialize.Leaves.{good}
use randserver.Deserialize.Whole.{deserialize_unpack-serialize_pack}

abbrev unpacked : List ℕ → Outcome (Unpacked × List Value)
unpacked bytes = deserialize_unpack (λ name. false) always bytes 0

abbrev is_refused : Outcome (Unpacked × List Value) → Bool
is_refused (done (u, values)) = is_error u.error
is_refused _ = false

table_values :
    unpacked (
      12 ∷ 7 ∷ 1 ∷ 115 ∷ 14 ∷ 1 ∷ 0 ∷ 0 ∷ 0 ∷ 2 ∷ 1 ∷ 12 ∷ 2 ∷ 1 ∷ 3 ∷ 212 ∷ 254 ∷ 13 ∷ 2 ∷ 2 ∷ 14
      ∷ 2 ∷ 0 ∷ 0 ∷ 0 ∷ 13 ∷ 11 ∷ 14 ∷ 2 ∷ 0 ∷ 0 ∷ 0 ∷ [])
    ≡ done (
      record {
        at = 32;
        error = err_none;
        tables = 2;
        sets =
            (1, (string (115 ∷ []), table 1))
            ∷ (2, (integer (pos 1), integer (negsuc 299)))
            ∷ (1, (integer (pos 1), table 2))
            ∷ (1, (integer (pos 2), table 2))
            ∷ [];
      },
      table 1 ∷ boolean true ∷ table 2 ∷ [],
    )
unfolding deserialize_unpack unpack_loop unpack_obj unpack_table unpack_entries unpack_leaf
    unpack_fixed unpack_string unpack_table_ref read_at from_le
table_values = refl

-- A memory that fills new cells with 0.
abbrev resize : ℕ → List ℕ → List ℕ
resize zero b = []
resize (suc n) [] = 0 ∷ resize n []
resize (suc n) (x ∷ b) = x ∷ resize n b

abbrev filling : Memory
filling = record { malloc = λ n. some (replicate n 0); realloc = λ b n. some (resize n b) }

length-resize : (n : ℕ) (b : List ℕ) → length (resize n b) ≡ n
length-resize zero b = refl
length-resize (suc n) [] = omega (arith, length-resize n [])
length-resize (suc n) (x ∷ b) = omega (arith, length-resize n b)

resize-append :
    (xs rest : List ℕ) (n : ℕ)
    → length xs ≤ n
    → resize n (xs ++ rest) ≡ xs ++ resize (n - length xs) rest
resize-append [] rest n h = ap (λ k. resize k rest) (omega arith)
resize-append (x ∷ xs) rest zero h = absurd (omega arith)
resize-append (x ∷ xs) rest (suc n) h =
    let same : n - length xs ≡ suc n - suc (length xs) = omega arith in
    ap (λ l. x ∷ l) (resize-append xs rest n (omega arith) ∙ ap (λ k. xs ++ resize k rest) same)

filling-HasMemory : HasMemory filling
filling-HasMemory = record {
  mallocs = λ n. (replicate n 0, refl, length-replicate n 0);
  reallocs = λ xs rest n h. (
    resize (n - length xs) rest,
    ap some (resize-append xs rest n h),
    omega (arith, length-resize (n - length xs) rest),
  );
}

-- A table that has itself, and one that it shares.
abbrev shared : Heap
shared =
    ((string (115 ∷ []), table 0) ∷ (integer (pos 1), table 1) ∷ (integer (pos 2), table 1) ∷ [])
    ∷ ((integer (pos 1), integer (negsuc 299)) ∷ [])
    ∷ []

abbrev shared_args : List Value
shared_args = table 1 ∷ boolean true ∷ table 0 ∷ []

abbrev fresh_data : SerializeData
fresh_data = record {
  data_cells = replicate 64 0;
  own = false;
  size = 0;
  max_size = 64;
  init_buff = replicate 64 0;
  init_size = 64;
  table_ref = 0;
  error = err_none;
  support = true;
}

deserialize_unpack-serialize_pack_example :
    (met : List ℕ) × (bytes : List ℕ) × (sets : Sets) × (ser' : SerializeData) × (serialize_pack
        filling shared fresh_data shared_args
      ≡ some ser')
    × (read_at 0 ser'.size ser'.data_cells ≡ some bytes)
    × (deserialize_unpack (λ name. false) always bytes 0
        ≡ done (good (length bytes) (length met) sets, all_named met shared_args))
    × (original_values met (all_named met shared_args) ≡ shared_args)
    × (built 1 (length met) sets ≡ tables_at shared met met)
    × (all_originals met (built 1 (length met) sets) ≡ heap_at shared met)
deserialize_unpack-serialize_pack_example =
    deserialize_unpack-serialize_pack (λ name. false) always filling shared fresh_data shared_args
      (λ p. refl) filling-HasMemory
      (
        (
          refl,
          omega arith,
          omega arith,
          (refl, omega arith, omega arith, (refl, omega arith, omega arith, tt)),
        ),
        ((refl, omega arith, omega arith, tt), tt),
      )
      (omega arith, (tt, (omega arith, tt))) (omega arith) refl (λ e. refl)

-- A table with a nil key.
abbrev nil_key : List ℕ
nil_key = ser_table_begin ∷ ser_nil ∷ ser_nil ∷ ser_table_end ∷ []

nil_key_raises : unpacked nil_key ≡ raised
unfolding deserialize_unpack unpack_loop unpack_obj unpack_table unpack_entries unpack_leaf
nil_key_raises = refl

-- Four bytes are a negative index.
negative_index : is_refused (unpacked (12 ∷ 13 ∷ 14 ∷ 1 ∷ 0 ∷ 0 ∷ 128 ∷ [])) ≡ true
unfolding deserialize_unpack unpack_loop unpack_obj unpack_table unpack_entries unpack_leaf
    unpack_table_ref read_at from_le
negative_index = refl

-- No room for the second value.
no_room : deserialize_unpack (λ name. false) (λ p. p == 0) (1 ∷ 1 ∷ []) 0 ≡ full
unfolding deserialize_unpack unpack_loop unpack_obj unpack_leaf
no_room = refl

deserialize_unpack_lem_example :
    ((unpacked nil_key ≡ fault) × HasUserData nil_key)
    ⊎ ((unpacked nil_key ≡ raised) × HasTable nil_key)
    ⊎ ((unpacked nil_key ≡ full) × LacksRoom always nil_key)
    ⊎ ((u : Unpacked) × (values : List Value) × (unpacked nil_key ≡ done (u, values))
        × ((is_error u.error ≡ false) ⊎ (values ≡ [])))
deserialize_unpack_lem_example =
    deserialize_unpack_lem (λ name. false) always nil_key 0 (omega arith)
