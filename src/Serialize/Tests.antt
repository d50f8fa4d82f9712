-- ===== src/Serialize/Tests.antt =====
-- Packed values, by the functions of engine/lualib/serialize.c.
use randserver.Base.{ℕ, ◌-◌, ◌^◌, ◌≡◌, refl, true, Option, some, List, [], ◌∷◌, replicate, ◌>>=◌}
use randserver.Base.Int.{pos, negsuc}
use randserver.Base.Bytes.{read_at, write_at, le_bytes}
use randserver.Serialize.{
  Value, boolean, integer, string, table, Heap, Memory, serialize_init, serialize_clean, grown,
  check_serialize_pack, serialize_pack_bytes, serialize_pack_op, pack_integer, pack_string,
  find_ref, pack_entries, pack_table, pack_value, pack_obj, pack_args, serialize_pack,
}

abbrev enough : Memory
enough = record { malloc = λ n. some (replicate n 0); realloc = λ b n. some (b) }

-- A table that has itself, and one that it shares.
abbrev heap : Heap
heap =
    ((string (115 ∷ []), table 0) ∷ (integer (pos 1), table 1) ∷ (integer (pos 2), table 1) ∷ [])
    ∷ ((integer (pos 1), integer (negsuc 299)) ∷ [])
    ∷ []

abbrev packed : List Value → Option (List ℕ)
packed args = serialize_pack enough heap (serialize_init true (replicate 64 0) 64) args >>= λ ser.
    read_at 0 ser.size ser.data_cells

table_bytes :
    packed (table 0 ∷ boolean true ∷ table 1 ∷ [])
    ≡ some (
        12 ∷ 7 ∷ 1 ∷ 115 ∷ 14 ∷ 1 ∷ 0 ∷ 0 ∷ 0 ∷ 2 ∷ 1 ∷ 12 ∷ 2 ∷ 1 ∷ 3 ∷ 212 ∷ 254 ∷ 13 ∷ 2 ∷ 2 ∷ 14
        ∷ 2 ∷ 0 ∷ 0 ∷ 0 ∷ 13 ∷ 11 ∷ 14 ∷ 2 ∷ 0 ∷ 0 ∷ 0 ∷ [])
unfolding serialize_pack pack_args pack_obj pack_value pack_table pack_entries find_ref pack_integer
    pack_string serialize_pack_op serialize_pack_bytes check_serialize_pack grown serialize_clean
    serialize_init read_at write_at le_bytes
table_bytes = refl

-- The least integer is packed as an 8-bit 0.
least_lost : packed (integer (negsuc (2 ^ 63 - 1)) ∷ []) ≡ some (2 ∷ 0 ∷ [])
unfolding serialize_pack pack_args pack_obj pack_value pack_integer serialize_pack_op
    serialize_pack_bytes check_serialize_pack serialize_clean serialize_init read_at write_at
    le_bytes
least_lost = refl
