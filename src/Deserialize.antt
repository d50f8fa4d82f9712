-- ===== src/Deserialize.antt =====
-- engine/lualib/serialize.c, unpacking: Lua values from bytes. A new Lua table is known by its
-- number in the table of references, and the calls of `lua_rawset` are recorded in their order; at
-- a key that is nil or a NaN Lua raises an error. `registered` tells whether Lua has a
-- metatable of a name, and `room` what `lua_checkstack` answers for the value at a position, whose
-- answer the source ignores; the table of references itself has room, and otherwise Lua has memory.
-- The field `error_info`, which only describes an error, is left out.
pub mod Leaves
pub mod Steps
pub mod Objects
pub mod Whole
pub mod Ends
mod Tests
use randserver.Base.{
  ℕ, zero, suc, ◌+◌, ◌-◌, ◌*◌, ◌^◌, ◌%◌, Bool, true, false, Option, none, some, List, [], ◌∷◌, ◌++◌,
  length, get_elem?, ltb, leb, ◌==◌, ◌||◌, ◌&&◌, if◌then◌else◌,
}
use randserver.Base.Int.{ℤ, pos, negsuc}
use randserver.Base.Bytes.{read_at, from_le}
use randserver.Serialize.Values.{
  Value, nil, boolean, integer, number, string, table, userdata, light, UserData, ser_none, ser_nil,
  ser_int8, ser_int16, ser_int32, ser_int64, ser_double, ser_string8, ser_string16, ser_string32,
  ser_bool_false, ser_bool_true, ser_table_begin, ser_table_end, ser_table_ref, ser_user_data,
  ser_lightuser_data, Error, err_none, err_unpack_error, err_unpack_string8_no_size_buff,
  err_unpack_string8_no_data_buff, err_unpack_string16_no_size_buff,
  err_unpack_string16_no_data_buff, err_unpack_string32_no_size_buff,
  err_unpack_string32_no_data_buff, err_unpack_double_no_buff, err_unpack_int8_no_buff,
  err_unpack_int16_no_buff, err_unpack_int32_no_buff, err_unpack_int64_no_buff,
  err_unpack_table_no_key_buff, err_unpack_table_no_value_buff, err_unpack_table_ref_no_index,
  err_unpack_table_ref_no_table, err_unpack_error_op_type, err_unpack_userdata_no_buff,
  err_unpack_lightuserdata_no_buff, is_error, is_key,
}

-- The outcome of a call: `fault` is a read outside the bytes, `raised` an error of Lua, `full` a push for
-- which `lua_checkstack` found no room, and `spent` is the model's fuel.
pub data Outcome {ℓ} (A : Type ℓ) : Type ℓ where
  done : A → Outcome A
  fault raised full spent : Outcome A

infixl 1 ◌>>=◌
abbrev pub ◌>>=◌ {ℓ κ} : {A : Type ℓ} {B : Type κ} → Outcome A → (A → Outcome B) → Outcome B
done a >>= f = f a
fault >>= f = fault
raised >>= f = raised
full >>= f = full
spent >>= f = spent

abbrev pub read {ℓ} : {A : Type ℓ} → Option A → Outcome A
read none = fault
read (some a) = done a

-- The position, the error, the number of tables so far, and the calls of `lua_rawset`.
pub record Unpacked : Type 0 where
  pub at : ℕ
  pub error : Error
  pub tables : ℕ
  pub sets : List (ℕ × (Value × Value))

-- What a call gives: the state, the kind that was read, and the value pushed, `nil` if there is none.
abbrev pub Pushed : Type 0
Pushed = Outcome (Unpacked × ℕ × Value)

-- A signed value of `w` bits.
abbrev pub signed : ℕ → ℕ → ℤ
signed w u = if ltb u (2 ^ (w - 1)) then pos u else negsuc (2 ^ w - 1 - u)

-- Lua's stack has room for every value.
abbrev pub always : ℕ → Bool
always p = true

module _ (registered : List ℕ → Bool) (room : ℕ → Bool) (bytes : List ℕ) where
  -- A value of `n` bytes, which `unpack_integer8` and its like read.
  pub unpack_fixed : ℕ → Error → (ℕ → Value) → Unpacked → Outcome (Unpacked × Value)
  unpack_fixed n err value u =
      let got =
        read (read_at u.at n bytes) >>= λ b. done (record u { at = u.at + n }, value (from_le b)) in
      if ltb (length bytes) (u.at + n) then done (record u { error = err }, nil) else got

  abbrev pub unpack_integer8 : Unpacked → Outcome (Unpacked × Value)
  unpack_integer8 = unpack_fixed 1 err_unpack_int8_no_buff (λ n. integer (signed 8 n))

  abbrev pub unpack_integer16 : Unpacked → Outcome (Unpacked × Value)
  unpack_integer16 = unpack_fixed 2 err_unpack_int16_no_buff (λ n. integer (signed 16 n))

  abbrev pub unpack_integer32 : Unpacked → Outcome (Unpacked × Value)
  unpack_integer32 = unpack_fixed 4 err_unpack_int32_no_buff (λ n. integer (signed 32 n))

  abbrev pub unpack_integer64 : Unpacked → Outcome (Unpacked × Value)
  unpack_integer64 = unpack_fixed 8 err_unpack_int64_no_buff (λ n. integer (signed 64 n))

  abbrev pub unpack_double : Unpacked → Outcome (Unpacked × Value)
  unpack_double = unpack_fixed 8 err_unpack_double_no_buff number

  abbrev pub unpack_lightuserdata : Unpacked → Outcome (Unpacked × Value)
  unpack_lightuserdata = unpack_fixed 8 err_unpack_lightuserdata_no_buff light

  -- `unpack_string8`, `unpack_string16` and `unpack_string32`, whose sizes take `n` bytes.
  pub unpack_string : ℕ → Error → Error → Unpacked → Outcome (Unpacked × Value)
  unpack_string n no_size no_data u =
      let got = read (read_at u.at n bytes) >>= λ b.
      (let size = from_le b in
        let text = read (read_at (u.at + n) size bytes) >>= λ t.
        done (record u { at = u.at + n + size }, string t) in
        if ltb (length bytes) (u.at + n + size)
        then done (record u { at = u.at + n; error = no_data }, nil)
        else text) in
      if ltb (length bytes) (u.at + n) then done (record u { error = no_size }, nil) else got

  -- `unpack_table_ref`; the index is an int, which is negative from 2 ^ 31 on, and no table has a negative
  -- number.
  pub unpack_table_ref : Unpacked → Outcome (Unpacked × Value)
  unpack_table_ref u =
      let got = read (read_at u.at 4 bytes) >>= λ b.
      (let index = from_le b in
        let u' = record u { at = u.at + 4 } in
        if ltb index 2147483648 && (ltb 0 index && leb index u.tables)
        then done (u', table index)
        else done (record u' { error = err_unpack_table_ref_no_table }, nil)) in
      if ltb (length bytes) (u.at + 4)
      then done (record u { error = err_unpack_table_ref_no_index }, nil)
      else got

  -- The text up to the next 0.
  pub text_at : ℕ → List ℕ → Option (List ℕ)
  text_at k [] = none
  text_at zero (b ∷ bs) =
      let rest = text_at zero bs in
      if b == 0 then some [] else (elim rest [ none ↦ none | some text ↦ some (b ∷ text) ])
  text_at (suc k) (b ∷ bs) = text_at k bs

  -- `unpack_userdata`; `lua_newuserdata` gives memory. The name is looked up where its bytes begin, and
  -- only the first eight bytes are known to be there.
  pub unpack_userdata : Unpacked → Outcome (Unpacked × Value)
  unpack_userdata u =
      let got = read (get_elem? bytes u.at) >>= λ name_size.
      read (text_at (u.at + 1) bytes) >>= λ name.
      read (get_elem? bytes (u.at + 1 + name_size)) >>= λ size.
      (let end = u.at + 1 + name_size + 1 + size in
        let made = read (read_at (u.at + 1 + name_size + 1) size bytes) >>= λ cells. done (
          record u { at = end },
          userdata (record { serialize = some size; name = some name; cells = cells }),
        ) in
        if registered name then made else done (record u { at = end }, nil)) in
      if ltb (length bytes) (u.at + 8)
      then done (record u { error = err_unpack_userdata_no_buff }, nil)
      else got

  -- The cases of `unpack_obj` other than a table.
  pub unpack_leaf : ℕ → Unpacked → Outcome (Unpacked × Value)
  unpack_leaf op u =
      if op == ser_nil
      then done (u, nil)
      else if op == ser_int8
      then unpack_integer8 u
      else if op == ser_int16
      then unpack_integer16 u
      else if op == ser_int32
      then unpack_integer32 u
      else if op == ser_int64
      then unpack_integer64 u
      else if op == ser_double
      then unpack_double u
      else if op == ser_string8
      then unpack_string 1 err_unpack_string8_no_size_buff err_unpack_string8_no_data_buff u
      else if op == ser_string16
      then unpack_string 2 err_unpack_string16_no_size_buff err_unpack_string16_no_data_buff u
      else if op == ser_string32
      then unpack_string 4 err_unpack_string32_no_size_buff err_unpack_string32_no_data_buff u
      else if op == ser_bool_false
      then done (u, boolean false)
      else if op == ser_bool_true
      then done (u, boolean true)
      else if op == ser_table_ref
      then unpack_table_ref u
      else if op == ser_table_end
      then done (u, nil)
      else if op == ser_user_data
      then unpack_userdata u
      else if op == ser_lightuser_data
      then unpack_lightuserdata u
      else done (record u { error = err_unpack_error_op_type }, nil)

  -- The loop of `unpack_table` for the table `index`, with a way to unpack a value, behind a key.
  pub unpack_entries : ℕ → (Unpacked → Pushed) → ℕ → Unpacked → ℕ → Value → Outcome Unpacked
  unpack_entries zero obj index u key_type key = spent
  unpack_entries (suc rounds) obj index u key_type key =
      elim (is_error u.error || (key_type == ser_table_end)) [
        | true ↦ done u
        | false ↦ elim (key_type == ser_none) [
          | true ↦ done (record u { error = err_unpack_table_no_key_buff })
          | false ↦ obj u >>= λ (u1, value_type, value). elim (is_error u1.error) [
            | true ↦ done u1
            | false ↦ elim ((value_type == ser_none) || (value_type == ser_table_end)) [
              | true ↦ done (record u1 { error = err_unpack_table_no_value_buff })
              | false ↦ elim (is_key key) [
                | false ↦ raised
                | true ↦
                    obj (record u1 { sets = u1.sets ++ (index, (key, value)) ∷ [] })
                    >>= λ (u2, key_type', key'). unpack_entries rounds obj index u2 key_type' key'
              ]
            ]
          ]
        ]
      ]

  -- `unpack_table`
  pub unpack_table : ℕ → (Unpacked → Pushed) → Unpacked → Outcome (Unpacked × Value)
  unpack_table rounds obj u =
      let index = u.tables + 1 in
      obj (record u { tables = index }) >>= λ (u1, key_type, key).
      unpack_entries rounds obj index u1 key_type key >>= λ u2. done (u2, table index)

  -- `unpack_obj`; each call takes a byte, so that fuel above the number of bytes is enough. `room` stands
  -- for the call of `lua_checkstack` here and for that of `unpack_table`.
  pub unpack_obj : ℕ → Unpacked → Pushed
  unpack_obj zero u = spent
  unpack_obj (suc fuel) u = elim (is_error u.error || leb (length bytes) u.at) [
    | true ↦ done (u, ser_none, nil)
    | false ↦ elim (room u.at) [
      | false ↦ full
      | true ↦ read (get_elem? bytes u.at) >>= λ op.
          (elim (op == ser_table_begin) [
            | true ↦ unpack_table fuel (unpack_obj fuel) (record u { at = u.at + 1 })
            | false ↦ unpack_leaf op (record u { at = u.at + 1 })
          ])
          >>= λ (u', value). done (u', op, value)
    ]
  ]

  -- The loop of `deserialize_unpack`: the values so far. `res_count` 0 is no limit.
  pub unpack_loop : ℕ → ℕ → Unpacked → List Value → Outcome (Unpacked × List Value)
  unpack_loop zero res_count u values = spent
  unpack_loop (suc rounds) res_count u values = elim (ltb u.at (length bytes)) [
    | false ↦ done (u, values)
    | true ↦ unpack_obj (length bytes + 1) u >>= λ (u', res, value). elim (is_error u'.error) [
      | true ↦ done (u', [])
      | false ↦ elim ((res == ser_none) || (res == ser_table_end)) [
        | true ↦ done (record u' { error = err_unpack_error }, values)
        | false ↦
            let values' = values ++ value ∷ [] in
            elim (ltb 0 res_count && leb res_count (length values')) [
              | true ↦ done (u', values')
              | false ↦ unpack_loop rounds res_count u' values'
            ]
      ]
    ]
  ]

  -- `deserialize_unpack`: the state and the results, of which there are none with an error.
  pub deserialize_unpack : ℕ → Outcome (Unpacked × List Value)
  deserialize_unpack res_count =
      let start : Unpacked = record { at = 0; error = err_none; tables = 0; sets = [] } in
      unpack_loop (length bytes + 1) res_count start [] >>= λ (u, values).
      done (u, if is_error u.error then [] else values)
