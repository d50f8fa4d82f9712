-- ===== src/Serialize.antt =====
-- engine/lualib/serialize.c, packing: Lua values as bytes. A Lua table has an address, under which
-- `Heap` has its entries in the order of `lua_next`; strings, and the bits of numbers, stand for
-- themselves. `malloc` and `realloc` are parameters, and Lua's stack has the room that
-- `lua_checkstack` is asked for. The field `error_info`, which only describes an error, is left
-- out.
pub mod Values
mod Tests
pub mod Buffer
pub mod Graph
pub mod Unmet
pub mod Sets
pub mod Inside
pub mod Leaves
pub mod Pack
pub mod All
pub mod Rebuilt
pub use Values.*
use randserver.Base.{
  ℕ, zero, suc, ◌+◌, ◌-◌, ◌*◌, ◌/◌, ◌%◌, ◌^◌, Bool, true, false, Option, none, some, List, [], ◌∷◌,
  ◌++◌, length, get_elem?, take, ltb, leb, ◌==◌, not, if◌then◌else◌, ◌>>=◌,
}
use randserver.Base.Int.{ℤ, pos, negsuc, ltb_ℤ, leb_ℤ}
use randserver.Base.Bytes.{read_at, write_at, le_bytes}

-- The calls of `malloc` and `realloc`, by the cells of the blocks.
pub record Memory : Type 0 where
  pub malloc : ℕ → Option (List ℕ)
  pub realloc : List ℕ → ℕ → Option (List ℕ)

-- `serialize_data`: `own` says that `data` is not `init_buff`, and `support` is USER_DATA_FLAG.
pub record SerializeData : Type 0 where
  pub data_cells : List ℕ
  pub own : Bool
  pub size : ℕ
  pub max_size : ℕ
  pub init_buff : List ℕ
  pub init_size : ℕ
  pub table_ref : ℕ
  pub error : Error
  pub support : Bool

-- `serialize_init`
pub serialize_init : Bool → List ℕ → ℕ → SerializeData
serialize_init support init_buff init_size = record {
  data_cells = init_buff;
  own = false;
  size = 0;
  max_size = init_size;
  init_buff = init_buff;
  init_size = init_size;
  table_ref = 0;
  error = err_none;
  support = support;
}

-- `serialize_clean`
pub serialize_clean : SerializeData → SerializeData
serialize_clean ser = record ser {
  data_cells = if ser.own then ser.init_buff else ser.data_cells;
  own = false;
  size = 0;
  max_size = ser.init_size;
  table_ref = 0;
  error = err_none;
}

-- The bits of a signed value that are kept in `w` bits.
abbrev pub low_bits : ℕ → ℤ → ℕ
low_bits w (pos n) = n % 2 ^ w
low_bits w (negsuc n) = 2 ^ w - 1 - n % 2 ^ w

-- `abs_value` of a `lua_Integer`; the negation of the least one wraps to itself.
abbrev pub abs_value : ℤ → ℤ
abs_value (pos n) = pos n
abs_value (negsuc n) = if ltb (suc n) (2 ^ 63) then pos (suc n) else negsuc n

-- The Lua table in which the packed tables are recorded: their addresses with their numbers.
abbrev pub Refs : Type 0
Refs = List (ℕ × ℕ)

unfoldable pub find_ref : Refs → ℕ → Option ℕ
find_ref [] a = none
find_ref ((b, n) ∷ refs) a = let rest = find_ref refs a in if b == a then some n else rest

-- The loop of `pack_table`, for a way to pack a value.
pub pack_entries :
    (SerializeData → Refs → Value → Option (SerializeData × Refs))
    → SerializeData
    → Refs
    → Entries
    → Option (SerializeData × Refs)
pack_entries pack ser refs [] = some (ser, refs)
pack_entries pack ser refs ((k, v) ∷ entries) = pack ser refs k >>= λ (ser1, refs1).
    pack ser1 refs1 v >>= λ (ser2, refs2). pack_entries pack ser2 refs2 entries

module _ (memory : Memory) where
  -- The block after a request of `n` bytes, which is not `init_buff`; `none` is a copy into a null pointer.
  pub grown : SerializeData → ℕ → Option (Bool × SerializeData)
  grown ser n =
      let lost = record ser { data_cells = []; own = true; size = 0; max_size = 0 } in
      let reallocated : Option (Bool × SerializeData) = elim (memory.realloc ser.data_cells n) [
        | none ↦ some (false, lost)
        | some block ↦ some (true, record ser { data_cells = block; own = true; max_size = n })
      ] in
      let allocated : Option (Bool × SerializeData) = elim (memory.malloc n) [
        | none ↦ if ser.size == 0 then some (false, lost) else none
        | some block ↦ read_at 0 ser.size ser.data_cells >>= λ bytes.
            write_at 0 bytes block >>= λ cells. some (
              true,
              record ser {
                data_cells = cells;
                own = true;
                max_size = n;
                init_buff = ser.data_cells;
              },
            )
      ] in
      if ser.own then reallocated else allocated

  -- `check_serialize_pack`: whether there is memory.
  pub check_serialize_pack : SerializeData → ℕ → Option (Bool × SerializeData)
  check_serialize_pack ser add_size =
      let new_size = ser.size + add_size in
      let copied = read_at 0 ser.size ser.data_cells >>= λ bytes.
      write_at 0 bytes ser.init_buff >>= λ cells.
      some (true, record ser { data_cells = cells; own = false; max_size = ser.init_size }) in
      let back = if ser.own then copied else some (true, record ser { max_size = ser.init_size }) in
      let more = grown ser (new_size + 1024) in
      if ltb new_size ser.max_size
      then some (true, ser)
      else if leb new_size ser.init_size
      then back
      else more

  -- `serialize_pack_bytes`
  pub serialize_pack_bytes : SerializeData → List ℕ → Option SerializeData
  serialize_pack_bytes ser bytes =
      let checked = check_serialize_pack ser (length bytes) >>= λ (enough, ser').
      (let written = write_at ser'.size bytes ser'.data_cells >>= λ cells.
      some (record ser' { data_cells = cells; size = ser'.size + length bytes }) in
        if enough then written else some (record ser' { error = err_no_memory })) in
      if is_error ser.error then some ser else checked

  -- `serialize_pack_op`
  pub serialize_pack_op : SerializeData → ℕ → Option SerializeData
  serialize_pack_op ser op = serialize_pack_bytes ser (op ∷ [])

  -- An operation and the bytes that follow it.
  abbrev pub pack_op_bytes : SerializeData → ℕ → List ℕ → Option SerializeData
  pack_op_bytes ser op bytes = serialize_pack_op ser op >>= λ ser'. serialize_pack_bytes ser' bytes

  -- `pack_integer`
  pub pack_integer : SerializeData → ℤ → Option SerializeData
  pack_integer ser value =
      let abs = abs_value value in
      if ltb_ℤ abs (pos 128)
      then pack_op_bytes ser ser_int8 (le_bytes 1 (low_bits 8 value))
      else if ltb_ℤ abs (pos 32768)
      then pack_op_bytes ser ser_int16 (le_bytes 2 (low_bits 16 value))
      else if leb_ℤ abs (pos 2147483647)
      then pack_op_bytes ser ser_int32 (le_bytes 4 (low_bits 32 value))
      else pack_op_bytes ser ser_int64 (le_bytes 8 (low_bits 64 value))

  -- `pack_string`; Lua has a string for a string value.
  pub pack_string : SerializeData → List ℕ → Option SerializeData
  pack_string ser bytes =
      let size = length bytes in
      (if ltb size (2 ^ 7)
        then pack_op_bytes ser ser_string8 (le_bytes 1 size)
        else if ltb size (2 ^ 15)
        then pack_op_bytes ser ser_string16 (le_bytes 2 size)
        else pack_op_bytes ser ser_string32 (le_bytes 8 size))
      >>= λ ser'. serialize_pack_bytes ser' bytes

  -- The bytes of a userdata whose metatable names it and gives its size.
  pub pack_named : SerializeData → ℕ → List ℕ → List ℕ → Option SerializeData
  pack_named ser ser_size name cells =
      let name_size = (length name % 256 + 1) % 256 in
      do
        ser1 ← pack_op_bytes ser ser_user_data (name_size ∷ [])
        text ← read_at 0 name_size (name ++ 0 ∷ [])
        ser2 ← serialize_pack_bytes ser1 text
        ser3 ← serialize_pack_bytes ser2 ((ser_size % 256) ∷ [])
        bytes ← read_at 0 (ser_size % 256) cells
        serialize_pack_bytes ser3 bytes

  -- `pack_userdata`
  pub pack_userdata : SerializeData → UserData → Option SerializeData
  pack_userdata ser ud =
      let none_packed = serialize_pack_op ser ser_nil in
      let packed : Option SerializeData = elim ud.serialize [
        | none ↦ none_packed
        | some ser_size ↦ elim ud.name [
          | none ↦ none_packed
          | some name ↦ pack_named ser ser_size name ud.cells
        ]
      ] in
      if ser.support then packed else none_packed

  -- `pack_table`; the record has only numbers, so that the third branch is not reached. `table_ref` is an
  -- int, so that `none` is also its overflow.
  pub pack_table :
      (SerializeData → Refs → Value → Option (SerializeData × Refs))
      → Heap
      → SerializeData
      → Refs
      → ℕ
      → Option (SerializeData × Refs)
  pack_table pack heap ser refs a = elim (find_ref refs a) [
    | some index ↦ pack_op_bytes ser ser_table_ref (le_bytes 4 index) >>= λ ser'. some (ser', refs)
    | none ↦
        let number = ser.table_ref + 1 in
        let packed = get_elem? heap a >>= λ entries.
        serialize_pack_op (record ser { table_ref = number }) ser_table_begin >>= λ ser1.
        pack_entries pack ser1 (refs ++ (a, number) ∷ []) entries >>= λ (ser2, refs2).
        serialize_pack_op ser2 ser_table_end >>= λ ser3. some (ser3, refs2) in
        if ltb number 2147483648 then packed else none
  ]

  -- The cases of `pack_obj`, for a way to pack what a table has.
  pub pack_value :
      (SerializeData → Refs → Value → Option (SerializeData × Refs))
      → Heap
      → SerializeData
      → Refs
      → Value
      → Option (SerializeData × Refs)
  pack_value pack heap ser refs nil = serialize_pack_op ser ser_nil >>= λ ser'. some (ser', refs)
  pack_value pack heap ser refs (boolean b) =
      serialize_pack_op ser (if b then ser_bool_true else ser_bool_false) >>= λ ser'.
      some (ser', refs)
  pack_value pack heap ser refs (integer i) = pack_integer ser i >>= λ ser'. some (ser', refs)
  pack_value pack heap ser refs (number bits) =
      pack_op_bytes ser ser_double (le_bytes 8 bits) >>= λ ser'. some (ser', refs)
  pack_value pack heap ser refs (string bytes) = pack_string ser bytes >>= λ ser'. some (ser', refs)
  pack_value pack heap ser refs (table a) = pack_table pack heap ser refs a
  pack_value pack heap ser refs (userdata ud) = pack_userdata ser ud >>= λ ser'. some (ser', refs)
  pack_value pack heap ser refs (light p) =
      (if ser.support
        then pack_op_bytes ser ser_lightuser_data (le_bytes 8 p)
        else serialize_pack_op ser ser_nil)
      >>= λ ser'. some (ser', refs)
  pack_value pack heap ser refs other = serialize_pack_op ser ser_nil >>= λ ser'. some (ser', refs)

  -- `pack_obj`, with the depth of the calls as fuel.
  pub pack_obj : ℕ → Heap → SerializeData → Refs → Value → Option (SerializeData × Refs)
  pack_obj zero heap ser refs v = none
  pack_obj (suc fuel) heap ser refs v =
      let packed = pack_value (pack_obj fuel heap) heap ser refs v in
      if is_error ser.error then some (ser, refs) else packed

  -- The loop of `serialize_pack` over the arguments.
  pub pack_args : ℕ → Heap → SerializeData → Refs → List Value → Option (SerializeData × Refs)
  pack_args fuel heap ser refs [] = some (ser, refs)
  pack_args fuel heap ser refs (v ∷ vs) =
      pack_obj fuel heap ser refs v >>= λ (ser', refs'). pack_args fuel heap ser' refs' vs

  -- `serialize_pack`; no table is packed twice, so that a call is at most as deep as there are tables.
  pub serialize_pack : Heap → SerializeData → List Value → Option SerializeData
  serialize_pack heap ser args =
      pack_args (length heap + 1) heap (serialize_clean ser) [] args >>= λ (ser', refs). some ser'
