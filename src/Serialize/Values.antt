-- ===== src/Serialize/Values.antt =====
-- engine/lualib/serialize.h and what the code sees of Lua's values.
use randserver.Base.{ℕ, ◌*◌, ◌^◌, ◌%◌, Bool, true, false, Option, List, leb}
use randserver.Base.Int.{ℤ}

-- A userdata: the bits of its metatable's `__serialize`, its `__name`, and its memory.
pub record UserData : Type 0 where
  pub serialize : Option ℕ
  pub name : Option (List ℕ)
  pub cells : List ℕ

-- A Lua value; `other` is a function or a thread.
pub data Value : Type 0 where
  nil : Value
  boolean : Bool → Value
  integer : ℤ → Value
  number : ℕ → Value
  string : List ℕ → Value
  table : ℕ → Value
  userdata : UserData → Value
  light : ℕ → Value
  other : Value

abbrev pub Entries : Type 0
Entries = List (Value × Value)

abbrev pub Heap : Type 0
Heap = List Entries

-- `en_ser`
abbrev pub ser_none : ℕ
ser_none = 0

abbrev pub ser_nil : ℕ
ser_nil = 1

abbrev pub ser_int8 : ℕ
ser_int8 = 2

abbrev pub ser_int16 : ℕ
ser_int16 = 3

abbrev pub ser_int32 : ℕ
ser_int32 = 4

abbrev pub ser_int64 : ℕ
ser_int64 = 5

abbrev pub ser_double : ℕ
ser_double = 6

abbrev pub ser_string8 : ℕ
ser_string8 = 7

abbrev pub ser_string16 : ℕ
ser_string16 = 8

abbrev pub ser_string32 : ℕ
ser_string32 = 9

abbrev pub ser_bool_false : ℕ
ser_bool_false = 10

abbrev pub ser_bool_true : ℕ
ser_bool_true = 11

abbrev pub ser_table_begin : ℕ
ser_table_begin = 12

abbrev pub ser_table_end : ℕ
ser_table_end = 13

abbrev pub ser_table_ref : ℕ
ser_table_ref = 14

abbrev pub ser_user_data : ℕ
ser_user_data = 15

abbrev pub ser_lightuser_data : ℕ
ser_lightuser_data = 16

-- `en_error`, those that the code sets.
pub data Error : Type 0 where
  err_none err_no_memory err_null_string err_ref_table_nofit_type err_unpack_error : Error
  err_unpack_string8_no_size_buff err_unpack_string8_no_data_buff : Error
  err_unpack_string16_no_size_buff err_unpack_string16_no_data_buff : Error
  err_unpack_string32_no_size_buff err_unpack_string32_no_data_buff : Error
  err_unpack_double_no_buff err_unpack_int8_no_buff err_unpack_int16_no_buff : Error
  err_unpack_int32_no_buff err_unpack_int64_no_buff : Error
  err_unpack_table_no_key_buff err_unpack_table_no_value_buff : Error
  err_unpack_table_ref_no_index err_unpack_table_ref_no_table : Error
  err_unpack_error_op_type err_unpack_userdata_no_buff err_unpack_lightuserdata_no_buff : Error

abbrev pub is_error : Error → Bool
is_error err_none = false
is_error _ = true

-- Whether a value can be a key of a table: not nil, and not a number whose bits are those of a NaN.
abbrev pub is_key : Value → Bool
is_key nil = false
is_key (number bits) = leb (bits % 2 ^ 63) (2047 * 2 ^ 52)
is_key _ = true
