-- ===== src/Db/Rabbitmq.antt =====
-- src/flame/db/rabbitmq/table.cpp: PHP arrays as tables of AMQP and back. librabbitmq's structs
-- are modelled by their fields; a double is its 64 bits, an integer its sign and magnitude.
pub mod Converted
pub mod Connection
pub mod Properties
pub mod Clients
use php_flame.Prelude.{
  ℕ, zero, suc, ◌-◌, ◌^◌, Bool, true, false, Option, none, some, ltb, if◌then◌else◌, Bytes,
}
use php_flame.Db.Mysql.{Key, index, name}
use php_flame.Db.Mongodb.{
  Value, null, boolean, long, double, str, array, Entries, none_left, entry, put,
}

-- What the entry's `key` points to. `reset` leaves the pointer of a string that it drops where
-- the key of the array is a number.
pub data Name : Type 0 where
  kept : Bytes → Name
  dangling : Name

-- amqp_field_value_t, by its kind.
mutual
  pub data Field : Type 0 where
    kind_boolean : Bool → Field
    kind_i8 : Bool → ℕ → Field
    kind_u8 : ℕ → Field
    kind_i16 : Bool → ℕ → Field
    kind_u16 : ℕ → Field
    kind_i32 : Bool → ℕ → Field
    kind_u32 : ℕ → Field
    kind_i64 : Bool → ℕ → Field
    kind_u64 : ℕ → Field
    kind_timestamp : ℕ → Field
    kind_f32 : ℕ → Field
    kind_f64 : ℕ → Field
    kind_utf8 : Bytes → Field
    kind_bytes : Bytes → Field
    kind_table : Table → Field
    kind_array : Fields → Field
    kind_decimal : Field
    kind_void : Field

  pub data Table : Type 0 where
    no_entries : Table
    table_entry : Name → Field → Table → Table

  pub data Fields : Type 0 where
    no_fields : Fields
    field : Field → Fields → Fields

-- C's conversions of the bits of a double to those of an int64_t, and of a float to a double, and the key that PHP has for
-- a string.
pub record Php : Type 0 where
  pub truncated : ℕ → ℕ
  pub widened : ℕ → ℕ
  pub key_of : Bytes → Key

-- `static_cast<int64_t>` of an unsigned number of 64 bits.
unfoldable pub as_int64 : ℕ → Value ℕ
as_int64 n = if ltb n (2 ^ 63) then long false n else long true (2 ^ 64 - n)

module _ (php : Php) where
  -- The switch of `reset`. A double is assigned to the integer of the union.
  unfoldable pub value_field : Value ℕ → Field
  value_field (boolean b) = kind_boolean b
  value_field (long negative n) = kind_i64 negative n
  value_field (double bits) = kind_f64 (php.truncated bits)
  value_field (str s) = kind_bytes s
  value_field _ = kind_void

  unfoldable pub key_name : Key → Name
  key_name (index n) = dangling
  key_name (name s) = kept s

  unfoldable pub reset : Entries ℕ → Table
  reset none_left = no_entries
  reset (entry k v rest) = table_entry (key_name k) (value_field v) (reset rest)

  unfoldable pub as_array : Option (Entries ℕ) → Option (Value ℕ)
  as_array none = none
  as_array (some map) = some (array map)

  -- The three functions `convert`; none where an assertion fails, or a key dangles.
  unfoldable mutual
    pub convert : Field → Option (Value ℕ)
    convert (kind_boolean b) = some (boolean b)
    convert (kind_i8 negative n) = some (long negative n)
    convert (kind_u8 n) = some (long false n)
    convert (kind_i16 negative n) = some (long negative n)
    convert (kind_u16 n) = some (long false n)
    convert (kind_i32 negative n) = some (long negative n)
    convert (kind_u32 n) = some (long false n)
    convert (kind_i64 negative n) = some (long negative n)
    convert (kind_u64 n) = some (as_int64 n)
    convert (kind_timestamp n) = some (as_int64 n)
    convert (kind_f32 bits) = some (double (php.widened bits))
    convert (kind_f64 bits) = some (double bits)
    convert (kind_utf8 s) = some (str s)
    convert (kind_bytes s) = some (str s)
    convert (kind_table t) = as_array (convert_table t none_left)
    convert (kind_array a) = as_array (convert_array 0 a none_left)
    convert kind_decimal = some null
    convert kind_void = none

    pub convert_table : Table → Entries ℕ → Option (Entries ℕ)
    convert_table no_entries map = some map
    convert_table (table_entry dangling f rest) map = none
    convert_table (table_entry (kept s) f rest) map = elim (convert f) [
      | none ↦ none
      | some v ↦ convert_table rest (put (php.key_of s) v map)
    ]

    pub convert_array : ℕ → Fields → Entries ℕ → Option (Entries ℕ)
    convert_array i no_fields map = some map
    convert_array i (field f rest) map = elim (convert f) [
      | none ↦ none
      | some v ↦ convert_array (suc i) rest (put (index i) v map)
    ]
