-- ===== src/Db/Mysql.antt =====
-- src/flame/db/mysql: the text of SQL that the client makes of PHP values: `val_to_buffer` and
-- `key_to_buffer` of client.cpp here, the clauses of mysql.cpp in Mysql/Clauses, the statements of
-- client.cpp in Mysql/Statements. Each function gives the bytes that it adds to the buffer.
pub mod Clauses
pub mod Statements
pub mod Where
pub mod Literals
pub mod Link
pub mod Rows
use Prim.Native.String.{String}
use php_flame.Prelude.{
  ℕ, Bool, true, false, List, [], ◌∷◌, ◌++◌, if◌then◌else◌, Bytes, codes, decimal_20,
}

-- A key of a PHP array: a number (a negative one is given as its text), or a string.
pub data Key : Type 0 where
  index : ℕ → Key
  name : Bytes → Key

-- A PHP value. `long` has its sign, `true` below 0, and its magnitude; `other` its text.
mutual
  pub data Value : Type 0 where
    null : Value
    boolean : Bool → Value
    long : Bool → ℕ → Value
    str : Bytes → Value
    array : Entries → Value
    other : Bytes → Value

  pub data Entries : Type 0 where
    none_left : Entries
    entry : Key → Value → Entries → Entries

-- PHP's conversions of values, and mysql_real_escape_string of the connection.
pub record Outside : Type 0 where
  pub escape : Bytes → Bytes
  pub to_long : Value → Bool × ℕ
  pub to_string : Value → Bytes

-- `%ld`
unfoldable pub signed : Bool → ℕ → Bytes
signed negative n = if negative then 45 ∷ decimal_20 n else decimal_20 n

unfoldable pub key_text : Key → Bytes
key_text (index n) = decimal_20 n
key_text (name s) = s

module _ (outside : Outside) where
  unfoldable mutual
    pub val_to_buffer : Value → Bytes
    val_to_buffer null = codes "NULL"
    val_to_buffer (boolean true) = codes "TRUE"
    val_to_buffer (boolean false) = codes "FALSE"
    val_to_buffer (str s) = 39 ∷ outside.escape s ++ 39 ∷ []
    val_to_buffer (long negative n) = signed negative n
    val_to_buffer (array row) = items_to_buffer true row ++ 41 ∷ []
    val_to_buffer (other s) = 39 ∷ outside.escape s ++ 39 ∷ []

    -- The loop over a row: its first turn adds a parenthesis, the others a comma.
    pub items_to_buffer : Bool → Entries → Bytes
    items_to_buffer first none_left = []
    items_to_buffer first (entry k v row) =
        (if first then 40 else 44) ∷ val_to_buffer v ++ items_to_buffer false row

-- A name between backticks.
unfoldable pub quoted : Bytes → Bytes
quoted s = 96 ∷ s ++ 96 ∷ []

unfoldable pub keys_to_buffer : Bool → Entries → Bytes
keys_to_buffer first none_left = []
keys_to_buffer first (entry k v map) =
    (if first then 40 else 44) ∷ quoted (key_text k) ++ keys_to_buffer false map

unfoldable pub key_to_buffer : Entries → Bytes
key_to_buffer map = keys_to_buffer true map ++ 41 ∷ []
