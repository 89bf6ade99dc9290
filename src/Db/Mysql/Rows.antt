-- ===== src/Db/Mysql/Rows.antt =====
-- The rows of a result: `sql_fetch_row` and `sql_fetch_all` of mysql.cpp, as result_implement.cpp
-- and `one_cb` of client.cpp call them. A result `R` of libmysqlclient is read by its functions.
pub mod Fetched
use php_flame.Prelude.{
  ℕ, zero, suc, ◌+◌, ◌-◌, ◌%◌, ◌^◌, Bool, true, false, Option, none, some, List, [], ◌∷◌, Bytes,
}
use php_flame.Db.Mysql.{Key, index, name, Value, array, str, Entries, none_left, entry}
use php_flame.Db.Redis.{put}

-- A column of a row: its bytes, or no bytes for NULL.
abbrev pub Row : Type 0
Row = List (Option Bytes)

-- `fetch_row` gives the next row, if there is one, and the result behind it; `php_string` is
-- PHP's string of a column.
pub record Results (R : Type 0) : Type 0 where
  pub fields : R → List Bytes
  pub fetch_row : R → Option Row × R
  pub php_string : Option Bytes → Bytes

-- MYSQL_FETCH_NUM or MYSQL_FETCH_ASSOC.
pub data Flag : Type 0 where
  fetch_num : Flag
  fetch_assoc : Flag

-- `++idx`, of an unsigned int.
unfoldable pub next_index : ℕ → ℕ
next_index idx = (idx + 1) % 2 ^ 32

module _ {R : Type 0} (results : Results R) (key_of : Bytes → Key) where
  -- The loops over the columns, from column `i` on, of as many columns as the result has fields.
  unfoldable pub fill_num : ℕ → List Bytes → Row → Entries → Entries
  fill_num i (field ∷ fields) (column ∷ row) rv =
      fill_num (suc i) fields row (put (index i) (str (results.php_string column)) rv)
  fill_num i _ _ rv = rv

  unfoldable pub fill_assoc : List Bytes → Row → Entries → Entries
  fill_assoc (field ∷ fields) (column ∷ row) rv =
      fill_assoc fields row (put (key_of field) (str (results.php_string column)) rv)
  fill_assoc _ _ rv = rv

  unfoldable pub fill : Flag → List Bytes → Row → Entries → Entries
  fill fetch_num fields row rv = fill_num 0 fields row rv
  fill fetch_assoc fields row rv = fill_assoc fields row rv

  unfoldable pub filled : Flag → List Bytes → Option Row × R → Entries → Entries × R
  filled flag fields (none, r) rv = (rv, r)
  filled flag fields (some row, r) rv = (fill flag fields row rv, r)

  -- `sql_fetch_row`, into a new array.
  unfoldable pub sql_fetch_row : Flag → R → Entries × R
  sql_fetch_row flag r = filled flag (results.fields r) (results.fetch_row r) none_left

  -- The loop of `sql_fetch_all` on the row that it fetched, with fuel for the rows and the end.
  unfoldable pub fetch_rows :
      ℕ → Flag → List Bytes → ℕ → Option Row × R → Entries → Option (Entries × R)
  fetch_rows zero flag fields idx next rv = none
  fetch_rows (suc fuel) flag fields idx (none, r) rv = some (rv, r)
  fetch_rows (suc fuel) flag fields idx (some row, r) rv =
      fetch_rows fuel flag fields (next_index idx) (results.fetch_row r)
        (put (index (next_index idx)) (array (fill flag fields row none_left)) rv)

  -- `idx` starts at -1.
  unfoldable pub sql_fetch_all : ℕ → Flag → R → Option (Entries × R)
  sql_fetch_all fuel flag r =
      fetch_rows fuel flag (results.fields r) (2 ^ 32 - 1) (results.fetch_row r) none_left
