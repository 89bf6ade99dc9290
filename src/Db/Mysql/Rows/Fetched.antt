-- ===== src/Db/Mysql/Rows/Fetched.antt =====
-- The rows that are fetched, one by one and all together.
use php_flame.Prelude.{ℕ, suc, ◌≡◌, Option, none, some, List, [], ◌∷◌, Bytes, ◌==◌, if◌then◌else◌}
use php_flame.Db.Mysql.{Key, index, Value, array, str, Entries, none_left}
use php_flame.Db.Redis.{get, same_key}
use php_flame.Db.Mysql.Rows.{Row, Results, Flag, fetch_num, fetch_assoc, fill, sql_fetch_row}

-- The row of an index, from `i` on.
unfoldable pub row_at : ℕ → ℕ → List Row → Option Row
row_at k i [] = none
row_at k i (row ∷ rows) = if k == i then some row else row_at k (suc i) rows

unfoldable pub count : List Row → ℕ
count [] = 0
count (row ∷ rows) = suc (count rows)

unfoldable pub dropped : List Flag → List Row → List Row
dropped [] rows = rows
dropped (flag ∷ flags) [] = []
dropped (flag ∷ flags) (row ∷ rows) = dropped flags rows

unfoldable pub flags_count : List Flag → ℕ
flags_count [] = 0
flags_count (flag ∷ flags) = suc (flags_count flags)

-- What a row gives for a name: its last column of that name.
module _ {R : Type 0} (results : Results R) (key_of : Bytes → Key) where
  unfoldable pub named : Key → List Bytes → Row → Option Value → Option Value
  named k (field ∷ fields) (column ∷ row) before =
      named k fields row
        (if same_key k (key_of field) then some (str (results.php_string column)) else before)
  named k _ _ before = before

  -- What a row gives for a number: its column of that number, counted from `i`.
  unfoldable pub numbered : ℕ → ℕ → List Bytes → Row → Option Value → Option Value
  numbered k i (field ∷ fields) (column ∷ row) before =
      numbered k (suc i) fields row
        (if k == i then some (str (results.php_string column)) else before)
  numbered k i _ _ before = before

  -- The array of a row: under numbers with `fetch_num`, and under names with `fetch_assoc`.
  abbrev pub IsRow : Flag → List Bytes → Row → Entries → Type 0
  IsRow fetch_num fields row list = (k : ℕ) → get (index k) list ≡ numbered k 0 fields row none
  IsRow fetch_assoc fields row list = (k : Key) → get k list ≡ named k fields row none

  -- What a result still has, behind a fetch: rows, each under the same fields, and the result at
  -- their end.
  pub data Yields (fields : List Bytes) : Option Row × R → List Row → R → Type 0 where
    ends : {r : R} → Yields fields (none, r) [] r
    yields :
        {r t : R} {row : Row} {rows : List Row}
        → results.fields r ≡ fields
        → Yields fields (results.fetch_row r) rows t
        → Yields fields (some row, r) (row ∷ rows) t

  -- The array of a row, where there is a row.
  unfoldable pub given : Flag → List Bytes → Option Row → Option Value → Option Value
  given flag fields none before = before
  given flag fields (some row) before = some (array (fill results key_of flag fields row none_left))

  -- Calls of `fetch_row`, with these flags.
  unfoldable pub fetch_each : List Flag → R → List Entries × R
  fetch_each [] r = ([], r)
  fetch_each (flag ∷ flags) r =
      let (row, s) = sql_fetch_row results key_of flag r in
      let (rows, t) = fetch_each flags s in (row ∷ rows, t)

  unfoldable pub arrays : List Flag → List Bytes → List Row → List Entries
  arrays [] fields rows = []
  arrays (flag ∷ flags) fields [] = []
  arrays (flag ∷ flags) fields (row ∷ rows) =
      fill results key_of flag fields row none_left ∷ arrays flags fields rows
