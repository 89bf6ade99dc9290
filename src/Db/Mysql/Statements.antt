-- ===== src/Db/Mysql/Statements.antt =====
-- src/flame/db/mysql/client.cpp: the statements. The arguments are those of the PHP method, in
-- order; `undefined` is also the use of an argument that is not there.
use php_flame.Prelude.{Bool, true, false, List, [], ◌∷◌, ◌++◌, ◌==◌, if◌then◌else◌, Bytes, codes}
use php_flame.Db.Mysql.{
  Value, str, array, Entries, none_left, entry, Outside, key_text, val_to_buffer, quoted,
  key_to_buffer,
}
use php_flame.Db.Mysql.Clauses.{
  Sql, sql, throws, undefined, before, joins, has_zero, sql_where, sql_orderby, sql_limit,
}

module _ (outside : Outside) where
  abbrev value : Value → Bytes
  value v = val_to_buffer outside v

  -- The loop of `format`, with the arguments that no mark has taken.
  unfoldable pub format_from : Bytes → List Value → Sql
  format_from [] params = sql []
  format_from (c ∷ rest) [] =
      let after = format_from rest [] in if c == 63 then undefined else before (c ∷ []) after
  format_from (c ∷ rest) (v ∷ params) =
      let taken = format_from rest params in
      let kept = format_from rest (v ∷ params) in
      if c == 63 then before (value v) taken else before (c ∷ []) kept

  unfoldable pub format : List Value → Sql
  format (str text ∷ params) = format_from text params
  format params = throws "format string is required"

  -- The text that `query` sends.
  unfoldable pub query : List Value → Sql
  query (str text ∷ []) = sql text
  query (str text ∷ v ∷ params) = format (str text ∷ v ∷ params)
  query params = throws "sql string is required"

  unfoldable pub first_row : Value → Sql
  first_row (array row) = sql (key_to_buffer row ++ codes " VALUES " ++ value (array row))
  first_row v = undefined

  unfoldable pub insert_rows : Entries → Bytes
  insert_rows none_left = []
  insert_rows (entry k v rest) = 44 ∷ value v ++ insert_rows rest

  -- Many rows, if the array has the key 0, or one.
  unfoldable pub insert_data : Entries → Sql
  insert_data none_left =
      sql (key_to_buffer none_left ++ codes " VALUES " ++ value (array none_left))
  insert_data (entry k v rest) =
      if has_zero (entry k v rest)
      then joins (first_row v) (sql (insert_rows rest))
      else sql
          (key_to_buffer (entry k v rest) ++ codes " VALUES " ++ value (array (entry k v rest)))

  unfoldable pub insert : List Value → Sql
  insert (str table ∷ array map ∷ params) =
      before (codes "INSERT INTO " ++ quoted table ++ 32 ∷ []) (insert_data map)
  insert params = throws "table name and insert data array is required"

  -- ORDER BY and LIMIT, where they are given.
  unfoldable pub tail : List Value → Sql
  tail [] = sql []
  tail (order ∷ []) = sql_orderby outside order
  tail (order ∷ limit ∷ params) = joins (sql_orderby outside order) (sql_limit outside limit)

  unfoldable pub remove : List Value → Sql
  remove (str table ∷ cond ∷ params) =
      before (codes "DELETE FROM " ++ quoted table) (joins (sql_where outside cond) (tail params))
  remove params = throws "table name is required"

  unfoldable pub assignments : Bool → Entries → Bytes
  assignments first none_left = []
  assignments first (entry k v rest) =
      (if first then [] else 44 ∷ [])
      ++ quoted (key_text k)
      ++ 61 ∷ value v
      ++ assignments false rest

  unfoldable pub update_with : Bytes → Value → Bytes → List Value → Sql
  update_with table cond set params =
      before (codes "UPDATE " ++ quoted table ++ codes " SET " ++ set)
        (joins (sql_where outside cond) (tail params))

  unfoldable pub update : List Value → Sql
  update (str table ∷ cond ∷ []) = undefined
  update (str table ∷ cond ∷ str set ∷ params) = update_with table cond set params
  update (str table ∷ cond ∷ array map ∷ params) =
      update_with table cond (assignments true map) params
  update params = throws "table name and update is required"

  unfoldable pub one : List Value → Sql
  one (str table ∷ cond ∷ []) =
      joins (before (codes "SELECT * FROM " ++ quoted table) (sql_where outside cond))
        (sql (codes " LIMIT 1"))
  one (str table ∷ cond ∷ order ∷ params) =
      joins
        (before (codes "SELECT * FROM " ++ quoted table)
          (joins (sql_where outside cond) (sql_orderby outside order)))
        (sql (codes " LIMIT 1"))
  one params = throws "table name is required"

  unfoldable pub columns : Bool → Entries → Bytes
  columns first none_left = []
  columns first (entry k v rest) =
      (if first then [] else 44 ∷ []) ++ quoted (outside.to_string v) ++ columns false rest

  unfoldable pub column_list : Value → Bytes
  column_list (array cols) = columns true cols
  column_list (str s) = s
  column_list v = outside.to_string v

  unfoldable pub select_from : Bytes → Bytes → List Value → Sql
  select_from cols table [] = sql (codes "SELECT " ++ cols ++ codes " FROM " ++ quoted table)
  select_from cols table (cond ∷ params) =
      before (codes "SELECT " ++ cols ++ codes " FROM " ++ quoted table)
        (joins (sql_where outside cond) (tail params))

  unfoldable pub select : List Value → Sql
  select (str table ∷ []) = select_from (42 ∷ []) table []
  select (str table ∷ cols ∷ params) = select_from (column_list cols) table params
  select params = throws "table name is required"
