-- ===== src/Db/Mysql/Clauses.antt =====
-- src/flame/db/mysql/mysql.cpp: the clauses WHERE, ORDER BY and LIMIT.
use Prim.Native.String.{String}
use php_flame.Prelude.{
  ℕ, suc, Bool, true, false, ◌&&◌, ◌||◌, not, [], ◌∷◌, ◌++◌, ◌==◌, if◌then◌else◌, Bytes, codes,
  has_prefix,
}
use php_flame.Db.Mysql.{
  index, name, Value, null, long, str, array, Entries, none_left, entry, Outside, signed, key_text,
  val_to_buffer, quoted,
}

-- `undefined` is the use of a value that is no array as an array.
pub data Sql : Type 0 where
  sql : Bytes → Sql
  throws : String → Sql
  undefined : Sql

-- What the buffer has got, and then what is added.
abbrev pub before : Bytes → Sql → Sql
before b (sql s) = sql (b ++ s)
before b (throws e) = throws e
before b undefined = undefined

abbrev pub joins : Sql → Sql → Sql
joins (sql s) q = before s q
joins (throws e) q = throws e
joins undefined q = undefined

unfoldable pub starts_dollar : Bytes → Bool
starts_dollar [] = false
starts_dollar (c ∷ key) = c == 36

-- `cond.has(0)`
unfoldable pub has_zero : Entries → Bool
has_zero none_left = false
has_zero (entry (index n) v rest) = (n == 0) || has_zero rest
has_zero (entry (name s) v rest) = has_zero rest

-- The operators that a key can name; `plain` is the name of a field.
pub data Operator : Type 0 where
  plain and_all or_all gt gte lt lte ne in_list like illegal : Operator

-- The tests of the key, in the order of `condition_item`.
unfoldable pub operator_of : Bytes → Operator
operator_of key =
    if not (starts_dollar key)
    then plain
    else if has_prefix (codes "$and") key || has_prefix (codes "$AND") key
    then and_all
    else if has_prefix (codes "$or") key || has_prefix (codes "$OR") key
    then or_all
    else if has_prefix (codes "$gt") key
    then gt
    else if has_prefix (codes "$gte") key
    then gte
    else if has_prefix (codes "$lt") key
    then lt
    else if has_prefix (codes "$lte") key
    then lte
    else if has_prefix (codes "$ne") key
    then ne
    else if has_prefix (codes "$in") key
    then in_list
    else if has_prefix (codes "$like") key
    then like
    else illegal

module _ (outside : Outside) where
  abbrev value : Value → Bytes
  value v = val_to_buffer outside v

  unfoldable pub not_equal : Value → Bytes
  not_equal null = codes "IS NOT NULL"
  not_equal v = codes "!= " ++ value v

  unfoldable mutual
    pub condition : Operator → Bytes → Value → Sql
    condition plain key null = sql (quoted key ++ codes "IS NULL")
    condition plain key (array sub) =
        let nested = conditions [] true sub in
        if has_zero sub
        then sql (quoted key ++ codes " IN " ++ value (array sub))
        else before (quoted key) nested
    condition plain key v = sql (quoted key ++ 61 ∷ value v)
    condition and_all key (array sub) =
        joins (before (40 ∷ []) (conditions (codes " AND") true sub)) (sql (41 ∷ []))
    condition and_all key v = undefined
    condition or_all key (array sub) =
        joins (before (40 ∷ []) (conditions (codes " OR") true sub)) (sql (41 ∷ []))
    condition or_all key v = undefined
    condition gt key v = sql (62 ∷ value v)
    condition gte key v = sql (codes ">= " ++ value v)
    condition lt key v = sql (60 ∷ value v)
    condition lte key v = sql (codes "<= " ++ value v)
    condition ne key v = sql (not_equal v)
    condition in_list key v = sql (codes "IN " ++ value v)
    condition like key v = sql (codes "LIKE " ++ value v)
    condition illegal key v = throws "illegal sql where"

    -- The loops over conditions: each is `condition_item`, with the word between them.
    pub conditions : Bytes → Bool → Entries → Sql
    conditions word first none_left = sql []
    conditions word first (entry k v rest) =
        joins
          (before ((if first then [] else word) ++ 32 ∷ [])
            (condition (operator_of (key_text k)) (key_text k) v))
          (conditions word false rest)

  unfoldable pub condition_item : Bytes → Value → Sql
  condition_item key v = before (32 ∷ []) (condition (operator_of key) key v)

  unfoldable pub sql_where : Value → Sql
  sql_where (str s) = sql (codes " WHERE " ++ s)
  sql_where (array cond) =
      let made = before (codes " WHERE") (conditions (codes " AND") true cond) in
      if has_zero cond then throws "illegal sql where" else made
  sql_where null = sql []
  sql_where v = throws "illegal sql where"

  -- `dir > 0`
  unfoldable pub is_positive : Value → Bool
  is_positive v = let (negative, n) = outside.to_long v in not negative && not (n == 0)

  unfoldable pub order_items : Bool → Entries → Bytes
  order_items first none_left = []
  order_items first (entry k v rest) =
      (if first then [] else 44 ∷ [])
      ++ quoted (key_text k)
      ++ (if is_positive v then codes " ASC" else codes " DESC")
      ++ order_items false rest

  unfoldable pub sql_orderby : Value → Sql
  sql_orderby (str s) = sql (codes " ORDER BY " ++ s)
  sql_orderby (array sort) = sql (codes " ORDER BY " ++ order_items true sort)
  sql_orderby null = sql []
  sql_orderby v = throws "illegl sql order by"

  -- `limit[n]`, null where it is missing.
  unfoldable pub at : ℕ → Entries → Value
  at n none_left = null
  at n (entry (index m) v rest) = let later = at n rest in if m == n then v else later
  at n (entry (name s) v rest) = at n rest

  unfoldable pub count : Entries → ℕ
  count none_left = 0
  count (entry k v rest) = suc (count rest)

  unfoldable pub limit_pair : Bool × ℕ → Bool × ℕ → Bytes
  limit_pair (nx, x) (ny, y) = if y == 0 then signed nx x else signed nx x ++ 44 ∷ signed ny y

  unfoldable pub sql_limit : Value → Sql
  sql_limit (str s) = sql (codes " LIMIT " ++ s)
  sql_limit (long negative x) = sql (codes " LIMIT " ++ signed negative x)
  sql_limit (array limit) =
      let y : Bool × ℕ =
        if count limit == 0 || count limit == 1 then (false, 0) else outside.to_long (at 1 limit) in
      sql (codes " LIMIT " ++ limit_pair (outside.to_long (at 0 limit)) y)
  sql_limit v = throws "illegal sql limit"
