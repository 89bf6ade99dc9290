-- ===== src/Db/Mongodb.antt =====
-- src/flame/db/mongodb/mongodb.cpp: PHP values as BSON and back: `fill_with` and `from`. libbson
-- is modelled by its elements: what a bson_append function adds, and what an iterator finds.
pub mod Stored
use Prim.Native.String.{String}
use php_flame.Prelude.{
  ℕ, zero, suc, ◌≡◌, Bool, true, false, ◌&&◌, ◌||◌, Option, none, some, List, [], ◌∷◌, ◌++◌, ◌==◌,
  if◌then◌else◌, Bytes, codes, decimal_20, same,
}
use php_flame.Db.Mysql.{Key, index, name, key_text}
use php_flame.Db.Redis.{same_key, until_nul}

-- A PHP value by its type; `fill_with` leaves out those of any other. A number has its sign and its
-- magnitude; a double is what it is.
mutual
  pub data Value (D : Type 0) : Type 0 where
    undef : Value D
    null : Value D
    boolean : Bool → Value D
    long : Bool → ℕ → Value D
    double : D → Value D
    str : Bytes → Value D
    object_id : Bytes → Value D
    date_time : Bool → ℕ → Value D
    unknown_object : Value D
    array : Entries D → Value D

  pub data Entries (D : Type 0) : Type 0 where
    none_left : Entries D
    entry : Key → Value D → Entries D → Entries D

-- A BSON element by its type; `unsupported` stands for those that `from` gives no value for.
mutual
  pub data Bson (D : Type 0) : Type 0 where
    bson_null : Bson D
    bson_bool : Bool → Bson D
    bson_int32 : Bool → ℕ → Bson D
    bson_int64 : Bool → ℕ → Bson D
    bson_double : D → Bson D
    bson_utf8 : Bytes → Bson D
    bson_oid : Bytes → Bson D
    bson_date_time : Bool → ℕ → Bson D
    bson_array : Document D → Bson D
    bson_document : Document D → Bson D
    unsupported : Bson D

  pub data Document (D : Type 0) : Type 0 where
    no_more : Document D
    append : Bytes → Bson D → Document D → Document D

-- PHP's conversion of a double to an integer, and the key that an array has for a string.
pub record Php (D : Type 0) : Type 0 where
  pub to_int64 : D → Bool × ℕ
  pub key_of : Bytes → Key

module _ {D : Type 0} where
  -- `item.has(0)`
  unfoldable pub has_zero : Entries D → Bool
  has_zero none_left = false
  has_zero (entry (index n) v rest) = (n == 0) || has_zero rest
  has_zero (entry (name s) v rest) = has_zero rest

  -- `arr[key] = value`
  unfoldable pub put : Key → Value D → Entries D → Entries D
  put k v none_left = entry k v none_left
  put k v (entry j w rest) =
      let later = put k v rest in if same_key k j then entry j v rest else entry j w later

  module _ (php : Php D) where
    unfoldable mutual
      -- What the switch of `fill_with` appends.
      pub element : Value D → Bson D
      element undef = bson_null
      element null = bson_null
      element (boolean b) = bson_bool b
      element (long negative n) = bson_int64 negative n
      element (double d) = bson_int64 (php.to_int64 d).0 (php.to_int64 d).1
      element (str s) = bson_utf8 s
      element (object_id s) = bson_oid s
      element (date_time negative n) = bson_date_time negative n
      element unknown_object = bson_utf8 (codes "<unknown object>")
      element (array none_left) = bson_array no_more
      element (array (entry k v rest)) =
          let child = append (key_text k) (element v) (fill_with rest) in
          if has_zero (entry k v rest) then bson_array child else bson_document child

      pub fill_with : Entries D → Document D
      fill_with none_left = no_more
      fill_with (entry k v rest) = append (key_text k) (element v) (fill_with rest)

    unfoldable mutual
      pub from : Bson D → Value D
      from bson_null = null
      from (bson_bool b) = boolean b
      from (bson_int32 negative n) = long negative n
      from (bson_int64 negative n) = long negative n
      from (bson_double d) = double d
      from (bson_utf8 s) = str s
      from (bson_oid s) = object_id s
      from (bson_date_time negative n) = date_time negative n
      from (bson_array doc) = array (list_from 0 doc)
      from (bson_document doc) = array (fields_from doc none_left)
      from unsupported = undef

      -- The loop over an array: `a[x++]`.
      pub list_from : ℕ → Document D → Entries D
      list_from i no_more = none_left
      list_from i (append k b rest) = entry (index i) (from b) (list_from (suc i) rest)

      -- The loop over a document, also that of the other `fill_with`.
      pub fields_from : Document D → Entries D → Entries D
      fields_from no_more arr = arr
      fields_from (append k b rest) arr =
          fields_from rest (put (php.key_of (until_nul k)) (from b) arr)
