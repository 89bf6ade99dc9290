-- ===== src/Tests/Documents.antt =====
-- src/flame/db/mongodb/mongodb.cpp: a document with a list.
use php_flame.Prelude.{ℕ, same, ◌≡◌, refl, false, codes}
use php_flame.Db.Mysql.{index, name}
use php_flame.Db.Redis.{same_key, until_nul}
use php_flame.Db.Mongodb.{Value, long, str, array, none_left, entry, Php, element, from}
use php_flame.Db.Mongodb.Stored.{
  Plain, is_long, is_str, is_list, is_map, list_next, list_end, field, fields_end, lacks, joined,
  from-element,
}

abbrev php : Php ℕ
php = record { to_int64 = λ d. (false, d); key_of = name }

abbrev user : Value ℕ
user = array (
    entry (name (codes "id")) (long false 7)
      (entry (name (codes "tags")) (array (entry (index 0) (str (codes "a")) none_left)) none_left))

user-Plain : Plain php user
unfolding until_nul lacks joined same_key same
user-Plain = is_map (
    field refl refl refl (is_long false 7)
      (field refl refl refl (is_list (list_next (is_str (codes "a")) list_end)) fields_end))

from-element_example : from php (element php user) ≡ user
from-element_example = from-element php user-Plain
