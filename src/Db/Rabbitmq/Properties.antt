-- ===== src/Db/Rabbitmq/Properties.antt =====
-- The properties of a message: `produce_wk` of src/flame/db/rabbitmq/client_implement.cpp makes
-- them of the options, `init_property` of message.cpp reads them.
pub mod Carried
use php_flame.Prelude.{
  ℕ, ◌+◌, ◌-◌, ◌*◌, ◌/◌, ◌%◌, ◌^◌, ◌≤◌, ◌<◌, ◌≡◌, refl, ap, ◌∙◌, Bool, true, false, Option, none,
  some, [], ◌∷◌, Bytes, codes, take, ltb, if◌then◌else◌, arith,
}
use php_flame.Db.Mysql.{Key, index, name}
use php_flame.Db.Redis.{same_key}
use php_flame.Db.Mongodb.{Value, null, boolean, long, double, str, array, Entries, none_left, entry}
use php_flame.Db.Rabbitmq.{Php, Table, no_entries, reset, convert_table, as_int64}
use php_flame.Db.Rabbitmq.Converted.{Fits, back_all, convert_table-reset}

-- `options.at(name)`: the value of a name.
unfoldable pub at : Bytes → Entries ℕ → Option (Value ℕ)
at s none_left = none
at s (entry k v rest) = let later = at s rest in if same_key (name s) k then some v else later

unfoldable pub if_string : Option (Value ℕ) → Option Bytes
if_string (some (str s)) = some s
if_string _ = none

-- The bytes of an unsigned number of `2 ^ w` values, of an integer.
unfoldable pub wrapped : ℕ → Bool → ℕ → ℕ
wrapped values false n = n % values
wrapped values true n = (values - n % values) % values

unfoldable pub if_long : ℕ → Option (Value ℕ) → Option ℕ
if_long values (some (long negative n)) = some (wrapped values negative n)
if_long values _ = none

unfoldable pub or_now : ℕ → Option ℕ → ℕ
or_now now (some n) = n
or_now now none = now / 1000

unfoldable pub if_table : Php → Option (Value ℕ) → Option Table
if_table php (some (array map)) = some (reset php map)
if_table php _ = none

-- amqp_basic_properties_t: a field is none where its flag is not set.
pub record Properties : Type 0 where
  pub content_type : Option Bytes
  pub content_encoding : Option Bytes
  pub headers : Option Table
  pub delivery_mode : Option ℕ
  pub priority : Option ℕ
  pub correlation_id : Option Bytes
  pub reply_to : Option Bytes
  pub expiration : Option Bytes
  pub timestamp : Option ℕ
  pub message_id : Option Bytes
  pub type : Option Bytes
  pub user_id : Option Bytes
  pub app_id : Option Bytes
  pub cluster_id : Option Bytes

-- Without options, only the time is set. The time is in milliseconds.
unfoldable pub properties : Php → ℕ → Option (Entries ℕ) → Properties
properties php now none = record {
  content_type = none;
  content_encoding = none;
  headers = none;
  delivery_mode = none;
  priority = none;
  correlation_id = none;
  reply_to = none;
  expiration = none;
  timestamp = some (now / 1000);
  message_id = none;
  type = none;
  user_id = none;
  app_id = none;
  cluster_id = none;
}
properties php now (some options) = record {
  content_type = if_string (at (codes "content_type") options);
  content_encoding = if_string (at (take 12 (codes "content_encoding")) options);
  headers = if_table php (at (codes "headers") options);
  delivery_mode = if_long 256 (at (codes "delivery_mode") options);
  priority = if_long 256 (at (codes "priority") options);
  correlation_id = if_string (at (codes "correlation_id") options);
  reply_to = if_string (at (codes "reply_to") options);
  expiration = if_string (at (codes "expiration") options);
  timestamp = some (or_now now (if_long (2 ^ 64) (at (codes "timestamp") options)));
  message_id = if_string (at (codes "message_id") options);
  type = if_string (at (codes "type") options);
  user_id = if_string (at (codes "user_id") options);
  app_id = if_string (at (codes "app_id") options);
  cluster_id = if_string (at (codes "cluster_id") options);
}

-- The properties of the object, and `ts_`.
pub record Message : Type 0 where
  pub content_type : Bytes
  pub content_encoding : Bytes
  pub headers : Entries ℕ
  pub delivery_mode : ℕ
  pub priority : ℕ
  pub correlation_id : Bytes
  pub reply_to : Bytes
  pub expiration : Bytes
  pub message_id : Bytes
  pub ts : Value ℕ
  pub type : Bytes
  pub user_id : Bytes
  pub app_id : Bytes
  pub cluster_id : Bytes

-- librabbitmq fills a property that a message does not have with zeros.
unfoldable pub or_empty : Option Bytes → Bytes
or_empty none = []
or_empty (some s) = s

unfoldable pub or_zero : Option ℕ → ℕ
or_zero none = 0
or_zero (some n) = n

unfoldable pub or_no_entries : Option Table → Table
or_no_entries none = no_entries
or_no_entries (some t) = t

unfoldable pub message_of : Properties → Entries ℕ → Message
message_of p headers = record {
  content_type = or_empty p.content_type;
  content_encoding = or_empty p.content_encoding;
  headers = headers;
  delivery_mode = or_zero p.delivery_mode;
  priority = or_zero p.priority;
  correlation_id = or_empty p.correlation_id;
  reply_to = or_empty p.reply_to;
  expiration = or_empty p.expiration;
  message_id = or_empty p.message_id;
  ts = as_int64 (or_zero p.timestamp);
  type = or_empty p.type;
  user_id = or_empty p.user_id;
  app_id = or_empty p.app_id;
  cluster_id = or_empty p.cluster_id;
}

unfoldable pub with_headers : Properties → Option (Entries ℕ) → Option Message
with_headers p none = none
with_headers p (some headers) = some (message_of p headers)

-- `init_property`; none where the conversion of the headers aborts.
unfoldable pub init_property : Php → Properties → Option Message
init_property php p = with_headers p (convert_table php (or_no_entries p.headers) none_left)
