-- ===== src/Db/Rabbitmq/Clients.antt =====
-- src/flame/db/rabbitmq/consumer.cpp and producer.cpp: the parameters of a consumer and of a
-- producer, and the requests that they queue. `connects` is what `parse_url` and `connect` do.
use php_flame.Prelude.{
  ℕ, ◌≡◌, refl, ap, Bool, true, false, not, ◌&&◌, ◌||◌, Option, none, some, List, [], ◌∷◌, Outcome,
  returns, throws, ◌>>◌, if◌then◌else◌, Bytes, codes,
}
use php_flame.Db.Mongodb.{Value, null, str, array, Entries, none_left, entry}
use php_flame.Db.Rabbitmq.Properties.{at}

unfoldable pub is_string : Value ℕ → Bool
is_string (str s) = true
is_string _ = false

unfoldable pub is_array : Value ℕ → Bool
is_array (array row) = true
is_array _ = false

-- PHP's `empty` and conversions of values.
pub record Conversions : Type 0 where
  pub is_empty : Option (Value ℕ) → Bool
  pub to_string : Value ℕ → Bytes
  pub to_int : Value ℕ → ℕ

unfoldable pub prefetch_of : Conversions → Option (Value ℕ) → ℕ
prefetch_of php none = 1
prefetch_of php (some v) = php.to_int v

-- The queues of the loop over an array.
unfoldable pub queues_of : Conversions → Entries ℕ → List Bytes
queues_of php none_left = []
queues_of php (entry k v rest) = php.to_string v ∷ queues_of php rest

unfoldable pub queues_in : Conversions → Value ℕ → List Bytes
queues_in php (array row) = queues_of php row
queues_in php (str s) = s ∷ []
queues_in php _ = []

-- `opt_no_local`, `opt_no_ack`, `opt_exclusive`, `opt_prefetch` and the queues subscribed to.
pub record Consumer : Type 0 where
  pub no_local : Bool
  pub no_ack : Bool
  pub exclusive : Bool
  pub prefetch : ℕ
  pub queues : List Bytes

unfoldable pub configured : Conversions → Value ℕ → Value ℕ → Consumer
configured php (array options) queue = record {
  no_local = not (php.is_empty (at (codes "no_local") options));
  no_ack = not (php.is_empty (at (codes "no_ack") options));
  exclusive = not (php.is_empty (at (codes "exclusive") options));
  prefetch = prefetch_of php (at (codes "prefetch") options);
  queues = queues_in php queue;
}
configured php _ queue = record {
  no_local = false;
  no_ack = false;
  exclusive = false;
  prefetch = 1;
  queues = [];
}

-- The guard's last line is true of arrays only.
unfoldable pub refuses : Value ℕ → Value ℕ → Value ℕ → Bool
refuses url options queue =
    not (is_string url) || not (is_array options) || (is_array queue && not (is_string queue))

unfoldable pub construct_consumer :
    Conversions → (Value ℕ → Outcome (Unit {0})) → List (Value ℕ) → Outcome Consumer
construct_consumer php connects (url ∷ options ∷ queue ∷ more) =
    if refuses url options queue
    then throws "failed to create rabbitmq consumer, wrong parameters"
    else connects url >> returns (configured php options queue)
construct_consumer php connects _ = throws "failed to create rabbitmq consumer, wrong parameters"

-- The body, the key and the options of a request of `produce`; a body that is missing is null.
unfoldable pub with_options : Value ℕ → Value ℕ → List (Value ℕ) → Outcome (List (Value ℕ))
with_options body key [] = returns (body ∷ key ∷ [])
with_options body key (options ∷ more) =
    if is_array options
    then returns (body ∷ key ∷ options ∷ [])
    else throws "produce failed: options must be an array"

unfoldable pub with_key : Value ℕ → List (Value ℕ) → Outcome (List (Value ℕ))
with_key body [] = returns (body ∷ [])
with_key body (key ∷ more) =
    if is_string key
    then with_options body key more
    else throws "produce failed: routing key must be a string"

unfoldable pub produce : List (Value ℕ) → Outcome (List (Value ℕ))
produce [] = returns (null ∷ [])
produce (body ∷ more) =
    if is_string body
    then with_key body more
    else throws "produce failed: message body must be a string"

refused_anyway : (a b : Bool) → (not a || not b || true) ≡ true
refused_anyway true true = refl
refused_anyway true false = refl
refused_anyway false b = refl

-- The queues of a consumer given as an array are refused, before anything is connected.
pub construct_consumer-array :
    (php : Conversions) (connects : Value ℕ → Outcome (Unit {0})) (url options : Value ℕ)
    (queues : Entries ℕ) (more : List (Value ℕ))
    → construct_consumer php connects (url ∷ options ∷ array queues ∷ more)
      ≡ throws "failed to create rabbitmq consumer, wrong parameters"
unfolding construct_consumer refuses is_array is_string
construct_consumer-array php connects url options queues more =
    ap
      (λ b.
        if b
        then throws "failed to create rabbitmq consumer, wrong parameters"
        else connects url >> returns (configured php options (array queues)))
      (refused_anyway (is_string url) (is_array options))
