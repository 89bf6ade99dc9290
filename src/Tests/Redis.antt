-- ===== src/Tests/Redis.antt =====
-- src/flame/db/redis.cpp: a HGETALL and a MGET, a transaction with an error, a subscription.
use php_flame.Prelude.{
  has_prefix, to_upper, ◌≡◌, refl, true, false, none, some, List, [], ◌∷◌, Bytes, codes, ◌++◌,
  returns, arith,
}
use php_flame.Db.Mysql.{Value, Entries, str, long, index, name, none_left, entry}
use php_flame.Db.Redis.{
  convert_redis_reply, Reply, reply_integer, reply_string, reply_array, reply_error, element,
  no_element, Php, Replies, resumed_void, does,
}
use php_flame.Db.Redis.Subscription.{
  Client, subscribe, receive, cb_subscribe, fetch, sends, answers,
}
use php_flame.Db.Redis.Pushes.{IsPhp, joins, came, leaves, reply_of, left, started}
use php_flame.Db.Redis.Resumption.{subscribe-resumes}
use php_flame.Db.Redis.Pushes
use php_flame.Db.Redis.Link.{Link, connecting, reconnecting}
use php_flame.Db.Redis.Commands.{call, reply_to, chosen}
use php_flame.Db.Redis.Pairs.{error_free, interleaved, ResumesWith, call-pairs}
use php_flame.Db.Redis.Values.{has_error, Made, Stands}

text : Value → Bytes
text (str s) = s
text v = []

abbrev php : Php
php = record { to_string = text; key_of = name }

-- A transaction with a reply that is an error.
abbrev exec_reply : Reply
exec_reply =
    reply_array (element (reply_integer false 1) (element (reply_error (codes "ERR")) no_element))

abbrev two_pairs : List (Bytes × Reply)
two_pairs = (codes "a", reply_string (codes "x")) ∷ (codes "b", reply_string (codes "y")) ∷ []

two_pairs-free : error_free two_pairs ≡ true
unfolding error_free has_error
two_pairs-free = refl

call-pairs_example :
    ResumesWith php two_pairs (
      reply_to php
        (call php (codes "hgetall") (str (codes "h") ∷ []))
        (some (reply_array (interleaved two_pairs none))))
    × ((r : Reply) → Made (Stands r) (convert_redis_reply r))
call-pairs_example =
    call-pairs php (codes "hgetall") (str (codes "h") ∷ []) two_pairs none
      (unfold call chosen to_upper has_prefix text in refl) two_pairs-free

php-IsPhp : IsPhp php
unfolding text
php-IsPhp = record { to_string-str = λ s. refl }

abbrev idle : Client
idle = record { current = none; store = []; effects = [] }

-- Two channels: a message comes, one channel is left, and then the other.
subscribe-resumes_example :
    let channels = codes "a" ∷ codes "b" ∷ [] in
    let pushes =
      joins (codes "a") 1
      ∷ joins (codes "b") 2
      ∷ came (codes "a") (codes "hi")
      ∷ leaves (codes "a") 1
      ∷ [] in
    (d : Client) × (e : Client) × (f : Client) × (subscribe 0 7 channels (some 3) idle ≡ returns d)
    × (receive php 0 (Pushes.replies_of pushes) d ≡ does e)
    × (e.current ≡ some 0)
    × (e.effects ≡ (sends (codes "SUBSCRIBE" ∷ channels) ∷ []) ++ started 3 pushes)
    × (cb_subscribe php 0 (some (reply_of (leaves (codes "b") 0))) e ≡ does f)
    × (f.current ≡ none)
    × (fetch 0 f.store ≡ none)
    × (f.effects ≡ e.effects ++ answers 7 resumed_void ∷ [])
subscribe-resumes_example =
    subscribe-resumes php php-IsPhp 7 3 (codes "a" ∷ codes "b" ∷ []) idle
      (joins (codes "a") 1
        ∷ joins (codes "b") 2
        ∷ came (codes "a") (codes "hi")
        ∷ leaves (codes "a") 1
        ∷ [])
      (codes "b") 0 refl (unfold left in refl) (omega arith)

abbrev two_left : Replies
two_left = element (reply_string (codes "a*")) (element (reply_integer false 1) no_element)

abbrev two_elements : Entries
two_elements = entry (index 1) (str (codes "a*")) (entry (index 2) (long false 1) none_left)

-- connect(), and the server answers.
abbrev waiting : Link
waiting = record { context = some 9; connect_ = some 7; timer = connecting; effects = [] }

-- The connection is dropped.
abbrev lost : Link
lost = record { context = some 9; connect_ = some 7; timer = reconnecting; effects = [] }
