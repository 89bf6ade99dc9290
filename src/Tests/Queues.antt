-- ===== src/Tests/Queues.antt =====
-- src/flame/db/rabbitmq: a message with headers, and a connection that is lost.
use php_flame.Prelude.{ℕ, ◌≡◌, refl, true, false, some, List, [], ◌∷◌, map, codes, arith, same}
use php_flame.Db.Mysql.{name}
use php_flame.Db.Redis.{same_key}
use php_flame.Db.Mongodb.{boolean, long, double, str, array, Entries, none_left, entry}
use php_flame.Db.Mongodb.Stored.{joined, lacks}
use php_flame.Db.Rabbitmq.{Php}
use php_flame.Db.Rabbitmq.Converted.{has_kind, back, back_all, Fits, fits, fits_end}
use php_flame.Db.Rabbitmq.Connection.{
  Work, produce_wk, consume_wk, flush_wk, timer_wk, normal, library_exception, run,
}
use php_flame.Db.Rabbitmq.Connection.Refined.{link_of, promised, run-promised}
use php_flame.Db.Rabbitmq.Properties.{at, if_string, properties, Message, or_empty, init_property}
use php_flame.Db.Rabbitmq.Properties.Carried.{strings, names, positive, init_property-properties}

abbrev php : Php
php = record { truncated = λ n. 1; widened = λ n. n; key_of = name }

-- {"a": true, "x": 1.5}
abbrev headers : Entries ℕ
headers =
    entry (name (codes "a")) (boolean true)
      (entry (name (codes "x")) (double 4609434218613702656) none_left)

headers-Fits : Fits php none_left headers
unfolding lacks joined has_kind back same_key same
headers-Fits = fits refl refl refl (fits refl refl refl fits_end)

abbrev works : List Work
works =
    produce_wk 0
    ∷ consume_wk (library_exception 13)
    ∷ timer_wk true
    ∷ consume_wk (library_exception 7)
    ∷ produce_wk 0
    ∷ flush_wk normal
    ∷ []

run-promised_example : run 13 works (link_of true) ≡ promised 13 true works
run-promised_example =
    run-promised 13 (λ e. omega (arith, e)) (λ e. omega (arith, e)) (λ e. omega (arith, e)) true
      works

abbrev options : Entries ℕ
options = entry (name (codes "headers")) (array headers) (
    entry (name (codes "timestamp")) (long false 1500000000) (
      entry (name (codes "content_encoding")) (str (codes "gzip"))
        (entry (name (codes "type")) (str (codes "t")) none_left)))

init_property-properties_example :
    (m : Message) × (init_property php (properties php 0 (some options)) ≡ some m)
    × (m.headers ≡ back_all php headers)
    × (m.ts ≡ long false 1500000000)
    × (strings m ≡ map (λ k. or_empty (if_string (at k options))) names)
unfolding at same_key same
init_property-properties_example =
    init_property-properties php 0 options headers refl refl headers-Fits (positive (omega arith))
