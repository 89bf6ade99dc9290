-- ===== src/Tests/Servers.antt =====
-- src/flame/net/server_acceptor.h and src/flame/db/kafka: a server with a failing connection, and a
-- consumption that times out.
use php_flame.Prelude.{ℕ, zero, suc, ◌≡◌, false, none, some, List, [], ◌∷◌}
use php_flame.Net.Acceptor.{
  Acceptor, no_handler, run, Event, handles, connects, closes, events, left, after, first_end,
  run-answers,
}
use php_flame.Db.Kafka.{Poll, nothing, partition_eof}

abbrev server : Acceptor
server = record { cb_type = no_handler; cb = 0; co = none; resumed = []; started = [] }

abbrev served : List Event
served = handles (some (3, false)) ∷ connects 0 0 ∷ connects 0 24 ∷ connects 0 0 ∷ closes ∷ []

run-answers_example :
    left (events served (run (some 4) 0 "" server).0) ≡ after (some 4) [] (first_end served)
run-answers_example = run-answers 4 "" served server

polls : ℕ → Poll
polls zero = nothing
polls (suc zero) = partition_eof
polls n = nothing

empties : ℕ → ℕ
empties zero = 1
empties (suc i) = 0
