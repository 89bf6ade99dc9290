-- ===== src/Db/Kafka.antt =====
-- src/flame/db/kafka/consumer_implement.cpp: `consume_wk`, which polls librdkafka in the worker
-- thread. What a poll of 100 milliseconds gives is a parameter, by the number of the poll.
use php_flame.Prelude.{ℕ, zero, suc, ◌+◌, ◌*◌, ◌&&◌, Option, none, some, ltb, if◌then◌else◌}

-- A message, that may hold an error, by its number.
pub data Poll : Type 0 where
  nothing : Poll
  partition_eof : Poll
  message : ℕ → Poll

-- `outq_len` is what rd_kafka_outq_len gives, by the number of the test.
module _ (polls : ℕ → Poll) (outq_len : ℕ → ℕ) (timeout : ℕ) where
  -- The loop from the poll `i` on, which gives a message, or null for a timeout; none where the fuel ends.
  unfoldable pub consume_from : ℕ → ℕ → ℕ → Option (Option ℕ)
  consume_from zero i elapse = none
  consume_from (suc fuel) i elapse =
      let later = consume_from fuel (suc i) (elapse + 100) in
      elim (polls i) [
        | message m ↦ some (some m)
        | partition_eof ↦ later
        | nothing ↦ if ltb 0 timeout && ltb timeout (elapse + 100) then some none else later
      ]

  -- The second loop, from its test `i` on: it polls until the queue is empty.
  unfoldable pub drain_from : ℕ → ℕ → Option (Option ℕ) → Option (Option ℕ)
  drain_from zero i result = none
  drain_from (suc fuel) i result =
      let later = drain_from fuel (suc i) result in if ltb 0 (outq_len i) then later else result

  unfoldable pub drained : ℕ → Option (Option ℕ) → Option (Option ℕ)
  drained fuel none = none
  drained fuel (some result) = drain_from fuel 0 (some result)

  -- A negative timeout is none, as 0 is.
  unfoldable pub consume_wk : ℕ → Option (Option ℕ)
  consume_wk fuel = drained fuel (consume_from fuel 0 0)

  -- What ends the loop, at a poll.
  unfoldable pub stops : Poll → ℕ → Option (Option ℕ)
  stops (message m) i = some (some m)
  stops partition_eof i = none
  stops nothing i = if ltb 0 timeout && ltb timeout (100 * suc i) then some none else none
