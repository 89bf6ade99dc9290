-- ===== src/Db/Rabbitmq/Connection/Refined.antt =====
-- The connection as its users see it: open until an answer of the broker is lost.
use php_flame.Prelude.{
  ℕ, zero, ◌≡◌, ◌≢◌, refl, sym, ap, subst, ◌∙◌, Bool, true, false, not, Option, none, some, List,
  [], ◌∷◌, ◌==◌, if◌then◌else◌, suc, Bool-cases, inl, inr, arith,
}
use php_flame.Db.Rabbitmq.Connection.{
  opened, null, armed, closing, Link, normal, library_exception, server_exception, reset_timer,
  reset_timer_in, destroy, destroy_in, with_rv, Work, produce_wk, flush_wk, consume_wk,
  confirm_message_wk, reject_message_wk, destroy_message_wk, timer_wk, destroy_wk, sends_on,
  unless_closed, flush_on, consume_on, beat_on, work_on, Resume, with_null, with_message,
  already_closed, server_failed, failed_with, not_yet, error_cb, consume_cb, call_back, consed, run,
}

-- How a number is reported: success, the server's failure, a lost connection, or that error.
unfoldable pub reported : ℕ → Resume
reported zero = with_null
reported (suc zero) = server_failed
reported (suc (suc zero)) = already_closed
reported (suc (suc (suc n))) = failed_with (suc (suc (suc n)))

-- How a consumption that fails is reported: a timeout by null, and no error by nothing.
unfoldable pub reported_consume : Bool → ℕ → Resume
reported_consume true e = with_null
reported_consume false zero = not_yet
reported_consume false (suc e) = reported (suc e)

error_cb-reported : (n : ℕ) → error_cb n ≡ reported n
unfolding error_cb reported
error_cb-reported zero = refl
error_cb-reported (suc zero) = refl
error_cb-reported (suc (suc zero)) = refl
error_cb-reported (suc (suc (suc n))) = ground arith

consume_cb-reported : (t e : ℕ) → consume_cb t e ≡ reported_consume (e == t) e
unfolding consume_cb reported_consume reported
consume_cb-reported t e = by (e == t) e
  where
    by :
        (b : Bool) (e : ℕ)
        → (if b
            then with_null
            else if e == 0
            then not_yet
            else if e == 2
            then already_closed
            else if e == 1
            then server_failed
            else failed_with e)
          ≡ reported_consume b e
    by true e = refl
    by false zero = refl
    by false (suc zero) = refl
    by false (suc (suc zero)) = refl
    by false (suc (suc (suc n))) = ground arith

-- A work's answer, while the connection is open.
unfoldable pub answer : ℕ → Work → Resume
answer t (produce_wk status) = reported status
answer t (flush_wk normal) = with_null
answer t (flush_wk (library_exception e)) = reported e
answer t (flush_wk server_exception) = server_failed
answer t (consume_wk normal) = not_yet
answer t (consume_wk (library_exception e)) = reported_consume (e == t) e
answer t (consume_wk server_exception) = server_failed
answer t (confirm_message_wk status) = reported status
answer t (reject_message_wk status) = reported status
answer t destroy_message_wk = with_message
answer t (timer_wk sent) = not_yet
answer t destroy_wk = not_yet

-- A work behind which the connection is lost for ever.
unfoldable pub loses : ℕ → Work → Bool
loses t (flush_wk (library_exception e)) = true
loses t (flush_wk server_exception) = true
loses t (consume_wk (library_exception e)) = not (e == t)
loses t (consume_wk server_exception) = true
loses t (timer_wk sent) = not sent
loses t destroy_wk = true
loses t _ = false

-- The answer on a lost connection; none where a message is confirmed or rejected.
unfoldable pub refusal : Work → Option Resume
refusal (produce_wk status) = some already_closed
refusal (flush_wk reply) = some already_closed
refusal (consume_wk reply) = some already_closed
refusal (confirm_message_wk status) = none
refusal (reject_message_wk status) = none
refusal destroy_message_wk = some with_message
refusal (timer_wk sent) = some not_yet
refusal destroy_wk = some not_yet

unfoldable pub then_answers : Option Resume → Option (List Resume) → Option (List Resume)
then_answers none rs = none
then_answers (some r) rs = consed r rs

unfoldable pub promised : ℕ → Bool → List Work → Option (List Resume)
promised t open_now [] = some []
promised t true (w ∷ works) = consed (answer t w) (promised t (not (loses t w)) works)
promised t false (w ∷ works) = then_answers (refusal w) (promised t false works)

abbrev pub open_link : Link
open_link = record { conn = opened; timer = armed }

abbrev pub lost_link : Link
lost_link = record { conn = null; timer = closing }

abbrev pub link_of : Bool → Link
link_of true = open_link
link_of false = lost_link

-- What a work does on an open connection: its number, for the callback.
abbrev Does : ℕ → Work → Type 0
Does t w =
    (rv : ℕ) × (work_on t w open_link ≡ some (rv, link_of (not (loses t w))))
    × (call_back t w rv ≡ answer t w)

module _ (t : ℕ) (not_0 : t ≢ 0) (not_1 : t ≢ 1) (not_2 : t ≢ 2) where
  consume_cb-0 : consume_cb t 0 ≡ not_yet
  unfolding consume_cb
  consume_cb-0 = ground arith

  consume_cb-1 : consume_cb t 1 ≡ server_failed
  unfolding consume_cb
  consume_cb-1 = ground arith

  consume_cb-2 : consume_cb t 2 ≡ already_closed
  unfolding consume_cb
  consume_cb-2 = ground arith

  consume-Does : (e : ℕ) → Does t (consume_wk (library_exception e))
  unfolding work_on unless_closed consume_on with_rv destroy destroy_in call_back answer loses
  consume-Does e = elim (Bool-cases (e == t)) [
    | inl f ↦ (e, rw f refl, consume_cb-reported t e)
    | inr f ↦ (e, rw f refl, consume_cb-reported t e)
  ]

  works-Does : (w : Work) → Does t w
  unfolding work_on sends_on unless_closed flush_on consume_on beat_on with_rv reset_timer
      reset_timer_in destroy destroy_in call_back error_cb answer loses
  works-Does (produce_wk status) = (status, refl, error_cb-reported status)
  works-Does (flush_wk normal) = (0, refl, refl)
  works-Does (flush_wk (library_exception e)) = (e, refl, error_cb-reported e)
  works-Does (flush_wk server_exception) = (1, refl, refl)
  works-Does (consume_wk normal) = (0, refl, consume_cb-0)
  works-Does (consume_wk (library_exception e)) = consume-Does e
  works-Does (consume_wk server_exception) = (1, refl, consume_cb-1)
  works-Does (confirm_message_wk status) = (status, refl, error_cb-reported status)
  works-Does (reject_message_wk status) = (status, refl, error_cb-reported status)
  works-Does destroy_message_wk = (0, refl, refl)
  works-Does (timer_wk true) = (0, refl, refl)
  works-Does (timer_wk false) = (0, refl, refl)
  works-Does destroy_wk = (0, refl, refl)

  run-work :
      (w : Work) (works : List Work) (l m : Link) {rv : ℕ} {r : Resume}
      → work_on t w l ≡ some (rv, m)
      → call_back t w rv ≡ r
      → run t (w ∷ works) l ≡ consed r (run t works m)
  unfolding run
  run-work w works l m {rv} {r} e c =
      subst
        (λ o.
          elim o [ none ↦ none | some (n, k) ↦ consed (call_back t w n) (run t works k) ]
          ≡ consed r (run t works m))
        (sym e) (ap (λ x. consed x (run t works m)) c)

  -- The works of the worker thread on a connection, open or lost, with their callbacks, are what a
  -- connection promises: while it is open, each work is answered by what the broker returned, an
  -- error by its number, and a consumption's timeout by null; a
  -- flush or a consumption that fails, but by its timeout, a heartbeat that is not sent and the
  -- destruction lose it for ever, and from then on every produce, flush and consume fails as
  -- closed, while confirming or rejecting a message is undefined. The number of a timeout is not
  -- one of the numbers that the code gives a meaning of its own.
  pub run-promised : (b : Bool) (works : List Work) → run t works (link_of b) ≡ promised t b works
  unfolding run promised work_on sends_on unless_closed beat_on with_rv destroy destroy_in call_back
      error_cb refusal then_answers
  run-promised b [] = refl
  run-promised true (w ∷ works) =
      let (rv, e, c) = works-Does w in
      run-work w works open_link (link_of (not (loses t w))) e c
      ∙ ap (consed (answer t w)) (run-promised (not (loses t w)) works)
  run-promised false (produce_wk status ∷ works) =
      ap (consed already_closed) (run-promised false works)
  run-promised false (flush_wk reply ∷ works) =
      ap (consed already_closed) (run-promised false works)
  run-promised false (consume_wk reply ∷ works) =
      ap (λ r. consed r (run t works lost_link)) consume_cb-2
      ∙ ap (consed already_closed) (run-promised false works)
  run-promised false (confirm_message_wk status ∷ works) = refl
  run-promised false (reject_message_wk status ∷ works) = refl
  run-promised false (destroy_message_wk ∷ works) =
      ap (consed with_message) (run-promised false works)
  run-promised false (timer_wk sent ∷ works) = ap (consed not_yet) (run-promised false works)
  run-promised false (destroy_wk ∷ works) = ap (consed not_yet) (run-promised false works)
