-- ===== src/Db/Rabbitmq/Connection.antt =====
-- src/flame/db/rabbitmq/client_implement.cpp: the connection to the broker, which the worker
-- thread uses, its heartbeat timer, and the callbacks `error_cb` and `consume_cb`. What librabbitmq
-- returns is given with each work. Its error numbers are 0 or negative, and stand here as magnitudes.
pub mod Refined
use Prim.Native.String.{String}
use php_flame.Prelude.{
  ℕ, zero, suc, Bool, true, false, Option, none, some, List, [], ◌∷◌, Outcome, returns, throws,
  ◌==◌, if◌then◌else◌,
}

-- `conn_`: opened, null, or that of a connection destroyed behind a failed amqp_socket_open.
pub data Conn : Type 0 where
  opened : Conn
  null : Conn
  destroyed : Conn

pub data Timer : Type 0 where
  idle : Timer
  armed : Timer
  closing : Timer

pub record Link : Type 0 where
  pub conn : Conn
  pub timer : Timer

-- amqp_rpc_reply_t, with the error of an AMQP_RESPONSE_LIBRARY_EXCEPTION.
pub data Reply : Type 0 where
  normal : Reply
  library_exception : ℕ → Reply
  server_exception : Reply

-- What is done to a null connection, or to a closed timer, is undefined: none.
unfoldable pub reset_timer_in : Timer → Link → Option Link
reset_timer_in closing l = none
reset_timer_in _ l = some (record l { timer = armed })

unfoldable pub reset_timer : Link → Option Link
reset_timer l = reset_timer_in l.timer l

unfoldable pub destroy_in : Conn → Link → Option Link
destroy_in null l = some l
destroy_in opened l = some (record { conn = null; timer = closing })
destroy_in destroyed l = none

-- `destroy`, with either value of `close_channel`.
unfoldable pub destroy : Link → Option Link
destroy l = destroy_in l.conn l

unfoldable pub with_rv : ℕ → Option Link → Option (ℕ × Link)
with_rv rv none = none
with_rv rv (some l) = some (rv, l)

-- The exception of `connect`.
unfoldable pub refused_by : String → Option Link → Option (Link × Outcome (Unit {0}))
refused_by why none = none
refused_by why (some l) = some (l, throws why)

unfoldable pub accepted : Option Link → Option (Link × Outcome (Unit {0}))
accepted none = none
accepted (some l) = some (l, returns tt)

unfoldable pub on_channel : (ℕ → String) → Reply → Link → Option (Link × Outcome (Unit {0}))
on_channel error_string (library_exception e) l = refused_by (error_string e) (destroy l)
on_channel error_string server_exception l = refused_by "rabbitmq server failed" (destroy l)
on_channel error_string normal l = accepted (reset_timer l)

unfoldable pub on_login : (ℕ → String) → Reply → Reply → Link → Option (Link × Outcome (Unit {0}))
on_login error_string (library_exception e) channel l = refused_by (error_string e) (destroy l)
on_login error_string server_exception channel l = refused_by "rabbitmq server failed" (destroy l)
on_login error_string normal channel l = on_channel error_string channel l

-- `connect`, with the results of amqp_socket_open, amqp_login and amqp_channel_open.
unfoldable pub connect :
    (ℕ → String) → ℕ → Reply → Reply → Link → Option (Link × Outcome (Unit {0}))
connect error_string zero login channel l =
    on_login error_string login channel (record l { conn = opened })
connect error_string (suc e) login channel l =
    some (record l { conn = destroyed }, throws (error_string (suc e)))

-- A turn of the worker thread, with what librabbitmq returns in it.
pub data Work : Type 0 where
  produce_wk : ℕ → Work
  flush_wk : Reply → Work
  consume_wk : Reply → Work
  confirm_message_wk : ℕ → Work
  reject_message_wk : ℕ → Work
  destroy_message_wk : Work
  timer_wk : Bool → Work
  destroy_wk : Work

-- `amqp_basic_publish`, `amqp_basic_ack` or `amqp_basic_reject`, and the timer behind it.
unfoldable pub sends_on : Conn → ℕ → Link → Option (ℕ × Link)
sends_on opened status l = with_rv status (reset_timer l)
sends_on _ status l = none

-- The test of `conn_` before `produce_wk`, `flush_wk` and `consume_wk`.
unfoldable pub unless_closed : Conn → (Link → Option (ℕ × Link)) → Link → Option (ℕ × Link)
unless_closed null go l = some (2, l)
unless_closed opened go l = go l
unless_closed destroyed go l = none

unfoldable pub flush_on : Reply → Link → Option (ℕ × Link)
flush_on (library_exception e) l = with_rv e (destroy l)
flush_on server_exception l = with_rv 1 (destroy l)
flush_on normal l = with_rv 0 (reset_timer l)

module _ (status_timeout : ℕ) where
  unfoldable pub consume_on : Reply → Link → Option (ℕ × Link)
  consume_on (library_exception e) l =
      if e == status_timeout then some (e, l) else with_rv e (destroy l)
  consume_on server_exception l = with_rv 1 (destroy l)
  consume_on normal l = with_rv 0 (reset_timer l)

  -- The timer runs only where it is armed.
  unfoldable pub beat_on : Timer → Bool → Link → Option (ℕ × Link)
  beat_on armed true l = with_rv 0 (reset_timer l)
  beat_on armed false l = with_rv 0 (destroy l)
  beat_on _ sent l = some (0, l)

  -- What a work leaves in `rv`, and of the connection.
  unfoldable pub work_on : Work → Link → Option (ℕ × Link)
  work_on (produce_wk status) l = unless_closed l.conn (sends_on l.conn status) l
  work_on (flush_wk reply) l = unless_closed l.conn (flush_on reply) l
  work_on (consume_wk reply) l = unless_closed l.conn (consume_on reply) l
  work_on (confirm_message_wk status) l = sends_on l.conn status l
  work_on (reject_message_wk status) l = sends_on l.conn status l
  work_on destroy_message_wk l = some (0, l)
  work_on (timer_wk sent) l = beat_on l.timer sent l
  work_on destroy_wk l = with_rv 0 (destroy l)

-- How the coroutine goes on.
pub data Resume : Type 0 where
  with_null : Resume
  with_message : Resume
  already_closed : Resume
  server_failed : Resume
  failed_with : ℕ → Resume
  not_yet : Resume

unfoldable pub error_cb : ℕ → Resume
error_cb rv =
    if rv == 2
    then already_closed
    else if rv == 1
    then server_failed
    else if rv == 0
    then with_null
    else failed_with rv

-- A message is given to the coroutine behind the work that it queues, `destroy_message_wk`.
unfoldable pub consume_cb : ℕ → ℕ → Resume
consume_cb status_timeout rv =
    if rv == status_timeout
    then with_null
    else if rv == 0
    then not_yet
    else if rv == 2
    then already_closed
    else if rv == 1
    then server_failed
    else failed_with rv

unfoldable pub call_back : ℕ → Work → ℕ → Resume
call_back status_timeout (consume_wk reply) rv = consume_cb status_timeout rv
call_back status_timeout destroy_message_wk rv = with_message
call_back status_timeout (timer_wk sent) rv = not_yet
call_back status_timeout destroy_wk rv = not_yet
call_back status_timeout work rv = error_cb rv

-- Works in order, each with its callback.
unfoldable pub consed : Resume → Option (List Resume) → Option (List Resume)
consed r none = none
consed r (some rs) = some (r ∷ rs)

unfoldable pub run : ℕ → List Work → Link → Option (List Resume)
run status_timeout [] l = some []
run status_timeout (w ∷ works) l = elim (work_on status_timeout w l) [
  | none ↦ none
  | some (rv, m) ↦ consed (call_back status_timeout w rv) (run status_timeout works m)
]
