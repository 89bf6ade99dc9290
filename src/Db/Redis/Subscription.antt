-- ===== src/Db/Redis/Subscription.antt =====
-- src/flame/db/redis.cpp: subscribe(), psubscribe(), what the server pushes for them, stop_all().
-- The requests stand in a store, in which `delete` leaves a hole: a pointer to one is its address.
use php_flame.Prelude.{
  has_prefix, ℕ, zero, suc, ◌+◌, ◌%◌, Bool, true, false, ◌&&◌, Option, none, some, List, [], ◌∷◌,
  ◌++◌, ◌==◌, if◌then◌else◌, Bytes, codes, length, Outcome, returns, throws,
}
use php_flame.Db.Mysql.{Value, null, index, Entries}
use php_flame.Db.Redis.{
  Reply, reply_array, reply_error, Php, until_nul, elements_from, get, Answer, resumed_void, failed,
  Checked, does, aborts, undefined,
}
use php_flame.Db.Redis.Commands.{illegal_reply}

-- redis_request_t: the coroutine, the count in `rv` (an int, of 32 bits), the callable, and `key`.
pub record Request : Type 0 where
  pub co : ℕ
  pub rv : ℕ
  pub cb : ℕ
  pub key : Bytes

-- A coroutine that was started on a callable, one that was resumed, or a command that was sent.
pub data Effect : Type 0 where
  starts : ℕ → Value → Value → Effect
  answers : ℕ → Answer → Effect
  sends : List Bytes → Effect

pub record Client : Type 0 where
  pub current : Option ℕ
  pub store : List (Option Request)
  pub effects : List Effect

unfoldable pub fetch : ℕ → List (Option Request) → Option Request
fetch p [] = none
fetch zero (r ∷ rest) = r
fetch (suc p) (r ∷ rest) = fetch p rest

unfoldable pub set : ℕ → Option Request → List (Option Request) → List (Option Request)
set p r [] = []
set zero r (_ ∷ rest) = r ∷ rest
set (suc p) r (x ∷ rest) = x ∷ set p r rest

unfoldable pub is_set : Option ℕ → Bool
is_set none = false
is_set (some p) = true

-- The uses of `*ctx`.
unfoldable pub with_request : Option Request → (Request → Client) → Checked Client
with_request none f = undefined
with_request (some r) f = does (f r)

-- The coroutine of the request is resumed, `current_` is reset and the request deleted.
unfoldable pub finish : ℕ → Answer → Client → Checked Client
finish p a c = with_request (fetch p c.store) (λ r. record {
  current = none;
  store = set p none c.store;
  effects = c.effects ++ answers r.co a ∷ [];
})

unfoldable pub delete : ℕ → Client → Checked Client
delete p c = with_request (fetch p c.store) (λ r. record c { store = set p none c.store })

-- `rv - 1` of an int.
unfoldable pub minus_one : ℕ → ℕ
minus_one n = (n + 4294967295) % 4294967296

unfoldable pub count_down : ℕ → Option Request → Client → Checked Client
count_down p none c = undefined
count_down p (some r) c =
    if minus_one r.rv == 0
    then finish p resumed_void c
    else does (record c { store = set p (some (record r { rv = minus_one r.rv })) c.store })

unfoldable pub unsubscribed : ℕ → Client → Checked Client
unsubscribed p c = count_down p (fetch p c.store) c

unfoldable pub or_null : Option Value → Value
or_null none = null
or_null (some v) = v

-- `rv[n]`
unfoldable pub at : ℕ → Entries → Value
at n row = or_null (get (index n) row)

unfoldable pub message : ℕ → Entries → Client → Checked Client
message p row c =
    with_request (fetch p c.store)
      (λ r. record c { effects = c.effects ++ starts r.cb (at 1 row) (at 2 row) ∷ [] })

unfoldable pub exec_request : ℕ → List Bytes → Request → Client → Outcome Client
exec_request zero argv r c = returns (record {
  current = some (length c.store);
  store = c.store ++ some r ∷ [];
  effects = c.effects ++ sends argv ∷ [];
})
exec_request (suc error) argv r c =
    throws "UNKONWN failed to send command (disconnected ? subscribed ?)"

-- The last parameter is the callable. `error` is the result of redisAsyncCommandArgv.
unfoldable pub subscribe : ℕ → ℕ → List Bytes → Option ℕ → Client → Outcome Client
subscribe error co channels none c =
    if is_set c.current
    then throws "failed to subscribe: already in progress"
    else throws "failed to subscribe: callback is required"
subscribe error co channels (some cb) c =
    if is_set c.current
    then throws "failed to subscribe: already in progress"
    else exec_request error (codes "SUBSCRIBE" ∷ channels)
        (record { co = co; rv = length channels % 4294967296; cb = cb; key = codes "UNSUBSCRIBE" })
        c

-- `unset` is the int of a php::value that has not been set.
unfoldable pub psubscribe : ℕ → ℕ → ℕ → List Bytes → Option ℕ → Client → Outcome Client
psubscribe unset error co patterns none c =
    if is_set c.current
    then throws "failed to psubscribe: already in progress"
    else throws "failed to psubscribe: callback is required"
psubscribe unset error co patterns (some cb) c =
    if is_set c.current
    then throws "failed to psubscribe: already in progress"
    else exec_request error (codes "PSUBSCRIBE" ∷ patterns)
        (record { co = co; rv = unset; cb = cb; key = codes "UNPSUBSCRIBE" }) c

-- The command of stop_all(), by the first key of the request of `current_`.
unfoldable pub send_key : ℕ → Option Request → Client → Checked (Outcome Client)
send_key error none c = undefined
send_key error (some r) c =
    if error == 0
    then does (returns (record c { effects = c.effects ++ sends (r.key ∷ []) ∷ [] }))
    else does (throws "UNKONWN failed to send command (disconnected ? subscribed ?)")

unfoldable pub stop_current : ℕ → ℕ → Option ℕ → Client → Checked (Outcome Client)
stop_current error n none c = does (returns c)
stop_current error zero (some p) c = send_key error (fetch p c.store) c
stop_current error (suc n) (some p) c =
    does (throws "failed to punsubscribe: cannot have parameters")

-- `stop_all`, by the number of its parameters.
unfoldable pub stop_all : ℕ → ℕ → Client → Checked (Outcome Client)
stop_all error n c = stop_current error n c.current c

module _ (php : Php) where
  -- The branches of cb_subscribe on the converted reply, by its first element.
  unfoldable pub pushed : ℕ → Option Entries → Client → Checked Client
  pushed p none c = aborts
  pushed p (some row) c =
      let type = php.to_string (at 0 row) in
      if has_prefix (codes "subscribe") type
      then does c
      else if has_prefix (codes "message") type
      then message p row c
      else if is_set c.current && has_prefix (codes "unsubscribe") type
      then unsubscribed p c
      else delete p c

  unfoldable pub cb_subscribe : ℕ → Option Reply → Client → Checked Client
  cb_subscribe p none c = finish p illegal_reply c
  cb_subscribe p (some (reply_error s)) c = finish p (failed (until_nul s) false 0) c
  cb_subscribe p (some (reply_array rs)) c = pushed p (elements_from 0 rs) c
  cb_subscribe p (some r) c = finish p illegal_reply c

  -- Replies, one after the other.
  unfoldable pub receive : ℕ → List Reply → Client → Checked Client
  receive p [] c = does c
  receive p (r ∷ replies) c = elim (cb_subscribe p (some r) c) [
    | does d ↦ receive p replies d
    | aborts ↦ aborts
    | undefined ↦ undefined
  ]
