-- ===== src/Db/Redis/Link.antt =====
-- src/flame/db/redis.cpp: the connection of a client: connect(), its timer, the callbacks of
-- hiredis, close() and quit().
use php_flame.Prelude.{
  has_prefix, ℕ, zero, suc, ◌+◌, ◌≡◌, Bool, true, false, ◌&&◌, Option, none, some, List, [], ◌∷◌,
  ◌++◌, map, ltb, leb, ◌==◌, if◌then◌else◌, Bytes, codes, length,
}
use php_flame.Db.Mysql.{Value, signed}
use php_flame.Db.Redis.{
  Reply, until_nul, convert_redis_reply, Answer, resumed, resumed_void, failed, Checked, does,
  aborts, undefined,
}
use php_flame.Db.Redis.Commands.{Command, cb_default}

-- `connect_interval`: freed, stopped, or started with cb_connect_timeout or with cb_connect_interval.
pub data Timer : Type 0 where
  freed stopped connecting reconnecting : Timer

pub data LinkEffect : Type 0 where
  answers : ℕ → Answer → LinkEffect
  disconnects : ℕ → LinkEffect
  logs : LinkEffect

-- `context_` is the handle that hiredis gave, `connect_` the coroutine that waits in connect().
pub record Link : Type 0 where
  pub context : Option ℕ
  pub connect_ : Option ℕ
  pub timer : Timer
  pub effects : List LinkEffect

-- A php_url; what is missing is null.
pub record Url : Type 0 where
  pub scheme : Bytes
  pub host : Bytes
  pub port : ℕ
  pub user : Option Bytes
  pub pass : Option Bytes
  pub path : Option Bytes

unfoldable pub redis : Link
redis = record { context = none; connect_ = none; timer = stopped; effects = [] }

-- uv_timer_stop and uv_timer_start.
unfoldable pub restart : Timer → Timer → Checked Timer
restart freed next = undefined
restart _ next = does next

unfoldable pub with_timer : Checked Timer → Link → Checked Link
with_timer (does t) l = does (record l { timer = t })
with_timer aborts l = aborts
with_timer undefined l = undefined

-- `connect()` by what redisAsyncConnect gives: a handle, and whether its `err` is set. `current` is
-- coroutine::current, null in a callback of the loop, and `connect_->async` uses it.
unfoldable pub connect : ℕ → Bool → Option ℕ → Link → Checked Link
connect handle true current l =
    with_timer (restart l.timer reconnecting)
      (record l { context = some handle; effects = l.effects ++ logs ∷ [] })
connect handle false none l = undefined
connect handle false (some co) l = does (record l { context = some handle; connect_ = some co })

-- `connect` of PHP, behind the tests of its address.
unfoldable pub connect_start : ℕ → Bool → ℕ → Link → Checked Link
connect_start handle err current l = elim (connect handle err (some current) l) [
  | does m ↦ with_timer (restart m.timer connecting) m
  | aborts ↦ aborts
  | undefined ↦ undefined
]

-- The timer has fired, so that it is stopped.
unfoldable pub connect_again : Option ℕ → ℕ → Bool → Link → Checked Link
connect_again none handle err l = does l
connect_again (some c) handle err l = connect handle err none l

unfoldable pub cb_connect_interval : ℕ → Bool → Link → Checked Link
cb_connect_interval handle err l = connect_again l.context handle err (record l { timer = stopped })

unfoldable pub dropped : Option ℕ → Link → Checked Link
dropped none l = does l
dropped (some c) l = with_timer (restart l.timer reconnecting) l

-- `status` is REDIS_OK or not.
unfoldable pub cb_disconnect : Bool → Link → Checked Link
cb_disconnect ok l =
    dropped l.context (if ok then l else record l { effects = l.effects ++ logs ∷ [] })

-- `status` is 0 for REDIS_OK, or has the magnitude of a negative one; `errstr` is the handle's.
unfoldable pub connected : Option ℕ → ℕ → Bytes → Link → Link
connected (some co) zero errstr l = record l {
  connect_ = none;
  effects = l.effects ++ answers co resumed_void ∷ [];
}
connected (some co) (suc n) errstr l = record l {
  connect_ = none;
  effects = l.effects ++ answers co (failed (until_nul errstr) true (suc n)) ∷ [];
}
connected none zero errstr l = record l { connect_ = none }
connected none (suc n) errstr l = record l { connect_ = none; effects = l.effects ++ logs ∷ [] }

unfoldable pub cb_connect : ℕ → Bytes → Link → Link
cb_connect status errstr l = connected l.connect_ status errstr l

-- ETIMEDOUT is 110. Without a context, redisAsyncDisconnect gets a null pointer.
unfoldable pub timed_out : Option ℕ → Option ℕ → Link → Checked Link
timed_out none context l = does l
timed_out (some co) none l = undefined
timed_out (some co) (some handle) l = does (record l {
  context = none;
  connect_ = none;
  effects =
      l.effects
      ++ disconnects handle ∷ answers co (failed (codes "redis connect timeout") false 110) ∷ [];
})

unfoldable pub cb_connect_timeout : Link → Checked Link
cb_connect_timeout l = timed_out l.connect_ l.context (record l { timer = stopped })

unfoldable pub disconnected : Option ℕ → List LinkEffect
disconnected none = []
disconnected (some handle) = disconnects handle ∷ []

unfoldable pub close : Link → Link
close l = record l { context = none; timer = freed; effects = l.effects ++ disconnected l.context }

-- The command of quit(), whose callback is cb_quit.
unfoldable pub quit : List Bytes
quit = codes "QUIT" ∷ []

-- `cb_quit`, for the coroutine of its request; a missing reply is used as a null pointer.
unfoldable pub quit_with : ℕ → Option Value → Link → Checked Link
quit_with co none l = aborts
quit_with co (some v) l =
    does (record (close l) { effects = (close l).effects ++ answers co (resumed v) ∷ [] })

unfoldable pub cb_quit : ℕ → Option Reply → Link → Checked Link
cb_quit co none l = undefined
cb_quit co (some r) l = quit_with co (convert_redis_reply r) l

-- The address that `connect` makes of a host and a port, in `char cache[256]`.
unfoldable pub address : Bytes → Bool → ℕ → Checked Bytes
address host negative port =
    let text = codes "redis://" ++ until_nul host ++ 58 ∷ signed negative port ++ 47 ∷ [] in
    if ltb (length text) 256 then does text else undefined

unfoldable pub to_lower : ℕ → ℕ
to_lower c = if leb 65 c && leb c 90 then c + 32 else c

-- The tests of the parsed address: none is `illegal connection uri`.
unfoldable pub accepted : Option Url → Option Url
accepted none = none
accepted (some url) =
    if has_prefix (codes "redis") (map to_lower url.scheme)
    then some (record url { port = if url.port == 0 then 6379 else url.port })
    else none

-- The command that cb_connect_auth sends, none where the coroutine goes on at once.
unfoldable pub auth : Option Bytes → Option Bytes → Option Command
auth (some user) (some pass) = some (record {
  argv = codes "auth" ∷ until_nul pass ∷ [];
  key = until_nul pass ∷ [];
  callback = cb_default;
})
auth _ _ = none

unfoldable pub cb_connect_auth : Url → Option Command
cb_connect_auth url = auth url.user url.pass

-- `strlen(path) <= 1`, and the path without its slash.
unfoldable pub select : Option Bytes → Option Command
select none = none
select (some []) = none
select (some (c ∷ [])) = none
select (some (c ∷ d ∷ path)) = some (record {
  argv = codes "select" ∷ (d ∷ path) ∷ [];
  key = (d ∷ path) ∷ [];
  callback = cb_default;
})

unfoldable pub cb_connect_select : Url → Option Command
cb_connect_select url = select url.path

-- What happens to a client: the calls of PHP, the timer, and the callbacks of hiredis.
pub data Event : Type 0 where
  connects : ℕ → Bool → ℕ → Event
  fires : ℕ → Bool → Event
  drops : Bool → Event
  connect_ends : ℕ → Bytes → Event
  closes : Event
  quits : ℕ → Option Reply → Event

-- The callback of the timer that fires.
unfoldable pub fire : Timer → ℕ → Bool → Link → Checked Link
fire connecting handle err l = cb_connect_timeout l
fire reconnecting handle err l = cb_connect_interval handle err l
fire _ handle err l = does l

unfoldable pub handle_event : Event → Link → Checked Link
handle_event (connects handle err co) l = connect_start handle err co l
handle_event (fires handle err) l = fire l.timer handle err l
handle_event (drops ok) l = cb_disconnect ok l
handle_event (connect_ends status errstr) l = does (cb_connect status errstr l)
handle_event closes l = does (close l)
handle_event (quits co reply) l = cb_quit co reply l

-- The clients of the runs in which each step is defined.
pub data Reach : Link → Type 0 where
  created : Reach redis
  happens : {l m : Link} → Reach l → (event : Event) → handle_event event l ≡ does m → Reach m
