-- ===== src/Net/Handler.antt =====
-- src/flame/net/http/server_handler.h: the routes of a handler and the session of a request. A PHP
-- callable is a number; the coroutines of a session run one after the other, and each step of the
-- session is the callback that coroutine::after has kept.
pub mod Routes
pub mod Sessions
use Prim.Native.String.{String}
use php_flame.Prelude.{
  ℕ, suc, ◌+◌, Bool, true, false, not, Option, none, some, List, [], ◌∷◌, ◌++◌, ◌==◌, Bytes, codes,
  Outcome, returns, throws,
}
use php_flame.Net.Request.{put, at}

-- `handle_` and the three other callables.
pub record Handler : Type 0 where
  pub handle_ : List (Bytes × ℕ)
  pub handle_before : Option ℕ
  pub handle_after : Option ℕ
  pub handle_default : ℕ

-- `__construct`, with the callable that does nothing.
unfoldable pub construct : ℕ → Handler
construct nothing = record {
  handle_ = [];
  handle_before = none;
  handle_after = none;
  handle_default = nothing;
}

-- A parameter is a callable or not.
unfoldable pub set_handler : Bytes → Bytes → Option ℕ → Handler → Outcome Handler
set_handler method path none h = throws "only callable can be used as handler"
set_handler method path (some cb) h =
    returns (record h { handle_ = put (method ++ path) cb h.handle_ })

-- `put`, `remove`, `post` and `get`, by their method.
pub data Method : Type 0 where
  put_ delete_ post_ get_ : Method

unfoldable pub method_name : Method → Bytes
method_name put_ = codes "PUT"
method_name delete_ = codes "DELETE"
method_name post_ = codes "POST"
method_name get_ = codes "GET"

unfoldable pub route : Method → Bytes → Option ℕ → Handler → Outcome Handler
route m path cb h = set_handler (method_name m) path cb h

unfoldable pub handle : Option ℕ → Handler → Outcome Handler
handle none h = throws "only callable can be used as handler"
handle (some cb) h = returns (record h { handle_default = cb })

unfoldable pub before : Option ℕ → Handler → Outcome Handler
before none h = throws "only callable can be used as handler"
before (some cb) h = returns (record h { handle_before = some cb })

unfoldable pub after : Option ℕ → Handler → Outcome Handler
after none h = throws "only callable can be used as handler"
after (some cb) h = returns (record h { handle_after = some cb })

-- A coroutine on a callable, with the third argument of `before` and `after`.
pub data Start : Type 0 where
  with_flag : ℕ → Bool → Start
  plain : ℕ → Start

-- The callback that the running coroutine has kept; `over` is behind `delete ctx`,
-- or behind an exception.
pub data Next : Type 0 where
  to_middle to_after to_finish over : Next

-- session_context_t, the coroutines that it has started, and how often it was deleted.
pub record Session : Type 0 where
  pub cb : ℕ
  pub next : Next
  pub starts : List Start
  pub deletes : ℕ

unfoldable pub on_session_finish : Session → Session
on_session_finish s = record s { next = over; deletes = suc s.deletes }

unfoldable pub after_in : Option ℕ → Handler → Session → Session
after_in none h s = on_session_finish s
after_in (some cb) h s = record s {
  next = to_finish;
  starts = s.starts ++ with_flag cb (not (s.cb == h.handle_default)) ∷ [];
}

unfoldable pub on_session_after : Handler → Session → Session
on_session_after h s = after_in h.handle_after h s

unfoldable pub on_session_middle : Session → Session
on_session_middle s = record s { next = to_after; starts = s.starts ++ plain s.cb ∷ [] }

unfoldable pub before_in : Option ℕ → Handler → Session → Session
before_in none h s = on_session_middle s
before_in (some cb) h s = record s {
  next = to_middle;
  starts = s.starts ++ with_flag cb (not (s.cb == h.handle_default)) ∷ [];
}

unfoldable pub on_session_before : Handler → Session → Session
on_session_before h s = before_in h.handle_before h s

unfoldable pub or_default : Option ℕ → ℕ → ℕ
or_default none cb = cb
or_default (some cb) _ = cb

-- `on_session`, for the method and the path of a request.
unfoldable pub on_session : Bytes → Bytes → Handler → Session
on_session method path h = on_session_before h (record {
  cb = or_default (at (method ++ path) h.handle_) h.handle_default;
  next = over;
  starts = [];
  deletes = 0;
})

-- The running coroutine has ended without an exception; `h` is the handler at this time.
unfoldable pub ended : Next → Handler → Session → Session
ended to_middle h s = on_session_middle s
ended to_after h s = on_session_after h s
ended to_finish h s = on_session_finish s
ended over h s = s

-- `close_cb` of the coroutine that runs: with an exception it stops the loop, and what follows is
-- never called.
unfoldable pub ends : Bool → Handler → Session → Session
ends true h s = record s { next = over }
ends false h s = ended s.next h s
