-- ===== src/Db/Mysql/Link/Client.antt =====
-- The client in the main thread: its requests, and the callbacks behind their work.
use php_flame.Prelude.{ℕ, suc, Bool, true, false, Option, none, List, [], ◌∷◌, ◌++◌}
use php_flame.Db.Mysql.Link.{
  Url, Code, number, is_error, Left, null, pointer, Work, connect_work, ping_work, query_work,
  one_work, two_work, Request, Link,
}

-- How a coroutine goes on: with a value, or by `fail`.
pub data Resume (R : Type 0) : Type 0 where
  sent : Left R → Resume R
  exception : Left R → Code → Resume R
  result_set : R → Resume R
  result_info : Left R → Left R → Resume R
  first_row : R → Resume R
  thrown : Left R → Code → Resume R

-- The client: the link, the URL, the requests before and behind their work, how often the ping
-- timer was started, the living result sets, and how coroutines went on, oldest first.
pub record Client (C R : Type 0) : Type 0 where
  pub link : Link C
  pub url : Option Url
  pub queue : List (Request R)
  pub done : List (Request R)
  pub timers : ℕ
  pub sets : List R
  pub resumed : List (Option ℕ × Resume R)

unfoldable pub request : {R : Type 0} → Work → Option ℕ → Left R → Request R
request work co sql = record { work = work; co = co; rv = null; sql = sql; code = number 0 }

module _ {C R : Type 0} where
  unfoldable pub connect_cb : Request R → Client C R → Client C R
  connect_cb q w = elim (is_error q.code) [
    | true ↦ record w { resumed = w.resumed ++ (q.co, thrown q.sql q.code) ∷ [] }
    | false ↦ record w { timers = suc w.timers; resumed = w.resumed ++ (q.co, sent q.rv) ∷ [] }
  ]

  -- `ping_cb`, of the work.
  unfoldable pub ping_cb : Request R → Client C R → Client C R
  ping_cb q w = record w { timers = suc w.timers }

  unfoldable pub default_in : Bool → Left R → Request R → Client C R → Client C R
  default_in true rv q w = record w { resumed = w.resumed ++ (q.co, exception q.sql q.code) ∷ [] }
  default_in false (pointer r) q w = record w {
    sets = r ∷ w.sets;
    resumed = w.resumed ++ (q.co, result_set r) ∷ [];
  }
  default_in false rv q w = record w { resumed = w.resumed ++ (q.co, result_info rv q.sql) ∷ [] }

  unfoldable pub default_cb : Request R → Client C R → Client C R
  default_cb q w = default_in (is_error q.code) q.rv q w

  -- `one_cb` uses the request again, to free the result; without an error and a result, it
  -- does nothing.
  unfoldable pub one_in : Bool → Left R → Request R → Client C R → Client C R
  one_in true rv q w = record w { resumed = w.resumed ++ (q.co, exception q.sql q.code) ∷ [] }
  one_in false (pointer r) q w = record w {
    resumed = w.resumed ++ (q.co, first_row r) ∷ [];
    queue = w.queue ++ record q { work = two_work } ∷ [];
  }
  one_in false rv q w = w

  unfoldable pub one_cb : Request R → Client C R → Client C R
  one_cb q w = one_in (is_error q.code) q.rv q w

  unfoldable pub call_back : Work → Request R → Client C R → Client C R
  call_back connect_work q w = connect_cb q w
  call_back ping_work q w = ping_cb q w
  call_back query_work q w = default_cb q w
  call_back one_work q w = one_cb q w
  call_back two_work q w = w

  -- `queue_work` of a new request.
  unfoldable pub asks : Work → Option ℕ → Left R → Client C R → Client C R
  asks work co sql w = record w { queue = w.queue ++ request work co sql ∷ [] }

  -- `~result_set` of the set at the front.
  unfoldable pub drops_set : R → List R → Client C R → Client C R
  drops_set r sets w = record w {
    sets = sets;
    queue = w.queue ++ record (request two_work none null) { rv = pointer r } ∷ [];
  }
