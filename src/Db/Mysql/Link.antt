-- ===== src/Db/Mysql/Link.antt =====
-- src/flame/db/mysql/client_implement.cpp and the callbacks of client.cpp: the connection, the
-- functions `…_wk` that the worker thread runs, and the callbacks of the main thread behind them.
-- A request holds a coroutine by its number.
pub mod Client
pub mod Sound
pub mod Connecting
pub mod Turns
pub mod Answered
pub mod Working
pub mod Callbacks
pub mod Kept
pub mod Remaining
pub mod Drained
pub mod Urls
use Prim.Native.String.{String}
use php_flame.Prelude.{
  ℕ, zero, suc, ◌+◌, ◌≡◌, Bool, true, false, ◌&&◌, Option, none, some, List, [], ◌∷◌, ◌++◌, Outcome,
  returns, throws, if◌then◌else◌, leb, Bytes, codes, upper, has_prefix,
}

-- php_url of php::parse_url; a port that is missing is 0.
pub record Url : Type 0 where
  pub scheme : Option Bytes
  pub host : Option Bytes
  pub user : Option Bytes
  pub pass : Option Bytes
  pub path : Option Bytes
  pub port : ℕ

-- libmysqlclient on a handle `C` with results `R`. The flags of `real_connect` and `query` are
-- the tests of the code, `!= nullptr` and `== 0`.
pub record Driver (C R : Type 0) : Type 0 where
  pub init : C
  pub real_connect : Url → Bytes → C → Bool × C
  pub autocommit : C → C
  pub query : Bytes → C → Bool × C
  pub store_result : C → Option R × C
  pub field_count : C → ℕ
  pub affected_rows : C → ℕ
  pub insert_id : C → ℕ
  pub errno : C → ℕ
  pub error : C → Bytes

-- `code` of a request: -1, or an error number, 0 for none.
pub data Code : Type 0 where
  minus_one : Code
  number : ℕ → Code

unfoldable pub is_error : Code → Bool
is_error minus_one = true
is_error (number zero) = false
is_error (number (suc n)) = true

-- `rv` and `sql`: PHP values that the worker thread leaves for the main thread.
pub data Left (R : Type 0) : Type 0 where
  null : Left R
  text : Bytes → Left R
  integer : ℕ → Left R
  pointer : R → Left R

pub data Work : Type 0 where
  connect_work : Work
  ping_work : Work
  query_work : Work
  one_work : Work
  two_work : Work

pub record Request (R : Type 0) : Type 0 where
  pub work : Work
  pub co : Option ℕ
  pub rv : Left R
  pub sql : Left R
  pub code : Code

-- `mysql_`: initialised, connected, or closed by mysql_close.
pub data Handle (C : Type 0) : Type 0 where
  fresh : C → Handle C
  joined : C → Handle C
  closed : Handle C

-- `connected_` and `mysql_`, how many results were stored and freed, and how often `mysql_` was
-- initialised and closed.
pub record Link (C : Type 0) : Type 0 where
  pub connected : Bool
  pub handle : Handle C
  pub stored : ℕ
  pub freed : ℕ
  pub inits : ℕ
  pub closes : ℕ

-- What libmysqlclient does on a handle in the wrong state, or at an address near 0, is undefined.
pub data Ran (A : Type 0) : Type 0 where
  ran : A → Ran A
  undefined : Ran A

module _ {C R : Type 0} (driver : Driver C R) where
  unfoldable pub client_implement : Link C
  client_implement = record {
    connected = false;
    handle = fresh driver.init;
    stored = 0;
    freed = 0;
    inits = 1;
    closes = 0;
  }

  -- `mysql_errno` and `mysql_error`, as the failing branches keep them.
  unfoldable pub failed : C → Request R → Request R
  failed c q = record q { code = number (driver.errno c); sql = text (driver.error c) }

  -- The first lines of `connect_wk`: a second connection closes the first.
  unfoldable pub renewed_in : Bool → Handle C → Link C → Ran (Link C)
  renewed_in false h l = ran l
  renewed_in true closed l = undefined
  renewed_in true h l = ran (record l {
    connected = false;
    handle = fresh driver.init;
    closes = suc l.closes;
    inits = suc l.inits;
  })

  unfoldable pub renewed : Link C → Ran (Link C)
  renewed l = renewed_in l.connected l.handle l

  unfoldable pub joins : Bool × C → Request R → Link C → Request R × Link C
  joins (false, c) q l = (failed c q, record l { handle = fresh c })
  joins (true, c) q l = (q, record l { connected = true; handle = joined (driver.autocommit c) })

  -- mysql_real_connect is given `path + 1`: without a path, an address near 0.
  unfoldable pub connects_to :
      Url → Option Bytes → Handle C → Request R → Link C → Ran (Request R × Link C)
  connects_to url (some (slash ∷ name)) (fresh c) q l =
      ran (joins (driver.real_connect url name c) q l)
  connects_to url path h q l = undefined

  unfoldable pub connects : Option Url → Request R → Ran (Link C) → Ran (Request R × Link C)
  connects url q undefined = undefined
  connects none q (ran l) =
      ran (record q { rv = text (codes "failed to parse mysql connection uri") }, l)
  connects (some url) q (ran l) = connects_to url url.path l.handle q l

  unfoldable pub connect_wk : Option Url → Request R → Link C → Ran (Request R × Link C)
  connect_wk url q l = connects url q (renewed l)

  -- A result that was stored, and freed at once.
  unfoldable pub pinged : Option R × C → Link C → Link C
  pinged (none, c) l = record l { handle = joined c }
  pinged (some r, c) l = record l { handle = joined c; stored = suc l.stored; freed = suc l.freed }

  unfoldable pub pings : Bool × C → Link C → Link C
  pings (false, c) l = record l { handle = joined c }
  pings (true, c) l = pinged (driver.store_result c) l

  unfoldable pub ping_in : Bool → Handle C → Request R → Link C → Ran (Request R × Link C)
  ping_in false h q l = ran (q, l)
  ping_in true (joined c) q l = ran (q, pings (driver.query (codes "SELECT 1") c) l)
  ping_in true h q l = undefined

  unfoldable pub ping_wk : Request R → Link C → Ran (Request R × Link C)
  ping_wk q l = ping_in l.connected l.handle q l

  -- Behind mysql_store_result, in `query_wk`: rows, the numbers of an update, or an error.
  unfoldable pub queried : Option R × C → Request R → Link C → Request R × Link C
  queried (some r, c) q l =
      (record q { rv = pointer r }, record l { handle = joined c; stored = suc l.stored })
  queried (none, c) q l = elim (driver.field_count c) [
    | zero ↦ (
      record q { rv = integer (driver.affected_rows c); sql = integer (driver.insert_id c) },
      record l { handle = joined c },
    )
    | suc n ↦ (failed c q, record l { handle = joined c })
  ]

  -- Behind mysql_store_result, in `one_wk`.
  unfoldable pub fetched : Option R × C → Request R → Link C → Request R × Link C
  fetched (some r, c) q l =
      (record q { rv = pointer r }, record l { handle = joined c; stored = suc l.stored })
  fetched (none, c) q l = (failed c q, record l { handle = joined c })

  -- mysql_query, with what comes behind it.
  unfoldable pub runs :
      (Option R × C → Request R → Link C → Request R × Link C)
      → Bool × C
      → Request R
      → Link C
      → Request R × Link C
  runs after (false, c) q l = (failed c q, record l { handle = joined c })
  runs after (true, c) q l = after (driver.store_result c) q l

  unfoldable pub sql_of : Left R → Bytes
  sql_of (text s) = s
  sql_of _ = []

  unfoldable pub statement_in :
      (Option R × C → Request R → Link C → Request R × Link C)
      → Bool
      → Handle C
      → Request R
      → Link C
      → Ran (Request R × Link C)
  statement_in after false h q l =
      ran (record q { code = minus_one; sql = text (codes "mysql not connected") }, l)
  statement_in after true (joined c) q l = ran (runs after (driver.query (sql_of q.sql) c) q l)
  statement_in after true h q l = undefined

  unfoldable pub query_wk : Request R → Link C → Ran (Request R × Link C)
  query_wk q l = statement_in queried l.connected l.handle q l

  unfoldable pub one_wk : Request R → Link C → Ran (Request R × Link C)
  one_wk q l = statement_in fetched l.connected l.handle q l

  -- mysql_free_result of the pointer that a value holds.
  unfoldable pub frees_result : Left R → Request R → Link C → Ran (Request R × Link C)
  frees_result (pointer r) q l = ran (q, record l { freed = suc l.freed })
  frees_result rv q l = undefined

  -- `two_wk`, and `close_wk` of a result set, free the result of the request.
  unfoldable pub two_wk : Request R → Link C → Ran (Request R × Link C)
  two_wk q l = frees_result q.rv q l

  unfoldable pub work_on : Work → Option Url → Request R → Link C → Ran (Request R × Link C)
  work_on connect_work url q l = connect_wk url q l
  work_on ping_work url q l = ping_wk q l
  work_on query_work url q l = query_wk q l
  work_on one_work url q l = one_wk q l
  work_on two_work url q l = two_wk q l

  unfoldable pub destroy_in : Handle C → Link C → Ran (Link C)
  destroy_in closed l = undefined
  destroy_in h l = ran (record l { handle = closed; closes = suc l.closes })

  unfoldable pub destroy_wk : Link C → Ran (Link C)
  destroy_wk l = destroy_in l.handle l
