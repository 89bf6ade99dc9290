-- ===== src/Db/Mysql/Link/Sound.antt =====
-- The connection and a request, before and behind a turn of the worker thread.
use php_flame.Prelude.{
  ℕ, suc, ◌+◌, ◌≡◌, Bool, true, false, Option, none, some, ◌∷◌, Bytes, codes, has_prefix,
}
use php_flame.Db.Mysql.Link.{
  Url, Driver, Left, null, text, pointer, Code, number, is_error, Work, connect_work, ping_work,
  query_work, one_work, two_work, Request, Handle, fresh, joined, Link, Ran, ran,
}

-- The flag and the handle agree.
pub data Agree {C : Type 0} : Bool → Handle C → Type 0 where
  apart : {c : C} → Agree false (fresh c)
  together : {c : C} → Agree true (joined c)

-- The handle is open: it was initialised once more than closed.
pub record Sound {C : Type 0} (l : Link C) : Type 0 where
  pub agree : Agree l.connected l.handle
  pub opened : l.inits ≡ suc l.closes

-- `url_` has a path, where there is a `url_`.
pub data HasPath : Option Url → Type 0 where
  no_url : HasPath none
  with_path : {u : Url} (slash : ℕ) (name : Bytes) → u.path ≡ some (slash ∷ name) → HasPath (some u)

unfoldable pub points : {R : Type 0} → Left R → ℕ
points (pointer r) = 1
points _ = 0

-- Every statement of `one` begins so.
abbrev pub select : Bytes
select = codes "SELECT * FROM `"

-- A request before its work: `work`, `rv`, `sql` and `code`.
pub data Waits {R : Type 0} : Work → Left R → Left R → Code → Type 0 where
  to_connect : Waits connect_work null null (number 0)
  to_ping : Waits ping_work null null (number 0)
  to_query : {s : Bytes} → Waits query_work null (text s) (number 0)
  to_select : {s : Bytes} → has_prefix select s ≡ true → Waits one_work null (text s) (number 0)
  to_free : {r : R} {sql : Left R} {code : Code} → Waits two_work (pointer r) sql code

-- A request behind its work: `work`, `rv` and `code`.
pub data Ends {R : Type 0} : Work → Left R → Code → Type 0 where
  of_connect : {rv : Left R} {code : Code} → points rv ≡ 0 → Ends connect_work rv code
  of_ping : {rv : Left R} {code : Code} → Ends ping_work rv code
  of_free : {rv : Left R} {code : Code} → Ends two_work rv code
  of_rows : {r : R} → Ends query_work (pointer r) (number 0)
  of_query : {rv : Left R} {code : Code} → points rv ≡ 0 → Ends query_work rv code
  of_row : {r : R} → Ends one_work (pointer r) (number 0)
  of_one :
      {rv : Left R} {code : Code} → is_error code ≡ true → points rv ≡ 0 → Ends one_work rv code

-- The results that a request holds behind its work.
unfoldable pub holds_in : {R : Type 0} → Work → Left R → ℕ
holds_in query_work rv = points rv
holds_in one_work rv = points rv
holds_in work rv = 0

-- The results that a request holds before its work.
unfoldable pub frees_in : Work → ℕ
frees_in two_work = 1
frees_in work = 0

abbrev pub req : {R : Type 0} → Work → Option ℕ → Left R → Left R → Code → Request R
req work co rv sql code = record { work = work; co = co; rv = rv; sql = sql; code = code }

abbrev pub at : {C : Type 0} → Bool → Handle C → ℕ → ℕ → ℕ → ℕ → Link C
at connected handle stored freed inits closes = record {
  connected = connected;
  handle = handle;
  stored = stored;
  freed = freed;
  inits = inits;
  closes = closes;
}

module _ {C R : Type 0} where
  -- What libmysqlclient documents: a failure has an error number, and a SELECT without a result
  -- is a failure.
  pub record Reports (driver : Driver C R) : Type 0 where
    pub of_failure :
        {s : Bytes} {c d : C}
        → driver.query s c ≡ (false, d)
        → is_error (number (driver.errno d)) ≡ true
    pub of_no_rows :
        {s : Bytes} {c d e : C}
        → has_prefix select s ≡ true
        → driver.query s c ≡ (true, d)
        → driver.store_result d ≡ (none, e)
        → is_error (number (driver.errno e)) ≡ true

  -- A turn on a request and a link, with what it leaves.
  pub data Turn (q : Request R) (l : Link C) : Ran (Request R × Link C) → Type 0 where
    turned :
        {p : Request R} {m : Link C}
        → Sound m
        → Ends p.work p.rv p.code
        → p.work ≡ q.work
        → p.co ≡ q.co
        → m.stored + (l.freed + frees_in q.work) ≡ l.stored + (m.freed + holds_in p.work p.rv)
        → Turn q l (ran (p, m))
