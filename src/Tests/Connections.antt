-- ===== src/Tests/Connections.antt =====
-- src/flame/db/mysql: a database of one table, a client that asks it once, and rows of two columns.
use php_flame.Prelude.{
  ℕ, zero, suc, ◌+◌, ◌≡◌, refl, subst, Bool, true, false, Option, none, some, List, [], ◌∷◌, Bytes,
  codes, has_prefix, to_upper, if◌then◌else◌, returns, throws,
}
use php_flame.Db.Mysql.{name}
use php_flame.Db.Mysql.Link.{
  Url, Driver, text, number, is_error, Request, query_work, one_work, undefined, client_implement,
  work_on, connect_wk,
}
use php_flame.Db.Mysql.Link.Client.{Client, asks, request}
use php_flame.Db.Mysql.Link.Urls.{
  connect, connect_to, usable, usable_in, ported, with_port, refused-undefined,
}
use php_flame.Db.Mysql.Link.Sound.{HasPath, with_path, Reports, select, apart, to_query, Turn}
use php_flame.Db.Mysql.Link.Turns.{work_on-Turn}
use php_flame.Db.Mysql.Link.Answered.{
  total, answered, one_of, client, Reach, at_once, connects, ones, Kept,
}
use php_flame.Db.Mysql.Link.Kept.{Reach-Kept}
use php_flame.Db.Mysql.Link.Drained.{Reach-drains, Steps}
use php_flame.Db.Mysql.Rows.{Row, Row, Results}

abbrev outcome_of : Bool → Bool × ℕ
outcome_of b = if b then (true, 0) else (false, 1064)

-- A handle is the number of its last error. Only SELECTs are understood, and have a result.
abbrev database : Driver ℕ ℕ
database = record {
  init = 0;
  real_connect = λ url name c. (true, 0);
  autocommit = λ c. c;
  query = λ s c. outcome_of (has_prefix select s);
  store_result = λ c. (some 7, c);
  field_count = λ c. 2;
  affected_rows = λ c. 0;
  insert_id = λ c. 0;
  errno = λ c. c;
  error = λ c. codes "syntax";
}

fails : {d : ℕ} (b : Bool) → outcome_of b ≡ (false, d) → is_error (number d) ≡ true
unfolding is_error
fails true e = cc e
fails {d = d} false e =
    let number_is : 1064 ≡ d = cc e in subst (λ n. is_error (number n) ≡ true) number_is refl

database-Reports : Reports database
database-Reports = record {
  of_failure = λ {s} {c} {d} e. fails (has_prefix select s) e;
  of_no_rows = λ {s} {c} {d} {e} p q r. cc r;
}

abbrev url : Url
url = record {
  scheme = some (codes "mysql");
  host = some (codes "db");
  user = none;
  pass = none;
  path = some (codes "/shop");
  port = 0;
}

abbrev parse : Bytes → Option Url
parse s = some url

abbrev statement : Bytes
statement = codes "SELECT * FROM `t` LIMIT 1"

abbrev opening : Client ℕ ℕ
opening = (connect parse (some 4) (some []) (client database)).0

abbrev asking : Client ℕ ℕ
asking = asks one_work (some 5) (text statement) opening

asking-Reach : Reach database parse (some 5 ∷ some 4 ∷ []) asking
unfolding has_prefix connect connect_to usable usable_in to_upper
asking-Reach = ones (some 5) statement refl (connects (some 4) (some []) at_once refl)

Reach-Kept_example : Kept (some 5 ∷ some 4 ∷ []) asking
Reach-Kept_example = Reach-Kept database-Reports asking-Reach

has_path : HasPath asking.url
unfolding connect connect_to usable usable_in ported with_port has_prefix asks to_upper
has_path = with_path 47 (codes "shop") refl

Reach-drains_example :
    (v : Client ℕ ℕ) × Steps database asking v
    × (v.queue ≡ [])
    × (v.done ≡ [])
    × ((f : Option ℕ → ℕ) → total f (some 5 ∷ some 4 ∷ []) ≡ total (answered f) v.resumed)
    × (v.link.stored ≡ v.link.freed + total one_of v.sets)
Reach-drains_example = Reach-drains database-Reports asking-Reach has_path

abbrev querying : Request ℕ
querying = request query_work (some 5) (text statement)

work_on-Turn_example :
    Turn querying
      (client_implement database)
      (work_on database querying.work (some url) querying (client_implement database))
work_on-Turn_example =
    work_on-Turn database database-Reports querying (client_implement database)
      (with_path 47 (codes "shop") refl)
      (unfold client_implement in record { agree = apart; opened = refl })
      (unfold request in to_query)

abbrev no_path : Url
no_path = record url { path = none }

refused-undefined_example :
    let (v, outcome) = connect (λ s. some no_path) (some 4) (some []) (client database) in
    let (x, again) = connect (λ s. some no_path) (some 5) none v in
    (outcome ≡ throws "failed to parse mysql connection uri")
    × (v.queue ≡ (client database).queue)
    × (again ≡ returns tt)
    × (connect_wk database x.url querying (client_implement database) ≡ undefined)
refused-undefined_example =
    refused-undefined database (λ s. some no_path) (some 4) (some 5) [] no_path (client database)
      querying (client_implement database) refl refl

-- A result is how many of its two rows were read.
fetch : ℕ → Option Row × ℕ
fetch zero = (some (some (codes "1") ∷ some (codes "pen") ∷ []), 1)
fetch (suc zero) = (some (some (codes "2") ∷ none ∷ []), 2)
fetch n = (none, n)

abbrev table : Results ℕ
table = record {
  fields = λ r. codes "id" ∷ codes "name" ∷ [];
  fetch_row = fetch;
  php_string = λ column. elim column [ none ↦ [] | some s ↦ s ];
}

abbrev rows : List Row
rows = (some (codes "1") ∷ some (codes "pen") ∷ []) ∷ (some (codes "2") ∷ none ∷ []) ∷ []
