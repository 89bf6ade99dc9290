-- ===== src/Db/Mysql/Link/Kept.antt =====
-- What holds in every state of the client that calls and turns reach.
use Prim.Native.String.{String}
use php_flame.Prelude.{
  ℕ, ◌+◌, ◌≡◌, refl, subst, Bool, true, false, Option, none, some, List, [], ◌∷◌, Outcome, returns,
  throws, Bytes,
}
use php_flame.Db.Mysql.Link.{Url, Driver, null, connect_work, Request, client_implement}
use php_flame.Db.Mysql.Link.Client.{Client, asks}
use php_flame.Db.Mysql.Link.Urls.{connect}
use php_flame.Db.Mysql.Link.Sound.{apart, to_connect, to_query, to_select, frees_in, Reports}
use php_flame.Db.Mysql.Link.Turns.{ran-Turn}
use php_flame.Db.Mysql.Link.Answered.{
  total, asked_in, called, client, Step, works, calls, Reach, at_once, connects, refuses, queries,
  ones, pings, drops, turns, AllWait, AllEnd, holds, frees, asked, answered, one_of, Kept,
}
use php_flame.Db.Mysql.Link.Urls.{connect_to, usable, ported}
use php_flame.Db.Mysql.Link.Working.{asks-Kept, pings-Kept, drops-Kept, works-Kept}
use php_flame.Db.Mysql.Link.Callbacks.{call_back-Kept}

module _ {C R : Type 0} where
  called-Kept :
      {cos : List (Option ℕ)} {q : Request R} {rest : List (Request R)} (w : Client C R)
      → w.done ≡ q ∷ rest
      → Kept cos w
      → Kept cos (called q rest w)
  unfolding called total
  called-Kept {cos = cos} {q = q} {rest = rest} w e k =
      let all = subst AllEnd e k.ends in
      call_back-Kept q.co q.sql (record w { done = rest }) all.0
        (record {
          sound = k.sound;
          waits = k.waits;
          ends = all.1;
          balance =
              subst
                (λ x.
                  w.link.stored
                  ≡ w.link.freed + (total frees w.queue + (total holds x + total one_of w.sets)))
                e k.balance;
          answers = λ f.
              subst
                (λ x.
                  total f cos
                  ≡ total (asked f) w.queue + (total (asked f) x + total (answered f) w.resumed))
                e (k.answers f);
        })

  module _ {driver : Driver C R} (reports : Reports driver) where
    pub Step-Kept :
        {cos : List (Option ℕ)} {w v : Client C R} → Step driver w v → Kept cos w → Kept cos v
    Step-Kept {w = w} (works {q} e f) k =
        works-Kept w e
          (ran-Turn driver reports w.url q w.link k.sound (subst AllWait e k.waits).0 f) k
    Step-Kept {w = w} (calls e) k = called-Kept w e k

  -- A call of `connect`: accepted, and asked, or refused.
  data Accounted (co : Option ℕ) (cos : List (Option ℕ))
      : Client C R × Outcome (Unit {0}) → Type 0 where
    accepted : {v : Client C R} → Kept (co ∷ cos) v → Accounted co cos (v, returns tt)
    refused : {v : Client C R} {why : String} → Kept cos v → Accounted co cos (v, throws why)

  by_accepted :
      {co : Option ℕ} {cos : List (Option ℕ)} {v : Client C R}
      → Accounted co cos (v, returns tt)
      → Kept (co ∷ cos) v
  by_accepted (accepted k) = k

  by_refused :
      {co : Option ℕ} {cos : List (Option ℕ)} {v : Client C R} {why : String}
      → Accounted co cos (v, throws why)
      → Kept cos v
  by_refused (refused k) = k

  url-Kept :
      {cos : List (Option ℕ)} {url : Option Url} (w : Client C R)
      → Kept cos w
      → Kept cos (record w { url = url })
  url-Kept w k = record {
    sound = k.sound;
    waits = k.waits;
    ends = k.ends;
    balance = k.balance;
    answers = k.answers;
  }

  connecting-Kept :
      {cos : List (Option ℕ)} (co : Option ℕ) (w : Client C R)
      → Kept cos w
      → Kept (co ∷ cos) (asks connect_work co null w)
  connecting-Kept co w k =
      asks-Kept co w (λ n. unfold asked_in in refl) (unfold frees_in in refl) to_connect k

  connect-Accounted :
      {cos : List (Option ℕ)} (parse_url : Bytes → Option Url) (co : Option ℕ) (s : Option Bytes)
      (w : Client C R)
      → Kept cos w
      → Accounted co cos (connect parse_url co s w)
  unfolding connect connect_to
  connect-Accounted parse_url co none w k = accepted (connecting-Kept co w k)
  connect-Accounted {cos} parse_url co (some s) w k = by (parse_url s) (usable (parse_url s))
    where
      by :
          (url : Option Url) (b : Bool)
          → Accounted co cos (elim b [
            | true ↦ (asks connect_work co null (record w { url = ported url }), returns tt)
            | false ↦ (record w { url = url }, throws "failed to parse mysql connection uri")
          ])
      by url true = accepted (connecting-Kept co _ (url-Kept w k))
      by url false = refused (url-Kept w k)

  client-Kept : (driver : Driver C R) → Kept [] (client driver)
  unfolding client client_implement total
  client-Kept driver = record {
    sound = record { agree = apart; opened = refl };
    waits = tt;
    ends = tt;
    balance = refl;
    answers = λ f. refl;
  }

  -- Over every run of calls, of turns of the worker thread and of callbacks: the flag of the
  -- connection says whether the handle is connected; a handle is closed before it is initialised
  -- again; every result of the database is freed, or held by one request or result set; and every
  -- coroutine that asked waits on one request, or was resumed once for it. The library reports
  -- its errors.
  pub Reach-Kept :
      {driver : Driver C R} {parse_url : Bytes → Option Url} {cos : List (Option ℕ)}
      {w : Client C R}
      → Reports driver
      → Reach driver parse_url cos w
      → Kept cos w
  Reach-Kept {driver} reports at_once = client-Kept driver
  Reach-Kept {parse_url = parse_url} reports (connects {w} co url reach e) =
      by_accepted
        (subst (Accounted co _) e (connect-Accounted parse_url co url w (Reach-Kept reports reach)))
  Reach-Kept {parse_url = parse_url} reports (refuses {cos} {w} co url reach e) =
      by_refused (
        subst (Accounted co cos) e
          (connect-Accounted parse_url co url w (Reach-Kept reports reach)))
  Reach-Kept reports (queries {w} co s reach) =
      asks-Kept co w (λ n. unfold asked_in in refl) (unfold frees_in in refl) to_query
        (Reach-Kept reports reach)
  Reach-Kept reports (ones {w} co s e reach) =
      asks-Kept co w (λ n. unfold asked_in in refl) (unfold frees_in in refl) (to_select e)
        (Reach-Kept reports reach)
  Reach-Kept reports (pings {w} co reach) = pings-Kept co w (Reach-Kept reports reach)
  Reach-Kept reports (drops {w} before after r reach e) =
      drops-Kept before after r w e (Reach-Kept reports reach)
  Reach-Kept reports (turns reach step) = Step-Kept reports step (Reach-Kept reports reach)
