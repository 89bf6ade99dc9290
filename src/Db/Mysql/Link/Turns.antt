-- ===== src/Db/Mysql/Link/Turns.antt =====
-- Every turn of the worker thread is defined, and leaves a sound link.
use php_flame.Prelude.{
  ℕ, zero, suc, ◌≡◌, refl, subst, Bool, true, false, Option, none, some, Bytes, has_prefix, arith,
}
use php_flame.Db.Mysql.Link.{
  Url, Driver, Left, null, text, integer, Code, number, is_error, Work, connect_work, ping_work,
  query_work, one_work, two_work, Request, Handle, joined, Link, ran, connect_wk, query_wk, one_wk,
  two_wk, frees_result, pointer, work_on, failed, renewed, queried, fetched, runs, statement_in,
  sql_of,
}
use php_flame.Db.Mysql.Link.Sound.{
  Agree, apart, together, Sound, HasPath, no_url, points, select, Waits, to_connect, to_ping,
  to_query, to_select, to_free, of_free, of_rows, of_query, of_row, of_one, holds_in, frees_in, req,
  at, Reports, Turn, turned,
}
use php_flame.Db.Mysql.Link.Connecting.{connect-Turn, ping-Turn, connects-HasPath}

module _ {C R : Type 0} where
  module _ (driver : Driver C R) (co : Option ℕ) (m n : ℕ) where
    module _ (i j : ℕ) (o : i ≡ suc j) where
      module _ (s : Bytes) where
        abbrev to_run : Work → Request R
        to_run work = req work co null (text s) (number 0)

        module _ (c : C) where
          queried-Turn :
              (r : Option R × C)
              → Turn
                  (to_run query_work)
                  (at true (joined c) m n i j)
                  (ran (queried driver r (to_run query_work) (at true (joined c) m n i j)))
          unfolding queried failed frees_in holds_in points
          queried-Turn (some r, d) =
              turned (record { agree = together; opened = o }) of_rows refl refl (omega arith)
          queried-Turn (none, d) = by (driver.field_count d)
            where
              by :
                  (k : ℕ)
                  → Turn (to_run query_work) (at true (joined c) m n i j) (
                      ran (elim k [
                        | zero ↦ (
                          record (to_run query_work) {
                            rv = integer (driver.affected_rows d);
                            sql = integer (driver.insert_id d);
                          },
                          record (at true (joined c) m n i j) { handle = joined d },
                        )
                        | suc k ↦ (
                          failed driver d (to_run query_work),
                          record (at true (joined c) m n i j) { handle = joined d },
                        )
                      ]))
              by zero =
                  turned (record { agree = together; opened = o }) (of_query refl) refl refl refl
              by (suc k) =
                  turned (record { agree = together; opened = o }) (of_query refl) refl refl refl

          query_runs-Turn :
              (r : Bool × C)
              → Turn (to_run query_work) (at true (joined c) m n i j) (
                  ran (
                    runs driver
                      (queried driver)
                      r
                      (to_run query_work)
                      (at true (joined c) m n i j)))
          unfolding runs failed frees_in holds_in points
          query_runs-Turn (false, d) =
              turned (record { agree = together; opened = o }) (of_query refl) refl refl refl
          query_runs-Turn (true, d) = queried-Turn (driver.store_result d)

          module _ (reports : Reports driver) (selects : has_prefix select s ≡ true) where
            fetched-Turn :
                (d : C) (r : Option R × C)
                → driver.query s c ≡ (true, d)
                → driver.store_result d ≡ r
                → Turn
                    (to_run one_work)
                    (at true (joined c) m n i j)
                    (ran (fetched driver r (to_run one_work) (at true (joined c) m n i j)))
            unfolding fetched failed frees_in holds_in points
            fetched-Turn d (some r, e) p q =
                turned (record { agree = together; opened = o }) of_row refl refl (omega arith)
            fetched-Turn d (none, e) p q =
                turned (record { agree = together; opened = o })
                  (of_one (reports.of_no_rows selects p q) refl) refl refl refl

            one_runs-Turn :
                (r : Bool × C)
                → driver.query s c ≡ r
                → Turn (to_run one_work) (at true (joined c) m n i j) (
                    ran (
                      runs driver
                        (fetched driver)
                        r
                        (to_run one_work)
                        (at true (joined c) m n i j)))
            unfolding runs failed frees_in holds_in points
            one_runs-Turn (false, d) p =
                turned (record { agree = together; opened = o })
                  (of_one (reports.of_failure p) refl) refl refl refl
            one_runs-Turn (true, d) p = fetched-Turn d (driver.store_result d) p refl

        query-Turn :
            {b : Bool} {h : Handle C}
            → Agree b h
            → Turn
                (to_run query_work)
                (at b h m n i j)
                (query_wk driver (to_run query_work) (at b h m n i j))
        unfolding query_wk statement_in sql_of frees_in holds_in points
        query-Turn apart =
            turned (record { agree = apart; opened = o }) (of_query refl) refl refl refl
        query-Turn (together {c}) = query_runs-Turn c (driver.query s c)

        one-Turn :
            {b : Bool} {h : Handle C}
            → Reports driver
            → has_prefix select s ≡ true
            → Agree b h
            → Turn
                (to_run one_work)
                (at b h m n i j)
                (one_wk driver (to_run one_work) (at b h m n i j))
        unfolding one_wk statement_in sql_of is_error frees_in holds_in points
        one-Turn reports e apart =
            turned (record { agree = apart; opened = o }) (of_one refl refl) refl refl refl
        one-Turn reports e (together {c}) = one_runs-Turn c reports e (driver.query s c) refl

  -- Each turn of the worker thread is defined, whatever the work and the server's answers are: no
  -- statement reaches a handle that is not connected, a handle is closed before it is initialised
  -- again, and the results that are stored are those freed or held by the request, which has a
  -- result or, where the work was a row of `one`, an error. The link is sound, the request waits, `url_` has a path or
  -- is missing, and the library reports its errors.
  pub work_on-Turn :
      (driver : Driver C R)
      → Reports driver
      → {url : Option Url} (q : Request R) (l : Link C) → HasPath url
      → Sound l
      → Waits q.work q.rv q.sql q.code
      → Turn q l (work_on driver q.work url q l)
  unfolding work_on two_wk frees_result frees_in holds_in
  work_on-Turn driver reports {url} q l p sound waits =
      by waits q.co l.stored l.freed l.inits l.closes sound.agree sound.opened
    where
      by :
          {work : Work} {rv sql : Left R} {code : Code}
          → Waits work rv sql code
          → (co : Option ℕ) (m n i j : ℕ) {b : Bool} {h : Handle C} → Agree b h
          → i ≡ suc j
          → Turn
              (req work co rv sql code)
              (at b h m n i j)
              (work_on driver work url (req work co rv sql code) (at b h m n i j))
      by to_connect co m n i j a o = connect-Turn driver co m n i j o p a
      by to_ping co m n i j a o = ping-Turn driver co m n i j o a
      by (to_query {s}) co m n i j a o = query-Turn driver co m n i j o s a
      by (to_select {s} e) co m n i j a o = one-Turn driver co m n i j o s reports e a
      by to_free co m n i j a o =
          turned (record { agree = a; opened = o }) of_free refl refl (omega arith)

  -- What a turn did, where it was defined; `url_` matters to `connect_wk` only.
  pub ran-Turn :
      (driver : Driver C R)
      → Reports driver
      → (url : Option Url) {p : Request R} {m : Link C} (q : Request R) (l : Link C) → Sound l
      → Waits q.work q.rv q.sql q.code
      → work_on driver q.work url q l ≡ ran (p, m)
      → Turn q l (ran (p, m))
  unfolding work_on connect_wk
  ran-Turn driver reports url {p} {m} q l sound waits = by waits q.co
    where
      by :
          {work : Work} {rv sql : Left R} {code : Code}
          → Waits work rv sql code
          → (co : Option ℕ) → work_on driver work url (req work co rv sql code) l ≡ ran (p, m)
          → Turn (req work co rv sql code) l (ran (p, m))
      by to_connect co e = subst (Turn (req connect_work co null null (number 0)) l) e (
          work_on-Turn driver reports (req connect_work co null null (number 0)) l
            (connects-HasPath driver (req connect_work co null null (number 0)) url
              (renewed driver l) e)
            sound to_connect)
      by to_ping co e = subst (Turn (req ping_work co null null (number 0)) l) e (
          work_on-Turn driver reports (req ping_work co null null (number 0)) l no_url sound
            to_ping)
      by (to_query {s}) co e = subst (Turn (req query_work co null (text s) (number 0)) l) e (
          work_on-Turn driver reports (req query_work co null (text s) (number 0)) l no_url sound
            to_query)
      by (to_select {s} f) co e = subst (Turn (req one_work co null (text s) (number 0)) l) e (
          work_on-Turn driver reports (req one_work co null (text s) (number 0)) l no_url sound
            (to_select f))
      by (to_free {r} {sql} {code}) co e = subst (Turn (req two_work co (pointer r) sql code) l) e (
          work_on-Turn driver reports (req two_work co (pointer r) sql code) l no_url sound to_free)
