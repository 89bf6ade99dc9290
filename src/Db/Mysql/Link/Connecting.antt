-- ===== src/Db/Mysql/Link/Connecting.antt =====
-- The turns of the worker thread on a connection that is asked for, and on a ping.
use php_flame.Prelude.{
  ℕ, suc, ◌≡◌, refl, sym, ap, subst, Bool, true, false, Option, none, some, [], ◌∷◌, Bytes, codes,
  arith,
}
use php_flame.Db.Mysql.Link.{
  Url, Driver, null, number, connect_work, ping_work, Request, Handle, fresh, joined, Link, Ran,
  ran, undefined, connect_wk, ping_wk, failed, renewed_in, renewed, joins, connects_to, connects,
  pinged, pings, ping_in,
}
use php_flame.Db.Mysql.Link.Sound.{
  Agree, apart, together, HasPath, no_url, with_path, points, of_connect, of_ping, holds_in,
  frees_in, req, at, Turn, turned,
}

module _ {C R : Type 0} where
  module _ (driver : Driver C R) (co : Option ℕ) (m n : ℕ) where
    abbrev to_join : Request R
    to_join = req connect_work co null null (number 0)

    joins-Turn :
        (l : Link C) (d : C) (i j : ℕ) (r : Bool × C)
        → l.stored ≡ m
        → l.freed ≡ n
        → i ≡ suc j
        → Turn to_join l (ran (joins driver r to_join (at false (fresh d) m n i j)))
    unfolding joins failed frees_in holds_in points
    joins-Turn l d i j (false, c) e f o =
        turned (record { agree = apart; opened = o }) (of_connect refl) refl refl (omega arith)
    joins-Turn l d i j (true, c) e f o =
        turned (record { agree = together; opened = o }) (of_connect refl) refl refl (omega arith)

    connects-Turn :
        (l : Link C) (d : C) (i j : ℕ) {url : Option Url}
        → HasPath url
        → l.stored ≡ m
        → l.freed ≡ n
        → i ≡ suc j
        → Turn to_join l (connects driver url to_join (ran (at false (fresh d) m n i j)))
    unfolding connects connects_to frees_in holds_in points
    connects-Turn l d i j no_url e f o =
        turned (record { agree = apart; opened = o }) (of_connect refl) refl refl (omega arith)
    connects-Turn l d i j (with_path {u} slash name g) e f o =
        subst
          (λ path.
            Turn to_join l
              (connects_to driver u path (fresh d) to_join (at false (fresh d) m n i j)))
          (sym g) (joins-Turn l d i j (driver.real_connect u name d) e f o)

    module _ (i j : ℕ) (o : i ≡ suc j) where
      pub connect-Turn :
          {b : Bool} {h : Handle C} {url : Option Url}
          → HasPath url
          → Agree b h
          → Turn to_join (at b h m n i j) (connect_wk driver url to_join (at b h m n i j))
      unfolding connect_wk renewed renewed_in
      connect-Turn p (apart {c}) = connects-Turn (at false (fresh c) m n i j) c i j p refl refl o
      connect-Turn p (together {c}) =
          connects-Turn (at true (joined c) m n i j) driver.init (suc i) (suc j) p refl refl
            (ap suc o)

      abbrev to_check : Request R
      to_check = req ping_work co null null (number 0)

      pinged-Turn :
          (c : C) (r : Option R × C)
          → Turn to_check
              (at true (joined c) m n i j)
              (ran (to_check, pinged driver r (at true (joined c) m n i j)))
      unfolding pinged frees_in holds_in
      pinged-Turn c (none, d) =
          turned (record { agree = together; opened = o }) of_ping refl refl refl
      pinged-Turn c (some r, d) =
          turned (record { agree = together; opened = o }) of_ping refl refl (omega arith)

      pings-Turn :
          (c : C) (r : Bool × C)
          → Turn to_check
              (at true (joined c) m n i j)
              (ran (to_check, pings driver r (at true (joined c) m n i j)))
      unfolding pings frees_in holds_in
      pings-Turn c (false, d) =
          turned (record { agree = together; opened = o }) of_ping refl refl refl
      pings-Turn c (true, d) = pinged-Turn c (driver.store_result d)

      pub ping-Turn :
          {b : Bool} {h : Handle C}
          → Agree b h
          → Turn to_check (at b h m n i j) (ping_wk driver to_check (at b h m n i j))
      unfolding ping_wk ping_in frees_in holds_in
      ping-Turn (apart {c}) = turned (record { agree = apart; opened = o }) of_ping refl refl refl
      ping-Turn (together {c}) = pings-Turn c (driver.query (codes "SELECT 1") c)

  connects_to-HasPath :
      (driver : Driver C R) {x : Request R × Link C} (q : Request R) (l : Link C) (h : Handle C)
      (u : Url) (path : Option Bytes)
      → u.path ≡ path
      → connects_to driver u path h q l ≡ ran x
      → HasPath (some u)
  unfolding connects_to
  connects_to-HasPath driver q l h u none same e = cc e
  connects_to-HasPath driver q l h u (some []) same e = cc e
  connects_to-HasPath driver q l h u (some (slash ∷ name)) same e = with_path slash name same

  pub connects-HasPath :
      (driver : Driver C R) {x : Request R × Link C} (q : Request R) (url : Option Url)
      (r : Ran (Link C))
      → connects driver url q r ≡ ran x
      → HasPath url
  unfolding connects
  connects-HasPath driver q none r e = no_url
  connects-HasPath driver q (some u) (ran l) e =
      connects_to-HasPath driver q l l.handle u u.path refl e
  connects-HasPath driver q (some u) undefined e = cc e
