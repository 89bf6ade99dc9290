-- ===== src/Db/Mysql/Link/Urls.antt =====
-- `connect` of client.cpp: the URL that it keeps, and refuses.
use php_flame.Prelude.{
  ℕ, zero, suc, ◌≡◌, refl, sym, subst, Bool, true, false, Option, none, some, ◌∷◌, Outcome, returns,
  throws, Bytes, codes, upper, has_prefix,
}
use php_flame.Db.Mysql.Link.{
  Url, Driver, Request, Link, Ran, ran, undefined, null, connect_work, connect_wk, connects,
  connects_to, renewed,
}
use php_flame.Db.Mysql.Link.Client.{Client, asks}

-- `strncasecmp(scheme, "mysql", 5) == 0`, and a path of at least one byte.
unfoldable pub usable_in : Option Bytes → Option Bytes → Option Bytes → Bool
usable_in (some scheme) (some (x ∷ path)) (some host) =
    has_prefix (upper (codes "mysql")) (upper scheme)
usable_in _ _ _ = false

unfoldable pub usable : Option Url → Bool
usable none = false
usable (some u) = usable_in u.scheme u.path u.host

unfoldable pub with_port : ℕ → Url → Url
with_port zero u = record u { port = 3306 }
with_port (suc n) u = u

unfoldable pub ported : Option Url → Option Url
ported none = none
ported (some u) = some (with_port u.port u)

module _ {C R : Type 0} (parse_url : Bytes → Option Url) where
  -- Where `connect` throws, `url_` has been set already.
  unfoldable pub connect_to : Option ℕ → Option Url → Client C R → Client C R × Outcome (Unit {0})
  connect_to co url w = elim (usable url) [
    | true ↦ (asks connect_work co null (record w { url = ported url }), returns tt)
    | false ↦ (record w { url = url }, throws "failed to parse mysql connection uri")
  ]

  -- `connect`, by the coroutine, with the string that it is given, where it is given one.
  unfoldable pub connect : Option ℕ → Option Bytes → Client C R → Client C R × Outcome (Unit {0})
  connect co (some s) w = connect_to co (parse_url s) w
  connect co none w = (asks connect_work co null w, returns tt)

usable-none : (u : Url) → u.path ≡ none → usable (some u) ≡ false
unfolding usable usable_in
usable-none u e = by u.scheme u.path e
  where
    by : (scheme path : Option Bytes) → path ≡ none → usable_in scheme path u.host ≡ false
    by none none e = refl
    by (some s) none e = refl
    by none (some p) e = refl
    by (some s) (some p) e = cc e

module _ {C R : Type 0} where
  connects-undefined :
      (driver : Driver C R) (u : Url) (q : Request R) (r : Ran (Link C))
      → u.path ≡ none
      → connects driver (some u) q r ≡ undefined
  unfolding connects connects_to
  connects-undefined driver u q undefined e = refl
  connects-undefined driver u q (ran l) e =
      subst (λ path. connects_to driver u path l.handle q l ≡ undefined) (sym e) refl

  connect_to-refused :
      (parse_url : Bytes → Option Url) (co : Option ℕ) (u : Url) (w : Client C R)
      → u.path ≡ none
      → connect_to parse_url co (some u) w
        ≡ (record w { url = some u }, throws "failed to parse mysql connection uri")
  unfolding connect_to
  connect_to-refused parse_url co u w p = rw (connect_to, usable-none u p) refl

  refuses-undefined :
      (driver : Driver C R) (parse_url : Bytes → Option Url) (co later : Option ℕ) (u : Url)
      (w : Client C R) (q : Request R) (l : Link C)
      → u.path ≡ none
      → let (v, outcome) = connect_to parse_url co (some u) w in
        let (x, again) = connect parse_url later none v in
        (outcome ≡ throws "failed to parse mysql connection uri")
        × (v.queue ≡ w.queue)
        × (again ≡ returns tt)
        × (connect_wk driver x.url q l ≡ undefined)
  unfolding connect asks connect_wk
  refuses-undefined driver parse_url co later u w q l p =
      rw (connect_to-refused parse_url co u w p)
        (refl, refl, refl, connects-undefined driver u q (renewed driver l) p)

  -- A URL without a path is refused by `connect`, which throws and asks nothing, and is kept all
  -- the same: a later `connect` without a URL is accepted, and its work, whatever the connection
  -- is, gives libmysqlclient an address near 0 as the name of the database.
  pub refused-undefined :
      (driver : Driver C R) (parse_url : Bytes → Option Url) (co later : Option ℕ) (s : Bytes)
      (u : Url) (w : Client C R) (q : Request R) (l : Link C)
      → parse_url s ≡ some u
      → u.path ≡ none
      → let (v, outcome) = connect parse_url co (some s) w in
        let (x, again) = connect parse_url later none v in
        (outcome ≡ throws "failed to parse mysql connection uri")
        × (v.queue ≡ w.queue)
        × (again ≡ returns tt)
        × (connect_wk driver x.url q l ≡ undefined)
  unfolding connect
  refused-undefined driver parse_url co later s u w q l e p =
      subst
        (λ url.
          let (v, outcome) = connect_to parse_url co url w in
          let (x, again) = connect parse_url later none v in
          (outcome ≡ throws "failed to parse mysql connection uri")
          × (v.queue ≡ w.queue)
          × (again ≡ returns tt)
          × (connect_wk driver x.url q l ≡ undefined))
        (sym e) (refuses-undefined driver parse_url co later u w q l p)
