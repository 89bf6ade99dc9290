-- ===== src/Tests/Handlers.antt =====
-- src/flame/net/http/server_handler.h: two routes, and a session with both other callables.
use php_flame.Prelude.{
  true, false, ◌≡◌, refl, List, not, some, [], ◌∷◌, ◌++◌, ◌==◌, codes, returns, All,
}
use php_flame.Net.Request.{at}
use php_flame.Net.Handler.{
  Handler, construct, put_, get_, plain, over, or_default, on_session, ends,
}
use php_flame.Net.Handler.Routes.{
  Route, registered, last_route, has_slash, begins_slash, BeginsSlash, registered-serves,
}
use php_flame.Net.Handler.Sessions.{called, at_end, cut, deleted, on_session-order}

abbrev two_routes : List Route
two_routes =
    record { method = get_; path = codes "/a"; cb = 5 }
    ∷ record { method = put_; path = codes "/a"; cb = 6 }
    ∷ []

two_routes-BeginsSlash : All BeginsSlash two_routes
unfolding begins_slash
two_routes-BeginsSlash = (refl, (refl, tt))

registered-serves_example :
    (h : Handler) × (registered two_routes (construct 0) ≡ returns h)
    × ((on_session (codes "GET") (codes "/a") h).cb
        ≡ or_default (last_route (codes "GET") (codes "/a") two_routes) 0)
registered-serves_example =
    registered-serves two_routes (codes "GET") (codes "/a") 0 two_routes-BeginsSlash
      (unfold has_slash in refl) (unfold begins_slash in refl)

abbrev guarded : Handler
guarded = record { handle_ = []; handle_before = some 7; handle_after = some 8; handle_default = 0 }

on_session-order_example :
    let cb = or_default (at (codes "GET" ++ codes "/a") guarded.handle_) guarded.handle_default in
    let last = at_end guarded.handle_before guarded guarded in
    let plan =
      called guarded.handle_before (not (cb == guarded.handle_default))
      ++ plain cb ∷ called last.handle_after (not (cb == last.handle_default)) in
    let s =
      ends false guarded
        (ends true guarded (ends false guarded (on_session (codes "GET") (codes "/a") guarded))) in
    (s.next ≡ over)
    × (s.deletes ≡ deleted plan (false ∷ true ∷ false ∷ []))
    × (s.starts ≡ cut plan (false ∷ true ∷ false ∷ []))
on_session-order_example =
    on_session-order (codes "GET") (codes "/a") guarded guarded guarded guarded false true false
