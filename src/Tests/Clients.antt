-- ===== src/Tests/Clients.antt =====
-- src/flame/net/http/client.cpp and client_request.cpp: a request with a header and a body, and the
-- calls of libcurl for two sockets.
use php_flame.Prelude.{ℕ, ◌≡◌, ◌≢◌, List, [], ◌∷◌, ◌++◌, returns, throws, Bytes, codes, take}
use php_flame.Net.Client.Upload.{read_each, sum, read_each-take}
use php_flame.Net.Client.Running.{
  fresh, closed, response, Client, exec2, Event, executes, ends, events, curl_multi_info_check,
  request_of, exec2-answered,
}
use php_flame.Net.Client.Polls.{
  Action, poll_in, poll_inout, poll_remove, handled, Polling, handled-Polling,
}

abbrev header : List (Bytes × Bytes)
header = (codes "content-type", codes "text/plain") ∷ []

read_each-take_example :
    read_each (2 ∷ 0 ∷ 9 ∷ []) (codes "hello", 5) ≡ take (sum (2 ∷ 0 ∷ 9 ∷ [])) (codes "hello")
read_each-take_example = read_each-take (2 ∷ 0 ∷ 9 ∷ []) (codes "hello")

abbrev calls : List (ℕ × Action)
calls = (7, poll_remove) ∷ (8, poll_in) ∷ (7, poll_inout) ∷ (7, poll_in) ∷ []

handled-Polling_example : Polling calls (handled calls)
handled-Polling_example = handled-Polling calls

abbrev unused : Client
unused = record { easies = λ r. fresh; resumed = [] }

fresh-open : fresh ≢ closed
fresh-open e = cc e

abbrev in_between : List Event
in_between = executes (returns tt) 5 2 ∷ ends 2 (response 404) ∷ []

exec2-answered_example :
    let v = events in_between (exec2 (returns tt) 4 1 unused).0 in
    let u = curl_multi_info_check 1 (response 200) v in
    (u.resumed ≡ v.resumed ++ (4, response 200) ∷ [])
    × (exec2 (returns tt) 6 1 u ≡ (u, throws "request object can NOT be reused"))
exec2-answered_example =
    exec2-answered 4 1 in_between (response 200) 6 unused fresh-open
      (unfold request_of in (λ e. cc e, (λ e. cc e, tt)))
