-- ===== src/Tests/Requests.antt =====
-- src/flame/net/http and src/flame/net/fastcgi: a request with two headers, over both protocols.
use php_flame.Prelude.{◌≡◌, refl, some, List, [], ◌∷◌, Bytes, codes, All}
use php_flame.Net.Request.{Parsers}
use php_flame.Net.Request.Http.{header_events, hp_header_complete_cb}
use php_flame.Net.Request.Fastcgi.{Params, begin_request, param_events}
use php_flame.Net.Request.Headers.{Pieces, whole, http_pieces, HasValue}
use php_flame.Net.Request.Protocols.{
  cgi, fastcgi_pieces, sent_params, as_params, array_of, protocols-agree,
}

abbrev parsers : Parsers
parsers = record {
  Json = Bytes;
  kv = λ s1 s2 w1 w2 text. [];
  multipart = λ boundary raw. [];
  url_decode = λ text. text;
  json_decode = λ text. text;
  moved = λ array. [];
}

abbrev host : Pieces
host = record { first = codes "Ho"; more = codes "st" ∷ []; values = codes "a" ∷ codes "b" ∷ [] }

abbrev user_agent : Pieces
user_agent = record { first = codes "User-Agent"; more = []; values = codes "x" ∷ [] }

abbrev two_headers : List Pieces
two_headers = host ∷ user_agent ∷ []

abbrev two_params : List (Pieces × Bytes)
two_params =
    (record { first = codes "HTTP_HO"; more = codes "ST" ∷ []; values = codes "ab" ∷ [] }, [])
    ∷ (
      record { first = codes "HTTP_USER_AGENT"; more = []; values = codes "x" ∷ [] },
      codes "QUERY",
    )
    ∷ []

headers-HasValue : All HasValue two_headers
headers-HasValue = (λ e. cc e, (λ e. cc e, tt))

protocols-agree_example :
    (t : Params) × (param_events parsers (fastcgi_pieces two_params) begin_request ≡ some t)
    × (t.header
        ≡ (hp_header_complete_cb parsers (
            header_events
              (http_pieces two_headers)
              (record { key = []; val = []; header = [] }))).0.header)
    × (t.header ≡ array_of (whole two_headers) [])
protocols-agree_example =
    protocols-agree parsers two_headers two_params headers-HasValue
      (unfold sent_params as_params whole cgi in refl)

abbrev silent : Pieces
silent = record { first = codes "X-Silent"; more = []; values = [] }
