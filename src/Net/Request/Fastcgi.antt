-- ===== src/Net/Request/Fastcgi.antt =====
-- src/flame/net/fastcgi/server_connection.cpp: the callbacks of fastcgi_parser.
use php_flame.Prelude.{
  Bool, true, false, Option, none, some, List, [], ◌∷◌, ◌++◌, map, ltb, if◌then◌else◌, Bytes, codes,
  length, drop, has_prefix, upper,
}
use php_flame.Net.Request.{Parsers, put, at, normal, Body, typed_body, cookies, query}

-- `key_`, `val_`, `header_`, `query_` and the properties of the request.
pub record Params : Type 0 where
  pub key : Bytes
  pub val : Bytes
  pub header : List (Bytes × Bytes)
  pub query : Option (List (Bytes × Bytes))
  pub method : Option Bytes
  pub uri : Option Bytes

-- The properties of a request.
pub record Request (J : Type 0) : Type 0 where
  pub method : Option Bytes
  pub uri : Option Bytes
  pub query : Option (List (Bytes × Bytes))
  pub header : List (Bytes × Bytes)
  pub cookie : Option (List (Bytes × Bytes))
  pub raw_body : Bytes
  pub body : Body J

unfoldable pub begin_request : Params
begin_request = record { key = []; val = []; header = []; query = none; method = none; uri = none }

-- fp_param_key_cb and fp_param_val_cb with a piece, fp_end_param_cb with what stands in memory
-- behind the name.
pub data ParamEvent : Type 0 where
  key_piece : Bytes → ParamEvent
  val_piece : Bytes → ParamEvent
  end_param : Bytes → ParamEvent

-- A header: `ksize - 5` of a shorter name is out of range.
unfoldable pub http_param : Bool → Bytes → Bytes → Params → Option Params
http_param true key val s = none
http_param false key val s = some (record s { header = put (drop 5 (map normal key)) val s.header })

module _ (p : Parsers) where
  -- The comparisons read on behind the name.
  unfoldable pub fp_end_param_cb : Bytes → Params → Option Params
  fp_end_param_cb memory s =
      let kdata = s.key ++ memory in
      let cleared = record s { key = []; val = [] } in
      if has_prefix (codes "REQUEST_METHOD") kdata
      then some (record cleared { method = some (upper s.val) })
      else if has_prefix (codes "REQUEST_URI") kdata
      then some (record cleared { uri = some s.val })
      else if has_prefix (codes "QUERY_STRING") kdata
      then some (record cleared { query = query p (some s.val) })
      else if has_prefix (codes "HTTP_") kdata
      then http_param (ltb (length s.key) 5) s.key s.val cleared
      else some cleared

  unfoldable pub param_event : ParamEvent → Params → Option Params
  param_event (key_piece str) s = some (record s { key = s.key ++ str })
  param_event (val_piece str) s = some (record s { val = s.val ++ str })
  param_event (end_param memory) s = fp_end_param_cb memory s

  unfoldable pub param_events : List ParamEvent → Params → Option Params
  param_events [] s = some s
  param_events (e ∷ events) s = elim (param_event e s) [
    | none ↦ none
    | some t ↦ param_events events t
  ]

  -- `fp_data_cb`
  unfoldable pub fp_data_cb : Bytes → Params → Params
  fp_data_cb str s = record s { val = s.val ++ str }

  -- `fp_end_data_cb`, which sets `rawBody` and `body_`.
  unfoldable pub fp_end_data_cb : Params → Option (Bytes × Body p.Json)
  fp_end_data_cb s = elim (typed_body p (at (codes "content-type") s.header) s.key s.val) [
    | none ↦ none
    | some body ↦ some (s.val, body)
  ]

  -- `cookie` of the request.
  unfoldable pub cookie_of : Params → Option (List (Bytes × Bytes))
  cookie_of s = cookies p (at (codes "cookie") s.header)

  -- `fp_end_request_cb`: the properties of the request; `none` is a null pointer.
  unfoldable pub fp_end_request_cb : Params → Option (Request p.Json)
  fp_end_request_cb s = elim (fp_end_data_cb s) [
    | none ↦ none
    | some (raw, body) ↦ some (record {
      method = s.method;
      uri = s.uri;
      query = s.query;
      header = s.header;
      cookie = cookie_of s;
      raw_body = raw;
      body = body;
    })
  ]
