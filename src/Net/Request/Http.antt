-- ===== src/Net/Request/Http.antt =====
-- src/flame/net/http/server_connection.cpp: the callbacks of http_parser.
use php_flame.Prelude.{Option, none, some, List, [], ◌∷◌, ◌++◌, map, Bytes, codes}
use php_flame.Net.Request.{Parsers, put, at, normal, Body, typed_body, cookies, query}

-- `key_`, `val_` and `header_`.
pub record Input : Type 0 where
  pub key : Bytes
  pub val : Bytes
  pub header : List (Bytes × Bytes)

-- hp_header_field_cb and hp_header_value_cb, each with a piece of a name or of a value.
pub data HeaderEvent : Type 0 where
  field_piece : Bytes → HeaderEvent
  value_piece : Bytes → HeaderEvent

-- What of an address the request gets: `uri` and `query`.
pub record Address : Type 0 where
  pub uri : Bytes
  pub query : Option (List (Bytes × Bytes))

unfoldable pub path_of : Option Bytes → Bytes
path_of none = 47 ∷ []
path_of (some path) = path

-- The buffers are empty behind std::move.
unfoldable pub header_add : Input → Input
header_add s = record { key = []; val = []; header = put (map normal s.key) s.val s.header }

-- `if(val_.size() > 0) header_add();`
unfoldable pub flush_in : Bytes → Input → Input
flush_in [] s = s
flush_in (c ∷ val) s = header_add s

unfoldable pub flush : Input → Input
flush s = flush_in s.val s

unfoldable pub header_event : HeaderEvent → Input → Input
header_event (field_piece str) s = let t = flush s in record t { key = t.key ++ str }
header_event (value_piece str) s = record s { val = s.val ++ str }

unfoldable pub header_events : List HeaderEvent → Input → Input
header_events [] s = s
header_events (e ∷ events) s = header_events events (header_event e s)

-- The properties of a request that its headers give.
pub record Head : Type 0 where
  pub cookie : Option (List (Bytes × Bytes))
  pub header : List (Bytes × Bytes)

module _ (p : Parsers) where
  -- `hp_url_cb`, by the path and the query that http_parser_parse_url finds.
  unfoldable pub hp_url_cb : Option Bytes → Option Bytes → Address
  hp_url_cb path text = record { uri = path_of path; query = query p text }

  unfoldable pub hp_header_complete_cb : Input → Head × Input
  hp_header_complete_cb s =
      let t = flush s in
      (
        record { cookie = cookies p (at (codes "cookie") t.header); header = t.header },
        record t { header = p.moved t.header },
      )

  unfoldable pub hp_body_cb : Bytes → Input → Input
  hp_body_cb str s = record s { val = s.val ++ str }

  -- `rawBody` and `body`; without a body neither is set. `none` is a null pointer.
  unfoldable pub body_by : Bytes → Input → Option (Option (Bytes × Body p.Json))
  body_by [] s = some none
  body_by (c ∷ val) s = elim (typed_body p (at (codes "content-type") s.header) s.key (c ∷ val)) [
    | none ↦ none
    | some body ↦ some (some (c ∷ val, body))
  ]

  unfoldable pub hp_message_complete : Input → Option (Option (Bytes × Body p.Json))
  hp_message_complete s = body_by s.val s
