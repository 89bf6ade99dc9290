-- ===== src/Net/Response/Cookie.antt =====
-- src/flame/net/http/server_response_base.cpp: `set_cookie`, for strings without NUL bytes.
use php_flame.Prelude.{
  Bool, true, false, Option, none, some, [], ◌∷◌, ◌++◌, if◌then◌else◌, Bytes, codes, take, Outcome,
  returns, throws,
}
use php_flame.Net.Request.{put}
use php_flame.Net.Response.{Response}

-- The parameters behind the name, each where it is given: the value, a time of expiry, the path and
-- the domain where they are strings, and the two flags.
pub record Cookie : Type 0 where
  pub name : Bytes
  pub value : Option Bytes
  pub expires : Bool
  pub path : Option Bytes
  pub domain : Option Bytes
  pub secure : Bool
  pub http_only : Bool

-- PHP's url_encode; `to_long` of the name and whether that is above 0; the 39 bytes that strftime
-- leaves for it; and the bytes in memory behind the literal of a deleted cookie.
pub record Outside : Type 0 where
  pub url_encode : Bytes → Bytes
  pub positive : Bytes → Bool
  pub time_of : Bytes → Bytes
  pub memory : Bytes

-- The copy of 58 bytes takes what stands behind the literal.
abbrev pub deleted : Bytes → Bytes
deleted memory = take 58 (codes "=deleted; Expires=Thu, 01 Jan 1970 00:00:00 GMT" ++ memory)

unfoldable pub attribute : Bytes → Option Bytes → Bytes
attribute word none = []
attribute word (some text) = word ++ text

unfoldable pub flag : Bytes → Bool → Bytes
flag word false = []
flag word true = word

module _ (outside : Outside) where
  unfoldable pub value_text : Option Bytes → Bytes
  value_text none = deleted outside.memory
  value_text (some v) = 61 ∷ outside.url_encode v

  -- The time is read from the name.
  unfoldable pub expires_text : Bytes → Bool → Bytes
  expires_text name false = []
  expires_text name true = if outside.positive name then outside.time_of name else []

  unfoldable pub cookie_text : Cookie → Bytes
  cookie_text c =
      c.name
      ++ (value_text c.value
          ++ (expires_text c.name c.expires
              ++ (attribute (codes "; Path=") c.path
                  ++ (attribute (codes "; Domain=") c.domain
                      ++ (flag (codes "; Secure") c.secure
                          ++ flag (codes "; HttpOnly") c.http_only)))))

  unfoldable pub cookie_in : Bool → Cookie → Response → Outcome Response
  cookie_in true c r = throws "header already sent"
  cookie_in false c r = returns (record r { cookie = put c.name (cookie_text c) r.cookie })

  unfoldable pub set_cookie : Cookie → Response → Outcome Response
  set_cookie c r = cookie_in r.is_head_sent c r
