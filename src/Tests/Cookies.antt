-- ===== src/Tests/Cookies.antt =====
-- src/flame/net/http/server_response_base.cpp: set_cookie with a value and a path.
use php_flame.Prelude.{◌≡◌, refl, true, false, none, some, [], ◌∷◌, codes, returns}
use php_flame.Net.Request.{put}
use php_flame.Net.Response.{Response}
use php_flame.Net.Response.Cookie.{
  Cookie, Outside, value_text, expires_text, attribute, flag, cookie_text, cookie_in, set_cookie,
}

abbrev outside : Outside
outside = record { url_encode = λ s. s; positive = λ s. false; time_of = λ s. []; memory = [] }

abbrev session : Cookie
session = record {
  name = codes "sid";
  value = some (codes "7");
  expires = false;
  path = some (codes "/");
  domain = none;
  secure = false;
  http_only = true;
}

abbrev fresh : Response
fresh = record {
  status = 200;
  header = [];
  cookie = [];
  is_chunked = true;
  request_id = 0;
  buffer = [];
  is_head_sent = false;
  is_body_sent = false;
  ended = false;
}

set_cookie-fresh :
    set_cookie outside session fresh
    ≡ returns (record fresh { cookie = (codes "sid", codes "sid=7; Path=/; HttpOnly") ∷ [] })
unfolding set_cookie cookie_in put cookie_text value_text expires_text attribute flag
set_cookie-fresh = refl
