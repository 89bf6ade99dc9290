-- ===== src/Net/Client.antt =====
-- src/flame/net/http/client_request.cpp: what a request of the HTTP client gives to libcurl. The
-- options of libcurl are modelled by the values that they are set to; a header and a cookie have
-- the texts of their key and value.
pub mod Built
pub mod Upload
pub mod Running
pub mod Polls
use Prim.Native.String.{String}
use php_flame.Prelude.{
  ℕ, zero, suc, Bool, true, false, not, ◌&&◌, ◌||◌, Option, none, some, List, [], ◌∷◌, ◌++◌,
  Outcome, returns, throws, ◌==◌, if◌then◌else◌, Bytes, codes, length, has_prefix, upper,
}
use php_flame.Db.Mysql.{Entries}
use php_flame.Db.Redis.{until_nul}

-- The property `body`: null, a string, an array, or a value with its text.
pub data Body : Type 0 where
  null : Body
  text : Bytes → Body
  map : Entries → Body
  other : Bytes → Body

pub record Request : Type 0 where
  pub url : Bytes
  pub method : Bytes
  pub body : Body
  pub header : List (Bytes × Bytes)
  pub cookie : List (Bytes × Bytes)
  pub timeout : ℕ

-- `__construct`; `url` is null where it is missing.
unfoldable pub method_of : Body → Bytes
method_of null = codes "GET"
method_of _ = codes "POST"

unfoldable pub or_default : Option ℕ → ℕ
or_default none = 3000
or_default (some ms) = ms

unfoldable pub construct : Bytes → Body → Option ℕ → Request
construct url body timeout = record {
  url = url;
  method = method_of body;
  body = body;
  header = [];
  cookie = [];
  timeout = or_default timeout;
}

-- `get` and `remove`, `post` and `put` of client.cpp.
unfoldable pub call : String → Bytes → Body → Option ℕ → Request
call method url body timeout = record {
  url = url;
  method = codes method;
  body = body;
  header = [];
  cookie = [];
  timeout = or_default timeout;
}

-- `body_` and `size_`; `build_query` is php::build_query.
unfoldable pub body_of : (Entries → Bytes) → Body → Option Bytes
body_of build_query null = none
body_of build_query (text s) = some s
body_of build_query (map m) = some (build_query m)
body_of build_query (other s) = some s

unfoldable pub size_of : Option Bytes → ℕ
size_of none = 0
size_of (some s) = length s

-- CURLOPT_URL, CURLOPT_POST, CURLOPT_UPLOAD, CURLOPT_POSTFIELDSIZE or CURLOPT_INFILESIZE, whether
-- CURLOPT_READFUNCTION is `body_read_cb`, and CURLOPT_TIMEOUT_MS.
pub record Options : Type 0 where
  pub url : Bytes
  pub post : Bool
  pub upload : Bool
  pub size : Option ℕ
  pub reads : Bool
  pub timeout : ℕ

unfoldable pub posted : Bytes → ℕ → ℕ → Options
posted url size timeout = record {
  url = url;
  post = true;
  upload = false;
  size = some size;
  reads = not (size == 0);
  timeout = timeout;
}

unfoldable pub put_to : Bytes → ℕ → ℕ → Options
put_to url size timeout = record {
  url = url;
  post = false;
  upload = true;
  size = if size == 0 then none else some size;
  reads = not (size == 0);
  timeout = timeout;
}

unfoldable pub plain : Bytes → ℕ → Options
plain url timeout = record {
  url = url;
  post = false;
  upload = false;
  size = none;
  reads = false;
  timeout = timeout;
}

unfoldable pub by_method : Bytes → Bytes → ℕ → ℕ → Options
by_method method url size timeout =
    if has_prefix (codes "POST") method
    then posted url size timeout
    else if has_prefix (codes "PUT") method
    then put_to url size timeout
    else plain url timeout

-- PHP's `empty`: no bytes, or "0".
unfoldable pub is_empty : Bytes → Bool
is_empty [] = true
is_empty (c ∷ []) = c == 48
is_empty (c ∷ d ∷ s) = false

unfoldable pub build_option : (Entries → Bytes) → Request → Outcome Options
build_option build_query r =
    if is_empty r.url
    then throws "client_request build failed: empty url"
    else returns (by_method r.method r.url (size_of (body_of build_query r.body)) r.timeout)

-- `strncasecmp(key, word, n) == 0`, for a word of `n` bytes.
unfoldable pub begins : String → Bytes → Bool
begins word key = has_prefix (upper (codes word)) (upper key)

-- sprintf of `%.*s: %.*s`, which stops each text at a NUL byte.
unfoldable pub line : Bytes × Bytes → Bytes
line (key, val) = until_nul key ++ codes ": " ++ until_nul val

-- The flags `expect`, `content` and `agent` of `build_header`, and `header_`.
pub record Lines : Type 0 where
  pub expect : Bool
  pub content : Bool
  pub agent : Bool
  pub header : List Bytes

unfoldable pub noted : Bytes → Lines → Lines
noted key l =
    if begins "Expect" key
    then record l { expect = true }
    else if begins "Content-Type" key
    then record l { content = true }
    else if begins "User-Agent" key
    then record l { agent = true }
    else l

unfoldable pub add_line : Bytes × Bytes → Lines → Lines
add_line (key, val) l =
    let n = noted key l in record n { header = n.header ++ line (key, val) ∷ [] }

unfoldable pub add_lines : List (Bytes × Bytes) → Lines → Lines
add_lines [] l = l
add_lines (x ∷ more) l = add_lines more (add_line x l)

-- `body_[0] == '{' || body_[0] == '['`; an empty string ends in a NUL byte.
unfoldable pub is_json : Bytes → Bool
is_json [] = false
is_json (c ∷ s) = (c == 123) || (c == 91)

unfoldable pub content_line : Bool → Option Bytes → List Bytes
content_line true body = []
content_line false none = []
content_line false (some s) =
    if is_json s
    then codes "Content-Type: application/json" ∷ []
    else codes "Content-Type: application/x-www-form-urlencoded" ∷ []

unfoldable pub unless_there : Bool → String → List Bytes
unless_there true s = []
unless_there false s = codes s ∷ []

unfoldable pub completed : Option Bytes → Lines → List Bytes
completed body l =
    l.header
    ++ unless_there l.expect "Expect: "
    ++ content_line l.content body
    ++ unless_there l.agent "User-Agent: php-flame"

-- `header_` is never emptied: an earlier `build_header` of the same request has left `before`.
unfoldable pub build_header : List Bytes → Option Bytes → List (Bytes × Bytes) → List Bytes
build_header before body header =
    completed body (
      add_lines header (record { expect = false; content = false; agent = false; header = before }))

-- The cookie, where there are any.
unfoldable pub cookies : List (Bytes × Bytes) → Bytes
cookies [] = []
cookies ((key, val) ∷ more) = key ++ 61 ∷ val ++ 59 ∷ 32 ∷ cookies more

unfoldable pub build_cookie : List (Bytes × Bytes) → Option Bytes
build_cookie [] = none
build_cookie (x ∷ more) = some (cookies (x ∷ more))
