-- ===== src/Net/Client/Built.antt =====
-- The headers and options of a request, compared with what they are to be.
use Prim.Native.String.{String}
use php_flame.Prelude.{
  ◌≡◌, refl, Bool, false, ◌||◌, Option, none, some, List, [], ◌∷◌, ◌++◌, if◌then◌else◌, Bytes,
  codes, has_prefix,
}
use php_flame.Db.Mysql.{Entries}
use php_flame.Db.Redis.{until_nul}
use php_flame.Net.Client.{Request, by_method, build_option, begins, Lines}

-- Whether a header begins with a word.
unfoldable pub any : String → List (Bytes × Bytes) → Bool
any word [] = false
any word ((key, val) ∷ more) = begins word key || any word more

abbrev lines : Bool → Bool → Bool → List Bytes → Lines
lines expect content agent header = record {
  expect = expect;
  content = content;
  agent = agent;
  header = header;
}

-- A key and its value, each up to a NUL byte.
unfoldable pub sent : List (Bytes × Bytes) → List Bytes
sent [] = []
sent ((key, val) ∷ more) = (until_nul key ++ codes ": " ++ until_nul val) ∷ sent more

-- The type of a body that is there: JSON behind a brace or a bracket, or else a form.
unfoldable pub type_of : Bytes → Bytes
type_of body =
    if has_prefix (codes "{") body || has_prefix (codes "[") body
    then codes "Content-Type: application/json"
    else codes "Content-Type: application/x-www-form-urlencoded"

unfoldable pub typed : Option Bytes → Option Bytes
typed none = none
typed (some s) = some (type_of s)

-- A line that is missing.
unfoldable pub missing : Bool → Option Bytes → List Bytes
missing is_there none = []
missing is_there (some text) = if is_there then [] else text ∷ []

-- A request whose method is neither POST nor PUT, nor begins so, sets the options of a GET, whatever the method is: its method is
-- never given to libcurl, and its body is not sent.
pub build_option-method :
    (build_query : Entries → Bytes) (r : Request)
    → has_prefix (codes "POST") r.method ≡ false
    → has_prefix (codes "PUT") r.method ≡ false
    → build_option build_query r ≡ build_option build_query (record r { method = codes "GET" })
unfolding build_option by_method has_prefix
build_option-method build_query r e f = rw (e, f) refl
