-- ===== src/Net/Response/Http.antt =====
-- src/flame/net/http/server_response.cpp: the bytes of an HTTP response.
use php_flame.Prelude.{
  ℕ, ◌+◌, ◌%◌, Bool, true, false, ◌||◌, List, [], ◌∷◌, ◌++◌, ltb, if◌then◌else◌, Bytes, codes, same,
  length, take, hex, decimal_3,
}
use php_flame.Net.Status.{status_text}
use php_flame.Net.Response.{Response, Format}

abbrev pub crlf : Bytes
crlf = 13 ∷ 10 ∷ []

unfoldable pub has : Bytes → List (Bytes × Bytes) → Bool
has key [] = false
has key ((k, v) ∷ header) = same key k || has key header

unfoldable pub erase : Bytes → List (Bytes × Bytes) → List (Bytes × Bytes)
erase key [] = []
erase key ((k, v) ∷ header) =
    let rest = erase key header in if same key k then rest else (k, v) ∷ rest

-- `KEY: VALUE\r\n`
unfoldable pub header_lines : List (Bytes × Bytes) → Bytes
header_lines [] = []
header_lines ((k, v) ∷ header) = (k ++ codes ": " ++ v ++ crlf) ++ header_lines header

-- `Set-Cookie: ...\r\n`
unfoldable pub cookie_lines : List (Bytes × Bytes) → Bytes
cookie_lines [] = []
cookie_lines ((k, v) ∷ cookie) = (codes "Set-Cookie: " ++ v ++ crlf) ++ cookie_lines cookie

-- The buffer takes `15 + status_text.length()` of what sprintf writes.
unfoldable pub status_line : ℕ → Bytes
status_line status =
    take (15 + length (status_text status))
      (codes "HTTP/1.1 " ++ decimal_3 status ++ 32 ∷ status_text status ++ crlf)

unfoldable pub buffer_header : Response → Response
buffer_header r =
    let explicit = has (codes "Content-Length") r.header in
    let header = if explicit then erase (codes "Transfer-Encoding") r.header else r.header in
    record r {
      is_chunked = if explicit then false else r.is_chunked;
      buffer =
          r.buffer ++ status_line r.status ++ header_lines header ++ cookie_lines r.cookie ++ crlf;
    }

-- `unsigned short size`
unfoldable pub body_size : Bytes → ℕ
body_size str = length str % 65536

-- By `is_chunked`: a chunk, or the data alone.
unfoldable pub body_in : Bool → ℕ → Bytes → Response → Response
body_in true size str r = record r {
  buffer = r.buffer ++ hex size ++ crlf ++ take size str ++ crlf;
}
body_in false size str r = if ltb 0 size then record r { buffer = r.buffer ++ take size str } else r

unfoldable pub buffer_body : Bytes → Response → Response
buffer_body str r = body_in r.is_chunked (body_size str) str r

abbrev pub http : Format
http = record { buffer_header = buffer_header; buffer_body = buffer_body; buffer_ending = λ r. r }
