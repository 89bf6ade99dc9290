-- ===== src/Tests/Responses.antt =====
-- src/flame/net/http and src/flame/net/fastcgi: a response of two strings, and connections.
use php_flame.Prelude.{
  ◌<◌, ◌≡◌, refl, true, false, none, some, List, [], ◌∷◌, ◌++◌, arith, Bytes, length, codes,
  digits_in, digit_char, returns, All, same,
}
use php_flame.Net.Connection.{Connection, connection, responds}
use php_flame.Net.Response.{Response, with_status}
use php_flame.Net.Response.Http.{http, buffer_header, header_lines, cookie_lines, has}
use php_flame.Net.Response.Fastcgi.{Protocol, fastcgi, header_content}
use php_flame.Net.Response.Fastcgi
use php_flame.Net.Status.{status_text, status_mapper, lookup}
use php_flame.Net.Response.Sending.{end_refuses}
use php_flame.Net.Response.Chunks.{dechunk}
use php_flame.Net.Response.Chunked.{responds-dechunk, write_ends_body, http-IsFormat}
use php_flame.Net.Response.Records.{unpack}
use php_flame.Net.Response.Recorded.{responds-unpack}
use php_flame.Net.Response.Sending
use php_flame.Net.Response.Chunked
use php_flame.Net.Response.Recorded

abbrev reading : Connection
reading = record connection { reading = true }

abbrev served : Connection
served = record reading { refer = 1 }

abbrev response : Response
response = record {
  status = 200;
  header = (codes "Content-Type", codes "text/plain") ∷ [];
  cookie = [];
  is_chunked = true;
  request_id = 1;
  buffer = [];
  is_head_sent = false;
  is_body_sent = false;
  ended = false;
}

abbrev strings : List Bytes
strings = codes "hello" ∷ codes "!" ∷ []

response-IsFresh : Chunked.IsFresh response
unfolding has same
response-IsFresh = record {
  head_unsent = refl;
  body_open = refl;
  chunking = refl;
  no_length = refl;
  buffer_empty = refl;
}

strings-IsData : All Chunked.IsData strings
strings-IsData = ((omega arith, omega arith), ((omega arith, omega arith), tt))

responds-dechunk_example :
    (q : Response) × (wire : Bytes) × (Sending.responds http none strings response
      ≡ returns (q, (buffer_header (with_status none response)).buffer ++ wire))
    × (dechunk 3 wire ≡ some (codes "hello!", []))
    × (q.ended ≡ true)
responds-dechunk_example = responds-dechunk none strings response response-IsFresh strings-IsData

abbrev sent : Response
sent = record response { is_head_sent = true }

abbrev over : Response
over = record sent { is_body_sent = true; ended = true }

sent-IsChunking : Chunked.IsChunking sent
sent-IsChunking = record { head_sent = refl; body_open = refl; chunking = refl }

abbrev protocol : Protocol
protocol = record { version = 1; type_stdout = 6; type_end_request = 3 }

record-IsFresh : Recorded.IsFresh protocol response
record-IsFresh = record {
  head_unsent = refl;
  body_open = refl;
  buffer_empty = refl;
  small_id = omega arith;
}

short_header : length (header_content response) < 65536
unfolding header_content Fastcgi.status_line header_lines cookie_lines status_text status_mapper
    lookup digits_in digit_char
short_header = omega arith

strings-IsShort : All (Recorded.IsShort protocol) strings
strings-IsShort = (omega arith, (omega arith, tt))

responds-unpack_example :
    (q : Response) × (wire : Bytes) × (Sending.responds (fastcgi protocol) none strings response
      ≡ returns (q, wire))
    × (unpack protocol 1 5 wire ≡ some (header_content response ++ codes "hello!", []))
    × (q.ended ≡ true)
unfolding with_status
responds-unpack_example =
    responds-unpack protocol none strings response (λ e. omega (arith, e)) record-IsFresh
      short_header strings-IsShort
