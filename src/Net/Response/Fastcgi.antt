-- ===== src/Net/Response/Fastcgi.antt =====
-- src/flame/net/fastcgi/server_response.cpp: the records of a FastCGI response. A `unsigned short`
-- of the packed header is stored low byte first.
use php_flame.Prelude.{
  ℕ, ◌+◌, ◌-◌, ◌*◌, ◌/◌, ◌%◌, [], ◌∷◌, ◌++◌, ◌==◌, if◌then◌else◌, Bytes, codes, length, take,
  replicate, decimal_3,
}
use php_flame.Net.Status.{status_text}
use php_flame.Net.Response.{Response, Format}
use php_flame.Net.Response.Http.{header_lines, cookie_lines, crlf, body_size}

-- CACULATE_PADDING
unfoldable pub padding : ℕ → ℕ
padding size = if size % 8 == 0 then 0 else 8 - size % 8

-- The two bytes of a number of 16 bits swapped: the parts of the `|` have no bit in common.
unfoldable pub swapped : ℕ → ℕ
swapped size = size % 256 * 256 + size / 256

-- FASTCGI_VERSION, FASTCGI_TYPE_STDOUT and FASTCGI_TYPE_END_REQUEST of the parser's header.
pub record Protocol : Type 0 where
  pub version : ℕ
  pub type_stdout : ℕ
  pub type_end_request : ℕ

-- The bytes of `record_header_t`.
unfoldable pub header_bytes : Protocol → ℕ → ℕ → ℕ → ℕ → Bytes
header_bytes p type request_id content_length padding_length =
    p.version
    ∷ type
    ∷ request_id % 256
    ∷ request_id / 256
    ∷ content_length % 256
    ∷ content_length / 256
    ∷ padding_length
    ∷ 0
    ∷ []

-- The buffer takes `14 + status_text.length()` of what sprintf writes.
unfoldable pub status_line : ℕ → Bytes
status_line status =
    take (14 + length (status_text status))
      (codes "Status: " ++ decimal_3 status ++ 32 ∷ status_text status ++ crlf)

unfoldable pub header_content : Response → Bytes
header_content r = status_line r.status ++ header_lines r.header ++ cookie_lines r.cookie ++ crlf

module _ (p : Protocol) where
  -- The header's place is kept in front, and filled in afterwards.
  unfoldable pub buffer_header : Response → Response
  buffer_header r =
      let size = (length r.buffer + length (header_content r)) % 65536 in
      let pad = padding size in
      record r {
        buffer =
            r.buffer
            ++ header_bytes p p.type_stdout r.request_id (swapped size) pad
            ++ header_content r
            ++ replicate pad 0;
      }

  unfoldable pub buffer_body : Bytes → Response → Response
  buffer_body str r =
      let size = body_size str in
      let pad = padding size in
      record r {
        buffer =
            r.buffer
            ++ header_bytes p p.type_stdout r.request_id (swapped size) pad
            ++ take size str
            ++ replicate pad 0;
      }

  -- 0x0800, and eight bytes of content.
  unfoldable pub buffer_ending : Response → Response
  buffer_ending r = record r {
    buffer = r.buffer ++ header_bytes p p.type_end_request r.request_id 2048 0 ++ replicate 8 0;
  }

abbrev pub fastcgi : Protocol → Format
fastcgi p = record {
  buffer_header = buffer_header p;
  buffer_body = buffer_body p;
  buffer_ending = buffer_ending p;
}
