-- ===== src/Net/Response.antt =====
-- src/flame/net/http/server_response_base.cpp: what a response writes, and when. The format of the
-- bytes is that of the HTTP or the FastCGI server, the argument `format`. Strings that PHP
-- hands in are their bytes. `cookie` has what `set_cookie` of Response/Cookie has stored.
pub mod Http
pub mod Fastcgi
pub mod Sending
pub mod Chunks
pub mod Chunked
pub mod Records
pub mod Recorded
pub mod Cookie
use Prim.Native.String.{String}
use php_flame.Prelude.{
  ℕ, ◌≡◌, Bool, true, false, ◌||◌, Option, none, some, List, [], ◌∷◌, ◌++◌, if◌then◌else◌, Bytes,
  Outcome, returns, throws,
}

-- The members of the base class and of both of its children: `is_chunked` is HTTP's, `request_id`
-- is what the FastCGI connection has parsed.
pub record Response : Type 0 where
  pub status : ℕ
  pub header : List (Bytes × Bytes)
  pub cookie : List (Bytes × Bytes)
  pub is_chunked : Bool
  pub request_id : ℕ
  pub buffer : Bytes
  pub is_head_sent : Bool
  pub is_body_sent : Bool
  pub ended : Bool

-- The virtual functions; `buffer_body nullptr, 0` is the empty list.
pub record Format : Type 0 where
  pub buffer_header : Response → Response
  pub buffer_body : Bytes → Response → Response
  pub buffer_ending : Response → Response

-- The flags that `write_header`, `write` and `end` look at.
abbrev pub flags : Response → Bool × Bool × Bool
flags r = (r.is_head_sent, r.is_body_sent, r.ended)

-- The virtual functions leave the flags alone.
pub record IsFormat (f : Format) : Type 0 where
  pub header_flags : (r : Response) → flags (f.buffer_header r) ≡ flags r
  pub body_flags : (data_ : Bytes) (r : Response) → flags (f.buffer_body data_ r) ≡ flags r
  pub ending_flags : (r : Response) → flags (f.buffer_ending r) ≡ flags r

-- `write_buffer`: with what goes to `write` of the connection.
unfoldable pub write_buffer : Response → Response × Bytes
write_buffer r = (record r { buffer = [] }, r.buffer)

-- The test at the start of a call, and `write_buffer` at its end.
unfoldable pub unless : Bool → String → Response → Outcome (Response × Bytes)
unless true message r = throws message
unless false message r = returns (write_buffer r)

unfoldable pub with_status : Option ℕ → Response → Response
with_status none r = r
with_status (some n) r = record r { status = n }

module _ (format : Format) where
  unfoldable pub head_in : Bool → Response → Response
  head_in true r = r
  head_in false r = record (format.buffer_header r) { is_head_sent = true }

  -- `if(!is_head_sent)`, as in `write` and `end`.
  unfoldable pub head_once : Response → Response
  head_once r = head_in r.is_head_sent r

  unfoldable pub write_header : Option ℕ → Response → Outcome (Response × Bytes)
  write_header status r =
      unless (r.is_head_sent || r.is_body_sent) "header already sent"
        (record (format.buffer_header (with_status status r)) { is_head_sent = true })

  unfoldable pub write : Bytes → Response → Outcome (Response × Bytes)
  write str r = unless r.is_body_sent "body already ended" (format.buffer_body str (head_once r))

  -- The last data, if any.
  unfoldable pub last_body : Option Bytes → Response → Response
  last_body none r = r
  last_body (some str) r = format.buffer_body str r

  unfoldable pub end : Option Bytes → Response → Outcome (Response × Bytes)
  end str r =
      let headed = record (head_once (record r { is_body_sent = true })) { ended = true } in
      unless r.is_body_sent "body already ended"
        (format.buffer_ending (format.buffer_body [] (last_body str headed)))
