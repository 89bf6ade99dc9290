-- ===== src/Net/Response/Chunked.antt =====
-- What an HTTP response sends, a reader of chunks reads.
use php_flame.Prelude.{
  joined, codes, ◌||◌, ℕ, zero, suc, ◌%◌, ◌<◌, ◌≡◌, refl, ap, ◌∙◌, Bool, true, false, Option, none,
  some, List, [], ◌∷◌, ◌++◌, append-nil, append_assoc, arith, Bytes, length, All, returns,
}
use php_flame.Net.Response.{
  Response, IsFormat, flags, unless, with_status, head_once, write_header, write, last_body, end,
}
use php_flame.Net.Response.Http.{http, buffer_header, buffer_body, body_in, body_size, has}
use php_flame.Net.Response.Sending.{sends, responds, unless_open, head_in-sent}
use php_flame.Net.Response.Chunks.{
  chunk, dechunk-chunk, dechunk-last, body_in-chunk, dechunk, prepend,
}

-- With the header sent, the body open and chunked.
pub record IsChunking (r : Response) : Type 0 where
  pub head_sent : r.is_head_sent ≡ true
  pub body_open : r.is_body_sent ≡ false
  pub chunking : r.is_chunked ≡ true

http-write :
    (str : Bytes) (r : Response)
    → IsChunking r
    → length str < 65536
    → write http str r ≡ returns (record r { buffer = [] }, r.buffer ++ chunk str)
unfolding write head_once buffer_body
http-write str r i h =
    rw
      (
        head_in-sent http r.is_head_sent r i.head_sent,
        body_in-chunk r.is_chunked str r i.chunking h,
      )
      (unless_open r.is_body_sent "body already ended" _ i.body_open)

http-end :
    (r : Response)
    → IsChunking r
    → end http none r
      ≡ returns (record r { buffer = []; is_body_sent = true; ended = true }, r.buffer ++ chunk [])
unfolding end head_once last_body buffer_body
http-end r i =
    rw
      (
        head_in-sent http r.is_head_sent (record r { is_body_sent = true }) i.head_sent,
        body_in-chunk r.is_chunked [] (record r { is_body_sent = true; ended = true }) i.chunking
            (omega arith),
      )
      (unless_open r.is_body_sent "body already ended" _ i.body_open)

chunks : List Bytes → Bytes
chunks [] = chunk []
chunks (str ∷ strs) = chunk str ++ chunks strs

-- A string that is not empty, and whose length is not cut to 16 bits.
abbrev pub IsData : Bytes → Type 0
IsData str = (0 < length str) × (length str < 65536)

sends-chunks :
    (strs : List Bytes) (r : Response)
    → IsChunking r
    → r.buffer ≡ []
    → All IsData strs
    → sends http strs r
      ≡ returns (record r { buffer = []; is_body_sent = true; ended = true }, chunks strs)
unfolding sends chunks
sends-chunks [] r i e h =
    http-end r i
    ∙ ap (λ b. returns (record r { buffer = []; is_body_sent = true; ended = true }, b ++ chunk []))
        e
sends-chunks (str ∷ strs) r i e h =
    let still : IsChunking (record r { buffer = [] }) = record {
      head_sent = i.head_sent;
      body_open = i.body_open;
      chunking = i.chunking;
    } in
    rw (http-write str r i h.0.1, sends-chunks strs (record r { buffer = [] }) still refl h.1)
      (ap
        (λ b. returns (
          record r { buffer = []; is_body_sent = true; ended = true },
          (b ++ chunk str) ++ chunks strs,
        ))
        e)

dechunk-chunks :
    (k : ℕ) (strs : List Bytes) (rest : Bytes)
    → All IsData strs
    → length strs < k
    → dechunk k (chunks strs ++ rest) ≡ some (joined strs, rest)
unfolding chunks prepend
dechunk-chunks zero strs rest h lt = absurd (omega arith)
dechunk-chunks (suc k) [] rest h lt = dechunk-last k rest
dechunk-chunks (suc k) (str ∷ strs) rest h lt = rw (
  append_assoc (chunk str) (chunks strs) rest,
  dechunk-chunk k str (chunks strs ++ rest) h.0.0 h.0.1,
  dechunk-chunks k strs rest h.1 (omega arith),
  prepend,
)

-- A new response, to be sent in chunks.
pub record IsFresh (r : Response) : Type 0 where
  pub head_unsent : r.is_head_sent ≡ false
  pub body_open : r.is_body_sent ≡ false
  pub chunking : r.is_chunked ≡ true
  pub no_length : has (codes "Content-Length") r.header ≡ false
  pub buffer_empty : r.buffer ≡ []

headed : (r : Response) → Response
headed r = record (buffer_header r) { is_head_sent = true }

headed-IsChunking :
    (status : Option ℕ) (r : Response)
    → IsFresh r
    → IsChunking (record (headed (with_status status r)) { buffer = [] })
unfolding headed with_status buffer_header
headed-IsChunking none r f = record {
  head_sent = refl;
  body_open = f.body_open;
  chunking = rw f.no_length f.chunking;
}
headed-IsChunking (some n) r f = record {
  head_sent = refl;
  body_open = f.body_open;
  chunking = rw f.no_length f.chunking;
}

write_header-fresh :
    (status : Option ℕ) (r : Response)
    → IsFresh r
    → write_header http status r
      ≡ returns (
        record (headed (with_status status r)) { buffer = [] },
        (buffer_header (with_status status r)).buffer,
      )
unfolding write_header headed
write_header-fresh status r f =
    unless_open (r.is_head_sent || r.is_body_sent) "header already sent" _
      (rw (f.head_unsent, f.body_open) refl)

-- A new response to be sent in chunks is given its header by `write_header`, then each of the strings
-- by `write`, then `end`. No call throws, and what goes to the connection is the header followed
-- by bytes that a reader of chunks, with as much fuel as there are chunks, reads as the strings
-- put together, to the end; `ended` is set. Each string has from 1 to 65535 bytes.
pub responds-dechunk :
    (status : Option ℕ) (strs : List Bytes) (r : Response)
    → IsFresh r
    → All IsData strs
    → (q : Response) × (wire : Bytes) × (responds http status strs r
        ≡ returns (q, (buffer_header (with_status status r)).buffer ++ wire))
      × (dechunk (suc (length strs)) wire ≡ some (joined strs, []))
      × (q.ended ≡ true)
unfolding responds
responds-dechunk status strs r f h =
    let sent =
      sends-chunks strs (record (headed (with_status status r)) { buffer = [] })
        (headed-IsChunking status r f) refl h in
    (
      record (headed (with_status status r)) { buffer = []; is_body_sent = true; ended = true },
      chunks strs,
      rw (write_header-fresh status r f, sent),
      rw (append-nil (chunks strs)) at (dechunk-chunks (suc (length strs)) strs [] h (omega arith)),
      refl,
    )

body_in-none :
    (b : Bool) (size : ℕ) (str : Bytes) (r : Response)
    → b ≡ true
    → size ≡ 0
    → body_in b size str r ≡ record r { buffer = r.buffer ++ chunk [] }
unfolding body_in
body_in-none true size str r e z = rw z (simp append_assoc)
body_in-none false size str r e z = cc

-- On a response whose header is sent, whose body is open and chunked, and whose buffer is empty, a
-- string whose length is a multiple of 65536, the empty one included, ends the body: what its
-- `write` sends is the empty chunk, after which a reader of chunks takes no more, whatever follows.
pub write_ends_body :
    (k : ℕ) (str rest : Bytes) (r : Response)
    → IsChunking r
    → r.buffer ≡ []
    → length str % 65536 ≡ 0
    → (q : Response) × (wire : Bytes) × (write http str r ≡ returns (q, wire))
      × (dechunk (suc k) (wire ++ rest) ≡ some ([], rest))
unfolding write head_once buffer_body body_size
write_ends_body k str rest r i e h = (
  record r { buffer = [] },
  chunk [],
  rw (head_in-sent http r.is_head_sent r i.head_sent) (
      ap (λ x. unless r.is_body_sent "body already ended" x)
        (body_in-none r.is_chunked (length str % 65536) str r i.chunking h
          ∙ ap (λ b. record r { buffer = b ++ chunk [] }) e)
      ∙ unless_open r.is_body_sent "body already ended" _ i.body_open),
  dechunk-last k rest,
)

body_in-flags :
    (b : Bool) (size : ℕ) (str : Bytes) (r : Response) → flags (body_in b size str r) ≡ flags r
unfolding body_in
body_in-flags true size str r = refl
body_in-flags false size str r = ground arith

pub http-IsFormat : IsFormat http
unfolding buffer_header buffer_body
http-IsFormat = record {
  header_flags = λ r. refl;
  body_flags = λ str r. body_in-flags r.is_chunked (body_size str) str r;
  ending_flags = λ r. refl;
}
