-- ===== src/Net/Response/Recorded.antt =====
-- What a FastCGI response sends, a reader of records reads.
use php_flame.Prelude.{
  ℕ, zero, suc, ◌+◌, ◌%◌, ◌<◌, ◌≡◌, ◌≢◌, refl, ap, subst, ◌∙◌, true, false, ◌||◌, Option, none,
  some, List, [], ◌∷◌, ◌++◌, append-nil, append_assoc, arith, Bytes, joined, length, replicate,
  take_all, All, returns,
}
use php_flame.Net.Response.{
  Response, IsFormat, with_status, head_once, write_header, write, last_body, end,
}
use php_flame.Net.Response.Http.{body_size}
use php_flame.Net.Response.Fastcgi.{
  Protocol, fastcgi, padding, swapped, header_bytes, header_content, buffer_header, buffer_body,
  buffer_ending,
}
use php_flame.Net.Response.Sending.{sends, responds, unless_open, head_in-sent}
use php_flame.Net.Response.Chunks.{prepend}
use php_flame.Net.Response.Records.{zeros, record_of, unpack-stdout, unpack-end, unpack}

-- With the header sent, and the body open.
pub record IsOpenBody (r : Response) : Type 0 where
  pub head_sent : r.is_head_sent ≡ true
  pub body_open : r.is_body_sent ≡ false

module _ (p : Protocol) where
  abbrev stdout : Response → Bytes → Bytes
  stdout r str = record_of p r.request_id p.type_stdout str

  body-stdout :
      (str : Bytes) (r : Response)
      → length str < 65536
      → buffer_body p str r ≡ record r { buffer = r.buffer ++ stdout r str }
  unfolding buffer_body body_size
  body-stdout str r h =
      let size : length str % 65536 ≡ length str = omega arith in
      rw (size, take_all str) (simp append_assoc)

  -- The record that `end` writes last.
  abbrev last_record : Response → Bytes
  last_record r = header_bytes p p.type_end_request r.request_id 2048 0 ++ zeros 8

  fastcgi-write :
      (str : Bytes) (r : Response)
      → IsOpenBody r
      → length str < 65536
      → write (fastcgi p) str r ≡ returns (record r { buffer = [] }, r.buffer ++ stdout r str)
  unfolding write head_once
  fastcgi-write str r i h =
      rw (head_in-sent (fastcgi p) r.is_head_sent r i.head_sent, body-stdout str r h)
        (unless_open r.is_body_sent "body already ended" _ i.body_open)

  fastcgi-end :
      (r : Response)
      → IsOpenBody r
      → end (fastcgi p) none r
        ≡ returns (
          record r { buffer = []; is_body_sent = true; ended = true },
          r.buffer
              ++ stdout r []
              ++ header_bytes p p.type_end_request r.request_id 2048 0
              ++ zeros 8,
        )
  unfolding end head_once last_body buffer_ending
  fastcgi-end r i =
      rw
        (
          head_in-sent (fastcgi p) r.is_head_sent (record r { is_body_sent = true }) i.head_sent,
          body-stdout [] (record r { is_body_sent = true; ended = true }) (omega arith),
        )
        (unless_open r.is_body_sent "body already ended" _ i.body_open)

  records : Response → List Bytes → Bytes
  records r [] = stdout r [] ++ last_record r
  records r (str ∷ strs) = stdout r str ++ records r strs

  abbrev pub IsShort : Bytes → Type 0
  IsShort str = length str < 65536

  sends-records :
      (strs : List Bytes) (r : Response)
      → IsOpenBody r
      → r.buffer ≡ []
      → All IsShort strs
      → sends (fastcgi p) strs r
        ≡ returns (record r { buffer = []; is_body_sent = true; ended = true }, records r strs)
  unfolding sends records
  sends-records [] r i e h =
      fastcgi-end r i
      ∙ ap
          (λ b. returns (
            record r { buffer = []; is_body_sent = true; ended = true },
            b ++ stdout r [] ++ header_bytes p p.type_end_request r.request_id 2048 0 ++ zeros 8,
          ))
          e
      ∙ ap (λ b. returns (record r { buffer = []; is_body_sent = true; ended = true }, b))
          (append_assoc (stdout r []) (header_bytes p p.type_end_request r.request_id 2048 0)
            (zeros 8))
  sends-records (str ∷ strs) r i e h =
      let still : IsOpenBody (record r { buffer = [] }) = record {
        head_sent = i.head_sent;
        body_open = i.body_open;
      } in
      rw (fastcgi-write str r i h.0, sends-records strs (record r { buffer = [] }) still refl h.1)
        (ap
          (λ b. returns (
            record r { buffer = []; is_body_sent = true; ended = true },
            (b ++ stdout r str) ++ records r strs,
          ))
          e)

  -- The end record is the one of eight bytes.
  last_record_lem :
      (r : Response) → last_record r ≡ record_of p r.request_id p.type_end_request (zeros 8)
  unfolding padding swapped
  last_record_lem r = refl

  module _ (d : p.type_stdout ≢ p.type_end_request) where
    unpack-records :
        (k : ℕ) (strs : List Bytes) (r : Response)
        → r.request_id < 65536
        → All IsShort strs
        → suc (length strs) < k
        → unpack p r.request_id k (records r strs) ≡ some (joined strs, [])
    unfolding records prepend
    unpack-records zero strs r small h lt = absurd (omega arith)
    unpack-records (suc zero) strs r small h lt = absurd (omega arith)
    unpack-records (suc (suc k)) [] r small h lt =
        let ended = unpack-end p r.request_id k (zeros 8) [] small (omega arith) in
        rw
          (
            last_record_lem r,
            unpack-stdout p r.request_id (suc k) []
                (record_of p r.request_id p.type_end_request (zeros 8)) d small (omega arith),
          )
          (rw (rw append-nil at ended, prepend))
    unpack-records (suc (suc k)) (str ∷ strs) r small h lt = rw (
      unpack-stdout p r.request_id (suc k) str (records r strs) d small h.0,
      unpack-records (suc k) strs r small h.1 (omega arith),
      prepend,
    )

  -- A new response, whose header fits into one record.
  pub record IsFresh (r : Response) : Type 0 where
    pub head_unsent : r.is_head_sent ≡ false
    pub body_open : r.is_body_sent ≡ false
    pub buffer_empty : r.buffer ≡ []
    pub small_id : r.request_id < 65536

  header_record :
      (r : Response)
      → r.buffer ≡ []
      → length (header_content r) < 65536
      → (buffer_header p r).buffer ≡ stdout r (header_content r)
  unfolding buffer_header header_bytes
  header_record r e h = framed r.buffer e
    where
      framed :
          (b : Bytes)
          → b ≡ []
          → let size = (length b + length (header_content r)) % 65536 in
            b
              ++ header_bytes p p.type_stdout r.request_id (swapped size) (padding size)
              ++ header_content r
              ++ replicate (padding size) 0
            ≡ stdout r (header_content r)
      framed [] e =
          let size : (0 + length (header_content r)) % 65536 ≡ length (header_content r) =
            omega arith in
          rw size
      framed (x ∷ b) e = cc

  headed : Option ℕ → Response → Response
  headed status r = record (buffer_header p (with_status status r)) {
    is_head_sent = true;
    buffer = [];
  }

  headed-IsOpenBody : (status : Option ℕ) (r : Response) → IsFresh r → IsOpenBody (headed status r)
  unfolding headed with_status buffer_header
  headed-IsOpenBody none r f = record { head_sent = refl; body_open = f.body_open }
  headed-IsOpenBody (some n) r f = record { head_sent = refl; body_open = f.body_open }

  with_status_keeps :
      (status : Option ℕ) (r : Response)
      → ((with_status status r).buffer ≡ r.buffer)
        × ((headed status r).request_id ≡ r.request_id)
        × ((with_status status r).request_id ≡ r.request_id)
  unfolding headed with_status buffer_header
  with_status_keeps none r = (refl, refl, refl)
  with_status_keeps (some n) r = (refl, refl, refl)

  write_header-fresh :
      (status : Option ℕ) (r : Response)
      → IsFresh r
      → write_header (fastcgi p) status r
        ≡ returns (headed status r, (buffer_header p (with_status status r)).buffer)
  unfolding write_header headed
  write_header-fresh status r f =
      unless_open (r.is_head_sent || r.is_body_sent) "header already sent" _
        (rw (f.head_unsent, f.body_open) refl)

  -- A new response is given its header by `write_header`, then each of the strings by `write`, then
  -- `end`. No call throws, and a reader of records finds, in what goes to the connection, the
  -- output of this request and its end, and nothing behind it: the output is the text of the
  -- header and then the strings put together. The header and each string are shorter than 65536,
  -- and the parser's numbers of the two types of record differ.
  pub responds-unpack :
      (status : Option ℕ) (strs : List Bytes) (r : Response)
      → p.type_stdout ≢ p.type_end_request
      → IsFresh r
      → length (header_content (with_status status r)) < 65536
      → All IsShort strs
      → (q : Response) × (wire : Bytes) × (responds (fastcgi p) status strs r ≡ returns (q, wire))
        × (unpack p r.request_id (suc (suc (suc (length strs)))) wire
            ≡ some (header_content (with_status status r) ++ joined strs, []))
        × (q.ended ≡ true)
  unfolding responds prepend
  responds-unpack status strs r d f h short =
      let (no_buffer, same_id, own_id) = with_status_keeps status r in
      let r' = with_status status r in
      let small : (headed status r).request_id < 65536 = rw same_id f.small_id in
      let sent =
        sends-records strs (headed status r) (headed-IsOpenBody status r f) (unfold headed in refl)
          short in
      let body =
        unpack-records d (suc (suc (length strs))) strs (headed status r) small short
          (omega arith) in
      let wire = records (headed status r) strs in
      let here =
        subst (λ i. unpack p i (suc (suc (length strs))) wire ≡ some (joined strs, [])) same_id
          body in
      let head =
        header_record r' (no_buffer ∙ f.buffer_empty) h
        ∙ ap (λ i. record_of p i p.type_stdout (header_content r')) own_id in
      let read =
        unpack-stdout p r.request_id (suc (suc (length strs))) (header_content r') wire d f.small_id
          h in
      (
        record (headed status r) { buffer = []; is_body_sent = true; ended = true },
        (buffer_header p r').buffer ++ wire,
        rw (write_header-fresh status r f, sent),
        ap (λ x. unpack p r.request_id (suc (suc (suc (length strs)))) (x ++ wire)) head
            ∙ read
            ∙ ap (prepend (header_content r')) here,
        refl,
      )

pub fastcgi-IsFormat : (p : Protocol) → IsFormat (fastcgi p)
unfolding buffer_header buffer_body buffer_ending
fastcgi-IsFormat p = record {
  header_flags = λ r. refl;
  body_flags = λ str r. refl;
  ending_flags = λ r. refl;
}
