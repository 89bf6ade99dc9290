-- ===== src/Io/StreamReader/Closing.antt =====
-- The end of a stream: what the waiting coroutine gets, and what the reader is good for then.
use php_flame.Prelude.{
  joined, ℕ, ◌<◌, ◌≡◌, ◌≢◌, ◌⊎◌, inl, inr, refl, true, false, none, some, List, [], ◌∷◌, ◌++◌,
  arith, ◌==◌, if◌then◌else◌, Bytes,
}
use php_flame.Io.StreamReader.{
  Reader, ReadType, some_bytes, by_size, by_endl, to_end, next, next_with, fail, returns, throws,
  crashes, Arrival, eof, error, Request, read, read_size, read_endl, read_all, request, resume,
  close, return_cb, read_cb, read_from_buf, start_read, take_sized, read_by, resumption, give_up,
}
use php_flame.Io.StreamReader.Buffer.{cut_by}
use php_flame.Io.StreamReader.Delivery.{run_blocks, run_blocks_uncut}

-- `read_all` on an open reader, with the stream's blocks and then its end, which resumes a
-- coroutine that asks for no more: nothing is handed over before the end, and then all of the
-- buffer and the blocks at once; the buffer is empty and nobody waits.
pub read_all_gets :
    (r r' : Reader) (c : ℕ) (blocks : List Bytes)
    → r.is_open ≡ true
    → request read_all c r ≡ returns r'
    → (q : Reader) × (q' : Reader) × (run_blocks blocks r' ≡ returns (q, [], []))
      × (read_cb eof none none q ≡ returns (q', next_with c (r.buf ++ joined blocks) ∷ []))
      × (q'.buf ≡ [])
      × (q'.co ≡ none)
unfolding read_cb return_cb resume close
read_all_gets r r' c blocks o e =
    let set = record r { d_type = to_end; d_size = 0; d_endl = []; co = some c; reading = true } in
    let started : r' ≡ set = unfold request in ground arith in
    let q = record set { buf = r.buf ++ joined blocks } in
    rw started (
      q,
      record q { buf = []; rv = []; co = none },
      run_blocks_uncut c blocks set (λ z. cc) (unfold cut_by in refl),
      refl,
      refl,
      refl,
    )

ends :
    (r : Reader) (c n : ℕ) (a : Arrival)
    → r.is_open ≡ true
    → r.co ≡ some c
    → ((a ≡ eof) × (r.d_type ≢ to_end) × (n ≡ 0)) ⊎ ((a ≡ error n) × (0 < n))
    → read_cb a none none r
      ≡ returns (
        record r { co = none; timer = false; reading = false; is_open = false },
        (if n == 0 then next c else fail c n) ∷ [],
      )
unfolding read_cb close resume give_up resumption
ends r c n a o w (inl (e, t, z)) = rw (e, z) (ground arith)
ends r c n a o w (inr (e, p)) = rw e (ground arith)

-- A read that waits when the stream ends or fails (a read to the end that fails included) is
-- resumed with no value, or with the error, and the reader is closed for good: each further
-- `read` throws and `read_all` uses a null timer, whoever asks.
pub read_cb_ends :
    (r : Reader) (c n : ℕ) (a : Arrival)
    → r.is_open ≡ true
    → r.co ≡ some c
    → ((a ≡ eof) × (r.d_type ≢ to_end) × (n ≡ 0)) ⊎ ((a ≡ error n) × (0 < n))
    → (q : Reader) × (read_cb a none none r
        ≡ returns (q, (if n == 0 then next c else fail c n) ∷ []))
      × (q.co ≡ none)
      × (q.reading ≡ false)
      × (q.timer ≡ false)
      × ((d : ℕ) → request read d q ≡ throws "failed to read: socket is already closed")
      × ((d : ℕ) → request read_all d q ≡ crashes)
read_cb_ends r c n a o w h =
    let q = record r { co = none; timer = false; reading = false; is_open = false } in
    (
      q,
      ends r c n a o w h,
      refl,
      refl,
      refl,
      λ d. unfold request start_read in refl,
      λ d. unfold request in refl,
    )

read_by_keeps :
    (t : ReadType) (r : Reader)
    → ((read_by t r).1.co ≡ r.co) × ((read_by t r).1.is_open ≡ r.is_open)
unfolding read_by take_sized
read_by_keeps some_bytes r = ground arith
read_by_keeps by_size r = ground arith
read_by_keeps by_endl r = ground arith
read_by_keeps to_end r = (refl, refl)

start_read_sets :
    (t : ReadType) (n c : ℕ) (endl : Bytes) (r r' : Reader)
    → start_read t n endl c r ≡ returns r'
    → (r'.co ≡ some c) × (r'.is_open ≡ true)
unfolding start_read read_from_buf
start_read_sets t n c endl r r' e =
    let set = record r { d_type = t; d_size = n; d_endl = endl; co = some c } in
    ground (arith, read_by_keeps t set)

request_sets :
    (q : Request) (c : ℕ) (r r' : Reader)
    → request q c r ≡ returns r'
    → (r'.co ≡ some c) × (r'.is_open ≡ true)
unfolding request
request_sets read c r r' e = start_read_sets some_bytes 0 c [] r r' e
request_sets (read_size n) c r r' e = start_read_sets by_size n c [] r r' e
request_sets (read_endl endl) c r r' e = start_read_sets by_endl 0 c endl r r' e
request_sets read_all c r r' e = ground arith

-- A coroutine that `close` resumes and that reads again at once, on a reader which still
-- looks open, is left waiting in a closed reader. No timer and no read of the stream will resume
-- it, and the next `close` uses a null timer.
pub close_strands :
    (r r' : Reader) (c err : ℕ) (q : Request)
    → r.is_open ≡ true
    → r.co ≡ some c
    → request q c (record r { co = none }) ≡ returns r'
    → (s : Reader) × (close (some q) err r ≡ returns (s, resumption c err ∷ []))
      × (s.co ≡ some c)
      × (s.is_open ≡ false)
      × (s.reading ≡ false)
      × (s.timer ≡ false)
      × (close none err s ≡ crashes)
unfolding close resume give_up
close_strands r r' c err q o w e =
    let set = request_sets q c (record r { co = none }) r' e in
    let s = record r' { timer = false; reading = false; is_open = false } in
    (s, rw (w, e, set.1), set.0, refl, refl, refl, rw (set.0))
