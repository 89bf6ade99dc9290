-- ===== src/Io/StreamReader.antt =====
-- src/flame/io/stream_reader.cpp: the buffered reader of a stream. Its buffer holds what the
-- stream brought and nobody has taken; a read waits until the buffer satisfies it. `co->next`
-- and `co->fail` run the coroutine up to its next pause, in which it may read again: what it
-- asks of this reader then is the argument `resumed`, where the source goes on afterwards.
pub mod Buffer
pub mod Delivery
pub mod Reads
pub mod Closing
use Prim.Native.String.{String}
use php_flame.Prelude.{
  ℕ, zero, suc, ◌+◌, ◌≡◌, Bool, true, false, ◌&&◌, Option, none, some, List, [], ◌∷◌, ◌++◌, ltb,
  leb, ◌==◌, if◌then◌else◌, Bytes, length, take, drop,
}

-- d_type: 0, 1, 2 and 3. No other value is ever stored, so the `default` of `read_from_buf`
-- is not reached.
pub data ReadType : Type 0 where
  some_bytes by_size by_endl to_end : ReadType

-- `is_open` is `cli_ != nullptr`, which goes with `tm_ != nullptr`; `timer` is the started `tm_`,
-- and `reading` what uv_read_start began and uv_read_stop ends. A coroutine is a number.
pub record Reader : Type 0 where
  pub is_open : Bool
  pub co : Option ℕ
  pub buf : Bytes
  pub d_size : ℕ
  pub d_endl : Bytes
  pub d_type : ReadType
  pub rv : Bytes
  pub timer : Bool
  pub reading : Bool

-- The resumption of a coroutine: with no value, with the bytes read, or with an error.
pub data Event : Type 0 where
  next : ℕ → Event
  next_with : ℕ → Bytes → Event
  fail : ℕ → ℕ → Event

-- `crashes` is the use of a null pointer.
pub data Result {ℓ} (A : Type ℓ) : Type ℓ where
  returns : A → Result A
  throws : String → Result A
  crashes : Result A

-- `co_` is read by `close` before anything has set it; a new reader is taken with none.
unfoldable pub stream_reader : Reader
stream_reader = record {
  is_open = true;
  co = none;
  buf = [];
  d_size = 0;
  d_endl = [];
  d_type = some_bytes;
  rv = [];
  timer = false;
  reading = false;
}

unfoldable pub starts_with : Bytes → Bytes → Bool
starts_with [] hay = true
starts_with (x ∷ needle) [] = false
starts_with (x ∷ needle) (y ∷ hay) = x == y && starts_with needle hay

-- `std::search`: the index of the first occurrence, or the length of the whole.
unfoldable pub search_for : Bytes → Bytes → ℕ
search_for needle [] = 0
search_for needle (y ∷ hay) =
    if starts_with needle (y ∷ hay) then 0 else suc (search_for needle hay)

-- `rv_ = std::move(buf_)`, and what lies behind `d_size` goes back to the buffer.
unfoldable pub take_sized : Reader → Reader
take_sized r =
    let moved = record r { rv = r.buf; buf = [] } in
    if ltb r.d_size (length r.buf)
    then record moved { buf = drop r.d_size r.buf; rv = take r.d_size r.buf }
    else moved

-- The `switch (d_type)` of `read_from_buf`.
unfoldable pub read_by : ReadType → Reader → Bool × Reader
read_by some_bytes r =
    if ltb 0 (length r.buf) then (true, record r { rv = r.buf; buf = [] }) else (false, r)
read_by by_size r = if leb r.d_size (length r.buf) then (true, take_sized r) else (false, r)
read_by by_endl r =
    let ff = search_for r.d_endl r.buf in
    if ff == length r.buf
    then (false, r)
    else (true, take_sized (record r { d_size = ff + length r.d_endl }))
read_by to_end r = (false, r)

unfoldable pub read_from_buf : Reader → Bool × Reader
unfolding read_by
read_from_buf r = read_by r.d_type r

-- What the three forms of `read` share: return in the next turn of the loop, or start reading.
unfoldable pub start_read : ReadType → ℕ → Bytes → ℕ → Reader → Result Reader
start_read type size endl current r =
    let set = record r { d_type = type; d_size = size; d_endl = endl; co = some current } in
    let (done, r') = read_from_buf set in
    if r.is_open
    then returns (if done then record r' { timer = true } else record r' { reading = true })
    else throws "failed to read: socket is already closed"

-- The calls of the socket classes. `read_all` tests `cli_` last, and on a closed reader starts
-- a timer that is null.
pub data Request : Type 0 where
  read : Request
  read_size : ℕ → Request
  read_endl : Bytes → Request
  read_all : Request

unfoldable pub request : Request → ℕ → Reader → Result Reader
unfolding start_read
request read current r = start_read some_bytes 0 [] current r
request (read_size n) current r = start_read by_size n [] current r
request (read_endl endl) current r = start_read by_endl 0 endl current r
request read_all current r =
    if r.is_open
    then returns
        (record r { d_type = to_end; d_size = 0; d_endl = []; co = some current; reading = true })
    else crashes

-- What a coroutine that is resumed asks of the reader before it pauses again. An exception goes to
-- the coroutine, and leaves the reader as it was.
abbrev pub after : Reader → Result Reader → Result Reader
after r (returns r') = returns r'
after r (throws e) = returns r
after r crashes = crashes

unfoldable pub resume : Option Request → ℕ → Reader → Result Reader
resume none co r = returns r
resume (some q) co r = after r (request q co r)

abbrev pub bind_result :
    Result Reader → (Reader → Result (Reader × List Event)) → Result (Reader × List Event)
bind_result (returns r) k = k r
bind_result (throws e) k = throws e
bind_result crashes k = crashes

unfoldable pub resumption : ℕ → ℕ → Event
resumption co err = if err == 0 then next co else fail co err

-- `uv_timer_stop(tm_)`, which wants a timer, and what follows it.
unfoldable pub give_up : Event → Reader → Result (Reader × List Event)
give_up e r =
    if r.is_open
    then returns (record r { timer = false; reading = false; is_open = false }, e ∷ [])
    else crashes

-- `close`, on the `co_` that it finds: the coroutine runs before the handles are given up.
unfoldable pub close_with : Option ℕ → Option Request → ℕ → Reader → Result (Reader × List Event)
close_with none resumed err r = returns (r, [])
close_with (some co) resumed err r =
    bind_result (resume resumed co (record r { co = none })) λ r'. give_up (resumption co err) r'

unfoldable pub close : Option Request → ℕ → Reader → Result (Reader × List Event)
unfolding close_with
close resumed err r = close_with r.co resumed err r

-- `return_cb`, on the `co_` that it finds; a null one is used all the same.
unfoldable pub return_with : Option ℕ → Option Request → Reader → Result (Reader × List Event)
return_with none resumed r = crashes
return_with (some co) resumed r =
    bind_result (resume resumed co (record r { co = none; rv = [] }))
      λ r'. returns (r', next_with co r.rv ∷ [])

unfoldable pub return_cb : Option Request → Reader → Result (Reader × List Event)
unfolding return_with
return_cb resumed r = return_with r.co resumed r

-- The timer fires once.
unfoldable pub fire_timer : Option Request → Reader → Result (Reader × List Event)
fire_timer resumed r = return_cb resumed (record r { timer = false })

-- What libuv brings: the end, an error (`error n` is `nread == -n`, `n` above 0), nothing yet, or
-- bytes.
pub data Arrival : Type 0 where
  eof again : Arrival
  error : ℕ → Arrival
  bytes : Bytes → Arrival

abbrev pub and_then :
    Result (Reader × List Event)
    → (Reader → Result (Reader × List Event))
    → Result (Reader × List Event)
and_then (returns (r, es)) k = elim (k r) [
  | returns (r', es') ↦ returns (r', es ++ es')
  | throws e ↦ throws e
  | crashes ↦ crashes
]
and_then (throws e) k = throws e
and_then crashes k = crashes

is_to_end : ReadType → Bool
is_to_end to_end = true
is_to_end _ = false

-- `read_cb`. At the end two coroutines may be resumed: the reader's, with all that it read, and
-- the one that has asked again meanwhile (its own resumption asks for `then_`).
unfoldable pub read_cb :
    Arrival → Option Request → Option Request → Reader → Result (Reader × List Event)
unfolding is_to_end
read_cb eof resumed then_ r =
    if is_to_end r.d_type
    then and_then (return_cb resumed (record r { rv = r.buf; buf = [] })) (close then_ 0)
    else close resumed 0 r
read_cb again resumed then_ r = returns (r, [])
read_cb (error e) resumed then_ r = close resumed e r
read_cb (bytes b) resumed then_ r =
    let (done, r') = read_from_buf (record r { buf = r.buf ++ b }) in
    if done then return_cb resumed (record r' { reading = false }) else returns (r', [])
