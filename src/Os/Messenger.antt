-- ===== src/Os/Messenger.antt =====
-- src/flame/os/cluster/messenger.cpp: messages between the processes over a pipe. `parse` takes
-- what each read of the pipe brings, `send` writes a message, and `handle` and `ondata` of
-- src/flame/os/cluster/cluster.cpp set the callbacks. A `short` is its 16-bit pattern, a `char`
-- is a byte below 256 that widens with its sign, as it does on the platforms of libuv's Linux
-- builds.
pub mod Framing
pub mod RoundTrip
pub mod Handlers
use Prim.Native.Nat.{bit_or}
use Prim.Native.String.{String}
use php_flame.Prelude.{
  ℕ, zero, suc, ◌+◌, ◌-◌, ◌*◌, ◌/◌, ◌%◌, ◌^◌, ◌<◌, ◌≡◌, Bool, true, false, ◌&&◌, ◌||◌, not, Option,
  none, some, List, [], ◌∷◌, ◌++◌, ltb, leb, ◌==◌, if◌then◌else◌, has_bit, set_bit, Bytes, length,
  take, drop, Outcome, returns, throws,
}

-- PPS_SIZE_0, PPS_SIZE_1 and PPS_DATA.
pub data Stat : Type 0 where
  size_0 size_1 in_data : Stat

-- `sockets` counts the calls of `on_socket`, by which the pipe's answers are told apart.
pub record Messenger : Type 0 where
  pub stat : Stat
  pub size : ℕ
  pub data_ : Bytes
  pub cb_type : ℕ
  pub sockets : ℕ

-- uv_handle_type, as far as `on_socket` tells its values apart.
pub data HandleType : Type 0 where
  tcp named_pipe other_handle : HandleType

-- What a call makes happen outside: a coroutine started on a callback, or a line of the log.
pub data Event : Type 0 where
  on_string_called : Bytes → Event
  on_server_called : HandleType → Event
  on_socket_called : HandleType → Event
  accept_logged : ℕ → Event
  wrong_format_logged : Event

unfoldable pub messenger : Messenger
messenger = record { stat = size_0; size = 0; data_ = []; cb_type = 0; sockets = 0 }

-- `size_ = c`, with the sign of the char.
unfoldable pub size_of_char : ℕ → ℕ
size_of_char c = if ltb c 128 then c else c + 65280

-- `size_ |= c << 8`: the low 16 bits of the result.
unfoldable pub or_shifted : ℕ → ℕ → ℕ
or_shifted size c = bit_or size (c * 256)

-- `--size_`.
unfoldable pub pred16 : ℕ → ℕ
pred16 size = (size + 65535) % 65536

-- libuv's side: the type of the n-th pending handle, and the error of accepting it, if any.
pub record Pipe : Type 0 where
  pub pending_type : ℕ → HandleType
  pub accept : ℕ → Option ℕ

accepted : HandleType → Option ℕ → List Event
accepted type none = on_socket_called type ∷ []
accepted type (some err) = accept_logged err ∷ []

-- The branches on `type`, behind the tests of `cb_type`.
accept_type : HandleType → Option ℕ → List Event
unfolding accepted
accept_type tcp e = accepted tcp e
accept_type named_pipe e = accepted named_pipe e
accept_type other_handle e = []

module _ (pipe : Pipe) where
  unfoldable pub on_socket : Messenger → Messenger × List Event
  unfolding accept_type
  on_socket m =
      let type = pipe.pending_type m.sockets in
      let m' = record m { sockets = suc m.sockets } in
      if has_bit m.cb_type 2
      then (m', on_server_called type ∷ [])
      else if not (has_bit m.cb_type 1)
      then (m', [])
      else (m', accept_type type (pipe.accept m.sockets))

unfoldable pub on_string : Messenger → Messenger × List Event
on_string m =
    if not (has_bit m.cb_type 0)
    then (m, [])
    else (record m { data_ = [] }, on_string_called m.data_ ∷ [])

-- `std::memcpy(data_.put(i-mark+1), data + mark, i-mark+1)`.
unfoldable pub copy_from : Bytes → ℕ → ℕ → Bytes → Bytes
copy_from block mark i data_ = data_ ++ take (i - mark + 1) (drop mark block)

-- What one turn of the loop of `parse` leaves: the new `mark`, the object and its effects.
pub record Turn : Type 0 where
  pub mark : ℕ
  pub state : Messenger
  pub events : List Event

module _ (pipe : Pipe) (block : Bytes) where
  -- The `switch (stat_)` at the byte `c` of index `i`.
  unfoldable pub turn_in : Stat → ℕ → ℕ → ℕ → Messenger → Turn
  turn_in size_0 i mark c m = record {
    mark = mark;
    state = record m { size = size_of_char c; stat = size_1 };
    events = [];
  }
  turn_in size_1 i mark c m =
      let s = or_shifted m.size c in
      let (m', es) = on_socket pipe (record m { size = s; stat = size_0 }) in
      if s == 0
      then record { mark = mark; state = m'; events = es }
      else record { mark = i + 1; state = record m { size = s; stat = in_data }; events = [] }
  turn_in in_data i mark c m =
      let s = pred16 m.size in
      let copied = record m { size = s; data_ = copy_from block mark i m.data_ } in
      let (m', es) = on_string (record copied { stat = size_0 }) in
      if s == 0
      then record { mark = mark; state = m'; events = es }
      else if i + 1 == length block
      then record { mark = mark; state = copied; events = [] }
      else record { mark = mark; state = record m { size = s }; events = [] }

  -- `while (i < size)`: the third argument is what is left of the block from index `i`. The
  -- result begins with the `i` that `parse` returns.
  unfoldable pub parse_loop : ℕ → ℕ → Bytes → Messenger → ℕ × Messenger × List Event
  parse_loop i mark [] m = (i, m, [])
  parse_loop i mark (c ∷ rest) m =
      let t = turn_in m.stat i mark c m in
      let (n, m', es) = parse_loop (i + 1) t.mark rest t.state in (n, m', t.events ++ es)

module _ (pipe : Pipe) where
  unfoldable pub parse : Bytes → Messenger → ℕ × Messenger × List Event
  parse block m = parse_loop pipe block 0 0 block m

  -- `read_cb`; `none` is a negative `nread`, the end of the pipe included.
  unfoldable pub read_cb : Option Bytes → Messenger → Messenger × List Event
  read_cb none m = (m, [])
  read_cb (some []) m = (m, [])
  read_cb (some (c ∷ rest)) m =
      let block = c ∷ rest in
      let (n, m', es) = parse block m in
      (m', if n == length block then es else es ++ wrong_format_logged ∷ [])

  -- The reads of a pipe, in order.
  unfoldable pub read_all : List Bytes → Messenger → Messenger × List Event
  read_all [] m = (m, [])
  read_all (block ∷ blocks) m =
      let (m', es) = read_cb (some block) m in
      let (m'', es') = read_all blocks m' in (m'', es ++ es')

-- The argument of `send`: a socket object of one of the two classes, or anything else, as text.
pub data Message : Type 0 where
  unix_socket tcp_socket : Message
  text : Bytes → Message

-- The bytes that `send` hands to libuv, and whether the socket goes with them. A length above
-- 32767 is stored in `short len`, whose two bytes are those of the length.
unfoldable pub send : Message → Outcome (Bytes × Bool)
send unix_socket = returns (0 ∷ 0 ∷ [], true)
send tcp_socket = returns (0 ∷ 0 ∷ [], true)
send (text str) =
    if ltb 65535 (length str) || ltb (length str) 1
    then throws "failed to send message: length overflow or less than one"
    else returns (length str % 256 ∷ length str / 256 ∷ str, false)

-- The argument of `handle`: an object whose __CONNECTION_HANDLER__ is true, a callable, or neither.
pub data Handler : Type 0 where
  connection_handler callable not_callable : Handler

-- `cluster::handle` and `cluster::ondata`, on the messenger in place.
unfoldable pub handle : Handler → Messenger → Outcome Messenger
handle connection_handler m = returns (record m { cb_type = set_bit m.cb_type 2 })
handle callable m = returns (record m { cb_type = set_bit m.cb_type 1 })
handle not_callable m = throws "callale is required as socket handler"

unfoldable pub ondata : Bool → Messenger → Outcome Messenger
ondata true m = returns (record m { cb_type = set_bit m.cb_type 0 })
ondata false m = throws "callale is required as string handler"

-- The argument of `cluster::send` is a string, with its bytes, or not.
unfoldable pub send_string : Option Bytes → Outcome (Bytes × Bool)
send_string none = throws "failed to send: only string is allowed"
send_string (some str) = send (text str)

-- `cluster::send`, by `default_msg`.
unfoldable pub cluster_send : Option Messenger → Option Bytes → Outcome (Bytes × Bool)
cluster_send none str = throws "failed to send: ipc handler not set"
cluster_send (some m) str = send_string str

-- The callbacks of `send`: send_string_cb and send_socket_cb, which closes the socket in this
-- process; then the coroutine, where there is one, goes on.
pub data SendEvent : Type 0 where
  closes_socket : SendEvent
  resumes : ℕ → SendEvent

unfoldable pub send_cb : Bool → Option ℕ → List SendEvent
send_cb false none = []
send_cb false (some co) = resumes co ∷ []
send_cb true none = closes_socket ∷ []
send_cb true (some co) = closes_socket ∷ resumes co ∷ []
