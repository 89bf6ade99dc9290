-- ===== src/Net/UdpSocket.antt =====
-- src/flame/net/udp_socket.cpp: a UDP socket. What libuv returns is an argument of each call, 0 or
-- the magnitude of its error; the callbacks that it makes are the functions of these names. A
-- coroutine that is resumed may call the socket at once: `again` are its calls and those of the
-- coroutines that it starts, in order.
pub mod Phases
pub mod Receiving
use Prim.Native.String.{String}
use php_flame.Prelude.{
  ℕ, zero, suc, ◌+◌, ◌<◌, ◌≡◌, Bool, true, false, not, Option, none, some, List, [], ◌∷◌, ◌++◌,
  if◌then◌else◌, Bytes,
}

-- A coroutine resumed with a packet, resumed, or failed with an error.
pub data Event : Type 0 where
  next_packet : ℕ → Bytes → Event
  next : ℕ → Event
  fail : ℕ → ℕ → Event

-- `sck`, `co_`, `init_` and `bound_`; whether libuv receives; the coroutines of the requests that
-- libuv has; how often the socket was released, by uv_close or by free.
pub record Socket : Type 0 where
  pub sck : Bool
  pub co : Option ℕ
  pub init : Bool
  pub bound : Bool
  pub receiving : Bool
  pub requests : List ℕ
  pub events : List Event
  pub released : ℕ

unfoldable pub udp_socket : Socket
udp_socket = record {
  sck = true;
  co = none;
  init = false;
  bound = false;
  receiving = false;
  requests = [];
  events = [];
  released = 0;
}

-- A call ends, or throws; what it has changed before stays.
pub data Call : Type 0 where
  returns : Call
  throws : String → Call
  throws_error : ℕ → Call

-- uv_udp_init_ex makes a new handle of the socket, which does not receive and has no requests,
-- whatever it was before.
unfoldable pub init_ex : Socket → Socket
init_ex s = record s { init = true; receiving = false; requests = [] }

-- `bind`, by the errors of sock_addrfrom and of uv_udp_bind.
unfoldable pub bind_in : Bool → ℕ → ℕ → Socket → Call × Socket
bind_in false addr_err bind_err s = (throws "bind failed: socket is already closed", s)
bind_in true (suc e) bind_err s = (throws_error (suc e), s)
bind_in true zero (suc e) s = (throws_error (suc e), init_ex s)
bind_in true zero zero s = (returns, record (init_ex s) { bound = true })

unfoldable pub bind : ℕ → ℕ → Socket → Call × Socket
bind addr_err bind_err s = bind_in s.sck addr_err bind_err s

-- `recv`, by the error of uv_udp_recv_start.
unfoldable pub recv_in : Bool → Bool → ℕ → ℕ → Socket → Call × Socket
recv_in false bound err co s = (throws "recv failed: socket is already closed", s)
recv_in true false err co s = (throws "recv failed: socket is not bound", s)
recv_in true true (suc e) co s = (throws_error (suc e), s)
recv_in true true zero co s = (returns, record s { receiving = true; co = some co })

unfoldable pub recv : ℕ → ℕ → Socket → Call × Socket
recv err co s = recv_in s.sck s.bound err co s

unfoldable pub answer : ℕ → ℕ → Event
answer zero co = next co
answer (suc e) co = fail co (suc e)

-- The release of the socket; `none` is the use of `sck` where it is null.
unfoldable pub release : Bool → Socket → Option Socket
release false s = none
release true s = some (record s { sck = false; receiving = false; released = suc s.released })

-- `send`, by the errors of sock_addrfrom and of uv_udp_send.
unfoldable pub send_in : Bool → ℕ → ℕ → ℕ → Socket → Call × Socket
send_in false addr_err err co s = (throws "send failed: socket is already closed", s)
send_in true (suc e) err co s = (throws_error (suc e), s)
send_in true zero (suc e) co s = (throws_error (suc e), record s { init = true })
send_in true zero zero co s = (returns, record s { init = true; requests = s.requests ++ co ∷ [] })

unfoldable pub send : ℕ → ℕ → ℕ → Socket → Call × Socket
send addr_err err co s = send_in s.sck addr_err err co s

-- Calls of PHP on the socket, in order: those behind `ask_close` in its first list are made by the
-- coroutine that it resumes.
pub data Asks : Type 0 where
  no_ask : Asks
  ask_bind : ℕ → ℕ → Asks → Asks
  ask_recv : ℕ → ℕ → Asks → Asks
  ask_send : ℕ → ℕ → ℕ → Asks → Asks
  ask_close : Asks → Asks → Asks

-- `close(err)`: only where a coroutine waits in recv(), which is resumed in between.
unfoldable pub close_in : Option ℕ → ℕ → (Socket → Option Socket) → Socket → Option Socket
close_in none err resumed s = some s
close_in (some co) err resumed s =
    elim (resumed (record s { co = none; events = s.events ++ answer err co ∷ [] })) [
      | none ↦ none
      | some t ↦ release t.sck t
    ]

unfoldable pub and_then : Option Socket → (Socket → Option Socket) → Option Socket
and_then none f = none
and_then (some s) f = f s

unfoldable pub resumes : Asks → Socket → Option Socket
resumes no_ask s = some s
resumes (ask_bind addr_err bind_err more) s = resumes more (bind addr_err bind_err s).1
resumes (ask_recv err co more) s = resumes more (recv err co s).1
resumes (ask_send addr_err err co more) s = resumes more (send addr_err err co s).1
resumes (ask_close again more) s =
    and_then (close_in s.co 0 (λ t. resumes again t) s) (λ t. resumes more t)

unfoldable pub close : ℕ → Asks → Socket → Option Socket
close err again s = close_in s.co err (λ t. resumes again t) s

-- What libuv hands to recv_cb: UV_EOF, an error, nothing, or a packet.
pub data Arrival : Type 0 where
  eof : Arrival
  error : ℕ → Arrival
  nothing : Arrival
  packet : Bytes → Arrival

-- `none` is the use of `co_` where it is null.
unfoldable pub take_packet : Option ℕ → Bytes → Asks → Socket → Option Socket
take_packet none str again s = none
take_packet (some co) str again s =
    resumes again
      (record s { receiving = false; co = none; events = s.events ++ next_packet co str ∷ [] })

unfoldable pub recv_cb : Arrival → Asks → Socket → Option Socket
recv_cb eof again s = close 0 again s
recv_cb (error e) again s = close (suc e) again s
recv_cb nothing again s = some s
recv_cb (packet str) again s = take_packet s.co str again s

-- The status of a request: sent, UV_ECANCELED, or another error.
pub data Status : Type 0 where
  sent canceled : Status
  broken : ℕ → Status

-- `send_cb` of the first request; `again` as in recv_cb.
unfoldable pub sent_in : List ℕ → Status → Asks → Socket → Option Socket
sent_in [] status again s = some s
sent_in (co ∷ rest) sent again s =
    resumes again (record s { requests = rest; events = s.events ++ next co ∷ [] })
sent_in (co ∷ rest) canceled again s =
    resumes again (record s { requests = rest; events = s.events ++ next co ∷ [] })
sent_in (co ∷ rest) (broken e) again s = close (suc e) again (record s { requests = rest })

unfoldable pub send_cb : Status → Asks → Socket → Option Socket
send_cb status again s = sent_in s.requests status again s

-- The runs of a socket: libuv calls recv_cb only while it receives.
pub data Reach : Socket → Type 0 where
  created : Reach udp_socket
  binds : {s : Socket} (addr_err bind_err : ℕ) → Reach s → Reach (bind addr_err bind_err s).1
  recvs : {s : Socket} (err co : ℕ) → Reach s → Reach (recv err co s).1
  sends : {s : Socket} (addr_err err co : ℕ) → Reach s → Reach (send addr_err err co s).1
  closes : {s t : Socket} (again : Asks) → Reach s → close 0 again s ≡ some t → Reach t
  receives :
      {s t : Socket} (arrival : Arrival) (again : Asks)
      → Reach s
      → s.receiving ≡ true
      → recv_cb arrival again s ≡ some t
      → Reach t
  answers :
      {s t : Socket} (status : Status) (again : Asks)
      → Reach s
      → send_cb status again s ≡ some t
      → Reach t
