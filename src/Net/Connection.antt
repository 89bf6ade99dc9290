-- ===== src/Net/Connection.antt =====
-- src/flame/net/http/server_connection_base.cpp, with `close` of http/server_connection.cpp and
-- fastcgi/server_connection.cpp: the life of a server's connection, which ends
-- when the responses that refer to it are gone. The bytes that libuv brings go to `parse` of the
-- protocols, whose answer is an argument.
pub mod Life
use php_flame.Prelude.{
  ℕ, suc, ◌+◌, ◌-◌, ◌<◌, ◌≡◌, Bool, true, false, not, ◌&&◌, List, [], ◌∷◌, ◌++◌, ◌==◌,
  if◌then◌else◌, Bytes, length,
}

-- `refer` is `refer_`, which no response takes below 0; `reading` is what uv_read_start began.
-- `closes` counts the calls of uv_close on the socket, `written` has the data of uv_write.
pub record Connection : Type 0 where
  pub refer : ℕ
  pub is_closing : Bool
  pub reading : Bool
  pub closes : ℕ
  pub written : List Bytes

unfoldable pub connection : Connection
connection = record { refer = 0; is_closing = false; reading = false; closes = 0; written = [] }

-- `refer`, which each new response calls.
unfoldable pub add_refer : Connection → Connection
add_refer c = record c { refer = suc c.refer }

unfoldable pub close_ex : Connection → Connection
close_ex c =
    let stopped = record c { reading = false; is_closing = true } in
    if c.refer == 0 then record stopped { closes = suc c.closes } else stopped

-- `close` of the two protocols, which each response calls when it goes, with their mark that the
-- connection is kept: http_should_keep_alive or FASTCGI_FLAGS_KEEP_CONN. It overrides the one of
-- the base class, which nothing else calls.
unfoldable pub close : Bool → Connection → Connection
close keeps c =
    let left = record c { refer = c.refer - 1 } in
    if (c.refer == 1) && not keeps then close_ex left else left

unfoldable pub write_in : Bool → Bytes → Connection → Bool × Connection
write_in true str c = (false, c)
write_in false str c = (true, record c { written = c.written ++ str ∷ [] })

-- `write`: whether it will resume the coroutine.
unfoldable pub write : Bytes → Connection → Bool × Connection
write str c = write_in c.is_closing str c

-- `start`, with what uv_read_start answers: `false` is an error.
unfoldable pub start : Bool → Connection → Connection
start true c = record c { reading = true }
start false c = close_ex c

-- What a read brings: the end or an error, or bytes, of which `parse` takes `parsed`.
pub data Arrival : Type 0 where
  ended : Arrival
  bytes : Bytes → (parsed : ℕ) → Arrival

unfoldable pub read_cb : Arrival → Connection → Connection
read_cb ended c = close_ex c
read_cb (bytes read parsed) c = if parsed == length read then c else close_ex c

-- The events of a connection, as long as its handle is not closed: a response is made while the
-- connection reads, and goes at any time; a read comes while the connection reads.
pub data Step (c : Connection) : Connection → Type 0 where
  responds : c.reading ≡ true → Step c (add_refer c)
  drops : (keeps : Bool) → 0 < c.refer → Step c (close keeps c)
  reads : (a : Arrival) → c.reading ≡ true → Step c (read_cb a c)
  writes : (str : Bytes) → Step c (write str c).1

pub data Reach : Connection → Type 0 where
  started : (ok : Bool) → Reach (start ok connection)
  more : {c d : Connection} → Reach c → Step c d → Reach d

pub data Later (c : Connection) : Connection → Type 0 where
  at_once : Later c c
  then_ : {d e : Connection} → Later c d → Step d e → Later c e
