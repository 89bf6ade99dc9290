-- ===== src/Lib.antt =====
-- The flame extension: coroutines over PHP generators on the loop of libuv, with the sockets,
-- messages and worker threads that resume them.
--
-- A coroutine runs a generator until it yields the mark of an asynchronous call; the object that
-- was called keeps the coroutine and resumes it by `next` or `fail` from a callback of libuv.
-- Readers of streams, messengers and database clients are such objects; blocking libraries run
-- in a worker thread that hands its results back to the main thread.
--
-- Files, by the part of the program (paths from the repository's root):
--   Prelude, Prelude/*: names of the libraries, tests into Bool, lists of bytes, outcomes.
--   Core/Coroutine: src/flame/coroutine.cpp and coroutine.h. `Coroutine` is the object, `run`,
--     `next`, `next_void`, `fail`, `close` and `resume_cb` the functions of these names.
--     Core/Coroutine/Run has what one turn of the loop keeps, Core/Coroutine/Settled that the
--     loop ends, Core/Coroutine/Events what each resumption does; Core/Coroutine/Chaining has `async`,
--     `empty` and `close_cb`.
--   Core/ThreadWorker: src/flame/thread_worker.cpp. `Step` has the turns of both threads;
--     Core/ThreadWorker/Fifo is about order, Core/ThreadWorker/Shutdown about the exit request.
--   Os/Messenger: src/flame/os/cluster/messenger.cpp and `handle`, `ondata` and `send` of
--     cluster.cpp.
--     Os/Messenger/Framing has a machine without blocks, Os/Messenger/RoundTrip the two ends
--     together, Os/Messenger/Handlers the flags of `cb_type`.
--   Io/StreamReader: src/flame/io/stream_reader.cpp. Io/StreamReader/Buffer and Delivery have the
--     cuts of a stream, Reads the reads of a size and up to a mark, Closing its end.
--   Io/StreamWriter: src/flame/io/stream_writer.cpp; Io/StreamWriter/Answers is about its order.
--   Net/Connection: src/flame/net/http/server_connection_base.cpp, with the `close` of both
--     protocols; Net/Connection/Life is about when its socket is closed.
--   Net/Status: the texts of src/flame/net/http/http.cpp.
--   Net/Response: src/flame/net/http/server_response_base.cpp, over a `Format`, which is filled by
--     Net/Response/Http (src/flame/net/http/server_response.cpp) and Net/Response/Fastcgi
--     (src/flame/net/fastcgi/server_response.cpp). Net/Response/Sending is about every format,
--     Chunks and Chunked about the first, Records and Recorded about the second;
--     Net/Response/Cookie has `set_cookie`.
--   Net/Request: what the callbacks of src/flame/net/http/server_connection.cpp and
--     src/flame/net/fastcgi/server_connection.cpp have in common, Net/Request/Http and
--     Net/Request/Fastcgi those of each; Headers and Protocols are about the array of headers.
--   Net/Handler: src/flame/net/http/server_handler.h; Net/Handler/Routes is about its map of routes,
--     Net/Handler/Sessions about the order of the coroutines of a session.
--   Net/Client: src/flame/net/http/client_request.cpp, with Client/Built about what it builds and Client/Upload
--     `body_read_cb`; Client/Running and Client/Polls: the requests and the callbacks of client.cpp.
--   Net/Acceptor: src/flame/net/server_acceptor.h.
--   Net/UdpSocket: src/flame/net/udp_socket.cpp; Net/UdpSocket/Phases and Receiving are about its life.
--   Db/Mysql: the values and `val_to_buffer` of src/flame/db/mysql/client.cpp; Db/Mysql/Clauses has
--     src/flame/db/mysql/mysql.cpp, Db/Mysql/Statements the statements of client.cpp.
--     Db/Mysql/Where is about `format` and conditions, Db/Mysql/Literals about strings.
--   Db/Mysql/Link: src/flame/db/mysql/client_implement.cpp; Link/Client has the callbacks of client.cpp and
--     `~result_set`, Link/Urls `connect`. Link/Connecting and Link/Turns are about one turn of the worker thread,
--     Answered, Working, Callbacks and Kept about every run, Remaining and Drained about its end.
--   Db/Mysql/Rows: `sql_fetch_row` and `sql_fetch_all` of mysql.cpp.
--   Db/Redis: the replies of src/flame/db/redis.cpp; Db/Redis/Commands has its commands and their
--     callbacks, Db/Redis/Subscription what subscribe() starts, Db/Redis/Link the connection.
--     Db/Redis/Values is about the values of replies, Pairs about the arrays made of them, Pushes, Resumption and Patterns about
--     subscriptions, Reconnect and Refusal about the connection.
--   Db/Mongodb: the conversions of src/flame/db/mongodb/mongodb.cpp; Db/Mongodb/Stored is about the
--     values that come back.
--   Db/Rabbitmq: src/flame/db/rabbitmq/table.cpp, and Db/Rabbitmq/Converted what comes back of a table;
--     Db/Rabbitmq/Connection: client_implement.cpp and the callbacks, which Connection/Refined compares with
--     what a connection promises; Db/Rabbitmq/Properties: `produce_wk` and message.cpp, and
--     Properties/Carried; Db/Rabbitmq/Clients: consumer.cpp and producer.cpp.
--   Db/Kafka: `consume_wk` of src/flame/db/kafka/consumer_implement.cpp.
--   Time/Ticker: src/flame/time/ticker.cpp; Time/Ticker/Living is about its reference.
--   Log/Logger: src/flame/log/logger.cpp; Log/Logger/Writing is about where it writes.
--   Tests, Tests/*: runs at fixed inputs and the theorems applied there.
--
-- Bounds and fuel: `char` and `short` of the messenger are 8-bit and 16-bit patterns with the
-- source's sign extension and wrap-around written out. `run` of a coroutine is on fuel, since a
-- PHP generator may yield values for ever; where a weight of the generators falls with each
-- resumption, fuel above the weight is enough, and the theorems show that it is. The loop of
-- `sql_fetch_all` has fuel for the rows of the result and its end, those of Kafka's `consume_wk` for
-- the polls up to the one that ends the first, and up to the empty queue that ends the second. All other loops are structural.
--
-- Parameters: PHP generators (`Script`), the pending handles of a pipe (`Pipe`), what a
-- resumed coroutine asks of a reader before it pauses (`resumed`), and the numbers of the FastCGI
-- protocol (`Protocol`), which stand in the header of its parser; mysql_real_escape_string and
-- PHP's conversions of values (`Outside`, `Php`); libmysqlclient on a connection (`Driver`, which
-- `Reports` its errors) and on a result (`Results`), and php::parse_url. librabbitmq stands in the
-- works of its connection by what it returns, libcurl by the calls that it makes. hiredis stands in the model of the Redis client
-- by what its calls return and by the callbacks it makes; the parsers of requests by what they hand
-- to their callbacks, with PHP's url_decode and json_decode (`Parsers`).
--
-- Not modelled: the timer of the pings of MySQL, the connections and results of the MongoDB client, Kafka but for `consume_wk`, the
-- sockets of streams, the parsers of requests, the responses of the client of HTTP and its
-- options of TLS, the clock, and the registration of
-- functions and classes with PHP.
pub mod Prelude
pub mod Core
pub mod Os
pub mod Io
pub mod Net
pub mod Db
pub mod Time
pub mod Log
mod Tests
