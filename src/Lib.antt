-- ===== src/Lib.antt =====
-- A model of csi-http, an HTTP server library over boost::asio and http_parser, and what holds of it.
--
-- The program. A server (csi_http/server/http_server.cpp, https_server.cpp) accepts connections. A
-- connection (http_connection.cpp, https_connection.cpp, over connection.cpp) feeds the bytes that it
-- reads to http_parser, whose callbacks fill in a request (request.cpp). A complete request goes to the
-- server's table of handlers (server.h), which finds one by its pattern (utils/uri_pattern.cpp). The
-- handler fills in a reply (reply.cpp), at once or later, and the connection writes it and reads on. A
-- client (client/http_client.cpp) performs requests with libcurl, whose callbacks it serves.
--
-- The files.
--   Base          names of the libraries, Boolean tests, lists over the native numbers, ASCII texts,
--                 and decimal numbers as `%d` prints them.
--   Boost, Avro, Externals
--                 the libraries that the program calls, as parameters: `boost::split`, avro's memory
--                 streams, and, in one record, uuids, the string algorithms and http_parser. Their
--                 `Is...` records are the documented behaviour that some results rest on; their Model
--                 modules have an instance of each, which satisfies it.
--   Uri           `uri_pattern`: `uri_pattern`, `match`.
--   Server        server.h: `add_handler`, `handle_request`, `get_no_of_requests`, with the loops as
--                 `dispatch` and `sum_requests`. The connection is a type parameter, as there.
--   Status        csi_http.h and csi_http.cpp: `StatusType`, `MethodT` and their texts. A value without
--                 an enumerator, which a cast can make, is `unlisted`.
--   Reply         reply.cpp, reply.h and header.h: `create`, `add`, `reset`, `to_buffers`, the tables
--                 of status lines and pages in Reply.Lines. Reply.Reader is a client's reader of a
--                 response, written for the round trip and no part of the program.
--   Request       request.cpp and request.h: `reset`, `get_header`, `request_id`, `request_uuid`.
--   Connection    connection.cpp and connection.h: the callbacks `on_...`, `http_parse`, and the two
--                 arrays of 4096 bytes in Connection.Buffer.
--   Asio          what the connections use of boost::asio: the operations that are pending, with the
--                 timer's and the socket's `cancel`, and the lines of the log.
--   HttpConnection, HttpsConnection
--                 the connections without and with TLS: `start`, `send_reply`,
--                 `wait_for_async_reply`, `notify_async_reply_done` and every `handle_...`, by their
--                 names in the source. HttpConnection.Steps has the runs of the first, over a server
--                 that is a parameter with an interface.
--                 HttpConnection.EndToEnd follows one request from the parser to the written reply.
--                 HttpsConnection.Steps has the runs of the second with a server that answers at once.
--   HttpServer, HttpsServer
--                 http_server.cpp and https_server.cpp with their headers: the handler table as that
--                 server, and `handle_accept`.
--   HttpClient    http_client.cpp and http_client.h. CallContext and Streams: a request, what libcurl is
--                 told about it, and the callbacks that move its content. Sockets: the client's map of
--                 sockets, its waits and what is queued. Callbacks: `sock_cb`, `multi_timer_cb` and the
--                 callbacks of sockets as `make_callbacks` does them one after the other. Run: what the
--                 io_service calls, and the runs. Queue, Sound, Counts and the modules after them are
--                 their proofs; Runs and Completion have what the runs promise.
--   Encoding      csi_http/encoding: every function by its name. Encoding.Rest is about a request with a
--                 value as its content, and what the peer decodes. Of the functions for json_spirit there are
--                 only the definitions, since what json_spirit promises of a value that is read back is not
--                 documented.
--   Spinlock      spinlock.h and spinlock.cpp, with threads that call a handler under the lock as
--                 `handler_data::call` of server.h does.
--   AvroHttpServerSample
--                 samples/avro_http_server_sample: its service and its request handler. Handling: they keep
--                 to the interface of HttpServer. Answers: what they answer.
--
-- Conventions. A text is a list of bytes. A C++ object is a record, and a method takes the record and
-- returns it changed. `none` stands for what must not happen: a read or write out of bounds, a null
-- pointer, an exception. What a constructor leaves unset is an argument of it, and so is what a call
-- draws from outside, such as a random uuid. `uint64_t` counters wrap around at 2 ^ 64; `%d` of an
-- `int` is taken modulo 2 ^ 32 with its sign; other sizes are numbers without a bound. Every loop is a
-- recursion on a list or on a count, so nothing runs on fuel, but for the reader of Reply.Reader,
-- whose fuel is the number of header lines that it may read; the round trip says how much is enough.
--
-- An assertion vanishes where `NDEBUG` is defined, as in the Release build of build_linux.sh. Whether it
-- is, is an argument of what asserts: without it a failed assertion ends the run, with it the code goes
-- on, which in `sock_cb` is the use of a null pointer and in `_perform` a request without its method.
--
-- Asynchronous operations complete in any order and with any code, but `operation_aborted` comes only
-- from an operation that was aborted, and an aborted one may still have succeeded. Time is not
-- modelled: a timer may expire at any moment. Handlers of one connection run one after the other. The
-- lock around a handler call is taken as one step, but in Spinlock. Log lines are kept without the
-- peer's address and the duration; the exception of a peer that is gone is kept.
--
-- libcurl is a parameter: for each call into it, the callbacks that it makes before it returns. A call
-- from inside the timer's callback has its callbacks there. The client's io_service is run by one thread.
-- A deleted socket's pointer is not given again, but the pointer of one that could not be opened is.
--
-- Not modelled: runs of a TLS connection whose handlers reply later, where its wait goes wrong as
-- HttpsConnection.Waits shows; the counts of connections and of requests of the client that exist; and
-- the other samples, with the generated avro code.
pub mod Base
pub mod Boost
pub mod Asio
pub mod Avro
pub mod Externals
pub mod Request
pub mod Connection
pub mod Uri
pub mod Server
pub mod HttpConnection
pub mod HttpsConnection
pub mod HttpServer
pub mod AvroHttpServerSample
pub mod HttpsServer
pub mod Spinlock
pub mod Encoding
pub mod HttpClient
pub mod Status
pub mod Reply
