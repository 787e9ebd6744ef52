-- ===== src/HttpConnection.antt =====
-- csi_http/server/http_connection.cpp and http_connection.h: a connection without TLS, as the
-- handlers of its asynchronous operations. `none` is a fault, an exception or a read or write through
-- a bad pointer.
pub mod Sending
pub mod Steps
pub mod Sound
pub mod Handling
pub mod Ending
pub mod Reading
pub mod Invariant
pub mod Writes
pub mod EndToEnd
mod Tests
use csi_http.Base.{
  ℕ, Bool, true, false, Option, none, some, List, [], ◌∷◌, Bytes, codes, ◌>>=◌, ◌==◌, if◌then◌else◌,
  length, not,
}
use csi_http.Externals.{Externals}
use csi_http.Status.{StatusType, MethodT, method_name, bad_request}
use csi_http.Reply.{Header, Reply, add, create, to_buffers, text_html}
use csi_http.Reply as ReplyOps
use csi_http.Request.{Request, request_id, default_id_header}
use csi_http.Request as RequestOps
use csi_http.Connection.{Connection, Garbage, new_connection, http_parse}
use csi_http.Asio.{
  ErrorCode, success, operation_aborted, failure, Io, new_io, begin, cancel_timer, expires_from_now,
  cancel_socket, write_log, connection_close, World, async_read_some, async_write, async_wait,
  post_reply_done, request_begin, request_end,
}

pub record HttpConnection (ex : Externals) : Type 0 where
  pub base : Connection ex
  pub io : Io

module _ (ex : Externals) where
  unfoldable pub new_http_connection : Bytes → Garbage → HttpConnection ex
  unfolding new_connection
  new_http_connection request_id_header g = record {
    base = new_connection ex request_id_header g;
    io = new_io;
  }

  unfoldable pub start : HttpConnection ex → HttpConnection ex
  start c = record c { io = begin async_read_some c.io }

  abbrev pub with_request : Request ex → HttpConnection ex → HttpConnection ex
  with_request r c = record c { base = record c.base { request = r } }

  abbrev pub with_reply : Reply ex.avro → HttpConnection ex → HttpConnection ex
  with_reply r c = record c { base = record c.base { reply = r } }

  -- A line of the log needs the id, the peer's address and the name of the method.
  log_request :
      (Bytes → Bytes → Bytes → Io → Io)
      → World ex.Uuid
      → HttpConnection ex
      → Option (HttpConnection ex)
  log_request line w c = do
    remote ← w.remote_endpoint
    method ← method_name c.base.request.method
    let asked = request_id ex default_id_header w.random c.base.request
    some (record (with_request asked.0 c) { io = line asked.1 method c.base.request.url c.io })

  unfoldable pub log_begin : World ex.Uuid → HttpConnection ex → Option (HttpConnection ex)
  unfolding log_request
  log_begin = log_request λ id method url io. write_log (request_begin id method url) io

  unfoldable pub log_end : World ex.Uuid → HttpConnection ex → Option (HttpConnection ex)
  unfolding log_request
  log_end w c =
      log_request (λ id method url io. write_log (request_end id method url c.base.reply.status) io)
        w c

  -- The reply that goes out.
  abbrev pub closing_reply : HttpConnection ex → Reply ex.avro
  closing_reply c =
      if c.base.keep_alive then c.base.reply else add ex.avro connection_close c.base.reply

  unfoldable pub send_reply : World ex.Uuid → HttpConnection ex → Option (HttpConnection ex)
  unfolding log_end
  send_reply w c = do
    d ← log_end w c
    sent ← to_buffers ex.avro (closing_reply d)
    some (record {
      base = record d.base { waiting_for_async_reply = false; reply = sent.1 };
      io = begin (async_write sent.0) d.io;
    })

  unfoldable pub wait_for_async_reply : HttpConnection ex → HttpConnection ex
  wait_for_async_reply c = record {
    base = record c.base { waiting_for_async_reply = true };
    io = begin (async_wait 5) (expires_from_now 5 c.io);
  }

  unfoldable pub notify_async_reply_done : World ex.Uuid → HttpConnection ex → HttpConnection ex
  notify_async_reply_done w c =
      let asked = request_id ex default_id_header w.random c.base.request in
      record (with_request asked.0 c) { io = begin post_reply_done c.io }

  -- The timer is armed again and the next bytes are read.
  abbrev pub read_on : ℕ → HttpConnection ex → HttpConnection ex
  read_on seconds c = record c {
    io = begin async_read_some (begin (async_wait seconds) (expires_from_now seconds c.io));
  }

  unfoldable pub handle_write : ErrorCode → HttpConnection ex → HttpConnection ex
  handle_write operation_aborted c = c
  handle_write success c =
      if not c.base.keep_alive
      then record c { io = cancel_timer c.io }
      else read_on 5 (record {
        base = record c.base {
          reply = ReplyOps.reset ex.avro c.base.reply;
          request = RequestOps.reset ex c.base.request;
        };
        io = cancel_timer c.io;
      })
  handle_write failure c = if not c.base.keep_alive then record c { io = cancel_timer c.io } else c

  unfoldable pub handle_timer : ErrorCode → HttpConnection ex → HttpConnection ex
  handle_timer operation_aborted c = c
  handle_timer success c = record c { io = record (cancel_socket c.io) { shut_down = true } }
  handle_timer failure c = c

  unfoldable pub handle_shutdown : ErrorCode → HttpConnection ex → HttpConnection ex
  handle_shutdown success c = record c { io = record c.io { closed = true } }
  handle_shutdown operation_aborted c = c
  handle_shutdown failure c = c

  unfoldable pub handle_async_reply_done :
      World ex.Uuid → HttpConnection ex → Option (HttpConnection ex)
  unfolding send_reply
  handle_async_reply_done w c = send_reply w (record c { io = cancel_timer c.io })

  -- The server's part: its own state, and what `handle_request` makes of it and of the connection.
  module _ {S : Type 0} (serve : S → HttpConnection ex → Option (S × HttpConnection ex)) where
    -- What follows when the server has the request.
    unfoldable pub after_request :
        World ex.Uuid → S × HttpConnection ex → Option (S × HttpConnection ex)
    unfolding send_reply
    after_request w (s, c) =
        if c.base.waiting_for_async_reply
        then some (s, record c { io = begin (async_wait 3605) (expires_from_now 3605 c.io) })
        else (send_reply w c >>= λ d. some (s, d))

    -- What follows when the parser has taken its bytes.
    unfoldable pub after_read :
        World ex.Uuid → World ex.Uuid → S → HttpConnection ex → Option (S × HttpConnection ex)
    unfolding after_request log_begin
    after_read w1 w2 s c =
        if c.base.request_complete
        then (log_begin w1 c >>= λ d. serve s d >>= λ r. after_request w2 r)
        else some (s, read_on 5 c)

    -- The worlds are those of the first and of the second line of the log.
    unfoldable pub handle_read :
        World ex.Uuid
        → World ex.Uuid
        → ErrorCode
        → Bytes
        → S
        → HttpConnection ex
        → Option (S × HttpConnection ex)
    unfolding after_read send_reply
    handle_read w1 w2 operation_aborted buffer s c = some (s, c)
    handle_read w1 w2 failure buffer s c = some (s, record c { io = cancel_timer c.io })
    handle_read w1 w2 success buffer s c = http_parse ex buffer c.base >>= λ parsed.
        let d = record c { base = parsed.0; io = cancel_timer c.io } in
        if parsed.1 == length buffer
        then after_read w1 w2 s d
        else (create ex.avro bad_request text_html 0 d.base.reply >>= λ reply.
            send_reply w2 (with_reply reply d) >>= λ sent. some (s, sent))
