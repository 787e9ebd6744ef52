-- ===== src/HttpsConnection.antt =====
-- csi_http/server/https_connection.cpp and https_connection.h: a connection over TLS, as the handlers
-- of its asynchronous operations. It differs from the one without TLS in the handshake, in its timer
-- and in how it waits for a reply. `none` is a fault, as there.
pub mod Waits
pub mod Steps
pub mod Sound
pub mod Invariant
mod Tests
use csi_http.Base.{
  ℕ, Bool, true, false, Option, none, some, List, [], ◌∷◌, Bytes, codes, ◌>>=◌, ◌==◌, if◌then◌else◌,
  length, not,
}
use csi_http.Externals.{Externals}
use csi_http.Status.{StatusType, MethodT, method_name, bad_request}
use csi_http.Reply.{Header, Reply, add, create, to_buffers, text_html}
use csi_http.Reply as ReplyOps
use csi_http.Request.{Request, request_id, request_uuid, default_id_header}
use csi_http.Connection.{Connection, Garbage, new_connection, http_parse}
use csi_http.Asio.{
  ErrorCode, success, operation_aborted, failure, Io, new_io, begin, cancel_timer, expires_from_now,
  write_log, connection_close, World, async_read_some, async_write, async_wait, async_wait_call,
  async_handshake, async_shutdown, request_begin, request_end,
}

pub record HttpsConnection (ex : Externals) : Type 0 where
  pub base : Connection ex
  pub io : Io

module _ (ex : Externals) where
  unfoldable pub new_https_connection : Bytes → Garbage → HttpsConnection ex
  unfolding new_connection
  new_https_connection request_id_header g = record {
    base = new_connection ex request_id_header g;
    io = new_io;
  }

  unfoldable pub start : HttpsConnection ex → HttpsConnection ex
  start c = record c { io = begin async_handshake c.io }

  abbrev pub with_request : Request ex → HttpsConnection ex → HttpsConnection ex
  with_request r c = record c { base = record c.base { request = r } }

  log_request :
      (Bytes → Bytes → Bytes → Io → Io)
      → World ex.Uuid
      → HttpsConnection ex
      → Option (HttpsConnection ex)
  log_request line w c = do
    remote ← w.remote_endpoint
    method ← method_name c.base.request.method
    let asked = request_id ex default_id_header w.random c.base.request
    some (record (with_request asked.0 c) { io = line asked.1 method c.base.request.url c.io })

  -- The uuid is asked for first, which makes sure that there is one.
  unfoldable pub log_begin : World ex.Uuid → HttpsConnection ex → Option (HttpsConnection ex)
  unfolding log_request
  log_begin w c =
      let asked = request_uuid ex default_id_header w.random c.base.request in
      log_request (λ id method url io. write_log (request_begin id method url) io) w
        (with_request asked.0 c)

  unfoldable pub log_end : World ex.Uuid → HttpsConnection ex → Option (HttpsConnection ex)
  unfolding log_request
  log_end w c =
      log_request (λ id method url io. write_log (request_end id method url c.base.reply.status) io)
        w c

  abbrev pub closing_reply : HttpsConnection ex → Reply ex.avro
  closing_reply c =
      if c.base.keep_alive then c.base.reply else add ex.avro connection_close c.base.reply

  unfoldable pub send_reply : World ex.Uuid → HttpsConnection ex → Option (HttpsConnection ex)
  unfolding log_end
  send_reply w c = do
    d ← log_end w c
    sent ← to_buffers ex.avro (closing_reply d)
    some (record {
      base = record d.base { waiting_for_async_reply = false; reply = sent.1 };
      io = begin (async_write sent.0) d.io;
    })

  unfoldable pub wait_for_async_reply : HttpsConnection ex → HttpsConnection ex
  wait_for_async_reply c = record {
    base = record c.base { waiting_for_async_reply = true };
    io = begin (async_wait_call 3660) (expires_from_now 3660 c.io);
  }

  -- The handler of the wait sends the reply when it is aborted.
  unfoldable pub notify_async_reply_done : World ex.Uuid → HttpsConnection ex → HttpsConnection ex
  notify_async_reply_done w c =
      let asked = request_id ex default_id_header w.random c.base.request in
      record (with_request asked.0 c) { io = cancel_timer c.io }

  unfoldable pub handle_handshake : ErrorCode → HttpsConnection ex → HttpsConnection ex
  handle_handshake success c = record c { io = begin async_read_some c.io }
  handle_handshake operation_aborted c = c
  handle_handshake failure c = c

  -- The timer is armed again and the next bytes are read.
  abbrev pub read_on : HttpsConnection ex → HttpsConnection ex
  read_on c = record c {
    io = begin async_read_some (begin (async_wait 5) (expires_from_now 5 c.io));
  }

  unfoldable pub handle_write_complete : ErrorCode → HttpsConnection ex → HttpsConnection ex
  handle_write_complete operation_aborted c = c
  handle_write_complete success c = read_on (record {
    base = record c.base { reply = ReplyOps.reset ex.avro c.base.reply };
    io = cancel_timer c.io;
  })
  handle_write_complete failure c = c

  -- It has no effect for any code.
  unfoldable pub handle_shutdown : ErrorCode → HttpsConnection ex → HttpsConnection ex
  handle_shutdown success c = c
  handle_shutdown operation_aborted c = c
  handle_shutdown failure c = c

  unfoldable pub handle_timer : ErrorCode → HttpsConnection ex → HttpsConnection ex
  handle_timer operation_aborted c = c
  handle_timer success c = record c { io = begin async_shutdown c.io }
  handle_timer failure c = c

  unfoldable pub handle_async_call :
      World ex.Uuid → ErrorCode → HttpsConnection ex → Option (HttpsConnection ex)
  unfolding send_reply
  handle_async_call w operation_aborted c = send_reply w c
  handle_async_call w success c = some (record c { io = begin async_shutdown c.io })
  handle_async_call w failure c = some c

  module _ {S : Type 0} (serve : S → HttpsConnection ex → Option (S × HttpsConnection ex)) where
    -- What follows when the server has the request.
    unfoldable pub after_request :
        World ex.Uuid → S × HttpsConnection ex → Option (S × HttpsConnection ex)
    unfolding send_reply
    after_request w (s, c) =
        if c.base.waiting_for_async_reply
        then some (s, record c { io = begin (async_wait 3605) (expires_from_now 3605 c.io) })
        else (send_reply w c >>= λ d. some (s, d))

    -- What follows when the parser has taken its bytes.
    unfoldable pub after_read :
        World ex.Uuid → World ex.Uuid → S → HttpsConnection ex → Option (S × HttpsConnection ex)
    unfolding after_request log_begin
    after_read w1 w2 s c =
        if c.base.request_complete
        then (log_begin w1 c >>= λ d. serve s d >>= λ r. after_request w2 r)
        else some (s, read_on c)

    unfoldable pub handle_read :
        World ex.Uuid
        → World ex.Uuid
        → ErrorCode
        → Bytes
        → S
        → HttpsConnection ex
        → Option (S × HttpsConnection ex)
    unfolding after_read send_reply
    handle_read w1 w2 operation_aborted buffer s c = some (s, c)
    handle_read w1 w2 failure buffer s c = some (s, c)
    handle_read w1 w2 success buffer s c = http_parse ex buffer c.base >>= λ parsed.
        let d = record c { base = parsed.0 } in
        if parsed.1 == length buffer
        then after_read w1 w2 s d
        else (create ex.avro bad_request text_html 0 d.base.reply >>= λ reply.
            send_reply w2 (record d { base = record d.base { reply = reply } }) >>= λ sent.
            some (s, sent))
