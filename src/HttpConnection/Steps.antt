-- ===== src/HttpConnection/Steps.antt =====
-- The runs of a connection of csi_http/server/http_connection.cpp: completions of its operations, in
-- any order, and the server's call when a reply is ready.
use csi_http.Base.{List, ℕ, true, Option, some, Bytes, ◌≡◌}
use csi_http.Externals.{Externals}
use csi_http.Reply.{Reply}
use csi_http.Request.{request_id, request_uuid}
use csi_http.Connection.{Garbage}
use csi_http.Asio.{
  ErrorCode, success, Io, Completes, World, async_read_some, async_write, async_wait,
  post_reply_done,
}
use csi_http.Asio.Counts.{count, is_post}
use csi_http.HttpConnection.{
  HttpConnection, new_http_connection, start, with_request, with_reply, wait_for_async_reply,
  notify_async_reply_done, handle_write, handle_timer, handle_async_reply_done, handle_read,
}

module _ (ex : Externals) where
  -- What a request handler does with a connection: it fills in the reply, asks for the ids of the
  -- request, says that the reply will come later, and then that it is ready, once.
  pub data Handled (c : HttpConnection ex) : HttpConnection ex → Type 0 where
    returns : Handled c c
    replies :
        {d : HttpConnection ex} (r : Reply ex.avro) → Handled c d → Handled c (with_reply ex r d)
    asks_id :
        {d : HttpConnection ex} (h : Bytes) (u : ex.Uuid)
        → Handled c d
        → Handled c (with_request ex (request_id ex h u d.base.request).0 d)
    asks_uuid :
        {d : HttpConnection ex} (h : Bytes) (u : ex.Uuid)
        → Handled c d
        → Handled c (with_request ex (request_uuid ex h u d.base.request).0 d)
    waits : {d : HttpConnection ex} → Handled c d → Handled c (wait_for_async_reply ex d)
    notifies :
        {d : HttpConnection ex} (w : World ex.Uuid)
        → d.base.waiting_for_async_reply ≡ true
        → count is_post d.io.pending ≡ 0
        → Handled c d
        → Handled c (notify_async_reply_done ex w d)

  -- The server's state is shared with its other connections; `IsTable` is what all of them keep.
  module _ {S : Type 0} (serve : S → HttpConnection ex → Option (S × HttpConnection ex))
      (IsTable : S → Type 0) where
    -- The server's part of `handle_read` is calls of request handlers.
    abbrev pub IsServer : Type 0
    IsServer =
        (s : S) (c : HttpConnection ex) (r : S × HttpConnection ex)
        → IsTable s
        → serve s c ≡ some r
        → Handled c r.1 × IsTable r.0

    -- In `ready` the reply of a waiting connection gets ready outside its own handlers; in `elsewhere`
    -- another connection changes the server's state.
    pub data Step (s : S) (c : HttpConnection ex) : S → HttpConnection ex → Type 0 where
      read_done :
          (w1 w2 : World ex.Uuid) (e : ErrorCode) (buffer : Bytes) (io : Io) (s' : S)
          (c' : HttpConnection ex)
          → Completes c.io async_read_some e io
          → handle_read ex serve w1 w2 e buffer s (record c { io = io }) ≡ some (s', c')
          → Step s c s' c'
      write_done :
          (e : ErrorCode) (buffers : List Bytes) (io : Io)
          → Completes c.io (async_write buffers) e io
          → Step s c s (handle_write ex e (record c { io = io }))
      timer_done :
          (e : ErrorCode) (seconds : ℕ) (io : Io)
          → Completes c.io (async_wait seconds) e io
          → Step s c s (handle_timer ex e (record c { io = io }))
      reply_done :
          (w : World ex.Uuid) (io : Io) (c' : HttpConnection ex)
          → Completes c.io post_reply_done success io
          → handle_async_reply_done ex w (record c { io = io }) ≡ some c'
          → Step s c s c'
      ready :
          (d : HttpConnection ex)
          → c.base.waiting_for_async_reply ≡ true
          → Handled c d
          → Step s c s d
      elsewhere : (s' : S) → IsTable s' → Step s c s' c

    -- From the first read on.
    pub data Reachable : S → HttpConnection ex → Type 0 where
      starts :
          (s : S) (h : Bytes) (g : Garbage)
          → IsTable s
          → Reachable s (start ex (new_http_connection ex h g))
      steps :
          {s s' : S} {c c' : HttpConnection ex} → Reachable s c → Step s c s' c' → Reachable s' c'
