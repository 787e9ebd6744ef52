-- ===== src/HttpsConnection/Steps.antt =====
-- The runs of a connection of csi_http/server/https_connection.cpp whose server answers at once.
use csi_http.Base.{ℕ, List, Bytes, Option, ◌≡◌, some}
use csi_http.Externals.{Externals}
use csi_http.Connection.{Garbage}
use csi_http.Asio.{
  ErrorCode, Io, Completes, World, async_read_some, async_write, async_wait, async_wait_call,
  async_handshake, async_shutdown,
}
use csi_http.HttpConnection.Sending.{SameRequest}
use csi_http.HttpsConnection.{
  HttpsConnection, new_https_connection, start, handle_handshake, handle_read,
  handle_write_complete, handle_timer, handle_async_call, handle_shutdown,
}

module _ (ex : Externals) where
  -- A handler that answers at once fills in the reply, and may ask for the ids of the request.
  pub record IsAtOnce (c d : HttpsConnection ex) : Type 0 where
    pub io : d.io ≡ c.io
    pub waiting : d.base.waiting_for_async_reply ≡ c.base.waiting_for_async_reply
    pub same : SameRequest ex c.base.request d.base.request

  module _ {S : Type 0} (serve : S → HttpsConnection ex → Option (S × HttpsConnection ex)) where
    abbrev pub IsServer : Type 0
    IsServer =
        (s : S) (c : HttpsConnection ex) (r : S × HttpsConnection ex)
        → serve s c ≡ some r
        → IsAtOnce c r.1

    pub data Step (s : S) (c : HttpsConnection ex) : S → HttpsConnection ex → Type 0 where
      handshake_done :
          (e : ErrorCode) (io : Io)
          → Completes c.io async_handshake e io
          → Step s c s (handle_handshake ex e (record c { io = io }))
      read_done :
          (w1 w2 : World ex.Uuid) (e : ErrorCode) (buffer : Bytes) (io : Io) (s' : S)
          (c' : HttpsConnection ex)
          → Completes c.io async_read_some e io
          → handle_read ex serve w1 w2 e buffer s (record c { io = io }) ≡ some (s', c')
          → Step s c s' c'
      write_done :
          (e : ErrorCode) (buffers : List Bytes) (io : Io)
          → Completes c.io (async_write buffers) e io
          → Step s c s (handle_write_complete ex e (record c { io = io }))
      timer_done :
          (e : ErrorCode) (seconds : ℕ) (io : Io)
          → Completes c.io (async_wait seconds) e io
          → Step s c s (handle_timer ex e (record c { io = io }))
      call_done :
          (w : World ex.Uuid) (e : ErrorCode) (seconds : ℕ) (io : Io) (c' : HttpsConnection ex)
          → Completes c.io (async_wait_call seconds) e io
          → handle_async_call ex w e (record c { io = io }) ≡ some c'
          → Step s c s c'
      shutdown_done :
          (e : ErrorCode) (io : Io)
          → Completes c.io async_shutdown e io
          → Step s c s (handle_shutdown ex e (record c { io = io }))
      -- Another connection changes the state of the server.
      elsewhere : (s' : S) → Step s c s' c

    pub data Reachable : S → HttpsConnection ex → Type 0 where
      starts :
          (s : S) (h : Bytes) (g : Garbage) → Reachable s (start ex (new_https_connection ex h g))
      steps :
          {s s' : S} {c c' : HttpsConnection ex} → Reachable s c → Step s c s' c' → Reachable s' c'
