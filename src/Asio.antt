-- ===== src/Asio.antt =====
-- What the connections of csi_http/server use of boost::asio and of the log: the operations that a
-- connection has started and whose handlers are still to be called, its timer, and the lines that it
-- has logged. Time, sockets and threads are outside; the handler of an operation is called with an
-- error code that the step relations leave open.
pub mod Counts
use csi_http.Base.{
  ◌||◌, Option, ◌≡◌, none, ℕ, Bool, true, false, List, [], ◌∷◌, ◌++◌, Bytes, codes, map,
}
use csi_http.Reply.{Header}
use csi_http.Status.{StatusType}

pub data ErrorCode : Type 0 where
  success operation_aborted failure : ErrorCode

-- An operation, named for what starts it. The two waits on the timer are those for `handle_timer`
-- and for `handle_async_call`, with their seconds.
pub data Operation : Type 0 where
  async_read_some : Operation
  async_write : List Bytes → Operation
  async_wait async_wait_call : ℕ → Operation
  post_reply_done async_handshake async_shutdown : Operation

pub record Pending : Type 0 where
  pub operation : Operation
  pub aborted : Bool

-- A line of the log, without the peer's address and the duration.
pub data Entry : Type 0 where
  request_begin : Bytes → Bytes → Bytes → Entry
  request_end : Bytes → Bytes → Bytes → StatusType → Entry

-- The newest line of the log comes first.
pub record Io : Type 0 where
  pub pending : List Pending
  pub expiry : ℕ
  pub shut_down : Bool
  pub closed : Bool
  pub log : List Entry

abbrev pub new_io : Io
new_io = record { pending = []; expiry = 0; shut_down = false; closed = false; log = [] }

unfoldable pub begin : Operation → Io → Io
begin o io = record io { pending = io.pending ++ record { operation = o; aborted = false } ∷ [] }

unfoldable pub is_wait : Operation → Bool
is_wait async_read_some = false
is_wait (async_write b) = false
is_wait (async_wait n) = true
is_wait (async_wait_call n) = true
is_wait post_reply_done = false
is_wait async_handshake = false
is_wait async_shutdown = false

is_transfer : Operation → Bool
is_transfer async_read_some = true
is_transfer (async_write b) = true
is_transfer (async_wait n) = false
is_transfer (async_wait_call n) = false
is_transfer post_reply_done = false
is_transfer async_handshake = true
is_transfer async_shutdown = true

-- The operations of a kind are aborted.
abbrev pub abort : (Operation → Bool) → Pending → Pending
abort k p = record p { aborted = p.aborted || k p.operation }

-- `deadline_timer::cancel`.
unfoldable pub cancel_timer : Io → Io
unfolding is_wait
cancel_timer io = record io { pending = map (abort is_wait) io.pending }

-- `deadline_timer::expires_from_now`, which also cancels the waits.
unfoldable pub expires_from_now : ℕ → Io → Io
unfolding cancel_timer
expires_from_now n io = record (cancel_timer io) { expiry = n }

-- `socket::cancel`.
unfoldable pub cancel_socket : Io → Io
unfolding is_transfer
cancel_socket io = record io { pending = map (abort is_transfer) io.pending }

abbrev pub write_log : Entry → Io → Io
write_log e io = record io { log = e ∷ io.log }

-- `header_t("Connection", "close")`.
abbrev pub connection_close : Header
connection_close = record { name = codes "Connection"; value = codes "close" }

-- What a handler finds in the world: a random uuid, if it draws one, and the peer's address, with
-- `none` for the exception of a socket that is not connected any more.
pub record World (Uuid : Type 0) : Type 0 where
  pub random : Uuid
  pub remote_endpoint : Option Bytes

-- The completion of an operation that was started. One that was not aborted does not complete with
-- `operation_aborted`; one that was aborted may have completed before.
pub record Completes (io : Io) (o : Operation) (e : ErrorCode) (io' : Io) : Type 0 where
  pub before : List Pending
  pub after : List Pending
  pub aborted : Bool
  pub found : io.pending ≡ before ++ record { operation = o; aborted = aborted } ∷ after
  pub allowed : e ≡ operation_aborted → aborted ≡ true
  pub left : io' ≡ record io { pending = before ++ after }
