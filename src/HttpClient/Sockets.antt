-- ===== src/HttpClient/Sockets.antt =====
-- The sockets and timers of `http_client` in csi_http/client/http_client.cpp: what it holds of them, what
-- it waits for and what the io_service has still to run for it.
use csi_http.Base.{
  update, ◌==◌, if◌then◌else◌, map, List, Option, ◌++◌, ℕ, Bool, true, false, none, some, suc, [],
  ◌∷◌,
}
use csi_http.Asio.{ErrorCode, operation_aborted, failure}

pub data Direction : Type 0 where
  rx tx : Direction

-- A wait for a socket that the client has started, by the socket's pointer, with the handle that is
-- bound to it. The handle is a shared pointer, which may be null.
pub record Wait : Type 0 where
  pub direction : Direction
  pub tcp_socket : ℕ
  pub context : Option ℕ

-- What the io_service calls, in the order in which it was posted or completed.
pub data Task : Type 0 where
  socket_cb : ErrorCode → Wait → Task
  delete_socket : ℕ → Task
  call_poll_remove : Option ℕ → Task
  call_perform : ℕ → Task
  call_timer_cb call_keepalivetimer_cb : ErrorCode → Task

pub record Sockets : Type 0 where
  -- The native handle of an open `tcp::socket`, and the socket that holds a native handle.
  pub native_handle : ℕ → Option ℕ
  pub owner : ℕ → Option ℕ
  pub deleted : ℕ → Bool
  -- The pointer that the next `new` gives.
  pub next_socket : ℕ
  pub socket_map : ℕ → Option ℕ
  -- What `curl_multi_assign` has set.
  pub assigned : ℕ → Option ℕ
  pub waits : List Wait
  pub timer : Option ℕ
  pub keepalive_timer : Bool
  pub tasks : List Task

unfoldable pub post_task : Task → Sockets → Sockets
post_task t s = record s { tasks = s.tasks ++ t ∷ [] }

-- `async_read_some` or `async_write_some` with null buffers. `none` is the use of a deleted socket.
unfoldable pub async_some : Wait → Sockets → Option Sockets
unfolding post_task
async_some w s = if s.deleted w.tcp_socket then none else elim (s.native_handle w.tcp_socket) [
  | some fd ↦ some (record s { waits = s.waits ++ w ∷ [] })
  | none ↦ some (post_task (socket_cb failure w) s)
]

-- The waits for a socket, and the others.
unfoldable pub waits_of : ℕ → List Wait → List Wait
waits_of p [] = []
waits_of p (w ∷ ws) = if w.tcp_socket == p then w ∷ waits_of p ws else waits_of p ws

unfoldable pub other_waits : ℕ → List Wait → List Wait
other_waits p [] = []
other_waits p (w ∷ ws) = if w.tcp_socket == p then other_waits p ws else w ∷ other_waits p ws

-- `cancel` and `close` of an open socket.
unfoldable pub cancel_close : ℕ → ℕ → Sockets → Sockets
unfolding waits_of other_waits
cancel_close p fd s = record s {
  waits = other_waits p s.waits;
  tasks = s.tasks ++ map (socket_cb operation_aborted) (waits_of p s.waits);
  native_handle = update s.native_handle p none;
  owner = update s.owner fd none;
}

-- `opensocket_cb`, with the native handle that the system gives, if it does. `none` is
-- `CURL_SOCKET_BAD`.
unfoldable pub opensocket_cb : Bool → Option ℕ → Sockets → Sockets × Option ℕ
opensocket_cb false opened s = (s, none)
-- The new socket is deleted at once, and its pointer is free again.
opensocket_cb true none s = (s, none)
opensocket_cb true (some fd) s =
    let p = s.next_socket in
    (
      record s {
        next_socket = suc p;
        native_handle = update s.native_handle p (some fd);
        owner = update s.owner fd (some p);
        -- `insert` leaves a key that is there.
        socket_map = elim (s.socket_map fd) [
          | some q ↦ s.socket_map
          | none ↦ update s.socket_map fd (some p)
        ];
      },
      some fd,
    )

unfoldable pub closesocket_cb : ℕ → Sockets → Option Sockets
unfolding cancel_close post_task
closesocket_cb item s = elim (s.socket_map item) [
  | none ↦ some s
  | some p ↦
      if s.deleted p
      then none
      else let s1 : Sockets = elim (s.native_handle p) [
        | some fd ↦ cancel_close p fd s
        | none ↦ s
      ] in
        let s2 = record s1 {
          assigned = update s1.assigned item none;
          socket_map = update s1.socket_map item none;
        } in
        some (post_task (delete_socket p) s2)
]
