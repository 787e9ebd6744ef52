-- ===== src/HttpClient/Run.antt =====
-- csi_http/client/http_client.cpp: what the io_service calls of the client, and its runs.
use csi_http.Base.{
  update, Bool, ◌++◌, ◌≡◌, ℕ, if◌then◌else◌, Option, List, true, false, none, some, [], ◌∷◌,
}
use csi_http.Avro.{AvroMemory}
use csi_http.Asio.{ErrorCode, success, operation_aborted}
use csi_http.HttpClient.CallContext.{CallContext, prepare}
use csi_http.HttpClient.Sockets.{
  Sockets, Wait, Task, rx, tx, socket_cb, delete_socket, call_poll_remove, call_perform,
  call_timer_cb, call_keepalivetimer_cb, post_task,
}
use csi_http.HttpClient.Callbacks.{
  Client, World, Result, assertion, bad_access, add_handle, remove_handle, socket_action, select_in,
  select_out, select_timeout, done, fault, or_fault, ◌then◌, call_curl, with_context, with_sockets,
  perform_async, perform, start_wait, stop_timer,
}

-- The constructor: the keepalive timer is started.
abbrev pub new_sockets : Sockets
new_sockets = record {
  native_handle = λ p. none;
  owner = λ fd. none;
  deleted = λ p. false;
  next_socket = 0;
  socket_map = λ fd. none;
  assigned = λ fd. none;
  waits = [];
  timer = none;
  keepalive_timer = true;
  tasks = [];
}

module _ (av : AvroMemory) where
  unfoldable pub http_client : (ℕ → CallContext av) → Client av
  http_client contexts = record { contexts = contexts; sockets = new_sockets; log = [] }

  unfoldable pub cancel_keepalive : Sockets → Sockets
  unfolding post_task
  cancel_keepalive s =
      if s.keepalive_timer
      then post_task (call_keepalivetimer_cb operation_aborted)
          (record s { keepalive_timer = false })
      else s

  module _ (world : World av) where
    unfoldable pub close : Client av → Client av
    unfolding stop_timer cancel_keepalive
    close c = with_sockets av c (stop_timer av world (cancel_keepalive c.sockets))

    unfoldable pub socket_rx_cb : ErrorCode → Wait → Client av → Result (Client av)
    unfolding start_wait
    socket_rx_cb success w c = elim w.context [
      | none ↦ fault bad_access
      | some h ↦
          if (c.contexts h).curl_done
          then done c
          else if c.sockets.deleted w.tcp_socket
          then fault bad_access
          else (call_curl av world (socket_action (c.sockets.native_handle w.tcp_socket) select_in)
                c
              then λ c1. if (c1.contexts h).curl_done then done c1 else start_wait av w c1)
    ]
    socket_rx_cb e w c = done c

    unfoldable pub socket_tx_cb : ErrorCode → Wait → Client av → Result (Client av)
    socket_tx_cb success w c =
        if c.sockets.deleted w.tcp_socket
        then fault bad_access
        else call_curl av world (socket_action (c.sockets.native_handle w.tcp_socket) select_out) c
    socket_tx_cb e w c = done c

    unfoldable pub timer_cb : ErrorCode → Client av → Result (Client av)
    timer_cb success c = call_curl av world (socket_action none select_timeout) c
    timer_cb e c = done c

    unfoldable pub keepalivetimer_cb : ErrorCode → Client av → Client av
    keepalivetimer_cb success c = with_sockets av c (record c.sockets { keepalive_timer = true })
    keepalivetimer_cb e c = c

    unfoldable pub poll_remove_posted : Option ℕ → Client av → Result (Client av)
    poll_remove_posted none c = fault bad_access
    poll_remove_posted (some h) c = call_curl av world (remove_handle h) c

    unfoldable pub perform_posted : ℕ → Client av → Result (Client av)
    unfolding prepare
    perform_posted h c = or_fault assertion (prepare av world.ndebug (c.contexts h)) then λ x.
        call_curl av world (add_handle h) (with_context av h x c)

    -- The `delete` of `closesocket_cb`.
    unfoldable pub delete_posted : ℕ → Client av → Result (Client av)
    delete_posted p c =
        let s = c.sockets in
        if s.deleted p
        then fault bad_access
        else done (with_sockets av c (record s { deleted = update s.deleted p true }))

    unfoldable pub run_task : Task → Client av → Result (Client av)
    unfolding socket_rx_cb socket_tx_cb timer_cb keepalivetimer_cb poll_remove_posted perform_posted
        delete_posted
    run_task (socket_cb e w) c = elim w.direction [
      | rx ↦ socket_rx_cb e w c
      | tx ↦ socket_tx_cb e w c
    ]
    run_task (delete_socket p) c = delete_posted p c
    run_task (call_poll_remove h) c = poll_remove_posted h c
    run_task (call_perform h) c = perform_posted h c
    run_task (call_timer_cb e) c = timer_cb e c
    run_task (call_keepalivetimer_cb e) c = done (keepalivetimer_cb e c)

    -- The io_service calls what it has first.
    unfoldable pub run_one : Client av → Result (Client av)
    unfolding run_task
    run_one c = elim c.sockets.tasks [
      | [] ↦ done c
      | t ∷ ts ↦ run_task t (with_sockets av c (record c.sockets { tasks = ts }))
    ]

    -- What happens outside: a socket is ready or in error, a timer expires, the program performs a
    -- request or closes the client.
    pub data Step (c : Client av) : Result (Client av) → Type 0 where
      runs : Step c (run_one c)
      socket_ready :
          (before after : List Wait) (w : Wait) (e : ErrorCode)
          → c.sockets.waits ≡ before ++ w ∷ after
          → Step c (
              done (
                with_sockets av c
                  (post_task (socket_cb e w) (record c.sockets { waits = before ++ after }))))
      timer_expires :
          (n : ℕ)
          → c.sockets.timer ≡ some n
          → Step c (
              done (
                with_sockets av c
                  (post_task (call_timer_cb success) (record c.sockets { timer = none }))))
      keepalive_expires :
          c.sockets.keepalive_timer ≡ true
          → Step c (
              done (
                with_sockets av c (
                  post_task
                    (call_keepalivetimer_cb success)
                    (record c.sockets { keepalive_timer = false }))))
      performs : (h : ℕ) (cb : Bool) → Step c (done (perform_async av h cb c))
      performs_waiting : (h : ℕ) (verbose : Bool) → Step c (done (perform av h verbose c))
      closes : Step c (done (close c))

    -- What the client can come to, or how it ends.
    pub data Reachable (c : Client av) : Result (Client av) → Type 0 where
      starts : Reachable c (done c)
      steps :
          {d : Client av} {r : Result (Client av)} → Reachable c (done d) → Step d r → Reachable c r
