-- ===== src/HttpClient/Callbacks.antt =====
-- csi_http/client/http_client.cpp: the calls between the program, libcurl and the io_service. libcurl is
-- a parameter: for a call into it, the callbacks that it makes before it returns. One thread runs the
-- io_service. `verbose` output is left out.
use csi_http.Base.{
  update, Bytes, Bool, ltb, if◌then◌else◌, List, Option, ℕ, map_some, true, false, none, some, zero,
  suc, [], ◌∷◌, length,
}
use csi_http.Avro.{AvroMemory}
use csi_http.Status.{of_code}
use csi_http.Asio.{operation_aborted}
use csi_http.HttpClient.CallContext.{CallContext, curl_stop}
use csi_http.HttpClient.Streams.{
  read_callback_avro_stream, write_callback_avro_stream, parse_headers,
}
use csi_http.HttpClient.Sockets.{
  Sockets, Wait, rx, tx, call_poll_remove, call_perform, call_timer_cb, post_task, async_some,
  opensocket_cb, closesocket_cb,
}

-- The last argument of `sock_cb`, with the answer to `CURLINFO_RESPONSE_CODE` where it is asked for.
pub data Poll : Type 0 where
  poll_in poll_out poll_inout poll_none : Poll
  poll_remove : Option ℕ → Poll

pub data Select : Type 0 where
  select_in select_out select_timeout : Select

-- A call into curl, or of a request's callback.
pub data Event : Type 0 where
  add_handle remove_handle called_back : ℕ → Event
  socket_action : Option ℕ → Select → Event

-- The callbacks that curl makes before it returns, the first one first. That of a timer carries those
-- that curl makes if it is called from there.
pub data Callbacks : Type 0 where
  returns : Callbacks
  on_socket : ℕ → ℕ → Poll → Callbacks → Callbacks
  -- Whether it is an IPv4 connection, and what the system opens. The system never gives a native handle
  -- that a socket holds: such a one stands for none.
  on_opensocket : Bool → Option ℕ → Callbacks → Callbacks
  on_closesocket : ℕ → Callbacks → Callbacks
  -- `timeout_ms`, which is none where it is negative.
  on_timer : Option ℕ → Callbacks → Callbacks → Callbacks
  on_read : ℕ → ℕ → Callbacks → Callbacks
  on_write on_header : ℕ → Bytes → Callbacks → Callbacks

-- The assertions are those of `sock_cb` and `_perform`; `null_context` is the use of a null private pointer
-- in `sock_cb`, where `NDEBUG` removes its assertion; `bad_access` is the use of a deleted socket or of a
-- null handle, or a second delete.
pub data Fault : Type 0 where
  assertion null_context bad_access overrun : Fault

pub data Result (A : Type 0) : Type 0 where
  done : A → Result A
  fault : Fault → Result A

infixl 5 ◌then◌
abbrev pub ◌then◌ : {A B : Type 0} → Result A → (A → Result B) → Result B
(done a) then f = f a
(fault e) then f = fault e

abbrev pub or_fault : {A : Type 0} → Fault → Option A → Result A
or_fault e none = fault e
or_fault e (some a) = done a

pub record Client (av : AvroMemory) : Type 0 where
  pub contexts : ℕ → CallContext av
  pub sockets : Sockets
  -- The newest event comes first.
  pub log : List Event

pub record World (av : AvroMemory) : Type 0 where
  -- The callbacks that curl makes for its last call.
  pub curl : Client av → Callbacks
  -- The requests that a request's callback performs, each with whether it is given a callback of its own.
  pub callback : Client av → ℕ → List (ℕ × Bool)
  -- Whether the program is built with `NDEBUG`, as `build_linux.sh` does.
  pub ndebug : Bool

module _ (av : AvroMemory) where
  abbrev pub with_context : ℕ → CallContext av → Client av → Client av
  with_context h x c = record c { contexts = update c.contexts h x }

  abbrev pub with_sockets : Client av → Sockets → Client av
  with_sockets c s = record c { sockets = s }

  abbrev pub logged : Event → Client av → Client av
  logged e c = record c { log = e ∷ c.log }

  -- The handle that `curl_handle` gives.
  abbrev pub curl_handle : Client av → ℕ → Option ℕ
  curl_handle c h = if (c.contexts h).curl_shared then some h else none

  -- With whether the function that it is given is not an empty one.
  unfoldable pub perform_async : ℕ → Bool → Client av → Client av
  unfolding post_task
  perform_async h cb c =
      with_sockets (with_context h (record (c.contexts h) { callback = cb }) c)
        (post_task (call_perform h) c.sockets)

  -- `perform` up to its wait for the callback, in the thread of the program.
  unfoldable pub perform : ℕ → Bool → Client av → Client av
  unfolding perform_async
  perform h verbose c =
      perform_async h true (with_context h (record (c.contexts h) { curl_verbose = verbose }) c)

  unfoldable pub perform_all : List (ℕ × Bool) → Client av → Client av
  unfolding perform_async
  perform_all [] c = c
  perform_all ((h, cb) ∷ hs) c = perform_all hs (perform_async h cb c)

  unfoldable pub start_wait : Wait → Client av → Result (Client av)
  unfolding async_some
  start_wait w c = or_fault bad_access (map_some (with_sockets c) (async_some w c.sockets))

  -- `curl_done` is set, with the result and `transport_ok`.
  unfoldable pub finish : Option ℕ → CallContext av → CallContext av
  unfolding of_code
  finish none x = record x { http_result = of_code 0; curl_done = true; transport_ok = false }
  finish (some n) x = record x { http_result = of_code n; curl_done = true; transport_ok = ltb 0 n }

  module _ (world : World av) where
    -- `CURL_POLL_REMOVE`.
    unfoldable pub complete : ℕ → Option ℕ → Client av → Client av
    unfolding finish perform_all curl_stop post_task
    complete h code c =
        let c1 = with_context h (finish code (c.contexts h)) c in
        let shared = curl_handle c1 h in
        let c2 : Client av =
          if (c1.contexts h).callback
          then perform_all (world.callback c1 h) (logged (called_back h) c1)
          else c1 in
        let x = record (curl_stop av (c2.contexts h)) { curl_private = false } in
        with_sockets (with_context h x c2) (post_task (call_poll_remove shared) c2.sockets)

    unfoldable pub poll : ℕ → ℕ → Poll → Client av → Result (Client av)
    unfolding complete start_wait
    poll h p (poll_remove code) c = done (complete h code c)
    poll h p poll_in c =
        start_wait (record { direction = rx; tcp_socket = p; context = curl_handle c h }) c
    poll h p poll_out c =
        start_wait (record { direction = tx; tcp_socket = p; context = curl_handle c h }) c
    poll h p poll_inout c =
        start_wait (record { direction = rx; tcp_socket = p; context = curl_handle c h }) c
        then start_wait (record { direction = tx; tcp_socket = p; context = curl_handle c h })
    poll h p poll_none c = done c

    -- The same with a null pointer for the context.
    unfoldable pub poll_null : Poll → Client av → Result (Client av)
    poll_null poll_none c = done c
    poll_null _ c = fault null_context

    -- What follows with the socket that curl was assigned, or that the map has and curl is then assigned.
    unfoldable pub at_socket :
        ℕ → (ℕ → Client av → Result (Client av)) → Client av → Result (Client av)
    at_socket s polled c = elim (c.sockets.assigned s) [
      | some p ↦ polled p c
      | none ↦ elim (c.sockets.socket_map s) [
        | some p ↦
            let m = c.sockets in
            polled p (with_sockets c (record m { assigned = update m.assigned s (some p) }))
        | none ↦ done c
      ]
    ]

    unfoldable pub sock_cb : ℕ → ℕ → Poll → Client av → Result (Client av)
    unfolding poll poll_null at_socket
    sock_cb h s what c =
        if (c.contexts h).curl_private
        then at_socket s (λ p. poll h p what) c
        else if world.ndebug
        then at_socket s (λ p. poll_null what) c
        else fault assertion

    -- `_timer.cancel()`.
    unfoldable pub stop_timer : Sockets → Sockets
    unfolding post_task
    stop_timer s = elim s.timer [
      | none ↦ s
      | some n ↦ post_task (call_timer_cb operation_aborted) (record s { timer = none })
    ]

    unfoldable pub set_timer : ℕ → Sockets → Sockets
    set_timer n s = record s { timer = some n }

    abbrev pub available : Option ℕ → Sockets → Option ℕ
    available none s = none
    available (some fd) s = elim (s.owner fd) [ none ↦ some fd | some q ↦ none ]

    -- What curl's callbacks do until it returns.
    unfoldable pub make_callbacks : Callbacks → Client av → Result (Client av)
    unfolding sock_cb stop_timer set_timer opensocket_cb closesocket_cb
    make_callbacks returns c = done c
    make_callbacks (on_socket h s what k) c = sock_cb h s what c then make_callbacks k
    make_callbacks (on_opensocket v4 opened k) c =
        make_callbacks k
          (with_sockets c (opensocket_cb v4 (available opened c.sockets) c.sockets).0)
    make_callbacks (on_closesocket fd k) c =
        or_fault bad_access (map_some (with_sockets c) (closesocket_cb fd c.sockets))
        then make_callbacks k
    make_callbacks (on_timer none now k) c =
        make_callbacks now
          (logged (socket_action none select_timeout) (with_sockets c (stop_timer c.sockets)))
        then make_callbacks k
    make_callbacks (on_timer (some zero) now k) c =
        make_callbacks now
          (logged (socket_action none select_timeout) (with_sockets c (stop_timer c.sockets)))
        then make_callbacks k
    make_callbacks (on_timer (some (suc n)) now k) c =
        make_callbacks k (with_sockets c (set_timer (suc n) (stop_timer c.sockets)))
    make_callbacks (on_read h room k) c =
        make_callbacks k (with_context h (read_callback_avro_stream av 1 room (c.contexts h)).0 c)
    make_callbacks (on_write h b k) c =
        or_fault overrun (
          map_some (λ r. with_context h r.0 c)
            (write_callback_avro_stream av 1 (length b) b (c.contexts h)))
        then make_callbacks k
    make_callbacks (on_header h b k) c =
        or_fault overrun
          (map_some (λ r. with_context h r.0 c) (parse_headers av 1 (length b) b (c.contexts h)))
        then make_callbacks k

    -- A call into curl.
    abbrev pub call_curl : Event → Client av → Result (Client av)
    call_curl e c = let c1 = logged e c in make_callbacks (world.curl c1) c1
