-- ===== src/HttpClient/Safety.antt =====
-- No run of the client of csi_http/client/http_client.cpp uses a deleted socket or a null handle.
use csi_http.Base.{
  All-append, Bool-cases, All-append_right, All-append_left, ◌∙◌, if_both, All, false, none, inl,
  inr, ◌++◌, subst, ◌≡◌, Option, List, Bool, ℕ, refl, [], ◌∷◌,
}
use csi_http.Avro.{AvroMemory}
use csi_http.Asio.{ErrorCode, success, failure, operation_aborted}
use csi_http.HttpClient.Sockets.{
  Sockets, Wait, Task, Direction, rx, tx, post_task, socket_cb, delete_socket, call_poll_remove,
  call_perform, call_timer_cb, call_keepalivetimer_cb,
}
use csi_http.HttpClient.Queue.{IsSome, Safe, after, IsOrdered}
use csi_http.HttpClient.Sound.{
  IsSockets, IsWaiting, gone, popped-IsSockets, posted-IsSockets, timers-IsSockets,
}
use csi_http.HttpClient.Callbacks.{Client, World, Result, done, with_sockets}
use csi_http.HttpClient.Counts.{Holds, Holds-imp, IsClient, with_sockets-IsClient}
use csi_http.HttpClient.Polling.{nobody, perform_async-IsClient, perform-IsClient}
use csi_http.HttpClient.Calling.{stop_timer-IsSockets, stop_timer-deleted}
use csi_http.HttpClient.Run.{
  close, cancel_keepalive, delete_posted, run_task, run_one, Step, Reachable, runs, socket_ready,
  timer_expires, keepalive_expires, performs, performs_waiting, closes, starts, steps,
}
use csi_http.HttpClient.Tasks.{
  socket_rx_cb-IsClient, socket_tx_cb-IsClient, timer_cb-IsClient, keepalivetimer_cb-IsClient,
  poll_remove_posted-IsClient, perform_posted-IsClient,
}

module _ (av : AvroMemory) (ended : ℕ → Bool) (world : World av) where
  -- Between two tasks.
  abbrev pub IsIdle : Client av → Type 0
  IsIdle c = IsClient av ended c.sockets.deleted nobody c

  settled :
      (dead : ℕ → Bool) (m : Result (Client av))
      → Holds world.ndebug (IsClient av ended dead nobody) m
      → Holds world.ndebug IsIdle m
  settled dead m h =
      Holds-imp world.ndebug (IsClient av ended dead nobody) IsIdle m
        (λ c ok. record { sockets = ok.sockets; undeleted = refl; context = ok.context }) h

  socket_cb-IsIdle :
      (e : ErrorCode) (d : Direction) (p : ℕ) (x : Option ℕ) (c : Client av)
      → IsIdle c
      → Safe c.sockets.deleted (socket_cb e (record { direction = d; tcp_socket = p; context = x }))
      → Holds world.ndebug IsIdle (
          run_task av world (socket_cb e (record { direction = d; tcp_socket = p; context = x })) c)
  unfolding run_task
  socket_cb-IsIdle e rx p x c ok safe =
      settled c.sockets.deleted _
        (socket_rx_cb-IsClient av ended c.sockets.deleted world e _ c ok safe)
  socket_cb-IsIdle e tx p x c ok safe =
      settled c.sockets.deleted _
        (socket_tx_cb-IsClient av ended c.sockets.deleted world e _ c ok safe)

  abbrev popped : List Task → Client av → Client av
  popped ts c = with_sockets av c (record c.sockets { tasks = ts })

  run_task-IsIdle :
      (t : Task) (ts : List Task) (c : Client av)
      → c.sockets.tasks ≡ t ∷ ts
      → IsIdle c
      → Safe c.sockets.deleted t
      → Holds world.ndebug IsIdle (run_task av world t (popped ts c))
  unfolding run_task delete_posted
  run_task-IsIdle t ts c e ok safe = go t (popped-IsSockets c.sockets t ts e ok.sockets) safe
    where
      here : IsSockets (record c.sockets { tasks = ts }) → IsIdle (popped ts c)
      here s =
          with_sockets-IsClient av ended c.sockets.deleted nobody c
            (record c.sockets { tasks = ts }) ok s refl

      go :
          (t : Task)
          → IsSockets (record c.sockets { tasks = ts; deleted = after t c.sockets.deleted })
          → Safe c.sockets.deleted t
          → Holds world.ndebug IsIdle (run_task av world t (popped ts c))
      go (socket_cb e w) s safe =
          socket_cb-IsIdle e w.direction w.tcp_socket w.context (popped ts c) (here s) safe
      go (delete_socket p) s safe =
          rw safe (record { sockets = s; undeleted = refl; context = ok.context })
      go (call_poll_remove h) s safe =
          settled c.sockets.deleted _
            (poll_remove_posted-IsClient av ended c.sockets.deleted world h _ (here s) safe)
      go (call_perform h) s safe =
          settled c.sockets.deleted _
            (perform_posted-IsClient av ended c.sockets.deleted world h _ (here s))
      go (call_timer_cb e) s safe =
          settled c.sockets.deleted _
            (timer_cb-IsClient av ended c.sockets.deleted world e _ (here s))
      go (call_keepalivetimer_cb e) s safe =
          settled c.sockets.deleted (done _)
            (keepalivetimer_cb-IsClient av ended c.sockets.deleted world e _ (here s))

  run_one-IsIdle : (c : Client av) → IsIdle c → Holds world.ndebug IsIdle (run_one av world c)
  unfolding run_one
  run_one-IsIdle c ok = go c.sockets.tasks refl
    where
      go :
          (l : List Task)
          → c.sockets.tasks ≡ l
          → Holds world.ndebug IsIdle (elim l as (λ x. Result (Client av)) [
            | [] ↦ done c
            | t ∷ ts ↦ run_task av world t (popped ts c)
          ])
      go [] e = ok
      go (t ∷ ts) e =
          run_task-IsIdle t ts c e ok
            (subst (λ (l : List Task). IsOrdered c.sockets.deleted l) e ok.sockets.ordered).0

  ready-Safe :
      (e : ErrorCode) (w : Wait) (there : ℕ → Bool)
      → there w.tcp_socket ≡ false
      → IsSome w.context
      → Safe there (socket_cb e w)
  ready-Safe success w there a b = (a, b)
  ready-Safe failure w there a b = tt
  ready-Safe operation_aborted w there a b = tt

  -- A timer that expires is not pending any more.
  expired-IsIdle :
      (c : Client av) (t : Option ℕ) (k : Bool) (task : Task)
      → IsOrdered (gone c.sockets) (task ∷ [])
      → after task (gone c.sockets) ≡ gone c.sockets
      → IsIdle c
      → IsIdle
          (with_sockets av c (post_task task (record c.sockets { timer = t; keepalive_timer = k })))
  unfolding post_task
  expired-IsIdle c t k task safe same ok =
      with_sockets-IsClient av ended c.sockets.deleted nobody c _ ok
        (posted-IsSockets (record c.sockets { timer = t; keepalive_timer = k }) (task ∷ []) safe
          same (timers-IsSockets c.sockets t k ok.sockets))
        refl

  close-IsIdle : (c : Client av) → IsIdle c → IsIdle (close av world c)
  unfolding close cancel_keepalive post_task
  close-IsIdle c ok =
      let keepalive =
        expired-IsIdle c c.sockets.timer false (call_keepalivetimer_cb operation_aborted) (tt, tt)
          refl ok in
      let cancelled =
        if_both (λ (s : Sockets). IsSockets s × (s.deleted ≡ c.sockets.deleted))
          c.sockets.keepalive_timer (keepalive.sockets, refl) (ok.sockets, refl) in
      settled c.sockets.deleted (done _) (
        with_sockets-IsClient av ended c.sockets.deleted nobody c _ ok
          (stop_timer-IsSockets av ended c.sockets.deleted world _ cancelled.0)
          (stop_timer-deleted av ended c.sockets.deleted world _ ∙ cancelled.1))

  ready-IsSockets :
      (s : Sockets) (before after : List Wait) (w : Wait) (e : ErrorCode)
      → s.waits ≡ before ++ w ∷ after
      → IsSockets s
      → IsSockets (post_task (socket_cb e w) (record s { waits = before ++ after }))
  unfolding post_task
  ready-IsSockets s before after w e split ok =
      let split_waits : All (IsWaiting s.native_handle) (before ++ w ∷ after) =
        subst (λ (l : List Wait). All (IsWaiting s.native_handle) l) split ok.waiting in
      let first = All-append_left (IsWaiting s.native_handle) before (w ∷ after) split_waits in
      let ((has, (fd, held)), last) =
        All-append_right (IsWaiting s.native_handle) before (w ∷ after) split_waits in
      let there : gone s w.tcp_socket ≡ false = elim (Bool-cases (gone s w.tcp_socket)) [
        | inl g ↦ absurd (let z = ok.gone_closed w.tcp_socket g in cc)
        | inr g ↦ g
      ] in
      posted-IsSockets (record s { waits = before ++ after }) (socket_cb e w ∷ [])
        (ready-Safe e w (gone s) there has, tt) refl
        (record {
          ordered = ok.ordered;
          owned = ok.owned;
          mapped = ok.mapped;
          assigned = ok.assigned;
          gone_closed = ok.gone_closed;
          fresh = ok.fresh;
          waiting = All-append (IsWaiting s.native_handle) before after first last;
        })

  Step-IsIdle :
      (c : Client av) (r : Result (Client av))
      → Step av world c r
      → IsIdle c
      → Holds world.ndebug IsIdle r
  unfolding post_task
  Step-IsIdle c r runs ok = run_one-IsIdle c ok
  Step-IsIdle c r (socket_ready before after w e split) ok =
      with_sockets-IsClient av ended c.sockets.deleted nobody c _ ok
        (ready-IsSockets c.sockets before after w e split ok.sockets) refl
  Step-IsIdle c r (timer_expires n t) ok =
      expired-IsIdle c none c.sockets.keepalive_timer (call_timer_cb success) (tt, tt) refl ok
  Step-IsIdle c r (keepalive_expires k) ok =
      expired-IsIdle c c.sockets.timer false (call_keepalivetimer_cb success) (tt, tt) refl ok
  Step-IsIdle c r (performs h cb) ok =
      settled c.sockets.deleted (done _)
        (perform_async-IsClient av ended c.sockets.deleted nobody h cb c ok)
  Step-IsIdle c r (performs_waiting h v) ok =
      settled c.sockets.deleted (done _)
        (perform-IsClient av ended c.sockets.deleted nobody h v c ok)
  Step-IsIdle c r closes ok = close-IsIdle c ok

  pub Reachable-IsIdle :
      (c : Client av) (r : Result (Client av))
      → Reachable av world c r
      → IsIdle c
      → Holds world.ndebug IsIdle r
  Reachable-IsIdle c r starts ok = ok
  Reachable-IsIdle c r (steps {d} before step) ok =
      Step-IsIdle d r step (Reachable-IsIdle c (done d) before ok)
