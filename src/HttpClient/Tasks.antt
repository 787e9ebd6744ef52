-- ===== src/HttpClient/Tasks.antt =====
-- What the io_service calls of `http_client` in csi_http/client/http_client.cpp keeps what holds of the client.
use csi_http.Base.{
  >>=_of_some, update-cases, arith, ◌==◌, List, ◌∷◌, ◌∙◌, if_both, Bool-cases, subst, Option-cases,
  inl, inr, ap, sym, some-inj, >>=-eq-some, ◌≡◌, Option, Bool, ℕ, true, false, none, some, refl,
}
use csi_http.Avro.{AvroMemory}
use csi_http.Asio.{ErrorCode, success, failure, operation_aborted}
use csi_http.Asio.Counts.{flag, flag_le}
use csi_http.Status.{MethodT, get, put, post}
use csi_http.HttpClient.CallContext.{
  EasyOption, method_options, tx_content_length, CallContext, prepare, easy_options, curl_start,
}
use csi_http.HttpClient.Sockets.{Wait, socket_cb}
use csi_http.HttpClient.Queue.{IsSome, Safe}
use csi_http.HttpClient.Sound.{timers-IsSockets}
use csi_http.HttpClient.Callbacks.{
  Client, World, Event, add_handle, remove_handle, socket_action, select_in, select_out,
  select_timeout, with_context, logged, call_curl,
}
use csi_http.HttpClient.Counts.{
  Holds, Holds-then, IsContext, IsClient, is_added, is_called_back, with_sockets-IsClient,
  logged-IsClient,
}
use csi_http.HttpClient.Polling.{nobody, start_wait-IsClient}
use csi_http.HttpClient.Calling.{make_callbacks-IsClient}
use csi_http.HttpClient.Run.{
  socket_rx_cb, socket_tx_cb, timer_cb, keepalivetimer_cb, poll_remove_posted, perform_posted,
}

module _ (av : AvroMemory) (ended dead : ℕ → Bool) (world : World av) where
  abbrev pub IsSound : Client av → Type 0
  IsSound c = IsClient av ended dead nobody c

  -- A call that is not the addition of a request.
  call_curl-IsClient :
      (e : Event) (c : Client av)
      → ((h : ℕ) → (is_called_back h e ≡ false) × (is_added h e ≡ false))
      → IsSound c
      → Holds world.ndebug IsSound (call_curl av world e c)
  call_curl-IsClient e c other ok =
      make_callbacks-IsClient av ended dead world _ _
        (logged-IsClient av ended dead nobody e c other ok)

  pub socket_rx_cb-IsClient :
      (e : ErrorCode) (w : Wait) (c : Client av)
      → IsSound c
      → Safe c.sockets.deleted (socket_cb e w)
      → Holds world.ndebug IsSound (socket_rx_cb av world e w c)
  unfolding socket_rx_cb
  socket_rx_cb-IsClient success w c ok (there, has) = elim (Option-cases w.context) [
    | inl e ↦ absurd (subst IsSome e has)
    | inr (h, e) ↦
        rw (socket_rx_cb, e)
          (elim (Bool-cases (c.contexts h).curl_done) [
            | inl over ↦ rw over ok
            | inr on ↦
                rw (on, there)
                  (Holds-then world.ndebug IsSound IsSound _ _
                    (call_curl-IsClient
                      (socket_action (c.sockets.native_handle w.tcp_socket) select_in) c
                      (λ i. (refl, refl)) ok)
                    (λ c1 ok1. if_both (Holds world.ndebug IsSound) (c1.contexts h).curl_done ok1 (
                      start_wait-IsClient av ended dead nobody world.ndebug w c1 ok1
                        (ap (λ (d : ℕ → Bool). d w.tcp_socket) (ok1.undeleted ∙ sym ok.undeleted)
                          ∙ there)
                        has)))
          ])
  ]
  socket_rx_cb-IsClient failure w c ok safe = ok
  socket_rx_cb-IsClient operation_aborted w c ok safe = ok

  pub socket_tx_cb-IsClient :
      (e : ErrorCode) (w : Wait) (c : Client av)
      → IsSound c
      → Safe c.sockets.deleted (socket_cb e w)
      → Holds world.ndebug IsSound (socket_tx_cb av world e w c)
  unfolding socket_tx_cb
  socket_tx_cb-IsClient success w c ok (there, has) = rw there (
      call_curl-IsClient (socket_action (c.sockets.native_handle w.tcp_socket) select_out) c
        (λ h. (refl, refl)) ok)
  socket_tx_cb-IsClient failure w c ok safe = ok
  socket_tx_cb-IsClient operation_aborted w c ok safe = ok

  pub timer_cb-IsClient :
      (e : ErrorCode) (c : Client av)
      → IsSound c
      → Holds world.ndebug IsSound (timer_cb av world e c)
  unfolding timer_cb
  timer_cb-IsClient success c ok =
      call_curl-IsClient (socket_action none select_timeout) c (λ h. (refl, refl)) ok
  timer_cb-IsClient failure c ok = ok
  timer_cb-IsClient operation_aborted c ok = ok

  pub keepalivetimer_cb-IsClient :
      (e : ErrorCode) (c : Client av) → IsSound c → IsSound (keepalivetimer_cb av world e c)
  unfolding keepalivetimer_cb
  keepalivetimer_cb-IsClient success c ok =
      with_sockets-IsClient av ended dead nobody c _ ok
        (timers-IsSockets c.sockets c.sockets.timer true ok.sockets) refl
  keepalivetimer_cb-IsClient failure c ok = ok
  keepalivetimer_cb-IsClient operation_aborted c ok = ok

  pub poll_remove_posted-IsClient :
      (h : Option ℕ) (c : Client av)
      → IsSound c
      → IsSome h
      → Holds world.ndebug IsSound (poll_remove_posted av world h c)
  unfolding poll_remove_posted
  poll_remove_posted-IsClient none c ok has = absurd has
  poll_remove_posted-IsClient (some h) c ok has =
      call_curl-IsClient (remove_handle h) c (λ i. (refl, refl)) ok

  -- What `_perform` leaves of the flags, where it does not fail.
  prepare-flags :
      (nd : Bool) (c x : CallContext av)
      → prepare av nd c ≡ some x
      → (x.curl_shared ≡ true) × (x.curl_done ≡ c.curl_done)
  unfolding prepare curl_start
  prepare-flags nd c x e =
      let (os, _, e') = >>=-eq-some (easy_options av nd (curl_start av c)) _ e in
      let same = some-inj e' in
      (
        sym (ap (λ (y : CallContext av). y.curl_shared) same),
        sym (ap (λ (y : CallContext av). y.curl_done) same),
      )

  method_options-some :
      (m : MethodT) (n : ℕ) → (os : List EasyOption) × (method_options av true m n ≡ some os)
  unfolding method_options
  method_options-some get n = (_, refl)
  method_options-some put n = (_, refl)
  method_options-some post n = (_, refl)
  method_options-some _ n = (_, refl)

  -- With `NDEBUG` every request is prepared.
  prepare-some : (c : CallContext av) → (x : CallContext av) × (prepare av true c ≡ some x)
  unfolding prepare curl_start easy_options
  prepare-some c =
      let (os, known) = method_options-some c.method (tx_content_length av c) in
      (
        _,
        >>=_of_some (easy_options av true (curl_start av c)) _
            (>>=_of_some (method_options av true c.method (tx_content_length av c)) _ known refl)
            refl,
      )

  prepare-none : (nd : Bool) (c : CallContext av) → prepare av nd c ≡ none → nd ≡ false
  prepare-none false c e = refl
  prepare-none true c e = let (x, made) = prepare-some c in cc

  -- A request that is added to curl may be answered once more.
  added-IsClient :
      (h : ℕ) (x : CallContext av) (c : Client av)
      → IsSound c
      → x.curl_shared ≡ true
      → x.curl_done ≡ (c.contexts h).curl_done
      → IsSound (logged av (add_handle h) (with_context av h x c))
  added-IsClient h x c ok shared_now same_done =
      let log : List Event = add_handle h ∷ c.log in
      let at : ℕ → CallContext av → Type 0 = λ i y. IsContext av ended nobody log i y in
      record {
        sockets = ok.sockets;
        undeleted = ok.undeleted;
        context = λ i. elim (update-cases c.contexts h x i) [
          | inl (same, e) ↦
              let one : (i == h) ≡ true = ground arith in
              let added_one : flag (i == h) ≡ 1 = ap flag one in
              subst (at i) (sym e) (record {
                shared = λ z. shared_now;
                answered = omega (arith, (ok.context i).answered, flag_le x.curl_private);
                lasting = λ z.
                    same_done ∙ (ok.context h).lasting (subst (λ (k : ℕ). ended k ≡ true) same z);
              })
          | inr (other, e) ↦ subst (at i) (sym e) (record {
            shared = (ok.context i).shared;
            answered = omega (arith, (ok.context i).answered);
            lasting = (ok.context i).lasting;
          })
        ];
      }

  pub perform_posted-IsClient :
      (h : ℕ) (c : Client av) → IsSound c → Holds world.ndebug IsSound (perform_posted av world h c)
  unfolding perform_posted
  perform_posted-IsClient h c ok = elim (Option-cases (prepare av world.ndebug (c.contexts h))) [
    | inl e ↦ rw e (prepare-none world.ndebug (c.contexts h) e)
    | inr (x, e) ↦
        let (shared_now, same_done) = prepare-flags world.ndebug (c.contexts h) x e in
        rw e (
          make_callbacks-IsClient av ended dead world _ _
            (added-IsClient h x c ok shared_now same_done))
  ]
