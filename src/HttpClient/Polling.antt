-- ===== src/HttpClient/Polling.antt =====
-- `sock_cb` of csi_http/client/http_client.cpp keeps what holds of the client.
use csi_http.Base.{
  update_same, update-cases, Option-cases, Bool-cases, if_both, sym, subst, ◌∙◌, ◌≤◌, ==_iff, arith,
  ap, ◌+◌, if◌then◌else◌, inl, inr, ◌==◌, List, Option, ◌≡◌, Bool, ℕ, true, false, none, some, refl,
  [], ◌∷◌,
}
use csi_http.Avro.{AvroMemory}
use csi_http.Asio.Counts.{flag}
use csi_http.HttpClient.CallContext.{CallContext, curl_stop}
use csi_http.HttpClient.Sockets.{Sockets, Wait, rx, post_task, call_perform, call_poll_remove}
use csi_http.HttpClient.Queue.{IsSome}
use csi_http.HttpClient.Sound.{
  IsSockets, posted-IsSockets, async_some-IsSockets, mapped_there, assigned-IsSockets,
}
use csi_http.HttpClient.Callbacks.{
  Client, World, Result, done, fault, assertion, at_socket, poll_null, ◌then◌, Event, called_back,
  with_context, with_sockets, logged, curl_handle, perform_async, perform, perform_all, start_wait,
  finish, complete, poll, sock_cb, Poll, poll_in, poll_out, poll_inout, poll_none, poll_remove,
}
use csi_http.HttpClient.Counts.{
  Holds, IsContext, IsClient, count, is_called_back, is_added, with_sockets-IsClient,
  with_context-IsClient,
}

module _ (av : AvroMemory) (ended dead answering : ℕ → Bool) where
  start_wait-done :
      (w : Wait) (c : Client av)
      → IsSockets c.sockets
      → c.sockets.deleted w.tcp_socket ≡ false
      → IsSome w.context
      → (s : Sockets) × (start_wait av w c ≡ done (with_sockets av c s))
        × IsSockets s
        × (s.deleted ≡ c.sockets.deleted)
  unfolding start_wait
  start_wait-done w c ok d h =
      let (s, e, ok', same) = async_some-IsSockets c.sockets w ok d h in (s, rw e refl, ok', same)

  pub start_wait-IsClient :
      (nd : Bool) (w : Wait) (c : Client av)
      → IsClient av ended dead answering c
      → c.sockets.deleted w.tcp_socket ≡ false
      → IsSome w.context
      → Holds nd (IsClient av ended dead answering) (start_wait av w c)
  start_wait-IsClient nd w c ok d h =
      let (s, e, ok', same) = start_wait-done w c ok.sockets d h in
      rw e (with_sockets-IsClient av ended dead answering c s ok ok' same)

  pub perform_async-IsClient :
      (h : ℕ) (cb : Bool) (c : Client av)
      → IsClient av ended dead answering c
      → IsClient av ended dead answering (perform_async av h cb c)
  unfolding perform_async post_task
  perform_async-IsClient h cb c ok =
      let x : CallContext av = record (c.contexts h) { callback = cb } in
      let old = ok.context h in
      with_sockets-IsClient av ended dead answering (with_context av h x c) _
        (with_context-IsClient av ended dead answering h x c ok
          (record { shared = old.shared; answered = old.answered; lasting = old.lasting }))
        (posted-IsSockets c.sockets (call_perform h ∷ []) (tt, tt) refl ok.sockets) refl

  pub perform-IsClient :
      (h : ℕ) (verbose : Bool) (c : Client av)
      → IsClient av ended dead answering c
      → IsClient av ended dead answering (perform av h verbose c)
  unfolding perform
  perform-IsClient h verbose c ok =
      let old = ok.context h in
      perform_async-IsClient h true _ (
        with_context-IsClient av ended dead answering h
          (record (c.contexts h) { curl_verbose = verbose }) c ok
          (record { shared = old.shared; answered = old.answered; lasting = old.lasting }))

  perform_all-IsClient :
      (hs : List (ℕ × Bool)) (c : Client av)
      → IsClient av ended dead answering c
      → IsClient av ended dead answering (perform_all av hs c)
  unfolding perform_all
  perform_all-IsClient [] c ok = ok
  perform_all-IsClient ((h, cb) ∷ hs) c ok =
      perform_all-IsClient hs (perform_async av h cb c) (perform_async-IsClient h cb c ok)

  finish-IsContext :
      (code : Option ℕ) (log : List Event) (h : ℕ) (x : CallContext av)
      → IsContext av ended answering log h x
      → IsContext av ended answering log h (finish av code x)
  unfolding finish
  finish-IsContext none log h x ok = record {
    shared = ok.shared;
    answered = ok.answered;
    lasting = λ e. refl;
  }
  finish-IsContext (some n) log h x ok = record {
    shared = ok.shared;
    answered = ok.answered;
    lasting = λ e. refl;
  }

-- A handle that is being answered counts as not to be answered any more.
abbrev pub only : ℕ → ℕ → Bool
only h i = i == h

abbrev pub nobody : ℕ → Bool
nobody i = false

flag_if : (b p : Bool) → flag (if b then false else p) ≤ flag p
flag_if true p = omega arith
flag_if false p = omega arith

-- The count of one more call, for the handle that is called back and for another.
answered_one :
    (b p : Bool) (called added : ℕ)
    → (b ≡ true → p ≡ true)
    → called + flag p ≤ added
    → flag b + called + flag (if b then false else p) ≤ added
answered_one true p called added h l = let one : flag p ≡ 1 = ap flag (h refl) in omega arith
answered_one false p called added h l = omega arith

module _ (av : AvroMemory) (ended dead : ℕ → Bool) where
  -- What `finish` leaves of the flags.
  finish-flags :
      (code : Option ℕ) (x : CallContext av)
      → ((finish av code x).curl_private ≡ x.curl_private)
        × ((finish av code x).curl_shared ≡ x.curl_shared)
  unfolding finish
  finish-flags none x = (refl, refl)
  finish-flags (some n) x = (refl, refl)

  -- The callback is called for a handle that was to be answered.
  answering-IsClient :
      (h : ℕ) (c : Client av)
      → IsClient av ended dead nobody c
      → (c.contexts h).curl_private ≡ true
      → IsClient av ended dead (only h) (logged av (called_back h) c)
  answering-IsClient h c ok private_one = record {
    sockets = ok.sockets;
    undeleted = ok.undeleted;
    context = λ i. record {
      shared = (ok.context i).shared;
      answered = omega (
        arith,
        answered_one (i == h) (c.contexts i).curl_private (count (is_called_back i) c.log)
            (count (is_added i) c.log)
            (λ e.
              let same : i ≡ h = (==_iff i h).0 e in
              ap (λ (k : ℕ). (c.contexts k).curl_private) same ∙ private_one)
            (ok.context i).answered,
      );
      lasting = (ok.context i).lasting;
    };
  }

  -- Without a callback.
  unanswered-IsClient :
      (h : ℕ) (c : Client av) → IsClient av ended dead nobody c → IsClient av ended dead (only h) c
  unanswered-IsClient h c ok = record {
    sockets = ok.sockets;
    undeleted = ok.undeleted;
    context = λ i. record {
      shared = (ok.context i).shared;
      answered =
          omega (arith, (ok.context i).answered, flag_if (i == h) (c.contexts i).curl_private);
      lasting = (ok.context i).lasting;
    };
  }

  -- The handle is answered when it is no longer private to curl.
  stopped-IsClient :
      (h : ℕ) (c : Client av)
      → IsClient av ended dead (only h) c
      → IsClient av ended dead nobody
          (with_context av h (record (curl_stop av (c.contexts h)) { curl_private = false }) c)
  unfolding curl_stop
  stopped-IsClient h c ok =
      let x : CallContext av = record (curl_stop av (c.contexts h)) { curl_private = false } in
      let new : IsContext av ended nobody c.log h x = record {
        shared = λ e. absurd (cc);
        answered = omega (arith, (ok.context h).answered);
        lasting = (ok.context h).lasting;
      } in
      let at : (i : ℕ) → CallContext av → Type 0 = λ i y. IsContext av ended nobody c.log i y in
      record {
        sockets = ok.sockets;
        undeleted = ok.undeleted;
        context = λ i. elim (update-cases c.contexts h x i) [
          | inl (same, e) ↦ subst (at i) (sym e) (subst (λ (k : ℕ). at k x) (sym same) new)
          | inr (other, e) ↦
              let apart : (i == h) ≡ false = ground arith in
              subst (at i) (sym e) (record {
                shared = (ok.context i).shared;
                answered =
                    subst
                      (λ (b : Bool).
                        count (is_called_back i) c.log
                          + flag (if b then false else (c.contexts i).curl_private)
                        ≤ count (is_added i) c.log)
                      apart (ok.context i).answered;
                lasting = (ok.context i).lasting;
              })
        ];
      }

  module _ (world : World av) where
    complete-IsClient :
        (h : ℕ) (code : Option ℕ) (c : Client av)
        → IsClient av ended dead nobody c
        → (c.contexts h).curl_private ≡ true
        → IsClient av ended dead nobody (complete av world h code c)
    unfolding complete post_task
    complete-IsClient h code c ok private_one =
        let x : CallContext av = finish av code (c.contexts h) in
        let c1 : Client av = with_context av h x c in
        let ok1 : IsClient av ended dead nobody c1 =
          with_context-IsClient av ended dead nobody h x c ok
            (finish-IsContext av ended dead nobody code c.log h (c.contexts h) (ok.context h)) in
        let now : c1.contexts h ≡ x = update_same c.contexts h x in
        let private_now : (c1.contexts h).curl_private ≡ true =
          ap (λ (y : CallContext av). y.curl_private) now
          ∙ ((finish-flags code (c.contexts h)).0 ∙ private_one) in
        let shared_now : (c1.contexts h).curl_shared ≡ true = (ok1.context h).shared private_now in
        let ok2 =
          if_both (IsClient av ended dead (only h)) (c1.contexts h).callback
            (perform_all-IsClient av ended dead (only h) (world.callback c1 h) _
              (answering-IsClient h c1 ok1 private_now))
            (unanswered-IsClient h c1 ok1) in
        with_sockets-IsClient av ended dead nobody _ _ (stopped-IsClient h _ ok2)
          (posted-IsSockets _ (call_poll_remove (curl_handle av c1 h) ∷ [])
            (subst (λ (b : Bool). IsSome (if b then some h else none)) (sym shared_now) tt, tt) refl
            ok2.sockets)
          refl

    poll-IsClient :
        (h p : ℕ) (what : Poll) (c : Client av)
        → IsClient av ended dead nobody c
        → (c.contexts h).curl_private ≡ true
        → c.sockets.deleted p ≡ false
        → Holds world.ndebug (IsClient av ended dead nobody) (poll av world h p what c)
    unfolding poll
    poll-IsClient h p what c ok private_one there =
        let has : IsSome (curl_handle av c h) =
          subst (λ (b : Bool). IsSome (if b then some h else none))
            (sym ((ok.context h).shared private_one)) tt in
        go what has
      where
        go :
            (what : Poll)
            → IsSome (curl_handle av c h)
            → Holds world.ndebug (IsClient av ended dead nobody) (poll av world h p what c)
        go poll_in has = start_wait-IsClient av ended dead nobody world.ndebug _ c ok there has
        go poll_out has = start_wait-IsClient av ended dead nobody world.ndebug _ c ok there has
        go poll_inout has =
            let w : Wait = record {
              direction = rx;
              tcp_socket = p;
              context = curl_handle av c h;
            } in
            let (s, e, ok', same) = start_wait-done av ended dead nobody w c ok.sockets there has in
            rw e (
              start_wait-IsClient av ended dead nobody world.ndebug _ (with_sockets av c s)
                (with_sockets-IsClient av ended dead nobody c s ok ok' same)
                (ap (λ (d : ℕ → Bool). d p) same ∙ there) has)
        go poll_none has = ok
        go (poll_remove code) has = complete-IsClient h code c ok private_one

    poll_null-IsClient :
        (what : Poll) (c : Client av)
        → IsClient av ended dead nobody c
        → world.ndebug ≡ true
        → Holds world.ndebug (IsClient av ended dead nobody) (poll_null av world what c)
    unfolding poll_null
    poll_null-IsClient poll_in c ok gone = gone
    poll_null-IsClient poll_out c ok gone = gone
    poll_null-IsClient poll_inout c ok gone = gone
    poll_null-IsClient poll_none c ok gone = ok
    poll_null-IsClient (poll_remove code) c ok gone = gone

    -- The socket that is found is one of the map, and the contexts are as before.
    at_socket-IsClient :
        (s : ℕ) (polled : ℕ → Client av → Result (Client av)) (c : Client av)
        → IsClient av ended dead nobody c
        → ((p : ℕ) (d : Client av)
            → IsClient av ended dead nobody d
            → d.contexts ≡ c.contexts
            → d.sockets.deleted p ≡ false
            → Holds world.ndebug (IsClient av ended dead nobody) (polled p d))
        → Holds world.ndebug (IsClient av ended dead nobody) (at_socket av world s polled c)
    unfolding at_socket
    at_socket-IsClient s polled c ok k = elim (Option-cases (c.sockets.assigned s)) [
      | inr (p, e) ↦
          rw (at_socket, e)
            (k p c ok refl (mapped_there c.sockets s p ok.sockets (ok.sockets.assigned s p e)))
      | inl e ↦
          rw (at_socket, e)
            (elim (Option-cases (c.sockets.socket_map s)) [
              | inl n ↦ rw n ok
              | inr (p, m) ↦ rw m (
                  k p _
                    (with_sockets-IsClient av ended dead nobody c _ ok
                      (assigned-IsSockets c.sockets s p m ok.sockets) refl)
                    refl (mapped_there c.sockets s p ok.sockets m))
            ])
    ]

    pub sock_cb-IsClient :
        (h s : ℕ) (what : Poll) (c : Client av)
        → IsClient av ended dead nobody c
        → Holds world.ndebug (IsClient av ended dead nobody) (sock_cb av world h s what c)
    unfolding sock_cb
    sock_cb-IsClient h s what c ok = elim (Bool-cases (c.contexts h).curl_private) [
      | inl private_one ↦ rw private_one (
          at_socket-IsClient s (λ p. poll av world h p what) c ok
            (λ p d ok' same.
              poll-IsClient h p what d ok'
                (ap (λ (g : ℕ → CallContext av). (g h).curl_private) same ∙ private_one)))
      | inr free ↦ rw free (unchecked world.ndebug refl)
    ]
      where
        unchecked :
            (b : Bool)
            → world.ndebug ≡ b
            → Holds world.ndebug (IsClient av ended dead nobody) (
                if b
                then at_socket av world s (λ p. poll_null av world what) c
                else fault assertion)
        unchecked true gone =
            at_socket-IsClient s (λ p. poll_null av world what) c ok
              (λ p d ok' same there. poll_null-IsClient what d ok' gone)
        unchecked false checked = checked
