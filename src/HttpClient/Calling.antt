-- ===== src/HttpClient/Calling.antt =====
-- What libcurl's callbacks in csi_http/client/http_client.cpp do keeps what holds of the client.
use csi_http.Base.{
  some-inj, arith, subst, ◌≤◌, sym, leb, ◌∙◌, Option, Option-cases, ◌≡◌, Bytes, Bool, ℕ, true, none,
  some, zero, suc, refl, inl, inr, [], ◌∷◌, length,
}
use csi_http.Avro.{AvroMemory}
use csi_http.Asio.{operation_aborted}
use csi_http.HttpClient.CallContext.{CallContext}
use csi_http.HttpClient.Streams.{
  read_callback_avro_stream, write_callback_avro_stream, parse_headers, byte_size,
}
use csi_http.HttpClient.Sockets.{Sockets, post_task, call_timer_cb}
use csi_http.HttpClient.Sound.{IsSockets, posted-IsSockets, timers-IsSockets}
use csi_http.HttpClient.Opening.{opensocket_cb-IsSockets, opensocket_cb-deleted}
use csi_http.HttpClient.Closing.{closesocket_cb-IsSockets}
use csi_http.HttpClient.Callbacks.{
  Client, World, socket_action, select_timeout, with_context, with_sockets, logged, stop_timer,
  set_timer, available, make_callbacks, Callbacks, returns, on_socket, on_opensocket,
  on_closesocket, on_timer, on_read, on_write, on_header,
}
use csi_http.HttpClient.Counts.{
  Holds, Holds-then, IsClient, with_sockets-IsClient, with_context-IsClient, logged-IsClient,
}
use csi_http.HttpClient.Polling.{nobody, sock_cb-IsClient}

module _ (av : AvroMemory) (ended dead : ℕ → Bool) (world : World av) where
  pub stop_timer-IsSockets : (s : Sockets) → IsSockets s → IsSockets (stop_timer av world s)
  unfolding stop_timer post_task
  stop_timer-IsSockets s ok = elim (Option-cases s.timer) [
    | inl e ↦ rw (stop_timer, e) ok
    | inr (n, e) ↦
        rw (stop_timer, e)
          (posted-IsSockets (record s { timer = none }) (call_timer_cb operation_aborted ∷ [])
            (tt, tt) refl (timers-IsSockets s none s.keepalive_timer ok))
  ]

  pub stop_timer-deleted : (s : Sockets) → (stop_timer av world s).deleted ≡ s.deleted
  unfolding stop_timer post_task
  stop_timer-deleted s = elim (Option-cases s.timer) [
    | inl e ↦ rw (stop_timer, e) refl
    | inr (n, e) ↦ rw (stop_timer, e) refl
  ]

  -- The timer's call into curl starts with no timer.
  now-IsClient :
      (c : Client av)
      → IsClient av ended dead nobody c
      → IsClient av ended dead nobody (
          logged av
            (socket_action none select_timeout)
            (with_sockets av c (stop_timer av world c.sockets)))
  now-IsClient c ok =
      logged-IsClient av ended dead nobody (socket_action none select_timeout) _ (λ h. (refl, refl))
        (with_sockets-IsClient av ended dead nobody c _ ok
          (stop_timer-IsSockets c.sockets ok.sockets) (stop_timer-deleted c.sockets))

  -- A context with other contents.
  same_flags :
      (h : ℕ) (x : CallContext av) (c : Client av)
      → IsClient av ended dead nobody c
      → x.curl_private ≡ (c.contexts h).curl_private
      → x.curl_shared ≡ (c.contexts h).curl_shared
      → x.curl_done ≡ (c.contexts h).curl_done
      → IsClient av ended dead nobody (with_context av h x c)
  same_flags h x c ok p q r =
      let old = ok.context h in
      with_context-IsClient av ended dead nobody h x c ok (record {
        shared = λ e. q ∙ old.shared (sym p ∙ e);
        answered = rw p old.answered;
        lasting = λ e. r ∙ old.lasting e;
      })

  available_free :
      (o : Option ℕ) (s : Sockets) (fd : ℕ) → available av world o s ≡ some fd → s.owner fd ≡ none
  available_free none s fd e = absurd (cc)
  available_free (some k) s fd e = elim (Option-cases (s.owner k)) [
    | inl n ↦ subst (λ (m : ℕ). s.owner m ≡ none) (some-inj (rw (available, n) at e)) n
    | inr (q, n) ↦ absurd (let z = rw (available, n) at e in cc)
  ]

  size_fits : (b : Bytes) → leb (byte_size 1 (length b)) (length b) ≡ true
  size_fits b = let l : byte_size 1 (length b) ≤ length b = omega arith in ground arith

  pub make_callbacks-IsClient :
      (k : Callbacks) (c : Client av)
      → IsClient av ended dead nobody c
      → Holds world.ndebug (IsClient av ended dead nobody) (make_callbacks av world k c)
  unfolding make_callbacks set_timer read_callback_avro_stream write_callback_avro_stream
      parse_headers
  make_callbacks-IsClient returns c ok = ok
  make_callbacks-IsClient (on_socket h s what k) c ok =
      Holds-then world.ndebug (IsClient av ended dead nobody) (IsClient av ended dead nobody) _
        (make_callbacks av world k) (sock_cb-IsClient av ended dead world h s what c ok)
        (make_callbacks-IsClient k)
  make_callbacks-IsClient (on_opensocket v4 o k) c ok = make_callbacks-IsClient k _ (
      with_sockets-IsClient av ended dead nobody c _ ok
        (opensocket_cb-IsSockets v4 (available av world o c.sockets) c.sockets ok.sockets
          (available_free o c.sockets))
        (opensocket_cb-deleted v4 (available av world o c.sockets) c.sockets))
  make_callbacks-IsClient (on_closesocket fd k) c ok =
      let (s, e, ok', same) = closesocket_cb-IsSockets fd c.sockets ok.sockets in
      rw e
        (make_callbacks-IsClient k _ (with_sockets-IsClient av ended dead nobody c s ok ok' same))
  make_callbacks-IsClient (on_timer none now k) c ok =
      Holds-then world.ndebug (IsClient av ended dead nobody) (IsClient av ended dead nobody) _
        (make_callbacks av world k) (make_callbacks-IsClient now _ (now-IsClient c ok))
        (make_callbacks-IsClient k)
  make_callbacks-IsClient (on_timer (some zero) now k) c ok =
      Holds-then world.ndebug (IsClient av ended dead nobody) (IsClient av ended dead nobody) _
        (make_callbacks av world k) (make_callbacks-IsClient now _ (now-IsClient c ok))
        (make_callbacks-IsClient k)
  make_callbacks-IsClient (on_timer (some (suc n)) now k) c ok = make_callbacks-IsClient k _ (
      with_sockets-IsClient av ended dead nobody c _ ok
        (timers-IsSockets _ (some (suc n)) _ (stop_timer-IsSockets c.sockets ok.sockets))
        (stop_timer-deleted c.sockets))
  make_callbacks-IsClient (on_read h room k) c ok =
      make_callbacks-IsClient k _ (same_flags h _ c ok refl refl refl)
  make_callbacks-IsClient (on_write h b k) c ok =
      rw (size_fits b) (make_callbacks-IsClient k _ (same_flags h _ c ok refl refl refl))
  make_callbacks-IsClient (on_header h b k) c ok =
      rw (size_fits b) (make_callbacks-IsClient k _ (same_flags h _ c ok refl refl refl))
