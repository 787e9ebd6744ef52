-- ===== src/HttpClient/Runs.antt =====
-- What the runs of `http_client` in csi_http/client/http_client.cpp promise.
use csi_http.Base.{
  if◌then◌else◌, arith, ◌≢◌, ap, ◌≤◌, All, Bool, ◌+◌, ◌≡◌, ℕ, true, false, none, some, refl,
}
use csi_http.Avro.{AvroMemory}
use csi_http.Asio.{ErrorCode, success, failure, operation_aborted}
use csi_http.Asio.Counts.{flag}
use csi_http.HttpClient.CallContext.{CallContext}
use csi_http.HttpClient.Sockets.{Wait}
use csi_http.HttpClient.Sound.{IsWaiting, mapped_there}
use csi_http.HttpClient.Opening.{All-imp}
use csi_http.HttpClient.Callbacks.{
  Client, World, Result, Fault, done, fault, assertion, null_context, bad_access, overrun,
}
use csi_http.HttpClient.Counts.{Holds, count, is_added, is_called_back}
use csi_http.HttpClient.Polling.{nobody}
use csi_http.HttpClient.Run.{http_client, socket_rx_cb, Reachable}
use csi_http.HttpClient.Safety.{IsIdle, Reachable-IsIdle}

module _ (av : AvroMemory) (world : World av) where
  -- Contexts that no client has performed.
  abbrev pub IsFresh : (ℕ → CallContext av) → Type 0
  IsFresh contexts = (h : ℕ) → (contexts h).curl_private ≡ false

  http_client-IsIdle :
      (ended : ℕ → Bool) (contexts : ℕ → CallContext av)
      → ((h : ℕ) → ended h ≡ true → (contexts h).curl_done ≡ true)
      → IsFresh contexts
      → IsIdle av ended world (http_client av contexts)
  unfolding http_client
  http_client-IsIdle ended contexts over fresh = record {
    sockets = record {
      ordered = tt;
      owned = λ p fd e. absurd (cc);
      mapped = λ fd p e. absurd (cc);
      assigned = λ fd p e. absurd (cc);
      gone_closed = λ p e. refl;
      fresh = λ p l. (refl, refl);
      waiting = tt;
    };
    undeleted = refl;
    context = λ h. record {
      shared = λ e. absurd (let f = fresh h in cc);
      answered = let f : flag (contexts h).curl_private ≡ 0 = ap flag (fresh h) in omega arith;
      lasting = over h;
    };
  }

  reached :
      (contexts : ℕ → CallContext av) (r : Result (Client av))
      → IsFresh contexts
      → Reachable av world (http_client av contexts) r
      → Holds world.ndebug (IsIdle av nobody world) r
  reached contexts r fresh run =
      Reachable-IsIdle av nobody world (http_client av contexts) r run
        (http_client-IsIdle nobody contexts (λ h e. absurd (cc)) fresh)

  -- However libcurl, the system, the program and the requests' callbacks behave, a run of a client whose
  -- contexts are new ends in no fault but one: without `NDEBUG` a failed assertion, and with it the use of
  -- the null private pointer that the assertion of `sock_cb` is there for. No socket is used or deleted
  -- after its delete, no other null handle is read, and no callback reads past the end of its buffer.
  pub Reachable-IsSafe :
      (contexts : ℕ → CallContext av) (f : Fault)
      → IsFresh contexts
      → Reachable av world (http_client av contexts) (fault f)
      → f ≡ (if world.ndebug then null_context else assertion)
  Reachable-IsSafe contexts assertion fresh run =
      let checked : world.ndebug ≡ false = reached contexts (fault assertion) fresh run in
      rw checked refl
  Reachable-IsSafe contexts null_context fresh run =
      let unchecked : world.ndebug ≡ true = reached contexts (fault null_context) fresh run in
      rw unchecked refl
  Reachable-IsSafe contexts bad_access fresh run =
      absurd (reached contexts (fault bad_access) fresh run)
  Reachable-IsSafe contexts overrun fresh run = absurd (reached contexts (fault overrun) fresh run)

  -- At any time of a run, the callback of a request has been called at most as often as the request was
  -- added to libcurl, and one time less where it is still in libcurl.
  pub Reachable-count :
      (contexts : ℕ → CallContext av) (c : Client av) (h : ℕ)
      → IsFresh contexts
      → Reachable av world (http_client av contexts) (done c)
      → count (is_called_back h) c.log + flag (c.contexts h).curl_private ≤ count (is_added h) c.log
  Reachable-count contexts c h fresh run =
      ((reached contexts (done c) fresh run).context h).answered

  -- At any time of a run, a socket of the map is open with the native handle that it is mapped from and is
  -- not deleted, what libcurl was told of a native handle is what the map has, and each wait is for an
  -- open socket.
  pub Reachable-mapped :
      (contexts : ℕ → CallContext av) (c : Client av)
      → IsFresh contexts
      → Reachable av world (http_client av contexts) (done c)
      → ((fd p : ℕ)
          → c.sockets.socket_map fd ≡ some p
          → (c.sockets.native_handle p ≡ some fd) × (c.sockets.deleted p ≡ false))
        × ((fd p : ℕ) → c.sockets.assigned fd ≡ some p → c.sockets.socket_map fd ≡ some p)
        × All (λ (w : Wait). c.sockets.native_handle w.tcp_socket ≢ none) c.sockets.waits
  Reachable-mapped contexts c fresh run =
      let ok = (reached contexts (done c) fresh run).sockets in
      (
        λ fd p e. (ok.mapped fd p e, mapped_there c.sockets fd p ok e),
        ok.assigned,
        All-imp (λ (w : Wait). IsWaiting c.sockets.native_handle w)
            (λ (w : Wait). c.sockets.native_handle w.tcp_socket ≢ none) c.sockets.waits
            (λ w h z. let held = h.1.1 in cc) ok.waiting,
      )

  rx_done :
      (d : Client av) (h : ℕ) (e : ErrorCode) (w : Wait)
      → w.context ≡ some h
      → (d.contexts h).curl_done ≡ true
      → socket_rx_cb av world e w d ≡ done d
  unfolding socket_rx_cb
  rx_done d h success w bound over = rw (socket_rx_cb, bound, over) refl
  rx_done d h failure w bound over = refl
  rx_done d h operation_aborted w bound over = refl

  -- Once a request is done it stays so, also when it is performed again: from then on an event that its
  -- socket is readable does nothing.
  pub socket_rx_cb-Reachable :
      (contexts : ℕ → CallContext av) (c d : Client av) (h : ℕ) (e : ErrorCode) (w : Wait)
      → IsFresh contexts
      → Reachable av world (http_client av contexts) (done c)
      → (c.contexts h).curl_done ≡ true
      → Reachable av world c (done d)
      → w.context ≡ some h
      → socket_rx_cb av world e w d ≡ done d
  socket_rx_cb-Reachable contexts c d h e w fresh run over later bound =
      let ended : ℕ → Bool = λ i. (c.contexts i).curl_done in
      let ok = reached contexts (done c) fresh run in
      let ok_ended : IsIdle av ended world c = record {
        sockets = ok.sockets;
        undeleted = refl;
        context = λ i. record {
          shared = (ok.context i).shared;
          answered = (ok.context i).answered;
          lasting = λ z. z;
        };
      } in
      rx_done d h e w bound
        (((Reachable-IsIdle av ended world c (done d) later ok_ended).context h).lasting over)
