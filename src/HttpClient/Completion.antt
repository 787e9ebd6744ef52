-- ===== src/HttpClient/Completion.antt =====
-- `CURL_POLL_REMOVE` in `sock_cb` of csi_http/client/http_client.cpp: how a request ends.
use csi_http.Base.{
  update-cases, update_same, update, Option, ap₃, Bool, append_assoc, map, ◌∙◌, ltb, ◌++◌,
  append-nil, ap, ◌≡◌, sym, if◌then◌else◌, ℕ, List, true, false, some, refl, inl, inr, [], ◌∷◌,
}
use csi_http.Avro.{AvroMemory}
use csi_http.Status.{of_code}
use csi_http.HttpClient.CallContext.{CallContext, curl_stop}
use csi_http.HttpClient.Sockets.{Task, post_task, call_perform, call_poll_remove}
use csi_http.HttpClient.Callbacks.{
  at_socket, Client, World, done, Event, called_back, with_context, logged, curl_handle,
  perform_async, perform_all, finish, complete, poll, sock_cb, Poll, poll_remove,
}

-- The task for a request that is performed.
abbrev pub called_perform : ℕ × Bool → Task
called_perform p = call_perform p.0

module _ (av : AvroMemory) where
  -- What performing requests leaves as it is.
  record IsPerformed (hs : List (ℕ × Bool)) (c d : Client av) : Type 0 where
    log : d.log ≡ c.log
    tasks : d.sockets.tasks ≡ c.sockets.tasks ++ map called_perform hs
    http_result : (h : ℕ) → (d.contexts h).http_result ≡ (c.contexts h).http_result
    transport_ok : (h : ℕ) → (d.contexts h).transport_ok ≡ (c.contexts h).transport_ok
    curl_done : (h : ℕ) → (d.contexts h).curl_done ≡ (c.contexts h).curl_done

  update-field :
      {A : Type 0} (f : CallContext av → A) (g : ℕ → CallContext av) (h : ℕ) (x : CallContext av)
      (i : ℕ)
      → f x ≡ f (g h)
      → f (update g h x i) ≡ f (g i)
  update-field f g h x i e = elim (update-cases g h x i) [
    | inl (k, z) ↦ ap f z ∙ (e ∙ ap (λ (j : ℕ). f (g j)) (sym k))
    | inr (k, z) ↦ ap f z
  ]

  perform_async-IsPerformed :
      (h : ℕ) (cb : Bool) (c : Client av) → IsPerformed ((h, cb) ∷ []) c (perform_async av h cb c)
  unfolding perform_async post_task
  perform_async-IsPerformed h cb c =
      let x : CallContext av = record (c.contexts h) { callback = cb } in
      record {
        log = refl;
        tasks = refl;
        http_result =
            λ i. update-field (λ (y : CallContext av). y.http_result) c.contexts h x i refl;
        transport_ok =
            λ i. update-field (λ (y : CallContext av). y.transport_ok) c.contexts h x i refl;
        curl_done = λ i. update-field (λ (y : CallContext av). y.curl_done) c.contexts h x i refl;
      }

  perform_all-IsPerformed :
      (hs : List (ℕ × Bool)) (c : Client av) → IsPerformed hs c (perform_all av hs c)
  unfolding perform_all
  perform_all-IsPerformed [] c = record {
    log = refl;
    tasks = sym (append-nil c.sockets.tasks);
    http_result = λ h. refl;
    transport_ok = λ h. refl;
    curl_done = λ h. refl;
  }
  perform_all-IsPerformed ((h, cb) ∷ hs) c =
      let one = perform_async-IsPerformed h cb c in
      let rest = perform_all-IsPerformed hs (perform_async av h cb c) in
      record {
        log = rest.log ∙ one.log;
        tasks =
            rest.tasks
            ∙ (ap (λ (l : List Task). l ++ map called_perform hs) one.tasks
                ∙ append_assoc c.sockets.tasks (call_perform h ∷ []) (map called_perform hs));
        http_result = λ i. rest.http_result i ∙ one.http_result i;
        transport_ok = λ i. rest.transport_ok i ∙ one.transport_ok i;
        curl_done = λ i. rest.curl_done i ∙ one.curl_done i;
      }

  abbrev called : ℕ → Bool → List Event
  called h b = if b then called_back h ∷ [] else []

  -- The call of the callback, if there is one.
  abbrev call : ℕ → Bool → List (ℕ × Bool) → Client av → Client av
  call h b hs c = if b then perform_all av hs (logged av (called_back h) c) else c

  record IsCalled (h : ℕ) (b : Bool) (hs : List (ℕ × Bool)) (c d : Client av) : Type 0 where
    log : d.log ≡ called h b ++ c.log
    tasks : d.sockets.tasks ≡ c.sockets.tasks ++ map called_perform (if b then hs else [])
    http_result : (d.contexts h).http_result ≡ (c.contexts h).http_result
    transport_ok : (d.contexts h).transport_ok ≡ (c.contexts h).transport_ok
    curl_done : (d.contexts h).curl_done ≡ (c.contexts h).curl_done

  call-IsCalled :
      (h : ℕ) (b : Bool) (hs : List (ℕ × Bool)) (c : Client av) → IsCalled h b hs c (call h b hs c)
  call-IsCalled h true hs c =
      let all = perform_all-IsPerformed hs (logged av (called_back h) c) in
      record {
        log = all.log;
        tasks = all.tasks;
        http_result = all.http_result h;
        transport_ok = all.transport_ok h;
        curl_done = all.curl_done h;
      }
  call-IsCalled h false hs c = record {
    log = refl;
    tasks = sym (append-nil c.sockets.tasks);
    http_result = refl;
    transport_ok = refl;
    curl_done = refl;
  }

  -- What `finish` writes and what it leaves.
  finish-fields :
      (n : ℕ) (x y : CallContext av)
      → y ≡ finish av (some n) x
      → (y.http_result ≡ of_code n)
        × (y.transport_ok ≡ ltb 0 n)
        × (y.curl_done ≡ true)
        × (y.callback ≡ x.callback)
        × (y.curl_shared ≡ x.curl_shared)
  unfolding finish
  finish-fields n x y e = rw e (refl, refl, refl, refl, refl)

  module _ (world : World av) where
    -- The requests that the callback of a request performs, which sees it done.
    abbrev pub performed : ℕ → ℕ → Client av → List (ℕ × Bool)
    performed h n c =
        if (c.contexts h).callback
        then world.callback (with_context av h (finish av (some n) (c.contexts h)) c) h
        else []

    sock_cb-registered :
        (h s p : ℕ) (what : Poll) (c : Client av)
        → (c.contexts h).curl_private ≡ true
        → c.sockets.assigned s ≡ some p
        → sock_cb av world h s what c ≡ poll av world h p what c
    unfolding sock_cb at_socket
    sock_cb-registered h s p what c private_one there =
        rw (sock_cb, at_socket, private_one, there) refl

    poll-poll_remove :
        (h p n : ℕ) (c : Client av)
        → poll av world h p (poll_remove (some n)) c ≡ done (complete av world h (some n) c)
    unfolding poll
    poll-poll_remove h p n c = refl

    -- When libcurl removes the socket of a request that it has, the request is done with the status that
    -- libcurl gives, its callback is called once, if there is one, and it no longer holds itself. The
    -- requests that the callback performs are queued before the removal of the handle from libcurl.
    pub sock_cb-poll_remove :
        (h s n p : ℕ) (c : Client av)
        → (c.contexts h).curl_private ≡ true
        → (c.contexts h).curl_shared ≡ true
        → c.sockets.assigned s ≡ some p
        → (c' : Client av) × (sock_cb av world h s (poll_remove (some n)) c ≡ done c')
          × ((c'.contexts h).http_result ≡ of_code n)
          × ((c'.contexts h).transport_ok ≡ ltb 0 n)
          × ((c'.contexts h).curl_done ≡ true)
          × ((c'.contexts h).curl_private ≡ false)
          × ((c'.contexts h).curl_shared ≡ false)
          × (c'.log ≡ (if (c.contexts h).callback then called_back h ∷ [] else []) ++ c.log)
          × (c'.sockets.tasks
              ≡ c.sockets.tasks
                ++ (map called_perform (performed h n c) ++ call_poll_remove (some h) ∷ []))
    unfolding complete post_task curl_stop
    sock_cb-poll_remove h s n p c private_one shared there =
        let c1 : Client av = with_context av h (finish av (some n) (c.contexts h)) c in
        let hs : List (ℕ × Bool) = world.callback c1 h in
        let b : Bool = (c1.contexts h).callback in
        let c2 : Client av = call h b hs c1 in
        let (result, ok, over, asked, holds) =
          finish-fields n (c.contexts h) (c1.contexts h)
            (update_same c.contexts h (finish av (some n) (c.contexts h))) in
        let after = call-IsCalled h b hs c1 in
        let x : CallContext av = record (curl_stop av (c2.contexts h)) { curl_private = false } in
        let now : update c2.contexts h x h ≡ x = update_same c2.contexts h x in
        let handle : curl_handle av c1 h ≡ some h = rw (holds ∙ shared) refl in
        (
          complete av world h (some n) c,
          sock_cb-registered h s p (poll_remove (some n)) c private_one there
              ∙ poll-poll_remove h p n c,
          ap (λ (y : CallContext av). y.http_result) now ∙ (after.http_result ∙ result),
          ap (λ (y : CallContext av). y.transport_ok) now ∙ (after.transport_ok ∙ ok),
          ap (λ (y : CallContext av). y.curl_done) now ∙ (after.curl_done ∙ over),
          ap (λ (y : CallContext av). y.curl_private) now,
          ap (λ (y : CallContext av). y.curl_shared) now,
          after.log ∙ ap (λ (z : Bool). called h z ++ c.log) asked,
          ap (λ (l : List Task). l ++ call_poll_remove (curl_handle av c1 h) ∷ []) after.tasks
              ∙ (append_assoc c.sockets.tasks (map called_perform (if b then hs else []))
                    (call_poll_remove (curl_handle av c1 h) ∷ [])
                  ∙ ap₃
                      (λ (z : Bool) (o : Option ℕ) (u : Unit).
                        c.sockets.tasks
                        ++ (map called_perform (if z then hs else []) ++ call_poll_remove o ∷ []))
                      asked handle (refl {a = tt})),
        )
