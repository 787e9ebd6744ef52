-- ===== src/HttpsConnection/Invariant.antt =====
-- A connection of csi_http/server/https_connection.cpp keeps what holds of it, however its operations
-- complete, when its server answers at once.
use csi_http.Base.{
  ◌==◌, >>=-eq-some, ◌>>=◌, if◌then◌else◌, Bool, ℕ, List, ◌∙◌, true, false, ◌∷◌, ap, some-inj, sym,
  subst, ◌≡◌, Bytes, Option, ◌+◌, arith, some, refl, length,
}
use csi_http.Externals.{Externals}
use csi_http.Status.{StatusType, MethodT, method_name, bad_request}
use csi_http.Reply.{create, text_html}
use csi_http.Connection.{Connection, Garbage, http_parse}
use csi_http.Connection.Waiting.{http_parse-waiting}
use csi_http.Asio.{
  ErrorCode, success, failure, operation_aborted, Io, Operation, Entry, Completes, World, begin,
  expires_from_now, async_read_some, async_write, async_wait, async_wait_call, async_handshake,
  async_shutdown, request_begin, request_end,
}
use csi_http.Asio.Counts.{count, flag, is_read, is_write, count-Completes, count-begin}
use csi_http.HttpConnection.Sound.{Paired, nothing, refused, answered}
use csi_http.HttpsConnection.{
  HttpsConnection, new_https_connection, start, handle_handshake, handle_read,
  handle_write_complete, handle_timer, handle_shutdown, log_begin, after_request, after_read,
  send_reply, read_on,
}
use csi_http.HttpsConnection.Steps.{
  IsAtOnce, IsServer, Step, handshake_done, read_done, write_done, timer_done, call_done,
  shutdown_done, elsewhere, Reachable, starts, steps,
}
use csi_http.HttpsConnection.Sound.{
  is_handshake, is_call, IsSound, IsQuiet, quiet-IsSound, begun-IsSound, cancel_timer-IsQuiet,
  read_on-IsSound, IsLogged, log_begin-IsLogged, send_reply-IsSound,
}

module _ (ex : Externals) where
  -- An owner that has completed leaves the connection quiet.
  done-IsQuiet :
      (o : Operation) (e : ErrorCode) (c : HttpsConnection ex) (io : Io)
      → Completes c.io o e io
      → IsSound ex c
      → flag (is_handshake o) + (flag (is_read o) + flag (is_write o)) ≡ 1
      → IsQuiet ex (record c { io = io })
  done-IsQuiet o e c io done a one = record {
    owners = omega (
      arith,
      count-Completes is_handshake c.io io o e done,
      count-Completes is_read c.io io o e done,
      count-Completes is_write c.io io o e done,
      a.one_owner,
      one,
    );
    no_call = omega (arith, count-Completes is_call c.io io o e done, a.no_call);
    waiting = a.waiting;
    paired = subst Paired (sym (ap (λ (i : Io). i.log) done.left)) a.paired;
  }

  -- An operation that is no owner has completed.
  other-IsSound :
      (o : Operation) (e : ErrorCode) (c : HttpsConnection ex) (io : Io)
      → Completes c.io o e io
      → IsSound ex c
      → IsSound ex (record c { io = io })
  other-IsSound o e c io done a = record {
    one_owner = omega (
      arith,
      count-Completes is_handshake c.io io o e done,
      count-Completes is_read c.io io o e done,
      count-Completes is_write c.io io o e done,
      a.one_owner,
    );
    no_call = omega (arith, count-Completes is_call c.io io o e done, a.no_call);
    waiting = a.waiting;
    paired = subst Paired (sym (ap (λ (i : Io). i.log) done.left)) a.paired;
  }

  handle_timer-IsSound :
      (e : ErrorCode) (c : HttpsConnection ex) → IsSound ex c → IsSound ex (handle_timer ex e c)
  unfolding handle_timer begin
  handle_timer-IsSound operation_aborted c a = a
  handle_timer-IsSound failure c a = a
  handle_timer-IsSound success c a = record {
    one_owner = omega (
      arith,
      count-begin is_handshake async_shutdown c.io,
      count-begin is_read async_shutdown c.io,
      count-begin is_write async_shutdown c.io,
      a.one_owner,
    );
    no_call = omega (arith, count-begin is_call async_shutdown c.io, a.no_call);
    waiting = a.waiting;
    paired = a.paired;
  }

  module _ {S : Type 0} (serve : S → HttpsConnection ex → Option (S × HttpsConnection ex))
      (law : IsServer ex serve) where
    -- What the log is when a request that was begun is ended.
    answered-Paired :
        (c d b : HttpsConnection ex) (id' method' : Bytes) (st : StatusType)
        → IsLogged ex request_begin c d
        → IsAtOnce ex d b
        → Paired c.io.log
        → method_name b.base.request.method ≡ some method'
        → Paired (request_end id' method' b.base.request.url st ∷ b.io.log)
    answered-Paired c d b id' method' st line once paired named =
        let url : Bytes = c.base.request.url in
        let log : List Entry = request_begin line.id line.method url ∷ c.io.log in
        let m_eq : line.method ≡ method' = some-inj (
          sym line.named
          ∙ (ap (λ (m : MethodT). method_name m) (sym (once.same.method ∙ line.same.method))
              ∙ named)) in
        let u_eq : b.base.request.url ≡ url = once.same.url ∙ line.same.url in
        subst (λ (l : List Entry). Paired (request_end id' method' b.base.request.url st ∷ l))
          (sym (ap (λ (i : Io). i.log) (once.io ∙ line.io)))
          (subst (λ (u : Bytes). Paired (request_end id' method' u st ∷ log)) (sym u_eq)
            (subst (λ (m : Bytes). Paired (request_end id' m url st ∷ log)) m_eq
              (answered line.id id' line.method url st paired)))

    after_request-IsSound :
        (w2 : World ex.Uuid) (c d : HttpsConnection ex) (p r : S × HttpsConnection ex)
        → after_request ex serve w2 p ≡ some r
        → IsLogged ex request_begin c d
        → IsAtOnce ex d p.1
        → IsQuiet ex c
        → IsSound ex r.1
    unfolding after_request
    after_request-IsSound w2 c d p r h line once q =
        go p.1.base.waiting_for_async_reply (once.waiting ∙ (line.waiting ∙ q.waiting)) h
      where
        io :
            p.1.io
            ≡ record c.io { log = request_begin line.id line.method c.base.request.url ∷ c.io.log }
        io = once.io ∙ line.io

        go :
            (b : Bool)
            → b ≡ false
            → (if b
                then some (
                  p.0,
                  record p.1 { io = begin (async_wait 3605) (expires_from_now 3605 p.1.io) },
                )
                else (send_reply ex w2 p.1 >>= λ e. some (p.0, e)))
              ≡ some r
            → IsSound ex r.1
        go true e g = absurd (cc)
        go false e g =
            let (b, sent, g') = >>=-eq-some (send_reply ex w2 p.1) _ g in
            let sound =
              send_reply-IsSound ex w2 p.1 b sent (rw io q.owners) (rw io q.no_call)
                (λ id method named.
                  answered-Paired c d p.1 id method p.1.base.reply.status line once q.paired
                    named) in
            subst (λ (x : S × HttpsConnection ex). IsSound ex x.1) (some-inj g') sound

    after_read-IsSound :
        (w1 w2 : World ex.Uuid) (s : S) (c : HttpsConnection ex) (r : S × HttpsConnection ex)
        → after_read ex serve w1 w2 s c ≡ some r
        → IsQuiet ex c
        → IsSound ex r.1
    unfolding after_read
    after_read-IsSound w1 w2 s c r h q = go c.base.request_complete h
      where
        go :
            (b : Bool)
            → (if b
                then (log_begin ex w1 c >>= λ d. serve s d >>= λ p. after_request ex serve w2 p)
                else some (s, read_on ex c))
              ≡ some r
            → IsSound ex r.1
        go false g =
            subst (λ (x : S × HttpsConnection ex). IsSound ex x.1) (some-inj g)
              (read_on-IsSound ex c q)
        go true g =
            let (d, logged, g') = >>=-eq-some (log_begin ex w1 c) _ g in
            let (p, served, g'') = >>=-eq-some (serve s d) _ g' in
            after_request-IsSound w2 c d p r g'' (log_begin-IsLogged ex w1 c d logged)
              (law s d p served) q

    handle_read-IsSound :
        (w1 w2 : World ex.Uuid) (e : ErrorCode) (buffer : Bytes) (s : S) (c : HttpsConnection ex)
        (r : S × HttpsConnection ex)
        → handle_read ex serve w1 w2 e buffer s c ≡ some r
        → IsQuiet ex c
        → IsSound ex r.1
    unfolding handle_read
    handle_read-IsSound w1 w2 operation_aborted buffer s c r h q =
        subst (λ (p : S × HttpsConnection ex). IsSound ex p.1) (some-inj h) (quiet-IsSound ex c q)
    handle_read-IsSound w1 w2 failure buffer s c r h q =
        subst (λ (p : S × HttpsConnection ex). IsSound ex p.1) (some-inj h) (quiet-IsSound ex c q)
    handle_read-IsSound w1 w2 success buffer s c r h q =
        let (parsed, run, g) = >>=-eq-some (http_parse ex buffer c.base) _ h in
        go parsed (http_parse-waiting ex buffer c.base parsed run ∙ q.waiting)
          (parsed.1 == length buffer) g
      where
        go :
            (parsed : Connection ex × ℕ)
            → parsed.0.waiting_for_async_reply ≡ false
            → (b : Bool)
            → (if b
                then after_read ex serve w1 w2 s (record c { base = parsed.0 })
                else (create ex.avro bad_request text_html 0 parsed.0.reply >>= λ reply.
                    send_reply ex w2 (record c { base = record parsed.0 { reply = reply } })
                    >>= λ sent. some (s, sent)))
              ≡ some r
            → IsSound ex r.1
        go parsed idle true g =
            after_read-IsSound w1 w2 s (record c { base = parsed.0 }) r g
              (record { owners = q.owners; no_call = q.no_call; waiting = idle; paired = q.paired })
        go parsed idle false g =
            let (reply, made, g') =
              >>=-eq-some (create ex.avro bad_request text_html 0 parsed.0.reply) _ g in
            let bad : HttpsConnection ex = record c { base = record parsed.0 { reply = reply } } in
            let (sent, sending, g'') = >>=-eq-some (send_reply ex w2 bad) _ g' in
            subst (λ (x : S × HttpsConnection ex). IsSound ex x.1) (some-inj g'')
              (send_reply-IsSound ex w2 bad sent sending q.owners q.no_call (λ id method named.
                refused id method bad.base.request.url bad.base.reply.status q.paired))

    Step-IsSound :
        (s s' : S) (c c' : HttpsConnection ex)
        → Step ex serve s c s' c'
        → IsSound ex c
        → IsSound ex c'
    unfolding handle_handshake handle_write_complete handle_shutdown
    Step-IsSound s s' c c' (handshake_done success io d) a =
        begun-IsSound ex async_read_some (record c { io = io }) (omega arith) refl
          (done-IsQuiet async_handshake success c io d a refl)
    Step-IsSound s s' c c' (handshake_done failure io d) a =
        other-IsSound async_handshake failure c io d a
    Step-IsSound s s' c c' (handshake_done operation_aborted io d) a =
        other-IsSound async_handshake operation_aborted c io d a
    Step-IsSound s s' c c' (read_done w1 w2 e buffer io t b d run) a =
        handle_read-IsSound w1 w2 e buffer s (record c { io = io }) (t, b) run
          (done-IsQuiet async_read_some e c io d a refl)
    Step-IsSound s s' c c' (write_done success buffers io d) a =
        let quiet =
          cancel_timer-IsQuiet ex (record c { io = io })
            (done-IsQuiet (async_write buffers) success c io d a refl) in
        read_on-IsSound ex _ (record {
          owners = quiet.owners;
          no_call = quiet.no_call;
          waiting = quiet.waiting;
          paired = quiet.paired;
        })
    Step-IsSound s s' c c' (write_done failure buffers io d) a =
        other-IsSound (async_write buffers) failure c io d a
    Step-IsSound s s' c c' (write_done operation_aborted buffers io d) a =
        other-IsSound (async_write buffers) operation_aborted c io d a
    Step-IsSound s s' c c' (timer_done e n io d) a =
        handle_timer-IsSound e (record c { io = io }) (other-IsSound (async_wait n) e c io d a)
    Step-IsSound s s' c c' (call_done w e n io b d run) a = absurd (
        let z = count-Completes is_call c.io io (async_wait_call n) e d in
        omega (arith, z, a.no_call))
    Step-IsSound s s' c c' (shutdown_done success io d) a =
        other-IsSound async_shutdown success c io d a
    Step-IsSound s s' c c' (shutdown_done failure io d) a =
        other-IsSound async_shutdown failure c io d a
    Step-IsSound s s' c c' (shutdown_done operation_aborted io d) a =
        other-IsSound async_shutdown operation_aborted c io d a
    Step-IsSound s s' c c' (elsewhere t) a = a

    new-IsQuiet : (h : Bytes) (g : Garbage) → IsQuiet ex (new_https_connection ex h g)
    unfolding new_https_connection count
    new-IsQuiet h g = record { owners = refl; no_call = refl; waiting = refl; paired = nothing }

    -- Over TLS and with a server that answers at once, whatever the peer sends and however the operations
    -- of a connection complete: at most one of the handshake, a read and a write goes on, nothing is waited
    -- for, and every request in the log is ended by the line that follows its beginning and names the same
    -- method and path.
    pub Reachable-IsSound_at_once :
        (s : S) (c : HttpsConnection ex) → Reachable ex serve s c → IsSound ex c
    unfolding start
    Reachable-IsSound_at_once s c (starts t h g) =
        begun-IsSound ex async_handshake (new_https_connection ex h g) (omega arith) refl
          (new-IsQuiet h g)
    Reachable-IsSound_at_once s c (steps {s = t} {c = d} before step) =
        Step-IsSound t s d c step (Reachable-IsSound_at_once t d before)
