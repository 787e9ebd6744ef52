-- ===== src/HttpsConnection/Sound.antt =====
-- What holds of a connection of csi_http/server/https_connection.cpp whose server answers at once.
use csi_http.Base.{
  sym, some-inj, subst, >>=-eq-some, Bytes, some, refl, ◌∷◌, ap, ◌∙◌, ◌≡◌, ◌≤◌, arith, ◌+◌, true,
  false,
}
use csi_http.Externals.{Externals}
use csi_http.Status.{MethodT, method_name}
use csi_http.Request.{request_id, request_uuid, default_id_header}
use csi_http.Reply.{to_buffers}
use csi_http.Asio.{
  Operation, Entry, begin, cancel_timer, expires_from_now, write_log, World, request_begin,
  request_end, async_read_some, async_write, async_wait, async_wait_call, async_handshake,
}
use csi_http.Asio.Counts.{
  Kind, count, flag, is_read, is_write, count-begin, count-cancel_timer, count-expires_from_now,
}
use csi_http.HttpConnection.Sending.{SameRequest, request_id-SameRequest, request_uuid-SameRequest}
use csi_http.HttpConnection.Sound.{Paired}
use csi_http.HttpsConnection.{
  with_request, HttpsConnection, log_request, log_end, log_begin, send_reply, closing_reply,
  read_on,
}

abbrev pub is_handshake : Kind
is_handshake async_handshake = true
is_handshake async_read_some = false
is_handshake (async_write b) = false
is_handshake _ = false

abbrev pub is_call : Kind
is_call (async_wait_call n) = true
is_call async_read_some = false
is_call (async_write b) = false
is_call _ = false

module _ (ex : Externals) where
  -- One of the handshake, a read and a write goes on, at most, nothing is waited for, and every request
  -- in the log is ended by the next line.
  pub record IsSound (c : HttpsConnection ex) : Type 0 where
    pub one_owner :
        count is_handshake c.io.pending + (count is_read c.io.pending + count is_write c.io.pending)
        ≤ 1
    pub no_call : count is_call c.io.pending ≡ 0
    pub waiting : c.base.waiting_for_async_reply ≡ false
    pub paired : Paired c.io.log

  -- A connection whose operation has just completed.
  pub record IsQuiet (c : HttpsConnection ex) : Type 0 where
    pub owners :
        count is_handshake c.io.pending + (count is_read c.io.pending + count is_write c.io.pending)
        ≡ 0
    pub no_call : count is_call c.io.pending ≡ 0
    pub waiting : c.base.waiting_for_async_reply ≡ false
    pub paired : Paired c.io.log

  pub quiet-IsSound : (c : HttpsConnection ex) → IsQuiet c → IsSound c
  quiet-IsSound c q = record {
    one_owner = omega (arith, q.owners);
    no_call = q.no_call;
    waiting = q.waiting;
    paired = q.paired;
  }

  -- An operation is begun.
  pub begun-IsSound :
      (o : Operation) (c : HttpsConnection ex)
      → flag (is_handshake o) + (flag (is_read o) + flag (is_write o)) ≤ 1
      → is_call o ≡ false
      → IsQuiet c
      → IsSound (record c { io = begin o c.io })
  unfolding begin
  begun-IsSound o c one free q = record {
    one_owner = omega (
      arith,
      count-begin is_handshake o c.io,
      count-begin is_read o c.io,
      count-begin is_write o c.io,
      q.owners,
      one,
    );
    no_call = count-begin is_call o c.io ∙ (let z = ap flag free in omega (arith, q.no_call));
    waiting = q.waiting;
    paired = q.paired;
  }

  pub cancel_timer-IsQuiet :
      (c : HttpsConnection ex) → IsQuiet c → IsQuiet (record c { io = cancel_timer c.io })
  unfolding cancel_timer
  cancel_timer-IsQuiet c q = record {
    owners = omega (
      arith,
      count-cancel_timer is_handshake c.io,
      count-cancel_timer is_read c.io,
      count-cancel_timer is_write c.io,
      q.owners,
    );
    no_call = count-cancel_timer is_call c.io ∙ q.no_call;
    waiting = q.waiting;
    paired = q.paired;
  }

  pub read_on-IsSound : (c : HttpsConnection ex) → IsQuiet c → IsSound (read_on ex c)
  unfolding begin expires_from_now cancel_timer
  read_on-IsSound c q =
      let timed : IsQuiet (record c { io = begin (async_wait 5) (expires_from_now 5 c.io) }) =
        record {
          owners = omega (
            arith,
            count-begin is_handshake (async_wait 5) (expires_from_now 5 c.io),
            count-begin is_read (async_wait 5) (expires_from_now 5 c.io),
            count-begin is_write (async_wait 5) (expires_from_now 5 c.io),
            count-expires_from_now is_handshake 5 c.io,
            count-expires_from_now is_read 5 c.io,
            count-expires_from_now is_write 5 c.io,
            q.owners,
          );
          no_call = omega (
            arith,
            count-begin is_call (async_wait 5) (expires_from_now 5 c.io),
            count-expires_from_now is_call 5 c.io,
            q.no_call,
          );
          waiting = q.waiting;
          paired = q.paired;
        } in
      begun-IsSound async_read_some
        (record c { io = begin (async_wait 5) (expires_from_now 5 c.io) }) (omega arith) refl timed

  -- A line about the request of a connection was logged, and nothing else happened.
  pub record IsLogged (line : Bytes → Bytes → Bytes → Entry) (c d : HttpsConnection ex)
      : Type 0 where
    pub id : Bytes
    pub method : Bytes
    pub named : method_name c.base.request.method ≡ some method
    pub same : SameRequest ex c.base.request d.base.request
    pub waiting : d.base.waiting_for_async_reply ≡ c.base.waiting_for_async_reply
    pub io : d.io ≡ record c.io { log = line id method c.base.request.url ∷ c.io.log }

  log_request-IsLogged :
      (line : Bytes → Bytes → Bytes → Entry) (w : World ex.Uuid) (c d : HttpsConnection ex)
      → log_request ex (λ id method url io. write_log (line id method url) io) w c ≡ some d
      → IsLogged line c d
  unfolding log_request
  log_request-IsLogged line w c d h =
      let (remote, e, g) = >>=-eq-some w.remote_endpoint _ h in
      let (method, named, g') = >>=-eq-some (method_name c.base.request.method) _ g in
      subst (IsLogged line c) (some-inj g') (record {
        id = (request_id ex default_id_header w.random c.base.request).1;
        method = method;
        named = named;
        same = request_id-SameRequest ex default_id_header w.random c.base.request;
        waiting = refl;
        io = refl;
      })

  pub log_begin-IsLogged :
      (w : World ex.Uuid) (c d : HttpsConnection ex)
      → log_begin ex w c ≡ some d
      → IsLogged request_begin c d
  unfolding log_begin
  log_begin-IsLogged w c d h =
      let asked = request_uuid ex default_id_header w.random c.base.request in
      let u = request_uuid-SameRequest ex default_id_header w.random c.base.request in
      let line = log_request-IsLogged request_begin w (with_request ex asked.0 c) d h in
      record {
        id = line.id;
        method = line.method;
        named = ap (λ (m : MethodT). method_name m) (sym u.method) ∙ line.named;
        same = record { method = line.same.method ∙ u.method; url = line.same.url ∙ u.url };
        waiting = line.waiting;
        io =
            line.io
            ∙ ap
                (λ (t : Bytes). record c.io {
                  log = request_begin line.id line.method t ∷ c.io.log;
                })
                u.url;
      }

  -- The reply of a connection that waits for nothing is sent: its line ends the log.
  pub send_reply-IsSound :
      (w : World ex.Uuid) (c d : HttpsConnection ex)
      → send_reply ex w c ≡ some d
      → count is_handshake c.io.pending + (count is_read c.io.pending + count is_write c.io.pending)
        ≡ 0
      → count is_call c.io.pending ≡ 0
      → ((id method : Bytes)
          → method_name c.base.request.method ≡ some method
          → Paired (request_end id method c.base.request.url c.base.reply.status ∷ c.io.log))
      → IsSound d
  unfolding send_reply log_end
  send_reply-IsSound w c d h owners no_call pairs =
      let (b, logged, g) = >>=-eq-some (log_end ex w c) _ h in
      let (sent, made, g') = >>=-eq-some (to_buffers ex.avro (closing_reply ex b)) _ g in
      let line =
        log_request-IsLogged (λ id method url. request_end id method url c.base.reply.status) w c b
          logged in
      let quiet : IsQuiet
          (record b { base = record b.base { waiting_for_async_reply = false; reply = sent.1 } }) =
        record {
          owners = rw line.io owners;
          no_call = rw line.io no_call;
          waiting = refl;
          paired = rw line.io (pairs line.id line.method line.named);
        } in
      subst IsSound (some-inj g') (
        begun-IsSound (async_write sent.0)
          (record b { base = record b.base { waiting_for_async_reply = false; reply = sent.1 } })
          (omega arith) refl quiet)
