-- ===== src/HttpConnection/Sending.antt =====
-- What `send_reply` of csi_http/server/http_connection.cpp does to the operations and to the log.
use csi_http.Base.{
  ap, ◌∙◌, ◌+◌, subst, List, ◌≡◌, false, some, refl, ◌∷◌, Bytes, >>=-eq-some, some-inj,
}
use csi_http.Externals.{Externals}
use csi_http.Status.{method_name}
use csi_http.Reply.{to_buffers}
use csi_http.Request.{Request, request_id, request_uuid, default_id_header}
use csi_http.Request.Ids.{request_id_elim, request_uuid_elim}
use csi_http.Asio.{Pending, Entry, World, begin, request_begin, request_end, write_log, async_write}
use csi_http.Asio.Counts.{Kind, count, flag, count-begin}
use csi_http.HttpConnection.{
  HttpConnection, log_request, log_begin, log_end, send_reply, closing_reply,
}

module _ (ex : Externals) where
  -- What the log says of a request is the same for both.
  pub record SameRequest (r r' : Request ex) : Type 0 where
    pub method : r'.method ≡ r.method
    pub url : r'.url ≡ r.url

  pub request_id-SameRequest :
      (h : Bytes) (u : ex.Uuid) (r : Request ex) → SameRequest r (request_id ex h u r).0
  request_id-SameRequest h u r =
      request_id_elim ex (λ p. SameRequest r p.0) h u r
        (λ full. record { method = refl; url = refl })
        (λ named v. record { method = refl; url = refl }) (record { method = refl; url = refl })

  pub request_uuid-SameRequest :
      (h : Bytes) (u : ex.Uuid) (r : Request ex) → SameRequest r (request_uuid ex h u r).0
  request_uuid-SameRequest h u r =
      request_uuid_elim ex (λ p. SameRequest r p.0) h u r
        (λ full. record { method = refl; url = refl })
        (λ v named read. record { method = refl; url = refl })
        (record { method = refl; url = refl })

  -- A line about the request of a connection was logged, and nothing else happened.
  pub record IsLogged (line : Bytes → Bytes → Bytes → Entry) (c d : HttpConnection ex)
      : Type 0 where
    pub id : Bytes
    pub method : Bytes
    pub named : method_name c.base.request.method ≡ some method
    pub same : SameRequest c.base.request d.base.request
    pub waiting : d.base.waiting_for_async_reply ≡ c.base.waiting_for_async_reply
    pub pending : d.io.pending ≡ c.io.pending
    pub log : d.io.log ≡ line id method c.base.request.url ∷ c.io.log

  log_request-IsLogged :
      (line : Bytes → Bytes → Bytes → Entry) (w : World ex.Uuid) (c d : HttpConnection ex)
      → log_request ex (λ id method url io. write_log (line id method url) io) w c ≡ some d
      → IsLogged line c d
  unfolding log_request
  log_request-IsLogged line w c d h =
      let (remote, e, g) = >>=-eq-some w.remote_endpoint _ h in
      let (method, named, g') = >>=-eq-some (method_name c.base.request.method) _ g in
      subst (IsLogged line c) (some-inj g') (record {
        id = (request_id ex default_id_header w.random c.base.request).1;
        method = method;
        named = named;
        same = request_id-SameRequest default_id_header w.random c.base.request;
        waiting = refl;
        pending = refl;
        log = refl;
      })

  pub log_begin-IsLogged :
      (w : World ex.Uuid) (c d : HttpConnection ex)
      → log_begin ex w c ≡ some d
      → IsLogged (λ id method url. request_begin id method url) c d
  unfolding log_begin
  log_begin-IsLogged w c d h =
      log_request-IsLogged (λ id method url. request_begin id method url) w c d h

  log_end-IsLogged :
      (w : World ex.Uuid) (c d : HttpConnection ex)
      → log_end ex w c ≡ some d
      → IsLogged (λ id method url. request_end id method url c.base.reply.status) c d
  unfolding log_end
  log_end-IsLogged w c d h =
      log_request-IsLogged (λ id method url. request_end id method url c.base.reply.status) w c d h

  -- The end of a request was logged, its reply is being written, and nothing is waited for.
  pub record IsSent (c d : HttpConnection ex) : Type 0 where
    pub id : Bytes
    pub method : Bytes
    pub named : method_name c.base.request.method ≡ some method
    pub log : d.io.log ≡ request_end id method c.base.request.url c.base.reply.status ∷ c.io.log
    pub waiting : d.base.waiting_for_async_reply ≡ false
    pub buffers : List Bytes
    pub counts :
        (k : Kind) → count k d.io.pending ≡ count k c.io.pending + flag (k (async_write buffers))

  pub send_reply-IsSent :
      (w : World ex.Uuid) (c d : HttpConnection ex) → send_reply ex w c ≡ some d → IsSent c d
  unfolding send_reply begin
  send_reply-IsSent w c d h =
      let (l, e, g) = >>=-eq-some (log_end ex w c) _ h in
      let (sent, made, g') = >>=-eq-some (to_buffers ex.avro (closing_reply ex l)) _ g in
      let a = log_end-IsLogged w c l e in
      subst (IsSent c) (some-inj g') (record {
        id = a.id;
        method = a.method;
        named = a.named;
        log = a.log;
        waiting = refl;
        buffers = sent.0;
        counts = λ k.
            count-begin k (async_write sent.0) l.io
            ∙ ap (λ (ps : List Pending). count k ps + flag (k (async_write sent.0))) a.pending;
      })
