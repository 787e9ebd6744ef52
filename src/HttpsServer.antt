-- ===== src/HttpsServer.antt =====
-- csi_http/server/https_server.cpp and https_server.h: the server of connections over TLS, which is the table of
-- csi_http/server/server.h over them, and its loop of accepts. The connection of the table is an option, with
-- `none` for a fault.
use csi_http.Base.{
  sym, map_some, ◌≡◌, ◌>>=◌, if◌then◌else◌, Bool, subst, if_both, All, List, Option, Bytes,
  All-append, ◌++◌, true, false, none, some, refl, [], ◌∷◌,
}
use csi_http.Externals.{Externals}
use csi_http.Status.{not_found}
use csi_http.Reply.{create, text_html}
use csi_http.Connection.{Garbage}
use csi_http.Server.{HandlerData, handle_request}
use csi_http.Asio.{ErrorCode, success, operation_aborted, failure}
use csi_http.HttpsConnection.{HttpsConnection, new_https_connection, start}
use csi_http.HttpsConnection.Steps.{Reachable, starts}

module _ (ex : Externals) where
  abbrev Table : Type 0
  Table = List (HandlerData (Option (HttpsConnection ex)))

  abbrev url_of : Option (HttpsConnection ex) → Bytes
  url_of none = []
  url_of (some c) = c.base.request.url

  abbrev create_not_found : Option (HttpsConnection ex) → Option (HttpsConnection ex)
  create_not_found none = none
  create_not_found (some c) =
      map_some (λ r. record c { base = record c.base { reply = r } })
        (create ex.avro not_found text_html 0 c.base.reply)

  unfoldable serve : Table → HttpsConnection ex → Option (Table × HttpsConnection ex)
  unfolding handle_request
  serve handlers c = do
    r ← handle_request ex.split url_of create_not_found handlers (some c)
    d ← r.1
    some (r.0, d)

  record HttpsServer : Type 0 where
    handlers : Table
    request_id_header : Bytes
    new_connection : HttpsConnection ex
    started : List (HttpsConnection ex)
    accepting : Bool

  unfoldable new_https_server : Bytes → Garbage → HttpsServer
  unfolding new_https_connection
  new_https_server request_id_header g = record {
    handlers = [];
    request_id_header = request_id_header;
    new_connection = new_https_connection ex request_id_header g;
    started = [];
    accepting = true;
  }

  unfoldable handle_accept : ErrorCode → Garbage → HttpsServer → HttpsServer
  unfolding new_https_connection start
  handle_accept success g s = record s {
    started = s.started ++ start ex s.new_connection ∷ [];
    new_connection = new_https_connection ex s.request_id_header g;
    accepting = true;
  }
  handle_accept operation_aborted g s = record s { accepting = false }
  handle_accept failure g s = record s { accepting = false }

  unfoldable accepts : List (ErrorCode × Garbage) → HttpsServer → HttpsServer
  unfolding handle_accept
  accepts [] s = s
  accepts ((e, g) ∷ es) s =
      let later = accepts es (handle_accept e g s) in if s.accepting then later else s

  -- The started connections are at the beginning of their runs, and so will the next one be.
  record IsFresh (t : Table) (s : HttpsServer) : Type 0 where
    started : All (Reachable ex serve t) s.started
    next : (h : Bytes) × (g : Garbage) × (s.new_connection ≡ new_https_connection ex h g)

  handle_accept-IsFresh :
      (t : Table) (e : ErrorCode) (g : Garbage) (s : HttpsServer)
      → IsFresh t s
      → IsFresh t (handle_accept e g s)
  unfolding handle_accept
  handle_accept-IsFresh t success g s ok =
      let (h, g', e) = ok.next in
      record {
        started =
            All-append (Reachable ex serve t) s.started (start ex s.new_connection ∷ []) ok.started
              (
                subst (λ (c : HttpsConnection ex). Reachable ex serve t (start ex c)) (sym e)
                    (starts t h g'),
                tt,
              );
        next = (s.request_id_header, g, refl);
      }
  handle_accept-IsFresh t operation_aborted g s ok = record { started = ok.started; next = ok.next }
  handle_accept-IsFresh t failure g s ok = record { started = ok.started; next = ok.next }

  -- Every connection that a server has started, whatever becomes of its accepts, is one of those whose
  -- runs begin with the handshake.
  accepts-IsFresh :
      (t : Table) (es : List (ErrorCode × Garbage)) (s : HttpsServer)
      → IsFresh t s
      → IsFresh t (accepts es s)
  unfolding accepts
  accepts-IsFresh t [] s ok = ok
  accepts-IsFresh t ((e, g) ∷ es) s ok =
      if_both (IsFresh t) s.accepting
        (accepts-IsFresh t es (handle_accept e g s) (handle_accept-IsFresh t e g s ok)) ok

  new_https_server-IsFresh :
      (t : Table) (h : Bytes) (g : Garbage) → IsFresh t (new_https_server h g)
  unfolding new_https_server
  new_https_server-IsFresh t h g = record { started = tt; next = (h, g, refl) }
