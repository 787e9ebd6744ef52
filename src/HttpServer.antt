-- ===== src/HttpServer.antt =====
-- csi_http/server/http_server.cpp and http_server.h: the server of connections without TLS, which is
-- the table of server.h over them, and its loop of accepts. The connection of the table is an option,
-- with `none` for a fault.
pub mod Handlers
pub mod Accepts
mod Tests
use csi_http.Base.{
  ℕ, Bool, true, false, Option, none, some, List, [], ◌∷◌, ◌++◌, Bytes, ◌>>=◌, map_some,
  if◌then◌else◌,
}
use csi_http.Externals.{Externals}
use csi_http.Status.{not_found}
use csi_http.Reply.{create, text_html}
use csi_http.Connection.{Garbage}
use csi_http.Server.{HandlerData, handle_request}
use csi_http.Asio.{ErrorCode, success, operation_aborted, failure}
use csi_http.HttpConnection.{HttpConnection, new_http_connection, with_reply}
use csi_http.HttpConnection as HttpConnectionOps

module _ (ex : Externals) where
  abbrev pub Table : Type 0
  Table = List (HandlerData (Option (HttpConnection ex)))

  abbrev pub url_of : Option (HttpConnection ex) → Bytes
  url_of none = []
  url_of (some c) = c.base.request.url

  -- `connection->reply().create(csi::http::not_found)`.
  abbrev pub create_not_found : Option (HttpConnection ex) → Option (HttpConnection ex)
  create_not_found none = none
  create_not_found (some c) =
      map_some (λ r. with_reply ex r c) (create ex.avro not_found text_html 0 c.base.reply)

  -- `_server->handle_request(shared_from_this())`.
  unfoldable pub serve : Table → HttpConnection ex → Option (Table × HttpConnection ex)
  unfolding handle_request
  serve handlers c = do
    r ← handle_request ex.split url_of create_not_found handlers (some c)
    d ← r.1
    some (r.0, d)

  -- The connections that were started come in their order. `accepting` says that an accept is pending.
  pub record HttpServer : Type 0 where
    pub handlers : Table
    pub request_id_header : Bytes
    pub new_connection : HttpConnection ex
    pub started : List (HttpConnection ex)
    pub accepting : Bool

  -- The constructor, once the address is bound.
  unfoldable pub new_http_server : Bytes → Garbage → HttpServer
  unfolding new_http_connection
  new_http_server request_id_header g = record {
    handlers = [];
    request_id_header = request_id_header;
    new_connection = new_http_connection ex request_id_header g;
    started = [];
    accepting = true;
  }

  unfoldable pub handle_accept : ErrorCode → Garbage → HttpServer → HttpServer
  unfolding new_http_connection HttpConnectionOps.start
  handle_accept success g s = record s {
    started = s.started ++ HttpConnectionOps.start ex s.new_connection ∷ [];
    new_connection = new_http_connection ex s.request_id_header g;
    accepting = true;
  }
  handle_accept operation_aborted g s = record s { accepting = false }
  handle_accept failure g s = record s { accepting = false }

  -- The completions of the accepts, for as long as one is pending.
  unfoldable pub accepts : List (ErrorCode × Garbage) → HttpServer → HttpServer
  unfolding handle_accept
  accepts [] s = s
  accepts ((e, g) ∷ es) s =
      let later = accepts es (handle_accept e g s) in if s.accepting then later else s
