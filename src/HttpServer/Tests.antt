-- ===== src/HttpServer/Tests.antt =====
-- A server with one handler, a connection of it that has one request, and three accepts.
use csi_http.Base.{
  text_eq, ◌+◌, Option, ◌≡◌, some-inj, true, false, none, some, refl, [], ◌∷◌, ℕ, codes, length,
  subst,
}
use csi_http.Externals.{Externals, message_begin, url, headers_complete, message_complete}
use csi_http.Externals.Model.{scripted}
use csi_http.Status.{get, undefined, method_name, of_number}
use csi_http.Request.{request_id}
use csi_http.Reply.{to_buffers, add}
use csi_http.Connection.{Garbage, http_parse}
use csi_http.Asio.{World, success, failure, begin, new_io}
use csi_http.Uri.{match, uri_pattern, of_parts, compare_parts}
use csi_http.Boost.Model.{split_slash}
use csi_http.Server.{handler_data}
use csi_http.HttpConnection.{HttpConnection, new_http_connection, start, handle_read}
use csi_http.HttpConnection.Steps.{Handled, returns, Reachable, starts, steps, read_done}
use csi_http.HttpConnection.Sound.{IsSound}
use csi_http.HttpServer.{Table, serve, HttpServer, new_http_server, accepts}
use csi_http.HttpServer.Handlers.{IsTable, serve-IsSound}
use csi_http.HttpServer.Accepts.{first_successes, all_succeed, accepts-started}

abbrev ex : Externals
ex = scripted (
    (message_begin ∷ url (codes "/a") ∷ headers_complete 0 1 ∷ message_complete false ∷ [], true)
    ∷ [])

abbrev garbage : Garbage
garbage = record {
  method = get;
  status = undefined;
  last_header_was_value = true;
  key = 7 ∷ [];
  val = 7 ∷ [];
  key_len = 5;
  val_len = 9;
}

abbrev world : World ex.Uuid
world = record { random = 3; remote_endpoint = some (codes "peer") }

-- The handler of every path leaves the reply as it is.
abbrev table : ℕ → Table ex
unfolding handler_data
table n = handler_data ex.split (codes "#") (λ parts c. c) n ∷ []

table-IsTable : (n : ℕ) → IsTable ex (table n)
unfolding table
table-IsTable n =
    (record { handled = λ parts c d e. subst (Handled ex c) (some-inj e) returns }, tt)

abbrev started : HttpConnection ex
unfolding start new_http_connection
started = start ex (new_http_connection ex [] garbage)

abbrev served : Option (Table ex × HttpConnection ex)
unfolding handle_read table
served =
    handle_read ex (serve ex) world world success (codes "GET") (table 4)
      (record started { io = new_io })

abbrev connection_of : Option (Table ex × HttpConnection ex) → HttpConnection ex
connection_of none = started
connection_of (some r) = r.1

abbrev after : HttpConnection ex
unfolding served
after = connection_of served

is_served : served ≡ some (table 5, after)
unfolding after served table http_parse started method_name of_number request_id to_buffers add
    serve match split_slash uri_pattern of_parts text_eq compare_parts
is_served = refl

served-Reachable : Reachable ex (serve ex) (IsTable ex) (table 5) after
unfolding started start new_http_connection begin served table
served-Reachable = steps (starts (table 4) [] garbage (table-IsTable 4)) (
    read_done world world success (codes "GET") new_io (table 5) after
      (record {
        before = [];
        after = [];
        aborted = false;
        found = refl;
        allowed = λ e. cc;
        left = refl;
      })
      is_served)

serve-IsSound_example : IsSound ex after
serve-IsSound_example = serve-IsSound ex (table 5) after served-Reachable

abbrev server : HttpServer ex
unfolding new_http_server
server = new_http_server ex [] garbage

accepts-started_example :
    (length
        (accepts ex
          ((success, garbage) ∷ (failure, garbage) ∷ (success, garbage) ∷ [])
          server).started
      ≡ length server.started
        + first_successes ((success, garbage) ∷ (failure, garbage) ∷ (success, garbage) ∷ []))
    × ((accepts ex
          ((success, garbage) ∷ (failure, garbage) ∷ (success, garbage) ∷ [])
          server).accepting
        ≡ all_succeed ((success, garbage) ∷ (failure, garbage) ∷ (success, garbage) ∷ []))
unfolding server
accepts-started_example =
    accepts-started ex ((success, garbage) ∷ (failure, garbage) ∷ (success, garbage) ∷ []) server
      refl
