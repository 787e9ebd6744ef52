-- ===== src/HttpConnection/Tests.antt =====
-- A connection over scripted reads: one request, answered at once, and one that closes.
use csi_http.Base.{
  replicate, arith, flatten, ◌++◌, ◌&&◌, List, ◌+◌, some-inj, ◌≡◌, Option, subst, true, false, none,
  some, suc, refl, [], ◌∷◌, ℕ, Bytes, codes,
}
use csi_http.Externals.{Externals, message_begin, url, headers_complete, message_complete}
use csi_http.Externals.Model.{scripted}
use csi_http.Status.{ok, get, undefined, method_name, of_number}
use csi_http.Connection.{Garbage, http_parse}
use csi_http.Request.{request_id}
use csi_http.Reply.{to_buffers, add}
use csi_http.Asio.{World, success, async_write, begin, new_io}
use csi_http.HttpConnection.{
  send_reply, HttpConnection, new_http_connection, start, handle_read, handle_write,
}
use csi_http.HttpConnection.Steps.{Handled, returns, IsServer, Reachable, starts, steps, read_done}
use csi_http.HttpConnection.Sound.{IsSound}
use csi_http.Avro.Model.{list_avro-IsAvroMemory}
use csi_http.Reply.Wire.{wire}
use csi_http.Asio.Counts.{count, flag, is_read, is_write}
use csi_http.HttpConnection.Writes.{
  closing_headers, is_success, send_reply-wire, handle_write-count,
}
use csi_http.HttpConnection.Invariant.{Reachable-IsSound}
use csi_http.HttpConnection.EndToEnd.{handle_read-answers}
use csi_http.HttpConnection.{with_reply}
use csi_http.Asio.{cancel_timer}
use csi_http.Externals.Model.{scripted-IsExternals, lower, length-replicate}
use csi_http.Connection.Message.{Message, IsAccepted}
use csi_http.Connection.Headers.{HasArrays}

abbrev ex : Externals
ex = scripted (
    (message_begin ∷ url (codes "/a") ∷ headers_complete 0 1 ∷ message_complete false ∷ [], true)
    ∷ [])

abbrev garbage : Garbage
garbage = record {
  method = get;
  status = undefined;
  last_header_was_value = true;
  key = 7 ∷ [];
  val = 7 ∷ [];
  key_len = 5;
  val_len = 9;
}

abbrev world : World ex.Uuid
world = record { random = 3; remote_endpoint = some (codes "peer") }

-- The server counts its requests.
abbrev serve : ℕ → HttpConnection ex → Option (ℕ × HttpConnection ex)
serve n c = some (suc n, c)

abbrev AnyTable : ℕ → Type 0
AnyTable n = Unit

serve-IsServer : IsServer ex serve AnyTable
serve-IsServer n c r t e =
    (subst (λ (p : ℕ × HttpConnection ex). Handled ex c p.1) (some-inj e) returns, tt)

abbrev started : HttpConnection ex
unfolding start new_http_connection
started = start ex (new_http_connection ex [] garbage)

abbrev served : Option (ℕ × HttpConnection ex)
unfolding handle_read
served = handle_read ex serve world world success (codes "GET") 0 (record started { io = new_io })

abbrev connection_of : Option (ℕ × HttpConnection ex) → HttpConnection ex
connection_of none = started
connection_of (some r) = r.1

abbrev after : HttpConnection ex
unfolding served
after = connection_of served

is_served : served ≡ some (1, after)
unfolding after served http_parse started method_name of_number request_id to_buffers add
is_served = refl

served-Reachable : Reachable ex serve AnyTable 1 after
unfolding started start new_http_connection begin served
served-Reachable = steps (starts 0 [] garbage tt) (
    read_done world world success (codes "GET") new_io 1 after
      (record {
        before = [];
        after = [];
        aborted = false;
        found = refl;
        allowed = λ e. cc;
        left = refl;
      })
      is_served)

Reachable-IsSound_example : IsSound ex after
Reachable-IsSound_example =
    Reachable-IsSound ex serve AnyTable serve-IsServer 1 after served-Reachable

abbrev replying : HttpConnection ex
unfolding started
replying = record started {
  base = record started.base {
    reply = record { status = ok; headers = []; avro_tx_buffer = some []; boost_tx_buffer = none };
  };
}

send_reply-wire_example :
    (d : HttpConnection ex) × (buffers : List Bytes) × (send_reply ex world replying ≡ some d)
    × (d.io.pending
        ≡ replying.io.pending ++ record { operation = async_write buffers; aborted = false } ∷ [])
    × (flatten buffers
        ≡ wire replying.base.reply.status
            (closing_headers replying.base.keep_alive replying.base.reply.headers)
            [])
    × (d.base.waiting_for_async_reply ≡ false)
unfolding replying started start new_http_connection method_name
send_reply-wire_example =
    send_reply-wire ex list_avro-IsAvroMemory world replying (codes "peer") (codes "GET") [] refl
      refl refl

handle_write-count_example :
    (count is_read (handle_write ex success replying).io.pending
      ≡ count is_read replying.io.pending + flag (is_success success && replying.base.keep_alive))
    × (count is_write (handle_write ex success replying).io.pending
        ≡ count is_write replying.io.pending)
handle_write-count_example = handle_write-count ex success replying

abbrev sized : HttpConnection ex
unfolding start new_http_connection
sized =
    start ex (
      new_http_connection ex [] (record garbage { key = replicate 4096 7; val = replicate 4096 7 }))

-- A server that answers with the content "hi".
abbrev hello : ℕ → HttpConnection ex → Option (ℕ × HttpConnection ex)
hello n c = some (
  suc n,
  with_reply ex
      (record {
        status = ok;
        headers = [];
        avro_tx_buffer = some (codes "hi");
        boost_tx_buffer = none;
      })
      c,
)

abbrev asking : Message
asking = record {
  method = 1;
  url = codes "/a";
  headers = [];
  content_length = 0;
  body = [];
  keep_alive = false;
}

asking-IsAccepted : IsAccepted ex asking
asking-IsAccepted = record {
  parsed = refl;
  path_range = omega arith;
  query_range = tt;
  headers_fit = tt;
}

sized-HasArrays : HasArrays ex sized.base
unfolding sized
sized-HasArrays = record { key = length-replicate 4096 7; val = length-replicate 4096 7 }

handle_read-answers_example :
    (d' : HttpConnection ex) × (buffers : List Bytes) × (handle_read ex hello world world success
        (codes "GET")
        4
        sized
      ≡ some (5, d'))
    × (d'.io.pending
        ≡ (cancel_timer sized.io).pending
          ++ record { operation = async_write buffers; aborted = false } ∷ [])
    × (flatten buffers ≡ wire ok (closing_headers false []) (codes "hi"))
    × (d'.base.waiting_for_async_reply ≡ false)
unfolding sized method_name of_number
handle_read-answers_example =
    handle_read-answers ex lower
      (scripted-IsExternals (
        (
          message_begin ∷ url (codes "/a") ∷ headers_complete 0 1 ∷ message_complete false ∷ [],
          true,
        )
        ∷ []))
      hello world world asking (codes "GET") 4 5 sized (codes "peer") (codes "GET") ok []
      (codes "hi") refl refl refl refl refl sized-HasArrays asking-IsAccepted refl
      (λ d asked. (_, codes "hi", refl, refl, refl, refl, refl))
