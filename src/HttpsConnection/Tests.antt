-- ===== src/HttpsConnection/Tests.antt =====
-- A request that waits for its reply, over TLS.
use csi_http.Base.{false, ◌+◌, ◌≡◌, Option, true, none, some, suc, refl, [], ◌∷◌, ℕ, codes}
use csi_http.Avro.Model.{list_avro-IsAvroMemory}
use csi_http.Externals.{Externals}
use csi_http.Externals.Model.{scripted}
use csi_http.Status.{ok, get, undefined, method_name}
use csi_http.Connection.{Garbage, new_connection}
use csi_http.Asio.{World, Io, Completes, success, operation_aborted, async_wait_call}
use csi_http.Asio.Counts.{count, flag, is_read, is_write}
use csi_http.HttpConnection.Writes.{is_success}
use csi_http.Base.{some-inj, subst, false}
use csi_http.Asio.{begin}
use csi_http.HttpsConnection.{start, handle_handshake}
use csi_http.HttpsConnection.Steps.{IsAtOnce, IsServer, Reachable, starts, steps, handshake_done}
use csi_http.HttpsConnection.Sound.{IsSound}
use csi_http.HttpsConnection.Invariant.{Reachable-IsSound_at_once}
use csi_http.HttpsConnection.{
  HttpsConnection, new_https_connection, after_request, wait_for_async_reply, handle_async_call,
  handle_write_complete,
}
use csi_http.HttpsConnection.Waits.{
  IsWriting, after_request_unannounced, handle_write_complete-count,
}

abbrev ex : Externals
ex = scripted []

abbrev garbage : Garbage
garbage = record {
  method = get;
  status = undefined;
  last_header_was_value = true;
  key = 7 ∷ [];
  val = 7 ∷ [];
  key_len = 5;
  val_len = 9;
}

abbrev fresh : HttpsConnection ex
unfolding new_https_connection
fresh = new_https_connection ex [] garbage

abbrev asked : HttpsConnection ex
unfolding fresh
asked = record fresh {
  base = record fresh.base {
    reply = record { status = ok; headers = []; avro_tx_buffer = some []; boost_tx_buffer = none };
  };
}

abbrev world : World ex.Uuid
world = record { random = 3; remote_endpoint = some (codes "peer") }

abbrev serve : ℕ → HttpsConnection ex → Option (ℕ × HttpsConnection ex)
serve n c = some (suc n, wait_for_async_reply ex c)

after_request_unannounced_example :
    (d e : HttpsConnection ex) × (io : Io) × (after_request ex serve world
        (4, wait_for_async_reply ex asked)
      ≡ some (4, d))
    × Completes d.io (async_wait_call 3660) operation_aborted io
    × (handle_async_call ex world operation_aborted (record d { io = io }) ≡ some e)
    × IsWriting ex list_avro-IsAvroMemory (record d { io = io }) e []
unfolding asked fresh new_https_connection new_connection method_name
after_request_unannounced_example =
    after_request_unannounced ex list_avro-IsAvroMemory serve world 4 asked (codes "peer")
      (codes "GET") [] refl refl refl

handle_write_complete-count_example :
    (count is_read (handle_write_complete ex success asked).io.pending
      ≡ count is_read asked.io.pending + flag (is_success success))
    × (count is_write (handle_write_complete ex success asked).io.pending
        ≡ count is_write asked.io.pending)
handle_write_complete-count_example = handle_write_complete-count ex success asked

-- A server that answers at once and counts.
abbrev at_once : ℕ → HttpsConnection ex → Option (ℕ × HttpsConnection ex)
at_once n c = some (suc n, c)

at_once-IsServer : IsServer ex at_once
at_once-IsServer n c r e =
    subst (λ (p : ℕ × HttpsConnection ex). IsAtOnce ex c p.1) (some-inj e)
      (record { io = refl; waiting = refl; same = record { method = refl; url = refl } })

abbrev accepted : HttpsConnection ex
unfolding start new_https_connection
accepted = start ex (new_https_connection ex [] garbage)

-- The handshake is done, and the first read goes on.
abbrev reading : HttpsConnection ex
unfolding accepted handle_handshake
reading = handle_handshake ex success (record accepted { io = record accepted.io { pending = [] } })

reading-Reachable : Reachable ex at_once 3 reading
unfolding accepted reading begin start new_https_connection
reading-Reachable = steps (starts 3 [] garbage) (
    handshake_done success (record accepted.io { pending = [] })
      (record {
        before = [];
        after = [];
        aborted = false;
        found = refl;
        allowed = λ e. cc;
        left = refl;
      }))

Reachable-IsSound_at_once_example : IsSound ex reading
Reachable-IsSound_at_once_example =
    Reachable-IsSound_at_once ex at_once at_once-IsServer 3 reading reading-Reachable
