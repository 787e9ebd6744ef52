-- ===== src/Connection/Pipelining.antt =====
-- Two requests in one read, as http_parser delivers them to csi_http/server/connection.cpp.
use csi_http.Base.{true, none, ◌++◌, flatten, Bytes, some, ◌≡◌}
use csi_http.Externals.{Externals, IsExternals}
use csi_http.Request.{Request}
use csi_http.Request as RequestOps
use csi_http.Connection.Headers.{HasArrays}
use csi_http.Connection.Runs.{Runs-append, Runs-run}
use csi_http.Connection.{Connection, run_callbacks}
use csi_http.Connection.Message.{
  Message, message_events, IsAccepted, begun, assembled, message-Runs,
}

module _ (ex : Externals) (lower : Bytes → Bytes) (law : IsExternals ex lower) where
  -- Of two requests that arrive in one read only the second is left: when the callbacks of both have
  -- been made, each returning 0, the request is what the second message alone would make of it, and
  -- the connection keeps alive if the second does.
  pub run_callbacks_pipelined :
      (m n : Message) (c : Connection ex)
      → HasArrays ex c
      → IsAccepted ex m
      → IsAccepted ex n
      → (c' : Connection ex) × (s : ex.avro.Stream) × (run_callbacks ex 0
            (message_events m ++ message_events n)
            c
          ≡ some (c', none))
        × (c'.request ≡ assembled ex lower law (begun ex lower law c) n s)
        × (ex.avro.memory_input_stream s ≡ flatten n.body)
        × (c'.request_complete ≡ true)
        × (c'.keep_alive ≡ n.keep_alive)
  unfolding RequestOps.reset
  run_callbacks_pipelined m n c arrays a b =
      let (d, s, first, e, content, complete, keep, sizes) =
        message-Runs ex lower law m c arrays a in
      let (c', t, second, e2, content2, complete2, keep2, sizes2) =
        message-Runs ex lower law n d sizes b in
      (
        c',
        t,
        Runs-run ex (message_events m ++ message_events n) c c'
            (Runs-append ex (message_events m) (message_events n) c d c' first second),
        e2,
        content2,
        complete2,
        keep2,
      )
