-- ===== src/HttpConnection/EndToEnd.antt =====
-- A whole request that csi_http/server/http_connection.cpp reads, and the reply that it writes.
use csi_http.Base.{
  if_false, if_true, ==_iff, ◌==◌, none, ap₃, sym, ◌∙◌, ◌++◌, subst, ap, >>=_of_some, List, Bool,
  map, flatten, Option, ◌≡◌, Bytes, true, false, some, refl, [], ◌∷◌, length,
}
use csi_http.Externals.{Externals, IsExternals}
use csi_http.Status.{StatusType, method_name, of_number}
use csi_http.Reply.{Header, Reply}
use csi_http.Reply.Wire.{wire}
use csi_http.Request.{Request, request_id, default_id_header}
use csi_http.Request.Ids.{request_id_elim}
use csi_http.Connection.{Connection, http_parse, run_callbacks}
use csi_http.Connection.Headers.{HasArrays}
use csi_http.Connection.Pieces.{lowered_header}
use csi_http.Connection.Runs.{part}
use csi_http.Connection.Message.{
  Message, message_events, IsAccepted, assembled, begun, run_callbacks-Message,
}
use csi_http.Connection.Waiting.{http_parse-waiting}
use csi_http.Asio.{World, success, cancel_timer, async_write, write_log, request_begin}
use csi_http.HttpConnection.{
  HttpConnection, with_reply, with_request, log_begin, log_request, send_reply, after_request,
  after_read, handle_read,
}
use csi_http.HttpConnection.Writes.{closing_headers, send_reply-wire}

module _ (ex : Externals) (lower : Bytes → Bytes) (law : IsExternals ex lower) where
  -- The request object holds the message.
  pub record IsRequestOf (m : Message) (r : Request ex) : Type 0 where
    pub method : r.method ≡ of_number m.method
    pub url : r.url ≡ part ex m.url (ex.parse_url m.url).path
    pub query : r.query ≡ part ex m.url (ex.parse_url m.url).query
    pub headers : r.headers ≡ map (lowered_header ex lower law) m.headers
    pub content : ex.avro.memory_input_stream r.avro_rx_buffer ≡ flatten m.body

  assembled-IsRequestOf :
      (m : Message) (c : Connection ex) (r : Request ex) (s : ex.avro.Stream)
      → r ≡ assembled ex lower law (begun ex lower law c) m s
      → ex.avro.memory_input_stream s ≡ flatten m.body
      → IsRequestOf m r
  assembled-IsRequestOf m c r s e content =
      subst (IsRequestOf m) (sym e)
        (record { method = refl; url = refl; query = refl; headers = refl; content = content })

  request_id-IsRequestOf :
      (m : Message) (h : Bytes) (u : ex.Uuid) (r : Request ex)
      → IsRequestOf m r
      → IsRequestOf m (request_id ex h u r).0
  request_id-IsRequestOf m h u r ok =
      request_id_elim ex (λ p. IsRequestOf m p.0) h u r (λ full. ok)
        (λ named v. record {
          method = ok.method;
          url = ok.url;
          query = ok.query;
          headers = ok.headers;
          content = ok.content;
        })
        (record {
          method = ok.method;
          url = ok.url;
          query = ok.query;
          headers = ok.headers;
          content = ok.content;
        })

  parse-whole :
      (buffer : Bytes) (m : Message) (c b : Connection ex)
      → ex.events c.parser buffer ≡ message_events m
      → run_callbacks ex 0 (message_events m) c ≡ some (b, none)
      → http_parse ex buffer c
        ≡ some (record b { parser = ex.advance c.parser buffer }, ex.parsed c.parser buffer)
  unfolding http_parse
  parse-whole buffer m c b told run = rw (http_parse, told, run) refl

  module _ {S : Type 0} (serve : S → HttpConnection ex → Option (S × HttpConnection ex)) where
    -- The server answers the message at once: it fills in the reply and does nothing else to the connection.
    abbrev pub Fulfils : Message → S → S → StatusType → List Header → Bytes → Type 0
    Fulfils m s s' status headers content =
        (d : HttpConnection ex)
        → IsRequestOf m d.base.request
        → (r : Reply ex.avro) × (st : ex.avro.Stream) × (serve s d ≡ some (s', with_reply ex r d))
          × (r.status ≡ status)
          × (r.headers ≡ headers)
          × (r.avro_tx_buffer ≡ some st)
          × (ex.avro.memory_input_stream st ≡ content)

    -- What `log_begin` leaves, where it does not fail.
    logged : World ex.Uuid → Bytes → HttpConnection ex → HttpConnection ex
    logged w name c =
        let asked = request_id ex default_id_header w.random c.base.request in
        record (with_request ex asked.0 c) {
          io = write_log (request_begin asked.1 name c.base.request.url) c.io;
        }

    log_begin-some :
        (w : World ex.Uuid) (c : HttpConnection ex) (peer name : Bytes)
        → w.remote_endpoint ≡ some peer
        → method_name c.base.request.method ≡ some name
        → log_begin ex w c ≡ some (logged w name c)
    unfolding log_begin log_request logged
    log_begin-some w c peer name found named = >>=_of_some _ _ found (>>=_of_some _ _ named refl)

    -- The answer of a connection that has a whole request.
    Written :
        HttpConnection ex
        → Option (S × HttpConnection ex)
        → S
        → Bool
        → StatusType
        → List Header
        → Bytes
        → Type 0
    Written c run s' keep status headers content =
        (d' : HttpConnection ex) × (buffers : List Bytes) × (run ≡ some (s', d'))
        × (d'.io.pending
            ≡ c.io.pending ++ record { operation = async_write buffers; aborted = false } ∷ [])
        × (flatten buffers ≡ wire status (closing_headers keep headers) content)
        × (d'.base.waiting_for_async_reply ≡ false)

    after_read-Written :
        (w1 w2 : World ex.Uuid) (m : Message) (s s' : S) (c : HttpConnection ex) (peer name : Bytes)
        (status : StatusType) (headers : List Header) (content : Bytes)
        → w1.remote_endpoint ≡ some peer
        → w2.remote_endpoint ≡ some peer
        → method_name (of_number m.method) ≡ some name
        → Fulfils m s s' status headers content
        → IsRequestOf m c.base.request
        → c.base.request_complete ≡ true
        → c.base.waiting_for_async_reply ≡ false
        → Written c (after_read ex serve w1 w2 s c) s' c.base.keep_alive status headers content
    unfolding Written after_read after_request logged
    after_read-Written w1 w2 m s s' c peer name status headers content f1 f2 named answers asked
          complete waiting =
        let named' : method_name c.base.request.method ≡ some name =
          ap method_name asked.method ∙ named in
        let d : HttpConnection ex = logged w1 name c in
        let same : IsRequestOf m d.base.request =
          request_id-IsRequestOf m default_id_header w1.random c.base.request asked in
        let (r, st, served, st_eq, hs_eq, buffer, text) = answers d same in
        let (d', buffers, sent, pending, flat, idle) =
          send_reply-wire ex law.avro_laws w2 (with_reply ex r d) peer name st f2
            (ap method_name same.method ∙ named) buffer in
        let answered : after_request ex serve w2 (s', with_reply ex r d) ≡ some (s', d') =
          if_false c.base.waiting_for_async_reply _ _ waiting
            (>>=_of_some (send_reply ex w2 (with_reply ex r d)) _ sent refl) in
        (
          d',
          buffers,
          if_true c.base.request_complete _ _ complete (
              >>=_of_some (log_begin ex w1 c) _ (log_begin-some w1 c peer name f1 named')
                (>>=_of_some (serve s d) _ served answered)),
          pending,
          flat
              ∙ ap₃
                  (λ (a : StatusType) (b : List Header) (t : Bytes).
                    wire a (closing_headers c.base.keep_alive b) t)
                  st_eq hs_eq text,
          idle,
        )

    -- A connection reads the bytes of one whole request, of which the parser takes all and gives just the
    -- callbacks of the message: the URL in one piece, and names, values and content in any pieces. Where
    -- the URL can be parsed with its path and query inside it, every header name and value fits an array
    -- of 4096 bytes and has no NUL, the arrays have their size, the method has a name, the peer is there
    -- for both lines of the log, the connection does not wait for a reply, and the server answers at once,
    -- by filling in a reply with a buffer and doing nothing else, the read does not fault: it starts one
    -- write and the connection waits for no reply. The bytes to be written are the response with the
    -- status, the headers and the content of the answer, and with `Connection: close` behind the headers
    -- unless the request keeps alive.
    pub handle_read-answers :
        (w1 w2 : World ex.Uuid) (m : Message) (buffer : Bytes) (s s' : S) (c : HttpConnection ex)
        (peer name : Bytes) (status : StatusType) (headers : List Header) (content : Bytes)
        → w1.remote_endpoint ≡ some peer
        → w2.remote_endpoint ≡ some peer
        → method_name (of_number m.method) ≡ some name
        → ex.events c.base.parser buffer ≡ message_events m
        → ex.parsed c.base.parser buffer ≡ length buffer
        → HasArrays ex c.base
        → IsAccepted ex m
        → c.base.waiting_for_async_reply ≡ false
        → Fulfils m s s' status headers content
        → (d' : HttpConnection ex) × (buffers : List Bytes) × (handle_read ex serve w1 w2 success
              buffer s c
            ≡ some (s', d'))
          × (d'.io.pending
              ≡ (cancel_timer c.io).pending
                ++ record { operation = async_write buffers; aborted = false } ∷ [])
          × (flatten buffers ≡ wire status (closing_headers m.keep_alive headers) content)
          × (d'.base.waiting_for_async_reply ≡ false)
    unfolding handle_read Written
    handle_read-answers w1 w2 m buffer s s' c peer name status headers content f1 f2 named told
          whole arrays accepted waiting answers =
        let (b, st, run, request, text, complete, keep) =
          run_callbacks-Message ex lower law m c.base arrays accepted in
        let parse = parse-whole buffer m c.base b told run in
        let d : HttpConnection ex = record {
          base = record b { parser = ex.advance c.base.parser buffer };
          io = cancel_timer c.io;
        } in
        let idle : d.base.waiting_for_async_reply ≡ false =
          http_parse-waiting ex buffer c.base _ parse ∙ waiting in
        let (d', buffers, read, pending, flat, quiet) =
          after_read-Written w1 w2 m s s' d peer name status headers content f1 f2 named answers
            (assembled-IsRequestOf m c.base d.base.request st request text) complete idle in
        (
          d',
          buffers,
          >>=_of_some (http_parse ex buffer c.base) _ parse (
              if_true (ex.parsed c.base.parser buffer == length buffer) _ _
                ((==_iff (ex.parsed c.base.parser buffer) (length buffer)).1 whole) read),
          pending,
          flat ∙ ap (λ (k : Bool). wire status (closing_headers k headers) content) keep,
          quiet,
        )
