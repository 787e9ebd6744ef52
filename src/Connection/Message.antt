-- ===== src/Connection/Message.antt =====
-- A whole request, as http_parser delivers it to csi_http/server/connection.cpp.
use csi_http.Base.{
  >>=_of_some, ==_iff, ◌==◌, true, none, append_assoc, ap, ◌∙◌, append-nil, sym, map, ◌++◌, flatten,
  Bool, List, All, ℕ, Bytes, some, refl, [], ◌∷◌, ◌≡◌,
}
use csi_http.Externals.{
  Externals, Event, message_begin, url, body, headers_complete, message_complete, IsExternals,
  ParsedUrl,
}
use csi_http.Status.{of_number}
use csi_http.Request.{Request}
use csi_http.Request as RequestOps
use csi_http.Connection.Headers.{HasArrays, InField, Holds-cleared}
use csi_http.Connection.Runs.{
  Runs, Runs-nil, Runs-cons, Runs-append, Runs-run, part, InRange, append_part-empty,
}
use csi_http.Connection.Pieces.{Pieces, Fits, header_events, lowered_header, headers_complete_run}
use csi_http.Connection.{
  Connection, on_message_begin, on_url, append_part, call_back, on_body, on_message_complete,
  run_callbacks,
}

pub record Message : Type 0 where
  pub method : ℕ
  pub url : Bytes
  pub headers : List Pieces
  pub content_length : ℕ
  pub body : List Bytes
  pub keep_alive : Bool

-- The callbacks behind that for the URL.
abbrev rest_events : Message → List Event
rest_events m =
    (header_events m.headers ++ headers_complete m.content_length m.method ∷ [])
    ++ (map body m.body ++ message_complete m.keep_alive ∷ [])

abbrev pub message_events : Message → List Event
message_events m = message_begin ∷ url m.url ∷ rest_events m

-- The URL can be parsed, and every header fits.
pub record IsAccepted (ex : Externals) (m : Message) : Type 0 where
  pub parsed : (ex.parse_url m.url).result ≡ 0
  pub path_range : InRange ex m.url (ex.parse_url m.url).path
  pub query_range : InRange ex m.url (ex.parse_url m.url).query
  pub headers_fit : All Fits m.headers

module _ (ex : Externals) (lower : Bytes → Bytes) (law : IsExternals ex lower) where
  abbrev pub begun : Connection ex → Request ex
  begun c = RequestOps.reset ex c.request

  on_message_begin-InField :
      (c : Connection ex) → HasArrays ex c → InField ex (on_message_begin ex c) (begun c) []
  unfolding on_message_begin
  on_message_begin-InField c a = record {
    request = refl;
    last = refl;
    key = Holds-cleared c.current_header_key a.key;
    val = Holds-cleared c.current_header_val a.val;
  }

  abbrev pub with_url : Request ex → Bytes → Request ex
  with_url r at = record r {
    url = part ex at (ex.parse_url at).path;
    query = part ex at (ex.parse_url at).query;
  }

  on_url-InField :
      (c : Connection ex) (r : Request ex) (m : Message)
      → IsAccepted ex m
      → r.url ≡ []
      → r.query ≡ []
      → InField ex c r []
      → (c' : Connection ex) × (on_url ex m.url c ≡ some (c', 0))
        × InField ex c' (with_url r m.url) []
  unfolding on_url
  on_url-InField c r m a no_url no_query s =
      let at : Bytes = m.url in
      let found : ParsedUrl = ex.parse_url at in
      let ok : (found.result == 0) ≡ true = (==_iff found.result 0).1 a.parsed in
      let path : append_part ex c.request.url at found.path ≡ some (part ex at found.path) =
        ap (λ (q : Request ex). append_part ex q.url at found.path) s.request
        ∙ ap (λ (t : Bytes). append_part ex t at found.path) no_url
        ∙ append_part-empty ex at found.path a.path_range in
      let query : append_part ex c.request.query at found.query ≡ some (part ex at found.query) =
        ap (λ (q : Request ex). append_part ex q.query at found.query) s.request
        ∙ ap (λ (t : Bytes). append_part ex t at found.query) no_query
        ∙ append_part-empty ex at found.query a.query_range in
      let c' : Connection ex = record c { request = with_url c.request at } in
      let run : on_url ex at c ≡ some (c', 0) =
        rw ok
          (>>=_of_some _ _ path (>>=_of_some _ _ query (ap (λ (n : ℕ). some (c', n)) a.parsed))) in
      (
        c',
        run,
        record {
          request = ap (λ (q : Request ex). with_url q at) s.request;
          last = s.last;
          key = s.key;
          val = s.val;
        },
      )

  -- The content that has come is appended to the buffer.
  bodies_run :
      (bs : List Bytes) (c : Connection ex)
      → (c' : Connection ex) × (s : ex.avro.Stream) × Runs ex (map body bs) c c'
        × (c'.request ≡ record c.request { avro_rx_buffer = s })
        × (ex.avro.memory_input_stream s
            ≡ ex.avro.memory_input_stream c.request.avro_rx_buffer ++ flatten bs)
        × (HasArrays ex c → HasArrays ex c')
  unfolding call_back on_body flatten
  bodies_run [] c = (c, c.request.avro_rx_buffer, Runs-nil ex c, refl, sym (append-nil _), λ h. h)
  bodies_run (b ∷ bs) c =
      let d : Connection ex = on_body ex b c in
      let (c', s, later, e, content, arrays) = bodies_run bs d in
      (
        c',
        s,
        Runs-cons ex (body b) (map body bs) c d c' refl later,
        e,
        content
            ∙ ap (λ (t : Bytes). t ++ flatten bs) (law.avro_laws.read_written _ b)
            ∙ append_assoc _ b (flatten bs),
        λ h. arrays (record { key = h.key; val = h.val }),
      )

  -- The request that a message makes of a request that was reset, with the stream of its content.
  abbrev pub assembled : Request ex → Message → ex.avro.Stream → Request ex
  assembled r m s = record r {
    method = of_number m.method;
    url = part ex m.url (ex.parse_url m.url).path;
    query = part ex m.url (ex.parse_url m.url).query;
    headers = map (lowered_header ex lower law) m.headers;
    content_length = m.content_length;
    avro_rx_buffer = s;
  }

  pub message-Runs :
      (m : Message) (c : Connection ex)
      → HasArrays ex c
      → IsAccepted ex m
      → (c' : Connection ex) × (s : ex.avro.Stream) × Runs ex (message_events m) c c'
        × (c'.request ≡ assembled (begun c) m s)
        × (ex.avro.memory_input_stream s ≡ flatten m.body)
        × (c'.request_complete ≡ true)
        × (c'.keep_alive ≡ m.keep_alive)
        × HasArrays ex c'
  unfolding call_back on_message_complete RequestOps.reset
  message-Runs m c arrays a =
      let c1 : Connection ex = on_message_begin ex c in
      let s1 = on_message_begin-InField c arrays in
      let (c2, step2, s2) = on_url-InField c1 (begun c) m a refl refl s1 in
      let (c3, run3, e3, arrays3) =
        headers_complete_run ex lower law m.headers c2 (with_url (begun c) m.url) m.content_length
          m.method a.headers_fit s2 in
      let (c4, s, run4, e4, content, arrays4) = bodies_run m.body c3 in
      let c5 : Connection ex = on_message_complete ex m.keep_alive c4 in
      let last : Runs ex (message_complete m.keep_alive ∷ []) c4 c5 =
        Runs-cons ex (message_complete m.keep_alive) [] c4 c5 c5 refl (Runs-nil ex c5) in
      let bodies =
        Runs-append ex (map body m.body) (message_complete m.keep_alive ∷ []) c3 c4 c5 run4 last in
      let all =
        Runs-append ex (header_events m.headers ++ headers_complete m.content_length m.method ∷ [])
          (map body m.body ++ message_complete m.keep_alive ∷ []) c2 c3 c5 run3 bodies in
      (
        c5,
        s,
        Runs-cons ex message_begin (url m.url ∷ rest_events m) c c1 c5 refl
            (Runs-cons ex (url m.url) (rest_events m) c1 c2 c5 step2 all),
        e4 ∙ ap (λ (q : Request ex). record q { avro_rx_buffer = s }) e3,
        content
            ∙ ap
                (λ (q : Request ex). ex.avro.memory_input_stream q.avro_rx_buffer ++ flatten m.body)
                e3
            ∙ ap (λ (t : Bytes). t ++ flatten m.body) law.avro_laws.read_empty,
        refl,
        refl,
        record { key = (arrays4 arrays3).key; val = (arrays4 arrays3).val },
      )

  -- A request whose URL can be parsed and whose headers fit is taken in without a fault, and every
  -- callback returns 0. Into whatever pieces names, values and content are cut, the request has then
  -- the method, path, query, Content-Length and headers of the message, the headers whole, in order
  -- and in lower case, and its buffer holds the content and nothing else. Its id is empty and its
  -- uuid nil. The connection knows that the request is complete and whether to keep alive.
  pub run_callbacks-Message :
      (m : Message) (c : Connection ex)
      → HasArrays ex c
      → IsAccepted ex m
      → (c' : Connection ex) × (s : ex.avro.Stream) × (run_callbacks ex 0 (message_events m) c
          ≡ some (c', none))
        × (c'.request ≡ assembled (begun c) m s)
        × (ex.avro.memory_input_stream s ≡ flatten m.body)
        × (c'.request_complete ≡ true)
        × (c'.keep_alive ≡ m.keep_alive)
  run_callbacks-Message m c arrays a =
      let (c', s, run, e, content, complete, keep, sizes) = message-Runs m c arrays a in
      (c', s, Runs-run ex (message_events m) c c' run, e, content, complete, keep)
