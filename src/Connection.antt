-- ===== src/Connection.antt =====
-- csi_http/server/connection.cpp and connection.h: what both kinds of connection share, and the
-- callbacks by which http_parser fills in the request. `none` is a fault: a write or a read past the
-- end of an array.
pub mod Buffer
pub mod Headers
pub mod Runs
pub mod Pieces
pub mod Message
pub mod Pipelining
pub mod Waiting
pub mod Faults
mod Tests
use csi_http.Base.{
  drop, take, length, leb, ◌==◌, ◌++◌, map_some, if◌then◌else◌, ◌+◌, List, set, Option, ℕ, Bool,
  Bytes, true, false, none, some, zero, suc, [], ◌∷◌, ◌>>=◌,
}
use csi_http.Externals.{
  Externals, Event, message_begin, url, header_field, header_value, body, headers_complete,
  message_complete,
}
use csi_http.Status.{StatusType, MethodT, of_number}
use csi_http.Reply.{Header, Reply, new_reply}
use csi_http.Reply as ReplyOps
use csi_http.Request.{Request, new_request}
use csi_http.Request as RequestOps
use Buffer.{write_text, c_str, max_header_size}

pub record Connection (ex : Externals) : Type 0 where
  pub parser : ex.Parser
  pub request : Request ex
  pub reply : Reply ex.avro
  pub last_header_was_value : Bool
  pub current_header_key : Bytes
  pub current_header_val : Bytes
  pub current_header_key_len : ℕ
  pub current_header_val_len : ℕ
  pub request_complete : Bool
  pub keep_alive : Bool
  pub waiting_for_async_reply : Bool
  pub request_id_header_tag : Bytes

-- What the constructor leaves as it finds it.
pub record Garbage : Type 0 where
  pub method : MethodT
  pub status : StatusType
  pub last_header_was_value : Bool
  pub key : Bytes
  pub val : Bytes
  pub key_len : ℕ
  pub val_len : ℕ

module _ (ex : Externals) where
  unfoldable pub new_connection : Bytes → Garbage → Connection ex
  unfolding new_request
  new_connection request_id_header g = record {
    parser = ex.parser_init;
    request = new_request ex g.method;
    reply = new_reply ex.avro g.status;
    last_header_was_value = g.last_header_was_value;
    current_header_key = g.key;
    current_header_val = g.val;
    current_header_key_len = g.key_len;
    current_header_val_len = g.val_len;
    request_complete = false;
    keep_alive = false;
    waiting_for_async_reply = false;
    request_id_header_tag = request_id_header;
  }

  unfoldable pub on_message_begin : Connection ex → Connection ex
  unfolding RequestOps.reset ReplyOps.reset
  on_message_begin c = record c {
    request = RequestOps.reset ex c.request;
    reply = ReplyOps.reset ex.avro c.reply;
    request_complete = false;
    last_header_was_value = false;
    current_header_key_len = 0;
    current_header_val_len = 0;
    current_header_key = set c.current_header_key 0 0;
    current_header_val = set c.current_header_val 0 0;
  }

  -- `s.append(&at[off], len)` of the part that the URL parser found, if it found one.
  pub append_part : Bytes → Bytes → Option (ℕ × ℕ) → Option Bytes
  append_part s at none = some s
  append_part s at (some (off, len)) =
      if leb (off + len) (length at) then some (s ++ take len (drop off at)) else none

  -- The callback and its return value.
  unfoldable pub on_url : Bytes → Connection ex → Option (Connection ex × ℕ)
  unfolding append_part
  on_url at c =
      let found = ex.parse_url at in
      if found.result == 0
      then (append_part c.request.url at found.path >>= λ path.
          append_part c.request.query at found.query >>= λ query.
          some
            (record c { request = record c.request { url = path; query = query } }, found.result))
      else some (c, found.result)

  -- The header that is complete goes to the request, in lower case.
  unfoldable pub push_header : Connection ex → Option (Connection ex)
  push_header c =
      let key = ex.to_lower c.current_header_key in
      let val = ex.to_lower c.current_header_val in
      c_str key >>= λ name. c_str val >>= λ value. some (record c {
        request = record c.request {
          headers = c.request.headers ++ record { name = name; value = value } ∷ [];
        };
        current_header_key = set key 0 0;
        current_header_val = set val 0 0;
        current_header_key_len = 0;
        current_header_val_len = 0;
      })

  abbrev push_complete : Bool → Connection ex → Option (Connection ex)
  push_complete true c = push_header c
  push_complete false c = some c

  unfoldable pub on_header_field : Bytes → Connection ex → Option (Connection ex)
  unfolding push_header
  on_header_field at c = do
    d ← push_complete c.last_header_was_value c
    key ← write_text d.current_header_key d.current_header_key_len at
    some (record d {
      current_header_key = key;
      current_header_key_len = d.current_header_key_len + length at;
      last_header_was_value = false;
    })

  unfoldable pub on_header_value : Bytes → Connection ex → Option (Connection ex)
  on_header_value at c = do
    val ← write_text c.current_header_val c.current_header_val_len at
    some (record c {
      current_header_val = val;
      current_header_val_len = c.current_header_val_len + length at;
      last_header_was_value = true;
    })

  unfoldable pub on_headers_complete : ℕ → ℕ → Connection ex → Option (Connection ex)
  unfolding push_header
  on_headers_complete content_length method c = do
    d ← push_complete c.last_header_was_value c
    some (record d {
      request = record d.request { content_length = content_length; method = of_number method };
    })

  unfoldable pub on_body : Bytes → Connection ex → Connection ex
  on_body at c = record c {
    request = record c.request { avro_rx_buffer = ex.avro.write_bytes c.request.avro_rx_buffer at };
  }

  unfoldable pub on_message_complete : Bool → Connection ex → Connection ex
  on_message_complete should_keep_alive c = record c {
    keep_alive = should_keep_alive;
    request_complete = true;
  }

  abbrev returns_0 : Option (Connection ex) → Option (Connection ex × ℕ)
  returns_0 = map_some λ c. (c, 0)

  -- `s_parser_settings`: the callback of each event.
  unfoldable pub call_back : Event → Connection ex → Option (Connection ex × ℕ)
  unfolding on_message_begin on_url on_header_field on_header_value on_headers_complete on_body
      on_message_complete
  call_back message_begin c = some (on_message_begin c, 0)
  call_back (url at) c = on_url at c
  call_back (header_field at) c = returns_0 (on_header_field at c)
  call_back (header_value at) c = returns_0 (on_header_value at c)
  call_back (headers_complete n m) c = returns_0 (on_headers_complete n m c)
  call_back (body at) c = some (on_body at c, 0)
  call_back (message_complete k) c = some (on_message_complete k c, 0)

  -- The parser makes its callbacks until one does not return 0, and then says which one.
  unfoldable pub run_callbacks : ℕ → List Event → Connection ex → Option (Connection ex × Option ℕ)
  unfolding call_back
  run_callbacks k [] c = some (c, none)
  run_callbacks k (e ∷ es) c = call_back e c >>= λ r. elim r.1 [
    | zero ↦ run_callbacks (suc k) es r.0
    | suc n ↦ some (r.0, some k)
  ]

  abbrev after_parse : Bytes → ex.Parser → Connection ex × Option ℕ → Connection ex × ℕ
  after_parse buf p (c, none) = (record c { parser = ex.advance p buf }, ex.parsed p buf)
  after_parse buf p (c, some k) =
      (record c { parser = ex.advance_until k p buf }, ex.parsed_until k p buf)

  unfoldable pub http_parse : Bytes → Connection ex → Option (Connection ex × ℕ)
  unfolding run_callbacks
  http_parse buf c =
      map_some (after_parse buf c.parser) (run_callbacks 0 (ex.events c.parser buf) c)
