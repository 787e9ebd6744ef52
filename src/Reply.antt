-- ===== src/Reply.antt =====
-- csi_http/server/reply.cpp, reply.h and header.h: the reply that a handler fills in and that the
-- connection writes to the socket. `none` is a fault: a read through the null `_avro_tx_buffer` of a
-- reply that was never reset, or the exception of a read past the end of a stream.
pub mod Lines
pub mod Codes
pub mod Create
pub mod Wire
pub mod Reader
pub mod RoundTrip
mod Tests
use csi_http.Base.{
  print_int, ◌+◌, set, ◌==◌, map_some, if◌then◌else◌, List, Option, ◌++◌, none, some, zero, suc, [],
  ◌∷◌, ◌>>=◌, codes, Bytes, ℕ,
}
use csi_http.Avro.{AvroMemory, read_bytes}
use csi_http.Status.{StatusType}
use Lines.{crlf, to_buffer}

pub record Header : Type 0 where
  pub name : Bytes
  pub value : Bytes

-- `header_t()`.
abbrev pub blank : Header
blank = record { name = []; value = [] }

-- `reply_t`. The object is made with no buffer; `reset` gives it one.
pub record Reply (av : AvroMemory) : Type 0 where
  pub status : StatusType
  pub headers : List Header
  pub avro_tx_buffer : Option av.Stream
  pub boost_tx_buffer : Option Bytes

-- `std::vector::resize`.
abbrev pub resize : ℕ → List Header → List Header
resize zero hs = []
resize (suc n) [] = blank ∷ resize n []
resize (suc n) (h ∷ hs) = h ∷ resize n hs

-- The text of a header on the wire.
abbrev name_value_separator : Bytes
name_value_separator = codes ": "

header_buffers : List Header → List Bytes
header_buffers [] = []
header_buffers (h ∷ hs) = h.name ∷ name_value_separator ∷ h.value ∷ crlf ∷ header_buffers hs

abbrev pub v1_1 : Bytes
v1_1 = codes "HTTP/1.1 "

module _ (av : AvroMemory) where
  -- A reply as it is made: its status is not set, so it is an argument.
  abbrev pub new_reply : StatusType → Reply av
  new_reply s = record { status = s; headers = []; avro_tx_buffer = none; boost_tx_buffer = none }

  abbrev pub content_length : Reply av → Option ℕ
  content_length r = map_some av.byte_count r.avro_tx_buffer

  -- `reply_t::create`; `content_type` is `text/html` and `extra_headers` 0 by default.
  unfoldable pub create : StatusType → Bytes → ℕ → Reply av → Option (Reply av)
  create s content_type extra_headers r = do
    sz ← content_length r
    some (record r {
      status = s;
      headers =
          if sz == 0
          then set (resize (1 + extra_headers) r.headers) extra_headers
              (record { name = codes "Content-Length"; value = codes "0" })
          else set
              (set (resize (2 + extra_headers) r.headers) extra_headers
                (record { name = codes "Content-Length"; value = print_int sz }))
              (extra_headers + 1) (record { name = codes "Content-Type"; value = content_type });
    })

  unfoldable pub add : Header → Reply av → Reply av
  add h r = record r { headers = r.headers ++ h ∷ [] }

  unfoldable pub reset : Reply av → Reply av
  reset r = record r {
    headers = [];
    avro_tx_buffer = some av.memory_output_stream;
    boost_tx_buffer = none;
  }

  -- A handler's write to `content()`.
  unfoldable pub write_content : Bytes → Reply av → Option (Reply av)
  write_content b r = do
    s ← r.avro_tx_buffer
    some (record r { avro_tx_buffer = some (av.write_bytes s b) })

  -- The copy of the content to the second buffer, and that buffer.
  copy_content : ℕ → Reply av → Option (List Bytes × Reply av)
  unfolding read_bytes
  copy_content zero r = some ([], r)
  copy_content (suc n) r = do
    s ← r.avro_tx_buffer
    read ← read_bytes (suc n) (av.memory_input_stream s)
    some (read.0 ∷ [], record r { boost_tx_buffer = some read.0 })

  unfoldable pub to_buffers : Reply av → Option (List Bytes × Reply av)
  unfolding header_buffers copy_content
  to_buffers r = do
    sz ← content_length r
    content ← copy_content sz r
    some (v1_1 ∷ to_buffer r.status ∷ header_buffers r.headers ++ crlf ∷ content.0, content.1)

abbrev pub text_html : Bytes
text_html = codes "text/html"
