-- ===== src/Reply/Tests.antt =====
-- A reply with two headers, and uses of the theorems.
use csi_http.Base.{
  ◌↔◌, ◌<◌, arith, ◌^◌, print_int, ◌++◌, String, decimal, flatten, List, codes, Option, Bytes, none,
  some, refl, [], ◌∷◌, ◌≡◌,
}
use csi_http.Avro.Model.{list_avro, list_avro-IsAvroMemory, zero_avro}
use csi_http.Status.{StatusType, of_code, created}
use csi_http.Reply.Codes.{status_line, wire_code, NoBreak, to_buffer-status_line}
use csi_http.Reply.Lines.{to_buffer}
use csi_http.Reply.Wire.{wire, to_buffers-wire}
use csi_http.Reply.Reader.{read_response}
use csi_http.Reply.Create.{
  content_headers, content_length_of, create_headers, create_content_length,
}
use csi_http.Reply.RoundTrip.{answer, read_response-answer}
use csi_http.Reply.{
  Header, Reply, v1_1, new_reply, blank, create, to_buffers, text_html, reset, write_content, add,
}

abbrev header : String → String → Header
header n v = record { name = codes n; value = codes v }

abbrev unset : Reply list_avro
unset = new_reply list_avro StatusType.ok

abbrev filled : Reply list_avro
filled = record unset { headers = header "Via" "x" ∷ []; avro_tx_buffer = some (codes "hello") }

written : Option (List Bytes × Reply list_avro) → Bytes
written none = []
written (some (bufs, r)) = flatten bufs

answer_test :
    written (answer list_avro created text_html (codes "hi") (header "X" "1" ∷ []) unset)
    ≡ codes "HTTP/1.1 201 Created"
      ++ (b'\r' ∷ b'\n' ∷ [])
      ++ codes "Content-Length: 2"
      ++ (b'\r' ∷ b'\n' ∷ [])
      ++ codes "Content-Type: text/html"
      ++ (b'\r' ∷ b'\n' ∷ [])
      ++ codes "X: 1"
      ++ (b'\r' ∷ b'\n' ∷ b'\r' ∷ b'\n' ∷ [])
      ++ codes "hi"
unfolding written flatten write_content reset create add to_buffers to_buffer print_int decimal
answer_test = refl

-- A reply that was never reset has no buffer, and `create` reads through a null pointer.
create-unset : create list_avro StatusType.bad_request text_html 0 unset ≡ none
unfolding create
create-unset = refl

to_buffer-status_line_example :
    (reason : Bytes) × (to_buffer (of_code 303) ≡ status_line (wire_code 303) reason)
    × NoBreak reason
to_buffer-status_line_example = to_buffer-status_line 303

to_buffers-wire_example :
    (bufs : List Bytes) × (r' : Reply list_avro) × (to_buffers list_avro filled ≡ some (bufs, r'))
    × (flatten bufs ≡ wire StatusType.ok (header "Via" "x" ∷ []) (codes "hello"))
    × (r'.status ≡ StatusType.ok)
    × (r'.headers ≡ header "Via" "x" ∷ [])
    × (r'.avro_tx_buffer ≡ some (codes "hello"))
to_buffers-wire_example =
    to_buffers-wire list_avro list_avro-IsAvroMemory filled (codes "hello") refl

create_headers_example :
    (r' : Reply list_avro) × (create list_avro created text_html 2 filled ≡ some r')
    × (r'.headers ≡ (header "Via" "x" ∷ blank ∷ []) ++ content_headers text_html 5)
    × (r'.status ≡ created)
    × (r'.avro_tx_buffer ≡ some (codes "hello"))
create_headers_example = create_headers list_avro created text_html 2 filled (codes "hello") refl

create_content_length_example :
    (r' : Reply zero_avro) × (v : Bytes) × (rest : List Header) × (create zero_avro created
        text_html 0
        (record (new_reply zero_avro created) { avro_tx_buffer = some 3000000000 })
      ≡ some r')
    × (r'.headers ≡ content_length_of v ∷ rest)
    × ((v ≡ decimal 3000000000) ↔ (3000000000 < 2 ^ 31))
create_content_length_example =
    create_content_length zero_avro created text_html 0
      (record (new_reply zero_avro created) { avro_tx_buffer = some 3000000000 }) 3000000000 refl

read_response-answer_example :
    (bufs : List Bytes) × (r' : Reply list_avro) × (reason : Bytes) × (answer list_avro
        (of_code 201)
        text_html
        (codes "hi")
        (header "X" "1" ∷ [])
        unset
      ≡ some (bufs, r'))
    × (read_response 4 (flatten bufs ++ codes "rest")
        ≡ some (record {
          first_line = v1_1 ++ (decimal (wire_code 201) ++ b' ' ∷ reason);
          headers = content_headers text_html 2 ++ header "X" "1" ∷ [];
          content = codes "hi";
          rest = codes "rest";
        }))
read_response-answer_example =
    read_response-answer list_avro list_avro-IsAvroMemory 201 4 text_html (codes "hi")
      (codes "rest") (header "X" "1" ∷ []) unset (omega arith) (omega arith) (omega arith)
      (omega arith)
