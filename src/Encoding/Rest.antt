-- ===== src/Encoding/Rest.antt =====
-- Requests of csi_http/encoding/http_rest_avro_binary_encoding.h and http_rest_avro_json_encoding.h: the
-- value that the peer decodes is the one that the request was made with.
use csi_http.Base.{
  append-nil, sym, ◌++◌, arith, ap, ◌∙◌, ◌<◌, ◌⊎◌, ◌≡◌, Bool, ℕ, List, Option, Bytes, [], refl, inr,
  some, length,
}
use csi_http.Avro.{AvroMemory, IsAvroMemory}
use csi_http.Status.{MethodT, put, post}
use csi_http.HttpClient.CallContext.{CallContext, new_call_context, prepare, tx_content_length}
use csi_http.HttpClient.Uploads.{IsRoom, announced, upload_all, prepare-upload}
use csi_http.Encoding.{
  Codec, IsCodec, avro_raw_binary_encode, avro_raw_binary_decode, avro_json_encode,
  avro_json_decode, create_avro_binary_rest, create_avro_json_rest,
}
use csi_http.Encoding.RoundTrip.{write_bytes-empty}

module _ (av : AvroMemory) (law : IsAvroMemory av) (T : Type 0) where
  -- What a peer decodes that writes what libcurl reads of a prepared request to a stream of its own.
  abbrev pub Delivers : Bool → (av.Stream → Option T) → List ℕ → CallContext av → T → Type 0
  Delivers nd decode rooms c v =
      (c' : CallContext av) × (content : Bytes) × (prepare av nd c ≡ some c')
      × (upload_all av rooms c' ≡ some content)
      × (announced c'.curl_easy ≡ some (length content))
      × (decode (av.write_bytes av.memory_output_stream content) ≡ some v)

  upload-Delivers :
      (nd : Bool) (codec : Codec T) (c : CallContext av) (v : T) (rooms : List ℕ)
      → (c.method ≡ put) ⊎ (c.method ≡ post)
      → av.memory_input_stream c.avro_tx_buffer ≡ codec.encode v
      → IsCodec T codec
      → IsRoom rooms
      → length (codec.encode v) < length rooms
      → Delivers nd (λ s. codec.decode (av.memory_input_stream s)) rooms c v
  upload-Delivers nd codec c v rooms m held ok room enough =
      let size : tx_content_length av c ≡ length (codec.encode v) =
        law.byte_count-length c.avro_tx_buffer ∙ ap (λ (s : Bytes). length s) held in
      let (c', content, prepared, read, same, told) =
        prepare-upload av law nd c rooms m room (omega arith) in
      let got : av.memory_input_stream (av.write_bytes av.memory_output_stream content)
          ≡ codec.encode v ++ [] =
        write_bytes-empty av law av.memory_output_stream content law.read_empty
        ∙ (same ∙ (held ∙ sym (append-nil (codec.encode v)))) in
      (
        c',
        content,
        prepared,
        read,
        told,
        ap (λ (s : Bytes). codec.decode s) got ∙ ok.decode-encode v [],
      )

  -- A request that is made with a value in avro's binary encoding is a POST, and libcurl reads of it, with
  -- more positive rooms than the encoding has bytes, what decodes to the value.
  pub create_avro_binary_rest-upload :
      (nd : Bool) (binary : Codec T) (uri : Bytes) (v : T) (headers : List Bytes) (timeout : ℕ)
      (u : Bool) (rooms : List ℕ)
      → IsCodec T binary
      → IsRoom rooms
      → length (binary.encode v) < length rooms
      → ((create_avro_binary_rest av T binary uri v headers timeout u).method ≡ post)
        × Delivers nd
            (avro_raw_binary_decode av T binary)
            rooms
            (create_avro_binary_rest av T binary uri v headers timeout u)
            v
  unfolding create_avro_binary_rest avro_raw_binary_encode avro_raw_binary_decode new_call_context
  create_avro_binary_rest-upload nd binary uri v headers timeout u rooms ok room enough = (
    refl,
    upload-Delivers nd binary (create_avro_binary_rest av T binary uri v headers timeout u) v rooms
        (inr refl)
        (write_bytes-empty av law av.memory_output_stream (binary.encode v) law.read_empty) ok room
        enough,
  )

  -- A request that is made with PUT or POST and a value in avro's JSON encoding has the method, and libcurl
  -- reads of it, with more positive rooms than the encoding has bytes, what decodes to the value.
  create_avro_json_rest-upload :
      (nd : Bool) (json : Codec T) (m : MethodT) (uri : Bytes) (v : T) (headers : List Bytes)
      (timeout : ℕ) (u : Bool) (rooms : List ℕ)
      → (m ≡ put) ⊎ (m ≡ post)
      → IsCodec T json
      → IsRoom rooms
      → length (json.encode v) < length rooms
      → ((create_avro_json_rest av T json m uri v headers timeout u).method ≡ m)
        × Delivers nd
            (avro_json_decode av T json)
            rooms
            (create_avro_json_rest av T json m uri v headers timeout u)
            v
  unfolding create_avro_json_rest avro_json_encode avro_json_decode new_call_context
  create_avro_json_rest-upload nd json m uri v headers timeout u rooms how ok room enough = (
    refl,
    upload-Delivers nd json (create_avro_json_rest av T json m uri v headers timeout u) v rooms how
        (write_bytes-empty av law av.memory_output_stream (json.encode v) law.read_empty) ok room
        enough,
  )
