-- ===== src/Encoding.antt =====
-- The encodings of csi_http/encoding: a value in a memory stream and back, and requests with a value as
-- their content. The generated code of a type and json_spirit are parameters. A stream that is decoded is
-- read from its start; the rest of it is not looked at.
pub mod RoundTrip
pub mod Rest
mod Tests
use csi_http.Base.{
  take, drop, leb, if◌then◌else◌, ◌≡◌, List, ◌>>=◌, ℕ, ◌++◌, Bytes, Option, Bool, false, none, some,
  [], ◌∷◌, length,
}
use csi_http.Avro.{AvroMemory, read_bytes}
use csi_http.Status.{MethodT, post}
use csi_http.HttpClient.CallContext.{CallContext, create_http_request, write_tx_content}

-- What `avro::encode` and `avro::decode` do with an encoder and a decoder for the type. `none` is an
-- exception.
pub record Codec (T : Type 0) : Type 0 where
  pub encode : T → Bytes
  pub decode : Bytes → Option T

-- What is encoded is decoded, whatever follows it.
pub record IsCodec (T : Type 0) (codec : Codec T) : Type 0 where
  pub decode-encode : (v : T) (rest : Bytes) → codec.decode (codec.encode v ++ rest) ≡ some v

module _ (av : AvroMemory) (T : Type 0) where
  -- `avro_raw_binary_encode` into a stream, with the encoder that `binaryEncoder` gives.
  unfoldable pub avro_raw_binary_encode : Codec T → T → av.Stream → av.Stream
  avro_raw_binary_encode binary src dst = av.write_bytes dst (binary.encode src)

  unfoldable pub avro_raw_binary_decode : Codec T → av.Stream → Option T
  avro_raw_binary_decode binary src = binary.decode (av.memory_input_stream src)

  -- `avro_json_encode`, `avro_json_decode` and `avro_json_decodeEx`, with `jsonEncoder` and the decoder that
  -- each of the latter two makes.
  unfoldable pub avro_json_encode : Codec T → T → av.Stream → av.Stream
  avro_json_encode json src dst = av.write_bytes dst (json.encode src)

  unfoldable pub avro_json_decode : Codec T → av.Stream → Option T
  avro_json_decode json src = json.decode (av.memory_input_stream src)

  unfoldable pub avro_json_decode_ex : Codec T → av.Stream → Option T
  avro_json_decode_ex json_ex src = json_ex.decode (av.memory_input_stream src)

  -- `avro_raw_binary_encode` into a buffer, which gives the size. The first argument is whether `NDEBUG` is
  -- defined. `none` is a failed assertion, an exception, or a write past the end of the buffer.
  unfoldable pub avro_raw_binary_encode_buffer : Bool → Codec T → T → Bytes → ℕ → Option (Bytes × ℕ)
  unfolding avro_raw_binary_encode
  avro_raw_binary_encode_buffer ndebug binary src buffer capacity =
      let os = avro_raw_binary_encode binary src av.memory_output_stream in
      let sz = av.byte_count os in
      if leb sz capacity
      then (read_bytes sz (av.memory_input_stream os) >>= λ (read, rest).
          if leb sz (length buffer) then some (read ++ drop sz buffer, sz) else none)
      else if ndebug
      then some (buffer, 0)
      else none

  -- `avro_raw_binary_decode` from a buffer. `none` is also a read past its end.
  unfoldable pub avro_raw_binary_decode_buffer : Codec T → Bytes → ℕ → Option T
  avro_raw_binary_decode_buffer binary buffer size =
      if leb size (length buffer) then binary.decode (take size buffer) else none

  unfoldable pub create_avro_binary_rest :
      Codec T → Bytes → T → List Bytes → ℕ → Bool → CallContext av
  unfolding avro_raw_binary_encode
  create_avro_binary_rest binary uri request headers timeout uninitialised =
      let p = create_http_request av post uri headers timeout uninitialised in
      record p { avro_tx_buffer = avro_raw_binary_encode binary request p.avro_tx_buffer }

  unfoldable pub create_avro_json_rest :
      Codec T → MethodT → Bytes → T → List Bytes → ℕ → Bool → CallContext av
  unfolding avro_json_encode
  create_avro_json_rest json method uri request headers timeout uninitialised =
      let p = create_http_request av method uri headers timeout uninitialised in
      record p { avro_tx_buffer = avro_json_encode json request p.avro_tx_buffer }

-- json_spirit, and what the type defines for it.
pub record JsonSpirit (T : Type 0) : Type 1 where
  pub Object : Type 0
  pub Value : Type 0
  -- `T()`.
  pub empty : T
  pub json_encode : T → Object
  pub write : Object → Bytes
  -- `none` is an exception.
  pub read : Bytes → Option Value
  pub get_obj : Value → Option Object
  -- The result, if it is no exception, and what is in `dst` then.
  pub json_decode : Object → T → Option Bool × T

-- The loop that copies the stream.
unfoldable pub copy_stream : Bytes → Bytes
copy_stream [] = []
copy_stream (ch ∷ stream0) = ch ∷ copy_stream stream0

module _ (av : AvroMemory) (T : Type 0) (js : JsonSpirit T) where
  unfoldable pub json_spirit_encode : T → av.Stream → av.Stream
  json_spirit_encode src dst = av.write_bytes dst (js.write (js.json_encode src))

  -- What the `try` block does: the result, or that there was an exception, and `dst`.
  unfoldable pub try_decode : Bytes → T → Option Bool × T
  try_decode stream1 dst = elim (js.read stream1 >>= λ value. js.get_obj value) [
    | some root ↦ js.json_decode root dst
    | none ↦ (none, dst)
  ]

  -- `json_spirit_decode`, which gives its result and what `dst` is then.
  unfoldable pub json_spirit_decode_stream : Bytes → Bool × T
  unfolding try_decode copy_stream
  json_spirit_decode_stream src =
      let (result, dst) = try_decode (copy_stream src) js.empty in
      (elim result [ some b ↦ b | none ↦ false ], dst)

  unfoldable pub json_spirit_decode : av.Stream → Bool × T
  unfolding json_spirit_decode_stream
  json_spirit_decode src = json_spirit_decode_stream (av.memory_input_stream src)
