-- ===== src/HttpClient/Streams.antt =====
-- The callbacks of csi_http/client/http_client.cpp by which libcurl reads the content of a request and
-- delivers that of the reply. `none` is a read past the end of curl's buffer.
use csi_http.Base.{
  ◌^◌, ◌%◌, ◌++◌, take, ◌*◌, Option, length, none, some, zero, suc, [], ◌∷◌, ℕ, Bytes,
  if◌then◌else◌, leb,
}
use csi_http.Avro.{AvroMemory}
use csi_http.HttpClient.CallContext.{CallContext}

-- `size * nmemb` in a `size_t`.
abbrev pub byte_size : ℕ → ℕ → ℕ
byte_size size nmemb = size * nmemb % 2 ^ 64

-- The loop of `read_callback_avro_stream`: the bytes that it stored, and what is left of the stream.
unfoldable pub read_loop : ℕ → Bytes → Bytes × Bytes
read_loop zero s = ([], s)
read_loop (suc n) [] = ([], [])
read_loop (suc n) (b ∷ s) = let (stored, rest) = read_loop n s in (b ∷ stored, rest)

module _ (av : AvroMemory) where
  unfoldable pub read_callback_avro_stream : ℕ → ℕ → CallContext av → CallContext av × Bytes × ℕ
  unfolding read_loop
  read_callback_avro_stream size nmemb c =
      let (stored, rest) = read_loop (byte_size size nmemb) c.avro_tx_stream in
      (record c { avro_tx_stream = rest }, stored, length stored)

  unfoldable pub write_callback_avro_stream :
      ℕ → ℕ → Bytes → CallContext av → Option (CallContext av × ℕ)
  write_callback_avro_stream size nmemb ptr c =
      let sz = byte_size size nmemb in
      if leb sz (length ptr)
      then some (record c { avro_rx_buffer = av.write_bytes c.avro_rx_buffer (take sz ptr) }, sz)
      else none

  -- The vector is always given.
  unfoldable pub parse_headers : ℕ → ℕ → Bytes → CallContext av → Option (CallContext av × ℕ)
  parse_headers size nmemb buffer c =
      let sz = byte_size size nmemb in
      if leb sz (length buffer)
      then some (record c { rx_headers = c.rx_headers ++ take sz buffer ∷ [] }, sz)
      else none
