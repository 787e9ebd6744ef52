-- ===== src/HttpClient/Downloads.antt =====
-- How libcurl, with the callbacks of csi_http/client/http_client.cpp, delivers the reply of a request.
use csi_http.Base.{
  update_same, update, append_assoc, ap, ◌∙◌, append-nil, sym, take_of_le, ◌++◌, leb_refl, ◌^◌, All,
  arith, ◌<◌, ◌≡◌, List, flatten, Bytes, ℕ, some, refl, [], ◌∷◌, length,
}
use csi_http.Avro.{AvroMemory, IsAvroMemory}
use csi_http.HttpClient.CallContext.{CallContext, rx_content_length}
use csi_http.HttpClient.Streams.{byte_size, write_callback_avro_stream, parse_headers}
use csi_http.HttpClient.Callbacks.{
  Client, World, done, Callbacks, returns, on_write, on_header, make_callbacks, with_context,
}

-- The lines of the reply's header, then the pieces of its content.
abbrev pub delivers : ℕ → List Bytes → List Bytes → Callbacks
delivers h [] [] = returns
delivers h [] (b ∷ bs) = on_write h b (delivers h [] bs)
delivers h (l ∷ ls) bs = on_header h l (delivers h ls bs)

abbrev pub IsShort : Bytes → Type 0
IsShort b = length b < 2 ^ 64

short_size : (b : Bytes) → IsShort b → byte_size 1 (length b) ≡ length b
short_size b h = omega arith

module _ (av : AvroMemory) where
  write_whole :
      (b : Bytes) (x : CallContext av)
      → IsShort b
      → write_callback_avro_stream av 1 (length b) b x
        ≡ some (record x { avro_rx_buffer = av.write_bytes x.avro_rx_buffer b }, length b)
  unfolding write_callback_avro_stream
  write_whole b x h =
      rw (short_size b h, leb_refl (length b), take_of_le (length b) b (omega arith)) refl

  header_whole :
      (b : Bytes) (x : CallContext av)
      → IsShort b
      → parse_headers av 1 (length b) b x
        ≡ some (record x { rx_headers = x.rx_headers ++ b ∷ [] }, length b)
  unfolding parse_headers
  header_whole b x h =
      rw (short_size b h, leb_refl (length b), take_of_le (length b) b (omega arith)) refl

module _ (av : AvroMemory) (law : IsAvroMemory av) (world : World av) where
  -- What libcurl delivers of a reply, however it cuts the content in pieces, is appended to what the
  -- request has of an earlier reply: the header's lines to its header, the pieces, one after the other, to
  -- its content, whose length is counted. Each line and each piece is shorter than `size_t` can tell.
  pub make_callbacks-delivers :
      (h : ℕ) (lines chunks : List Bytes) (c : Client av)
      → All IsShort lines
      → All IsShort chunks
      → (c' : Client av) × (content : Bytes) × (make_callbacks av world (delivers h lines chunks) c
          ≡ done c')
        × ((c'.contexts h).rx_headers ≡ (c.contexts h).rx_headers ++ lines)
        × (av.memory_input_stream (c'.contexts h).avro_rx_buffer ≡ content)
        × (content ≡ av.memory_input_stream (c.contexts h).avro_rx_buffer ++ flatten chunks)
        × (rx_content_length av (c'.contexts h) ≡ length content)
  unfolding make_callbacks flatten
  make_callbacks-delivers h [] [] c a b =
      (c, _, refl, sym (append-nil _), refl, sym (append-nil _), law.byte_count-length _)
  make_callbacks-delivers h [] (k ∷ chunks) c a (short, b) =
      let x : CallContext av = c.contexts h in
      let y : CallContext av = record x { avro_rx_buffer = av.write_bytes x.avro_rx_buffer k } in
      let now : update c.contexts h y h ≡ y = update_same c.contexts h y in
      let (c', content, e, headers, all, appended, size) =
        make_callbacks-delivers h [] chunks (with_context av h y c) a b in
      (
        c',
        content,
        rw (write_whole av k x short) e,
        headers ∙ ap (λ (z : CallContext av). z.rx_headers ++ []) now,
        all,
        appended
            ∙ (ap
                  (λ (z : CallContext av).
                    av.memory_input_stream z.avro_rx_buffer ++ flatten chunks)
                  now
                ∙ (ap (λ (s : Bytes). s ++ flatten chunks) (law.read_written x.avro_rx_buffer k)
                    ∙ append_assoc (av.memory_input_stream x.avro_rx_buffer) k (flatten chunks))),
        size,
      )
  make_callbacks-delivers h (l ∷ lines) chunks c (short, a) b =
      let x : CallContext av = c.contexts h in
      let y : CallContext av = record x { rx_headers = x.rx_headers ++ l ∷ [] } in
      let now : update c.contexts h y h ≡ y = update_same c.contexts h y in
      let (c', content, e, headers, all, appended, size) =
        make_callbacks-delivers h lines chunks (with_context av h y c) a b in
      (
        c',
        content,
        rw (header_whole av l x short) e,
        headers
            ∙ (ap (λ (z : CallContext av). z.rx_headers ++ lines) now
                ∙ append_assoc x.rx_headers (l ∷ []) lines),
        all,
        appended
            ∙ ap (λ (z : CallContext av). av.memory_input_stream z.avro_rx_buffer ++ flatten chunks)
                now,
        size,
      )
