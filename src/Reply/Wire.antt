-- ===== src/Reply/Wire.antt =====
-- The bytes that `reply_t::to_buffers` of csi_http/server/reply.cpp puts on the wire.
use csi_http.Base.{
  map_some, ap, >>=_of_some, eq_nil_of_length, append-nil, append_assoc, length, flatten, ◌++◌,
  Bytes, ℕ, List, some, zero, suc, refl, [], ◌∷◌, ◌≡◌,
}
use csi_http.Avro.{AvroMemory, IsAvroMemory, read_bytes, read_bytes_all}
use csi_http.Status.{StatusType}
use csi_http.Reply.Lines.{crlf, to_buffer}
use csi_http.Reply.{Header, Reply, header_buffers, v1_1, copy_content, to_buffers}

abbrev pub header_line : Header → Bytes
header_line h = h.name ++ (b':' ∷ b' ' ∷ (h.value ++ crlf))

abbrev pub header_lines : List Header → Bytes
header_lines [] = []
header_lines (h ∷ hs) = header_line h ++ header_lines hs

-- A response: the version and the status line, the headers, an empty line, the content.
abbrev pub wire : StatusType → List Header → Bytes → Bytes
wire status hs content = v1_1 ++ (to_buffer status ++ (header_lines hs ++ (crlf ++ content)))

flatten-header_buffers :
    (hs : List Header) (rest : List Bytes)
    → flatten (header_buffers hs ++ rest) ≡ header_lines hs ++ flatten rest
unfolding header_buffers flatten
flatten-header_buffers [] rest = refl
flatten-header_buffers (h ∷ hs) rest = rw (flatten-header_buffers hs rest) (simp append_assoc)

module _ (av : AvroMemory) (law : IsAvroMemory av) where
  copy_content-flatten :
      (n : ℕ) (r : Reply av) (s : av.Stream)
      → r.avro_tx_buffer ≡ some s
      → n ≡ length (av.memory_input_stream s)
      → (bufs : List Bytes) × (r' : Reply av) × (copy_content av n r ≡ some (bufs, r'))
        × (flatten bufs ≡ av.memory_input_stream s)
        × (r'.status ≡ r.status)
        × (r'.headers ≡ r.headers)
        × (r'.avro_tx_buffer ≡ some s)
  unfolding copy_content flatten
  copy_content-flatten zero r s e h = ([], r, refl, eq_nil_of_length _ h, refl, refl, e)
  copy_content-flatten (suc n) r s e h =
      let content : Bytes = av.memory_input_stream s in
      let all : read_bytes (suc n) content ≡ some (content, []) = rw h (read_bytes_all content) in
      (
        content ∷ [],
        record r { boost_tx_buffer = some content },
        rw e (rw all refl),
        append-nil content,
        refl,
        refl,
        e,
      )

  -- `to_buffers` of a reply that has a buffer does not fault, and its buffers hold, one after the
  -- other, the response with the reply's status, its headers in their order and its whole content.
  -- The status, the headers and the content of the reply stay as they are.
  pub to_buffers-wire :
      (r : Reply av) (s : av.Stream)
      → r.avro_tx_buffer ≡ some s
      → (bufs : List Bytes) × (r' : Reply av) × (to_buffers av r ≡ some (bufs, r'))
        × (flatten bufs ≡ wire r.status r.headers (av.memory_input_stream s))
        × (r'.status ≡ r.status)
        × (r'.headers ≡ r.headers)
        × (r'.avro_tx_buffer ≡ some s)
  unfolding to_buffers flatten
  to_buffers-wire r s e =
      let (bufs, r', run, flat, st, hs, buf) =
        copy_content-flatten (av.byte_count s) r s e (law.byte_count-length s) in
      (
        v1_1 ∷ to_buffer r.status ∷ header_buffers r.headers ++ crlf ∷ bufs,
        r',
        >>=_of_some _ _ (ap (map_some av.byte_count) e) (>>=_of_some _ _ run refl),
        rw (flatten-header_buffers r.headers (crlf ∷ bufs), flat) refl,
        st,
        hs,
        buf,
      )
