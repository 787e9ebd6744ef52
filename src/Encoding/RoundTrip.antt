-- ===== src/Encoding/RoundTrip.antt =====
-- A value that `avro_raw_binary_encode` of csi_http/encoding writes into a buffer comes back.
use csi_http.Base.{
  append-nil, subst, leb, take-append_length, arith, length-drop, ◌-◌, length-append, ◌+◌, take,
  drop, ◌≤◌, le-or-lt, ◌++◌, ◌∙◌, if◌then◌else◌, ◌<◌, ◌⊎◌, ℕ, Option, ap, ◌≡◌, Bytes, Bool, true,
  false, none, some, refl, inl, inr, [], length,
}
use csi_http.Avro.{AvroMemory, IsAvroMemory, read_bytes_all}
use csi_http.Encoding.{
  Codec, IsCodec, avro_raw_binary_encode, avro_raw_binary_encode_buffer,
  avro_raw_binary_decode_buffer,
}

-- What a buffer holds after a shorter text was copied to its start.
take-overwritten :
    (code buffer : Bytes)
    → length code ≤ length buffer
    → (length (code ++ drop (length code) buffer) ≡ length buffer)
      × (take (length code) (code ++ drop (length code) buffer) ≡ code)
take-overwritten code buffer fits =
    let split : length (code ++ drop (length code) buffer)
        ≡ length code + length (drop (length code) buffer) =
      length-append code (drop (length code) buffer) in
    let left : length (drop (length code) buffer) ≡ length buffer - length code =
      length-drop (length code) buffer in
    (omega arith, take-append_length code (drop (length code) buffer))

module _ (av : AvroMemory) (law : IsAvroMemory av) where
  -- What is written to an empty stream is what it holds.
  pub write_bytes-empty :
      (dst : av.Stream) (b : Bytes)
      → av.memory_input_stream dst ≡ []
      → av.memory_input_stream (av.write_bytes dst b) ≡ b
  write_bytes-empty dst b fresh = law.read_written dst b ∙ ap (λ (s : Bytes). s ++ b) fresh

module _ (av : AvroMemory) (law : IsAvroMemory av) (T : Type 0) where
  -- A value that is encoded into a buffer whose size is given as its capacity: where the encoding fits, its
  -- size is returned, the buffer keeps its size, and what is decoded from so much of it is the value.
  -- Where it does not fit, nothing is written and the result is 0, or the assertion fails.
  pub avro_raw_binary_encode_buffer-decode :
      (binary : Codec T) (ndebug : Bool) (v : T) (buffer : Bytes)
      → IsCodec T binary
      → (r : Option (Bytes × ℕ)) × (avro_raw_binary_encode_buffer av T ndebug binary v buffer
            (length buffer)
          ≡ r)
        × (((written : Bytes) × (r ≡ some (written, length (binary.encode v)))
              × (length written ≡ length buffer)
              × (avro_raw_binary_decode_buffer av T binary written (length (binary.encode v))
                  ≡ some v))
            ⊎ ((length buffer < length (binary.encode v))
                × (r ≡ (if ndebug then some (buffer, 0) else none))))
  unfolding avro_raw_binary_encode_buffer avro_raw_binary_encode avro_raw_binary_decode_buffer
  avro_raw_binary_encode_buffer-decode binary ndebug v buffer codec =
      let code : Bytes = binary.encode v in
      let n : ℕ = length code in
      let os : av.Stream = av.write_bytes av.memory_output_stream code in
      let content : av.memory_input_stream os ≡ code =
        law.read_written av.memory_output_stream code
        ∙ ap (λ (s : Bytes). s ++ code) law.read_empty in
      let size : av.byte_count os ≡ n =
        law.byte_count-length os ∙ ap (λ (s : Bytes). length s) content in
      elim (le-or-lt n (length buffer)) [
        | inl fits ↦
            let fits_test : leb n (length buffer) ≡ true = ground arith in
            let (long, start) = take-overwritten code buffer fits in
            let written : Bytes = code ++ drop n buffer in
            let fits_written : leb n (length written) ≡ true = rw long fits_test in
            let decoded : binary.decode code ≡ some v =
              subst (λ (s : Bytes). binary.decode s ≡ some v) (append-nil code)
                (codec.decode-encode v []) in
            (
              some (written, n),
              rw (size, content, fits_test) (rw (read_bytes_all code) refl),
              inl (written, refl, long, rw (fits_written, start) decoded),
            )
        | inr over ↦
            let over_test : leb n (length buffer) ≡ false = ground arith in
            (if ndebug then some (buffer, 0) else none, rw (size, over_test) refl, inr (over, refl))
      ]
