-- ===== src/Reply/RoundTrip.antt =====
-- A client reads from the wire the reply that a handler made (csi_http/server/reply.cpp).
use csi_http.Base.{
  length-append, >>=_of_some, ap₃, ap, value_from, flatten, ◌≤◌, codes, ◌+◌, text_eq, print_int,
  length, zero, suc, append_assoc, ◌∙◌, append-nil, All-append, All, ◌>>=◌, sym, ◌^◌, decimal,
  arith, ◌++◌, IsDigits, Option, ◌<◌, ℕ, Bytes, List, some, refl, [], ◌∷◌, ◌≡◌, decimal-IsDigits,
  value_from-decimal, print_int_of_lt,
}
use csi_http.Avro.{AvroMemory, IsAvroMemory}
use csi_http.Status.{StatusType, of_code}
use csi_http.Reply.Codes.{NoBreak, status_line, wire_code, to_buffer-status_line}
use csi_http.Reply.Lines.{crlf, to_buffer}
use csi_http.Reply.Wire.{wire, header_lines, to_buffers-wire}
use csi_http.Reply.Reader.{IsSendable, find_header, read_response, read_response-wire}
use csi_http.Reply.Create.{content_headers, create_headers}
use csi_http.Reply.{Header, Reply, v1_1, reset, write_content, create, add, to_buffers}

module _ (av : AvroMemory) where
  abbrev pub add_all : List Header → Reply av → Reply av
  add_all [] r = r
  add_all (h ∷ hs) r = add_all hs (add av h r)

  -- What a handler does with a reply: it writes the content, sets the status and adds headers; and
  -- the connection turns the reply into buffers.
  abbrev pub answer :
      StatusType → Bytes → Bytes → List Header → Reply av → Option (List Bytes × Reply av)
  answer status content_type content hs r = do
    filled ← write_content av content (reset av r)
    made ← create av status content_type 0 filled
    to_buffers av (add_all hs made)

  add_all_lem :
      (hs : List Header) (r : Reply av)
      → ((add_all hs r).headers ≡ r.headers ++ hs)
        × ((add_all hs r).status ≡ r.status)
        × ((add_all hs r).avro_tx_buffer ≡ r.avro_tx_buffer)
  unfolding add
  add_all_lem [] r = (sym (append-nil r.headers), refl, refl)
  add_all_lem (h ∷ hs) r =
      let (a, b, c) = add_all_lem hs (add av h r) in (a ∙ append_assoc r.headers (h ∷ []) hs, b, c)

NoBreak-decimal : (s : Bytes) → IsDigits s → NoBreak s
NoBreak-decimal [] h = tt
NoBreak-decimal (c ∷ s) h = ((ground arith, ground arith), NoBreak-decimal s h.1)

NoBreak-line :
    (c : ℕ) (reason : Bytes) → NoBreak reason → NoBreak (v1_1 ++ (decimal c ++ b' ' ∷ reason))
NoBreak-line c reason h = All-append _ v1_1 (decimal c ++ b' ' ∷ reason) (omega arith) (
    All-append _ (decimal c) (b' ' ∷ reason) (NoBreak-decimal (decimal c) (decimal-IsDigits c))
      (omega arith, h))

NoBreak-print_int : (n : ℕ) → n < 2 ^ 31 → NoBreak (print_int n)
NoBreak-print_int n lt =
    rw (print_int_of_lt n lt) (NoBreak-decimal (decimal n) (decimal-IsDigits n))

content_headers-IsSendable :
    (content_type : Bytes) (n : ℕ)
    → NoBreak content_type
    → n < 2 ^ 31
    → All IsSendable (content_headers content_type n)
content_headers-IsSendable t zero h lt = omega arith
content_headers-IsSendable t (suc n) h lt =
    ((omega arith, omega arith, NoBreak-print_int (suc n) lt), ((omega arith, omega arith, h), tt))

content_headers-size :
    (content_type : Bytes) (n : ℕ) (hs : List Header)
    → n < 2 ^ 31
    → (size : Bytes) × (find_header (codes "Content-Length") (content_headers content_type n ++ hs)
        ≡ some size)
      × (value_from 0 size ≡ n)
unfolding find_header text_eq
content_headers-size t zero hs lt = (codes "0", refl, refl)
content_headers-size t (suc n) hs lt = (
  print_int (suc n),
  refl,
  ap (value_from 0) (print_int_of_lt (suc n) lt) ∙ value_from-decimal (suc n),
)

content_headers-length :
    (content_type : Bytes) (n : ℕ) → length (content_headers content_type n) ≤ 2
content_headers-length t zero = omega arith
content_headers-length t (suc n) = omega arith

wire-text :
    (status : StatusType) (c : ℕ) (reason : Bytes) (hs : List Header) (content rest : Bytes)
    → to_buffer status ≡ status_line c reason
    → wire status hs content ++ rest
      ≡ (v1_1 ++ (decimal c ++ b' ' ∷ reason))
        ++ (crlf ++ (header_lines hs ++ (crlf ++ (content ++ rest))))
wire-text status c reason hs content rest e = rw e (simp append_assoc)

module _ (av : AvroMemory) (law : IsAvroMemory av) where
  -- The reply once it is reset and written to.
  filled :
      (content : Bytes) (r : Reply av)
      → (r' : Reply av) × (s : av.Stream) × (write_content av content (reset av r) ≡ some r')
        × (r'.avro_tx_buffer ≡ some s)
        × (r'.headers ≡ [])
        × (av.memory_input_stream s ≡ content)
  unfolding write_content reset
  filled content r = (
    _,
    av.write_bytes av.memory_output_stream content,
    refl,
    refl,
    refl,
    law.read_written _ content ∙ ap (λ (b : Bytes). b ++ content) law.read_empty,
  )

  -- The reply of any status with any content below 2^31 bytes, and with headers that can be sent, goes
  -- to the wire without a fault, and a client reads it there whatever follows: the status line, the
  -- Content-Length and Content-Type headers and those that were added, and exactly the content. The
  -- code in the line is the status if it has a line of its own, and 500 if not.
  pub read_response-answer :
      (n fuel : ℕ) (content_type content rest : Bytes) (hs : List Header) (r : Reply av)
      → NoBreak content_type
      → All IsSendable hs
      → length content < 2 ^ 31
      → length hs + 2 < fuel
      → (bufs : List Bytes) × (r' : Reply av) × (reason : Bytes) × (answer av
            (of_code n)
            content_type
            content
            hs
            r
          ≡ some (bufs, r'))
        × (read_response fuel (flatten bufs ++ rest)
            ≡ some (record {
              first_line = v1_1 ++ (decimal (wire_code n) ++ b' ' ∷ reason);
              headers = content_headers content_type (length content) ++ hs;
              content = content;
              rest = rest;
            }))
  read_response-answer n fuel t content rest hs r clean sendable small enough =
      let (r1, s, run1, buf1, none1, same) = filled content r in
      let size : av.byte_count s ≡ length content = law.byte_count-length s ∙ ap length same in
      let (r2, run2, heads2, status2, buf2) = create_headers av (of_code n) t 0 r1 s buf1 in
      let (heads3, status3, buf3) = add_all_lem av hs r2 in
      let (bufs, r4, run4, flat, kept1, kept2, kept3) =
        to_buffers-wire av law (add_all av hs r2) s (buf3 ∙ buf2) in
      let (reason, line, one_line) = to_buffer-status_line n in
      let all_heads : List Header = content_headers t (length content) ++ hs in
      let heads : (add_all av hs r2).headers ≡ all_heads =
        heads3 ∙ ap (λ (l : List Header). l ++ hs) (heads2 ∙ ap (content_headers t) size) in
      let (value, found, fits) = content_headers-size t (length content) hs small in
      let bytes : flatten bufs ≡ wire (of_code n) all_heads content =
        flat ∙ ap₃ wire (status3 ∙ status2) heads same in
      (
        bufs,
        r4,
        reason,
        >>=_of_some _ _ run1 (>>=_of_some _ _ run2 run4),
        ap (read_response fuel) (
              ap (λ (b : Bytes). b ++ rest) bytes
              ∙ wire-text (of_code n) (wire_code n) reason all_heads content rest line)
            ∙ read_response-wire fuel _ all_heads value content rest
                (NoBreak-line (wire_code n) reason one_line)
                (All-append IsSendable _ hs
                  (content_headers-IsSendable t (length content) clean small) sendable)
                (omega (
                  arith,
                  length-append (content_headers t (length content)) hs,
                  content_headers-length t (length content),
                ))
                found fits,
      )
