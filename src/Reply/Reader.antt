-- ===== src/Reply/Reader.antt =====
-- How a client reads a response off the wire: a reader of HTTP/1.1 responses that is independent of
-- csi_http/server/reply.cpp, to state what that file writes. It reads lines that end in CR LF, the
-- headers up to an empty line, and as much content as the first Content-Length says.
use csi_http.Base.{
  drop-append_length, take-append_length, drop, take, length-append, leb, true, sym, ap, value_from,
  ◌∙◌, append_assoc, >>=_of_some, ◌>>=◌, ◌&&◌, map_some, ◌<◌, length, text_eq, ◌==◌, if◌then◌else◌,
  Option, arith, All-append, ◌≢◌, List, ℕ, All, Bytes, ◌++◌, none, some, zero, suc, refl, [], ◌∷◌,
  ◌≡◌,
}
use csi_http.Reply.{Header, codes}
use csi_http.Reply.Codes.{NoBreak}
use csi_http.Reply.Lines.{crlf}
use csi_http.Reply.Wire.{header_line, header_lines}

abbrev push : {B : Type 0} → ℕ → Bytes × B → Bytes × B
push c (s, b) = (c ∷ s, b)

-- A line and what follows its end.
pub read_line : Bytes → Option (Bytes × Bytes)
read_line [] = none
read_line (c ∷ []) = none
read_line (c ∷ d ∷ s) =
    let rest = read_line (d ∷ s) in
    if c == b'\r' && d == b'\n' then some ([], s) else map_some (push c) rest

-- The text before the colon and the text behind it.
read_name : Bytes → Option (Bytes × Bytes)
read_name [] = none
read_name (c ∷ s) =
    let rest = read_name s in if c == b':' then some ([], s) else map_some (push c) rest

-- One space in front of the value is not part of it.
skip_space : Bytes → Bytes
skip_space [] = []
skip_space (c ∷ s) = if c == b' ' then s else c ∷ s

read_header : Bytes → Option Header
unfolding read_name skip_space
read_header line = do
  parts ← read_name line
  some (record { name = parts.0; value = skip_space parts.1 })

-- The headers up to an empty line, on fuel: one step for each header and one for the empty line.
pub read_headers : ℕ → Bytes → Option (List Header × Bytes)
unfolding read_line read_header
read_headers zero s = none
read_headers (suc fuel) s = do
  line ← read_line s
  elim line.0 [
    | [] ↦ some ([], line.1)
    | c ∷ cs ↦
        read_header (c ∷ cs) >>= λ h. read_headers fuel line.1 >>= λ more. some (h ∷ more.0, more.1)
  ]

unfoldable pub find_header : Bytes → List Header → Option Bytes
find_header name [] = none
find_header name (h ∷ hs) = if text_eq h.name name then some h.value else find_header name hs

pub record Response : Type 0 where
  pub first_line : Bytes
  pub headers : List Header
  pub content : Bytes
  pub rest : Bytes

split_content : Bytes → List Header → ℕ → Bytes → Option Response
split_content line hs n s =
    if leb n (length s)
    then some (record { first_line = line; headers = hs; content = take n s; rest = drop n s })
    else none

pub read_response : ℕ → Bytes → Option Response
unfolding read_headers find_header split_content
read_response fuel s = do
  line ← read_line s
  head ← read_headers fuel line.1
  size ← find_header (codes "Content-Length") head.0
  split_content line.0 head.0 (value_from 0 size) head.1

-- A header that a reader can take apart again: no colon or line break in the name, and no line break
-- in the value.
abbrev pub IsSendable : Header → Type 0
IsSendable h = All (λ c. c ≢ b':') h.name × NoBreak h.name × NoBreak h.value

pub read_line-crlf :
    (line rest : Bytes) → NoBreak line → read_line (line ++ (crlf ++ rest)) ≡ some (line, rest)
unfolding read_line
read_line-crlf [] rest h = refl
read_line-crlf (c ∷ []) rest h = ground (arith, read_line-crlf [] rest tt)
read_line-crlf (c ∷ d ∷ s) rest h = ground (arith, read_line-crlf (d ∷ s) rest h.1)

read_name-colon :
    (name value : Bytes)
    → All (λ c. c ≢ b':') name
    → read_name (name ++ b':' ∷ value) ≡ some (name, value)
unfolding read_name
read_name-colon [] value h = refl
read_name-colon (c ∷ s) value h = ground (arith, read_name-colon s value h.1)

read_header-line :
    (h : Header) → IsSendable h → read_header (h.name ++ b':' ∷ b' ' ∷ h.value) ≡ some h
unfolding read_header skip_space
read_header-line h s = rw (read_name-colon h.name (b' ' ∷ h.value) s.0) refl

NoBreak-line : (h : Header) → IsSendable h → NoBreak (h.name ++ b':' ∷ b' ' ∷ h.value)
NoBreak-line h s = All-append _ h.name (b':' ∷ b' ' ∷ h.value) s.1 (omega arith, (omega arith, s.2))

header_line-text :
    (h : Header) (rest : Bytes)
    → header_line h ++ rest ≡ (h.name ++ b':' ∷ b' ' ∷ h.value) ++ (crlf ++ rest)
header_line-text h rest = simp append_assoc

append-cons_cases :
    (name : Bytes) (b : ℕ) (t : Bytes) → (c : ℕ) × (cs : Bytes) × (name ++ b ∷ t ≡ c ∷ cs)
append-cons_cases [] b t = (b, t, refl)
append-cons_cases (c ∷ cs) b t = (c, cs ++ b ∷ t, refl)

-- The reader gives back the headers that were written, and what follows the empty line.
pub read_headers-lines :
    (fuel : ℕ) (hs : List Header) (rest : Bytes)
    → All IsSendable hs
    → length hs < fuel
    → read_headers fuel (header_lines hs ++ (crlf ++ rest)) ≡ some (hs, rest)
unfolding read_headers
read_headers-lines zero hs rest s lt = absurd (omega arith)
read_headers-lines (suc fuel) [] rest s lt = refl
read_headers-lines (suc fuel) (h ∷ hs) rest s lt =
    let text : Bytes = h.name ++ b':' ∷ b' ' ∷ h.value in
    let more : Bytes = header_lines hs ++ (crlf ++ rest) in
    let (c, cs, cut) = append-cons_cases h.name b':' (b' ' ∷ h.value) in
    let shape : header_lines (h ∷ hs) ++ (crlf ++ rest) ≡ text ++ (crlf ++ more) =
      append_assoc (header_line h) (header_lines hs) (crlf ++ rest) ∙ header_line-text h more in
    let first : read_line (header_lines (h ∷ hs) ++ (crlf ++ rest)) ≡ some (c ∷ cs, more) =
      ap read_line shape
      ∙ read_line-crlf text more (NoBreak-line h s.0)
      ∙ ap (λ (t : Bytes). some (t, more)) cut in
    let head : read_header (c ∷ cs) ≡ some h = ap read_header (sym cut) ∙ read_header-line h s.0 in
    >>=_of_some _ _ first (
      >>=_of_some _ _ head
        (>>=_of_some _ _ (read_headers-lines fuel hs rest s.1 (omega arith)) refl))

split_content-append :
    (line : Bytes) (hs : List Header) (content rest : Bytes)
    → split_content line hs (length content) (content ++ rest)
      ≡ some (record { first_line = line; headers = hs; content = content; rest = rest })
unfolding split_content
split_content-append line hs content rest =
    let fits : leb (length content) (length (content ++ rest)) ≡ true =
      ground (arith, length-append content rest) in
    rw (fits, take-append_length content rest, drop-append_length content rest) refl

-- A response is read as its line, its headers and its content, if its first Content-Length gives the
-- length of the content.
pub read_response-wire :
    (fuel : ℕ) (line : Bytes) (hs : List Header) (size content rest : Bytes)
    → NoBreak line
    → All IsSendable hs
    → length hs < fuel
    → find_header (codes "Content-Length") hs ≡ some size
    → value_from 0 size ≡ length content
    → read_response fuel (line ++ (crlf ++ (header_lines hs ++ (crlf ++ (content ++ rest)))))
      ≡ some (record { first_line = line; headers = hs; content = content; rest = rest })
unfolding read_response
read_response-wire fuel line hs size content rest clean sendable enough found fits =
    >>=_of_some _ _ (read_line-crlf line _ clean) (
      >>=_of_some _ _ (read_headers-lines fuel hs (content ++ rest) sendable enough) (
        >>=_of_some _ _ found (
          ap (λ (n : ℕ). split_content line hs n (content ++ rest)) fits
          ∙ split_content-append line hs content rest)))
