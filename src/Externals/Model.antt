-- ===== src/Externals/Model.antt =====
-- An instance of the libraries: ASCII texts, numbers for uuids, and a parser whose state is the list
-- of callbacks that are still to come, one read's worth at a time.
use csi_http.Base.{
  ◌+◌, ◌&&◌, ◌==◌, leb, length, arith, ◌≢◌, ◌++◌, Option, map, replicate, ap, Bool, if◌then◌else◌,
  Bytes, text_eq, List, ℕ, false, none, some, zero, suc, refl, [], ◌∷◌, ◌≡◌,
}
use csi_http.Boost.Model.{split_slash, split_slash-IsSplit}
use csi_http.Avro.Model.{list_avro, list_avro-IsAvroMemory}
use csi_http.Externals.{Event, ParsedUrl, Externals, IsExternals, NoNul}

unfoldable pub lower_char : ℕ → ℕ
lower_char c = if leb b'A' c && leb c b'Z' then c + 32 else c

abbrev pub lower : Bytes → Bytes
lower = map lower_char

-- Up to the first NUL.
unfoldable pub lower_text : Bytes → Bytes
unfolding lower_char
lower_text [] = []
lower_text (c ∷ s) = let rest = lower_text s in if c == 0 then c ∷ s else lower_char c ∷ rest

unfoldable pub lower_equal : Bytes → Bytes → Bool
unfolding text_eq lower_char
lower_equal s t = text_eq (lower s) (lower t)

-- A number in unary: as many bytes as the number, and one.
unfoldable pub unary : ℕ → Bytes
unary n = b'#' ∷ replicate n b'1'

unfoldable pub read_unary : Bytes → Option ℕ
read_unary [] = none
read_unary (c ∷ s) = if c == b'#' then some (length s) else none

-- The whole text is the path.
abbrev whole_path : Bytes → ParsedUrl
whole_path s = record { result = 0; path = some (0, length s); query = none }

abbrev first_read : List (List Event × Bool) → List Event
first_read [] = []
first_read ((es, ok) ∷ later) = es

abbrev first_parsed : List (List Event × Bool) → Bytes → ℕ
first_parsed [] s = 0
first_parsed ((es, ok) ∷ later) s = if ok then length s else 0

abbrev later_reads : List (List Event × Bool) → List (List Event × Bool)
later_reads [] = []
later_reads (r ∷ later) = later

-- The parser of the given reads: for each the callbacks, and whether the bytes are accepted.
abbrev pub scripted : List (List Event × Bool) → Externals
scripted script = record {
  avro = list_avro;
  Uuid = ℕ;
  nil_uuid = 0;
  is_nil = λ u. u == 0;
  string_generator = read_unary;
  uuid_to_string = unary;
  iequals = lower_equal;
  to_lower = lower_text;
  split = split_slash;
  parse_url = whole_path;
  Parser = List (List Event × Bool);
  parser_init = script;
  events = λ p s. first_read p;
  parsed = first_parsed;
  advance = λ p s. later_reads p;
  parsed_until = λ k p s. 0;
  advance_until = λ k p s. [];
}

pub length-replicate : (n c : ℕ) → length (replicate n c) ≡ n
length-replicate zero c = refl
length-replicate (suc n) c = ap suc (length-replicate n c)

read_unary-unary : (n : ℕ) → read_unary (unary n) ≡ some n
unfolding read_unary unary
read_unary-unary n = ap some (length-replicate n b'1')

unary_not_empty : (n : ℕ) → unary n ≢ []
unfolding unary
unary_not_empty n e = cc

lower_text-lower : (t rest : Bytes) → NoNul t → lower_text (t ++ 0 ∷ rest) ≡ lower t ++ 0 ∷ rest
unfolding lower_text
lower_text-lower [] rest h = refl
lower_text-lower (c ∷ t) rest h =
    let live : (c == 0) ≡ false = ground arith in
    rw live (ap (λ (s : Bytes). lower_char c ∷ s) (lower_text-lower t rest h.1))

lower-NoNul : (t : Bytes) → NoNul t → NoNul (lower t)
unfolding lower_char
lower-NoNul [] h = tt
lower-NoNul (c ∷ t) h = (ground arith, lower-NoNul t h.1)

length-lower : (t : Bytes) → length (lower t) ≡ length t
length-lower [] = refl
length-lower (c ∷ t) = ap suc (length-lower t)

pub scripted-IsExternals : (script : List (List Event × Bool)) → IsExternals (scripted script) lower
scripted-IsExternals script = record {
  avro_laws = list_avro-IsAvroMemory;
  split_laws = split_slash-IsSplit;
  nil_is_nil = refl;
  uuid_text = read_unary-unary;
  uuid_text_not_empty = unary_not_empty;
  to_lower_text = lower_text-lower;
  lower-NoNul = lower-NoNul;
  length-lower = length-lower;
}
