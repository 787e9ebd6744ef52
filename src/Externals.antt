-- ===== src/Externals.antt =====
-- The libraries that the server uses and that are not part of the program: avro's memory streams,
-- boost's uuids and string algorithms, and http_parser. The model takes them as one argument;
-- `IsExternals` is what their documentation promises.
pub mod Model
use csi_http.Base.{
  length, ◌++◌, List, All, ◌≢◌, Option, Bytes, Bool, ℕ, true, none, some, [], ◌∷◌, ◌≡◌,
}
use csi_http.Boost.{IsSplit}
use csi_http.Avro.{AvroMemory, IsAvroMemory}

-- A callback of http_parser, with the arguments that the program reads.
pub data Event : Type 0 where
  message_begin : Event
  url header_field header_value body : Bytes → Event
  headers_complete : ℕ → ℕ → Event
  message_complete : Bool → Event

-- `http_parser_parse_url`: its return value, and offset and length of the parts that it found.
pub record ParsedUrl : Type 0 where
  pub result : ℕ
  pub path : Option (ℕ × ℕ)
  pub query : Option (ℕ × ℕ)

pub record Externals : Type 1 where
  pub avro : AvroMemory
  pub Uuid : Type 0
  pub nil_uuid : Uuid
  pub is_nil : Uuid → Bool
  -- `none` is an exception.
  pub string_generator : Bytes → Option Uuid
  pub uuid_to_string : Uuid → Bytes
  pub iequals : Bytes → Bytes → Bool
  -- In place, on a `char` array.
  pub to_lower : Bytes → Bytes
  pub split : Bytes → List Bytes
  pub parse_url : Bytes → ParsedUrl
  pub Parser : Type 0
  pub parser_init : Parser
  -- The callbacks that a parser makes for some bytes, in their order; the bytes that it accepts and
  -- its next state, if all of them return 0, and if the one at a position does not.
  pub events : Parser → Bytes → List Event
  pub parsed : Parser → Bytes → ℕ
  pub advance : Parser → Bytes → Parser
  pub parsed_until : ℕ → Parser → Bytes → ℕ
  pub advance_until : ℕ → Parser → Bytes → Parser

abbrev pub NoNul : Bytes → Type 0
NoNul = All λ c. c ≢ 0

pub record IsExternals (ex : Externals) (lower : Bytes → Bytes) : Type 0 where
  pub avro_laws : IsAvroMemory ex.avro
  pub split_laws : IsSplit ex.split
  pub nil_is_nil : ex.is_nil ex.nil_uuid ≡ true
  pub uuid_text : (u : ex.Uuid) → ex.string_generator (ex.uuid_to_string u) ≡ some u
  pub uuid_text_not_empty : (u : ex.Uuid) → ex.uuid_to_string u ≢ []
  -- `to_lower` goes as far as the array's text does, and keeps what is behind its end.
  pub to_lower_text : (t rest : Bytes) → NoNul t → ex.to_lower (t ++ 0 ∷ rest) ≡ lower t ++ 0 ∷ rest
  pub lower-NoNul : (t : Bytes) → NoNul t → NoNul (lower t)
  pub length-lower : (t : Bytes) → length (lower t) ≡ length t
