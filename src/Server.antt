-- ===== src/Server.antt =====
-- csi_http/server/server.h: the table of handlers that both servers share. The connection type is a
-- template parameter there and a parameter here, with the two operations that the table uses.
pub mod Routing
pub mod Counting
mod Tests
use csi_http.Base.{
  map_some, ℕ, ◌+◌, ◌%◌, ◌^◌, Bool, true, false, Option, none, some, List, [], ◌∷◌, ◌++◌, Bytes,
  codes,
}
use csi_http.Uri.{UriPattern, uri_pattern, match}

-- The counter of a handler is a `uint64_t`.
abbrev pub u64_mod : ℕ
u64_mod = 2 ^ 64

pub record HandlerData (Conn : Type 0) : Type 0 where
  pub pattern : UriPattern
  pub handler : List Bytes → Conn → Conn
  pub nr_of_requests : ℕ

module _ {Conn : Type 0} where
  -- The constructor sets the pattern and the handler. It leaves the counter as it finds it, so its
  -- first value is an argument.
  unfoldable pub handler_data :
      (Bytes → List Bytes) → Bytes → (List Bytes → Conn → Conn) → ℕ → HandlerData Conn
  handler_data split pattern h uninitialised = record {
    pattern = uri_pattern split pattern;
    handler = h;
    nr_of_requests = uninitialised;
  }

  unfoldable pub add_handler :
      (Bytes → List Bytes)
      → List (HandlerData Conn)
      → Bytes
      → (List Bytes → Conn → Conn)
      → ℕ
      → List (HandlerData Conn)
  unfolding handler_data
  add_handler split handlers pattern p uninitialised =
      handlers ++ handler_data split pattern p uninitialised ∷ []

  -- `handler_data::call`, under its lock.
  unfoldable pub call : HandlerData Conn → List Bytes → Conn → HandlerData Conn × Conn
  call h uri c = (record h { nr_of_requests = (h.nr_of_requests + 1) % u64_mod }, h.handler uri c)

  abbrev pub keep_first :
      HandlerData Conn → List (HandlerData Conn) × Conn → List (HandlerData Conn) × Conn
  keep_first h (hs, c) = (h ∷ hs, c)

  -- The loop of `handle_request`. `none` is a read out of bounds in `match`.
  unfoldable pub dispatch :
      (Conn → Conn)
      → List (HandlerData Conn)
      → List Bytes
      → Conn
      → Option (List (HandlerData Conn) × Conn)
  unfolding call
  dispatch not_found [] parts c = some ([], not_found c)
  dispatch not_found (h ∷ hs) parts c =
      let rest = dispatch not_found hs parts c in
      elim (match h.pattern parts) [
        | none ↦ none
        | some true ↦ let (h', c') = call h parts c in some (h' ∷ hs, c')
        | some false ↦ map_some (keep_first h) rest
      ]

  -- `not_found` is `connection->reply().create(csi::http::not_found)`.
  unfoldable pub handle_request :
      (Bytes → List Bytes)
      → (Conn → Bytes)
      → (Conn → Conn)
      → List (HandlerData Conn)
      → Conn
      → Option (List (HandlerData Conn) × Conn)
  unfolding dispatch
  handle_request split url not_found handlers c = dispatch not_found handlers (split (url c)) c

  -- The loop of `get_no_of_requests`, which adds up in a `uint64_t`.
  unfoldable pub sum_requests : List (HandlerData Conn) → List Bytes → ℕ → Option ℕ
  sum_requests [] parts result = some result
  sum_requests (h ∷ hs) parts result = elim (match h.pattern parts) [
    | none ↦ none
    | some true ↦ sum_requests hs parts ((result + h.nr_of_requests) % u64_mod)
    | some false ↦ sum_requests hs parts result
  ]

  unfoldable pub get_no_of_requests :
      (Bytes → List Bytes) → List (HandlerData Conn) → Bytes → Option ℕ
  unfolding sum_requests
  get_no_of_requests split handlers pattern = sum_requests handlers (split pattern) 0

-- The default argument of `get_no_of_requests`.
abbrev pub every_pattern : Bytes
every_pattern = codes "#"
