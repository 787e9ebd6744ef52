-- ===== src/Server/Tests.antt =====
-- A table of two handlers, and uses of the theorems. A connection is its URL and its status.
use csi_http.Base.{
  none, ◌^◌, ◌⊎◌, arith, ◌%◌, some, ◌∷◌, ◌+◌, [], map, List, Bytes, ℕ, codes, Option, text_eq, ◌≡◌,
  refl,
}
use csi_http.Boost.Model.{split_slash, split_slash-IsSplit}
use csi_http.Uri.{of_parts, uri_pattern, match, compare_parts}
use csi_http.Uri.Matching.{level, same, done}
use csi_http.Server.{HandlerData, add_handler, handle_request, get_no_of_requests, every_pattern}
use csi_http.Server.Routing.{
  Route, stored, Serves, Uncovered, handle_request-Serves, handle_request-add_handler,
}
use csi_http.Server.Counting.{
  CountOf, total, handle_request-total, get_no_of_requests-CountOf, get_no_of_requests_default,
}

abbrev Conn : Type 0
Conn = Bytes × ℕ

abbrev url : Conn → Bytes
url c = c.0

abbrev answer : ℕ → List Bytes → Conn → Conn
answer status parts c = (c.0, status)

abbrev not_found : Conn → Conn
not_found c = (c.0, 404)

abbrev routes : List (Route Conn)
routes =
    record { levels = codes "a" ∷ codes "+" ∷ []; handler = answer 200; count = 7 }
    ∷ record { levels = codes "a" ∷ codes "#" ∷ []; handler = answer 201; count = 9 }
    ∷ []

table : List (HandlerData Conn)
table =
    add_handler split_slash (add_handler split_slash [] (codes "a/+") (answer 200) 7) (codes "a/#")
      (answer 201) 9

table_test : table ≡ map stored routes
unfolding table add_handler uri_pattern of_parts split_slash text_eq
table_test = refl

status_of : Option (List (HandlerData Conn) × Conn) → ℕ
status_of none = 0
status_of (some (hs, c)) = c.1

handle_request_tests :
    (status_of (handle_request split_slash url not_found table (codes "a/b", 0)) ≡ 200)
    × (status_of (handle_request split_slash url not_found table (codes "a/b/c", 0)) ≡ 201)
    × (status_of (handle_request split_slash url not_found table (codes "b", 0)) ≡ 404)
    × (get_no_of_requests split_slash table (codes "a/b") ≡ some 16)
    × (get_no_of_requests split_slash table every_pattern ≡ some 0)
unfolding table add_handler uri_pattern of_parts split_slash text_eq handle_request status_of match
    compare_parts get_no_of_requests
handle_request_tests = (refl, refl, refl, refl, refl)

handle_request-Serves_example :
    (rs' : List (Route Conn)) × (c' : Conn) × (handle_request split_slash url not_found
        (map stored routes)
        (codes "a/b", 0)
      ≡ some (map stored rs', c'))
    × Serves not_found (split_slash (codes "a/b")) (codes "a/b", 0) routes rs' c'
handle_request-Serves_example =
    handle_request-Serves split_slash url not_found routes (codes "a/b", 0)

covered : ¬ Uncovered routes (split_slash (codes "a/b"))
unfolding split_slash
covered a = a.0 (same refl (level refl done))

after : List (HandlerData Conn)
after = map stored (
    record { levels = codes "a" ∷ codes "+" ∷ []; handler = answer 200; count = 8 }
    ∷ record { levels = codes "a" ∷ codes "#" ∷ []; handler = answer 201; count = 9 }
    ∷ [])

served :
    handle_request split_slash url not_found (map stored routes) (codes "a/b", 0)
    ≡ some (after, (codes "a/b", 200))
unfolding after of_parts split_slash text_eq handle_request match compare_parts
served = refl

handle_request-add_handler_example :
    handle_request split_slash url not_found
      (add_handler split_slash (map stored routes) (codes "a/b") (answer 500) 0)
      (codes "a/b", 0)
    ≡ some (add_handler split_slash after (codes "a/b") (answer 500) 0, (codes "a/b", 200))
handle_request-add_handler_example =
    handle_request-add_handler split_slash url not_found routes after (codes "a/b", 0)
      (codes "a/b", 200) (codes "a/b") (answer 500) 0 covered served

handle_request-total_example :
    ((total after ≡ total (map stored routes) + 1) × ¬ Uncovered routes (split_slash (codes "a/b")))
    ⊎ ((after ≡ map stored routes)
        × (◌≡◌ {A = Conn} (codes "a/b", 200) (codes "a/b", 404))
        × Uncovered routes (split_slash (codes "a/b")))
handle_request-total_example =
    handle_request-total split_slash url not_found routes (codes "a/b", 0) (codes "a/b", 200) after
      (omega arith) served

get_no_of_requests-CountOf_example :
    (n : ℕ) × (get_no_of_requests split_slash (map stored routes) (codes "a/b") ≡ some (n % 2 ^ 64))
    × CountOf (split_slash (codes "a/b")) routes n
get_no_of_requests-CountOf_example = get_no_of_requests-CountOf split_slash routes (codes "a/b")

get_no_of_requests_default_example :
    get_no_of_requests split_slash (map stored routes) every_pattern ≡ some 0
get_no_of_requests_default_example =
    get_no_of_requests_default split_slash routes split_slash-IsSplit (ground arith)
