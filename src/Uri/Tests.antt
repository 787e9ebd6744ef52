-- ===== src/Uri/Tests.antt =====
-- Patterns and paths of the comment in csi_http/server/server.h, and uses of the theorems.
use csi_http.Base.{false, Bool, true, Option, some, String, text_eq, codes, ◌≡◌, refl}
use csi_http.Boost.Model.{split_slash}
use csi_http.Uri.{of_parts, uri_pattern, match, compare_parts}
use csi_http.Uri.Matching.{Matches, Decides, match-uri_pattern}

abbrev covers : String → String → Option Bool
covers pattern path = match (uri_pattern split_slash (codes pattern)) (split_slash (codes path))

covers_tests :
    (covers "a/b/+" "a/b/c" ≡ some true)
    × (covers "a/#" "a/b/c" ≡ some true)
    × (covers "#" "a/b/c" ≡ some true)
    × (covers "+/+/+" "a/b/c" ≡ some true)
    × (covers "a/b" "a/b/c" ≡ some false)
    × (covers "+/b" "a/b/c" ≡ some false)
    × (covers "a/b/d" "a/b/c" ≡ some false)
    × (covers "a/b/#" "a/b" ≡ some false)
unfolding match uri_pattern compare_parts of_parts split_slash text_eq
covers_tests = (refl, refl, refl, refl, refl, refl, refl, refl)

match-uri_pattern_example :
    Decides
      (Matches (split_slash (codes "a/+")) (split_slash (codes "a/b")))
      (match (uri_pattern split_slash (codes "a/+")) (split_slash (codes "a/b")))
match-uri_pattern_example = match-uri_pattern split_slash (codes "a/+") (split_slash (codes "a/b"))
