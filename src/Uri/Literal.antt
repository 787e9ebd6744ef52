-- ===== src/Uri/Literal.antt =====
-- Patterns of csi_http/utils/uri_pattern.cpp with no wildcard.
use csi_http.Base.{All, ◌∙◌, sym, ◌↔◌, ◌≢◌, subst, ◌≡◌, refl, ap, true, some, List, [], ◌∷◌, Bytes}
use csi_http.Boost.{IsSplit, join}
use csi_http.Uri.{uri_pattern, hash, plus, match}
use csi_http.Uri.Matching.{
  Matches, done, rest, level, same, Decides, Decides-true, match-uri_pattern,
}

-- No part is a wildcard.
abbrev pub IsLiteral : List Bytes → Type 0
IsLiteral = All λ p. (p ≢ hash) × (p ≢ plus)

Matches-eq_of_literal : (ps xs : List Bytes) → IsLiteral ps → Matches ps xs → ps ≡ xs
Matches-eq_of_literal [] _ l done = refl
Matches-eq_of_literal (p ∷ []) _ l (rest e) = absurd (l.0.0 e)
Matches-eq_of_literal (p ∷ ps) (x ∷ xs) l (level e m) = absurd (l.0.1 e)
Matches-eq_of_literal (p ∷ ps) (x ∷ xs) l (same e m) = cc (e, Matches-eq_of_literal ps xs l.1 m)

Matches-self : (ps : List Bytes) → Matches ps ps
Matches-self [] = done
Matches-self (p ∷ ps) = same refl (Matches-self ps)

-- A pattern with no wildcard covers one text only, its own, if `split` cuts at slashes.
uri_pattern_literal :
    (split : Bytes → List Bytes) (s t : Bytes)
    → IsSplit split
    → IsLiteral (split s)
    → (match (uri_pattern split s) (split t) ≡ some true) ↔ (s ≡ t)
uri_pattern_literal split s t law l =
    let d = match-uri_pattern split s (split t) in
    (
      λ e.
          let same_parts =
            Matches-eq_of_literal (split s) (split t) l
              (subst (Decides (Matches (split s) (split t))) e d) in
          sym (law.join-split s) ∙ ap join same_parts ∙ law.join-split t,
      λ e. Decides-true d (subst (λ u. Matches (split s) (split u)) e (Matches-self (split s))),
    )
