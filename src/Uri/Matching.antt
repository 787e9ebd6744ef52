-- ===== src/Uri/Matching.antt =====
-- Matching decides the wildcard relation that the comment in csi_http/server/server.h describes.
use csi_http.Base.{
  ◌-◌, sym, ◌↔◌, ◌≢◌, get_elem?, ◌++◌, subst, ◌≤◌, ◌<◌, ◌≡◌, refl, ap, ◌⊎◌, inl, inr, Bool, true,
  false, Option, none, some, List, [], ◌∷◌, Bytes, text_eq, text_eq_iff, length, arith, Bool-cases,
  ◌==◌, ltb, leb,
}
use csi_http.Uri.{uri_pattern, is_text, hash, plus, pop_back, of_parts, compare_parts, match}

-- `+` stands for one level and a last `#` for one or more; any other part stands for itself.
pub data Matches : List Bytes → List Bytes → Type 0 where
  done : Matches [] []
  rest : {p x : Bytes} {xs : List Bytes} → p ≡ hash → Matches (p ∷ []) (x ∷ xs)
  level : {p x : Bytes} {ps xs : List Bytes} → p ≡ plus → Matches ps xs → Matches (p ∷ ps) (x ∷ xs)
  same : {p x : Bytes} {ps xs : List Bytes} → p ≡ x → Matches ps xs → Matches (p ∷ ps) (x ∷ xs)

-- The verdict on a pattern and a path, with its proof; a read out of bounds is no verdict.
abbrev pub Decides : Type 0 → Option Bool → Type 0
Decides P none = ⊥
Decides P (some true) = P
Decides P (some false) = ¬ P

-- The loop's own condition: each of the pattern's parts is `+` or equals the part beside it.
abbrev Agrees : List Bytes → List Bytes → Type 0
Agrees [] xs = Unit
Agrees (p ∷ ps) [] = ⊥
Agrees (p ∷ ps) (x ∷ xs) = ((p ≡ plus) ⊎ (p ≡ x)) × Agrees ps xs

-- A verdict carries over to an equivalent statement.
Decides-iff : (P Q : Type 0) (r : Option Bool) → P ↔ Q → Decides P r → Decides Q r
Decides-iff P Q none e d = d
Decides-iff P Q (some true) e d = e.0 d
Decides-iff P Q (some false) e d = λ q. d (e.1 q)

compare_parts-Decides :
    (ps xs : List Bytes) → length ps ≤ length xs → Decides (Agrees ps xs) (compare_parts ps xs)
unfolding compare_parts
compare_parts-Decides [] xs h = tt
compare_parts-Decides (p ∷ ps) [] h = absurd (omega arith)
compare_parts-Decides (p ∷ ps) (x ∷ xs) h =
    let tail = compare_parts-Decides ps xs (omega arith) in
    elim (Bool-cases (text_eq p plus)) [
      | inl wild ↦ rw wild (
          Decides-iff _ (Agrees (p ∷ ps) (x ∷ xs)) (compare_parts ps xs)
            (λ a. (inl ((text_eq_iff p plus).0 wild), a), λ a. a.1) tail)
      | inr tame ↦ elim (Bool-cases (text_eq p x)) [
        | inl equal ↦
            rw (tame, equal)
              (Decides-iff _ (Agrees (p ∷ ps) (x ∷ xs)) (compare_parts ps xs)
                (λ a. (inr ((text_eq_iff p x).0 equal), a), λ a. a.1) tail)
        | inr other ↦
            rw (tame, other)
              (λ a. elim a.0 [
                | inl e ↦ cc ((text_eq_iff p plus).1 e)
                | inr e ↦ cc ((text_eq_iff p x).1 e)
              ])
      ]
    ]

Matches-tail :
    {p q x : Bytes} {ps xs : List Bytes}
    → Matches (p ∷ q ∷ ps) (x ∷ xs)
    → ((p ≡ plus) ⊎ (p ≡ x)) × Matches (q ∷ ps) xs
Matches-tail (level e m) = (inl e, m)
Matches-tail (same e m) = (inr e, m)

Agrees-Matches : (ps xs : List Bytes) → length ps ≡ length xs → Agrees ps xs → Matches ps xs
Agrees-Matches [] [] h a = done
Agrees-Matches [] (x ∷ xs) h a = absurd (omega arith)
Agrees-Matches (p ∷ ps) (x ∷ xs) h (inl e, a) = level e (Agrees-Matches ps xs (omega arith) a)
Agrees-Matches (p ∷ ps) (x ∷ xs) h (inr e, a) = same e (Agrees-Matches ps xs (omega arith) a)
Agrees-Matches (p ∷ ps) [] h a = elim a [ ]

-- The last part is not `#`.
abbrev HasNoHash : List Bytes → Type 0
HasNoHash [] = Unit
HasNoHash (p ∷ []) = p ≢ hash
HasNoHash (p ∷ q ∷ ps) = HasNoHash (q ∷ ps)

Matches-Agrees :
    (ps xs : List Bytes) → HasNoHash ps → Matches ps xs → (length ps ≡ length xs) × Agrees ps xs
Matches-Agrees [] _ n done = (refl, tt)
Matches-Agrees (p ∷ []) _ n (rest e) = absurd (n e)
Matches-Agrees (p ∷ []) (x ∷ _) n (level e done) = (refl, (inl e, tt))
Matches-Agrees (p ∷ []) (x ∷ _) n (same e done) = (refl, (inr e, tt))
Matches-Agrees (p ∷ q ∷ ps) (x ∷ xs) n m =
    let (head, tail) = Matches-tail m in
    let (len, a) = Matches-Agrees (q ∷ ps) xs n tail in (omega arith, (head, a))
Matches-Agrees (p ∷ q ∷ ps) [] n m = elim m [ ]

Agrees-Matches-hash :
    (ps xs : List Bytes) → length ps < length xs → Agrees ps xs → Matches (ps ++ hash ∷ []) xs
Agrees-Matches-hash [] [] h a = absurd (omega arith)
Agrees-Matches-hash [] (x ∷ xs) h a = rest refl
Agrees-Matches-hash (p ∷ ps) [] h a = elim a [ ]
Agrees-Matches-hash (p ∷ ps) (x ∷ xs) h (inl e, a) =
    level e (Agrees-Matches-hash ps xs (omega arith) a)
Agrees-Matches-hash (p ∷ ps) (x ∷ xs) h (inr e, a) =
    same e (Agrees-Matches-hash ps xs (omega arith) a)

Matches-Agrees-hash :
    (ps xs : List Bytes) → Matches (ps ++ hash ∷ []) xs → (length ps < length xs) × Agrees ps xs
Matches-Agrees-hash [] [] m = elim m [ ]
Matches-Agrees-hash [] (x ∷ xs) m = (omega arith, tt)
Matches-Agrees-hash (p ∷ []) (x ∷ xs) m =
    let (head, tail) = Matches-tail m in
    let (len, a) = Matches-Agrees-hash [] xs tail in (omega arith, (head, a))
Matches-Agrees-hash (p ∷ q ∷ ps) (x ∷ xs) m =
    let (head, tail) = Matches-tail m in
    let (len, a) = Matches-Agrees-hash (q ∷ ps) xs tail in (omega arith, (head, a))
Matches-Agrees-hash (p ∷ []) [] m = elim m [ ]
Matches-Agrees-hash (p ∷ q ∷ ps) [] m = elim m [ ]

last_hash-cases :
    (p : Bytes) (ps : List Bytes)
    → ((is_text (get_elem? (p ∷ ps) (length ps)) hash ≡ true)
        × (p ∷ ps ≡ pop_back (p ∷ ps) ++ hash ∷ []))
      ⊎ ((is_text (get_elem? (p ∷ ps) (length ps)) hash ≡ false) × HasNoHash (p ∷ ps))
last_hash-cases p [] = elim (Bool-cases (text_eq p hash)) [
  | inl e ↦ inl (e, ap (λ (x : Bytes). x ∷ []) ((text_eq_iff p hash).0 e))
  | inr n ↦ inr (n, λ e. cc ((text_eq_iff p hash).1 e))
]
last_hash-cases p (q ∷ ps) = elim (last_hash-cases q ps) [
  | inl (e, cut) ↦ inl (e, ap (◌∷◌ p) cut)
  | inr (e, n) ↦ inr (e, n)
]

-- The constructor cuts a last `#` off, and remembers it.
pub of_parts-cases :
    (ps : List Bytes)
    → ((of_parts ps ≡ record { parts = pop_back ps; catch_all = true })
        × (ps ≡ pop_back ps ++ hash ∷ []))
      ⊎ ((of_parts ps ≡ record { parts = ps; catch_all = false }) × HasNoHash ps)
unfolding of_parts
of_parts-cases [] = inr (refl, tt)
of_parts-cases (p ∷ ps) =
    let e : length (p ∷ ps) - 1 ≡ length ps = omega arith in
    rw e (elim (last_hash-cases p ps) [
      | inl (h, cut) ↦ inl (rw h (ground arith), cut)
      | inr (h, n) ↦ inr (rw h (ground arith), n)
    ])

match-Agrees :
    (ps xs : List Bytes)
    → Decides
        ((length ps ≡ length xs) × Agrees ps xs)
        (match (record { parts = ps; catch_all = false }) xs)
unfolding match
match-Agrees ps xs = elim (Bool-cases (ltb (length xs) (length ps))) [
  | inl less ↦ rw less (λ a. ground arith)
  | inr more ↦ elim (Bool-cases (length ps == length xs)) [
    | inl equal ↦
        let e : length ps ≡ length xs = ground arith in
        rw (more, equal)
          (Decides-iff (Agrees ps xs) ((length ps ≡ length xs) × Agrees ps xs) (compare_parts ps xs)
            (λ a. (e, a), λ a. a.1) (compare_parts-Decides ps xs (omega arith)))
    | inr other ↦ rw (more, other) (λ a. ground arith)
  ]
]

match-Agrees_hash :
    (ps xs : List Bytes)
    → Decides
        ((length ps < length xs) × Agrees ps xs)
        (match (record { parts = ps; catch_all = true }) xs)
unfolding match
match-Agrees_hash ps xs = elim (Bool-cases (ltb (length xs) (length ps))) [
  | inl less ↦ rw less (λ a. ground arith)
  | inr more ↦ elim (Bool-cases (leb (length xs) (length ps))) [
    | inl le ↦ rw (more, le) (λ a. ground arith)
    | inr gt ↦
        let e : length ps < length xs = ground arith in
        rw (more, gt)
          (Decides-iff (Agrees ps xs) ((length ps < length xs) × Agrees ps xs) (compare_parts ps xs)
            (λ a. (e, a), λ a. a.1) (compare_parts-Decides ps xs (omega arith)))
  ]
]

-- `match` reads no part that is not there, and answers `true` exactly for the paths that the
-- pattern's relation holds of.
pub match-of_parts : (ps xs : List Bytes) → Decides (Matches ps xs) (match (of_parts ps) xs)
match-of_parts ps xs = elim (of_parts-cases ps) [
  | inl (e, cut) ↦ rw e (
      Decides-iff _ _ _
        (
          λ a. subst (λ qs. Matches qs xs) (sym cut) (Agrees-Matches-hash (pop_back ps) xs a.0 a.1),
          λ m. Matches-Agrees-hash (pop_back ps) xs (subst (λ qs. Matches qs xs) cut m),
        )
        (match-Agrees_hash (pop_back ps) xs))
  | inr (e, n) ↦ rw e (
      Decides-iff _ _ _ (λ a. Agrees-Matches ps xs a.0 a.1, λ m. Matches-Agrees ps xs n m)
        (match-Agrees ps xs))
]

-- What a verdict is once the statement is known.
pub Decides-true : {P : Type 0} {r : Option Bool} → Decides P r → P → r ≡ some true
Decides-true {r = none} d p = absurd d
Decides-true {r = some true} d p = refl
Decides-true {r = some false} d p = absurd (d p)

pub Decides-false : {P : Type 0} {r : Option Bool} → Decides P r → ¬ P → r ≡ some false
Decides-false {r = none} d n = absurd d
Decides-false {r = some true} d n = absurd (n d)
Decides-false {r = some false} d n = refl

-- For the pattern of a text and any path: `match` reads no part that is not there, and it answers
-- `true` if the pattern's levels, a last `#` and every `+` taken as wildcards, cover the path, and
-- `false` if they do not.
pub match-uri_pattern :
    (split : Bytes → List Bytes) (str : Bytes) (parts : List Bytes)
    → Decides (Matches (split str) parts) (match (uri_pattern split str) parts)
unfolding uri_pattern
match-uri_pattern split str parts = match-of_parts (split str) parts
