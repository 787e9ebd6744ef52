-- ===== src/Boost/Model.antt =====
-- An instance of what is assumed of boost: a cut at each slash.
use csi_http.Base.{
  ◌∙◌, inr, arith, ap, false, inl, ◌==◌, refl, [], subst, if◌then◌else◌, Bool-cases, ◌∷◌, All, List,
  ℕ, Bytes, ◌≡◌,
}
use csi_http.Boost.{IsSplit, NoSlash, join, slash}

-- A byte goes to the front of the first part.
abbrev push_first : ℕ → List Bytes → List Bytes
push_first c [] = (c ∷ []) ∷ []
push_first c (x ∷ xs) = (c ∷ x) ∷ xs

unfoldable pub split_slash : Bytes → List Bytes
split_slash [] = [] ∷ []
split_slash (c ∷ s) = if c == slash then [] ∷ split_slash s else push_first c (split_slash s)

split_slash-cons : (s : Bytes) → (x : Bytes) × (xs : List Bytes) × (split_slash s ≡ x ∷ xs)
unfolding split_slash
split_slash-cons [] = ([], [], refl)
split_slash-cons (c ∷ s) = elim (Bool-cases (c == slash)) [
  | inl e ↦ ([], split_slash s, rw e)
  | inr n ↦ let (x, xs, e) = split_slash-cons s in (c ∷ x, xs, rw n (rw e))
]

join-push_first : (c : ℕ) (x : Bytes) (xs : List Bytes) → join ((c ∷ x) ∷ xs) ≡ c ∷ join (x ∷ xs)
join-push_first c x [] = refl
join-push_first c x (y ∷ xs) = refl

join-split_slash : (s : Bytes) → join (split_slash s) ≡ s
unfolding split_slash
join-split_slash [] = refl
join-split_slash (c ∷ s) =
    let (x, xs, e) = split_slash-cons s in
    let ih : join (x ∷ xs) ≡ s = subst (λ ps. join ps ≡ s) e (join-split_slash s) in
    elim (Bool-cases (c == slash)) [
      | inl h ↦ rw (h, e) (ap (λ (t : Bytes). slash ∷ t) ih ∙ ap (λ (d : ℕ). d ∷ s) (ground arith))
      | inr n ↦ rw (n, e) (join-push_first c x xs ∙ ap (λ (t : Bytes). c ∷ t) ih)
    ]

split_slash-NoSlash : (s : Bytes) → All NoSlash (split_slash s)
unfolding split_slash
split_slash-NoSlash [] = (tt, tt)
split_slash-NoSlash (c ∷ s) =
    let (x, xs, e) = split_slash-cons s in
    let ih : All NoSlash (x ∷ xs) = subst (All NoSlash) e (split_slash-NoSlash s) in
    elim (Bool-cases (c == slash)) [
      | inl h ↦ rw (h, e) (tt, ih)
      | inr n ↦ rw (n, e) ((ground arith, ih.0), ih.1)
    ]

split_slash_whole : (s : Bytes) → NoSlash s → split_slash s ≡ s ∷ []
unfolding split_slash
split_slash_whole [] h = refl
split_slash_whole (c ∷ s) h =
    let n : (c == slash) ≡ false = ground arith in rw n (rw (split_slash_whole s h.1))

pub split_slash-IsSplit : IsSplit split_slash
split_slash-IsSplit = record {
  join-split = join-split_slash;
  split-NoSlash = split_slash-NoSlash;
  split_whole = split_slash_whole;
}
