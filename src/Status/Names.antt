-- ===== src/Status/Names.antt =====
-- The casts between numbers and enumerators of csi_http/csi_http.h, and the names that are printed.
use csi_http.Base.{
  ◌▸◌, subst, get_elem?, ◌<◌, Option, ◌≤◌, length, none, zero, if◌then◌else◌, some, text_eq, ==_iff,
  All, Bytes, suc, arith, ◌≢◌, ◌==◌, Bool-cases, ◌⊎◌, List, ℕ, refl, inl, inr, [], ◌∷◌, ◌≡◌,
}
use csi_http.Status.{
  StatusType, MethodT, code, of_code, find_code, all_statuses, number, of_number, find_number,
  all_methods, method_name, method_strings,
}

find_code_elim :
    (P : StatusType → Type 0) (n : ℕ) (ss : List StatusType)
    → All P ss
    → (All (λ t. code t ≢ n) ss → P (StatusType.unlisted n))
    → P (find_code n ss)
unfolding find_code
find_code_elim P n [] a other = other tt
find_code_elim P n (s ∷ ss) a other = elim (Bool-cases (code s == n)) [
  | inl e ↦ rw e a.0
  | inr d ↦
      rw d (
        find_code_elim P n ss a.1 (λ rest. other ((λ same. cc ((==_iff (code s) n).1 same)), rest)))
]

-- A statement about every cast holds if it holds of the enumerators and of the other values.
pub of_code_elim :
    (P : StatusType → Type 0)
    → All P all_statuses
    → ((n : ℕ) → All (λ t. code t ≢ n) all_statuses → P (StatusType.unlisted n))
    → (n : ℕ) → P (of_code n)
unfolding of_code
of_code_elim P a other n = find_code_elim P n all_statuses a (other n)

code-find_code : (n : ℕ) (ss : List StatusType) → code (find_code n ss) ≡ n
unfolding find_code code
code-find_code n [] = refl
code-find_code n (s ∷ ss) = elim (Bool-cases (code s == n)) [
  | inl e ↦ rw e ((==_iff (code s) n).0 e)
  | inr d ↦ rw d (code-find_code n ss)
]

-- A cast keeps the number, and the cast of an enumerator's number is the enumerator.
pub of_code_round_trip :
    ((n : ℕ) → code (of_code n) ≡ n) × All (λ s. of_code (code s) ≡ s) all_statuses
unfolding of_code code
of_code_round_trip = (λ n. code-find_code n all_statuses, all_refl)
  where
    all_refl : All (λ s. of_code (code s) ≡ s) all_statuses
    all_refl = search

find_number_elim :
    (P : MethodT → Type 0) (n : ℕ) (ms : List MethodT)
    → All P ms
    → (All (λ m. number m ≢ n) ms → P (MethodT.unlisted n))
    → P (find_number n ms)
unfolding find_number
find_number_elim P n [] a other = other tt
find_number_elim P n (m ∷ ms) a other = elim (Bool-cases (number m == n)) [
  | inl e ↦ rw e a.0
  | inr d ↦ rw d (
      find_number_elim P n ms a.1
        (λ rest. other ((λ same. cc ((==_iff (number m) n).1 same)), rest)))
]

-- Where a text stands in a table.
pub index_of : Bytes → List Bytes → ℕ
index_of t [] = 0
index_of t (s ∷ ss) = if text_eq t s then 0 else suc (index_of t ss)

get_elem?_of_le {ℓ} : {A : Type ℓ} (xs : List A) (i : ℕ) → length xs ≤ i → get_elem? xs i ≡ none
get_elem?_of_le [] i h = refl
get_elem?_of_le (x ∷ xs) zero h = absurd (omega arith)
get_elem?_of_le (x ∷ xs) (suc i) h = get_elem?_of_le xs i (omega arith)

number-find_number : (n : ℕ) (ms : List MethodT) → number (find_number n ms) ≡ n
unfolding find_number number
number-find_number n [] = refl
number-find_number n (m ∷ ms) = elim (Bool-cases (number m == n)) [
  | inl e ↦ rw e ((==_iff (number m) n).0 e)
  | inr d ↦ rw d (number-find_number n ms)
]

beyond : (n : ℕ) → All (λ m. number m ≢ n) all_methods → 26 ≤ n
unfolding number
beyond n h = omega arith

-- What the print of a method number can be.
abbrev Printed : ℕ → Option Bytes → Type 0
Printed n r =
    ((n < 26) × (t : Bytes) × (r ≡ some t) × (index_of t method_strings ≡ n))
    ⊎ ((26 ≤ n) × (r ≡ none))

name_index : All (λ m. Printed (number m) (method_name m)) all_methods
unfolding method_name index_of number text_eq
name_index =
    ((inl (omega arith, _, refl, refl))
      ▸ (inl (omega arith, _, refl, refl))
      ▸ (inl (omega arith, _, refl, refl))
      ▸ (inl (omega arith, _, refl, refl))
      ▸ (inl (omega arith, _, refl, refl))
      ▸ (inl (omega arith, _, refl, refl))
      ▸ (inl (omega arith, _, refl, refl))
      ▸ (inl (omega arith, _, refl, refl))
      ▸ (inl (omega arith, _, refl, refl))
      ▸ (inl (omega arith, _, refl, refl))
      ▸ (inl (omega arith, _, refl, refl))
      ▸ (inl (omega arith, _, refl, refl))
      ▸ (inl (omega arith, _, refl, refl))
      ▸ (inl (omega arith, _, refl, refl))
      ▸ (inl (omega arith, _, refl, refl))
      ▸ (inl (omega arith, _, refl, refl))
      ▸ (inl (omega arith, _, refl, refl))
      ▸ (inl (omega arith, _, refl, refl))
      ▸ (inl (omega arith, _, refl, refl))
      ▸ (inl (omega arith, _, refl, refl))
      ▸ (inl (omega arith, _, refl, refl))
      ▸ (inl (omega arith, _, refl, refl))
      ▸ (inl (omega arith, _, refl, refl))
      ▸ (inl (omega arith, _, refl, refl))
      ▸ (inl (omega arith, _, refl, refl))
      ▸ (inl (omega arith, _, refl, refl))
      ▸ tt)

unlisted_Printed :
    (n : ℕ)
    → All (λ m. number m ≢ n) all_methods
    → Printed (number (MethodT.unlisted n)) (method_name (MethodT.unlisted n))
unfolding method_name number
unlisted_Printed n h = let le = beyond n h in inr (le, get_elem?_of_le method_strings n le)

-- A method number below 26 prints as the text that stands at that place of the table of names, and at
-- no earlier place, so different numbers print differently; the print of any other number reads past
-- the end of the table.
method_name-Printed : (n : ℕ) → Printed n (method_name (of_number n))
unfolding of_number
method_name-Printed n =
    subst (λ k. Printed k (method_name (find_number n all_methods)))
      (number-find_number n all_methods)
      (find_number_elim (λ m. Printed (number m) (method_name m)) n all_methods name_index
        (unlisted_Printed n))
