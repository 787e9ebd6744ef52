-- ===== src/Connection/Runs.antt =====
-- Runs of callbacks of csi_http/server/connection.cpp in which each of them returns 0.
use csi_http.Base.{
  drop, arith, ◌≤◌, ◌∙◌, append-nil, ◌+◌, sym, leb, append_assoc, take, >>=_of_some, Option, ◌++◌,
  ap, ℕ, length, List, Bytes, true, none, some, suc, refl, [], ◌∷◌, ◌≡◌,
}
use csi_http.Externals.{Externals, Event}
use csi_http.Connection.{Connection, append_part, call_back, run_callbacks}

module _ (ex : Externals) where
  -- The events take one state to another, and all their callbacks return 0.
  abbrev pub Runs : List Event → Connection ex → Connection ex → Type 0
  Runs es c c' =
      (k : ℕ) (more : List Event)
      → (j : ℕ) × (run_callbacks ex k (es ++ more) c ≡ run_callbacks ex j more c')

  pub Runs-nil : (c : Connection ex) → Runs [] c c
  Runs-nil c k more = (k, refl)

  pub Runs-cons :
      (e : Event) (es : List Event) (c d c' : Connection ex)
      → call_back ex e c ≡ some (d, 0)
      → Runs es d c'
      → Runs (e ∷ es) c c'
  unfolding run_callbacks
  Runs-cons e es c d c' step rest k more =
      let (j, later) = rest (suc k) more in (j, >>=_of_some _ _ step later)

  pub Runs-append :
      (es fs : List Event) (c d c' : Connection ex)
      → Runs es c d
      → Runs fs d c'
      → Runs (es ++ fs) c c'
  Runs-append es fs c d c' first second k more =
      let (i, a) = first k (fs ++ more) in
      let (j, b) = second i more in
      (j, ap (λ (l : List Event). run_callbacks ex k l c) (append_assoc es fs more) ∙ a ∙ b)

  pub Runs-run :
      (es : List Event) (c c' : Connection ex)
      → Runs es c c'
      → run_callbacks ex 0 es c ≡ some (c', none)
  unfolding run_callbacks
  Runs-run es c c' r =
      let (j, e) = r 0 [] in
      ap (λ (l : List Event). run_callbacks ex 0 l c) (sym (append-nil es)) ∙ e

  -- The part of a URL that the URL parser points to.
  abbrev pub part : Bytes → Option (ℕ × ℕ) → Bytes
  part at none = []
  part at (some (off, len)) = take len (drop off at)

  abbrev pub InRange : Bytes → Option (ℕ × ℕ) → Type 0
  InRange at none = Unit {0}
  InRange at (some (off, len)) = off + len ≤ length at

  pub append_part-empty :
      (at : Bytes) (p : Option (ℕ × ℕ)) → InRange at p → append_part ex [] at p ≡ some (part at p)
  unfolding append_part
  append_part-empty at none h = refl
  append_part-empty at (some (off, len)) h =
      let room : leb (off + len) (length at) ≡ true = ground arith in rw room refl
