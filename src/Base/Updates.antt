-- ===== src/Base/Updates.antt =====
-- Functions on numbers that are changed at one place.
use Prim.Native.Nat.{ℕ}
use mathlib.Core.Path.{◌≡◌}
use mathlib.Core.Bool.{true, false}
use mathlib.Core.Logic.{◌⊎◌, ◌≢◌, inl, inr}
use native.Mathlib.Omega.{arith}
use csi_http.Base.Tests.{◌==◌, if◌then◌else◌, Bool-cases}

module _ {ℓ} {A : Type ℓ} where
  abbrev pub update : (ℕ → A) → ℕ → A → ℕ → A
  update f k v i = if i == k then v else f i

  pub update_same : (f : ℕ → A) (k : ℕ) (v : A) → update f k v k ≡ v
  update_same f k v = let e : (k == k) ≡ true = ground arith in rw e

  pub update_other : (f : ℕ → A) (k i : ℕ) (v : A) → i ≢ k → update f k v i ≡ f i
  update_other f k i v n = let e : (i == k) ≡ false = ground arith in rw e

  -- The value at a place is the new one there, and the old one elsewhere.
  pub update-cases :
      (f : ℕ → A) (k : ℕ) (v : A) (i : ℕ)
      → ((i ≡ k) × (update f k v i ≡ v)) ⊎ ((i ≢ k) × (update f k v i ≡ f i))
  update-cases f k v i = elim (Bool-cases (i == k)) [
    | inl e ↦ inl (ground arith, rw e)
    | inr e ↦ inr (λ h. ground arith, rw e)
  ]
