-- ===== src/Base/Decimal.antt =====
-- `%d` of printf and the reading of a decimal number, as the C library has them.
use Prim.Native.Nat.{ℕ, zero, suc, ◌+◌, ◌*◌, ◌/◌, ◌%◌, ◌<◌, ◌-◌, ◌^◌}
use mathlib.Core.Path.{◌≡◌, ap, ◌∙◌, sym, subst}
use mathlib.Core.Bool.{Bool, true, false, ◌&&◌}
use mathlib.Core.Logic.{inl, inr, ◌⊎◌}
use mathlib.Core.List.{[], ◌∷◌}
use native.Mathlib.Omega.{arith}
use csi_http.Base.Tests.{ltb, leb, ltb→lt, lt→ltb, Bool-cases, if◌then◌else◌}
use csi_http.Base.Lists.{All}
use csi_http.Base.Text.{Bytes}

-- The last digit goes in front of those that are there; a number falls by its division by ten, so
-- fuel above the number is enough.
decimal_from : ℕ → ℕ → Bytes → Bytes
decimal_from zero n acc = acc
decimal_from (suc fuel) n acc =
    let rest = decimal_from fuel (n / 10) ((b'0' + n % 10) ∷ acc) in
    if ltb n 10 then (b'0' + n) ∷ acc else rest

unfoldable pub decimal : ℕ → Bytes
unfolding decimal_from
decimal n = decimal_from (suc n) n []

-- `printf("%d", (int)n)`: the number wraps to 32 bits, and the upper half is negative.
unfoldable pub print_int : ℕ → Bytes
unfolding decimal
print_int n =
    let w = n % 2 ^ 32 in if ltb w (2 ^ 31) then decimal w else b'-' ∷ decimal (2 ^ 32 - w)

-- The number that a row of digits stands for, read from the left.
abbrev pub value_from : ℕ → Bytes → ℕ
value_from v [] = v
value_from v (d ∷ ds) = value_from (10 * v + (d - b'0')) ds

abbrev pub is_digit : ℕ → Bool
is_digit d = leb b'0' d && leb d b'9'

abbrev pub IsDigits : Bytes → Type 0
IsDigits = All λ d. is_digit d ≡ true

value_from-decimal_from :
    (fuel n : ℕ) (acc : Bytes)
    → n < fuel
    → value_from 0 (decimal_from fuel n acc) ≡ value_from n acc
unfolding decimal_from
value_from-decimal_from zero n acc h = elim h [ ]
value_from-decimal_from (suc fuel) n acc h = elim (Bool-cases (ltb n 10)) [
  | inl small ↦ rw small (ap (λ v. value_from v acc) (omega arith))
  | inr big ↦ rw big (
      value_from-decimal_from fuel (n / 10) ((b'0' + n % 10) ∷ acc) (ground arith)
      ∙ ap (λ v. value_from v acc) (omega arith))
]

pub value_from-decimal : (n : ℕ) → value_from 0 (decimal n) ≡ n
unfolding decimal
value_from-decimal n = value_from-decimal_from (suc n) n [] (omega arith)

is_digit_add : (n : ℕ) → n < 10 → is_digit (b'0' + n) ≡ true
is_digit_add n h = ground arith

decimal_from-IsDigits :
    (fuel n : ℕ) (acc : Bytes) → IsDigits acc → IsDigits (decimal_from fuel n acc)
unfolding decimal_from
decimal_from-IsDigits zero n acc h = h
decimal_from-IsDigits (suc fuel) n acc h = elim (Bool-cases (ltb n 10)) [
  | inl small ↦ rw small (is_digit_add n (ltb→lt n 10 small), h)
  | inr big ↦ rw big (
      decimal_from-IsDigits fuel (n / 10) ((b'0' + n % 10) ∷ acc)
        (is_digit_add (n % 10) (omega arith), h))
]

pub decimal-IsDigits : (n : ℕ) → IsDigits (decimal n)
unfolding decimal
decimal-IsDigits n = decimal_from-IsDigits (suc n) n [] tt

-- In the range of `int` the print is the plain decimal number.
pub print_int_of_lt : (n : ℕ) → n < 2 ^ 31 → print_int n ≡ decimal n
unfolding print_int
print_int_of_lt n h = let e : n % 2 ^ 32 ≡ n = omega arith in rw e (rw (lt→ltb n (2 ^ 31) h))

abbrev signed : ℕ → Bytes
signed w = if ltb w (2 ^ 31) then decimal w else b'-' ∷ decimal (2 ^ 32 - w)

-- Beyond it the print is the number of another or has a sign.
pub print_int-eq-decimal : (n : ℕ) → print_int n ≡ decimal n → n < 2 ^ 31
unfolding print_int
print_int-eq-decimal n e = go (Bool-cases (ltb w (2 ^ 31))) e
  where
    w : ℕ
    w = n % 2 ^ 32

    go : (ltb w (2 ^ 31) ≡ true) ⊎ (ltb w (2 ^ 31) ≡ false) → signed w ≡ decimal n → n < 2 ^ 31
    go (inl small) e =
        let same : decimal w ≡ decimal n = rw small at e in
        let value : w ≡ n =
          sym (value_from-decimal w) ∙ (ap (λ b. value_from 0 b) same ∙ value_from-decimal n) in
        let l = ltb→lt w (2 ^ 31) small in omega arith
    go (inr big) e =
        let signs : b'-' ∷ decimal (2 ^ 32 - w) ≡ decimal n = rw big at e in
        let digits = subst IsDigits (sym signs) (decimal-IsDigits n) in absurd (cc (digits.0))
