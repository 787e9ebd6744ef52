-- ===== src/Reply/Codes.antt =====
-- The status lines of csi_http/server/reply.cpp are well formed, and agree with the enumerators.
use csi_http.Base.{
  ◌▸◌, ◌||◌, ◌==◌, arith, subst, ◌≢◌, codes, ◌++◌, Bool, if◌then◌else◌, All, decimal, Bytes, List,
  ℕ, false, refl, [], ◌∷◌, ◌≡◌,
}
use csi_http.Status.{StatusType, code, of_code, all_statuses}
use csi_http.Status.Names.{of_code_elim, of_code_round_trip}
use csi_http.Reply.Lines.{crlf, to_buffer}

-- The status codes with a line of their own in the table.
abbrev pub codes_with_line : List ℕ
codes_with_line =
    200 ∷ 201 ∷ 202 ∷ 204 ∷ 300 ∷ 301 ∷ 302 ∷ 304 ∷ 400 ∷ 401 ∷ 403 ∷ 404 ∷ 412 ∷ 500 ∷ 501 ∷ 502
    ∷ 503 ∷ []

abbrev elem : ℕ → List ℕ → Bool
elem n [] = false
elem n (k ∷ ks) = k == n || elem n ks

abbrev pub has_line : ℕ → Bool
has_line n = elem n codes_with_line

elem-false : (n : ℕ) (ks : List ℕ) → All (λ k. k ≢ n) ks → elem n ks ≡ false
elem-false n [] h = refl
elem-false n (k ∷ ks) h = ground (arith, elem-false n ks h.1)

abbrev pub NoBreak : Bytes → Type 0
NoBreak = All λ c. (c ≢ b'\r') × (c ≢ b'\n')

-- The number of a status line, a space, a reason on one line, and the end of the line.
abbrev pub status_line : ℕ → Bytes → Bytes
status_line c reason = decimal c ++ (b' ' ∷ (reason ++ crlf))

-- The code that a reply with a given status carries on the wire.
abbrev pub wire_code : ℕ → ℕ
wire_code n = if has_line n then n else 500

abbrev HasLine : StatusType → Type 0
HasLine s =
    (reason : Bytes) × (to_buffer s ≡ status_line (wire_code (code s)) reason) × NoBreak reason

listed_HasLine : All HasLine all_statuses
unfolding to_buffer code decimal
listed_HasLine =
    ((codes "Internal Server Error", refl, omega arith)
      ▸ (codes "Internal Server Error", refl, omega arith)
      ▸ (codes "Internal Server Error", refl, omega arith)
      ▸ (codes "Internal Server Error", refl, omega arith)
      ▸ (codes "Internal Server Error", refl, omega arith)
      ▸ (codes "Internal Server Error", refl, omega arith)
      ▸ (codes "OK", refl, omega arith)
      ▸ (codes "Created", refl, omega arith)
      ▸ (codes "Accepted", refl, omega arith)
      ▸ (codes "Internal Server Error", refl, omega arith)
      ▸ (codes "No Content", refl, omega arith)
      ▸ (codes "Internal Server Error", refl, omega arith)
      ▸ (codes "Internal Server Error", refl, omega arith)
      ▸ (codes "Internal Server Error", refl, omega arith)
      ▸ (codes "Internal Server Error", refl, omega arith)
      ▸ (codes "Internal Server Error", refl, omega arith)
      ▸ (codes "Multiple Choices", refl, omega arith)
      ▸ (codes "Moved Permanently", refl, omega arith)
      ▸ (codes "Moved Temporarily", refl, omega arith)
      ▸ (codes "Internal Server Error", refl, omega arith)
      ▸ (codes "Not Modified", refl, omega arith)
      ▸ (codes "Internal Server Error", refl, omega arith)
      ▸ (codes "Internal Server Error", refl, omega arith)
      ▸ (codes "Internal Server Error", refl, omega arith)
      ▸ (codes "Internal Server Error", refl, omega arith)
      ▸ (codes "Bad Request", refl, omega arith)
      ▸ (codes "Unauthorized", refl, omega arith)
      ▸ (codes "Forbidden", refl, omega arith)
      ▸ (codes "Not Found", refl, omega arith)
      ▸ (codes "Precondition Failed", refl, omega arith)
      ▸ (codes "Internal Server Error", refl, omega arith)
      ▸ (codes "Not Implemented", refl, omega arith)
      ▸ (codes "Bad Gateway", refl, omega arith)
      ▸ (codes "Service Unavailable", refl, omega arith)
      ▸ tt)

unlisted_no_line : (n : ℕ) → All (λ t. code t ≢ n) all_statuses → has_line n ≡ false
unfolding code
unlisted_no_line n h = elem-false n codes_with_line (
    h.1.1.1.1.1.1.0 ▸ h.1.1.1.1.1.1.1.0 ▸ h.1.1.1.1.1.1.1.1.0 ▸ h.1.1.1.1.1.1.1.1.1.1.0
    ▸ h.1.1.1.1.1.1.1.1.1.1.1.1.1.1.1.1.0 ▸ h.1.1.1.1.1.1.1.1.1.1.1.1.1.1.1.1.1.0
    ▸ h.1.1.1.1.1.1.1.1.1.1.1.1.1.1.1.1.1.1.0 ▸ h.1.1.1.1.1.1.1.1.1.1.1.1.1.1.1.1.1.1.1.1.0
    ▸ h.1.1.1.1.1.1.1.1.1.1.1.1.1.1.1.1.1.1.1.1.1.1.1.1.1.0
    ▸ h.1.1.1.1.1.1.1.1.1.1.1.1.1.1.1.1.1.1.1.1.1.1.1.1.1.1.0
    ▸ h.1.1.1.1.1.1.1.1.1.1.1.1.1.1.1.1.1.1.1.1.1.1.1.1.1.1.1.0
    ▸ h.1.1.1.1.1.1.1.1.1.1.1.1.1.1.1.1.1.1.1.1.1.1.1.1.1.1.1.1.0
    ▸ h.1.1.1.1.1.1.1.1.1.1.1.1.1.1.1.1.1.1.1.1.1.1.1.1.1.1.1.1.1.0
    ▸ h.1.1.1.1.1.1.1.1.1.1.1.1.1.1.1.1.1.1.1.1.1.1.1.1.1.1.1.1.1.1.0
    ▸ h.1.1.1.1.1.1.1.1.1.1.1.1.1.1.1.1.1.1.1.1.1.1.1.1.1.1.1.1.1.1.1.0
    ▸ h.1.1.1.1.1.1.1.1.1.1.1.1.1.1.1.1.1.1.1.1.1.1.1.1.1.1.1.1.1.1.1.1.0
    ▸ h.1.1.1.1.1.1.1.1.1.1.1.1.1.1.1.1.1.1.1.1.1.1.1.1.1.1.1.1.1.1.1.1.1.0 ▸ tt)

unlisted_HasLine : (n : ℕ) → All (λ t. code t ≢ n) all_statuses → HasLine (StatusType.unlisted n)
unfolding to_buffer code decimal
unlisted_HasLine n h = rw (unlisted_no_line n h) (codes "Internal Server Error", refl, omega arith)

-- Whatever number a status has, its line is one line: the decimal code, a space, a reason with no
-- line break, and CR LF. The code is the status itself if it is one of the seventeen of the table,
-- and 500 for every other status.
pub to_buffer-status_line :
    (n : ℕ)
    → (reason : Bytes) × (to_buffer (of_code n) ≡ status_line (wire_code n) reason) × NoBreak reason
to_buffer-status_line n =
    subst
      (λ k.
        (reason : Bytes) × (to_buffer (of_code n) ≡ status_line (wire_code k) reason)
        × NoBreak reason)
      (of_code_round_trip.0 n) (of_code_elim HasLine listed_HasLine unlisted_HasLine n)
