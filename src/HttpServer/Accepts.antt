-- ===== src/HttpServer/Accepts.antt =====
-- The loop of accepts of csi_http/server/http_server.cpp.
use csi_http.Base.{
  arith, ◌∙◌, ap, ◌+◌, ◌≡◌, List, true, false, suc, refl, [], ◌∷◌, ℕ, Bool, length, length-append,
  if◌then◌else◌,
}
use csi_http.Externals.{Externals}
use csi_http.Connection.{Garbage}
use csi_http.Asio.{ErrorCode, success, operation_aborted, failure}
use csi_http.HttpConnection as HttpConnectionOps
use csi_http.HttpServer.{HttpServer, handle_accept, accepts}

-- How many accepts succeed before the first that does not.
abbrev pub first_successes : List (ErrorCode × Garbage) → ℕ
first_successes [] = 0
first_successes ((success, g) ∷ es) = suc (first_successes es)
first_successes ((operation_aborted, g) ∷ es) = 0
first_successes ((failure, g) ∷ es) = 0

abbrev pub all_succeed : List (ErrorCode × Garbage) → Bool
all_succeed [] = true
all_succeed ((success, g) ∷ es) = all_succeed es
all_succeed ((operation_aborted, g) ∷ es) = false
all_succeed ((failure, g) ∷ es) = false

module _ (ex : Externals) where
  stopped :
      (es : List (ErrorCode × Garbage)) (s : HttpServer ex)
      → s.accepting ≡ false
      → accepts ex es s ≡ s
  unfolding accepts
  stopped [] s e = refl
  stopped ((e, g) ∷ es) s off =
      ap (λ b. if b then accepts ex es (handle_accept ex e g s) else s) off

  halted :
      (e : ErrorCode) (g : Garbage) (es : List (ErrorCode × Garbage)) (s : HttpServer ex)
      → s.accepting ≡ true
      → (handle_accept ex e g s).accepting ≡ false
      → (handle_accept ex e g s).started ≡ s.started
      → (length (accepts ex ((e, g) ∷ es) s).started ≡ length s.started + 0)
        × ((accepts ex ((e, g) ∷ es) s).accepting ≡ false)
  unfolding accepts
  halted e g es s on off same =
      let d : HttpServer ex = handle_accept ex e g s in
      let r : accepts ex ((e, g) ∷ es) s ≡ d =
        ap (λ b. if b then accepts ex es d else s) on ∙ stopped es d off in
      (
        omega (arith, ap (λ (t : HttpServer ex). length t.started) r, ap length same),
        ap (λ (t : HttpServer ex). t.accepting) r ∙ off,
      )

  -- A server that has an accept pending starts one connection for every accept that succeeds, up to
  -- the first that fails. After that one it accepts no more.
  pub accepts-started :
      (es : List (ErrorCode × Garbage)) (s : HttpServer ex)
      → s.accepting ≡ true
      → (length (accepts ex es s).started ≡ length s.started + first_successes es)
        × ((accepts ex es s).accepting ≡ all_succeed es)
  unfolding accepts handle_accept
  accepts-started [] s on = (omega arith, on)
  accepts-started ((success, g) ∷ es) s on =
      let d : HttpServer ex = handle_accept ex success g s in
      let (n, k) = accepts-started es d refl in
      let e : accepts ex ((success, g) ∷ es) s ≡ accepts ex es d =
        ap (λ b. if b then accepts ex es d else s) on in
      let more : length d.started ≡ length s.started + 1 =
        length-append s.started (HttpConnectionOps.start ex s.new_connection ∷ []) in
      (
        omega (arith, n, more, ap (λ (t : HttpServer ex). length t.started) e),
        ap (λ (t : HttpServer ex). t.accepting) e ∙ k,
      )
  accepts-started ((operation_aborted, g) ∷ es) s on = halted operation_aborted g es s on refl refl
  accepts-started ((failure, g) ∷ es) s on = halted failure g es s on refl refl
