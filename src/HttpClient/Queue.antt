-- ===== src/HttpClient/Queue.antt =====
-- The order of what the io_service has to run for the client of csi_http/client/http_client.cpp: nothing
-- uses a socket after its delete.
use csi_http.Base.{
  update, map, ◌++◌, if_both, Bool-cases, ◌==◌, ◌≡◌, Bool, List, ℕ, Option, true, false, none, some,
  refl, inl, inr, [], ◌∷◌,
}
use csi_http.Asio.{success, operation_aborted}
use csi_http.HttpClient.Sockets.{
  Wait, Task, socket_cb, delete_socket, call_poll_remove, call_perform, call_timer_cb,
  call_keepalivetimer_cb,
}

abbrev pub IsSome {ℓ} : {A : Type ℓ} → Option A → Type 0
IsSome none = ⊥
IsSome (some a) = Unit

-- A task run when the given sockets have been deleted uses none of them, and has its context.
abbrev pub Safe : (ℕ → Bool) → Task → Type 0
Safe gone (socket_cb success w) = (gone w.tcp_socket ≡ false) × IsSome w.context
Safe gone (delete_socket p) = gone p ≡ false
Safe gone (call_poll_remove h) = IsSome h
Safe gone _ = Unit

abbrev pub after : Task → (ℕ → Bool) → ℕ → Bool
after (delete_socket p) gone = update gone p true
after _ gone = gone

abbrev pub after_all : List Task → (ℕ → Bool) → ℕ → Bool
after_all [] gone = gone
after_all (t ∷ ts) gone = after_all ts (after t gone)

abbrev pub IsOrdered : (ℕ → Bool) → List Task → Type 0
IsOrdered gone [] = Unit
IsOrdered gone (t ∷ ts) = Safe gone t × IsOrdered (after t gone) ts

pub after_all-append :
    (a b : List Task) (gone : ℕ → Bool) → after_all (a ++ b) gone ≡ after_all b (after_all a gone)
after_all-append [] b gone = refl
after_all-append (t ∷ a) b gone = after_all-append a b (after t gone)

pub append-IsOrdered :
    (a b : List Task) (gone : ℕ → Bool)
    → IsOrdered gone a
    → IsOrdered (after_all a gone) b
    → IsOrdered gone (a ++ b)
append-IsOrdered [] b gone x y = y
append-IsOrdered (t ∷ a) b gone x y = (x.0, append-IsOrdered a b (after t gone) x.1 y)

after-true : (t : Task) (gone : ℕ → Bool) (p : ℕ) → gone p ≡ true → after t gone p ≡ true
after-true (delete_socket q) gone p h = if_both (λ (b : Bool). b ≡ true) (p == q) refl h
after-true (socket_cb e w) gone p h = h
after-true (call_poll_remove w) gone p h = h
after-true (call_perform w) gone p h = h
after-true (call_timer_cb w) gone p h = h
after-true (call_keepalivetimer_cb w) gone p h = h

pub after_all-true :
    (ts : List Task) (gone : ℕ → Bool) (p : ℕ) → gone p ≡ true → after_all ts gone p ≡ true
after_all-true [] gone p h = h
after_all-true (t ∷ ts) gone p h = after_all-true ts (after t gone) p (after-true t gone p h)

-- A socket that is left when all has run is there before.
pub after_all-false :
    (ts : List Task) (gone : ℕ → Bool) (p : ℕ) → after_all ts gone p ≡ false → gone p ≡ false
after_all-false ts gone p h = elim (Bool-cases (gone p)) [
  | inl e ↦ absurd (let t = after_all-true ts gone p e in cc)
  | inr e ↦ e
]

pub after_all-aborted :
    (ws : List Wait) (gone : ℕ → Bool)
    → after_all (map (socket_cb operation_aborted) ws) gone ≡ gone
after_all-aborted [] gone = refl
after_all-aborted (w ∷ ws) gone = after_all-aborted ws gone

pub aborted-IsOrdered :
    (ws : List Wait) (gone : ℕ → Bool) → IsOrdered gone (map (socket_cb operation_aborted) ws)
aborted-IsOrdered [] gone = tt
aborted-IsOrdered (w ∷ ws) gone = (tt, aborted-IsOrdered ws gone)
