-- ===== src/Asio/Counts.antt =====
-- How many operations of a kind are pending, and what starting, aborting and completing them does to
-- that number.
use csi_http.Base.{◌≤◌, arith, ap, map, ◌++◌, ◌+◌, ◌≡◌, List, true, false, refl, [], ◌∷◌, ℕ, Bool}
use csi_http.Asio.{
  async_read_some, async_write, async_wait, async_wait_call, post_reply_done, async_handshake,
  async_shutdown, Operation, Pending, Io, Completes, ErrorCode, begin, cancel_timer,
  expires_from_now, cancel_socket, abort, is_wait, is_transfer,
}

abbrev pub flag : Bool → ℕ
flag true = 1
flag false = 0

-- A kind of operations.
abbrev pub Kind : Type 0
Kind = Operation → Bool

abbrev pub is_read : Kind
is_read async_read_some = true
is_read (async_write b) = false
is_read (async_wait n) = false
is_read (async_wait_call n) = false
is_read post_reply_done = false
is_read async_handshake = false
is_read async_shutdown = false

abbrev pub is_write : Kind
is_write async_read_some = false
is_write (async_write b) = true
is_write (async_wait n) = false
is_write (async_wait_call n) = false
is_write post_reply_done = false
is_write async_handshake = false
is_write async_shutdown = false

abbrev pub is_post : Kind
is_post async_read_some = false
is_post (async_write b) = false
is_post (async_wait n) = false
is_post (async_wait_call n) = false
is_post post_reply_done = true
is_post async_handshake = false
is_post async_shutdown = false

unfoldable pub count : Kind → List Pending → ℕ
count k [] = 0
count k (p ∷ ps) = flag (k p.operation) + count k ps

pub count-append : (k : Kind) (ps qs : List Pending) → count k (ps ++ qs) ≡ count k ps + count k qs
unfolding count
count-append k [] qs = omega arith
count-append k (p ∷ ps) qs = let e = count-append k ps qs in omega (arith, e)

pub count-begin :
    (k : Kind) (o : Operation) (io : Io)
    → count k (begin o io).pending ≡ count k io.pending + flag (k o)
unfolding count begin
count-begin k o io =
    let e = count-append k io.pending (record { operation = o; aborted = false } ∷ []) in
    omega (arith, e)

count-abort : (k j : Kind) (ps : List Pending) → count k (map (abort j) ps) ≡ count k ps
unfolding count
count-abort k j [] = refl
count-abort k j (p ∷ ps) = ap (λ (n : ℕ). flag (k p.operation) + n) (count-abort k j ps)

pub count-cancel_timer :
    (k : Kind) (io : Io) → count k (cancel_timer io).pending ≡ count k io.pending
unfolding cancel_timer
count-cancel_timer k io = count-abort k is_wait io.pending

pub count-expires_from_now :
    (k : Kind) (n : ℕ) (io : Io) → count k (expires_from_now n io).pending ≡ count k io.pending
unfolding expires_from_now
count-expires_from_now k n io = count-cancel_timer k io

pub count-cancel_socket :
    (k : Kind) (io : Io) → count k (cancel_socket io).pending ≡ count k io.pending
unfolding cancel_socket
count-cancel_socket k io = count-abort k is_transfer io.pending

-- A completion takes one operation away, and logs nothing.
pub count-Completes :
    (k : Kind) (io io' : Io) (o : Operation) (e : ErrorCode)
    → Completes io o e io'
    → count k io.pending ≡ flag (k o) + count k io'.pending
unfolding count
count-Completes k io io' o e s =
    let p : Pending = record { operation = o; aborted = s.aborted } in
    let left : count k io'.pending ≡ count k (s.before ++ s.after) =
      ap (λ (i : Io). count k i.pending) s.left in
    omega (
      arith,
      left,
      ap (count k) s.found,
      count-append k s.before (p ∷ s.after),
      count-append k s.before s.after,
    )

pub flag_le : (b : Bool) → flag b ≤ 1
flag_le false = omega arith
flag_le true = omega arith

pub flag_zero : (b : Bool) → flag b ≡ 0 → b ≡ false
flag_zero false e = refl
flag_zero true e = absurd (omega arith)

pub flag_one : (b : Bool) → 1 ≤ flag b → b ≡ true
flag_one true e = refl
flag_one false e = absurd (omega arith)
