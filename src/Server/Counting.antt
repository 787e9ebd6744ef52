-- ===== src/Server/Counting.antt =====
-- The request counters of csi_http/server/server.h: what a request does to them, and what
-- `get_no_of_requests` reads from them.
use csi_http.Base.{
  true, false, none, refl, sym, Bool, ◌∙◌, Option, inr, subst, arith, inl, ◌⊎◌, ◌<◌, ◌%◌, [], ap,
  ◌≢◌, some, ◌+◌, ◌∷◌, map, All, ℕ, Bytes, List, ◌≡◌,
}
use csi_http.Boost.{IsSplit}
use csi_http.Uri.{of_parts, match, hash, plus}
use csi_http.Uri.Matching.{Matches, Decides, match-of_parts, rest, level, same}
use csi_http.Server.{
  HandlerData, u64_mod, handle_request, sum_requests, get_no_of_requests, every_pattern,
}
use csi_http.Server.Routing.{
  Route, stored, Serves, missed, hit, passed, Uncovered, handle_request-Serves,
}

module _ {Conn : Type 0} where
  abbrev pub total : List (HandlerData Conn) → ℕ
  total [] = 0
  total (h ∷ hs) = h.nr_of_requests + total hs

  -- No counter is about to wrap.
  abbrev pub HasRoom : List (Route Conn) → Type 0
  HasRoom = All λ r. r.count + 1 < u64_mod

  Serves-total :
      {not_found : Conn → Conn} {parts : List Bytes} {c c' : Conn} {rs rs' : List (Route Conn)}
      → HasRoom rs
      → Serves not_found parts c rs rs' c'
      → ((total (map stored rs') ≡ total (map stored rs) + 1) × ¬ Uncovered rs parts)
        ⊎ ((rs' ≡ rs) × (c' ≡ not_found c) × Uncovered rs parts)
  Serves-total room missed = inr (refl, refl, tt)
  Serves-total room (hit {r} m) =
      inl (let w : (r.count + 1) % u64_mod ≡ r.count + 1 = omega arith in omega arith, λ a. a.0 m)
  Serves-total room (passed {r} n s) = elim (Serves-total room.1 s) [
    | inl (e, covered) ↦ inl (omega arith, λ a. covered a.1)
    | inr (e, f, a) ↦ inr (ap (◌∷◌ r) e, f, (n, a))
  ]

  -- A request whose path some pattern covers raises the sum of the counters by one; any other leaves
  -- the table as it was and is answered "not found". No counter may be about to wrap.
  pub handle_request-total :
      (split : Bytes → List Bytes) (url : Conn → Bytes) (not_found : Conn → Conn)
      (rs : List (Route Conn)) (c c' : Conn) (hs' : List (HandlerData Conn))
      → HasRoom rs
      → handle_request split url not_found (map stored rs) c ≡ some (hs', c')
      → ((total hs' ≡ total (map stored rs) + 1) × ¬ Uncovered rs (split (url c)))
        ⊎ ((hs' ≡ map stored rs) × (c' ≡ not_found c) × Uncovered rs (split (url c)))
  handle_request-total split url not_found rs c c' hs' room e =
      let (rs2, c2, e2, s) = handle_request-Serves split url not_found rs c in
      let same : ◌≡◌ {A = Option (List (HandlerData Conn) × Conn)} (some (map stored rs2, c2))
          (some (hs', c')) =
        sym e2 ∙ e in
      let table : map stored rs2 ≡ hs' = cc same in
      let conn : c2 ≡ c' = cc same in
      elim (Serves-total room s) [
        | inl (sum, covered) ↦ inl (rw (← table) sum, covered)
        | inr (rows, reply, a) ↦ inr (sym table ∙ ap (map stored) rows, sym conn ∙ reply, a)
      ]

-- The number of requests that the routes covering a path have counted.
pub data CountOf {Conn : Type 0} (parts : List Bytes) : List (Route Conn) → ℕ → Type 0 where
  nothing : {n : ℕ} → n ≡ 0 → CountOf parts [] n
  adds :
      {r : Route Conn} {rs : List (Route Conn)} {m n : ℕ}
      → Matches r.levels parts
      → CountOf parts rs n
      → m ≡ r.count + n
      → CountOf parts (r ∷ rs) m
  skips :
      {r : Route Conn} {rs : List (Route Conn)} {n : ℕ}
      → ¬ Matches r.levels parts
      → CountOf parts rs n
      → CountOf parts (r ∷ rs) n

module _ {Conn : Type 0} (parts : List Bytes) where
  abbrev Sums : List (Route Conn) → ℕ → Type 0
  Sums rs k =
      (n : ℕ) × (sum_requests (map stored rs) parts (k % u64_mod) ≡ some ((k + n) % u64_mod))
      × CountOf parts rs n

  sum_requests-CountOf : (rs : List (Route Conn)) (k : ℕ) → Sums rs k
  unfolding sum_requests
  sum_requests-CountOf [] k = (0, ap (λ (m : ℕ). some (m % u64_mod)) (omega arith), nothing refl)
  sum_requests-CountOf (r ∷ rs) k =
      go (match (of_parts r.levels) parts) refl (match-of_parts r.levels parts)
        (sum_requests-CountOf rs (k + r.count)) (sum_requests-CountOf rs k)
    where
      go :
          (v : Option Bool)
          → match (of_parts r.levels) parts ≡ v
          → Decides (Matches r.levels parts) v
          → Sums rs (k + r.count)
          → Sums rs k
          → Sums (r ∷ rs) k
      go none e d there here = absurd d
      go (some true) e d (n, sum, count) here =
          let wrap : (k % u64_mod + r.count) % u64_mod ≡ (k + r.count) % u64_mod = omega arith in
          (
            r.count + n,
            rw (e, sum_requests) (rw wrap (sum ∙ ap (λ (m : ℕ). some (m % u64_mod)) (omega arith))),
            adds d count refl,
          )
      go (some false) e d there (n, sum, count) = (n, rw (e, sum_requests) sum, skips d count)

-- A pattern covers the path `#` only if it is a single wildcard.
Matches-hash :
    (levels : List Bytes) → Matches levels (hash ∷ []) → (levels ≡ hash ∷ []) ⊎ (levels ≡ plus ∷ [])
Matches-hash [] m = elim m [ ]
Matches-hash (p ∷ []) (rest e) = inl (rw e)
Matches-hash (p ∷ []) (level e m) = inr (rw e)
Matches-hash (p ∷ []) (same e m) = inl (rw e)
Matches-hash (p ∷ q ∷ ps) (level e m) = elim m [ ]
Matches-hash (p ∷ q ∷ ps) (same e m) = elim m [ ]

module _ {Conn : Type 0} where
  CountOf-hash :
      (rs : List (Route Conn)) (n : ℕ)
      → All (λ r. (r.levels ≢ hash ∷ []) × (r.levels ≢ plus ∷ [])) rs
      → CountOf (hash ∷ []) rs n
      → n ≡ 0
  CountOf-hash [] n a (nothing e) = e
  CountOf-hash (r ∷ rs) n a (adds m count e) = elim (Matches-hash r.levels m) [
    | inl h ↦ absurd (a.0.0 h)
    | inr h ↦ absurd (a.0.1 h)
  ]
  CountOf-hash (r ∷ rs) n a (skips m count) = CountOf-hash rs n a.1 count

module _ {Conn : Type 0} (split : Bytes → List Bytes) where
  -- `get_no_of_requests` reads, modulo 2^64, the sum of the counters of exactly those handlers whose
  -- pattern covers the argument, taken as a path.
  pub get_no_of_requests-CountOf :
      (rs : List (Route Conn)) (pattern : Bytes)
      → (n : ℕ) × (get_no_of_requests split (map stored rs) pattern ≡ some (n % u64_mod))
        × CountOf (split pattern) rs n
  unfolding get_no_of_requests
  get_no_of_requests-CountOf rs pattern =
      let (n, e, count) = sum_requests-CountOf (split pattern) rs 0 in
      (n, e ∙ ap (λ (m : ℕ). some (m % u64_mod)) (omega arith), count)

  -- With its default argument `#` the function reports no request at all of a table in which no
  -- handler's pattern is a single wildcard, however many its handlers have counted.
  pub get_no_of_requests_default :
      (rs : List (Route Conn))
      → IsSplit split
      → All (λ r. (r.levels ≢ hash ∷ []) × (r.levels ≢ plus ∷ [])) rs
      → get_no_of_requests split (map stored rs) every_pattern ≡ some 0
  get_no_of_requests_default rs law a =
      let (n, e, count) = get_no_of_requests-CountOf rs every_pattern in
      let one : split every_pattern ≡ hash ∷ [] = law.split_whole hash (omega arith) in
      let zero_count : n ≡ 0 = CountOf-hash rs n a (subst (λ ps. CountOf ps rs n) one count) in
      e ∙ ap (λ (m : ℕ). some (m % u64_mod)) zero_count
