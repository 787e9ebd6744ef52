-- ===== src/Server/Routing.antt =====
-- `handle_request` of csi_http/server/server.h serves a request by the first handler whose pattern
-- covers the path.
use csi_http.Base.{
  map-append, ◌++◌, ◌∙◌, sym, All, map, some, none, true, false, Bool, Option, List, Bytes, [], ◌∷◌,
  ◌+◌, ◌%◌, ℕ, ◌≡◌, refl,
}
use csi_http.Uri.{uri_pattern, of_parts, match}
use csi_http.Uri.Matching.{Decides-false, Decides-true, Matches, Decides, match-of_parts}
use csi_http.Server.{uri_pattern, HandlerData, u64_mod, add_handler, dispatch, handle_request}

-- A registration as the caller sees it: the levels of the pattern, the handler and its counter.
pub record Route (Conn : Type 0) : Type 0 where
  pub levels : List Bytes
  pub handler : List Bytes → Conn → Conn
  pub count : ℕ

module _ {Conn : Type 0} where
  abbrev pub stored : Route Conn → HandlerData Conn
  stored r = record { pattern = of_parts r.levels; handler = r.handler; nr_of_requests = r.count }

  abbrev pub counted : Route Conn → Route Conn
  counted r = record r { count = (r.count + 1) % u64_mod }

-- No route of the table covers the path.
abbrev pub Uncovered : {Conn : Type 0} → List (Route Conn) → List Bytes → Type 0
Uncovered rs parts = All (λ r. ¬ Matches r.levels parts) rs

-- What a request for a path does to a table and a connection: the first route that covers the path
-- counts the request and handles it, and no other route is touched; with no such route the
-- connection gets the answer "not found".
pub data Serves {Conn : Type 0} (not_found : Conn → Conn) (parts : List Bytes) (c : Conn)
    : List (Route Conn) → List (Route Conn) → Conn → Type 0 where
  missed : Serves not_found parts c [] [] (not_found c)
  hit :
      {r : Route Conn} {rs : List (Route Conn)}
      → Matches r.levels parts
      → Serves not_found parts c (r ∷ rs) (counted r ∷ rs) (r.handler parts c)
  passed :
      {r : Route Conn} {rs rs' : List (Route Conn)} {c' : Conn}
      → ¬ Matches r.levels parts
      → Serves not_found parts c rs rs' c'
      → Serves not_found parts c (r ∷ rs) (r ∷ rs') c'

module _ {Conn : Type 0} (not_found : Conn → Conn) (parts : List Bytes) (c : Conn) where
  dispatch-Serves :
      (rs : List (Route Conn))
      → (rs' : List (Route Conn)) × (c' : Conn) × (dispatch not_found (map stored rs) parts c
          ≡ some (map stored rs', c'))
        × Serves not_found parts c rs rs' c'
  unfolding dispatch
  dispatch-Serves [] = ([], not_found c, refl, missed)
  dispatch-Serves (r ∷ rs) =
      go (match (of_parts r.levels) parts) refl (match-of_parts r.levels parts) (dispatch-Serves rs)
    where
      go :
          (v : Option Bool)
          → match (of_parts r.levels) parts ≡ v
          → Decides (Matches r.levels parts) v
          → ((rs' : List (Route Conn)) × (c' : Conn) × (dispatch not_found (map stored rs) parts c
                ≡ some (map stored rs', c'))
              × Serves not_found parts c rs rs' c')
          → ((rs' : List (Route Conn)) × (c' : Conn) × (dispatch not_found
                  (map stored (r ∷ rs))
                  parts
                  c
                ≡ some (map stored rs', c'))
              × Serves not_found parts c (r ∷ rs) rs' c')
      go none e d ih = absurd d
      go (some true) e d ih = (counted r ∷ rs, r.handler parts c, rw (e, dispatch) refl, hit d)
      go (some false) e d (rs', c', same, s) =
          (r ∷ rs', c', rw (e, dispatch) (rw same refl), passed d s)

  -- Conversely the relation leaves `dispatch` no choice.
  dispatch_of_Serves :
      {rs rs' : List (Route Conn)} {c' : Conn}
      → Serves not_found parts c rs rs' c'
      → dispatch not_found (map stored rs) parts c ≡ some (map stored rs', c')
  unfolding dispatch
  dispatch_of_Serves missed = refl
  dispatch_of_Serves (hit {r} {rs} m) =
      let e : match (of_parts r.levels) parts ≡ some true =
        Decides-true (match-of_parts r.levels parts) m in
      rw (e, dispatch) refl
  dispatch_of_Serves (passed {r} {rs} n s) =
      let e : match (of_parts r.levels) parts ≡ some false =
        Decides-false (match-of_parts r.levels parts) n in
      rw (e, dispatch) (rw (dispatch_of_Serves s) refl)

module _ {Conn : Type 0} (split : Bytes → List Bytes) (url : Conn → Bytes)
    (not_found : Conn → Conn) where
  -- Every request is served, and as the relation says: by the first registered handler whose pattern
  -- covers the parts of the URL, which counts it, or else by "not found"; the other handlers and
  -- their counters stay as they are.
  pub handle_request-Serves :
      (rs : List (Route Conn)) (c : Conn)
      → (rs' : List (Route Conn)) × (c' : Conn) × (handle_request split url not_found
            (map stored rs)
            c
          ≡ some (map stored rs', c'))
        × Serves not_found (split (url c)) c rs rs' c'
  unfolding handle_request
  handle_request-Serves rs c = dispatch-Serves not_found (split (url c)) c rs

  pub handle_request_of_Serves :
      {rs rs' : List (Route Conn)} {c c' : Conn}
      → Serves not_found (split (url c)) c rs rs' c'
      → handle_request split url not_found (map stored rs) c ≡ some (map stored rs', c')
  unfolding handle_request
  handle_request_of_Serves {c} s = dispatch_of_Serves not_found (split (url c)) c s

  -- The table after a registration is the table with the new route at its end.
  pub add_handler-stored :
      (rs : List (Route Conn)) (pattern : Bytes) (p : List Bytes → Conn → Conn) (n : ℕ)
      → add_handler split (map stored rs) pattern p n
        ≡ map stored (rs ++ record { levels = split pattern; handler = p; count = n } ∷ [])
  unfolding add_handler uri_pattern
  add_handler-stored rs pattern p n = sym (map-append stored rs _)

module _ {Conn : Type 0} {not_found : Conn → Conn} {parts : List Bytes} {c : Conn} where
  -- A registration behind a route that covers the path is never asked.
  Serves-append :
      {rs rs' : List (Route Conn)} {c' : Conn} (r : Route Conn)
      → ¬ Uncovered rs parts
      → Serves not_found parts c rs rs' c'
      → Serves not_found parts c (rs ++ r ∷ []) (rs' ++ r ∷ []) c'
  Serves-append r covered missed = absurd (covered tt)
  Serves-append r covered (hit m) = hit m
  Serves-append r covered (passed n s) = passed n (Serves-append r (λ a. covered (n, a)) s)

module _ {Conn : Type 0} (split : Bytes → List Bytes) (url : Conn → Bytes)
    (not_found : Conn → Conn) where
  -- Earlier registrations win: where the table already covers the path, a new registration at its
  -- end changes neither the reply nor any counter, its own included.
  pub handle_request-add_handler :
      (rs : List (Route Conn)) (hs' : List (HandlerData Conn)) (c c' : Conn) (pattern : Bytes)
      (p : List Bytes → Conn → Conn) (n : ℕ)
      → ¬ Uncovered rs (split (url c))
      → handle_request split url not_found (map stored rs) c ≡ some (hs', c')
      → handle_request split url not_found (add_handler split (map stored rs) pattern p n) c
        ≡ some (add_handler split hs' pattern p n, c')
  handle_request-add_handler rs hs' c c' pattern p n covered e =
      let (rs2, c2, e2, s) = handle_request-Serves split url not_found rs c in
      let same : ◌≡◌ {A = Option (List (HandlerData Conn) × Conn)} (some (map stored rs2, c2))
          (some (hs', c')) =
        sym e2 ∙ e in
      let later : handle_request split url not_found (add_handler split (map stored rs) pattern p n)
            c
          ≡ some (add_handler split (map stored rs2) pattern p n, c2) =
        rw
          (
            add_handler-stored split url not_found rs pattern p n,
            add_handler-stored split url not_found rs2 pattern p n,
          )
          (handle_request_of_Serves split url not_found (
            Serves-append (record { levels = split pattern; handler = p; count = n }) covered s)) in
      later ∙ cc same
