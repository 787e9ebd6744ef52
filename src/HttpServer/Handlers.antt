-- ===== src/HttpServer/Handlers.antt =====
-- The table of csi_http/server/server.h keeps the interface that csi_http/server/http_connection.cpp
-- expects of its server.
use csi_http.Base.{
  subst, ap, ◌≡◌, ◌∙◌, All, true, false, none, some, [], ◌∷◌, Bool, Bytes, List, Option,
  >>=-eq-some, some-inj, map_some-eq-some, map_some,
}
use csi_http.Externals.{Externals}
use csi_http.Uri.{match}
use csi_http.Server.{HandlerData, dispatch, handle_request, call, keep_first}
use csi_http.HttpConnection.{HttpConnection, with_reply}
use csi_http.HttpConnection.Steps.{Handled, returns, replies, IsServer, Reachable}
use csi_http.HttpConnection.Sound.{IsSound}
use csi_http.HttpConnection.Invariant.{Reachable-IsSound}
use csi_http.HttpServer.{text_html, not_found, create, Table, serve, create_not_found, url_of}

module _ (ex : Externals) where
  -- A handler keeps to the interface, and a connection that has faulted stays so.
  pub record IsHandler (h : HandlerData (Option (HttpConnection ex))) : Type 0 where
    pub handled :
        (parts : List Bytes) (c d : HttpConnection ex)
        → h.handler parts (some c) ≡ some d
        → Handled ex c d

  abbrev pub IsTable : Table ex → Type 0
  IsTable = All IsHandler

  create_not_found-Handled :
      (c d : HttpConnection ex) → create_not_found ex (some c) ≡ some d → Handled ex c d
  create_not_found-Handled c d h =
      let (r, made, g) =
        map_some-eq-some (λ r. with_reply ex r c)
          (create ex.avro not_found text_html 0 c.base.reply) h in
      subst (Handled ex c) g (replies r returns)

  dispatch-Handled :
      (hs hs' : Table ex) (parts : List Bytes) (c d : HttpConnection ex)
      → IsTable hs
      → dispatch (create_not_found ex) hs parts (some c) ≡ some (hs', some d)
      → Handled ex c d × IsTable hs'
  unfolding dispatch call
  dispatch-Handled [] hs' parts c d t h =
      let e = some-inj h in
      (
        create_not_found-Handled c d (ap (λ (p : Table ex × Option (HttpConnection ex)). p.1) e),
        subst IsTable (ap (λ (p : Table ex × Option (HttpConnection ex)). p.0) e) tt,
      )
  dispatch-Handled (h ∷ hs) hs' parts c d t run =
      go (λ hs'' e. dispatch-Handled hs hs'' parts c d t.1 e) (match h.pattern parts) run
    where
      rest : Option (Table ex × Option (HttpConnection ex))
      rest = dispatch (create_not_found ex) hs parts (some c)

      go :
          ((hs'' : Table ex) → rest ≡ some (hs'', some d) → Handled ex c d × IsTable hs'')
          → (m : Option Bool)
          → elim m as (λ x. Option (Table ex × Option (HttpConnection ex))) [
            | none ↦ none
            | some true ↦ let (h', c') = call h parts (some c) in some (h' ∷ hs, c')
            | some false ↦ map_some (keep_first h) rest
          ]
            ≡ some (hs', some d)
          → Handled ex c d × IsTable hs'
      go next none g = cc
      go next (some true) g =
          let e = some-inj g in
          (
            t.0.handled parts c d (ap (λ (p : Table ex × Option (HttpConnection ex)). p.1) e),
            subst IsTable (ap (λ (p : Table ex × Option (HttpConnection ex)). p.0) e)
                (record { handled = t.0.handled }, t.1),
          )
      go next (some false) g =
          let (r, served, e) = map_some-eq-some (keep_first h) rest g in
          let last : r.1 ≡ some d = ap (λ (p : Table ex × Option (HttpConnection ex)). p.1) e in
          let (handled, table) =
            next r.0 (served ∙ ap (λ (o : Option (HttpConnection ex)). some (r.0, o)) last) in
          (
            handled,
            subst IsTable (ap (λ (p : Table ex × Option (HttpConnection ex)). p.0) e) (t.0, table),
          )

  serve-Handled : IsServer ex (serve ex) IsTable
  unfolding serve handle_request
  serve-Handled hs c r t h =
      let (q, run, g) =
        >>=-eq-some (handle_request ex.split (url_of ex) (create_not_found ex) hs (some c)) _ h in
      let (d, made, g') = >>=-eq-some q.1 _ g in
      let (handled, table) =
        dispatch-Handled hs q.0 (ex.split c.base.request.url) c d t
          (run ∙ ap (λ (o : Option (HttpConnection ex)). some (q.0, o)) made) in
      subst (λ p. Handled ex c p.1 × IsTable p.0) (some-inj g') (handled, table)

  -- For a server whose handlers keep to the interface of a connection, whatever its table and its
  -- other connections do: each of its connections has, at all times, at most one of a read, a write
  -- and the wait for a reply going on, at most one announced reply, and a log in which every request
  -- is ended by the line that follows its beginning, but for one that waits.
  pub serve-IsSound :
      (hs : Table ex) (c : HttpConnection ex) → Reachable ex (serve ex) IsTable hs c → IsSound ex c
  serve-IsSound hs c r = Reachable-IsSound ex (serve ex) IsTable serve-Handled hs c r
