-- ===== src/Connection/Pieces.antt =====
-- The headers of a request, in the pieces in which http_parser delivers them to
-- csi_http/server/connection.cpp.
use csi_http.Base.{
  All, All-append_right, All-append_left, length-append, subst, arith, ◌∙◌, append-nil, ◌+◌, sym,
  append_assoc, flatten, ◌<◌, ◌++◌, ap, map, ℕ, length, List, Bytes, [], ◌∷◌, ◌≡◌,
}
use csi_http.Externals.{
  Externals, Event, header_field, header_value, headers_complete, IsExternals, NoNul,
}
use csi_http.Status.{of_number}
use csi_http.Reply.{Header}
use csi_http.Request.{Request}
use csi_http.Connection.Buffer.{max_header_size}
use csi_http.Connection.Headers.{
  HasArrays, InField, InValue, lowered, with_header, completed, on_header_field-InField,
  on_header_field-InValue, on_header_value-InField, on_header_value-InValue,
  on_headers_complete-InField, on_headers_complete-InValue,
}
use csi_http.Connection.{Connection, call_back, returns_0}
use csi_http.Connection.Runs.{Runs, Runs-nil, Runs-cons, Runs-append}

-- The pieces of a header, of which there is at least one for the name and one for the value.
pub record Pieces : Type 0 where
  pub name_first : Bytes
  pub name_more : List Bytes
  pub value_first : Bytes
  pub value_more : List Bytes

abbrev pub name_of : Pieces → Bytes
name_of h = h.name_first ++ flatten h.name_more

abbrev pub value_of : Pieces → Bytes
value_of h = h.value_first ++ flatten h.value_more

-- The whole name and the whole value fit into the arrays with a NUL behind them, and hold none.
pub record Fits (h : Pieces) : Type 0 where
  pub name_size : length (name_of h) < max_header_size
  pub value_size : length (value_of h) < max_header_size
  pub name_text : NoNul (name_of h)
  pub value_text : NoNul (value_of h)

-- The callbacks for a header behind the first piece of its name.
abbrev header_rest : Pieces → List Event
header_rest h =
    map header_field h.name_more ++ header_value h.value_first ∷ map header_value h.value_more

abbrev header_event : Pieces → List Event
header_event h = header_field h.name_first ∷ header_rest h

abbrev pub header_events : List Pieces → List Event
header_events [] = []
header_events (h ∷ hs) = header_event h ++ header_events hs

module _ (ex : Externals) (lower : Bytes → Bytes) (law : IsExternals ex lower) where
  names_run :
      (fs : List Bytes) (c : Connection ex) (r : Request ex) (k : Bytes)
      → InField ex c r k
      → NoNul (flatten fs)
      → length k + length (flatten fs) < max_header_size
      → (c' : Connection ex) × Runs ex (map header_field fs) c c'
        × InField ex c' r (k ++ flatten fs)
  unfolding flatten call_back
  names_run [] c r k s clean fits =
      (c, Runs-nil ex c, subst (InField ex c r) (sym (append-nil k)) s)
  names_run (f ∷ fs) c r k s clean fits =
      let total : length (f ++ flatten fs) ≡ length f + length (flatten fs) =
        length-append f (flatten fs) in
      let (d, step, t) =
        on_header_field-InField ex lower law c r k f s (All-append_left _ f (flatten fs) clean)
          (omega arith) in
      let (c', rest, u) =
        names_run fs d r (k ++ f) t (All-append_right _ f (flatten fs) clean)
          (omega (arith, length-append k f)) in
      (
        c',
        Runs-cons ex _ _ c d c' (ap (returns_0 ex) step) rest,
        subst (InField ex c' r) (append_assoc k f (flatten fs)) u,
      )

  values_run :
      (vs : List Bytes) (c : Connection ex) (r : Request ex) (k v : Bytes)
      → InValue ex c r k v
      → NoNul (flatten vs)
      → length v + length (flatten vs) < max_header_size
      → (c' : Connection ex) × Runs ex (map header_value vs) c c'
        × InValue ex c' r k (v ++ flatten vs)
  unfolding flatten call_back
  values_run [] c r k v s clean fits =
      (c, Runs-nil ex c, subst (InValue ex c r k) (sym (append-nil v)) s)
  values_run (f ∷ fs) c r k v s clean fits =
      let total : length (f ++ flatten fs) ≡ length f + length (flatten fs) =
        length-append f (flatten fs) in
      let (d, step, t) =
        on_header_value-InValue ex lower law c r k v f s (All-append_left _ f (flatten fs) clean)
          (omega arith) in
      let (c', rest, u) =
        values_run fs d r k (v ++ f) t (All-append_right _ f (flatten fs) clean)
          (omega (arith, length-append v f)) in
      (
        c',
        Runs-cons ex _ _ c d c' (ap (returns_0 ex) step) rest,
        subst (InValue ex c' r k) (append_assoc v f (flatten fs)) u,
      )

  header_tail :
      (h : Pieces) (d : Connection ex) (r : Request ex)
      → Fits h
      → InField ex d r h.name_first
      → (c' : Connection ex) × Runs ex (header_rest h) d c'
        × InValue ex c' r (name_of h) (value_of h)
  unfolding call_back
  header_tail h d r f s =
      let name_size : length (h.name_first ++ flatten h.name_more)
          ≡ length h.name_first + length (flatten h.name_more) =
        length-append h.name_first (flatten h.name_more) in
      let value_size : length (h.value_first ++ flatten h.value_more)
          ≡ length h.value_first + length (flatten h.value_more) =
        length-append h.value_first (flatten h.value_more) in
      let (e, names, t) =
        names_run h.name_more d r h.name_first s (All-append_right _ h.name_first _ f.name_text)
          (omega (arith, f.name_size)) in
      let (g, step, u) =
        on_header_value-InField ex lower law e r (name_of h) h.value_first t
          (All-append_left _ h.value_first _ f.value_text) (omega (arith, f.value_size)) in
      let (c', values, v) =
        values_run h.value_more g r (name_of h) h.value_first u
          (All-append_right _ h.value_first _ f.value_text) (omega (arith, f.value_size)) in
      (
        c',
        Runs-append ex _ _ d e c' names (Runs-cons ex _ _ e g c' (ap (returns_0 ex) step) values),
        v,
      )

  header_next :
      (h : Pieces) (c : Connection ex) (r : Request ex) (k v : Bytes)
      → Fits h
      → InValue ex c r k v
      → (c' : Connection ex) × Runs ex (header_event h) c c'
        × InValue ex c' (with_header ex lower law r k v) (name_of h) (value_of h)
  unfolding call_back
  header_next h c r k v f s =
      let size : length (name_of h) ≡ length h.name_first + length (flatten h.name_more) =
        length-append h.name_first (flatten h.name_more) in
      let (d, step, t) =
        on_header_field-InValue ex lower law c r k v h.name_first s
          (All-append_left _ h.name_first _ f.name_text) (omega (arith, f.name_size)) in
      let (c', rest, u) = header_tail h d (with_header ex lower law r k v) f t in
      (c', Runs-cons ex _ _ c d c' (ap (returns_0 ex) step) rest, u)

  header_first :
      (h : Pieces) (c : Connection ex) (r : Request ex)
      → Fits h
      → InField ex c r []
      → (c' : Connection ex) × Runs ex (header_event h) c c'
        × InValue ex c' r (name_of h) (value_of h)
  unfolding call_back
  header_first h c r f s =
      let size : length (name_of h) ≡ length h.name_first + length (flatten h.name_more) =
        length-append h.name_first (flatten h.name_more) in
      let (d, step, t) =
        on_header_field-InField ex lower law c r [] h.name_first s
          (All-append_left _ h.name_first _ f.name_text) (omega (arith, f.name_size)) in
      let (c', rest, u) = header_tail h d r f t in
      (c', Runs-cons ex _ _ c d c' (ap (returns_0 ex) step) rest, u)

  abbrev pub lowered_header : Pieces → Header
  lowered_header h = lowered ex lower law (name_of h) (value_of h)

  abbrev pub with_headers : Request ex → List Pieces → Request ex
  with_headers r hs = record r { headers = r.headers ++ map lowered_header hs }

  headers_run :
      (hs : List Pieces) (c : Connection ex) (r : Request ex) (k v : Bytes)
      → All Fits hs
      → InValue ex c r k v
      → (c' : Connection ex) × (r' : Request ex) × (k' : Bytes) × (v' : Bytes) × Runs ex
          (header_events hs)
          c
          c'
        × InValue ex c' r' k' v'
        × (with_header ex lower law r' k' v' ≡ with_headers (with_header ex lower law r k v) hs)
  headers_run [] c r k v f s = (
    c,
    r,
    k,
    v,
    Runs-nil ex c,
    s,
    ap (λ (l : List Header). record r { headers = l }) (sym (append-nil _)),
  )
  headers_run (h ∷ hs) c r k v f s =
      let (d, first, t) = header_next h c r k v f.0 s in
      let (c', r', k', v', later, u, e) =
        headers_run hs d (with_header ex lower law r k v) (name_of h) (value_of h) f.1 t in
      (
        c',
        r',
        k',
        v',
        Runs-append ex (header_event h) (header_events hs) c d c' first later,
        u,
        e
            ∙ ap (λ (l : List Header). record r { headers = l })
                (append_assoc (r.headers ++ lowered ex lower law k v ∷ []) (lowered_header h ∷ [])
                  (map lowered_header hs)),
      )

  -- The header callbacks up to and with `on_headers_complete`.
  pub headers_complete_run :
      (hs : List Pieces) (c : Connection ex) (r : Request ex) (n m : ℕ)
      → All Fits hs
      → InField ex c r []
      → (c' : Connection ex) × Runs ex (header_events hs ++ headers_complete n m ∷ []) c c'
        × (c'.request ≡ completed ex lower law (with_headers r hs) n m)
        × HasArrays ex c'
  unfolding call_back
  headers_complete_run [] c r n m f s =
      let (c', step, e, arrays) = on_headers_complete-InField ex lower law c r [] n m s in
      (
        c',
        Runs-cons ex (headers_complete n m) [] c c' c' (ap (returns_0 ex) step) (Runs-nil ex c'),
        e
            ∙ ap
                (λ (l : List Header). record r {
                  headers = l;
                  content_length = n;
                  method = of_number m;
                })
                (sym (append-nil _)),
        arrays,
      )
  headers_complete_run (h ∷ hs) c r n m f s =
      let (d, first, t) = header_first h c r f.0 s in
      let (g, r', k', v', later, u, e) = headers_run hs d r (name_of h) (value_of h) f.1 t in
      let (c', step, done, arrays) = on_headers_complete-InValue ex lower law g r' k' v' n m u in
      (
        c',
        Runs-append ex (header_events (h ∷ hs)) (headers_complete n m ∷ []) c g c'
            (Runs-append ex (header_event h) (header_events hs) c d g first later)
            (Runs-cons ex (headers_complete n m) [] g c' c' (ap (returns_0 ex) step)
              (Runs-nil ex c')),
        done
            ∙ ap (λ (q : Request ex). completed ex lower law q n m) e
            ∙ ap
                (λ (l : List Header). record r {
                  headers = l;
                  content_length = n;
                  method = of_number m;
                })
                (append_assoc r.headers (lowered_header h ∷ []) (map lowered_header hs)),
        arrays,
      )
