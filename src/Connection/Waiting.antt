-- ===== src/Connection/Waiting.antt =====
-- The parser's callbacks in csi_http/server/connection.cpp do not touch `_waiting_for_async_reply`.
use csi_http.Base.{
  Option-cases, zero, suc, ◌==◌, sym, ◌∙◌, Bool-cases, ap, Option, ◌≡◌, List, true, false, none,
  some, inl, inr, [], ◌∷◌, ℕ, Bool, Bytes, >>=-eq-some, some-inj, map_some-eq-some,
}
use csi_http.Externals.{
  Externals, Event, message_begin, url, header_field, header_value, body, headers_complete,
  message_complete,
}
use csi_http.Connection.Buffer.{c_str, write_text}
use csi_http.Connection.{
  append_part, Connection, push_complete, push_header, on_url, on_header_field, on_header_value,
  on_headers_complete, on_message_begin, on_body, on_message_complete, returns_0, call_back,
  run_callbacks, http_parse, after_parse,
}

module _ (ex : Externals) where
  abbrev flag_of : Connection ex → Bool
  flag_of c = c.waiting_for_async_reply

  push_complete-flag_of :
      (last : Bool) (c d : Connection ex) → push_complete ex last c ≡ some d → flag_of d ≡ flag_of c
  unfolding push_header
  push_complete-flag_of false c d h = ap flag_of (sym (some-inj h))
  push_complete-flag_of true c d h =
      let (name, e, g) = >>=-eq-some (c_str (ex.to_lower c.current_header_key)) _ h in
      let (value, e', g') = >>=-eq-some (c_str (ex.to_lower c.current_header_val)) _ g in
      ap flag_of (sym (some-inj g'))

  on_url-flag_of :
      (at : Bytes) (c d : Connection ex) (n : ℕ)
      → on_url ex at c ≡ some (d, n)
      → flag_of d ≡ flag_of c
  unfolding on_url
  on_url-flag_of at c d n h = elim (Bool-cases ((ex.parse_url at).result == 0)) [
    | inl ok ↦
        let (path, e, g) =
          >>=-eq-some (append_part ex c.request.url at (ex.parse_url at).path) _ (rw ok at h) in
        let (query, e', g') =
          >>=-eq-some (append_part ex c.request.query at (ex.parse_url at).query) _ g in
        ap (λ (r : Connection ex × ℕ). flag_of r.0) (sym (some-inj g'))
    | inr bad ↦ ap (λ (r : Connection ex × ℕ). flag_of r.0) (sym (some-inj (rw bad at h)))
  ]

  on_header_field-flag_of :
      (at : Bytes) (c d : Connection ex) → on_header_field ex at c ≡ some d → flag_of d ≡ flag_of c
  unfolding on_header_field
  on_header_field-flag_of at c d h =
      let (p, e, g) = >>=-eq-some (push_complete ex c.last_header_was_value c) _ h in
      let (key, e', g') =
        >>=-eq-some (write_text p.current_header_key p.current_header_key_len at) _ g in
      ap flag_of (sym (some-inj g')) ∙ push_complete-flag_of c.last_header_was_value c p e

  on_header_value-flag_of :
      (at : Bytes) (c d : Connection ex) → on_header_value ex at c ≡ some d → flag_of d ≡ flag_of c
  unfolding on_header_value
  on_header_value-flag_of at c d h =
      let (val, e, g) =
        >>=-eq-some (write_text c.current_header_val c.current_header_val_len at) _ h in
      ap flag_of (sym (some-inj g))

  on_headers_complete-flag_of :
      (n m : ℕ) (c d : Connection ex)
      → on_headers_complete ex n m c ≡ some d
      → flag_of d ≡ flag_of c
  unfolding on_headers_complete
  on_headers_complete-flag_of n m c d h =
      let (p, e, g) = >>=-eq-some (push_complete ex c.last_header_was_value c) _ h in
      ap flag_of (sym (some-inj g)) ∙ push_complete-flag_of c.last_header_was_value c p e

  returns_0-flag_of :
      (o : Option (Connection ex)) (r : Connection ex × ℕ) → returns_0 ex o ≡ some r → o ≡ some r.0
  returns_0-flag_of o r h =
      let (a, e, g) = map_some-eq-some (λ (d : Connection ex). (d, 0)) o h in
      e ∙ ap (λ (q : Connection ex × ℕ). some q.0) g

  call_back-flag_of :
      (e : Event) (c : Connection ex) (r : Connection ex × ℕ)
      → call_back ex e c ≡ some r
      → flag_of r.0 ≡ flag_of c
  unfolding call_back on_message_begin on_body on_message_complete
  call_back-flag_of message_begin c r h =
      ap (λ (q : Connection ex × ℕ). flag_of q.0) (sym (some-inj h))
  call_back-flag_of (url at) c (d, n) h = on_url-flag_of at c d n h
  call_back-flag_of (header_field at) c r h =
      on_header_field-flag_of at c r.0 (returns_0-flag_of _ r h)
  call_back-flag_of (header_value at) c r h =
      on_header_value-flag_of at c r.0 (returns_0-flag_of _ r h)
  call_back-flag_of (headers_complete n m) c r h =
      on_headers_complete-flag_of n m c r.0 (returns_0-flag_of _ r h)
  call_back-flag_of (body at) c r h = ap (λ (q : Connection ex × ℕ). flag_of q.0) (sym (some-inj h))
  call_back-flag_of (message_complete k) c r h =
      ap (λ (q : Connection ex × ℕ). flag_of q.0) (sym (some-inj h))

  run_callbacks-flag_of :
      (k : ℕ) (es : List Event) (c : Connection ex) (r : Connection ex × Option ℕ)
      → run_callbacks ex k es c ≡ some r
      → flag_of r.0 ≡ flag_of c
  unfolding run_callbacks
  run_callbacks-flag_of k [] c r h =
      ap (λ (q : Connection ex × Option ℕ). flag_of q.0) (sym (some-inj h))
  run_callbacks-flag_of k (e ∷ es) c r h = elim (Option-cases (call_back ex e c)) [
    | inl fault ↦ cc (rw fault at h)
    | inr ((d, zero), made) ↦
        run_callbacks-flag_of (suc k) es d r (rw made at h) ∙ call_back-flag_of e c (d, zero) made
    | inr ((d, suc n), made) ↦
        ap (λ (q : Connection ex × Option ℕ). flag_of q.0) (sym (some-inj (rw made at h)))
        ∙ call_back-flag_of e c (d, suc n) made
  ]

  pub http_parse-waiting :
      (buffer : Bytes) (c : Connection ex) (r : Connection ex × ℕ)
      → http_parse ex buffer c ≡ some r
      → r.0.waiting_for_async_reply ≡ c.waiting_for_async_reply
  unfolding http_parse
  http_parse-waiting buffer c r h =
      let (q, run, g) =
        map_some-eq-some (after_parse ex buffer c.parser)
          (run_callbacks ex 0 (ex.events c.parser buffer) c) h in
      after q g ∙ run_callbacks-flag_of 0 (ex.events c.parser buffer) c q run
    where
      after :
          (q : Connection ex × Option ℕ)
          → after_parse ex buffer c.parser q ≡ r
          → flag_of r.0 ≡ flag_of q.0
      after (d, none) g = ap (λ (q : Connection ex × ℕ). flag_of q.0) (sym g)
      after (d, some k) g = ap (λ (q : Connection ex × ℕ). flag_of q.0) (sym g)
