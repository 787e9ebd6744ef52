-- ===== src/Connection/Faults.antt =====
-- What becomes of a header that is too long for the arrays of csi_http/server/connection.cpp.
use csi_http.Base.{
  le-or-lt, Bool, ap, >>=_of_some, ◌⊎◌, arith, ◌++◌, ◌≡◌, ◌<◌, ◌+◌, ◌≤◌, length, none, some, refl,
  inl, inr, Bytes,
}
use csi_http.Externals.{Externals, IsExternals, NoNul}
use csi_http.Request.{Request}
use csi_http.Connection.Buffer.{max_header_size, write_text_overflow}
use csi_http.Connection.Headers.{InField, InValue, on_header_field-InField, on_header_value-InValue}
use csi_http.Connection.{Connection, push_complete, on_header_field, on_header_value}

module _ (ex : Externals) (lower : Bytes → Bytes) (law : IsExternals ex lower) where
  on_header_field_overflow :
      (c : Connection ex) (r : Request ex) (k at : Bytes)
      → InField ex c r k
      → max_header_size ≤ length k + length at
      → on_header_field ex at c ≡ none
  unfolding on_header_field
  on_header_field_overflow c r k at s over =
      let len : length k ≡ c.current_header_key_len = s.key.len_text in
      let out =
        write_text_overflow c.current_header_key c.current_header_key_len at s.key.size
          (omega arith) in
      >>=_of_some _ _ (ap (λ (b : Bool). push_complete ex b c) s.last) (rw out refl)

  -- A further piece of a header's name, with no NUL in it, is put behind the pieces that came before
  -- as long as all of them together are shorter than the array; from there on the write goes past its
  -- end.
  pub on_header_field_bounds :
      (c : Connection ex) (r : Request ex) (k at : Bytes)
      → InField ex c r k
      → NoNul at
      → ((length k + length at < max_header_size)
          × (c' : Connection ex) × (on_header_field ex at c ≡ some c')
          × InField ex c' r (k ++ at))
        ⊎ ((max_header_size ≤ length k + length at) × (on_header_field ex at c ≡ none))
  on_header_field_bounds c r k at s clean = elim (le-or-lt max_header_size (length k + length at)) [
    | inl over ↦ inr (over, on_header_field_overflow c r k at s over)
    | inr fits ↦
        let (c', run, held) = on_header_field-InField ex lower law c r k at s clean fits in
        inl (fits, c', run, held)
  ]

  on_header_value_overflow :
      (c : Connection ex) (r : Request ex) (k v at : Bytes)
      → InValue ex c r k v
      → max_header_size ≤ length v + length at
      → on_header_value ex at c ≡ none
  unfolding on_header_value
  on_header_value_overflow c r k v at s over =
      let len : length v ≡ c.current_header_val_len = s.val.len_text in
      let out =
        write_text_overflow c.current_header_val c.current_header_val_len at s.val.size
          (omega arith) in
      rw out refl

  -- A further piece of a header's value, with no NUL in it, is put behind the pieces that came before
  -- as long as all of them together are shorter than the array; from there on the write goes past its
  -- end.
  pub on_header_value_bounds :
      (c : Connection ex) (r : Request ex) (k v at : Bytes)
      → InValue ex c r k v
      → NoNul at
      → ((length v + length at < max_header_size)
          × (c' : Connection ex) × (on_header_value ex at c ≡ some c')
          × InValue ex c' r k (v ++ at))
        ⊎ ((max_header_size ≤ length v + length at) × (on_header_value ex at c ≡ none))
  on_header_value_bounds c r k v at s clean =
      elim (le-or-lt max_header_size (length v + length at)) [
        | inl over ↦ inr (over, on_header_value_overflow c r k v at s over)
        | inr fits ↦
            let (c', run, held) = on_header_value-InValue ex lower law c r k v at s clean fits in
            inl (fits, c', run, held)
      ]
