-- ===== src/Connection/Headers.antt =====
-- The header callbacks of csi_http/server/connection.cpp, one at a time, while the pieces fit into
-- the two arrays and hold no NUL.
use csi_http.Base.{
  length-append, Bool, ◌∙◌, arith, ◌+◌, set, ap, ◌<◌, ◌++◌, ℕ, length, >>=_of_some, Bytes, true,
  false, some, refl, [], ◌∷◌, ◌≡◌,
}
use csi_http.Externals.{Externals, IsExternals, NoNul}
use csi_http.Status.{of_number}
use csi_http.Reply.{Header}
use csi_http.Request.{Request}
use csi_http.Connection.Buffer.{Holds, max_header_size, write_text-Holds, c_str, c_str_text}
use csi_http.Connection.{
  Connection, push_complete, push_header, on_header_field, on_header_value, on_headers_complete,
}

-- The request as it stands, and the piece of a name that has come so far.
pub record InField (ex : Externals) (c : Connection ex) (r : Request ex) (k : Bytes) : Type 0 where
  pub request : c.request ≡ r
  pub last : c.last_header_was_value ≡ false
  pub key : Holds c.current_header_key c.current_header_key_len k
  pub val : Holds c.current_header_val c.current_header_val_len []

-- The request as it stands, a whole name and the piece of its value that has come so far.
pub record InValue (ex : Externals) (c : Connection ex) (r : Request ex) (k v : Bytes)
    : Type 0 where
  pub request : c.request ≡ r
  pub last : c.last_header_was_value ≡ true
  pub key : Holds c.current_header_key c.current_header_key_len k
  pub val : Holds c.current_header_val c.current_header_val_len v

-- Both arrays have their size.
pub record HasArrays (ex : Externals) (c : Connection ex) : Type 0 where
  pub key : length c.current_header_key ≡ max_header_size
  pub val : length c.current_header_val ≡ max_header_size

pub Holds-cleared : (buf : Bytes) → length buf ≡ max_header_size → Holds (set buf 0 0) 0 []
Holds-cleared [] size = absurd (omega arith)
Holds-cleared (c ∷ s) size = record {
  behind = s;
  cells = refl;
  len_text = refl;
  size = omega arith;
  no_nul = tt;
}

module _ (ex : Externals) (lower : Bytes → Bytes) (law : IsExternals ex lower) where
  abbrev pub lowered : Bytes → Bytes → Header
  lowered k v = record { name = lower k; value = lower v }

  abbrev pub with_header : Request ex → Bytes → Bytes → Request ex
  with_header r k v = record r { headers = r.headers ++ lowered k v ∷ [] }

  lowered_cells :
      (buf : Bytes) (n : ℕ) (t : Bytes) (h : Holds buf n t)
      → ex.to_lower buf ≡ lower t ++ 0 ∷ h.behind
  lowered_cells buf n t h = ap ex.to_lower h.cells ∙ law.to_lower_text t h.behind h.no_nul

  lowered_text :
      (buf : Bytes) (n : ℕ) (t : Bytes) → Holds buf n t → c_str (ex.to_lower buf) ≡ some (lower t)
  lowered_text buf n t h =
      ap c_str (lowered_cells buf n t h)
      ∙ c_str_text (lower t) h.behind (law.lower-NoNul t h.no_nul)

  lowered_cleared :
      (buf : Bytes) (n : ℕ) (t : Bytes) → Holds buf n t → Holds (set (ex.to_lower buf) 0 0) 0 []
  lowered_cleared buf n t h =
      let same : length buf ≡ length t + length (0 ∷ h.behind) =
        ap length h.cells ∙ length-append t (0 ∷ h.behind) in
      Holds-cleared (ex.to_lower buf) (
        ap length (lowered_cells buf n t h)
        ∙ length-append (lower t) (0 ∷ h.behind)
        ∙ omega (arith, law.length-lower t, h.size))

  pub push_header-InField :
      (c : Connection ex) (r : Request ex) (k v : Bytes)
      → InValue ex c r k v
      → (c' : Connection ex) × (push_header ex c ≡ some c')
        × InField ex (record c' { last_header_was_value = false }) (with_header r k v) []
  unfolding push_header
  push_header-InField c r k v s = (
    _,
    >>=_of_some _ _ (lowered_text _ _ k s.key) (>>=_of_some _ _ (lowered_text _ _ v s.val) refl),
    record {
      request = ap (λ (q : Request ex). with_header q k v) s.request;
      last = refl;
      key = lowered_cleared _ _ k s.key;
      val = lowered_cleared _ _ v s.val;
    },
  )

  pub on_header_field-InField :
      (c : Connection ex) (r : Request ex) (k at : Bytes)
      → InField ex c r k
      → NoNul at
      → length k + length at < max_header_size
      → (c' : Connection ex) × (on_header_field ex at c ≡ some c') × InField ex c' r (k ++ at)
  unfolding on_header_field
  on_header_field-InField c r k at s clean fits =
      let len : length k ≡ c.current_header_key_len = s.key.len_text in
      let (buf, run, held) = write_text-Holds _ _ k at s.key clean (omega arith) in
      (
        _,
        >>=_of_some _ _ (ap (λ (b : Bool). push_complete ex b c) s.last) (>>=_of_some _ _ run refl),
        record { request = s.request; last = refl; key = held; val = s.val },
      )

  pub on_header_field-InValue :
      (c : Connection ex) (r : Request ex) (k v at : Bytes)
      → InValue ex c r k v
      → NoNul at
      → length at < max_header_size
      → (c' : Connection ex) × (on_header_field ex at c ≡ some c')
        × InField ex c' (with_header r k v) at
  unfolding on_header_field
  on_header_field-InValue c r k v at s clean fits =
      let (d, pushed, f) = push_header-InField c r k v s in
      let len : 0 ≡ d.current_header_key_len = f.key.len_text in
      let (buf, run, held) = write_text-Holds _ _ [] at f.key clean (omega arith) in
      (
        _,
        >>=_of_some _ _ (ap (λ (b : Bool). push_complete ex b c) s.last ∙ pushed)
            (>>=_of_some _ _ run refl),
        record { request = f.request; last = refl; key = held; val = f.val },
      )

  pub on_header_value-InField :
      (c : Connection ex) (r : Request ex) (k at : Bytes)
      → InField ex c r k
      → NoNul at
      → length at < max_header_size
      → (c' : Connection ex) × (on_header_value ex at c ≡ some c') × InValue ex c' r k at
  unfolding on_header_value
  on_header_value-InField c r k at s clean fits =
      let len : 0 ≡ c.current_header_val_len = s.val.len_text in
      let (buf, run, held) = write_text-Holds _ _ [] at s.val clean (omega arith) in
      (
        _,
        >>=_of_some _ _ run refl,
        record { request = s.request; last = refl; key = s.key; val = held },
      )

  pub on_header_value-InValue :
      (c : Connection ex) (r : Request ex) (k v at : Bytes)
      → InValue ex c r k v
      → NoNul at
      → length v + length at < max_header_size
      → (c' : Connection ex) × (on_header_value ex at c ≡ some c') × InValue ex c' r k (v ++ at)
  unfolding on_header_value
  on_header_value-InValue c r k v at s clean fits =
      let len : length v ≡ c.current_header_val_len = s.val.len_text in
      let (buf, run, held) = write_text-Holds _ _ v at s.val clean (omega arith) in
      (
        _,
        >>=_of_some _ _ run refl,
        record { request = s.request; last = refl; key = s.key; val = held },
      )

  abbrev pub completed : Request ex → ℕ → ℕ → Request ex
  completed r n m = record r { content_length = n; method = of_number m }

  pub on_headers_complete-InField :
      (c : Connection ex) (r : Request ex) (k : Bytes) (n m : ℕ)
      → InField ex c r k
      → (c' : Connection ex) × (on_headers_complete ex n m c ≡ some c')
        × (c'.request ≡ completed r n m)
        × HasArrays ex c'
  unfolding on_headers_complete
  on_headers_complete-InField c r k n m s = (
    _,
    >>=_of_some _ _ (ap (λ (b : Bool). push_complete ex b c) s.last) refl,
    ap (λ (q : Request ex). completed q n m) s.request,
    record { key = s.key.size; val = s.val.size },
  )

  pub on_headers_complete-InValue :
      (c : Connection ex) (r : Request ex) (k v : Bytes) (n m : ℕ)
      → InValue ex c r k v
      → (c' : Connection ex) × (on_headers_complete ex n m c ≡ some c')
        × (c'.request ≡ completed (with_header r k v) n m)
        × HasArrays ex c'
  unfolding on_headers_complete
  on_headers_complete-InValue c r k v n m s =
      let (d, pushed, f) = push_header-InField c r k v s in
      (
        _,
        >>=_of_some _ _ (ap (λ (b : Bool). push_complete ex b c) s.last ∙ pushed) refl,
        ap (λ (q : Request ex). completed q n m) f.request,
        record { key = f.key.size; val = f.val.size },
      )
