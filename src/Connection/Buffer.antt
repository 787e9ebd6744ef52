-- ===== src/Connection/Buffer.antt =====
-- The two `char` arrays in which csi_http/server/connection.cpp collects the name and the value of a
-- header, and the texts that they hold.
use csi_http.Base.{
  length-drop, length-take, leb→le, Option-cases, Bool-cases, false, inl, inr, All-append, subst,
  take-append_length, >>=_of_some, append_assoc, ◌∙◌, length-append, ◌≤◌, sym, true, ap, take,
  map_some, ltb, length, leb, ◌==◌, ◌>>=◌, set, ◌<◌, ◌++◌, Option, if◌then◌else◌, drop, ◌+◌, arith,
  ℕ, Bytes, none, some, zero, suc, refl, [], ◌∷◌, ◌≡◌,
}
use csi_http.Externals.{NoNul}

-- `MAX_HEADER_SIZE`.
abbrev pub max_header_size : ℕ
max_header_size = 4096

zeros_for : Bytes → Bytes
zeros_for [] = []
zeros_for (c ∷ s) = 0 ∷ zeros_for s

-- The bytes that `strncpy(dst, src, n)` writes, for a source of n bytes: up to a NUL those of the
-- source, and zeros from there.
strncpy_bytes : Bytes → Bytes
unfolding zeros_for
strncpy_bytes [] = []
strncpy_bytes (c ∷ s) = let rest = strncpy_bytes s in if c == 0 then zeros_for (c ∷ s) else c ∷ rest

strncpy : Bytes → ℕ → Bytes → Option Bytes
unfolding strncpy_bytes
strncpy buf off src =
    if leb (off + length src) (length buf)
    then some (take off buf ++ (strncpy_bytes src ++ drop (off + length src) buf))
    else none

store : Bytes → ℕ → ℕ → Option Bytes
store buf i c = if ltb i (length buf) then some (set buf i c) else none

-- A piece of text goes behind those that are there, and a NUL behind it.
unfoldable pub write_text : Bytes → ℕ → Bytes → Option Bytes
unfolding strncpy store
write_text buf len at = do copied ← strncpy buf len at; store copied (len + length at) 0

-- A C string as a `std::string`. `none` is a read past the end of an array with no NUL.
unfoldable pub c_str : Bytes → Option Bytes
c_str [] = none
c_str (c ∷ s) =
    let rest = c_str s in if c == 0 then some [] else map_some (λ (t : Bytes). c ∷ t) rest

-- The array holds a text of a length, with a NUL behind it.
pub record Holds (buf : Bytes) (len : ℕ) (t : Bytes) : Type 0 where
  pub behind : Bytes
  pub cells : buf ≡ t ++ 0 ∷ behind
  pub len_text : length t ≡ len
  pub size : length buf ≡ max_header_size
  pub no_nul : NoNul t

strncpy_bytes-NoNul : (s : Bytes) → NoNul s → strncpy_bytes s ≡ s
unfolding strncpy_bytes
strncpy_bytes-NoNul [] h = refl
strncpy_bytes-NoNul (c ∷ s) h = ground (arith, strncpy_bytes-NoNul s h.1)

set-append : (xs : Bytes) (y v : ℕ) (ys : Bytes) → set (xs ++ y ∷ ys) (length xs) v ≡ xs ++ v ∷ ys
set-append [] y v ys = refl
set-append (x ∷ xs) y v ys = ap (λ (s : Bytes). x ∷ s) (set-append xs y v ys)

drop-add : (xs z : Bytes) (n : ℕ) → drop (length xs + n) (xs ++ z) ≡ drop n z
drop-add [] z n = ap (λ (k : ℕ). drop k z) (omega arith)
drop-add (x ∷ xs) z n =
    let e : suc (length xs) + n ≡ suc (length xs + n) = omega arith in rw e (drop-add xs z n)

drop-cons :
    (n : ℕ) (z : Bytes)
    → n < length z
    → (y : ℕ) × (ys : Bytes) × (drop n z ≡ y ∷ ys) × (length z ≡ n + suc (length ys))
drop-cons n [] h = absurd (omega arith)
drop-cons zero (x ∷ z) h = (x, z, refl, omega arith)
drop-cons (suc n) (x ∷ z) h =
    let (y, ys, e, l) = drop-cons n z (omega arith) in (y, ys, e, omega arith)

pub c_str_text : (t rest : Bytes) → NoNul t → c_str (t ++ 0 ∷ rest) ≡ some t
unfolding c_str
c_str_text [] rest h = refl
c_str_text (c ∷ t) rest h = ground (arith, c_str_text t rest h.1)

strncpy-append :
    (t z at : Bytes)
    → NoNul at
    → length at ≤ length z
    → strncpy (t ++ z) (length t) at ≡ some (t ++ (at ++ drop (length at) z))
unfolding strncpy
strncpy-append t z at clean fits =
    let room : leb (length t + length at) (length (t ++ z)) ≡ true =
      ground (arith, length-append t z) in
    rw (room, take-append_length t z, strncpy_bytes-NoNul at clean, drop-add t z (length at)) refl

store-append :
    (t at : Bytes) (y : ℕ) (ys : Bytes)
    → store (t ++ (at ++ y ∷ ys)) (length t + length at) 0 ≡ some ((t ++ at) ++ 0 ∷ ys)
unfolding store
store-append t at y ys =
    let place : length t + length at ≡ length (t ++ at) = sym (length-append t at) in
    let room : ltb (length (t ++ at)) (length ((t ++ at) ++ y ∷ ys)) ≡ true =
      ground (arith, length-append (t ++ at) (y ∷ ys)) in
    rw (place, ← append_assoc t at (y ∷ ys), room, set-append (t ++ at) y 0 ys) refl

-- A piece that fits is appended to the text.
pub write_text-Holds :
    (buf : Bytes) (len : ℕ) (t at : Bytes)
    → Holds buf len t
    → NoNul at
    → len + length at < max_header_size
    → (buf' : Bytes) × (write_text buf len at ≡ some buf') × Holds buf' (len + length at) (t ++ at)
unfolding write_text
write_text-Holds buf len t at h clean fits =
    let z : Bytes = 0 ∷ h.behind in
    let whole : length (t ++ z) ≡ max_header_size = ap length (sym h.cells) ∙ h.size in
    let parts : length (t ++ z) ≡ length t + length z = length-append t z in
    let len_t : length t ≡ len = h.len_text in
    let (y, ys, cut, rest) = drop-cons (length at) z (omega arith) in
    let run : write_text (t ++ z) (length t) at ≡ some ((t ++ at) ++ 0 ∷ ys) =
      >>=_of_some _ _ (strncpy-append t z at clean (omega arith)) (
        ap (λ (d : Bytes). store (t ++ (at ++ d)) (length t + length at) 0) cut
        ∙ store-append t at y ys) in
    (
      (t ++ at) ++ 0 ∷ ys,
      subst (λ b. write_text b len at ≡ some ((t ++ at) ++ 0 ∷ ys)) (sym h.cells)
          (subst (λ k. write_text (t ++ z) k at ≡ some ((t ++ at) ++ 0 ∷ ys)) len_t run),
      record {
        behind = ys;
        cells = refl;
        len_text = omega (arith, length-append t at);
        size = omega (arith, length-append (t ++ at) (0 ∷ ys), length-append t at);
        no_nul = All-append _ t at h.no_nul clean;
      },
    )

length-zeros_for : (s : Bytes) → length (zeros_for s) ≡ length s
unfolding zeros_for
length-zeros_for [] = refl
length-zeros_for (c ∷ s) = ap suc (length-zeros_for s)

length-strncpy_bytes : (s : Bytes) → length (strncpy_bytes s) ≡ length s
unfolding strncpy_bytes
length-strncpy_bytes [] = refl
length-strncpy_bytes (c ∷ s) = elim (Bool-cases (c == 0)) [
  | inl e ↦ rw e (length-zeros_for (c ∷ s))
  | inr n ↦ rw n (ap suc (length-strncpy_bytes s))
]

-- A copy does not change the size of the array.
length-strncpy :
    (buf : Bytes) (off : ℕ) (src copied : Bytes)
    → strncpy buf off src ≡ some copied
    → length copied ≡ length buf
unfolding strncpy
length-strncpy buf off src copied e = elim (Bool-cases (leb (off + length src) (length buf))) [
  | inr out ↦ cc (rw out at e)
  | inl room ↦
      let tail : Bytes = drop (off + length src) buf in
      let same : ◌≡◌ {A = Option Bytes} (some (take off buf ++ (strncpy_bytes src ++ tail)))
          (some copied) =
        rw room at e in
      let shape : take off buf ++ (strncpy_bytes src ++ tail) ≡ copied = cc same in
      let fits : off + length src ≤ length buf = leb→le _ _ room in
      omega (
        arith,
        ap length shape,
        length-append (take off buf) (strncpy_bytes src ++ tail),
        length-append (strncpy_bytes src) tail,
        length-take off buf,
        length-strncpy_bytes src,
        length-drop (off + length src) buf,
      )
]

-- A piece that leaves no room for the NUL behind it faults.
pub write_text_overflow :
    (buf : Bytes) (len : ℕ) (at : Bytes)
    → length buf ≡ max_header_size
    → max_header_size ≤ len + length at
    → write_text buf len at ≡ none
unfolding write_text
write_text_overflow buf len at size over = elim (Option-cases (strncpy buf len at)) [
  | inl out ↦ rw out
  | inr (copied, e) ↦
      let full : ltb (len + length at) (length copied) ≡ false =
        ground (arith, length-strncpy buf len at copied e) in
      rw (e, store) (rw full)
]
