-- ===== src/HttpClient/Uploads.antt =====
-- How libcurl, with the callbacks of csi_http/client/http_client.cpp, reads the whole content of a
-- request: it calls the read callback with the room it has until the callback gives no byte.
use csi_http.Base.{
  Bool, >>=_of_some, ◌∙◌, false, take-append-drop, ap, length-drop, ◌⊎◌, ◌-◌, inl, inr, map_some,
  ◌==◌, drop, ◌++◌, arith, ◌^◌, if◌then◌else◌, take, Option, ◌<◌, Bytes, ◌≡◌, ℕ, List, none, some,
  zero, suc, refl, [], ◌∷◌, length,
}
use csi_http.Avro.{AvroMemory, IsAvroMemory}
use csi_http.Status.{MethodT, put, post}
use csi_http.HttpClient.CallContext.{
  CallContext, EasyOption, prepare, tx_content_length, upload, http_post, open_socket_function,
  close_socket_function, verbose_options, curl_start, easy_options, method_options, in_file_size,
  post_field_size,
}
use csi_http.HttpClient.Streams.{read_loop, byte_size, read_callback_avro_stream}

-- Every room is for at least a byte and is a `size_t`.
abbrev pub IsRoom : List ℕ → Type 0
IsRoom [] = Unit
IsRoom (n ∷ ns) = (0 < n) × (n < 2 ^ 64) × IsRoom ns

abbrev pub size_of : EasyOption → Option ℕ
size_of (in_file_size n) = some n
size_of (post_field_size n) = some n
size_of _ = none

-- The size of the content that the options announce. A later option replaces an earlier one.
abbrev pub announced : List EasyOption → Option ℕ
announced [] = none
announced (o ∷ os) = elim (announced os) [ some k ↦ some k | none ↦ size_of o ]

announced-append :
    (a b : List EasyOption) {n : ℕ} → announced b ≡ some n → announced (a ++ b) ≡ some n
announced-append [] b h = h
announced-append (o ∷ a) b h = rw (announced-append a b h)

read_loop-take : (n : ℕ) (s : Bytes) → read_loop n s ≡ (take n s, drop n s)
unfolding read_loop
read_loop-take zero s = refl
read_loop-take (suc n) [] = refl
read_loop-take (suc n) (b ∷ s) = rw (read_loop-take n s) refl

-- A read that gives no byte is at the end, and one that gives some leaves less to read.
read_next :
    (n k : ℕ) (s : Bytes) (rest : Option Bytes)
    → 0 < n
    → length s < suc k
    → (length (drop n s) < k → rest ≡ some (drop n s))
    → (if length (take n s) == 0 then some [] else map_some (λ later. take n s ++ later) rest)
      ≡ some s
read_next zero k s rest p h ih = absurd (omega arith)
read_next (suc n) k [] rest p h ih = refl
read_next (suc n) k (b ∷ s) rest p h ih =
    let left : length (drop n s) ≡ length s - n = length-drop n s in
    let some_read : (suc (length (take n s)) == 0) ≡ false = ground arith in
    rw some_read (rw (ih (omega arith)) (ap (λ (t : Bytes). some (b ∷ t)) (take-append-drop n s)))

module _ (av : AvroMemory) where
  -- What curl has read when the callback gives no byte, when it has the given rooms. `none` where
  -- they are too few.
  unfoldable pub upload_all : List ℕ → CallContext av → Option Bytes
  unfolding read_callback_avro_stream
  upload_all [] c = none
  upload_all (room ∷ rooms) c =
      let (c', stored, n) = read_callback_avro_stream av 1 room c in
      let rest = upload_all rooms c' in
      if n == 0 then some [] else map_some (λ later. stored ++ later) rest

  upload_all-whole :
      (rooms : List ℕ) (c : CallContext av)
      → IsRoom rooms
      → length c.avro_tx_stream < length rooms
      → upload_all rooms c ≡ some c.avro_tx_stream
  unfolding upload_all read_callback_avro_stream
  upload_all-whole [] c ok h = absurd (omega arith)
  upload_all-whole (room ∷ rooms) c (p, q, ok) h =
      let s : Bytes = c.avro_tx_stream in
      let n_eq : byte_size 1 room ≡ room = omega arith in
      rw n_eq (
        rw (read_loop-take room s) (
          read_next room (length rooms) s
            (upload_all rooms (record c { avro_tx_stream = drop room s })) p h
            (upload_all-whole rooms (record c { avro_tx_stream = drop room s }) ok)))

module _ (av : AvroMemory) (law : IsAvroMemory av) where
  -- The options that follow those for the method announce no size.
  method_options-announced :
      (nd : Bool) (m : MethodT) (n : ℕ)
      → (m ≡ put) ⊎ (m ≡ post)
      → (os : List EasyOption) × (method_options av nd m n ≡ some os)
        × ((rest : List EasyOption) → announced rest ≡ none → announced (os ++ rest) ≡ some n)
  unfolding method_options
  method_options-announced nd m n (inl e) =
      rw e (upload ∷ in_file_size n ∷ [], refl, λ rest h. rw h refl)
  method_options-announced nd m n (inr e) =
      rw e (http_post ∷ post_field_size n ∷ [], refl, λ rest h. rw h refl)

  easy_options-announced :
      (nd : Bool) (c : CallContext av)
      → (c.method ≡ put) ⊎ (c.method ≡ post)
      → (os : List EasyOption) × (easy_options av nd c ≡ some os)
        × (announced os ≡ some (tx_content_length av c))
  unfolding easy_options
  easy_options-announced nd c m =
      let (os, e, size) = method_options-announced nd c.method (tx_content_length av c) m in
      (
        _,
        >>=_of_some (method_options av nd c.method (tx_content_length av c)) _ e refl,
        announced-append
            (open_socket_function ∷ close_socket_function ∷ verbose_options av c.curl_verbose) _
            (size _ refl),
      )

  -- A request with PUT or POST that `_perform` has prepared announces the size of its content, and
  -- curl then reads just this content, whatever the positive rooms are that it reads with, once there
  -- are more of them than the content has bytes.
  pub prepare-upload :
      (nd : Bool) (c : CallContext av) (rooms : List ℕ)
      → (c.method ≡ put) ⊎ (c.method ≡ post)
      → IsRoom rooms
      → tx_content_length av c < length rooms
      → (c' : CallContext av) × (content : Bytes) × (prepare av nd c ≡ some c')
        × (upload_all av rooms c' ≡ some content)
        × (content ≡ av.memory_input_stream c.avro_tx_buffer)
        × (announced c'.curl_easy ≡ some (length content))
  unfolding prepare curl_start
  prepare-upload nd c rooms m ok h =
      let (os, e, size) = easy_options-announced nd (curl_start av c) m in
      let count : tx_content_length av c ≡ length (av.memory_input_stream c.avro_tx_buffer) =
        law.byte_count-length _ in
      (
        _,
        _,
        >>=_of_some (easy_options av nd (curl_start av c)) _ e refl,
        upload_all-whole av rooms _ ok (omega arith),
        refl,
        announced-append c.curl_easy os (size ∙ ap (λ (n : ℕ). some n) count),
      )
