-- ===== src/Reply/Create.antt =====
-- The headers that `reply_t::create` of csi_http/server/reply.cpp makes.
use csi_http.Base.{
  map_some, >>=_of_some, ◌∙◌, arith, decimal, ◌+◌, ◌<◌, ap, ◌==◌, print_int, set, if◌then◌else◌,
  ◌++◌, ◌^◌, List, codes, ℕ, Bytes, false, some, zero, suc, refl, [], ◌∷◌, ◌≡◌, print_int_of_lt,
  print_int-eq-decimal, sym, ◌↔◌,
}
use csi_http.Avro.{AvroMemory}
use csi_http.Status.{StatusType}
use csi_http.Reply.{Header, blank, Reply, resize, create}

set-resize :
    (n : ℕ) (hs : List Header) (x : Header) → set (resize (suc n) hs) n x ≡ resize n hs ++ x ∷ []
set-resize zero [] x = refl
set-resize zero (h ∷ hs) x = refl
set-resize (suc n) [] x = ap (◌∷◌ blank) (set-resize n [] x)
set-resize (suc n) (h ∷ hs) x = ap (◌∷◌ h) (set-resize n hs x)

set-set-resize :
    (n : ℕ) (hs : List Header) (x y : Header)
    → set (set (resize (suc (suc n)) hs) n x) (suc n) y ≡ resize n hs ++ x ∷ y ∷ []
set-set-resize zero [] x y = refl
set-set-resize zero (h ∷ []) x y = refl
set-set-resize zero (h ∷ h' ∷ hs) x y = refl
set-set-resize (suc n) [] x y = ap (◌∷◌ blank) (set-set-resize n [] x y)
set-set-resize (suc n) (h ∷ hs) x y = ap (◌∷◌ h) (set-set-resize n hs x y)

abbrev pub content_length_of : Bytes → Header
content_length_of value = record { name = codes "Content-Length"; value = value }

abbrev pub content_type_of : Bytes → Header
content_type_of value = record { name = codes "Content-Type"; value = value }

-- The headers of a reply with so much content.
abbrev pub content_headers : Bytes → ℕ → List Header
content_headers content_type zero = content_length_of (codes "0") ∷ []
content_headers content_type (suc n) =
    content_length_of (print_int (suc n)) ∷ content_type_of content_type ∷ []

module _ (av : AvroMemory) where
  -- `create` of a reply that has a buffer sets the status and leaves the content. The headers are
  -- the first `extra_headers` of those that the reply had, blank ones where there were fewer, then
  -- Content-Length with the size of the content and, if there is content, Content-Type.
  pub create_headers :
      (status : StatusType) (content_type : Bytes) (extra_headers : ℕ) (r : Reply av)
      (s : av.Stream)
      → r.avro_tx_buffer ≡ some s
      → (r' : Reply av) × (create av status content_type extra_headers r ≡ some r')
        × (r'.headers
            ≡ resize extra_headers r.headers ++ content_headers content_type (av.byte_count s))
        × (r'.status ≡ status)
        × (r'.avro_tx_buffer ≡ some s)
  unfolding create
  create_headers status content_type extra_headers r s e =
      (_, >>=_of_some _ _ (ap (map_some av.byte_count) e) refl, headers (av.byte_count s), refl, e)
    where
      headers :
          (sz : ℕ)
          → (if sz == 0
              then set
                  (resize (1 + extra_headers) r.headers)
                  extra_headers
                  (content_length_of (codes "0"))
              else set
                  (set
                    (resize (2 + extra_headers) r.headers)
                    extra_headers
                    (content_length_of (print_int sz)))
                  (extra_headers + 1)
                  (content_type_of content_type))
            ≡ resize extra_headers r.headers ++ content_headers content_type sz
      headers zero =
          let one : 1 + extra_headers ≡ suc extra_headers = omega arith in
          ap (λ (n : ℕ). set (resize n r.headers) extra_headers (content_length_of (codes "0"))) one
          ∙ set-resize extra_headers r.headers _
      headers (suc n) =
          let big : (suc n == 0) ≡ false = ground arith in
          let two : 2 + extra_headers ≡ suc (suc extra_headers) = omega arith in
          let one : extra_headers + 1 ≡ suc extra_headers = omega arith in
          rw (big, two, one) (set-set-resize extra_headers r.headers _ _)

  first_content_header :
      (content_type : Bytes) (n : ℕ)
      → (v : Bytes) × (rest : List Header) × (content_headers content_type n
          ≡ content_length_of v ∷ rest)
        × (v ≡ print_int n)
  unfolding print_int decimal
  first_content_header content_type zero = (_, _, refl, refl)
  first_content_header content_type (suc n) = (_, _, refl, refl)

  -- Behind its extra headers a created reply has a Content-Length, whose value is the decimal size of the
  -- content where that is below 2^31, and is another text for every size from there on.
  pub create_content_length :
      (status : StatusType) (content_type : Bytes) (extra_headers : ℕ) (r : Reply av)
      (s : av.Stream)
      → r.avro_tx_buffer ≡ some s
      → (r' : Reply av) × (v : Bytes) × (rest : List Header) × (create av status content_type
            extra_headers r
          ≡ some r')
        × (r'.headers ≡ resize extra_headers r.headers ++ content_length_of v ∷ rest)
        × ((v ≡ decimal (av.byte_count s)) ↔ (av.byte_count s < 2 ^ 31))
  create_content_length status content_type extra_headers r s e =
      let (r', run, hs, st, buf) = create_headers status content_type extra_headers r s e in
      let (v, rest, first, printed) = first_content_header content_type (av.byte_count s) in
      (
        r',
        v,
        rest,
        run,
        hs ∙ ap (λ (l : List Header). resize extra_headers r.headers ++ l) first,
        (
          λ d. print_int-eq-decimal (av.byte_count s) (sym printed ∙ d),
          λ l. printed ∙ print_int_of_lt (av.byte_count s) l,
        ),
      )
