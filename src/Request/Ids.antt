-- ===== src/Request/Ids.antt =====
-- The ids of csi_http/server/request.cpp: `request_id` and `request_uuid` each give out the same again. A call of
-- `request_uuid` can still replace an id that `request_id` gave out and that spells no uuid.
use csi_http.Base.{
  Option-cases, ap, Bool-cases, ◌≢◌, Bytes, false, some, refl, inl, inr, [], ◌∷◌, ◌≡◌,
}
use csi_http.Externals.{Externals, IsExternals}
use csi_http.Request.{Request, is_empty, with_id, with_random, get_header, request_id, request_uuid}

module _ (ex : Externals) where
  -- A uuid that is set is the one that the id spells.
  abbrev pub IsConsistent : Request ex → Type 0
  IsConsistent r =
      ex.is_nil r.request_uuid ≡ false → ex.string_generator r.request_id ≡ some r.request_uuid

not_empty : (s : Bytes) → s ≢ [] → is_empty s ≡ false
not_empty [] h = absurd (h refl)
not_empty (c ∷ s) h = refl

not_nil : (s : Bytes) → is_empty s ≡ false → s ≢ []
not_nil s h e = cc (ap is_empty e)

module _ (ex : Externals) where
  -- What `request_id` returned is settled.
  abbrev pub IsSettled : Request ex × Bytes → Type 0
  IsSettled p =
      (p.1 ≢ [])
      × (p.0.request_id ≡ p.1)
      × ((h : Bytes) (random : ex.Uuid) → request_id ex h random p.0 ≡ p)

  settled : (r : Request ex) → is_empty r.request_id ≡ false → IsSettled (r, r.request_id)
  unfolding request_id
  settled r full = (not_nil r.request_id full, refl, λ h random. rw full)

  -- The three ways in which `request_id` can go.
  pub request_id_elim :
      (P : Request ex × Bytes → Type 0) (h : Bytes) (random : ex.Uuid) (r : Request ex)
      → (is_empty r.request_id ≡ false → P (r, r.request_id))
      → (is_empty (get_header ex h r) ≡ false
          → (u : ex.Uuid) → P (with_id ex (get_header ex h r) u r, get_header ex h r))
      → P (with_random ex random r, ex.uuid_to_string random)
      → P (request_id ex h random r)
  unfolding request_id
  request_id_elim P h random r known given drawn = elim (Bool-cases (is_empty r.request_id)) [
    | inr full ↦ rw full (known full)
    | inl fresh ↦ elim (Bool-cases (is_empty (get_header ex h r))) [
      | inr named ↦ rw (fresh, named) (given named _)
      | inl absent ↦ rw (fresh, absent) drawn
    ]
  ]

  -- The three ways in which `request_uuid` can go.
  pub request_uuid_elim :
      (P : Request ex × ex.Uuid → Type 0) (h : Bytes) (random : ex.Uuid) (r : Request ex)
      → (ex.is_nil r.request_uuid ≡ false → P (r, r.request_uuid))
      → ((u : ex.Uuid)
          → is_empty (get_header ex h r) ≡ false
          → ex.string_generator (get_header ex h r) ≡ some u
          → P (with_id ex (get_header ex h r) u r, u))
      → P (with_random ex random r, random)
      → P (request_uuid ex h random r)
  unfolding request_uuid
  request_uuid_elim P h random r known given drawn = elim (Bool-cases (ex.is_nil r.request_uuid)) [
    | inr full ↦ rw full (known full)
    | inl fresh ↦ elim (Bool-cases (is_empty (get_header ex h r))) [
      | inr named ↦ elim (Option-cases (ex.string_generator (get_header ex h r))) [
        | inl bad ↦ rw (fresh, named, bad) drawn
        | inr (u, good) ↦ rw (fresh, named, good) (given u named good)
      ]
      | inl absent ↦ rw (fresh, absent) drawn
    ]
  ]

module _ (ex : Externals) (h : Bytes) (random : ex.Uuid) where
  known_again :
      (r : Request ex)
      → ex.is_nil r.request_uuid ≡ false
      → request_uuid ex h random r ≡ (r, r.request_uuid)
  unfolding request_uuid
  known_again r full = rw full

  given_again :
      (r : Request ex) (u : ex.Uuid)
      → is_empty (get_header ex h r) ≡ false
      → ex.string_generator (get_header ex h r) ≡ some u
      → request_uuid ex h random (with_id ex (get_header ex h r) u r)
        ≡ (with_id ex (get_header ex h r) u r, u)
  unfolding request_uuid
  given_again r u named good = elim (Bool-cases (ex.is_nil u)) [
    | inr full ↦ rw full
    | inl fresh ↦ rw (fresh, named, good)
  ]

module _ (ex : Externals) (lower : Bytes → Bytes) (law : IsExternals ex lower) where
  -- The id that `request_id` returns is not empty and is the request's own from then on: every later
  -- call returns it again, whatever header it names and whatever uuid it would draw, and changes
  -- nothing in the request.
  pub request_id-IsSettled :
      (h : Bytes) (random : ex.Uuid) (r : Request ex) → IsSettled ex (request_id ex h random r)
  request_id-IsSettled h random r =
      request_id_elim ex (IsSettled ex) h random r (settled ex r)
        (λ named u. settled ex (with_id ex (get_header ex h r) u r) named)
        (settled ex (with_random ex random r) (not_empty _ (law.uuid_text_not_empty random)))

  -- Where a uuid that is already set is the one that the id spells, and the uuid that may be drawn is not
  -- nil: after `request_uuid` the id of the request spells the uuid that was returned, which is the
  -- request's own, and the same call returns the same uuid again and changes nothing, whatever uuid it
  -- would draw.
  pub request_uuid_stable :
      (h : Bytes) (random random' : ex.Uuid) (r : Request ex)
      → IsConsistent ex r
      → ex.is_nil random ≡ false
      → let (r', u) = request_uuid ex h random r in
        (r'.request_uuid ≡ u)
        × (ex.string_generator r'.request_id ≡ some u)
        × (request_uuid ex h random' r' ≡ (r', u))
  request_uuid_stable h random random' r known drawn =
      request_uuid_elim ex Holds h random r
        (λ full. (refl, known full, known_again ex h random' r full))
        (λ u named good. (refl, good, given_again ex h random' r u named good))
        (refl, law.uuid_text random, known_again ex h random' (with_random ex random r) drawn)
    where
      Holds : Request ex × ex.Uuid → Type 0
      Holds p =
          (p.0.request_uuid ≡ p.1)
          × (ex.string_generator p.0.request_id ≡ some p.1)
          × (request_uuid ex h random' p.0 ≡ p)
