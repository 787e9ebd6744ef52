-- ===== src/HttpClient/Closing.antt =====
-- `closesocket_cb` of csi_http/client/http_client.cpp keeps what holds of the sockets.
use csi_http.Base.{
  update_other, update-cases, update, Option-cases, refl, some-inj, Bool, ◌==◌, ap, sym, All,
  Bool-cases, ◌∙◌, ◌≢◌, List, map, ◌≡◌, ◌++◌, Option, ℕ, true, false, none, some, inl, inr, [], ◌∷◌,
}
use csi_http.Asio.{operation_aborted}
use csi_http.HttpClient.Sockets.{
  Sockets, Wait, socket_cb, delete_socket, post_task, waits_of, other_waits, cancel_close,
  closesocket_cb,
}
use csi_http.HttpClient.Queue.{
  after_all, after_all-append, append-IsOrdered, after_all-aborted, aborted-IsOrdered,
}
use csi_http.HttpClient.Sound.{gone, IsWaiting, IsSockets, mapped_there}

-- A value that an update with none leaves was there before, at another place.
kept : (f : ℕ → Option ℕ) (k i : ℕ) {v : ℕ} → update f k none i ≡ some v → (i ≢ k) × (f i ≡ some v)
kept f k i e = elim (update-cases f k none i) [
  | inl (same, h) ↦ absurd (cc)
  | inr (other, h) ↦ (other, sym h ∙ e)
]

-- The socket `p` with the native handle `fd`, closed and to be deleted.
closed : ℕ → ℕ → Sockets → Sockets
closed p fd s = record s {
  waits = other_waits p s.waits;
  tasks =
      (s.tasks ++ map (socket_cb operation_aborted) (waits_of p s.waits)) ++ delete_socket p ∷ [];
  native_handle = update s.native_handle p none;
  owner = update s.owner fd none;
  assigned = update s.assigned fd none;
  socket_map = update s.socket_map fd none;
}

other-IsWaiting :
    (native_handle : ℕ → Option ℕ) (p : ℕ) (ws : List Wait)
    → All (IsWaiting native_handle) ws
    → All (IsWaiting (update native_handle p none)) (other_waits p ws)
unfolding other_waits
other-IsWaiting native_handle p [] h = tt
other-IsWaiting native_handle p (w ∷ ws) h = elim (Bool-cases (w.tcp_socket == p)) [
  | inl e ↦ rw e (other-IsWaiting native_handle p ws h.1)
  | inr e ↦ rw e ((h.0.0, (h.0.1.0, rw e h.0.1.1)), other-IsWaiting native_handle p ws h.1)
]

closed-gone : (p fd : ℕ) (s : Sockets) → gone (closed p fd s) ≡ update (gone s) p true
unfolding closed
closed-gone p fd s =
    let ws : List Wait = waits_of p s.waits in
    after_all-append (s.tasks ++ map (socket_cb operation_aborted) ws) (delete_socket p ∷ [])
      s.deleted
    ∙ ap (λ (g : ℕ → Bool). update g p true)
        (after_all-append s.tasks (map (socket_cb operation_aborted) ws) s.deleted
          ∙ after_all-aborted ws (gone s))

closed-IsSockets :
    (p fd : ℕ) (s : Sockets) → IsSockets s → s.native_handle p ≡ some fd → IsSockets (closed p fd s)
unfolding closed
closed-IsSockets p fd s ok e =
    let ws : List Wait = waits_of p s.waits in
    let own : s.owner fd ≡ some p = ok.owned p fd e in
    let there : gone s p ≡ false = elim (Bool-cases (gone s p)) [
      | inl g ↦ absurd (let a = ok.gone_closed p g in cc)
      | inr g ↦ g
    ] in
    let still : after_all (s.tasks ++ map (socket_cb operation_aborted) ws) s.deleted ≡ gone s =
      after_all-append s.tasks (map (socket_cb operation_aborted) ws) s.deleted
      ∙ after_all-aborted ws (gone s) in
    let now : (q : ℕ) → gone (closed p fd s) q ≡ update (gone s) p true q =
      λ q. ap (λ (g : ℕ → Bool). g q) (closed-gone p fd s) in
    record {
      ordered =
          append-IsOrdered (s.tasks ++ map (socket_cb operation_aborted) ws) (delete_socket p ∷ [])
            s.deleted
            (append-IsOrdered s.tasks (map (socket_cb operation_aborted) ws) s.deleted ok.ordered
              (aborted-IsOrdered ws (gone s)))
            (ap (λ (g : ℕ → Bool). g p) still ∙ there, tt);
      owned = λ q k h.
          let (apart, h') = kept s.native_handle p q h in
          let own' : s.owner k ≡ some q = ok.owned q k h' in
          let apart' : k ≢ fd = λ (z : k ≡ fd). apart (some-inj (cc)) in
          update_other s.owner fd k none apart' ∙ own';
      mapped = λ k q h.
          let (apart, h') = kept s.socket_map fd k h in
          let h'' : s.native_handle q ≡ some k = ok.mapped k q h' in
          let apart' : q ≢ p = λ (z : q ≡ p). apart (some-inj (cc)) in
          update_other s.native_handle p q none apart' ∙ h'';
      assigned = λ k q h.
          let (apart, h') = kept s.assigned fd k h in
          update_other s.socket_map fd k none apart ∙ ok.assigned k q h';
      gone_closed = λ q g. elim (update-cases s.native_handle p none q) [
        | inl (same, h) ↦ h
        | inr (apart, h) ↦
            h ∙ ok.gone_closed q (sym (update_other (gone s) p q true apart) ∙ (sym (now q) ∙ g))
      ];
      fresh = λ q l.
          let (c, there') = ok.fresh q l in
          let apart : q ≢ p = λ (z : q ≡ p). (cc) in
          (
            update_other s.native_handle p q none apart ∙ c,
            now q ∙ (update_other (gone s) p q true apart ∙ there'),
          );
      waiting = other-IsWaiting s.native_handle p s.waits ok.waiting;
    }

pub closesocket_cb-IsSockets :
    (item : ℕ) (s : Sockets)
    → IsSockets s
    → (s' : Sockets) × (closesocket_cb item s ≡ some s') × IsSockets s' × (s'.deleted ≡ s.deleted)
unfolding closesocket_cb cancel_close post_task closed
closesocket_cb-IsSockets item s ok = elim (Option-cases (s.socket_map item)) [
  | inl e ↦ (s, rw (closesocket_cb, e) refl, ok, refl)
  | inr (p, e) ↦
      let n : s.native_handle p ≡ some item = ok.mapped item p e in
      let d : s.deleted p ≡ false = mapped_there s item p ok e in
      (closed p item s, rw (closesocket_cb, e, d, n) refl, closed-IsSockets p item s ok n, refl)
]
