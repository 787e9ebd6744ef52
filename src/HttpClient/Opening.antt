-- ===== src/HttpClient/Opening.antt =====
-- `opensocket_cb` of csi_http/client/http_client.cpp keeps what holds of the sockets.
use csi_http.Base.{
  update_same, update-cases, update, update_other, ◌≢◌, sym, some-inj, ◌∙◌, Option-cases, arith,
  Option, ◌≡◌, All, List, Bool, ℕ, true, false, none, some, suc, refl, inl, inr, [], ◌∷◌,
}
use csi_http.HttpClient.Sockets.{Sockets, opensocket_cb}
use csi_http.HttpClient.Sound.{IsWaiting, IsSockets}

pub All-imp :
    {A : Type 0} (P Q : A → Type 0) (xs : List A) → ((x : A) → P x → Q x) → All P xs → All Q xs
All-imp P Q [] f h = tt
All-imp P Q (x ∷ xs) f h = (f x h.0, All-imp P Q xs f h.1)

-- A new socket with a native handle that no socket holds.
opened : ℕ → Sockets → Sockets
opened fd s = record s {
  next_socket = suc s.next_socket;
  native_handle = update s.native_handle s.next_socket (some fd);
  owner = update s.owner fd (some s.next_socket);
  socket_map = update s.socket_map fd (some s.next_socket);
}

unmapped : (s : Sockets) (fd : ℕ) → IsSockets s → s.owner fd ≡ none → s.socket_map fd ≡ none
unmapped s fd ok free = elim (Option-cases (s.socket_map fd)) [
  | inl e ↦ e
  | inr (q, e) ↦ absurd (let a = ok.owned q fd (ok.mapped fd q e) in cc)
]

-- An open socket has its native handle also when a closed one gets another.
still_open :
    (s : Sockets) (p fd q k : ℕ)
    → s.native_handle p ≡ none
    → s.native_handle q ≡ some k
    → update s.native_handle p (some fd) q ≡ some k
still_open s p fd q k closed e = elim (update-cases s.native_handle p (some fd) q) [
  | inl (same, h) ↦ absurd (cc)
  | inr (other, h) ↦ h ∙ e
]

opened-owned :
    (s : Sockets) (fd q k : ℕ)
    → IsSockets s
    → s.owner fd ≡ none
    → update s.native_handle s.next_socket (some fd) q ≡ some k
    → update s.owner fd (some s.next_socket) k ≡ some q
opened-owned s fd q k ok free e = elim (update-cases s.native_handle s.next_socket (some fd) q) [
  | inl (same, h) ↦
      let here : update s.owner fd (some s.next_socket) fd ≡ some s.next_socket =
        update_same s.owner fd (some s.next_socket) in
      let fd_eq : fd ≡ k = some-inj (sym h ∙ e) in cc
  | inr (other, h) ↦
      let own : s.owner k ≡ some q = ok.owned q k (sym h ∙ e) in
      let apart : k ≢ fd = λ (z : k ≡ fd). (cc) in
      update_other s.owner fd k (some s.next_socket) apart ∙ own
]

opened-mapped :
    (s : Sockets) (fd k q : ℕ)
    → IsSockets s
    → update s.socket_map fd (some s.next_socket) k ≡ some q
    → update s.native_handle s.next_socket (some fd) q ≡ some k
opened-mapped s fd k q ok e = elim (update-cases s.socket_map fd (some s.next_socket) k) [
  | inl (same, h) ↦
      let here : update s.native_handle s.next_socket (some fd) s.next_socket ≡ some fd =
        update_same s.native_handle s.next_socket (some fd) in
      let q_eq : s.next_socket ≡ q = some-inj (sym h ∙ e) in cc
  | inr (other, h) ↦
      still_open s s.next_socket fd q k (ok.fresh s.next_socket (omega arith)).0
        (ok.mapped k q (sym h ∙ e))
]

opened-IsSockets :
    (s : Sockets) (fd : ℕ) → IsSockets s → s.owner fd ≡ none → IsSockets (opened fd s)
unfolding opened
opened-IsSockets s fd ok free =
    let p : ℕ = s.next_socket in
    let (closed, left) = ok.fresh p (omega arith) in
    let none_mapped : s.socket_map fd ≡ none = unmapped s fd ok free in
    record {
      ordered = ok.ordered;
      owned = λ q k e. opened-owned s fd q k ok free e;
      mapped = λ k q e. opened-mapped s fd k q ok e;
      assigned = λ k q e.
          let a : s.socket_map k ≡ some q = ok.assigned k q e in
          let apart : k ≢ fd = λ (z : k ≡ fd). (cc) in
          update_other s.socket_map fd k (some p) apart ∙ a;
      gone_closed = λ q g.
          let apart : q ≢ p = λ (z : q ≡ p). (cc) in
          update_other s.native_handle p q (some fd) apart ∙ ok.gone_closed q g;
      fresh = λ q l.
          let (c, g) = ok.fresh q (omega arith) in
          let apart : q ≢ p = λ (z : q ≡ p). (omega arith) in
          (update_other s.native_handle p q (some fd) apart ∙ c, g);
      waiting =
          All-imp (IsWaiting s.native_handle) (IsWaiting (update s.native_handle p (some fd)))
            s.waits (λ w h. (h.0, (h.1.0, still_open s p fd w.tcp_socket h.1.0 closed h.1.1)))
            ok.waiting;
    }

pub opensocket_cb-IsSockets :
    (v4 : Bool) (o : Option ℕ) (s : Sockets)
    → IsSockets s
    → ((fd : ℕ) → o ≡ some fd → s.owner fd ≡ none)
    → IsSockets (opensocket_cb v4 o s).0
unfolding opensocket_cb opened
opensocket_cb-IsSockets false o s ok free = ok
opensocket_cb-IsSockets true none s ok free = ok
opensocket_cb-IsSockets true (some fd) s ok free =
    rw (unmapped s fd ok (free fd refl)) (opened-IsSockets s fd ok (free fd refl))

pub opensocket_cb-deleted :
    (v4 : Bool) (o : Option ℕ) (s : Sockets) → (opensocket_cb v4 o s).0.deleted ≡ s.deleted
unfolding opensocket_cb
opensocket_cb-deleted false o s = refl
opensocket_cb-deleted true none s = refl
opensocket_cb-deleted true (some fd) s = refl
