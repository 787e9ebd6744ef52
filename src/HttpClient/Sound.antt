-- ===== src/HttpClient/Sound.antt =====
-- What holds of the sockets of `http_client` in csi_http/client/http_client.cpp at all times.
use csi_http.Base.{
  update-cases, update, some-inj, subst, ap, sym, All-append, All, ◌∙◌, Bool, Bool-cases, ◌≤◌,
  Option-cases, Option, ◌++◌, ℕ, ◌≡◌, List, true, false, none, some, refl, inl, inr, [], ◌∷◌,
}
use csi_http.Asio.{failure}
use csi_http.HttpClient.Sockets.{Sockets, Wait, Task, socket_cb, post_task, async_some}
use csi_http.HttpClient.Queue.{
  IsSome, IsOrdered, after, after_all, after_all-append, append-IsOrdered, after_all-false,
}

-- The sockets that are deleted when all the tasks have run.
abbrev pub gone : Sockets → ℕ → Bool
gone s = after_all s.tasks s.deleted

-- A wait is for an open socket, and has its context.
abbrev pub IsWaiting : (ℕ → Option ℕ) → Wait → Type 0
IsWaiting native_handle w = IsSome w.context × ((fd : ℕ) × (native_handle w.tcp_socket ≡ some fd))

pub record IsSockets (s : Sockets) : Type 0 where
  pub ordered : IsOrdered s.deleted s.tasks
  pub owned : (p fd : ℕ) → s.native_handle p ≡ some fd → s.owner fd ≡ some p
  pub mapped : (fd p : ℕ) → s.socket_map fd ≡ some p → s.native_handle p ≡ some fd
  pub assigned : (fd p : ℕ) → s.assigned fd ≡ some p → s.socket_map fd ≡ some p
  pub gone_closed : (p : ℕ) → gone s p ≡ true → s.native_handle p ≡ none
  pub fresh : (p : ℕ) → s.next_socket ≤ p → (s.native_handle p ≡ none) × (gone s p ≡ false)
  pub waiting : All (IsWaiting s.native_handle) s.waits

-- A socket of the map is open and is not deleted.
pub mapped_there :
    (s : Sockets) (fd p : ℕ) → IsSockets s → s.socket_map fd ≡ some p → s.deleted p ≡ false
mapped_there s fd p ok e = after_all-false s.tasks s.deleted p (elim (Bool-cases (gone s p)) [
  | inl g ↦ absurd (let a = ok.gone_closed p g in let b = ok.mapped fd p e in cc)
  | inr g ↦ g
])

-- Tasks that delete nothing come last.
pub posted-IsSockets :
    (s : Sockets) (ts : List Task)
    → IsOrdered (gone s) ts
    → after_all ts (gone s) ≡ gone s
    → IsSockets s
    → IsSockets (record s { tasks = s.tasks ++ ts })
posted-IsSockets s ts o h ok =
    let same : after_all (s.tasks ++ ts) s.deleted ≡ gone s =
      after_all-append s.tasks ts s.deleted ∙ h in
    record {
      ordered = append-IsOrdered s.tasks ts s.deleted ok.ordered o;
      owned = ok.owned;
      mapped = ok.mapped;
      assigned = ok.assigned;
      gone_closed = λ p e. ok.gone_closed p (sym (ap (λ (g : ℕ → Bool). g p) same) ∙ e);
      fresh = λ p l. ((ok.fresh p l).0, ap (λ (g : ℕ → Bool). g p) same ∙ (ok.fresh p l).1);
      waiting = ok.waiting;
    }

pub async_some-IsSockets :
    (s : Sockets) (w : Wait)
    → IsSockets s
    → s.deleted w.tcp_socket ≡ false
    → IsSome w.context
    → (s' : Sockets) × (async_some w s ≡ some s') × IsSockets s' × (s'.deleted ≡ s.deleted)
unfolding async_some post_task
async_some-IsSockets s w ok d c = elim (Option-cases (s.native_handle w.tcp_socket)) [
  | inl e ↦ (
    record s { tasks = s.tasks ++ socket_cb failure w ∷ [] },
    rw d (rw e refl),
    posted-IsSockets s (socket_cb failure w ∷ []) (tt, tt) refl ok,
    refl,
  )
  | inr (fd, e) ↦ (
    record s { waits = s.waits ++ w ∷ [] },
    rw d (rw e refl),
    record {
      ordered = ok.ordered;
      owned = ok.owned;
      mapped = ok.mapped;
      assigned = ok.assigned;
      gone_closed = ok.gone_closed;
      fresh = ok.fresh;
      waiting =
          All-append (IsWaiting s.native_handle) s.waits (w ∷ []) ok.waiting ((c, (fd, e)), tt);
    },
    refl,
  )
]

-- The first task leaves the queue, with what it deletes.
pub popped-IsSockets :
    (s : Sockets) (t : Task) (ts : List Task)
    → s.tasks ≡ t ∷ ts
    → IsSockets s
    → IsSockets (record s { tasks = ts; deleted = after t s.deleted })
popped-IsSockets s t ts e ok =
    let same : gone s ≡ after_all ts (after t s.deleted) =
      ap (λ (l : List Task). after_all l s.deleted) e in
    let at : (p : ℕ) → gone s p ≡ after_all ts (after t s.deleted) p =
      λ p. ap (λ (g : ℕ → Bool). g p) same in
    record {
      ordered = (subst (λ (l : List Task). IsOrdered s.deleted l) e ok.ordered).1;
      owned = ok.owned;
      mapped = ok.mapped;
      assigned = ok.assigned;
      gone_closed = λ p h. ok.gone_closed p (at p ∙ h);
      fresh = λ p l. ((ok.fresh p l).0, sym (at p) ∙ (ok.fresh p l).1);
      waiting = ok.waiting;
    }

-- `curl_multi_assign` of what the map has.
pub assigned-IsSockets :
    (s : Sockets) (fd p : ℕ)
    → s.socket_map fd ≡ some p
    → IsSockets s
    → IsSockets (record s { assigned = update s.assigned fd (some p) })
assigned-IsSockets s fd p e ok = record {
  ordered = ok.ordered;
  owned = ok.owned;
  mapped = ok.mapped;
  assigned = λ k q h. elim (update-cases s.assigned fd (some p) k) [
    | inl (same, h') ↦ let p_eq : p ≡ q = some-inj (sym h' ∙ h) in (cc)
    | inr (other, h') ↦ ok.assigned k q (sym h' ∙ h)
  ];
  gone_closed = ok.gone_closed;
  fresh = ok.fresh;
  waiting = ok.waiting;
}

-- The timers are not sockets.
pub timers-IsSockets :
    (s : Sockets) (t : Option ℕ) (k : Bool)
    → IsSockets s
    → IsSockets (record s { timer = t; keepalive_timer = k })
timers-IsSockets s t k ok = record {
  ordered = ok.ordered;
  owned = ok.owned;
  mapped = ok.mapped;
  assigned = ok.assigned;
  gone_closed = ok.gone_closed;
  fresh = ok.fresh;
  waiting = ok.waiting;
}
