-- ===== src/HttpClient/Counts.antt =====
-- What holds of the requests of `http_client` in csi_http/client/http_client.cpp at all times.
use csi_http.Base.{
  update-cases, ◌∙◌, ap, ◌≤◌, if◌then◌else◌, sym, ◌+◌, ◌≡◌, arith, subst, List, ◌==◌, ℕ, Bool, true,
  false, inl, inr, [], ◌∷◌,
}
use csi_http.Avro.{AvroMemory}
use csi_http.Asio.Counts.{flag}
use csi_http.HttpClient.CallContext.{CallContext}
use csi_http.HttpClient.Sockets.{Sockets}
use csi_http.HttpClient.Sound.{IsSockets}
use csi_http.HttpClient.Callbacks.{
  Client, Result, done, fault, assertion, null_context, bad_access, overrun, ◌then◌, Event,
  add_handle, called_back, with_context, with_sockets, logged,
}

abbrev pub is_added : ℕ → Event → Bool
is_added h (add_handle k) = h == k
is_added h _ = false

abbrev pub is_called_back : ℕ → Event → Bool
is_called_back h (called_back k) = h == k
is_called_back h _ = false

-- How many of the events are of a kind.
abbrev pub count : (Event → Bool) → List Event → ℕ
count k [] = 0
count k (e ∷ es) = flag (k e) + count k es

-- What holds of the value, where there is one. An assertion may fail, where `NDEBUG` does not remove it; a
-- null context may be used where it does.
abbrev pub Holds : {A : Type 0} → Bool → (A → Type 0) → Result A → Type 0
Holds nd P (done a) = P a
Holds nd P (fault assertion) = nd ≡ false
Holds nd P (fault null_context) = nd ≡ true
Holds nd P (fault _) = ⊥

pub Holds-then :
    {A B : Type 0} (nd : Bool) (P : A → Type 0) (Q : B → Type 0) (m : Result A) (f : A → Result B)
    → Holds nd P m
    → ((a : A) → P a → Holds nd Q (f a))
    → Holds nd Q (m then f)
Holds-then nd P Q (done a) f h k = k a h
Holds-then nd P Q (fault assertion) f h k = h
Holds-then nd P Q (fault null_context) f h k = h
Holds-then nd P Q (fault bad_access) f h k = absurd h
Holds-then nd P Q (fault overrun) f h k = absurd h

pub Holds-imp :
    {A : Type 0} (nd : Bool) (P Q : A → Type 0) (m : Result A)
    → ((a : A) → P a → Q a)
    → Holds nd P m
    → Holds nd Q m
Holds-imp nd P Q (done a) k h = k a h
Holds-imp nd P Q (fault assertion) k h = h
Holds-imp nd P Q (fault null_context) k h = h
Holds-imp nd P Q (fault bad_access) k h = absurd h
Holds-imp nd P Q (fault overrun) k h = absurd h

-- A call of the request's callback for each time that it was added to curl, at most. A handle that is
-- private to curl is still to be answered, but for those in `answering`; those in `ended` stay done.
-- The sockets in `dead` have been deleted.
pub record IsContext (av : AvroMemory) (ended answering : ℕ → Bool) (log : List Event) (h : ℕ)
    (x : CallContext av) : Type 0 where
  pub shared : x.curl_private ≡ true → x.curl_shared ≡ true
  pub answered :
      count (is_called_back h) log + flag (if answering h then false else x.curl_private)
      ≤ count (is_added h) log
  pub lasting : ended h ≡ true → x.curl_done ≡ true

pub record IsClient (av : AvroMemory) (ended dead answering : ℕ → Bool) (c : Client av)
    : Type 0 where
  pub sockets : IsSockets c.sockets
  pub undeleted : c.sockets.deleted ≡ dead
  pub context : (h : ℕ) → IsContext av ended answering c.log h (c.contexts h)

module _ (av : AvroMemory) (ended dead answering : ℕ → Bool) where
  pub with_sockets-IsClient :
      (c : Client av) (s : Sockets)
      → IsClient av ended dead answering c
      → IsSockets s
      → s.deleted ≡ c.sockets.deleted
      → IsClient av ended dead answering (with_sockets av c s)
  with_sockets-IsClient c s ok h e = record {
    sockets = h;
    undeleted = e ∙ ok.undeleted;
    context = ok.context;
  }

  pub with_context-IsClient :
      (h : ℕ) (x : CallContext av) (c : Client av)
      → IsClient av ended dead answering c
      → IsContext av ended answering c.log h x
      → IsClient av ended dead answering (with_context av h x c)
  with_context-IsClient h x c ok new = record {
    sockets = ok.sockets;
    undeleted = ok.undeleted;
    context = λ i. elim (update-cases c.contexts h x i) [
      | inl (same, e) ↦
          subst (λ (y : CallContext av). IsContext av ended answering c.log i y) (sym e)
            (subst (λ (k : ℕ). IsContext av ended answering c.log k x) (sym same) new)
      | inr (other, e) ↦
          subst (λ (y : CallContext av). IsContext av ended answering c.log i y) (sym e)
            (ok.context i)
    ];
  }

  -- An event that is neither a call of a request's callback nor its addition to curl.
  pub logged-IsClient :
      (e : Event) (c : Client av)
      → ((h : ℕ) → (is_called_back h e ≡ false) × (is_added h e ≡ false))
      → IsClient av ended dead answering c
      → IsClient av ended dead answering (logged av e c)
  logged-IsClient e c other ok = record {
    sockets = ok.sockets;
    undeleted = ok.undeleted;
    context = λ h.
        let called : flag (is_called_back h e) ≡ 0 = ap flag (other h).0 in
        let added : flag (is_added h e) ≡ 0 = ap flag (other h).1 in
        record {
          shared = (ok.context h).shared;
          answered = omega (arith, (ok.context h).answered);
          lasting = (ok.context h).lasting;
        };
  }
