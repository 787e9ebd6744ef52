-- ===== src/Spinlock/Exclusion.antt =====
-- The lock of csi_http/spinlock.h excludes, so that csi_http/server/server.h counts every call.
use csi_http.Base.{
  update_same, update, update-cases, not, ◌<◌, arith, sym, Bool-cases, ◌∙◌, ◌%◌, ◌+◌, ap, ◌≡◌, ℕ,
  true, false, inl, inr,
}
use csi_http.Server.{u64_mod}
use csi_http.Spinlock.{
  BoostSpinlock, IsBoostSpinlock, Phase, outside, spinning, entered, loaded, handling, leaving,
  is_inside, Shared, with_phase, lock_round, store_counter, unlock_scoped, new_shared, spinlock,
  Step, calls, spins, loads, stores, returns, unlocks, Reachable, starts, steps,
}

loaded-inj : (m n : ℕ) → loaded m ≡ loaded n → n ≡ m
loaded-inj m n e = cc

module _ (sl : BoostSpinlock) (law : IsBoostSpinlock sl) (start : ℕ) where
  pub record IsExclusive (s : Shared sl) : Type 0 where
    pub alone : (i j : ℕ) → is_inside (s.phase i) ≡ true → is_inside (s.phase j) ≡ true → i ≡ j
    pub held : (i : ℕ) → is_inside (s.phase i) ≡ true → law.locked s.lock ≡ true
    pub holder : law.locked s.lock ≡ true → (i : ℕ) × (is_inside (s.phase i) ≡ true)
    pub current : (i n : ℕ) → s.phase i ≡ loaded n → n ≡ s.nr_of_requests
    pub exact : s.nr_of_requests ≡ (start + s.counted) % u64_mod

  -- A thread that moves and stays inside or outside, without the lock and the counter.
  moved-IsExclusive :
      (i : ℕ) (p : Phase) (s : Shared sl)
      → IsExclusive s
      → is_inside p ≡ is_inside (s.phase i)
      → ((n : ℕ) → p ≡ loaded n → n ≡ s.nr_of_requests)
      → IsExclusive (with_phase sl i p s)
  moved-IsExclusive i p s ok same now =
      let at : (j : ℕ) → is_inside (update s.phase i p j) ≡ is_inside (s.phase j) = λ j.
        elim (update-cases s.phase i p j) [
          | inl (k, e) ↦ ap is_inside e ∙ (same ∙ ap (λ (m : ℕ). is_inside (s.phase m)) (sym k))
          | inr (k, e) ↦ ap is_inside e
        ] in
      record {
        alone = λ j k a b. ok.alone j k (sym (at j) ∙ a) (sym (at k) ∙ b);
        held = λ j a. ok.held j (sym (at j) ∙ a);
        holder = λ h. let (j, a) = ok.holder h in (j, at j ∙ a);
        current = λ j n e. elim (update-cases s.phase i p j) [
          | inl (k, z) ↦ now n (sym z ∙ e)
          | inr (k, z) ↦ ok.current j n (sym z ∙ e)
        ];
        exact = ok.exact;
      }

  only_entered :
      (i j : ℕ) (s : Shared sl)
      → IsExclusive s
      → law.locked s.lock ≡ false
      → is_inside (update s.phase i entered j) ≡ true
      → j ≡ i
  only_entered i j s ok free a = elim (update-cases s.phase i entered j) [
    | inl (k, z) ↦ k
    | inr (k, z) ↦ absurd (let h = ok.held j (sym (ap is_inside z) ∙ a) in cc)
  ]

  nobody_left :
      (i j : ℕ) (s : Shared sl)
      → IsExclusive s
      → s.phase i ≡ leaving
      → is_inside (update s.phase i outside j) ≡ true
      → ⊥
  nobody_left i j s ok at a = elim (update-cases s.phase i outside j) [
    | inl (k, z) ↦ let b = sym (ap is_inside z) ∙ a in cc
    | inr (k, z) ↦ k (ok.alone j i (sym (ap is_inside z) ∙ a) (ap is_inside at))
  ]

  -- A thread takes the lock when nobody has it.
  entered-IsExclusive :
      (i : ℕ) (s : Shared sl)
      → IsExclusive s
      → law.locked s.lock ≡ false
      → IsExclusive (record s { lock = (sl.try_lock s.lock).0; phase = update s.phase i entered })
  entered-IsExclusive i s ok free = record {
    alone = λ j k a b. only_entered i j s ok free a ∙ sym (only_entered i k s ok free b);
    held = λ j a. law.try_lock-locked s.lock;
    holder = λ h. (i, ap is_inside (update_same s.phase i entered));
    current = λ j n e. elim (update-cases s.phase i entered j) [
      | inl (k, z) ↦ absurd (cc)
      | inr (k, z) ↦ ok.current j n (sym z ∙ e)
    ];
    exact = ok.exact;
  }

  left-IsExclusive :
      (i : ℕ) (s : Shared sl)
      → IsExclusive s
      → s.phase i ≡ leaving
      → IsExclusive (unlock_scoped sl i s)
  unfolding unlock_scoped
  left-IsExclusive i s ok at = record {
    alone = λ j k a b. absurd (nobody_left i j s ok at a);
    held = λ j a. absurd (nobody_left i j s ok at a);
    holder = λ h. absurd (let f = law.unlock-locked s.lock in cc);
    current = λ j n e. elim (update-cases s.phase i outside j) [
      | inl (k, z) ↦ absurd (cc)
      | inr (k, z) ↦ ok.current j n (sym z ∙ e)
    ];
    exact = ok.exact;
  }

  stored-IsExclusive :
      (i n : ℕ) (s : Shared sl)
      → IsExclusive s
      → s.phase i ≡ loaded n
      → IsExclusive (store_counter sl i n s)
  unfolding store_counter
  stored-IsExclusive i n s ok at =
      let moved = moved-IsExclusive i handling s ok (sym (ap is_inside at)) (λ m e. absurd (cc)) in
      let read : n ≡ s.nr_of_requests = ok.current i n at in
      record {
        alone = moved.alone;
        held = moved.held;
        holder = moved.holder;
        current = λ j m e. elim (update-cases s.phase i handling j) [
          | inl (k, z) ↦ absurd (cc)
          | inr (k, z) ↦ absurd (k (ok.alone j i (ap is_inside (sym z ∙ e)) (ap is_inside at)))
        ];
        exact = omega (arith, read, ok.exact);
      }

  Step-IsExclusive : (s t : Shared sl) → Step sl s t → IsExclusive s → IsExclusive t
  unfolding lock_round
  Step-IsExclusive s t (calls i at) ok =
      moved-IsExclusive i spinning s ok (sym (ap is_inside at)) (λ n e. absurd (cc))
  Step-IsExclusive s t (spins i at) ok = elim (Bool-cases (law.locked s.lock)) [
    | inl taken ↦
        let failed : (sl.try_lock s.lock).1 ≡ false = law.try_lock-result s.lock ∙ ap not taken in
        rw (lock_round, failed)
          (record {
            alone = ok.alone;
            held = λ j a. law.try_lock-locked s.lock;
            holder = λ h. ok.holder taken;
            current = ok.current;
            exact = ok.exact;
          })
    | inr free ↦
        let won : (sl.try_lock s.lock).1 ≡ true = law.try_lock-result s.lock ∙ ap not free in
        rw (lock_round, won) (entered-IsExclusive i s ok free)
  ]
  Step-IsExclusive s t (loads i at) ok =
      moved-IsExclusive i (loaded s.nr_of_requests) s ok (sym (ap is_inside at))
        (λ n e. loaded-inj s.nr_of_requests n e)
  Step-IsExclusive s t (stores i n at) ok = stored-IsExclusive i n s ok at
  Step-IsExclusive s t (returns i at) ok =
      moved-IsExclusive i leaving s ok (sym (ap is_inside at)) (λ n e. absurd (cc))
  Step-IsExclusive s t (unlocks i at) ok = left-IsExclusive i s ok at

  pub Reachable-IsExclusive : (s t : Shared sl) → Reachable sl s t → IsExclusive s → IsExclusive t
  Reachable-IsExclusive s t starts ok = ok
  Reachable-IsExclusive s t (steps {t = v} before step) ok =
      Step-IsExclusive v t step (Reachable-IsExclusive s v before ok)

  pub new-IsExclusive : start < u64_mod → IsExclusive (new_shared sl start)
  unfolding new_shared spinlock
  new-IsExclusive small = record {
    alone = λ i j a b. absurd (cc);
    held = λ i a. absurd (cc);
    holder = λ h. absurd (let f = law.init-locked in cc);
    current = λ i n e. absurd (cc);
    exact = omega arith;
  }

  -- Of threads that call handlers under a lock of boost, in whatever order they move, two are never between
  -- the lock's being taken and its being freed, and the counter is its first value and a one for each call
  -- that was counted, modulo 2 ^ 64, so that none is lost.
  pub Reachable-excludes :
      (s : Shared sl)
      → start < u64_mod
      → Reachable sl (new_shared sl start) s
      → ((i j : ℕ) → is_inside (s.phase i) ≡ true → is_inside (s.phase j) ≡ true → i ≡ j)
        × (s.nr_of_requests ≡ (start + s.counted) % u64_mod)
  Reachable-excludes s small run =
      let ok = Reachable-IsExclusive (new_shared sl start) s run (new-IsExclusive small) in
      (ok.alone, ok.exact)
