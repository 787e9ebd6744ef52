-- ===== src/Spinlock/Progress.antt =====
-- The lock of csi_http/spinlock.h comes free, as far as the handlers of csi_http/server/server.h return.
use csi_http.Base.{
  update_other, update_same, not, ap, ◌∙◌, Bool-cases, ◌≡◌, ◌<◌, ◌≢◌, ℕ, true, false, refl, inl,
  inr,
}
use csi_http.Server.{u64_mod}
use csi_http.Spinlock.{
  BoostSpinlock, IsBoostSpinlock, Phase, outside, spinning, entered, loaded, handling, leaving,
  is_inside, Shared, with_phase, lock_round, store_counter, unlock_scoped, new_shared, spins, loads,
  stores, returns, unlocks, Reachable, starts, steps,
}
use csi_http.Spinlock.Exclusion.{Reachable-IsExclusive, new-IsExclusive}

module _ (sl : BoostSpinlock) (law : IsBoostSpinlock sl) where
  -- A later state where the lock is free and the other threads are where they were.
  Freed : Shared sl → ℕ → Shared sl → Type 0
  Freed s0 i s =
      (t : Shared sl) × Reachable sl s0 t
      × (law.locked t.lock ≡ false)
      × ((j : ℕ) → j ≢ i → t.phase j ≡ s.phase j)

  unlocks_it :
      (s0 : Shared sl) (i : ℕ) (s : Shared sl)
      → Reachable sl s0 s
      → s.phase i ≡ leaving
      → Freed s0 i s
  unfolding unlock_scoped Freed
  unlocks_it s0 i s run at = (
    unlock_scoped sl i s,
    steps run (unlocks i at),
    law.unlock-locked s.lock,
    λ j n. update_other s.phase i j outside n,
  )

  -- A step of the thread, after which it is freed.
  after_step :
      (s0 : Shared sl) (i : ℕ) (s u : Shared sl)
      → ((j : ℕ) → j ≢ i → u.phase j ≡ s.phase j)
      → Freed s0 i u
      → Freed s0 i s
  unfolding Freed
  after_step s0 i s u same (t, run, free, others) = (t, run, free, λ j n. others j n ∙ same j n)

  returns_it :
      (s0 : Shared sl) (i : ℕ) (s : Shared sl)
      → Reachable sl s0 s
      → s.phase i ≡ handling
      → Freed s0 i s
  returns_it s0 i s run at =
      let u = with_phase sl i leaving s in
      after_step s0 i s u (λ j n. update_other s.phase i j leaving n)
        (unlocks_it s0 i u (steps run (returns i at)) (update_same s.phase i leaving))

  stores_it :
      (s0 : Shared sl) (i n : ℕ) (s : Shared sl)
      → Reachable sl s0 s
      → s.phase i ≡ loaded n
      → Freed s0 i s
  unfolding store_counter
  stores_it s0 i n s run at =
      let u = store_counter sl i n s in
      after_step s0 i s u (λ j z. update_other s.phase i j handling z)
        (returns_it s0 i u (steps run (stores i n at)) (update_same s.phase i handling))

  loads_it :
      (s0 : Shared sl) (i : ℕ) (s : Shared sl)
      → Reachable sl s0 s
      → s.phase i ≡ entered
      → Freed s0 i s
  loads_it s0 i s run at =
      let u = with_phase sl i (loaded s.nr_of_requests) s in
      after_step s0 i s u (λ j z. update_other s.phase i j (loaded s.nr_of_requests) z)
        (stores_it s0 i s.nr_of_requests u (steps run (loads i at))
          (update_same s.phase i (loaded s.nr_of_requests)))

  frees :
      (s0 : Shared sl) (i : ℕ) (s : Shared sl) (p : Phase)
      → Reachable sl s0 s
      → s.phase i ≡ p
      → is_inside p ≡ true
      → Freed s0 i s
  frees s0 i s outside run at h = absurd (cc)
  frees s0 i s spinning run at h = absurd (cc)
  frees s0 i s entered run at h = loads_it s0 i s run at
  frees s0 i s (loaded n) run at h = stores_it s0 i n s run at
  frees s0 i s handling run at h = returns_it s0 i s run at
  frees s0 i s leaving run at h = unlocks_it s0 i s run at

  won : (i : ℕ) (s : Shared sl) → law.locked s.lock ≡ false → (lock_round sl i s).phase i ≡ entered
  unfolding lock_round
  won i s free =
      let result : (sl.try_lock s.lock).1 ≡ true = law.try_lock-result s.lock ∙ ap not free in
      rw (lock_round, result) (update_same s.phase i entered)

  wins :
      (s0 : Shared sl) (i : ℕ) (s : Shared sl)
      → Reachable sl s0 s
      → s.phase i ≡ spinning
      → law.locked s.lock ≡ false
      → (t : Shared sl) × Reachable sl s0 t × (t.phase i ≡ entered)
  wins s0 i s run at free = (lock_round sl i s, steps run (spins i at), won i s free)

  -- From any state that threads come to that call handlers under a lock of boost, a thread that spins can
  -- get the lock: the one that has it, if there is one, calls its handler, frees the lock when the handler
  -- returns, and the next round of the spinning one succeeds.
  pub Reachable-enters :
      (start i : ℕ) (s : Shared sl)
      → start < u64_mod
      → Reachable sl (new_shared sl start) s
      → s.phase i ≡ spinning
      → (t : Shared sl) × Reachable sl s t × (t.phase i ≡ entered)
  unfolding Freed
  Reachable-enters start i s small run at =
      let ok =
        Reachable-IsExclusive sl law start (new_shared sl start) s run
          (new-IsExclusive sl law start small) in
      elim (Bool-cases (law.locked s.lock)) [
        | inr free ↦ wins s i s starts at free
        | inl taken ↦
            let (j, inside) = ok.holder taken in
            let apart : i ≢ j = λ (z : i ≡ j).
              (let b = ap (λ (k : ℕ). is_inside (s.phase k)) z in let c = ap is_inside at in cc) in
            let (t, later, free, others) = frees s j s (s.phase j) starts refl inside in
            wins s i t later (others i apart ∙ at) free
      ]
