-- ===== src/Spinlock/Tests.antt =====
-- A lock that is a flag, with threads that call a handler.
use csi_http.Base.{◌%◌, ◌+◌, not, arith, ℕ, Bool, ◌≡◌, true, false, refl}
use csi_http.Server.{u64_mod}
use csi_http.Spinlock.{
  BoostSpinlock, IsBoostSpinlock, spinning, entered, loaded, is_inside, Shared, with_phase,
  lock_round, store_counter, new_shared, spinlock, calls, spins, loads, stores, Reachable, starts,
  steps,
}
use csi_http.Spinlock.Exclusion.{Reachable-excludes}
use csi_http.Spinlock.Progress.{Reachable-enters}

abbrev flag_lock : BoostSpinlock
flag_lock = record {
  State = Bool;
  initializer = false;
  try_lock = λ b. (true, not b);
  unlock = λ b. false;
}

flag_lock-IsBoostSpinlock : IsBoostSpinlock flag_lock
flag_lock-IsBoostSpinlock = record {
  locked = λ b. b;
  init-locked = refl;
  try_lock-result = λ b. refl;
  try_lock-locked = λ b. refl;
  unlock-locked = λ b. refl;
}

abbrev first : Shared flag_lock
first = new_shared flag_lock 5

-- The threads 0 and 1 call; 0 is in the handler.
abbrev busy : Shared flag_lock
unfolding new_shared lock_round store_counter spinlock
busy =
    let s1 =
      lock_round flag_lock 0
        (with_phase flag_lock 1 spinning (with_phase flag_lock 0 spinning first)) in
    store_counter flag_lock 0 5 (with_phase flag_lock 0 (loaded 5) s1)

run_busy : Reachable flag_lock first busy
unfolding new_shared lock_round store_counter spinlock
run_busy =
    steps
      (steps (steps (steps (steps starts (calls 0 refl)) (calls 1 refl)) (spins 0 refl))
        (loads 0 refl))
      (stores 0 5 refl)

Reachable-excludes_example :
    ((i j : ℕ) → is_inside (busy.phase i) ≡ true → is_inside (busy.phase j) ≡ true → i ≡ j)
    × (busy.nr_of_requests ≡ (5 + busy.counted) % u64_mod)
Reachable-excludes_example =
    Reachable-excludes flag_lock flag_lock-IsBoostSpinlock 5 busy (omega arith) run_busy

Reachable-enters_example :
    (t : Shared flag_lock) × Reachable flag_lock busy t × (t.phase 1 ≡ entered)
unfolding new_shared lock_round store_counter spinlock
Reachable-enters_example =
    Reachable-enters flag_lock flag_lock-IsBoostSpinlock 5 1 busy (omega arith) run_busy refl
