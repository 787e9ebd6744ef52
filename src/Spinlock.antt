-- ===== src/Spinlock.antt =====
-- csi_http/spinlock.h and spinlock.cpp, and the calls of a handler under the lock in csi_http/server/server.h, by
-- threads that are interleaved in any order. boost's spinlock is a parameter.
pub mod Exclusion
pub mod Progress
mod Tests
use csi_http.Base.{update, ◌%◌, ◌==◌, not, ◌+◌, ◌≡◌, if◌then◌else◌, ℕ, Bool, true, false, length}
use csi_http.Server.{u64_mod}

-- `boost::detail::spinlock`.
pub record BoostSpinlock : Type 1 where
  pub State : Type 0
  -- `BOOST_DETAIL_SPINLOCK_INIT`.
  pub initializer : State
  pub try_lock : State → State × Bool
  pub unlock : State → State

-- It has two states: `try_lock` succeeds where it is free and leaves it taken, `unlock` frees it.
pub record IsBoostSpinlock (sl : BoostSpinlock) : Type 0 where
  pub locked : sl.State → Bool
  pub init-locked : locked sl.initializer ≡ false
  pub try_lock-result : (s : sl.State) → (sl.try_lock s).1 ≡ not (locked s)
  pub try_lock-locked : (s : sl.State) → locked (sl.try_lock s).0 ≡ true
  pub unlock-locked : (s : sl.State) → locked (sl.unlock s) ≡ false

-- Where a thread is in `handler_data::call`: before it, in the loop of `lock`, with the lock, with the counter
-- read for its increment, in the handler, and before the end of `scoped_lock`.
pub data Phase : Type 0 where
  outside spinning entered : Phase
  loaded : ℕ → Phase
  handling leaving : Phase

abbrev pub is_inside : Phase → Bool
is_inside outside = false
is_inside spinning = false
is_inside _ = true

module _ (sl : BoostSpinlock) where
  unfoldable pub spinlock : sl.State
  spinlock = sl.initializer

  pub record Shared : Type 0 where
    pub lock : sl.State
    pub nr_of_requests : ℕ
    pub phase : ℕ → Phase
    -- How many calls have been counted.
    pub counted : ℕ

  abbrev pub with_phase : ℕ → Phase → Shared → Shared
  with_phase i p s = record s { phase = update s.phase i p }

  -- A round of the loop of `lock`.
  unfoldable pub lock_round : ℕ → Shared → Shared
  lock_round i s =
      let (lock, free) = sl.try_lock s.lock in
      if free
      then record s { lock = lock; phase = update s.phase i entered }
      else record s { lock = lock }

  unfoldable pub store_counter : ℕ → ℕ → Shared → Shared
  store_counter i n s = record s {
    nr_of_requests = (n + 1) % u64_mod;
    phase = update s.phase i handling;
    counted = s.counted + 1;
  }

  unfoldable pub unlock_scoped : ℕ → Shared → Shared
  unlock_scoped i s = record s { lock = sl.unlock s.lock; phase = update s.phase i outside }

  pub data Step (s : Shared) : Shared → Type 0 where
    calls : (i : ℕ) → s.phase i ≡ outside → Step s (with_phase i spinning s)
    spins : (i : ℕ) → s.phase i ≡ spinning → Step s (lock_round i s)
    loads : (i : ℕ) → s.phase i ≡ entered → Step s (with_phase i (loaded s.nr_of_requests) s)
    stores : (i n : ℕ) → s.phase i ≡ loaded n → Step s (store_counter i n s)
    returns : (i : ℕ) → s.phase i ≡ handling → Step s (with_phase i leaving s)
    unlocks : (i : ℕ) → s.phase i ≡ leaving → Step s (unlock_scoped i s)

  -- The constructor of `handler_data` leaves the counter as it is.
  unfoldable pub new_shared : ℕ → Shared
  unfolding spinlock
  new_shared n = record { lock = spinlock; nr_of_requests = n; phase = λ i. outside; counted = 0 }

  pub data Reachable (s : Shared) : Shared → Type 0 where
    starts : Reachable s s
    steps : {t u : Shared} → Reachable s t → Step t u → Reachable s u
