-- ===== src/Kernel/Mutex/Tests.antt =====
-- Two processes that want one mutex, and the theorems in the states that they go through.
use ncsc210_g.Base.{ℕ, ◌≡◌, refl, ◌≢◌, true, false, pos}
use ncsc210_g.Kernel.Mutex.{sys_mutex_create, sys_mutex_lock, lock_awake, sys_mutex_unlock}
use ncsc210_g.Kernel.Mutex.System.{asleep, System, create, lock, resume, unlock, Reach, start, next}
use ncsc210_g.Kernel.Mutex.Exclusion.{mutual_exclusion, sleeper_waits_for_holder}

-- Process 1 holds mutex 0, and process 2 sleeps on it.
abbrev contended : (s : System) × Reach s
unfolding sys_mutex_create sys_mutex_lock
contended = (_, next (next (next start create) (lock 1 (pos 0) refl)) (lock 2 (pos 0) refl))

waits_state : (contended.0).status 2 ≡ asleep 0
unfolding sys_mutex_create sys_mutex_lock
waits_state = refl

-- The holder gives the mutex back, and the sleeper gets it.
handed_over : (s : System) × Reach s × (s.granted 1 0 ≡ false) × (s.granted 2 0 ≡ true)
unfolding sys_mutex_create sys_mutex_lock sys_mutex_unlock lock_awake
handed_over = (_, next (next contended.1 (unlock 1 (pos 0) refl)) (resume 2 0 refl), refl, refl)

mutual_exclusion_example : ◌≡◌ {A = ℕ} 1 1
unfolding sys_mutex_create sys_mutex_lock
mutual_exclusion_example = mutual_exclusion contended.1 1 1 0 refl refl

sleeper_waits_for_holder_example : (q : ℕ) × ((contended.0).granted q 0 ≡ true) × (q ≢ 2)
unfolding sys_mutex_create sys_mutex_lock
sleeper_waits_for_holder_example = sleeper_waits_for_holder contended.1 2 0 refl
