-- ===== src/Kernel/Mutex/System.antt =====
-- Processes that call the mutex system calls, in any order. A call that has not returned is asleep
-- on an entry, or awake again and about to go round its loop.
use ncsc210_g.Base.{
  ℕ, zero, ◌≡◌, Bool, true, false, Option, some, ◌==◌, if◌then◌else◌, ℤ, pos, update,
}
use ncsc210_g.Kernel.Mutex.{
  Table, Round, returns, sleeps, sys_mutex_create, sys_mutex_lock, lock_awake, sys_mutex_unlock,
  sys_mutex_trylock,
}

pub data Status : Type 0 where
  idle : Status
  asleep : ℕ → Status
  awake : ℕ → Status

-- Processes go by their pids. `granted p n` remembers what process `p` knows: that a call of its
-- own took mutex `n`, and none since gave it back.
pub record System : Type 0 where
  pub table : Table
  pub status : ℕ → Status
  pub killed : ℕ → Bool
  pub granted : ℕ → ℕ → Bool

-- A successful call of `p` on mutex `id` changes what `p` knows.
abbrev pub note : (ℕ → ℕ → Bool) → (p : ℕ) (id : ℤ) (result : ℤ) (now : Bool) → ℕ → ℕ → Bool
note g p (pos n) (pos zero) now = update g p (update (g p) n now)
note g p _ _ now = g

-- What a round of `p` on mutex `id` leaves behind.
abbrev pub after_round : System → (p : ℕ) (id : ℤ) → Round → System
after_round s p id (returns t r) = record s {
  table = t;
  status = update s.status p idle;
  granted = note s.granted p id r true;
}
after_round s p id (sleeps n) = record s { status = update s.status p (asleep n) }

-- `wakeup` on entry `n` (no entry: no wakeup), seen by one process.
abbrev pub woken : Option ℕ → Status → Status
woken (some n) (asleep m) = if m == n then awake m else asleep m
woken _ st = st

-- kkill also makes a sleeping process runnable.
abbrev pub roused : Status → Status
roused (asleep n) = awake n
roused st = st

abbrev pub after_unlock : System → (p : ℕ) (id : ℤ) → Table × Option ℕ × ℤ → System
after_unlock s p id (t, channel, r) = record s {
  table = t;
  status = λ q. woken channel (s.status q);
  granted = note s.granted p id r false;
}

abbrev pub after_trylock : System → (p : ℕ) (id : ℤ) → Table × ℤ → System
after_trylock s p id (t, r) = record s { table = t; granted = note s.granted p id r true }

pub data Step (s : System) : System → Type 0 where
  create : Step s (record s { table = (sys_mutex_create s.table).0 })
  lock :
      (p : ℕ) (id : ℤ)
      → s.status p ≡ idle
      → Step s (after_round s p id (sys_mutex_lock s.table id p))
  resume :
      (p n : ℕ)
      → s.status p ≡ awake n
      → Step s (after_round s p (pos n) (lock_awake s.table n p (s.killed p)))
  unlock :
      (p : ℕ) (id : ℤ)
      → s.status p ≡ idle
      → Step s (after_unlock s p id (sys_mutex_unlock s.table id p))
  trylock :
      (p : ℕ) (id : ℤ)
      → s.status p ≡ idle
      → Step s (after_trylock s p id (sys_mutex_trylock s.table id p))
  kill :
      (p : ℕ)
      → Step s (record s {
        status = update s.status p (roused (s.status p));
        killed = update s.killed p true;
      })

-- The table is zero at boot.
abbrev pub boot : System
boot = record {
  table = λ n. record { used = false; locked = false; owner_pid = pos 0 };
  status = λ p. idle;
  killed = λ p. false;
  granted = λ p n. false;
}

pub data Reach : System → Type 0 where
  start : Reach boot
  next : {s t : System} → Reach s → Step s t → Reach t
