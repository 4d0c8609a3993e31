-- ===== src/Kernel/Mutex.antt =====
-- The kernel mutexes of xv6-riscv/kernel/sysproc.c in G16_Project1_xv6CustomizeSystemCalls. Every
-- system call runs under wait_lock, which only `sleep` gives up: each function below is what
-- happens between taking that lock and giving it up.
mod Tests
pub mod System
pub mod Invariant
pub mod Exclusion
use ncsc210_g.Base.{
  ℕ, Bool, true, false, not, ◌||◌, Option, none, some, ltb, if◌then◌else◌, ℤ, pos, negsuc,
  minus_one, ◌==ℤ◌, update, find_from,
}

-- NKMUTEX
abbrev pub nkmutex : ℕ
nkmutex = 16

-- struct kmutex_entry; the fields `used` and `locked` are only ever 0 or 1.
pub record KmutexEntry : Type 0 where
  pub used : Bool
  pub locked : Bool
  pub owner_pid : ℤ

-- kmutex_table
abbrev pub Table : Type 0
Table = ℕ → KmutexEntry

-- The test on `id` with which the calls begin.
abbrev pub slot : ℤ → Option ℕ
slot (pos n) = if ltb n nkmutex then some n else none
slot (negsuc n) = none

unfoldable pub sys_mutex_create : Table → Table × ℤ
unfolding find_from
sys_mutex_create t = elim (find_from (λ i. not (t i).used) nkmutex 0) [
  | none ↦ (t, minus_one)
  | some i ↦ (update t i (record { used = true; locked = false; owner_pid = minus_one }), pos i)
]

-- What a round of the loop in sys_mutex_lock comes to: a return, or `sleep` on an entry.
pub data Round : Type 0 where
  returns : Table → ℤ → Round
  sleeps : ℕ → Round

lock_entry : Table → ℕ → (pid : ℕ) → Round
lock_entry t n pid =
    if not (t n).used
    then returns t minus_one
    else if not (t n).locked
    then returns (update t n (record { used = (t n).used; locked = true; owner_pid = pos pid }))
        (pos 0)
    else if (t n).owner_pid ==ℤ pos pid
    then returns t minus_one
    else sleeps n

unfoldable pub sys_mutex_lock : Table → (id : ℤ) (pid : ℕ) → Round
unfolding lock_entry
sys_mutex_lock t id pid = elim (slot id) [
  | none ↦ returns t minus_one
  | some n ↦ lock_entry t n pid
]

-- Behind `sleep`: a killed process gives up, any other goes round again.
unfoldable pub lock_awake : Table → ℕ → (pid : ℕ) (killed : Bool) → Round
unfolding lock_entry
lock_awake t n pid killed = if killed then returns t minus_one else lock_entry t n pid

-- The table, the entry whose sleepers are woken, and the return value.
unfoldable pub sys_mutex_unlock : Table → (id : ℤ) (pid : ℕ) → Table × Option ℕ × ℤ
sys_mutex_unlock t id pid = elim (slot id) [
  | none ↦ (t, none, minus_one)
  | some n ↦
      if not (t n).used || not (t n).locked
      then (t, none, minus_one)
      else if not ((t n).owner_pid ==ℤ pos pid)
      then (t, none, minus_one)
      else (
        update t n (record { used = (t n).used; locked = false; owner_pid = minus_one }),
        some n,
        pos 0,
      )
]

unfoldable pub sys_mutex_trylock : Table → (id : ℤ) (pid : ℕ) → Table × ℤ
sys_mutex_trylock t id pid = elim (slot id) [
  | none ↦ (t, minus_one)
  | some n ↦
      if not (t n).used
      then (t, minus_one)
      else if not (t n).locked
      then (update t n (record { used = (t n).used; locked = true; owner_pid = pos pid }), pos 0)
      else (t, minus_one)
]

unfoldable pub sys_mutex_owner : Table → (id : ℤ) → ℤ
sys_mutex_owner t id = elim (slot id) [
  | none ↦ minus_one
  | some n ↦
      if not (t n).used then minus_one else if not (t n).locked then pos 0 else (t n).owner_pid
]
