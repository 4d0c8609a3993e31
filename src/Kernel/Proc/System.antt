-- ===== src/Kernel/Proc/System.antt =====
-- The processes of xv6-riscv/kernel/proc.c at work: what a running process may do, in any order and on
-- any number of cores. The loop of kwait and of kwaitpid is one step for each round; a process that
-- sleeps there goes round again when it runs again.
use ncsc210_g.Base.{ℕ, ◌≤◌, ◌<◌, ◌≡◌, ◌⊎◌, Bool, true, Option, none, some, ℤ, update}
use ncsc210_g.Kernel.Shm.{nproc}
use ncsc210_g.Kernel.Proc.Waits.{Waited, returns, sleeps, kwait, kwaitpid}
use ncsc210_g.Kernel.Proc.Kill.{may_run, kkill, kfreeze, kthaw}
use ncsc210_g.Kernel.Proc.{
  sleeping, runnable, running, Procs, set_proc, freed, allocproc, kfork, wakeup, kexit,
}

-- The system call that a process is in, where that call sleeps on the process itself.
pub data Call : Type 0 where
  no_call : Call
  in_wait : Call
  in_waitpid : ℤ → Call

pub record System : Type 0 where
  pub procs : Procs
  pub call : ℕ → Call

-- Before userinit: the table is zero, and nextpid is 1.
abbrev empty_table : Procs
empty_table = record { proc = λ i. freed; nextpid = 1; initproc = 0 }

-- What userinit does with the process that allocproc gives it; it has no test for none.
abbrev init_with : Option ℕ × Procs → Procs
init_with (none, k) = k
init_with (some i, k) = record k {
  proc = update k.proc i (record (k.proc i) { state = runnable });
  initproc = i;
}

unfoldable pub userinit : Procs → Procs
unfolding allocproc
userinit k = init_with (allocproc true k)

abbrev pub boot : System
unfolding userinit
boot = record { procs = userinit empty_table; call = λ p. no_call }

-- Channels below nproc are processes; all others stand for the other addresses the kernel sleeps on.
abbrev pub sleep : (p chan : ℕ) → Procs → Procs
sleep p chan k = set_proc p (record (k.proc p) { chan = some chan; state = sleeping }) k

-- The scheduler switches to a process; if that was in sleep, it first resets its channel, still under
-- its lock.
abbrev pub switch_to : ℕ → Procs → Procs
switch_to p k = set_proc p (record (k.proc p) { state = running; chan = none }) k

abbrev pub yield : ℕ → Procs → Procs
yield p k = set_proc p (record (k.proc p) { state = runnable }) k

abbrev pub setkilled : ℕ → Procs → Procs
setkilled p k = set_proc p (record (k.proc p) { killed = true }) k

abbrev pub after_round : System → (p : ℕ) (call : Call) → Waited → System
after_round s p call (returns k r status) = record { procs = k; call = update s.call p no_call }
after_round s p call sleeps = record { procs = sleep p p s.procs; call = update s.call p call }

-- Process `p` is in the table and has a core.
pub record Runs (s : System) (p : ℕ) : Type 0 where
  pub in_table : p < nproc
  pub is_running : (s.procs.proc p).state ≡ running

abbrev pub with_procs : System → Procs → System
with_procs s k = record s { procs = k }

-- kforkn and kthread_create come to steps of kfork.
pub data Step (s : System) : System → Type 0 where
  fork :
      (p : ℕ) (memory copies : Bool)
      → Runs s p
      → s.call p ≡ no_call
      → Step s (with_procs s (kfork memory copies p s.procs).0)
  exit :
      (p : ℕ) (status : ℤ) (k : Procs)
      → Runs s p
      → s.call p ≡ no_call
      → kexit p status s.procs ≡ some k
      → Step s (with_procs s k)
  wait :
      (p : ℕ) (copyout : Bool)
      → Runs s p
      → (s.call p ≡ no_call) ⊎ (s.call p ≡ in_wait)
      → Step s (after_round s p in_wait (kwait p copyout s.procs))
  waitpid :
      (p : ℕ) (target : ℤ) (copyout : Bool)
      → Runs s p
      → (s.call p ≡ no_call) ⊎ (s.call p ≡ in_waitpid target)
      → Step s (after_round s p (in_waitpid target) (kwaitpid p target copyout s.procs))
  kill : (pid : ℤ) → Step s (with_procs s (kkill pid s.procs).0)
  freeze : (pid : ℤ) → Step s (with_procs s (kfreeze pid s.procs).0)
  thaw : (pid : ℤ) → Step s (with_procs s (kthaw pid s.procs).0)
  fault : (p : ℕ) → Runs s p → Step s (with_procs s (setkilled p s.procs))
  schedule :
      (p : ℕ)
      → p < nproc
      → may_run (s.procs.proc p) ≡ true
      → Step s (with_procs s (switch_to p s.procs))
  preempt : (p : ℕ) → Runs s p → Step s (with_procs s (yield p s.procs))
  sleep_on :
      (p chan : ℕ)
      → Runs s p
      → s.call p ≡ no_call
      → nproc ≤ chan
      → Step s (with_procs s (sleep p chan s.procs))
  wake_up :
      (caller chan : ℕ) → nproc ≤ chan → Step s (with_procs s (wakeup caller (some chan) s.procs))

pub data Reach : System → Type 0 where
  start : Reach boot
  next : {s t : System} → Reach s → Step s t → Reach t
