-- ===== src/Kernel/Proc/Kill.antt =====
-- kkill, kfreeze, kthaw, ksignal_send and kgetprocstate of proc.c, and the choice of the scheduler.
use ncsc210_g.Base.{
  ℕ, Bool, true, false, not, ◌&&◌, Option, none, some, if◌then◌else◌, ℤ, pos, minus_one, ◌==ℤ◌,
  find_from,
}
use ncsc210_g.Kernel.Shm.{nproc}
use ncsc210_g.Kernel.Proc.{
  ProcState, unused, used, sleeping, runnable, running, zombie, Proc, Procs, is_unused, is_sleeping,
  is_runnable, set_proc,
}

-- Whether the scheduler would run a process, and the first that it finds.
abbrev pub may_run : Proc → Bool
may_run p = is_runnable p.state && not p.frozen

unfoldable pub scheduler : Procs → Option ℕ
scheduler k = find_from (λ i. may_run (k.proc i)) nproc 0

abbrev pub killed_proc : Proc → Proc
killed_proc p = record p {
  killed = true;
  frozen = false;
  state = if is_sleeping p.state then runnable else p.state;
}

-- The loops that look for a pid: what is done with the first process that passes the test.
abbrev pub on_found : (Proc → Proc) → Procs → Option ℕ → Procs × ℤ
on_found change k none = (k, minus_one)
on_found change k (some i) = (set_proc i (change (k.proc i)) k, pos 0)

abbrev pub on_first : (Proc → Bool) → (Proc → Proc) → Procs → Procs × ℤ
on_first test change k = on_found change k (find_from (λ i. test (k.proc i)) nproc 0)

unfoldable pub kkill : (pid : ℤ) → Procs → Procs × ℤ
kkill pid k = on_first (λ p. p.pid ==ℤ pid) killed_proc k

abbrev pub in_use : (pid : ℤ) → Proc → Bool
in_use pid p = p.pid ==ℤ pid && not (is_unused p.state)

unfoldable pub kfreeze : (pid : ℤ) → Procs → Procs × ℤ
kfreeze pid k = on_first (in_use pid) (λ p. record p { frozen = true }) k

unfoldable pub kthaw : (pid : ℤ) → Procs → Procs × ℤ
kthaw pid k = on_first (in_use pid) (λ p. record p { frozen = false }) k

unfoldable pub ksignal_send : (pid sig : ℤ) → Procs → Procs × ℤ
unfolding kkill kfreeze kthaw
ksignal_send pid sig k =
    if sig ==ℤ pos 1
    then kkill pid k
    else if sig ==ℤ pos 2
    then kfreeze pid k
    else if sig ==ℤ pos 3
    then kthaw pid k
    else (k, minus_one)

abbrev state_number : ProcState → ℤ
state_number unused = pos 0
state_number used = pos 1
state_number sleeping = pos 2
state_number runnable = pos 3
state_number running = pos 4
state_number zombie = pos 5

unfoldable pub kgetprocstate : (pid : ℤ) → Procs → ℤ
kgetprocstate pid k = elim (find_from (λ i. in_use pid (k.proc i)) nproc 0) [
  | none ↦ minus_one
  | some i ↦ state_number (k.proc i).state
]
