-- ===== src/Kernel/Proc/Syscalls.antt =====
-- The system calls of sysproc.c on processes. The arguments that argint fetches are their parameters,
-- with the slot of the caller, myproc, where they use it.
use ncsc210_g.Base.{
  ℕ, ◌<◌, ◌≡◌, refl, sym, ap, ◌∙◌, ◌≢◌, ◌⊎◌, inl, inr, Bool, true, not, Option, none, some, List,
  arith, ◌==◌, if◌then◌else◌, ℤ, pos, negsuc, minus_one,
}
use ncsc210_g.Kernel.Shm.{nproc}
use ncsc210_g.Kernel.Proc.{Procs, is_zombie, same_place, kfork, kforkn, kthread_create, kexit}
use ncsc210_g.Kernel.Proc.Kill.{kkill, kfreeze, kthaw, ksignal_send, kgetprocstate}
use ncsc210_g.Kernel.Proc.Waits.{Waited, kwait, kwaitpid, and_left}
use ncsc210_g.Kernel.Proc.Consistent.{exists_at, Consistent}
use ncsc210_g.Kernel.Proc.Forks.{Born, Forked, kfork_lem}
use ncsc210_g.Kernel.Proc.Exits.Exited.{kexit_lem}

unfoldable pub sys_exit : (caller : ℕ) (n : ℤ) → Procs → Option Procs
unfolding kexit
sys_exit caller n k = kexit caller n k

unfoldable pub sys_getpid : (caller : ℕ) → Procs → ℤ
sys_getpid caller k = (k.proc caller).pid

abbrev pid_of_parent : Option ℕ → Procs → ℤ
pid_of_parent none k = pos 0
pid_of_parent (some q) k = (k.proc q).pid

unfoldable pub sys_getppid : (caller : ℕ) → Procs → ℤ
sys_getppid caller k = pid_of_parent (k.proc caller).parent k

unfoldable pub sys_fork : (memory copies : Bool) (caller : ℕ) → Procs → Procs × ℤ
unfolding kfork
sys_fork memory copies caller k = kfork memory copies caller k

-- Whether a number is zero or less.
abbrev not_positive : ℤ → Bool
not_positive (pos n) = n == 0
not_positive (negsuc n) = true

-- `forks` says how each of the n forks of kforkn would go.
unfoldable pub sys_forkn : (n : ℤ) (forks : List (Bool × Bool)) (caller : ℕ) → Procs → Procs × ℤ
unfolding kforkn
sys_forkn n forks caller k =
    if not_positive n
    then (k, minus_one)
    else let (k1, created) = kforkn forks caller 0 k in (k1, pos created)

unfoldable pub sys_thread_create : (memory copies : Bool) (caller fn sz : ℕ) → Procs → Procs × ℤ
unfolding kthread_create
sys_thread_create memory copies caller fn sz k = kthread_create memory copies caller fn sz k

-- One round of the wait that the call sleeps in.
unfoldable pub sys_wait : (caller : ℕ) (copyout : Bool) → Procs → Waited
unfolding kwait
sys_wait caller copyout k = kwait caller copyout k

unfoldable pub sys_waitpid : (caller : ℕ) (pid : ℤ) (copyout : Bool) → Procs → Waited
unfolding kwaitpid
sys_waitpid caller pid copyout k = kwaitpid caller pid copyout k

unfoldable pub sys_kill : (pid : ℤ) → Procs → Procs × ℤ
unfolding kkill
sys_kill pid k = kkill pid k

unfoldable pub sys_freeze : (pid : ℤ) → Procs → Procs × ℤ
unfolding kfreeze
sys_freeze pid k = kfreeze pid k

unfoldable pub sys_thaw : (pid : ℤ) → Procs → Procs × ℤ
unfolding kthaw
sys_thaw pid k = kthaw pid k

unfoldable pub sys_signal_send : (pid sig : ℤ) → Procs → Procs × ℤ
unfolding ksignal_send
sys_signal_send pid sig k = ksignal_send pid sig k

unfoldable pub sys_getprocstate : (pid : ℤ) → Procs → ℤ
unfolding kgetprocstate
sys_getprocstate pid k = if not_positive pid then minus_one else kgetprocstate pid k

-- In a table that is in order: when the parent of a process has exited, getppid gives this process the
-- pid of the first process, which was not the one that exited.
pub sys_getppid-sys_exit :
    (k k1 : Procs) (p i : ℕ) (status : ℤ)
    → Consistent k
    → i < nproc
    → (k.proc i).parent ≡ some p
    → sys_exit p status k ≡ some k1
    → (sys_getppid i k1 ≡ sys_getpid k.initproc k) × (p ≢ k.initproc)
unfolding sys_getppid sys_getpid sys_exit
sys_getppid-sys_exit k k1 p i status c low parent e =
    let x = kexit_lem p status k k1 c.init_lives.0 e in
    let child : same_place (k.proc i).parent p ≡ true = rw parent (ground arith) in
    (rw ((x.adopted i low child).0) ((x.others k.initproc x.not_init).pid_same), x.not_init)

-- What getpid and getppid tell the two processes after a fork that gave `r`.
abbrev pub Related : (caller : ℕ) → Procs → Procs × ℤ → Type 0
Related caller k (k1, r) =
    (r ≡ minus_one)
    ⊎ ((i : ℕ) × (sys_getpid i k1 ≡ r)
        × (sys_getppid i k1 ≡ sys_getpid caller k1)
        × (sys_getpid caller k1 ≡ sys_getpid caller k)
        × (sys_getppid caller k1 ≡ sys_getppid caller k))

-- A fork leaves the parents of the processes that exist their pids.
pid_of_parent-Born :
    (p : ℕ) (k k1 : Procs) (i : ℕ) (q : Option ℕ)
    → Consistent k
    → p < nproc
    → Born p k k1 i
    → (k.proc p).parent ≡ q
    → pid_of_parent q k1 ≡ pid_of_parent q k
pid_of_parent-Born p k k1 i none c low b e = refl
pid_of_parent-Born p k k1 i (some q) c low b e =
    let (_, alive) = c.parents_live p q low e in
    let there = and_left (exists_at k q) (not (is_zombie (k.proc q).state)) alive in
    ap (λ x. x.pid) (b.others q (λ s. ground (arith, s, there, b.was_free)))

Forked-Related :
    (p : ℕ) (k : Procs) (r : Procs × ℤ)
    → Consistent k
    → p < nproc
    → exists_at k p ≡ true
    → Forked p k r
    → Related p k r
unfolding sys_getppid sys_getpid
Forked-Related p k (k1, r) c low there (inl (e, n)) = inl e
Forked-Related p k (k1, r) c low there (inr (i, e, b)) =
    let ne : i ≢ p = λ s. ground (arith, s, there, b.was_free) in
    let caller : k1.proc p ≡ k.proc p = b.others p ne in
    inr (
      i,
      b.pid_is ∙ sym e,
      ap (λ q. pid_of_parent q k1) b.parent_is,
      ap (λ x. x.pid) caller,
      ap (λ x. pid_of_parent x.parent k1) caller
          ∙ pid_of_parent-Born p k k1 i (k.proc p).parent c low b refl,
    )

-- In a table that is in order: a fork by a process that exists fails with -1, or its child's getpid is
-- the number that fork returned and its getppid is the parent's getpid, and the parent's own getpid and
-- getppid are as before.
pub getpids-sys_fork :
    (memory copies : Bool) (p : ℕ) (k : Procs)
    → Consistent k
    → p < nproc
    → exists_at k p ≡ true
    → Related p k (sys_fork memory copies p k)
unfolding sys_fork
getpids-sys_fork memory copies p k c low there =
    Forked-Related p k (kfork memory copies p k) c low there (kfork_lem memory copies p k c)
