-- ===== src/Kernel/Proc.antt =====
-- Processes in xv6-riscv/kernel/proc.c of G16_Project1_xv6CustomizeSystemCalls: creation, exit, wait,
-- wakeup, kill, freeze, thaw and the choice of the scheduler. Processes go by their place in the
-- table. Each function is one step; those that sleep are split there.
mod Tests
pub mod Kill
pub mod Signals
pub mod Waits
pub mod System
pub mod Consistent
pub mod Forks
pub mod Exits
pub mod Lost
pub mod Syscalls
use ncsc210_g.Base.{
  ℕ, ◌+◌, Bool, true, false, not, ◌&&◌, Option, none, some, List, [], ◌∷◌, ltb, leb, ◌==◌,
  if◌then◌else◌, ℤ, pos, negsuc, minus_one, update, find_from,
}
use ncsc210_g.Kernel.Shm.{nproc}

-- enum procstate
pub data ProcState : Type 0 where
  unused used sleeping runnable running zombie : ProcState

-- struct proc, as far as these functions go; the null pointers are `none`.
pub record Proc : Type 0 where
  pub state : ProcState
  pub chan : Option ℕ
  pub killed : Bool
  pub frozen : Bool
  pub xstate : ℤ
  pub pid : ℤ
  pub parent : Option ℕ

-- The process table, nextpid and initproc.
pub record Procs : Type 0 where
  pub proc : ℕ → Proc
  pub nextpid : ℕ
  pub initproc : ℕ

abbrev pub is_unused : ProcState → Bool
is_unused unused = true
is_unused _ = false

abbrev pub is_zombie : ProcState → Bool
is_zombie zombie = true
is_zombie _ = false

abbrev pub is_sleeping : ProcState → Bool
is_sleeping sleeping = true
is_sleeping _ = false

abbrev pub is_runnable : ProcState → Bool
is_runnable runnable = true
is_runnable _ = false

abbrev pub same_place : Option ℕ → ℕ → Bool
same_place none p = false
same_place (some q) p = q == p

abbrev pub set_proc : ℕ → Proc → Procs → Procs
set_proc i p k = record k { proc = update k.proc i p }

-- The fields that freeproc resets.
abbrev pub freed : Proc
freed = record {
  state = unused;
  chan = none;
  killed = false;
  frozen = false;
  xstate = pos 0;
  pid = pos 0;
  parent = none;
}

unfoldable pub freeproc : ℕ → Procs → Procs
freeproc i k = set_proc i freed k

-- What allocproc does with the unused slot that it finds; `memory` says whether the trapframe and the
-- page table can be allocated.
alloc_at : (memory : Bool) → Procs → Option ℕ → Option ℕ × Procs
unfolding freeproc
alloc_at memory k none = (none, k)
alloc_at memory k (some i) =
    let p : Proc = record (k.proc i) { pid = pos k.nextpid; state = used; frozen = false } in
    let k1 : Procs = record k { proc = update k.proc i p; nextpid = k.nextpid + 1 } in
    if memory then (some i, k1) else (none, freeproc i k1)

unfoldable pub allocproc : (memory : Bool) → Procs → Option ℕ × Procs
unfolding alloc_at
allocproc memory k = alloc_at memory k (find_from (λ i. is_unused (k.proc i).state) nproc 0)

-- From allocproc on; `copies` says whether uvmcopy succeeds.
fork_into : (parent : ℕ) (copies : Bool) → Option ℕ × Procs → Procs × ℤ
unfolding freeproc
fork_into parent copies (none, k) = (k, minus_one)
fork_into parent copies (some i, k) =
    if copies
    then (
      set_proc i (record (k.proc i) { parent = some parent; state = runnable }) k,
      (k.proc i).pid,
    )
    else (freeproc i k, minus_one)

unfoldable pub kfork : (memory copies : Bool) (parent : ℕ) → Procs → Procs × ℤ
unfolding allocproc fork_into
kfork memory copies parent k = fork_into parent copies (allocproc memory k)

-- The loop of kforkn, with how each fork goes; a fork that fails ends it.
unfoldable pub kforkn : List (Bool × Bool) → (parent created : ℕ) → Procs → Procs × ℕ
unfolding kfork
kforkn [] parent created k = (k, created)
kforkn ((memory, copies) ∷ more) parent created k =
    let (k1, rc) = kfork memory copies parent k in
    let rest = kforkn more parent (created + 1) k1 in
    elim rc [ pos n ↦ if n == 0 then (k1, 0) else rest | negsuc n ↦ (k1, created) ]

unfoldable pub kthread_create : (memory copies : Bool) (parent fn sz : ℕ) → Procs → Procs × ℤ
unfolding kfork
kthread_create memory copies parent fn sz k =
    if leb sz fn then (k, minus_one) else kfork memory copies parent k

-- The test and the change that wakeup makes on one process.
abbrev pub wake : (chan : Option ℕ) → Proc → Proc
wake none p = p
wake (some c) p =
    if is_sleeping p.state && same_place p.chan c then record p { state = runnable } else p

-- `caller` is not looked at. Here a channel is a process, and none sleeps on the null channel.
unfoldable pub wakeup : (caller : ℕ) (chan : Option ℕ) → Procs → Procs
wakeup caller chan k = record k {
  proc = λ i. if not (i == caller) && ltb i nproc then wake chan (k.proc i) else k.proc i;
}

-- The children of `p` are given to the first process.
adopt : ℕ → Procs → Procs
adopt p k = record k {
  proc = λ i.
      if ltb i nproc && same_place (k.proc i).parent p
      then record (k.proc i) { parent = some k.initproc }
      else k.proc i;
}

-- The first process is woken where a child was found.
wake_init : (p : ℕ) → Option ℕ → Procs → Procs
unfolding wakeup
wake_init p none k = k
wake_init p (some i) k = wakeup p (some k.initproc) k

unfoldable pub reparent : ℕ → Procs → Procs
unfolding adopt wake_init
reparent p k = wake_init p (find_from (λ i. same_place (k.proc i).parent p) nproc 0) (adopt p k)

-- `none` is the panic of the first process.
unfoldable pub kexit : (p : ℕ) (status : ℤ) → Procs → Option Procs
unfolding wakeup reparent
kexit p status k =
    if p == k.initproc
    then none
    else let k1 = reparent p k in
      let k2 = wakeup p (k1.proc p).parent k1 in
      some (set_proc p (record (k2.proc p) { xstate = status; state = zombie }) k2)
