-- ===== src/Kernel/Proc/Lost/Tests.antt =====
-- The first process forks twice; the first child exits, and the parent waits for the second.
use ncsc210_g.Base.{◌≡◌, refl, inl, true, false, none, some, arith, pos, find_from}
use ncsc210_g.Kernel.Proc.Waits.{returns, sleeps, kwait, kwaitpid}
use ncsc210_g.Kernel.Proc.{Procs, freeproc, kfork, kexit}
use ncsc210_g.Kernel.Proc.Consistent.{Consistent}
use ncsc210_g.Kernel.Proc.Waits.Any.{WaitedAny, kwait_lem}
use ncsc210_g.Kernel.Proc.Waits.Status.{kwaitpid-kexit}
use ncsc210_g.Kernel.Proc.System.{
  in_waitpid, System, userinit, boot, switch_to, after_round, with_procs, fork, exit, waitpid,
  schedule, Reach, start, next,
}
use ncsc210_g.Kernel.Proc.Syscalls.{sys_exit, sys_getppid}
use ncsc210_g.Kernel.Proc.Lost.{waits_for}
use ncsc210_g.Kernel.Proc.Lost.Reached.{Reach-Consistent, no_lost_wakeup}

-- The first process runs and has forked twice, and the first child runs.
abbrev one_child : System
unfolding userinit
one_child =
    let s1 = with_procs boot (switch_to 0 boot.procs) in
    with_procs s1 (kfork true true 0 s1.procs).0

abbrev forked : System
unfolding userinit kfork
forked =
    let s = with_procs one_child (kfork true true 0 one_child.procs).0 in
    with_procs s (switch_to 1 s.procs)

forked-Reach : Reach forked
unfolding userinit kfork find_from
forked-Reach =
    let a = next start (schedule 0 (omega arith) refl) in
    let b = next a (fork 0 true true (record { in_table = omega arith; is_running = refl }) refl) in
    let c = next b (fork 0 true true (record { in_table = omega arith; is_running = refl }) refl) in
    next c (schedule 1 (omega arith) refl)

-- The first child has exited.
abbrev exited : Procs
unfolding kexit userinit kfork find_from
exited = elim (kexit 1 (pos 7) forked.procs) [ none ↦ forked.procs | some k ↦ k ]

kexit-exited : kexit 1 (pos 7) forked.procs ≡ some exited
unfolding kexit userinit kfork find_from
kexit-exited = refl

-- The parent waits for the second child.
abbrev waiting : System
waiting = after_round (with_procs forked exited) 0 (in_waitpid (pos 3)) sleeps

waiting-Reach : Reach waiting
unfolding kexit userinit kfork find_from kwaitpid
waiting-Reach =
    let a = next forked-Reach (
      exit 1 (pos 7) exited (record { in_table = omega arith; is_running = refl }) refl
        kexit-exited) in
    next a
      (waitpid 0 (pos 3) true (record { in_table = omega arith; is_running = refl }) (inl refl))

Reach-Consistent_example : Consistent waiting.procs
Reach-Consistent_example = Reach-Consistent waiting waiting-Reach

no_lost_wakeup_example : waits_for (waiting.call 0) (waiting.procs.proc 1).pid ≡ false
unfolding kexit userinit kfork find_from
no_lost_wakeup_example = no_lost_wakeup waiting 1 0 waiting-Reach (omega arith) refl refl refl

kwaitpid-kexit_example :
    kwaitpid 0 (pos 2) true exited ≡ returns (freeproc 1 exited) (pos 2) (some (pos 7))
unfolding kexit userinit kfork find_from
kwaitpid-kexit_example =
    kwaitpid-kexit forked.procs exited 1 0 1 (pos 7) (Reach-Consistent forked forked-Reach)
      (omega arith) refl refl refl (λ e. omega (arith, e)) kexit-exited

kwait_lem_example : WaitedAny 0 exited (kwait 0 true exited)
kwait_lem_example = kwait_lem 0 true exited

-- The first child forks, and exits.
abbrev grandchild : System
unfolding userinit kfork
grandchild = with_procs forked (kfork true true 1 forked.procs).0

grandchild-Reach : Reach grandchild
unfolding userinit kfork find_from
grandchild-Reach =
    next forked-Reach (fork 1 true true (record { in_table = omega arith; is_running = refl }) refl)

abbrev orphaned : Procs
unfolding sys_exit kexit userinit kfork find_from
orphaned = elim (sys_exit 1 (pos 0) grandchild.procs) [ none ↦ grandchild.procs | some k ↦ k ]

grandchild_is_third : sys_getppid 3 grandchild.procs ≡ pos 2
unfolding sys_getppid userinit kfork find_from
grandchild_is_third = refl
