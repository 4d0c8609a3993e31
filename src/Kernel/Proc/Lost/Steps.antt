-- ===== src/Kernel/Proc/Lost/Steps.antt =====
-- Every step of the processes keeps the invariant.
use ncsc210_g.Base.{
  ℕ, ◌≤◌, ◌<◌, ◌≡◌, refl, ap, ◌∙◌, inl, inr, Bool, true, false, not, ◌&&◌, none, some, arith,
  Bool-cases, ℤ,
}
use ncsc210_g.Kernel.Shm.{nproc}
use ncsc210_g.Kernel.Proc.Kill.{may_run, killed_proc, kkill, kfreeze, kthaw}
use ncsc210_g.Kernel.Proc.{
  ProcState, unused, used, sleeping, runnable, running, zombie, Proc, Procs, is_unused, is_sleeping,
  is_runnable, kfork, kexit,
}
use ncsc210_g.Kernel.Proc.Consistent.{exists_at, is_alive}
use ncsc210_g.Kernel.Proc.Exits.Exited.{kexit_lem}
use ncsc210_g.Kernel.Proc.Exits.Keeps.{Exited-Consistent}
use ncsc210_g.Kernel.Proc.Forks.{NotBorn, Forked, kfork_lem}
use ncsc210_g.Kernel.Proc.Forks.Keeps.{Born-Consistent}
use ncsc210_g.Kernel.Proc.Waits.{kwait, kwaitpid, kwaitpid_lem}
use ncsc210_g.Kernel.Proc.Waits.Any.{kwait_lem}
use ncsc210_g.Kernel.Proc.Waits.Status.{running_lives}
use ncsc210_g.Kernel.Proc.System.{
  System, Runs, with_procs, Step, fork, exit, wait, waitpid, kill, freeze, thaw, fault, schedule,
  preempt, sleep_on, wake_up,
}
use ncsc210_g.Kernel.Proc.Lost.{Born-NoneLost, Exited-NoneLost}
use ncsc210_g.Kernel.Proc.Lost.Gentle.{
  InOrder, Gentle, AllGentle, AllGentle-InOrder, set_proc-AllGentle, wakeup-AllGentle,
  on_found-AllGentle, flags-Gentle, killed-Gentle,
}
use ncsc210_g.Kernel.Proc.Lost.Rounds.{running_sleeps, wait-InOrder, waitpid-InOrder}

asleep_used : (st : ProcState) → not (is_unused st) ≡ false → is_sleeping st ≡ false
asleep_used unused h = refl
asleep_used used h = refl
asleep_used sleeping h = cc
asleep_used runnable h = refl
asleep_used running h = refl
asleep_used zombie h = refl

unused_awake : (k : Procs) (i : ℕ) → exists_at k i ≡ false → is_sleeping (k.proc i).state ≡ false
unused_awake k i e = asleep_used (k.proc i).state e

NotBorn-AllGentle : (k k1 : Procs) → NotBorn k k1 → AllGentle k k1
NotBorn-AllGentle k k1 n = record {
  gentle = λ i low. record {
    alike = n.alike.alike i low;
    no_sleep = λ c c_low h. elim (Bool-cases (exists_at k i)) [
      | inl e ↦ rw (n.kept i e) at h
      | inr e ↦
          let gone : exists_at k1 i ≡ false = ap not (n.alike.alike i low).unused_same ∙ e in
          absurd (ground (arith, unused_awake k1 i gone, h))
    ];
  };
  nextpid_grows = n.alike.nextpid_grows;
  init_same = n.alike.init_same;
}

Forked-InOrder :
    (s : System) (p : ℕ) (r : Procs × ℤ)
    → p < nproc
    → is_alive s.procs p ≡ true
    → Forked p s.procs r
    → InOrder s
    → InOrder (with_procs s r.0)
Forked-InOrder s p r low lives f o = elim f [
  | inl (_, n) ↦ AllGentle-InOrder s r.0 (NotBorn-AllGentle s.procs r.0 n) o
  | inr (i, _, b) ↦ record {
    consistent = Born-Consistent p s.procs r.0 i o.consistent low lives b;
    none_lost = Born-NoneLost p i s r.0 b lives o.none_lost o.consistent;
  }
]

exited-InOrder :
    (s : System) (p : ℕ) (status : ℤ) (k : Procs)
    → Runs s p
    → kexit p status s.procs ≡ some k
    → InOrder s
    → InOrder (with_procs s k)
exited-InOrder s p status k r e o =
    let x = kexit_lem p status s.procs k o.consistent.init_lives.0 e in
    let lives = running_lives s.procs p r.is_running in
    let c = Exited-Consistent p status s.procs k o.consistent lives x in
    record { consistent = c; none_lost = Exited-NoneLost p status s k x o.none_lost o.consistent c }

runnable_state :
    (st : ProcState) (frozen : Bool) → (is_runnable st && not frozen) ≡ true → st ≡ runnable
runnable_state runnable frozen h = refl
runnable_state unused frozen h = absurd (ground arith)
runnable_state used frozen h = absurd (ground arith)
runnable_state sleeping frozen h = absurd (ground arith)
runnable_state running frozen h = absurd (ground arith)
runnable_state zombie frozen h = absurd (ground arith)

runnable_is : (p : Proc) → may_run p ≡ true → p.state ≡ runnable
runnable_is p h = runnable_state p.state p.frozen h

switch_to-Gentle :
    (p : Proc) → p.state ≡ runnable → Gentle p (record p { state = running; chan = none })
switch_to-Gentle p e = record {
  alike = record {
    unused_same = rw e refl;
    zombie_same = rw e refl;
    pid_same = refl;
    parent_same = refl;
  };
  no_sleep = λ c low h. absurd (ground (arith, h));
}

yield-Gentle : (p : Proc) → p.state ≡ running → Gentle p (record p { state = runnable })
yield-Gentle p e = record {
  alike = record {
    unused_same = rw e refl;
    zombie_same = rw e refl;
    pid_same = refl;
    parent_same = refl;
  };
  no_sleep = λ c low h. absurd (ground (arith, h));
}

sleep-Gentle :
    (p : Proc) (chan : ℕ)
    → p.state ≡ running
    → nproc ≤ chan
    → Gentle p (record p { chan = some chan; state = sleeping })
sleep-Gentle p chan e far = record {
  alike = running_sleeps p chan e;
  no_sleep = λ c low h. absurd (ground (arith, h));
}

pub step-InOrder : {s t : System} → Step s t → InOrder s → InOrder t
unfolding kkill kfreeze kthaw
step-InOrder {s} (fork p memory copies r _) o =
    Forked-InOrder s p (kfork memory copies p s.procs) r.in_table
      (running_lives s.procs p r.is_running) (kfork_lem memory copies p s.procs o.consistent) o
step-InOrder {s} (exit p status k r _ e) o = exited-InOrder s p status k r e o
step-InOrder {s} (wait p copyout r _) o =
    wait-InOrder s p (kwait p copyout s.procs) r (kwait_lem p copyout s.procs) o
step-InOrder {s} (waitpid p target copyout r _) o =
    waitpid-InOrder s p target (kwaitpid p target copyout s.procs) r
      (kwaitpid_lem p target copyout s.procs) o
step-InOrder {s} (kill pid) o =
    AllGentle-InOrder s _ (on_found-AllGentle killed_proc s.procs _ killed-Gentle) o
step-InOrder {s} (freeze pid) o =
    AllGentle-InOrder s _
      (on_found-AllGentle (λ p. record p { frozen = true }) s.procs _
        (λ p. flags-Gentle p p.killed true))
      o
step-InOrder {s} (thaw pid) o =
    AllGentle-InOrder s _
      (on_found-AllGentle (λ p. record p { frozen = false }) s.procs _
        (λ p. flags-Gentle p p.killed false))
      o
step-InOrder {s} (fault p r) o =
    AllGentle-InOrder s _
      (set_proc-AllGentle p _ s.procs (flags-Gentle (s.procs.proc p) true (s.procs.proc p).frozen))
      o
step-InOrder {s} (schedule p low m) o =
    AllGentle-InOrder s _
      (set_proc-AllGentle p _ s.procs
        (switch_to-Gentle (s.procs.proc p) (runnable_is (s.procs.proc p) m)))
      o
step-InOrder {s} (preempt p r) o =
    AllGentle-InOrder s _
      (set_proc-AllGentle p _ s.procs (yield-Gentle (s.procs.proc p) r.is_running)) o
step-InOrder {s} (sleep_on p chan r _ far) o =
    AllGentle-InOrder s _
      (set_proc-AllGentle p _ s.procs (sleep-Gentle (s.procs.proc p) chan r.is_running far)) o
step-InOrder {s} (wake_up caller chan _) o =
    AllGentle-InOrder s _ (wakeup-AllGentle caller chan s.procs) o
