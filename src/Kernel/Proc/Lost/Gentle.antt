-- ===== src/Kernel/Proc/Lost/Gentle.antt =====
-- Steps that leave a process what it is for the table's order, and put nobody to sleep on a process:
-- kills, freezes, wakeups and the scheduler's.
use ncsc210_g.Base.{
  ℕ, ◌≤◌, ◌<◌, ◌≡◌, refl, subst, inl, inr, Bool, true, false, Option, none, some, arith, ◌==◌,
  if◌then◌else◌, ==_iff, Bool-cases,
}
use ncsc210_g.Kernel.Shm.{nproc}
use ncsc210_g.Kernel.Proc.Kill.{killed_proc, on_found}
use ncsc210_g.Kernel.Proc.{
  ProcState, unused, used, sleeping, runnable, running, zombie, Proc, Procs, is_unused, is_zombie,
  is_sleeping, set_proc, wakeup,
}
use ncsc210_g.Kernel.Proc.Consistent.{
  Consistent, Alike, Alike-refl, AllAlike, AllAlike-Consistent, set_proc-here,
}
use ncsc210_g.Kernel.Proc.Exits.{Rested, wakeup-Woken, asleep_on}
use ncsc210_g.Kernel.Proc.System.{System, with_procs}
use ncsc210_g.Kernel.Proc.Lost.{NoneLost, AllAlike-NoneLost, was_asleep}

-- The invariant of the system.
pub record InOrder (s : System) : Type 0 where
  pub consistent : Consistent s.procs
  pub none_lost : NoneLost s

pub record Gentle (p p1 : Proc) : Type 0 where
  pub alike : Alike p p1
  pub no_sleep : (c : ℕ) → c < nproc → asleep_on p1 c ≡ true → asleep_on p c ≡ true

pub record AllGentle (k k1 : Procs) : Type 0 where
  pub gentle : (i : ℕ) → i < nproc → Gentle (k.proc i) (k1.proc i)
  pub nextpid_grows : k.nextpid ≤ k1.nextpid
  pub init_same : k1.initproc ≡ k.initproc

pub Gentle-refl : (p : Proc) → Gentle p p
Gentle-refl p = record { alike = Alike-refl p; no_sleep = λ c low h. h }

pub AllGentle-InOrder :
    (s : System) (k : Procs) → AllGentle s.procs k → InOrder s → InOrder (with_procs s k)
AllGentle-InOrder s k g o =
    let a : AllAlike s.procs k = record {
      alike = λ i low. (g.gentle i low).alike;
      nextpid_grows = g.nextpid_grows;
      init_same = g.init_same;
    } in
    record {
      consistent = AllAlike-Consistent s.procs k a o.consistent;
      none_lost =
          AllAlike-NoneLost s (with_procs s k) o.consistent a
            (λ q low e. inl ((g.gentle q low).no_sleep q low e, refl)) o.none_lost;
    }

pub set_proc-AllGentle :
    (i : ℕ) (p : Proc) (k : Procs) → Gentle (k.proc i) p → AllGentle k (set_proc i p k)
set_proc-AllGentle i p k g = record {
  gentle = λ j low. elim (Bool-cases (i == j)) [
    | inl e ↦
        let same : i ≡ j = (==_iff i j).0 e in
        subst (λ x. Gentle (k.proc x) ((set_proc i p k).proc x)) same (rw (set_proc-here i p k) g)
    | inr e ↦ rw e (Gentle-refl (k.proc j))
  ];
  nextpid_grows = omega arith;
  init_same = refl;
}

Woken-Gentle : (p p1 : Proc) → Rested p p1 × (p1.parent ≡ p.parent) → Gentle p p1
Woken-Gentle p p1 (r, e) = record {
  alike = record {
    unused_same = r.unused_same;
    zombie_same = r.zombie_same;
    pid_same = r.pid_same;
    parent_same = e;
  };
  no_sleep = λ c low h. was_asleep p p1 c r h;
}

pub wakeup-AllGentle : (caller c : ℕ) (k : Procs) → AllGentle k (wakeup caller (some c) k)
unfolding wakeup
wakeup-AllGentle caller c k = record {
  gentle = λ i low. Woken-Gentle (k.proc i) _ (wakeup-Woken caller (some c) k i);
  nextpid_grows = omega arith;
  init_same = refl;
}

pub on_found-AllGentle :
    (change : Proc → Proc) (k : Procs) (found : Option ℕ)
    → ((p : Proc) → Gentle p (change p))
    → AllGentle k (on_found change k found).0
on_found-AllGentle change k none g = record {
  gentle = λ i low. Gentle-refl (k.proc i);
  nextpid_grows = omega arith;
  init_same = refl;
}
on_found-AllGentle change k (some i) g = set_proc-AllGentle i (change (k.proc i)) k (g (k.proc i))

-- A change of the two flags.
pub flags-Gentle :
    (p : Proc) (killed frozen : Bool) → Gentle p (record p { killed = killed; frozen = frozen })
flags-Gentle p killed frozen = record {
  alike = record { unused_same = refl; zombie_same = refl; pid_same = refl; parent_same = refl };
  no_sleep = λ c low h. h;
}

roused_unused :
    (st : ProcState) → is_unused (if is_sleeping st then runnable else st) ≡ is_unused st
roused_unused sleeping = refl
roused_unused unused = refl
roused_unused used = refl
roused_unused runnable = refl
roused_unused running = refl
roused_unused zombie = refl

roused_zombie :
    (st : ProcState) → is_zombie (if is_sleeping st then runnable else st) ≡ is_zombie st
roused_zombie sleeping = refl
roused_zombie unused = refl
roused_zombie used = refl
roused_zombie runnable = refl
roused_zombie running = refl
roused_zombie zombie = refl

roused_awake : (st : ProcState) → is_sleeping (if is_sleeping st then runnable else st) ≡ false
roused_awake sleeping = refl
roused_awake unused = refl
roused_awake used = refl
roused_awake runnable = refl
roused_awake running = refl
roused_awake zombie = refl

pub killed-Gentle : (p : Proc) → Gentle p (killed_proc p)
killed-Gentle p = record {
  alike = record {
    unused_same = roused_unused p.state;
    zombie_same = roused_zombie p.state;
    pid_same = refl;
    parent_same = refl;
  };
  no_sleep = λ c low h. absurd (ground (arith, roused_awake p.state, h));
}
