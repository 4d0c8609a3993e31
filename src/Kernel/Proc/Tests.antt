-- ===== src/Kernel/Proc/Tests.antt =====
-- A parent in slot 1 and a child in slot 2.
use ncsc210_g.Base.{
  ℕ, ◌≡◌, refl, ◌⊎◌, true, false, ◌||◌, none, some, ◌==◌, if◌then◌else◌, pos, ◌==ℤ◌, find_from,
}
use ncsc210_g.Kernel.Proc.Kill.{may_run, killed_proc, kkill}
use ncsc210_g.Kernel.Proc.{
  ProcState, sleeping, runnable, running, Proc, Procs, is_sleeping, is_runnable, freed, kfork,
}
use ncsc210_g.Kernel.Proc.Signals.{Changed, NoneFound, kkill_lem}

abbrev live : (state : ProcState) (pid : ℕ) (parent : ℕ) → Proc
live state pid parent = record {
  state = state;
  chan = none;
  killed = false;
  frozen = false;
  xstate = pos 9;
  pid = pos pid;
  parent = some parent;
}

abbrev table : ProcState → Procs
table child = record {
  proc = λ i.
      if i == 0
      then live sleeping 1 0
      else if i == 1
      then live running 2 0
      else if i == 2
      then live child 3 1
      else freed;
  nextpid = 4;
  initproc = 0;
}

-- A pid of 0 belongs to every unused slot, and kkill finds the first.
kill_of_zero : (kkill (pos 0) (table runnable)).1 ≡ pos 0
unfolding kkill find_from
kill_of_zero = refl

slot_of_zero_is_killed : ((kkill (pos 0) (table runnable)).0.proc 3).killed ≡ true
unfolding kkill find_from
slot_of_zero_is_killed = refl

child_gets_pid : (kfork true true 1 (table runnable)).1 ≡ pos 4
unfolding kfork find_from
child_gets_pid = refl

-- An allocation does not reset `killed`: the child of a later fork is born killed.
born_killed : ((kfork true true 1 (kkill (pos 0) (table runnable)).0).0.proc 3).killed ≡ true
unfolding kfork kkill find_from
born_killed = refl

kkill_lem_example :
    NoneFound (λ p. p.pid ==ℤ pos 3) (table sleeping) (kkill (pos 3) (table sleeping))
    ⊎ ((i : ℕ) × ((kkill (pos 3) (table sleeping)).1 ≡ pos 0)
        × Changed
            (λ p. p.pid ==ℤ pos 3)
            killed_proc
            (table sleeping)
            (kkill (pos 3) (table sleeping)).0
            i
        × (((kkill (pos 3) (table sleeping)).0.proc i).killed ≡ true)
        × (may_run ((kkill (pos 3) (table sleeping)).0.proc i) ≡ (
            is_runnable ((table sleeping).proc i).state
            || is_sleeping ((table sleeping).proc i).state)))
kkill_lem_example = kkill_lem (pos 3) (table sleeping)
