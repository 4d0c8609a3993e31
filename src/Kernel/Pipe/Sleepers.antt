-- ===== src/Kernel/Pipe/Sleepers.antt =====
-- The processes that sleep in pipewrite and piperead, and the wakeups of pipe.c. A round holds pi->lock,
-- and sleep gives the lock up only when the process is asleep, so that a round is one step.
mod Tests
pub mod Rounds
pub mod Awake
use ncsc210_g.Base.{
  ℕ, ◌≡◌, Bool, true, false, ◌&&◌, Option, List, [], ◌∷◌, if◌then◌else◌, All, minus_one, ◌==ℤ◌,
  update,
}
use ncsc210_g.Kernel.Pipe.{
  Pipe, pipealloc, Write, returns, sleeps, pipewrite, empty, Read, piperead, pipeclose,
}

-- What a process is doing: it sleeps on &pi->nread or &pi->nwrite, or does neither.
pub data Sleep : Type 0 where
  awake on_nread on_nwrite : Sleep

pub record Sleepers : Type 0 where
  pub pipe : Pipe
  pub sleep : ℕ → Sleep

abbrev not_on_nread : Sleep → Sleep
not_on_nread on_nread = awake
not_on_nread on_nwrite = on_nwrite
not_on_nread awake = awake

abbrev not_on_nwrite : Sleep → Sleep
not_on_nwrite on_nwrite = awake
not_on_nwrite on_nread = on_nread
not_on_nwrite awake = awake

-- wakeup(&pi->nread) and wakeup(&pi->nwrite).
abbrev pub wakeup_nread : (ℕ → Sleep) → ℕ → Sleep
wakeup_nread sleep p = not_on_nread (sleep p)

abbrev pub wakeup_nwrite : (ℕ → Sleep) → ℕ → Sleep
wakeup_nwrite sleep p = not_on_nwrite (sleep p)

-- What a round of pipewrite by `p` does to the sleepers. The return of -1 passes by the wakeup.
pub after_write : (p : ℕ) → Sleepers → Write → Sleepers
after_write p s (Write.returns pi r) =
    if r ==ℤ minus_one
    then record s { pipe = pi }
    else record { pipe = pi; sleep = wakeup_nread s.sleep }
after_write p s (Write.sleeps pi left i) = record {
  pipe = pi;
  sleep = update (wakeup_nread s.sleep) p on_nwrite;
}

unfoldable pub write_round : (p : ℕ) (todo : List (Bool × Option ℕ)) (i : ℕ) → Sleepers → Sleepers
unfolding after_write
write_round p todo i s = after_write p s (pipewrite todo i s.pipe)

-- What a round of piperead does. A killed caller that would sleep returns without a wakeup.
pub after_read : (p : ℕ) → Sleepers → Read → Sleepers
after_read p s (Read.returns pi r bytes) =
    if empty s.pipe && s.pipe.writeopen
    then s
    else record { pipe = pi; sleep = wakeup_nwrite s.sleep }
after_read p s Read.sleeps = record s { sleep = update s.sleep p on_nread }

unfoldable pub read_round : (p : ℕ) (killed : Bool) (copyout : List Bool) → Sleepers → Sleepers
unfolding after_read
read_round p killed copyout s = after_read p s (piperead killed copyout s.pipe)

unfoldable pub close_round : (writable : Bool) → Sleepers → Sleepers
unfolding pipeclose
close_round true s = record { pipe = (pipeclose true s.pipe).0; sleep = wakeup_nread s.sleep }
close_round false s = record { pipe = (pipeclose false s.pipe).0; sleep = wakeup_nwrite s.sleep }

-- A process that is killed wakes up.
unfoldable pub kill_round : (p : ℕ) → Sleepers → Sleepers
kill_round p s = record s { sleep = update s.sleep p awake }

-- Throughout a round of pipewrite its caller is killed, or is not.
abbrev pub Steady : List (Bool × Option ℕ) → Type 0
Steady [] = Unit
Steady ((killed, b) ∷ more) = All (λ x. x.0 ≡ killed) more

-- The processes that are awake call pipewrite, piperead and pipeclose, and any may be killed, but not in
-- the middle of a round of pipewrite.
pub data Step (s : Sleepers) : Sleepers → Type 0 where
  writes :
      (p : ℕ) (todo : List (Bool × Option ℕ)) (i : ℕ)
      → s.sleep p ≡ awake
      → Steady todo
      → Step s (write_round p todo i s)
  reads :
      (p : ℕ) (killed : Bool) (copyout : List Bool)
      → s.sleep p ≡ awake
      → Step s (read_round p killed copyout s)
  closes : (writable : Bool) → Step s (close_round writable s)
  kills : (p : ℕ) → Step s (kill_round p s)

pub data Reach (page : ℕ → ℕ) : Sleepers → Type 0 where
  start : Reach page (record { pipe = pipealloc page; sleep = λ p. awake })
  next : {s t : Sleepers} → Reach page s → Step s t → Reach page t
