-- ===== src/Kernel/Log/Operations.antt =====
-- File system calls that run at once: begin_op, log_write and end_op of log.c.
use ncsc210_g.Base.{ℕ, suc, ◌≤◌, ◌≡◌, true, false, List, [], ◌∷◌, ◌++◌}
use ncsc210_g.Kernel.Log.{maxopblocks, Block, Fs, header_of, returns, begin_op, end_op, log_write}
use ncsc210_g.Kernel.Log.Writes.{is_home}
use ncsc210_g.Kernel.Log.Commits.{commit_power}

-- The log, and for each call that runs the number of blocks that it may still write. A call writes
-- MAXOPBLOCKS blocks at most.
pub record Running : Type 0 where
  pub fs : Fs
  pub credits : List ℕ

abbrev pub powered : ℕ → Fs → Fs
powered power s = record s { power = power }

-- The power lasts for each commit.
pub data Step (o : Running) : Running → Type 0 where
  begins :
      (s : Fs)
      → begin_op o.fs ≡ returns s
      → Step o (record { fs = s; credits = maxopblocks ∷ o.credits })
  writes :
      (front : List ℕ) (c : ℕ) (back : List ℕ) (b : ℕ) (v : Block) (s : Fs)
      → o.credits ≡ front ++ suc c ∷ back
      → is_home o.fs.start b ≡ true
      → log_write b v o.fs ≡ returns s
      → Step o (record { fs = s; credits = front ++ c ∷ back })
  ends :
      (front : List ℕ) (c : ℕ) (back : List ℕ) (power : ℕ) (s : Fs)
      → o.credits ≡ front ++ c ∷ back
      → commit_power ≤ power
      → end_op (powered power o.fs) ≡ returns s
      → Step o (record { fs = s; credits = front ++ back })

-- After a recovery the log is empty and nothing runs.
pub data Reach : Running → Type 0 where
  recovered :
      (s : Fs)
      → s.lh ≡ []
      → s.outstanding ≡ 0
      → s.committing ≡ false
      → header_of (s.disk s.start) ≡ []
      → ((x : ℕ) → s.cache x ≡ s.disk x)
      → Reach (record { fs = s; credits = [] })
  next : {o p : Running} → Reach o → Step o p → Reach p
