-- ===== src/Kernel/Log/Tests.antt =====
-- A log that starts at block 2, and a transaction of one block.
use ncsc210_g.Base.{ℕ, ◌≡◌, refl, false, [], ◌∷◌, arith, update}
use ncsc210_g.Kernel.Log.{Block, Fs, commit, boot, recover_from_log, begin_op, log_write}
use ncsc210_g.Kernel.Log.Writes.{update-other}
use ncsc210_g.Kernel.Log.Crash.{Ready, commit-recover_from_log}
use ncsc210_g.Kernel.Log.Operations.{Running, begins, writes, Reach, recovered, next}
use ncsc210_g.Kernel.Log.Reserved.{Reserved}
use ncsc210_g.Kernel.Log.Reached.{Reach-Reserved}

abbrev blank : ℕ → Block
blank x = 0 ∷ []

-- Block 40 has changed in the cache, and the power lasts for so many writes.
abbrev changed : (power : ℕ) → Fs
changed power = record {
  disk = blank;
  cache = update blank 40 (7 ∷ []);
  start = 2;
  lh = 40 ∷ [];
  outstanding = 0;
  committing = false;
  power = power;
}

changed-Ready : (power : ℕ) → Ready (changed power)
changed-Ready power = record {
  fits = omega arith;
  home = (refl, tt);
  log_empty = refl;
  clean = λ x h e. update-other blank 40 x (7 ∷ []) (λ s. ground (arith, s, e));
}

-- The block is in the log, and the header is not written.
crash_before_header : (recover_from_log (boot 2 40 (commit (changed 1)).disk)).disk 40 ≡ 0 ∷ []
unfolding recover_from_log commit
crash_before_header = refl

-- The header is written, and the block is not home.
crash_behind_header : (recover_from_log (boot 2 40 (commit (changed 2)).disk)).disk 40 ≡ 7 ∷ []
unfolding recover_from_log commit
crash_behind_header = refl

commit-recover_from_log_example :
    (recover_from_log (boot 2 40 (recover_from_log (boot 2 1 (commit (changed 2)).disk)).disk)).disk
      40
    ≡ 7 ∷ []
commit-recover_from_log_example =
    commit-recover_from_log (changed 2) 1 40 40 (changed-Ready 2) (omega arith) refl

-- A call has begun, and has written block 40.
abbrev begun : Fs
begun = record (boot 2 0 blank) { outstanding = 1 }

abbrev written : Running
written = record {
  fs = record begun { cache = update blank 40 (7 ∷ []); lh = 40 ∷ [] };
  credits = 9 ∷ [];
}

written-Reach : Reach written
unfolding begin_op log_write
written-Reach =
    let a = recovered (boot 2 0 blank) refl refl refl refl (λ x. refl) in
    let b = next a (begins begun refl) in
    next b (writes [] 9 [] 40 (7 ∷ []) written.fs refl refl refl)

Reach-Reserved_example : Reserved written
Reach-Reserved_example = Reach-Reserved written written-Reach
