-- ===== src/FileServer/Reports/Serves.antt =====
-- STATFILE and LOGS of file_ops.c give back their locks, log once and reply once.
use ncsc210_g.Base.{
  ℕ, refl, inl, inr, Option, none, some, List, leb, ◌==◌, Bool-cases, length, ℤ, codes,
}
use ncsc210_g.FileServer.Path.Places.{place}
use ncsc210_g.FileServer.LogTail.{LogIo, read_log_tail}
use ncsc210_g.FileServer.Locks.{reading, Chance}
use ncsc210_g.FileServer.Disk.{enoent, World}
use ncsc210_g.FileServer.Locked.Served.{OneEach, Served, Tidy, with_lock-Served}
use ncsc210_g.FileServer.Ops.Serves.{Quiet, syscall-Quiet}
use ncsc210_g.FileServer.Reports.{
  stat_known, statfile_body, op_statfile, logs_io, logs_say, op_logs,
}

stat_known-Quiet : (known : Option (List ℕ)) (w : World) → Quiet w (stat_known known w).1
unfolding stat_known
stat_known-Quiet none w = syscall-Quiet w
stat_known-Quiet (some content) w = syscall-Quiet w

logs_say-OneEach : (e : List ℕ) (got : Option (List ℕ)) → OneEach (logs_say e got)
unfolding logs_say
logs_say-OneEach e none = tt
logs_say-OneEach e (some b) = tt

pub logs-Served :
    (data_dir : List ℕ) (log_io : World → LogIo) (log_error : List ℕ) (limit : ℤ) (w : World)
    → Served w (op_logs data_dir log_io log_error limit w)
unfolding op_logs
logs-Served data_dir log_io log_error limit w = record {
  actions = logs_say log_error (read_log_tail (logs_io data_dir (log_io w) w) limit);
  held_same = refl;
  trace_grows = refl;
  one_each = logs_say-OneEach log_error (read_log_tail (logs_io data_dir (log_io w) w) limit);
}

module _ (data_dir : List ℕ) (chance : List ℕ → Chance) (strerror : ℕ → List ℕ) where
  statfile-Tidy :
      (text : List ℕ → List ℕ) (rel full : List ℕ) (w : World)
      → Tidy w (statfile_body data_dir chance strerror text rel full w)
  unfolding statfile_body
  statfile-Tidy text rel full w =
      let r = stat_known (w.files (place full)) w in
      let quiet = stat_known-Quiet (w.files (place full)) w in
      record {
        locks_same = quiet.0;
        trace_same = quiet.1;
        one_each = elim (Bool-cases r.0) [
          | inl e ↦ elim (Bool-cases (leb 512 (length (text full)))) [
            | inl f ↦ rw (e, f) tt
            | inr f ↦ rw (e, f) tt
          ]
          | inr e ↦ elim (Bool-cases (r.1.errno == enoent)) [
            | inl f ↦ rw (e, f) tt
            | inr f ↦ rw (e, f) tt
          ]
        ];
      }

  pub statfile-Served :
      (text : List ℕ → List ℕ) (rel : List ℕ) (w : World)
      → Served w (op_statfile data_dir chance strerror text rel w)
  unfolding op_statfile
  statfile-Served text rel w =
      with_lock-Served data_dir chance reading (codes "STATFILE") rel
        (statfile_body data_dir chance strerror text rel) w (statfile-Tidy text rel)
