-- ===== src/FileServer/Reports.antt =====
-- STATFILE and LOGS of G16_Project_3/src/file_ops.c. `stat_text` is what snprintf makes of the
-- metadata of a file, which only the operating system knows; `log_io` is how the calls on the log
-- go, and `log_error` the text of errno where they fail.
pub mod Serves
use ncsc210_g.Base.{
  ℕ, Bool, false, Option, none, some, List, [], ◌∷◌, leb, ◌==◌, if◌then◌else◌, length, ℤ, codes,
}
use ncsc210_g.FileServer.Path.Places.{place}
use ncsc210_g.FileServer.LogTail.{LogFile, opened, missing, failed, LogIo, read_log_tail}
use ncsc210_g.FileServer.Disk.{enoent, Action, logged, replied, World, set_errno, syscall}
use ncsc210_g.FileServer.Locks.{reading, Chance}
use ncsc210_g.FileServer.Reply.{error, bulk, null_bulk}
use ncsc210_g.FileServer.Locked.{log_place, act, answer, Body, with_lock}
use ncsc210_g.FileServer.Ops.{failure}

-- `stat` of a file with this content, if it is there.
stat_known : Option (List ℕ) → World → Bool × World
unfolding syscall
stat_known none w = (false, set_errno enoent (syscall w).1)
stat_known (some content) w = syscall w

module _ (data_dir : List ℕ) (chance : List ℕ → Chance) (strerror : ℕ → List ℕ) where
  -- The buffer for the metadata has 512 bytes.
  statfile_body : (stat_text : List ℕ → List ℕ) (rel_path : List ℕ) → Body
  unfolding stat_known
  statfile_body stat_text rel full w =
      let (known, w1) = stat_known (w.files (place full)) w in
      (
        w1,
        if known
            then (if leb 512 (length (stat_text full))
                then answer (codes "STATFILE") rel (codes "ERR") (codes "stat formatting error")
                    (error (codes "stat formatting error"))
                else answer (codes "STATFILE") rel (codes "OK") (codes "metadata read")
                    (bulk (stat_text full)))
            else if w1.errno == enoent
            then answer (codes "STATFILE") rel (codes "MISS") (codes "not found") null_bulk
            else failure data_dir chance strerror (codes "STATFILE") rel w1.errno,
      )

  unfoldable pub op_statfile : (stat_text : List ℕ → List ℕ) (rel_path : List ℕ) → World → World
  unfolding with_lock statfile_body
  op_statfile stat_text rel w =
      with_lock data_dir chance reading (codes "STATFILE") rel (statfile_body stat_text rel) w

-- What fopen of the log gives, if it can give anything.
log_file : LogFile → Option (List ℕ) → LogFile
log_file failed content = failed
log_file _ none = missing
log_file _ (some bytes) = opened bytes

-- The calls on the log, on the log as it is.
pub logs_io : (data_dir : List ℕ) → LogIo → World → LogIo
unfolding log_file
logs_io data_dir io w = record io { fopen = log_file io.fopen (w.files (log_place data_dir)) }

logs_say : (log_error : List ℕ) → Option (List ℕ) → List Action
logs_say log_error none =
    answer (codes "LOGS") (codes "operations.log") (codes "ERR") log_error (error log_error)
logs_say log_error (some bytes) =
    replied (bulk bytes)
    ∷ logged (codes "LOGS") (codes "operations.log") (codes "OK") (codes "read logs")
    ∷ []

unfoldable pub op_logs :
    (data_dir : List ℕ) (log_io : World → LogIo) (log_error : List ℕ) (line_limit : ℤ)
    → World
    → World
unfolding read_log_tail logs_say logs_io
op_logs data_dir log_io log_error limit w =
    act data_dir (logs_say log_error (read_log_tail (logs_io data_dir (log_io w) w) limit)) w
