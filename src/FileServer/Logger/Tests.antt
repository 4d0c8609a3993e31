-- ===== src/FileServer/Logger/Tests.antt =====
-- A log with a line, and a line more.
use ncsc210_g.Base.{ℕ, ◌≡◌, refl, inr, true, none, some, List, [], ◌∷◌, ◌++◌, arith, pos, codes}
use ncsc210_g.FileServer.LogTail.{LogIo, opened, read_log_tail}
use ncsc210_g.FileServer.LogTail.Reads.{Succeeds}
use ncsc210_g.FileServer.LogTail.LastLine.{Ended}
use ncsc210_g.FileServer.Logger.{log_line, logger_log}
use ncsc210_g.FileServer.Logger.Shown.{logger_log-read_log_tail}
use ncsc210_g.FileServer.Logger.Forged.{line_tail, logger_log-forged}

abbrev old_log : List ℕ
old_log = codes "old" ++ 10 ∷ []

abbrev new_line : List ℕ
unfolding log_line
new_line =
    log_line (codes "now") none (some (codes "GETFILE")) (some (codes "a")) (some (codes "OK")) none

unknown_client :
    new_line ≡ codes "now client=unknown cmd=GETFILE target=a status=OK detail=-" ++ 10 ∷ []
unfolding log_line
unknown_client = refl

abbrev reading : List ℕ → LogIo
reading log = record {
  fopen = opened log;
  seek_end = true;
  ftell = true;
  seek_back = true;
  seek_start = true;
  malloc = λ n. true;
}

reading-Succeeds : (log : List ℕ) → Succeeds (reading log) log
reading-Succeeds log = record {
  fopen_ok = refl;
  seek_end_ok = refl;
  ftell_ok = refl;
  seek_back_ok = refl;
  malloc_ok = λ n. refl;
}

logger_log-read_log_tail_example :
    (read_log_tail (reading (old_log ++ new_line)) (pos 1) ≡ some new_line)
    × Ended (old_log ++ new_line)
unfolding log_line logger_log
logger_log-read_log_tail_example =
    logger_log-read_log_tail 100 (codes "now") none (some (codes "GETFILE")) (some (codes "a"))
      (some (codes "OK")) none old_log (old_log ++ new_line) (reading (old_log ++ new_line)) refl tt
      refl refl refl tt (inr (codes "old", refl)) (omega arith) (omega arith) refl
      (reading-Succeeds (old_log ++ new_line))

abbrev forged_line : List ℕ
unfolding log_line
forged_line =
    log_line (codes "now") none (some (codes "GETFILE")) (some (codes "x" ++ 10 ∷ codes "me"))
      (some (codes "ERR")) none

logger_log-forged_example :
    read_log_tail (reading (old_log ++ forged_line)) (pos 1)
    ≡ some (codes "me" ++ line_tail (some (codes "ERR")) none)
unfolding log_line logger_log
logger_log-forged_example =
    logger_log-forged 100 (codes "now") none (some (codes "GETFILE")) (codes "x") (codes "me")
      (some (codes "ERR")) none old_log (old_log ++ forged_line) (reading (old_log ++ forged_line))
      refl refl tt (omega arith) (omega arith) refl (reading-Succeeds (old_log ++ forged_line))
