-- ===== src/FileServer/Locked.antt =====
-- How the operations of G16_Project_3/src/file_ops.c begin and end: the path is built, the locks are
-- taken, and they are given back before the branch logs and replies. `chance` says which locks can
-- be had. The result of an operation, which dispatch_command ignores, is left out.
pub mod Served
pub mod Effects
use ncsc210_g.Base.{ℕ, Bool, Option, none, some, List, [], ◌∷◌, ◌++◌, codes}
use ncsc210_g.FileServer.Path.Places.{Place, place}
use ncsc210_g.FileServer.Locks.{
  Mode, Locks, Chance, locks_acquire, locks_release, locks_acquire_two_write, locks_release_two,
}
use ncsc210_g.FileServer.Path.{path_build}
use ncsc210_g.FileServer.Reply.{Reply, error}
use ncsc210_g.FileServer.Disk.{path_max, Action, logged, replied, LogCall, Files, World, put_file}
use ncsc210_g.FileServer.Logger.{logger_init, logger_log}

abbrev pub log_place : (data_dir : List ℕ) → Place
log_place data_dir = place (logger_init data_dir)

-- The calls of logger_log among the actions append to the log, which is one of the files. Where there is no
-- word on a call, the log does not open.
unfoldable pub log_all :
    (log : Place) (client : List ℕ) → List Action → List LogCall → Files → Files × List LogCall
unfolding logger_log
log_all log client [] calls files = (files, calls)
log_all log client (replied r ∷ more) calls files = log_all log client more calls files
log_all log client (logged op path status message ∷ more) [] files =
    log_all log client more [] files
log_all log client (logged op path status message ∷ more) (c ∷ cs) files =
    let line =
      logger_log c.opens c.put c.ts (some client) (some op) (some path) (some status) (some message)
        (files log) in
    log_all log client more cs (put_file files log line)

abbrev pub act : (data_dir : List ℕ) → List Action → World → World
act data_dir actions w =
    let (files, calls) = log_all (log_place data_dir) w.client actions w.log_calls w.files in
    record w { trace = w.trace ++ actions; files = files; log_calls = calls }

abbrev pub with_locks : Locks → World → World
with_locks s w = record w { locks = s }

-- A line in the log and then a reply, with which almost every branch ends.
abbrev pub answer : (op path status message : List ℕ) → Reply → List Action
answer op path status message reply = logged op path status message ∷ replied reply ∷ []

-- What an operation does with its file under its lock: the world it leaves, and what it then says.
abbrev pub Body : Type 0
Body = List ℕ → World → World × List Action

abbrev pub Body2 : Type 0
Body2 = (src_full dst_full : List ℕ) → World → World × List Action

module _ (data_dir : List ℕ) (chance : List ℕ → Chance) where
  -- The lock of the file is given back before anything is logged or replied.
  release_act : ℕ → World × List Action → World
  unfolding locks_release
  release_act i (w, actions) = act data_dir actions (with_locks (locks_release (some i) w.locks) w)

  locked : (op rel_path full : List ℕ) → Body → World → Option ℕ × Locks → World
  unfolding release_act
  locked op rel full body w (none, s) =
      act data_dir
        (answer op rel (codes "ERR") (codes "lock failure") (error (codes "internal lock error")))
        (with_locks s w)
  locked op rel full body w (some i, s) = release_act i (body full (with_locks s w))

  on_path : Mode → (op rel_path : List ℕ) → Body → World → Option (List ℕ) → World
  unfolding locks_acquire locked
  on_path mode op rel body w none =
      act data_dir
        (answer op rel (codes "ERR") (codes "invalid path") (error (codes "invalid path"))) w
  on_path mode op rel body w (some full) =
      locked op rel full body w (locks_acquire (chance full) mode w.locks full)

  -- The start and the end of op_getfile, op_setfile, op_delfile and op_statfile.
  unfoldable pub with_lock : Mode → (op rel_path : List ℕ) → Body → World → World
  unfolding path_build on_path
  with_lock mode op rel body w = on_path mode op rel body w (path_build data_dir rel path_max)

  release_two_act : (i j : ℕ) (same : Bool) → World × List Action → World
  unfolding locks_release_two
  release_two_act i j same (w, actions) =
      act data_dir actions (with_locks (locks_release_two i j same w.locks) w)

  locked2 : (op src_rel src dst : List ℕ) → Body2 → World → Option (ℕ × ℕ × Bool) × Locks → World
  unfolding release_two_act
  locked2 op rel src dst body w (none, s) =
      act data_dir
        (answer op rel (codes "ERR") (codes "lock failure") (error (codes "internal lock error")))
        (with_locks s w)
  locked2 op rel src dst body w (some (i, j, same), s) =
      release_two_act i j same (body src dst (with_locks s w))

  on_paths2 : (op shown src_rel : List ℕ) → Body2 → World → (src dst : Option (List ℕ)) → World
  unfolding locks_acquire_two_write locked2
  on_paths2 op shown src_rel body w (some src) (some dst) =
      locked2 op src_rel src dst body w (locks_acquire_two_write chance w.locks src dst)
  on_paths2 op shown src_rel body w _ _ =
      act data_dir
        (answer op shown (codes "ERR") (codes "invalid path") (error (codes "invalid path"))) w

  -- The start and the end of op_renamefile, op_copyfile, op_compress and op_decompress. `shown` is
  -- the path that is logged where one of the two is invalid.
  unfoldable pub with_locks2 : (op shown src_rel dst_rel : List ℕ) → Body2 → World → World
  unfolding path_build on_paths2
  with_locks2 op shown src_rel dst_rel body w =
      on_paths2 op shown src_rel body w (path_build data_dir src_rel path_max)
        (path_build data_dir dst_rel path_max)
