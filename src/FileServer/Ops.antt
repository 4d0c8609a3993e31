-- ===== src/FileServer/Ops.antt =====
-- GETFILE, SETFILE, DELFILE and RENAMEFILE of G16_Project_3/src/file_ops.c. `strerror` is the text of
-- an error.
mod Tests
pub mod Contents
pub mod Serves
use ncsc210_g.Base.{
  ℕ, Bool, true, false, Option, none, some, List, [], ◌∷◌, ◌==◌, if◌then◌else◌, codes,
}
use ncsc210_g.FileServer.Path.Places.{place}
use ncsc210_g.FileServer.Disk.{
  enoent, efbig, path_max, Action, logged, replied, World, put_file, set_errno, syscall,
  read_all_file, mkdir, after, write_all_file,
}
use ncsc210_g.FileServer.Locks.{reading, writing, Chance}
use ncsc210_g.FileServer.Path.{path_ensure_parent_dirs}
use ncsc210_g.FileServer.Reply.{simple, error, bulk, null_bulk, integer}
use ncsc210_g.FileServer.Locked.{answer, Body, Body2, with_lock, with_locks2}

-- `unlink` of a file with this content, if it is there.
unlink_known : (path : List ℕ) → Option (List ℕ) → World → Bool × World
unfolding syscall
unlink_known path none w = (false, set_errno enoent (syscall w).1)
unlink_known path (some content) w =
    after (syscall w) (λ w1. (true, record w1 { files = put_file w1.files (place path) none }))

pub unlink : List ℕ → World → Bool × World
unfolding unlink_known
unlink path w = unlink_known path (w.files (place path)) w

-- `rename` of a file with this content, if it is there.
rename_known : (src dst : List ℕ) → Option (List ℕ) → World → Bool × World
unfolding syscall
rename_known src dst none w = (false, set_errno enoent (syscall w).1)
rename_known src dst (some content) w = after (syscall w) (λ w1. (
  true,
  record w1 { files = put_file (put_file w1.files (place src) none) (place dst) (some content) },
))

pub rename : (src dst : List ℕ) → World → Bool × World
unfolding rename_known
rename src dst w = rename_known src dst (w.files (place src)) w

module _ (data_dir : List ℕ) (chance : List ℕ → Chance) (strerror : ℕ → List ℕ) where
  -- An error with the text of errno.
  abbrev pub failure : (op path : List ℕ) (e : ℕ) → List Action
  failure op path e = answer op path (codes "ERR") (strerror e) (error (strerror e))

  abbrev pub success : (op path detail : List ℕ) → List Action
  success op path detail = answer op path (codes "OK") detail (simple (codes "OK"))

  getfile_says : (rel_path : List ℕ) → Option (List ℕ) → (errno : ℕ) → List Action
  getfile_says rel (some bytes) e =
      replied (bulk bytes) ∷ logged (codes "GETFILE") rel (codes "OK") (codes "read success") ∷ []
  getfile_says rel none e =
      if e == enoent
      then answer (codes "GETFILE") rel (codes "MISS") (codes "not found") null_bulk
      else if e == efbig
      then answer (codes "GETFILE") rel (codes "ERR") (codes "file too large")
          (error (codes "file too large"))
      else failure (codes "GETFILE") rel e

  getfile_body : (rel_path : List ℕ) → Body
  unfolding read_all_file getfile_says
  getfile_body rel full w =
      let (got, w1) = read_all_file full w in (w1, getfile_says rel got w1.errno)

  unfoldable pub op_getfile : (rel_path : List ℕ) → World → World
  unfolding with_lock getfile_body
  op_getfile rel w = with_lock data_dir chance reading (codes "GETFILE") rel (getfile_body rel) w

  setfile_body : (rel_path bytes : List ℕ) → Body
  unfolding write_all_file
  setfile_body rel bytes full w =
      let (finished, w1) = write_all_file full bytes w in
      (
        w1,
        if finished
            then success (codes "SETFILE") rel (codes "write success")
            else failure (codes "SETFILE") rel w1.errno,
      )

  unfoldable pub op_setfile : (rel_path bytes : List ℕ) → World → World
  unfolding with_lock setfile_body
  op_setfile rel bytes w =
      with_lock data_dir chance writing (codes "SETFILE") rel (setfile_body rel bytes) w

  delfile_body : (rel_path : List ℕ) → Body
  unfolding unlink
  delfile_body rel full w =
      let (finished, w1) = unlink full w in
      (
        w1,
        if finished
            then answer (codes "DELFILE") rel (codes "OK") (codes "deleted") (integer 1)
            else if w1.errno == enoent
            then answer (codes "DELFILE") rel (codes "MISS") (codes "not found") (integer 0)
            else failure (codes "DELFILE") rel w1.errno,
      )

  unfoldable pub op_delfile : (rel_path : List ℕ) → World → World
  unfolding with_lock delfile_body
  op_delfile rel w = with_lock data_dir chance writing (codes "DELFILE") rel (delfile_body rel) w

  renamefile_body : (src_rel : List ℕ) → Body2
  unfolding path_ensure_parent_dirs mkdir rename
  renamefile_body src_rel src dst w =
      let (finished, w1) = after (path_ensure_parent_dirs mkdir path_max dst w) (rename src dst) in
      (
        w1,
        if finished
            then success (codes "RENAMEFILE") src_rel (codes "renamed")
            else failure (codes "RENAMEFILE") src_rel w1.errno,
      )

  unfoldable pub op_renamefile : (src_rel dst_rel : List ℕ) → World → World
  unfolding with_locks2 renamefile_body
  op_renamefile src_rel dst_rel w =
      with_locks2 data_dir chance (codes "RENAMEFILE") (codes "-") src_rel dst_rel
        (renamefile_body src_rel) w
