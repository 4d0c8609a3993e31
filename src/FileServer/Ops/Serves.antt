-- ===== src/FileServer/Ops/Serves.antt =====
-- GETFILE, SETFILE, DELFILE and RENAMEFILE of file_ops.c give back their locks, log once and reply
-- once.
use ncsc210_g.Base.{
  ℕ, ◌≡◌, refl, ◌∙◌, inl, inr, Bool, true, false, Option, none, some, List, ◌==◌, Bool-cases, codes,
}
use ncsc210_g.FileServer.Path.Places.{place}
use ncsc210_g.FileServer.Path.{path_ensure_parent_dirs}
use ncsc210_g.FileServer.Locks.{reading, writing, Chance}
use ncsc210_g.FileServer.Disk.{
  enoent, efbig, path_max, World, put_file, syscall, read_all_file, mkdir, after, write_all_file,
}
use ncsc210_g.FileServer.Disk.Reading.{
  Same, syscall-Same, path_ensure_parent_dirs-Same, read_all_file-Same,
}
use ncsc210_g.FileServer.Disk.Writing.{write_all_file-OnlyFile}
use ncsc210_g.FileServer.Locked.Served.{OneEach, Served, Tidy, with_lock-Served, with_locks2-Served}
use ncsc210_g.FileServer.Ops.{
  unlink_known, unlink, rename_known, rename, getfile_says, getfile_body, op_getfile, setfile_body,
  op_setfile, delfile_body, op_delfile, renamefile_body, op_renamefile,
}

-- A step that touches neither the locks nor the trace.
abbrev pub Quiet : World → World → Type 0
Quiet w w' = (w'.locks ≡ w.locks) × (w'.trace ≡ w.trace)

pub Same-Quiet : (w w' : World) → Same w w' → Quiet w w'
Same-Quiet w w' (a, b, c) = (b, c)

pub syscall-Quiet : (w : World) → Quiet w (syscall w).1
syscall-Quiet w = Same-Quiet w (syscall w).1 (syscall-Same w)

pub after-Quiet :
    (w : World) (r : Bool × World) (k : World → Bool × World)
    → Quiet w r.1
    → ((w' : World) → Quiet w' (k w').1)
    → Quiet w (after r k).1
after-Quiet w (true, w1) k (a, b) h = ((h w1).0 ∙ a, (h w1).1 ∙ b)
after-Quiet w (false, w1) k h g = h

unlink_known-Quiet :
    (path : List ℕ) (known : Option (List ℕ)) (w : World) → Quiet w (unlink_known path known w).1
unfolding unlink_known
unlink_known-Quiet path none w = syscall-Quiet w
unlink_known-Quiet path (some content) w =
    after-Quiet w (syscall w)
      (λ w1. (true, record w1 { files = put_file w1.files (place path) none })) (syscall-Quiet w)
      (λ w1. (refl, refl))

rename_known-Quiet :
    (src dst : List ℕ) (known : Option (List ℕ)) (w : World)
    → Quiet w (rename_known src dst known w).1
unfolding rename_known
rename_known-Quiet src dst none w = syscall-Quiet w
rename_known-Quiet src dst (some content) w =
    after-Quiet w (syscall w)
      (λ w1. (
        true,
        record w1 {
          files = put_file (put_file w1.files (place src) none) (place dst) (some content);
        },
      ))
      (syscall-Quiet w) (λ w1. (refl, refl))

module _ (data_dir : List ℕ) (chance : List ℕ → Chance) (strerror : ℕ → List ℕ) where
  getfile-OneEach :
      (rel : List ℕ) (got : Option (List ℕ)) (e : ℕ)
      → OneEach (getfile_says data_dir chance strerror rel got e)
  unfolding getfile_says
  getfile-OneEach rel (some b) e = tt
  getfile-OneEach rel none e = elim (Bool-cases (e == enoent)) [
    | inl h ↦ rw h tt
    | inr h ↦ elim (Bool-cases (e == efbig)) [ inl g ↦ rw (h, g) tt | inr g ↦ rw (h, g) tt ]
  ]

  getfile-Tidy :
      (rel full : List ℕ) (w : World) → Tidy w (getfile_body data_dir chance strerror rel full w)
  unfolding getfile_body
  getfile-Tidy rel full w =
      let same = read_all_file-Same full w in
      record {
        locks_same = same.1;
        trace_same = same.2;
        one_each = getfile-OneEach rel (read_all_file full w).0 (read_all_file full w).1.errno;
      }

  setfile-Tidy :
      (rel bytes full : List ℕ) (w : World)
      → Tidy w (setfile_body data_dir chance strerror rel bytes full w)
  unfolding setfile_body
  setfile-Tidy rel bytes full w =
      let only = write_all_file-OnlyFile full bytes w in
      record {
        locks_same = only.locks_same;
        trace_same = only.trace_same;
        one_each = elim (Bool-cases (write_all_file full bytes w).0) [
          | inl e ↦ rw e tt
          | inr e ↦ rw e tt
        ];
      }

  delfile-Tidy :
      (rel full : List ℕ) (w : World) → Tidy w (delfile_body data_dir chance strerror rel full w)
  unfolding delfile_body unlink
  delfile-Tidy rel full w =
      let quiet = unlink_known-Quiet full (w.files (place full)) w in
      record {
        locks_same = quiet.0;
        trace_same = quiet.1;
        one_each = elim (Bool-cases (unlink full w).0) [
          | inl e ↦ rw e tt
          | inr e ↦ elim (Bool-cases ((unlink full w).1.errno == enoent)) [
            | inl f ↦ rw (e, f) tt
            | inr f ↦ rw (e, f) tt
          ]
        ];
      }

  renamefile-Tidy :
      (src_rel src dst : List ℕ) (w : World)
      → Tidy w (renamefile_body data_dir chance strerror src_rel src dst w)
  unfolding renamefile_body rename
  renamefile-Tidy src_rel src dst w =
      let r = after (path_ensure_parent_dirs mkdir path_max dst w) (rename src dst) in
      let quiet =
        after-Quiet w (path_ensure_parent_dirs mkdir path_max dst w) (rename src dst)
          (Same-Quiet w (path_ensure_parent_dirs mkdir path_max dst w).1
            (path_ensure_parent_dirs-Same dst w))
          (λ w1. rename_known-Quiet src dst (w1.files (place src)) w1) in
      record {
        locks_same = quiet.0;
        trace_same = quiet.1;
        one_each = elim (Bool-cases r.0) [ inl e ↦ rw e tt | inr e ↦ rw e tt ];
      }

  pub getfile-Served :
      (rel : List ℕ) (w : World) → Served w (op_getfile data_dir chance strerror rel w)
  unfolding op_getfile
  getfile-Served rel w =
      with_lock-Served data_dir chance reading (codes "GETFILE") rel
        (getfile_body data_dir chance strerror rel) w (getfile-Tidy rel)

  pub setfile-Served :
      (rel bytes : List ℕ) (w : World) → Served w (op_setfile data_dir chance strerror rel bytes w)
  unfolding op_setfile
  setfile-Served rel bytes w =
      with_lock-Served data_dir chance writing (codes "SETFILE") rel
        (setfile_body data_dir chance strerror rel bytes) w (setfile-Tidy rel bytes)

  pub delfile-Served :
      (rel : List ℕ) (w : World) → Served w (op_delfile data_dir chance strerror rel w)
  unfolding op_delfile
  delfile-Served rel w =
      with_lock-Served data_dir chance writing (codes "DELFILE") rel
        (delfile_body data_dir chance strerror rel) w (delfile-Tidy rel)

  pub renamefile-Served :
      (src_rel dst_rel : List ℕ) (w : World)
      → Served w (op_renamefile data_dir chance strerror src_rel dst_rel w)
  unfolding op_renamefile
  renamefile-Served src_rel dst_rel w =
      with_locks2-Served data_dir chance (codes "RENAMEFILE") (codes "-") src_rel dst_rel
        (renamefile_body data_dir chance strerror src_rel) w (renamefile-Tidy src_rel)
