-- ===== src/FileServer/Transfers/Serves.antt =====
-- COPYFILE, COMPRESS and DECOMPRESS of file_ops.c give back their locks, log once and reply once, as
-- the other operations do.
use ncsc210_g.Base.{
  ℕ, refl, ◌∙◌, inl, inr, Bool, Option, none, some, List, [], ◌==◌, if◌then◌else◌, Bool-cases,
  Result, ok, err, codes,
}
use ncsc210_g.FileServer.Path.Places.{place}
use ncsc210_g.FileServer.Path.{path_ensure_parent_dirs}
use ncsc210_g.FileServer.Rle.{Errno, rle_compress_bytes, rle_decompress_bytes}
use ncsc210_g.FileServer.Locks.{Chance}
use ncsc210_g.FileServer.Disk.{
  enoent, path_max, Action, World, put_file, syscall, read_all_file, mkdir, after, write_all_file,
}
use ncsc210_g.FileServer.Disk.Writing.{write_all_file-OnlyFile}
use ncsc210_g.FileServer.Disk.Reading.{path_ensure_parent_dirs-Same, read_all_file-Same}
use ncsc210_g.FileServer.Locked.Served.{OneEach, Served, Tidy, with_locks2-Served}
use ncsc210_g.FileServer.Ops.Serves.{Quiet, Same-Quiet, syscall-Quiet, after-Quiet}
use ncsc210_g.FileServer.Transfers.{
  CopyEnd, copied, read_failed, write_failed, copy_loop, get_file, is_none, copy_says, copy_ended,
  copy_bytes, missing, copy_to, copyfile_body, op_copyfile, write_coded, code_read, transform_body,
  op_compress, op_decompress,
}

-- A quiet step and then a tidy one.
Quiet-Tidy : (w w1 : World) (r : World × List Action) → Quiet w w1 → Tidy w1 r → Tidy w r
Quiet-Tidy w w1 r (a, b) t = record {
  locks_same = t.locks_same ∙ a;
  trace_same = t.trace_same ∙ b;
  one_each = t.one_each;
}

module _ (data_dir : List ℕ) (chance : List ℕ → Chance) (strerror : ℕ → List ℕ) where
  copy_says-OneEach :
      (src_rel dst_rel : List ℕ) (how : CopyEnd) (e : ℕ)
      → OneEach (copy_says data_dir chance strerror src_rel dst_rel how e)
  unfolding copy_says
  copy_says-OneEach src_rel dst_rel copied e = tt
  copy_says-OneEach src_rel dst_rel read_failed e = tt
  copy_says-OneEach src_rel dst_rel write_failed e = tt

  copy_ended-Tidy :
      (src_rel dst_rel : List ℕ) (how : CopyEnd) (w : World)
      → Tidy w (copy_ended data_dir chance strerror src_rel dst_rel how w)
  unfolding copy_ended
  copy_ended-Tidy src_rel dst_rel copied w = record {
    locks_same = (syscall-Quiet w).0;
    trace_same = (syscall-Quiet w).1;
    one_each =
        copy_says-OneEach src_rel dst_rel (if (syscall w).0 then copied else write_failed)
          (syscall w).1.errno;
  }
  copy_ended-Tidy src_rel dst_rel read_failed w = record {
    locks_same = refl;
    trace_same = refl;
    one_each = copy_says-OneEach src_rel dst_rel read_failed w.errno;
  }
  copy_ended-Tidy src_rel dst_rel write_failed w = record {
    locks_same = refl;
    trace_same = refl;
    one_each = copy_says-OneEach src_rel dst_rel write_failed w.errno;
  }

  copy_bytes-Tidy :
      (src_rel dst_rel dst content : List ℕ) (w : World)
      → Tidy w (copy_bytes data_dir chance strerror src_rel dst_rel dst content w)
  unfolding copy_bytes
  copy_bytes-Tidy src_rel dst_rel dst content w =
      let c = copy_loop w.script content [] [] w.errno in
      let w1 : World = record w {
        files = put_file w.files (place dst) (some c.bytes);
        script = c.script;
        errno = c.errno;
      } in
      Quiet-Tidy w w1 (copy_ended data_dir chance strerror src_rel dst_rel c.how w1) (refl, refl)
        (copy_ended-Tidy src_rel dst_rel c.how w1)

  copy_to-Tidy :
      (src_rel dst_rel src dst : List ℕ) (w : World)
      → Tidy w (copy_to data_dir chance strerror src_rel dst_rel src dst w)
  unfolding copy_to
  copy_to-Tidy src_rel dst_rel src dst w =
      let r = after (path_ensure_parent_dirs mkdir path_max dst w) syscall in
      let quiet =
        after-Quiet w (path_ensure_parent_dirs mkdir path_max dst w) syscall
          (Same-Quiet w (path_ensure_parent_dirs mkdir path_max dst w).1
            (path_ensure_parent_dirs-Same dst w))
          syscall-Quiet in
      let w2 : World = record r.1 { files = put_file r.1.files (place dst) (some []) } in
      elim (Bool-cases r.0) [
        | inl e ↦ rw e (
            Quiet-Tidy w w2
              (copy_bytes data_dir chance strerror src_rel dst_rel dst
                (get_file w2.files (place src)) w2)
              quiet (copy_bytes-Tidy src_rel dst_rel dst (get_file w2.files (place src)) w2))
        | inr e ↦ rw e (record { locks_same = quiet.0; trace_same = quiet.1; one_each = tt })
      ]

  pub copyfile-Tidy :
      (src_rel dst_rel src dst : List ℕ) (w : World)
      → Tidy w (copyfile_body data_dir chance strerror src_rel dst_rel src dst w)
  unfolding copyfile_body missing
  copyfile-Tidy src_rel dst_rel src dst w =
      let w1 = (syscall w).1 in
      let quiet = syscall-Quiet w in
      elim (Bool-cases (syscall w).0) [
        | inr e ↦ elim (Bool-cases (w1.errno == enoent)) [
          | inl f ↦ rw (e, f) (record { locks_same = quiet.0; trace_same = quiet.1; one_each = tt })
          | inr f ↦ rw (e, f) (record { locks_same = quiet.0; trace_same = quiet.1; one_each = tt })
        ]
        | inl e ↦ elim (Bool-cases (is_none (w.files (place src)))) [
          | inl f ↦ rw (e, f) (record { locks_same = quiet.0; trace_same = quiet.1; one_each = tt })
          | inr f ↦
              rw (e, f)
                (Quiet-Tidy w w1 (copy_to data_dir chance strerror src_rel dst_rel src dst w1) quiet
                  (copy_to-Tidy src_rel dst_rel src dst w1))
        ]
      ]

  write_coded-Tidy :
      (op detail src_rel dst_rel dst : List ℕ) (coded : Result Errno (List ℕ)) (w : World)
      → Tidy w (write_coded data_dir chance strerror op detail src_rel dst_rel dst coded w)
  unfolding write_coded
  write_coded-Tidy op detail src_rel dst_rel dst (err e) w = record {
    locks_same = refl;
    trace_same = refl;
    one_each = tt;
  }
  write_coded-Tidy op detail src_rel dst_rel dst (ok out) w =
      let only = write_all_file-OnlyFile dst out w in
      record {
        locks_same = only.locks_same;
        trace_same = only.trace_same;
        one_each = elim (Bool-cases (write_all_file dst out w).0) [
          | inl e ↦ rw e tt
          | inr e ↦ rw e tt
        ];
      }

  code_read-Tidy :
      (code : (ℕ → Bool) → List ℕ → Result Errno (List ℕ)) (op detail src_rel dst_rel dst : List ℕ)
      (r : Option (List ℕ) × World)
      → Tidy r.1 (code_read data_dir chance strerror code op detail src_rel dst_rel dst r)
  unfolding code_read
  code_read-Tidy code op detail src_rel dst_rel dst (none, w) = record {
    locks_same = refl;
    trace_same = refl;
    one_each = tt;
  }
  code_read-Tidy code op detail src_rel dst_rel dst (some b, w) =
      let coded = code (λ n. (syscall w).0) b in
      Quiet-Tidy w (syscall w).1
        (write_coded data_dir chance strerror op detail src_rel dst_rel dst coded (syscall w).1)
        (syscall-Quiet w) (write_coded-Tidy op detail src_rel dst_rel dst coded (syscall w).1)

  transform-Tidy :
      (code : (ℕ → Bool) → List ℕ → Result Errno (List ℕ))
      (op detail src_rel dst_rel src dst : List ℕ) (w : World)
      → Tidy w (transform_body data_dir chance strerror code op detail src_rel dst_rel src dst w)
  unfolding transform_body
  transform-Tidy code op detail src_rel dst_rel src dst w =
      Quiet-Tidy w (read_all_file src w).1
        (code_read data_dir chance strerror code op detail src_rel dst_rel dst
          (read_all_file src w))
        (Same-Quiet w (read_all_file src w).1 (read_all_file-Same src w))
        (code_read-Tidy code op detail src_rel dst_rel dst (read_all_file src w))

  pub copyfile-Served :
      (src_rel dst_rel : List ℕ) (w : World)
      → Served w (op_copyfile data_dir chance strerror src_rel dst_rel w)
  unfolding op_copyfile
  copyfile-Served src_rel dst_rel w =
      with_locks2-Served data_dir chance (codes "COPYFILE") (codes "-") src_rel dst_rel
        (copyfile_body data_dir chance strerror src_rel dst_rel) w (copyfile-Tidy src_rel dst_rel)

  pub compress-Served :
      (src_rel dst_rel : List ℕ) (w : World)
      → Served w (op_compress data_dir chance strerror src_rel dst_rel w)
  unfolding op_compress
  compress-Served src_rel dst_rel w =
      with_locks2-Served data_dir chance (codes "COMPRESS") src_rel src_rel dst_rel
        (transform_body data_dir chance strerror rle_compress_bytes (codes "COMPRESS")
          (codes "compressed") src_rel dst_rel)
        w
        (transform-Tidy rle_compress_bytes (codes "COMPRESS") (codes "compressed") src_rel dst_rel)

  pub decompress-Served :
      (src_rel dst_rel : List ℕ) (w : World)
      → Served w (op_decompress data_dir chance strerror src_rel dst_rel w)
  unfolding op_decompress
  decompress-Served src_rel dst_rel w =
      with_locks2-Served data_dir chance (codes "DECOMPRESS") src_rel src_rel dst_rel
        (transform_body data_dir chance strerror rle_decompress_bytes (codes "DECOMPRESS")
          (codes "decompressed") src_rel dst_rel)
        w
        (transform-Tidy rle_decompress_bytes (codes "DECOMPRESS") (codes "decompressed") src_rel
          dst_rel)
