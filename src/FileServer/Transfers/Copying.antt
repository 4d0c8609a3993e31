-- ===== src/FileServer/Transfers/Copying.antt =====
-- What the reply OK of COPYFILE of file_ops.c says of the files.
use ncsc210_g.Base.{
  ℕ, ◌≡◌, ap, ◌∙◌, inl, inr, some, List, [], arith, ◌==◌, if◌then◌else◌, Bool-cases, Option-cases,
  codes,
}
use ncsc210_g.FileServer.Path.Places.{Place, place, place_eq}
use ncsc210_g.FileServer.Path.{path_build}
use ncsc210_g.FileServer.Reply.{simple}
use ncsc210_g.FileServer.Locks.{Chance}
use ncsc210_g.FileServer.Disk.{enoent, path_max, World, put_file, syscall}
use ncsc210_g.FileServer.Disk.Reading.{syscall-Same}
use ncsc210_g.FileServer.Locked.{with_locks}
use ncsc210_g.FileServer.Locked.Effects.{with_locks2-Effect}
use ncsc210_g.FileServer.Ops.Contents.{reply_of, Replies, fresh, put_file_lem, Beside}
use ncsc210_g.FileServer.Transfers.Serves.{copyfile-Tidy}
use ncsc210_g.FileServer.Transfers.{get_file, missing, copyfile_body, op_copyfile}
use ncsc210_g.FileServer.Transfers.Copies.{files_after, copied_at, copied_beside, copy_to-ok}

module _ (data_dir : List ℕ) (chance : List ℕ → Chance) (strerror : ℕ → List ℕ) where
  copyfile_body-ok :
      (src_rel dst_rel src dst : List ℕ) (w : World)
      → reply_of (copyfile_body data_dir chance strerror src_rel dst_rel src dst w).1
        ≡ some (simple (codes "OK"))
      → (content : List ℕ) × (w.files (place src) ≡ some content)
        × ((copyfile_body data_dir chance strerror src_rel dst_rel src dst w).0.files
            ≡ put_file
                (put_file w.files (place dst) (some []))
                (place dst)
                (some (get_file (put_file w.files (place dst) (some [])) (place src))))
  unfolding copyfile_body missing reply_of
  copyfile_body-ok src_rel dst_rel src dst w h =
      let w1 = (syscall w).1 in
      elim (Bool-cases (syscall w).0) [
        | inr e ↦ elim (Bool-cases (w1.errno == enoent)) [
          | inl f ↦ absurd (ground (arith, e, f, h))
          | inr f ↦ absurd (ground (arith, e, f, h))
        ]
        | inl e ↦ elim (Option-cases (w.files (place src))) [
          | inl f ↦ absurd (ground (arith, e, f, h))
          | inr (content, f) ↦ (
            content,
            f,
            rw (e, f)
                (copy_to-ok data_dir chance strerror src_rel dst_rel src dst w1 (rw (e, f) at h)
                  ∙ ap
                      (λ g.
                        put_file (put_file g (place dst) (some [])) (place dst)
                          (some (get_file (put_file g (place dst) (some [])) (place src))))
                      (syscall-Same w).0),
          )
        ]
      ]

  -- When COPYFILE replies OK, both paths are valid, the source was there, and the files are those
  -- from before with the source's content at the destination, but with nothing there where the two
  -- paths lead to one file, however they are spelled; nothing is said of the log.
  pub op_copyfile-ok :
      (src_rel dst_rel : List ℕ) (w : World)
      → Replies
          (simple (codes "OK"))
          (op_copyfile data_dir chance strerror src_rel dst_rel (fresh w))
      → (src dst content : List ℕ) × (path_build data_dir src_rel path_max ≡ some src)
        × (path_build data_dir dst_rel path_max ≡ some dst)
        × (w.files (place src) ≡ some content)
        × ((q : Place)
            → Beside data_dir q
            → (op_copyfile data_dir chance strerror src_rel dst_rel (fresh w)).files q
              ≡ put_file w.files
                  (place dst)
                  (some (if place_eq (place dst) (place src) then [] else content))
                  q)
  unfolding op_copyfile reply_of
  op_copyfile-ok src_rel dst_rel w h =
      elim (with_locks2-Effect data_dir chance (codes "COPYFILE") (codes "-") src_rel dst_rel
        (copyfile_body data_dir chance strerror src_rel dst_rel) (fresh w)) [
          | inl (shown, r) ↦ absurd (ground (arith, h, r.trace_is))
          | inr (src, dst, s, e, f, r) ↦
              let w1 = with_locks s (fresh w) in
              let tidy = copyfile-Tidy data_dir chance strerror src_rel dst_rel src dst w1 in
              let (content, g, files) =
                copyfile_body-ok src_rel dst_rel src dst w1
                  (rw (r.trace_is, tidy.trace_same) at h) in
              (
                src,
                dst,
                content,
                e,
                f,
                g,
                λ q beside.
                    r.files_beside q beside
                    ∙ ap (λ x. x q) files
                    ∙ put_file_lem (λ p. Unit) w.files (files_after w.files (place dst) (place src))
                        (place dst)
                        (some (if place_eq (place dst) (place src) then [] else content))
                        (copied_at w.files (place dst) (place src) content g)
                        (λ p u. copied_beside w.files (place dst) (place src) p) q tt,
              )
        ]
