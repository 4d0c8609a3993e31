-- ===== src/FileServer/Transfers/Copies.antt =====
-- The loop of COPYFILE of file_ops.c, and the files behind it.
use mathlib.Core.List.{append-nil, append_assoc}
use ncsc210_g.Base.{
  ℕ, min, ◌≡◌, refl, sym, ap, ◌∙◌, inl, inr, Bool, true, false, Option, some, List, [], ◌∷◌, ◌++◌,
  arith, ◌==◌, if◌then◌else◌, Bool-cases, length, take, drop, take-append-drop, codes,
}
use ncsc210_g.FileServer.Path.Places.{Place, place, place_eq, place_eq_refl}
use ncsc210_g.FileServer.Path.{path_ensure_parent_dirs}
use ncsc210_g.FileServer.Reply.{simple}
use ncsc210_g.FileServer.Locks.{Chance}
use ncsc210_g.FileServer.Disk.{
  eintr, path_max, Outcome, done, fails, Files, World, put_file, syscall, moved, mkdir, after,
}
use ncsc210_g.FileServer.Disk.Reading.{syscall-Same, path_ensure_parent_dirs-Same, after-Same}
use ncsc210_g.FileServer.Ops.Contents.{reply_of}
use ncsc210_g.FileServer.Transfers.{
  copy_buf_size, CopyEnd, copied, read_failed, write_failed, copy_loop, get_file, copy_says,
  copy_ended, copy_bytes, copy_to,
}

pub nothing_left : (rest : List ℕ) → length rest ≡ 0 → rest ≡ []
nothing_left [] h = refl
nothing_left (x ∷ rest) h = absurd (omega arith)

pub copy_loop-bytes :
    (os : List Outcome) (rest put pending : List ℕ) (errno : ℕ)
    → (copy_loop os rest put pending errno).how ≡ copied
    → (copy_loop os rest put pending errno).bytes ≡ put ++ (pending ++ rest)
unfolding copy_loop
copy_loop-bytes [] rest put [] errno h = cc
copy_loop-bytes (fails e ∷ os) rest put [] errno h = elim (Bool-cases (e == eintr)) [
  | inl f ↦ rw f (copy_loop-bytes os rest put [] e (rw f at h))
  | inr f ↦ absurd (ground (arith, f, h))
]
copy_loop-bytes (done k ∷ os) rest put [] errno h =
    let r = moved k (min copy_buf_size (length rest)) in
    elim (Bool-cases (r == 0)) [
      | inl f ↦
          rw f (sym (append-nil put) ∙ ap (◌++◌ put) (sym (nothing_left rest (ground (arith, f)))))
      | inr f ↦ rw f (
          copy_loop-bytes os (drop r rest) put (take r rest) errno (rw f at h)
          ∙ ap (◌++◌ put) (take-append-drop r rest))
    ]
copy_loop-bytes [] rest put (x ∷ xs) errno h = cc
copy_loop-bytes (fails e ∷ os) rest put (x ∷ xs) errno h = elim (Bool-cases (e == eintr)) [
  | inl f ↦ rw f (copy_loop-bytes os rest put (x ∷ xs) e (rw f at h))
  | inr f ↦ absurd (ground (arith, f, h))
]
copy_loop-bytes (done k ∷ os) rest put (x ∷ xs) errno h =
    let r = moved k (length (x ∷ xs)) in
    copy_loop-bytes os rest (put ++ take r (x ∷ xs)) (drop r (x ∷ xs)) errno h
    ∙ append_assoc put (take r (x ∷ xs)) (drop r (x ∷ xs) ++ rest)
    ∙ ap (◌++◌ put) (sym (append_assoc (take r (x ∷ xs)) (drop r (x ∷ xs)) rest))
    ∙ ap (λ ys. put ++ (ys ++ rest)) (take-append-drop r (x ∷ xs))

abbrev pub files_after : Files → (dst src : Place) → Files
files_after f dst src =
    put_file (put_file f dst (some [])) dst (some (get_file (put_file f dst (some [])) src))

pub chosen :
    (same : Bool) (known : Option (List ℕ)) (content : List ℕ)
    → known ≡ some content
    → get_file (λ p. if same then some [] else known) [] ≡ (if same then [] else content)
chosen true known content g = refl
chosen false known content g = rw g refl

pub read_back :
    (f : Files) (dst src : Place) (content : List ℕ)
    → f src ≡ some content
    → get_file (put_file f dst (some [])) src ≡ (if place_eq dst src then [] else content)
read_back f dst src content g = chosen (place_eq dst src) (f src) content g

pub copied_at :
    (f : Files) (dst src : Place) (content : List ℕ)
    → f src ≡ some content
    → files_after f dst src dst ≡ some (if place_eq dst src then [] else content)
copied_at f dst src content g =
    let written : files_after f dst src dst ≡ some (get_file (put_file f dst (some [])) src) =
      rw (place_eq_refl dst) refl in
    written ∙ ap some (read_back f dst src content g)

pub copied_beside :
    (f : Files) (dst src q : Place) → place_eq dst q ≡ false → files_after f dst src q ≡ f q
copied_beside f dst src q e = rw e refl

module _ (data_dir : List ℕ) (chance : List ℕ → Chance) (strerror : ℕ → List ℕ) where
  pub copy_ended-ok :
      (src_rel dst_rel : List ℕ) (how : CopyEnd) (w : World)
      → reply_of (copy_ended data_dir chance strerror src_rel dst_rel how w).1
        ≡ some (simple (codes "OK"))
      → (how ≡ copied)
        × ((copy_ended data_dir chance strerror src_rel dst_rel how w).0.files ≡ w.files)
  unfolding copy_ended copy_says reply_of
  copy_ended-ok src_rel dst_rel copied w h = (refl, (syscall-Same w).0)
  copy_ended-ok src_rel dst_rel read_failed w h = cc
  copy_ended-ok src_rel dst_rel write_failed w h = cc

  pub copy_bytes-ok :
      (src_rel dst_rel dst content : List ℕ) (w : World)
      → reply_of (copy_bytes data_dir chance strerror src_rel dst_rel dst content w).1
        ≡ some (simple (codes "OK"))
      → ((copy_bytes data_dir chance strerror src_rel dst_rel dst content w).0.files
          ≡ put_file w.files (place dst) (some content))
  unfolding copy_bytes
  copy_bytes-ok src_rel dst_rel dst content w h =
      let c = copy_loop w.script content [] [] w.errno in
      let (how, same) =
        copy_ended-ok src_rel dst_rel c.how
          (record w {
            files = put_file w.files (place dst) (some c.bytes);
            script = c.script;
            errno = c.errno;
          })
          h in
      same
      ∙ ap (λ b. put_file w.files (place dst) (some b))
          (copy_loop-bytes w.script content [] [] w.errno how)

  pub copy_to-ok :
      (src_rel dst_rel src dst : List ℕ) (w : World)
      → reply_of (copy_to data_dir chance strerror src_rel dst_rel src dst w).1
        ≡ some (simple (codes "OK"))
      → ((copy_to data_dir chance strerror src_rel dst_rel src dst w).0.files
          ≡ put_file
              (put_file w.files (place dst) (some []))
              (place dst)
              (some (get_file (put_file w.files (place dst) (some [])) (place src))))
  unfolding copy_to reply_of
  copy_to-ok src_rel dst_rel src dst w h =
      let r = after (path_ensure_parent_dirs mkdir path_max dst w) syscall in
      let same : r.1.files ≡ w.files =
        (after-Same w (path_ensure_parent_dirs mkdir path_max dst w) syscall
          (path_ensure_parent_dirs-Same dst w) syscall-Same).0 in
      elim (Bool-cases r.0) [
        | inl e ↦ rw e (
            copy_bytes-ok src_rel dst_rel dst
              (get_file (put_file r.1.files (place dst) (some [])) (place src))
              (record r.1 { files = put_file r.1.files (place dst) (some []) }) (rw e at h)
            ∙ ap
                (λ f.
                  put_file (put_file f (place dst) (some [])) (place dst)
                    (some (get_file (put_file f (place dst) (some [])) (place src))))
                same)
        | inr e ↦ absurd (ground (arith, e, h))
      ]
