-- ===== src/FileServer/Transfers/Contents.antt =====
-- What the reply OK of COMPRESS and DECOMPRESS of file_ops.c says of the files.

use ncsc210_g.Base.{
  ℕ, ◌≡◌, refl, sym, ap, subst, ◌∙◌, inl, inr, Bool, false, Option, none, some, List, arith,
  if◌then◌else◌, Bool-cases, Result, ok, err, codes,
}
use ncsc210_g.FileServer.Path.Places.{Place, place, place_eq, place_eq_sound}
use ncsc210_g.FileServer.Path.{path_build}
use ncsc210_g.FileServer.Reply.{simple}
use ncsc210_g.FileServer.Locks.{Chance}
use ncsc210_g.FileServer.Rle.{Errno, rle_compress_bytes, rle_decompress_bytes}
use ncsc210_g.FileServer.Disk.{
  path_max, Files, World, put_file, set_errno, syscall, read_all_file, write_all_file,
}
use ncsc210_g.FileServer.Rle.RoundTrip.{decompress_of_compress}
use ncsc210_g.FileServer.Disk.Writing.{
  OnlyFile, Same-OnlyFile, OnlyFile-trans, syscall-OnlyFile, write_all_file-OnlyFile,
  write_all_file-content,
}
use ncsc210_g.FileServer.Disk.Reading.{read_all_file-content, read_all_file-Same}
use ncsc210_g.FileServer.Locked.{with_locks, with_locks2}
use ncsc210_g.FileServer.Locked.Effects.{with_locks2-Effect}
use ncsc210_g.FileServer.Ops.Contents.{reply_of, Replies, fresh, put_file_lem, Beside}
use ncsc210_g.FileServer.Transfers.{
  errno_of, write_coded, code_read, transform_body, op_compress, op_decompress,
}

module _ (data_dir : List ℕ) (chance : List ℕ → Chance) (strerror : ℕ → List ℕ) where
  write_coded-ok :
      (op detail src_rel dst_rel dst : List ℕ) (coded : Result Errno (List ℕ)) (w : World)
      → reply_of (write_coded data_dir chance strerror op detail src_rel dst_rel dst coded w).1
        ≡ some (simple (codes "OK"))
      → (out : List ℕ) × (coded ≡ ok out)
        × ((write_coded data_dir chance strerror op detail src_rel dst_rel dst coded w).0.files
              (place dst)
            ≡ some out)
  unfolding write_coded reply_of
  write_coded-ok op detail src_rel dst_rel dst (err e) w h = cc
  write_coded-ok op detail src_rel dst_rel dst (ok out) w h =
      elim (Bool-cases (write_all_file dst out w).0) [
        | inl wrote ↦ (out, refl, write_all_file-content dst out w wrote)
        | inr failing ↦ absurd (ground (arith, failing, h))
      ]

  write_coded-OnlyFile :
      (op detail src_rel dst_rel dst : List ℕ) (coded : Result Errno (List ℕ)) (w : World)
      → OnlyFile dst w
          (write_coded data_dir chance strerror op detail src_rel dst_rel dst coded w).0
  unfolding write_coded
  write_coded-OnlyFile op detail src_rel dst_rel dst (err e) w =
      Same-OnlyFile dst w (set_errno (errno_of e) w) (refl, refl, refl)
  write_coded-OnlyFile op detail src_rel dst_rel dst (ok out) w = write_all_file-OnlyFile dst out w

  code_read-OnlyFile :
      (code : (ℕ → Bool) → List ℕ → Result Errno (List ℕ)) (op detail src_rel dst_rel dst : List ℕ)
      (r : Option (List ℕ) × World)
      → OnlyFile dst r.1 (code_read data_dir chance strerror code op detail src_rel dst_rel dst r).0
  unfolding code_read
  code_read-OnlyFile code op detail src_rel dst_rel dst (none, w) =
      Same-OnlyFile dst w w (refl, refl, refl)
  code_read-OnlyFile code op detail src_rel dst_rel dst (some b, w) =
      let w1 = (syscall w).1 in
      let coded = code (λ n. (syscall w).0) b in
      OnlyFile-trans dst w w1
        (write_coded data_dir chance strerror op detail src_rel dst_rel dst coded w1).0
        (syscall-OnlyFile dst w) (write_coded-OnlyFile op detail src_rel dst_rel dst coded w1)

  code_read-ok :
      (code : (ℕ → Bool) → List ℕ → Result Errno (List ℕ)) (op detail src_rel dst_rel dst : List ℕ)
      (r : Option (List ℕ) × World)
      → reply_of (code_read data_dir chance strerror code op detail src_rel dst_rel dst r).1
        ≡ some (simple (codes "OK"))
      → (b out : List ℕ) × (malloc : ℕ → Bool) × (r.0 ≡ some b)
        × (code malloc b ≡ ok out)
        × ((code_read data_dir chance strerror code op detail src_rel dst_rel dst r).0.files
              (place dst)
            ≡ some out)
  unfolding code_read reply_of
  code_read-ok code op detail src_rel dst_rel dst (none, w) h = cc
  code_read-ok code op detail src_rel dst_rel dst (some b, w) h =
      let malloc : ℕ → Bool = λ n. (syscall w).0 in
      let (out, e, f) =
        write_coded-ok op detail src_rel dst_rel dst (code malloc b) (syscall w).1 h in
      (b, out, malloc, refl, e, f)

  -- What COMPRESS and DECOMPRESS have done when they reply OK.
  pub record Coded (code : (ℕ → Bool) → List ℕ → Result Errno (List ℕ)) (src_rel dst_rel : List ℕ)
      (w w' : World) : Type 0 where
    pub src : List ℕ
    pub dst : List ℕ
    pub input : List ℕ
    pub output : List ℕ
    pub malloc : ℕ → Bool
    pub src_built : path_build data_dir src_rel path_max ≡ some src
    pub dst_built : path_build data_dir dst_rel path_max ≡ some dst
    pub read : w.files (place src) ≡ some input
    pub coded : code malloc input ≡ ok output
    pub written : Beside data_dir (place dst) → w'.files (place dst) ≡ some output
    pub others :
        (q : Place) → Beside data_dir q → place_eq (place dst) q ≡ false → w'.files q ≡ w.files q

  transform-Coded :
      (code : (ℕ → Bool) → List ℕ → Result Errno (List ℕ)) (op detail src_rel dst_rel : List ℕ)
      (w : World)
      → Replies (simple (codes "OK")) (
          with_locks2 data_dir chance op src_rel src_rel dst_rel
            (transform_body data_dir chance strerror code op detail src_rel dst_rel)
            (fresh w))
      → Coded code src_rel dst_rel w (
          with_locks2 data_dir chance op src_rel src_rel dst_rel
            (transform_body data_dir chance strerror code op detail src_rel dst_rel)
            (fresh w))
  unfolding transform_body reply_of
  transform-Coded code op detail src_rel dst_rel w h =
      elim (with_locks2-Effect data_dir chance op src_rel src_rel dst_rel
        (transform_body data_dir chance strerror code op detail src_rel dst_rel) (fresh w)) [
          | inl (shown, r) ↦ absurd (ground (arith, h, r.trace_is))
          | inr (src, dst, s, e, f, r) ↦
              let w1 = with_locks s (fresh w) in
              let got = read_all_file src w1 in
              let same = read_all_file-Same src w1 in
              let only = code_read-OnlyFile code op detail src_rel dst_rel dst got in
              let (b, out, malloc, g, k, put) =
                code_read-ok code op detail src_rel dst_rel dst got
                  (rw (r.trace_is, only.trace_same, same.2) at h) in
              record {
                src = src;
                dst = dst;
                input = b;
                output = out;
                malloc = malloc;
                src_built = e;
                dst_built = f;
                read = read_all_file-content src w1 b g;
                coded = k;
                written = λ beside. r.files_beside (place dst) beside ∙ put;
                others = λ q beside differ.
                    r.files_beside q beside ∙ only.others q differ ∙ ap (λ x. x q) same.0;
              }
        ]

  pub op_compress-ok :
      (src_rel dst_rel : List ℕ) (w : World)
      → Replies
          (simple (codes "OK"))
          (op_compress data_dir chance strerror src_rel dst_rel (fresh w))
      → Coded rle_compress_bytes src_rel dst_rel w
          (op_compress data_dir chance strerror src_rel dst_rel (fresh w))
  unfolding op_compress
  op_compress-ok src_rel dst_rel w h =
      transform-Coded rle_compress_bytes (codes "COMPRESS") (codes "compressed") src_rel dst_rel w h

  pub op_decompress-ok :
      (src_rel dst_rel : List ℕ) (w : World)
      → Replies
          (simple (codes "OK"))
          (op_decompress data_dir chance strerror src_rel dst_rel (fresh w))
      → Coded rle_decompress_bytes src_rel dst_rel w
          (op_decompress data_dir chance strerror src_rel dst_rel (fresh w))
  unfolding op_decompress
  op_decompress-ok src_rel dst_rel w h =
      transform-Coded rle_decompress_bytes (codes "DECOMPRESS") (codes "decompressed") src_rel
        dst_rel w h

  -- As put_file_lem, where the changed file may be the log.
  restored :
      (at q : Place) (files files1 : Files) (content : Option (List ℕ))
      → (Beside data_dir at → files1 at ≡ content)
      → ((p : Place) → Beside data_dir p → place_eq at p ≡ false → files1 p ≡ files p)
      → Beside data_dir q
      → files1 q ≡ put_file files at content q
  restored at q files files1 content h others said = elim (Bool-cases (place_eq at q)) [
    | inl e ↦
        let here : at ≡ q = place_eq_sound at q e in
        rw e (ap files1 (sym here) ∙ h (subst (Beside data_dir) (sym here) said))
    | inr e ↦ rw e (others q said e)
  ]

  -- When COMPRESS of one path to a second replies OK, and on the files it leaves DECOMPRESS of the
  -- second path to a third replies OK, and the second path does not lead to the log, then the paths are
  -- valid, and the files are those from before with the packed file at the second path and what the
  -- first one held at the third; nothing is said of the log. The paths may be spellings of one.
  pub decompress-compress-files :
      (src_rel mid_rel mid out_rel : List ℕ) (w w1 : World)
      → path_build data_dir mid_rel path_max ≡ some mid
      → Beside data_dir (place mid)
      → Replies
          (simple (codes "OK"))
          (op_compress data_dir chance strerror src_rel mid_rel (fresh w))
      → w1.files ≡ (op_compress data_dir chance strerror src_rel mid_rel (fresh w)).files
      → Replies
          (simple (codes "OK"))
          (op_decompress data_dir chance strerror mid_rel out_rel (fresh w1))
      → (src out packed : List ℕ) × (path_build data_dir src_rel path_max ≡ some src)
        × (path_build data_dir out_rel path_max ≡ some out)
        × ((q : Place)
            → Beside data_dir q
            → (op_decompress data_dir chance strerror mid_rel out_rel (fresh w1)).files q
              ≡ put_file
                  (put_file w.files (place mid) (some packed))
                  (place out)
                  (w.files (place src))
                  q)
  decompress-compress-files src_rel mid_rel mid out_rel w w1 built beside h same k =
      let c = op_compress-ok src_rel mid_rel w h in
      let d = op_decompress-ok mid_rel out_rel w1 k in
      let w2 = op_compress data_dir chance strerror src_rel mid_rel (fresh w) in
      let w3 = op_decompress data_dir chance strerror mid_rel out_rel (fresh w1) in
      let to_mid : c.dst ≡ mid = ground (arith, c.dst_built, built) in
      let from_mid : d.src ≡ mid = ground (arith, d.src_built, built) in
      let packed : w2.files (place mid) ≡ some c.output =
        (rw to_mid at (λ (b : Beside data_dir (place c.dst)). c.written b)) beside in
      let found : w1.files (place mid) ≡ some d.input = rw from_mid at d.read in
      let read : d.input ≡ c.output = ground (arith, packed, found, ap (λ f. f (place mid)) same) in
      let back : d.output ≡ c.input =
        decompress_of_compress c.malloc d.malloc c.input c.output d.output c.coded
          (rw read at d.coded) in
      let compressed =
        put_file_lem (Beside data_dir) w.files w2.files (place mid) (some c.output) packed (
          subst
            (λ m.
              (q : Place)
              → Beside data_dir q
              → place_eq (place m) q ≡ false
              → w2.files q ≡ w.files q)
            to_mid c.others) in
      (
        c.src,
        d.dst,
        c.output,
        c.src_built,
        d.dst_built,
        λ q said.
            restored (place d.dst) q w1.files w3.files (w.files (place c.src))
              (λ b. d.written b ∙ ap some back ∙ sym c.read) d.others said
            ∙ ap (λ x. if place_eq (place d.dst) q then w.files (place c.src) else x)
                (ap (λ f. f q) same ∙ compressed q said),
      )
