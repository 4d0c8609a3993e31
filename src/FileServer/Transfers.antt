-- ===== src/FileServer/Transfers.antt =====
-- COPYFILE, COMPRESS and DECOMPRESS of G16_Project_3/src/file_ops.c. `strerror` is the text of an
-- error; an allocation is a call of the script.
mod Tests
pub mod Contents
pub mod Copies
pub mod Copying
pub mod Serves
use ncsc210_g.Base.{
  ℕ, min, Bool, true, false, not, Option, none, some, List, [], ◌∷◌, ◌++◌, ◌==◌, if◌then◌else◌,
  length, take, drop, Result, ok, err, codes,
}
use ncsc210_g.FileServer.Path.Places.{Place, place}
use ncsc210_g.FileServer.Disk.{
  enoent, eintr, eio, enomem, efbig, path_max, Outcome, done, fails, Action, Files, World, put_file,
  set_errno, syscall, moved, read_all_file, mkdir, after, write_all_file,
}
use ncsc210_g.FileServer.Locks.{Chance}
use ncsc210_g.FileServer.Path.{path_ensure_parent_dirs}
use ncsc210_g.FileServer.Reply.{error}
use ncsc210_g.FileServer.Locked.{answer, Body2, with_locks2}
use ncsc210_g.FileServer.Ops.{failure, success}
use ncsc210_g.FileServer.Rle.{Errno, einval, rle_compress_bytes, rle_decompress_bytes}

-- COPY_BUF_SIZE
abbrev pub copy_buf_size : ℕ
copy_buf_size = 8192

pub data CopyEnd : Type 0 where
  copied read_failed write_failed : CopyEnd

-- Where the loops of op_copyfile end, what stands in the destination, the rest of the script, errno.
pub record Copy : Type 0 where
  pub how : CopyEnd
  pub bytes : List ℕ
  pub script : List Outcome
  pub errno : ℕ

-- The two nested loops as one: `rest` is what is still to be read, `put` has been written, and
-- `pending` stands in the buffer, read and not yet written.
pub copy_loop : List Outcome → (rest put pending : List ℕ) (errno : ℕ) → Copy
copy_loop [] rest put [] errno = record { how = read_failed; bytes = put; script = []; errno = eio }
copy_loop (fails e ∷ os) rest put [] errno =
    let again = copy_loop os rest put [] e in
    if e == eintr then again else record { how = read_failed; bytes = put; script = os; errno = e }
copy_loop (done k ∷ os) rest put [] errno =
    let r = moved k (min copy_buf_size (length rest)) in
    let more = copy_loop os (drop r rest) put (take r rest) errno in
    if r == 0 then record { how = copied; bytes = put; script = os; errno = errno } else more
copy_loop [] rest put (x ∷ xs) errno = record {
  how = write_failed;
  bytes = put;
  script = [];
  errno = eio;
}
copy_loop (fails e ∷ os) rest put (x ∷ xs) errno =
    let again = copy_loop os rest put (x ∷ xs) e in
    if e == eintr then again else record { how = write_failed; bytes = put; script = os; errno = e }
copy_loop (done k ∷ os) rest put (x ∷ xs) errno =
    let r = moved k (length (x ∷ xs)) in
    copy_loop os rest (put ++ take r (x ∷ xs)) (drop r (x ∷ xs)) errno

abbrev errno_of : Errno → ℕ
errno_of Errno.enomem = 12
errno_of Errno.einval = 22
errno_of Errno.efbig = 27

-- What a descriptor on `path` reads.
abbrev get_file : Files → Place → List ℕ
get_file files at = elim (files at) [ none ↦ [] | some b ↦ b ]

abbrev is_none : Option (List ℕ) → Bool
is_none none = true
is_none (some b) = false

module _ (data_dir : List ℕ) (chance : List ℕ → Chance) (strerror : ℕ → List ℕ) where
  copy_says : (src_rel dst_rel : List ℕ) → CopyEnd → (errno : ℕ) → List Action
  copy_says src_rel dst_rel copied e =
      success data_dir chance strerror (codes "COPYFILE") src_rel (codes "copied")
  copy_says src_rel dst_rel read_failed e =
      failure data_dir chance strerror (codes "COPYFILE") src_rel e
  copy_says src_rel dst_rel write_failed e =
      failure data_dir chance strerror (codes "COPYFILE") dst_rel e

  -- Behind the loops: `fsync` and the end.
  pub copy_ended : (src_rel dst_rel : List ℕ) → CopyEnd → World → World × List Action
  unfolding syscall copy_says
  copy_ended src_rel dst_rel copied w =
      let (synced, w1) = syscall w in
      (w1, copy_says src_rel dst_rel (if synced then copied else write_failed) w1.errno)
  copy_ended src_rel dst_rel read_failed w = (w, copy_says src_rel dst_rel read_failed w.errno)
  copy_ended src_rel dst_rel write_failed w = (w, copy_says src_rel dst_rel write_failed w.errno)

  -- The loops, on a source that has `content` once the destination is empty.
  pub copy_bytes : (src_rel dst_rel dst content : List ℕ) → World → World × List Action
  unfolding copy_loop copy_ended
  copy_bytes src_rel dst_rel dst content w =
      let c = copy_loop w.script content [] [] w.errno in
      copy_ended src_rel dst_rel c.how (record w {
        files = put_file w.files (place dst) (some c.bytes);
        script = c.script;
        errno = c.errno;
      })

  missing : (src_rel : List ℕ) → List Action
  missing src_rel =
      answer (codes "COPYFILE") src_rel (codes "MISS") (codes "source not found")
        (error (codes "source file not found"))

  -- From the directories of the destination on; the source is open.
  pub copy_to : (src_rel dst_rel src dst : List ℕ) → World → World × List Action
  unfolding path_ensure_parent_dirs mkdir copy_bytes syscall
  copy_to src_rel dst_rel src dst w =
      let (ready, w1) = after (path_ensure_parent_dirs mkdir path_max dst w) syscall in
      let w2 : World = record w1 { files = put_file w1.files (place dst) (some []) } in
      if ready
      then copy_bytes src_rel dst_rel dst (get_file w2.files (place src)) w2
      else (w1, failure data_dir chance strerror (codes "COPYFILE") dst_rel w1.errno)

  pub copyfile_body : (src_rel dst_rel : List ℕ) → Body2
  unfolding copy_to syscall missing
  copyfile_body src_rel dst_rel src dst w =
      let (opened, w1) = syscall w in
      if not opened
      then (
        w1,
        if w1.errno == enoent
            then missing src_rel
            else failure data_dir chance strerror (codes "COPYFILE") src_rel w1.errno,
      )
      else if is_none (w.files (place src))
      then (set_errno enoent w1, missing src_rel)
      else copy_to src_rel dst_rel src dst w1

  unfoldable pub op_copyfile : (src_rel dst_rel : List ℕ) → World → World
  unfolding with_locks2 copyfile_body
  op_copyfile src_rel dst_rel w =
      with_locks2 data_dir chance (codes "COPYFILE") (codes "-") src_rel dst_rel
        (copyfile_body src_rel dst_rel) w

  -- What op_compress and op_decompress have in common: the file is read, coded and written. The
  -- allocation of the result is a call of the script.
  write_coded :
      (op detail src_rel dst_rel dst : List ℕ) → Result Errno (List ℕ) → World → World × List Action
  unfolding write_all_file
  write_coded op detail src_rel dst_rel dst (err e) w =
      (set_errno (errno_of e) w, failure data_dir chance strerror op src_rel (errno_of e))
  write_coded op detail src_rel dst_rel dst (ok out) w =
      let (written, w1) = write_all_file dst out w in
      (
        w1,
        if written
            then success data_dir chance strerror op src_rel detail
            else failure data_dir chance strerror op dst_rel w1.errno,
      )

  code_read :
      (code : (malloc : ℕ → Bool) → List ℕ → Result Errno (List ℕ))
      → (op detail src_rel dst_rel dst : List ℕ) → Option (List ℕ) × World
      → World × List Action
  unfolding write_coded syscall
  code_read code op detail src_rel dst_rel dst (none, w) =
      (w, failure data_dir chance strerror op src_rel w.errno)
  code_read code op detail src_rel dst_rel dst (some bytes, w) =
      let (allocated, w1) = syscall w in
      write_coded op detail src_rel dst_rel dst (code (λ n. allocated) bytes) w1

  transform_body :
      (code : (malloc : ℕ → Bool) → List ℕ → Result Errno (List ℕ))
      → (op detail src_rel dst_rel : List ℕ) → Body2
  unfolding read_all_file code_read
  transform_body code op detail src_rel dst_rel src dst w =
      code_read code op detail src_rel dst_rel dst (read_all_file src w)

  unfoldable pub op_compress : (src_rel dst_rel : List ℕ) → World → World
  unfolding with_locks2 transform_body rle_compress_bytes
  op_compress src_rel dst_rel w =
      with_locks2 data_dir chance (codes "COMPRESS") src_rel src_rel dst_rel
        (transform_body rle_compress_bytes (codes "COMPRESS") (codes "compressed") src_rel dst_rel)
        w

  unfoldable pub op_decompress : (src_rel dst_rel : List ℕ) → World → World
  unfolding with_locks2 transform_body rle_decompress_bytes
  op_decompress src_rel dst_rel w =
      with_locks2 data_dir chance (codes "DECOMPRESS") src_rel src_rel dst_rel
        (transform_body rle_decompress_bytes (codes "DECOMPRESS") (codes "decompressed") src_rel
          dst_rel)
        w
