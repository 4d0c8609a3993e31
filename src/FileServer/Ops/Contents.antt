-- ===== src/FileServer/Ops/Contents.antt =====
-- What the replies of GETFILE and SETFILE of file_ops.c say of the files.
use ncsc210_g.Base.{
  ℕ, ◌≡◌, refl, sym, ap, ◌∙◌, inl, inr, false, Option, none, some, List, [], ◌∷◌, arith, Bool-cases,
  codes,
}
use ncsc210_g.FileServer.Path.Places.{Place, place, place_eq, place_eq_refl, place_eq_sound}
use ncsc210_g.FileServer.Path.{path_build}
use ncsc210_g.FileServer.Reply.{Reply, simple, bulk}
use ncsc210_g.FileServer.Locks.{reading, writing, Chance}
use ncsc210_g.FileServer.Disk.{
  path_max, Action, logged, replied, Files, World, put_file, read_all_file, write_all_file,
}
use ncsc210_g.FileServer.Disk.Writing.{write_all_file-OnlyFile, write_all_file-content}
use ncsc210_g.FileServer.Disk.Reading.{read_all_file-content, read_all_file-Same}
use ncsc210_g.FileServer.Locked.{log_place, with_locks}
use ncsc210_g.FileServer.Locked.Effects.{with_lock-Effect}
use ncsc210_g.FileServer.Ops.{getfile_says, getfile_body, op_getfile, setfile_body, op_setfile}

-- The reply in what an operation adds to the trace.
unfoldable pub reply_of : List Action → Option Reply
reply_of [] = none
reply_of (replied r ∷ more) = some r
reply_of (logged op path status message ∷ more) = reply_of more

-- The reply of an operation on a world with this trace.
abbrev pub Replies : Reply → World → Type 0
Replies r w = reply_of w.trace ≡ some r

-- An operation that has not logged or replied yet.
abbrev pub fresh : World → World
fresh w = record w { trace = [] }

-- A file with this content and the others as before, but for those of which nothing is said: the files
-- with one changed.
pub put_file_lem :
    (Said : Place → Type 0) (files files1 : Files) (at : Place) (content : Option (List ℕ))
    → files1 at ≡ content
    → ((q : Place) → Said q → place_eq at q ≡ false → files1 q ≡ files q)
    → (q : Place) → Said q
    → files1 q ≡ put_file files at content q
put_file_lem Said files files1 at content h others q said = elim (Bool-cases (place_eq at q)) [
  | inl e ↦ rw e (ap files1 (sym (place_eq_sound at q e)) ∙ h)
  | inr e ↦ rw e (others q said e)
]

-- The places of which the log is none.
abbrev pub Beside : (data_dir : List ℕ) → Place → Type 0
Beside data_dir q = place_eq (log_place data_dir) q ≡ false

module _ (data_dir : List ℕ) (chance : List ℕ → Chance) (strerror : ℕ → List ℕ) where
  getfile_says-bulk :
      (rel : List ℕ) (got : Option (List ℕ)) (e : ℕ) (b : List ℕ)
      → reply_of (getfile_says data_dir chance strerror rel got e) ≡ some (bulk b)
      → got ≡ some b
  unfolding getfile_says reply_of
  getfile_says-bulk rel (some c) e b h = cc
  getfile_says-bulk rel none e b h = ground (arith, h)

  -- When GETFILE replies with a bulk string, its path is valid, and the string is the whole content
  -- of the file; every file but the log stays as it is.
  pub op_getfile-bulk :
      (rel b : List ℕ) (w : World)
      → Replies (bulk b) (op_getfile data_dir chance strerror rel (fresh w))
      → (full : List ℕ) × (path_build data_dir rel path_max ≡ some full)
        × (w.files (place full) ≡ some b)
        × ((q : Place)
            → Beside data_dir q
            → (op_getfile data_dir chance strerror rel (fresh w)).files q ≡ w.files q)
  unfolding op_getfile reply_of getfile_body
  op_getfile-bulk rel b w h =
      elim (with_lock-Effect data_dir chance reading (codes "GETFILE") rel
        (getfile_body data_dir chance strerror rel) (fresh w)) [
          | inl r ↦ absurd (ground (arith, h, r.trace_is))
          | inr (full, s, e, r) ↦
              let w1 = with_locks s (fresh w) in
              let same = read_all_file-Same full w1 in
              let says =
                getfile_says-bulk rel (read_all_file full w1).0 (read_all_file full w1).1.errno b
                  (rw (r.trace_is, same.2) at h) in
              (
                full,
                e,
                read_all_file-content full w1 b says,
                λ q beside. r.files_beside q beside ∙ ap (λ f. f q) same.0,
              )
        ]

  -- When SETFILE replies OK, its path is valid, and the files are those from before with just the
  -- bytes that were sent at that path; nothing is said of the log.
  pub op_setfile-ok :
      (rel bytes : List ℕ) (w : World)
      → Replies (simple (codes "OK")) (op_setfile data_dir chance strerror rel bytes (fresh w))
      → (full : List ℕ) × (path_build data_dir rel path_max ≡ some full)
        × ((q : Place)
            → Beside data_dir q
            → (op_setfile data_dir chance strerror rel bytes (fresh w)).files q
              ≡ put_file w.files (place full) (some bytes) q)
  unfolding op_setfile reply_of setfile_body
  op_setfile-ok rel bytes w h =
      elim (with_lock-Effect data_dir chance writing (codes "SETFILE") rel
        (setfile_body data_dir chance strerror rel bytes) (fresh w)) [
          | inl r ↦ absurd (ground (arith, h, r.trace_is))
          | inr (full, s, e, r) ↦
              let w1 = with_locks s (fresh w) in
              let w2 = (write_all_file full bytes w1).1 in
              let only = write_all_file-OnlyFile full bytes w1 in
              elim (Bool-cases (write_all_file full bytes w1).0) [
                | inl wrote ↦ (
                  full,
                  e,
                  λ q beside.
                      r.files_beside q beside
                      ∙ put_file_lem (λ p. Unit) w.files w2.files (place full) (some bytes)
                          (write_all_file-content full bytes w1 wrote) (λ p u. only.others p) q tt,
                )
                | inr failing ↦
                    absurd (ground (arith, rw (r.trace_is, only.trace_same, failing) at h))
              ]
        ]

  -- When SETFILE of a path that does not lead to the log replies OK, and GETFILE of the same path, on
  -- the files that SETFILE left, replies with a bulk string, the string is what was sent.
  pub getfile-setfile :
      (rel full bytes b : List ℕ) (w w1 : World)
      → path_build data_dir rel path_max ≡ some full
      → Beside data_dir (place full)
      → Replies (simple (codes "OK")) (op_setfile data_dir chance strerror rel bytes (fresh w))
      → w1.files ≡ (op_setfile data_dir chance strerror rel bytes (fresh w)).files
      → Replies (bulk b) (op_getfile data_dir chance strerror rel (fresh w1))
      → b ≡ bytes
  getfile-setfile rel full bytes b w w1 built beside h same k =
      let (full1, e, put) = op_setfile-ok rel bytes w h in
      let (full2, e1, got, kept) = op_getfile-bulk rel b w1 k in
      let one : full1 ≡ full = ground (arith, e, built) in
      let two : full2 ≡ full = ground (arith, e1, built) in
      let stands : put_file w.files (place full) (some bytes) (place full) ≡ some bytes =
        rw (place_eq_refl (place full)) refl in
      ground (
        arith,
        rw two at got,
        ap (λ f. f (place full)) same,
        rw one at (put (place full) beside),
        stands,
      )
