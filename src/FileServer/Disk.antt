-- ===== src/FileServer/Disk.antt =====
-- The world in which the operations of G16_Project_3/src/file_ops.c run, and its helpers
-- read_all_file and write_all_file. What the operating system answers is the script: an outcome for
-- each call, in order. Where the script ends, every call fails with EIO.
pub mod Reading
pub mod Writing
use ncsc210_g.Base.{
  ℕ, zero, suc, ◌-◌, min, max, Bool, true, false, not, Option, none, some, List, [], ◌∷◌, ◌++◌, ltb,
  ◌==◌, if◌then◌else◌, length, take, drop,
}
use ncsc210_g.FileServer.Path.Places.{Place, place, place_eq}
use ncsc210_g.FileServer.Locks.{Locks}
use ncsc210_g.FileServer.Rle.{max_file_size}
use ncsc210_g.FileServer.Path.{Mkdir, made, exists, failed, path_ensure_parent_dirs}
use ncsc210_g.FileServer.Reply.{Reply}

abbrev pub enoent : ℕ
enoent = 2

abbrev pub eintr : ℕ
eintr = 4

abbrev pub eio : ℕ
eio = 5

abbrev pub enomem : ℕ
enomem = 12

abbrev pub eexist : ℕ
eexist = 17

abbrev pub efbig : ℕ
efbig = 27

-- PATH_MAX
abbrev pub path_max : ℕ
path_max = 4096

-- A call is done, for `read` and `write` with at most so many bytes, or it sets errno and fails.
pub data Outcome : Type 0 where
  done : ℕ → Outcome
  fails : (errno : ℕ) → Outcome

-- A line of operations.log, or a reply to the client.
pub data Action : Type 0 where
  logged : (op path status message : List ℕ) → Action
  replied : Reply → Action

-- How a call of logger_log goes: whether the log opens, the most bytes of the line that get into it, and
-- the time.
pub record LogCall : Type 0 where
  pub opens : Bool
  pub put : ℕ
  pub ts : List ℕ

abbrev pub Files : Type 0
Files = Place → Option (List ℕ)

-- The regular files, by where their paths lead, the log among them; how the next calls of logger_log
-- go, and for whom.
pub record World : Type 0 where
  pub files : Files
  pub client : List ℕ
  pub log_calls : List LogCall
  pub script : List Outcome
  pub errno : ℕ
  pub locks : Locks
  pub trace : List Action

abbrev pub put_file : Files → Place → Option (List ℕ) → Files
put_file files at content p = if place_eq at p then content else files p

abbrev pub set_errno : ℕ → World → World
set_errno e w = record w { errno = e }

-- One call: whether it is done, and errno set if not.
answered : List Outcome → World → Bool × World
answered [] w = (false, set_errno eio w)
answered (done k ∷ os) w = (true, record w { script = os })
answered (fails e ∷ os) w = (false, record w { script = os; errno = e })

unfoldable pub syscall : World → Bool × World
unfolding answered
syscall w = answered w.script w

-- How many of `n` bytes `read` or `write` moves, if the system would move `k`.
abbrev pub moved : (k n : ℕ) → ℕ
moved k n = min n (max 1 k)

-- What a loop over `read` or `write` comes to: whether it succeeds, the bytes it has moved, the
-- rest of the script and errno.
pub record Moved : Type 0 where
  pub success : Bool
  pub bytes : List ℕ
  pub script : List Outcome
  pub errno : ℕ

-- The `while` of read_all_file: `left` is sz - off, `rest` is what stands in the file behind off.
read_loop : List Outcome → (left : ℕ) (got rest : List ℕ) (errno : ℕ) → Moved
read_loop os zero got rest errno = record {
  success = true;
  bytes = got;
  script = os;
  errno = errno;
}
read_loop [] (suc left) got rest errno = record {
  success = false;
  bytes = got;
  script = [];
  errno = eio;
}
read_loop (fails e ∷ os) (suc left) got rest errno =
    let again = read_loop os (suc left) got rest e in
    if e == eintr then again else record { success = false; bytes = got; script = os; errno = e }
read_loop (done k ∷ os) (suc left) got rest errno =
    let r = moved k (min (suc left) (length rest)) in
    let more = read_loop os (suc left - r) (got ++ take r rest) (drop r rest) errno in
    if r == 0 then record { success = true; bytes = got; script = os; errno = errno } else more

-- The `while` of write_all_file: the file is `put` so far, and `left` is still to be written.
write_loop : List Outcome → (put left : List ℕ) (errno : ℕ) → Moved
write_loop os put [] errno = record { success = true; bytes = put; script = os; errno = errno }
write_loop [] put (x ∷ xs) errno = record { success = false; bytes = put; script = []; errno = eio }
write_loop (fails e ∷ os) put (x ∷ xs) errno =
    let again = write_loop os put (x ∷ xs) e in
    if e == eintr then again else record { success = false; bytes = put; script = os; errno = e }
write_loop (done k ∷ os) put (x ∷ xs) errno =
    let r = moved k (length (x ∷ xs)) in
    write_loop os (put ++ take r (x ∷ xs)) (drop r (x ∷ xs)) errno

-- From the test on st_size on.
read_opened : World → (content : List ℕ) → Option (List ℕ) × World
unfolding syscall read_loop
read_opened w content =
    if ltb max_file_size (length content)
    then (none, set_errno efbig w)
    else let (allocated, w1) = syscall w in
      let m = read_loop w1.script (length content) [] content w1.errno in
      let w2 = record w1 { script = m.script; errno = m.errno } in
      if allocated
      then (if m.success then some m.bytes else none, w2)
      else (none, set_errno enomem w1)

unfoldable pub read_all_file : (full_path : List ℕ) → World → Option (List ℕ) × World
unfolding syscall read_opened
read_all_file path w =
    let (opened, w1) = syscall w in
    let (stat, w2) = syscall w1 in
    if not opened then (none, w1) else elim (w.files (place path)) [
      | none ↦ (none, set_errno enoent w1)
      | some content ↦ if not stat then (none, w2) else read_opened w2 content
    ]

unfoldable pub mkdir : World → List ℕ → Mkdir × World
unfolding syscall
mkdir w path =
    let (success, w1) = syscall w in
    if success then (made, w1) else if w1.errno == eexist then (exists, w1) else (failed, w1)

-- An early return with -1 unless the step before succeeds.
abbrev pub after : Bool × World → (World → Bool × World) → Bool × World
after (true, w) k = k w
after (false, w) k = (false, w)

write_bytes : List ℕ → (bytes : List ℕ) → World → Bool × World
unfolding write_loop
write_bytes path bytes w =
    let m = write_loop w.script [] bytes w.errno in
    (
      m.success,
      record w {
        files = put_file w.files (place path) (some m.bytes);
        script = m.script;
        errno = m.errno;
      },
    )

-- `open` with O_TRUNC, the `while` over `write`, `fsync` and `close`.
write_opened : List ℕ → (bytes : List ℕ) → World → Bool × World
unfolding syscall write_bytes
write_opened path bytes w =
    after (syscall w) (λ w1. after (write_bytes path bytes w1) (λ w2. after (syscall w2) syscall))

unfoldable pub write_all_file : (full_path bytes : List ℕ) → World → Bool × World
unfolding path_ensure_parent_dirs mkdir write_opened
write_all_file path bytes w =
    after (path_ensure_parent_dirs mkdir path_max path w) (write_opened path bytes)
