-- ===== src/FileServer/LogTail.antt =====
-- read_log_tail of G16_Project_3/src/file_ops.c: the last lines of the audit log.
mod Tests
pub mod Lines
pub mod Reads
pub mod LastLine
use ncsc210_g.Base.{
  ℕ, zero, suc, ◌+◌, ◌*◌, ◌-◌, Bool, not, ◌&&◌, ◌||◌, List, [], Option, none, some, ℤ, pos, negsuc,
  length, take, drop, get_or, ltb, ◌==◌, if◌then◌else◌,
}

-- What the `fopen` of the log gives: the file's bytes, ENOENT, or another error.
pub data LogFile : Type 0 where
  opened : List ℕ → LogFile
  missing : LogFile
  failed : LogFile

-- The outcomes of the library calls on the way: whether each `fseek` and `ftell` succeeds, and
-- which sizes `malloc` (and `strdup`, with its one byte) can serve.
pub record LogIo : Type 0 where
  pub fopen : LogFile
  pub seek_end : Bool
  pub ftell : Bool
  pub seek_back : Bool
  pub seek_start : Bool
  pub malloc : ℕ → Bool

abbrev pub max_tail : ℕ
max_tail = 1024 * 1024

-- The `for` loop over `i`, from `nread` down: where the last `line_limit` lines start.
pub tail_start : (buf : List ℕ) (line_limit i seen : ℕ) → ℕ
tail_start buf line_limit zero seen = 0
tail_start buf line_limit (suc i) seen =
    let hit = get_or buf i 0 == 10 in
    let next = tail_start buf line_limit i (if hit then seen + 1 else seen) in
    if hit then (if ltb line_limit (seen + 1) then suc i else next) else next

-- Behind `fread`: `buf` is what was read.
trim_to : (malloc : ℕ → Bool) (buf : List ℕ) → ℤ → Option (List ℕ)
trim_to malloc buf (negsuc n) = some buf
trim_to malloc buf (pos zero) = some buf
trim_to malloc buf (pos (suc n)) =
    let start = tail_start buf (suc n) (length buf) 0 in
    if malloc (length buf - start + 1) then some (drop start buf) else none

-- The part of the file that is read: at most `max_tail` bytes, the last ones unless the seek back
-- from the end fails.
pub read_part : Bool → List ℕ → List ℕ
read_part back file =
    let size = if ltb max_tail (length file) then max_tail else length file in
    take size (drop (if back then length file - size else 0) file)

read_opened : LogIo → List ℕ → ℤ → Option (List ℕ)
read_opened io file line_limit =
    let size = if ltb max_tail (length file) then max_tail else length file in
    if not (io.seek_end && io.ftell)
    then none
    else if not (io.seek_back || io.seek_start)
    then none
    else if io.malloc (size + 1)
    then trim_to io.malloc (read_part io.seek_back file) line_limit
    else none

-- `none` is the result -1.
unfoldable pub read_log_tail : LogIo → (line_limit : ℤ) → Option (List ℕ)
unfolding read_opened read_part trim_to tail_start
read_log_tail io line_limit = elim io.fopen [
  | missing ↦ if io.malloc 1 then some [] else none
  | failed ↦ none
  | opened file ↦ read_opened io file line_limit
]
