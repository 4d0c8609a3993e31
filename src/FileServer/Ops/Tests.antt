-- ===== src/FileServer/Ops/Tests.antt =====
-- A file is set, and read back.
use ncsc210_g.Base.{ℕ, ◌≡◌, refl, true, none, List, [], ◌∷◌, replicate, codes, bytes_eq}
use ncsc210_g.FileServer.Path.Places.{place, place_eq}
use ncsc210_g.FileServer.Logger.{logger_init}
use ncsc210_g.FileServer.Path.{path_build}
use ncsc210_g.FileServer.Locked.{log_all}
use ncsc210_g.FileServer.Locks.{Chance}
use ncsc210_g.FileServer.Disk.{Outcome, done, fails, World}
use ncsc210_g.FileServer.Ops.{op_getfile, op_setfile}
use ncsc210_g.FileServer.Ops.Contents.{reply_of, getfile-setfile}

abbrev dir : List ℕ
dir = codes "d"

abbrev always : List ℕ → Chance
always path = record { calloc = true; strdup = true; rwlock_init = true; lock = true }

abbrev text_of : ℕ → List ℕ
text_of e = codes "error"

-- Reads and writes move two bytes at a time, and one is interrupted.
abbrev outcomes : List Outcome
outcomes = done 2 ∷ done 2 ∷ done 2 ∷ fails 4 ∷ replicate 8 (done 2)

abbrev start : World
start = record {
  files = λ path. none;
  client = codes "c";
  log_calls = replicate 4 (record { opens = true; put = 200; ts = codes "now" });
  script = outcomes;
  errno = 0;
  locks = record { registry = []; held = [] };
  trace = [];
}

abbrev hello : List ℕ
hello = codes "hello"

abbrev after_set : World
unfolding op_setfile place place_eq log_all
after_set = record (op_setfile dir always text_of (codes "a/b") hello start) { script = outcomes }

getfile-setfile_example : hello ≡ hello
unfolding op_setfile reply_of op_getfile after_set bytes_eq path_build place place_eq logger_init
    log_all
getfile-setfile_example =
    getfile-setfile dir always text_of (codes "a/b") (codes "d/a/b") hello hello start after_set
      refl refl refl refl refl
