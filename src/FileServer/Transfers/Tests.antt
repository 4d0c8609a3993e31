-- ===== src/FileServer/Transfers/Tests.antt =====
-- A file is copied, onto another and onto a second spelling of its path, and goes through COMPRESS and
-- DECOMPRESS.
use ncsc210_g.Base.{
  ℕ, ◌≡◌, refl, true, none, some, List, [], ◌∷◌, if◌then◌else◌, replicate, codes, bytes_eq,
}
use ncsc210_g.FileServer.Path.Places.{Place, place, place_eq}
use ncsc210_g.FileServer.Path.{path_build}
use ncsc210_g.FileServer.Logger.{logger_init}
use ncsc210_g.FileServer.Locked.{log_all}
use ncsc210_g.FileServer.Locks.{Chance}
use ncsc210_g.FileServer.Disk.{path_max, done, World, put_file}
use ncsc210_g.FileServer.Ops.Contents.{reply_of, fresh, Beside}
use ncsc210_g.FileServer.Transfers.{op_copyfile, op_compress, op_decompress}
use ncsc210_g.FileServer.Transfers.Contents.{decompress-compress-files}
use ncsc210_g.FileServer.Transfers.Copying.{op_copyfile-ok}

abbrev dir : List ℕ
dir = codes "d"

abbrev always : List ℕ → Chance
always path = record { calloc = true; strdup = true; rwlock_init = true; lock = true }

abbrev text_of : ℕ → List ℕ
text_of e = codes "error"

abbrev start : World
start = record {
  files = λ path. if place_eq (codes "a" ∷ codes "d" ∷ []) path then some (codes "aaab") else none;
  client = codes "c";
  log_calls = replicate 4 (record { opens = true; put = 200; ts = codes "now" });
  script = replicate 20 (done 3);
  errno = 0;
  locks = record { registry = []; held = [] };
  trace = [];
}

-- A copy onto another spelling of the path replies OK, and leaves the file empty.
op_copyfile-ok_example :
    (src dst content : List ℕ) × (path_build dir (codes "a") path_max ≡ some src)
    × (path_build dir (codes "./a") path_max ≡ some dst)
    × (start.files (place src) ≡ some content)
    × ((q : Place)
        → Beside dir q
        → (op_copyfile dir always text_of (codes "a") (codes "./a") (fresh start)).files q
          ≡ put_file start.files
              (place dst)
              (some (if place_eq (place dst) (place src) then [] else content))
              q)
unfolding op_copyfile bytes_eq reply_of place place_eq log_all
op_copyfile-ok_example = op_copyfile-ok dir always text_of (codes "a") (codes "./a") start refl

emptied :
    (op_copyfile dir always text_of (codes "a") (codes "./a") (fresh start)).files
      (place (codes "d/a"))
    ≡ some []
unfolding op_copyfile bytes_eq place place_eq log_all logger_init
emptied = refl

copied_to_b :
    (op_copyfile dir always text_of (codes "a") (codes "b") (fresh start)).files
      (place (codes "d/b"))
    ≡ some (codes "aaab")
unfolding op_copyfile bytes_eq place place_eq log_all logger_init
copied_to_b = refl

abbrev compressed : World
unfolding op_compress bytes_eq place place_eq log_all logger_init
compressed = record (op_compress dir always text_of (codes "a") (codes "a.rle") (fresh start)) {
  script = replicate 20 (done 3);
}

decompress-compress-files_example :
    (src out packed : List ℕ) × (path_build dir (codes "a") path_max ≡ some src)
    × (path_build dir (codes "c") path_max ≡ some out)
    × ((q : Place)
        → Beside dir q
        → (op_decompress dir always text_of (codes "a.rle") (codes "c") (fresh compressed)).files q
          ≡ put_file
              (put_file start.files (place (codes "d/a.rle")) (some packed))
              (place out)
              (start.files (place src))
              q)
unfolding op_compress op_decompress bytes_eq reply_of compressed path_build place place_eq log_all
    logger_init
decompress-compress-files_example =
    decompress-compress-files dir always text_of (codes "a") (codes "a.rle") (codes "d/a.rle")
      (codes "c") start compressed refl refl refl refl refl
