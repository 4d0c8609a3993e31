-- ===== src/FileServer/Dispatch.antt =====
-- dispatch_command and client_thread of G16_Project_3/src/server.c.
mod Tests
pub mod Handlers
pub mod Answers
use ncsc210_g.Base.{
  ℕ, zero, suc, ◌+◌, Bool, ◌&&◌, Option, none, some, List, [], ◌∷◌, ◌++◌, map, leb, if◌then◌else◌,
  ℤ, pos, codes, bytes_eq,
}
use ncsc210_g.FileServer.LogTail.{LogIo}
use ncsc210_g.FileServer.Locks.{Chance}
use ncsc210_g.FileServer.Path.{derive_compress_dst, derive_decompress_dst}
use ncsc210_g.FileServer.Resp.{Event, cstr, parse_int, resp_read_array}
use ncsc210_g.FileServer.Reply.{Reply, simple, error, bulk}
use ncsc210_g.FileServer.Disk.{path_max, replied, World}
use ncsc210_g.FileServer.Ops.{op_getfile, op_setfile, op_delfile, op_renamefile}
use ncsc210_g.FileServer.Transfers.{op_copyfile, op_compress, op_decompress}
use ncsc210_g.FileServer.Reports.{op_statfile, op_logs}

abbrev to_lower : ℕ → ℕ
to_lower c = if leb 65 c && leb c 90 then c + 32 else c

-- strcasecmp(a, b) == 0
same_command : (a b : List ℕ) → Bool
unfolding bytes_eq
same_command a b = bytes_eq (map to_lower a) (map to_lower b)

-- What the program around the operations gives them.
pub record Server : Type 0 where
  pub data_dir : List ℕ
  pub chance : List ℕ → Chance
  pub strerror : ℕ → List ℕ
  pub stat_text : List ℕ → List ℕ
  pub log_io : World → LogIo
  pub log_error : List ℕ

abbrev pub say : Reply → World → World
say r w = record w { trace = w.trace ++ (replied r ∷ []) }

abbrev pub complain : List ℕ → World → World
complain message w = say (error message) w

module _ (s : Server) where
  -- Each handler gets the items behind the command, as C strings but for the bytes of SETFILE.
  pub ping : List (List ℕ) → World → World
  ping [] w = say (simple (codes "PONG")) w
  ping (x ∷ xs) w = say (bulk x) w

  pub getfile : List (List ℕ) → World → World
  unfolding cstr op_getfile
  getfile (p ∷ []) w = op_getfile s.data_dir s.chance s.strerror (cstr p) w
  getfile _ w = complain (codes "wrong number of arguments for GETFILE") w

  pub setfile : List (List ℕ) → World → World
  unfolding cstr op_setfile
  setfile (p ∷ b ∷ []) w = op_setfile s.data_dir s.chance s.strerror (cstr p) b w
  setfile _ w = complain (codes "wrong number of arguments for SETFILE") w

  pub delfile : List (List ℕ) → World → World
  unfolding cstr op_delfile
  delfile (p ∷ []) w = op_delfile s.data_dir s.chance s.strerror (cstr p) w
  delfile _ w = complain (codes "wrong number of arguments for DELFILE") w

  pub renamefile : List (List ℕ) → World → World
  unfolding cstr op_renamefile
  renamefile (p ∷ q ∷ []) w = op_renamefile s.data_dir s.chance s.strerror (cstr p) (cstr q) w
  renamefile _ w = complain (codes "wrong number of arguments for RENAMEFILE") w

  pub copyfile : List (List ℕ) → World → World
  unfolding cstr op_copyfile
  copyfile (p ∷ q ∷ []) w = op_copyfile s.data_dir s.chance s.strerror (cstr p) (cstr q) w
  copyfile _ w = complain (codes "wrong number of arguments for COPYFILE") w

  pub statfile : List (List ℕ) → World → World
  unfolding cstr op_statfile
  statfile (p ∷ []) w = op_statfile s.data_dir s.chance s.strerror s.stat_text (cstr p) w
  statfile _ w = complain (codes "wrong number of arguments for STATFILE") w

  -- The limit that is given; parse_int_arg is the same code as parse_int of resp.c.
  logs_limit : Option ℤ → World → World
  unfolding op_logs
  logs_limit (some (pos n)) w = op_logs s.data_dir s.log_io s.log_error (pos n) w
  logs_limit _ w = complain (codes "LOGS limit must be non-negative integer") w

  pub logs : List (List ℕ) → World → World
  unfolding op_logs parse_int logs_limit
  logs [] w = op_logs s.data_dir s.log_io s.log_error (pos 20) w
  logs (x ∷ []) w = logs_limit (parse_int x) w
  logs _ w = complain (codes "wrong number of arguments for LOGS") w

  compress_to : (src : List ℕ) → Option (List ℕ) → World → World
  unfolding op_compress
  compress_to src none w = complain (codes "unable to build destination path") w
  compress_to src (some dst) w = op_compress s.data_dir s.chance s.strerror src dst w

  pub compress : List (List ℕ) → World → World
  unfolding cstr derive_compress_dst compress_to
  compress (p ∷ []) w = compress_to (cstr p) (derive_compress_dst (cstr p) path_max) w
  compress (p ∷ q ∷ []) w = compress_to (cstr p) (some (cstr q)) w
  compress _ w = complain (codes "wrong number of arguments for COMPRESS") w

  decompress_to : (src : List ℕ) → Option (List ℕ) → World → World
  unfolding op_decompress
  decompress_to src none w = complain (codes "unable to build destination path") w
  decompress_to src (some dst) w = op_decompress s.data_dir s.chance s.strerror src dst w

  pub decompress : List (List ℕ) → World → World
  unfolding cstr derive_decompress_dst decompress_to
  decompress (p ∷ []) w = decompress_to (cstr p) (derive_decompress_dst (cstr p) path_max) w
  decompress (p ∷ q ∷ []) w = decompress_to (cstr p) (some (cstr q)) w
  decompress _ w = complain (codes "wrong number of arguments for DECOMPRESS") w

  -- The chain of comparisons, from the first one on.
  pub dispatch_to :
      List (List ℕ × (List (List ℕ) → World → World))
      → (cmd : List ℕ) → List (List ℕ)
      → World
      → World
  unfolding same_command
  dispatch_to [] cmd args w = complain (codes "unknown command") w
  dispatch_to ((name, handler) ∷ more) cmd args w =
      let next = dispatch_to more cmd args w in
      if same_command cmd name then handler args w else next

  pub handlers : List (List ℕ × (List (List ℕ) → World → World))
  unfolding ping getfile setfile delfile renamefile copyfile statfile logs compress decompress
  handlers =
      (codes "PING", ping)
      ∷ (codes "GETFILE", getfile)
      ∷ (codes "SETFILE", setfile)
      ∷ (codes "DELFILE", delfile)
      ∷ (codes "RENAMEFILE", renamefile)
      ∷ (codes "COPYFILE", copyfile)
      ∷ (codes "STATFILE", statfile)
      ∷ (codes "LOGS", logs)
      ∷ (codes "COMPRESS", compress)
      ∷ (codes "DECOMPRESS", decompress)
      ∷ []

  unfoldable pub dispatch_command : (cmd : List ℕ) (args : List (List ℕ)) → World → World
  unfolding cstr dispatch_to handlers
  dispatch_command cmd args w = dispatch_to handlers (cstr cmd) args w

  -- One round of the loop of client_thread on a request. A request without an item is answered with
  -- an error.
  unfoldable pub serve : List (List ℕ) → World → World
  unfolding dispatch_command
  serve [] w = complain (codes "empty command") w
  serve (cmd ∷ args) w = dispatch_command cmd args w

  -- A round of the loop of client_thread on what resp_read_array returns, and the rounds behind it.
  thread_round :
      Option (List (List ℕ) × List Event) → (List Event → World → ℕ × World) → World → ℕ × World
  unfolding serve
  thread_round none next w = (0, w)
  thread_round (some (req, es)) next w = let (n, w1) = next es (serve req w) in (suc n, w1)

  -- The loop, for at most so many requests (until g_stop is set): how many were served, and the
  -- world that they leave.
  unfoldable pub client_thread : (malloc : ℕ → Bool) (rounds : ℕ) → List Event → World → ℕ × World
  unfolding resp_read_array thread_round
  client_thread malloc zero es w = (0, w)
  client_thread malloc (suc rounds) es w =
      thread_round (resp_read_array malloc es) (client_thread malloc rounds) w
