-- ===== src/FileServer/Dispatch/Handlers.antt =====
-- The commands of server.c, each with what its handler replies.
use ncsc210_g.Base.{
  ℕ, suc, ◌+◌, ◌≡◌, refl, ap, ◌∙◌, Option, none, some, List, [], ◌∷◌, ◌++◌, arith, ℤ, pos, negsuc,
  codes,
}
use ncsc210_g.FileServer.Path.{derive_compress_dst, derive_decompress_dst}
use ncsc210_g.FileServer.Resp.{cstr, parse_int}
use ncsc210_g.FileServer.Reply.{Reply, simple, error, bulk}
use ncsc210_g.FileServer.Disk.{path_max, Action, logged, replied, World}
use ncsc210_g.FileServer.Locked.Served.{OneEach, Served}
use ncsc210_g.FileServer.Ops.Serves.{
  getfile-Served, setfile-Served, delfile-Served, renamefile-Served,
}
use ncsc210_g.FileServer.Transfers.Serves.{copyfile-Served, compress-Served, decompress-Served}
use ncsc210_g.FileServer.Reports.Serves.{logs-Served, statfile-Served}
use ncsc210_g.FileServer.Dispatch.{
  Server, say, complain, ping, getfile, setfile, delfile, renamefile, copyfile, statfile,
  logs_limit, logs, compress_to, compress, decompress_to, decompress,
}

unfoldable pub replies : List Action → ℕ
replies [] = 0
replies (replied r ∷ more) = suc (replies more)
replies (logged op path status message ∷ more) = replies more

pub replies-append : (xs ys : List Action) → replies (xs ++ ys) ≡ replies xs + replies ys
unfolding replies
replies-append [] ys = omega arith
replies-append (replied r ∷ xs) ys = omega (arith, replies-append xs ys)
replies-append (logged a b c d ∷ xs) ys = replies-append xs ys

-- What a request gets: `n` replies, and the locks as before.
pub record Answered (n : ℕ) (w w' : World) : Type 0 where
  pub held_same : w'.locks.held ≡ w.locks.held
  pub count_grows : replies w'.trace ≡ replies w.trace + n

pub OneEach-replies : (actions : List Action) → OneEach actions → replies actions ≡ 1
unfolding replies
OneEach-replies (logged a b c d ∷ replied r ∷ []) h = refl
OneEach-replies (replied r ∷ logged a b c d ∷ []) h = refl
OneEach-replies [] h = absurd h
OneEach-replies (logged a b c d ∷ []) h = absurd h
OneEach-replies (replied r ∷ []) h = absurd h
OneEach-replies (logged a b c d ∷ logged a' b' c' d' ∷ more) h = absurd h
OneEach-replies (replied r ∷ replied r' ∷ more) h = absurd h
OneEach-replies (logged a b c d ∷ replied r ∷ x ∷ more) h = absurd h
OneEach-replies (replied r ∷ logged a b c d ∷ x ∷ more) h = absurd h

pub Served-Answered : (w w' : World) → Served w w' → Answered 1 w w'
Served-Answered w w' h = record {
  held_same = h.held_same;
  count_grows =
      ap replies h.trace_grows
      ∙ replies-append w.trace h.actions
      ∙ ap (λ n. replies w.trace + n) (OneEach-replies h.actions h.one_each);
}

pub say-Answered : (r : Reply) (w : World) → Answered 1 w (say r w)
unfolding replies
say-Answered r w = record {
  held_same = refl;
  count_grows = replies-append w.trace (replied r ∷ []);
}

pub none_served : (w : World) → Answered 0 w w
none_served w = record { held_same = refl; count_grows = omega arith }

pub one_more :
    (w w1 w2 : World) (n : ℕ) → Answered 1 w w1 → Answered n w1 w2 → Answered (suc n) w w2
one_more w w1 w2 n a b = record {
  held_same = b.held_same ∙ a.held_same;
  count_grows = omega (arith, a.count_grows, b.count_grows);
}

-- A handler that answers whatever it is given.
abbrev pub Answers : (List (List ℕ) → World → World) → Type 0
Answers handler = (args : List (List ℕ)) (w : World) → Answered 1 w (handler args w)

-- A refusal of a wrong number of arguments or of an unknown command.
pub complain-Answered : (message : List ℕ) (w : World) → Answered 1 w (complain message w)
complain-Answered message w = say-Answered (error message) w

module _ (s : Server) where
  pub ping-Answers : Answers (ping s)
  unfolding ping
  ping-Answers [] w = say-Answered (simple (codes "PONG")) w
  ping-Answers (x ∷ xs) w = say-Answered (bulk x) w

  pub getfile-Answers : Answers (getfile s)
  unfolding getfile
  getfile-Answers (p ∷ []) w =
      Served-Answered w _ (getfile-Served s.data_dir s.chance s.strerror (cstr p) w)
  getfile-Answers [] w = complain-Answered (codes "wrong number of arguments for GETFILE") w
  getfile-Answers (p ∷ q ∷ more) w =
      complain-Answered (codes "wrong number of arguments for GETFILE") w

  pub setfile-Answers : Answers (setfile s)
  unfolding setfile
  setfile-Answers (p ∷ b ∷ []) w =
      Served-Answered w _ (setfile-Served s.data_dir s.chance s.strerror (cstr p) b w)
  setfile-Answers [] w = complain-Answered (codes "wrong number of arguments for SETFILE") w
  setfile-Answers (p ∷ []) w = complain-Answered (codes "wrong number of arguments for SETFILE") w
  setfile-Answers (p ∷ q ∷ r ∷ more) w =
      complain-Answered (codes "wrong number of arguments for SETFILE") w

  pub delfile-Answers : Answers (delfile s)
  unfolding delfile
  delfile-Answers (p ∷ []) w =
      Served-Answered w _ (delfile-Served s.data_dir s.chance s.strerror (cstr p) w)
  delfile-Answers [] w = complain-Answered (codes "wrong number of arguments for DELFILE") w
  delfile-Answers (p ∷ q ∷ more) w =
      complain-Answered (codes "wrong number of arguments for DELFILE") w

  pub statfile-Answers : Answers (statfile s)
  unfolding statfile
  statfile-Answers (p ∷ []) w =
      Served-Answered w _ (statfile-Served s.data_dir s.chance s.strerror s.stat_text (cstr p) w)
  statfile-Answers [] w = complain-Answered (codes "wrong number of arguments for STATFILE") w
  statfile-Answers (p ∷ q ∷ more) w =
      complain-Answered (codes "wrong number of arguments for STATFILE") w

  pub renamefile-Answers : Answers (renamefile s)
  unfolding renamefile
  renamefile-Answers (p ∷ q ∷ []) w =
      Served-Answered w _ (renamefile-Served s.data_dir s.chance s.strerror (cstr p) (cstr q) w)
  renamefile-Answers [] w = complain-Answered (codes "wrong number of arguments for RENAMEFILE") w
  renamefile-Answers (p ∷ []) w =
      complain-Answered (codes "wrong number of arguments for RENAMEFILE") w
  renamefile-Answers (p ∷ q ∷ r ∷ more) w =
      complain-Answered (codes "wrong number of arguments for RENAMEFILE") w

  pub copyfile-Answers : Answers (copyfile s)
  unfolding copyfile
  copyfile-Answers (p ∷ q ∷ []) w =
      Served-Answered w _ (copyfile-Served s.data_dir s.chance s.strerror (cstr p) (cstr q) w)
  copyfile-Answers [] w = complain-Answered (codes "wrong number of arguments for COPYFILE") w
  copyfile-Answers (p ∷ []) w = complain-Answered (codes "wrong number of arguments for COPYFILE") w
  copyfile-Answers (p ∷ q ∷ r ∷ more) w =
      complain-Answered (codes "wrong number of arguments for COPYFILE") w

  logs_limit-Answers : (limit : Option ℤ) (w : World) → Answered 1 w (logs_limit s limit w)
  unfolding logs_limit
  logs_limit-Answers (some (pos n)) w =
      Served-Answered w _ (logs-Served s.data_dir s.log_io s.log_error (pos n) w)
  logs_limit-Answers (some (negsuc n)) w =
      complain-Answered (codes "LOGS limit must be non-negative integer") w
  logs_limit-Answers none w = complain-Answered (codes "LOGS limit must be non-negative integer") w

  pub logs-Answers : Answers (logs s)
  unfolding logs
  logs-Answers [] w = Served-Answered w _ (logs-Served s.data_dir s.log_io s.log_error (pos 20) w)
  logs-Answers (x ∷ []) w = logs_limit-Answers (parse_int x) w
  logs-Answers (x ∷ y ∷ more) w = complain-Answered (codes "wrong number of arguments for LOGS") w

  compress_to-Answers :
      (src : List ℕ) (dst : Option (List ℕ)) (w : World) → Answered 1 w (compress_to s src dst w)
  unfolding compress_to
  compress_to-Answers src none w = complain-Answered (codes "unable to build destination path") w
  compress_to-Answers src (some dst) w =
      Served-Answered w _ (compress-Served s.data_dir s.chance s.strerror src dst w)

  pub compress-Answers : Answers (compress s)
  unfolding compress
  compress-Answers (p ∷ []) w =
      compress_to-Answers (cstr p) (derive_compress_dst (cstr p) path_max) w
  compress-Answers (p ∷ q ∷ []) w = compress_to-Answers (cstr p) (some (cstr q)) w
  compress-Answers [] w = complain-Answered (codes "wrong number of arguments for COMPRESS") w
  compress-Answers (p ∷ q ∷ r ∷ more) w =
      complain-Answered (codes "wrong number of arguments for COMPRESS") w

  decompress_to-Answers :
      (src : List ℕ) (dst : Option (List ℕ)) (w : World) → Answered 1 w (decompress_to s src dst w)
  unfolding decompress_to
  decompress_to-Answers src none w = complain-Answered (codes "unable to build destination path") w
  decompress_to-Answers src (some dst) w =
      Served-Answered w _ (decompress-Served s.data_dir s.chance s.strerror src dst w)

  pub decompress-Answers : Answers (decompress s)
  unfolding decompress
  decompress-Answers (p ∷ []) w =
      decompress_to-Answers (cstr p) (derive_decompress_dst (cstr p) path_max) w
  decompress-Answers (p ∷ q ∷ []) w = decompress_to-Answers (cstr p) (some (cstr q)) w
  decompress-Answers [] w = complain-Answered (codes "wrong number of arguments for DECOMPRESS") w
  decompress-Answers (p ∷ q ∷ r ∷ more) w =
      complain-Answered (codes "wrong number of arguments for DECOMPRESS") w
