-- ===== src/FileServer/Dispatch/Tests.antt =====
-- A client that sends a PING and an unknown command.
use ncsc210_g.Base.{ℕ, ◌≡◌, refl, true, none, List, [], ◌∷◌, ◌++◌, replicate, codes}
use ncsc210_g.FileServer.LogTail.{missing}
use ncsc210_g.FileServer.Resp.{Event, chunk}
use ncsc210_g.FileServer.Disk.{done, World}
use ncsc210_g.FileServer.Dispatch.{Server, client_thread}
use ncsc210_g.FileServer.Dispatch.Handlers.{Answered}
use ncsc210_g.FileServer.Dispatch.Answers.{client_thread-Answered}

abbrev server : Server
server = record {
  data_dir = codes "d";
  chance = λ path. record { calloc = true; strdup = true; rwlock_init = true; lock = true };
  strerror = λ e. codes "error";
  stat_text = λ path. codes "size=0";
  log_io = λ w. record {
    fopen = missing;
    seek_end = true;
    ftell = true;
    seek_back = true;
    seek_start = true;
    malloc = λ n. true;
  };
  log_error = codes "error";
}

abbrev start : World
start = record {
  files = λ path. none;
  client = codes "c";
  log_calls = replicate 4 (record { opens = true; put = 200; ts = codes "now" });
  script = replicate 20 (done 3);
  errno = 0;
  locks = record { registry = []; held = [] };
  trace = [];
}

abbrev crlf : List ℕ
crlf = 13 ∷ 10 ∷ []

abbrev requests : List Event
requests =
    chunk b'*' (codes "1" ++ crlf ++ codes "$4" ++ crlf)
    ∷ chunk b'p' (codes "ing" ++ crlf)
    ∷ chunk b'*' (codes "1" ++ crlf ++ codes "$2" ++ crlf ++ codes "no" ++ crlf)
    ∷ []

two_served : (client_thread server (λ n. true) 5 requests start).0 ≡ 2
unfolding client_thread
two_served = refl

client_thread-Answered_example :
    Answered 2 start (client_thread server (λ n. true) 5 requests start).1
unfolding client_thread
client_thread-Answered_example = client_thread-Answered server (λ n. true) 5 requests start
