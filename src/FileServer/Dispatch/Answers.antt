-- ===== src/FileServer/Dispatch/Answers.antt =====
-- Every request that server.c dispatches is answered with exactly one reply, and leaves the thread
-- with the locks that it held before.
use ncsc210_g.Base.{
  ℕ, zero, suc, inl, inr, Bool, Option, none, some, List, [], ◌∷◌, Bool-cases, codes,
}
use ncsc210_g.FileServer.Resp.{Event, cstr, resp_read_array}
use ncsc210_g.FileServer.Disk.{World}
use ncsc210_g.FileServer.Dispatch.{
  same_command, Server, dispatch_to, handlers, dispatch_command, serve, thread_round, client_thread,
}
use ncsc210_g.FileServer.Dispatch.Handlers.{
  Answered, none_served, one_more, Answers, complain-Answered, ping-Answers, getfile-Answers,
  setfile-Answers, delfile-Answers, statfile-Answers, renamefile-Answers, copyfile-Answers,
  logs-Answers, compress-Answers, decompress-Answers,
}

module _ (s : Server) where
  abbrev AllAnswer : List (List ℕ × (List (List ℕ) → World → World)) → Type 0
  AllAnswer [] = Unit
  AllAnswer ((name, handler) ∷ more) = Answers handler × AllAnswer more

  dispatch_to-Answers :
      (table : List (List ℕ × (List (List ℕ) → World → World))) (cmd : List ℕ)
      → AllAnswer table
      → Answers (dispatch_to s table cmd)
  unfolding dispatch_to
  dispatch_to-Answers [] cmd h args w = complain-Answered (codes "unknown command") w
  dispatch_to-Answers ((name, handler) ∷ more) cmd (h, hs) args w =
      elim (Bool-cases (same_command cmd name)) [
        | inl e ↦ rw e (h args w)
        | inr e ↦ rw e (dispatch_to-Answers more cmd hs args w)
      ]

  -- A request, whatever it asks for and however it goes, is answered with exactly one reply, and
  -- leaves the thread with the locks that it held before.
  pub serve-Answered : (request : List (List ℕ)) (w : World) → Answered 1 w (serve s request w)
  unfolding serve dispatch_command handlers
  serve-Answered [] w = complain-Answered (codes "empty command") w
  serve-Answered (cmd ∷ args) w =
      dispatch_to-Answers (handlers s) (cstr cmd)
        (
          ping-Answers s,
          (
            getfile-Answers s,
            (
              setfile-Answers s,
              (
                delfile-Answers s,
                (
                  renamefile-Answers s,
                  (
                    copyfile-Answers s,
                    (
                      statfile-Answers s,
                      (logs-Answers s, (compress-Answers s, (decompress-Answers s, tt))),
                    ),
                  ),
                ),
              ),
            ),
          ),
        )
        args w

  thread_round-Answered :
      (got : Option (List (List ℕ) × List Event)) (next : List Event → World → ℕ × World)
      (w : World)
      → ((es : List Event) (w : World) → Answered (next es w).0 w (next es w).1)
      → Answered (thread_round s got next w).0 w (thread_round s got next w).1
  unfolding thread_round
  thread_round-Answered none next w h = none_served w
  thread_round-Answered (some (req, es)) next w h =
      let w1 = serve s req w in
      one_more w w1 (next es w1).1 (next es w1).0 (serve-Answered req w) (h es w1)

  -- client_thread answers each request that it serves with exactly one reply, and ends with the
  -- locks with which it began.
  pub client_thread-Answered :
      (malloc : ℕ → Bool) (rounds : ℕ) (es : List Event) (w : World)
      → Answered (client_thread s malloc rounds es w).0 w (client_thread s malloc rounds es w).1
  unfolding client_thread
  client_thread-Answered malloc zero es w = none_served w
  client_thread-Answered malloc (suc rounds) es w =
      thread_round-Answered (resp_read_array malloc es) (client_thread s malloc rounds) w
        (λ es1 w1. client_thread-Answered malloc rounds es1 w1)
