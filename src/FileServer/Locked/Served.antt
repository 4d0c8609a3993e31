-- ===== src/FileServer/Locked/Served.antt =====
-- Every operation that begins and ends as in with_lock or with_locks2 gives back its locks, logs
-- one line and sends one reply.
use ncsc210_g.Base.{ℕ, ◌≡◌, refl, Bool, Option, none, some, List, [], ◌∷◌, ◌++◌, codes}
use ncsc210_g.FileServer.Locks.{Mode, Locks, Chance, locks_acquire, locks_acquire_two_write}
use ncsc210_g.FileServer.Locks.Order.{
  Acquired, locks_acquire-Acquired, unlock_head, TwoHeld, acquire_two_lem,
}
use ncsc210_g.FileServer.Path.{path_build}
use ncsc210_g.FileServer.Reply.{Reply, error}
use ncsc210_g.FileServer.Disk.{path_max, Action, logged, replied, World}
use ncsc210_g.FileServer.Locked.{
  act, with_locks, answer, Body, Body2, release_act, locked, on_path, with_lock, release_two_act,
  locked2, on_paths2, with_locks2,
}

-- One line in the log and one reply, in either order.
abbrev pub OneEach : List Action → Type 0
OneEach (logged op path status message ∷ replied r ∷ []) = Unit
OneEach (replied r ∷ logged op path status message ∷ []) = Unit
OneEach _ = ⊥

-- What an operation promises whatever happens: the thread holds the locks it held before, and the
-- trace has grown by one line in the log and one reply.
pub record Served (w w' : World) : Type 0 where
  pub actions : List Action
  pub held_same : w'.locks.held ≡ w.locks.held
  pub trace_grows : w'.trace ≡ w.trace ++ actions
  pub one_each : OneEach actions

-- What is asked of a body.
pub record Tidy (w : World) (r : World × List Action) : Type 0 where
  pub locks_same : r.0.locks ≡ w.locks
  pub trace_same : r.0.trace ≡ w.trace
  pub one_each : OneEach r.1

module _ (data_dir : List ℕ) (chance : List ℕ → Chance) where
  locked-Served :
      (mode : Mode) (op rel full : List ℕ) (body : Body) (w : World)
      → ((full : List ℕ) (w : World) → Tidy w (body full w))
      → (got : Option ℕ × Locks) → Acquired w.locks mode full got
      → Served w (locked data_dir chance op rel full body w got)
  unfolding locked release_act
  locked-Served mode op rel full body w tidy (none, s) h = record {
    actions =
        answer op rel (codes "ERR") (codes "lock failure") (error (codes "internal lock error"));
    held_same = h;
    trace_grows = refl;
    one_each = tt;
  }
  locked-Served mode op rel full body w tidy (some i, s) (h, f) =
      let t = tidy full (with_locks s w) in
      record {
        actions = (body full (with_locks s w)).1;
        held_same = rw (t.locks_same, h) (unlock_head i mode w.locks.held);
        trace_grows = rw t.trace_same refl;
        one_each = t.one_each;
      }

  refused :
      (w : World) (op rel status message : List ℕ) (r : Reply)
      → Served w (act data_dir (answer op rel status message r) w)
  refused w op rel status message r = record {
    actions = answer op rel status message r;
    held_same = refl;
    trace_grows = refl;
    one_each = tt;
  }

  on_path-Served :
      (mode : Mode) (op rel : List ℕ) (body : Body) (w : World)
      → ((full : List ℕ) (w : World) → Tidy w (body full w))
      → (path : Option (List ℕ)) → Served w (on_path data_dir chance mode op rel body w path)
  unfolding on_path
  on_path-Served mode op rel body w tidy none =
      refused w op rel (codes "ERR") (codes "invalid path") (error (codes "invalid path"))
  on_path-Served mode op rel body w tidy (some full) =
      locked-Served mode op rel full body w tidy (locks_acquire (chance full) mode w.locks full)
        (locks_acquire-Acquired (chance full) mode w.locks full)

  pub with_lock-Served :
      (mode : Mode) (op rel : List ℕ) (body : Body) (w : World)
      → ((full : List ℕ) (w : World) → Tidy w (body full w))
      → Served w (with_lock data_dir chance mode op rel body w)
  unfolding with_lock
  with_lock-Served mode op rel body w tidy =
      on_path-Served mode op rel body w tidy (path_build data_dir rel path_max)

  locked2-Served :
      (op src_rel src dst : List ℕ) (body : Body2) (w : World)
      → ((src dst : List ℕ) (w : World) → Tidy w (body src dst w))
      → (got : Option (ℕ × ℕ × Bool) × Locks) → TwoHeld w.locks src dst got
      → Served w (locked2 data_dir chance op src_rel src dst body w got)
  unfolding locked2 release_two_act
  locked2-Served op src_rel src dst body w tidy (none, s) h = record {
    actions =
        answer op src_rel (codes "ERR") (codes "lock failure")
          (error (codes "internal lock error"));
    held_same = h;
    trace_grows = refl;
    one_each = tt;
  }
  locked2-Served op src_rel src dst body w tidy (some (i, j, same), s) h =
      let t = tidy src dst (with_locks s w) in
      record {
        actions = (body src dst (with_locks s w)).1;
        held_same = rw t.locks_same h.4;
        trace_grows = rw t.trace_same refl;
        one_each = t.one_each;
      }

  on_paths2-Served :
      (op shown src_rel : List ℕ) (body : Body2) (w : World)
      → ((src dst : List ℕ) (w : World) → Tidy w (body src dst w))
      → (src dst : Option (List ℕ))
      → Served w (on_paths2 data_dir chance op shown src_rel body w src dst)
  unfolding on_paths2
  on_paths2-Served op shown src_rel body w tidy none dst =
      refused w op shown (codes "ERR") (codes "invalid path") (error (codes "invalid path"))
  on_paths2-Served op shown src_rel body w tidy (some src) none =
      refused w op shown (codes "ERR") (codes "invalid path") (error (codes "invalid path"))
  on_paths2-Served op shown src_rel body w tidy (some src) (some dst) =
      locked2-Served op src_rel src dst body w tidy (locks_acquire_two_write chance w.locks src dst)
        (acquire_two_lem chance w.locks src dst)

  pub with_locks2-Served :
      (op shown src_rel dst_rel : List ℕ) (body : Body2) (w : World)
      → ((src dst : List ℕ) (w : World) → Tidy w (body src dst w))
      → Served w (with_locks2 data_dir chance op shown src_rel dst_rel body w)
  unfolding with_locks2
  with_locks2-Served op shown src_rel dst_rel body w tidy =
      on_paths2-Served op shown src_rel body w tidy (path_build data_dir src_rel path_max)
        (path_build data_dir dst_rel path_max)
