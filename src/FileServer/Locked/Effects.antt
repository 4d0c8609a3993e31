-- ===== src/FileServer/Locked/Effects.antt =====
-- What an operation that begins and ends as in with_lock or with_locks2 does to the files
-- beside the log: nothing, or what its body does.
use ncsc210_g.Base.{
  ℕ, ◌≡◌, refl, ◌∙◌, ◌⊎◌, inl, inr, Bool, false, Option, none, some, List, [], ◌∷◌, ◌++◌, codes,
}
use ncsc210_g.FileServer.Path.Places.{Place, place_eq}
use ncsc210_g.FileServer.Path.{path_build}
use ncsc210_g.FileServer.Locks.{Mode, Locks, Chance, locks_acquire, locks_acquire_two_write}
use ncsc210_g.FileServer.Reply.{error}
use ncsc210_g.FileServer.Disk.{path_max, Action, logged, replied, LogCall, Files, World}
use ncsc210_g.FileServer.Locked.{
  log_place, log_all, act, with_locks, answer, Body, Body2, release_act, locked, on_path, with_lock,
  release_two_act, locked2, on_paths2, with_locks2,
}

-- The operation stops with an error of its own.
pub record Refused (op shown : List ℕ) (w w' : World) : Type 0 where
  pub detail : List ℕ
  pub message : List ℕ
  pub trace_is : w'.trace ≡ w.trace ++ answer op shown (codes "ERR") detail (error message)

-- Only the log is written to.
log_all-beside :
    (log q : Place) (client : List ℕ) (actions : List Action) (calls : List LogCall) (files : Files)
    → place_eq log q ≡ false
    → (log_all log client actions calls files).0 q ≡ files q
unfolding log_all
log_all-beside log q client [] calls files h = refl
log_all-beside log q client (replied r ∷ more) calls files h =
    log_all-beside log q client more calls files h
log_all-beside log q client (logged op path status message ∷ more) [] files h =
    log_all-beside log q client more [] files h
log_all-beside log q client (logged op path status message ∷ more) (c ∷ cs) files h =
    log_all-beside log q client more cs _ h ∙ rw h refl

-- The operation ends as its body does, and its lines go to the log.
pub record Ran (data_dir : List ℕ) (w' : World) (r : World × List Action) : Type 0 where
  pub files_beside :
      (q : Place) → place_eq (log_place data_dir) q ≡ false → w'.files q ≡ r.0.files q
  pub trace_is : w'.trace ≡ r.0.trace ++ r.1

module _ (data_dir : List ℕ) (chance : List ℕ → Chance) where
  abbrev pub Effect : (op rel : List ℕ) → Body → (w w' : World) → Option (List ℕ) → Type 0
  Effect op rel body w w' path =
      Refused op rel w w'
      ⊎ ((full : List ℕ) × (s : Locks) × (path ≡ some full)
          × Ran data_dir w' (body full (with_locks s w)))

  locked-Effect :
      (op rel full : List ℕ) (body : Body) (w : World) (got : Option ℕ × Locks)
      → Effect op rel body w (locked data_dir chance op rel full body w got) (some full)
  unfolding locked release_act
  locked-Effect op rel full body w (none, s) = inl (record {
    detail = codes "lock failure";
    message = codes "internal lock error";
    trace_is = refl;
  })
  locked-Effect op rel full body w (some i, s) =
      let (w1, actions) = body full (with_locks s w) in
      inr (
        full,
        s,
        refl,
        record {
          files_beside = λ q h.
              log_all-beside (log_place data_dir) q w1.client actions w1.log_calls w1.files h;
          trace_is = refl;
        },
      )

  on_path-Effect :
      (mode : Mode) (op rel : List ℕ) (body : Body) (w : World) (path : Option (List ℕ))
      → Effect op rel body w (on_path data_dir chance mode op rel body w path) path
  unfolding on_path
  on_path-Effect mode op rel body w none =
      inl
        (record { detail = codes "invalid path"; message = codes "invalid path"; trace_is = refl })
  on_path-Effect mode op rel body w (some full) =
      locked-Effect op rel full body w (locks_acquire (chance full) mode w.locks full)

  pub with_lock-Effect :
      (mode : Mode) (op rel : List ℕ) (body : Body) (w : World)
      → Effect op rel body w
          (with_lock data_dir chance mode op rel body w)
          (path_build data_dir rel path_max)
  unfolding with_lock
  with_lock-Effect mode op rel body w =
      on_path-Effect mode op rel body w (path_build data_dir rel path_max)

  abbrev pub Effect2 : (op : List ℕ) → Body2 → (w w' : World) → (src dst : Option (List ℕ)) → Type 0
  Effect2 op body w w' src_path dst_path =
      ((shown : List ℕ) × Refused op shown w w')
      ⊎ ((src dst : List ℕ) × (s : Locks) × (src_path ≡ some src)
          × (dst_path ≡ some dst)
          × Ran data_dir w' (body src dst (with_locks s w)))

  locked2-Effect :
      (op src_rel src dst : List ℕ) (body : Body2) (w : World) (got : Option (ℕ × ℕ × Bool) × Locks)
      → Effect2 op body w
          (locked2 data_dir chance op src_rel src dst body w got)
          (some src)
          (some dst)
  unfolding locked2 release_two_act
  locked2-Effect op src_rel src dst body w (none, s) = inl (
    src_rel,
    record {
      detail = codes "lock failure";
      message = codes "internal lock error";
      trace_is = refl;
    },
  )
  locked2-Effect op src_rel src dst body w (some (i, j, same), s) =
      let (w1, actions) = body src dst (with_locks s w) in
      inr (
        src,
        dst,
        s,
        refl,
        refl,
        record {
          files_beside = λ q h.
              log_all-beside (log_place data_dir) q w1.client actions w1.log_calls w1.files h;
          trace_is = refl;
        },
      )

  abbrev invalid :
      (op shown : List ℕ) (w : World)
      → Refused op shown w (
          act data_dir
            (answer op shown (codes "ERR") (codes "invalid path") (error (codes "invalid path")))
            w)
  invalid op shown w = record {
    detail = codes "invalid path";
    message = codes "invalid path";
    trace_is = refl;
  }

  on_paths2-Effect :
      (op shown src_rel : List ℕ) (body : Body2) (w : World) (src dst : Option (List ℕ))
      → Effect2 op body w (on_paths2 data_dir chance op shown src_rel body w src dst) src dst
  unfolding on_paths2
  on_paths2-Effect op shown src_rel body w none dst = inl (shown, invalid op shown w)
  on_paths2-Effect op shown src_rel body w (some src) none = inl (shown, invalid op shown w)
  on_paths2-Effect op shown src_rel body w (some src) (some dst) =
      locked2-Effect op src_rel src dst body w (locks_acquire_two_write chance w.locks src dst)

  pub with_locks2-Effect :
      (op shown src_rel dst_rel : List ℕ) (body : Body2) (w : World)
      → Effect2 op body w
          (with_locks2 data_dir chance op shown src_rel dst_rel body w)
          (path_build data_dir src_rel path_max)
          (path_build data_dir dst_rel path_max)
  unfolding with_locks2
  with_locks2-Effect op shown src_rel dst_rel body w =
      on_paths2-Effect op shown src_rel body w (path_build data_dir src_rel path_max)
        (path_build data_dir dst_rel path_max)
