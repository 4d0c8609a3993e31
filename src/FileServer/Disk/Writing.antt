-- ===== src/FileServer/Disk/Writing.antt =====
-- write_all_file of file_ops.c leaves the whole file, and touches no other.
use mathlib.Core.List.{append-nil, append_assoc}
use ncsc210_g.Base.{
  ℕ, ◌≡◌, refl, sym, ap, ◌∙◌, inl, inr, Bool, true, false, some, List, [], ◌∷◌, ◌++◌, arith, ◌==◌,
  Bool-cases, length, take, drop, take-append-drop,
}
use ncsc210_g.FileServer.Path.Places.{Place, place, place_eq, place_eq_refl}
use ncsc210_g.FileServer.Path.{path_ensure_parent_dirs}
use ncsc210_g.FileServer.Disk.{
  eintr, path_max, Outcome, done, fails, World, syscall, moved, write_loop, mkdir, after,
  write_bytes, write_opened, write_all_file,
}
use ncsc210_g.FileServer.Disk.Reading.{Same, syscall-Same, path_ensure_parent_dirs-Same}

write_loop-bytes :
    (os : List Outcome) (put left : List ℕ) (errno : ℕ)
    → (write_loop os put left errno).success ≡ true
    → (write_loop os put left errno).bytes ≡ put ++ left
unfolding write_loop
write_loop-bytes os put [] errno s = sym (append-nil put)
write_loop-bytes [] put (x ∷ xs) errno s = cc
write_loop-bytes (fails e ∷ os) put (x ∷ xs) errno s = elim (Bool-cases (e == eintr)) [
  | inl f ↦ rw f (write_loop-bytes os put (x ∷ xs) e (rw f at s))
  | inr f ↦ absurd (ground (arith, f, s))
]
write_loop-bytes (done k ∷ os) put (x ∷ xs) errno s =
    let r = moved k (length (x ∷ xs)) in
    write_loop-bytes os (put ++ take r (x ∷ xs)) (drop r (x ∷ xs)) errno s
    ∙ append_assoc put (take r (x ∷ xs)) (drop r (x ∷ xs))
    ∙ ap (◌++◌ put) (take-append-drop r (x ∷ xs))

-- A step that touches no file but the one at `path`, no lock and not the trace.
pub record OnlyFile (path : List ℕ) (w w' : World) : Type 0 where
  pub others : (q : Place) → place_eq (place path) q ≡ false → w'.files q ≡ w.files q
  pub locks_same : w'.locks ≡ w.locks
  pub trace_same : w'.trace ≡ w.trace

pub Same-OnlyFile : (path : List ℕ) (w w' : World) → Same w w' → OnlyFile path w w'
Same-OnlyFile path w w' (a, b, c) = record {
  others = λ q h. ap (λ f. f q) a;
  locks_same = b;
  trace_same = c;
}

pub OnlyFile-trans :
    (path : List ℕ) (w w1 w2 : World)
    → OnlyFile path w w1
    → OnlyFile path w1 w2
    → OnlyFile path w w2
OnlyFile-trans path w w1 w2 a b = record {
  others = λ q h. b.others q h ∙ a.others q h;
  locks_same = b.locks_same ∙ a.locks_same;
  trace_same = b.trace_same ∙ a.trace_same;
}

pub after-OnlyFile :
    (path : List ℕ) (w : World) (r : Bool × World) (k : World → Bool × World)
    → OnlyFile path w r.1
    → ((w' : World) → OnlyFile path w' (k w').1)
    → OnlyFile path w (after r k).1
after-OnlyFile path w (true, w1) k h g = OnlyFile-trans path w w1 (k w1).1 h (g w1)
after-OnlyFile path w (false, w1) k h g = h

pub after_success :
    (r : Bool × World) (k : World → Bool × World)
    → (after r k).0 ≡ true
    → (r.0 ≡ true) × ((k r.1).0 ≡ true) × ((after r k).1 ≡ (k r.1).1)
after_success (true, w) k h = (refl, h, refl)
after_success (false, w) k h = cc

pub syscall-OnlyFile : (path : List ℕ) (w : World) → OnlyFile path w (syscall w).1
syscall-OnlyFile path w = Same-OnlyFile path w (syscall w).1 (syscall-Same w)

write_bytes-OnlyFile :
    (path bytes : List ℕ) (w : World) → OnlyFile path w (write_bytes path bytes w).1
unfolding write_bytes
write_bytes-OnlyFile path bytes w = record {
  others = λ q h. ground (arith, h);
  locks_same = refl;
  trace_same = refl;
}

write_opened-OnlyFile :
    (path bytes : List ℕ) (w : World) → OnlyFile path w (write_opened path bytes w).1
unfolding write_opened
write_opened-OnlyFile path bytes w =
    after-OnlyFile path w (syscall w)
      (λ w1. after (write_bytes path bytes w1) (λ w2. after (syscall w2) syscall))
      (syscall-OnlyFile path w)
      (λ w1.
        after-OnlyFile path w1 (write_bytes path bytes w1) (λ w2. after (syscall w2) syscall)
          (write_bytes-OnlyFile path bytes w1)
          (λ w2.
            after-OnlyFile path w2 (syscall w2) syscall (syscall-OnlyFile path w2)
              (syscall-OnlyFile path)))

pub write_all_file-OnlyFile :
    (path bytes : List ℕ) (w : World) → OnlyFile path w (write_all_file path bytes w).1
unfolding write_all_file
write_all_file-OnlyFile path bytes w =
    after-OnlyFile path w (path_ensure_parent_dirs mkdir path_max path w) (write_opened path bytes)
      (Same-OnlyFile path w (path_ensure_parent_dirs mkdir path_max path w).1
        (path_ensure_parent_dirs-Same path w))
      (write_opened-OnlyFile path bytes)

write_bytes-content :
    (path bytes : List ℕ) (w : World)
    → (write_bytes path bytes w).0 ≡ true
    → (write_bytes path bytes w).1.files (place path) ≡ some bytes
unfolding write_bytes
write_bytes-content path bytes w h =
    ground (arith, place_eq_refl (place path), write_loop-bytes w.script [] bytes w.errno h)

write_opened-content :
    (path bytes : List ℕ) (w : World)
    → (write_opened path bytes w).0 ≡ true
    → (write_opened path bytes w).1.files (place path) ≡ some bytes
unfolding write_opened
write_opened-content path bytes w h =
    let w1 = (syscall w).1 in
    let w2 = (write_bytes path bytes w1).1 in
    let (_, h1, e1) =
      after_success (syscall w)
        (λ w1. after (write_bytes path bytes w1) (λ w2. after (syscall w2) syscall)) h in
    let (wrote, h2, e2) =
      after_success (write_bytes path bytes w1) (λ w2. after (syscall w2) syscall) h1 in
    let (_, h3, e3) = after_success (syscall w2) syscall h2 in
    let same = (syscall-Same (syscall w2).1).0 ∙ (syscall-Same w2).0 in
    rw (e1, e2, e3) (ap (λ f. f (place path)) same ∙ write_bytes-content path bytes w1 wrote)

-- A write that succeeds leaves just the bytes in the file.
pub write_all_file-content :
    (path bytes : List ℕ) (w : World)
    → (write_all_file path bytes w).0 ≡ true
    → (write_all_file path bytes w).1.files (place path) ≡ some bytes
unfolding write_all_file
write_all_file-content path bytes w h =
    let (_, h1, e1) =
      after_success (path_ensure_parent_dirs mkdir path_max path w) (write_opened path bytes) h in
    rw e1 (write_opened-content path bytes (path_ensure_parent_dirs mkdir path_max path w).1 h1)
