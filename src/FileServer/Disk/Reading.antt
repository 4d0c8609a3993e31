-- ===== src/FileServer/Disk/Reading.antt =====
-- read_all_file of file_ops.c gives the whole file.
use mathlib.Core.List.{append-nil, append_assoc}
use ncsc210_g.Base.{
  ℕ, zero, suc, ◌-◌, min, ◌≡◌, refl, sym, ap, ◌∙◌, inl, inr, Bool, true, false, some, List, [], ◌∷◌,
  ◌++◌, arith, ltb, ◌==◌, if◌then◌else◌, Bool-cases, Option-cases, length, take, drop,
  take-append-drop, length-drop,
}
use ncsc210_g.FileServer.Path.Places.{place}
use ncsc210_g.FileServer.Path.{path_ensure_parent_dirs}
use ncsc210_g.FileServer.Rle.{max_file_size}
use ncsc210_g.FileServer.Path.Parents.{path_ensure_parent_dirs-invariant}
use ncsc210_g.FileServer.Disk.{
  eintr, eexist, path_max, Outcome, done, fails, World, answered, syscall, moved, read_loop,
  read_opened, read_all_file, mkdir, after,
}

-- A step that touches no file, no lock and not the trace.
abbrev pub Same : World → World → Type 0
Same w w' = (w'.files ≡ w.files) × (w'.locks ≡ w.locks) × (w'.trace ≡ w.trace)

pub Same-trans : (w w1 w2 : World) → Same w w1 → Same w1 w2 → Same w w2
Same-trans w w1 w2 (a, b, c) (d, e, f) = (d ∙ a, e ∙ b, f ∙ c)

answered-Same : (os : List Outcome) (w : World) → Same w (answered os w).1
unfolding answered
answered-Same [] w = (refl, refl, refl)
answered-Same (done k ∷ os) w = (refl, refl, refl)
answered-Same (fails e ∷ os) w = (refl, refl, refl)

pub syscall-Same : (w : World) → Same w (syscall w).1
unfolding syscall
syscall-Same w = answered-Same w.script w

mkdir-Same : (w w1 : World) (path : List ℕ) → Same w w1 → Same w (mkdir w1 path).1
unfolding mkdir
mkdir-Same w w1 path h =
    let both = Same-trans w w1 (syscall w1).1 h (syscall-Same w1) in
    elim (Bool-cases (syscall w1).0) [
      | inl e ↦ rw (e, if◌then◌else◌) both
      | inr e ↦ elim (Bool-cases ((syscall w1).1.errno == eexist)) [
        | inl f ↦ rw (e, f) both
        | inr f ↦ rw (e, f) both
      ]
    ]

pub path_ensure_parent_dirs-Same :
    (path : List ℕ) (w : World) → Same w (path_ensure_parent_dirs mkdir path_max path w).1
path_ensure_parent_dirs-Same path w =
    path_ensure_parent_dirs-invariant mkdir (Same w) (λ s p h. mkdir-Same w s p h) path_max path w
      (refl, refl, refl)

read_loop-bytes :
    (os : List Outcome) (left : ℕ) (got rest : List ℕ) (errno : ℕ)
    → left ≡ length rest
    → (read_loop os left got rest errno).success ≡ true
    → (read_loop os left got rest errno).bytes ≡ got ++ rest
unfolding read_loop
read_loop-bytes os zero got [] errno h s = sym (append-nil got)
read_loop-bytes os zero got (x ∷ rest) errno h s = absurd (omega arith)
read_loop-bytes [] (suc left) got rest errno h s = cc
read_loop-bytes (fails e ∷ os) (suc left) got rest errno h s = elim (Bool-cases (e == eintr)) [
  | inl f ↦ rw f (read_loop-bytes os (suc left) got rest e h (rw f at s))
  | inr f ↦ absurd (ground (arith, f, s))
]
read_loop-bytes (done k ∷ os) (suc left) got rest errno h s =
    let r = moved k (min (suc left) (length rest)) in
    elim (Bool-cases (r == 0)) [
      | inl f ↦ absurd (ground (arith, f, h))
      | inr f ↦ rw f (
          read_loop-bytes os (suc left - r) (got ++ take r rest) (drop r rest) errno
            (omega (arith, length-drop r rest)) (rw f at s)
          ∙ append_assoc got (take r rest) (drop r rest)
          ∙ ap (◌++◌ got) (take-append-drop r rest))
    ]

read_opened-content :
    (w : World) (content b : List ℕ) → (read_opened w content).0 ≡ some b → b ≡ content
unfolding read_opened
read_opened-content w content b h =
    let w1 = (syscall w).1 in
    let m = read_loop w1.script (length content) [] content w1.errno in
    let whole = read_loop-bytes w1.script (length content) [] content w1.errno refl in
    elim (Bool-cases (ltb max_file_size (length content))) [
      | inl e ↦ absurd (ground (arith, e, h))
      | inr e ↦ elim (Bool-cases (syscall w).0) [
        | inr f ↦ absurd (ground (arith, e, f, h))
        | inl f ↦ elim (Bool-cases m.success) [
          | inl g ↦ ground (arith, e, f, g, h, whole g)
          | inr g ↦ absurd (ground (arith, e, f, g, h))
        ]
      ]
    ]

read_opened-Same : (w : World) (content : List ℕ) → Same w (read_opened w content).1
unfolding read_opened
read_opened-Same w content =
    let step = syscall-Same w in
    elim (Bool-cases (ltb max_file_size (length content))) [
      | inl e ↦ rw e (refl, refl, refl)
      | inr e ↦ elim (Bool-cases (syscall w).0) [ inr f ↦ rw (e, f) step | inl f ↦ rw (e, f) step ]
    ]

-- What read_all_file returns is what stands in the file.
pub read_all_file-content :
    (path : List ℕ) (w : World) (b : List ℕ)
    → (read_all_file path w).0 ≡ some b
    → w.files (place path) ≡ some b
unfolding read_all_file
read_all_file-content path w b h =
    let w2 = (syscall (syscall w).1).1 in
    elim (Bool-cases (syscall w).0) [
      | inr e ↦ absurd (ground (arith, e, h))
      | inl e ↦ elim (Option-cases (w.files (place path))) [
        | inl f ↦ absurd (ground (arith, e, f, h))
        | inr (content, f) ↦ elim (Bool-cases (syscall (syscall w).1).0) [
          | inr g ↦ absurd (ground (arith, e, f, g, h))
          | inl g ↦
              let same = read_opened-content w2 content b (ground (arith, e, f, g, h)) in
              rw (f, same) refl
        ]
      ]
    ]

pub read_all_file-Same : (path : List ℕ) (w : World) → Same w (read_all_file path w).1
unfolding read_all_file
read_all_file-Same path w =
    let one = syscall-Same w in
    let w1 = (syscall w).1 in
    let w2 = (syscall w1).1 in
    let two = Same-trans w w1 w2 one (syscall-Same w1) in
    elim (Bool-cases (syscall w).0) [
      | inr e ↦ rw e one
      | inl e ↦ elim (Option-cases (w.files (place path))) [
        | inl f ↦ rw (e, f) one
        | inr (content, f) ↦ elim (Bool-cases (syscall w1).0) [
          | inr g ↦ rw (e, f, g) two
          | inl g ↦
              rw (e, f, g)
                (Same-trans w w2 (read_opened w2 content).1 two (read_opened-Same w2 content))
        ]
      ]
    ]

pub after-Same :
    (w : World) (r : Bool × World) (k : World → Bool × World)
    → Same w r.1
    → ((w' : World) → Same w' (k w').1)
    → Same w (after r k).1
after-Same w (true, w1) k h g = Same-trans w w1 (k w1).1 h (g w1)
after-Same w (false, w1) k h g = h
