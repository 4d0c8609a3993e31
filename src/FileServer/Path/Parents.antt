-- ===== src/FileServer/Path/Parents.antt =====
-- What `path_ensure_parent_dirs` of path_utils.c leaves on the way to a file.
use mathlib.Core.List.{append-nil, append_assoc}
use ncsc210_g.Base.{
  ℕ, ◌<◌, ◌≡◌, ◌≢◌, inl, inr, true, false, List, [], ◌∷◌, ◌++◌, arith, leb, ◌==◌, Bool-cases,
  length, take, drop,
}
use ncsc210_g.FileServer.Path.{
  Mkdir, made, exists, failed, may_go_on, make_parents, path_ensure_parent_dirs,
}

-- What every `mkdir` keeps, path_ensure_parent_dirs keeps.
module _ {S : Type 0} (mkdir : S → List ℕ → Mkdir × S) (P : S → Type 0)
    (keeps : (s : S) (p : List ℕ) → P s → P (mkdir s p).1) where
  make_parents-invariant : (done rest : List ℕ) (s : S) → P s → P (make_parents mkdir done rest s).1
  unfolding make_parents
  make_parents-invariant done [] s h = h
  make_parents-invariant done (c ∷ rest) s h = elim (Bool-cases (c == b'/')) [
    | inr e ↦ rw e (make_parents-invariant (done ++ c ∷ []) rest s h)
    | inl e ↦ rw e (elim (Bool-cases (may_go_on (mkdir s done).0)) [
      | inl g ↦
          rw g (make_parents-invariant (done ++ c ∷ []) rest (mkdir s done).1 (keeps s done h))
      | inr g ↦ rw g (keeps s done h)
    ])
  ]

  pub path_ensure_parent_dirs-invariant :
      (path_max : ℕ) (filepath : List ℕ) (s : S)
      → P s
      → P (path_ensure_parent_dirs mkdir path_max filepath s).1
  unfolding path_ensure_parent_dirs
  path_ensure_parent_dirs-invariant path_max filepath s h =
      elim (Bool-cases (leb path_max (length filepath))) [
        | inl e ↦ rw e h
        | inr e ↦ rw e (make_parents-invariant (take 1 filepath) (drop 1 filepath) s h)
      ]

-- What is asked of `mkdir`: if it succeeds or says EEXIST, something is at the path, a directory or not
-- (POSIX has EEXIST for a regular file too), and nothing goes away.
module _ {S : Type 0} (mkdir : S → List ℕ → Mkdir × S) (IsThere : S → List ℕ → Type 0)
    (made_is_there : (s : S) (p : List ℕ) → (mkdir s p).0 ≢ failed → IsThere (mkdir s p).1 p)
    (keeps_there : (s : S) (p q : List ℕ) → IsThere s q → IsThere (mkdir s p).1 q) where
  make_parents-keeps :
      (done rest q : List ℕ) (s : S) → IsThere s q → IsThere (make_parents mkdir done rest s).1 q
  unfolding make_parents
  make_parents-keeps done [] q s d = d
  make_parents-keeps done (c ∷ rest) q s d =
      let d' = keeps_there s done q d in
      elim (Bool-cases (c == b'/')) [
        | inr e ↦ rw e (make_parents-keeps (done ++ c ∷ []) rest q s d)
        | inl e ↦ rw e (elim (Bool-cases (may_go_on (mkdir s done).0)) [
          | inl g ↦ rw g (make_parents-keeps (done ++ c ∷ []) rest q (mkdir s done).1 d')
          | inr g ↦ rw g d'
        ])
      ]

  may_go_on_lem : (r : Mkdir) → may_go_on r ≡ true → r ≢ failed
  may_go_on_lem made h = cc
  may_go_on_lem exists h = cc
  may_go_on_lem failed h = cc

  make_parents-IsThere :
      (done rest a b : List ℕ) (s : S)
      → rest ≡ a ++ (b'/' ∷ b)
      → (make_parents mkdir done rest s).0 ≡ true
      → IsThere (make_parents mkdir done rest s).1 (done ++ a)
  unfolding make_parents
  make_parents-IsThere done [] [] b s e h = cc
  make_parents-IsThere done [] (x ∷ a) b s e h = cc
  make_parents-IsThere done (c ∷ rest) [] b s e h =
      let t : (c == b'/') ≡ true = ground (arith) in
      elim (Bool-cases (may_go_on (mkdir s done).0)) [
        | inl g ↦
            rw (t, g, append-nil done)
              (make_parents-keeps (done ++ c ∷ []) rest done (mkdir s done).1
                (made_is_there s done (may_go_on_lem _ g)))
        | inr g ↦ absurd (ground (arith, t, g))
      ]
  make_parents-IsThere done (c ∷ rest) (x ∷ a) b s e h =
      let ih = λ (s' : S). make_parents-IsThere (done ++ c ∷ []) rest a b s' (ground (arith, e)) in
      let same : done ++ (x ∷ a) ≡ (done ++ c ∷ []) ++ a =
        rw (append_assoc done (c ∷ []) a) (ground (arith, e)) in
      rw same (elim (Bool-cases (c == b'/')) [
        | inr t ↦ rw t (ih s (rw t at h))
        | inl t ↦ elim (Bool-cases (may_go_on (mkdir s done).0)) [
          | inl g ↦ rw (t, g) (ih (mkdir s done).1 (rw (t, g) at h))
          | inr g ↦ absurd (ground (arith, t, g))
        ]
      ])

  -- If `path_ensure_parent_dirs` reports success, then something is at every part of the path that
  -- stands before a slash, the first byte aside: a directory, or what was in the way of one; and the
  -- path fits a buffer of PATH_MAX bytes.
  pub path_ensure_parent_dirs-IsThere :
      (path_max : ℕ) (c : ℕ) (filepath a b : List ℕ) (s : S)
      → filepath ≡ a ++ (b'/' ∷ b)
      → (path_ensure_parent_dirs mkdir path_max (c ∷ filepath) s).0 ≡ true
      → (length (c ∷ filepath) < path_max)
        × IsThere (path_ensure_parent_dirs mkdir path_max (c ∷ filepath) s).1 (c ∷ a)
  unfolding path_ensure_parent_dirs
  path_ensure_parent_dirs-IsThere path_max c filepath a b s e h =
      let fits : leb path_max (length (c ∷ filepath)) ≡ false = ground arith in
      (
        ground (arith, fits),
        rw fits (make_parents-IsThere (c ∷ []) filepath a b s e (rw fits at h)),
      )
