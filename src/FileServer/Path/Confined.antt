-- ===== src/FileServer/Path/Confined.antt =====
-- A path that `path_build` accepts stays below the data directory.
use mathlib.Core.List.{append_assoc}
use ncsc210_g.Base.{
  ℕ, ◌<◌, ◌≡◌, refl, sym, ap, ◌∙◌, ◌≢◌, inl, inr, true, false, ◌||◌, some, List, [], ◌∷◌, ◌++◌,
  arith, Bool-cases, length, All, codes, bytes_eq, strstr,
}
use ncsc210_g.FileServer.Path.{is_path_safe, path_build}
use ncsc210_g.FileServer.Path.Places.{onto_first, components, enter, walk}

components-ne-nil : (xs : List ℕ) → components xs ≢ []
unfolding components
components-ne-nil [] h = cc
components-ne-nil (x ∷ xs) h = ground arith

components-append :
    (xs ys : List ℕ) → components (xs ++ (b'/' ∷ ys)) ≡ components xs ++ components ys
unfolding components
components-append [] ys = refl
components-append (x ∷ xs) ys = ground (arith, components-append xs ys, components-ne-nil xs)

walk-append : (at xs ys : List (List ℕ)) → walk at (xs ++ ys) ≡ walk (walk at xs) ys
unfolding walk
walk-append at [] ys = refl
walk-append at (x ∷ xs) ys = walk-append (enter at x) xs ys

abbrev NotUp : List ℕ → Type 0
NotUp c = bytes_eq c (codes "..") ≡ false

-- The first component starts with the first byte.
components-first :
    (xs : List ℕ) (c : ℕ) (first : List ℕ) (rest : List (List ℕ))
    → components xs ≡ (c ∷ first) ∷ rest
    → (ys : List ℕ) × (xs ≡ c ∷ ys)
unfolding components
components-first [] c first rest h = cc
components-first (x ∷ xs) c first rest h = (xs, ground (arith, components-ne-nil xs))

-- A byte before a component that is not "..".
onto_first-NotUp :
    (x : ℕ) (xs : List ℕ) (cs : List (List ℕ))
    → components xs ≡ cs
    → strstr (x ∷ xs) (codes "..") ≡ false
    → All NotUp cs
    → All NotUp (onto_first x cs)
unfolding strstr bytes_eq
onto_first-NotUp x xs [] e h a = (ground arith, tt)
onto_first-NotUp x xs ([] ∷ rest) e h a = (ground arith, a.1)
onto_first-NotUp x xs ((c ∷ first) ∷ rest) e h a =
    let (ys, q) = components-first xs c first rest e in (ground (arith, q), a.1)

components-NotUp : (xs : List ℕ) → strstr xs (codes "..") ≡ false → All NotUp (components xs)
unfolding components strstr bytes_eq
components-NotUp [] h = (refl, tt)
components-NotUp (x ∷ xs) h =
    let rest = components-NotUp xs (ground (arith, h)) in
    ground (arith, rest, onto_first-NotUp x xs (components xs) refl h rest)

enter-NotUp :
    (at : List (List ℕ)) (c : List ℕ) → NotUp c → (d : List (List ℕ)) × (enter at c ≡ d ++ at)
unfolding enter
enter-NotUp at c h = elim (Bool-cases (bytes_eq c [] || bytes_eq c (codes "."))) [
  | inl e ↦ ([], rw e)
  | inr e ↦ (c ∷ [], rw (e, h))
]

walk-NotUp :
    (at cs : List (List ℕ)) → All NotUp cs → (down : List (List ℕ)) × (walk at cs ≡ down ++ at)
unfolding walk
walk-NotUp at [] h = ([], refl)
walk-NotUp at (c ∷ cs) h =
    let (d, p) = enter-NotUp at c h.0 in
    let (down, q) = walk-NotUp (enter at c) cs h.1 in
    (down ++ d, q ∙ ap (◌++◌ down) p ∙ sym (append_assoc down d at))

is_path_safe_dots :
    (path : List ℕ) → is_path_safe (some path) ≡ true → strstr path (codes "..") ≡ false
unfolding is_path_safe strstr
is_path_safe_dots [] h = cc
is_path_safe_dots (c ∷ path) h = ground (arith, h)

-- If `path_build` accepts a relative path, the result is the data directory, a slash and the path,
-- fits its buffer with the final zero byte, and a lookup of it walks down from the data directory:
-- `down` are the names below it, innermost first.
pub path_build_confined :
    (data_dir relative full : List ℕ) (out_sz : ℕ)
    → path_build data_dir relative out_sz ≡ some full
    → (full ≡ data_dir ++ (b'/' ∷ relative))
      × (length full < out_sz)
      × ((down : List (List ℕ)) × (walk [] (components full)
            ≡ down ++ walk [] (components data_dir)))
unfolding path_build
path_build_confined data_dir relative full out_sz e =
    let (size, e') : (length full < out_sz) × (full ≡ data_dir ++ (b'/' ∷ relative)) =
      ground (arith) in
    let safe : is_path_safe (some relative) ≡ true = ground (arith) in
    let (down, q) =
      walk-NotUp (walk [] (components data_dir)) (components relative)
        (components-NotUp relative (is_path_safe_dots relative safe)) in
    (
      e',
      size,
      (
        down,
        rw
            (
              e',
              components-append data_dir relative,
              walk-append [] (components data_dir) (components relative),
            )
            q,
      ),
    )
