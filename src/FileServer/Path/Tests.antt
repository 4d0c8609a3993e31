-- ===== src/FileServer/Path/Tests.antt =====
-- Paths that are accepted and refused, and the theorems at concrete paths.
use ncsc210_g.Base.{
  ℕ, ◌<◌, ◌≡◌, refl, ◌≢◌, Bool, true, false, ◌||◌, none, some, List, [], ◌∷◌, ◌++◌, arith,
  if◌then◌else◌, length, codes, bytes_eq, bytes_eq_refl,
}
use ncsc210_g.FileServer.Path.Places.{components, walk}
use ncsc210_g.FileServer.Path.{
  path_build, Mkdir, made, exists, failed, path_ensure_parent_dirs, derive_compress_dst,
  derive_decompress_dst,
}
use ncsc210_g.FileServer.Path.Confined.{path_build_confined}
use ncsc210_g.FileServer.Path.Parents.{path_ensure_parent_dirs-IsThere}

build_note : path_build (codes "./data") (codes "a/n.txt") 4096 ≡ some (codes "./data/a/n.txt")
unfolding path_build
build_note = refl

build_up : path_build (codes "./data") (codes "a/../../x") 4096 ≡ none
unfolding path_build
build_up = refl

build_absolute : path_build (codes "./data") (codes "/etc/passwd") 4096 ≡ none
unfolding path_build
build_absolute = refl

build_long : path_build (codes "./data") (codes "abc") 10 ≡ none
unfolding path_build
build_long = refl

path_build_confined_example :
    (codes "./data/a/n.txt" ≡ codes "./data" ++ (b'/' ∷ codes "a/n.txt"))
    × (length (codes "./data/a/n.txt") < 4096)
    × ((down : List (List ℕ)) × (walk [] (components (codes "./data/a/n.txt"))
          ≡ down ++ walk [] (components (codes "./data"))))
path_build_confined_example =
    path_build_confined (codes "./data") (codes "a/n.txt") _ 4096 build_note

compress_default : derive_compress_dst (codes "n.txt") 4096 ≡ some (codes "n.txt.rle")
unfolding derive_compress_dst
compress_default = refl

decompress_other : derive_decompress_dst (codes "n.txt") 4096 ≡ some (codes "n.txt.out")
unfolding derive_decompress_dst bytes_eq
decompress_other = refl

-- A file system that knows its directories only, and never fails.
abbrev contains : List (List ℕ) → List ℕ → Bool
contains [] p = false
contains (d ∷ ds) p = bytes_eq d p || contains ds p

abbrev mkdir : List (List ℕ) → List ℕ → Mkdir × List (List ℕ)
mkdir ds p = if contains ds p then (exists, ds) else (made, p ∷ ds)

made_is_there :
    (ds : List (List ℕ)) (p : List ℕ) → (mkdir ds p).0 ≢ failed → contains (mkdir ds p).1 p ≡ true
made_is_there ds p h = ground (arith, bytes_eq_refl p)

keeps_there :
    (ds : List (List ℕ)) (p q : List ℕ) → contains ds q ≡ true → contains (mkdir ds p).1 q ≡ true
keeps_there ds p q h = ground arith

path_ensure_parent_dirs-IsThere_example :
    (length (codes "./d/a/n") < 4096)
    × (contains
          (path_ensure_parent_dirs mkdir 4096 (codes "./d/a/n") (codes "." ∷ [])).1
          (codes "./d/a")
        ≡ true)
unfolding path_ensure_parent_dirs bytes_eq
path_ensure_parent_dirs-IsThere_example =
    path_ensure_parent_dirs-IsThere mkdir (λ ds p. contains ds p ≡ true) made_is_there keeps_there
      4096 b'.' (codes "/d/a/n") (codes "/d/a") (codes "n") (codes "." ∷ []) refl refl
