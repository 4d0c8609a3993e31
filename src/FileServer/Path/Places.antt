-- ===== src/FileServer/Path/Places.antt =====
-- Which paths lead to one file: the names on the way, as a lookup takes them. Symbolic links, of which the
-- programs make none, are left out.
use ncsc210_g.Base.{
  ℕ, ◌≡◌, refl, Bool, true, false, ◌&&◌, ◌||◌, List, [], ◌∷◌, arith, ◌==◌, if◌then◌else◌, codes,
  bytes_eq, bytes_eq_sound, bytes_eq_refl,
}

-- The names below the directory in which the lookup begins, innermost first.
abbrev pub Place : Type 0
Place = List (List ℕ)

abbrev pub onto_first : ℕ → List (List ℕ) → List (List ℕ)
onto_first c [] = (c ∷ []) ∷ []
onto_first c (first ∷ rest) = (c ∷ first) ∷ rest

-- The components between the slashes, empty ones included.
unfoldable pub components : List ℕ → List (List ℕ)
components [] = [] ∷ []
components (c ∷ cs) = let rest = components cs in if c == b'/' then [] ∷ rest else onto_first c rest

abbrev pub pop : List (List ℕ) → List (List ℕ)
pop [] = []
pop (top ∷ rest) = rest

-- How a lookup takes one name: from the directory `at` (names innermost first), "" and "." stay,
-- ".." goes up, any other name goes down.
unfoldable pub enter : List (List ℕ) → List ℕ → List (List ℕ)
unfolding bytes_eq
enter at c =
    if bytes_eq c [] || bytes_eq c (codes ".")
    then at
    else if bytes_eq c (codes "..")
    then pop at
    else c ∷ at

unfoldable pub walk : List (List ℕ) → List (List ℕ) → List (List ℕ)
unfolding enter
walk at [] = at
walk at (c ∷ cs) = walk (enter at c) cs

unfoldable pub place : (path : List ℕ) → Place
unfolding components walk
place path = walk [] (components path)

unfoldable pub place_eq : Place → Place → Bool
unfolding bytes_eq
place_eq [] [] = true
place_eq (x ∷ xs) (y ∷ ys) = bytes_eq x y && place_eq xs ys
place_eq _ _ = false

pub place_eq_refl : (p : Place) → place_eq p p ≡ true
unfolding place_eq
place_eq_refl [] = refl
place_eq_refl (x ∷ xs) = rw (bytes_eq_refl x, place_eq_refl xs) refl

pub place_eq_sound : (p q : Place) → place_eq p q ≡ true → p ≡ q
unfolding place_eq
place_eq_sound [] [] h = refl
place_eq_sound [] (y ∷ ys) h = cc
place_eq_sound (x ∷ xs) [] h = cc
place_eq_sound (x ∷ xs) (y ∷ ys) h =
    let e : x ≡ y = bytes_eq_sound x y (ground (arith, h)) in
    let f : xs ≡ ys = place_eq_sound xs ys (ground (arith, h)) in rw (e, f) refl
