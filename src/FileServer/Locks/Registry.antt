-- ===== src/FileServer/Locks/Registry.antt =====
-- One lock for each path, in get_or_create_lock of locks.c.
use ncsc210_g.Base.{
  ℕ, ◌<◌, ◌≡◌, sym, ◌∙◌, ◌↔◌, inl, inr, some, List, [], ◌∷◌, arith, Bool-cases, Option-cases,
  length, bytes_eq, bytes_eq_sound, bytes_eq_refl,
}
use ncsc210_g.FileServer.Locks.{Registry, Chance, find_lock, get_or_create_lock}

find_lock-lt : (r : Registry) (a : List ℕ) (i : ℕ) → find_lock r a ≡ some i → i < length r
unfolding find_lock
find_lock-lt [] a i h = cc
find_lock-lt (p ∷ r) a i h = elim (Bool-cases (bytes_eq p a)) [
  | inl e ↦ let same : length r ≡ i = ground (arith, e) in omega arith
  | inr e ↦ let low : i < length r = find_lock-lt r a i (ground (arith, e)) in omega arith
]

pub find_lock-inj :
    (r : Registry) (a b : List ℕ) (i : ℕ) → find_lock r a ≡ some i → find_lock r b ≡ some i → a ≡ b
unfolding find_lock
find_lock-inj [] a b i h k = cc
find_lock-inj (p ∷ r) a b i h k = elim (Bool-cases (bytes_eq p a)) [
  | inl e ↦ elim (Bool-cases (bytes_eq p b)) [
    | inl f ↦ sym (bytes_eq_sound p a e) ∙ bytes_eq_sound p b f
    | inr f ↦
        let same : length r ≡ i = ground (arith, e) in
        let low : i < length r = find_lock-lt r b i (ground (arith, f)) in absurd (omega arith)
  ]
  | inr e ↦ elim (Bool-cases (bytes_eq p b)) [
    | inl f ↦
        let same : length r ≡ i = ground (arith, f) in
        let low : i < length r = find_lock-lt r a i (ground (arith, e)) in absurd (omega arith)
    | inr f ↦ find_lock-inj r a b i (ground (arith, e)) (ground (arith, f))
  ]
]

-- What a call answers is what the map answers from then on.
pub get-find :
    (c : Chance) (r : Registry) (a : List ℕ) {i : ℕ}
    → (get_or_create_lock c r a).0 ≡ some i
    → find_lock (get_or_create_lock c r a).1 a ≡ some i
unfolding get_or_create_lock find_lock
get-find c r a h = elim (Option-cases (find_lock r a)) [
  | inl e ↦ ground (arith, e, bytes_eq_refl a)
  | inr (j, e) ↦ ground (arith, e)
]

-- A call for any path leaves the other answers alone.
pub get-keeps :
    (c : Chance) (r : Registry) (a b : List ℕ) {i : ℕ}
    → find_lock r a ≡ some i
    → find_lock (get_or_create_lock c r b).1 a ≡ some i
unfolding get_or_create_lock find_lock
get-keeps c r a b h = elim (Option-cases (find_lock r b)) [
  | inl e ↦ elim (Bool-cases (bytes_eq b a)) [
    | inl same ↦ absurd (ground (arith, e, h, bytes_eq_sound b a same))
    | inr differ ↦ ground (arith, e, h, differ)
  ]
  | inr (j, e) ↦ ground (arith, e, h)
]

-- Any calls for any paths, one after another under g_lock_map_mutex.
unfoldable pub get_all : List (Chance × List ℕ) → Registry → Registry
get_all [] r = r
get_all ((c, path) ∷ more) r = get_all more (get_or_create_lock c r path).1

get_all-keeps :
    (calls : List (Chance × List ℕ)) (r : Registry) (a : List ℕ) {i : ℕ}
    → find_lock r a ≡ some i
    → find_lock (get_all calls r) a ≡ some i
unfolding get_all
get_all-keeps [] r a h = h
get_all-keeps ((c, path) ∷ more) r a h =
    get_all-keeps more (get_or_create_lock c r path).1 a (get-keeps c r a path h)

-- When a call for path `a` answers lock `i`, and later, after any other calls, a call for path `b`
-- answers lock `j`, then these are the same lock exactly if the paths are the same.
pub one_lock_per_path :
    (r : Registry) (c d : Chance) (a b : List ℕ) (between : List (Chance × List ℕ)) (i j : ℕ)
    → (get_or_create_lock c r a).0 ≡ some i
    → (get_or_create_lock d (get_all between (get_or_create_lock c r a).1) b).0 ≡ some j
    → (i ≡ j) ↔ (a ≡ b)
one_lock_per_path r c d a b between i j h k =
    let r1 = get_all between (get_or_create_lock c r a).1 in
    let first : find_lock (get_or_create_lock d r1 b).1 a ≡ some i =
      get-keeps d r1 a b
        (get_all-keeps between (get_or_create_lock c r a).1 a (get-find c r a h)) in
    let second : find_lock (get_or_create_lock d r1 b).1 b ≡ some j = get-find d r1 b k in
    (
      λ e. find_lock-inj (get_or_create_lock d r1 b).1 a b i first (rw e second),
      λ e. ground (arith, first, second, e),
    )
