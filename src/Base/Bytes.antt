-- ===== src/Base/Bytes.antt =====
-- C strings and buffers as lists of bytes: comparison (strcmp, memcmp) and search (strstr).
use Prim.Native.Nat.{ℕ}
use Prim.Native.Char.{code}
use Prim.Native.String.{String}
use mathlib.Core.Path.{◌≡◌, refl}
use mathlib.Core.Logic.{◌↔◌, ◌⊎◌, inl, inr}
use mathlib.Core.Bool.{Bool, true, false, ◌&&◌, ◌||◌}
use mathlib.Core.List.{List, [], ◌∷◌}
use native.Mathlib.Omega.{arith}
use ncsc210_g.Base.Tests.{ltb, ◌==◌}

-- The bytes of an ASCII literal.
abbrev pub codes : String → List ℕ
codes String.[] = []
codes (String.◌∷◌ c s) = code c ∷ codes s

-- strcmp(a, b) == 0
unfoldable pub bytes_eq : List ℕ → List ℕ → Bool
bytes_eq [] [] = true
bytes_eq (a ∷ xs) (b ∷ ys) = a == b && bytes_eq xs ys
bytes_eq _ _ = false

pub bytes_eq_sound : (xs ys : List ℕ) → bytes_eq xs ys ≡ true → xs ≡ ys
unfolding bytes_eq
bytes_eq_sound [] [] h = refl
bytes_eq_sound [] (b ∷ ys) h = cc
bytes_eq_sound (a ∷ xs) [] h = cc
bytes_eq_sound (a ∷ xs) (b ∷ ys) h = ground (arith, bytes_eq_sound xs ys)

pub bytes_eq_refl : (xs : List ℕ) → bytes_eq xs xs ≡ true
unfolding bytes_eq
bytes_eq_refl [] = refl
bytes_eq_refl (a ∷ xs) = ground (arith, bytes_eq_refl xs)

pub bytes_eq_iff : (xs ys : List ℕ) → (bytes_eq xs ys ≡ true) ↔ (xs ≡ ys)
bytes_eq_iff xs ys = (bytes_eq_sound xs ys, λ e. rw e (bytes_eq_refl ys))

-- strcmp(a, b) < 0
unfoldable pub bytes_lt : List ℕ → List ℕ → Bool
bytes_lt [] [] = false
bytes_lt [] (b ∷ ys) = true
bytes_lt (a ∷ xs) [] = false
bytes_lt (a ∷ xs) (b ∷ ys) = ltb a b || (a == b && bytes_lt xs ys)

pub bytes_lt_irrefl : (xs : List ℕ) → bytes_lt xs xs ≡ false
unfolding bytes_lt
bytes_lt_irrefl [] = refl
bytes_lt_irrefl (a ∷ xs) = ground (arith, bytes_lt_irrefl xs)

pub bytes_lt_trans :
    (xs ys zs : List ℕ) → bytes_lt xs ys ≡ true → bytes_lt ys zs ≡ true → bytes_lt xs zs ≡ true
unfolding bytes_lt
bytes_lt_trans [] [] zs h k = cc
bytes_lt_trans [] (b ∷ ys) [] h k = cc
bytes_lt_trans [] (b ∷ ys) (c ∷ zs) h k = refl
bytes_lt_trans (a ∷ xs) [] zs h k = cc
bytes_lt_trans (a ∷ xs) (b ∷ ys) [] h k = cc
bytes_lt_trans (a ∷ xs) (b ∷ ys) (c ∷ zs) h k = ground (arith, bytes_lt_trans xs ys zs)

-- Of two different strings one is below the other.
pub bytes_lt_total :
    (xs ys : List ℕ) → bytes_eq xs ys ≡ false → (bytes_lt xs ys ≡ true) ⊎ (bytes_lt ys xs ≡ true)
unfolding bytes_lt bytes_eq
bytes_lt_total [] [] h = cc
bytes_lt_total [] (b ∷ ys) h = inl refl
bytes_lt_total (a ∷ xs) [] h = inr refl
bytes_lt_total (a ∷ xs) (b ∷ ys) h = ground (arith, bytes_lt_total xs ys)

abbrev pub is_prefix : List ℕ → List ℕ → Bool
is_prefix [] ys = true
is_prefix (a ∷ xs) [] = false
is_prefix (a ∷ xs) (b ∷ ys) = a == b && is_prefix xs ys

-- strstr(text, needle) != NULL
unfoldable pub strstr : List ℕ → List ℕ → Bool
strstr [] needle = is_prefix needle []
strstr (c ∷ text) needle = is_prefix needle (c ∷ text) || strstr text needle
