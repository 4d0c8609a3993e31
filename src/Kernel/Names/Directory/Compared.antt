-- ===== src/Kernel/Names/Directory/Compared.antt =====
-- What namecmp of fs.c says of a name and of the field that strncpy filled.
use ncsc210_g.Base.{
  ℕ, zero, suc, ◌<◌, ◌≡◌, refl, false, List, [], ◌∷◌, arith, ◌==◌, take, All, pos, ◌==ℤ◌, bytes_eq,
}
use ncsc210_g.Kernel.Strings.{byte_difference}
use ncsc210_g.Kernel.Names.Directory.{behind, strncmp_bytes, name_field}

-- The bytes of a string, before its zero byte.
abbrev pub IsName : List ℕ → Type 0
IsName name = All (λ c. 0 < c) name

difference_zero : (a b : ℕ) → (byte_difference a b ==ℤ pos 0) ≡ (a == b)
unfolding byte_difference
difference_zero a b = ground arith

-- Whether the strings are the same up to n bytes.
pub strncmp_bytes-field :
    (n : ℕ) (p q : List ℕ)
    → IsName p
    → IsName q
    → (strncmp_bytes n p (name_field n q) ==ℤ pos 0) ≡ bytes_eq (take n p) (take n q)
unfolding strncmp_bytes name_field bytes_eq
strncmp_bytes-field zero p q f g = refl
strncmp_bytes-field (suc n) [] [] f g = ground arith
strncmp_bytes-field (suc n) [] (c ∷ q) f (c_pos, g) =
    let nonzero : (c == 0) ≡ false = ground (arith, c_pos) in
    rw nonzero (ground (arith, difference_zero 0 c, c_pos))
strncmp_bytes-field (suc n) (b ∷ p) [] (b_pos, f) g =
    let nonzero : (b == 0) ≡ false = ground (arith, b_pos) in
    rw nonzero (ground (arith, difference_zero b 0, b_pos))
strncmp_bytes-field (suc n) (b ∷ p) (c ∷ q) (b_pos, f) (c_pos, g) =
    ground (arith, strncmp_bytes-field n p q f g, difference_zero b c)

-- Only the first n bytes count.
pub strncmp_bytes-take :
    (n : ℕ) (p q e : List ℕ)
    → IsName p
    → IsName q
    → take n p ≡ take n q
    → strncmp_bytes n p e ≡ strncmp_bytes n q e
unfolding strncmp_bytes
strncmp_bytes-take zero p q e f g h = refl
strncmp_bytes-take (suc n) [] [] e f g h = refl
strncmp_bytes-take (suc n) [] (c ∷ q) e f g h = absurd (ground (arith, h))
strncmp_bytes-take (suc n) (b ∷ p) [] e f g h = absurd (ground (arith, h))
strncmp_bytes-take (suc n) (b ∷ p) (c ∷ q) e (_, f) (_, g) h =
    let same : b ≡ c = ground (arith, h) in
    let rest : take n p ≡ take n q = ground (arith, h) in
    ground (arith, same, strncmp_bytes-take n p q (behind e) f g rest)
