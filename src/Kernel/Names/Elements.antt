-- ===== src/Kernel/Names/Elements.antt =====
-- skipelem of fs.c, against a splitting of the whole path.
use mathlib.Core.List.{append-nil, append_assoc}
use ncsc210_g.Base.{
  ℕ, ◌≤◌, ◌<◌, ◌≡◌, refl, sym, ap, ◌∙◌, inl, inr, true, false, Option, none, some, List, [], ◌∷◌,
  ◌++◌, arith, ◌==◌, if◌then◌else◌, Bool-cases, length, take,
}
use ncsc210_g.Kernel.Names.{dirsiz, skip_slashes, take_elem, elem_of, skipelem}

-- The names of a path: what stands between slashes, where that is not empty, cut to DIRSIZ bytes. `name`
-- is what has been read of the name under way.
unfoldable pub split_path : (name path : List ℕ) → List (List ℕ)
split_path [] [] = []
split_path (b ∷ bs) [] = take dirsiz (b ∷ bs) ∷ []
split_path [] (c ∷ cs) =
    let more = split_path (c ∷ []) cs in
    let rest = split_path [] cs in if c == b'/' then rest else more
split_path (b ∷ bs) (c ∷ cs) =
    let more = split_path (b ∷ (bs ++ c ∷ [])) cs in
    let rest = split_path [] cs in if c == b'/' then take dirsiz (b ∷ bs) ∷ rest else more

abbrev pub elements : List ℕ → List (List ℕ)
elements path = split_path [] path

-- One byte on.
split-slash : (c : ℕ) (cs : List ℕ) → (c == b'/') ≡ true → split_path [] (c ∷ cs) ≡ split_path [] cs
unfolding split_path
split-slash c cs e = rw e refl

split-byte :
    (c : ℕ) (cs : List ℕ) → (c == b'/') ≡ false → split_path [] (c ∷ cs) ≡ split_path (c ∷ []) cs
unfolding split_path
split-byte c cs e = rw e refl

split-name_end :
    (b : ℕ) (bs : List ℕ) (c : ℕ) (cs : List ℕ)
    → (c == b'/') ≡ true
    → split_path (b ∷ bs) (c ∷ cs) ≡ take dirsiz (b ∷ bs) ∷ split_path [] cs
unfolding split_path
split-name_end b bs c cs e = rw e refl

split-name_byte :
    (b : ℕ) (bs : List ℕ) (c : ℕ) (cs : List ℕ)
    → (c == b'/') ≡ false
    → split_path (b ∷ bs) (c ∷ cs) ≡ split_path (b ∷ (bs ++ c ∷ [])) cs
unfolding split_path
split-name_byte b bs c cs e = rw e refl

split-done :
    (b : ℕ) (bs : List ℕ) → split_path (b ∷ bs) [] ≡ take dirsiz (b ∷ bs) ∷ split_path [] []
unfolding split_path
split-done b bs = refl

skip-slash : (c : ℕ) (cs : List ℕ) → (c == b'/') ≡ true → skip_slashes (c ∷ cs) ≡ skip_slashes cs
unfolding skip_slashes
skip-slash c cs e = rw e refl

skip-byte : (c : ℕ) (cs : List ℕ) → (c == b'/') ≡ false → skip_slashes (c ∷ cs) ≡ c ∷ cs
unfolding skip_slashes
skip-byte c cs e = rw e refl

skip-none : skip_slashes [] ≡ []
unfolding skip_slashes
skip-none = refl

take_elem-none : take_elem [] ≡ ([], [])
unfolding take_elem
take_elem-none = refl

take_elem-slash : (c : ℕ) (cs : List ℕ) → (c == b'/') ≡ true → take_elem (c ∷ cs) ≡ ([], c ∷ cs)
unfolding take_elem
take_elem-slash c cs e = rw e refl

take_elem-cons :
    (c : ℕ) (cs : List ℕ)
    → (c == b'/') ≡ false
    → take_elem (c ∷ cs) ≡ (c ∷ (take_elem cs).0, (take_elem cs).1)
unfolding take_elem
take_elem-cons c cs e = rw e refl

elements-skip_slashes : (path : List ℕ) → elements (skip_slashes path) ≡ elements path
elements-skip_slashes [] = ap elements skip-none
elements-skip_slashes (c ∷ cs) = elim (Bool-cases (c == b'/')) [
  | inl e ↦ ap elements (skip-slash c cs e) ∙ elements-skip_slashes cs ∙ sym (split-slash c cs e)
  | inr e ↦ ap elements (skip-byte c cs e)
]

-- What a name under way and the bytes that take_elem adds to it come to.
abbrev named : (b : ℕ) (bs : List ℕ) → List ℕ × List ℕ → List (List ℕ)
named b bs r = take dirsiz (b ∷ (bs ++ r.0)) ∷ elements r.1

split_path-take_elem :
    (b : ℕ) (bs path : List ℕ) → split_path (b ∷ bs) path ≡ named b bs (take_elem path)
split_path-take_elem b bs [] =
    split-done b bs
    ∙ ap (λ x. take dirsiz (b ∷ x) ∷ elements []) (sym (append-nil bs))
    ∙ ap (named b bs) (sym take_elem-none)
split_path-take_elem b bs (c ∷ cs) = elim (Bool-cases (c == b'/')) [
  | inl e ↦
      split-name_end b bs c cs e
      ∙ ap (λ x. take dirsiz (b ∷ x) ∷ elements cs) (sym (append-nil bs))
      ∙ ap (λ x. take dirsiz (b ∷ (bs ++ [])) ∷ x) (sym (split-slash c cs e))
      ∙ ap (named b bs) (sym (take_elem-slash c cs e))
  | inr e ↦
      split-name_byte b bs c cs e
      ∙ split_path-take_elem b (bs ++ c ∷ []) cs
      ∙ ap (λ x. take dirsiz (b ∷ x) ∷ elements (take_elem cs).1)
          (append_assoc bs (c ∷ []) (take_elem cs).0)
      ∙ ap (named b bs) (sym (take_elem-cons c cs e))
]

-- A path that does not start with a slash.
abbrev pub NoSlash : List ℕ → Type 0
NoSlash [] = Unit
NoSlash (c ∷ cs) = (c == b'/') ≡ false

skip_slashes-NoSlash : (path : List ℕ) → NoSlash (skip_slashes path)
unfolding skip_slashes
skip_slashes-NoSlash [] = tt
skip_slashes-NoSlash (c ∷ cs) = elim (Bool-cases (c == b'/')) [
  | inl e ↦ rw e (skip_slashes-NoSlash cs)
  | inr e ↦ rw e e
]

length-skip_slashes : (path : List ℕ) → length (skip_slashes path) ≤ length path
unfolding skip_slashes
length-skip_slashes [] = omega arith
length-skip_slashes (c ∷ cs) = elim (Bool-cases (c == b'/')) [
  | inl e ↦ rw e (omega (arith, length-skip_slashes cs))
  | inr e ↦ rw e (omega arith)
]

length-take_elem : (path : List ℕ) → length (take_elem path).1 ≤ length path
unfolding take_elem
length-take_elem [] = omega arith
length-take_elem (c ∷ cs) = elim (Bool-cases (c == b'/')) [
  | inl e ↦ rw e (omega arith)
  | inr e ↦ rw e (omega (arith, length-take_elem cs))
]

-- What skipelem gives, of a path with these names.
abbrev pub Splits : (path : List ℕ) → Option (List ℕ × List ℕ) → Type 0
Splits path none = elements path ≡ []
Splits path (some (elem, rest)) =
    (elements path ≡ elem ∷ elements rest) × (length rest < length path) × NoSlash rest

elements-none : elements [] ≡ []
unfolding split_path
elements-none = refl

elem_of-Splits : (path : List ℕ) → NoSlash path → Splits path (elem_of path)
elem_of-Splits [] h = elements-none
elem_of-Splits (c ∷ cs) h =
    let after = elements-skip_slashes (take_elem cs).1 in
    rw (take_elem-cons c cs h) (
      split-byte c cs h
          ∙ split_path-take_elem c [] cs
          ∙ ap (λ x. take dirsiz (c ∷ (take_elem cs).0) ∷ x) (sym after),
      omega (arith, length-skip_slashes (take_elem cs).1, length-take_elem cs),
      skip_slashes-NoSlash (take_elem cs).1,
    )

moved-Splits :
    (path path1 : List ℕ) (r : Option (List ℕ × List ℕ))
    → elements path1 ≡ elements path
    → length path1 ≤ length path
    → Splits path1 r
    → Splits path r
moved-Splits path path1 none e l h = sym e ∙ h
moved-Splits path path1 (some (elem, rest)) e l (h, k, n) = (sym e ∙ h, omega (arith, l, k), n)

-- skipelem finds no name exactly where the path has none; or it gives the first name of the path and a
-- shorter path with the other names, and no slash in front.
pub skipelem_lem : (path : List ℕ) → Splits path (skipelem path)
unfolding skipelem
skipelem_lem path =
    moved-Splits path (skip_slashes path) (elem_of (skip_slashes path)) (elements-skip_slashes path)
      (length-skip_slashes path) (elem_of-Splits (skip_slashes path) (skip_slashes-NoSlash path))

-- A path that has no slash in front has names, unless it is empty.
pub elements-empty :
    (path : List ℕ) → NoSlash path → (length path == 0) ≡ (length (elements path) == 0)
elements-empty [] h = rw (elements-none) refl
elements-empty (c ∷ cs) h = rw (split-byte c cs h, split_path-take_elem c [] cs) (ground arith)
