-- ===== src/Kernel/Names/Directory/Alike.antt =====
-- Names that are one to a directory, and the names of a path.
use ncsc210_g.Base.{
  ℕ, zero, suc, ◌+◌, ◌≡◌, refl, inl, inr, true, List, [], ◌∷◌, ◌++◌, ◌==◌, Bool-cases, take, All,
}
use ncsc210_g.Kernel.Names.{dirsiz}
use ncsc210_g.Kernel.Names.Elements.{split_path}
use ncsc210_g.Kernel.Names.Directory.{Dirent, Directory, dirent_size, dirlookup_from, dirlookup}
use ncsc210_g.Kernel.Names.Directory.Compared.{IsName}
use ncsc210_g.Kernel.Names.Directory.Linked.{same_name, same_name-namecmp}

-- The names of a path without zero bytes have none.
pub IsName-append : (xs ys : List ℕ) → IsName xs → IsName ys → IsName (xs ++ ys)
IsName-append [] ys f g = g
IsName-append (x ∷ xs) ys (p, f) g = (p, IsName-append xs ys f g)

pub IsName-take : (n : ℕ) (xs : List ℕ) → IsName xs → IsName (take n xs)
IsName-take zero xs f = tt
IsName-take (suc n) [] f = tt
IsName-take (suc n) (x ∷ xs) (p, f) = (p, IsName-take n xs f)

pub split_path-IsName :
    (name path : List ℕ) → IsName name → IsName path → All IsName (split_path name path)
unfolding split_path
split_path-IsName [] [] f g = tt
split_path-IsName (b ∷ bs) [] f g = (IsName-take dirsiz (b ∷ bs) f, tt)
split_path-IsName [] (c ∷ cs) f (p, g) = elim (Bool-cases (c == b'/')) [
  | inl e ↦ rw e (split_path-IsName [] cs tt g)
  | inr e ↦ rw e (split_path-IsName (c ∷ []) cs (p, tt) g)
]
split_path-IsName (b ∷ bs) (c ∷ cs) (q, f) (p, g) = elim (Bool-cases (c == b'/')) [
  | inl e ↦ rw e (IsName-take dirsiz (b ∷ bs) (q, f), split_path-IsName [] cs tt g)
  | inr e ↦
      rw e (split_path-IsName (b ∷ (bs ++ c ∷ [])) cs (q, IsName-append bs (c ∷ []) f (p, tt)) g)
]

-- Names that are one to a directory are looked up alike.
pub same_name-dirlookup_from :
    (off : ℕ) (entries : List Dirent) (x name : List ℕ)
    → IsName x
    → IsName name
    → same_name x name ≡ true
    → dirlookup_from off entries x ≡ dirlookup_from off entries name
unfolding dirlookup_from
same_name-dirlookup_from off [] x name f g s = refl
same_name-dirlookup_from off (d ∷ ds) x name f g s =
    rw
      (
        same_name-namecmp x name d.name f g s,
        same_name-dirlookup_from (off + dirent_size) ds x name f g s,
      )
      refl

pub same_name-dirlookup :
    (dp : Directory) (x name : List ℕ)
    → IsName x
    → IsName name
    → same_name x name ≡ true
    → dirlookup dp x ≡ dirlookup dp name
unfolding dirlookup
same_name-dirlookup dp x name f g s = rw (same_name-dirlookup_from 0 dp.entries x name f g s) refl
