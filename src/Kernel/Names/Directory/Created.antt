-- ===== src/Kernel/Names/Directory/Created.antt =====
-- The walk of namex of fs.c through directories, before and after dirlink.
use ncsc210_g.Base.{
  ℕ, ◌^◌, ◌<◌, ◌≡◌, refl, sym, ap, subst, ◌∙◌, inl, inr, Bool, true, false, Option, none, some,
  List, [], ◌∷◌, arith, ◌==◌, if◌then◌else◌, ==_iff, Bool-cases, Option-cases, length, get_or, take,
  All, pos, bytes_eq_refl, update,
}
use ncsc210_g.Kernel.Names.{dirsiz, Inodes, namex}
use ncsc210_g.Kernel.Names.Elements.{elements}
use ncsc210_g.Kernel.Names.Walks.{walk, namex_lem}
use ncsc210_g.Kernel.Names.Directory.{Directory, dirlookup, dirlink}
use ncsc210_g.Kernel.Names.Directory.Compared.{IsName}
use ncsc210_g.Kernel.Names.Directory.Linked.{
  same_name, number, numbers, IsLinked, dirlink-dirlookup,
}
use ncsc210_g.Kernel.Names.Directory.Alike.{split_path-IsName, same_name-dirlookup}

-- What namex goes on with; it calls dirlookup on directories only.
abbrev pub inode_found : Option (Option (ℕ × ℕ)) → Option ℕ
inode_found none = none
inode_found (some found) = number found

-- The inodes of a file system, by their numbers.
abbrev pub inodes_of : (ℕ → Directory) → Inodes ℕ
inodes_of fs = record {
  is_dir = λ ip. (fs ip).is_dir;
  dirlookup = λ ip name. inode_found (dirlookup (fs ip) name);
}

found-numbers :
    (r r1 : Option (Option (ℕ × ℕ))) → numbers r ≡ numbers r1 → inode_found r ≡ inode_found r1
found-numbers none none e = refl
found-numbers none (some b) e = absurd (ground (arith, e))
found-numbers (some a) none e = absurd (ground (arith, e))
found-numbers (some a) (some b) e = cc

-- The last name is one of those of the path.
walk-IsName :
    (fs : ℕ → Directory) (d : ℕ) (name : List ℕ) (ip : ℕ) (last : List ℕ) (ns : List (List ℕ))
    → All IsName ns
    → walk (inodes_of fs) true ip last ns ≡ some (d, name)
    → IsName name
unfolding walk
walk-IsName fs d name ip last [] g h = absurd (ground (arith, h))
walk-IsName fs d name ip last (n ∷ []) (f, _) h = elim (Bool-cases (fs ip).is_dir) [
  | inr e ↦ absurd (ground (arith, e, h))
  | inl e ↦
      let at : some (ip, n) ≡ some (d, name) = rw e at h in
      let n_is : n ≡ name = ground (arith, at) in subst IsName n_is f
]
walk-IsName fs d name ip last (n ∷ m ∷ ns) (f, g) h = elim (Bool-cases (fs ip).is_dir) [
  | inr e ↦ absurd (ground (arith, e, h))
  | inl e ↦ elim (Option-cases (inode_found (dirlookup (fs ip) n))) [
    | inl missing ↦ absurd (ground (arith, e, missing, h))
    | inr (next, found) ↦
        let longer : (length (m ∷ ns) == 0) ≡ false = ground arith in
        walk-IsName fs d name next n (m ∷ ns) g (rw (found, longer, e) at h)
  ]
]

module _ (fs : ℕ → Directory) (d : ℕ) (dp1 : Directory) (name : List ℕ) (inum : ℕ)
    (is_name : IsName name) (linked : IsLinked name inum (fs d) dp1) where
  abbrev fs1 : ℕ → Directory
  fs1 = update fs d dp1

  fs1-here : fs1 d ≡ dp1
  fs1-here = let e : (d == d) ≡ true = ground arith in rw e refl

  fs1-other : (ip : ℕ) → (d == ip) ≡ false → fs1 ip ≡ fs ip
  fs1-other ip e = rw e refl

  is_dir-linked : (ip : ℕ) → (fs1 ip).is_dir ≡ (fs ip).is_dir
  is_dir-linked ip = elim (Bool-cases (d == ip)) [
    | inl e ↦
        subst (λ i. (fs1 i).is_dir ≡ (fs i).is_dir) ((==_iff d ip).0 e)
          (ap (λ x. x.is_dir) fs1-here ∙ linked.is_dir_same)
    | inr e ↦ ap (λ x. x.is_dir) (fs1-other ip e)
  ]

  name-linked : inode_found (dirlookup (fs1 d) name) ≡ some inum
  name-linked =
      let here : same_name name name ≡ true = bytes_eq_refl (take dirsiz name) in
      let l : numbers (dirlookup dp1 name) ≡ some (some inum) =
        linked.looks name is_name ∙ rw here refl in
      ap (λ x. inode_found (dirlookup x name)) fs1-here
      ∙ found-numbers (dirlookup dp1 name) (some (some (inum, 0))) l

  -- What was found is found still.
  found_here :
      (next : ℕ) (x : List ℕ)
      → IsName x
      → inode_found (dirlookup (fs d) x) ≡ some next
      → inode_found (dirlookup (fs1 d) x) ≡ some next
  found_here next x g h = elim (Bool-cases (same_name x name)) [
    | inl s ↦
        let gone : inode_found (dirlookup (fs d) x) ≡ none =
          ap inode_found (same_name-dirlookup (fs d) x name g is_name s ∙ linked.was_absent) in
        absurd (ground (arith, h, gone))
    | inr s ↦
        let l : numbers (dirlookup dp1 x) ≡ numbers (dirlookup (fs d) x) =
          linked.looks x g ∙ rw s refl in
        ap (λ y. inode_found (dirlookup y x)) fs1-here
        ∙ found-numbers (dirlookup dp1 x) (dirlookup (fs d) x) l
        ∙ h
  ]

  found-linked :
      (ip next : ℕ) (x : List ℕ)
      → IsName x
      → inode_found (dirlookup (fs ip) x) ≡ some next
      → inode_found (dirlookup (fs1 ip) x) ≡ some next
  found-linked ip next x g h = elim (Bool-cases (d == ip)) [
    | inl e ↦
        let same : d ≡ ip = (==_iff d ip).0 e in
        subst (λ i. inode_found (dirlookup (fs1 i) x) ≡ some next) same
          (found_here next x g
            (subst (λ i. inode_found (dirlookup (fs i) x) ≡ some next) (sym same) h))
    | inr e ↦ ap (λ y. inode_found (dirlookup y x)) (fs1-other ip e) ∙ h
  ]

  walk-linked :
      (ip : ℕ) (last : List ℕ) (ns : List (List ℕ))
      → All IsName ns
      → walk (inodes_of fs) true ip last ns ≡ some (d, name)
      → walk (inodes_of fs1) false ip last ns ≡ some (inum, name)
  unfolding walk
  walk-linked ip last [] g h = absurd (ground (arith, h))
  walk-linked ip last (n ∷ []) (f, _) h = elim (Bool-cases (fs ip).is_dir) [
    | inr e ↦ absurd (ground (arith, e, h))
    | inl e ↦
        let at : some (ip, n) ≡ some (d, name) = rw e at h in
        let same : ip ≡ d = ground (arith, at) in
        let n_is : n ≡ name = ground (arith, at) in
        let kept : (fs1 ip).is_dir ≡ true = is_dir-linked ip ∙ e in
        let found : inode_found (dirlookup (fs1 ip) n) ≡ some inum =
          ap (λ i. inode_found (dirlookup (fs1 i) n)) same
          ∙ ap (λ y. inode_found (dirlookup (fs1 d) y)) n_is
          ∙ name-linked in
        rw (found, kept) (ap (λ y. some (inum, y)) n_is)
  ]
  walk-linked ip last (n ∷ m ∷ ns) (f, g) h = elim (Bool-cases (fs ip).is_dir) [
    | inr e ↦ absurd (ground (arith, e, h))
    | inl e ↦ elim (Option-cases (inode_found (dirlookup (fs ip) n))) [
      | inl missing ↦ absurd (ground (arith, e, missing, h))
      | inr (next, found) ↦
          let kept : (fs1 ip).is_dir ≡ true = is_dir-linked ip ∙ e in
          let longer : (length (m ∷ ns) == 0) ≡ false = ground arith in
          let below : walk (inodes_of fs) true next n (m ∷ ns) ≡ some (d, name) =
            rw (found, longer, e) at h in
          rw (found-linked ip next n f found, kept) (walk-linked next n (m ∷ ns) g below)
    ]
  ]

-- When a directory `d` is where a path leads to but for its last name, and dirlink links this name in it
-- to an inode and returns 0, then the path leads to this inode. Paths have no zero bytes, and namex has
-- fuel for one round more than the path has bytes.
pub namex-dirlink :
    (fs : ℕ → Directory) (fuel root cwd d : ℕ) (path name : List ℕ) (writes : Bool) (inum : ℕ)
    (dp1 : Directory)
    → IsName path
    → length path < fuel
    → 0 < inum
    → inum < 2 ^ 16
    → namex (inodes_of fs) fuel true root cwd path ≡ some (some (d, name))
    → dirlink writes (fs d) name inum ≡ some (dp1, pos 0)
    → namex (inodes_of (update fs d dp1)) fuel false root cwd path ≡ some (some (inum, name))
namex-dirlink fs fuel root cwd d path name writes inum dp1 f enough low high h l =
    let from = if get_or path 0 0 == b'/' then root else cwd in
    let names = split_path-IsName [] path tt f in
    let before : walk (inodes_of fs) true from [] (elements path) ≡ some (d, name) =
      let w = namex_lem (inodes_of fs) fuel true root cwd path enough in
      let s : some (walk (inodes_of fs) true from [] (elements path)) ≡ some (some (d, name)) =
        sym w ∙ h in
      cc in
    let is_name = walk-IsName fs d name from [] (elements path) names before in
    elim (dirlink-dirlookup writes (fs d) dp1 name inum (pos 0) is_name low high l) [
      | inl (_, linked) ↦
          namex_lem (inodes_of (update fs d dp1)) fuel false root cwd path enough
          ∙ ap some
              (walk-linked fs d dp1 name inum is_name linked from [] (elements path) names before)
      | inr (e, _, _) ↦ absurd (ground (arith, e))
    ]
